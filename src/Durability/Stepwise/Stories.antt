-- ===== src/Durability/Stepwise/Stories.antt =====
-- A small workflow, its clocks and its store, for the tests.
use Prim.Native.Char.{code}
use Prim.Native.String.{[] as nil, ◌∷◌ as cons}
use without.Prelude.{
  ℕ, String, Bool, false, Option, none, some, List, [], ◌∷◌, nat_eq, if◌then◌else◌, Result, ok,
}
use without.Prelude.Eq.{◌==◌, string_key}
use without.Prelude.Dict
use without.Prelude.Dict.{Dict}
use without.Durability.Values.{Pass, Codec, heard_from, over}
use without.Durability.InboxKey.{inbox_key, padded}
use without.Durability.Checkpointer.{
  Store, start, records_of, put_claim, put_records, grant, claim, extend, renew, release, discard,
  fence, guarded, keep, record_owned, record_step, transact_owned, transact, supply, append,
}
use without.Durability.Checkpointer.Ops.{Op, claiming, supplying, after, run}
use without.Durability.Checkpointer.Reads.{load, load_records}
use without.Durability.SplitDurable.{check_duration}
use without.Durability.Stepwise.{
  Object, nothing, written, other, Readings, Extend, note, is_in, claim_key, checked_duration,
}
use without.Durability.Stepwise.Steps.{
  IsoFormat, parse_deadline, covered, run_effect, perform, step, sleep, awaiting,
}
use without.Durability.Stepwise.Extending.{Grant, extend_grant}
use without.Durability.Stepwise.Program.{
  Program, return, stepping, sleeping_for, awaiting_on, pass_of, body_of,
}
use without.Durability.Stepwise.Outcomes.{Outcome, Raising, stopped_at, settle, resume}

-- A codec for `None` and texts, a mark before each.
abbrev pub read : String → Option (Object ℕ)
read nil = none
read (cons c text) = if nat_eq (code c) 115 then some (written text) else some nothing

abbrev pub codec : Codec (Object ℕ)
codec = record {
  encode =
      λ v. elim v [ nothing ↦ some "n" | written text ↦ some (cons "s" text) | other x ↦ none ];
  decode = read;
}

-- Moments as six digits.
abbrev pub moments : IsoFormat
moments = record {
  isoformat = padded 6;
  fromisoformat = λ text. if text == "000015" then some 15 else none;
}

abbrev pub first_pass : Pass
first_pass = record { workflow = "w"; token = 1 }

abbrev pub second_pass : Pass
second_pass = record { workflow = "w"; token = 2 }

-- A pass that is at its sleep at 5 and wakes at 20; one that runs a day later.
abbrev pub today : String → Readings
today key = record { now = 5; later = 20; extended = 6; recorded = 7; stamp = 1007 }

abbrev pub tomorrow : String → Readings
tomorrow key = record { now = 90; later = 95; extended = 96; recorded = 97; stamp = 1097 }

abbrev pub never : String → Bool
never key = false

abbrev pub Ordinary : Extend ℕ Grant ℕ
Ordinary = extend_grant none

-- Reserve, wait out a window, and return what an approval says.
abbrev pub shipping : Program ℕ Grant ℕ (Object ℕ)
shipping =
    stepping "reserve" (some 30) (λ world. (ok (written "r1"), world))
      (λ _. sleeping_for "window" 10 (awaiting_on "approval" (λ v. return v)))

abbrev pub unasked : Grant
unasked = record { since = 0; covered = 0 }

-- A pass at the workflow, on the store that some calls have left.
unfoldable pub play : List (Op (Object ℕ)) → Store (Object ℕ)
unfolding run after claim grant put_claim extend renew release discard records_of fence guarded keep
    put_records record_owned record_step transact_owned transact supply append heard_from over
    inbox_key padded Dict.get Dict.put Dict.remove
play ops = run codec ops start

unfoldable pub passed :
    (String → Readings)
    → Pass
    → Store (Object ℕ)
    → Result (Raising ℕ) (Outcome (Object ℕ)) × (Store (Object ℕ) × Grant)
unfolding play resume settle load load_records pass_of claim_key is_in step perform covered
    checked_duration check_duration run_effect sleep parse_deadline note awaiting extend_grant
    records_of Dict.get Dict.put record_step guarded fence record_owned keep put_records put_claim
    extend heard_from padded stopped_at
passed at holder s =
    resume codec holder (body_of codec moments Ordinary at never shipping) s unasked

abbrev pub unanswered : List (Op (Object ℕ))
unanswered = claiming "w" 60 30 0 ∷ []

abbrev pub approved : List (Op (Object ℕ))
approved = claiming "w" 60 30 0 ∷ supplying "w" "approval" (written "yes") 1001 ∷ []
