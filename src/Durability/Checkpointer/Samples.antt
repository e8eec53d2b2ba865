-- ===== src/Durability/Checkpointer/Samples.antt =====
-- A small store: tests, and the theorems at it.
use without.Prelude.{
  ◌+◌, ◌≤◌, ◌<◌, ◌^◌, String, ◌≡◌, refl, none, some, List, [], ◌∷◌, if◌then◌else◌, length, arith,
}
use without.Prelude.Eq.{◌==◌, string_key}
use without.Prelude.Dict
use without.Prelude.Dict.{Dict}
use without.Durability.Values.{Pass, Stored, heard_from, over, Codec}
use without.Durability.InboxKey.{inbox_key, inbox_digits, padded}
use without.Durability.Checkpointer.{
  Store, start, Effect, records_of, put_claim, put_records, grant, claim, extend, renew, release,
  discard, fence, guarded, keep, record_owned, record_step, transact_owned, transact, supply,
  append,
}
use without.Durability.Checkpointer.Ops.{
  Op, claiming, recording, transacting, appending, releasing, after, run,
}
use without.Durability.Checkpointer.Fencing.{Issued, now_issued, IsRefused, claim_fences_out}
use without.Durability.Checkpointer.Records.{stored_at, first_writer_wins}
use without.Durability.Checkpointer.Transact.{Atomic, transact-Atomic}
use without.Durability.Checkpointer.Budget.{run_within_budget}
use without.Durability.Checkpointer.Fresh.{append_fresh}

-- A codec that keeps texts as they are and has no text for the empty one.
abbrev texts : Codec String
texts = record { encode = λ v. if v == "" then none else some v; decode = some }

-- An effect that writes a balance, and one that raises after it has written.
abbrev deposit : Effect String
deposit d = (some "done", Dict.put "balance" "5" d)

abbrev fails : Effect String
fails d = (none, Dict.put "balance" "0" d)

abbrev first_pass : Pass
first_pass = record { workflow = "w"; token = 1 }

abbrev second_pass : Pass
second_pass = record { workflow = "w"; token = 2 }

-- Names all that a run unfolds.
play : List (Op String) → Store String
unfolding run after claim grant put_claim extend renew release discard records_of fence guarded keep
    put_records record_owned record_step transact_owned transact supply append heard_from over
    inbox_key padded Dict.get Dict.put Dict.remove
play ops = run texts ops start

-- A pass of the workflow records a step at the moment 5 and is superseded at 100.
abbrev story : List (Op String)
story = claiming "w" 50 10 0 ∷ recording first_pass "step" "one" 5 1005 ∷ []

story_records :
    (play story).hashes ≡ ("w", ("step", record { encoded = "one"; at = 1005 }) ∷ []) ∷ []
unfolding play
story_records = refl

second_value_loses :
    (play (
      claiming "w" 50 10 0
      ∷ recording first_pass "step" "one" 5 1005
      ∷ recording first_pass "step" "two" 6 1006
      ∷ [])).hashes
    ≡ (play story).hashes
unfolding play
second_value_loses = refl

fenced_out :
    (play (
      claiming "w" 50 10 0
      ∷ claiming "w" 50 10 100
      ∷ recording first_pass "step" "one" 101 1101
      ∷ [])).hashes
    ≡ []
unfolding play
fenced_out = refl

failing_effect :
    (play (claiming "w" 50 10 0 ∷ transacting first_pass "pay" fails 5 1005 ∷ [])).data' ≡ []
unfolding play
failing_effect = refl

effect_and_record :
    (play (claiming "w" 50 10 0 ∷ transacting first_pass "pay" deposit 5 1005 ∷ [])).data'
    ≡ ("balance", "5") ∷ []
unfolding play
effect_and_record = refl

message_key :
    (play (appending "w" "hello" 7 ∷ [])).hashes
    ≡ ("w", ("inbox:00000000000000000000", record { encoded = "hello"; at = 7 }) ∷ []) ∷ []
unfolding play
message_key = refl

first_pass-Issued : Issued texts first_pass (claim "w" 50 10 0 start).1
unfolding claim grant put_claim Dict.get
first_pass-Issued = now_issued "w" 50 10 0 start refl

claim_fences_out_example :
    IsRefused texts first_pass
      (run texts (releasing second_pass ∷ []) (claim "w" 50 10 20 (claim "w" 50 10 0 start).1).1)
unfolding claim grant put_claim Dict.get Dict.put
claim_fences_out_example =
    claim_fences_out texts first_pass second_pass 50 10 20 (claim "w" 50 10 0 start).1
      (releasing second_pass ∷ []) first_pass-Issued refl

abbrev one : Stored
one = record { encoded = "one"; at = 1005 }

first_writer_wins_example :
    stored_at "w" "step" (after texts (recording first_pass "step" "two" 6 1006) (play story))
    ≡ some one
unfolding play
first_writer_wins_example =
    first_writer_wins texts (recording first_pass "step" "two" 6 1006) (play story) "w" "step" one
      tt refl

transact-Atomic_example :
    Atomic texts "w" "pay" deposit 1005
      (play story)
      (transact texts first_pass "pay" deposit 5 1005 (play story)).1
transact-Atomic_example = transact-Atomic texts first_pass "pay" deposit 5 1005 (play story)

run_within_budget_example : 15 ≤ 50
unfolding play
run_within_budget_example =
    run_within_budget texts story "w"
      (record { token = 1; held_until = 50; alive_until = 15; alive = 10 }) refl

abbrev messages : List (Op String)
messages = appending "w" "earlier" 1005 ∷ claiming "v" 50 10 6 ∷ []

messages-fit : length (records_of "w" (play messages)) < 10 ^ inbox_digits
unfolding play
messages-fit = omega arith

append_fresh_example :
    (stored_at "w"
        (inbox_key (length (records_of "w" (run texts messages start))))
        (run texts messages start)
      ≡ none)
    × (stored_at "w"
          (inbox_key (length (records_of "w" (run texts messages start))))
          (append texts "w" "hello" 1007 (run texts messages start)).1
        ≡ some (record { encoded = "hello"; at = 1007 }))
    × (length (records_of "w" (append texts "w" "hello" 1007 (run texts messages start)).1)
        ≡ length (records_of "w" (run texts messages start)) + 1)
unfolding play
append_fresh_example =
    append_fresh texts messages "w" "hello" 1007 "hello" (tt, (tt, tt)) messages-fit refl

abbrev loaded_story : Dict String String
loaded_story = ("step", "one") ∷ []
