-- ===== src/Durability/Stepwise.antt =====
-- The parts of packages/without_durability/src/without_durability/stepwise.py that a pass is made of
--
-- A method of `Run` takes the run and returns it beside the result or the exception: what a pass did
-- before a raise stays done. The store is the one of Checkpointer; `World` is everything else that an
-- effect or an `extend` may read and change. A set of names is a list.
pub mod Names
pub mod Steps
pub mod Inbox
pub mod Outcomes
pub mod Extending
pub mod Program
mod Stories
use Prim.Native.Char.{code}
use Prim.Native.String.{[] as nil, ◌∷◌ as cons}
use text.Mathlib.Text.{starts_with}
use without.Prelude.{
  ℕ, String, Bool, true, false, ◌||◌, ◌&&◌, Option, none, some, List, [], ◌∷◌, ◌++◌, ltb, nat_eq,
  if◌then◌else◌, Result, ok, err,
}
use without.Prelude.Eq.{◌==◌, string_key}
use without.Prelude.Dict.{Dict}
use without.Durability.Values.{Pass, Raised, fenced, key_error, refused, effect_failed}
use without.Durability.Checkpointer.{Store}
use without.Durability.SplitDurable.{check_duration}

-- What a checkpoint holds, as far as this file tells values apart: `None`, a `str`, anything else.
pub data Object (V : Type 0) : Type 0 where
  nothing : Object V
  written : String → Object V
  other : V → Object V

-- `Suspended`: the ways of waiting, and one that is none of the three.
pub data Suspended : Type 0 where
  input_needed message_needed : String → Suspended
  scheduled_wakeup : String → ℕ → Suspended
  unknown : String → Suspended

abbrev pub key_of : Suspended → String
key_of (input_needed key) = key
key_of (message_needed key) = key
key_of (scheduled_wakeup key due) = key
key_of (unknown key) = key

-- An exception that is no group: a suspension, the two ways of losing the claim, a cancellation, the
-- refusals of this file and of the store, `Swallowed`, and what the workflow's own code raises.
pub data Fault (E : Type 0) : Type 0 where
  suspended : Suspended → Fault E
  superseded contended cancelled index_error : Fault E
  value_error type_error : String → Fault E
  swallowed : List String → Fault E
  store_raised : Raised → Fault E
  failed : E → Fault E

abbrev pub fault_of : {E : Type 0} → Raised → Fault E
fault_of fenced = superseded
fault_of key_error = store_raised key_error
fault_of refused = store_raised refused
fault_of effect_failed = store_raised effect_failed

-- What the clocks say during one call: the pass's clock before and after the call's effect, and the
-- store's clocks when it extends the claim and when it records.
pub record Readings : Type 0 where
  pub now : ℕ
  pub later : ℕ
  pub extended : ℕ
  pub recorded : ℕ
  pub stamp : ℕ

-- The part of a `Run` that changes in a pass, with the store and the world that it changes.
pub record Run (V World : Type 0) : Type 0 where
  pub holder : Pass
  pub recorded : Dict String (Object V)
  pub claimed : List String
  pub reached : List Suspended
  pub store : Store (Object V)
  pub world : World

abbrev pub Action : (V World E A : Type 0) → Type 0
Action V World E A = Run V World → Result (Fault E) A × Run V World

-- `Extend`, and an effect: what it returned or raised, and what it left behind.
abbrev pub Extend : (V World E : Type 0) → Type 0
Extend V World E =
    Pass
    → ℕ
    → Readings
    → Store (Object V) × World
    → Result (Fault E) Bool × (Store (Object V) × World)

abbrev pub Work : (V World E : Type 0) → Type 0
Work V World E = World → Result (Fault E) (Object V) × World

-- `Run.note`
unfoldable pub note : {V World : Type 0} → Suspended → Run V World → Run V World
note suspension r = record r { reached = r.reached ++ (suspension ∷ []) }

module _ {V World E : Type 0} where
  abbrev pub and_then :
      {A B : Type 0} → Action V World E A → (A → Action V World E B) → Action V World E B
  and_then first next r =
      let (answer, r') = first r in elim answer [ err e ↦ (err e, r') | ok a ↦ next a r' ]

  -- `raise self.note(...)`
  abbrev pub suspend : {A : Type 0} → Suspended → Action V World E A
  suspend suspension r = (err (suspended suspension), note suspension r)

-- `key in self.claimed`
unfoldable pub is_in : String → List String → Bool
is_in key [] = false
is_in key (used ∷ names) = (used == key) || is_in key names

-- INBOX
abbrev pub inbox : String
inbox = "inbox:"

module _ {V World E : Type 0} where
  -- `Run.claim`
  unfoldable pub claim_key : String → Action V World E (Unit {0})
  claim_key key r =
      if starts_with key inbox || is_in key r.claimed
      then (err (value_error key), r)
      else (ok tt, record r { claimed = key ∷ r.claimed })

-- `check_duration`, with what it raises
unfoldable pub checked_duration : {E : Type 0} → String → ℕ → Result (Fault E) (Unit {0})
checked_duration name duration = if check_duration duration then ok tt else err (value_error name)

-- Python's `<` of texts: by code points, from the left.
unfoldable pub text_lt : String → String → Bool
text_lt nil nil = false
text_lt nil (cons d t) = true
text_lt (cons c s) nil = false
text_lt (cons c s) (cons d t) = ltb (code c) (code d) || (nat_eq (code c) (code d) && text_lt s t)

-- A set of texts, as `sorted` lists it: each once, in order.
unfoldable pub put_text : String → List String → List String
put_text key [] = key ∷ []
put_text key (k ∷ keys) =
    let rest = put_text key keys in
    if key == k then k ∷ keys else if text_lt key k then key ∷ k ∷ keys else k ∷ rest

unfoldable pub set_of : List String → List String
set_of [] = []
set_of (key ∷ keys) = put_text key (set_of keys)
