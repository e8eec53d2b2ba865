-- ===== src/Durability/Stepwise/Outcomes.antt =====
-- `Outcome`, `leaves`, `unwound`, `stopped_at` and `resume`
--
-- `sorted` lists a `frozenset` here, so two equal sets are equal lists.
pub mod Deadlines
pub mod Waits
pub mod Reported
pub mod Unwound
mod Samples
use without.Prelude.{
  ℕ, String, Bool, true, false, ◌&&◌, ◌||◌, Option, none, some, List, [], ◌∷◌, ◌++◌, map, ltb,
  nat_eq, if◌then◌else◌, Result, ok, err,
}
use without.Prelude.Eq.{string_key}
use without.Prelude.Dict
use without.Prelude.Dict.{Dict}
use without.Durability.Values.{Pass, Raised, Codec}
use without.Durability.Checkpointer.{Store}
use without.Durability.Checkpointer.Reads.{load}
use without.Durability.Stepwise.{
  Object, Suspended, input_needed, message_needed, scheduled_wakeup, unknown, key_of, Fault,
  suspended, superseded, contended, cancelled, index_error, value_error, type_error, swallowed,
  store_raised, failed, fault_of, Run, text_lt, set_of,
}

pub data Outcome (A : Type 0) : Type 0 where
  completed : A → Outcome A
  sleeping : String → ℕ → Outcome A
  blocked : (waiting listening : List String) → Outcome A

-- An exception: one fault, or a `BaseExceptionGroup`.
mutual
  pub data Raising (E : Type 0) : Type 0 where
    lone : Fault E → Raising E
    group : Group E → Raising E

  pub data Group (E : Type 0) : Type 0 where
    end : Group E
    with : Raising E → Group E → Group E

module _ {E : Type 0} where
  unfoldable mutual
    -- `leaves`
    pub leaves : Raising E → List (Fault E)
    leaves (lone fault) = fault ∷ []
    leaves (group exceptions) = leaves_of exceptions

    pub leaves_of : Group E → List (Fault E)
    leaves_of end = []
    leaves_of (with nested exceptions) = leaves nested ++ leaves_of exceptions

  -- `isinstance(lost, Fenced | Contended)`
  abbrev pub is_lost : Fault E → Bool
  is_lost superseded = true
  is_lost contended = true
  is_lost _ = false

  unfoldable pub first_lost : List (Fault E) → Option (Fault E)
  first_lost [] = none
  first_lost (fault ∷ faults) = if is_lost fault then some fault else first_lost faults

  abbrev pub joined : Option (Raising E) → Group E → Group E
  joined none exceptions = exceptions
  joined (some nested) exceptions = with nested exceptions

  abbrev pub unless_empty : Group E → Option (Raising E)
  unless_empty end = none
  unless_empty (with nested exceptions) = some (group (with nested exceptions))

  abbrev pub fault_left : Fault E → Option (Raising E)
  fault_left (suspended s) = none
  fault_left fault = some (lone fault)

  unfoldable mutual
    -- What `split(Suspended)` leaves of an exception; `None` where nothing is left.
    pub rest_of : Raising E → Option (Raising E)
    rest_of (lone fault) = fault_left fault
    rest_of (group exceptions) = unless_empty (rest_of_all exceptions)

    pub rest_of_all : Group E → Group E
    rest_of_all end = end
    rest_of_all (with nested exceptions) = joined (rest_of nested) (rest_of_all exceptions)

  unfoldable pub suspensions_of : List (Fault E) → List Suspended
  suspensions_of [] = []
  suspensions_of (suspended s ∷ faults) = s ∷ suspensions_of faults
  suspensions_of (_ ∷ faults) = suspensions_of faults

-- `deadlines.setdefault(each.key, each.due)`
abbrev pub set_default : String → ℕ → Option ℕ → Dict String ℕ → Dict String ℕ
set_default key due none deadlines = Dict.put key due deadlines
set_default key due (some there) deadlines = deadlines

unfoldable pub deadlines_into : List Suspended → Dict String ℕ → Dict String ℕ
deadlines_into [] deadlines = deadlines
deadlines_into (scheduled_wakeup key due ∷ rest) deadlines =
    deadlines_into rest (set_default key due (Dict.get key deadlines) deadlines)
deadlines_into (_ ∷ rest) deadlines = deadlines_into rest deadlines

-- `(due, key) < (due', key')`
abbrev pub is_sooner : String × ℕ → String × ℕ → Bool
is_sooner (key, due) (key', due') = ltb due due' || (nat_eq due due' && text_lt key key')

-- `min(deadlines.items(), key=...)`: the first of the least.
unfoldable pub earliest : String × ℕ → Dict String ℕ → String × ℕ
earliest best [] = best
earliest best (item ∷ items) = earliest (if is_sooner item best then item else best) items

-- `isinstance(each, InputNeeded)` and `isinstance(each, MessageNeeded)`
abbrev pub is_input : Suspended → Bool
is_input (input_needed key) = true
is_input _ = false

abbrev pub is_message : Suspended → Bool
is_message (message_needed key) = true
is_message _ = false

-- `each.key for each in suspensions if ...`
unfoldable pub keys_where : (Suspended → Bool) → List Suspended → List String
keys_where test [] = []
keys_where test (each ∷ rest) =
    let keys = keys_where test rest in if test each then key_of each ∷ keys else keys

module _ {E A : Type 0} where
  -- `Blocked(...)` where either set holds something, or the `TypeError`.
  abbrev pub blocked_or :
      List Suspended → (waiting listening : List String) → Result (Fault E) (Outcome A)
  blocked_or [] [] [] = err index_error
  blocked_or (first ∷ rest) [] [] = err (type_error (key_of first))
  blocked_or suspensions waiting listening = ok (blocked waiting listening)

  abbrev pub report : List Suspended → Dict String ℕ → Result (Fault E) (Outcome A)
  report suspensions (item ∷ items) = let (key, due) = earliest item items in ok (sleeping key due)
  report suspensions [] =
      blocked_or suspensions (set_of (keys_where is_input suspensions))
        (set_of (keys_where is_message suspensions))

  -- `stopped_at`
  unfoldable pub stopped_at : (raised reached : List Suspended) → Result (Fault E) (Outcome A)
  stopped_at raised reached =
      let suspensions = reached ++ raised in report suspensions (deadlines_into suspensions [])

  abbrev pub bare : Result (Fault E) (Outcome A) → Result (Raising E) (Outcome A)
  bare (ok outcome) = ok outcome
  bare (err fault) = err (lone fault)

  abbrev pub unwound_with :
      Option (Fault E)
      → Option (Raising E)
      → Result (Fault E) (Outcome A)
      → Result (Raising E) (Outcome A)
  unwound_with (some lost) failures stopped = err (lone lost)
  unwound_with none (some failures) stopped = err failures
  unwound_with none none stopped = bare stopped

  -- `unwound`
  unfoldable pub unwound : Raising E → List Suspended → Result (Raising E) (Outcome A)
  unwound raised reached =
      unwound_with (first_lost (leaves raised)) (rest_of raised)
        (stopped_at (suspensions_of (leaves raised)) reached)

  -- The handlers of `resume`, by what the body came to and what the pass has reached.
  unfoldable pub settle : Result (Raising E) A → List Suspended → Result (Raising E) (Outcome A)
  settle (ok value) [] = ok (completed value)
  settle (ok value) (first ∷ reached) =
      err (lone (swallowed (set_of (map key_of (first ∷ reached)))))
  settle (err (lone (suspended s))) reached = bare (stopped_at (s ∷ []) reached)
  settle (err (lone fault)) reached = err (lone fault)
  settle (err (group exceptions)) reached = unwound (group exceptions) reached

-- A workflow's function.
abbrev pub Body : (V World E A : Type 0) → Type 0
Body V World E A = Run V World → Result (Raising E) A × Run V World

-- The `Run` that `resume` builds.
abbrev pub opened :
    {V World : Type 0} → Pass → Dict String (Object V) → Store (Object V) → World → Run V World
opened holder recorded store world = record {
  holder = holder;
  recorded = recorded;
  claimed = [];
  reached = [];
  store = store;
  world = world;
}

module _ {V World E A : Type 0} (codec : Codec (Object V)) where
  -- `resume`, with the store and the world that it leaves
  unfoldable pub resume :
      Pass
      → Body V World E A
      → Store (Object V)
      → World
      → Result (Raising E) (Outcome A) × (Store (Object V) × World)
  resume holder body store world = elim (load codec holder.workflow store) [
    | err e ↦ (err (lone (fault_of e)), (store, world))
    | ok recorded ↦
        let (answer, r) = body (opened holder recorded store world) in
        (settle answer r.reached, (r.store, r.world))
  ]
