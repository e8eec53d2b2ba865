-- ===== src/Durability/Stepwise/Steps.antt =====
-- `step`, `perform`, `covered`, `transact`, `sleep` and `awaiting` of a `Run`, and the deadline that
-- is recorded
--
-- A parser returns the fault that it raises. A call is cancelled, if at all, while the record of its
-- effect is on its way to the store: a cancellation before that is what the effect raises.
pub mod Follows
pub mod Taken
pub mod New
pub mod Noted
mod Samples
use without.Prelude.{
  ℕ, ◌+◌, String, Bool, Option, none, some, ltb, if◌then◌else◌, Result, ok, err, ◌>>=◌,
}
use without.Prelude.Eq.{string_key}
use without.Prelude.Dict
use without.Durability.Values.{Codec, Recorded, Raised}
use without.Durability.Checkpointer.{Effect, record_step, transact}
use without.Durability.Stepwise.{
  Object, nothing, written, other, scheduled_wakeup, input_needed, Fault, superseded, cancelled,
  value_error, type_error, fault_of, Readings, Run, Action, Extend, Work, and_then, note, suspend,
  claim_key, checked_duration,
}

-- `datetime.isoformat` and `datetime.fromisoformat`; `none` is a `ValueError`.
pub record IsoFormat : Type 0 where
  pub isoformat : ℕ → String
  pub fromisoformat : String → Option ℕ

abbrev pub Parse : (V E A : Type 0) → Type 0
Parse V E A = Object V → Result (Fault E) A

-- `datetime.fromisoformat(recorded)`
abbrev pub moment : {E : Type 0} → String → Option ℕ → Result (Fault E) ℕ
moment iso_text none = err (value_error iso_text)
moment iso_text (some due) = ok due

module _ {V E : Type 0} (iso : IsoFormat) where
  -- `parse_deadline`, and `parsing_deadline` when it is given a key alone
  unfoldable pub parse_deadline : String → Parse V E ℕ
  parse_deadline key (written iso_text) = moment iso_text (iso.fromisoformat iso_text)
  parse_deadline key nothing = err (type_error key)
  parse_deadline key (other v) = err (type_error key)

module _ {V World E : Type 0} (codec : Codec (Object V)) (extend : Extend V World E) where
  -- `Run.covered`
  unfoldable pub covered : Option ℕ → Readings → Action V World E (Unit {0})
  covered none at r = (ok tt, r)
  covered (some within) at r = elim (checked_duration "a step's window" within) [
    | err e ↦ (err e, r)
    | ok _ ↦
        let (answer, (store, world)) = extend r.holder within at (r.store, r.world) in
        let r' = record r { store = store; world = world } in
        (answer >>= λ held. if held then ok tt else err superseded, r')
  ]

  module _ {A : Type 0} (key : String) (parse : Parse V E A) (within : Option ℕ)
      (at : Readings) where
    -- A cancellation that came meanwhile is raised once the write has ended, whatever it came to.
    abbrev pub unless_cancelled : {B : Type 0} → Bool → Result (Fault E) B → Result (Fault E) B
    unless_cancelled stopped answer = if stopped then err cancelled else answer

    -- What `perform` makes of the store's answer.
    abbrev pub keep_record : Bool → Result Raised (Recorded (Object V)) → Action V World E A
    keep_record stopped (err e) r = (unless_cancelled stopped (err (fault_of e)), r)
    keep_record stopped (ok held) r = (
      unless_cancelled stopped (parse held.value),
      record r { recorded = Dict.put key held.value r.recorded },
    )

    -- `await self.checkpointer.record(self.holder, key, await effect())`
    unfoldable pub run_effect : Work V World E → Bool → Action V World E A
    run_effect effect stopped r =
        let (value, world) = effect r.world in
        let r1 = record r { world = world } in
        elim value [
          | err e ↦ (err e, r1)
          | ok v ↦
              let (answer, store) = record_step codec r.holder key v at.recorded at.stamp r.store in
              keep_record stopped answer (record r1 { store = store })
        ]

    -- `Run.perform`
    unfoldable pub perform : Work V World E → Bool → Action V World E A
    perform effect stopped r = elim (Dict.get key r.recorded) [
      | some held ↦ (parse held, r)
      | none ↦ and_then (covered within at) (λ _. run_effect effect stopped) r
    ]

    -- `Run.step`
    unfoldable pub step : Work V World E → Bool → Action V World E A
    step effect stopped = and_then (claim_key key) (λ _. perform effect stopped)

    -- What `transact` makes of the store's answer.
    abbrev pub keep_stored : Result Raised (Object V) → Action V World E A
    keep_stored (err e) r = (err (fault_of e), r)
    keep_stored (ok stored) r =
        (parse stored, record r { recorded = Dict.put key stored r.recorded })

    unfoldable pub run_transaction : Effect (Object V) → Action V World E A
    run_transaction effect r =
        let (answer, store) = transact codec r.holder key effect at.recorded at.stamp r.store in
        keep_stored answer (record r { store = store })

    -- `transact` once the name has been claimed
    unfoldable pub perform_stored : Effect (Object V) → Action V World E A
    perform_stored effect r = elim (Dict.get key r.recorded) [
      | some held ↦ (parse held, r)
      | none ↦ and_then (covered within at) (λ _. run_transaction effect) r
    ]

    -- `Run.transact`
    unfoldable pub transact_step : Effect (Object V) → Action V World E A
    transact_step effect = and_then (claim_key key) (λ _. perform_stored effect)

  module _ (iso : IsoFormat) where
    -- `deadline_from_now`
    abbrev pub deadline_from_now : ℕ → Readings → Work V World E
    deadline_from_now duration at world = (ok (written (iso.isoformat (at.now + duration))), world)

    -- The end of a `sleep` whose step was cancelled.
    abbrev pub note_deadline : String → Option (Object V) → Action V World E (Unit {0})
    note_deadline key none r = (err cancelled, r)
    note_deadline key (some nothing) r = (err cancelled, r)
    note_deadline key (some held) r = elim (parse_deadline iso key held) [
      | err e ↦ (err e, r)
      | ok due ↦ (err cancelled, note (scheduled_wakeup key due) r)
    ]

    -- The end of a `sleep`, by what its step came to.
    abbrev pub wait_until : String → Readings → Result (Fault E) ℕ → Action V World E (Unit {0})
    wait_until key at (ok due) r =
        if ltb at.later due then suspend (scheduled_wakeup key due) r else (ok tt, r)
    wait_until key at (err cancelled) r = note_deadline key (Dict.get key r.recorded) r
    wait_until key at (err e) r = (err e, r)

    -- `Run.sleep`
    unfoldable pub sleep : String → ℕ → Readings → Bool → Action V World E (Unit {0})
    sleep key duration at stopped r =
        let (deadline, r') =
          step key (parse_deadline iso key) none at (deadline_from_now duration at) stopped r in
        wait_until key at deadline r'

-- `Run.awaiting`
module _ {V World E A : Type 0} where
  abbrev pub answered : String → Parse V E A → Option (Object V) → Action V World E A
  answered key parse none r = suspend (input_needed key) r
  answered key parse (some held) r = (parse held, r)

  unfoldable pub awaiting : String → Parse V E A → Action V World E A
  awaiting key parse =
      and_then (claim_key key) (λ _ r. answered key parse (Dict.get key r.recorded) r)
