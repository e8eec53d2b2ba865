-- ===== src/Durability/Stepwise/Steps/Noted.antt =====
-- The first pass through a `sleep`: its deadline is recorded, and noted.
use text.Mathlib.Text.{starts_with}
use without.Prelude.{
  ℕ, ◌+◌, String, Bool, true, false, ◌||◌, ◌≡◌, refl, ap, ◌∙◌, none, some, ◌∷◌, ltb, if◌then◌else◌,
  Result, ok, err,
}
use without.Prelude.Eq.{string_key}
use without.Prelude.Dict
use without.Durability.Values.{Codec, Recorded}
use without.Durability.Checkpointer.{record_step}
use without.Durability.Stepwise.{
  Object, written, Fault, suspended, cancelled, scheduled_wakeup, Readings, Run, Extend, note,
  inbox, is_in,
}
use without.Durability.Stepwise.Steps.{
  IsoFormat, parse_deadline, perform, step, deadline_from_now, note_deadline, wait_until, sleep,
}
use without.Durability.Stepwise.Steps.New.{RoundTrips, IsNew, perform-accepted, claim_key-free}

module _ {V World E : Type 0} (codec : Codec (Object V)) (extend : Extend V World E) where
  -- What a first `sleep` leaves of a run: its name used, its deadline recorded and written.
  abbrev pub slept : IsoFormat → String → ℕ → Readings → Run V World → Run V World
  slept iso key due at r = record r {
    claimed = key ∷ r.claimed;
    recorded = Dict.put key (written (iso.isoformat due)) r.recorded;
    store =
        (record_step codec r.holder key (written (iso.isoformat due)) at.recorded at.stamp
          r.store).1;
  }

  -- What a first `sleep` comes to.
  abbrev pub sleep_over :
      String → ℕ → Readings → Bool → Run V World → Result (Fault E) (Unit {0}) × Run V World
  sleep_over key due at true r = (err cancelled, note (scheduled_wakeup key due) r)
  sleep_over key due at false r =
      if ltb at.later due
      then (err (suspended (scheduled_wakeup key due)), note (scheduled_wakeup key due) r)
      else (ok tt, r)

  sleep_ends :
      (iso : IsoFormat) (key : String) (due : ℕ) (at : Readings) (stopped : Bool) (u : Run V World)
      → Dict.get key u.recorded ≡ some (written (iso.isoformat due))
      → iso.fromisoformat (iso.isoformat due) ≡ some due
      → wait_until codec extend iso key at
          (if stopped
            then err cancelled
            else parse_deadline {V = V} iso key (written (iso.isoformat due)))
          u
        ≡ sleep_over key due at stopped u
  unfolding parse_deadline
  sleep_ends iso key due at true u there parses =
      let noted : parse_deadline {V = V} {E = E} iso key (written (iso.isoformat due)) ≡ ok due =
        rw parses refl in
      rw there (rw (noted, note_deadline) refl)
  sleep_ends iso key due at false u there parses = rw parses refl

  -- A `sleep` under a name that is new to the run and to its store, where the moment's text comes back
  -- from the codec and is read as the moment, and the store takes the record: the moment at the end
  -- of the duration is recorded. It is noted on the run if it is not past when the record is there,
  -- and whenever the call is cancelled while the record is written.
  pub sleep_noted :
      (iso : IsoFormat) (key : String) (duration : ℕ) (at : Readings) (stopped : Bool)
      (r : Run V World) (held : Recorded (Object V))
      → (starts_with key inbox || is_in key r.claimed) ≡ false
      → IsNew key r
      → RoundTrips codec (written (iso.isoformat (at.now + duration)))
      → iso.fromisoformat (iso.isoformat (at.now + duration)) ≡ some (at.now + duration)
      → (record_step codec r.holder key
          (written (iso.isoformat (at.now + duration)))
          at.recorded
          at.stamp
          r.store).0
        ≡ ok held
      → sleep codec extend iso key duration at stopped r
        ≡ sleep_over key (at.now + duration) at stopped (slept iso key (at.now + duration) at r)
  unfolding sleep step
  sleep_noted iso key duration at stopped r held free new trips parses fine =
      let due = at.now + duration in
      let stepped =
        claim_key-free codec key
          (perform codec extend key (parse_deadline iso key) none at
            (deadline_from_now codec extend iso duration at) stopped)
          r free
        ∙ perform-accepted codec extend key (parse_deadline iso key) at
            (written (iso.isoformat due)) stopped (record r { claimed = key ∷ r.claimed }) held new
            trips fine in
      ap (λ p. wait_until codec extend iso key at p.0 p.1) stepped
      ∙ sleep_ends iso key due at stopped (slept iso key due at r)
          (Dict.get-put key key (written (iso.isoformat due)) r.recorded
            ∙ rw ((string_key.beq_iff key key).1 refl) refl)
          parses
