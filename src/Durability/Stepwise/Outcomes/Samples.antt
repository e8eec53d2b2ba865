-- ===== src/Durability/Stepwise/Outcomes/Samples.antt =====
-- Passes that stop in several ways: the theorems at them.
use without.Prelude.{ℕ, ◌≢◌, ◌≡◌, List, [], ◌∷◌, ◌++◌, err}
use without.Prelude.Eq.{string_key}
use without.Durability.Stepwise.{
  Suspended, input_needed, message_needed, scheduled_wakeup, suspended, superseded, failed,
}
use without.Durability.Stepwise.Outcomes.{
  Raising, lone, group, Group, end, with, leaves, leaves_of, stopped_at, settle,
}
use without.Durability.Stepwise.Outcomes.Reported.{Reports, stopped_at-Reports}
use without.Durability.Stepwise.Outcomes.Unwound.{failures_of, Raises, settle-Raises}

-- A branch that sleeps, one that awaits an answer, and one that listens.
abbrev waits : List Suspended
waits = scheduled_wakeup "window" 9 ∷ message_needed "log" ∷ scheduled_wakeup "retry" 4 ∷ []

stopped_at-Reports_example :
    Reports
      (waits ++ (input_needed "approval" ∷ []))
      (stopped_at {E = ℕ} {A = ℕ} (input_needed "approval" ∷ []) waits)
stopped_at-Reports_example = stopped_at-Reports ℕ ℕ (input_needed "approval" ∷ []) waits

-- A group with a suspension, a failure and a claim that is lost one level down.
abbrev mixed : Group ℕ
mixed =
    with (lone (suspended (input_needed "approval")))
      (with (lone (failed 3)) (with (group (with (lone superseded) end)) end))

mixed_fails : failures_of (leaves_of mixed) ≢ []
unfolding leaves leaves_of
mixed_fails = λ e. cc e

settle-Raises_example :
    (raised : Raising ℕ) × (settle {A = ℕ} (err (group mixed)) waits ≡ err raised)
    × Raises (leaves_of mixed) raised
settle-Raises_example = settle-Raises mixed waits mixed_fails
