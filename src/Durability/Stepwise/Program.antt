-- ===== src/Durability/Stepwise/Program.antt =====
-- Workflows as values: the bodies that are written with `step`, `transact`, `sleep` and `awaiting`
--
-- A parser that raises is a program that raises. What the clocks say in a pass, and the steps that
-- it is cancelled in, are functions of the name of the step.
pub mod Repeats
pub mod Replay
mod Samples
use without.Prelude.{ℕ, String, Bool, Option, none, Result, ok, err}
use without.Durability.Values.{Codec}
use without.Durability.Checkpointer.{Effect}
use without.Durability.Stepwise.{Object, Fault, Readings, Run, Action, Extend, Work, and_then}
use without.Durability.Stepwise.Steps.{IsoFormat, step, transact_step, sleep, awaiting}
use without.Durability.Stepwise.Outcomes.{Raising, lone, Body}

pub data Program (V World E A : Type 0) : Type 0 where
  return : A → Program V World E A
  raise : Fault E → Program V World E A
  stepping :
      String → Option ℕ → Work V World E → (Object V → Program V World E A) → Program V World E A
  transacting :
      String → Option ℕ → Effect (Object V) → (Object V → Program V World E A) → Program V World E A
  sleeping_for : String → ℕ → Program V World E A → Program V World E A
  awaiting_on : String → (Object V → Program V World E A) → Program V World E A

-- What a workflow's function raises is no group.
abbrev pub raised_of : {E A : Type 0} → Result (Fault E) A → Result (Raising E) A
raised_of (ok value) = ok value
raised_of (err fault) = err (lone fault)

module _ {V World E A : Type 0} (codec : Codec (Object V)) (iso : IsoFormat) where
  -- One pass at the workflow.
  unfoldable pub pass_of :
      Extend V World E
      → (String → Readings)
      → (String → Bool)
      → Program V World E A
      → Action V World E A
  pass_of extend at stops (return value) r = (ok value, r)
  pass_of extend at stops (raise fault) r = (err fault, r)
  pass_of extend at stops (stepping key within effect next) r =
      and_then (step codec extend key ok within (at key) effect (stops key))
        (λ v. pass_of extend at stops (next v)) r
  pass_of extend at stops (transacting key within effect next) r =
      and_then (transact_step codec extend key ok within (at key) effect)
        (λ v. pass_of extend at stops (next v)) r
  pass_of extend at stops (sleeping_for key duration next) r =
      and_then (sleep codec extend iso key duration (at key) (stops key))
        (λ _. pass_of extend at stops next) r
  pass_of extend at stops (awaiting_on key next) r =
      and_then (awaiting key ok) (λ v. pass_of extend at stops (next v)) r

  -- The workflow's function, as `resume` takes it.
  abbrev pub body_of :
      Extend V World E
      → (String → Readings)
      → (String → Bool)
      → Program V World E A
      → Body V World E A
  body_of extend at stops program r =
      let (answer, r') = pass_of extend at stops program r in (raised_of answer, r')
