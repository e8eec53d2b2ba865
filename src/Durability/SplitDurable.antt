-- ===== src/Durability/SplitDurable.antt =====
-- `SplitDurable` and `claimed` of packages/without_durability/src/without_durability/interfaces.py,
-- over the stores of memory.py
pub mod Arrivals
mod Samples
use without.Prelude.{
  ℕ, String, Bool, true, false, Option, none, some, List, [], ◌∷◌, nat_eq, if◌then◌else◌, Result,
  ok, err,
}
use without.Durability.Values.{Pass, Entry, Raised, Codec}
use without.Durability.Checkpointer.{Store, claim, supply, append, discard}
use without.Durability.Scheduler.{Scheduler, make_ready, cancel}

pub record SplitDurable (Value : Type 0) : Type 0 where
  pub checkpointer : Store Value
  pub scheduler : Scheduler

-- What follows the checkpointer's half of a write: the wakeup, unless that half raised.
unfoldable pub then_ready {ℓ} :
    {Value : Type 0} {A : Type ℓ}
    → String
    → Result Raised A × Store Value
    → Scheduler
    → Result Raised A × SplitDurable Value
then_ready workflow (ok a, s) q =
    (ok a, record { checkpointer = s; scheduler = make_ready workflow q })
then_ready workflow (err e, s) q = (err e, record { checkpointer = s; scheduler = q })

module _ {Value : Type 0} (codec : Codec Value) where
  -- `arrive`
  unfoldable pub arrive :
      String
      → String
      → Value
      → (stamp : ℕ) → SplitDurable Value
      → Result Raised Value × SplitDurable Value
  arrive workflow key value stamp d =
      then_ready workflow (supply codec workflow key value stamp d.checkpointer) d.scheduler

  -- `deliver`
  unfoldable pub deliver :
      String
      → Value
      → (stamp : ℕ) → SplitDurable Value
      → Result Raised (Entry Value) × SplitDurable Value
  deliver workflow value stamp d =
      then_ready workflow (append codec workflow value stamp d.checkpointer) d.scheduler

-- `delete`
unfoldable pub delete : {Value : Type 0} → String → SplitDurable Value → ℕ × SplitDurable Value
delete workflow d =
    let cancelled = cancel workflow d.scheduler in
    let (removed, s) = discard workflow d.checkpointer in
    (removed, record { checkpointer = s; scheduler = cancelled })

-- What `claimed` may raise: a `ValueError` and `Contended`.
pub data Refusal : Type 0 where
  not_positive contended : Refusal

-- `check_duration`, of a duration that is not negative
unfoldable pub check_duration : ℕ → Bool
check_duration d = if nat_eq d 0 then false else true

-- `claimed`
unfoldable pub claimed :
    {Value : Type 0}
    → String
    → (budget alive now : ℕ) → Store Value
    → Result Refusal Pass × Store Value
claimed workflow budget alive now s =
    if check_duration budget
    then (if check_duration alive
        then (let (answer, s') = claim workflow budget alive now s in
            (elim answer [ none ↦ err contended | some holder ↦ ok holder ], s'))
        else (err not_positive, s))
    else (err not_positive, s)
