-- ===== src/Durability/Stepwise/Extending.antt =====
-- `extending`: an `Extend` that asks the store only for time that the claim does not cover
--
-- The world of a pass holds what the closure remembers. A difference of two readings may be negative,
-- so `now() - since` has its `since` on the other side of the `<=`.
pub mod Covers
use without.Prelude.{
  ℕ, ◌+◌, String, Bool, true, false, Option, none, some, leb, if◌then◌else◌, Result, ok, err, ◌>>=◌,
}
use without.Durability.Values.{Pass, Raised}
use without.Durability.Checkpointer.{Store, extend}
use without.Durability.Stepwise.{Object, Fault, fault_of, Readings, Extend, checked_duration}

-- `since` and `covered`: when the store last granted time, and how much.
pub record Grant : Type 0 where
  pub since : ℕ
  pub covered : ℕ

abbrev pub or_zero : Option ℕ → ℕ
or_zero none = 0
or_zero (some granted) = granted

abbrev pub window_of : Option ℕ → ℕ → ℕ
window_of none budget = budget
window_of (some alive) budget = alive

abbrev pub check_given : {E : Type 0} → String → Option ℕ → Result (Fault E) (Unit {0})
check_given name none = ok tt
check_given name (some duration) = checked_duration name duration

-- What an `extending` that is built at `now` remembers.
unfoldable pub built : {E : Type 0} → Option ℕ → Option ℕ → ℕ → Result (Fault E) Grant
built granted alive now = check_given "a budget" granted >>= λ _.
    check_given "a liveness window" alive >>= λ _.
    ok (record { since = now; covered = or_zero granted })

module _ {V E : Type 0} where
  -- What the store's answer leaves, `now` being when it came.
  abbrev pub granted_by :
      Grant
      → ℕ
      → ℕ
      → Result Raised Bool
      → Store (Object V)
      → Result (Fault E) Bool × (Store (Object V) × Grant)
  granted_by grant budget now (err e) store = (err (fault_of e), (store, grant))
  granted_by grant budget now (ok false) store = (ok false, (store, grant))
  granted_by grant budget now (ok true) store =
      (ok true, (store, record { since = now; covered = budget }))

  -- `extend`, the function that `extending` returns
  unfoldable pub extend_grant : Option ℕ → Extend V Grant E
  extend_grant alive holder budget at (store, grant) =
      let window = window_of alive budget in
      if leb (at.now + budget + window) (grant.covered + grant.since)
      then (ok true, (store, grant))
      else let (answer, store') = extend holder budget window at.extended store in
        granted_by grant budget at.later answer store'
