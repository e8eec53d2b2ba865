-- ===== src/Durability/Scheduler.antt =====
-- `MemoryScheduler` of packages/without_durability/src/without_durability/memory.py, and `Delivery`
-- of interfaces.py
--
-- A receipt is the text of a number of the counter `receipts`, and stands here as that number. A
-- reading of the monotonic clock is the argument `now`; a datetime is a count of ticks.
pub mod Ops
pub mod Sound
pub mod Deliveries
pub mod Cancel
pub mod Answers
pub mod Wakeups
mod Samples
use without.Prelude.{
  ℕ, suc, ◌+◌, String, Bool, true, false, Option, none, some, List, [], ◌∷◌, ◌++◌, leb,
  if◌then◌else◌,
}
use without.Prelude.Eq.{◌==◌, nat_key, string_key}
use without.Prelude.Dict
use without.Prelude.Dict.{Dict}

pub record Delivery : Type 0 where
  pub workflow : String
  pub receipt : ℕ

-- When a delivery was taken: `moment - less`, which may lie before the clock's zero.
pub record Since : Type 0 where
  pub moment : ℕ
  pub less : ℕ

pub record Scheduler : Type 0 where
  pub queue : List String
  pub sleeping : Dict String ℕ
  pub outstanding : Dict ℕ (Delivery × Since)
  pub arrived : Bool
  pub receipts : ℕ
  pub lease : ℕ

-- `since <= now - idle`
unfoldable pub is_stale : (idle now : ℕ) → Since → Bool
is_stale idle now since = leb (since.moment + idle) (now + since.less)

-- `make_ready`
unfoldable pub make_ready : String → Scheduler → Scheduler
make_ready workflow s = record s { queue = s.queue ++ workflow ∷ []; arrived = true }

-- `wake_at`: the deadline is written only for a delivery that is still held.
unfoldable pub wake_at : Delivery → ℕ → Scheduler → Scheduler
wake_at delivery when s = elim (Dict.get delivery.receipt s.outstanding) [
  | none ↦ s
  | some held ↦ record s {
    outstanding = Dict.remove delivery.receipt s.outstanding;
    sleeping = Dict.put delivery.workflow when s.sleeping;
  }
]

unfoldable pub due_of : ℕ → Dict String ℕ → List String
due_of now [] = []
due_of now ((workflow, when) ∷ sleeping) =
    let rest = due_of now sleeping in if leb when now then workflow ∷ rest else rest

-- The loop of `wake_due` over the workflows that are due.
unfoldable pub enqueue_all : List String → Scheduler → Scheduler
enqueue_all [] s = s
enqueue_all (workflow ∷ due) s =
    enqueue_all due
      (record s { sleeping = Dict.remove workflow s.sleeping; queue = s.queue ++ workflow ∷ [] })

abbrev pub is_empty {ℓ} : {A : Type ℓ} → List A → Bool
is_empty [] = true
is_empty (x ∷ xs) = false

-- `wake_due`
unfoldable pub wake_due : ℕ → Scheduler → List String × Scheduler
wake_due now s =
    let due = due_of now s.sleeping in
    let woken = enqueue_all due s in
    (due, if is_empty due then woken else record woken { arrived = true })

-- `next_ready` after its wait, by what is in the queue.
unfoldable pub take_from : List String → ℕ → Scheduler → Option Delivery × Scheduler
take_from [] now s = (none, s)
take_from (workflow ∷ queue) now s =
    let delivery : Delivery = record { workflow = workflow; receipt = s.receipts } in
    (
      some delivery,
      record s {
        queue = queue;
        receipts = suc s.receipts;
        outstanding =
            Dict.put s.receipts (delivery, record { moment = now; less = 0 }) s.outstanding;
      },
    )

abbrev pub take : ℕ → Scheduler → Option Delivery × Scheduler
take now s = take_from s.queue now s

-- `next_ready`, where `meanwhile` is what other tasks do to the scheduler during the wait.
unfoldable pub next_ready : (Scheduler → Scheduler) → ℕ → Scheduler → Option Delivery × Scheduler
next_ready meanwhile now s =
    if is_empty s.queue then take now (record (meanwhile s) { arrived = false }) else take now s

-- The first delivery held since `now - idle` or longer.
unfoldable pub first_stale : (idle now : ℕ) → Dict ℕ (Delivery × Since) → Option Delivery
first_stale idle now [] = none
first_stale idle now ((receipt, (delivery, since)) ∷ outstanding) =
    let rest = first_stale idle now outstanding in
    if is_stale idle now since then some delivery else rest

-- `reclaim`
unfoldable pub reclaim : (idle now : ℕ) → Scheduler → Option Delivery × Scheduler
reclaim idle now s = elim (first_stale idle now s.outstanding) [
  | none ↦ (none, s)
  | some taken ↦ (
    some taken,
    record s {
      outstanding = Dict.put taken.receipt (taken, record { moment = now; less = 0 }) s.outstanding;
    },
  )
]

-- `extend`
unfoldable pub extend : Delivery → (within now : ℕ) → Scheduler → Delivery × Scheduler
extend delivery within now s = elim (Dict.get delivery.receipt s.outstanding) [
  | none ↦ (delivery, s)
  | some (held, since) ↦ (
    delivery,
    record s {
      outstanding =
          Dict.put delivery.receipt (held, record { moment = now + within; less = s.lease })
            s.outstanding;
    },
  )
]

-- The receipts that `cancel` deletes.
unfoldable pub receipts_of : String → Dict ℕ (Delivery × Since) → List ℕ
receipts_of workflow [] = []
receipts_of workflow ((receipt, (delivery, since)) ∷ outstanding) =
    let rest = receipts_of workflow outstanding in
    if delivery.workflow == workflow then receipt ∷ rest else rest

unfoldable pub remove_all : List ℕ → Dict ℕ (Delivery × Since) → Dict ℕ (Delivery × Since)
remove_all [] outstanding = outstanding
remove_all (receipt ∷ stale) outstanding = remove_all stale (Dict.remove receipt outstanding)

unfoldable pub without_workflow : String → List String → List String
without_workflow workflow [] = []
without_workflow workflow (queued ∷ queue) =
    let rest = without_workflow workflow queue in if queued == workflow then rest else queued ∷ rest

-- `cancel`
unfoldable pub cancel : String → Scheduler → Scheduler
cancel workflow s = record s {
  sleeping = Dict.remove workflow s.sleeping;
  outstanding = remove_all (receipts_of workflow s.outstanding) s.outstanding;
  queue = without_workflow workflow s.queue;
}

-- `done`
unfoldable pub done : Delivery → Scheduler → Scheduler
done delivery s = record s { outstanding = Dict.remove delivery.receipt s.outstanding }
