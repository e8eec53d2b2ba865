-- ===== src/Durability/Scheduler/Ops.antt =====
-- The calls that change a scheduler, as values, and runs of them.
use without.Prelude.{ℕ, String, List, [], ◌∷◌, ◌++◌, true, false, ◌≡◌, refl, sym}
use without.Durability.Scheduler.{
  Delivery, Scheduler, make_ready, wake_at, wake_due, take, next_ready, is_empty, reclaim, extend,
  cancel, done,
}

-- `next_ready` is `taking`, after the calls made during its wait and `clearing` where it waited.
pub data Op : Type 0 where
  readying : String → Op
  waking_at : Delivery → (when : ℕ) → Op
  waking_due : (now : ℕ) → Op
  clearing : Op
  taking : (now : ℕ) → Op
  reclaiming : (idle now : ℕ) → Op
  extending : Delivery → (within now : ℕ) → Op
  cancelling : String → Op
  finishing : Delivery → Op

unfoldable pub after : Op → Scheduler → Scheduler
after (readying w) s = make_ready w s
after (waking_at d when) s = wake_at d when s
after (waking_due now) s = (wake_due now s).1
after clearing s = record s { arrived = false }
after (taking now) s = (take now s).1
after (reclaiming idle now) s = (reclaim idle now s).1
after (extending d within now) s = (extend d within now s).1
after (cancelling w) s = cancel w s
after (finishing d) s = done d s

unfoldable pub run : List Op → Scheduler → Scheduler
run [] s = s
run (op ∷ ops) s = run ops (after op s)

run-append : (xs ys : List Op) (s : Scheduler) → run (xs ++ ys) s ≡ run ys (run xs s)
unfolding run
run-append [] ys s = refl
run-append (x ∷ xs) ys s = run-append xs ys (after x s)

-- What `next_ready` does to a scheduler with an empty queue is a run of the calls made while it waits,
-- of the clearing of the event, and of the taking.
pub next_ready-run :
    (ops : List Op) (now : ℕ) (s : Scheduler)
    → is_empty s.queue ≡ true
    → (next_ready (run ops) now s).1 ≡ run (ops ++ clearing ∷ taking now ∷ []) s
unfolding next_ready run after
next_ready-run ops now s h =
    rw (h, next_ready) (sym (run-append ops (clearing ∷ taking now ∷ []) s))
