-- ===== src/Durability/Scheduler/Samples.antt =====
-- A small scheduler: tests, and the theorems at it.
use without.Prelude.{◌≡◌, ◌≢◌, refl, sym, true, none, List, [], ◌∷◌, All, arith}
use without.Prelude.Eq.{nat_key, string_key}
use without.Prelude.Dict
use without.Prelude.Dict.{Dict}
use without.Durability.Scheduler.{
  Delivery, Scheduler, is_stale, make_ready, wake_at, wake_due, enqueue_all, due_of, take_from,
  first_stale, reclaim, extend, receipts_of, remove_all, without_workflow, cancel, done,
}
use without.Durability.Scheduler.Ops.{
  Op, readying, waking_at, waking_due, clearing, taking, reclaiming, extending, cancelling, after,
  run,
}
use without.Durability.Scheduler.Sound.{IsSound}
use without.Durability.Scheduler.{next_ready}
use without.Durability.Scheduler.Ops.{next_ready-run}
use without.Durability.Scheduler.Deliveries.{IsOut, delivery_stays-IsOut}
use without.Durability.Scheduler.Cancel.{cancel_forgets}
use without.Durability.Scheduler.Answers.{cancel_final}

-- One workflow out with a worker, one queued and one asleep.
abbrev out : Delivery
out = record { workflow = "a"; receipt = 0 }

abbrev busy : Scheduler
busy = record {
  queue = "b" ∷ [];
  sleeping = ("c", 50) ∷ ("d", 90) ∷ [];
  outstanding = (0, (out, record { moment = 10; less = 0 })) ∷ [];
  arrived = true;
  receipts = 1;
  lease = 30;
}

busy-IsSound : IsSound busy
unfolding Dict.get
busy-IsSound = (((refl, omega arith), tt), (refl, tt), (refl, (refl, tt)))

-- Names all that a run unfolds.
play : List Op → Scheduler → Scheduler
unfolding run after make_ready wake_at wake_due enqueue_all due_of take_from first_stale reclaim
    is_stale extend receipts_of remove_all without_workflow cancel done Dict.get Dict.put
    Dict.remove next_ready
play ops s = run ops s

wakes_due : (play (waking_due 60 ∷ []) busy).queue ≡ "b" ∷ "c" ∷ []
unfolding play
wakes_due = refl

takes_next :
    (play (taking 20 ∷ []) busy).outstanding
    ≡ (0, (out, record { moment = 10; less = 0 }))
      ∷ (1, (record { workflow = "b"; receipt = 1 }, record { moment = 20; less = 0 }))
      ∷ []
unfolding play
takes_next = refl

cancelled_underneath : (play (cancelling "a" ∷ waking_at out 70 ∷ []) busy).sleeping ≡ busy.sleeping
unfolding play
cancelled_underneath = refl

delivery_stays-IsOut_example :
    IsOut out (run (extending out 40 20 ∷ reclaiming 5 60 ∷ cancelling "b" ∷ []) busy)
unfolding Dict.get
delivery_stays-IsOut_example =
    delivery_stays-IsOut (extending out 40 20 ∷ reclaiming 5 60 ∷ cancelling "b" ∷ []) out busy
      busy-IsSound (tt, (tt, ((λ e. cc (sym ((string_key.beq_iff "a" "b").1 e))), tt)))
      (record { moment = 10; less = 0 }, refl)

cancel_forgets_example :
    All (λ v. v ≢ "b") (cancel "b" busy).queue
    × (Dict.get "b" (cancel "b" busy).sleeping ≡ none)
    × All (λ e. e.1.0.workflow ≢ "b") (cancel "b" busy).outstanding
cancel_forgets_example = cancel_forgets "b" busy

cancel_final_example :
    wake_at out 70 (run (readying "a" ∷ taking 20 ∷ []) (cancel "a" busy))
    ≡ run (readying "a" ∷ taking 20 ∷ []) (cancel "a" busy)
unfolding Dict.get
cancel_final_example =
    cancel_final (readying "a" ∷ taking 20 ∷ []) out (record { moment = 10; less = 0 }) 70 busy
      busy-IsSound refl

next_ready-run_example :
    (next_ready (run (readying "x" ∷ [])) 5 (record busy { queue = [] })).1
    ≡ run (readying "x" ∷ clearing ∷ taking 5 ∷ []) (record busy { queue = [] })
next_ready-run_example = next_ready-run (readying "x" ∷ []) 5 (record busy { queue = [] }) refl
