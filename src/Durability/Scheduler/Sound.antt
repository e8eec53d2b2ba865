-- ===== src/Durability/Scheduler/Sound.antt =====
-- A delivery is held under its own receipt, and no receipt is given out twice.
use without.Prelude.{
  ℕ, suc, ◌≤◌, ◌<◌, String, ◌≡◌, refl, sym, ap, subst, true, Bool-cases, Option-cases, some,
  some-cancel, inl, inr, List, [], ◌∷◌, ◌++◌, All, All-mem, Memᴰ, arith,
}
use without.Prelude.Eq.{nat_key, string_key}
use without.Prelude.Dict
use without.Prelude.Dict.{Dict}
use without.Durability.Scheduler.{
  Delivery, Since, Scheduler, is_stale, make_ready, wake_at, wake_due, enqueue_all, due_of,
  take_from, first_stale, reclaim, extend, receipts_of, remove_all, cancel, done,
}
use without.Durability.Scheduler.Ops.{
  Op, readying, waking_at, waking_due, clearing, taking, reclaiming, extending, cancelling,
  finishing, after, run,
}

-- An entry of `outstanding`: the delivery of that receipt, which the counter has passed.
abbrev pub IsHeld : ℕ → ℕ × (Delivery × Since) → Type 0
IsHeld next (receipt, (delivery, since)) = (delivery.receipt ≡ receipt) × (receipt < next)

abbrev pub IsSound : Scheduler → Type 0
IsSound s =
    All (IsHeld s.receipts) s.outstanding × Dict.Distinct s.outstanding × Dict.Distinct s.sleeping

All-later : (n m : ℕ) (o : Dict ℕ (Delivery × Since)) → n ≤ m → All (IsHeld n) o → All (IsHeld m) o
All-later n m [] le h = tt
All-later n m ((r, (d, since)) ∷ o) le ((own, below), h) =
    ((own, omega arith), All-later n m o le h)

pub get-IsHeld :
    (o : Dict ℕ (Delivery × Since)) (n r : ℕ) (d : Delivery) (since : Since)
    → All (IsHeld n) o
    → Dict.get r o ≡ some (d, since)
    → IsHeld n (r, (d, since))
get-IsHeld o n r d since h there = All-mem (IsHeld n) o h (Dict.mem-get r (d, since) o there)

pub first_stale-mem :
    (idle now : ℕ) (o : Dict ℕ (Delivery × Since)) (d : Delivery)
    → first_stale idle now o ≡ some d
    → (r : ℕ) × (since : Since) × Memᴰ (r, (d, since)) o × (is_stale idle now since ≡ true)
unfolding first_stale
first_stale-mem idle now [] d h = absurd (cc h)
first_stale-mem idle now ((r, (d', since)) ∷ o) d h = elim (Bool-cases (is_stale idle now since)) [
  | inl stale ↦
      let same : d' ≡ d = some-cancel (rw stale at h) in
      (r, since, Memᴰ.head (ap (λ x. (r, (x, since))) (sym same)), stale)
  | inr fresh ↦
      let (r', since', m, stale) = first_stale-mem idle now o d (rw fresh at h) in
      (r', since', Memᴰ.tail m, stale)
]

enqueue_all-outstanding :
    (due : List String) (s : Scheduler)
    → ((enqueue_all due s).outstanding ≡ s.outstanding)
      × ((enqueue_all due s).receipts ≡ s.receipts)
unfolding enqueue_all
enqueue_all-outstanding [] s = (refl, refl)
enqueue_all-outstanding (w ∷ due) s =
    enqueue_all-outstanding due
      (record s { sleeping = Dict.remove w s.sleeping; queue = s.queue ++ w ∷ [] })

enqueue_all-Distinct :
    (due : List String) (s : Scheduler)
    → Dict.Distinct s.sleeping
    → Dict.Distinct (enqueue_all due s).sleeping
unfolding enqueue_all
enqueue_all-Distinct [] s h = h
enqueue_all-Distinct (w ∷ due) s h =
    enqueue_all-Distinct due
      (record s { sleeping = Dict.remove w s.sleeping; queue = s.queue ++ w ∷ [] })
      (Dict.Distinct-remove w s.sleeping h)

pub wake_due-outstanding :
    (now : ℕ) (s : Scheduler)
    → ((wake_due now s).1.outstanding ≡ s.outstanding) × ((wake_due now s).1.receipts ≡ s.receipts)
unfolding wake_due
wake_due-outstanding now s = ground (arith, enqueue_all-outstanding (due_of now s.sleeping) s)

wake_due-sleeping :
    (now : ℕ) (s : Scheduler)
    → (wake_due now s).1.sleeping ≡ (enqueue_all (due_of now s.sleeping) s).sleeping
unfolding wake_due
wake_due-sleeping now s = ground arith

remove_all-All :
    (n : ℕ) (rs : List ℕ) (o : Dict ℕ (Delivery × Since))
    → All (IsHeld n) o
    → All (IsHeld n) (remove_all rs o)
unfolding remove_all
remove_all-All n [] o h = h
remove_all-All n (r ∷ rs) o h =
    remove_all-All n rs (Dict.remove r o) (Dict.All-remove (IsHeld n) r o h)

remove_all-Distinct :
    (rs : List ℕ) (o : Dict ℕ (Delivery × Since))
    → Dict.Distinct o
    → Dict.Distinct (remove_all rs o)
unfolding remove_all
remove_all-Distinct [] o h = h
remove_all-Distinct (r ∷ rs) o h =
    remove_all-Distinct rs (Dict.remove r o) (Dict.Distinct-remove r o h)

pub first_stale-IsHeld :
    (idle now n : ℕ) (o : Dict ℕ (Delivery × Since)) (d : Delivery)
    → All (IsHeld n) o
    → first_stale idle now o ≡ some d
    → d.receipt < n
first_stale-IsHeld idle now n o d held h =
    let (r, since, m, stale) = first_stale-mem idle now o d h in
    let (own, below) = All-mem (IsHeld n) o held m in rw own below

wake_at-IsSound : (d : Delivery) (when : ℕ) (s : Scheduler) → IsSound s → IsSound (wake_at d when s)
unfolding wake_at
wake_at-IsSound d when s (held, o, a) = elim (Option-cases (Dict.get d.receipt s.outstanding)) [
  | inl gone ↦ rw (gone, wake_at) (held, o, a)
  | inr (e, there) ↦
      rw (there, wake_at)
        (
          Dict.All-remove (IsHeld s.receipts) d.receipt s.outstanding held,
          Dict.Distinct-remove d.receipt s.outstanding o,
          Dict.Distinct-put d.workflow when s.sleeping a,
        )
]

take_from-IsSound :
    (q : List String) (now : ℕ) (s : Scheduler) → IsSound s → IsSound (take_from q now s).1
unfolding take_from
take_from-IsSound [] now s h = h
take_from-IsSound (w ∷ q) now s (held, o, a) = (
  Dict.All-put (IsHeld (suc s.receipts)) s.receipts _ s.outstanding (refl, omega arith)
      (All-later s.receipts (suc s.receipts) s.outstanding (omega arith) held),
  Dict.Distinct-put s.receipts _ s.outstanding o,
  a,
)

reclaim-IsSound : (idle now : ℕ) (s : Scheduler) → IsSound s → IsSound (reclaim idle now s).1
unfolding reclaim
reclaim-IsSound idle now s (held, o, a) = elim (Option-cases (first_stale idle now s.outstanding)) [
  | inl fresh ↦ rw (fresh, reclaim) (held, o, a)
  | inr (d, stale) ↦
      rw (stale, reclaim)
        (
          Dict.All-put (IsHeld s.receipts) d.receipt _ s.outstanding
              (refl, first_stale-IsHeld idle now s.receipts s.outstanding d held stale) held,
          Dict.Distinct-put d.receipt _ s.outstanding o,
          a,
        )
]

extend-IsSound :
    (d : Delivery) (within now : ℕ) (s : Scheduler) → IsSound s → IsSound (extend d within now s).1
unfolding extend
extend-IsSound d within now s (held, o, a) =
    elim (Option-cases (Dict.get d.receipt s.outstanding)) [
      | inl gone ↦ rw (gone, extend) (held, o, a)
      | inr ((d', since), there) ↦
          rw (there, extend)
            (
              Dict.All-put (IsHeld s.receipts) d.receipt _ s.outstanding
                  (get-IsHeld s.outstanding s.receipts d.receipt d' since held there) held,
              Dict.Distinct-put d.receipt _ s.outstanding o,
              a,
            )
    ]

-- Every call keeps each delivery under its own receipt, below the counter, and no key twice.
pub after-IsSound : (op : Op) (s : Scheduler) → IsSound s → IsSound (after op s)
unfolding after make_ready cancel done
after-IsSound (readying w) s h = h
after-IsSound (waking_at d when) s h = wake_at-IsSound d when s h
after-IsSound (waking_due now) s (held, o, a) =
    let (same, count) = wake_due-outstanding now s in
    rw same (
      rw count (
        held,
        o,
        subst Dict.Distinct (sym (wake_due-sleeping now s))
            (enqueue_all-Distinct (due_of now s.sleeping) s a),
      ))
after-IsSound clearing s h = h
after-IsSound (taking now) s h = take_from-IsSound s.queue now s h
after-IsSound (reclaiming idle now) s h = reclaim-IsSound idle now s h
after-IsSound (extending d within now) s h = extend-IsSound d within now s h
after-IsSound (cancelling w) s (held, o, a) = (
  remove_all-All s.receipts (receipts_of w s.outstanding) s.outstanding held,
  remove_all-Distinct (receipts_of w s.outstanding) s.outstanding o,
  Dict.Distinct-remove w s.sleeping a,
)
after-IsSound (finishing d) s (held, o, a) = (
  Dict.All-remove (IsHeld s.receipts) d.receipt s.outstanding held,
  Dict.Distinct-remove d.receipt s.outstanding o,
  a,
)

pub run-IsSound : (ops : List Op) (s : Scheduler) → IsSound s → IsSound (run ops s)
unfolding run
run-IsSound [] s h = h
run-IsSound (op ∷ ops) s h = run-IsSound ops (after op s) (after-IsSound op s h)
