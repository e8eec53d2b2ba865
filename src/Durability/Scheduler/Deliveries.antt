-- ===== src/Durability/Scheduler/Deliveries.antt =====
-- A delivery stays its taker's until somebody answers for it.
use without.Prelude.{
  ℕ, String, ◌≡◌, ◌≢◌, refl, sym, ap, ◌∙◌, Bool-cases, Option-cases, some, some-cancel, inl, inr,
  List, [], ◌∷◌, All, All-mem, mem-cases, Memᴰ, arith,
}
use without.Prelude.Eq.{◌==◌, beq_false, nat_key, string_key}
use without.Prelude.Dict
use without.Prelude.Dict.{Dict}
use without.Durability.Scheduler.{
  Delivery, Since, Scheduler, make_ready, wake_at, take_from, first_stale, reclaim, extend,
  receipts_of, remove_all, cancel, done,
}
use without.Durability.Scheduler.Ops.{
  Op, readying, waking_at, waking_due, clearing, taking, reclaiming, extending, cancelling,
  finishing, after, run,
}
use without.Durability.Scheduler.Sound.{
  IsHeld, IsSound, get-IsHeld, first_stale-mem, wake_due-outstanding, after-IsSound,
}

get-remove_all_other :
    (rs : List ℕ) (r : ℕ) (o : Dict ℕ (Delivery × Since))
    → (Memᴰ r rs → ⊥)
    → Dict.get r (remove_all rs o) ≡ Dict.get r o
unfolding remove_all
get-remove_all_other [] r o h = refl
get-remove_all_other (x ∷ rs) r o h =
    get-remove_all_other rs r (Dict.remove x o) (λ m. h (Memᴰ.tail m))
    ∙ Dict.get-remove x r o
    ∙ rw (beq_false x r (λ e. h (Memᴰ.head (sym e)))) refl

receipts_of-mem :
    (w : String) (r : ℕ) (o : Dict ℕ (Delivery × Since))
    → Memᴰ r (receipts_of w o)
    → (d : Delivery) × (since : Since) × Memᴰ (r, (d, since)) o × (d.workflow ≡ w)
unfolding receipts_of
receipts_of-mem w r [] m = elim m [ ]
receipts_of-mem w r ((x, (d, since)) ∷ o) m = elim (Bool-cases (d.workflow == w)) [
  | inr other ↦
      let (d', since', m', own) = receipts_of-mem w r o (rw other at m) in
      (d', since', Memᴰ.tail m', own)
  | inl same ↦ elim (mem-cases (rw same at m)) [
    | inl e ↦ (
      d,
      since,
      Memᴰ.head (ap (λ i. (i, (d, since))) e),
      (string_key.beq_iff d.workflow w).0 same,
    )
    | inr later ↦
        let (d', since', m', own) = receipts_of-mem w r o later in (d', since', Memᴰ.tail m', own)
  ]
]

-- A call that does not answer for the delivery: no `wake_at` or `done` under its receipt, and no
-- `cancel` of its workflow.
abbrev pub LeavesDelivery : Delivery → Op → Type 0
LeavesDelivery d (waking_at d' when) = d'.receipt ≢ d.receipt
LeavesDelivery d (finishing d') = d'.receipt ≢ d.receipt
LeavesDelivery d (cancelling w) = d.workflow ≢ w
LeavesDelivery d _ = Unit

-- The delivery is out, since whenever.
abbrev pub IsOut : Delivery → Scheduler → Type 0
IsOut d s = (since : Since) × (Dict.get d.receipt s.outstanding ≡ some (d, since))

abbrev get-put_other :
    (r k : ℕ) (v : Delivery × Since) (o : Dict ℕ (Delivery × Since))
    → k ≢ r
    → Dict.get r (Dict.put k v o) ≡ Dict.get r o
get-put_other r k v o h = Dict.get-put k r v o ∙ rw (beq_false k r h) refl

IsOut-wake_at :
    (d d' : Delivery) (when : ℕ) (s : Scheduler)
    → d'.receipt ≢ d.receipt
    → IsOut d s
    → IsOut d (wake_at d' when s)
unfolding wake_at
IsOut-wake_at d d' when s other (since, out) =
    elim (Option-cases (Dict.get d'.receipt s.outstanding)) [
      | inl gone ↦ rw (gone, wake_at) (since, out)
      | inr (e, there) ↦
          rw (there, wake_at)
            (
              since,
              Dict.get-remove d'.receipt d.receipt s.outstanding
                  ∙ rw (beq_false d'.receipt d.receipt other) out,
            )
    ]

IsOut-take_from :
    (d : Delivery) (q : List String) (now : ℕ) (s : Scheduler)
    → IsSound s
    → IsOut d s
    → IsOut d (take_from q now s).1
unfolding take_from
IsOut-take_from d [] now s sound out = out
IsOut-take_from d (w ∷ q) now s (held, _, _) (since, out) =
    let (_, below) = get-IsHeld s.outstanding s.receipts d.receipt d since held out in
    (since, get-put_other d.receipt s.receipts _ s.outstanding (λ e. omega (arith, e, below)) ∙ out)

-- Writing a delivery back under its receipt keeps every delivery that is out.
IsOut-put :
    (d d' : Delivery) (since' : Since) (s : Scheduler)
    → (d'.receipt ≡ d.receipt → d' ≡ d)
    → IsOut d s
    → IsOut d (record s { outstanding = Dict.put d'.receipt (d', since') s.outstanding })
IsOut-put d d' since' s own (since, out) = elim (Bool-cases (d'.receipt == d.receipt)) [
  | inr other ↦ (since, Dict.get-put d'.receipt d.receipt (d', since') s.outstanding ∙ rw other out)
  | inl same ↦
      let e = own ((nat_key.beq_iff d'.receipt d.receipt).0 same) in
      (
        since',
        Dict.get-put d'.receipt d.receipt (d', since') s.outstanding
            ∙ rw same (ap (λ x. some (x, since')) e),
      )
]

IsOut-reclaim :
    (d : Delivery) (idle now : ℕ) (s : Scheduler)
    → IsSound s
    → IsOut d s
    → IsOut d (reclaim idle now s).1
unfolding reclaim
IsOut-reclaim d idle now s (held, o, a) (since, out) =
    elim (Option-cases (first_stale idle now s.outstanding)) [
      | inl fresh ↦ rw (fresh, reclaim) (since, out)
      | inr (d', stale) ↦
          let (r, since', m, _) = first_stale-mem idle now s.outstanding d' stale in
          let (own, _) = All-mem (IsHeld s.receipts) s.outstanding held m in
          let there = Dict.get-mem r (d', since') s.outstanding o m in
          rw (stale, reclaim)
            (IsOut-put d d' _ s
              (λ e.
                ap (λ p. p.0)
                  (some-cancel
                    (sym there ∙ ap (λ i. Dict.get i s.outstanding) (sym own ∙ e) ∙ out)))
              (since, out))
    ]

IsOut-extend :
    (d d' : Delivery) (within now : ℕ) (s : Scheduler)
    → IsSound s
    → IsOut d s
    → IsOut d (extend d' within now s).1
unfolding extend
IsOut-extend d d' within now s (held, o, a) (since, out) =
    elim (Option-cases (Dict.get d'.receipt s.outstanding)) [
      | inl gone ↦ rw (gone, extend) (since, out)
      | inr ((d'', since'), there) ↦
          let (own, _) = get-IsHeld s.outstanding s.receipts d'.receipt d'' since' held there in
          rw (there, extend)
            (rw (sym own) (
              IsOut-put d d'' _ s
                (λ e.
                  ap (λ p. p.0)
                    (some-cancel
                      (sym there ∙ ap (λ i. Dict.get i s.outstanding) (sym own ∙ e) ∙ out)))
                (since, out)))
    ]

IsOut-cancel :
    (d : Delivery) (w : String) (s : Scheduler)
    → IsSound s
    → d.workflow ≢ w
    → IsOut d s
    → IsOut d (cancel w s)
unfolding cancel
IsOut-cancel d w s (held, o, a) other (since, out) = (
  since,
  get-remove_all_other (receipts_of w s.outstanding) d.receipt s.outstanding (λ m.
        let (d', since', m', own) = receipts_of-mem w d.receipt s.outstanding m in
        let there = Dict.get-mem d.receipt (d', since') s.outstanding o m' in
        other (ap (λ p. p.0.workflow) (some-cancel (sym out ∙ there)) ∙ own))
      ∙ out,
)

IsOut-after :
    (op : Op) (d : Delivery) (s : Scheduler)
    → IsSound s
    → LeavesDelivery d op
    → IsOut d s
    → IsOut d (after op s)
unfolding after make_ready done
IsOut-after (readying w) d s sound h out = out
IsOut-after (waking_at d' when) d s sound h out = IsOut-wake_at d d' when s h out
IsOut-after (waking_due now) d s sound h (since, out) =
    (since, ap (Dict.get d.receipt) (wake_due-outstanding now s).0 ∙ out)
IsOut-after clearing d s sound h out = out
IsOut-after (taking now) d s sound h out = IsOut-take_from d s.queue now s sound out
IsOut-after (reclaiming idle now) d s sound h out = IsOut-reclaim d idle now s sound out
IsOut-after (extending d' within now) d s sound h out = IsOut-extend d d' within now s sound out
IsOut-after (cancelling w) d s sound h out = IsOut-cancel d w s sound h out
IsOut-after (finishing d') d s sound h (since, out) = (
  since,
  Dict.get-remove d'.receipt d.receipt s.outstanding ∙ rw (beq_false d'.receipt d.receipt h) out,
)

-- A delivery that is out of a sound scheduler stays out through any run of calls that neither
-- answers for it nor cancels its workflow.
pub delivery_stays-IsOut :
    (ops : List Op) (d : Delivery) (s : Scheduler)
    → IsSound s
    → All (LeavesDelivery d) ops
    → IsOut d s
    → IsOut d (run ops s)
unfolding run
delivery_stays-IsOut [] d s sound h out = out
delivery_stays-IsOut (op ∷ ops) d s sound (h, hs) out =
    delivery_stays-IsOut ops d (after op s) (after-IsSound op s sound) hs
      (IsOut-after op d s sound h out)
