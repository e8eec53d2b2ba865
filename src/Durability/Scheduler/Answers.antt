-- ===== src/Durability/Scheduler/Answers.antt =====
-- A receipt that is answered for is never given out again.
use without.Prelude.{
  ℕ, ◌<◌, String, ◌≡◌, ◌≢◌, refl, sym, ap, subst, ◌∙◌, Option-cases, none, some, some-cancel, inl,
  inr, List, [], ◌∷◌, All-mem, arith,
}
use without.Prelude.Eq.{beq_false, nat_key, string_key}
use without.Prelude.Dict
use without.Prelude.Dict.{Dict}
use without.Durability.Scheduler.{
  Delivery, Since, Scheduler, make_ready, wake_at, take_from, first_stale, reclaim, extend,
  receipts_of, remove_all, cancel, done,
}
use without.Durability.Scheduler.Ops.{
  Op, readying, waking_at, waking_due, clearing, taking, reclaiming, extending, cancelling,
  finishing, after, run,
}
use without.Durability.Scheduler.Sound.{
  IsHeld, IsSound, get-IsHeld, first_stale-mem, wake_due-outstanding, after-IsSound,
}
use without.Durability.Scheduler.Cancel.{cancel_forgets}

-- The receipt was given out and is no longer held.
abbrev pub IsAnswered : ℕ → Scheduler → Type 0
IsAnswered r s = (r < s.receipts) × (Dict.get r s.outstanding ≡ none)

get-put_absent :
    (r k : ℕ) (v : Delivery × Since) (o : Dict ℕ (Delivery × Since))
    → k ≢ r
    → Dict.get r o ≡ none
    → Dict.get r (Dict.put k v o) ≡ none
get-put_absent r k v o h gone = Dict.get-put k r v o ∙ rw (beq_false k r h) gone

get-remove_absent :
    (r k : ℕ) (o : Dict ℕ (Delivery × Since))
    → Dict.get r o ≡ none
    → Dict.get r (Dict.remove k o) ≡ none
get-remove_absent r k o gone = ground (arith, Dict.get-remove k r o, gone)

get-remove_all_absent :
    (rs : List ℕ) (r : ℕ) (o : Dict ℕ (Delivery × Since))
    → Dict.get r o ≡ none
    → Dict.get r (remove_all rs o) ≡ none
unfolding remove_all
get-remove_all_absent [] r o gone = gone
get-remove_all_absent (x ∷ rs) r o gone =
    get-remove_all_absent rs r (Dict.remove x o) (get-remove_absent r x o gone)

IsAnswered-wake_at :
    (r : ℕ) (d : Delivery) (when : ℕ) (s : Scheduler)
    → IsAnswered r s
    → IsAnswered r (wake_at d when s)
unfolding wake_at
IsAnswered-wake_at r d when s (below, gone) =
    elim (Option-cases (Dict.get d.receipt s.outstanding)) [
      | inl missing ↦ rw (missing, wake_at) (below, gone)
      | inr (e, there) ↦
          rw (there, wake_at) (below, get-remove_absent r d.receipt s.outstanding gone)
    ]

IsAnswered-take_from :
    (r : ℕ) (q : List String) (now : ℕ) (s : Scheduler)
    → IsAnswered r s
    → IsAnswered r (take_from q now s).1
unfolding take_from
IsAnswered-take_from r [] now s h = h
IsAnswered-take_from r (w ∷ q) now s (below, gone) = (
  omega (arith, below),
  get-put_absent r s.receipts _ s.outstanding (λ e. omega (arith, e, below)) gone,
)

IsAnswered-reclaim :
    (r idle now : ℕ) (s : Scheduler)
    → IsSound s
    → IsAnswered r s
    → IsAnswered r (reclaim idle now s).1
unfolding reclaim
IsAnswered-reclaim r idle now s (held, o, a) (below, gone) =
    elim (Option-cases (first_stale idle now s.outstanding)) [
      | inl fresh ↦ rw (fresh, reclaim) (below, gone)
      | inr (d, stale) ↦
          let (k, since, m, _) = first_stale-mem idle now s.outstanding d stale in
          let (own, _) = All-mem (IsHeld s.receipts) s.outstanding held m in
          let there = Dict.get-mem k (d, since) s.outstanding o m in
          rw (stale, reclaim)
            (
              below,
              get-put_absent r d.receipt _ s.outstanding
                  (λ e. cc (sym gone ∙ ap (λ i. Dict.get i s.outstanding) (sym e ∙ own) ∙ there))
                  gone,
            )
    ]

IsAnswered-extend :
    (r : ℕ) (d : Delivery) (within now : ℕ) (s : Scheduler)
    → IsAnswered r s
    → IsAnswered r (extend d within now s).1
unfolding extend
IsAnswered-extend r d within now s (below, gone) =
    elim (Option-cases (Dict.get d.receipt s.outstanding)) [
      | inl missing ↦ rw (missing, extend) (below, gone)
      | inr ((d', since), there) ↦
          rw (there, extend)
            (
              below,
              get-put_absent r d.receipt _ s.outstanding
                  (λ e. cc (sym gone ∙ ap (λ i. Dict.get i s.outstanding) (sym e) ∙ there)) gone,
            )
    ]

IsAnswered-after :
    (op : Op) (r : ℕ) (s : Scheduler) → IsSound s → IsAnswered r s → IsAnswered r (after op s)
unfolding after make_ready cancel done
IsAnswered-after (readying w) r s sound h = h
IsAnswered-after (waking_at d when) r s sound h = IsAnswered-wake_at r d when s h
IsAnswered-after (waking_due now) r s sound (below, gone) =
    let (same, count) = wake_due-outstanding now s in
    (subst (λ n. r < n) (sym count) below, ap (Dict.get r) same ∙ gone)
IsAnswered-after clearing r s sound h = h
IsAnswered-after (taking now) r s sound h = IsAnswered-take_from r s.queue now s h
IsAnswered-after (reclaiming idle now) r s sound h = IsAnswered-reclaim r idle now s sound h
IsAnswered-after (extending d within now) r s sound h = IsAnswered-extend r d within now s h
IsAnswered-after (cancelling w) r s sound (below, gone) =
    (below, get-remove_all_absent (receipts_of w s.outstanding) r s.outstanding gone)
IsAnswered-after (finishing d) r s sound (below, gone) =
    (below, get-remove_absent r d.receipt s.outstanding gone)

IsAnswered-run :
    (ops : List Op) (r : ℕ) (s : Scheduler) → IsSound s → IsAnswered r s → IsAnswered r (run ops s)
unfolding run
IsAnswered-run [] r s sound h = h
IsAnswered-run (op ∷ ops) r s sound h =
    IsAnswered-run ops r (after op s) (after-IsSound op s sound) (IsAnswered-after op r s sound h)

-- A receipt that was given out and answered for holds no delivery again, whatever calls come.
pub answered_for_good :
    (ops : List Op) (r : ℕ) (s : Scheduler)
    → IsSound s
    → r < s.receipts
    → Dict.get r s.outstanding ≡ none
    → Dict.get r (run ops s).outstanding ≡ none
answered_for_good ops r s sound below gone = (IsAnswered-run ops r s sound (below, gone)).1

get-remove_all_present :
    (rs : List ℕ) (r : ℕ) (v : Delivery × Since) (o : Dict ℕ (Delivery × Since))
    → Dict.get r (remove_all rs o) ≡ some v
    → Dict.get r o ≡ some v
unfolding remove_all
get-remove_all_present [] r v o h = h
get-remove_all_present (x ∷ rs) r v o h =
    ground (arith, get-remove_all_present rs r v (Dict.remove x o) h, Dict.get-remove x r o)

cancel-gone :
    (d : Delivery) (since : Since) (s : Scheduler)
    → IsSound s
    → Dict.get d.receipt s.outstanding ≡ some (d, since)
    → Dict.get d.receipt (cancel d.workflow s).outstanding ≡ none
unfolding cancel
cancel-gone d since s sound out =
    let t = cancel d.workflow s in
    elim (Option-cases (Dict.get d.receipt t.outstanding)) [
      | inl gone ↦ gone
      | inr ((d', since'), there) ↦
          let before =
            get-remove_all_present (receipts_of d.workflow s.outstanding) d.receipt (d', since')
              s.outstanding there in
          let other =
            All-mem (λ e. e.1.0.workflow ≢ d.workflow) t.outstanding (cancel_forgets d.workflow s).2
              (Dict.mem-get d.receipt (d', since') t.outstanding there) in
          absurd (other (ap (λ p. p.0.workflow) (some-cancel (sym before ∙ out))))
    ]

-- A pass that was out when its workflow was cancelled cannot put it back among the sleepers,
-- whatever calls come between.
pub cancel_final :
    (ops : List Op) (d : Delivery) (since : Since) (when : ℕ) (s : Scheduler)
    → IsSound s
    → Dict.get d.receipt s.outstanding ≡ some (d, since)
    → wake_at d when (run ops (cancel d.workflow s)) ≡ run ops (cancel d.workflow s)
unfolding wake_at after
cancel_final ops d since when s sound out =
    let below = (get-IsHeld s.outstanding s.receipts d.receipt d since sound.0 out).1 in
    rw
      (
        answered_for_good ops d.receipt (cancel d.workflow s)
            (after-IsSound (cancelling d.workflow) s sound) (unfold cancel in below)
            (cancel-gone d since s sound out),
        wake_at,
      )
      refl
