-- ===== src/Durability/Scheduler/Wakeups.antt =====
-- `wake_due` moves what is due from the sleepers to the end of the queue, and nothing else.
use without.Prelude.{
  ℕ, String, ◌≡◌, refl, sym, ap, subst, ◌∙◌, true, false, Bool-cases, none, some, some-cancel, inl,
  inr, List, [], ◌∷◌, ◌++◌, append_assoc, append-nil, mem-cases, Memᴰ, leb, arith,
}
use without.Prelude.Eq.{beq_false, nat_key, string_key}
use without.Prelude.Dict
use without.Prelude.Dict.{Dict}
use without.Durability.Scheduler.{Scheduler, wake_due, enqueue_all, due_of}
use without.Durability.Scheduler.Sound.{IsSound}

enqueue_all-queue : (due : List String) (s : Scheduler) → (enqueue_all due s).queue ≡ s.queue ++ due
unfolding enqueue_all
enqueue_all-queue [] s = sym (append-nil s.queue)
enqueue_all-queue (w ∷ due) s =
    enqueue_all-queue due
      (record s { sleeping = Dict.remove w s.sleeping; queue = s.queue ++ w ∷ [] })
    ∙ append_assoc s.queue (w ∷ []) due

enqueue_all-asleep :
    (w : String) (due : List String) (s : Scheduler)
    → (Memᴰ w due → ⊥)
    → Dict.get w (enqueue_all due s).sleeping ≡ Dict.get w s.sleeping
unfolding enqueue_all
enqueue_all-asleep w [] s h = refl
enqueue_all-asleep w (v ∷ due) s h =
    enqueue_all-asleep w due
      (record s { sleeping = Dict.remove v s.sleeping; queue = s.queue ++ v ∷ [] })
      (λ m. h (Memᴰ.tail m))
    ∙ Dict.get-remove v w s.sleeping
    ∙ rw (beq_false v w (λ e. h (Memᴰ.head (sym e)))) refl

enqueue_all-absent :
    (w : String) (due : List String) (s : Scheduler)
    → Dict.get w s.sleeping ≡ none
    → Dict.get w (enqueue_all due s).sleeping ≡ none
unfolding enqueue_all
enqueue_all-absent w [] s h = h
enqueue_all-absent w (v ∷ due) s h =
    enqueue_all-absent w due
      (record s { sleeping = Dict.remove v s.sleeping; queue = s.queue ++ v ∷ [] })
      (ground (arith, Dict.get-remove v w s.sleeping, h))

enqueue_all-awake :
    (w : String) (due : List String) (s : Scheduler)
    → Memᴰ w due
    → Dict.get w (enqueue_all due s).sleeping ≡ none
unfolding enqueue_all
enqueue_all-awake w [] s m = elim m [ ]
enqueue_all-awake w (v ∷ due) s m =
    let t = record s { sleeping = Dict.remove v s.sleeping; queue = s.queue ++ v ∷ [] } in
    elim (mem-cases m) [
      | inl e ↦
          enqueue_all-absent w due t
            (Dict.get-remove v w s.sleeping ∙ rw ((string_key.beq_iff v w).1 (sym e)) refl)
      | inr later ↦ enqueue_all-awake w due t later
    ]

due_of-mem :
    (now when : ℕ) (w : String) (sleeping : Dict String ℕ)
    → leb when now ≡ true
    → Memᴰ (w, when) sleeping
    → Memᴰ w (due_of now sleeping)
unfolding due_of
due_of-mem now when w [] due m = elim m [ ]
due_of-mem now when w ((v, at) ∷ sleeping) due m = elim (mem-cases m) [
  | inl e ↦ rw (ap (λ p. leb p.1 now) (sym e) ∙ due) (Memᴰ.head (ap (λ p. p.0) e))
  | inr later ↦ elim (Bool-cases (leb at now)) [
    | inl first ↦ rw first (Memᴰ.tail (due_of-mem now when w sleeping due later))
    | inr asleep ↦ rw asleep (due_of-mem now when w sleeping due later)
  ]
]

due_of-only :
    (now : ℕ) (w : String) (sleeping : Dict String ℕ)
    → Memᴰ w (due_of now sleeping)
    → (when : ℕ) × Memᴰ (w, when) sleeping × (leb when now ≡ true)
unfolding due_of
due_of-only now w [] m = elim m [ ]
due_of-only now w ((v, at) ∷ sleeping) m = elim (Bool-cases (leb at now)) [
  | inr asleep ↦
      let (when, there, due) = due_of-only now w sleeping (rw asleep at m) in
      (when, Memᴰ.tail there, due)
  | inl first ↦ elim (mem-cases (rw first at m)) [
    | inl e ↦ (at, Memᴰ.head (ap (λ x. (x, at)) e), first)
    | inr later ↦
        let (when, there, due) = due_of-only now w sleeping later in (when, Memᴰ.tail there, due)
  ]
]

wake_due-fields :
    (now : ℕ) (s : Scheduler)
    → ((wake_due now s).1.queue ≡ s.queue ++ (wake_due now s).0)
      × ((wake_due now s).1.sleeping ≡ (enqueue_all (due_of now s.sleeping) s).sleeping)
      × ((wake_due now s).0 ≡ due_of now s.sleeping)
unfolding wake_due
wake_due-fields now s = ground (arith, enqueue_all-queue (due_of now s.sleeping) s)

-- A sleeper of a sound scheduler that is due at `now` is woken: it leaves the sleepers, is among
-- the answers, and the answers are the end of the queue.
pub wake_due-due :
    (now when : ℕ) (w : String) (s : Scheduler)
    → IsSound s
    → Dict.get w s.sleeping ≡ some when
    → leb when now ≡ true
    → (Dict.get w (wake_due now s).1.sleeping ≡ none)
      × Memᴰ w (wake_due now s).0
      × ((wake_due now s).1.queue ≡ s.queue ++ (wake_due now s).0)
wake_due-due now when w s sound asleep due =
    let (queue, sleeping, answers) = wake_due-fields now s in
    let there = due_of-mem now when w s.sleeping due (Dict.mem-get w when s.sleeping asleep) in
    (
      ap (Dict.get w) sleeping ∙ enqueue_all-awake w (due_of now s.sleeping) s there,
      subst (Memᴰ w) (sym answers) there,
      queue,
    )

-- A sleeper of a sound scheduler that is not due sleeps on until the same moment, and is not among the answers.
pub wake_due-not_due :
    (now when : ℕ) (w : String) (s : Scheduler)
    → IsSound s
    → Dict.get w s.sleeping ≡ some when
    → leb when now ≡ false
    → (Dict.get w (wake_due now s).1.sleeping ≡ some when) × ¬ Memᴰ w (wake_due now s).0
wake_due-not_due now when w s (held, o, a) asleep early =
    let (queue, sleeping, answers) = wake_due-fields now s in
    let absent : Memᴰ w (due_of now s.sleeping) → ⊥ = λ m.
      let (when', there, due) = due_of-only now w s.sleeping m in
      let same = some-cancel (sym (Dict.get-mem w when' s.sleeping a there) ∙ asleep) in
      cc (sym due ∙ ap (λ n. leb n now) same ∙ early) in
    (
      ap (Dict.get w) sleeping ∙ enqueue_all-asleep w (due_of now s.sleeping) s absent ∙ asleep,
      λ m. absent (subst (Memᴰ w) answers m),
    )
