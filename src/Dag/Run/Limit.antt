-- ===== src/Dag/Run/Limit.antt =====
-- The bound on how many nodes run at once.
use without.Prelude.{
  ℕ, suc, ◌≤◌, String, ◌≡◌, sym, ap, ◌∙◌, Bool-cases, Option-cases, none, some, some-cancel, List,
  [], ◌∷◌, ◌++◌, Result, Result-cases, ok, length, ltb, inl, inr, arith, length-append, nat_eq,
}
use without.Prelude.Eq.{string_key}
use without.Prelude.Dict
use without.Prelude.Dict.{Dict}
use without.Dag.Graph.{Plan, is_bad_limit}
use without.Dag.Sorter.{Sorter}
use without.Dag.Run.{
  Run, arguments, release, release_all, release_dependencies, unlock, visit, fill_from, complete,
  open_run, has_slot,
}
use without.Dag.Run.Steps.{Phase, Reach, opened, entered, filled, completed}

ok-cancel : {X A : Type 0} {a b : A} → ◌≡◌ {A = Result X A} (ok a) (ok b) → a ≡ b
ok-cancel h = cc h

release-running :
    {S Value : Type 0} (d : String) (s s' : Run S Value)
    → release d s ≡ ok s'
    → s'.running ≡ s.running
unfolding release
release-running d s s' h =
    elim (Bool-cases (nat_eq (elim (Dict.get d s.consumers) [ none ↦ 0 | some n ↦ n ]) 1)) [
      | inr more ↦ ap (λ r. r.running) (sym (ok-cancel (rw more at h)))
      | inl last ↦ elim (Option-cases (Dict.get d s.results)) [
        | inl gone ↦ absurd (cc (rw (gone, release) at (rw last at h)))
        | inr (v, there) ↦
            ap (λ r. r.running) (sym (ok-cancel (rw (there, release) at (rw last at h))))
      ]
    ]

release_all-running :
    {S Value : Type 0} (ds : List String) (s s' : Run S Value)
    → release_all ds s ≡ ok s'
    → s'.running ≡ s.running
unfolding release_all
release_all-running [] s s' h = ap (λ r. r.running) (sym (ok-cancel h))
release_all-running (d ∷ ds) s s' h = elim (Result-cases (release d s)) [
  | inr (fault, e) ↦ absurd (cc (rw (e, release_all) at h))
  | inl (r, e) ↦ release_all-running ds r s' (rw (e, release_all) at h) ∙ release-running d s r e
]

module _ {Op Value : Type 0} (t : Sorter) (plan : Plan Op) where
  release_dependencies-running :
      (key : String) (s s' : Run t.State Value)
      → release_dependencies t plan key s ≡ ok s'
      → s'.running ≡ s.running
  unfolding release_dependencies
  release_dependencies-running key s s' h = elim (Option-cases (Dict.get key plan.by_key)) [
    | inl missing ↦ ap (λ r. r.running) (sym (ok-cancel (rw (missing, release_dependencies) at h)))
    | inr (n, found) ↦
        release_all-running n.dependencies s s' (rw (found, release_dependencies) at h)
  ]

  unlock-running :
      (key : String) (s s' : Run t.State Value) → unlock t key s ≡ ok s' → s'.running ≡ s.running
  unfolding unlock
  unlock-running key s s' h = elim (Option-cases (t.done key s.sorter)) [
    | inl refused ↦ absurd (cc (rw (refused, unlock) at h))
    | inr (q, marked) ↦ ap (λ r. r.running) (sym (ok-cancel (rw (marked, unlock) at h)))
  ]

  visit-length :
      (key : String) (s s' : Run t.State Value)
      → visit t plan key s ≡ ok s'
      → length s'.running ≤ suc (length s.running)
  unfolding visit
  visit-length key s s' h = elim (Option-cases (Dict.get key s.results)) [
    | inr (v, supplied) ↦ elim (Result-cases (release_dependencies t plan key s)) [
      | inr (fault, e) ↦ absurd (cc (rw (e, visit) at (rw (supplied, visit) at h)))
      | inl (r, e) ↦
          let made = rw (e, visit) at (rw (supplied, visit) at h) in
          omega (
            arith,
            ap (λ l. length l)
                (unlock-running key r s' made ∙ release_dependencies-running key s r e),
          )
    ]
    | inl missing ↦ elim (Option-cases (Dict.get key plan.by_key)) [
      | inl unknown ↦ absurd (cc (rw (unknown, visit) at (rw (missing, visit) at h)))
      | inr (n, found) ↦
          let h' = rw (found, visit) at (rw (missing, visit) at h) in
          elim (Result-cases (arguments n.dependencies s.results)) [
            | inr (fault, e) ↦ absurd (cc (rw (e, visit) at h'))
            | inl (args, e) ↦
                let h'' = rw (e, visit) at h' in
                elim (Result-cases (release_dependencies t plan key s)) [
                  | inr (fault, e') ↦ absurd (cc (rw (e', visit) at h''))
                  | inl (r, e') ↦
                      let made : record r { running = r.running ++ (key, args) ∷ [] } ≡ s' =
                        ok-cancel (rw (e', visit) at h'') in
                      omega (
                        arith,
                        ap (λ x. length x.running) made,
                        length-append r.running ((key, args) ∷ []),
                        ap (λ l. length l) (release_dependencies-running key s r e'),
                      )
                ]
          ]
    ]
  ]

  complete-length :
      (key : String) (value : Value) (others : List (String × List Value))
      (s s' : Run t.State Value)
      → complete t key value others s ≡ ok s'
      → length s'.running ≡ length others
  unfolding complete
  complete-length key value others s s' h = ap (λ l. length l) (unlock-running key _ s' h)

  opened-length :
      (inputs : Dict String Value) (n : ℕ) (s : Run t.State Value)
      → open_run t plan inputs (some n) ≡ ok s
      → length s.running ≤ n
  unfolding open_run
  opened-length inputs n s h = elim (Bool-cases (is_bad_limit (some n))) [
    | inl bad ↦ absurd (cc (rw bad at h))
    | inr good ↦ elim (Option-cases (t.prepare plan.dependencies)) [
      | inl cyclic ↦ absurd (cc (rw cyclic at (rw good at h)))
      | inr (prepared, e) ↦
          omega (arith, ap (λ x. length x.running) (sym (ok-cancel (rw e at (rw good at h)))))
    ]
  ]

  fill_from-length :
      (ready : List String) (n : ℕ) (s s' : Run t.State Value)
      → fill_from t plan ready (some n) s ≡ ok (some s')
      → length s.running ≤ n
      → length s'.running ≤ n
  unfolding fill_from has_slot
  fill_from-length [] n s s' h within = absurd (cc h)
  fill_from-length (key ∷ ready) n s s' h within = elim (Bool-cases (ltb (length s.running) n)) [
    | inr full ↦ absurd (cc (rw full at h))
    | inl free ↦ elim (Result-cases (visit t plan key (record s { ready = ready }))) [
      | inr (fault, e) ↦ absurd (cc (rw (e, fill_from) at (rw free at h)))
      | inl (r, e) ↦
          let made : r ≡ s' = some-cancel (ok-cancel (rw (e, fill_from) at (rw free at h))) in
          ground (
            arith,
            free,
            visit-length key (record s { ready = ready }) r e,
            ap (λ x. length x.running) made,
          )
    ]
  ]

  -- With a limit of `n`, `n` nodes at most run at any point of a run.
  pub drive-within_limit :
      (inputs : Dict String Value) (n : ℕ) {phase : Phase} (s : Run t.State Value)
      (yielded : List (String × Value))
      → Reach t plan inputs (some n) phase s yielded
      → length s.running ≤ n
  drive-within_limit inputs n _ _ (opened {s} h) = opened-length inputs n s h
  drive-within_limit inputs n s yielded (entered _ r) = drive-within_limit inputs n s yielded r
  drive-within_limit inputs n _ yielded (filled {s} {s'} h r) =
      fill_from-length s.ready n s s' h (drive-within_limit inputs n s yielded r)
  drive-within_limit inputs n _ _
        (completed {s} {s'} {yielded} key value args before after _ h made _ r) =
      omega (
        arith,
        drive-within_limit inputs n s yielded r,
        ap (λ l. length l) h,
        length-append before ((key, args) ∷ after),
        length-append before after,
        complete-length key value (before ++ after) s s' made,
      )
