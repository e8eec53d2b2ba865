-- ===== src/Dag/Run/Outcome.antt =====
-- What `drive` and `evaluate` come to, over every run.
use without.Prelude.{
  ℕ, ◌+◌, ◌≤◌, ◌<◌, String, ◌≡◌, refl, sym, ap, subst, ◌∙◌, true, false, Option, Option-cases, none,
  some, some-cancel, ◌⊎◌, inl, inr, List, [], ◌∷◌, ◌++◌, All, All-map, Result-cases, length, ok,
  arith,
}
use without.Prelude.Eq.{string_key}
use without.Prelude.Dict
use without.Prelude.Dict.{Dict}
use without.Dag.Graph.{Node, Plan, plan_of, is_bad_limit}
use without.Dag.Sorter.{Sorter, IsSorter, count}
use without.Dag.Run.{arguments, last_of, evaluated, Run, visit, fill_from, fill, complete, has_slot}
use without.Dag.Run.Counts.{plan_of-dependencies}
use without.Dag.Run.Invariant.{keys_of, node_at, IsClosed, IsRunning, Inv}
use without.Dag.Run.Steps.{
  Phase, inside, Reach, opened, entered, filled, completed, Ended, drained, idle, Ended-Reach,
}
use without.Dag.Run.Fill.{fill-Inv}
use without.Dag.Run.Completion.{complete-Inv}
use without.Dag.Run.Opening.{open_run-Inv}
use without.Dag.Run.Evaluated.{last_of_once, latest, evaluated-last}

slot_of :
    {S Value : Type 0} (limit : Option ℕ) (s : Run S Value)
    → is_bad_limit limit ≡ false
    → s.running ≡ []
    → has_slot limit s ≡ true
unfolding has_slot
slot_of none s good empty = refl
slot_of (some n) s good empty = ground (arith, good, ap length empty)

-- With nothing running there is a slot, so that the loop is left with nothing ready.
none_ready_from :
    {Op Value : Type 0} (t : Sorter) (plan : Plan Op) (ready : List String) (limit : Option ℕ)
    (s : Run t.State Value)
    → is_bad_limit limit ≡ false
    → s.running ≡ []
    → fill_from t plan ready limit s ≡ ok none
    → ready ≡ []
unfolding fill_from has_slot
none_ready_from t plan [] limit s good empty h = refl
none_ready_from t plan (key ∷ ready) limit s good empty h =
    let slot : has_slot limit s ≡ true = slot_of limit s good empty in
    elim (Result-cases (visit t plan key (record s { ready = ready }))) [
      | inl (fault, e) ↦ absurd (cc (rw (e, fill_from) at (rw slot at h)))
      | inr (s', e) ↦ absurd (cc (rw (e, fill_from) at (rw slot at h)))
    ]

-- Arguments that are, one for one and in order, the values known of the keys.
abbrev pub AreValuesOf : {Value : Type 0} → List String → Dict String Value → List Value → Type 0
AreValuesOf [] known [] = Unit
AreValuesOf (key ∷ keys) known (value ∷ values) =
    (Dict.get key known ≡ some value) × AreValuesOf keys known values
AreValuesOf _ known _ = ⊥

arguments-AreValuesOf :
    {Value : Type 0} (keys : List String) (known : Dict String Value) (args : List Value)
    → arguments keys known ≡ ok args
    → AreValuesOf keys known args
unfolding arguments
arguments-AreValuesOf [] known [] h = tt
arguments-AreValuesOf [] known (arg ∷ args) h = absurd (cc h)
arguments-AreValuesOf (key ∷ keys) known args h = elim (Option-cases (Dict.get key known)) [
  | inl missing ↦ absurd (cc (rw (missing, arguments) at h))
  | inr (value, found) ↦ elim (Result-cases (arguments keys known)) [
    | inr (fault, bad) ↦ absurd (cc (rw (bad, arguments) at (rw (found, arguments) at h)))
    | inl (values, good) ↦
        let same : ◌≡◌ {A = List _} (value ∷ values) args =
          cc (rw (good, arguments) at (rw (found, arguments) at h)) in
        subst (AreValuesOf (key ∷ keys) known) same
          (found, arguments-AreValuesOf keys known values good)
  ]
]

module _ {Op Value : Type 0} (t : Sorter) (sorts : IsSorter t) (ns : List (Node Op))
    (inputs : Dict String Value) (limit : Option ℕ) where
  Reach-Inv :
      {phase : Phase} {s : Run t.State Value} {yielded : List (String × Value)}
      → IsClosed t sorts ns inputs
      → Reach t (plan_of ns) inputs limit phase s yielded
      → Inv t sorts ns inputs [] [] s yielded
  Reach-Inv closed (opened h) = (open_run-Inv t sorts ns inputs limit _ h).2
  Reach-Inv closed (entered _ r) = Reach-Inv closed r
  Reach-Inv closed (filled {s} {s'} {yielded} h r) =
      elim (fill-Inv t sorts ns inputs limit s yielded closed (Reach-Inv closed r)) [
        | inl stopped ↦ absurd (cc (sym stopped ∙ h))
        | inr (s'', made, i) ↦
            let same : s'' ≡ s' = some-cancel (cc (sym made ∙ h)) in
            subst (λ x. Inv t sorts ns inputs [] [] x yielded) same i
      ]
  Reach-Inv closed
        (completed {s} {s'} {yielded} {yielded'} key value args before after _ h made said r) =
      let (s'', ended, i) =
        complete-Inv t sorts ns inputs key value args before after s yielded h
          (Reach-Inv closed r) in
      let same : s'' ≡ s' = cc (sym ended ∙ made) in
      subst (λ x. Inv t sorts ns inputs [] [] x yielded') same
        (subst (Inv t sorts ns inputs [] [] s'') (sym said) i)

  good_limit :
      {phase : Phase} {s : Run t.State Value} {yielded : List (String × Value)}
      → Reach t (plan_of ns) inputs limit phase s yielded
      → is_bad_limit limit ≡ false
  good_limit (opened h) = (open_run-Inv t sorts ns inputs limit _ h).0
  good_limit (entered _ r) = good_limit r
  good_limit (filled _ r) = good_limit r
  good_limit (completed _ _ _ _ _ _ _ _ _ r) = good_limit r

  fill-never_raises :
      (s : Run t.State Value) (yielded : List (String × Value))
      → IsClosed t sorts ns inputs
      → Reach t (plan_of ns) inputs limit inside s yielded
      → (fill t (plan_of ns) limit s ≡ ok none)
        ⊎ ((s' : Run t.State Value) × (fill t (plan_of ns) limit s ≡ ok (some s')))
  fill-never_raises s yielded closed r =
      elim (fill-Inv t sorts ns inputs limit s yielded closed (Reach-Inv closed r)) [
        | inl stopped ↦ inl stopped
        | inr (s', made, i) ↦ inr (s', made)
      ]

  -- In a run of a closed plan no round of the inner loop raises of itself: it is left, or it puts the
  -- next key to run or passes a supplied one on, each result that it reads is still there, and the
  -- sorter takes each key that is marked done; and what follows the completion of a running node does
  -- not raise either.
  pub drive-never_raises :
      (s : Run t.State Value) (yielded : List (String × Value))
      → IsClosed t sorts ns inputs
      → Reach t (plan_of ns) inputs limit inside s yielded
      → ((fill t (plan_of ns) limit s ≡ ok none)
          ⊎ ((s' : Run t.State Value) × (fill t (plan_of ns) limit s ≡ ok (some s'))))
        × ((key : String) (value : Value) (args : List Value)
              (before after : List (String × List Value))
            → s.running ≡ before ++ (key, args) ∷ after
            → (s' : Run t.State Value) × (complete t key value (before ++ after) s ≡ ok s'))
  drive-never_raises s yielded closed r = (
    fill-never_raises s yielded closed r,
    λ key value args before after h.
        let (s', ended, _) =
          complete-Inv t sorts ns inputs key value args before after s yielded h
            (Reach-Inv closed r) in
        (s', ended),
  )

  -- In a run of a closed plan a key is running or was yielded once at most, together, and one that is or was is not
  -- supplied.
  pub drive-runs_once :
      {phase : Phase} (s : Run t.State Value) (yielded : List (String × Value)) (key : String)
      → IsClosed t sorts ns inputs
      → Reach t (plan_of ns) inputs limit phase s yielded
      → (count key (keys_of yielded) + count key (keys_of s.running) ≤ 1)
        × (0 < count key (keys_of yielded) + count key (keys_of s.running)
            → Dict.get key inputs ≡ none)
  drive-runs_once s yielded key closed r =
      let i = Reach-Inv closed r in
      (omega (arith, i.reported key, i.placed key, i.once key), i.unsupplied key)

  -- A running node that was given the values of what it depends on.
  abbrev pub IsGiven : List (String × Value) → String × List Value → Type 0
  IsGiven yielded (key, args) =
      (n : Node Op) × (node_at t sorts ns inputs key ≡ some n)
      × AreValuesOf n.dependencies (inputs ++ yielded) args

  IsRunning-IsGiven :
      (yielded : List (String × Value)) (r : String × List Value)
      → IsRunning t sorts ns inputs yielded r
      → IsGiven yielded r
  IsRunning-IsGiven yielded (key, args) (n, found, given) =
      (n, found, arguments-AreValuesOf n.dependencies (inputs ++ yielded) args given)

  -- In a run of a closed plan each running node has been given, one for one and in order, the values of its dependencies, each
  -- supplied or yielded before.
  pub drive-arguments :
      {phase : Phase} (s : Run t.State Value) (yielded : List (String × Value))
      → IsClosed t sorts ns inputs
      → Reach t (plan_of ns) inputs limit phase s yielded
      → All (IsGiven yielded) s.running
  drive-arguments s yielded closed r =
      All-map (IsRunning t sorts ns inputs yielded) (IsGiven yielded) s.running
        (IsRunning-IsGiven yielded) (Reach-Inv closed r).runs

  all-finished :
      (s : Run t.State Value) (yielded : List (String × Value))
      → IsClosed t sorts ns inputs
      → Ended t (plan_of ns) inputs limit s yielded
      → (sorts.waiting s.sorter ≡ [])
        × ((key : String)
            → 0 < count key (sorts.passed s.sorter)
            → 0 < count key (sorts.finished s.sorter))
  all-finished s yielded closed (drained quiet r) = sorts.inactive s.sorter quiet
  all-finished s yielded closed (idle stopped empty r) =
      let i = Reach-Inv closed r in
      (
        i.drained,
        λ key passed. omega (
          arith,
          i.placed key,
          passed,
          ap (λ l. count key (keys_of l)) empty,
          ap (count key)
              (none_ready_from t (plan_of ns) s.ready limit s (good_limit r) empty stopped),
        ),
      )

  -- When a run of a closed plan has ended, each node was supplied or has been yielded.
  pub drive-completes :
      (s : Run t.State Value) (yielded : List (String × Value)) (key : String) (n : Node Op)
      → IsClosed t sorts ns inputs
      → Ended t (plan_of ns) inputs limit s yielded
      → node_at t sorts ns inputs key ≡ some n
      → (v : Value) × (Dict.get key (inputs ++ yielded) ≡ some v)
  drive-completes s yielded key n closed ended found =
      let i = Reach-Inv closed (Ended-Reach t (plan_of ns) inputs limit ended).1 in
      let (waiting, all_done) = all-finished s yielded closed ended in
      i.settled key (
        sorts.exhausted s.sorter key n.dependencies waiting all_done
          (ap (Dict.get key) i.same_graph ∙ plan_of-dependencies ns key ∙ rw found refl))

  -- `evaluate` of a closed plan for a key that is a node or supplied returns, when the run has ended,
  -- the value that was supplied or yielded for that key.
  pub evaluate-returns :
      (s : Run t.State Value) (yielded : List (String × Value)) (target : String)
      → IsClosed t sorts ns inputs
      → Ended t (plan_of ns) inputs limit s yielded
      → ((n : Node Op) × (node_at t sorts ns inputs target ≡ some n))
        ⊎ ((v : Value) × (Dict.get target inputs ≡ some v))
      → (v : Value) × (evaluated (plan_of ns) target inputs yielded ≡ ok (some v))
        × (Dict.get target (inputs ++ yielded) ≡ some v)
  evaluate-returns s yielded target closed ended is_there =
      let r = (Ended-Reach t (plan_of ns) inputs limit ended).1 in
      let (at_most, new) = drive-runs_once s yielded target closed r in
      let once = last_of_once target (Dict.get target inputs) yielded (omega (arith, at_most)) in
      let known : (v : Value) × (Dict.get target (inputs ++ yielded) ≡ some v) = elim is_there [
        | inl (n, found) ↦ drive-completes s yielded target n closed ended found
        | inr (v, supplied) ↦ (v, Dict.get-append_left target v inputs yielded supplied)
      ] in
      let (v, there) = known in
      let last : last_of target (Dict.get target inputs) yielded ≡ some v =
        once ∙ latest target v inputs yielded (λ h. new (omega (arith, h))) there in
      (v, evaluated-last (plan_of ns) target v inputs yielded is_there last, there)
