-- ===== src/Dag/Run/Fill.antt =====
-- A round of the inner loop, and the invariant.
use without.Prelude.{
  ℕ, String, ◌≡◌, refl, sym, ap, ◌∙◌, Bool-cases, Option, Option-cases, none, some, ◌⊎◌, inl, inr,
  List, [], ◌∷◌, ◌++◌, ok, arith,
}
use without.Prelude.Eq.{string_key}
use without.Prelude.Dict
use without.Prelude.Dict.{Dict}
use without.Dag.Graph.{Node, plan_of}
use without.Dag.Sorter.{Sorter, IsSorter, count}
use without.Dag.Run.{Run, visit, fill_from, fill, has_slot}
use without.Dag.Run.Release.{with_counts, arguments-ok, arguments-known}
use without.Dag.Run.Invariant.{keys_of, IsClosed, Inv}
use without.Dag.Run.Unlock.{unlock-Inv}
use without.Dag.Run.Visits.{pop-Inv, reads-there, passed, release_dependencies-Inv, started-Inv}

module _ {Op Value : Type 0} (t : Sorter) (sorts : IsSorter t) (ns : List (Node Op))
    (inputs : Dict String Value) where
  -- A taken key with no result was not supplied.
  taken-unsupplied :
      (key : String) (s : Run t.State Value) (yielded : List (String × Value))
      → Inv t sorts ns inputs (key ∷ []) [] s yielded
      → Dict.get key s.results ≡ none
      → Dict.get key inputs ≡ none
  taken-unsupplied key s yielded i missing = elim (Option-cases (Dict.get key inputs)) [
    | inl unsupplied ↦ unsupplied
    | inr (v, supplied) ↦
        let there =
          i.held key v (Dict.get-append_left key v inputs yielded supplied)
            (inl (ground (arith, i.placed key, i.once key, string_key.beq_iff key key))) in
        absurd (cc (sym missing ∙ there))
  ]

  visit-Inv :
      (key : String) (s : Run t.State Value) (yielded : List (String × Value))
      → IsClosed t sorts ns inputs
      → Inv t sorts ns inputs (key ∷ []) [] s yielded
      → count key (keys_of yielded) ≡ 0
      → (s' : Run t.State Value) × (visit t (plan_of ns) key s ≡ ok s')
        × Inv t sorts ns inputs [] [] s' yielded
  unfolding visit
  visit-Inv key s yielded closed i unreported =
      let (c, r, released, i') = release_dependencies-Inv t sorts ns inputs key s yielded i in
      elim (Option-cases (Dict.get key s.results)) [
        | inr (v, supplied) ↦
            let (s', made, i'') =
              unlock-Inv t sorts ns inputs key (with_counts c r s) yielded v i'
                (i.only key v supplied) in
            (s', rw (supplied, visit) (rw (released, visit) made), i'')
        | inl missing ↦
            let unsupplied = taken-unsupplied key s yielded i missing in
            elim (i.named closed key (passed t sorts ns inputs key s yielded i)) [
              | inr (v, supplied) ↦ absurd (cc (sym unsupplied ∙ supplied))
              | inl (n, found) ↦
                  let (args, given) =
                    arguments-ok n.dependencies s.results
                      (reads-there t sorts ns inputs key s yielded n i found) in
                  (
                    record (with_counts c r s) { running = s.running ++ (key, args) ∷ [] },
                    rw (missing, visit)
                        (rw (found, visit) (rw (given, visit) (rw (released, visit) refl))),
                    started-Inv t sorts ns inputs key args (with_counts c r s) yielded n i' found
                        (arguments-known n.dependencies s.results (inputs ++ yielded) args i.only
                          given)
                        unsupplied unreported,
                  )
            ]
      ]

  fill_from-Inv :
      (ready : List String) (limit : Option ℕ) (s : Run t.State Value)
      (yielded : List (String × Value))
      → IsClosed t sorts ns inputs
      → s.ready ≡ ready
      → Inv t sorts ns inputs [] [] s yielded
      → (fill_from t (plan_of ns) ready limit s ≡ ok none)
        ⊎ ((s' : Run t.State Value) × (fill_from t (plan_of ns) ready limit s ≡ ok (some s'))
            × Inv t sorts ns inputs [] [] s' yielded)
  unfolding fill_from
  fill_from-Inv [] limit s yielded closed h i = inl refl
  fill_from-Inv (key ∷ ready) limit s yielded closed h i = elim (Bool-cases (has_slot limit s)) [
    | inr full ↦ inl (rw full refl)
    | inl free ↦
        let unreported : count key (keys_of yielded) ≡ 0 = ground (
          arith,
          i.reported key,
          i.placed key,
          i.once key,
          ap (count key) h,
          string_key.beq_iff key key,
        ) in
        let (s', made, i') =
          visit-Inv key (record s { ready = ready }) yielded closed
            (pop-Inv t sorts ns inputs key ready s yielded h i) unreported in
        inr (s', rw free (rw (made, fill_from) refl), i')
  ]

  -- A round raises nothing.
  pub fill-Inv :
      (limit : Option ℕ) (s : Run t.State Value) (yielded : List (String × Value))
      → IsClosed t sorts ns inputs
      → Inv t sorts ns inputs [] [] s yielded
      → (fill t (plan_of ns) limit s ≡ ok none)
        ⊎ ((s' : Run t.State Value) × (fill t (plan_of ns) limit s ≡ ok (some s'))
            × Inv t sorts ns inputs [] [] s' yielded)
  fill-Inv limit s yielded closed i = fill_from-Inv s.ready limit s yielded closed refl i
