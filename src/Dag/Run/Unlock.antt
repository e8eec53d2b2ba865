-- ===== src/Dag/Run/Unlock.antt =====
-- Marking a key done, what that unlocks, and the invariant.
use native.Mathlib.Decide.{dec_lt}
use without.Prelude.{
  ◌<◌, String, ◌≡◌, refl, sym, ap, subst, ◌∙◌, Bool-cases, Option, Option-cases, none, some,
  some-cancel, ◌⊎◌, inl, inr, List, [], ◌∷◌, ◌++◌, ok, arith,
}
use without.Prelude.Eq.{◌==◌, string_key}
use without.Prelude.Dict
use without.Prelude.Dict.{Dict}
use without.Dag.Graph.{Node, plan_of}
use without.Dag.Sorter.{Sorter, IsSorter, count}
use without.Dag.Run.{Run, unlock}
use without.Dag.Run.Counts.{spent, reads, count-append, spent-append, plan_of-dependencies}
use without.Dag.Run.Invariant.{node_at, IsClosed, Inv}

module _ {Op Value : Type 0} (t : Sorter) (sorts : IsSorter t) (ns : List (Node Op))
    (inputs : Dict String Value) where
  -- What the keys that are handed out next depend on is done.
  pub waiting-fed :
      (q : t.State) (k d : String) (n : Node Op)
      → sorts.graph q ≡ (plan_of ns).dependencies
      → 0 < count k (sorts.waiting q)
      → node_at t sorts ns inputs k ≡ some n
      → 0 < count d n.dependencies
      → 0 < count d (sorts.finished q)
  waiting-fed q k d n same waits found reads =
      sorts.waiting_after q k d n.dependencies waits
        (ap (Dict.get k) same ∙ plan_of-dependencies ns k ∙ rw found refl) reads

  node_with :
      (k : String) (ds : List String)
      → ◌≡◌ {A = Option (List String)}
          (elim (node_at t sorts ns inputs k) [ none ↦ none | some n ↦ some n.dependencies ])
          (some ds)
      → (n : Node Op) × (node_at t sorts ns inputs k ≡ some n) × (n.dependencies ≡ ds)
  node_with k ds h = elim (Option-cases (node_at t sorts ns inputs k)) [
    | inl missing ↦ absurd (cc (rw missing at h))
    | inr (n, found) ↦ (n, found, some-cancel (rw found at h))
  ]

  pub waiting-named :
      (q : t.State) (k : String)
      → sorts.graph q ≡ (plan_of ns).dependencies
      → IsClosed t sorts ns inputs
      → 0 < count k (sorts.waiting q)
      → ((n : Node Op) × (node_at t sorts ns inputs k ≡ some n))
        ⊎ ((v : Value) × (Dict.get k inputs ≡ some v))
  waiting-named q k same closed waits = elim (sorts.waiting_known q k waits) [
    | inl (ds, own) ↦ inl (
        let (n, found, _) =
          node_with k ds (sym (plan_of-dependencies ns k) ∙ ap (Dict.get k) (sym same) ∙ own) in
        (n, found))
    | inr (reader, ds, own, reads) ↦
        let (n, found, same_ds) =
          node_with reader ds
            (sym (plan_of-dependencies ns reader) ∙ ap (Dict.get reader) (sym same) ∙ own) in
        closed reader k n found (subst (λ l. 0 < count k l) (sym same_ds) reads)
  ]

  -- A sorter's state after a key was marked done, and what `get_ready` returned of it.
  abbrev pub unlocked : t.State → Run t.State Value → Run t.State Value
  unlocked q s = record s { sorter = (t.get_ready q).1; ready = s.ready ++ (t.get_ready q).0 }

  unlocked-Inv :
      (key : String) (s : Run t.State Value) (yielded : List (String × Value)) (v : Value)
      (q : t.State)
      → t.done key s.sorter ≡ some q
      → Inv t sorts ns inputs (key ∷ []) (key ∷ []) s yielded
      → Dict.get key (inputs ++ yielded) ≡ some v
      → Inv t sorts ns inputs [] [] (unlocked q s) yielded
  unlocked-Inv key s yielded v q marked i known =
      let w = sorts.waiting q in
      let (graph, passed, finished) = sorts.done_lem key s.sorter q marked in
      let (handed, graph', passed', finished', drained) = sorts.get_ready_lem q in
      record {
        same_graph = graph' ∙ graph ∙ i.same_graph;
        placed = λ k. omega (
          arith,
          i.placed k,
          ap (count k) handed,
          ap (count k) (passed' ∙ ap (λ l. l ++ w) passed),
          ap (count k) (finished' ∙ finished),
          count-append k s.ready (t.get_ready q).0,
          count-append k (sorts.passed s.sorter) w,
          count-append k (sorts.finished s.sorter) (key ∷ []),
        );
        once = λ k. elim (dec_lt 0 (count k w)) [
          | yes new ↦ omega (
            arith,
            sorts.waiting_once q k,
            sorts.waiting_new q k new,
            ap (count k) passed',
            count-append k (sorts.passed q) w,
          )
          | no old ↦ omega (
            arith,
            old,
            i.once k,
            ap (count k) (passed' ∙ ap (λ l. l ++ w) passed),
            count-append k (sorts.passed s.sorter) w,
          )
        ];
        counted = λ k. omega (
          arith,
          i.counted k,
          ap (spent (plan_of ns).by_key k) (finished' ∙ finished),
          spent-append (plan_of ns).by_key k (sorts.finished s.sorter) (key ∷ []),
        );
        settled = λ k h. elim (Bool-cases (key == k)) [
          | inl same ↦ (
            v,
            ap (λ x. Dict.get x (inputs ++ yielded)) (sym ((string_key.beq_iff key k).0 same))
                ∙ known,
          )
          | inr other ↦ i.settled k (
              ground (
                arith,
                h,
                other,
                ap (count k) (finished' ∙ finished),
                count-append k (sorts.finished s.sorter) (key ∷ []),
              ))
        ];
        held = λ k u there h. i.held k u there (elim h [
          | inl early ↦ inl (
              omega (
                arith,
                early,
                ap (count k) (finished' ∙ finished),
                count-append k (sorts.finished s.sorter) (key ∷ []),
              ))
          | inr more ↦ inr more
        ]);
        only = i.only;
        reported = λ k. omega (
          arith,
          i.reported k,
          ap (count k) (finished' ∙ finished),
          count-append k (sorts.finished s.sorter) (key ∷ []),
        );
        unsupplied = i.unsupplied;
        runs = i.runs;
        fed = λ k d n h found reads. elim (dec_lt 0 (count k w)) [
          | yes new ↦
              subst (λ l. 0 < count d l) (sym finished')
                (waiting-fed q k d n (graph ∙ i.same_graph) new found reads)
          | no old ↦
              let before =
                i.fed k d n
                  (omega (
                    arith,
                    old,
                    h,
                    ap (count k) (passed' ∙ ap (λ l. l ++ w) passed),
                    count-append k (sorts.passed s.sorter) w,
                  ))
                  found reads in
              omega (
                arith,
                before,
                ap (count d) (finished' ∙ finished),
                count-append d (sorts.finished s.sorter) (key ∷ []),
              )
        ];
        drained = drained;
        named = λ closed k h. elim (dec_lt 0 (count k w)) [
          | yes new ↦ waiting-named q k (graph ∙ i.same_graph) closed new
          | no old ↦ i.named closed k (
              omega (
                arith,
                old,
                h,
                ap (count k) (passed' ∙ ap (λ l. l ++ w) passed),
                count-append k (sorts.passed s.sorter) w,
              ))
        ];
      }

  -- A key that was taken is one that the sorter has returned and that is not marked yet.
  pub unlock-Inv :
      (key : String) (s : Run t.State Value) (yielded : List (String × Value)) (v : Value)
      → Inv t sorts ns inputs (key ∷ []) (key ∷ []) s yielded
      → Dict.get key (inputs ++ yielded) ≡ some v
      → (s' : Run t.State Value) × (unlock t key s ≡ ok s') × Inv t sorts ns inputs [] [] s' yielded
  unfolding unlock
  unlock-Inv key s yielded v i known =
      let self = (string_key.beq_iff key key).1 refl in
      let (q, marked) =
        sorts.done_accepts key s.sorter (ground (arith, i.placed key, self))
          (ground (arith, i.placed key, i.once key, self)) in
      (unlocked q s, rw (marked, unlock) refl, unlocked-Inv key s yielded v q marked i known)
