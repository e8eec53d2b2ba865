-- ===== src/Dag/Run/Opening.antt =====
-- The start of a run, and the invariant.
use without.Prelude.{
  ℕ, ◌<◌, String, ◌≡◌, sym, ap, subst, ◌∙◌, false, Bool-cases, Option, Option-cases, some, inl, inr,
  List, [], ◌++◌, ok, arith, append-nil,
}
use without.Prelude.Eq.{string_key}
use without.Prelude.Dict
use without.Prelude.Dict.{Dict}
use without.Dag.Graph.{Node, plan_of}
use without.Dag.Sorter.{Sorter, IsSorter, count}
use without.Dag.Run.{Run, open_run}
use without.Dag.Run.Counts.{spent, plan_of-consumers}
use without.Dag.Run.Invariant.{Inv}
use without.Dag.Graph.{is_bad_limit}
use without.Dag.Run.Invariant.{Inv}
use without.Dag.Run.Unlock.{waiting-fed, waiting-named}

module _ {Op Value : Type 0} (t : Sorter) (sorts : IsSorter t) (ns : List (Node Op))
    (inputs : Dict String Value) where
  -- The state in which a run starts, after `prepare`.
  abbrev pub start : t.State → Run t.State Value
  start prepared = record {
    sorter = (t.get_ready prepared).1;
    consumers = (plan_of ns).consumers;
    results = inputs;
    running = [];
    ready = (t.get_ready prepared).0;
  }

  pub start-Inv :
      (prepared : t.State)
      → t.prepare (plan_of ns).dependencies ≡ some prepared
      → Inv t sorts ns inputs [] [] (start prepared) []
  start-Inv prepared h =
      let w = sorts.waiting prepared in
      let (graph, passed, finished) = sorts.prepare_lem (plan_of ns).dependencies prepared h in
      let (handed, graph', passed', finished', drained) = sorts.get_ready_lem prepared in
      let none_done = λ (k : String). ap (count k) (finished' ∙ finished) in
      let all_waiting = λ (k : String). ap (count k) (passed' ∙ ap (λ l. l ++ w) passed) in
      record {
        same_graph = graph' ∙ graph;
        placed = λ k. omega (arith, ap (count k) handed, none_done k, all_waiting k);
        once = λ k. omega (arith, all_waiting k, sorts.waiting_once prepared k);
        counted = λ k. omega (
          arith,
          plan_of-consumers ns k,
          ap (spent (plan_of ns).by_key k) (finished' ∙ finished),
        );
        settled = λ k h'. absurd (omega (arith, none_done k, h'));
        held = λ k v there _. sym (ap (Dict.get k) (append-nil inputs)) ∙ there;
        only = λ k v there. ap (Dict.get k) (append-nil inputs) ∙ there;
        reported = λ k. omega arith;
        unsupplied = λ k h'. absurd (omega (arith, h'));
        runs = tt;
        fed = λ k d n h' found reads.
            subst (λ l. 0 < count d l) (sym finished')
              (waiting-fed t sorts ns inputs prepared k d n graph (omega (arith, all_waiting k, h'))
                found reads);
        drained = drained;
        named = λ closed k h'.
            waiting-named t sorts ns inputs prepared k graph closed
              (omega (arith, all_waiting k, h'));
      }

  -- A run that starts has a limit of at least 1, if any, and the invariant.
  pub open_run-Inv :
      (limit : Option ℕ) (s : Run t.State Value)
      → open_run t (plan_of ns) inputs limit ≡ ok s
      → (is_bad_limit limit ≡ false) × (s.running ≡ []) × Inv t sorts ns inputs [] [] s []
  unfolding open_run
  open_run-Inv limit s h = elim (Bool-cases (is_bad_limit limit)) [
    | inl bad ↦ absurd (cc (rw bad at h))
    | inr good ↦
        let h' = rw good at h in
        elim (Option-cases (t.prepare (plan_of ns).dependencies)) [
          | inl cyclic ↦ absurd (cc (rw cyclic at h'))
          | inr (prepared, e) ↦
              let same : start prepared ≡ s = cc (rw e at h') in
              (
                good,
                ap (λ r. r.running) (sym same),
                subst (λ r. Inv t sorts ns inputs [] [] r []) same (start-Inv prepared e),
              )
        ]
  ]
