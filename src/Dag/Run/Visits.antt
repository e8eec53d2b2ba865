-- ===== src/Dag/Run/Visits.antt =====
-- The two ends of a visit to a key, and the invariant.
use native.Mathlib.Decide.{dec_lt}
use without.Prelude.{
  ℕ, ◌≤◌, ◌<◌, String, ◌≡◌, refl, sym, ap, ◌∙◌, Bool-cases, Option-cases, none, some, inl, inr,
  List, [], ◌∷◌, ◌++◌, All-append, ok, arith,
}
use without.Prelude.Eq.{◌==◌, string_key}
use without.Prelude.Dict
use without.Prelude.Dict.{Dict}
use without.Dag.Graph.{Node, plan_of}
use without.Dag.Sorter.{Sorter, IsSorter, count}
use without.Dag.Run.{Run, arguments, release_dependencies}
use without.Dag.Run.Counts.{
  tally, reads, count-append, spent-append, count-keys-append, spent-keys-append, spent-le-total,
  plan_of-Distinct,
}
use without.Dag.Run.Release.{Released, with_counts, release_all-Released}
use without.Dag.Run.Invariant.{keys_of, node_at, IsRunning, Inv}

module _ {Op Value : Type 0} (t : Sorter) (sorts : IsSorter t) (ns : List (Node Op))
    (inputs : Dict String Value) where
  pub pop-Inv :
      (key : String) (rest : List String) (s : Run t.State Value) (yielded : List (String × Value))
      → s.ready ≡ key ∷ rest
      → Inv t sorts ns inputs [] [] s yielded
      → Inv t sorts ns inputs (key ∷ []) [] (record s { ready = rest }) yielded
  pop-Inv key rest s yielded h i = record {
    same_graph = i.same_graph;
    placed = λ k. ground (arith, i.placed k, ap (count k) h);
    once = i.once;
    counted = i.counted;
    settled = i.settled;
    held = i.held;
    only = i.only;
    reported = λ k. omega (arith, i.reported k);
    unsupplied = i.unsupplied;
    runs = i.runs;
    fed = i.fed;
    drained = i.drained;
    named = i.named;
  }

  -- The reads of a key that is taken are left: as many as its node makes, of results that are there.
  pub reads-left :
      (key : String) (s : Run t.State Value) (yielded : List (String × Value)) (n : Node Op)
      → Inv t sorts ns inputs (key ∷ []) [] s yielded
      → node_at t sorts ns inputs key ≡ some n
      → (k : String) → count k n.dependencies ≤ tally k s.consumers
  reads-left key s yielded n i found k =
      let done = sorts.finished s.sorter in
      let nodes = (plan_of ns).by_key in
      let bound =
        spent-le-total nodes k (keys_of s.running ++ (done ++ key ∷ [])) (plan_of-Distinct ns) (λ j.
          ground (
            arith,
            i.placed j,
            i.once j,
            count-append j (keys_of s.running) (done ++ key ∷ []),
            count-append j done (key ∷ []),
          )) in
      let own : reads nodes k key ≡ count k n.dependencies = rw (found, reads) refl in
      omega (
        arith,
        bound,
        own,
        i.counted k,
        spent-append nodes k (keys_of s.running) (done ++ key ∷ []),
        spent-append nodes k done (key ∷ []),
      )

  pub passed :
      (key : String) (s : Run t.State Value) (yielded : List (String × Value)) {used : List String}
      → Inv t sorts ns inputs (key ∷ []) used s yielded
      → 0 < count key (sorts.passed s.sorter)
  passed key s yielded i = ground (arith, i.placed key, string_key.beq_iff key key)

  pub reads-there :
      (key : String) (s : Run t.State Value) (yielded : List (String × Value)) (n : Node Op)
      → Inv t sorts ns inputs (key ∷ []) [] s yielded
      → node_at t sorts ns inputs key ≡ some n
      → (k : String) → 0 < count k n.dependencies
      → (v : Value) × (Dict.get k s.results ≡ some v)
  reads-there key s yielded n i found k h =
      let settled = i.fed key k n (passed key s yielded i) found h in
      let (v, known) = i.settled k settled in
      (v, i.held k v known (inr (omega (arith, h, reads-left key s yielded n i found k))))

  -- A key that is not done is none that a taken key reads.
  not-read :
      (key : String) (s : Run t.State Value) (yielded : List (String × Value)) (n : Node Op)
      → Inv t sorts ns inputs (key ∷ []) [] s yielded
      → node_at t sorts ns inputs key ≡ some n
      → (k : String) → count k (sorts.finished s.sorter) ≡ 0
      → count k n.dependencies ≡ 0
  not-read key s yielded n i found k early = elim (dec_lt 0 (count k n.dependencies)) [
    | yes read ↦ absurd (omega (arith, early, i.fed key k n (passed key s yielded i) found read))
    | no unread ↦ omega (arith, unread)
  ]

  pub Released-Inv :
      (key : String) (s : Run t.State Value) (yielded : List (String × Value)) (n : Node Op)
      (c : Dict String ℕ) (r : Dict String Value)
      → Inv t sorts ns inputs (key ∷ []) [] s yielded
      → node_at t sorts ns inputs key ≡ some n
      → Released n.dependencies s.consumers s.results c r
      → Inv t sorts ns inputs (key ∷ []) (key ∷ []) (with_counts c r s) yielded
  Released-Inv key s yielded n c r i found left = record {
    same_graph = i.same_graph;
    placed = i.placed;
    once = i.once;
    counted = λ k.
        let own : reads (plan_of ns).by_key k key ≡ count k n.dependencies =
          rw (found, reads) refl in
        omega (arith, own, i.counted k, left.counted k);
    settled = i.settled;
    held = λ k v known h. elim h [
      | inl early ↦
          left.kept k (inl (not-read key s yielded n i found k early))
          ∙ i.held k v known (inl early)
      | inr more ↦
          left.kept k (inr more) ∙ i.held k v known (inr (omega (arith, more, left.counted k)))
    ];
    only = λ k v h. i.only k v (left.only k v h);
    reported = i.reported;
    unsupplied = i.unsupplied;
    runs = i.runs;
    fed = i.fed;
    drained = i.drained;
    named = i.named;
  }

  -- A key that no node has makes no reads.
  unread-Inv :
      (key : String) (s : Run t.State Value) (yielded : List (String × Value))
      → Inv t sorts ns inputs (key ∷ []) [] s yielded
      → node_at t sorts ns inputs key ≡ none
      → Inv t sorts ns inputs (key ∷ []) (key ∷ []) s yielded
  unread-Inv key s yielded i missing = record {
    same_graph = i.same_graph;
    placed = i.placed;
    once = i.once;
    counted = λ k.
        let own : reads (plan_of ns).by_key k key ≡ 0 = rw (missing, reads) refl in
        omega (arith, own, i.counted k);
    settled = i.settled;
    held = i.held;
    only = i.only;
    reported = i.reported;
    unsupplied = i.unsupplied;
    runs = i.runs;
    fed = i.fed;
    drained = i.drained;
    named = i.named;
  }

  -- `release_dependencies` raises nothing, and keeps the invariant.
  pub release_dependencies-Inv :
      (key : String) (s : Run t.State Value) (yielded : List (String × Value))
      → Inv t sorts ns inputs (key ∷ []) [] s yielded
      → (c : Dict String ℕ) × (r : Dict String Value) × (release_dependencies t (plan_of ns) key s
          ≡ ok (with_counts c r s))
        × Inv t sorts ns inputs (key ∷ []) (key ∷ []) (with_counts c r s) yielded
  unfolding release_dependencies
  release_dependencies-Inv key s yielded i = elim (Option-cases (node_at t sorts ns inputs key)) [
    | inl missing ↦ (
      s.consumers,
      s.results,
      rw (missing, release_dependencies) refl,
      unread-Inv key s yielded i missing,
    )
    | inr (n, found) ↦
        let (c, r, made, left) =
          release_all-Released n.dependencies s (reads-left key s yielded n i found)
            (reads-there key s yielded n i found) in
        (c, r, rw (found, release_dependencies) made, Released-Inv key s yielded n c r i found left)
  ]

  -- A node that is started with the known values of its dependencies runs.
  pub started-Inv :
      (key : String) (args : List Value) (s : Run t.State Value) (yielded : List (String × Value))
      (n : Node Op)
      → Inv t sorts ns inputs (key ∷ []) (key ∷ []) s yielded
      → node_at t sorts ns inputs key ≡ some n
      → arguments n.dependencies (inputs ++ yielded) ≡ ok args
      → Dict.get key inputs ≡ none
      → count key (keys_of yielded) ≡ 0
      → Inv t sorts ns inputs [] [] (record s { running = s.running ++ (key, args) ∷ [] }) yielded
  started-Inv key args s yielded n i found given unsupplied unreported = record {
    same_graph = i.same_graph;
    placed = λ k. omega (arith, i.placed k, count-keys-append k s.running ((key, args) ∷ []));
    once = i.once;
    counted = λ k.
        omega (
          arith,
          i.counted k,
          spent-keys-append (plan_of ns).by_key k s.running ((key, args) ∷ []),
        );
    settled = i.settled;
    held = i.held;
    only = i.only;
    reported = λ k. ground (arith, i.reported k, unreported, string_key.beq_iff key k);
    unsupplied = λ k h. elim (Bool-cases (key == k)) [
      | inl same ↦
          ap (λ x. Dict.get x inputs) (sym ((string_key.beq_iff key k).0 same)) ∙ unsupplied
      | inr other ↦
          i.unsupplied k
            (ground (arith, h, other, count-keys-append k s.running ((key, args) ∷ [])))
    ];
    runs =
        All-append (IsRunning t sorts ns inputs yielded) s.running ((key, args) ∷ []) i.runs
          ((n, found, given), tt);
    fed = i.fed;
    drained = i.drained;
    named = i.named;
  }
