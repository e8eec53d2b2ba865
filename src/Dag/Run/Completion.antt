-- ===== src/Dag/Run/Completion.antt =====
-- The completion of a running node, and the invariant.
use without.Prelude.{
  ok, ◌+◌, ◌<◌, String, ◌≡◌, refl, sym, ap, subst, ◌∙◌, false, Bool-cases, none, some, inl, inr,
  List, [], ◌∷◌, ◌++◌, All, if◌then◌else◌, arith, append_assoc, All-append, All-split, All-map,
}
use without.Prelude.Eq.{◌==◌, string_key}
use without.Prelude.Dict
use without.Prelude.Dict.{Dict}
use without.Dag.Graph.{Node, plan_of}
use without.Dag.Sorter.{Sorter, IsSorter, count}
use without.Dag.Run.{Run, complete}
use without.Dag.Run.Counts.{spent, count-append, spent-append, count-keys-append, spent-keys-append}
use without.Dag.Run.Release.{arguments-known}
use without.Dag.Run.Invariant.{keys_of, IsRunning, Inv}
use without.Dag.Run.Unlock.{unlock-Inv}

pub get_of_uncounted :
    {A : Type 0} (key : String) (d : Dict String A)
    → count key (keys_of d) ≡ 0
    → Dict.get key d ≡ none
unfolding Dict.get
get_of_uncounted key [] h = refl
get_of_uncounted key ((k, v) ∷ d) h = ground (arith, get_of_uncounted key d)

get_one :
    {A : Type 0} (key k : String) (v : A)
    → Dict.get k ((key, v) ∷ []) ≡ (if key == k then some v else none)
unfolding Dict.get
get_one key k v = refl

module _ {Op Value : Type 0} (t : Sorter) (sorts : IsSorter t) (ns : List (Node Op))
    (inputs : Dict String Value) where
  -- What is known of a key before a completion is known after it.
  known-later :
      (yielded : List (String × Value)) (key : String) (value : Value) (k : String) (v : Value)
      → Dict.get k (inputs ++ yielded) ≡ some v
      → Dict.get k (inputs ++ (yielded ++ (key, value) ∷ [])) ≡ some v
  known-later yielded key value k v there =
      ap (Dict.get k) (sym (append_assoc inputs yielded ((key, value) ∷ [])))
      ∙ Dict.get-append_left k v (inputs ++ yielded) ((key, value) ∷ []) there

  -- What is known of another key after a completion was known before it.
  known-before :
      (yielded : List (String × Value)) (key : String) (value : Value) (k : String)
      → (key == k) ≡ false
      → Dict.get k (inputs ++ (yielded ++ (key, value) ∷ [])) ≡ Dict.get k (inputs ++ yielded)
  known-before yielded key value k other =
      ap (Dict.get k) (sym (append_assoc inputs yielded ((key, value) ∷ [])))
      ∙ ground (
        arith,
        Dict.get-append k (inputs ++ yielded) ((key, value) ∷ []),
        get_one key k value,
        other,
      )

  known-new :
      (yielded : List (String × Value)) (key : String) (value : Value)
      → Dict.get key inputs ≡ none
      → count key (keys_of yielded) ≡ 0
      → Dict.get key (inputs ++ (yielded ++ (key, value) ∷ [])) ≡ some value
  known-new yielded key value unsupplied unreported = ground (
    arith,
    Dict.get-append key inputs (yielded ++ (key, value) ∷ []),
    Dict.get-append key yielded ((key, value) ∷ []),
    get_of_uncounted key yielded unreported,
    get_one key key value,
    string_key.beq_iff key key,
    unsupplied,
  )

  IsRunning-later :
      (yielded : List (String × Value)) (key : String) (value : Value) (r : String × List Value)
      → IsRunning t sorts ns inputs yielded r
      → IsRunning t sorts ns inputs (yielded ++ (key, value) ∷ []) r
  IsRunning-later yielded key value (k, args) (n, found, given) = (
    n,
    found,
    arguments-known n.dependencies (inputs ++ yielded) _ args (known-later yielded key value) given,
  )

  split-count :
      (k key : String) (args : List Value) (before after running : List (String × List Value))
      → running ≡ before ++ (key, args) ∷ after
      → count k (keys_of running) ≡ count k (keys_of (before ++ after)) + count k (key ∷ [])
  split-count k key args before after running h = omega (
    arith,
    ap (λ l. count k (keys_of l)) h,
    count-keys-append k before ((key, args) ∷ after),
    count-keys-append k before after,
    count-append k (key ∷ []) (keys_of after),
  )

  split-spent :
      (k key : String) (args : List Value) (before after running : List (String × List Value))
      → running ≡ before ++ (key, args) ∷ after
      → spent (plan_of ns).by_key k (keys_of running)
        ≡ spent (plan_of ns).by_key k (keys_of (before ++ after))
          + spent (plan_of ns).by_key k (key ∷ [])
  split-spent k key args before after running h =
      let nodes = (plan_of ns).by_key in
      omega (
        arith,
        ap (λ l. spent nodes k (keys_of l)) h,
        spent-keys-append nodes k before ((key, args) ∷ after),
        spent-keys-append nodes k before after,
        spent-append nodes k (key ∷ []) (keys_of after),
      )

  pub complete-Inv :
      (key : String) (value : Value) (args : List Value) (before after : List (String × List Value))
      (s : Run t.State Value) (yielded : List (String × Value))
      → s.running ≡ before ++ (key, args) ∷ after
      → Inv t sorts ns inputs [] [] s yielded
      → (s' : Run t.State Value) × (complete t key value (before ++ after) s ≡ ok s')
        × Inv t sorts ns inputs [] [] s' (yielded ++ (key, value) ∷ [])
  unfolding complete
  complete-Inv key value args before after s yielded h i =
      let nodes = (plan_of ns).by_key in
      let yielded' = yielded ++ (key, value) ∷ [] in
      let placed = λ (k : String). split-count k key args before after s.running h in
      let running : 0 < count key (keys_of s.running) =
        ground (arith, placed key, string_key.beq_iff key key) in
      let unsupplied = i.unsupplied key (omega (arith, running)) in
      let unreported : count key (keys_of yielded) ≡ 0 =
        omega (arith, i.reported key, i.placed key, i.once key, running) in
      let new = known-new yielded key value unsupplied unreported in
      let (runs_before, runs_rest) =
        All-split (IsRunning t sorts ns inputs yielded) before ((key, args) ∷ after)
          (subst (All (IsRunning t sorts ns inputs yielded)) h i.runs) in
      let between : Inv t sorts ns inputs (key ∷ []) (key ∷ [])
          (record s { running = before ++ after; results = Dict.put key value s.results })
          yielded' =
        record {
          same_graph = i.same_graph;
          placed = λ k. omega (arith, i.placed k, placed k);
          once = i.once;
          counted =
              λ k. omega (arith, i.counted k, split-spent k key args before after s.running h);
          settled = λ k h'.
              let (v, there) = i.settled k h' in (v, known-later yielded key value k v there);
          held = λ k v there h'. elim (Bool-cases (key == k)) [
            | inl same ↦
                let e = (string_key.beq_iff key k).0 same in
                Dict.get-put key k value s.results
                ∙ rw same (sym new ∙ ap (λ x. Dict.get x (inputs ++ yielded')) e ∙ there)
            | inr other ↦
                Dict.get-put key k value s.results
                ∙ rw other (i.held k v (sym (known-before yielded key value k other) ∙ there) h')
          ];
          only = λ k v there. elim (Bool-cases (key == k)) [
            | inl same ↦
                let e = (string_key.beq_iff key k).0 same in
                let was : some value ≡ some v =
                  rw same at (sym (Dict.get-put key k value s.results) ∙ there) in
                ap (λ x. Dict.get x (inputs ++ yielded')) (sym e) ∙ new ∙ was
            | inr other ↦
                let was : Dict.get k s.results ≡ some v =
                  rw other at (sym (Dict.get-put key k value s.results) ∙ there) in
                known-later yielded key value k v (i.only k v was)
          ];
          reported =
              λ k. omega (arith, i.reported k, count-keys-append k yielded ((key, value) ∷ []));
          unsupplied = λ k h'.
              i.unsupplied k
                (omega (arith, h', placed k, count-keys-append k yielded ((key, value) ∷ [])));
          runs =
              All-map (IsRunning t sorts ns inputs yielded) (IsRunning t sorts ns inputs yielded')
                (before ++ after) (IsRunning-later yielded key value)
                (All-append (IsRunning t sorts ns inputs yielded) before after runs_before
                  runs_rest.1);
          fed = i.fed;
          drained = i.drained;
          named = i.named;
        } in
      unlock-Inv t sorts ns inputs key _ yielded' value between new
