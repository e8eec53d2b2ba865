-- ===== src/Dag/Run/Invariant.antt =====
-- What holds of a run at every point: where each key is, how many reads are left of each result, and
-- which results are there.
use without.Prelude.{
  ◌+◌, ◌≤◌, ◌<◌, String, ◌≡◌, Option, none, some, ◌⊎◌, List, [], ◌++◌, map, All, ok,
}
use without.Prelude.Eq.{string_key}
use without.Prelude.Dict
use without.Prelude.Dict.{Dict}
use without.Dag.Graph.{Node, plan_of}
use without.Dag.Sorter.{Sorter, IsSorter, count}
use without.Dag.Run.{Run, arguments}
use without.Dag.Run.Counts.{tally, total, spent}

abbrev pub keys_of {ℓ} : {A : Type ℓ} → List (String × A) → List String
keys_of = map (λ e. e.0)

module _ {Op Value : Type 0} (t : Sorter) (sorts : IsSorter t) (ns : List (Node Op))
    (inputs : Dict String Value) where
  abbrev pub node_at : String → Option (Node Op)
  node_at key = Dict.get key (plan_of ns).by_key

  -- A plan whose nodes read inputs and nodes alone.
  abbrev pub IsClosed : Type 0
  IsClosed =
      (key dependency : String) (n : Node Op)
      → node_at key ≡ some n
      → 0 < count dependency n.dependencies
      → ((m : Node Op) × (node_at dependency ≡ some m))
        ⊎ ((v : Value) × (Dict.get dependency inputs ≡ some v))

  -- What a running node was given: the known values of its dependencies, in order.
  abbrev pub IsRunning : List (String × Value) → String × List Value → Type 0
  IsRunning yielded (key, args) =
      (n : Node Op) × (node_at key ≡ some n)
      × (arguments n.dependencies (inputs ++ yielded) ≡ ok args)

  -- `out` are the keys that were taken and not yet put elsewhere, `used` those whose reads were released.
  pub record Inv (out used : List String) (s : Run t.State Value) (yielded : List (String × Value))
      : Type 0 where
    pub same_graph : sorts.graph s.sorter ≡ (plan_of ns).dependencies
    pub placed :
        (k : String)
        → count k s.ready
            + count k (keys_of s.running)
            + count k (sorts.finished s.sorter)
            + count k out
          ≡ count k (sorts.passed s.sorter)
    pub once : (k : String) → count k (sorts.passed s.sorter) ≤ 1
    pub counted :
        (k : String)
        → tally k s.consumers
            + spent (plan_of ns).by_key k (keys_of s.running)
            + spent (plan_of ns).by_key k (sorts.finished s.sorter)
            + spent (plan_of ns).by_key k used
          ≡ total k (plan_of ns).by_key
    pub settled :
        (k : String)
        → 0 < count k (sorts.finished s.sorter)
        → (v : Value) × (Dict.get k (inputs ++ yielded) ≡ some v)
    pub held :
        (k : String) (v : Value)
        → Dict.get k (inputs ++ yielded) ≡ some v
        → (count k (sorts.finished s.sorter) ≡ 0) ⊎ (0 < tally k s.consumers)
        → Dict.get k s.results ≡ some v
    pub only :
        (k : String) (v : Value)
        → Dict.get k s.results ≡ some v
        → Dict.get k (inputs ++ yielded) ≡ some v
    pub reported :
        (k : String) → count k (keys_of yielded) ≤ count k (sorts.finished s.sorter) + count k out
    pub unsupplied :
        (k : String)
        → 0 < count k (keys_of yielded) + count k (keys_of s.running)
        → Dict.get k inputs ≡ none
    pub runs : All (IsRunning yielded) s.running
    pub fed :
        (k d : String) (n : Node Op)
        → 0 < count k (sorts.passed s.sorter)
        → node_at k ≡ some n
        → 0 < count d n.dependencies
        → 0 < count d (sorts.finished s.sorter)
    pub drained : sorts.waiting s.sorter ≡ []
    pub named :
        IsClosed
        → (k : String) → 0 < count k (sorts.passed s.sorter)
        → ((n : Node Op) × (node_at k ≡ some n)) ⊎ ((v : Value) × (Dict.get k inputs ≡ some v))
