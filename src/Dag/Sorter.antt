-- ===== src/Dag/Sorter.antt =====
-- `graphlib.TopologicalSorter`, as packages/without_dag/src/without_dag/execution.py uses it: a
-- record of its methods, and what its documentation says of them.
use without.Prelude.{
  ℕ, suc, ◌≤◌, ◌<◌, String, ◌≡◌, Bool, false, Option, some, List, [], ◌∷◌, ◌++◌, ◌⊎◌, if◌then◌else◌,
}
use without.Prelude.Eq.{◌==◌, string_key}
use without.Prelude.Dict
use without.Prelude.Dict.{Dict}

-- How often a key stands in a list.
abbrev pub count : String → List String → ℕ
count key [] = 0
count key (k ∷ ks) = if k == key then suc (count key ks) else count key ks

-- `prepare` of a sorter over a graph is `none` where it raises `CycleError`, and `done` where it raises
-- `ValueError`.
pub record Sorter : Type 1 where
  pub State : Type 0
  pub prepare : Dict String (List String) → Option State
  pub get_ready : State → List String × State
  pub done : String → State → Option State
  pub is_active : State → Bool

-- `passed` are the keys that `get_ready` has returned, `finished` those marked done, and `waiting`
-- those that are ready and have not been returned. `get_ready` returns what is waiting, each key
-- once and after all it depends on is done; `done` takes a key that was returned and not marked yet; `is_active` says that a key is waiting or returned and
-- not done; and once neither is so, every key of the graph is done.
pub record IsSorter (t : Sorter) : Type 1 where
  pub graph : t.State → Dict String (List String)
  pub passed : t.State → List String
  pub finished : t.State → List String
  pub waiting : t.State → List String
  pub prepare_lem :
      (g : Dict String (List String)) (s : t.State)
      → t.prepare g ≡ some s
      → (graph s ≡ g) × (passed s ≡ []) × (finished s ≡ [])
  pub get_ready_lem :
      (s : t.State)
      → ((t.get_ready s).0 ≡ waiting s)
        × (graph (t.get_ready s).1 ≡ graph s)
        × (passed (t.get_ready s).1 ≡ passed s ++ waiting s)
        × (finished (t.get_ready s).1 ≡ finished s)
        × (waiting (t.get_ready s).1 ≡ [])
  pub done_lem :
      (key : String) (s q : t.State)
      → t.done key s ≡ some q
      → (graph q ≡ graph s) × (passed q ≡ passed s) × (finished q ≡ finished s ++ key ∷ [])
  pub done_accepts :
      (key : String) (s : t.State)
      → 0 < count key (passed s)
      → count key (finished s) ≡ 0
      → (q : t.State) × (t.done key s ≡ some q)
  pub waiting_once : (s : t.State) (key : String) → count key (waiting s) ≤ 1
  pub waiting_new :
      (s : t.State) (key : String) → 0 < count key (waiting s) → count key (passed s) ≡ 0
  pub waiting_after :
      (s : t.State) (key dependency : String) (dependencies : List String)
      → 0 < count key (waiting s)
      → Dict.get key (graph s) ≡ some dependencies
      → 0 < count dependency dependencies
      → 0 < count dependency (finished s)
  pub waiting_known :
      (s : t.State) (key : String)
      → 0 < count key (waiting s)
      → ((dependencies : List String) × (Dict.get key (graph s) ≡ some dependencies))
        ⊎ ((reader : String) × (dependencies : List String) × (Dict.get reader (graph s)
              ≡ some dependencies)
            × (0 < count key dependencies))
  pub inactive :
      (s : t.State)
      → t.is_active s ≡ false
      → (waiting s ≡ []) × ((key : String) → 0 < count key (passed s) → 0 < count key (finished s))
  pub exhausted :
      (s : t.State) (key : String) (dependencies : List String)
      → waiting s ≡ []
      → ((k : String) → 0 < count k (passed s) → 0 < count k (finished s))
      → Dict.get key (graph s) ≡ some dependencies
      → 0 < count key (finished s)
