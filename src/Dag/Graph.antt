-- ===== src/Dag/Graph.antt =====
-- `Graph`, `CompiledGraph._seed` of packages/without_dag/src/without_dag/graph.py, and `Node` and
-- `Plan.of` of execution.py
--
-- What a step runs is a value of a type of its own, which is only stored.
pub mod Order
pub mod Seeds
mod Samples
use Prim.Native.String as Str
use without.Prelude.{
  ℕ, zero, suc, ◌+◌, String, Bool, true, false, ◌||◌, Option, none, some, List, [], ◌∷◌, ◌++◌, map,
  nat_eq, if◌then◌else◌, Result, ok, err,
}
use without.Prelude.Eq.{◌==◌, string_key}
use without.Prelude.Dict
use without.Prelude.Dict.{Dict}
use without.Durability.InboxKey.{padded, width_from}

pub record Node (Run : Type 0) : Type 0 where
  pub key : String
  pub dependencies : List String
  pub run : Run

pub record Graph (Run : Type 0) : Type 0 where
  pub nodes : List (Node Run)
  pub input_keys : List String

-- What the builder and a run may raise.
pub data Refusal : Type 0 where
  input_key_taken key_taken bad_limit wrong_arity unknown_keys : Refusal

-- `f"input:{index}"`
unfoldable pub input_key : ℕ → String
input_key index = Str.◌++◌ "input:" (padded (width_from index 1 index) index)

unfoldable pub input_keys_from : (index count : ℕ) → List String
input_keys_from index zero = []
input_keys_from index (suc count) = input_key index ∷ input_keys_from (suc index) count

unfoldable pub is_in : String → List String → Bool
is_in key [] = false
is_in key (k ∷ ks) = (k == key) || is_in key ks

abbrev pub keys_of : {Run : Type 0} → List (Node Run) → List String
keys_of = map (λ n. n.key)

-- `of`, by the number of entries. The handle of an entry is its key.
unfoldable pub of : {Run : Type 0} → (count : ℕ) → Graph Run × List String
of count = let keys = input_keys_from 0 count in (record { nodes = []; input_keys = keys }, keys)

-- `Counter.update`
unfoldable pub count_all : List String → Dict String ℕ → Dict String ℕ
count_all [] d = d
count_all (k ∷ ks) d =
    count_all ks (Dict.put k (elim (Dict.get k d) [ none ↦ 1 | some n ↦ n + 1 ]) d)

module _ {Run : Type 0} where
  -- `node`, where a handle is a key.
  unfoldable pub node : String → Run → List String → Graph Run → Result Refusal String × Graph Run
  node key run deps g =
      if is_in key g.input_keys
      then (err input_key_taken, g)
      else (if is_in key (keys_of g.nodes) then (err key_taken, g) else (
        ok key,
        record g { nodes = g.nodes ++ (record { key = key; dependencies = deps; run = run }) ∷ [] },
      ))

  -- `Plan.of`: the nodes by key, their dependencies, and how many read each key.
  unfoldable pub by_key_of : List (Node Run) → Dict String (Node Run) → Dict String (Node Run)
  by_key_of [] d = d
  by_key_of (n ∷ ns) d = by_key_of ns (Dict.put n.key n d)

  unfoldable pub consumers_of : Dict String (Node Run) → Dict String ℕ → Dict String ℕ
  consumers_of [] d = d
  consumers_of ((key, n) ∷ ns) d = consumers_of ns (count_all n.dependencies d)

pub record Plan (Run : Type 0) : Type 0 where
  pub by_key : Dict String (Node Run)
  pub dependencies : Dict String (List String)
  pub consumers : Dict String ℕ

pub record CompiledGraph (Run : Type 0) : Type 0 where
  pub nodes : List (Node Run)
  pub inputs : List String
  pub output : String
  pub limit : Option ℕ
  pub plan : Plan Run

-- `limit is not None and limit < 1`, of a limit that is not negative
abbrev pub is_bad_limit : Option ℕ → Bool
is_bad_limit none = false
is_bad_limit (some n) = nat_eq n 0

module _ {Run : Type 0} where
  unfoldable pub plan_of : List (Node Run) → Plan Run
  plan_of nodes =
      let by_key = by_key_of nodes [] in
      record {
        by_key = by_key;
        dependencies = map (λ e. (e.0, e.1.dependencies)) by_key;
        consumers = consumers_of by_key [];
      }

  -- `build`
  unfoldable pub build :
      (output : String) → Option ℕ → Graph Run → Result Refusal (CompiledGraph Run)
  build output limit g =
      if is_bad_limit limit
      then err bad_limit
      else ok (record {
        nodes = g.nodes;
        inputs = g.input_keys;
        output = output;
        limit = limit;
        plan = plan_of g.nodes;
      })

-- `dict(zip(self.inputs, values, strict=True))`; `none` is the `ValueError` of the zip.
unfoldable pub zip_seed :
    {Value : Type 0} → List String → List Value → Dict String Value → Option (Dict String Value)
zip_seed [] [] d = some d
zip_seed (k ∷ ks) (v ∷ vs) d = zip_seed ks vs (Dict.put k v d)
zip_seed _ _ d = none

-- `update`
unfoldable pub update : {Value : Type 0} → Dict String Value → Dict String Value → Dict String Value
update [] d = d
update ((k, v) ∷ more) d = update more (Dict.put k v d)

-- Whether every key is the name of a node.
unfoldable pub all_known : {Run Value : Type 0} → Dict String (Node Run) → Dict String Value → Bool
all_known nodes [] = true
all_known nodes ((k, v) ∷ checkpoint) = elim (Dict.get k nodes) [
  | none ↦ false
  | some n ↦ all_known nodes checkpoint
]

-- `_seed`
unfoldable pub seed :
    {Run Value : Type 0}
    → CompiledGraph Run
    → List Value
    → Dict String Value
    → Result Refusal (Dict String Value)
seed g values checkpoint = elim (zip_seed g.inputs values []) [
  | none ↦ err wrong_arity
  | some seeded ↦
      if all_known g.plan.by_key checkpoint then ok (update checkpoint seeded) else err unknown_keys
]
