-- ===== src/Web/Trie/Samples.antt =====
-- A small route table: tests, and the theorems at it.
use without.Prelude.{
  ℕ, zero, suc, String, Option, none, some, ◌≡◌, ◌↔◌, ◌⊎◌, refl, List, [], ◌∷◌, Memᴰ, if◌then◌else◌,
  Result, ok, err, ◌>>=◌,
}
use without.Prelude.Eq.{◌==◌, string_key}
use without.Web.Converters.{str, int, path}
use without.Web.Patterns.{Segment, literal, param, catch_all}
use without.Web.Trie.Nodes.{
  node, no_literals, no_params, param_to, no_catch_all, Params, get_literal, empty, Fault,
  duplicate_route, ambiguous_catch_all, catch_all_not_last, Node,
}
use without.Prelude.Dict
use without.Web.Trie.Build.{
  build, insert, insert_all, insert_leaf, alter_literal, alter_param, alter_catch_all, freeze,
  sort_in, precedence, freeze_params,
}
use without.Web.Trie.Paths.{Has, keys, matches}
use without.Web.Trie.Routing.{build-holds, Answers, FromRoute, walk-build, walk-build-eq-miss_iff}
use without.Web.Trie.Walk.Order.{FirstBranch, walk_params-freeze_first}
use without.Web.Trie.Walk.{
  Found, walk, walk_from, walk_params, walk_catch_all, found, join, zip_strict_of, dict_of,
}

data Value : Type 0 where
  number : ℕ → Value
  string : String → Value

abbrev call : ℕ → String → Option Value
call zero s = some (string s)
call (suc zero) s = if s == "42" then some (number 42) else none
call (suc (suc n)) s = none

abbrev table : List (List Segment × ℕ)
table =
    (literal "users" ∷ param "name" str ∷ [], 1)
    ∷ (literal "users" ∷ param "id" int ∷ [], 2)
    ∷ (literal "users" ∷ literal "me" ∷ [], 3)
    ∷ (literal "files" ∷ catch_all "rest" path ∷ [], 4)
    ∷ []

abbrev root_of : Result Fault (Node ℕ) → Node ℕ
root_of (ok n) = n
root_of (err _) = empty

-- Names all that a run unfolds.
ask : List (List Segment × ℕ) → List String → Result Fault (Option (Found ℕ Value))
unfolding build insert insert_all insert_leaf alter_literal alter_param alter_catch_all freeze
    sort_in precedence walk walk_from walk_params walk_catch_all found join zip_strict_of dict_of
    get_literal Dict.put
ask routes target = build routes >>= λ root. walk call root target

typed_first :
    ask table ("users" ∷ "42" ∷ [])
    ≡ ok (some (record { leaf = 2; params = ("id", number 42) ∷ [] }))
unfolding ask
typed_first = refl

str_after_rejection :
    ask table ("users" ∷ "x" ∷ [])
    ≡ ok (some (record { leaf = 1; params = ("name", string "x") ∷ [] }))
unfolding ask
str_after_rejection = refl

whole_rest :
    ask table ("files" ∷ "a" ∷ "b" ∷ [])
    ≡ ok (some (record { leaf = 4; params = ("rest", string "a/b") ∷ [] }))
unfolding ask
whole_rest = refl

refused_tables :
    (ask ((param "a" int ∷ [], 1) ∷ (param "b" int ∷ [], 2) ∷ []) [] ≡ err duplicate_route)
    × (ask ((catch_all "a" path ∷ literal "x" ∷ [], 1) ∷ []) [] ≡ err catch_all_not_last)
    × (ask ((catch_all "a" path ∷ [], 1) ∷ (catch_all "b" str ∷ [], 2) ∷ []) []
        ≡ err ambiguous_catch_all)
unfolding ask
refused_tables = (refl, refl, refl)

abbrev root : Node ℕ
unfolding ask
root = root_of (build table)

table_built : build table ≡ ok root
unfolding ask root
table_built = refl

build-holds_example :
    Has (keys (literal "users" ∷ literal "me" ∷ [])) root (record { names = []; leaf = 3 })
    ↔ FromRoute table (keys (literal "users" ∷ literal "me" ∷ [])) (record { names = []; leaf = 3 })
build-holds_example =
    build-holds table (keys (literal "users" ∷ literal "me" ∷ [])) (record { names = []; leaf = 3 })
      table_built

walk-build_example :
    (walk call root ("users" ∷ "42" ∷ []) ≡ ok none)
    ⊎ ((f : Found ℕ Value) × (walk call root ("users" ∷ "42" ∷ []) ≡ ok (some f))
        × Answers call table ("users" ∷ "42" ∷ []) f)
walk-build_example = walk-build call table table_built ("users" ∷ "42" ∷ [])

walk-build-eq-miss_iff_example : (walk call root ("nowhere" ∷ []) ≡ ok none) ↔ (
    (segments : List Segment) (leaf : ℕ)
    → Memᴰ (segments, leaf) table
    → matches call (keys segments) ("nowhere" ∷ []) ≡ none)
walk-build-eq-miss_iff_example = walk-build-eq-miss_iff call table table_built ("nowhere" ∷ [])

abbrev leaf_node : ℕ → Node ℕ
leaf_node n = node no_literals no_params no_catch_all (some (record { names = "p" ∷ []; leaf = n }))

-- Registered with `str` first.
abbrev branches : Params ℕ
branches = param_to str (leaf_node 1) (param_to int (leaf_node 2) no_params)

walk_params-freeze_first_example :
    FirstBranch call
      (walk_from call [])
      "42"
      []
      (freeze_params branches)
      (walk_params call (walk_from call []) "42" [] (freeze_params branches))
unfolding ask
walk_params-freeze_first_example =
    walk_params-freeze_first call (walk_from call []) "42" [] branches (λ e. cc e)
