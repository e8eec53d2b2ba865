-- ===== src/Web/Trie/Walk.antt =====
-- `walk` of packages/without_web/src/without_web/trie.py
use Prim.Native.String as Str
pub mod Sound
pub mod Complete
pub mod Order
use without.Prelude.{ℕ, String, Option, none, some, List, [], ◌∷◌, ◌++◌, Result, ok, err}
use without.Prelude.Eq.{string_key}
use without.Prelude.Dict
use without.Prelude.Dict.{Dict}
use without.Web.Trie.Nodes.{
  Fault, zip_strict, Bound, Node, node, Params, no_params, param_to, CatchAll, no_catch_all,
  catch_all_to, leaf_of, get_literal,
}

-- "/".join(segments)
unfoldable pub join : List String → String
join [] = ""
join (s ∷ []) = s
join (s ∷ t ∷ rest) = Str.◌++◌ s (Str.◌++◌ "/" (join (t ∷ rest)))

-- `zip(…, strict=True)`; `none` is its `ValueError`.
unfoldable pub zip_strict_of {ℓ κ} :
    {A : Type ℓ} {B : Type κ} → List A → List B → Option (List (A × B))
zip_strict_of [] [] = some []
zip_strict_of (a ∷ as') (b ∷ bs) = elim (zip_strict_of as' bs) [
  | none ↦ none
  | some r ↦ some ((a, b) ∷ r)
]
zip_strict_of _ _ = none

-- `dict` of a list of pairs: a later pair with the same key wins.
unfoldable pub dict_of {ℓ} : {V : Type ℓ} → List (String × V) → Dict String V → Dict String V
dict_of [] d = d
dict_of ((k, v) ∷ pairs) d = dict_of pairs (Dict.put k v d)

pub record Found (L V : Type 0) : Type 0 where
  pub leaf : L
  pub params : Dict String V

-- The result of a walk that may raise: `ok none` is no match.
abbrev pub Walked : Type 0 → Type 0 → Type 0
Walked L V = Result Fault (Option (Found L V))

module _ {L V : Type 0} where
  -- `if (found := …) is not None: return found`, and the code that follows.
  abbrev pub or_else : Walked L V → Walked L V → Walked L V
  or_else (ok none) k = k
  or_else (ok (some f)) k = ok (some f)
  or_else (err e) k = err e

  -- `_found`
  unfoldable pub found : Bound L → List V → Walked L V
  found b values = elim (zip_strict_of b.names values) [
    | none ↦ err zip_strict
    | some pairs ↦ ok (some (record { leaf = b.leaf; params = dict_of pairs [] }))
  ]

-- What the function objects do: `none` is a `ValueError` of the parse.
module _ {L V : Type 0} (call : ℕ → String → Option V) where
  -- The loop over `node.params`.
  unfoldable pub walk_params :
      (Node L → List V → Walked L V) → String → List V → Params L → Walked L V
  walk_params go head values no_params = ok none
  walk_params go head values (param_to c child rest) = elim (call c.parse head) [
    | none ↦ walk_params go head values rest
    | some v ↦ or_else (go child (values ++ v ∷ [])) (walk_params go head values rest)
  ]

  unfoldable pub walk_catch_all : List String → List V → CatchAll L → Walked L V
  walk_catch_all segments values no_catch_all = ok none
  walk_catch_all segments values (catch_all_to c child) = elim (leaf_of child) [
    | none ↦ ok none
    | some bound ↦ elim (call c.parse (join segments)) [
      | none ↦ ok none
      | some v ↦ found bound (values ++ v ∷ [])
    ]
  ]

  abbrev pub walk_literal : (Node L → Walked L V) → Option (Node L) → Walked L V
  walk_literal go none = ok none
  walk_literal go (some child) = go child

  abbrev pub walk_leaf : Option (Bound L) → List V → Walked L V
  walk_leaf none values = ok none
  walk_leaf (some bound) values = found bound values

  -- `_walk`, recursive on the segments of the target.
  unfoldable pub walk_from : List String → Node L → List V → Walked L V
  walk_from [] (node ls ps ca lf) values = walk_leaf lf values
  walk_from (head ∷ rest) (node ls ps ca lf) values =
      or_else (walk_literal (λ child. walk_from rest child values) (get_literal head ls)) (
        or_else (walk_params (walk_from rest) head values ps)
          (walk_catch_all (head ∷ rest) values ca))

  unfoldable pub walk : Node L → List String → Walked L V
  walk n segments = walk_from segments n []
