-- ===== src/Web/Trie/Nodes.antt =====
-- The data of packages/without_web/src/without_web/trie.py
--
-- `Node` and `_Builder` have the same four fields, of which the builder's are mutable: one type
-- stands for both. A dict that holds nodes is a list type of the mutual block, in insertion order.
use without.Prelude.{String, Option, none, some, List, if◌then◌else◌}
use without.Prelude.Eq.{◌==◌, string_key}
use without.Web.Converters.{Converter}

-- The messages of the `ValueError`s.
pub data Fault : Type 0 where
  duplicate_route catch_all_not_last ambiguous_catch_all zip_strict : Fault

-- `_Bound`: a leaf, with the parameter names of the route that reaches it.
pub record Bound (L : Type 0) : Type 0 where
  pub names : List String
  pub leaf : L

mutual
  pub data Node (L : Type 0) : Type 0 where
    node : Literals L → Params L → CatchAll L → Option (Bound L) → Node L

  pub data Literals (L : Type 0) : Type 0 where
    no_literals : Literals L
    literal_to : String → Node L → Literals L → Literals L

  pub data Params (L : Type 0) : Type 0 where
    no_params : Params L
    param_to : Converter → Node L → Params L → Params L

  pub data CatchAll (L : Type 0) : Type 0 where
    no_catch_all : CatchAll L
    catch_all_to : Converter → Node L → CatchAll L

abbrev pub leaf_of : {L : Type 0} → Node L → Option (Bound L)
leaf_of (node _ _ _ leaf) = leaf

-- `_Builder()`
abbrev pub empty : {L : Type 0} → Node L
empty = node no_literals no_params no_catch_all none

module _ {L : Type 0} where
  unfoldable pub get_literal : String → Literals L → Option (Node L)
  get_literal text no_literals = none
  get_literal text (literal_to t child rest) =
      if t == text then some child else get_literal text rest
