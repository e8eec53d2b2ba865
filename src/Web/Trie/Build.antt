-- ===== src/Web/Trie/Build.antt =====
-- `build`, `_insert` and `_freeze` of packages/without_web/src/without_web/trie.py
pub mod Insert
pub mod Grows
pub mod Keeps
pub mod Freeze
use without.Prelude.{
  ℕ, String, none, some, List, [], ◌∷◌, ◌++◌, leb, if◌then◌else◌, Result, ok, err, ◌>>=◌,
}
use without.Prelude.Eq.{◌==◌, string_key}
use without.Web.Converters.{Converter, converter_key, str}
use without.Web.Patterns.{Segment, literal, param, catch_all}
use without.Web.Trie.Nodes.{
  Fault, duplicate_route, catch_all_not_last, ambiguous_catch_all, Bound, Node, node, Literals,
  no_literals, literal_to, Params, no_params, param_to, CatchAll, no_catch_all, catch_all_to, empty,
}

module _ {L : Type 0} where
  -- `literals.setdefault(text, _Builder())`, and the change that is then made to that child.
  unfoldable pub alter_literal :
      (Node L → Result Fault (Node L)) → String → Literals L → Result Fault (Literals L)
  alter_literal f text no_literals = f empty >>= λ child. ok (literal_to text child no_literals)
  alter_literal f text (literal_to t child rest) =
      if t == text
      then (f child >>= λ c. ok (literal_to t c rest))
      else (alter_literal f text rest >>= λ r. ok (literal_to t child r))

  -- `params.setdefault(converter, _Builder())`, likewise.
  unfoldable pub alter_param :
      (Node L → Result Fault (Node L)) → Converter → Params L → Result Fault (Params L)
  alter_param f c no_params = f empty >>= λ child. ok (param_to c child no_params)
  alter_param f c (param_to d child rest) =
      if d == c
      then (f child >>= λ m. ok (param_to d m rest))
      else (alter_param f c rest >>= λ r. ok (param_to d child r))

  unfoldable pub alter_catch_all :
      (Node L → Result Fault (Node L)) → Converter → CatchAll L → Result Fault (CatchAll L)
  alter_catch_all f c no_catch_all = f empty >>= λ child. ok (catch_all_to c child)
  alter_catch_all f c (catch_all_to d child) =
      if d == c then (f child >>= λ m. ok (catch_all_to d m)) else err ambiguous_catch_all

  unfoldable pub insert_leaf : Bound L → Node L → Result Fault (Node L)
  insert_leaf bound (node ls ps ca none) = ok (node ls ps ca (some bound))
  insert_leaf bound (node ls ps ca (some _)) = err duplicate_route

  -- `_insert`, recursive on the segments of the route.
  unfoldable pub insert : List Segment → L → List String → Node L → Result Fault (Node L)
  insert [] leaf names n = insert_leaf (record { names = names; leaf = leaf }) n
  insert (literal text ∷ rest) leaf names (node ls ps ca lf) =
      alter_literal (insert rest leaf names) text ls >>= λ ls'. ok (node ls' ps ca lf)
  insert (param name c ∷ rest) leaf names (node ls ps ca lf) =
      alter_param (insert rest leaf (names ++ name ∷ [])) c ps >>= λ ps'. ok (node ls ps' ca lf)
  insert (catch_all name c ∷ []) leaf names (node ls ps ca lf) =
      alter_catch_all (insert [] leaf (names ++ name ∷ [])) c ca >>= λ ca'. ok (node ls ps ca' lf)
  insert (catch_all name c ∷ _ ∷ _) leaf names n = err catch_all_not_last

  unfoldable pub insert_all : List (List Segment × L) → Node L → Result Fault (Node L)
  insert_all [] n = ok n
  insert_all ((segments, leaf) ∷ routes) n = insert segments leaf [] n >>= insert_all routes

-- `_precedence`: compared with the value STR, not with its name.
unfoldable pub precedence : Converter → ℕ
precedence c = if c == str then 1 else 0

module _ {L : Type 0} where
  -- `sorted` is stable: an entry goes before the first one of no lower precedence.
  unfoldable pub sort_in : Converter → Node L → Params L → Params L
  sort_in c n no_params = param_to c n no_params
  sort_in c n (param_to d m rest) =
      if leb (precedence c) (precedence d)
      then param_to c n (param_to d m rest)
      else param_to d m (sort_in c n rest)

-- `_freeze`. The children are frozen before they are sorted: the order looks at the keys alone.
unfoldable mutual
  pub freeze : {L : Type 0} → Node L → Node L
  freeze (node ls ps ca lf) = node (freeze_literals ls) (freeze_params ps) (freeze_catch_all ca) lf

  pub freeze_literals : {L : Type 0} → Literals L → Literals L
  freeze_literals no_literals = no_literals
  freeze_literals (literal_to t child rest) = literal_to t (freeze child) (freeze_literals rest)

  pub freeze_params : {L : Type 0} → Params L → Params L
  freeze_params no_params = no_params
  freeze_params (param_to c child rest) = sort_in c (freeze child) (freeze_params rest)

  pub freeze_catch_all : {L : Type 0} → CatchAll L → CatchAll L
  freeze_catch_all no_catch_all = no_catch_all
  freeze_catch_all (catch_all_to c child) = catch_all_to c (freeze child)

unfoldable pub build : {L : Type 0} → List (List Segment × L) → Result Fault (Node L)
build routes = insert_all routes empty >>= λ root. ok (freeze root)
