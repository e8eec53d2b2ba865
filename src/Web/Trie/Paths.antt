-- ===== src/Web/Trie/Paths.antt =====
-- What a trie holds and what a route matches, independently of how either is walked.
use without.Prelude.{ℕ, String, ◌≡◌, ◌⊎◌, Option, none, some, List, [], ◌∷◌, if◌then◌else◌}
use without.Prelude.Eq.{◌==◌, string_key}
use without.Web.Converters.{Converter}
use without.Web.Patterns.{Segment, literal, param, catch_all}
use without.Web.Trie.Nodes.{
  Bound, Node, node, Literals, Params, no_params, param_to, CatchAll, catch_all_to, leaf_of,
  get_literal, empty,
}
use without.Web.Trie.Walk.{join}

-- A segment without the name that its route gives the value.
pub data Key : Type 0 where
  text : String → Key
  value : Converter → Key
  rest : Converter → Key

abbrev pub key_of : Segment → Key
key_of (literal t) = text t
key_of (param _ c) = value c
key_of (catch_all _ c) = rest c

abbrev pub keys : List Segment → List Key
keys [] = []
keys (s ∷ segments) = key_of s ∷ keys segments

-- The parameter names that a route declares, in order.
abbrev pub names_of : List Segment → List String
names_of [] = []
names_of (literal _ ∷ segments) = names_of segments
names_of (param name _ ∷ segments) = name ∷ names_of segments
names_of (catch_all name _ ∷ segments) = name ∷ names_of segments

-- Whether a target matches a key sequence, and the values that it binds.
module _ {V : Type 0} (call : ℕ → String → Option V) where
  abbrev pub matches : List Key → List String → Option (List V)
  matches [] [] = some []
  matches [] (_ ∷ _) = none
  matches (text t ∷ ks) [] = none
  matches (text t ∷ ks) (s ∷ target) = if t == s then matches ks target else none
  matches (value c ∷ ks) [] = none
  matches (value c ∷ ks) (s ∷ target) = elim (call c.parse s) [
    | none ↦ none
    | some v ↦ elim (matches ks target) [ none ↦ none | some vs ↦ some (v ∷ vs) ]
  ]
  matches (rest c ∷ []) [] = none
  matches (rest c ∷ []) (s ∷ target) = elim (call c.parse (join (s ∷ target))) [
    | none ↦ none
    | some v ↦ some (v ∷ [])
  ]
  matches (rest c ∷ _ ∷ _) target = none

module _ {L : Type 0} where
  abbrev pub literals_of : Node L → Literals L
  literals_of (node ls _ _ _) = ls

  abbrev pub params_of : Node L → Params L
  params_of (node _ ps _ _) = ps

  abbrev pub catch_all_of : Node L → CatchAll L
  catch_all_of (node _ _ ca _) = ca

  abbrev pub InParams : Converter → Node L → Params L → Type 0
  InParams c child no_params = ⊥
  InParams c child (param_to d m more) = ((c ≡ d) × (child ≡ m)) ⊎ InParams c child more

  -- The trie holds the leaf `b` at the end of the path.
  abbrev pub Has : List Key → Node L → Bound L → Type 0
  Has [] n b = leaf_of n ≡ some b
  Has (text t ∷ ks) n b =
      (child : Node L) × (get_literal t (literals_of n) ≡ some child) × Has ks child b
  Has (value c ∷ ks) n b = (child : Node L) × InParams c child (params_of n) × Has ks child b
  Has (rest c ∷ ks) n b =
      (child : Node L) × (catch_all_of n ≡ catch_all_to c child) × Has ks child b

  pub not-Has-empty : (ks : List Key) (b : Bound L) → Has ks empty b → ⊥
  unfolding get_literal
  not-Has-empty [] b h = cc
  not-Has-empty (text t ∷ ks) b (child, found, h) = cc
  not-Has-empty (value c ∷ ks) b (child, found, h) = found
  not-Has-empty (rest c ∷ ks) b (child, found, h) = cc
