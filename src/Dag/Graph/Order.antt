-- ===== src/Dag/Graph/Order.antt =====
-- The nodes of a graph stand in an order in which each comes after what it depends on.
use without.Prelude.{
  String, ◌≡◌, refl, sym, subst, ◌∙◌, true, false, Bool-cases, ◌||◌, inl, inr, List, [], ◌∷◌, ◌++◌,
  append_assoc, append-nil, All, arith,
}
use without.Prelude.Eq.{string_key}
use without.Dag.Graph.{Node, Graph, is_in, keys_of, node}

pub is_in-append :
    (key : String) (ks ls : List String) → is_in key (ks ++ ls) ≡ (is_in key ks || is_in key ls)
unfolding is_in
is_in-append key [] ls = refl
is_in-append key (k ∷ ks) ls = ground (arith, is_in-append key ks ls)

module _ {Run : Type 0} where
  -- Each node has a key that is not known yet, and depends on known keys alone; its own key is known
  -- from there on.
  abbrev pub IsOrdered : (known : List String) → List (Node Run) → Type 0
  IsOrdered known [] = Unit
  IsOrdered known (n ∷ ns) =
      (is_in n.key known ≡ false)
      × All (λ d. is_in d known ≡ true) n.dependencies
      × IsOrdered (known ++ n.key ∷ []) ns

  IsOrdered-append :
      (known : List String) (ns : List (Node Run)) (n : Node Run)
      → IsOrdered known ns
      → is_in n.key (known ++ keys_of ns) ≡ false
      → All (λ d. is_in d (known ++ keys_of ns) ≡ true) n.dependencies
      → IsOrdered known (ns ++ n ∷ [])
  IsOrdered-append known [] n h fresh deps = (
    subst (λ ks. is_in n.key ks ≡ false) (append-nil known) fresh,
    subst (λ ks. All (λ d. is_in d ks ≡ true) n.dependencies) (append-nil known) deps,
    tt,
  )
  IsOrdered-append known (m ∷ ns) n (own, before, h) fresh deps =
      let regroup = sym (append_assoc known (m.key ∷ []) (keys_of ns)) in
      (
        own,
        before,
        IsOrdered-append (known ++ m.key ∷ []) ns n h
            (subst (λ ks. is_in n.key ks ≡ false) regroup fresh)
            (subst (λ ks. All (λ d. is_in d ks ≡ true) n.dependencies) regroup deps),
      )

  -- A handle that the graph has given out: the key of an entry or of a node.
  abbrev pub IsHandle : Graph Run → String → Type 0
  IsHandle g key = is_in key (g.input_keys ++ keys_of g.nodes) ≡ true

  node-IsOrdered :
      (key : String) (run : Run) (deps : List String) (g : Graph Run)
      → All (IsHandle g) deps
      → IsOrdered g.input_keys g.nodes
      → IsOrdered (node key run deps g).1.input_keys (node key run deps g).1.nodes
  unfolding node
  node-IsOrdered key run deps g known h = elim (Bool-cases (is_in key g.input_keys)) [
    | inl input ↦ rw input h
    | inr free ↦ elim (Bool-cases (is_in key (keys_of g.nodes))) [
      | inl taken ↦ rw free (rw taken h)
      | inr fresh ↦ rw free (
          rw fresh (
            IsOrdered-append g.input_keys g.nodes _ h
              (is_in-append key g.input_keys (keys_of g.nodes) ∙ rw free fresh) known))
    ]
  ]
