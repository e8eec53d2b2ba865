-- ===== src/Web/Trie/Walk/Complete.antt =====
-- A walk that misses: no leaf that the trie holds has a path which the target matches.
use without.Prelude.{
  ℕ, String, Option, none, some, ◌≡◌, ◌≢◌, refl, subst, inl, inr, List, [], ◌∷◌, ◌++◌, Bool-cases,
  Option-cases, ok, err, arith,
}
use without.Prelude.Eq.{◌==◌, string_key}
use without.Web.Converters.{Converter}
use without.Web.Trie.Nodes.{Bound, Node, node, Params, no_params, param_to, get_literal}
use without.Web.Trie.Paths.{Key, text, value, rest, matches, InParams, Has}
use without.Web.Trie.Walk.{
  Walked, or_else, found, walk_params, walk_catch_all, walk_literal, walk_leaf, walk_from, join,
}

module _ {L V : Type 0} where
  or_else-eq-miss : (a k : Walked L V) → or_else a k ≡ ok none → (a ≡ ok none) × (k ≡ ok none)
  or_else-eq-miss (ok none) k h = (refl, h)
  or_else-eq-miss (ok (some f)) k h = absurd (cc)
  or_else-eq-miss (err e) k h = absurd (cc)

  pub found-ne-miss : (b : Bound L) (values : List V) → found b values ≢ ok none
  unfolding found
  found-ne-miss b values h = ground arith

module _ {L V : Type 0} (call : ℕ → String → Option V) where
  walk_params-miss :
      (go : Node L → List V → Walked L V) (head : String) (values : List V) (ps : Params L)
      (c : Converter) (child : Node L) (v : V)
      → walk_params call go head values ps ≡ ok none
      → InParams c child ps
      → call c.parse head ≡ some v
      → go child (values ++ v ∷ []) ≡ ok none
  unfolding walk_params
  walk_params-miss go head values no_params c child v missed there parsed = absurd there
  walk_params-miss go head values (param_to d m more) c child v missed (inl (e, e')) parsed =
      let parsed' = subst (λ x. call x.parse head ≡ some v) e parsed in
      let (first, later) = or_else-eq-miss _ _ (rw (parsed', walk_params) at missed) in rw e' first
  walk_params-miss go head values (param_to d m more) c child v missed (inr there) parsed =
      elim (Option-cases (call d.parse head)) [
        | inl rejected ↦
            walk_params-miss go head values more c child v (rw (rejected, walk_params) at missed)
              there parsed
        | inr (w, accepted) ↦
            let (first, later) = or_else-eq-miss _ _ (rw (accepted, walk_params) at missed) in
            walk_params-miss go head values more c child v later there parsed
      ]

  -- After a miss, nothing that the trie holds matches the target.
  pub walk_from-miss :
      (target : List String) (n : Node L) (values : List V) (ks : List Key) (b : Bound L)
      (vs : List V)
      → walk_from call target n values ≡ ok none
      → Has ks n b
      → matches call ks target ≡ some vs
      → ⊥
  unfolding walk_from walk_catch_all
  walk_from-miss [] (node ls ps ca lf) values [] b vs missed h m =
      found-ne-miss b values (subst (λ o. walk_leaf call o values ≡ ok none) h missed)
  walk_from-miss [] n values (text t ∷ ks) b vs missed h m = cc
  walk_from-miss [] n values (value c ∷ ks) b vs missed h m = cc
  walk_from-miss [] n values (rest c ∷ []) b vs missed h m = cc
  walk_from-miss [] n values (rest c ∷ _ ∷ _) b vs missed h m = cc
  walk_from-miss (head ∷ tail) n values [] b vs missed h m = cc
  walk_from-miss (head ∷ tail) (node ls ps ca lf) values (text t ∷ ks) b vs missed (child, there, h)
        m =
      let (first, later) =
        or_else-eq-miss
          (walk_literal call (λ child. walk_from call tail child values) (get_literal head ls))
          (or_else (walk_params call (walk_from call tail) head values ps)
            (walk_catch_all call (head ∷ tail) values ca))
          missed in
      elim (Bool-cases (t == head)) [
        | inr other ↦ cc (rw other at m)
        | inl same ↦
            let e = (string_key.beq_iff t head).0 same in
            let found_there = subst (λ x. get_literal x ls ≡ some child) e there in
            walk_from-miss tail child values ks b vs (rw found_there at first) h (rw same at m)
      ]
  walk_from-miss (head ∷ tail) (node ls ps ca lf) values (value c ∷ ks) b vs missed
        (child, there, h) m =
      let (first, later) =
        or_else-eq-miss
          (walk_literal call (λ child. walk_from call tail child values) (get_literal head ls))
          (or_else (walk_params call (walk_from call tail) head values ps)
            (walk_catch_all call (head ∷ tail) values ca))
          missed in
      let (second, third) =
        or_else-eq-miss (walk_params call (walk_from call tail) head values ps)
          (walk_catch_all call (head ∷ tail) values ca) later in
      elim (Option-cases (call c.parse head)) [
        | inl rejected ↦ cc (rw (rejected, matches) at m)
        | inr (v, parsed) ↦ elim (Option-cases (matches call ks tail)) [
          | inl mismatch ↦ ground (arith, parsed, mismatch, m)
          | inr (ws, matched) ↦
              walk_from-miss tail child (values ++ v ∷ []) ks b ws
                (walk_params-miss (walk_from call tail) head values ps c child v second there
                  parsed)
                h matched
        ]
      ]
  walk_from-miss (head ∷ tail) (node ls ps ca lf) values (rest c ∷ []) b vs missed (child, there, h)
        m =
      let (first, later) =
        or_else-eq-miss
          (walk_literal call (λ child. walk_from call tail child values) (get_literal head ls))
          (or_else (walk_params call (walk_from call tail) head values ps)
            (walk_catch_all call (head ∷ tail) values ca))
          missed in
      let (second, third) =
        or_else-eq-miss (walk_params call (walk_from call tail) head values ps)
          (walk_catch_all call (head ∷ tail) values ca) later in
      elim (Option-cases (call c.parse (join (head ∷ tail)))) [
        | inl rejected ↦ cc (rw (rejected, matches) at m)
        | inr (v, parsed) ↦
            found-ne-miss b (values ++ v ∷ []) (rw (there, walk_catch_all, h, parsed) at third)
      ]
  walk_from-miss (head ∷ tail) n values (rest c ∷ _ ∷ _) b vs missed h m = cc
