-- ===== src/Web/Trie/Walk/Order.antt =====
-- The order in which the branches of a frozen node are tried.
use without.Prelude.{
  ℕ, String, ◌≤◌, ◌<◌, Option, none, some, ◌≡◌, ◌≢◌, refl, sym, subst, ◌∙◌, inl, inr, List, [], ◌∷◌,
  ◌++◌, Option-cases, some-cancel, ok, err, arith,
}
use without.Web.Converters.{Converter, converter_eq_iff, converter_key, str}
use without.Prelude.Eq.{◌==◌}
use without.Prelude.{Bool-cases}
use without.Web.Trie.Nodes.{Node, node, Params, no_params, param_to, get_literal}
use without.Web.Trie.Paths.{InParams, literals_of}
use without.Web.Trie.Build.{precedence, freeze_params}
use without.Web.Trie.Build.Freeze.{IsSorted, freeze_params-IsSorted}
use without.Web.Trie.Walk.{Walked, or_else, walk_params, walk_from}
use without.Web.Trie.Walk.Sound.{or_else-cases}

or_else-hit : {L V : Type 0} (a k : Walked L V) → a ≢ ok none → or_else a k ≡ a
or_else-hit (ok none) k hit = absurd (hit refl)
or_else-hit (ok (some f)) k hit = refl
or_else-hit (err e) k hit = refl

precedence-str : (c d : Converter) → c ≡ str → d ≢ str → precedence d < precedence c
unfolding precedence
precedence-str c d is_str typed = elim (Bool-cases (d == str)) [
  | inl same ↦ absurd (typed ((converter_eq_iff d str).0 same))
  | inr other ↦ rw (other, (converter_eq_iff c str).1 is_str) (omega arith)
]

module _ {L V : Type 0} (call : ℕ → String → Option V) where
  -- The branch that answered; where it is one of STR, every branch of another converter that accepts
  -- the segment has missed further down.
  pub record FirstBranch (go : Node L → List V → Walked L V) (head : String) (values : List V)
      (ps : Params L) (r : Walked L V) : Type 0 where
    pub converter : Converter
    pub child : Node L
    pub value : V
    pub listed : InParams converter child ps
    pub parsed : call converter.parse head ≡ some value
    pub answered : go child (values ++ value ∷ []) ≡ r
    pub first :
        (d : Converter) (m : Node L) (w : V)
        → InParams d m ps
        → converter ≡ str
        → d ≢ str
        → call d.parse head ≡ some w
        → go m (values ++ w ∷ []) ≡ ok none

  module _ (go : Node L → List V → Walked L V) (head : String) (values : List V) where
    FirstBranch-here :
        (c : Converter) (child : Node L) (more : Params L) (v : V)
        → ((d : Converter) (m : Node L) → InParams d m more → precedence c ≤ precedence d)
        → call c.parse head ≡ some v
        → FirstBranch go head values (param_to c child more) (go child (values ++ v ∷ []))
    FirstBranch-here c child more v least parsed = record {
      converter = c;
      child = child;
      value = v;
      listed = inl (refl, refl);
      parsed = parsed;
      answered = refl;
      first = λ d m w there is_str typed _. elim there [
        | inl it ↦ absurd (typed (cc (it.0, is_str)))
        | inr later ↦ absurd (omega (arith, least d m later, precedence-str c d is_str typed))
      ];
    }

    FirstBranch-later :
        (c : Converter) (child : Node L) (more : Params L) (r : Walked L V)
        → ((w : V) → call c.parse head ≡ some w → go child (values ++ w ∷ []) ≡ ok none)
        → FirstBranch go head values more r
        → FirstBranch go head values (param_to c child more) r
    FirstBranch-later c child more r missed b = record {
      converter = b.converter;
      child = b.child;
      value = b.value;
      listed = inr b.listed;
      parsed = b.parsed;
      answered = b.answered;
      first = λ d m w there is_str typed accepted. elim there [
        | inl it ↦
            subst (λ k. go k (values ++ w ∷ []) ≡ ok none) (sym it.1)
              (missed w (subst (λ x. call x.parse head ≡ some w) it.0 accepted))
        | inr later ↦ b.first d m w later is_str typed accepted
      ];
    }

    walk_params-FirstBranch :
        (ps : Params L)
        → IsSorted ps
        → walk_params call go head values ps ≢ ok none
        → FirstBranch go head values ps (walk_params call go head values ps)
    unfolding walk_params
    walk_params-FirstBranch no_params sorted hit = absurd (hit refl)
    walk_params-FirstBranch (param_to c child more) (least, sorted) hit =
        elim (Option-cases (call c.parse head)) [
          | inl rejected ↦
              rw (rejected, walk_params)
                (FirstBranch-later c child more _ (λ w accepted. absurd (cc (rejected, accepted)))
                  (walk_params-FirstBranch more sorted (rw (rejected, walk_params) at hit)))
          | inr (v, parsed) ↦
              let later = walk_params call go head values more in
              let a = go child (values ++ v ∷ []) in
              rw (parsed, walk_params)
                (elim (or_else-cases a later) [
                  | inr (_, same) ↦
                      subst (FirstBranch go head values (param_to c child more)) (sym same)
                        (FirstBranch-here c child more v least parsed)
                  | inl (missed, same) ↦
                      subst (FirstBranch go head values (param_to c child more)) (sym same) (
                        FirstBranch-later c child more later
                          (λ w accepted.
                            subst (λ x. go child (values ++ x ∷ []) ≡ ok none)
                              (some-cancel (sym parsed ∙ accepted)) missed)
                          (walk_params-FirstBranch more sorted
                            (λ e. hit (rw (parsed, walk_params) (same ∙ e)))))
                ])
        ]

    -- Among the parameter branches of a frozen node typed converters come before STR: a branch of
    -- STR answers only if every branch of another converter that accepts the segment misses further
    -- down.
    pub walk_params-freeze_first :
        (ps : Params L)
        → walk_params call go head values (freeze_params ps) ≢ ok none
        → FirstBranch go head values
            (freeze_params ps)
            (walk_params call go head values (freeze_params ps))
    walk_params-freeze_first ps hit =
        walk_params-FirstBranch (freeze_params ps) (freeze_params-IsSorted ps) hit

  -- Below a literal child that does not miss, the other branches are not looked at.
  pub walk-literal_first :
      (n : Node L) (head : String) (tail : List String) (values : List V) (child : Node L)
      → get_literal head (literals_of n) ≡ some child
      → walk_from call tail child values ≢ ok none
      → walk_from call (head ∷ tail) n values ≡ walk_from call tail child values
  unfolding walk_from
  walk-literal_first (node ls ps ca lf) head tail values child there hit =
      rw there (or_else-hit (walk_from call tail child values) _ hit)
