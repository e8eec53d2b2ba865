-- ===== src/Asgi/Sse/Lines.antt =====
-- How a split of texts that are put together comes of the splits of the parts.
use without.Prelude.{
  ℕ, ◌≡◌, refl, sym, ap, ◌∙◌, Bool, ◌||◌, ◌&&◌, Bool-cases, List, [], ◌∷◌, ◌++◌, nat_eq, append-nil,
  inl, inr, append_assoc,
}
use without.Asgi.Sse.{Text, cr, lf, Pieces, on_first, split_after}

-- The pieces of a text and of what follows it: the last of the one is the start of the first of the other.
abbrev pub glue : Pieces → Pieces → Pieces
glue (pieces, last) ([], last') = (pieces, last ++ last')
glue (pieces, last) (first ∷ pieces', last') = (pieces ++ (last ++ first) ∷ pieces', last')

-- Whether a text that stands after a carriage return, or does not, ends with one.
abbrev pub ends_cr : Bool → Text → Bool
ends_cr after [] = after
ends_cr after (c ∷ text) = ends_cr (nat_eq c cr) text

pub glue-none : (p : Pieces) → glue ([], []) p ≡ p
glue-none ([], last) = refl
glue-none (first ∷ pieces, last) = refl

glue-ended : (p q : Pieces) → glue ([] ∷ p.0, p.1) q ≡ ([] ∷ (glue p q).0, (glue p q).1)
glue-ended (pieces, last) ([], last') = refl
glue-ended (pieces, last) (first ∷ pieces', last') = refl

glue-on_first : (c : ℕ) (p q : Pieces) → glue (on_first c p) q ≡ on_first c (glue p q)
glue-on_first c ([], last) ([], last') = refl
glue-on_first c ([], last) (first ∷ pieces', last') = refl
glue-on_first c (piece ∷ pieces, last) ([], last') = refl
glue-on_first c (piece ∷ pieces, last) (first ∷ pieces', last') = refl

pub split_after-append :
    (after : Bool) (a b : Text)
    → split_after after (a ++ b) ≡ glue (split_after after a) (split_after (ends_cr after a) b)
unfolding split_after
split_after-append after [] b = sym (glue-none (split_after after b))
split_after-append after (c ∷ a) b =
    let rest = split_after-append (nat_eq c cr) a b in
    let p = split_after (nat_eq c cr) a in
    let q = split_after (ends_cr (nat_eq c cr) a) b in
    elim (Bool-cases (after && nat_eq c lf)) [
      | inl skipped ↦ rw skipped rest
      | inr new ↦ elim (Bool-cases (nat_eq c cr || nat_eq c lf)) [
        | inl ends ↦ rw new (rw ends (ap (λ p. ([] ∷ p.0, p.1)) rest ∙ sym (glue-ended p q)))
        | inr within ↦ rw new (rw within (ap (on_first c) rest ∙ sym (glue-on_first c p q)))
      ]
    ]

-- A piece that is put before.
pub glue-glue :
    (p last : Text) (q : Pieces) → glue ([], p) (glue ([], last) q) ≡ glue ([], p ++ last) q
glue-glue p last ([], last') = ap (λ l. ([], l)) (sym (append_assoc p last last'))
glue-glue p last (first ∷ pieces, last') =
    ap (λ l. (l ∷ pieces, last')) (sym (append_assoc p last first))

pub glue-cons :
    (p first last : Text) (pieces : List Text) (q : Pieces)
    → (glue ([], p) (glue (first ∷ pieces, last) q)).0
      ≡ ((p ++ first) ∷ pieces) ++ (glue ([], last) q).0
glue-cons p first last pieces ([], last') = sym (append-nil ((p ++ first) ∷ pieces))
glue-cons p first last pieces (first' ∷ pieces', last') = refl
