-- ===== src/Web/Trie/Build/Freeze.antt =====
-- `_freeze` keeps what the trie holds, and puts the parameters in the order of `_precedence`.
use without.Prelude.{
  String, ◌≤◌, none, some, ◌≡◌, refl, sym, ap, subst, ◌↔◌, inl, inr, List, [], ◌∷◌, leb, Bool-cases,
  Option-cases, some-cancel, arith,
}
use without.Prelude.Eq.{string_key}
use without.Web.Converters.{Converter}
use without.Web.Trie.Nodes.{
  Bound, Node, node, Literals, no_literals, literal_to, Params, no_params, param_to, no_catch_all,
  catch_all_to, get_literal,
}
use without.Web.Trie.Paths.{Key, text, value, rest, InParams, Has}
use without.Web.Trie.Build.{
  freeze, freeze_literals, freeze_params, freeze_catch_all, sort_in, precedence,
}
use without.Web.Trie.Build.Grows.{catch_all_to-child, catch_all_to-converter}

module _ {L : Type 0} where
  get_literal-freeze :
      (t : String) (ls : Literals L)
      → get_literal t (freeze_literals ls)
        ≡ elim (get_literal t ls) [ none ↦ none | some n ↦ some (freeze n) ]
  unfolding get_literal freeze
  get_literal-freeze t no_literals = refl
  get_literal-freeze t (literal_to s child more) = ground (arith, get_literal-freeze t more)

  InParams-sort_in :
      (c d : Converter) (n m : Node L) (ps : Params L)
      → InParams d m (sort_in c n ps) ↔ InParams d m (param_to c n ps)
  unfolding sort_in
  InParams-sort_in c d n m no_params = (λ h. h, λ h. h)
  InParams-sort_in c d n m (param_to e k more) =
      elim (Bool-cases (leb (precedence c) (precedence e))) [
        | inl before ↦ rw before (λ h. h, λ h. h)
        | inr after ↦
            let ih = InParams-sort_in c d n m more in
            rw after (
              λ h. elim h [
                | inl here ↦ inr (inl here)
                | inr later ↦ elim (ih.0 later) [ inl it ↦ inl it | inr old ↦ inr (inr old) ]
              ],
              λ h. elim h [
                | inl it ↦ inr (ih.1 (inl it))
                | inr old ↦ elim old [ inl here ↦ inl here | inr later ↦ inr (ih.1 (inr later)) ]
              ],
            )
      ]

  InParams-freeze :
      (d : Converter) (m : Node L) (ps : Params L)
      → InParams d m ps
      → InParams d (freeze m) (freeze_params ps)
  unfolding freeze
  InParams-freeze d m no_params h = h
  InParams-freeze d m (param_to c n more) h =
      (InParams-sort_in c d (freeze n) (freeze m) (freeze_params more)).1 (elim h [
        | inl here ↦ inl (here.0, ap freeze here.1)
        | inr later ↦ inr (InParams-freeze d m more later)
      ])

  InParams-unfreeze :
      (d : Converter) (m : Node L) (ps : Params L)
      → InParams d m (freeze_params ps)
      → (k : Node L) × InParams d k ps × (m ≡ freeze k)
  unfolding freeze
  InParams-unfreeze d m no_params h = absurd h
  InParams-unfreeze d m (param_to c n more) h =
      elim ((InParams-sort_in c d (freeze n) m (freeze_params more)).0 h) [
        | inl here ↦ (n, inl (here.0, refl), here.1)
        | inr later ↦ let (k, held, same) = InParams-unfreeze d m more later in (k, inr held, same)
      ]

  pub Has-freeze : (ks : List Key) (n : Node L) (b : Bound L) → Has ks n b → Has ks (freeze n) b
  unfolding freeze
  Has-freeze [] (node ls ps ca lf) b h = h
  Has-freeze (text t ∷ ks) (node ls ps ca lf) b (child, found, h) =
      (freeze child, rw (get_literal-freeze t ls) (rw found), Has-freeze ks child b h)
  Has-freeze (value c ∷ ks) (node ls ps ca lf) b (child, found, h) =
      (freeze child, InParams-freeze c child ps found, Has-freeze ks child b h)
  Has-freeze (rest c ∷ ks) (node ls ps no_catch_all lf) b (child, found, h) = absurd (cc)
  Has-freeze (rest c ∷ ks) (node ls ps (catch_all_to d m) lf) b (child, found, h) =
      (freeze child, ap (λ x. freeze_catch_all x) found, Has-freeze ks child b h)

  pub Has-unfreeze : (ks : List Key) (n : Node L) (b : Bound L) → Has ks (freeze n) b → Has ks n b
  unfolding freeze
  Has-unfreeze [] (node ls ps ca lf) b h = h
  Has-unfreeze (text t ∷ ks) (node ls ps ca lf) b (child, found, h) =
      elim (Option-cases (get_literal t ls)) [
        | inl missing ↦ absurd (cc (rw (get_literal-freeze t ls, missing) at found))
        | inr (m, there) ↦
            let same : freeze m ≡ child =
              some-cancel (rw (get_literal-freeze t ls, there) at found) in
            (m, there, Has-unfreeze ks m b (subst (λ x. Has ks x b) (sym same) h))
      ]
  Has-unfreeze (value c ∷ ks) (node ls ps ca lf) b (child, found, h) =
      let (m, there, same) = InParams-unfreeze c child ps found in
      (m, there, Has-unfreeze ks m b (subst (λ x. Has ks x b) same h))
  Has-unfreeze (rest c ∷ ks) (node ls ps no_catch_all lf) b (child, found, h) = absurd (cc)
  Has-unfreeze (rest c ∷ ks) (node ls ps (catch_all_to d m) lf) b (child, found, h) = (
    m,
    ap (λ e. catch_all_to e m) (catch_all_to-converter found),
    Has-unfreeze ks m b (subst (λ x. Has ks x b) (sym (catch_all_to-child found)) h),
  )

  -- Every branch is tried before the branches of a higher precedence number.
  abbrev pub IsSorted : Params L → Type 0
  IsSorted no_params = Unit
  IsSorted (param_to c n more) =
      ((d : Converter) (m : Node L) → InParams d m more → precedence c ≤ precedence d)
      × IsSorted more

  sort_in-IsSorted :
      (c : Converter) (n : Node L) (ps : Params L) → IsSorted ps → IsSorted (sort_in c n ps)
  unfolding sort_in
  sort_in-IsSorted c n no_params h = (λ d m there. absurd there, tt)
  sort_in-IsSorted c n (param_to e k more) (first, h) =
      elim (Bool-cases (leb (precedence c) (precedence e))) [
        | inl before ↦ rw before (
          (λ d m there. elim there [
            | inl it ↦ subst (λ x. precedence c ≤ precedence x) (sym it.0) (ground arith)
            | inr later ↦ ground (arith, first d m later)
          ]),
          (first, h),
        )
        | inr after ↦ rw after (
          (λ d m there. elim ((InParams-sort_in c d n m more).0 there) [
            | inl it ↦ subst (λ x. precedence e ≤ precedence x) (sym it.0) (ground arith)
            | inr later ↦ first d m later
          ]),
          sort_in-IsSorted c n more h,
        )
      ]

  pub freeze_params-IsSorted : (ps : Params L) → IsSorted (freeze_params ps)
  unfolding freeze
  freeze_params-IsSorted no_params = tt
  freeze_params-IsSorted (param_to c n more) =
      sort_in-IsSorted c (freeze n) (freeze_params more) (freeze_params-IsSorted more)
