-- ===== src/Web/Trie/Build/Insert.antt =====
-- What `_insert` does to the children of one node.
use without.Prelude.{
  String, ◌≡◌, refl, ◌⊎◌, inl, inr, none, some, if◌then◌else◌, Bool-cases, Result, ok, >>=-eq-ok,
  ok-injective, arith, sym, subst, ap, ◌∙◌,
}
use without.Prelude.Eq.{◌==◌, string_key}
use without.Web.Converters.{Converter, converter_key, converter_eq_iff}
use without.Web.Trie.Nodes.{
  Fault, Node, Literals, no_literals, literal_to, Params, no_params, param_to, CatchAll,
  no_catch_all, catch_all_to, get_literal, empty,
}
use without.Web.Trie.Build.{alter_literal, alter_param, alter_catch_all}
use without.Web.Trie.Paths.{InParams}

module _ {L : Type 0} (f : Node L → Result Fault (Node L)) where
  pub record LiteralAltered (t : String) (ls ls' : Literals L) : Type 0 where
    pub before : Node L
    pub after : Node L
    pub changed : f before ≡ ok after
    pub origin : (get_literal t ls ≡ some before) ⊎ ((get_literal t ls ≡ none) × (before ≡ empty))
    pub lookup :
        (u : String) → get_literal u ls' ≡ (if t == u then some after else get_literal u ls)

  pub alter_literal_lem :
      (t : String) (ls : Literals L) {ls' : Literals L}
      → alter_literal f t ls ≡ ok ls'
      → LiteralAltered t ls ls'
  unfolding alter_literal get_literal
  alter_literal_lem t no_literals h =
      let (child, made, same) = >>=-eq-ok (f empty) _ h in
      record {
        before = empty;
        after = child;
        changed = made;
        origin = inr (refl, refl);
        lookup = λ u. ground arith;
      }
  alter_literal_lem t (literal_to s child more) h = elim (Bool-cases (s == t)) [
    | inl here ↦
        let (child', made, same) = >>=-eq-ok (f child) _ (rw here at h) in
        record {
          before = child;
          after = child';
          changed = made;
          origin = inl (ground arith);
          lookup = λ u. ground (arith, string_key.beq_iff s t);
        }
    | inr later ↦
        let (more', altered, same) = >>=-eq-ok (alter_literal f t more) _ (rw later at h) in
        let a = alter_literal_lem t more altered in
        record {
          before = a.before;
          after = a.after;
          changed = a.changed;
          origin = ground (arith, a.origin);
          lookup = λ u. ground (
            arith,
            a.lookup u,
            string_key.beq_iff s t,
            string_key.beq_iff s u,
            string_key.beq_iff t u,
          );
        }
  ]

  pub record ParamAltered (c : Converter) (ps ps' : Params L) : Type 0 where
    pub before : Node L
    pub after : Node L
    pub changed : f before ≡ ok after
    pub origin : InParams c before ps ⊎ (before ≡ empty)
    pub present : InParams c after ps'
    pub back :
        (d : Converter) (m : Node L) → InParams d m ps' → InParams d m ps ⊎ ((d ≡ c) × (m ≡ after))
    pub forth :
        (d : Converter) (m : Node L) → InParams d m ps → InParams d m ps' ⊎ ((d ≡ c) × (m ≡ before))

  param_added :
      (c : Converter) (child : Node L)
      → f empty ≡ ok child
      → ParamAltered c no_params (param_to c child no_params)
  param_added c child made = record {
    before = empty;
    after = child;
    changed = made;
    origin = inr refl;
    present = inl (refl, refl);
    back = λ d m h. elim h [ inl e ↦ inr e | inr none_there ↦ absurd none_there ];
    forth = λ d m h. absurd h;
  }

  param_replaced :
      (c d : Converter) (child child' : Node L) (more : Params L)
      → d ≡ c
      → f child ≡ ok child'
      → ParamAltered c (param_to d child more) (param_to d child' more)
  param_replaced c d child child' more same made = record {
    before = child;
    after = child';
    changed = made;
    origin = inl (inl (sym same, refl));
    present = inl (sym same, refl);
    back = λ e m h. elim h [ inl p ↦ inr (p.0 ∙ same, p.1) | inr later ↦ inl (inr later) ];
    forth = λ e m h. elim h [ inl p ↦ inr (p.0 ∙ same, p.1) | inr later ↦ inl (inr later) ];
  }

  param_kept :
      (c d : Converter) (child : Node L) (more more' : Params L)
      → ParamAltered c more more'
      → ParamAltered c (param_to d child more) (param_to d child more')
  param_kept c d child more more' a = record {
    before = a.before;
    after = a.after;
    changed = a.changed;
    origin = elim a.origin [ inl h ↦ inl (inr h) | inr e ↦ inr e ];
    present = inr a.present;
    back = λ e m h. elim h [
      | inl p ↦ inl (inl p)
      | inr later ↦ elim (a.back e m later) [ inl old ↦ inl (inr old) | inr p ↦ inr p ]
    ];
    forth = λ e m h. elim h [
      | inl p ↦ inl (inl p)
      | inr later ↦ elim (a.forth e m later) [ inl new ↦ inl (inr new) | inr p ↦ inr p ]
    ];
  }

  pub alter_param_lem :
      (c : Converter) (ps : Params L) {ps' : Params L}
      → alter_param f c ps ≡ ok ps'
      → ParamAltered c ps ps'
  unfolding alter_param
  alter_param_lem c no_params h =
      let (child, made, same) = >>=-eq-ok (f empty) _ h in
      subst (ParamAltered c no_params) (ok-injective same) (param_added c child made)
  alter_param_lem c (param_to d child more) h = elim (Bool-cases (d == c)) [
    | inl here ↦
        let (child', made, same) = >>=-eq-ok (f child) _ (rw here at h) in
        subst (ParamAltered c (param_to d child more)) (ok-injective same)
          (param_replaced c d child child' more ((converter_eq_iff d c).0 here) made)
    | inr later ↦
        let (more', altered, same) = >>=-eq-ok (alter_param f c more) _ (rw later at h) in
        subst (ParamAltered c (param_to d child more)) (ok-injective same)
          (param_kept c d child more more' (alter_param_lem c more altered))
  ]

  pub record CatchAllAltered (c : Converter) (ca ca' : CatchAll L) : Type 0 where
    pub before : Node L
    pub after : Node L
    pub changed : f before ≡ ok after
    pub origin : (ca ≡ catch_all_to c before) ⊎ ((ca ≡ no_catch_all) × (before ≡ empty))
    pub present : ca' ≡ catch_all_to c after

  pub alter_catch_all_lem :
      (c : Converter) (ca : CatchAll L) {ca' : CatchAll L}
      → alter_catch_all f c ca ≡ ok ca'
      → CatchAllAltered c ca ca'
  unfolding alter_catch_all
  alter_catch_all_lem c no_catch_all h =
      let (child, made, same) = >>=-eq-ok (f empty) _ h in
      record {
        before = empty;
        after = child;
        changed = made;
        origin = inr (refl, refl);
        present = sym (ok-injective same);
      }
  alter_catch_all_lem c (catch_all_to d child) h = elim (Bool-cases (d == c)) [
    | inl here ↦
        let e = (converter_eq_iff d c).0 here in
        let (child', made, same) = >>=-eq-ok (f child) _ (rw here at h) in
        record {
          before = child;
          after = child';
          changed = made;
          origin = inl (rw e);
          present = sym (ok-injective same) ∙ ap (λ k. catch_all_to k child') e;
        }
    | inr other ↦ absurd (cc (rw other at h))
  ]
