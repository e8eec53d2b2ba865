-- ===== src/Web/Trie/Build/Grows.antt =====
-- What the trie holds after `_insert`: the leaf that was inserted, all that it held, nothing else.
use without.Prelude.{
  String, Option, ap₂, some-cancel, ◌≡◌, refl, sym, ap, subst, ◌∙◌, ◌⊎◌, inl, inr, none, some, List,
  [], ◌∷◌, ◌++◌, append_assoc, append-nil, Bool-cases, ok, >>=-eq-ok, ok-injective,
}
use without.Prelude.Eq.{◌==◌, string_key}
use without.Web.Converters.{Converter}
use without.Web.Patterns.{Segment, literal, param, catch_all}
use without.Web.Trie.Nodes.{
  Literals, Params, CatchAll, Bound, Node, node, leaf_of, get_literal, catch_all_to,
}
use without.Web.Trie.Paths.{Key, text, value, rest, keys, names_of, InParams, Has, not-Has-empty}
use without.Web.Trie.Build.{insert, insert_leaf, alter_literal, alter_param, alter_catch_all}
use without.Web.Trie.Build.Insert.{
  LiteralAltered, ParamAltered, CatchAllAltered, alter_literal_lem, alter_param_lem,
  alter_catch_all_lem,
}

pub catch_all_to-child :
    {L : Type 0} {c d : Converter} {m n : Node L} → catch_all_to c m ≡ catch_all_to d n → m ≡ n
catch_all_to-child h = cc

pub catch_all_to-converter :
    {L : Type 0} {c d : Converter} {m n : Node L} → catch_all_to c m ≡ catch_all_to d n → c ≡ d
catch_all_to-converter h = cc

abbrev pub bound_of : {L : Type 0} → List String → List Segment → L → Bound L
bound_of names segments leaf = record { names = names ++ names_of segments; leaf = leaf }

pub bound_of-snoc :
    {L : Type 0} (names : List String) (name : String) (more : List String) (leaf : L)
    → ◌≡◌ {A = Bound L}
        (record { names = (names ++ name ∷ []) ++ more; leaf = leaf })
        (record { names = names ++ (name ∷ more); leaf = leaf })
bound_of-snoc names name more leaf = simp append_assoc

-- What `n'` holds, `n` held, or it is the new leaf.
abbrev pub OldOrNew :
    {L : Type 0} → List Segment → List String → L → List Key → Node L → Bound L → Type 0
OldOrNew segments names leaf ks n b =
    Has ks n b ⊎ ((ks ≡ keys segments) × (b ≡ bound_of names segments leaf))

module _ {L : Type 0} (leaf : L) where
  insert_leaf-back :
      (names : List String) (n : Node L) {n' : Node L} (ks : List Key) (b : Bound L)
      → insert_leaf (record { names = names; leaf = leaf }) n ≡ ok n'
      → Has ks n' b
      → OldOrNew [] names leaf ks n b
  unfolding insert_leaf
  insert_leaf-back names (node ls ps ca (some old)) ks b made h = absurd (cc)
  insert_leaf-back names (node ls ps ca none) [] b made h =
      let here : some (record { names = names; leaf = leaf }) ≡ some b =
        subst (λ m. leaf_of m ≡ some b) (sym (ok-injective made)) h in
      inr (
        refl,
        sym (some-cancel here)
            ∙ ap (λ xs. record { names = xs; leaf = leaf }) (sym (append-nil names)),
      )
  insert_leaf-back names (node ls ps ca none) (text t ∷ ks) b made h =
      inl (subst (λ m. Has (text t ∷ ks) m b) (sym (ok-injective made)) h)
  insert_leaf-back names (node ls ps ca none) (value c ∷ ks) b made h =
      inl (subst (λ m. Has (value c ∷ ks) m b) (sym (ok-injective made)) h)
  insert_leaf-back names (node ls ps ca none) (rest c ∷ ks) b made h =
      inl (subst (λ m. Has (rest c ∷ ks) m b) (sym (ok-injective made)) h)

  module _ (names : List String) (more : List Segment) (ls ls' : Literals L) (ps ps' : Params L)
      (ca ca' : CatchAll L) (lf : Option (Bound L)) where
    literal-back :
        (t : String) (a : LiteralAltered (insert more leaf names) t ls ls')
        → ((ks : List Key) (b : Bound L)
            → Has ks a.after b
            → OldOrNew more names leaf ks a.before b)
        → (ks : List Key) (b : Bound L) → Has ks (node ls' ps ca lf) b
        → OldOrNew (literal t ∷ more) names leaf ks (node ls ps ca lf) b
    literal-back t a ih [] b h = inl h
    literal-back t a ih (value c ∷ ks) b h = inl h
    literal-back t a ih (rest c ∷ ks) b h = inl h
    literal-back t a ih (text u ∷ ks) b (child, found, h) = elim (Bool-cases (t == u)) [
      | inr other ↦ inl (child, sym (rw other at (a.lookup u)) ∙ found, h)
      | inl same ↦
          let e = (string_key.beq_iff t u).0 same in
          let child_after = some-cancel (sym (rw same at (a.lookup u)) ∙ found) in
          elim (ih ks b (subst (λ m. Has ks m b) (sym child_after) h)) [
            | inr new ↦ inr (ap₂ ◌∷◌ (ap text (sym e)) new.0, new.1)
            | inl old ↦ elim a.origin [
              | inl there ↦
                  inl (a.before, subst (λ v. get_literal v ls ≡ some a.before) e there, old)
              | inr fresh ↦ absurd (not-Has-empty ks b (subst (λ m. Has ks m b) fresh.1 old))
            ]
          ]
    ]

    param-back :
        (name : String) (c : Converter)
        (a : ParamAltered (insert more leaf (names ++ name ∷ [])) c ps ps')
        → ((ks : List Key) (b : Bound L)
            → Has ks a.after b
            → OldOrNew more (names ++ name ∷ []) leaf ks a.before b)
        → (ks : List Key) (b : Bound L) → Has ks (node ls ps' ca lf) b
        → OldOrNew (param name c ∷ more) names leaf ks (node ls ps ca lf) b
    param-back name c a ih [] b h = inl h
    param-back name c a ih (text t ∷ ks) b h = inl h
    param-back name c a ih (rest d ∷ ks) b h = inl h
    param-back name c a ih (value d ∷ ks) b (child, found, h) = elim (a.back d child found) [
      | inl kept ↦ inl (child, kept, h)
      | inr changed ↦ elim (ih ks b (subst (λ m. Has ks m b) changed.1 h)) [
        | inr new ↦ inr (
          ap₂ ◌∷◌ (ap value changed.0) new.0,
          new.1 ∙ bound_of-snoc names name (names_of more) leaf,
        )
        | inl old ↦ elim a.origin [
          | inl there ↦
              inl (a.before, subst (λ e. InParams e a.before ps) (sym changed.0) there, old)
          | inr fresh ↦ absurd (not-Has-empty ks b (subst (λ m. Has ks m b) fresh old))
        ]
      ]
    ]

    catch_all-back :
        (name : String) (c : Converter)
        (a : CatchAllAltered (insert [] leaf (names ++ name ∷ [])) c ca ca')
        → ((ks : List Key) (b : Bound L)
            → Has ks a.after b
            → OldOrNew [] (names ++ name ∷ []) leaf ks a.before b)
        → (ks : List Key) (b : Bound L) → Has ks (node ls ps ca' lf) b
        → OldOrNew (catch_all name c ∷ []) names leaf ks (node ls ps ca lf) b
    catch_all-back name c a ih [] b h = inl h
    catch_all-back name c a ih (text t ∷ ks) b h = inl h
    catch_all-back name c a ih (value d ∷ ks) b h = inl h
    catch_all-back name c a ih (rest d ∷ ks) b (child, found, h) =
        let same = sym a.present ∙ found in
        elim (ih ks b (subst (λ m. Has ks m b) (sym (catch_all_to-child same)) h)) [
          | inr new ↦ inr (
            ap₂ ◌∷◌ (ap rest (sym (catch_all_to-converter same))) new.0,
            new.1 ∙ bound_of-snoc names name [] leaf,
          )
          | inl old ↦ elim a.origin [
            | inl there ↦ inl (
              a.before,
              there ∙ ap (λ e. catch_all_to e a.before) (catch_all_to-converter same),
              old,
            )
            | inr fresh ↦ absurd (not-Has-empty ks b (subst (λ m. Has ks m b) fresh.1 old))
          ]
        ]

  -- What the trie holds afterwards, it held, or it is the new leaf.
  pub insert-back :
      (segments : List Segment) (names : List String) (n : Node L) {n' : Node L} (ks : List Key)
      (b : Bound L)
      → insert segments leaf names n ≡ ok n'
      → Has ks n' b
      → OldOrNew segments names leaf ks n b
  unfolding insert
  insert-back [] names n ks b made h = insert_leaf-back names n ks b made h
  insert-back (literal t ∷ more) names (node ls ps ca lf) ks b made h =
      let (ls', altered, same) = >>=-eq-ok (alter_literal (insert more leaf names) t ls) _ made in
      let a = alter_literal_lem (insert more leaf names) t ls altered in
      literal-back names more ls ls' ps ps ca ca lf t a
        (λ js c. insert-back more names a.before js c a.changed) ks b
        (subst (λ m. Has ks m b) (sym (ok-injective same)) h)
  insert-back (param name c ∷ more) names (node ls ps ca lf) ks b made h =
      let go = insert more leaf (names ++ name ∷ []) in
      let (ps', altered, same) = >>=-eq-ok (alter_param go c ps) _ made in
      let a = alter_param_lem go c ps altered in
      param-back names more ls ls ps ps' ca ca lf name c a
        (λ js d. insert-back more (names ++ name ∷ []) a.before js d a.changed) ks b
        (subst (λ m. Has ks m b) (sym (ok-injective same)) h)
  insert-back (catch_all name c ∷ []) names (node ls ps ca lf) ks b made h =
      let go = insert [] leaf (names ++ name ∷ []) in
      let (ca', altered, same) = >>=-eq-ok (alter_catch_all go c ca) _ made in
      let a = alter_catch_all_lem go c ca altered in
      catch_all-back names [] ls ls ps ps ca ca' lf name c a
        (λ js d. insert_leaf-back (names ++ name ∷ []) a.before js d a.changed) ks b
        (subst (λ m. Has ks m b) (sym (ok-injective same)) h)
  insert-back (catch_all name c ∷ _ ∷ _) names n ks b made h = absurd (cc)
