-- ===== src/Web/Trie/Build/Keeps.antt =====
-- `_insert` loses nothing that the trie held, and adds the leaf at the route's path.
use without.Prelude.{
  String, Option, none, some, ◌≡◌, refl, sym, ap, subst, ◌∙◌, inl, inr, List, [], ◌∷◌, ◌++◌,
  append-nil, Bool-cases, ok, >>=-eq-ok, ok-injective, some-cancel,
}
use without.Prelude.Eq.{◌==◌, string_key}
use without.Web.Converters.{Converter}
use without.Web.Patterns.{Segment, literal, param, catch_all}
use without.Web.Trie.Nodes.{
  Bound, Node, node, Literals, Params, CatchAll, leaf_of, get_literal, catch_all_to,
}
use without.Web.Trie.Paths.{Key, text, value, rest, keys, names_of, InParams, Has}
use without.Web.Trie.Build.{insert, insert_leaf, alter_literal, alter_param, alter_catch_all}
use without.Web.Trie.Build.Insert.{
  LiteralAltered, ParamAltered, CatchAllAltered, alter_literal_lem, alter_param_lem,
  alter_catch_all_lem,
}
use without.Web.Trie.Build.Grows.{
  bound_of, bound_of-snoc, catch_all_to-child, catch_all_to-converter,
}

module _ {L : Type 0} (leaf : L) where
  insert_leaf-keeps :
      (names : List String) (n : Node L) {n' : Node L} (ks : List Key) (b : Bound L)
      → insert_leaf (record { names = names; leaf = leaf }) n ≡ ok n'
      → Has ks n b
      → Has ks n' b
  unfolding insert_leaf
  insert_leaf-keeps names (node ls ps ca (some old)) ks b made h = absurd (cc)
  insert_leaf-keeps names (node ls ps ca none) [] b made h = absurd (cc)
  insert_leaf-keeps names (node ls ps ca none) (text t ∷ ks) b made h =
      subst (λ m. Has (text t ∷ ks) m b) (ok-injective made) h
  insert_leaf-keeps names (node ls ps ca none) (value c ∷ ks) b made h =
      subst (λ m. Has (value c ∷ ks) m b) (ok-injective made) h
  insert_leaf-keeps names (node ls ps ca none) (rest c ∷ ks) b made h =
      subst (λ m. Has (rest c ∷ ks) m b) (ok-injective made) h

  module _ (names : List String) (more : List Segment) (ls ls' : Literals L) (ps ps' : Params L)
      (ca ca' : CatchAll L) (lf : Option (Bound L)) where
    literal-keeps :
        (t : String) (a : LiteralAltered (insert more leaf names) t ls ls')
        → ((ks : List Key) (b : Bound L) → Has ks a.before b → Has ks a.after b)
        → (ks : List Key) (b : Bound L) → Has ks (node ls ps ca lf) b
        → Has ks (node ls' ps ca lf) b
    literal-keeps t a ih [] b h = h
    literal-keeps t a ih (value c ∷ ks) b h = h
    literal-keeps t a ih (rest c ∷ ks) b h = h
    literal-keeps t a ih (text u ∷ ks) b (child, found, h) = elim (Bool-cases (t == u)) [
      | inr other ↦ (child, (rw other at (a.lookup u)) ∙ found, h)
      | inl same ↦
          let e = (string_key.beq_iff t u).0 same in
          elim a.origin [
            | inl there ↦
                let was =
                  some-cancel
                    (sym (subst (λ v. get_literal v ls ≡ some a.before) e there) ∙ found) in
                (a.after, rw same at (a.lookup u), ih ks b (subst (λ m. Has ks m b) (sym was) h))
            | inr fresh ↦ absurd (cc (subst (λ v. get_literal v ls ≡ none) e fresh.0, found))
          ]
    ]

    param-keeps :
        (name : String) (c : Converter)
        (a : ParamAltered (insert more leaf (names ++ name ∷ [])) c ps ps')
        → ((ks : List Key) (b : Bound L) → Has ks a.before b → Has ks a.after b)
        → (ks : List Key) (b : Bound L) → Has ks (node ls ps ca lf) b
        → Has ks (node ls ps' ca lf) b
    param-keeps name c a ih [] b h = h
    param-keeps name c a ih (text t ∷ ks) b h = h
    param-keeps name c a ih (rest d ∷ ks) b h = h
    param-keeps name c a ih (value d ∷ ks) b (child, found, h) = elim (a.forth d child found) [
      | inl kept ↦ (child, kept, h)
      | inr changed ↦ (
        a.after,
        subst (λ e. InParams e a.after ps') (sym changed.0) a.present,
        ih ks b (subst (λ m. Has ks m b) changed.1 h),
      )
    ]

    catch_all-keeps :
        (name : String) (c : Converter)
        (a : CatchAllAltered (insert [] leaf (names ++ name ∷ [])) c ca ca')
        → ((ks : List Key) (b : Bound L) → Has ks a.before b → Has ks a.after b)
        → (ks : List Key) (b : Bound L) → Has ks (node ls ps ca lf) b
        → Has ks (node ls ps ca' lf) b
    catch_all-keeps name c a ih [] b h = h
    catch_all-keeps name c a ih (text t ∷ ks) b h = h
    catch_all-keeps name c a ih (value d ∷ ks) b h = h
    catch_all-keeps name c a ih (rest d ∷ ks) b (child, found, h) = elim a.origin [
      | inl there ↦
          let same = sym there ∙ found in
          (
            a.after,
            a.present ∙ ap (λ e. catch_all_to e a.after) (catch_all_to-converter same),
            ih ks b (subst (λ m. Has ks m b) (sym (catch_all_to-child same)) h),
          )
      | inr fresh ↦ absurd (cc (fresh.0, found))
    ]

  -- What the trie held it holds afterwards.
  pub insert-keeps :
      (segments : List Segment) (names : List String) (n : Node L) {n' : Node L} (ks : List Key)
      (b : Bound L)
      → insert segments leaf names n ≡ ok n'
      → Has ks n b
      → Has ks n' b
  unfolding insert
  insert-keeps [] names n ks b made h = insert_leaf-keeps names n ks b made h
  insert-keeps (literal t ∷ more) names (node ls ps ca lf) ks b made h =
      let (ls', altered, same) = >>=-eq-ok (alter_literal (insert more leaf names) t ls) _ made in
      let a = alter_literal_lem (insert more leaf names) t ls altered in
      subst (λ m. Has ks m b) (ok-injective same)
        (literal-keeps names more ls ls' ps ps ca ca lf t a
          (λ js c. insert-keeps more names a.before js c a.changed) ks b h)
  insert-keeps (param name c ∷ more) names (node ls ps ca lf) ks b made h =
      let go = insert more leaf (names ++ name ∷ []) in
      let (ps', altered, same) = >>=-eq-ok (alter_param go c ps) _ made in
      let a = alter_param_lem go c ps altered in
      subst (λ m. Has ks m b) (ok-injective same)
        (param-keeps names more ls ls ps ps' ca ca lf name c a
          (λ js d. insert-keeps more (names ++ name ∷ []) a.before js d a.changed) ks b h)
  insert-keeps (catch_all name c ∷ []) names (node ls ps ca lf) ks b made h =
      let go = insert [] leaf (names ++ name ∷ []) in
      let (ca', altered, same) = >>=-eq-ok (alter_catch_all go c ca) _ made in
      let a = alter_catch_all_lem go c ca altered in
      subst (λ m. Has ks m b) (ok-injective same)
        (catch_all-keeps names [] ls ls ps ps ca ca' lf name c a
          (λ js d. insert_leaf-keeps (names ++ name ∷ []) a.before js d a.changed) ks b h)
  insert-keeps (catch_all name c ∷ _ ∷ _) names n ks b made h = absurd (cc)

  insert_leaf-adds :
      (names : List String) (n : Node L) {n' : Node L}
      → insert_leaf (record { names = names; leaf = leaf }) n ≡ ok n'
      → Has [] n' (bound_of names [] leaf)
  unfolding insert_leaf
  insert_leaf-adds names (node ls ps ca (some old)) made = absurd (cc)
  insert_leaf-adds names (node ls ps ca none) made =
      subst (λ m. leaf_of m ≡ some (bound_of names [] leaf)) (ok-injective made)
        (ap (λ xs. some (record { names = xs; leaf = leaf })) (sym (append-nil names)))

  -- Afterwards the trie holds the leaf at the path of the route, with the route's own names.
  pub insert-adds :
      (segments : List Segment) (names : List String) (n : Node L) {n' : Node L}
      → insert segments leaf names n ≡ ok n'
      → Has (keys segments) n' (bound_of names segments leaf)
  unfolding insert
  insert-adds [] names n made = insert_leaf-adds names n made
  insert-adds (literal t ∷ more) names (node ls ps ca lf) made =
      let (ls', altered, same) = >>=-eq-ok (alter_literal (insert more leaf names) t ls) _ made in
      let a = alter_literal_lem (insert more leaf names) t ls altered in
      subst (λ m. Has (text t ∷ keys more) m (bound_of names more leaf)) (ok-injective same)
        (
          a.after,
          rw ((string_key.beq_iff t t).1 refl) at (a.lookup t),
          insert-adds more names a.before a.changed,
        )
  insert-adds (param name c ∷ more) names (node ls ps ca lf) made =
      let go = insert more leaf (names ++ name ∷ []) in
      let (ps', altered, same) = >>=-eq-ok (alter_param go c ps) _ made in
      let a = alter_param_lem go c ps altered in
      subst (λ m. Has (value c ∷ keys more) m (bound_of names (param name c ∷ more) leaf))
        (ok-injective same)
        (
          a.after,
          a.present,
          subst (Has (keys more) a.after) (bound_of-snoc names name (names_of more) leaf)
              (insert-adds more (names ++ name ∷ []) a.before a.changed),
        )
  insert-adds (catch_all name c ∷ []) names (node ls ps ca lf) made =
      let go = insert [] leaf (names ++ name ∷ []) in
      let (ca', altered, same) = >>=-eq-ok (alter_catch_all go c ca) _ made in
      let a = alter_catch_all_lem go c ca altered in
      subst (λ m. Has (rest c ∷ []) m (bound_of names (catch_all name c ∷ []) leaf))
        (ok-injective same)
        (
          a.after,
          a.present,
          subst (Has [] a.after) (bound_of-snoc names name [] leaf)
              (insert_leaf-adds (names ++ name ∷ []) a.before a.changed),
        )
  insert-adds (catch_all name c ∷ _ ∷ _) names n made = absurd (cc)
