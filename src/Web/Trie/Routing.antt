-- ===== src/Web/Trie/Routing.antt =====
-- What a router built from a route table answers, by the table alone.
use without.Prelude.{
  ℕ, String, Option, none, some, ◌≡◌, refl, sym, ap, subst, ◌∙◌, ◌⊎◌, ◌↔◌, inl, inr, List, [], ◌∷◌,
  Memᴰ, Option-cases, Bool-cases, ok, >>=-eq-ok, ok-injective, arith,
}
use without.Prelude.Eq.{◌==◌, string_key}
use without.Web.Patterns.{Segment, literal, param, catch_all}
use without.Web.Trie.Nodes.{Bound, Node, empty}
use without.Web.Trie.Paths.{Key, keys, names_of, matches, Has, not-Has-empty}
use without.Web.Trie.Build.{insert, insert_all, build}
use without.Web.Trie.Build.Grows.{bound_of, insert-back}
use without.Web.Trie.Build.Keeps.{insert-keeps, insert-adds}
use without.Web.Trie.Build.Freeze.{Has-freeze, Has-unfreeze}
use without.Web.Trie.Walk.{Walked, Found, found, walk, zip_strict_of, dict_of}
use without.Web.Trie.Walk.Sound.{Hit, walk_from-Outcome}
use without.Web.Trie.Walk.Complete.{walk_from-miss}

module _ {L : Type 0} where
  -- The route of the table that put the leaf `b` at the path `ks`.
  pub record FromRoute (routes : List (List Segment × L)) (ks : List Key) (b : Bound L)
      : Type 0 where
    pub segments : List Segment
    pub leaf : L
    pub listed : Memᴰ (segments, leaf) routes
    pub path_eq : ks ≡ keys segments
    pub bound_eq : b ≡ bound_of [] segments leaf

  insert_all-back :
      (routes : List (List Segment × L)) (n : Node L) {n' : Node L} (ks : List Key) (b : Bound L)
      → insert_all routes n ≡ ok n'
      → Has ks n' b
      → Has ks n b ⊎ FromRoute routes ks b
  unfolding insert_all
  insert_all-back [] n ks b made h = inl (subst (λ m. Has ks m b) (sym (ok-injective made)) h)
  insert_all-back ((segments, leaf) ∷ routes) n ks b made h =
      let (m, first, others) = >>=-eq-ok (insert segments leaf [] n) (insert_all routes) made in
      elim (insert_all-back routes m ks b others h) [
        | inr r ↦ inr (record {
          segments = r.segments;
          leaf = r.leaf;
          listed = Memᴰ.tail r.listed;
          path_eq = r.path_eq;
          bound_eq = r.bound_eq;
        })
        | inl held ↦ elim (insert-back leaf segments [] n ks b first held) [
          | inl old ↦ inl old
          | inr new ↦ inr (record {
            segments = segments;
            leaf = leaf;
            listed = Memᴰ.head refl;
            path_eq = new.0;
            bound_eq = new.1;
          })
        ]
      ]

  insert_all-keeps :
      (routes : List (List Segment × L)) (n : Node L) {n' : Node L} (ks : List Key) (b : Bound L)
      → insert_all routes n ≡ ok n'
      → Has ks n b
      → Has ks n' b
  unfolding insert_all
  insert_all-keeps [] n ks b made h = subst (λ m. Has ks m b) (ok-injective made) h
  insert_all-keeps ((segments, leaf) ∷ routes) n ks b made h =
      let (m, first, others) = >>=-eq-ok (insert segments leaf [] n) (insert_all routes) made in
      insert_all-keeps routes m ks b others (insert-keeps leaf segments [] n ks b first h)

  insert_all-adds :
      (routes : List (List Segment × L)) (n : Node L) {n' : Node L} (segments : List Segment)
      (leaf : L)
      → insert_all routes n ≡ ok n'
      → Memᴰ (segments, leaf) routes
      → Has (keys segments) n' (bound_of [] segments leaf)
  unfolding insert_all
  insert_all-adds [] n segments leaf made m = elim m [ ]
  insert_all-adds ((s, l) ∷ routes) n {n'} segments leaf made (Memᴰ.head e) =
      let (m, first, others) = >>=-eq-ok (insert s l [] n) (insert_all routes) made in
      subst (λ r. Has (keys r.0) n' (bound_of [] r.0 r.1)) (sym e)
        (insert_all-keeps routes m (keys s) (bound_of [] s l) others (insert-adds l s [] n first))
  insert_all-adds ((s, l) ∷ routes) n segments leaf made (Memᴰ.tail later) =
      let (m, first, others) = >>=-eq-ok (insert s l [] n) (insert_all routes) made in
      insert_all-adds routes m segments leaf others later

  -- A built trie holds exactly the routes of its table, each under its own names.
  pub build-holds :
      (routes : List (List Segment × L)) {root : Node L} (ks : List Key) (b : Bound L)
      → build routes ≡ ok root
      → Has ks root b ↔ FromRoute routes ks b
  unfolding build
  build-holds routes {root} ks b made =
      let (n, inserted, frozen) = >>=-eq-ok (insert_all routes empty) _ made in
      (
        λ h.
            elim (insert_all-back routes empty ks b inserted
              (Has-unfreeze ks n b (subst (λ m. Has ks m b) (sym (ok-injective frozen)) h))) [
                | inl old ↦ absurd (not-Has-empty ks b old)
                | inr r ↦ r
              ],
        λ r.
            subst (λ m. Has ks m b) (ok-injective frozen)
              (Has-freeze ks n b (
                subst (λ x. Has x n b) (sym r.path_eq)
                  (subst (Has (keys r.segments) n) (sym r.bound_eq)
                    (insert_all-adds routes empty r.segments r.leaf inserted r.listed)))),
      )

module _ {V : Type 0} (call : ℕ → String → Option V) where
  -- A match binds as many values as the route has names.
  matches-zip :
      (segments : List Segment) (target : List String) (vs : List V)
      → matches call (keys segments) target ≡ some vs
      → (pairs : List (String × V)) × (zip_strict_of (names_of segments) vs ≡ some pairs)
  unfolding zip_strict_of
  matches-zip [] [] [] m = ([], refl)
  matches-zip [] [] (v ∷ vs) m = absurd (cc)
  matches-zip [] (_ ∷ _) vs m = absurd (cc)
  matches-zip (literal t ∷ more) [] vs m = absurd (cc)
  matches-zip (literal t ∷ more) (s ∷ target) vs m = elim (Bool-cases (t == s)) [
    | inl same ↦ matches-zip more target vs (rw (same, matches) at m)
    | inr other ↦ absurd (cc (rw (other, matches) at m))
  ]
  matches-zip (param name c ∷ more) [] vs m = absurd (cc)
  matches-zip (param name c ∷ more) (s ∷ target) [] m = absurd (ground (arith))
  matches-zip (param name c ∷ more) (s ∷ target) (v ∷ vs) m =
      let (pairs, zipped) = matches-zip more target vs (ground arith) in
      ((name, v) ∷ pairs, rw zipped)
  matches-zip (catch_all name c ∷ []) [] vs m = absurd (cc)
  matches-zip (catch_all name c ∷ []) (s ∷ target) [] m = absurd (ground arith)
  matches-zip (catch_all name c ∷ []) (s ∷ target) (v ∷ []) m = ((name, v) ∷ [], refl)
  matches-zip (catch_all name c ∷ []) (s ∷ target) (v ∷ _ ∷ _) m = absurd (ground arith)
  matches-zip (catch_all name c ∷ literal _ ∷ _) target vs m = absurd (cc)
  matches-zip (catch_all name c ∷ param _ _ ∷ _) target vs m = absurd (cc)
  matches-zip (catch_all name c ∷ catch_all _ _ ∷ _) target vs m = absurd (cc)

module _ {L V : Type 0} (call : ℕ → String → Option V) where
  -- The answer of a route of the table, with the values that its own segments bind.
  pub record Answers (routes : List (List Segment × L)) (target : List String) (f : Found L V)
      : Type 0 where
    pub segments : List Segment
    pub values : List V
    pub pairs : List (String × V)
    pub listed : Memᴰ (segments, f.leaf) routes
    pub matched : matches call (keys segments) target ≡ some values
    pub zipped : zip_strict_of (names_of segments) values ≡ some pairs
    pub params_eq : f.params ≡ dict_of pairs []

  found_of_zip :
      (names : List String) (leaf : L) (vs : List V) (pairs : List (String × V))
      → zip_strict_of names vs ≡ some pairs
      → found (record { names = names; leaf = leaf }) vs
        ≡ ok (some (record { leaf = leaf; params = dict_of pairs [] }))
  unfolding found
  found_of_zip names leaf vs pairs zipped = rw (zipped, found)

  module _ (routes : List (List Segment × L)) {root : Node L} (made : build routes ≡ ok root)
      (target : List String) where
    Hit-Answers :
        (r : Walked L V)
        → Hit call root target [] r
        → (f : Found L V) × (r ≡ ok (some f)) × Answers routes target f
    Hit-Answers r hit =
        let route = (build-holds routes hit.path hit.bound made).0 hit.held in
        let matched =
          subst (λ ks. matches call ks target ≡ some hit.bindings) route.path_eq hit.matched in
        let (pairs, zipped) = matches-zip call route.segments target hit.bindings matched in
        let answer : Found L V = record { leaf = route.leaf; params = dict_of pairs [] } in
        (
          answer,
          hit.answered
              ∙ ap (λ b. found b hit.bindings) route.bound_eq
              ∙ found_of_zip (names_of route.segments) route.leaf hit.bindings pairs zipped,
          record {
            segments = route.segments;
            values = hit.bindings;
            pairs = pairs;
            listed = route.listed;
            matched = matched;
            zipped = zipped;
            params_eq = refl;
          },
        )

    -- The walk of a built trie never raises: it misses, or it answers with the leaf of a route of
    -- the table that matches the target, and with the values that this route's names are bound to.
    pub walk-build :
        (walk call root target ≡ ok none)
        ⊎ ((f : Found L V) × (walk call root target ≡ ok (some f)) × Answers routes target f)
    unfolding walk
    walk-build = elim (walk_from-Outcome call target root []) [
      | inl missed ↦ inl missed
      | inr hit ↦ inr (Hit-Answers (walk call root target) hit)
    ]

    no_route_of_miss :
        walk call root target ≡ ok none
        → (segments : List Segment) (leaf : L) → Memᴰ (segments, leaf) routes
        → matches call (keys segments) target ≡ none
    unfolding walk
    no_route_of_miss missed segments leaf listed =
        elim (Option-cases (matches call (keys segments) target)) [
          | inl mismatch ↦ mismatch
          | inr (vs, matched) ↦ absurd (
              walk_from-miss call target root [] (keys segments) (bound_of [] segments leaf) vs
                missed
                ((build-holds routes (keys segments) (bound_of [] segments leaf) made).1 (record {
                  segments = segments;
                  leaf = leaf;
                  listed = listed;
                  path_eq = refl;
                  bound_eq = refl;
                }))
                matched)
        ]

    -- The walk of a built trie misses exactly when no route of the table matches the target.
    pub walk-build-eq-miss_iff : (walk call root target ≡ ok none) ↔ (
        (segments : List Segment) (leaf : L)
        → Memᴰ (segments, leaf) routes
        → matches call (keys segments) target ≡ none)
    walk-build-eq-miss_iff = (
      no_route_of_miss,
      λ none_matches. elim walk-build [
        | inl missed ↦ missed
        | inr (f, answered, a) ↦ absurd (cc (none_matches a.segments f.leaf a.listed, a.matched))
      ],
    )
