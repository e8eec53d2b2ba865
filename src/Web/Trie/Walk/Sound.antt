-- ===== src/Web/Trie/Walk/Sound.antt =====
-- A walk answers with a leaf that the trie holds at a path which the target matches.
use without.Prelude.{
  ℕ, String, Option, none, some, ◌≡◌, ◌≢◌, refl, sym, ap, subst, ◌∙◌, ◌⊎◌, inl, inr, List, [], ◌∷◌,
  ◌++◌, append_assoc, append-nil, Option-cases, ok, err,
}
use without.Prelude.Eq.{string_key}
use without.Web.Converters.{Converter}
use without.Web.Trie.Nodes.{
  Bound, Node, node, Literals, Params, no_params, param_to, CatchAll, no_catch_all, catch_all_to,
  leaf_of, get_literal,
}
use without.Web.Trie.Paths.{Key, text, value, rest, matches, InParams, Has}
use without.Web.Trie.Walk.{
  Walked, or_else, found, walk_params, walk_catch_all, walk_literal, walk_from, join,
}

module _ {L V : Type 0} where
  pub or_else-cases :
      (a k : Walked L V) → ((a ≡ ok none) × (or_else a k ≡ k)) ⊎ ((a ≢ ok none) × (or_else a k ≡ a))
  or_else-cases (ok none) k = inl (refl, refl)
  or_else-cases (ok (some f)) k = inr (λ e. cc, refl)
  or_else-cases (err e) k = inr (λ e. cc, refl)

module _ {L V : Type 0} (call : ℕ → String → Option V) where
  -- The answer `r` is that of a leaf which the trie holds, at a path which the target matches.
  pub record Hit (n : Node L) (target : List String) (values : List V) (r : Walked L V)
      : Type 0 where
    pub path : List Key
    pub bound : Bound L
    pub bindings : List V
    pub held : Has path n bound
    pub matched : matches call path target ≡ some bindings
    pub answered : r ≡ found bound (values ++ bindings)

  abbrev pub Outcome : Node L → List String → List V → Walked L V → Type 0
  Outcome n target values r = (r ≡ ok none) ⊎ Hit n target values r

  Outcome-or_else :
      (n : Node L) (target : List String) (values : List V) (a k : Walked L V)
      → Outcome n target values a
      → Outcome n target values k
      → Outcome n target values (or_else a k)
  Outcome-or_else n target values a k ha hk = elim (or_else-cases a k) [
    | inl (missed, same) ↦ subst (Outcome n target values) (sym same) hk
    | inr (hit, same) ↦ subst (Outcome n target values) (sym same) ha
  ]

  module _ (ls : Literals L) (ps : Params L) (ca : CatchAll L) (lf : Option (Bound L))
      (head : String) (tail : List String) (values : List V) where
    literal_Outcome :
        (go : Node L → Walked L V)
        → ((child : Node L) → Outcome child tail values (go child))
        → Outcome
            (node ls ps ca lf)
            (head ∷ tail)
            values
            (walk_literal call go (get_literal head ls))
    literal_Outcome go ih = elim (Option-cases (get_literal head ls)) [
      | inl missing ↦ inl (rw missing)
      | inr (child, there) ↦ rw there (elim (ih child) [
        | inl missed ↦ inl missed
        | inr hit ↦ inr (record {
          path = text head ∷ hit.path;
          bound = hit.bound;
          bindings = hit.bindings;
          held = (child, there, hit.held);
          matched = rw ((string_key.beq_iff head head).1 refl) hit.matched;
          answered = hit.answered;
        })
      ])
    ]

    param_Hit :
        (c : Converter) (v : V) (child : Node L) (r : Walked L V)
        → InParams c child ps
        → call c.parse head ≡ some v
        → Hit child tail (values ++ v ∷ []) r
        → Hit (node ls ps ca lf) (head ∷ tail) values r
    param_Hit c v child r there parsed hit = record {
      path = value c ∷ hit.path;
      bound = hit.bound;
      bindings = v ∷ hit.bindings;
      held = (child, there, hit.held);
      matched = rw (parsed, matches) (rw (hit.matched, matches));
      answered = hit.answered ∙ ap (found hit.bound) (append_assoc values (v ∷ []) hit.bindings);
    }

    params_Outcome :
        (go : Node L → List V → Walked L V)
        → ((child : Node L) (vs : List V) → Outcome child tail vs (go child vs))
        → (qs : Params L) → ((c : Converter) (m : Node L) → InParams c m qs → InParams c m ps)
        → Outcome (node ls ps ca lf) (head ∷ tail) values (walk_params call go head values qs)
    unfolding walk_params
    params_Outcome go ih no_params into = inl refl
    params_Outcome go ih (param_to c child more) into =
        let later = params_Outcome go ih more (λ d m h. into d m (inr h)) in
        elim (Option-cases (call c.parse head)) [
          | inl rejected ↦ rw (rejected, walk_params) later
          | inr (v, parsed) ↦
              rw (parsed, walk_params)
                (Outcome-or_else _ _ values (go child (values ++ v ∷ [])) _
                  (elim (ih child (values ++ v ∷ [])) [
                    | inl missed ↦ inl missed
                    | inr hit ↦
                        inr (param_Hit c v child _ (into c child (inl (refl, refl))) parsed hit)
                  ])
                  later)
        ]

  catch_all_Outcome_of :
      (ls : Literals L) (ps : Params L) (c : Converter) (child : Node L) (lf : Option (Bound L))
      (head : String) (tail : List String) (values : List V)
      → Outcome
          (node ls ps (catch_all_to c child) lf)
          (head ∷ tail)
          values
          (walk_catch_all call (head ∷ tail) values (catch_all_to c child))
  unfolding walk_catch_all
  catch_all_Outcome_of ls ps c child lf head tail values = elim (Option-cases (leaf_of child)) [
    | inl bare ↦ inl (rw (bare, walk_catch_all))
    | inr (b, ends) ↦
        rw (ends, walk_catch_all)
          (elim (Option-cases (call c.parse (join (head ∷ tail)))) [
            | inl rejected ↦ inl (rw (rejected, walk_catch_all))
            | inr (v, parsed) ↦ inr (record {
              path = rest c ∷ [];
              bound = b;
              bindings = v ∷ [];
              held = (child, refl, ends);
              matched = rw (parsed, matches);
              answered = rw (parsed, walk_catch_all);
            })
          ])
  ]

  -- Whatever is not a miss is the answer of a leaf that the trie holds at a path of the target.
  pub walk_from-Outcome :
      (target : List String) (n : Node L) (values : List V)
      → Outcome n target values (walk_from call target n values)
  unfolding walk_from walk_catch_all
  walk_from-Outcome [] (node ls ps ca none) values = inl refl
  walk_from-Outcome [] (node ls ps ca (some b)) values = inr (record {
    path = [];
    bound = b;
    bindings = [];
    held = refl;
    matched = refl;
    answered = ap (found b) (sym (append-nil values));
  })
  walk_from-Outcome (head ∷ tail) (node ls ps no_catch_all lf) values =
      Outcome-or_else _ _ values _ _
        (literal_Outcome ls ps no_catch_all lf head tail values _
          (λ m. walk_from-Outcome tail m values))
        (Outcome-or_else _ _ values _ _
          (params_Outcome ls ps no_catch_all lf head tail values _ (walk_from-Outcome tail) ps
            (λ c m h. h))
          (inl refl))
  walk_from-Outcome (head ∷ tail) (node ls ps (catch_all_to c child) lf) values =
      Outcome-or_else _ _ values _ _
        (literal_Outcome ls ps (catch_all_to c child) lf head tail values _
          (λ m. walk_from-Outcome tail m values))
        (Outcome-or_else _ _ values _ _
          (params_Outcome ls ps (catch_all_to c child) lf head tail values _
            (walk_from-Outcome tail) ps (λ d m h. h))
          (catch_all_Outcome_of ls ps c child lf head tail values))
