-- ===== src/Cli/Commands/Found.antt =====
-- The levels that a command line is bound to, and the arms that they are resolved by.
use without.Prelude.{
  Bool-cases, true, false, ◌≡◌, refl, sym, ap, ◌∙◌, inl, inr, List, [], ◌∷◌, ◌++◌, append_assoc,
  Result, Result-cases, ok,
}
use without.Prelude.Eq.{◌==◌}
use without.Prelude.Dict.{Dict}
use without.Asgi.Bytes.{bytes_key}
use without.Cli.{Word}
use without.Cli.Tokens.{
  Parameter, Node, node, Nodes, no_nodes, node_of, name_of, options_of, positionals_of, Level,
}
use without.Cli.Scan.{scanned, scan}
use without.Cli.Binding.{
  Outcome, bound, stopped, rejected, merged, assigned, bind_last, parse_level, parse_child,
}
use without.Cli.Binding.Outcomes.{Scanned-cases, bare-cases}

mutual
  -- The levels are those of a way down a tree, from its top to a command.
  pub data Fits : Node → List Level → Type 0 where
    leaf :
        {name : Word} {ps : List Parameter} {level : Level}
        → level.name ≡ name
        → Fits (node name ps no_nodes) (level ∷ [])
    inner :
        {name : Word} {ps : List Parameter} {children : Nodes} {level : Level} {below : List Level}
        → level.name ≡ name
        → FitsChild children below
        → Fits (node name ps children) (level ∷ below)

  pub data FitsChild : Nodes → List Level → Type 0 where
    here :
        {child : Node} {children : Nodes} {below : List Level}
        → Fits child below
        → FitsChild (node_of child children) below
    there :
        {child : Node} {children : Nodes} {below : List Level}
        → FitsChild children below
        → FitsChild (node_of child children) below

module _ {Action : Type 0} (resolve : List Level → Result Word Action) (env files : Dict Word Word)
    (answers : List Word) where
  -- What is bound is what the levels of such a way resolve to, below those above.
  abbrev pub BindsWay : (List Level → Type 0) → List Level → Outcome Action → Type 0
  BindsWay way above (bound action) =
      (below : List Level) × way below × (resolve (above ++ below) ≡ ok action)
  BindsWay way above (stopped spelling path) = Unit
  BindsWay way above (rejected message path) = Unit

  BindsWay-deeper :
      (way deeper : List Level → Type 0) (above : List Level) (level : Level)
      (outcome : Outcome Action)
      → ((below : List Level) → deeper below → way (level ∷ below))
      → BindsWay deeper (above ++ level ∷ []) outcome
      → BindsWay way above outcome
  BindsWay-deeper way deeper above level (bound action) up (below, fits, resolves) = (
    level ∷ below,
    up below fits,
    ap resolve (sym (append_assoc above (level ∷ []) below)) ∙ resolves,
  )
  BindsWay-deeper way deeper above level (stopped spelling path) up h = tt
  BindsWay-deeper way deeper above level (rejected message path) up h = tt

  BindsWay-map :
      (way other : List Level → Type 0) (above : List Level) (outcome : Outcome Action)
      → ((below : List Level) → way below → other below)
      → BindsWay way above outcome
      → BindsWay other above outcome
  BindsWay-map way other above (bound action) turn (below, fits, resolves) =
      (below, turn below fits, resolves)
  BindsWay-map way other above (stopped spelling path) turn h = tt
  BindsWay-map way other above (rejected message path) turn h = tt

  bind_last-BindsWay :
      (name : Word) (ps : List Parameter) (options : Dict Word (List Word)) (bare : List Word)
      (path : List Node) (above : List Level)
      → BindsWay
          (Fits (node name ps no_nodes))
          above
          (bind_last resolve env files answers name options (positionals_of ps) bare path above)
  unfolding bind_last
  bind_last-BindsWay name ps options bare path above =
      elim (Result-cases (assigned (positionals_of ps) bare)) [
        | inr (message, bad) ↦ rw (bad, bind_last, BindsWay) tt
        | inl (arguments, good) ↦
            let level : Level = record {
              name = name;
              args = record { options = options; arguments = arguments };
            } in
            elim (Result-cases (resolve (above ++ level ∷ []))) [
              | inr (parameter, refuses) ↦
                  rw (good, bind_last, BindsWay) (rw (refuses, bind_last, BindsWay) tt)
              | inl (found, resolves) ↦
                  rw (good, bind_last, BindsWay)
                    (rw (resolves, bind_last, BindsWay) (level ∷ [], Fits.leaf refl, resolves))
            ]
      ]

  mutual
    unfolding parse_level

    pub parse_level-BindsWay :
        (tree : Node) (argv : List Word) (path : List Node) (above : List Level)
        → BindsWay (Fits tree) above (parse_level resolve env files answers tree argv path above)
    parse_level-BindsWay (node name ps no_nodes) argv path above =
        elim (Scanned-cases (scan (options_of ps) false answers argv)) [
          | inl (options, bare, s) ↦
              rw (s, parse_level, BindsWay) (bind_last-BindsWay name ps _ bare _ above)
          | inr (inl (message, s)) ↦ rw (s, parse_level, BindsWay) tt
          | inr (inr (spelling, s)) ↦ rw (s, parse_level, BindsWay) tt
        ]
    parse_level-BindsWay (node name ps (node_of first more)) argv path above =
        elim (Scanned-cases (scan (options_of ps) true answers argv)) [
          | inr (inl (message, s)) ↦ rw (s, parse_level, BindsWay) tt
          | inr (inr (spelling, s)) ↦ rw (s, parse_level, BindsWay) tt
          | inl (options, bare, s) ↦ elim (bare-cases bare) [
            | inl nothing ↦ rw (s ∙ ap (scanned options) nothing, parse_level, BindsWay) tt
            | inr (word, words, some_bare) ↦
                let level : Level = record {
                  name = name;
                  args = record {
                    options = merged (options_of ps) options env files;
                    arguments = [];
                  };
                } in
                rw (s ∙ ap (scanned options) some_bare, parse_level, BindsWay)
                  (BindsWay-deeper (Fits (node name ps (node_of first more)))
                    (FitsChild (node_of first more)) above level _
                    (λ below fits. Fits.inner refl fits)
                    (parse_child-BindsWay (node_of first more) word words _ (above ++ level ∷ [])))
          ]
        ]

    parse_child-BindsWay :
        (children : Nodes) (word : Word) (argv : List Word) (path : List Node) (above : List Level)
        → BindsWay
            (FitsChild children)
            above
            (parse_child resolve env files answers children word argv path above)
    parse_child-BindsWay no_nodes word argv path above = tt
    parse_child-BindsWay (node_of child children) word argv path above =
        elim (Bool-cases (name_of child == word)) [
          | inl named ↦
              rw (named, parse_child, BindsWay)
                (BindsWay-map (Fits child) (FitsChild (node_of child children)) above _
                  (λ below fits. FitsChild.here fits) (parse_level-BindsWay child argv path above))
          | inr other ↦
              rw (other, parse_child, BindsWay)
                (BindsWay-map (FitsChild children) (FitsChild (node_of child children)) above _
                  (λ below fits. FitsChild.there fits)
                  (parse_child-BindsWay children word argv path above))
        ]

-- A way is not empty, and its first level has the name of the tree's top.
pub Fits-head :
    (tree : Node) (levels : List Level)
    → Fits tree levels
    → (level : Level) × (below : List Level) × (levels ≡ level ∷ below)
      × (level.name ≡ name_of tree)
Fits-head (node name ps children) [] f = elim f [ ]
Fits-head (node name ps children) (level ∷ below) (Fits.leaf e) = (level, [], refl, e)
Fits-head (node name ps children) (level ∷ below) (Fits.inner e child) = (level, below, refl, e)

pub Fits-child :
    (name : Word) (ps : List Parameter) (first : Node) (more : Nodes) (level : Level)
    (below : List Level)
    → Fits (node name ps (node_of first more)) (level ∷ below)
    → FitsChild (node_of first more) below
Fits-child name ps first more level below (Fits.inner e child) = child
