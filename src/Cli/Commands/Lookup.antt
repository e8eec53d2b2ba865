-- ===== src/Cli/Commands/Lookup.antt =====
-- The lookups of a tree of declared arms, on the levels that a command line is bound to.
use without.Prelude.{
  false, ◌≡◌, ◌≢◌, refl, sym, ap, subst, ◌∙◌, inl, inr, Option, Option-cases, none, some, List, [],
  ◌∷◌, map, Memᴰ, mem-cases, Result-cases, ok, ok-injective, arith,
}
use without.Prelude.Eq.{◌==◌}
use without.Prelude.Dict
use without.Prelude.Dict.{Dict}
use without.Asgi.Bytes.{bytes_key}
use without.Cli.{Word}
use without.Cli.Tokens.{Parameter, node, no_nodes, name_of, options_of, positionals_of, Level, Arm}
use without.Cli.Extractors.{Extractor}
use without.Cli.Declarations.{
  DeclarationError, among, repeated, group_refused, command_refused, no_positionals,
  option_spellings, child_names,
}
use without.Cli.Declarations.Spellings.{repeated-cons}
use without.Cli.Binding.{bound, parse_argv}
use without.Cli.Commands.{
  Resolved, action_of, lookup_error, extract_all, parameters_of, nodes_of, by_name_into,
  resolve_below, resolve_command, command, entered, resolve_group, state_refused, group,
}
use without.Cli.Commands.Found.{
  Fits, FitsChild, Fits-head, Fits-child, BindsWay, parse_level-BindsWay,
}

-- The arms that `command` and `group` return, given such arms.
pub data IsDeclared (V Action : Type 0) : Arm (Resolved Action) → Type 0 where
  a_command :
      (name : Word) (extractors : List (Extractor V)) (fn : List V → Action)
      {arm : Arm (Resolved Action)}
      → command name extractors fn ≡ ok arm
      → IsDeclared V Action arm
  a_group :
      (name : Word) (extractors : List (Extractor V)) (state : Option (List V → Action → Action))
      (commands : List (Arm (Resolved Action))) {arm : Arm (Resolved Action)}
      → ((child : Arm (Resolved Action)) → Memᴰ child commands → IsDeclared V Action child)
      → group name extractors state commands ≡ ok arm
      → IsDeclared V Action arm

module _ {Action : Type 0} where
  -- An arm resolves, on any way down its tree, without a lookup that fails.
  abbrev Finds : Arm (Resolved Action) → Type 0
  Finds arm =
      (levels : List Level) → Fits arm.description levels → arm.resolve levels ≢ ok lookup_error

  by_name_into-other :
      (key : Word) (arms : List (Arm (Resolved Action))) (d : Dict Word (Arm (Resolved Action)))
      → among key (map (λ arm. name_of arm.description) arms) ≡ false
      → Dict.get key (by_name_into arms d) ≡ Dict.get key d
  unfolding by_name_into
  by_name_into-other key [] d h = refl
  by_name_into-other key (arm ∷ arms) d h =
      let apart : (name_of arm.description == key) ≡ false = ground (arith, h) in
      by_name_into-other key arms (Dict.put (name_of arm.description) arm d) (ground (arith, h))
      ∙ Dict.get-put (name_of arm.description) key arm d
      ∙ rw apart refl

  by_name_into-mem :
      (a : Arm (Resolved Action)) (arms : List (Arm (Resolved Action)))
      (d : Dict Word (Arm (Resolved Action)))
      → repeated (map (λ arm. name_of arm.description) arms) ≡ none
      → Memᴰ a arms
      → Dict.get (name_of a.description) (by_name_into arms d) ≡ some a
  unfolding by_name_into
  by_name_into-mem a [] d h m = elim m [ ]
  by_name_into-mem a (arm ∷ arms) d h m =
      let (once, rest) =
        repeated-cons (name_of arm.description) (map (λ x. name_of x.description) arms) h in
      elim (mem-cases m) [
        | inr n ↦ by_name_into-mem a arms (Dict.put (name_of arm.description) arm d) rest n
        | inl e ↦
            subst (λ x. Dict.get (name_of x.description) (by_name_into (arm ∷ arms) d) ≡ some x)
              (sym e)
              (by_name_into-other (name_of arm.description) arms
                  (Dict.put (name_of arm.description) arm d) once
                ∙ Dict.get-put (name_of arm.description) (name_of arm.description) arm d
                ∙ rw
                    ((bytes_key.beq_iff (name_of arm.description) (name_of arm.description)).1 refl)
                    refl)
      ]

  -- The way below a group goes on at one of its arms.
  child_arm :
      (arms : List (Arm (Resolved Action))) (below : List Level)
      → FitsChild (nodes_of arms) below
      → (a : Arm (Resolved Action)) × Memᴰ a arms × Fits a.description below
  unfolding nodes_of
  child_arm [] below f = elim f [ ]
  child_arm (arm ∷ arms) below (FitsChild.here fits) = (arm, Memᴰ.head refl, fits)
  child_arm (arm ∷ arms) below (FitsChild.there f) =
      let (a, m, fits) = child_arm arms below f in (a, Memᴰ.tail m, fits)

  resolve_below-Finds :
      (arms : List (Arm (Resolved Action))) (below : List Level)
      → repeated (map (λ arm. name_of arm.description) arms) ≡ none
      → ((a : Arm (Resolved Action)) → Memᴰ a arms → Finds a)
      → FitsChild (nodes_of arms) below
      → resolve_below (by_name_into arms []) below ≢ ok lookup_error
  unfolding resolve_below
  resolve_below-Finds arms below apart each f h =
      let (a, m, fits) = child_arm arms below f in
      let (next, more, split, named) = Fits-head a.description below fits in
      let there : Dict.get next.name (by_name_into arms []) ≡ some a =
        ap (λ k. Dict.get k (by_name_into arms [])) named ∙ by_name_into-mem a arms [] apart m in
      each a m (next ∷ more) (subst (Fits a.description) split fits)
        (rw (there, resolve_below) at (rw split at h))

child_names-none :
    (names : List Word) → child_names names ≡ none → (repeated names ≡ none) × (names ≢ [])
unfolding child_names
child_names-none [] h = absurd (cc h)
child_names-none (name ∷ more) h = elim (Option-cases (repeated (name ∷ more))) [
  | inl apart ↦ (apart, λ e. cc e)
  | inr (again, twice) ↦ absurd (cc (rw (twice, child_names) at h))
]

group_refused-none :
    (parameters : List Parameter) (names : List Word)
    → group_refused parameters names ≡ none
    → child_names names ≡ none
unfolding group_refused
group_refused-none parameters names h =
    elim (Option-cases (no_positionals (positionals_of parameters))) [
      | inr (e, bad) ↦ absurd (cc (rw (bad, group_refused) at h))
      | inl fine ↦ elim (Option-cases (option_spellings (options_of parameters))) [
        | inr (e, bad) ↦ absurd (cc (rw bad at (rw (fine, group_refused) at h)))
        | inl spelled ↦ rw spelled at (rw (fine, group_refused) at h)
      ]
    ]

module _ {V Action : Type 0} where
  command-Finds :
      (name : Word) (extractors : List (Extractor V)) (fn : List V → Action)
      (arm : Arm (Resolved Action))
      → command name extractors fn ≡ ok arm
      → Finds arm
  unfolding command resolve_command
  command-Finds name extractors fn arm h =
      elim (Option-cases (command_refused (parameters_of extractors))) [
        | inr (e, bad) ↦ absurd (cc (rw (bad, command) at h))
        | inl fine ↦
            subst Finds (ok-injective {X = DeclarationError} (rw (fine, command) at h))
              (λ levels fits r.
                let (level, below, split, named) =
                  Fits-head (node name (parameters_of extractors) no_nodes) levels fits in
                elim (Result-cases (extract_all extractors level.args)) [
                  | inr (parameter, bad) ↦ cc (rw (bad, resolve_command) at (rw split at r))
                  | inl (values, read) ↦ cc (rw (read, resolve_command) at (rw split at r))
                ])
      ]

  entered-found :
      (state : Option (List V → Action → Action)) (own : List V) (inner : Resolved Action)
      → entered state own inner ≡ lookup_error
      → inner ≡ lookup_error
  entered-found state own lookup_error h = refl
  entered-found none own (action_of a) h = h
  entered-found (some f) own (action_of a) h = absurd (cc h)

  resolve_group-Finds :
      (name : Word) (extractors : List (Extractor V)) (state : Option (List V → Action → Action))
      (arms : List (Arm (Resolved Action)))
      → child_names (map (λ arm. name_of arm.description) arms) ≡ none
      → ((a : Arm (Resolved Action)) → Memᴰ a arms → Finds a)
      → (levels : List Level) → Fits (node name (parameters_of extractors) (nodes_of arms)) levels
      → resolve_group extractors state (by_name_into arms []) levels ≢ ok lookup_error
  unfolding resolve_group nodes_of
  resolve_group-Finds name extractors state [] named each levels fits h =
      (child_names-none [] named).1 refl
  resolve_group-Finds name extractors state (first ∷ arms) named each levels fits h =
      let (apart, some_name) =
        child_names-none (map (λ arm. name_of arm.description) (first ∷ arms)) named in
      let ps = parameters_of extractors in
      let (level, below, split, same) =
        Fits-head (node name ps (nodes_of (first ∷ arms))) levels fits in
      let f =
        Fits-child name ps first.description (nodes_of arms) level below
          (subst (Fits (node name ps (nodes_of (first ∷ arms)))) split fits) in
      elim (Result-cases (extract_all extractors level.args)) [
        | inr (parameter, bad) ↦ cc (rw (bad, resolve_group) at (rw split at h))
        | inl (own, read) ↦
            elim (Result-cases (resolve_below (by_name_into (first ∷ arms) []) below)) [
              | inr (parameter, bad) ↦ cc (rw bad at (rw (read, resolve_group) at (rw split at h)))
              | inl (inner, found) ↦
                  let lost = entered-found state own inner (
                    ok-injective {X = Word}
                      (rw found at (rw (read, resolve_group) at (rw split at h)))) in
                  resolve_below-Finds (first ∷ arms) below apart each f (found ∙ ap ok lost)
            ]
      ]

  group-Finds :
      (name : Word) (extractors : List (Extractor V)) (state : Option (List V → Action → Action))
      (arms : List (Arm (Resolved Action))) (arm : Arm (Resolved Action))
      → ((a : Arm (Resolved Action)) → Memᴰ a arms → Finds a)
      → group name extractors state arms ≡ ok arm
      → Finds arm
  unfolding group
  group-Finds name extractors state arms arm each h =
      let ps = parameters_of extractors in
      let names = map (λ arm. name_of arm.description) arms in
      elim (Option-cases (group_refused ps names)) [
        | inr (e, bad) ↦ absurd (cc (rw (bad, group) at h))
        | inl fine ↦ elim (Option-cases (state_refused state extractors)) [
          | inr (e, bad) ↦ absurd (cc (rw bad at (rw (fine, group) at h)))
          | inl stated ↦
              subst Finds
                (ok-injective {X = DeclarationError} (rw stated at (rw (fine, group) at h)))
                (resolve_group-Finds name extractors state arms (group_refused-none ps names fine)
                  each)
        ]
      ]

  IsDeclared-Finds : (arm : Arm (Resolved Action)) → IsDeclared V Action arm → Finds arm
  IsDeclared-Finds arm (IsDeclared.a_command name extractors fn h) =
      command-Finds name extractors fn arm h
  IsDeclared-Finds arm (IsDeclared.a_group name extractors state arms each h) =
      group-Finds name extractors state arms arm (λ a m. IsDeclared-Finds a (each a m)) h

  -- Whatever the command line, the binding of an arm that is declared raises no lookup error: the
  -- levels that it binds are found in the tree, each by its name, down to a command.
  pub parse_argv-finds :
      (arm : Arm (Resolved Action)) (argv : List Word) (env files : Dict Word Word)
      (answers : List Word)
      → IsDeclared V Action arm
      → parse_argv arm argv env files answers ≢ bound lookup_error
  unfolding parse_argv
  parse_argv-finds arm argv env files answers declared h =
      let (levels, fits, resolves) =
        subst (BindsWay arm.resolve env files answers (Fits arm.description) []) h
          (parse_level-BindsWay arm.resolve env files answers arm.description argv [] []) in
      IsDeclared-Finds arm declared levels fits resolves
