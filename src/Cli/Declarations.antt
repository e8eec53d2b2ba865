-- ===== src/Cli/Declarations.antt =====
-- The checks of a declared level: `_positional_layout`, `_option_spellings`, `_child_names` and
-- `_no_positionals` of packages/without_cli/src/without_cli/commands.py
pub mod Spellings
pub mod Accepted
use without.Prelude.{
  ℕ, suc, ◌+◌, ◌-◌, Bool, true, false, not, ◌||◌, ◌&&◌, Option, none, some, List, [], ◌∷◌, ◌++◌,
  map, length, ltb, nat_eq, if◌then◌else◌,
}
use without.Prelude.Eq.{◌==◌}
use without.Asgi.Bytes.{bytes_key}
use without.Cli.{Word}
use without.Cli.Tokens.{CliOption, names, Positional, Parameter, options_of, positionals_of}

-- The messages of a `DeclarationError`.
pub data DeclarationError : Type 0 where
  many_arguments many_not_last required_after_optional no_commands positionals_and_commands
        no_state :
      DeclarationError
  same_positional same_option same_command : Word → DeclarationError

abbrev pub among : Word → List Word → Bool
among word [] = false
among word (w ∷ words) = (w == word) || among word words

-- `_repeated`
unfoldable pub repeated : List Word → Option Word
repeated [] = none
repeated (word ∷ words) = let rest = repeated words in if among word words then some word else rest

-- `len(variadic)`
unfoldable pub variadic_count : List Positional → ℕ
variadic_count [] = 0
variadic_count (p ∷ ps) = let rest = variadic_count ps in if p.variadic then suc rest else rest

-- `variadic[0]`
unfoldable pub first_variadic : List Positional → Option ℕ
first_variadic [] = none
first_variadic (p ∷ ps) =
    let rest = first_variadic ps in
    if p.variadic then some 0 else (elim rest [ none ↦ none | some index ↦ some (suc index) ])

-- Whether a required positional stands after an optional one, or after those before, one of which was.
unfoldable pub required_after : (optional : Bool) → List Positional → Bool
required_after optional [] = false
required_after optional (p ∷ ps) =
    (optional && p.required) || required_after (optional || not p.required) ps

-- `_positional_layout`
unfoldable pub positional_layout : List Positional → Option DeclarationError
positional_layout ps =
    if ltb 1 (variadic_count ps)
    then some many_arguments
    else (if (elim (first_variadic ps) [
      | none ↦ false
      | some index ↦ not (nat_eq index (length ps - 1))
    ])
        then some many_not_last
        else (if required_after false ps
            then some required_after_optional
            else (elim (repeated (map (λ p. p.name) ps)) [
              | none ↦ none
              | some name ↦ some (same_positional name)
            ])))

unfoldable pub spellings : List CliOption → List Word
spellings [] = []
spellings (o ∷ os) = names o ++ spellings os

-- `_option_spellings`
unfoldable pub option_spellings : List CliOption → Option DeclarationError
option_spellings os = elim (repeated (spellings os)) [
  | none ↦ none
  | some name ↦ some (same_option name)
]

-- `_child_names`
unfoldable pub child_names : List Word → Option DeclarationError
child_names [] = some no_commands
child_names (name ∷ more) = elim (repeated (name ∷ more)) [
  | none ↦ none
  | some name ↦ some (same_command name)
]

-- `_no_positionals`
unfoldable pub no_positionals : List Positional → Option DeclarationError
no_positionals [] = none
no_positionals (p ∷ ps) = some positionals_and_commands

-- The checks of `command`, and those of `group` but for the one on its `state`.
unfoldable pub command_refused : List Parameter → Option DeclarationError
command_refused parameters = elim (positional_layout (positionals_of parameters)) [
  | some e ↦ some e
  | none ↦ option_spellings (options_of parameters)
]

unfoldable pub group_refused : List Parameter → List Word → Option DeclarationError
group_refused parameters children = elim (no_positionals (positionals_of parameters)) [
  | some e ↦ some e
  | none ↦ elim (option_spellings (options_of parameters)) [
    | some e ↦ some e
    | none ↦ child_names children
  ]
]
