-- ===== src/Cli/Declarations/Accepted/Samples.antt =====
-- A command of two options and two positionals: tests, and the theorem at it.
use without.Prelude.{◌≡◌, refl, true, false, none, some, List, [], ◌∷◌}
use without.Asgi.Bytes.{bytes, bytes_key}
use without.Cli.{Word}
use without.Cli.Tokens.{CliOption, Parameter, positional, option, options_of, positionals_of}
use without.Cli.Declarations.{
  many_not_last, same_option, repeated, variadic_count, first_variadic, required_after,
  positional_layout, spellings, option_spellings, command_refused, no_commands, group_refused,
  no_positionals, child_names,
}
use without.Cli.Binding.Merged.{IsDistinct}
use without.Cli.Binding.Assigned.{IsDeclared}
use without.Cli.Declarations.Accepted.{command-accepted}
use without.Cli.Declarations.Spellings.{ShareNone}

abbrev named : Word → List Word → CliOption
named first_name other_names = record {
  first_name = first_name;
  other_names = other_names;
  metavar = none;
  sources = [];
  repeatable = false;
  required = false;
}

abbrev source : Parameter
source = positional (record { name = bytes "source"; variadic = false; required = true })

abbrev rest : Parameter
rest = positional (record { name = bytes "rest"; variadic = true; required = false })

abbrev copy : List Parameter
copy =
    option (named (bytes "-v") (bytes "--verbose" ∷ []))
    ∷ source
    ∷ option (named (bytes "--force") [])
    ∷ rest
    ∷ []

refuses_a_tail : command_refused (rest ∷ source ∷ []) ≡ some many_not_last
unfolding command_refused positional_layout variadic_count first_variadic positionals_of
refuses_a_tail = refl

refuses_twice :
    command_refused
      (option (named (bytes "-v") []) ∷ option (named (bytes "--version") (bytes "-v" ∷ [])) ∷ [])
    ≡ some (same_option (bytes "-v"))
unfolding command_refused positional_layout variadic_count first_variadic required_after
    option_spellings spellings repeated positionals_of options_of
refuses_twice = refl

refuses_an_empty_group : group_refused [] [] ≡ some no_commands
unfolding group_refused no_positionals option_spellings spellings repeated child_names
    positionals_of options_of
refuses_an_empty_group = refl

copy-accepted : command_refused copy ≡ none
unfolding command_refused positional_layout variadic_count first_variadic required_after
    option_spellings spellings repeated positionals_of options_of
copy-accepted = refl

command-accepted_example :
    ShareNone (options_of copy) × IsDistinct (options_of copy) × IsDeclared (positionals_of copy)
command-accepted_example = command-accepted copy copy-accepted
