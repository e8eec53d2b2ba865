-- ===== src/Cli/Commands/Samples.antt =====
-- A program with a group and two commands: tests, and the theorem at it.
use without.Prelude.{
  ◌≡◌, ◌≢◌, refl, sym, subst, true, false, none, some, List, [], ◌∷◌, ◌++◌, mem-cases, inl, inr, ok,
}
use without.Prelude.Dict
use without.Asgi.Bytes.{bytes, bytes_key, starts_with}
use without.Cli.{Word}
use without.Cli.Sources.{from_sources}
use without.Cli.Tokens.{
  CliOption, canonical, long_name, option, node, no_nodes, options_of, positionals_of, Arm,
}
use without.Cli.Scan.{
  name_all, by_name_of, record_value, read_cluster, read_option, is_answered, kind_of, scan_from,
  scan,
}
use without.Cli.Extractors.{Extractor, values_at}
use without.Cli.Declarations.{
  repeated, variadic_count, first_variadic, required_after, positional_layout, spellings,
  option_spellings, child_names, no_positionals, command_refused, group_refused,
}
use without.Cli.Binding.{
  bound, supplied, merged_into, assigned_into, bind_last, parse_level, parse_child, parse_argv,
}
use without.Cli.Commands.{
  Resolved, action_of, lookup_error, extract_all, parameters_of, nodes_of, by_name_into,
  resolve_below, resolve_command, command, resolve_group, group,
}
use without.Cli.Commands.Lookup.{IsDeclared, parse_argv-finds}

abbrev verbose : CliOption
verbose = record {
  first_name = bytes "-v";
  other_names = [];
  metavar = none;
  sources = [];
  repeatable = true;
  required = false;
}

-- The values of a switch, as they stand.
abbrev switch : Extractor (List Word)
switch = record {
  extract = λ args. ok (values_at (bytes "-v") args.options);
  parameters = option verbose ∷ [];
}

abbrev Action : Type 0
Action = List (List Word)

abbrev copy_arm : Arm (Resolved Action)
copy_arm = record {
  description = node (bytes "copy") (option verbose ∷ []) no_nodes;
  resolve = resolve_command (switch ∷ []) (λ values. values);
}

abbrev move_arm : Arm (Resolved Action)
move_arm = record {
  description = node (bytes "move") [] no_nodes;
  resolve = resolve_command {V = List Word} [] (λ values. values);
}

copy_made : command (bytes "copy") (switch ∷ []) (λ values. values) ≡ ok copy_arm
unfolding command parameters_of command_refused positional_layout option_spellings options_of
    positionals_of variadic_count first_variadic required_after repeated spellings
copy_made = refl

move_made : command {V = List Word} (bytes "move") [] (λ values. values) ≡ ok move_arm
unfolding command parameters_of command_refused positional_layout option_spellings options_of
    positionals_of variadic_count first_variadic required_after repeated spellings
move_made = refl

abbrev arms : List (Arm (Resolved Action))
arms = copy_arm ∷ move_arm ∷ []

-- A group whose state adds its own values to its child's.
abbrev tool_arm : Arm (Resolved Action)
tool_arm = record {
  description = node (bytes "tool") (option verbose ∷ []) (nodes_of arms);
  resolve = resolve_group (switch ∷ []) (some (λ own inner. own ++ inner)) (by_name_into arms []);
}

tool_made : group (bytes "tool") (switch ∷ []) (some (λ own inner. own ++ inner)) arms ≡ ok tool_arm
unfolding group parameters_of group_refused no_positionals option_spellings child_names options_of
    positionals_of repeated spellings
tool_made = refl

tool-IsDeclared : IsDeclared (List Word) Action tool_arm
tool-IsDeclared =
    IsDeclared.a_group (bytes "tool") (switch ∷ []) (some (λ own inner. own ++ inner)) arms
      (λ arm m. elim (mem-cases m) [
        | inl e ↦
            subst (IsDeclared (List Word) Action) (sym e)
              (IsDeclared.a_command (bytes "copy") (switch ∷ []) (λ values. values) copy_made)
        | inr n ↦ elim (mem-cases n) [
          | inl e ↦
              subst (IsDeclared (List Word) Action) (sym e)
                (IsDeclared.a_command (bytes "move") [] (λ values. values) move_made)
          | inr none_left ↦ elim none_left [ ]
        ]
      ])
      tool_made

abbrev argv : List Word
argv = bytes "-v" ∷ bytes "copy" ∷ bytes "-v" ∷ bytes "-v" ∷ []

-- Each level's switches are its own.
tool_copies :
    parse_argv tool_arm argv [] [] []
    ≡ bound (action_of ((bytes "1" ∷ []) ∷ (bytes "1" ∷ bytes "1" ∷ []) ∷ []))
unfolding parse_argv parse_level parse_child nodes_of options_of positionals_of scan scan_from
    kind_of is_answered read_option read_cluster record_value by_name_of name_all merged_into
    supplied from_sources canonical long_name starts_with bind_last assigned_into resolve_group
    resolve_below by_name_into resolve_command extract_all Dict.get Dict.put
tool_copies = refl

parse_argv-finds_example : parse_argv tool_arm argv [] [] [] ≢ bound lookup_error
parse_argv-finds_example = parse_argv-finds tool_arm argv [] [] [] tool-IsDeclared
