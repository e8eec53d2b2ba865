-- ===== src/Cli/Binding/Samples.antt =====
-- A level with two options and two positionals: tests, and the theorems at it.
use without.Prelude.{
  ◌≡◌, refl, true, false, none, some, List, [], ◌∷◌, ◌++◌, Memᴰ, ok, inl, inr, arith,
}
use without.Prelude.Dict
use without.Prelude.Dict.{Dict}
use without.Asgi.Bytes.{bytes, bytes_key, starts_with}
use without.Cli.Sources.{from_env, from_file, from_sources, strip_left, strip_right}
use without.Cli.Tokens.{
  CliOption, canonical, long_name, Positional, positional, option, Node, node, no_nodes, node_of,
  options_of, present, Level, Arm,
}
use without.Cli.Scan.{
  scanned, refused, expects_value, name_all, by_name_of, record_value, read_cluster, read_option,
  is_answered, kind_of, scan_from, scan,
}
use without.Cli.{Word}
use without.Cli.Scan.Uses.{Use, flagged, valued, spaced, plain, written, values_of}
use without.Cli.Scan.Printed.{scan-printed}
use without.Cli.Binding.Merged.{some_of}
use without.Cli.Binding.{supplied, merged_into, merged, assigned, stopped, parse_level, parse_argv}
use without.Cli.Binding.Merged.{merged-get}
use without.Cli.Binding.Assigned.{Shared, assigned-Shared}

abbrev verbose : CliOption
verbose = record {
  first_name = bytes "-v";
  other_names = bytes "--verbose" ∷ [];
  metavar = none;
  sources = [];
  repeatable = true;
  required = false;
}

abbrev output : CliOption
output = record {
  first_name = bytes "-o";
  other_names = bytes "--output" ∷ [];
  metavar = some (bytes "OUTPUT");
  sources = from_env (bytes "OUT") ∷ [];
  repeatable = false;
  required = false;
}

abbrev both : List CliOption
both = verbose ∷ output ∷ []

abbrev source : Positional
source = record { name = bytes "source"; variadic = false; required = true }

abbrev rest : Positional
rest = record { name = bytes "rest"; variadic = true; required = false }

abbrev copy : Node
copy =
    node (bytes "copy") (option verbose ∷ positional source ∷ option output ∷ positional rest ∷ [])
      no_nodes

-- An arm whose action is the levels that it is resolved from.
abbrev tool : Arm (List Level)
tool = record {
  description = node (bytes "tool") (option verbose ∷ []) (node_of copy no_nodes);
  resolve = ok;
}

scans_a_cluster :
    scan both false [] (bytes "-vvo" ∷ bytes "a" ∷ bytes "b" ∷ [])
    ≡ scanned
        ((bytes "--verbose", present ∷ present ∷ []) ∷ (bytes "--output", bytes "a" ∷ []) ∷ [])
        (bytes "b" ∷ [])
unfolding scan scan_from kind_of is_answered starts_with read_option read_cluster by_name_of
    name_all record_value canonical long_name Dict.get Dict.put
scans_a_cluster = refl

misses_a_value : scan both false [] (bytes "-o" ∷ []) ≡ refused (expects_value (bytes "-o"))
unfolding scan scan_from kind_of is_answered starts_with read_option read_cluster by_name_of
    name_all Dict.get Dict.put
misses_a_value = refl

answers_help :
    parse_argv tool (bytes "copy" ∷ bytes "--help" ∷ []) [] [] (bytes "--help" ∷ [])
    ≡ stopped (bytes "--help") (tool.description ∷ copy ∷ [])
unfolding parse_argv parse_level scan scan_from kind_of is_answered starts_with by_name_of name_all
    options_of merged_into supplied from_sources Dict.get Dict.put
answers_help = refl

falls_back_to_the_environment :
    merged both [] ((bytes "OUT", bytes "x") ∷ []) [] ≡ (bytes "--output", bytes "x" ∷ []) ∷ []
unfolding merged_into supplied from_sources canonical long_name starts_with Dict.get Dict.put
falls_back_to_the_environment = refl

strips_a_file :
    from_sources
      (from_file (bytes "/run/token") true ∷ [])
      []
      ((bytes "/run/token", bytes " a b" ++ 10 ∷ []) ∷ [])
    ≡ bytes "a b" ∷ []
unfolding from_sources strip_left strip_right Dict.get
strips_a_file = refl

abbrev uses : List Use
uses =
    flagged (bytes "verbose") verbose
    ∷ plain (bytes "in")
    ∷ valued (bytes "output") output (bytes "a")
    ∷ spaced (bytes "output") output (bytes "-b")
    ∷ plain (bytes "-")
    ∷ []

scan-printed_example :
    (read : Dict Word (List Word)) × (scan both false []
        (written uses (bytes "--" ∷ bytes "-x" ∷ []))
      ≡ scanned read (bytes "in" ∷ bytes "-" ∷ bytes "-x" ∷ []))
    × ((key : Word) → Dict.get key read ≡ some_of (values_of key uses))
unfolding by_name_of name_all is_answered Dict.get Dict.put
scan-printed_example = scan-printed both [] uses (bytes "-x" ∷ []) (
  (((((λ e. absurd (cc e)), refl), refl, refl), refl)),
  (
    inl (omega arith),
    (
      (((((λ e. absurd (cc e)), refl), refl, refl), (bytes "OUTPUT", refl))),
      ((((((λ e. absurd (cc e)), refl), refl, refl), (bytes "OUTPUT", refl))), (inr refl, tt)),
    ),
  ),
)

merged-get_example :
    Dict.get
      (bytes "--output")
      (merged both ((bytes "--output", bytes "a" ∷ []) ∷ []) ((bytes "OUT", bytes "x") ∷ []) [])
    ≡ some (bytes "a" ∷ [])
unfolding canonical long_name starts_with Dict.get
merged-get_example =
    merged-get ((bytes "--output", bytes "a" ∷ []) ∷ []) ((bytes "OUT", bytes "x") ∷ []) [] both
      output ((refl, tt), (tt, tt)) (Memᴰ.tail (Memᴰ.head refl))

assigned-Shared_example :
    Shared
      (source ∷ rest ∷ [])
      (bytes "a" ∷ bytes "b" ∷ bytes "c" ∷ [])
      (assigned (source ∷ rest ∷ []) (bytes "a" ∷ bytes "b" ∷ bytes "c" ∷ []))
assigned-Shared_example =
    assigned-Shared (source ∷ rest ∷ []) (bytes "a" ∷ bytes "b" ∷ bytes "c" ∷ [])
      (inl refl, (refl, tt), (inr refl, tt, tt))
