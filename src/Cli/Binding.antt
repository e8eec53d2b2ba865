-- ===== src/Cli/Binding.antt =====
-- `_merged`, `_assigned` and `parse_argv` of packages/without_cli/src/without_cli/binding.py
pub mod Merged
pub mod Assigned
pub mod Outcomes
mod Samples
use without.Prelude.{
  ℕ, Bool, true, false, Option, none, some, List, [], ◌∷◌, ◌++◌, if◌then◌else◌, Result, ok, err,
}
use without.Prelude.Eq.{◌==◌}
use without.Prelude.Dict
use without.Prelude.Dict.{Dict}
use without.Asgi.Bytes.{bytes_key}
use without.Cli.{Word}
use without.Cli.Sources.{from_sources}
use without.Cli.Tokens.{
  CliOption, canonical, Positional, Parameter, Node, node, Nodes, no_nodes, node_of, name_of,
  options_of, positionals_of, Args, Level, Arm,
}
use without.Cli.Scan.{
  Message, unexpected_argument, expected_command, unknown_command, rejected_value, Scanned, scanned,
  refused, answered, scan,
}

-- What an option is supplied with: what the command line says, or else the first source.
unfoldable pub supplied :
    CliOption → Dict Word (List Word) → Dict Word Word → Dict Word Word → List Word
supplied o occurrences env files = elim (Dict.get (canonical o) occurrences) [
  | some (value ∷ values) ↦ value ∷ values
  | _ ↦ from_sources o.sources env files
]

-- `_merged`
unfoldable pub merged_into :
    List CliOption
    → Dict Word (List Word)
    → Dict Word Word
    → Dict Word Word
    → Dict Word (List Word)
    → Dict Word (List Word)
merged_into [] occurrences env files values = values
merged_into (o ∷ os) occurrences env files values =
    merged_into os occurrences env files (elim (supplied o occurrences env files) [
      | [] ↦ values
      | value ∷ more ↦ Dict.put (canonical o) (value ∷ more) values
    ])

abbrev pub merged :
    List CliOption → Dict Word (List Word) → Dict Word Word → Dict Word Word → Dict Word (List Word)
merged options occurrences env files = merged_into options occurrences env files []

-- `_assigned`
unfoldable pub assigned_into :
    List Positional → List Word → Dict Word (List Word) → Result Message (Dict Word (List Word))
assigned_into [] [] assigned = ok assigned
assigned_into [] (token ∷ tokens) assigned = err (unexpected_argument token)
assigned_into (spec ∷ specs) tokens assigned = elim spec.variadic [
  | true ↦ assigned_into specs [] (Dict.put spec.name tokens assigned)
  | false ↦ elim tokens [
    | [] ↦ assigned_into specs [] assigned
    | token ∷ rest ↦ assigned_into specs rest (Dict.put spec.name (token ∷ []) assigned)
  ]
]

abbrev pub assigned : List Positional → List Word → Result Message (Dict Word (List Word))
assigned specs tokens = assigned_into specs tokens []

-- `Outcome`, where the path stands for its usage.
pub data Outcome (Action : Type 0) : Type 0 where
  bound : Action → Outcome Action
  stopped : (spelling : Word) → (path : List Node) → Outcome Action
  rejected : Message → (path : List Node) → Outcome Action

module _ {Action : Type 0} (resolve : List Level → Result Word Action) (env files : Dict Word Word)
    (answers : List Word) where
  -- The end of `parse_argv`, with the last level.
  unfoldable pub bind_last :
      Word
      → Dict Word (List Word)
      → List Positional
      → List Word
      → List Node
      → List Level
      → Outcome Action
  bind_last name options specs bare path levels = elim (assigned specs bare) [
    | err message ↦ rejected message path
    | ok arguments ↦
        elim (resolve (
          levels
          ++ (record { name = name; args = record { options = options; arguments = arguments } })
            ∷ [])) [
              | ok action ↦ bound action
              | err parameter ↦ rejected (rejected_value parameter) path
            ]
  ]

  unfoldable mutual
    pub parse_level : Node → List Word → List Node → List Level → Outcome Action
    parse_level (node name parameters no_nodes) argv path levels =
        let here = path ++ node name parameters no_nodes ∷ [] in
        elim (scan (options_of parameters) false answers argv) [
          | answered spelling ↦ stopped spelling here
          | refused message ↦ rejected message here
          | scanned options bare ↦
              bind_last name (merged (options_of parameters) options env files)
                (positionals_of parameters) bare here levels
        ]
    parse_level (node name parameters (node_of first more)) argv path levels =
        let here = path ++ node name parameters (node_of first more) ∷ [] in
        elim (scan (options_of parameters) true answers argv) [
          | answered spelling ↦ stopped spelling here
          | refused message ↦ rejected message here
          | scanned options bare ↦ elim bare [
            | [] ↦ rejected expected_command here
            | command ∷ remaining ↦
                let level : Level = record {
                  name = name;
                  args = record {
                    options = merged (options_of parameters) options env files;
                    arguments = [];
                  };
                } in
                parse_child (node_of first more) command remaining here (levels ++ level ∷ [])
          ]
        ]

    -- The loop goes on at the first child that has the name.
    pub parse_child : Nodes → Word → List Word → List Node → List Level → Outcome Action
    parse_child no_nodes command remaining path levels = rejected (unknown_command command) path
    parse_child (node_of child children) command remaining path levels =
        elim (name_of child == command) [
          | true ↦ parse_level child remaining path levels
          | false ↦ parse_child children command remaining path levels
        ]

-- `parse_argv`
unfoldable pub parse_argv :
    {Action : Type 0}
    → Arm Action
    → List Word
    → Dict Word Word
    → Dict Word Word
    → List Word
    → Outcome Action
parse_argv arm argv env files answers =
    parse_level arm.resolve env files answers arm.description argv [] []
