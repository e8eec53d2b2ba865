-- ===== src/Cli/Tokens.antt =====
-- The parameters of packages/without_cli/src/without_cli/tokens.py, and `Node`, `Level` and `Arm` of
-- commands.py
--
-- A level's summary and version are only shown, and are left out.
use without.Prelude.{Bool, Option, none, some, List, [], ◌∷◌, if◌then◌else◌, Result}
use without.Prelude.Dict.{Dict}
use without.Asgi.Bytes.{bytes, bytes_key, starts_with}
use without.Cli.{Word}
use without.Cli.Sources.{Source}

pub record Positional : Type 0 where
  pub name : Word
  pub variadic : Bool
  pub required : Bool

-- `Option`, whose names are one at least.
pub record CliOption : Type 0 where
  pub first_name : Word
  pub other_names : List Word
  pub metavar : Option Word
  pub sources : List Source
  pub repeatable : Bool
  pub required : Bool

abbrev pub names : CliOption → List Word
names o = o.first_name ∷ o.other_names

-- The first of the names that starts with two dashes.
unfoldable pub long_name : List Word → Option Word
long_name [] = none
long_name (name ∷ names) =
    let rest = long_name names in if starts_with (bytes "--") name then some name else rest

-- `_canonical`
unfoldable pub canonical : CliOption → Word
canonical o = elim (long_name (names o)) [ none ↦ o.first_name | some name ↦ name ]

pub data Parameter : Type 0 where
  positional : Positional → Parameter
  option : CliOption → Parameter

-- PRESENT
abbrev pub present : Word
present = bytes "1"

-- `Args`
pub record Args : Type 0 where
  pub options : Dict Word (List Word)
  pub arguments : Dict Word (List Word)

mutual
  pub data Node : Type 0 where
    node : (name : Word) → List Parameter → Nodes → Node

  pub data Nodes : Type 0 where
    no_nodes : Nodes
    node_of : Node → Nodes → Nodes

abbrev pub name_of : Node → Word
name_of (node name _ _) = name

-- `Node.options` and `Node.positionals`
unfoldable pub options_of : List Parameter → List CliOption
options_of [] = []
options_of (parameter ∷ parameters) =
    let rest = options_of parameters in elim parameter [ positional p ↦ rest | option o ↦ o ∷ rest ]

unfoldable pub positionals_of : List Parameter → List Positional
positionals_of [] = []
positionals_of (parameter ∷ parameters) =
    let rest = positionals_of parameters in
    elim parameter [ positional p ↦ p ∷ rest | option o ↦ rest ]

pub record Level : Type 0 where
  pub name : Word
  pub args : Args

-- `Arm`: `resolve` gives the action, or the parameter whose value it rejects.
pub record Arm (Action : Type 0) : Type 0 where
  pub description : Node
  pub resolve : List Level → Result Word Action
