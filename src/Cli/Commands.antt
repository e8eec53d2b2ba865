-- ===== src/Cli/Commands.antt =====
-- `command` and `group` of packages/without_cli/src/without_cli/commands.py: trees of arms, and how one
-- resolves
--
-- The values that the extractors of an arm make are of one type. An action is what `fn` makes of them;
-- a group's `state` makes an action of its values and of the action of its child.
pub mod Found
pub mod Lookup
mod Samples
use without.Prelude.{Option, none, some, List, [], ◌∷◌, ◌++◌, map, Result, ok, err}
use without.Prelude.Dict
use without.Prelude.Dict.{Dict}
use without.Asgi.Bytes.{bytes_key}
use without.Cli.{Word}
use without.Cli.Tokens.{Parameter, Node, node, Nodes, no_nodes, node_of, name_of, Args, Level, Arm}
use without.Cli.Extractors.{Extractor}
use without.Cli.Declarations.{DeclarationError, no_state, command_refused, group_refused}

-- What a `resolve` returns or raises, besides an `ExtractionError`: an `IndexError` or a `KeyError` is
-- `lookup_error`.
pub data Resolved (Action : Type 0) : Type 0 where
  action_of : Action → Resolved Action
  lookup_error : Resolved Action

module _ {V : Type 0} where
  -- `tuple(extractor.extract(...) for extractor in extractors)`
  unfoldable pub extract_all : List (Extractor V) → Args → Result Word (List V)
  extract_all [] args = ok []
  extract_all (e ∷ es) args = elim (e.extract args) [
    | err parameter ↦ err parameter
    | ok v ↦ elim (extract_all es args) [ err parameter ↦ err parameter | ok vs ↦ ok (v ∷ vs) ]
  ]

  -- The parameters of the extractors.
  unfoldable pub parameters_of : List (Extractor V) → List Parameter
  parameters_of [] = []
  parameters_of (e ∷ es) = e.parameters ++ parameters_of es

module _ {Action : Type 0} where
  unfoldable pub nodes_of : List (Arm (Resolved Action)) → Nodes
  nodes_of [] = no_nodes
  nodes_of (arm ∷ arms) = node_of arm.description (nodes_of arms)

  -- `{arm.node.name: arm for arm in commands}`
  unfoldable pub by_name_into :
      List (Arm (Resolved Action))
      → Dict Word (Arm (Resolved Action))
      → Dict Word (Arm (Resolved Action))
  by_name_into [] d = d
  by_name_into (arm ∷ arms) d = by_name_into arms (Dict.put (name_of arm.description) arm d)

  -- `by_name[below[0].name].resolve(below)`
  unfoldable pub resolve_below :
      Dict Word (Arm (Resolved Action)) → List Level → Result Word (Resolved Action)
  resolve_below by_name [] = ok lookup_error
  resolve_below by_name (next ∷ more) = elim (Dict.get next.name by_name) [
    | none ↦ ok lookup_error
    | some arm ↦ arm.resolve (next ∷ more)
  ]

module _ {V Action : Type 0} where
  -- `resolve` of a command
  unfoldable pub resolve_command :
      List (Extractor V) → (List V → Action) → List Level → Result Word (Resolved Action)
  resolve_command extractors fn [] = ok lookup_error
  resolve_command extractors fn (level ∷ levels) = elim (extract_all extractors level.args) [
    | err parameter ↦ err parameter
    | ok values ↦ ok (action_of (fn values))
  ]

  -- `command`, with its `bind`
  unfoldable pub command :
      Word
      → List (Extractor V)
      → (List V → Action)
      → Result DeclarationError (Arm (Resolved Action))
  command name extractors fn = elim (command_refused (parameters_of extractors)) [
    | some e ↦ err e
    | none ↦ ok (record {
      description = node name (parameters_of extractors) no_nodes;
      resolve = resolve_command extractors fn;
    })
  ]

  -- What a group makes of its child's action; without a `state`, that action.
  abbrev pub entered :
      Option (List V → Action → Action) → List V → Resolved Action → Resolved Action
  entered state own lookup_error = lookup_error
  entered none own (action_of inner) = action_of inner
  entered (some state) own (action_of inner) = action_of (state own inner)

  -- `resolve` of a group
  unfoldable pub resolve_group :
      List (Extractor V)
      → Option (List V → Action → Action)
      → Dict Word (Arm (Resolved Action))
      → List Level
      → Result Word (Resolved Action)
  resolve_group extractors state by_name [] = ok lookup_error
  resolve_group extractors state by_name (level ∷ below) =
      elim (extract_all extractors level.args) [
        | err parameter ↦ err parameter
        | ok own ↦ elim (resolve_below by_name below) [
          | err parameter ↦ err parameter
          | ok inner ↦ ok (entered state own inner)
        ]
      ]

  -- `state is None and extractors`
  abbrev pub state_refused :
      Option (List V → Action → Action) → List (Extractor V) → Option DeclarationError
  state_refused none (e ∷ es) = some no_state
  state_refused none [] = none
  state_refused (some state) es = none

  -- `group`
  unfoldable pub group :
      Word
      → List (Extractor V)
      → Option (List V → Action → Action)
      → List (Arm (Resolved Action))
      → Result DeclarationError (Arm (Resolved Action))
  group name extractors state commands =
      elim (group_refused (parameters_of extractors)
        (map (λ arm. name_of arm.description) commands)) [
          | some e ↦ err e
          | none ↦ elim (state_refused state extractors) [
            | some e ↦ err e
            | none ↦ ok (record {
              description = node name (parameters_of extractors) (nodes_of commands);
              resolve = resolve_group extractors state (by_name_into commands []);
            })
          ]
        ]
