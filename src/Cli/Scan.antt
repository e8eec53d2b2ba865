-- ===== src/Cli/Scan.antt =====
-- `_scan` of packages/without_cli/src/without_cli/binding.py
pub mod Uses
pub mod Printed
pub mod Stops
use without.Prelude.{
  ℕ, Bool, true, false, not, ◌||◌, ◌&&◌, Option, none, some, List, [], ◌∷◌, ◌++◌, nat_eq,
  if◌then◌else◌,
}
use without.Prelude.Eq.{◌==◌}
use without.Prelude.Dict
use without.Prelude.Dict.{Dict}
use without.Asgi.Bytes.{bytes, bytes_key, starts_with}
use without.Cli.{Word}
use without.Cli.Tokens.{CliOption, names, canonical, present}

-- The messages of a rejection.
pub data Message : Type 0 where
  unknown_option takes_no_value expects_value unexpected_argument : Word → Message
  expected_command : Message
  unknown_command : Word → Message
  rejected_value : (parameter : Word) → Message

-- `_Scan`
pub data Scanned : Type 0 where
  scanned : (options : Dict Word (List Word)) → (bare : List Word) → Scanned
  refused : Message → Scanned
  answered : (spelling : Word) → Scanned

-- `by_name`
unfoldable pub name_all : List Word → CliOption → Dict Word CliOption → Dict Word CliOption
name_all [] o d = d
name_all (name ∷ names) o d = name_all names o (Dict.put name o d)

unfoldable pub by_name_of : List CliOption → Dict Word CliOption → Dict Word CliOption
by_name_of [] d = d
by_name_of (o ∷ os) d = by_name_of os (name_all (names o) o d)

-- `record`
unfoldable pub record_value : CliOption → Word → Dict Word (List Word) → Dict Word (List Word)
record_value o value options =
    Dict.put (canonical o)
      (elim (Dict.get (canonical o) options) [
        | none ↦ value ∷ []
        | some values ↦ values ++ value ∷ []
      ])
      options

-- What an option's token comes to: a refusal, or the options with whether the next token was its value.
pub data Read : Type 0 where
  refuses : Message → Read
  takes : Dict Word (List Word) → (next : Bool) → Read

-- `token.partition("=")`: the name, and the value where there is a separator.
unfoldable pub partition_equals : Word → Word × Option Word
partition_equals [] = ([], none)
partition_equals (c ∷ cs) =
    let (name, inline) = partition_equals cs in
    if nat_eq c 61 then ([], some cs) else (c ∷ name, inline)

-- The tokens that are left after this one.
abbrev pub next_of : List Word → Option Word
next_of [] = none
next_of (token ∷ tokens) = some token

module _ (by_name : Dict Word CliOption) where
  -- The branch of a token that starts with two dashes, by its parts and by what the option takes.
  unfoldable pub read_with :
      Option Word → Option Word → Word → CliOption → Option Word → Dict Word (List Word) → Read
  read_with none (some value) name o next options = refuses (takes_no_value name)
  read_with none none name o next options = takes (record_value o present options) false
  read_with (some metavar) (some value) name o next options =
      takes (record_value o value options) false
  read_with (some metavar) none name o (some value) options =
      takes (record_value o value options) true
  read_with (some metavar) none name o none options = refuses (expects_value name)

  unfoldable pub read_parts : Word × Option Word → Option Word → Dict Word (List Word) → Read
  read_parts (name, inline) next options = elim (Dict.get name by_name) [
    | none ↦ refuses (unknown_option name)
    | some o ↦ read_with o.metavar inline name o next options
  ]

  abbrev pub read_long : Word → Option Word → Dict Word (List Word) → Read
  read_long token next options = read_parts (partition_equals token) next options

  -- The branch of a short cluster, from a position on.
  unfoldable pub read_cluster : Word → Option Word → Dict Word (List Word) → Read
  read_cluster [] next options = takes options false
  read_cluster (c ∷ cluster) next options =
      let name = bytes "-" ++ c ∷ [] in
      elim (Dict.get name by_name) [
        | none ↦ refuses (unknown_option name)
        | some o ↦ elim o.metavar [
          | none ↦ read_cluster cluster next (record_value o present options)
          | some metavar ↦ elim cluster [
            | d ∷ ds ↦ takes (record_value o (d ∷ ds) options) false
            | [] ↦ elim next [
              | some value ↦ takes (record_value o value options) true
              | none ↦ refuses (expects_value name)
            ]
          ]
        ]
      ]

  -- An option's token, which starts with a dash.
  unfoldable pub read_option : Word → Option Word → Dict Word (List Word) → Read
  read_option token next options = elim (starts_with (bytes "--") token) [
    | true ↦ read_long token next options
    | false ↦ elim token [
      | [] ↦ takes options false
      | dash ∷ cluster ↦ read_cluster cluster next options
    ]
  ]

  -- `token in answered and token not in by_name`
  unfoldable pub is_answered : List Word → Word → Bool
  is_answered [] token = false
  is_answered (spelling ∷ answers) token =
      ((spelling == token) && (elim (Dict.get token by_name) [ none ↦ true | some o ↦ false ]))
      || is_answered answers token

-- What a token is to the scan, by the tests in their order.
pub data Kind : Type 0 where
  bare_token end_of_options answer option_token : Kind

unfoldable pub kind_of : Dict Word CliOption → List Word → (literal : Bool) → Word → Kind
kind_of by_name answers literal token =
    if literal || ((token == bytes "-") || not (starts_with (bytes "-") token))
    then bare_token
    else (if token == bytes "--"
        then end_of_options
        else (if is_answered by_name answers token then answer else option_token))

-- `_scan`, from a token on
module _ (by_name : Dict Word CliOption) (stop_at_positional : Bool) (answers : List Word) where
  unfoldable pub scan_from :
      List Word → (literal : Bool) → Dict Word (List Word) → List Word → Scanned
  scan_from [] literal options bare = scanned options bare
  scan_from (token ∷ []) literal options bare = elim (kind_of by_name answers literal token) [
    | bare_token ↦
        if stop_at_positional
        then scanned options (token ∷ [])
        else scanned options (bare ++ token ∷ [])
    | end_of_options ↦ scanned options bare
    | answer ↦ answered token
    | option_token ↦ elim (read_option by_name token none options) [
      | refuses message ↦ refused message
      | takes options' next ↦ scanned options' bare
    ]
  ]
  scan_from (token ∷ value ∷ argv) literal options bare =
      elim (kind_of by_name answers literal token) [
        | bare_token ↦ elim stop_at_positional [
          | true ↦ scanned options (token ∷ value ∷ argv)
          | false ↦ scan_from (value ∷ argv) literal options (bare ++ token ∷ [])
        ]
        | end_of_options ↦ scan_from (value ∷ argv) true options bare
        | answer ↦ answered token
        | option_token ↦ elim (read_option by_name token (some value) options) [
          | refuses message ↦ refused message
          | takes options' next ↦ elim next [
            | true ↦ scan_from argv literal options' bare
            | false ↦ scan_from (value ∷ argv) literal options' bare
          ]
        ]
      ]

unfoldable pub scan :
    List CliOption → (stop_at_positional : Bool) → (answers : List Word) → List Word → Scanned
scan options stop_at_positional answers argv =
    scan_from (by_name_of options []) stop_at_positional answers argv false [] []
