-- ===== src/Cli/Extractors.antt =====
-- The cardinalities and the extractors of packages/without_cli/src/without_cli/tokens.py, and
-- `parse_boolean` of converters.py
--
-- An `ExtractionError` is the name of its parameter. The metavar that an option is shown with is given,
-- also where the source makes it from the name.
pub mod Reads
use without.Prelude.{
  ℕ, Bool, true, false, ◌||◌, Option, none, some, List, [], ◌∷◌, leb, ◌&&◌, ◌+◌, map, if◌then◌else◌,
  Result, ok, err,
}
use without.Prelude.Eq.{◌==◌}
use without.Prelude.Dict
use without.Prelude.Dict.{Dict}
use without.Asgi.Bytes.{bytes, bytes_key, lower}
use without.Cli.{Word}
use without.Cli.Sources.{Source, strip_text}
use without.Cli.Tokens.{CliOption, canonical, Positional, Parameter, positional, option, Args}

-- What a converter or a parse raises: a `ValueError`, or an `ExtractionError` of a parameter.
pub data Raised : Type 0 where
  value_error : Raised
  extraction_error : (parameter : Word) → Raised

pub record Converter (V : Type 0) : Type 0 where
  pub metavar : Word
  pub parse : Word → Result Raised V

pub record Cardinality (V : Type 0) : Type 0 where
  pub parse : List Word → Result Raised V
  pub repeatable : Bool
  pub required : Bool

module _ {V : Type 0} where
  -- `once`
  unfoldable pub once : Converter V → Cardinality V
  once c = record {
    parse = λ values. elim values [
      | [] ↦ err value_error
      | value ∷ more ↦ elim more [ [] ↦ c.parse value | _ ∷ _ ↦ err value_error ]
    ];
    repeatable = false;
    required = true;
  }

  -- `optional`
  unfoldable pub optional : Converter V → Cardinality (Option V)
  optional c = record {
    parse = λ values. elim values [
      | [] ↦ ok none
      | value ∷ more ↦ elim more [
        | [] ↦ elim (c.parse value) [ ok v ↦ ok (some v) | err raised ↦ err raised ]
        | _ ∷ _ ↦ err value_error
      ]
    ];
    repeatable = false;
    required = false;
  }

  -- `default`
  unfoldable pub default : V → Converter V → Cardinality V
  default v c = record {
    parse = λ values. elim values [
      | [] ↦ ok v
      | value ∷ more ↦ elim more [ [] ↦ c.parse value | _ ∷ _ ↦ err value_error ]
    ];
    repeatable = false;
    required = false;
  }

  unfoldable pub convert_all : Converter V → List Word → Result Raised (List V)
  convert_all c [] = ok []
  convert_all c (value ∷ values) = elim (c.parse value) [
    | err raised ↦ err raised
    | ok v ↦ elim (convert_all c values) [ err raised ↦ err raised | ok vs ↦ ok (v ∷ vs) ]
  ]

  -- `many`
  unfoldable pub many : Converter V → Cardinality (List V)
  many c = record { parse = convert_all c; repeatable = true; required = false }

  -- `_parsed`
  unfoldable pub parsed : Word → Result Raised V → Result Word V
  parsed parameter (ok v) = ok v
  parsed parameter (err value_error) = err parameter
  parsed parameter (err (extraction_error p)) = err p

-- `args.options.get(…, ())`
abbrev pub values_at : Word → Dict Word (List Word) → List Word
values_at key d = elim (Dict.get key d) [ none ↦ [] | some values ↦ values ]

pub record Extractor (V : Type 0) : Type 0 where
  pub extract : Args → Result Word V
  pub parameters : List Parameter

module _ {V : Type 0} where
  -- The `Option` that `option` makes.
  abbrev pub option_spec : Word → List Word → Cardinality V → Word → List Source → CliOption
  option_spec first_name other_names cardinality metavar sources = record {
    first_name = first_name;
    other_names = other_names;
    metavar = some metavar;
    sources = sources;
    repeatable = cardinality.repeatable;
    required = cardinality.required;
  }

  -- `option`, by its spec
  unfoldable pub option_of : CliOption → Cardinality V → Extractor V
  option_of spec cardinality = record {
    extract = λ args.
        parsed (canonical spec) (cardinality.parse (values_at (canonical spec) args.options));
    parameters = option spec ∷ [];
  }

  -- `argument`
  unfoldable pub argument : Word → Cardinality V → Extractor V
  argument name cardinality = record {
    extract = λ args. parsed name (cardinality.parse (values_at name args.arguments));
    parameters =
        positional (record {
          name = name;
          variadic = cardinality.repeatable;
          required = cardinality.required;
        })
        ∷ [];
  }

abbrev pub is_one_of : Word → List Word → Bool
is_one_of word [] = false
is_one_of word (w ∷ words) = (word == w) || is_one_of word words

-- `parse_boolean`. The words have only letters that no letter outside ASCII is the upper case of.
unfoldable pub parse_boolean : Word → Result Raised Bool
parse_boolean text =
    let lowered = lower (strip_text text) in
    if is_one_of lowered (bytes "1" ∷ bytes "true" ∷ bytes "yes" ∷ bytes "on" ∷ [])
    then ok true
    else (if is_one_of lowered (bytes "0" ∷ bytes "false" ∷ bytes "no" ∷ bytes "off" ∷ [])
        then ok false
        else err value_error)

-- The last of values, where there is one.
abbrev pub last_value : List Word → Option Word
last_value [] = none
last_value (value ∷ values) = elim values [ [] ↦ some value | _ ∷ _ ↦ last_value values ]

-- `flag`
unfoldable pub flag : CliOption → Extractor Bool
flag spec = record {
  extract = λ args. elim (last_value (values_at (canonical spec) args.options)) [
    | none ↦ ok false
    | some value ↦ parsed (canonical spec) (parse_boolean value)
  ];
  parameters = option spec ∷ [];
}
