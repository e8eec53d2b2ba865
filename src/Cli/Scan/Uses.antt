-- ===== src/Cli/Scan/Uses.antt =====
-- Uses of options on a command line, and what is recorded of them.
use without.Prelude.{
  ℕ, ◌≡◌, ◌≢◌, refl, sym, ap, ◌∙◌, Bool, true, false, Bool-cases, inl, inr, ◌⊎◌, Option, none, some,
  List, [], ◌∷◌, ◌++◌, nat_eq, if◌then◌else◌, append_assoc, append-nil,
}
use without.Prelude.Eq.{◌==◌}
use without.Prelude.Dict
use without.Prelude.Dict.{Dict}
use without.Asgi.Bytes.{bytes_key}
use without.Cli.{Word}
use without.Cli.Tokens.{CliOption, canonical, present}
use without.Cli.Scan.{record_value, is_answered}
use without.Cli.Binding.Merged.{some_of}

-- What stands on a command line before `--`: a use of an option under a long name, of which the part
-- after the dashes is given, with its value, if it takes one, in the same token or in the next; or a
-- bare token.
pub data Use : Type 0 where
  flagged : (name : Word) → CliOption → Use
  valued spaced : (name : Word) → CliOption → (value : Word) → Use
  plain : Word → Use

abbrev pub long : Word → Word
long name = 45 ∷ 45 ∷ name

-- The first token of a use: `--name`, `--name=value` or the bare one.
abbrev pub token_of : Use → Word
token_of (flagged name o) = long name
token_of (valued name o value) = long (name ++ 61 ∷ value)
token_of (spaced name o value) = long name
token_of (plain word) = word

-- The tokens of uses, and those that follow.
abbrev pub written : List Use → List Word → List Word
written [] rest = rest
written (flagged name o ∷ uses) rest = long name ∷ written uses rest
written (valued name o value ∷ uses) rest = long (name ++ 61 ∷ value) ∷ written uses rest
written (spaced name o value ∷ uses) rest = long name ∷ value ∷ written uses rest
written (plain word ∷ uses) rest = word ∷ written uses rest

-- The values that uses give to the option of a name, in their order.
abbrev pub values_of : Word → List Use → List Word
values_of key [] = []
values_of key (flagged name o ∷ uses) =
    if canonical o == key then present ∷ values_of key uses else values_of key uses
values_of key (valued name o value ∷ uses) =
    if canonical o == key then value ∷ values_of key uses else values_of key uses
values_of key (spaced name o value ∷ uses) =
    if canonical o == key then value ∷ values_of key uses else values_of key uses
values_of key (plain word ∷ uses) = values_of key uses

-- The bare tokens among them.
abbrev pub plains : List Use → List Word
plains [] = []
plains (plain word ∷ uses) = word ∷ plains uses
plains (_ ∷ uses) = plains uses

-- Whether a character does not stand in a word.
abbrev pub lacks : ℕ → Word → Bool
lacks c [] = true
lacks c (d ∷ word) = if nat_eq d c then false else lacks c word

-- A name that is not empty and has no `=`.
abbrev pub IsName : Word → Type 0
IsName name = (name ≢ []) × (lacks 61 name ≡ true)

-- A token that does not start with a dash, or is one.
abbrev pub IsPlain : Word → Type 0
IsPlain [] = Unit
IsPlain (c ∷ word) = (c ≢ 45) ⊎ (word ≡ [])

-- An option's name, and none of those that are answered.
abbrev pub IsOption : Dict Word CliOption → List Word → Word → CliOption → Word → Type 0
IsOption by_name answers name o token =
    IsName name
    × (Dict.get (long name) by_name ≡ some o)
    × (is_answered by_name answers token ≡ false)

abbrev pub IsUse : Dict Word CliOption → List Word → Use → Type 0
IsUse by_name answers (flagged name o) =
    IsOption by_name answers name o (long name) × (o.metavar ≡ none)
IsUse by_name answers (valued name o value) =
    IsOption by_name answers name o (long (name ++ 61 ∷ value))
    × ((m : Word) × (o.metavar ≡ some m))
IsUse by_name answers (spaced name o value) =
    IsOption by_name answers name o (long name) × ((m : Word) × (o.metavar ≡ some m))
IsUse by_name answers (plain word) = IsPlain word

-- What a use records.
unfoldable pub record_use : Use → Dict Word (List Word) → Dict Word (List Word)
record_use (flagged name o) options = record_value o present options
record_use (valued name o value) options = record_value o value options
record_use (spaced name o value) options = record_value o value options
record_use (plain word) options = options

unfoldable pub recorded : List Use → Dict Word (List Word) → Dict Word (List Word)
recorded [] options = options
recorded (u ∷ uses) options = recorded uses (record_use u options)

-- What stands under a name when values are added there.
abbrev added : Option (List Word) → List Word → Option (List Word)
added none values = some_of values
added (some before) values = some (before ++ values)

added-cons :
    (before : Option (List Word)) (value : Word) (values : List Word)
    → added (added before (value ∷ [])) values ≡ added before (value ∷ values)
added-cons none value values = refl
added-cons (some before) value values = ap some (append_assoc before (value ∷ []) values)

extended :
    (value : Word) (before : Option (List Word))
    → ◌≡◌ {A = Option (List Word)}
        (some (elim before as (λ _. List Word) [
          | none ↦ value ∷ []
          | some values ↦ values ++ value ∷ []
        ]))
        (added before (value ∷ []))
extended value none = refl
extended value (some values) = refl

record_value-get :
    (o : CliOption) (value key : Word) (options : Dict Word (List Word))
    → Dict.get key (record_value o value options) ≡ (
        if canonical o == key
        then added (Dict.get key options) (value ∷ [])
        else Dict.get key options)
unfolding record_value
record_value-get o value key options =
    let put =
      Dict.get-put (canonical o) key
        (elim (Dict.get (canonical o) options) as (λ _. List Word) [
          | none ↦ value ∷ []
          | some values ↦ values ++ value ∷ []
        ])
        options in
    elim (Bool-cases (canonical o == key)) [
      | inr other ↦ rw other (rw other at put)
      | inl same ↦ rw same (
          (rw same at put)
          ∙ extended value (Dict.get (canonical o) options)
          ∙ ap (λ k. added (Dict.get k options) (value ∷ []))
              ((bytes_key.beq_iff (canonical o) key).0 same))
    ]

-- A use's value comes before those of the uses after it.
added_first :
    (same : Bool) (before : Option (List Word)) (value : Word) (values : List Word)
    → added (if same then added before (value ∷ []) else before) values
      ≡ added before (if same then value ∷ values else values)
added_first true before value values = added-cons before value values
added_first false before value values = refl

recorded_value :
    (o : CliOption) (value key : Word) (uses : List Use) (options : Dict Word (List Word))
    → Dict.get key (recorded uses (record_value o value options))
      ≡ added (Dict.get key (record_value o value options)) (values_of key uses)
    → Dict.get key (recorded uses (record_value o value options))
      ≡ added
          (Dict.get key options)
          (if canonical o == key then value ∷ values_of key uses else values_of key uses)
recorded_value o value key uses options h =
    h
    ∙ ap (λ b. added b (values_of key uses)) (record_value-get o value key options)
    ∙ added_first (canonical o == key) (Dict.get key options) value (values_of key uses)

added-nil : (before : Option (List Word)) → before ≡ added before []
added-nil none = refl
added-nil (some before) = ap some (sym (append-nil before))

recorded-added :
    (uses : List Use) (key : Word) (options : Dict Word (List Word))
    → Dict.get key (recorded uses options) ≡ added (Dict.get key options) (values_of key uses)
unfolding recorded record_use
recorded-added [] key options = added-nil (Dict.get key options)
recorded-added (flagged name o ∷ uses) key options =
    recorded_value o present key uses options
      (recorded-added uses key (record_value o present options))
recorded-added (valued name o value ∷ uses) key options =
    recorded_value o value key uses options (recorded-added uses key (record_value o value options))
recorded-added (spaced name o value ∷ uses) key options =
    recorded_value o value key uses options (recorded-added uses key (record_value o value options))
recorded-added (plain word ∷ uses) key options = recorded-added uses key options

-- Under each name stand the values that the uses give it, and nothing where they give none.
pub recorded-get :
    (uses : List Use) (key : Word) → Dict.get key (recorded uses []) ≡ some_of (values_of key uses)
unfolding Dict.get
recorded-get uses key = recorded-added uses key []
