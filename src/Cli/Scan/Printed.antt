-- ===== src/Cli/Scan/Printed.antt =====
-- Command lines that are written out from uses of options.
use without.Prelude.{
  Bool-cases, inl, inr, ◌≡◌, ◌≢◌, refl, sym, ap, ◌∙◌, Bool, true, false, Option, none, some, List,
  [], ◌∷◌, ◌++◌, nat_eq, All, arith, append-nil, append_assoc,
}
use without.Prelude.Dict
use without.Prelude.Dict.{Dict}
use without.Asgi.Bytes.{bytes, bytes_key, starts_with}
use without.Cli.{Word}
use without.Cli.Tokens.{CliOption, present}
use without.Cli.Scan.Uses.{
  Use, flagged, valued, spaced, plain, long, written, values_of, plains, lacks, IsName, IsPlain,
  IsUse, record_use, recorded, recorded-get,
}
use without.Cli.Binding.Merged.{some_of}
use without.Cli.Scan.{
  bare_token, scanned, by_name_of, record_value, partition_equals, takes, read_with, read_parts,
  read_option, is_answered, option_token, kind_of, scan_from, scan,
}

partition_equals-none : (word : Word) → lacks 61 word ≡ true → partition_equals word ≡ (word, none)
unfolding partition_equals
partition_equals-none [] h = refl
partition_equals-none (c ∷ word) h =
    let other : nat_eq c 61 ≡ false = ground (arith, h) in
    rw other (ap (λ p. (c ∷ p.0, p.1)) (partition_equals-none word (ground (arith, h))))

partition_equals-some :
    (word value : Word)
    → lacks 61 word ≡ true
    → partition_equals (word ++ 61 ∷ value) ≡ (word, some value)
unfolding partition_equals
partition_equals-some [] value h = refl
partition_equals-some (c ∷ word) value h =
    let other : nat_eq c 61 ≡ false = ground (arith, h) in
    rw other (ap (λ p. (c ∷ p.0, p.1)) (partition_equals-some word value (ground (arith, h))))

longer : (name value : Word) → name ++ 61 ∷ value ≢ []
longer [] value h = absurd (cc h)
longer (c ∷ name) value h = absurd (cc h)

module _ (by_name : Dict Word CliOption) (answers : List Word) where
  kind_of-long :
      (rest : Word)
      → rest ≢ []
      → is_answered by_name answers (long rest) ≡ false
      → kind_of by_name answers false (long rest) ≡ option_token
  unfolding kind_of starts_with
  kind_of-long [] some_name h = absurd (some_name refl)
  kind_of-long (c ∷ rest) some_name h = rw h refl

  read_parts-found :
      (name : Word) (inline next : Option Word) (options : Dict Word (List Word)) (o : CliOption)
      → Dict.get name by_name ≡ some o
      → read_parts by_name (name, inline) next options
        ≡ read_with by_name o.metavar inline name o next options
  unfolding read_parts
  read_parts-found name inline next options o found = rw (found, read_parts) refl

  partition_equals-long :
      (name : Word) (p : Word × Option Word)
      → partition_equals name ≡ p
      → partition_equals (long name) ≡ (long p.0, p.1)
  unfolding partition_equals
  partition_equals-long name p h = ap (λ q. (45 ∷ 45 ∷ q.0, q.1)) h

  -- What a long name is read as, by what its option takes and by what follows.
  read_option-long :
      (name : Word) (o : CliOption) (next : Option Word) (options : Dict Word (List Word))
      → IsName name
      → Dict.get (long name) by_name ≡ some o
      → read_option by_name (long name) next options
        ≡ read_with by_name o.metavar none (long name) o next options
  unfolding read_option starts_with
  read_option-long name o next options (_, no_equals) found =
      ap (λ p. read_parts by_name p next options)
        (partition_equals-long name (name, none) (partition_equals-none name no_equals))
      ∙ read_parts-found (long name) none next options o found

  -- The same with a value after `=`.
  read_option-equals :
      (name value : Word) (o : CliOption) (next : Option Word) (options : Dict Word (List Word))
      → IsName name
      → Dict.get (long name) by_name ≡ some o
      → read_option by_name (long (name ++ 61 ∷ value)) next options
        ≡ read_with by_name o.metavar (some value) (long name) o next options
  unfolding read_option starts_with
  read_option-equals name value o next options (_, no_equals) found =
      ap (λ p. read_parts by_name p next options)
        (partition_equals-long (name ++ 61 ∷ value) (name, some value)
          (partition_equals-some name value no_equals))
      ∙ read_parts-found (long name) (some value) next options o found

  kind_of-plain : (word : Word) → IsPlain word → kind_of by_name answers false word ≡ bare_token
  unfolding kind_of starts_with
  kind_of-plain [] h = refl
  kind_of-plain (c ∷ word) (inl other) =
      let apart : nat_eq 45 c ≡ false = ground (arith, other) in ground (arith, apart)
  kind_of-plain (c ∷ []) (inr e) = elim (Bool-cases (nat_eq c 45)) [
    | inl dash ↦
        let same : c ≡ 45 = ground (arith, dash) in
        ap (λ d. kind_of by_name answers false (d ∷ [])) same
    | inr other ↦ let apart : nat_eq 45 c ≡ false = ground (arith, other) in ground (arith, apart)
  ]
  kind_of-plain (c ∷ d ∷ word) (inr e) = absurd (cc e)

  -- A bare token.
  scan_from-plain :
      (word : Word) (argv : List Word) (options : Dict Word (List Word)) (bare : List Word)
      → kind_of by_name answers false word ≡ bare_token
      → scan_from by_name false answers (word ∷ argv) false options bare
        ≡ scan_from by_name false answers argv false options (bare ++ word ∷ [])
  unfolding scan_from
  scan_from-plain word [] options bare kind = rw (kind, scan_from) refl
  scan_from-plain word (value ∷ argv) options bare kind = rw (kind, scan_from) refl

  -- An option's token that takes the next one.
  scan_from-takes :
      (token value : Word) (argv : List Word) (options options' : Dict Word (List Word))
      (bare : List Word)
      → kind_of by_name answers false token ≡ option_token
      → read_option by_name token (some value) options ≡ takes options' true
      → scan_from by_name false answers (token ∷ value ∷ argv) false options bare
        ≡ scan_from by_name false answers argv false options' bare
  unfolding scan_from
  scan_from-takes token value argv options options' bare kind reads =
      rw (kind, scan_from) (rw (reads, scan_from) refl)

  -- An option's token that does not take the next one.
  scan_from-option :
      (stop : Bool) (token : Word) (argv : List Word) (options options' : Dict Word (List Word))
      (bare : List Word)
      → kind_of by_name answers false token ≡ option_token
      → ((next : Option Word) → read_option by_name token next options ≡ takes options' false)
      → scan_from by_name stop answers (token ∷ argv) false options bare
        ≡ scan_from by_name stop answers argv false options' bare
  unfolding scan_from
  scan_from-option stop token [] options options' bare kind reads =
      rw (kind, scan_from) (rw (reads none, scan_from) refl)
  scan_from-option stop token (value ∷ argv) options options' bare kind reads =
      rw (kind, scan_from) (rw (reads (some value), scan_from) refl)

  -- After `--` every token is bare.
  scan_from-literal :
      (words : List Word) (options : Dict Word (List Word)) (bare : List Word)
      → scan_from by_name false answers words true options bare ≡ scanned options (bare ++ words)
  unfolding scan_from kind_of
  scan_from-literal [] options bare = ap (scanned options) (sym (append-nil bare))
  scan_from-literal (word ∷ []) options bare = refl
  scan_from-literal (word ∷ next ∷ words) options bare =
      scan_from-literal (next ∷ words) options (bare ++ word ∷ [])
      ∙ ap (scanned options) (append_assoc bare (word ∷ []) (next ∷ words))

  scan_from-end :
      (words : List Word) (options : Dict Word (List Word)) (bare : List Word)
      → scan_from by_name false answers (bytes "--" ∷ words) false options bare
        ≡ scanned options (bare ++ words)
  unfolding scan_from kind_of starts_with
  scan_from-end [] options bare = ap (scanned options) (sym (append-nil bare))
  scan_from-end (word ∷ words) options bare = scan_from-literal (word ∷ words) options bare

  scan_from-uses :
      (uses : List Use) (words : List Word) (options : Dict Word (List Word)) (bare : List Word)
      → All (IsUse by_name answers) uses
      → scan_from by_name false answers (written uses (bytes "--" ∷ words)) false options bare
        ≡ scanned (recorded uses options) (bare ++ (plains uses ++ words))
  unfolding recorded record_use read_with
  scan_from-uses [] words options bare h = scan_from-end words options bare
  scan_from-uses (flagged name o ∷ uses) words options bare ((((own, found, free), flag)), h) =
      scan_from-option false (long name) (written uses (bytes "--" ∷ words)) options
        (record_value o present options) bare (kind_of-long name own.0 free)
        (λ next.
          read_option-long name o next options own found
          ∙ ap (λ m. read_with by_name m none (long name) o next options) flag)
      ∙ scan_from-uses uses words (record_value o present options) bare h
  scan_from-uses (valued name o value ∷ uses) words options bare
        (((own, found, free), (m, takes_value)), h) =
      scan_from-option false (long (name ++ 61 ∷ value)) (written uses (bytes "--" ∷ words)) options
        (record_value o value options) bare
        (kind_of-long (name ++ 61 ∷ value) (longer name value) free)
        (λ next.
          read_option-equals name value o next options own found
          ∙ ap (λ k. read_with by_name k (some value) (long name) o next options) takes_value)
      ∙ scan_from-uses uses words (record_value o value options) bare h
  scan_from-uses (spaced name o value ∷ uses) words options bare
        (((own, found, free), (m, takes_value)), h) =
      scan_from-takes (long name) value (written uses (bytes "--" ∷ words)) options
        (record_value o value options) bare (kind_of-long name own.0 free)
        (read_option-long name o (some value) options own found
          ∙ ap (λ k. read_with by_name k none (long name) o (some value) options) takes_value)
      ∙ scan_from-uses uses words (record_value o value options) bare h
  scan_from-uses (plain word ∷ uses) words options bare (is_plain, h) =
      scan_from-plain word (written uses (bytes "--" ∷ words)) options bare
        (kind_of-plain word is_plain)
      ∙ scan_from-uses uses words options (bare ++ word ∷ []) h
      ∙ ap (scanned (recorded uses options)) (append_assoc bare (word ∷ []) (plains uses ++ words))

-- At a level without subcommands, uses of its options under long names, bare tokens among them, then
-- `--` and any words, are scanned to the bare tokens and those words, whatever the words look like,
-- and to options under each of whose names stand the values that the uses give it, in their order, and
-- nothing where they give none.
pub scan-printed :
    (options : List CliOption) (answers : List Word) (uses : List Use) (words : List Word)
    → All (IsUse (by_name_of options []) answers) uses
    → (read : Dict Word (List Word)) × (scan options false answers
          (written uses (bytes "--" ∷ words))
        ≡ scanned read (plains uses ++ words))
      × ((key : Word) → Dict.get key read ≡ some_of (values_of key uses))
unfolding scan
scan-printed options answers uses words h = (
  recorded uses [],
  scan_from-uses (by_name_of options []) answers uses words [] [] h,
  recorded-get uses,
)
