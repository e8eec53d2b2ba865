-- ===== src/Cli/Binding/Merged.antt =====
-- What each option comes to, of the command line and its sources.
use without.Prelude.{
  ◌≡◌, refl, sym, ap, subst, ◌∙◌, true, false, Option, none, some, List, [], ◌∷◌, All, All-mem,
  Memᴰ, if◌then◌else◌, arith,
}
use without.Prelude.Eq.{◌==◌}
use without.Prelude.Dict
use without.Prelude.Dict.{Dict}
use without.Asgi.Bytes.{bytes_key}
use without.Cli.{Word}
use without.Cli.Sources.{from_sources}
use without.Cli.Tokens.{CliOption, canonical}
use without.Cli.Binding.{supplied, merged_into, merged}

-- Options whose values are stored under names of their own.
abbrev pub IsDistinct : List CliOption → Type 0
IsDistinct [] = Unit
IsDistinct (o ∷ os) = All (λ p. (canonical p == canonical o) ≡ false) os × IsDistinct os

-- Values, and nothing where there are none.
abbrev pub some_of : List Word → Option (List Word)
some_of [] = none
some_of (value ∷ values) = some (value ∷ values)

elim_none :
    (given : List Word) (before : Option (List Word))
    → before ≡ none
    → ◌≡◌ {A = Option (List Word)}
        (elim (some_of given) [ none ↦ before | some vs ↦ some vs ])
        (some_of given)
elim_none [] before h = h
elim_none (value ∷ values) before h = refl

swapped : (a b : Word) → (a == b) ≡ false → (b == a) ≡ false
swapped a b h = ground (arith, h, bytes_key.beq_iff a b, bytes_key.beq_iff b a)

supplied-cases :
    (given : Option (List Word)) (sourced : List Word)
    → some_of
        (elim given as (λ _. List Word) [ some (value ∷ values) ↦ value ∷ values | _ ↦ sourced ])
      ≡ elim (elim given as (λ _. List Word) [ none ↦ [] | some values ↦ values ]) [
        | [] ↦ some_of sourced
        | value ∷ values ↦ some (value ∷ values)
      ]
supplied-cases none sourced = refl
supplied-cases (some []) sourced = refl
supplied-cases (some (value ∷ values)) sourced = refl

module _ (occurrences : Dict Word (List Word)) (env files : Dict Word Word) where
  abbrev step : CliOption → Dict Word (List Word) → Dict Word (List Word)
  step o values = elim (supplied o occurrences env files) [
    | [] ↦ values
    | value ∷ more ↦ Dict.put (canonical o) (value ∷ more) values
  ]

  step_with-get :
      (o : CliOption) (given : List Word) (values : Dict Word (List Word)) (key : Word)
      → Dict.get key (elim given as (λ _. Dict Word (List Word)) [
        | [] ↦ values
        | value ∷ more ↦ Dict.put (canonical o) (value ∷ more) values
      ])
        ≡ (if canonical o == key
            then (elim (some_of given) [ none ↦ Dict.get key values | some vs ↦ some vs ])
            else Dict.get key values)
  step_with-get o [] values key = ground arith
  step_with-get o (value ∷ more) values key = Dict.get-put (canonical o) key (value ∷ more) values

  -- A key that none of the options stands for is left.
  merged_into-other :
      (os : List CliOption) (values : Dict Word (List Word)) (key : Word)
      → All (λ p. (canonical p == key) ≡ false) os
      → Dict.get key (merged_into os occurrences env files values) ≡ Dict.get key values
  unfolding merged_into
  merged_into-other [] values key h = refl
  merged_into-other (o ∷ os) values key (other, h) =
      merged_into-other os (step o values) key h
      ∙ step_with-get o (supplied o occurrences env files) values key
      ∙ rw other refl

  merged_into-get :
      (os : List CliOption) (o : CliOption) (values : Dict Word (List Word))
      → IsDistinct os
      → Memᴰ o os
      → Dict.get (canonical o) values ≡ none
      → Dict.get (canonical o) (merged_into os occurrences env files values)
        ≡ some_of (supplied o occurrences env files)
  unfolding merged_into
  merged_into-get [] o values distinct m absent = elim m [ ]
  merged_into-get (p ∷ os) o values (apart, distinct) (Memᴰ.head e) absent =
      let same : (canonical p == canonical o) ≡ true =
        (bytes_key.beq_iff (canonical p) (canonical o)).1 (ap canonical (sym e)) in
      merged_into-other os (step p values) (canonical o)
        (subst (λ x. All (λ q. (canonical q == canonical x) ≡ false) os) (sym e) apart)
      ∙ step_with-get p (supplied p occurrences env files) values (canonical o)
      ∙ rw same (
          elim_none (supplied p occurrences env files) (Dict.get (canonical o) values) absent
          ∙ ap (λ x. some_of (supplied x occurrences env files)) (sym e))
  merged_into-get (p ∷ os) o values (apart, distinct) (Memᴰ.tail m) absent =
      let other : (canonical o == canonical p) ≡ false =
        All-mem (λ q. (canonical q == canonical p) ≡ false) os apart m in
      merged_into-get os o (step p values) distinct m (
        step_with-get p (supplied p occurrences env files) values (canonical o)
        ∙ rw (swapped (canonical o) (canonical p) other) absent)

  -- With the options' names apart, each option has the values that the command line gives, if it gives any, or else
  -- those of its first source that holds one, and none where there is no such source.
  pub merged-get :
      (os : List CliOption) (o : CliOption)
      → IsDistinct os
      → Memᴰ o os
      → Dict.get (canonical o) (merged os occurrences env files)
        ≡ elim (elim (Dict.get (canonical o) occurrences) as (λ _. List Word) [
          | none ↦ []
          | some values ↦ values
        ]) [
          | [] ↦ some_of (from_sources o.sources env files)
          | value ∷ values ↦ some (value ∷ values)
        ]
  unfolding supplied Dict.get
  merged-get os o distinct m =
      merged_into-get os o [] distinct m refl
      ∙ supplied-cases (Dict.get (canonical o) occurrences) (from_sources o.sources env files)
