-- ===== src/Cli/Declarations/Spellings.antt =====
-- The spellings of options that the check accepts.
use without.Prelude.{
  ◌≡◌, refl, subst, true, false, ◌||◌, Bool-cases, Option, Option-cases, none, some, List, [], ◌∷◌,
  ◌++◌, All, inl, inr, arith,
}
use without.Prelude.Eq.{◌==◌}
use without.Asgi.Bytes.{bytes, bytes_key, starts_with}
use without.Cli.{Word}
use without.Cli.Tokens.{CliOption, names, canonical, long_name}
use without.Cli.Declarations.{among, repeated, spellings, option_spellings}
use without.Cli.Binding.Merged.{IsDistinct}

pub repeated-cons :
    (word : Word) (words : List Word)
    → repeated (word ∷ words) ≡ none
    → (among word words ≡ false) × (repeated words ≡ none)
unfolding repeated
repeated-cons word words h = elim (Bool-cases (among word words)) [
  | inl again ↦ absurd (cc (rw again at h))
  | inr once ↦ (once, rw once at h)
]

among-append :
    (word : Word) (xs ys : List Word) → among word (xs ++ ys) ≡ (among word xs || among word ys)
among-append word [] ys = refl
among-append word (x ∷ xs) ys = ground (arith, among-append word xs ys)

repeated-append :
    (xs ys : List Word)
    → repeated (xs ++ ys) ≡ none
    → ((word : Word) → among word xs ≡ true → among word ys ≡ false) × (repeated ys ≡ none)
repeated-append [] ys h = (λ word m. absurd (cc m), h)
repeated-append (x ∷ xs) ys h =
    let (once, more) = repeated-cons x (xs ++ ys) h in
    let (apart, rest) = repeated-append xs ys more in
    (
      λ word m. elim (Bool-cases (x == word)) [
        | inl same ↦
            subst (λ w. among w ys ≡ false) ((bytes_key.beq_iff x word).0 same)
              (ground (arith, once, among-append x xs ys))
        | inr other ↦ apart word (ground (arith, m, other))
      ],
      rest,
    )

long_name-among : (ns : List Word) (name : Word) → long_name ns ≡ some name → among name ns ≡ true
unfolding long_name
long_name-among [] name h = absurd (cc h)
long_name-among (n ∷ ns) name h = elim (Bool-cases (starts_with (bytes "--") n)) [
  | inl long ↦ ground (arith, (bytes_key.beq_iff n name).1 (cc (rw long at h)))
  | inr short ↦ ground (arith, long_name-among ns name (rw short at h))
]

chosen-among :
    (o : CliOption) (found : Option Word)
    → long_name (names o) ≡ found
    → among (elim found [ none ↦ o.first_name | some name ↦ name ]) (names o) ≡ true
chosen-among o none h = ground (arith, (bytes_key.beq_iff o.first_name o.first_name).1 refl)
chosen-among o (some name) h = long_name-among (names o) name h

canonical-among : (o : CliOption) → among (canonical o) (names o) ≡ true
unfolding canonical
canonical-among o = chosen-among o (long_name (names o)) refl

apart-canonical :
    (word : Word) (os : List CliOption)
    → among word (spellings os) ≡ false
    → All (λ p. (canonical p == word) ≡ false) os
unfolding spellings
apart-canonical word [] h = tt
apart-canonical word (o ∷ os) h =
    let split = among-append word (names o) (spellings os) in
    (
      elim (Bool-cases (canonical o == word)) [
        | inr other ↦ other
        | inl same ↦
            let there : among word (names o) ≡ true =
              subst (λ w. among w (names o) ≡ true) ((bytes_key.beq_iff (canonical o) word).0 same)
                (canonical-among o) in
            absurd (ground (arith, h, split, there))
      ],
      apart-canonical word os (ground (arith, h, split)),
    )

spellings-IsDistinct : (os : List CliOption) → repeated (spellings os) ≡ none → IsDistinct os
unfolding spellings
spellings-IsDistinct [] h = tt
spellings-IsDistinct (o ∷ os) h =
    let (apart, rest) = repeated-append (names o) (spellings os) h in
    (
      apart-canonical (canonical o) os (apart (canonical o) (canonical-among o)),
      spellings-IsDistinct os rest,
    )

-- Words of which no two are the same.
abbrev pub AreApart : List Word → Type 0
AreApart [] = Unit
AreApart (word ∷ words) = (among word words ≡ false) × AreApart words

-- Options of which no two share a spelling, aliases included, and none has the same one twice.
abbrev pub ShareNone : List CliOption → Type 0
ShareNone [] = Unit
ShareNone (o ∷ os) =
    AreApart (o.first_name ∷ o.other_names)
    × All
        (λ p.
          (word : Word)
          → among word (o.first_name ∷ o.other_names) ≡ true
          → among word (p.first_name ∷ p.other_names) ≡ false)
        os
    × ShareNone os

repeated-AreApart : (xs ys : List Word) → repeated (xs ++ ys) ≡ none → AreApart xs
repeated-AreApart [] ys h = tt
repeated-AreApart (x ∷ xs) ys h =
    let (once, more) = repeated-cons x (xs ++ ys) h in
    (ground (arith, once, among-append x xs ys), repeated-AreApart xs ys more)

unshared :
    (words : List Word) (os : List CliOption)
    → ((word : Word) → among word words ≡ true → among word (spellings os) ≡ false)
    → All (λ p. (word : Word) → among word words ≡ true → among word (names p) ≡ false) os
unfolding spellings
unshared words [] h = tt
unshared words (o ∷ os) h = (
  λ word m. ground (arith, h word m, among-append word (names o) (spellings os)),
  unshared words os
      (λ word m. ground (arith, h word m, among-append word (names o) (spellings os))),
)

spellings-ShareNone : (os : List CliOption) → repeated (spellings os) ≡ none → ShareNone os
unfolding spellings
spellings-ShareNone [] h = tt
spellings-ShareNone (o ∷ os) h =
    let (apart, rest) = repeated-append (names o) (spellings os) h in
    (
      repeated-AreApart (names o) (spellings os) h,
      unshared (names o) os apart,
      spellings-ShareNone os rest,
    )

pub spellings-accepted :
    (os : List CliOption) → option_spellings os ≡ none → ShareNone os × IsDistinct os
unfolding option_spellings
spellings-accepted os h = elim (Option-cases (repeated (spellings os))) [
  | inl fine ↦ (spellings-ShareNone os fine, spellings-IsDistinct os fine)
  | inr (name, twice) ↦ absurd (cc (rw (twice, option_spellings) at h))
]
