-- ===== src/Cli/Declarations/Accepted.antt =====
-- Declarations that the checks accept.
mod Samples
use without.Prelude.{
  ℕ, suc, ◌≡◌, refl, sym, ap, subst, Bool, false, not, Bool-cases, Option, Option-cases, none, some,
  List, [], ◌∷◌, map, length, All, inl, inr, ◌⊎◌, ltb, nat_eq, ◌<◌, ◌-◌, arith,
}
use without.Prelude.Eq.{◌==◌}
use without.Asgi.Bytes.{bytes, bytes_key}
use without.Cli.{Word}
use without.Cli.Tokens.{names, Positional, Parameter, options_of, positionals_of}
use without.Cli.Declarations.{
  among, repeated, variadic_count, first_variadic, required_after, positional_layout, spellings,
  command_refused,
}
use without.Cli.Binding.Merged.{IsDistinct}
use without.Cli.Binding.Assigned.{IsDeclared}
use without.Cli.Declarations.Spellings.{repeated-cons, ShareNone, spellings-accepted}

apart-names :
    (word : Word) (ps : List Positional)
    → among word (map (λ p. p.name) ps) ≡ false
    → All (λ r. (word == r.name) ≡ false) ps
apart-names word [] h = tt
apart-names word (p ∷ ps) h = (
  ground (arith, h, bytes_key.beq_iff word p.name, bytes_key.beq_iff p.name word),
  apart-names word ps (ground (arith, h)),
)

-- A variadic positional that is the first of them and stands last.
abbrev IsLast : List Positional → Option ℕ → Type 0
IsLast ps none = Unit
IsLast ps (some index) = suc index ≡ length ps

length-zero : (ps : List Positional) → length ps ≡ 0 → ps ≡ []
length-zero [] h = refl
length-zero (p ∷ ps) h = absurd (omega (arith, h))

later :
    (p : Positional) (ps : List Positional) (index : Option ℕ)
    → IsLast (p ∷ ps) (elim index [ none ↦ none | some index ↦ some (suc index) ])
    → IsLast ps index
later p ps none h = tt
later p ps (some index) h = omega (arith, h)

layout-IsDeclared :
    (ps : List Positional)
    → IsLast ps (first_variadic ps)
    → repeated (map (λ p. p.name) ps) ≡ none
    → IsDeclared ps
unfolding first_variadic
layout-IsDeclared [] last h = tt
layout-IsDeclared (p ∷ ps) last h =
    let (once, rest) = repeated-cons p.name (map (λ p. p.name) ps) h in
    elim (Bool-cases p.variadic) [
      | inl all ↦
          let e : suc 0 ≡ suc (length ps) = rw all at last in
          let none_left : ps ≡ [] = length-zero ps (omega (arith, e)) in
          (inr none_left, apart-names p.name ps once, subst IsDeclared (sym none_left) tt)
      | inr one ↦ (
        inl one,
        apart-names p.name ps once,
        layout-IsDeclared ps (later p ps (first_variadic ps) (rw one at last)) rest,
      )
    ]

IsLast-tested :
    (ps : List Positional) (index : Option ℕ)
    → (elim index [ none ↦ false | some index ↦ not (nat_eq index (length ps - 1)) ]) ≡ false
    → (index ≡ none) ⊎ (0 < length ps)
    → IsLast ps index
IsLast-tested ps none h some_of_them = tt
IsLast-tested ps (some index) h (inl e) = absurd (cc e)
IsLast-tested ps (some index) h (inr more) = ground (arith, h, more)

first_variadic-nonempty : (ps : List Positional) → (first_variadic ps ≡ none) ⊎ (0 < length ps)
unfolding first_variadic
first_variadic-nonempty [] = inl refl
first_variadic-nonempty (p ∷ ps) = inr (omega arith)

layout-accepted : (ps : List Positional) → positional_layout ps ≡ none → IsDeclared ps
unfolding positional_layout
layout-accepted ps h = elim (Bool-cases (ltb 1 (variadic_count ps))) [
  | inl many ↦ absurd (cc (rw many at h))
  | inr few ↦
      let misplaced : Bool = elim (first_variadic ps) [
        | none ↦ false
        | some index ↦ not (nat_eq index (length ps - 1))
      ] in
      elim (Bool-cases misplaced) [
        | inl bad ↦ absurd (cc (rw bad at (rw few at h)))
        | inr good ↦ elim (Bool-cases (required_after false ps)) [
          | inl required ↦ absurd (cc (rw required at (rw good at (rw few at h))))
          | inr ordered ↦ elim (Option-cases (repeated (map (λ p. p.name) ps))) [
            | inr (name, twice) ↦
                absurd (cc (rw twice at (rw ordered at (rw good at (rw few at h)))))
            | inl apart ↦
                layout-IsDeclared ps
                  (IsLast-tested ps (first_variadic ps) good (first_variadic-nonempty ps)) apart
          ]
        ]
      ]
]

-- A command whose declaration is accepted has options of which no two share a spelling, aliases
-- included, and none has one twice; the names that their values are stored under are different; and
-- its positionals have different names, of which the last alone may be variadic.
pub command-accepted :
    (parameters : List Parameter)
    → command_refused parameters ≡ none
    → ShareNone (options_of parameters)
      × IsDistinct (options_of parameters)
      × IsDeclared (positionals_of parameters)
unfolding command_refused
command-accepted parameters h =
    elim (Option-cases (positional_layout (positionals_of parameters))) [
      | inr (e, refused) ↦ absurd (cc (rw (refused, command_refused) at h))
      | inl fine ↦
          let (apart, distinct) =
            spellings-accepted (options_of parameters) (rw (fine, command_refused) at h) in
          (apart, distinct, layout-accepted (positionals_of parameters) fine)
    ]
