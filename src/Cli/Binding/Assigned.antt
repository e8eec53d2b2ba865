-- ===== src/Cli/Binding/Assigned.antt =====
-- The bare tokens that the positionals take.
use without.Prelude.{
  ◌≤◌, ◌<◌, ◌≡◌, refl, sym, ap, subst, ◌∙◌, true, false, Bool-cases, Option, none, some, List, [],
  ◌∷◌, ◌++◌, ◌⊎◌, inl, inr, All, length, Result, ok, err, arith, append-nil, length-append, ◌≢◌,
}
use without.Prelude.Eq.{◌==◌}
use without.Prelude.Dict
use without.Prelude.Dict.{Dict}
use without.Asgi.Bytes.{bytes_key}
use without.Cli.{Word}
use without.Cli.Tokens.{Positional}
use without.Cli.Scan.{Message, unexpected_argument}
use without.Cli.Binding.{assigned_into, assigned}

-- Positionals with names of their own, the last of which alone may take all that is left.
abbrev pub IsDeclared : List Positional → Type 0
IsDeclared [] = Unit
IsDeclared (p ∷ ps) =
    ((p.variadic ≡ false) ⊎ (ps ≡ [])) × All (λ r. (p.name == r.name) ≡ false) ps × IsDeclared ps

-- What a positional was handed.
abbrev pub tokens_of : Positional → Dict Word (List Word) → List Word
tokens_of p d = elim (Dict.get p.name d) as (λ _. List Word) [ none ↦ [] | some tokens ↦ tokens ]

-- What the positionals were handed, in their order.
abbrev pub handed : List Positional → Dict Word (List Word) → List Word
handed [] d = []
handed (p ∷ ps) d = tokens_of p d ++ handed ps d

-- Each positional that is not variadic has one token at most, and one has none only if none after it has.
abbrev pub FillsInTurn : List Positional → Dict Word (List Word) → Type 0
FillsInTurn [] d = Unit
FillsInTurn (p ∷ ps) d =
    ((p.variadic ≡ true) ⊎ (length (tokens_of p d) ≤ 1))
    × ((0 < length (tokens_of p d)) ⊎ (handed ps d ≡ []))
    × FillsInTurn ps d

-- The tokens that were handed out, in turn, or the first that was left over, where none of the
-- positionals is variadic.
abbrev pub Shared : List Positional → List Word → Result Message (Dict Word (List Word)) → Type 0
Shared specs tokens r =
    ((d : Dict Word (List Word)) × (r ≡ ok d) × (handed specs d ≡ tokens) × FillsInTurn specs d)
    ⊎ ((token : Word) × (front rest : List Word) × (r ≡ err (unexpected_argument token))
        × (tokens ≡ front ++ token ∷ rest)
        × (length front ≡ length specs)
        × All (λ p. p.variadic ≡ false) specs)

abbrev Absent : List Positional → Dict Word (List Word) → Type 0
Absent specs d = All (λ r. Dict.get r.name d ≡ none) specs

put-Absent :
    (name : Word) (tokens : List Word) (specs : List Positional) (d : Dict Word (List Word))
    → All (λ r. (name == r.name) ≡ false) specs
    → Absent specs d
    → Absent specs (Dict.put name tokens d)
put-Absent name tokens [] d apart absent = tt
put-Absent name tokens (p ∷ ps) d (other, apart) (none_here, absent) = (
  Dict.get-put name p.name tokens d ∙ rw other none_here,
  put-Absent name tokens ps d apart absent,
)

-- As `Shared`, from what was handed out before, which other keys keep.
abbrev SharedFrom :
    List Positional
    → List Word
    → Dict Word (List Word)
    → Result Message (Dict Word (List Word))
    → Type 0
SharedFrom specs tokens d r =
    ((d' : Dict Word (List Word)) × (r ≡ ok d')
      × (handed specs d' ≡ tokens)
      × FillsInTurn specs d'
      × ((key : Word)
          → All (λ p. (key == p.name) ≡ false) specs
          → Dict.get key d' ≡ Dict.get key d))
    ⊎ ((token : Word) × (front rest : List Word) × (r ≡ err (unexpected_argument token))
        × (tokens ≡ front ++ token ∷ rest)
        × (length front ≡ length specs)
        × All (λ p. p.variadic ≡ false) specs)

not_nil : (front rest : List Word) (token : Word) → [] ≢ front ++ token ∷ rest
not_nil front rest token h = absurd (omega (arith, ap length h, length-append front (token ∷ rest)))

swapped : (a b : Word) → (a == b) ≡ false → (b == a) ≡ false
swapped a b h = ground (arith, h, bytes_key.beq_iff a b, bytes_key.beq_iff b a)

handed-cons :
    (p : Positional) (ps : List Positional) (d : Dict Word (List Word)) (own : Option (List Word))
    → Dict.get p.name d ≡ own
    → handed (p ∷ ps) d
      ≡ (elim own as (λ _. List Word) [ none ↦ [] | some tokens ↦ tokens ]) ++ handed ps d
handed-cons p ps d own h =
    ap (λ o. (elim o as (λ _. List Word) [ none ↦ [] | some tokens ↦ tokens ]) ++ handed ps d) h

tokens-most :
    (p : Positional) (d : Dict Word (List Word)) (own : Option (List Word))
    → Dict.get p.name d ≡ own
    → length (elim own as (λ _. List Word) [ none ↦ [] | some tokens ↦ tokens ]) ≤ 1
    → length (tokens_of p d) ≤ 1
tokens-most p d own h most =
    subst (λ o. length (elim o as (λ _. List Word) [ none ↦ [] | some tokens ↦ tokens ]) ≤ 1)
      (sym h) most

tokens-some :
    (p : Positional) (d : Dict Word (List Word)) (token : Word)
    → Dict.get p.name d ≡ some (token ∷ [])
    → 0 < length (tokens_of p d)
tokens-some p d token h =
    subst (λ o. 0 < length (elim o as (λ _. List Word) [ none ↦ [] | some tokens ↦ tokens ]))
      (sym h) (omega arith)

empty-Absent : (specs : List Positional) → Absent specs []
unfolding Dict.get
empty-Absent [] = tt
empty-Absent (p ∷ ps) = (refl, empty-Absent ps)

-- A variadic positional, which is the last, takes what is left.
shared_last :
    (p : Positional) (ps : List Positional) (tokens : List Word) (d : Dict Word (List Word))
    → p.variadic ≡ true
    → ps ≡ []
    → SharedFrom (p ∷ ps) tokens d (assigned_into ps [] (Dict.put p.name tokens d))
unfolding assigned_into
shared_last p (q ∷ ps) tokens d all e = absurd (cc e)
shared_last p [] tokens d all e =
    let own : Dict.get p.name (Dict.put p.name tokens d) ≡ some tokens =
      Dict.get-put p.name p.name tokens d ∙ rw ((bytes_key.beq_iff p.name p.name).1 refl) refl in
    inl (
      Dict.put p.name tokens d,
      refl,
      handed-cons p [] (Dict.put p.name tokens d) (some tokens) own ∙ append-nil tokens,
      (inl all, inr refl, tt),
      λ key (other, _). Dict.get-put p.name key tokens d ∙ rw (swapped key p.name other) refl,
    )

-- Any other takes one, where there is one.
shared_one :
    (p : Positional) (ps : List Positional) (tokens : List Word) (d : Dict Word (List Word))
    → p.variadic ≡ false
    → All (λ r. (p.name == r.name) ≡ false) ps
    → Dict.get p.name d ≡ none
    → ((d' : Dict Word (List Word)) (rest : List Word)
        → Absent ps d'
        → SharedFrom ps rest d' (assigned_into ps rest d'))
    → Absent ps d
    → SharedFrom (p ∷ ps) tokens d (elim tokens as (λ _. Result Message (Dict Word (List Word))) [
      | [] ↦ assigned_into ps [] d
      | token ∷ rest ↦ assigned_into ps rest (Dict.put p.name (token ∷ []) d)
    ])
shared_one p ps [] d one apart none_here more absent = elim (more d [] absent) [
  | inl (d', made, same, fills, keeps) ↦ inl (
    d',
    made,
    handed-cons p ps d' none (keeps p.name apart ∙ none_here) ∙ same,
    (inr (tokens-most p d' none (keeps p.name apart ∙ none_here) (omega arith)), inr same, fills),
    λ key (_, others). keeps key others,
  )
  | inr (token, front, rest, _, e, _, _) ↦ absurd (not_nil front rest token e)
]
shared_one p ps (token ∷ tokens) d one apart none_here more absent =
    let own : Dict.get p.name (Dict.put p.name (token ∷ []) d) ≡ some (token ∷ []) =
      Dict.get-put p.name p.name (token ∷ []) d
      ∙ rw ((bytes_key.beq_iff p.name p.name).1 refl) refl in
    elim (more (Dict.put p.name (token ∷ []) d) tokens
      (put-Absent p.name (token ∷ []) ps d apart absent)) [
        | inl (d', made, same, fills, keeps) ↦ inl (
          d',
          made,
          handed-cons p ps d' (some (token ∷ [])) (keeps p.name apart ∙ own)
              ∙ ap (λ l. token ∷ l) same,
          (
            inr (tokens-most p d' (some (token ∷ [])) (keeps p.name apart ∙ own) (omega arith)),
            inl (tokens-some p d' token (keeps p.name apart ∙ own)),
            fills,
          ),
          λ key (other, others).
              keeps key others
              ∙ Dict.get-put p.name key (token ∷ []) d
              ∙ rw (swapped key p.name other) refl,
        )
        | inr (left, front, rest, made, e, count, singles) ↦ inr (
          left,
          token ∷ front,
          rest,
          made,
          ap (λ l. token ∷ l) e,
          omega (arith, count),
          (one, singles),
        )
      ]

shared_from :
    (specs : List Positional) (tokens : List Word) (d : Dict Word (List Word))
    → IsDeclared specs
    → Absent specs d
    → SharedFrom specs tokens d (assigned_into specs tokens d)
unfolding assigned_into
shared_from [] [] d declared absent = inl (d, refl, refl, tt, λ key apart. refl)
shared_from [] (token ∷ tokens) d declared absent = inr (token, [], tokens, refl, refl, refl, tt)
shared_from (p ∷ ps) tokens d (last, apart, declared) (none_here, absent) =
    elim (Bool-cases p.variadic) [
      | inl all ↦ elim last [
        | inl single ↦ absurd (cc (sym all ∙ single))
        | inr e ↦
            let takes_all : assigned_into (p ∷ ps) tokens d
                ≡ assigned_into ps [] (Dict.put p.name tokens d) =
              rw all refl in
            subst (SharedFrom (p ∷ ps) tokens d) (sym takes_all) (shared_last p ps tokens d all e)
      ]
      | inr one ↦
          let takes_one : assigned_into (p ∷ ps) tokens d
              ≡ elim tokens as (λ _. Result Message (Dict Word (List Word))) [
                | [] ↦ assigned_into ps [] d
                | token ∷ rest ↦ assigned_into ps rest (Dict.put p.name (token ∷ []) d)
              ] =
            rw one refl in
          subst (SharedFrom (p ∷ ps) tokens d) (sym takes_one) (
            shared_one p ps tokens d one apart none_here
              (λ d' rest a. shared_from ps rest d' declared a) absent)
    ]

-- With positionals of different names, of which the last alone may be variadic, either each bare token
-- is handed to one of them, all in order, one at most to each that is not variadic, and none is
-- passed over; or no positional is variadic, and the first token past as many as there are
-- positionals is refused.
pub assigned-Shared :
    (specs : List Positional) (tokens : List Word)
    → IsDeclared specs
    → Shared specs tokens (assigned specs tokens)
assigned-Shared specs tokens declared =
    elim (shared_from specs tokens [] declared (empty-Absent specs)) [
      | inl (d, made, same, fills, _) ↦ inl (d, made, same, fills)
      | inr refused ↦ inr refused
    ]
