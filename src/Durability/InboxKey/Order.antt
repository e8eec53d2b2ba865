-- ===== src/Durability/InboxKey/Order.antt =====
-- Inbox keys sort in the order of their positions.
use Prim.Native.Char.{Char, code}
use Prim.Native.String as Str
use Prim.Native.String.{[] as nil, ◌∷◌ as cons}
use text.Mathlib.TextLemmas.{nil-append, cons-append}
use native.Mathlib.Decide.{dec_lt}
use native.Mathlib.Nat.{pow-suc}
use without.Prelude.{
  ℕ, zero, suc, ◌+◌, ◌/◌, ◌%◌, ◌^◌, ◌<◌, String, ◌≡◌, refl, subst, ◌⊎◌, inl, inr, lt→ltb, arith,
}
use without.Durability.InboxKey.{digit, padded, width_from, inbox_digits, inbox_key}

-- Python's `<` of texts: by code points, from the left.
abbrev pub Before : String → String → Type 0
Before nil nil = ⊥
Before nil (cons d t) = Unit
Before (cons c s) nil = ⊥
Before (cons c s) (cons d t) = (code c < code d) ⊎ ((code c ≡ code d) × Before s t)

pub not-Before_self : (s : String) → Before s s → ⊥
not-Before_self nil h = h
not-Before_self (cons c s) (inl h) = omega arith
not-Before_self (cons c s) (inr h) = not-Before_self s h.1

abbrev SameLength : String → String → Type 0
SameLength nil nil = Unit
SameLength nil (cons d t) = ⊥
SameLength (cons c s) nil = ⊥
SameLength (cons c s) (cons d t) = SameLength s t

SameLength-append :
    (s t : String) (c d : Char)
    → SameLength s t
    → SameLength (Str.◌++◌ s (cons c nil)) (Str.◌++◌ t (cons d nil))
SameLength-append nil nil c d h = rw nil-append (rw nil-append tt)
SameLength-append nil (cons y t) c d h = absurd h
SameLength-append (cons x s) nil c d h = absurd h
SameLength-append (cons x s) (cons y t) c d h =
    rw cons-append (rw cons-append (SameLength-append s t c d h))

Before-append :
    (s t : String) (c d : Char)
    → SameLength s t
    → Before s t
    → Before (Str.◌++◌ s (cons c nil)) (Str.◌++◌ t (cons d nil))
Before-append nil nil c d same h = absurd h
Before-append nil (cons y t) c d same h = absurd same
Before-append (cons x s) nil c d same h = absurd h
Before-append (cons x s) (cons y t) c d same (inl h) = rw cons-append (rw cons-append (inl h))
Before-append (cons x s) (cons y t) c d same (inr h) =
    rw cons-append (rw cons-append (inr (h.0, Before-append s t c d same h.1)))

Before-append_left : (p s t : String) → Before s t → Before (Str.◌++◌ p s) (Str.◌++◌ p t)
Before-append_left nil s t h = rw nil-append (rw nil-append h)
Before-append_left (cons c p) s t h =
    rw cons-append (rw cons-append (inr (refl, Before-append_left p s t h)))

code-digit : (n : ℕ) → n < 10 → code (digit n) ≡ 48 + n
code-digit zero h = refl
code-digit (suc zero) h = refl
code-digit (suc (suc zero)) h = refl
code-digit (suc (suc (suc zero))) h = refl
code-digit (suc (suc (suc (suc zero)))) h = refl
code-digit (suc (suc (suc (suc (suc zero))))) h = refl
code-digit (suc (suc (suc (suc (suc (suc zero)))))) h = refl
code-digit (suc (suc (suc (suc (suc (suc (suc zero))))))) h = refl
code-digit (suc (suc (suc (suc (suc (suc (suc (suc zero)))))))) h = refl
code-digit (suc (suc (suc (suc (suc (suc (suc (suc (suc zero))))))))) h = refl
code-digit (suc (suc (suc (suc (suc (suc (suc (suc (suc (suc n)))))))))) h = absurd (omega arith)

digit-lt : (a b : ℕ) → a < b → b < 10 → code (digit a) < code (digit b)
digit-lt a b h k = omega (arith, code-digit a (omega arith), code-digit b k)

padded-SameLength : (w a b : ℕ) → SameLength (padded w a) (padded w b)
unfolding padded
padded-SameLength zero a b = tt
padded-SameLength (suc w) a b =
    SameLength-append (padded w (a / 10)) (padded w (b / 10)) (digit (a % 10)) (digit (b % 10))
      (padded-SameLength w (a / 10) (b / 10))

padded-Before : (w a b : ℕ) → a < b → b < 10 ^ w → Before (padded w a) (padded w b)
unfolding padded
padded-Before zero a b h k = absurd (omega arith)
padded-Before (suc w) a b h k = elim (dec_lt (a / 10) (b / 10)) [
  | yes p ↦
      Before-append (padded w (a / 10)) (padded w (b / 10)) (digit (a % 10)) (digit (b % 10))
        (padded-SameLength w (a / 10) (b / 10))
        (padded-Before w (a / 10) (b / 10) p (omega (arith, pow-suc 10 w)))
  | no p ↦
      let same : a / 10 ≡ b / 10 = omega arith in
      rw same (
        Before-append_left (padded w (b / 10)) (cons (digit (a % 10)) nil)
          (cons (digit (b % 10)) nil)
          (inl (digit-lt (a % 10) (b % 10) (omega arith) (omega arith))))
]

width_of_small : (n : ℕ) → n < 10 ^ 20 → width_from n inbox_digits n ≡ 20
width_of_small zero h = refl
width_of_small (suc n) h = rw (lt→ltb (suc n) (10 ^ 20) h)

-- Below 10 ^ 20, inbox keys sort as text in the order of their positions.
pub inbox_key-Before :
    (a b : ℕ) → a < b → b < 10 ^ inbox_digits → Before (inbox_key a) (inbox_key b)
unfolding inbox_key
inbox_key-Before a b h k =
    rw (width_of_small a (omega arith), width_of_small b k)
      (Before-append_left "inbox:" (padded 20 a) (padded 20 b) (padded-Before 20 a b h k))

-- Below 10 ^ 20, no two positions share a key.
pub inbox_key-injective :
    (a b : ℕ) → a < 10 ^ inbox_digits → b < 10 ^ inbox_digits → inbox_key a ≡ inbox_key b → a ≡ b
inbox_key-injective a b h k e = elim (dec_lt a b) [
  | yes p ↦ absurd (
      not-Before_self (inbox_key b)
        (subst (λ s. Before s (inbox_key b)) e (inbox_key-Before a b p k)))
  | no p ↦ elim (dec_lt b a) [
    | yes q ↦
        absurd (
          not-Before_self (inbox_key b) (subst (Before (inbox_key b)) e (inbox_key-Before b a q h)))
    | no q ↦ omega arith
  ]
]
