-- ===== src/Asgi/Sse/Decimal.antt =====
-- The decimal digits of a reconnection time.
use without.Prelude.{
  ℕ, zero, suc, ◌+◌, ◌*◌, ◌-◌, ◌/◌, ◌%◌, ◌≤◌, ◌<◌, ◌≡◌, refl, ◌∙◌, true, false, Bool-cases, [], ◌∷◌,
  ◌++◌, length, length-append, ltb, if◌then◌else◌, inl, inr, arith,
}
use without.Asgi.Bytes.{is_digit, all_digits, int_from}
use without.Asgi.Sse.{Text, has_newline}
use without.Asgi.Sse.Frames.{decimal_from, decimal}

int_from-append :
    (n : ℕ) (xs : Text) (d : ℕ) → int_from n (xs ++ d ∷ []) ≡ int_from n xs * 10 + (d - 48)
unfolding int_from
int_from-append n [] d = refl
int_from-append n (x ∷ xs) d = int_from-append (n * 10 + (x - 48)) xs d

all_digits-append :
    (xs : Text) (d : ℕ)
    → all_digits xs ≡ true
    → is_digit d ≡ true
    → all_digits (xs ++ d ∷ []) ≡ true
unfolding all_digits
all_digits-append [] d h k = rw k refl
all_digits-append (x ∷ xs) d h k = ground (arith, h, all_digits-append xs d (ground (arith, h)) k)

decimal_from-int : (fuel n : ℕ) → n < fuel → int_from 0 (decimal_from fuel n) ≡ n
unfolding decimal_from int_from
decimal_from-int zero n h = absurd (omega (arith, h))
decimal_from-int (suc fuel) n h = elim (Bool-cases (ltb n 10)) [
  | inl one ↦ rw one (ground (arith, one))
  | inr more ↦ rw more (
      int_from-append 0 (decimal_from fuel (n / 10)) (48 + n % 10)
      ∙ ground (arith, more, decimal_from-int fuel (n / 10) (ground (arith, h, more))))
]

decimal_from-digits : (fuel n : ℕ) → all_digits (decimal_from fuel n) ≡ true
unfolding decimal_from all_digits
decimal_from-digits zero n = refl
decimal_from-digits (suc fuel) n =
    let digit : is_digit (48 + n % 10) ≡ true = ground arith in
    elim (Bool-cases (ltb n 10)) [
      | inl one ↦ rw one (rw digit refl)
      | inr more ↦ rw more (
          all_digits-append (decimal_from fuel (n / 10)) (48 + n % 10)
            (decimal_from-digits fuel (n / 10)) digit)
    ]

pub decimal-int : (n : ℕ) → int_from 0 (decimal n) ≡ n
decimal-int n = decimal_from-int (suc n) n (omega arith)

pub decimal-digits : (n : ℕ) → all_digits (decimal n) ≡ true
decimal-digits n = decimal_from-digits (suc n) n

pub decimal-length : (n : ℕ) → 1 ≤ length (decimal n)
unfolding decimal_from
decimal-length n =
    omega
      (arith, length-append (if ltb n 10 then [] else decimal_from n (n / 10)) ((48 + n % 10) ∷ []))

pub digits-newline : (xs : Text) → all_digits xs ≡ true → has_newline xs ≡ false
unfolding all_digits has_newline
digits-newline [] h = refl
digits-newline (x ∷ xs) h = ground (arith, h, digits-newline xs (ground (arith, h)))
