-- ===== src/Prelude/Results.antt =====
-- What Python code that may raise returns: a value, or the exception that was raised.
use mathlib.Core.Path.{◌≡◌, refl}
use mathlib.Core.Logic.{◌⊎◌, inl, inr}

pub data Result {ℓ} (X : Type 0) (A : Type ℓ) : Type ℓ where
  ok : A → Result X A
  err : X → Result X A

module _ {ℓ κ} {X : Type 0} {A : Type ℓ} {B : Type κ} where
  infixl 5 ◌>>=◌
  -- The code that follows is run unless an exception was raised.
  abbrev pub ◌>>=◌ : Result X A → (A → Result X B) → Result X B
  ok value >>= next = next value
  err raised >>= next = err raised

  -- Where a whole chain returns, its first step returned, and so did what follows.
  pub >>=-eq-ok :
      (first : Result X A) (next : A → Result X B) {out : B}
      → (first >>= next) ≡ ok out
      → (value : A) × (first ≡ ok value) × (next value ≡ ok out)
  >>=-eq-ok (err raised) next h = absurd (cc)
  >>=-eq-ok (ok value) next h = (value, refl, h)

pub ok-injective {ℓ} :
    {X : Type 0} {A : Type ℓ} {a b : A} → ◌≡◌ {A = Result X A} (ok a) (ok b) → a ≡ b
ok-injective h = cc

pub Result-cases {ℓ} :
    {X : Type 0} {A : Type ℓ} (r : Result X A) → ((a : A) × (r ≡ ok a)) ⊎ ((x : X) × (r ≡ err x))
Result-cases (ok a) = inl (a, refl)
Result-cases (err x) = inr (x, refl)
