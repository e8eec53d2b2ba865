-- ===== src/Prelude/Eq.antt =====
-- Equality tests of keys, as an interface.
use Prim.Native.Nat.{ℕ}
use Prim.Native.String.{String}
use mathlib.Core.Path.{◌≡◌}
use mathlib.Core.Logic.{◌↔◌, ◌≢◌}
use mathlib.Core.Bool.{Bool, true, false}
use text.Mathlib.Text.{◌==◌ as str_eq}
use text.Mathlib.TextEquality.{eq_iff}
use native.Mathlib.Omega.{arith}
use without.Prelude.Tests.{nat_eq, nat_eq_iff}

pub record EqKey {ℓ} (K : Type ℓ) : Type ℓ where
  pub beq : K → K → Bool
  pub beq_iff : (a b : K) → (beq a b ≡ true) ↔ (a ≡ b)

infix 50 ◌==◌
abbrev pub ◌==◌ {ℓ} : {K : Type ℓ} ⦃e : EqKey K⦄ → K → K → Bool
◌==◌ ⦃e⦄ = e.beq

pub beq_false {ℓ} : {K : Type ℓ} ⦃e : EqKey K⦄ (a b : K) → a ≢ b → (a == b) ≡ false
beq_false ⦃e⦄ a b h = ground (arith, e.beq_iff a b, h)

instance abbrev pub nat_key : EqKey ℕ
nat_key = record { beq = nat_eq; beq_iff = nat_eq_iff }

instance abbrev pub string_key : EqKey String
string_key = record { beq = str_eq; beq_iff = eq_iff }
