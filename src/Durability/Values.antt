-- ===== src/Durability/Values.antt =====
-- The values of packages/without_durability/src/without_durability/interfaces.py and memory.py
--
-- Moments of the monotonic clock, moments of the store's clock and durations are counts of ticks.
-- A duration is positive where `check_duration` has let it through, and a count has no sign.
use without.Prelude.{ℕ, ◌+◌, min, String, Bool, Option}

pub record Pass : Type 0 where
  pub workflow : String
  pub token : ℕ

pub record Stored : Type 0 where
  pub encoded : String
  pub at : ℕ

pub record Claim : Type 0 where
  pub token : ℕ
  pub held_until : ℕ
  pub alive_until : ℕ
  pub alive : ℕ

unfoldable pub heard_from : Claim → ℕ → Claim
heard_from c at = record c { alive_until = min (at + c.alive) c.held_until }

unfoldable pub over : Claim → Claim
over c = record c { held_until = 0; alive_until = 0 }

pub record Recorded (Value : Type 0) : Type 0 where
  pub value : Value
  pub first : Bool

pub record Written (Value : Type 0) : Type 0 where
  pub value : Value
  pub at : ℕ

pub record Entry (Value : Type 0) : Type 0 where
  pub key : String
  pub value : Value

-- What a method may raise: `Fenced`, a `KeyError` for a workflow that was never claimed, the
-- codec's refusal of a value or of a text, and what an effect raised.
pub data Raised : Type 0 where
  fenced key_error refused effect_failed : Raised

-- The codec that a store is given; `none` is an exception.
pub record Codec (Value : Type 0) : Type 0 where
  pub encode : Value → Option String
  pub decode : String → Option Value
