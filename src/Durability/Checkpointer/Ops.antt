-- ===== src/Durability/Checkpointer/Ops.antt =====
-- The calls that change a store, as values, and runs of them.
use without.Prelude.{ℕ, String, List, [], ◌∷◌}
use without.Durability.Values.{Pass, Codec}
use without.Durability.Checkpointer.{
  Store, Effect, claim, extend, renew, release, discard, record_step, transact, supply, append,
}

pub data Op (Value : Type 0) : Type 0 where
  claiming : String → (budget alive now : ℕ) → Op Value
  extending : Pass → (budget alive now : ℕ) → Op Value
  renewing : Pass → (alive now : ℕ) → Op Value
  recording : Pass → String → Value → (now stamp : ℕ) → Op Value
  transacting : Pass → String → Effect Value → (now stamp : ℕ) → Op Value
  supplying : String → String → Value → (stamp : ℕ) → Op Value
  appending : String → Value → (stamp : ℕ) → Op Value
  discarding : String → Op Value
  releasing : Pass → Op Value

module _ {Value : Type 0} (codec : Codec Value) where
  -- The store after a call, whether it returned or raised.
  unfoldable pub after : Op Value → Store Value → Store Value
  after (claiming w budget alive now) s = (claim w budget alive now s).1
  after (extending p budget alive now) s = (extend p budget alive now s).1
  after (renewing p alive now) s = (renew p alive now s).1
  after (recording p key v now stamp) s = (record_step codec p key v now stamp s).1
  after (transacting p key effect now stamp) s = (transact codec p key effect now stamp s).1
  after (supplying w key v stamp) s = (supply codec w key v stamp s).1
  after (appending w v stamp) s = (append codec w v stamp s).1
  after (discarding w) s = (discard w s).1
  after (releasing p) s = (release p s).1

  unfoldable pub run : List (Op Value) → Store Value → Store Value
  run [] s = s
  run (op ∷ ops) s = run ops (after op s)
