-- ===== src/Durability/Checkpointer/Tokens.antt =====
-- The fence of a workflow never falls, so a pass that was superseded stays superseded.
use native.Mathlib.Nat.{le_refl, le_trans}
use without.Prelude.{
  Result-cases, ok-injective, subst, ℕ, ◌≤◌, String, ◌≡◌, Bool-cases, Option-cases, none, some, inl,
  inr, List, [], ◌∷◌, ltb, leb, nat_eq, ◌||◌, Result, ok, arith,
}
use without.Prelude.Eq.{string_key}
use without.Prelude.Dict
use without.Durability.Values.{Pass, Stored, Claim, heard_from, over, Raised, Codec}
use without.Durability.Checkpointer.{
  Store, Effect, put_claim, put_records, grant, claim, extend, renew, release, effect_text,
  records_of, discard, fence, guarded, record_owned, transact_owned, keep, record_step, transact,
  supply, append,
}
use without.Durability.Checkpointer.Ops.{
  Op, claiming, extending, renewing, recording, transacting, supplying, appending, discarding,
  releasing, after, run,
}

module _ {Value : Type 0} where
  -- The fence of a workflow; 0 where nobody has claimed it.
  abbrev pub token_of : String → Store Value → ℕ
  token_of w s = elim (Dict.get w s.claims) [ none ↦ 0 | some c ↦ c.token ]

  -- A claim written over one of no higher token does not lower a fence.
  put_claim_mono :
      (v w : String) (c : Claim) (s : Store Value)
      → token_of v s ≤ c.token
      → token_of w s ≤ token_of w (put_claim v c s)
  unfolding put_claim
  put_claim_mono v w c s h = ground (arith, Dict.get-put v w c s.claims, string_key.beq_iff v w)

  claim_mono :
      (v w : String) (budget alive now : ℕ) (s : Store Value)
      → token_of w s ≤ token_of w (claim v budget alive now s).1
  unfolding claim grant
  claim_mono v w budget alive now s = elim (Option-cases (Dict.get v s.claims)) [
    | inl missing ↦
        rw (missing, claim) (put_claim_mono v w _ s (rw (missing, token_of) (omega arith)))
    | inr (held, there) ↦ elim (Bool-cases (ltb now held.alive_until)) [
      | inl live ↦ rw (there, claim) (rw live (le_refl _))
      | inr lapsed ↦
          rw (there, claim)
            (rw lapsed (put_claim_mono v w _ s (rw (there, token_of) (omega arith))))
    ]
  ]

  extend_mono :
      (p : Pass) (w : String) (budget alive now : ℕ) (s : Store Value)
      → token_of w s ≤ token_of w (extend p budget alive now s).1
  unfolding extend heard_from
  extend_mono p w budget alive now s = elim (Option-cases (Dict.get p.workflow s.claims)) [
    | inl missing ↦ rw (missing, extend) (le_refl _)
    | inr (held, there) ↦ elim (Bool-cases (ltb p.token held.token)) [
      | inl stale ↦ rw (there, extend) (rw stale (le_refl _))
      | inr newest ↦
          rw (there, extend)
            (rw newest
              (put_claim_mono p.workflow w _ s (rw (there, token_of) (le_refl held.token))))
    ]
  ]

  renew_mono :
      (p : Pass) (w : String) (alive now : ℕ) (s : Store Value)
      → token_of w s ≤ token_of w (renew p alive now s).1
  unfolding renew heard_from
  renew_mono p w alive now s = elim (Option-cases (Dict.get p.workflow s.claims)) [
    | inl missing ↦ rw (missing, renew) (le_refl _)
    | inr (held, there) ↦ elim (Bool-cases (ltb p.token held.token || leb held.held_until now)) [
      | inl over ↦ rw (there, renew) (rw over (le_refl _))
      | inr live ↦
          rw (there, renew)
            (rw live (put_claim_mono p.workflow w _ s (rw (there, token_of) (le_refl held.token))))
    ]
  ]

  release_mono :
      (p : Pass) (w : String) (s : Store Value) → token_of w s ≤ token_of w (release p s).1
  unfolding release over
  release_mono p w s = elim (Option-cases (Dict.get p.workflow s.claims)) [
    | inl missing ↦ rw (missing, release) (le_refl _)
    | inr (held, there) ↦ elim (Bool-cases (nat_eq p.token held.token)) [
      | inl own ↦
          rw (there, release)
            (rw own (put_claim_mono p.workflow w _ s (rw (there, token_of) (le_refl held.token))))
      | inr other ↦ rw (there, release) (rw other (le_refl _))
    ]
  ]

  discard_mono : (v w : String) (s : Store Value) → token_of w s ≤ token_of w (discard v s).1
  unfolding discard over
  discard_mono v w s = elim (Option-cases (Dict.get v s.claims)) [
    | inl missing ↦ rw (missing, discard) (le_refl _)
    | inr (held, there) ↦
        rw (there, discard)
          (put_claim_mono v w _ (record s { hashes = Dict.remove v s.hashes })
            (rw (there, token_of) (omega arith)))
  ]

  fence_mono :
      (p : Pass) (w : String) (now : ℕ) (s : Store Value) {s' : Store Value}
      → fence p now s ≡ ok s'
      → token_of w s ≤ token_of w s'
  unfolding fence heard_from
  fence_mono p w now s h = elim (Option-cases (Dict.get p.workflow s.claims)) [
    | inl missing ↦ absurd (cc (rw (missing, fence) at h))
    | inr (held, there) ↦ elim (Bool-cases (ltb p.token held.token)) [
      | inl stale ↦ absurd (cc (rw stale at (rw (there, fence) at h)))
      | inr newest ↦
          subst (λ t. token_of w s ≤ token_of w t)
            (ok-injective (rw newest at (rw (there, fence) at h)))
            (put_claim_mono p.workflow w (heard_from held now) s
              (rw (there, token_of) (le_refl held.token)))
    ]
  ]

  pub keep-claims :
      (v key : String) (stored : Stored) (s : Store Value)
      → (keep v key stored s).1.claims ≡ s.claims
  unfolding keep put_records
  keep-claims v key stored s = elim (Option-cases (Dict.get key (records_of v s))) [
    | inl fresh ↦ rw (fresh, keep)
    | inr (winner, there) ↦ rw (there, keep)
  ]

  -- Two stores with the same claims have the same fences.
  same_fence : (w : String) (s t : Store Value) → t.claims ≡ s.claims → token_of w s ≤ token_of w t
  same_fence w s t h = rw h (le_refl (token_of w s))

  guarded_mono :
      {A : Type 0} (p : Pass) (w : String) (now : ℕ)
      (body : Store Value → Result Raised A × Store Value) (s : Store Value)
      → ((t : Store Value) → (body t).1.claims ≡ t.claims)
      → token_of w s ≤ token_of w (guarded p now body s).1
  unfolding guarded
  guarded_mono p w now body s keeps = elim (Result-cases (fence p now s)) [
    | inr (e, h) ↦ rw (h, guarded) (le_refl (token_of w s))
    | inl (s', h) ↦
        rw (h, guarded) (le_trans (fence_mono p w now s h) (same_fence w s' (body s').1 (keeps s')))
  ]

module _ {Value : Type 0} (codec : Codec Value) where
  pub record_owned-claims :
      (w key : String) (v : Value) (stamp : ℕ) (s : Store Value)
      → (record_owned codec w key v stamp s).1.claims ≡ s.claims
  unfolding record_owned
  record_owned-claims w key v stamp s = elim (Option-cases (codec.encode v)) [
    | inl bad ↦ rw (bad, record_owned)
    | inr (text, good) ↦
        rw (good, record_owned) (keep-claims w key (record { encoded = text; at = stamp }) s)
  ]

  pub transact_owned-claims :
      (w key : String) (effect : Effect Value) (stamp : ℕ) (s : Store Value)
      → (transact_owned codec w key effect stamp s).1.claims ≡ s.claims
  unfolding transact_owned put_records
  transact_owned-claims w key effect stamp s = elim (Option-cases (Dict.get key (records_of w s))) [
    | inr (stored, there) ↦ rw (there, transact_owned)
    | inl fresh ↦ elim (Result-cases (effect_text codec (effect s.data').0)) [
      | inr (e, h) ↦ rw (fresh, transact_owned) (rw (h, transact_owned))
      | inl (text, h) ↦ rw (fresh, transact_owned) (rw (h, transact_owned))
    ]
  ]

  pub supply-claims :
      (w key : String) (v : Value) (stamp : ℕ) (s : Store Value)
      → (supply codec w key v stamp s).1.claims ≡ s.claims
  unfolding supply put_records
  supply-claims w key v stamp s = elim (Option-cases (codec.encode v)) [
    | inl bad ↦ rw (bad, supply)
    | inr (text, good) ↦
        rw (good, supply)
          (keep-claims w key (record { encoded = text; at = stamp })
            (put_records w (records_of w s) s))
  ]

  pub append-claims :
      (w : String) (v : Value) (stamp : ℕ) (s : Store Value)
      → (append codec w v stamp s).1.claims ≡ s.claims
  unfolding append put_records
  append-claims w v stamp s = elim (Option-cases (codec.encode v)) [
    | inl bad ↦ rw (bad, append)
    | inr (text, good) ↦ rw (good, append)
  ]

  -- No call lowers the fence of any workflow.
  pub token_of-after_mono :
      (op : Op Value) (w : String) (s : Store Value) → token_of w s ≤ token_of w (after codec op s)
  unfolding after record_step transact
  token_of-after_mono (claiming v budget alive now) w s = claim_mono v w budget alive now s
  token_of-after_mono (extending p budget alive now) w s = extend_mono p w budget alive now s
  token_of-after_mono (renewing p alive now) w s = renew_mono p w alive now s
  token_of-after_mono (recording p key v now stamp) w s =
      guarded_mono p w now (record_owned codec p.workflow key v stamp) s
        (record_owned-claims p.workflow key v stamp)
  token_of-after_mono (transacting p key effect now stamp) w s =
      guarded_mono p w now (transact_owned codec p.workflow key effect stamp) s
        (transact_owned-claims p.workflow key effect stamp)
  token_of-after_mono (supplying v key x stamp) w s =
      same_fence w s (supply codec v key x stamp s).1 (supply-claims v key x stamp s)
  token_of-after_mono (appending v x stamp) w s =
      same_fence w s (append codec v x stamp s).1 (append-claims v x stamp s)
  token_of-after_mono (discarding v) w s = discard_mono v w s
  token_of-after_mono (releasing p) w s = release_mono p w s

  pub token_of-run_mono :
      (ops : List (Op Value)) (w : String) (s : Store Value)
      → token_of w s ≤ token_of w (run codec ops s)
  unfolding run
  token_of-run_mono [] w s = le_refl (token_of w s)
  token_of-run_mono (op ∷ ops) w s =
      le_trans (token_of-after_mono op w s) (token_of-run_mono ops w (after codec op s))
