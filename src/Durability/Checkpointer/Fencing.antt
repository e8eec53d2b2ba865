-- ===== src/Durability/Checkpointer/Fencing.antt =====
-- A pass that was superseded is refused at every later write, and its refused writes change nothing.
use native.Mathlib.Nat.{le_refl, le_trans}
use without.Prelude.{
  ℕ, ◌+◌, ◌≤◌, ◌<◌, String, ◌≡◌, refl, sym, ap, subst, ◌∙◌, Bool-cases, Option-cases, some, inl,
  inr, List, ltb, lt→ltb, some-cancel, Result, err, arith,
}
use without.Prelude.Eq.{string_key}
use without.Prelude.Dict
use without.Durability.Values.{Pass, Claim, over, Raised, fenced, Codec}
use without.Durability.Checkpointer.{
  Store, Effect, put_claim, grant, claim, discard, fence, guarded, record_step, transact,
}
use without.Durability.Checkpointer.Ops.{Op, after, run}
use without.Durability.Checkpointer.Tokens.{token_of, token_of-after_mono, token_of-run_mono}

module _ {Value : Type 0} where
  fence_below :
      (p : Pass) (now : ℕ) (s : Store Value)
      → p.token < token_of p.workflow s
      → fence p now s ≡ err fenced
  unfolding fence
  fence_below p now s h = elim (Option-cases (Dict.get p.workflow s.claims)) [
    | inl missing ↦ absurd (omega (arith, rw (missing, token_of) at h))
    | inr (held, there) ↦
        rw (there, fence) (rw (lt→ltb p.token held.token (rw (there, token_of) at h)))
  ]

  guarded_below :
      {A : Type 0} (p : Pass) (now : ℕ) (body : Store Value → Result Raised A × Store Value)
      (s : Store Value)
      → p.token < token_of p.workflow s
      → guarded p now body s ≡ (err fenced, s)
  unfolding guarded
  guarded_below p now body s h = rw (fence_below p now s h, guarded)

  token_of-put_claim_self :
      (w : String) (c : Claim) (s : Store Value) → token_of w (put_claim w c s) ≡ c.token
  unfolding put_claim
  token_of-put_claim_self w c s =
      rw (Dict.get-put w w c s.claims, token_of) (rw ((string_key.beq_iff w w).1 refl))

  grant_raises :
      (w : String) (token budget alive now : ℕ) (s : Store Value) {q : Pass}
      → token ≡ token_of w s + 1
      → (grant w token budget alive now s).0 ≡ some q
      → (q.workflow ≡ w)
        × (q.token ≡ token_of w s + 1)
        × (token_of w (grant w token budget alive now s).1 ≡ q.token)
  unfolding grant
  grant_raises w token budget alive now s {q} above h =
      let same : record { workflow = w; token = token } ≡ q = some-cancel h in
      (
        sym (ap (λ p. p.workflow) same),
        sym (ap (λ p. p.token) same) ∙ above,
        token_of-put_claim_self w _ s ∙ ap (λ p. p.token) same,
      )

  -- A claim that is granted carries a token one above the fence, and its token becomes the fence.
  pub claim_raises :
      (w : String) (budget alive now : ℕ) (s : Store Value) {q : Pass}
      → (claim w budget alive now s).0 ≡ some q
      → (q.workflow ≡ w)
        × (q.token ≡ token_of w s + 1)
        × (token_of w (claim w budget alive now s).1 ≡ q.token)
  unfolding claim
  claim_raises w budget alive now s h = elim (Option-cases (Dict.get w s.claims)) [
    | inl missing ↦
        rw (missing, claim)
          (grant_raises w 1 budget alive now s (rw (missing, token_of) (omega arith))
            (rw (missing, claim) at h))
    | inr (held, there) ↦ elim (Bool-cases (ltb now held.alive_until)) [
      | inl live ↦ absurd (cc (rw live at (rw (there, claim) at h)))
      | inr lapsed ↦
          rw (there, claim)
            (rw lapsed (
              grant_raises w (held.token + 1) budget alive now s (rw (there, token_of) refl)
                (rw lapsed at (rw (there, claim) at h))))
    ]
  ]

  discard_raises :
      (w : String) (s : Store Value) {c : Claim}
      → Dict.get w s.claims ≡ some c
      → token_of w (discard w s).1 ≡ token_of w s + 1
  unfolding discard over
  discard_raises w s {c} there =
      rw (there, discard)
        (token_of-put_claim_self w _ (record s { hashes = Dict.remove w s.hashes })
          ∙ rw (there, token_of) refl)

module _ {Value : Type 0} (codec : Codec Value) where
  -- The passes that a store has handed out by some run of calls.
  pub data Issued : Pass → Store Value → Type 0 where
    now_issued :
        {p : Pass} (w : String) (budget alive now : ℕ) (s : Store Value)
        → (claim w budget alive now s).0 ≡ some p
        → Issued p (claim w budget alive now s).1
    still_issued :
        {p : Pass} {s : Store Value} (op : Op Value) → Issued p s → Issued p (after codec op s)

  -- A pass that was handed out never outranks the fence.
  pub Issued-token-le : {p : Pass} {s : Store Value} → Issued p s → p.token ≤ token_of p.workflow s
  Issued-token-le {p} (now_issued w b a n s h) =
      let (same, _, raised) = claim_raises w b a n s h in rw same (rw raised (le_refl p.token))
  Issued-token-le {p} (still_issued {s = s} op i) =
      le_trans (Issued-token-le i) (token_of-after_mono codec op p.workflow s)

  -- Refused as fenced, and the store is as it was.
  abbrev pub IsRefused : Pass → Store Value → Type 0
  IsRefused p s =
      ((key : String) (v : Value) (now stamp : ℕ)
        → record_step codec p key v now stamp s ≡ (err fenced, s))
      × ((key : String) (effect : Effect Value) (now stamp : ℕ)
          → transact codec p key effect now stamp s ≡ (err fenced, s))

  IsRefused-below : (p : Pass) (s : Store Value) → p.token < token_of p.workflow s → IsRefused p s
  unfolding record_step transact
  IsRefused-below p s h = (
    λ key v now stamp. guarded_below p now _ s h,
    λ key effect now stamp. guarded_below p now _ s h,
  )

  -- Once another claim on its workflow is granted, a pass is refused at every write, whatever calls
  -- come between, and the refused write changes nothing.
  pub claim_fences_out :
      (p q : Pass) (budget alive now : ℕ) (s : Store Value) (ops : List (Op Value))
      → Issued p s
      → (claim p.workflow budget alive now s).0 ≡ some q
      → IsRefused p (run codec ops (claim p.workflow budget alive now s).1)
  claim_fences_out p q budget alive now s ops issued granted =
      let t = (claim p.workflow budget alive now s).1 in
      let (_, above, raised) = claim_raises p.workflow budget alive now s granted in
      let below = Issued-token-le issued in
      let later = token_of-run_mono codec ops p.workflow t in
      IsRefused-below p (run codec ops t)
        (le_trans (subst (λ n. p.token < n) (sym (raised ∙ above)) (omega arith)) later)

  -- Once its workflow is discarded, a pass is refused at every write, whatever calls come between.
  pub discard_fences_out :
      (p : Pass) (s : Store Value) (c : Claim) (ops : List (Op Value))
      → Issued p s
      → Dict.get p.workflow s.claims ≡ some c
      → IsRefused p (run codec ops (discard p.workflow s).1)
  discard_fences_out p s c ops issued there =
      let t = (discard p.workflow s).1 in
      let below = Issued-token-le issued in
      let later = token_of-run_mono codec ops p.workflow t in
      IsRefused-below p (run codec ops t) (
        le_trans (subst (λ n. p.token < n) (sym (discard_raises p.workflow s there)) (omega arith))
          later)
