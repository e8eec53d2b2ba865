-- ===== src/Durability/Checkpointer/Budget.antt =====
-- A claim never outlives its budget, and one that was handed back is not taken again by a renewal.
use without.Prelude.{
  ℕ, ◌≤◌, String, ◌≡◌, subst, false, Bool-cases, Option-cases, some, some-cancel, inl, inr, List,
  [], ◌∷◌, ltb, leb, nat_eq, ◌||◌, Result, Result-cases, ok, ok-injective, arith,
}
use without.Prelude.Eq.{◌==◌, string_key}
use without.Prelude.Dict
use without.Durability.Values.{Pass, Claim, heard_from, over, Raised, Codec}
use without.Durability.Checkpointer.{
  Store, start, put_claim, grant, claim, extend, renew, release, discard, fence, guarded,
  record_owned, record_step, transact_owned, transact, supply, append,
}
use without.Durability.Checkpointer.Ops.{
  Op, claiming, extending, renewing, recording, transacting, supplying, appending, discarding,
  releasing, after, run,
}
use without.Durability.Checkpointer.Tokens.{
  record_owned-claims, transact_owned-claims, supply-claims, append-claims,
}

heard_from-le : (c : Claim) (at : ℕ) → (heard_from c at).alive_until ≤ (heard_from c at).held_until
unfolding heard_from
heard_from-le c at = omega arith

module _ {Value : Type 0} where
  -- Every claim lapses, if nothing more is heard, no later than its budget ends.
  abbrev pub IsWithinBudget : Store Value → Type 0
  IsWithinBudget s =
      (w : String) (c : Claim) → Dict.get w s.claims ≡ some c → c.alive_until ≤ c.held_until

  within_same : (s t : Store Value) → t.claims ≡ s.claims → IsWithinBudget s → IsWithinBudget t
  within_same s t h within w c there = within w c (subst (λ d. Dict.get w d ≡ some c) h there)

  within-put_claim :
      (v : String) (c : Claim) (s : Store Value)
      → c.alive_until ≤ c.held_until
      → IsWithinBudget s
      → IsWithinBudget (put_claim v c s)
  unfolding put_claim
  within-put_claim v c s h within w d there = elim (Bool-cases (v == w)) [
    | inl same ↦
        let e : c ≡ d = some-cancel (rw same at (rw (Dict.get-put v w c s.claims) at there)) in
        subst (λ x. x.alive_until ≤ x.held_until) e h
    | inr other ↦ within w d (rw other at (rw (Dict.get-put v w c s.claims) at there))
  ]

  within-claim :
      (w : String) (budget alive now : ℕ) (s : Store Value)
      → IsWithinBudget s
      → IsWithinBudget (claim w budget alive now s).1
  unfolding claim grant
  within-claim w budget alive now s within = elim (Option-cases (Dict.get w s.claims)) [
    | inl missing ↦ rw (missing, claim) (within-put_claim w _ s (omega arith) within)
    | inr (held, there) ↦ elim (Bool-cases (ltb now held.alive_until)) [
      | inl live ↦ rw (there, claim) (rw live within)
      | inr lapsed ↦ rw (there, claim) (rw lapsed (within-put_claim w _ s (omega arith) within))
    ]
  ]

  within-extend :
      (p : Pass) (budget alive now : ℕ) (s : Store Value)
      → IsWithinBudget s
      → IsWithinBudget (extend p budget alive now s).1
  unfolding extend
  within-extend p budget alive now s within = elim (Option-cases (Dict.get p.workflow s.claims)) [
    | inl missing ↦ rw (missing, extend) within
    | inr (held, there) ↦ elim (Bool-cases (ltb p.token held.token)) [
      | inl stale ↦ rw (there, extend) (rw stale within)
      | inr newest ↦
          rw (there, extend)
            (rw newest (within-put_claim p.workflow _ s (heard_from-le _ now) within))
    ]
  ]

  within-renew :
      (p : Pass) (alive now : ℕ) (s : Store Value)
      → IsWithinBudget s
      → IsWithinBudget (renew p alive now s).1
  unfolding renew
  within-renew p alive now s within = elim (Option-cases (Dict.get p.workflow s.claims)) [
    | inl missing ↦ rw (missing, renew) within
    | inr (held, there) ↦ elim (Bool-cases (ltb p.token held.token || leb held.held_until now)) [
      | inl ended ↦ rw (there, renew) (rw ended within)
      | inr live ↦
          rw (there, renew) (rw live (within-put_claim p.workflow _ s (heard_from-le _ now) within))
    ]
  ]

  within-release : (p : Pass) (s : Store Value) → IsWithinBudget s → IsWithinBudget (release p s).1
  unfolding release over
  within-release p s within = elim (Option-cases (Dict.get p.workflow s.claims)) [
    | inl missing ↦ rw (missing, release) within
    | inr (held, there) ↦ elim (Bool-cases (nat_eq p.token held.token)) [
      | inl own ↦
          rw (there, release) (rw own (within-put_claim p.workflow _ s (omega arith) within))
      | inr other ↦ rw (there, release) (rw other within)
    ]
  ]

  within-discard :
      (w : String) (s : Store Value) → IsWithinBudget s → IsWithinBudget (discard w s).1
  unfolding discard over
  within-discard w s within = elim (Option-cases (Dict.get w s.claims)) [
    | inl missing ↦ rw (missing, discard) within
    | inr (held, there) ↦
        rw (there, discard)
          (within-put_claim w _ (record s { hashes = Dict.remove w s.hashes }) (omega arith) within)
  ]

  within-fence :
      (p : Pass) (now : ℕ) (s : Store Value) {t : Store Value}
      → fence p now s ≡ ok t
      → IsWithinBudget s
      → IsWithinBudget t
  unfolding fence
  within-fence p now s h within = elim (Option-cases (Dict.get p.workflow s.claims)) [
    | inl missing ↦ absurd (cc (rw (missing, fence) at h))
    | inr (held, there) ↦ elim (Bool-cases (ltb p.token held.token)) [
      | inl stale ↦ absurd (cc (rw stale at (rw (there, fence) at h)))
      | inr newest ↦
          subst IsWithinBudget (ok-injective (rw newest at (rw (there, fence) at h)))
            (within-put_claim p.workflow (heard_from held now) s (heard_from-le held now) within)
    ]
  ]

  within-guarded :
      {A : Type 0} (p : Pass) (now : ℕ) (body : Store Value → Result Raised A × Store Value)
      (s : Store Value)
      → ((t : Store Value) → (body t).1.claims ≡ t.claims)
      → IsWithinBudget s
      → IsWithinBudget (guarded p now body s).1
  unfolding guarded
  within-guarded p now body s keeps within = elim (Result-cases (fence p now s)) [
    | inr (e, h) ↦ rw (h, guarded) within
    | inl (t, h) ↦
        rw (h, guarded) (within_same t (body t).1 (keeps t) (within-fence p now s h within))
  ]

  -- A pass that handed its workflow back cannot renew it, whenever it asks.
  pub renew-release :
      (p : Pass) (c : Claim) (alive now : ℕ) (s : Store Value)
      → Dict.get p.workflow s.claims ≡ some c
      → c.token ≡ p.token
      → renew p alive now (release p s).1 ≡ (ok false, (release p s).1)
  unfolding renew release put_claim over
  renew-release p c alive now s there own = ground (
    arith,
    Dict.get-put p.workflow p.workflow (over c) s.claims,
    string_key.beq_iff p.workflow p.workflow,
  )

module _ {Value : Type 0} (codec : Codec Value) where
  within-after :
      (op : Op Value) (s : Store Value) → IsWithinBudget s → IsWithinBudget (after codec op s)
  unfolding after record_step transact
  within-after (claiming w budget alive now) s = within-claim w budget alive now s
  within-after (extending p budget alive now) s = within-extend p budget alive now s
  within-after (renewing p alive now) s = within-renew p alive now s
  within-after (recording p key v now stamp) s =
      within-guarded p now (record_owned codec p.workflow key v stamp) s
        (record_owned-claims codec p.workflow key v stamp)
  within-after (transacting p key effect now stamp) s =
      within-guarded p now (transact_owned codec p.workflow key effect stamp) s
        (transact_owned-claims codec p.workflow key effect stamp)
  within-after (supplying w key v stamp) s =
      within_same s (supply codec w key v stamp s).1 (supply-claims codec w key v stamp s)
  within-after (appending w v stamp) s =
      within_same s (append codec w v stamp s).1 (append-claims codec w v stamp s)
  within-after (discarding w) s = within-discard w s
  within-after (releasing p) s = within-release p s

  within-run :
      (ops : List (Op Value)) (s : Store Value)
      → IsWithinBudget s
      → IsWithinBudget (run codec ops s)
  unfolding run
  within-run [] s within = within
  within-run (op ∷ ops) s within = within-run ops (after codec op s) (within-after op s within)

  -- Whatever calls are made on an empty store, a claim's liveness window ends no later than its budget.
  pub run_within_budget :
      (ops : List (Op Value)) (w : String) (c : Claim)
      → Dict.get w (run codec ops start).claims ≡ some c
      → c.alive_until ≤ c.held_until
  unfolding Dict.get
  run_within_budget ops w c there = within-run ops start (λ v d held. absurd (cc held)) w c there
