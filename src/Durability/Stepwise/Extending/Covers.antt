-- ===== src/Durability/Stepwise/Extending/Covers.antt =====
-- What an `extend` does to the store: the records stay, and the claim covers the window granted.
use without.Prelude.{
  ℕ, ◌+◌, ◌≤◌, max, min, ◌⊎◌, String, Bool, Bool-cases, true, false, ◌≡◌, refl, ◌∙◌, Option,
  Option-cases, none, some, inl, inr, ltb, leb, Result, ok, err, arith,
}
use without.Prelude.Eq.{string_key}
use without.Prelude.Dict
use without.Durability.Values.{Pass, Claim, Codec, Raised, heard_from}
use without.Durability.Checkpointer.{Store, put_claim, extend}
use without.Durability.Checkpointer.Ops.{extending, after}
use without.Durability.Checkpointer.Records.{Kept, after-Kept}
use without.Durability.Stepwise.Steps.Follows.{KeepsRecords}
use without.Durability.Stepwise.{Object, Readings}
use without.Durability.Stepwise.Extending.{Grant, window_of, granted_by, extend_grant}

-- When a claim that is not extended again ends: by its budget where it is renewed, which a liveness
-- window says, and else when it lapses, if that is before.
abbrev pub end_of : Option ℕ → Claim → ℕ
end_of none c = min c.alive_until c.held_until
end_of (some alive) c = c.held_until

-- What is remembered lasts for a step that is not asked for.
still_covered :
    (alive : Option ℕ) (budget now offset lag : ℕ) (grant : Grant) (c : Claim)
    → now + budget + window_of alive budget ≤ grant.covered + grant.since
    → lag ≤ window_of alive budget
    → grant.since + grant.covered + offset ≤ c.held_until + lag
    → grant.since + min (window_of alive grant.covered) grant.covered + offset ≤ c.alive_until + lag
    → now + offset + budget ≤ end_of alive c
still_covered none budget now offset lag grant c within margin backed lives = omega arith
still_covered (some a) budget now offset lag grant c within margin backed lives = omega arith

-- So does what the store has granted.
newly_covered :
    (alive : Option ℕ) (budget now extended offset : ℕ) (c : Claim)
    → now + offset ≤ extended
    → extended + budget ≤ c.held_until
    → extended + min (window_of alive budget) budget ≤ c.alive_until
    → now + offset + budget ≤ end_of alive c
newly_covered none budget now extended offset c order until living = omega arith
newly_covered (some a) budget now extended offset c order until living = omega arith

module _ {V : Type 0} where
  -- The claim of a workflow is held at least until a moment of the store's clock.
  abbrev pub HeldUntil : Option ℕ → String → ℕ → Store (Object V) → Type 0
  HeldUntil alive w moment s =
      (c : Claim) × (Dict.get w s.claims ≡ some c) × (moment ≤ end_of alive c)

  -- What an `extend` remembers is no more than what the store granted, but for the time that an
  -- answer takes, and from the grant on the claim lives for a window; the store's clock is `offset`
  -- ahead.
  abbrev pub IsBacked :
      (alive : Option ℕ) (offset lag : ℕ) → String → Grant → Store (Object V) → Type 0
  IsBacked alive offset lag w grant s =
      (c : Claim) × (Dict.get w s.claims ≡ some c)
      × (grant.since + grant.covered + offset ≤ c.held_until + lag)
      × (grant.since + min (window_of alive grant.covered) grant.covered + offset
          ≤ c.alive_until + lag)

  -- No later pass has the claim.
  abbrev pub IsNewest : Pass → Store (Object V) → Type 0
  IsNewest holder s =
      (c : Claim) × (Dict.get holder.workflow s.claims ≡ some c) × (c.token ≤ holder.token)

  -- An extension that the store grants holds the claim for the budget from then on, alive for the
  -- window, and its pass is the latest.
  extend-granted :
      (holder : Pass) (budget alive now : ℕ) (s : Store (Object V))
      → (extend holder budget alive now s).0 ≡ ok true
      → (c : Claim) × (Dict.get holder.workflow (extend holder budget alive now s).1.claims
          ≡ some c)
        × (now + budget ≤ c.held_until)
        × (now + min alive budget ≤ c.alive_until)
        × (c.token ≤ holder.token)
  unfolding extend put_claim heard_from
  extend-granted holder budget alive now s h =
      elim (Option-cases (Dict.get holder.workflow s.claims)) [
        | inl missing ↦ absurd (cc (rw (missing, extend) at h))
        | inr (held, there) ↦ elim (Bool-cases (ltb holder.token held.token)) [
          | inl stale ↦ absurd (cc (rw stale at (rw (there, extend) at h)))
          | inr newest ↦
              rw (there, extend)
                (rw newest (
                  heard_from
                      (record held {
                        held_until = max held.held_until (now + budget);
                        alive = alive;
                      })
                      now,
                  Dict.get-put holder.workflow holder.workflow _ s.claims
                      ∙ rw ((string_key.beq_iff holder.workflow holder.workflow).1 refl) refl,
                  omega arith,
                  omega arith,
                  ground (arith, newest),
                ))
        ]
      ]

  granted_by-true :
      {E : Type 0} (grant : Grant) (budget now : ℕ) (answer : Result Raised Bool)
      (s : Store (Object V))
      → (granted_by {E = E} grant budget now answer s).0 ≡ ok true
      → answer ≡ ok true
  granted_by-true grant budget now (err e) s h = absurd (cc h)
  granted_by-true grant budget now (ok false) s h = absurd (cc h)
  granted_by-true grant budget now (ok true) s h = refl

  -- Where what is remembered is backed by the store, an answer takes no longer than a liveness window,
  -- and the store is not asked before the step asks: a step whose window is granted, by the store or
  -- without asking it, has its claim held for the whole of the window, and where no liveness window is
  -- given it does not lapse before either; what is remembered is backed by the store again; and
  -- either nothing has changed, or the store has found no later pass.
  pub extend_grant-HeldUntil :
      {E : Type 0} (alive : Option ℕ) (holder : Pass) (budget : ℕ) (at : Readings)
      (s : Store (Object V)) (grant : Grant) (offset lag : ℕ)
      → IsBacked alive offset lag holder.workflow grant s
      → at.later + offset ≤ at.extended + lag
      → at.now + offset ≤ at.extended
      → lag ≤ window_of alive budget
      → (extend_grant {E = E} alive holder budget at (s, grant)).0 ≡ ok true
      → let (_, (t, granted)) = extend_grant {E = E} alive holder budget at (s, grant) in
        HeldUntil alive holder.workflow (at.now + offset + budget) t
        × IsBacked alive offset lag holder.workflow granted t
        × (((t ≡ s) × (granted ≡ grant)) ⊎ IsNewest holder t)
  unfolding extend_grant
  extend_grant-HeldUntil alive holder budget at s grant offset lag (c, there, backed, lives) soon
        order margin h =
      let window = window_of alive budget in
      let asked = extend holder budget window at.extended s in
      elim (Bool-cases (leb (at.now + budget + window) (grant.covered + grant.since))) [
        | inl covers ↦
            let within : at.now + budget + window ≤ grant.covered + grant.since =
              ground (arith, covers) in
            rw (covers, extend_grant)
              (
                (
                  c,
                  there,
                  still_covered alive budget at.now offset lag grant c within margin backed lives,
                ),
                (c, there, backed, lives),
                inl (refl, refl),
              )
        | inr short ↦
            let granted =
              granted_by-true grant budget at.later asked.0 asked.1
                (rw (short, extend_grant) at h) in
            let (d, held, until, living, newest) =
              extend-granted holder budget window at.extended s granted in
            rw (short, extend_grant)
              (rw granted (
                (
                  d,
                  held,
                  newly_covered alive budget at.now at.extended offset d order until living,
                ),
                (d, held, omega arith, omega arith),
                inr (d, held, newest),
              ))
      ]

  granted_by-Kept :
      (E : Type 0) (grant : Grant) (budget now : ℕ) (answer : Result Raised Bool)
      (s t : Store (Object V))
      → Kept s t
      → Kept s (granted_by {E = E} grant budget now answer t).1.0
  granted_by-Kept E grant budget now (err e) s t kept = kept
  granted_by-Kept E grant budget now (ok false) s t kept = kept
  granted_by-Kept E grant budget now (ok true) s t kept = kept

  -- The ordinary `extend` leaves every record as it stands.
  pub extend_grant-KeepsRecords :
      (E : Type 0) (alive : Option ℕ) (codec : Codec (Object V))
      → KeepsRecords (extend_grant {V = V} {E = E} alive)
  unfolding extend_grant
  extend_grant-KeepsRecords E alive codec holder budget at s grant =
      let window = window_of alive budget in
      let asked = extend holder budget window at.extended s in
      elim (Bool-cases (leb (at.now + budget + window) (grant.covered + grant.since))) [
        | inl covers ↦ rw (covers, extend_grant) (λ w key st there. there)
        | inr short ↦
            rw (short, extend_grant)
              (granted_by-Kept E grant budget at.later asked.0 s asked.1 (
                unfold after in after-Kept codec (extending holder budget window at.extended) s tt))
      ]
