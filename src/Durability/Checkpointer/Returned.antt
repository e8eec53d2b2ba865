-- ===== src/Durability/Checkpointer/Returned.antt =====
-- What `record` and `transact` return, against what the store holds afterwards.
use without.Prelude.{
  ℕ, String, ◌≡◌, refl, sym, ap, ◌∙◌, Option-cases, none, some, inl, inr, Result, Result-cases, ok,
  ok-injective,
}
use without.Prelude.Eq.{string_key}
use without.Prelude.Dict
use without.Durability.Values.{Pass, Stored, Recorded, Raised, Codec}
use without.Durability.Checkpointer.{
  Store, Effect, records_of, fence, guarded, keep, decoded, record_owned, record_step, effect_text,
  transact_owned, transact,
}
use without.Durability.Checkpointer.Records.{
  Kept, fence-hashes, records_of_same, stored_at, records_of-opened, records_of-put_records_self,
}
use without.Durability.Checkpointer.Transact.{put_at}

module _ {Value : Type 0} (codec : Codec Value) where
  -- The store holds a text under the key that decodes to the value.
  abbrev pub Holds : String → String → Value → Store Value → Type 0
  Holds w key v s =
      (st : Stored) × (stored_at w key s ≡ some st) × (codec.decode st.encoded ≡ some v)

  pub Holds-Kept :
      (w key : String) (v : Value) (s t : Store Value)
      → Kept s t
      → Holds w key v s
      → Holds w key v t
  Holds-Kept w key v s t kept (st, there, decodes) = (st, kept w key st there, decodes)

  decoded-ok : (text : String) (v : Value) → decoded codec text ≡ ok v → codec.decode text ≡ some v
  decoded-ok text v h = elim (Option-cases (codec.decode text)) [
    | inl bad ↦ absurd (cc (rw (bad, decoded) at h))
    | inr (u, good) ↦ good ∙ ap some (ok-injective {X = Raised} (rw (good, decoded) at h))
  ]

  guarded-returns :
      {A : Type 0} (P : A → Store Value → Type 0) (p : Pass) (now : ℕ)
      (body : Store Value → Result Raised A × Store Value)
      → ((t : Store Value) (a : A) → (body t).0 ≡ ok a → P a (body t).1)
      → (s : Store Value) (a : A) → (guarded p now body s).0 ≡ ok a
      → P a (guarded p now body s).1
  unfolding guarded
  guarded-returns P p now body holds s a h = elim (Result-cases (fence p now s)) [
    | inr (e, lost) ↦ absurd (cc (rw (lost, guarded) at h))
    | inl (t, owned) ↦ rw (owned, guarded) (holds t a (rw (owned, guarded) at h))
  ]

  keep-at :
      (w key : String) (new : Stored) (s : Store Value)
      → stored_at w key (keep w key new s).1 ≡ some (keep w key new s).0
  unfolding keep
  keep-at w key new s = elim (Option-cases (Dict.get key (records_of w s))) [
    | inl fresh ↦
        rw (fresh, keep)
          (ap (Dict.get key) (records_of-put_records_self w _ s)
            ∙ Dict.get-put key key new (records_of w s)
            ∙ rw ((string_key.beq_iff key key).1 refl) refl)
    | inr (winner, there) ↦
        rw (there, keep) (ap (Dict.get key) (records_of-put_records_self w _ s) ∙ there)
  ]

  record_owned-Holds :
      (w key : String) (v : Value) (stamp : ℕ) (s : Store Value) (held : Recorded Value)
      → (record_owned codec w key v stamp s).0 ≡ ok held
      → Holds w key held.value (record_owned codec w key v stamp s).1
  unfolding record_owned
  record_owned-Holds w key v stamp s held h = elim (Option-cases (codec.encode v)) [
    | inl bad ↦ absurd (cc (rw (bad, record_owned) at h))
    | inr (text, good) ↦
        let new : Stored = record { encoded = text; at = stamp } in
        elim (Result-cases (decoded codec (keep w key new s).0.encoded)) [
          | inr (e, failed) ↦ absurd (cc (rw failed at (rw (good, record_owned) at h)))
          | inl (u, fine) ↦
              let made = ok-injective {X = Raised} (rw fine at (rw (good, record_owned) at h)) in
              rw (good, record_owned)
                (
                  (keep w key new s).0,
                  keep-at w key new s,
                  decoded-ok (keep w key new s).0.encoded u fine ∙ ap (λ r. some r.value) made,
                )
        ]
  ]

  pub record_step-Holds :
      (p : Pass) (key : String) (v : Value) (now stamp : ℕ) (s : Store Value)
      (held : Recorded Value)
      → (record_step codec p key v now stamp s).0 ≡ ok held
      → Holds p.workflow key held.value (record_step codec p key v now stamp s).1
  unfolding record_step
  record_step-Holds p key v now stamp =
      guarded-returns (λ held t. Holds p.workflow key held.value t) p now
        (record_owned codec p.workflow key v stamp) (record_owned-Holds p.workflow key v stamp)

  transact_owned-Holds :
      (w key : String) (effect : Effect Value) (stamp : ℕ) (s : Store Value) (v : Value)
      → (transact_owned codec w key effect stamp s).0 ≡ ok v
      → Holds w key v (transact_owned codec w key effect stamp s).1
  unfolding transact_owned
  transact_owned-Holds w key effect stamp s v h =
      elim (Option-cases (Dict.get key (records_of w s))) [
        | inr (stored, there) ↦
            rw (there, transact_owned)
              (
                stored,
                ap (Dict.get key) (records_of-opened w w s) ∙ there,
                decoded-ok stored.encoded v (rw (there, transact_owned) at h),
              )
        | inl fresh ↦ elim (Result-cases (effect_text codec (effect s.data').0)) [
          | inr (e, bad) ↦ absurd (cc (rw bad at (rw (fresh, transact_owned) at h)))
          | inl (text, good) ↦
              rw (fresh, transact_owned)
                (rw (good, transact_owned)
                  (
                    record { encoded = text; at = stamp },
                    put_at w key (record { encoded = text; at = stamp }) s (effect s.data').1,
                    decoded-ok text v (rw good at (rw (fresh, transact_owned) at h)),
                  ))
        ]
      ]

  pub transact-Holds :
      (p : Pass) (key : String) (effect : Effect Value) (now stamp : ℕ) (s : Store Value)
      (v : Value)
      → (transact codec p key effect now stamp s).0 ≡ ok v
      → Holds p.workflow key v (transact codec p key effect now stamp s).1
  unfolding transact
  transact-Holds p key effect now stamp =
      guarded-returns (λ v t. Holds p.workflow key v t) p now
        (transact_owned codec p.workflow key effect stamp)
        (transact_owned-Holds p.workflow key effect stamp)

  -- Where nothing is stored under the key, a record that returns returns what the text of the value
  -- decodes to.
  pub record_step-fresh :
      (p : Pass) (key : String) (v u : Value) (text : String) (now stamp : ℕ) (s : Store Value)
      (held : Recorded Value)
      → stored_at p.workflow key s ≡ none
      → codec.encode v ≡ some text
      → codec.decode text ≡ some u
      → (record_step codec p key v now stamp s).0 ≡ ok held
      → held.value ≡ u
  unfolding record_step guarded record_owned keep
  record_step-fresh p key v u text now stamp s held fresh encodes decodes h =
      elim (Result-cases (fence p now s)) [
        | inr (e, lost) ↦ absurd (cc (rw (lost, guarded) at h))
        | inl (t, owned) ↦
            let missing : stored_at p.workflow key t ≡ none =
              ap (Dict.get key) (records_of_same p.workflow s t (fence-hashes p now s owned))
              ∙ fresh in
            let wrote = rw (encodes, record_owned) at (rw (owned, guarded) at h) in
            let kept = rw (missing, keep) at wrote in
            sym (ap (λ r. r.value) (ok-injective {X = Raised} (rw (decodes, decoded) at kept)))
      ]
