-- ===== src/Durability/Checkpointer/Transact.antt =====
-- `transact`: an effect and its record happen together or not at all, and once.
use without.Prelude.{
  ℕ, String, ◌≡◌, refl, sym, ap, subst, ◌∙◌, Option-cases, none, some, ◌⊎◌, inl, inr, Result-cases,
  ok, arith,
}
use without.Prelude.Eq.{string_key}
use without.Prelude.Dict
use without.Prelude.Dict.{Dict}
use without.Durability.Values.{Pass, Stored, Codec}
use without.Durability.Checkpointer.{
  Store, Effect, records_of, put_records, put_claim, fence, guarded, effect_text, transact_owned,
  transact,
}
use without.Durability.Checkpointer.Records.{
  stored_at, fence-hashes, records_of-opened, records_of-put_records_self, records_of_same,
}

module _ {Value : Type 0} where
  fence-data :
      (p : Pass) (now : ℕ) (s : Store Value) {t : Store Value}
      → fence p now s ≡ ok t
      → t.data' ≡ s.data'
  unfolding fence put_claim
  fence-data p now s h = ground arith

  pub put_at :
      (w key : String) (st : Stored) (s : Store Value) (moved : Dict String Value)
      → stored_at w key
          (record (put_records w
            (Dict.put key st (records_of w s))
            (put_records w (records_of w s) s)) { data' = moved })
        ≡ some st
  put_at w key st s moved =
      let t = put_records w (Dict.put key st (records_of w s)) (put_records w (records_of w s) s) in
      ap (Dict.get key) (
        records_of_same w t (record t { data' = moved }) refl
        ∙ records_of-put_records_self w (Dict.put key st (records_of w s)) _)
      ∙ Dict.get-put key key st (records_of w s)
      ∙ rw ((string_key.beq_iff key key).1 refl) refl

module _ {Value : Type 0} (codec : Codec Value) where
  -- The data and the record under the key: neither moved, or the effect ran on the data as it was,
  -- nothing had been recorded, and its result is what is recorded.
  abbrev pub Atomic : String → String → Effect Value → ℕ → Store Value → Store Value → Type 0
  Atomic w key effect stamp s t =
      ((t.data' ≡ s.data') × (stored_at w key t ≡ stored_at w key s))
      ⊎ ((text : String) × (effect_text codec (effect s.data').0 ≡ ok text)
          × (stored_at w key s ≡ none)
          × (stored_at w key t ≡ some (record { encoded = text; at = stamp }))
          × (t.data' ≡ (effect s.data').1))

  owned_Atomic :
      (w key : String) (effect : Effect Value) (stamp : ℕ) (s : Store Value)
      → Atomic w key effect stamp s (transact_owned codec w key effect stamp s).1
  unfolding transact_owned put_records
  owned_Atomic w key effect stamp s = elim (Option-cases (Dict.get key (records_of w s))) [
    | inr (stored, there) ↦
        rw (there, transact_owned) (inl (refl, rw (records_of-opened w w s) there))
    | inl fresh ↦ elim (Result-cases (effect_text codec (effect s.data').0)) [
      | inr (e, h) ↦
          rw (fresh, transact_owned)
            (rw (h, transact_owned) (inl (refl, rw (records_of-opened w w s) fresh)))
      | inl (text, h) ↦
          rw (fresh, transact_owned)
            (rw (h, transact_owned)
              (inr (
                text,
                refl,
                refl,
                put_at w key (record { encoded = text; at = stamp }) s (effect s.data').1,
                refl,
              )))
    ]
  ]

  -- An effect and its record happen together or not at all: an effect that raised, or whose result
  -- the codec refused, leaves the data and the record as they were, and so does a second one.
  pub transact-Atomic :
      (p : Pass) (key : String) (effect : Effect Value) (now stamp : ℕ) (s : Store Value)
      → Atomic p.workflow key effect stamp s (transact codec p key effect now stamp s).1
  unfolding transact guarded
  transact-Atomic p key effect now stamp s = elim (Result-cases (fence p now s)) [
    | inr (e, h) ↦ rw (h, guarded) (inl (refl, refl))
    | inl (t, h) ↦
        let data_eq = fence-data p now s h in
        let stored_eq =
          ap (Dict.get key) (records_of_same p.workflow s t (fence-hashes p now s h)) in
        rw (h, guarded)
          (elim (owned_Atomic p.workflow key effect stamp t) [
            | inl (d, r) ↦ inl (d ∙ data_eq, r ∙ stored_eq)
            | inr (text, encoded, fresh, there, moved) ↦ inr (
              text,
              subst (λ d. effect_text codec (effect d).0 ≡ ok text) data_eq encoded,
              sym stored_eq ∙ fresh,
              there,
              moved ∙ ap (λ d. (effect d).1) data_eq,
            )
          ])
  ]

  -- Under a key that is recorded no effect moves the data again.
  pub transact_once :
      (p : Pass) (key : String) (effect : Effect Value) (now stamp : ℕ) (s : Store Value)
      (st : Stored)
      → stored_at p.workflow key s ≡ some st
      → (transact codec p key effect now stamp s).1.data' ≡ s.data'
  transact_once p key effect now stamp s st there =
      elim (transact-Atomic p key effect now stamp s) [
        | inl (d, r) ↦ d
        | inr (text, encoded, fresh, held, moved) ↦ absurd (cc (fresh, there))
      ]
