-- ===== src/Durability/Stepwise/Steps/New.antt =====
-- A step under a name that is new to the run and to its store.
use text.Mathlib.Text.{starts_with}
use without.Prelude.{
  String, Bool, Bool-cases, false, ◌||◌, ◌≡◌, refl, sym, ap, ◌∙◌, none, some, inl, inr, ◌∷◌,
  if◌then◌else◌, Result-cases, ok, err,
}
use without.Prelude.Eq.{string_key}
use without.Prelude.Dict
use without.Durability.Values.{Codec, Recorded}
use without.Durability.Checkpointer.{record_step}
use without.Durability.Checkpointer.Records.{stored_at}
use without.Durability.Checkpointer.Returned.{record_step-fresh}
use without.Durability.Stepwise.{
  Object, cancelled, Readings, Run, Action, Extend, and_then, inbox, is_in, claim_key,
}
use without.Durability.Stepwise.Steps.{Parse, covered, run_effect, perform}

-- A value comes back from its text.
abbrev pub RoundTrips : {V : Type 0} → Codec (Object V) → Object V → Type 0
RoundTrips codec v = (text : String) × (codec.encode v ≡ some text) × (codec.decode text ≡ some v)

-- Neither the run nor its store holds anything under the key.
abbrev pub IsNew : {V World : Type 0} → String → Run V World → Type 0
IsNew key r = (Dict.get key r.recorded ≡ none) × (stored_at r.holder.workflow key r.store ≡ none)

module _ {V World E : Type 0} (codec : Codec (Object V)) where
  -- A step under a new key, of which the store takes the record.
  pub perform-accepted :
      {A : Type 0} (extend : Extend V World E) (key : String) (parse : Parse V E A) (at : Readings)
      (v : Object V) (stopped : Bool) (r : Run V World) (held : Recorded (Object V))
      → IsNew key r
      → RoundTrips codec v
      → (record_step codec r.holder key v at.recorded at.stamp r.store).0 ≡ ok held
      → perform codec extend key parse none at (λ world. (ok v, world)) stopped r ≡ (
        if stopped then err cancelled else parse v,
        record r {
          recorded = Dict.put key v r.recorded;
          store = (record_step codec r.holder key v at.recorded at.stamp r.store).1;
        },
      )
  unfolding perform covered run_effect
  perform-accepted extend key parse at v stopped r held (fresh, absent) (text, encodes, decodes)
        fine =
      let write = record_step codec r.holder key v at.recorded at.stamp r.store in
      let same =
        record_step-fresh codec r.holder key v v text at.recorded at.stamp r.store held absent
          encodes decodes fine in
      rw (fresh, perform)
        (rw fine (
          ap
            (λ u. (
              if stopped then err cancelled else parse u,
              record r { recorded = Dict.put key u r.recorded; store = write.1 },
            ))
            same))

  pub perform-new :
      {A : Type 0} (extend : Extend V World E) (key : String) (parse : Parse V E A) (at : Readings)
      (v : Object V) (stopped : Bool) (r : Run V World) (a : A)
      → IsNew key r
      → RoundTrips codec v
      → (perform codec extend key parse none at (λ world. (ok v, world)) stopped r).0 ≡ ok a
      → (parse v ≡ ok a)
        × (Dict.get key
              (perform codec extend key parse none at (λ world. (ok v, world)) stopped r).1.recorded
            ≡ some v)
  unfolding perform covered run_effect
  perform-new extend key parse at v stopped r a new trips h =
      let write = record_step codec r.holder key v at.recorded at.stamp r.store in
      elim (Result-cases write.0) [
        | inr (e, failed) ↦ elim (Bool-cases stopped) [
          | inl halt ↦ absurd (cc (rw halt at (rw failed at (rw (new.0, perform) at h))))
          | inr go ↦ absurd (cc (rw go at (rw failed at (rw (new.0, perform) at h))))
        ]
        | inl (held, fine) ↦
            let left = perform-accepted extend key parse at v stopped r held new trips fine in
            elim (Bool-cases stopped) [
              | inl halt ↦ absurd (cc (rw halt at (sym (ap (λ p. p.0) left) ∙ h)))
              | inr go ↦ (
                rw go at (sym (ap (λ p. p.0) left) ∙ h),
                ap (λ p. Dict.get key p.1.recorded) left
                    ∙ Dict.get-put key key v r.recorded
                    ∙ rw ((string_key.beq_iff key key).1 refl) refl,
              )
            ]
      ]

  -- A name that a run has not used is claimed.
  pub claim_key-free :
      {A : Type 0} (key : String) (m : Action V World E A) (r : Run V World)
      → (starts_with key inbox || is_in key r.claimed) ≡ false
      → and_then (claim_key key) (λ _. m) r ≡ m (record r { claimed = key ∷ r.claimed })
  unfolding claim_key
  claim_key-free key m r free =
      let granted : claim_key {E = E} key r ≡ (ok tt, record r { claimed = key ∷ r.claimed }) =
        rw (free, claim_key) refl in
      ap (λ p. elim p.0 [ err e ↦ (err e, p.1) | ok _ ↦ m p.1 ]) granted

  pub claim_key-ok :
      {A : Type 0} (key : String) (m : Action V World E A) (r : Run V World) (a : A)
      → (and_then (claim_key key) (λ _. m) r).0 ≡ ok a
      → (starts_with key inbox || is_in key r.claimed) ≡ false
  unfolding claim_key
  claim_key-ok key m r a h = elim (Bool-cases (starts_with key inbox || is_in key r.claimed)) [
    | inl refused ↦ absurd (cc (rw (refused, claim_key, and_then) at h))
    | inr free ↦ free
  ]
