-- ===== src/Durability/Stepwise/Steps/Follows.antt =====
-- Calls that forget nothing: what is recorded stays, and the store holds all of it.
use without.Prelude.{
  ℕ, String, Bool-cases, ◌≡◌, refl, sym, subst, ◌∙◌, none, some, inl, inr, some-cancel,
}
use without.Prelude.Eq.{◌==◌, string_key}
use without.Prelude.Dict
use without.Prelude.Dict.{Dict}
use without.Durability.Values.{Pass, Codec}
use without.Durability.Checkpointer.{Store}
use without.Durability.Checkpointer.Records.{Kept}
use without.Durability.Checkpointer.Returned.{Holds, Holds-Kept}
use without.Durability.Stepwise.{Object, Readings, Run, Extend}

module _ {V : Type 0} where
  -- Whatever is recorded in the one is recorded in the other.
  abbrev pub Knows : Dict String (Object V) → Dict String (Object V) → Type 0
  Knows d f = (key : String) (v : Object V) → Dict.get key d ≡ some v → Dict.get key f ≡ some v

  Knows-put :
      (key : String) (v : Object V) (d : Dict String (Object V))
      → Dict.get key d ≡ none
      → Knows d (Dict.put key v d)
  Knows-put key v d fresh k u there = elim (Bool-cases (key == k)) [
    | inl same ↦ absurd (
        cc (
          fresh,
          subst (λ x. Dict.get x d ≡ some u) (sym ((string_key.beq_iff key k).0 same)) there,
        ))
    | inr other ↦ Dict.get-put key k v d ∙ rw other there
  ]

  pub get-put_self :
      (key : String) (v : Object V) (d : Dict String (Object V))
      → Dict.get key (Dict.put key v d) ≡ some v
  get-put_self key v d = Dict.get-put key key v d ∙ rw ((string_key.beq_iff key key).1 refl) refl

module _ {V World : Type 0} (codec : Codec (Object V)) where
  -- What a run has recorded, its store holds.
  abbrev pub IsMirrored : Run V World → Type 0
  IsMirrored r =
      (key : String) (v : Object V)
      → Dict.get key r.recorded ≡ some v
      → Holds codec r.holder.workflow key v r.store

  -- What a call leaves of a run: it forgets no record, and suspends nowhere.
  abbrev pub Follows : Run V World → Run V World → Type 0
  Follows r r' =
      Knows r.recorded r'.recorded
      × (r'.holder ≡ r.holder)
      × (r'.reached ≡ r.reached)
      × (IsMirrored r → IsMirrored r')

  pub Follows-refl : (r : Run V World) → Follows r r
  Follows-refl r = (λ k v h. h, refl, refl, λ m. m)

  pub Follows-trans : (r s t : Run V World) → Follows r s → Follows s t → Follows r t
  Follows-trans r s t (knows, holder, reached, mirrored) (knows', holder', reached', mirrored') = (
    λ k v h. knows' k v (knows k v h),
    holder' ∙ holder,
    reached' ∙ reached,
    λ m. mirrored' (mirrored m),
  )

  pub Follows-write :
      (r : Run V World) (s : Store (Object V)) (world : World)
      → Kept r.store s
      → Follows r (record r { store = s; world = world })
  Follows-write r s world kept = (
    λ k v h. h,
    refl,
    refl,
    λ m k v there. Holds-Kept codec r.holder.workflow k v r.store s kept (m k v there),
  )

  pub Follows-record :
      (r : Run V World) (key : String) (v : Object V) (s : Store (Object V)) (world : World)
      → Dict.get key r.recorded ≡ none
      → Kept r.store s
      → Holds codec r.holder.workflow key v s
      → Follows r (record r { recorded = Dict.put key v r.recorded; store = s; world = world })
  Follows-record r key v s world fresh kept holds = (
    Knows-put key v r.recorded fresh,
    refl,
    refl,
    λ m k u there. elim (Bool-cases (key == k)) [
      | inl same ↦
          let e : v ≡ u =
            some-cancel (rw same at (rw (Dict.get-put key k v r.recorded) at there)) in
          subst (λ x. Holds codec r.holder.workflow x u s) ((string_key.beq_iff key k).0 same)
            (subst (λ x. Holds codec r.holder.workflow key x s) e holds)
      | inr other ↦
          Holds-Kept codec r.holder.workflow k u r.store s kept
            (m k u (rw other at (rw (Dict.get-put key k v r.recorded) at there)))
    ],
  )

-- An `extend` leaves every record as it stands.
abbrev pub KeepsRecords : {V World E : Type 0} → Extend V World E → Type 0
KeepsRecords {V} {World} extend =
    (p : Pass) (budget : ℕ) (at : Readings) (s : Store (Object V)) (w : World)
    → Kept s (extend p budget at (s, w)).1.0
