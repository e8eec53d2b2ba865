-- ===== src/Durability/Checkpointer/Records.antt =====
-- First writer wins: what a store holds under a key stays there until the workflow is discarded.
use without.Prelude.{
  ℕ, String, ◌≡◌, refl, sym, ap, subst, ◌∙◌, Bool-cases, Option, Option-cases, none, some, inl, inr,
  length, if◌then◌else◌, Result, Result-cases, ok, arith,
}
use without.Prelude.Eq.{◌==◌, string_key}
use without.Prelude.Dict
use without.Prelude.Dict.{Dict}
use without.Durability.Values.{Pass, Stored, Raised, Codec}
use without.Durability.InboxKey.{inbox_key}
use without.Durability.Checkpointer.{
  Store, Effect, records_of, put_claim, put_records, grant, claim, extend, renew, release, fence,
  guarded, keep, record_owned, record_step, effect_text, transact_owned, transact, supply, append,
}
use without.Durability.Checkpointer.Ops.{
  Op, claiming, extending, renewing, recording, transacting, supplying, appending, discarding,
  releasing, after,
}

module _ {Value : Type 0} where
  abbrev pub stored_at : String → String → Store Value → Option Stored
  stored_at w key s = Dict.get key (records_of w s)

  -- Everything that is stored in `s` is stored in `t`, with its text and its time.
  abbrev pub Kept : Store Value → Store Value → Type 0
  Kept s t =
      (w key : String) (st : Stored) → stored_at w key s ≡ some st → stored_at w key t ≡ some st

  pub records_of_same :
      (w : String) (s t : Store Value) → t.hashes ≡ s.hashes → records_of w t ≡ records_of w s
  unfolding records_of
  records_of_same w s t h = rw h

  Kept-same : (s t : Store Value) → t.hashes ≡ s.hashes → Kept s t
  Kept-same s t h w key st there = rw (records_of_same w s t h) there

  pub records_of-put_records :
      (v w : String) (r : Dict String Stored) (s : Store Value)
      → records_of w (put_records v r s) ≡ (if v == w then r else records_of w s)
  unfolding records_of put_records
  records_of-put_records v w r s = ground (arith, Dict.get-put v w r s.hashes)

  pub records_of-put_records_self :
      (v : String) (r : Dict String Stored) (s : Store Value) → records_of v (put_records v r s) ≡ r
  records_of-put_records_self v r s =
      records_of-put_records v v r s ∙ rw ((string_key.beq_iff v v).1 refl) refl

  -- Writing back records that keep what was there keeps everything.
  Kept-put_records :
      (v : String) (r : Dict String Stored) (s : Store Value)
      → ((key : String) (st : Stored) → stored_at v key s ≡ some st → Dict.get key r ≡ some st)
      → Kept s (put_records v r s)
  Kept-put_records v r s keeps w key st there = elim (Bool-cases (v == w)) [
    | inr other ↦ rw (records_of-put_records v w r s) (rw other there)
    | inl same ↦
        let e = (string_key.beq_iff v w).0 same in
        rw (records_of-put_records v w r s)
          (rw same (keeps key st (subst (λ x. stored_at x key s ≡ some st) (sym e) there)))
  ]

  Kept-put_fresh :
      (v key : String) (new : Stored) (s : Store Value)
      → stored_at v key s ≡ none
      → Kept s (put_records v (Dict.put key new (records_of v s)) s)
  Kept-put_fresh v key new s fresh =
      Kept-put_records v (Dict.put key new (records_of v s)) s (λ k st there.
        ground (arith, Dict.get-put key k new (records_of v s), string_key.beq_iff key k))

  Kept-opened : (v : String) (s : Store Value) → Kept s (put_records v (records_of v s) s)
  Kept-opened v s = Kept-put_records v (records_of v s) s (λ key st there. there)

  pub records_of-opened :
      (v w : String) (s : Store Value)
      → records_of w (put_records v (records_of v s) s) ≡ records_of w s
  records_of-opened v w s = elim (Bool-cases (v == w)) [
    | inr other ↦ records_of-put_records v w (records_of v s) s ∙ rw other refl
    | inl same ↦
        records_of-put_records v w (records_of v s) s
        ∙ rw same (ap (λ x. records_of x s) ((string_key.beq_iff v w).0 same))
  ]

  Kept-put_opened :
      (v key : String) (new : Stored) (s : Store Value)
      → stored_at v key s ≡ none
      → Kept s
          (put_records v (Dict.put key new (records_of v s)) (put_records v (records_of v s) s))
  Kept-put_opened v key new s fresh x k st there =
      let opened = put_records v (records_of v s) s in
      Kept-put_records v (Dict.put key new (records_of v s)) opened
        (λ j t held.
          let held' : Dict.get j (records_of v s) ≡ some t =
            subst (λ r. Dict.get j r ≡ some t) (records_of-opened v v s) held in
          ground (arith, Dict.get-put key j new (records_of v s), string_key.beq_iff key j))
        x k st (Kept-opened v s x k st there)

  Kept-keep : (v key : String) (new : Stored) (s : Store Value) → Kept s (keep v key new s).1
  unfolding keep
  Kept-keep v key new s = elim (Option-cases (Dict.get key (records_of v s))) [
    | inl fresh ↦ rw (fresh, keep) (Kept-put_fresh v key new s fresh)
    | inr (winner, there) ↦ rw (there, keep) (Kept-opened v s)
  ]

  pub fence-hashes :
      (p : Pass) (now : ℕ) (s : Store Value) {t : Store Value}
      → fence p now s ≡ ok t
      → t.hashes ≡ s.hashes
  unfolding fence put_claim
  fence-hashes p now s h = ground arith

  Kept-guarded :
      {A : Type 0} (p : Pass) (now : ℕ) (body : Store Value → Result Raised A × Store Value)
      (s : Store Value)
      → ((t : Store Value) → Kept t (body t).1)
      → Kept s (guarded p now body s).1
  unfolding guarded
  Kept-guarded p now body s keeps w key st there = elim (Result-cases (fence p now s)) [
    | inr (e, h) ↦ rw (h, guarded) there
    | inl (t, h) ↦
        rw (h, guarded) (keeps t w key st (Kept-same s t (fence-hashes p now s h) w key st there))
  ]

module _ {Value : Type 0} (codec : Codec Value) where
  Kept-record_owned :
      (w key : String) (v : Value) (stamp : ℕ) (s : Store Value)
      → Kept s (record_owned codec w key v stamp s).1
  unfolding record_owned
  Kept-record_owned w key v stamp s = elim (Option-cases (codec.encode v)) [
    | inl bad ↦ rw (bad, record_owned) (λ x k st there. there)
    | inr (text, good) ↦
        rw (good, record_owned) (Kept-keep w key (record { encoded = text; at = stamp }) s)
  ]

  Kept-transact_owned :
      (w key : String) (effect : Effect Value) (stamp : ℕ) (s : Store Value)
      → Kept s (transact_owned codec w key effect stamp s).1
  unfolding transact_owned put_records records_of
  Kept-transact_owned w key effect stamp s = elim (Option-cases (Dict.get key (records_of w s))) [
    | inr (stored, there) ↦ rw (there, transact_owned) (Kept-opened w s)
    | inl fresh ↦ elim (Result-cases (effect_text codec (effect s.data').0)) [
      | inr (e, h) ↦ rw (fresh, transact_owned) (rw (h, transact_owned) (Kept-opened w s))
      | inl (text, h) ↦
          rw (fresh, transact_owned)
            (rw (h, transact_owned)
              (λ x k st there.
                Kept-put_opened w key (record { encoded = text; at = stamp }) s fresh x k st there))
    ]
  ]

  Kept-supply :
      (w key : String) (v : Value) (stamp : ℕ) (s : Store Value)
      → Kept s (supply codec w key v stamp s).1
  unfolding supply
  Kept-supply w key v stamp s = elim (Option-cases (codec.encode v)) [
    | inl bad ↦ rw (bad, supply) (Kept-opened w s)
    | inr (text, good) ↦
        rw (good, supply)
          (λ x k st there.
            Kept-keep w key (record { encoded = text; at = stamp })
              (put_records w (records_of w s) s) x k st (Kept-opened w s x k st there))
  ]

  Kept-append :
      (w : String) (v : Value) (stamp : ℕ) (s : Store Value)
      → stored_at w (inbox_key (length (records_of w s))) s ≡ none
      → Kept s (append codec w v stamp s).1
  unfolding append
  Kept-append w v stamp s fresh = elim (Option-cases (codec.encode v)) [
    | inl bad ↦ rw (bad, append) (Kept-opened w s)
    | inr (text, good) ↦
        rw (good, append)
          (Kept-put_opened w (inbox_key (length (records_of w s)))
            (record { encoded = text; at = stamp }) s fresh)
  ]

  -- The calls that keep every record: all but a discard, and an append whose next key is free.
  abbrev pub KeepsRecords : Op Value → Store Value → Type 0
  KeepsRecords (discarding w) s = ⊥
  KeepsRecords (appending w v stamp) s = stored_at w (inbox_key (length (records_of w s))) s ≡ none
  KeepsRecords _ s = Unit

  pub after-Kept : (op : Op Value) (s : Store Value) → KeepsRecords op s → Kept s (after codec op s)
  unfolding after record_step transact
  after-Kept (claiming w budget alive now) s h =
      Kept-same s (claim w budget alive now s).1 (unfold claim grant put_claim in ground arith)
  after-Kept (extending p budget alive now) s h =
      Kept-same s (extend p budget alive now s).1 (unfold extend put_claim in ground arith)
  after-Kept (renewing p alive now) s h =
      Kept-same s (renew p alive now s).1 (unfold renew put_claim in ground arith)
  after-Kept (releasing p) s h =
      Kept-same s (release p s).1 (unfold release put_claim in ground arith)
  after-Kept (recording p key v now stamp) s h =
      Kept-guarded p now (record_owned codec p.workflow key v stamp) s
        (Kept-record_owned p.workflow key v stamp)
  after-Kept (transacting p key effect now stamp) s h =
      Kept-guarded p now (transact_owned codec p.workflow key effect stamp) s
        (Kept-transact_owned p.workflow key effect stamp)
  after-Kept (supplying w key v stamp) s h = Kept-supply w key v stamp s
  after-Kept (appending w v stamp) s h = Kept-append w v stamp s h
  after-Kept (discarding w) s h = absurd h

  -- First writer wins: whatever is recorded stays as it was first written, its text and its time,
  -- through every call but a discard, and through an append whose key is free.
  pub first_writer_wins :
      (op : Op Value) (s : Store Value) (w key : String) (st : Stored)
      → KeepsRecords op s
      → stored_at w key s ≡ some st
      → stored_at w key (after codec op s) ≡ some st
  first_writer_wins op s w key st keeps = after-Kept op s keeps w key st
