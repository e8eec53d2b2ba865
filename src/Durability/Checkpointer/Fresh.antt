-- ===== src/Durability/Checkpointer/Fresh.antt =====
-- The key that `append` assigns is not taken, in any store that calls on an empty one lead to.
use native.Mathlib.Nat.{le_refl}
use without.Prelude.{
  ℕ, ◌+◌, ◌<◌, ◌^◌, String, ◌≡◌, refl, ap, ◌∙◌, Option-cases, none, some, inl, inr, List, [], ◌∷◌,
  length, All, Result-cases, arith,
}
use without.Prelude.Eq.{string_key}
use without.Prelude.Dict
use without.Prelude.Dict.{Dict}
use without.Durability.Values.{Stored, Codec}
use without.Durability.InboxKey.{inbox_key, inbox_digits}
use without.Durability.Checkpointer.{
  Store, start, Effect, records_of, put_claim, put_records, grant, claim, extend, renew, release,
  record_owned, record_step, effect_text, transact_owned, transact, supply, append,
}
use without.Durability.Checkpointer.Ops.{
  Op, claiming, extending, renewing, recording, transacting, supplying, appending, discarding,
  releasing, after, run,
}
use without.Durability.Checkpointer.Records.{stored_at, records_of-put_records_self}
use without.Durability.Checkpointer.Inbox.{
  IsPlain, IsFree-put_plain, IsFree-put_next, IsOrderly, IsOrderly-same, IsOrderly-put_records,
  IsOrderly-opened, IsOrderly-keep, IsOrderly-guarded, IsOrderly-discard, IsOrderly-start,
}

module _ {Value : Type 0} (codec : Codec Value) where
  IsOrderly-record_owned :
      (w key : String) (v : Value) (stamp : ℕ) (s : Store Value)
      → IsPlain key
      → IsOrderly s
      → IsOrderly (record_owned codec w key v stamp s).1
  unfolding record_owned
  IsOrderly-record_owned w key v stamp s plain orderly = elim (Option-cases (codec.encode v)) [
    | inl bad ↦ rw (bad, record_owned) orderly
    | inr (text, good) ↦ rw (good, record_owned) (IsOrderly-keep w key _ s plain orderly)
  ]

  IsOrderly-transact_owned :
      (w key : String) (effect : Effect Value) (stamp : ℕ) (s : Store Value)
      → IsPlain key
      → IsOrderly s
      → IsOrderly (transact_owned codec w key effect stamp s).1
  unfolding transact_owned put_records records_of
  IsOrderly-transact_owned w key effect stamp s plain orderly =
      let opened = put_records w (records_of w s) s in
      elim (Option-cases (Dict.get key (records_of w s))) [
        | inr (stored, there) ↦ rw (there, transact_owned) (IsOrderly-opened w s orderly)
        | inl fresh ↦ elim (Result-cases (effect_text codec (effect s.data').0)) [
          | inr (e, h) ↦
              rw (fresh, transact_owned) (rw (h, transact_owned) (IsOrderly-opened w s orderly))
          | inl (text, h) ↦
              rw (fresh, transact_owned)
                (rw (h, transact_owned)
                  (IsOrderly-put_records w
                    (Dict.put key (record { encoded = text; at = stamp }) (records_of w s)) opened
                    (IsFree-put_plain key _ (records_of w s) plain fresh (orderly w))
                    (IsOrderly-opened w s orderly)))
        ]
      ]

  IsOrderly-supply :
      (w key : String) (v : Value) (stamp : ℕ) (s : Store Value)
      → IsPlain key
      → IsOrderly s
      → IsOrderly (supply codec w key v stamp s).1
  unfolding supply
  IsOrderly-supply w key v stamp s plain orderly =
      let opened = IsOrderly-opened w s orderly in
      elim (Option-cases (codec.encode v)) [
        | inl bad ↦ rw (bad, supply) opened
        | inr (text, good) ↦ rw (good, supply) (IsOrderly-keep w key _ _ plain opened)
      ]

  IsOrderly-append :
      (w : String) (v : Value) (stamp : ℕ) (s : Store Value)
      → IsOrderly s
      → IsOrderly (append codec w v stamp s).1
  unfolding append
  IsOrderly-append w v stamp s orderly =
      let opened = IsOrderly-opened w s orderly in
      elim (Option-cases (codec.encode v)) [
        | inl bad ↦ rw (bad, append) opened
        | inr (text, good) ↦
            rw (good, append)
              (IsOrderly-put_records w _ _ (IsFree-put_next _ (records_of w s) (orderly w)) opened)
      ]

  -- A call that names no inbox key of its own.
  abbrev pub IsPlainOp : Op Value → Type 0
  IsPlainOp (recording p key v now stamp) = IsPlain key
  IsPlainOp (transacting p key effect now stamp) = IsPlain key
  IsPlainOp (supplying w key v stamp) = IsPlain key
  IsPlainOp _ = Unit

  pub after-IsOrderly :
      (op : Op Value) (s : Store Value) → IsPlainOp op → IsOrderly s → IsOrderly (after codec op s)
  unfolding after record_step transact
  after-IsOrderly (claiming w budget alive now) s h =
      IsOrderly-same s (claim w budget alive now s).1 (unfold claim grant put_claim in ground arith)
  after-IsOrderly (extending p budget alive now) s h =
      IsOrderly-same s (extend p budget alive now s).1 (unfold extend put_claim in ground arith)
  after-IsOrderly (renewing p alive now) s h =
      IsOrderly-same s (renew p alive now s).1 (unfold renew put_claim in ground arith)
  after-IsOrderly (releasing p) s h =
      IsOrderly-same s (release p s).1 (unfold release put_claim in ground arith)
  after-IsOrderly (recording p key v now stamp) s h =
      IsOrderly-guarded p now (record_owned codec p.workflow key v stamp) s
        (λ t. IsOrderly-record_owned p.workflow key v stamp t h)
  after-IsOrderly (transacting p key effect now stamp) s h =
      IsOrderly-guarded p now (transact_owned codec p.workflow key effect stamp) s
        (λ t. IsOrderly-transact_owned p.workflow key effect stamp t h)
  after-IsOrderly (supplying w key v stamp) s h = IsOrderly-supply w key v stamp s h
  after-IsOrderly (appending w v stamp) s h = IsOrderly-append w v stamp s
  after-IsOrderly (discarding w) s h = IsOrderly-discard w s

  pub run-IsOrderly :
      (ops : List (Op Value)) (s : Store Value)
      → All IsPlainOp ops
      → IsOrderly s
      → IsOrderly (run codec ops s)
  unfolding run
  run-IsOrderly [] s h orderly = orderly
  run-IsOrderly (op ∷ ops) s (h, hs) orderly =
      run-IsOrderly ops (after codec op s) hs (after-IsOrderly op s h orderly)

  append-records_of :
      (w : String) (v : Value) (stamp : ℕ) (s : Store Value) {text : String}
      → codec.encode v ≡ some text
      → records_of w (append codec w v stamp s).1
        ≡ Dict.put
            (inbox_key (length (records_of w s)))
            (record { encoded = text; at = stamp })
            (records_of w s)
  unfolding append
  append-records_of w v stamp s good = rw (good, append) (records_of-put_records_self w _ _)

  -- After any calls on an empty store that name no inbox key themselves, and as far as twenty digits
  -- reach, an append of a value that encodes to `text` assigns a key that nothing was stored under,
  -- stores `text` there, and leaves the workflow with one record more.
  pub append_fresh :
      (ops : List (Op Value)) (w : String) (v : Value) (stamp : ℕ) (text : String)
      → All IsPlainOp ops
      → length (records_of w (run codec ops start)) < 10 ^ inbox_digits
      → codec.encode v ≡ some text
      → (stored_at w (inbox_key (length (records_of w (run codec ops start)))) (run codec ops start)
          ≡ none)
        × (stored_at w
              (inbox_key (length (records_of w (run codec ops start))))
              (append codec w v stamp (run codec ops start)).1
            ≡ some (record { encoded = text; at = stamp }))
        × (length (records_of w (append codec w v stamp (run codec ops start)).1)
            ≡ length (records_of w (run codec ops start)) + 1)
  append_fresh ops w v stamp text plain few good =
      let s = run codec ops start in
      let key = inbox_key (length (records_of w s)) in
      let st : Stored = record { encoded = text; at = stamp } in
      let fresh =
        run-IsOrderly ops start plain (IsOrderly-start Value) w (length (records_of w s))
          (le_refl _) few in
      let written = append-records_of w v stamp s good in
      (
        fresh,
        ap (Dict.get key) written
            ∙ Dict.get-put key key st (records_of w s)
            ∙ rw ((string_key.beq_iff key key).1 refl) refl,
        ap length written ∙ Dict.length-put key st (records_of w s) fresh,
      )
