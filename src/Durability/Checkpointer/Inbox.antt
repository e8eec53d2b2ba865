-- ===== src/Durability/Checkpointer/Inbox.antt =====
-- The key that `append` assigns is not taken.
use native.Mathlib.Decide.{dec_lt}
use native.Mathlib.Nat.{le_refl}
use without.Prelude.{
  ltb, ltb→lt, ℕ, ◌≤◌, ◌<◌, ◌^◌, String, ◌≡◌, ◌≢◌, refl, sym, subst, true, false, Bool, Bool-cases,
  Option-cases, none, inl, inr, [], length, if◌then◌else◌, Result, Result-cases, arith,
}
use without.Prelude.Eq.{◌==◌, string_key}
use without.Prelude.Dict
use without.Prelude.Dict.{Dict}
use without.Durability.Values.{Pass, Stored, Raised}
use without.Durability.InboxKey.{inbox_key, inbox_digits}
use without.Durability.InboxKey.Order.{inbox_key-injective}
use without.Durability.Checkpointer.{
  Store, start, records_of, put_claim, put_records, discard, fence, guarded, keep,
}
use without.Durability.Checkpointer.Ops.{after}
use without.Durability.Checkpointer.Records.{fence-hashes, records_of-put_records, records_of_same}

-- No inbox key from the count of the records on is taken, as far as twenty digits reach.
abbrev pub IsFree : Dict String Stored → Type 0
IsFree r = (n : ℕ) → length r ≤ n → n < 10 ^ inbox_digits → Dict.get (inbox_key n) r ≡ none

-- Not an inbox key: `Run.claim` refuses a step under one.
abbrev pub IsPlain : String → Type 0
IsPlain key = (n : ℕ) → n < 10 ^ inbox_digits → key ≢ inbox_key n

pub IsFree-nil : IsFree []
unfolding Dict.get
IsFree-nil n h k = refl

pub IsFree-put_plain :
    (key : String) (st : Stored) (r : Dict String Stored)
    → IsPlain key
    → Dict.get key r ≡ none
    → IsFree r
    → IsFree (Dict.put key st r)
IsFree-put_plain key st r plain fresh free n h k =
    let longer = Dict.length-put key st r fresh in
    ground (
      arith,
      Dict.get-put key (inbox_key n) st r,
      string_key.beq_iff key (inbox_key n),
      plain n k,
      free n,
    )

length-put-ge :
    (key : String) (st : Stored) (r : Dict String Stored) → length r ≤ length (Dict.put key st r)
length-put-ge key st r = elim (Option-cases (Dict.get key r)) [
  | inl fresh ↦ omega (arith, Dict.length-put key st r fresh)
  | inr (old, there) ↦ omega (arith, Dict.length-put_present key st old r there)
]

pub IsFree-put_next :
    (st : Stored) (r : Dict String Stored)
    → IsFree r
    → IsFree (Dict.put (inbox_key (length r)) st r)
IsFree-put_next st r free n h k = elim (Bool-cases (ltb (length r) n)) [
  | inl before ↦
      let apart : inbox_key (length r) ≢ inbox_key n = λ e. omega (
        arith,
        inbox_key-injective (length r) n (omega (arith, ltb→lt (length r) n before)) k e,
        ltb→lt (length r) n before,
      ) in
      ground (
        arith,
        Dict.get-put (inbox_key (length r)) (inbox_key n) st r,
        string_key.beq_iff (inbox_key (length r)) (inbox_key n),
        free n (omega (arith, ltb→lt (length r) n before)) k,
        apart,
      )
  | inr after ↦ absurd (elim (dec_lt (length r) (10 ^ inbox_digits)) [
    | yes fits ↦ ground (
      arith,
      Dict.length-put (inbox_key (length r)) st r (free (length r) (le_refl (length r)) fits),
    )
    | no big ↦ ground (arith, length-put-ge (inbox_key (length r)) st r)
  ])
]

pub IsFree-if :
    (b : Bool) (r r' : Dict String Stored) → IsFree r → IsFree r' → IsFree (if b then r else r')
IsFree-if true r r' h h' = h
IsFree-if false r r' h h' = h'

module _ {Value : Type 0} where
  abbrev pub IsOrderly : Store Value → Type 0
  IsOrderly s = (w : String) → IsFree (records_of w s)

  pub IsOrderly-same : (s t : Store Value) → t.hashes ≡ s.hashes → IsOrderly s → IsOrderly t
  IsOrderly-same s t h orderly w = subst IsFree (sym (records_of_same w s t h)) (orderly w)

  pub IsOrderly-put_records :
      (v : String) (r : Dict String Stored) (s : Store Value)
      → IsFree r
      → IsOrderly s
      → IsOrderly (put_records v r s)
  IsOrderly-put_records v r s free orderly w =
      subst IsFree (sym (records_of-put_records v w r s))
        (IsFree-if (v == w) r (records_of w s) free (orderly w))

  pub IsOrderly-opened :
      (v : String) (s : Store Value) → IsOrderly s → IsOrderly (put_records v (records_of v s) s)
  IsOrderly-opened v s orderly = IsOrderly-put_records v (records_of v s) s (orderly v) orderly

  pub IsOrderly-keep :
      (v key : String) (new : Stored) (s : Store Value)
      → IsPlain key
      → IsOrderly s
      → IsOrderly (keep v key new s).1
  unfolding keep
  IsOrderly-keep v key new s plain orderly = elim (Option-cases (Dict.get key (records_of v s))) [
    | inl fresh ↦
        rw (fresh, keep)
          (IsOrderly-put_records v _ s
            (IsFree-put_plain key new (records_of v s) plain fresh (orderly v)) orderly)
    | inr (winner, there) ↦ rw (there, keep) (IsOrderly-opened v s orderly)
  ]

  pub IsOrderly-guarded :
      {A : Type 0} (p : Pass) (now : ℕ) (body : Store Value → Result Raised A × Store Value)
      (s : Store Value)
      → ((t : Store Value) → IsOrderly t → IsOrderly (body t).1)
      → IsOrderly s
      → IsOrderly (guarded p now body s).1
  unfolding guarded
  IsOrderly-guarded p now body s keeps orderly = elim (Result-cases (fence p now s)) [
    | inr (e, h) ↦ rw (h, guarded) orderly
    | inl (t, h) ↦ rw (h, guarded) (keeps t (IsOrderly-same s t (fence-hashes p now s h) orderly))
  ]

  pub records_of-discard :
      (v w : String) (s : Store Value)
      → records_of w (discard v s).1 ≡ (if v == w then [] else records_of w s)
  unfolding records_of discard put_claim
  records_of-discard v w s = ground (arith, Dict.get-remove v w s.hashes)

  pub IsOrderly-discard : (v : String) (s : Store Value) → IsOrderly s → IsOrderly (discard v s).1
  IsOrderly-discard v s orderly w =
      subst IsFree (sym (records_of-discard v w s))
        (IsFree-if (v == w) [] (records_of w s) IsFree-nil (orderly w))

pub IsOrderly-start : (Value : Type 0) → IsOrderly (start {Value = Value})
unfolding records_of Dict.get
IsOrderly-start Value w = IsFree-nil
