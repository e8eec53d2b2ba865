-- ===== src/Durability/Checkpointer.antt =====
-- `MemoryCheckpointer` of packages/without_durability/src/without_durability/memory.py
--
-- A method takes the store and returns it beside the result or the exception: what was written
-- before a raise stays written. A reading of the monotonic clock is the argument `now`, and one of
-- the store's own clock is `stamp`.
pub mod Reads
pub mod Ops
pub mod Tokens
pub mod Fencing
pub mod Records
pub mod Inbox
pub mod Fresh
pub mod Budget
pub mod Transact
pub mod Returned
mod Samples
use without.Prelude.{
  ℕ, ◌+◌, min, max, String, Bool, true, false, ◌||◌, Option, none, some, List, [], length, ltb, leb,
  nat_eq, if◌then◌else◌, Result, ok, err,
}
use without.Prelude.Eq.{◌==◌, string_key}
use without.Prelude.Dict
use without.Prelude.Dict.{Dict}
use without.Durability.Values.{
  Pass, Stored, Claim, heard_from, over, Recorded, Entry, Raised, fenced, key_error, refused,
  effect_failed, Codec,
}
use without.Durability.InboxKey.{inbox_key}

pub record Store (Value : Type 0) : Type 0 where
  pub hashes : Dict String (Dict String Stored)
  pub claims : Dict String Claim
  pub data' : Dict String Value

-- A store as the dataclass makes it.
abbrev pub start : {Value : Type 0} → Store Value
start = record { hashes = []; claims = []; data' = [] }

-- An effect over the store's data: what it left there, and its result unless it raised.
abbrev pub Effect : Type 0 → Type 0
Effect Value = Dict String Value → Option Value × Dict String Value

module _ {Value : Type 0} where
  -- `hashes.get(workflow, {})`
  unfoldable pub records_of : String → Store Value → Dict String Stored
  records_of workflow s = elim (Dict.get workflow s.hashes) [ none ↦ [] | some records ↦ records ]

  unfoldable pub put_claim : String → Claim → Store Value → Store Value
  put_claim workflow c s = record s { claims = Dict.put workflow c s.claims }

  unfoldable pub put_records : String → Dict String Stored → Store Value → Store Value
  put_records workflow records s = record s { hashes = Dict.put workflow records s.hashes }

  -- The claim that `claim` takes, under a token of its own.
  unfoldable pub grant :
      String → (token budget alive now : ℕ) → Store Value → Option Pass × Store Value
  grant workflow token budget alive now s = (
    some (record { workflow = workflow; token = token }),
    put_claim workflow
        (record {
          token = token;
          held_until = now + budget;
          alive_until = now + min alive budget;
          alive = alive;
        })
        s,
  )

  -- `claim`
  unfoldable pub claim : String → (budget alive now : ℕ) → Store Value → Option Pass × Store Value
  claim workflow budget alive now s = elim (Dict.get workflow s.claims) [
    | none ↦ grant workflow 1 budget alive now s
    | some held ↦
        if ltb now held.alive_until
        then (none, s)
        else grant workflow (held.token + 1) budget alive now s
  ]

  -- `extend`
  unfoldable pub extend :
      Pass → (budget alive now : ℕ) → Store Value → Result Raised Bool × Store Value
  extend holder budget alive now s = elim (Dict.get holder.workflow s.claims) [
    | none ↦ (err key_error, s)
    | some held ↦
        if ltb holder.token held.token
        then (ok false, s)
        else (let granted = record held {
          held_until = max held.held_until (now + budget);
          alive = alive;
        } in
            (ok true, put_claim holder.workflow (heard_from granted now) s))
  ]

  -- `renew`
  unfoldable pub renew : Pass → (alive now : ℕ) → Store Value → Result Raised Bool × Store Value
  renew holder alive now s = elim (Dict.get holder.workflow s.claims) [
    | none ↦ (err key_error, s)
    | some held ↦
        if ltb holder.token held.token || leb held.held_until now
        then (ok false, s)
        else (ok true, put_claim holder.workflow (heard_from (record held { alive = alive }) now) s)
  ]

  -- `release`
  unfoldable pub release : Pass → Store Value → Result Raised (Unit {0}) × Store Value
  release holder s = elim (Dict.get holder.workflow s.claims) [
    | none ↦ (err key_error, s)
    | some held ↦
        if nat_eq holder.token held.token
        then (ok tt, put_claim holder.workflow (over held) s)
        else (ok tt, s)
  ]

  -- `discard`
  unfoldable pub discard : String → Store Value → ℕ × Store Value
  discard workflow s =
      let removed = records_of workflow s in
      let s' = record s { hashes = Dict.remove workflow s.hashes } in
      elim (Dict.get workflow s.claims) [
        | none ↦ (length removed, s')
        | some superseded ↦ (
          length removed,
          put_claim workflow (over (record superseded { token = superseded.token + 1 })) s',
        )
      ]

  -- The fence of `record` and `transact`, and `wrote`: the claim as it stands when the write goes on.
  unfoldable pub fence : Pass → ℕ → Store Value → Result Raised (Store Value)
  fence holder now s = elim (Dict.get holder.workflow s.claims) [
    | none ↦ err key_error
    | some held ↦
        if ltb holder.token held.token
        then err fenced
        else ok (put_claim holder.workflow (heard_from held now) s)
  ]

  -- A write behind the fence: a pass that does not own the workflow changes nothing.
  unfoldable pub guarded {ℓ} :
      {A : Type ℓ}
      → Pass
      → ℕ
      → (Store Value → Result Raised A × Store Value)
      → Store Value
      → Result Raised A × Store Value
  guarded holder now body s = elim (fence holder now s) [ err e ↦ (err e, s) | ok s' ↦ body s' ]

  -- `hashes.setdefault(workflow, {}).setdefault(key, stored)`: what is stored afterwards.
  unfoldable pub keep : String → String → Stored → Store Value → Stored × Store Value
  keep workflow key stored s =
      let records = records_of workflow s in
      elim (Dict.get key records) [
        | some winner ↦ (winner, put_records workflow records s)
        | none ↦ (stored, put_records workflow (Dict.put key stored records) s)
      ]

module _ {Value : Type 0} (codec : Codec Value) where
  open codec use {encode, decode}

  abbrev pub decoded : String → Result Raised Value
  decoded text = elim (decode text) [ none ↦ err refused | some v ↦ ok v ]

  -- `record`, and what it does once the pass is past the fence.
  unfoldable pub record_owned :
      String
      → String
      → Value
      → (stamp : ℕ) → Store Value
      → Result Raised (Recorded Value) × Store Value
  record_owned workflow key value stamp s = elim (encode value) [
    | none ↦ (err refused, s)
    | some encoded ↦
        let (stored, s') = keep workflow key (record { encoded = encoded; at = stamp }) s in
        (
          elim (decoded stored.encoded) [
            | err e ↦ err e
            | ok v ↦ ok (record { value = v; first = stored.encoded == encoded })
          ],
          s',
        )
  ]

  unfoldable pub record_step :
      Pass
      → String
      → Value
      → (now stamp : ℕ) → Store Value
      → Result Raised (Recorded Value) × Store Value
  record_step holder key value now stamp =
      guarded holder now (record_owned holder.workflow key value stamp)

  -- What an effect and the encoding of its result come to; `none` if either raised.
  abbrev pub effect_text : Option Value → Result Raised String
  effect_text none = err effect_failed
  effect_text (some v) = elim (encode v) [ none ↦ err refused | some text ↦ ok text ]

  -- `transact`, whose snapshot is put back on any exception, once the pass is past the fence.
  unfoldable pub transact_owned :
      String → String → Effect Value → (stamp : ℕ) → Store Value → Result Raised Value × Store Value
  transact_owned workflow key effect stamp s =
      let recorded = records_of workflow s in
      let opened = put_records workflow recorded s in
      elim (Dict.get key recorded) [
        | some stored ↦ (decoded stored.encoded, opened)
        | none ↦ elim (effect_text (effect s.data').0) [
          | err e ↦ (err e, opened)
          | ok text ↦ (
            decoded text,
            record (put_records workflow
                (Dict.put key (record { encoded = text; at = stamp }) recorded) opened) {
                  data' = (effect s.data').1;
                },
          )
        ]
      ]

  unfoldable pub transact :
      Pass
      → String
      → Effect Value
      → (now stamp : ℕ) → Store Value
      → Result Raised Value × Store Value
  transact holder key effect now stamp =
      guarded holder now (transact_owned holder.workflow key effect stamp)

  -- `supply`: the workflow's dict is there before the value is encoded.
  unfoldable pub supply :
      String → String → Value → (stamp : ℕ) → Store Value → Result Raised Value × Store Value
  supply workflow key value stamp s =
      let opened = put_records workflow (records_of workflow s) s in
      elim (encode value) [
        | none ↦ (err refused, opened)
        | some encoded ↦
            let (stored, s') =
              keep workflow key (record { encoded = encoded; at = stamp }) opened in
            (decoded stored.encoded, s')
      ]

  -- `append`
  unfoldable pub append :
      String → Value → (stamp : ℕ) → Store Value → Result Raised (Entry Value) × Store Value
  append workflow value stamp s =
      let recorded = records_of workflow s in
      let opened = put_records workflow recorded s in
      let key = inbox_key (length recorded) in
      elim (encode value) [
        | none ↦ (err refused, opened)
        | some encoded ↦ (
          elim (decoded encoded) [ err e ↦ err e | ok v ↦ ok (record { key = key; value = v }) ],
          put_records workflow (Dict.put key (record { encoded = encoded; at = stamp }) recorded)
              opened,
        )
      ]
