-- ===== src/Durability/SplitDurable/Arrivals.antt =====
-- A value that arrives twice is recorded once, and a deleted workflow leaves nothing behind.
use without.Prelude.{
  ℕ, String, ◌≡◌, ◌≢◌, refl, sym, ap, ◌∙◌, Option-cases, none, some, inl, inr, [], All, length,
  arith,
}
use without.Prelude.Eq.{string_key}
use without.Prelude.Dict
use without.Durability.Values.{Stored, Codec}
use without.Durability.Checkpointer.{Store, records_of, put_records, keep, decoded, supply, discard}
use without.Durability.Checkpointer.Records.{
  stored_at, records_of-put_records_self, records_of-opened,
}
use without.Durability.Checkpointer.Inbox.{records_of-discard}
use without.Durability.Scheduler.Cancel.{cancel_forgets}
use without.Durability.SplitDurable.{SplitDurable, then_ready, arrive, delete}

module _ {Value : Type 0} where
  keep-stored :
      (w key : String) (new : Stored) (s : Store Value)
      → stored_at w key (keep w key new s).1 ≡ some (keep w key new s).0
  unfolding keep
  keep-stored w key new s = elim (Option-cases (Dict.get key (records_of w s))) [
    | inl fresh ↦
        rw (fresh, keep)
          (ap (Dict.get key) (records_of-put_records_self w _ s)
            ∙ Dict.get-put key key new (records_of w s)
            ∙ rw ((string_key.beq_iff key key).1 refl) refl)
    | inr (winner, there) ↦
        rw (there, keep)
          (ap (Dict.get key) (records_of-put_records_self w (records_of w s) s) ∙ there)
  ]

  keep_present :
      (w key : String) (new st : Stored) (s : Store Value)
      → stored_at w key s ≡ some st
      → ((keep w key new s).0 ≡ st) × (records_of w (keep w key new s).1 ≡ records_of w s)
  unfolding keep
  keep_present w key new st s there =
      rw (there, keep) (refl, records_of-put_records_self w (records_of w s) s)

module _ {Value : Type 0} (codec : Codec Value) where
  -- What `supply` answers is the text that is recorded afterwards, decoded.
  supply-stored :
      (w key : String) (v : Value) (stamp : ℕ) (s : Store Value) {text : String}
      → codec.encode v ≡ some text
      → (st : Stored) × (stored_at w key (supply codec w key v stamp s).1 ≡ some st)
        × ((supply codec w key v stamp s).0 ≡ decoded codec st.encoded)
  unfolding supply
  supply-stored w key v stamp s {text} good =
      let opened = put_records w (records_of w s) s in
      let new : Stored = record { encoded = text; at = stamp } in
      rw (good, supply) ((keep w key new opened).0, keep-stored w key new opened, refl)

  supply_present :
      (w key : String) (v : Value) (stamp : ℕ) (s : Store Value) (st : Stored) {text : String}
      → codec.encode v ≡ some text
      → stored_at w key s ≡ some st
      → ((supply codec w key v stamp s).0 ≡ decoded codec st.encoded)
        × (records_of w (supply codec w key v stamp s).1 ≡ records_of w s)
  unfolding supply
  supply_present w key v stamp s st {text} good there =
      let opened = put_records w (records_of w s) s in
      let new : Stored = record { encoded = text; at = stamp } in
      let (same, kept) = keep_present w key new st opened (rw (records_of-opened w w s) there) in
      rw (good, supply) (ap (λ x. decoded codec x.encoded) same, kept ∙ records_of-opened w w s)

  arrive-fields :
      (w key : String) (v : Value) (stamp : ℕ) (d : SplitDurable Value)
      → ((arrive codec w key v stamp d).0 ≡ (supply codec w key v stamp d.checkpointer).0)
        × ((arrive codec w key v stamp d).1.checkpointer
            ≡ (supply codec w key v stamp d.checkpointer).1)
  unfolding arrive then_ready
  arrive-fields w key v stamp d = ground arith

  -- A second arrival under a key, of whatever value encodes, answers as the first did and leaves the
  -- workflow's records as the first left them.
  pub arrive_again :
      (w key : String) (v v' : Value) (stamp stamp' : ℕ) (d : SplitDurable Value)
      (text text' : String)
      → codec.encode v ≡ some text
      → codec.encode v' ≡ some text'
      → ((arrive codec w key v' stamp' (arrive codec w key v stamp d).1).0
          ≡ (arrive codec w key v stamp d).0)
        × (records_of w
              (arrive codec w key v' stamp' (arrive codec w key v stamp d).1).1.checkpointer
            ≡ records_of w (arrive codec w key v stamp d).1.checkpointer)
  arrive_again w key v v' stamp stamp' d text text' good good' =
      let once = (arrive codec w key v stamp d).1 in
      let (answer, store) = arrive-fields w key v stamp d in
      let (answer', store') = arrive-fields w key v' stamp' once in
      let (st, there, first) = supply-stored w key v stamp d.checkpointer good in
      let (second, kept) =
        supply_present w key v' stamp' once.checkpointer st good'
          (ap (stored_at w key) store ∙ there) in
      (answer' ∙ second ∙ sym first ∙ sym answer, ap (records_of w) store' ∙ kept)

-- A deleted workflow has no records, is counted by those it had, and is neither queued, nor asleep,
-- nor out with anybody.
pub delete_forgets :
    {Value : Type 0} (w : String) (d : SplitDurable Value)
    → ((delete w d).0 ≡ length (records_of w d.checkpointer))
      × (records_of w (delete w d).1.checkpointer ≡ [])
      × All (λ v. v ≢ w) (delete w d).1.scheduler.queue
      × (Dict.get w (delete w d).1.scheduler.sleeping ≡ none)
      × All (λ e. e.1.0.workflow ≢ w) (delete w d).1.scheduler.outstanding
unfolding delete
delete_forgets w d =
    let (queue, sleeping, outstanding) = cancel_forgets w d.scheduler in
    (
      unfold discard in ground arith,
      records_of-discard w w d.checkpointer ∙ rw ((string_key.beq_iff w w).1 refl) refl,
      queue,
      sleeping,
      outstanding,
    )
