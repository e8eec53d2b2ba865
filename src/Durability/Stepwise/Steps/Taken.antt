-- ===== src/Durability/Stepwise/Steps/Taken.antt =====
-- A step that returned: what it left recorded in the run and in the store.
use without.Prelude.{
  ℕ, String, Bool, Bool-cases, ◌≡◌, refl, ap, ◌∙◌, Option, Option-cases, none, some, inl, inr,
  Result-cases, ok,
}
use without.Prelude.Eq.{string_key}
use without.Prelude.Dict
use without.Prelude.Dict.{Dict}
use without.Durability.Values.{Codec}
use without.Durability.Checkpointer.{Effect, record_step, transact}
use without.Durability.Checkpointer.Ops.{recording, transacting, after}
use without.Durability.Checkpointer.Records.{after-Kept}
use without.Durability.Checkpointer.Returned.{record_step-Holds, transact-Holds}
use without.Durability.Stepwise.{
  Object, Readings, Run, Action, Extend, Work, and_then, checked_duration,
}
use without.Durability.Stepwise.Steps.{
  Parse, covered, run_effect, perform, run_transaction, perform_stored,
}
use without.Durability.Stepwise.Steps.Follows.{
  get-put_self, Follows, Follows-refl, Follows-trans, Follows-write, Follows-record, KeepsRecords,
}

module _ {V World E : Type 0} (codec : Codec (Object V)) (extend : Extend V World E)
    (keeps : KeepsRecords extend) where
  covered-Follows :
      (within : Option ℕ) (at : Readings) (r : Run V World)
      → Follows codec r (covered codec extend within at r).1
        × ((covered codec extend within at r).1.recorded ≡ r.recorded)
        × ((covered codec extend within at r).1.claimed ≡ r.claimed)
  unfolding covered
  covered-Follows none at r = (Follows-refl codec r, refl, refl)
  covered-Follows (some within) at r =
      elim (Result-cases (checked_duration {E = E} "a step's window" within)) [
        | inr (e, h) ↦ rw (h, covered) (Follows-refl codec r, refl, refl)
        | inl (_, h) ↦
            let (store, world) = (extend r.holder within at (r.store, r.world)).1 in
            rw (h, covered)
              (
                Follows-write codec r store world (keeps r.holder within at r.store r.world),
                refl,
                refl,
              )
      ]

  -- What a call that returns `a` has left: a record under its key, which parses to `a`.
  abbrev pub Took : {A : Type 0} → String → Parse V E A → A → Run V World → Run V World → Type 0
  Took key parse a r r' =
      (held : Object V) × (parse held ≡ ok a)
      × (Dict.get key r'.recorded ≡ some held)
      × Follows codec r r'
      × (r'.claimed ≡ r.claimed)

  module _ {A : Type 0} (key : String) (parse : Parse V E A) (within : Option ℕ)
      (at : Readings) where
    run_effect-Took :
        (effect : Work V World E) (stopped : Bool) (r : Run V World) (a : A)
        → Dict.get key r.recorded ≡ none
        → (run_effect codec extend key parse within at effect stopped r).0 ≡ ok a
        → Took key parse a r (run_effect codec extend key parse within at effect stopped r).1
    unfolding run_effect
    run_effect-Took effect stopped r a fresh h = elim (Result-cases (effect r.world).0) [
      | inr (e, bad) ↦ absurd (cc (rw (bad, run_effect) at h))
      | inl (v, good) ↦
          let write = record_step codec r.holder key v at.recorded at.stamp r.store in
          elim (Result-cases write.0) [
            | inr (e, failed) ↦ elim (Bool-cases stopped) [
              | inl halt ↦ absurd (cc (rw halt at (rw failed at (rw (good, run_effect) at h))))
              | inr go ↦ absurd (cc (rw go at (rw failed at (rw (good, run_effect) at h))))
            ]
            | inl (held, fine) ↦ elim (Bool-cases stopped) [
              | inl halt ↦ absurd (cc (rw halt at (rw fine at (rw (good, run_effect) at h))))
              | inr go ↦
                  rw (good, run_effect)
                    (rw fine (
                      held.value,
                      rw go at (rw fine at (rw (good, run_effect) at h)),
                      get-put_self key held.value r.recorded,
                      Follows-record codec r key held.value write.1 (effect r.world).1 fresh
                          (unfold after in
                            after-Kept codec (recording r.holder key v at.recorded at.stamp) r.store
                              tt)
                          (record_step-Holds codec r.holder key v at.recorded at.stamp r.store held
                            fine),
                      refl,
                    ))
            ]
          ]
    ]

    -- A call that finds nothing recorded extends its claim first.
    after_covered-Took :
        (m : Action V World E A) (r : Run V World) (a : A)
        → ((r' : Run V World)
            → Dict.get key r'.recorded ≡ none
            → (m r').0 ≡ ok a
            → Took key parse a r' (m r').1)
        → Dict.get key r.recorded ≡ none
        → (and_then (covered codec extend within at) (λ _. m) r).0 ≡ ok a
        → Took key parse a r (and_then (covered codec extend within at) (λ _. m) r).1
    after_covered-Took m r a took fresh h =
        let (follows, same, claimed) = covered-Follows within at r in
        let r1 = (covered codec extend within at r).1 in
        elim (Result-cases (covered codec extend within at r).0) [
          | inr (e, lost) ↦ absurd (cc (rw (lost, and_then) at h))
          | inl (_, held) ↦
              let (v, parses, there, follows', claimed') =
                took r1 (ap (Dict.get key) same ∙ fresh) (rw (held, and_then) at h) in
              rw (held, and_then)
                (
                  v,
                  parses,
                  there,
                  Follows-trans codec r r1 (m r1).1 follows follows',
                  claimed' ∙ claimed,
                )
        ]

    pub perform-Took :
        (effect : Work V World E) (stopped : Bool) (r : Run V World) (a : A)
        → (perform codec extend key parse within at effect stopped r).0 ≡ ok a
        → Took key parse a r (perform codec extend key parse within at effect stopped r).1
    unfolding perform
    perform-Took effect stopped r a h = elim (Option-cases (Dict.get key r.recorded)) [
      | inr (held, there) ↦
          rw (there, perform) (held, rw (there, perform) at h, there, Follows-refl codec r, refl)
      | inl fresh ↦
          rw (fresh, perform)
            (after_covered-Took (run_effect codec extend key parse within at effect stopped) r a
              (λ r'. run_effect-Took effect stopped r' a) fresh (rw (fresh, perform) at h))
    ]

    run_transaction-Took :
        (effect : Effect (Object V)) (r : Run V World) (a : A)
        → Dict.get key r.recorded ≡ none
        → (run_transaction codec extend key parse within at effect r).0 ≡ ok a
        → Took key parse a r (run_transaction codec extend key parse within at effect r).1
    unfolding run_transaction
    run_transaction-Took effect r a fresh h =
        let write = transact codec r.holder key effect at.recorded at.stamp r.store in
        elim (Result-cases write.0) [
          | inr (e, failed) ↦ absurd (cc (rw failed at h))
          | inl (stored, fine) ↦ rw fine (
            stored,
            rw fine at h,
            get-put_self key stored r.recorded,
            Follows-record codec r key stored write.1 r.world fresh
                (unfold after in
                  after-Kept codec (transacting r.holder key effect at.recorded at.stamp) r.store
                    tt)
                (transact-Holds codec r.holder key effect at.recorded at.stamp r.store stored fine),
            refl,
          )
        ]

    pub perform_stored-Took :
        (effect : Effect (Object V)) (r : Run V World) (a : A)
        → (perform_stored codec extend key parse within at effect r).0 ≡ ok a
        → Took key parse a r (perform_stored codec extend key parse within at effect r).1
    unfolding perform_stored
    perform_stored-Took effect r a h = elim (Option-cases (Dict.get key r.recorded)) [
      | inr (held, there) ↦
          rw (there, perform_stored)
            (held, rw (there, perform_stored) at h, there, Follows-refl codec r, refl)
      | inl fresh ↦
          rw (fresh, perform_stored)
            (after_covered-Took (run_transaction codec extend key parse within at effect) r a
              (λ r'. run_transaction-Took effect r' a) fresh (rw (fresh, perform_stored) at h))
    ]
