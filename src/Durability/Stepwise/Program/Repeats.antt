-- ===== src/Durability/Stepwise/Program/Repeats.antt =====
-- Calls that repeat: run again once their records are there, they return the same and do nothing.
use text.Mathlib.Text.{starts_with}
use without.Prelude.{
  ℕ, ◌≤◌, String, Bool, Bool-cases, false, ◌||◌, ◌≡◌, refl, sym, ap, ◌∙◌, Option, Option-cases,
  none, some, inl, inr, ltb, Result, Result-cases, ok, err, arith,
}
use without.Prelude.Eq.{string_key}
use without.Prelude.Dict
use without.Prelude.Dict.{Dict}
use without.Durability.Values.{Codec}
use without.Durability.Checkpointer.{Effect}
use without.Durability.Stepwise.{
  nothing, written, other, Object, Fault, cancelled, Readings, Run, Action, Extend, Work, and_then,
  inbox, is_in, claim_key,
}
use without.Durability.Stepwise.Steps.{
  IsoFormat, Parse, parse_deadline, perform, step, perform_stored, transact_step, deadline_from_now,
  note_deadline, wait_until, sleep, answered, awaiting,
}
use without.Durability.Stepwise.Steps.Follows.{
  Knows, Follows, Follows-refl, Follows-trans, KeepsRecords,
}
use without.Durability.Stepwise.Steps.Taken.{Took, perform-Took, perform_stored-Took}

module _ {V World E : Type 0} (codec : Codec (Object V)) where
  -- Where the first call returns, the second returns the same from any run that has used the same
  -- names and knows all that the first left recorded, and it only uses up the names.
  abbrev pub Repeats : {A : Type 0} → Action V World E A → Action V World E A → Type 0
  Repeats {A} m n =
      (r : Run V World) (a : A)
      → (m r).0 ≡ ok a
      → Follows codec r (m r).1
        × ((t : Run V World)
            → t.claimed ≡ r.claimed
            → Knows (m r).1.recorded t.recorded
            → n t ≡ (ok a, record t { claimed = (m r).1.claimed }))

  pub and_then-Repeats :
      {A B : Type 0} (m n : Action V World E A) (f g : A → Action V World E B)
      → Repeats m n
      → ((a : A) → Repeats (f a) (g a))
      → Repeats (and_then m f) (and_then n g)
  and_then-Repeats m n f g first next r b h = elim (Result-cases (m r).0) [
    | inr (e, raised) ↦ absurd (cc (rw (raised, and_then) at h))
    | inl (a, returned) ↦
        let (follows, again) = first r a returned in
        let (follows', again') = next a (m r).1 b (rw (returned, and_then) at h) in
        rw (returned, and_then)
          (
            Follows-trans codec r (m r).1 (f a (m r).1).1 follows follows',
            λ t same knows.
                ap (λ p. elim p.0 [ err e ↦ (err e, p.1) | ok x ↦ g x p.1 ])
                  (again t same (λ k v there. knows k v (follows'.0 k v there)))
                ∙ again' (record t { claimed = (m r).1.claimed }) refl knows,
          )
  ]

  claim_key-Repeats : (key : String) → Repeats (claim_key key) (claim_key key)
  unfolding claim_key
  claim_key-Repeats key r a h = elim (Bool-cases (starts_with key inbox || is_in key r.claimed)) [
    | inl refused ↦ absurd (cc (rw (refused, claim_key) at h))
    | inr free ↦
        rw (free, claim_key)
          (
            (λ k v there. there, refl, refl, λ mirrored. mirrored),
            λ t same knows. rw same (rw free refl),
          )
  ]

  Took-Repeats :
      (extend : Extend V World E) (keeps : KeepsRecords extend) {A : Type 0} (key : String)
      (parse : Parse V E A) (m n : Action V World E A)
      → ((r : Run V World) (a : A) → (m r).0 ≡ ok a → Took codec extend keeps key parse a r (m r).1)
      → ((t : Run V World) (held : Object V)
          → Dict.get key t.recorded ≡ some held
          → n t ≡ (parse held, t))
      → Repeats m n
  Took-Repeats extend keeps key parse m n took replay r a h =
      let (held, parses, there, follows, claimed) = took r a h in
      (
        follows,
        λ t same knows.
            replay t held (knows key held there)
            ∙ rw parses (ap (λ c. (ok a, record t { claimed = c })) (same ∙ sym claimed)),
      )

  module _ (extend next_extend : Extend V World E) (keeps : KeepsRecords extend) where
    perform-Repeats :
        {A : Type 0} (key : String) (parse : Parse V E A) (within : Option ℕ) (at later : Readings)
        (effect effect' : Work V World E) (stopped stopped' : Bool)
        → Repeats
            (perform codec extend key parse within at effect stopped)
            (perform codec next_extend key parse within later effect' stopped')
    unfolding perform
    perform-Repeats key parse within at later effect effect' stopped stopped' =
        Took-Repeats extend keeps key parse
          (perform codec extend key parse within at effect stopped)
          (perform codec next_extend key parse within later effect' stopped')
          (perform-Took codec extend keeps key parse within at effect stopped)
          (λ t held there. rw (there, perform) refl)

    pub step-Repeats :
        {A : Type 0} (key : String) (parse : Parse V E A) (within : Option ℕ) (at later : Readings)
        (effect effect' : Work V World E) (stopped stopped' : Bool)
        → Repeats
            (step codec extend key parse within at effect stopped)
            (step codec next_extend key parse within later effect' stopped')
    unfolding step
    step-Repeats key parse within at later effect effect' stopped stopped' =
        and_then-Repeats (claim_key key) (claim_key key)
          (λ _. perform codec extend key parse within at effect stopped)
          (λ _. perform codec next_extend key parse within later effect' stopped')
          (claim_key-Repeats key)
          (λ _. perform-Repeats key parse within at later effect effect' stopped stopped')

    pub transact_step-Repeats :
        {A : Type 0} (key : String) (parse : Parse V E A) (within : Option ℕ) (at later : Readings)
        (effect : Effect (Object V))
        → Repeats
            (transact_step codec extend key parse within at effect)
            (transact_step codec next_extend key parse within later effect)
    unfolding transact_step perform_stored
    transact_step-Repeats key parse within at later effect =
        and_then-Repeats (claim_key key) (claim_key key)
          (λ _. perform_stored codec extend key parse within at effect)
          (λ _. perform_stored codec next_extend key parse within later effect)
          (claim_key-Repeats key)
          (λ _.
            Took-Repeats extend keeps key parse
              (perform_stored codec extend key parse within at effect)
              (perform_stored codec next_extend key parse within later effect)
              (perform_stored-Took codec extend keeps key parse within at effect)
              (λ t held there. rw (there, perform_stored) refl))

    answered-Took :
        {A : Type 0} (key : String) (parse : Parse V E A) (r : Run V World) (a : A)
        → (answered key parse (Dict.get key r.recorded) r).0 ≡ ok a
        → Took codec extend keeps key parse a r (answered key parse (Dict.get key r.recorded) r).1
    answered-Took key parse r a h = elim (Option-cases (Dict.get key r.recorded)) [
      | inl missing ↦ absurd (cc (rw missing at h))
      | inr (held, there) ↦ rw there (held, rw there at h, there, Follows-refl codec r, refl)
    ]

    pub awaiting-Repeats :
        {A : Type 0} (key : String) (parse : Parse V E A)
        → Repeats (awaiting key parse) (awaiting key parse)
    unfolding awaiting
    awaiting-Repeats key parse =
        and_then-Repeats (claim_key key) (claim_key key)
          (λ _ r. answered key parse (Dict.get key r.recorded) r)
          (λ _ r. answered key parse (Dict.get key r.recorded) r) (claim_key-Repeats key)
          (λ _.
            Took-Repeats extend keeps key parse
              (λ r. answered key parse (Dict.get key r.recorded) r)
              (λ r. answered key parse (Dict.get key r.recorded) r) (answered-Took key parse)
              (λ t held there. rw there refl))

    module _ (iso : IsoFormat) where
      note_deadline-raises :
          (key : String) (o : Option (Object V)) (r : Run V World) (u : Unit {0})
          → (note_deadline codec extend iso key o r).0 ≡ ok u
          → ⊥
      note_deadline-raises key none r u h = cc h
      note_deadline-raises key (some nothing) r u h = cc h
      note_deadline-raises key (some (written text)) r u h =
          elim (Result-cases (parse_deadline {V = V} {E = E} iso key (written text))) [
            | inl (due, fine) ↦ cc (rw (fine, note_deadline) at h)
            | inr (e, bad) ↦ cc (rw (bad, note_deadline) at h)
          ]
      note_deadline-raises key (some (other v)) r u h =
          elim (Result-cases (parse_deadline {V = V} {E = E} iso key (other v))) [
            | inl (due, fine) ↦ cc (rw (fine, note_deadline) at h)
            | inr (e, bad) ↦ cc (rw (bad, note_deadline) at h)
          ]

      wait_until-over :
          (key : String) (at : Readings) (answer : Result (Fault E) ℕ) (r : Run V World)
          (u : Unit {0})
          → (wait_until codec extend iso key at answer r).0 ≡ ok u
          → (due : ℕ) × (answer ≡ ok due) × (ltb at.later due ≡ false)
      wait_until-over key at (ok due) r u h = elim (Bool-cases (ltb at.later due)) [
        | inl early ↦ absurd (cc (rw early at h))
        | inr over ↦ (due, refl, over)
      ]
      wait_until-over key at (err cancelled) r u h =
          absurd (note_deadline-raises key (Dict.get key r.recorded) r u h)
      wait_until-over key at (err _) r u h = absurd (cc h)

      pub sleep-Repeats :
          (key : String) (duration : ℕ) (at later : Readings) (stopped stopped' : Bool)
          → at.later ≤ later.later
          → Repeats
              (sleep codec extend iso key duration at stopped)
              (sleep codec next_extend iso key duration later stopped')
      unfolding sleep
      sleep-Repeats key duration at later stopped stopped' order r u h =
          let first =
            step codec extend key (parse_deadline iso key) none at
              (deadline_from_now codec extend iso duration at) stopped in
          let (due, returned, over) = wait_until-over key at (first r).0 (first r).1 u h in
          let (follows, again) =
            step-Repeats key (parse_deadline iso key) none at later
              (deadline_from_now codec extend iso duration at)
              (deadline_from_now codec next_extend iso duration later) stopped stopped' r due
              returned in
          let passed : ltb later.later due ≡ false = ground (arith, over, order) in
          rw returned (rw over (follows, λ t same knows. rw (again t same knows) (rw passed refl)))
