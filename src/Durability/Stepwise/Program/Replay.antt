-- ===== src/Durability/Stepwise/Program/Replay.antt =====
-- A workflow that has finished, run again: the same value, and nothing done.
use without.Prelude.{
  ◌≤◌, String, Bool, ◌≡◌, refl, sym, ap, ap₂, subst, ◌∙◌, Option-cases, some, inl, inr, Result, ok,
  err, ok-injective,
}
use without.Prelude.Eq.{string_key}
use without.Prelude.Dict
use without.Prelude.Dict.{Dict}
use without.Durability.Values.{Pass, Codec}
use without.Durability.Checkpointer.{Store, records_of}
use without.Durability.Checkpointer.Reads.{load, load-get}
use without.Durability.Checkpointer.Records.{Kept}
use without.Durability.Checkpointer.Returned.{Holds, Holds-Kept}
use without.Durability.Stepwise.Outcomes.{completed, settle, opened, resume}
use without.Durability.Stepwise.Outcomes.Unwound.{resume-completed}
use without.Durability.Stepwise.{Object, Fault, Readings, Extend}
use without.Durability.Stepwise.Steps.{IsoFormat, step, transact_step, sleep, awaiting}
use without.Durability.Stepwise.Steps.Follows.{Knows, IsMirrored, Follows-refl, KeepsRecords}
use without.Durability.Stepwise.Program.{
  Program, return, raise, stepping, transacting, sleeping_for, awaiting_on, pass_of, raised_of,
  body_of,
}
use without.Durability.Stepwise.Program.Repeats.{
  Repeats, and_then-Repeats, step-Repeats, transact_step-Repeats, awaiting-Repeats, sleep-Repeats,
}

module _ {V World E A : Type 0} (codec : Codec (Object V)) (iso : IsoFormat)
    (extend next_extend : Extend V World E) (keeps : KeepsRecords extend)
    (at later : String → Readings) (order : (key : String) → (at key).later ≤ (later key).later)
    (stops stops' : String → Bool) where
  pass_of-Repeats :
      (program : Program V World E A)
      → Repeats codec
          (pass_of codec iso extend at stops program)
          (pass_of codec iso next_extend later stops' program)
  unfolding pass_of
  pass_of-Repeats (return value) = λ r a h. (
    Follows-refl codec r,
    λ t same knows. ap₂ (λ x c. (ok x, record t { claimed = c })) (ok-injective h) same,
  )
  pass_of-Repeats (raise fault) = λ r a h. absurd (cc h)
  pass_of-Repeats (stepping key within effect next) =
      and_then-Repeats codec (step codec extend key ok within (at key) effect (stops key))
        (step codec next_extend key ok within (later key) effect (stops' key))
        (λ v. pass_of codec iso extend at stops (next v))
        (λ v. pass_of codec iso next_extend later stops' (next v))
        (step-Repeats codec extend next_extend keeps key ok within (at key) (later key) effect
          effect (stops key) (stops' key))
        (λ v. pass_of-Repeats (next v))
  pass_of-Repeats (transacting key within effect next) =
      and_then-Repeats codec (transact_step codec extend key ok within (at key) effect)
        (transact_step codec next_extend key ok within (later key) effect)
        (λ v. pass_of codec iso extend at stops (next v))
        (λ v. pass_of codec iso next_extend later stops' (next v))
        (transact_step-Repeats codec extend next_extend keeps key ok within (at key) (later key)
          effect)
        (λ v. pass_of-Repeats (next v))
  pass_of-Repeats (sleeping_for key duration next) =
      and_then-Repeats codec (sleep codec extend iso key duration (at key) (stops key))
        (sleep codec next_extend iso key duration (later key) (stops' key))
        (λ _. pass_of codec iso extend at stops (next))
        (λ _. pass_of codec iso next_extend later stops' (next))
        (sleep-Repeats codec extend next_extend keeps iso key duration (at key) (later key)
          (stops key) (stops' key) (order key))
        (λ _. pass_of-Repeats next)
  pass_of-Repeats (awaiting_on key next) =
      and_then-Repeats codec (awaiting key ok) (awaiting key ok)
        (λ v. pass_of codec iso extend at stops (next v))
        (λ v. pass_of codec iso next_extend later stops' (next v))
        (awaiting-Repeats codec extend next_extend keeps key ok) (λ v. pass_of-Repeats (next v))

raised_of-ok :
    {E A : Type 0} (answer : Result (Fault E) A) (value : A)
    → raised_of answer ≡ ok value
    → answer ≡ ok value
raised_of-ok (ok v) value h = cc h
raised_of-ok (err fault) value h = absurd (cc h)

opened-IsMirrored :
    {V World : Type 0} (codec : Codec (Object V)) (holder : Pass)
    (recorded : Dict String (Object V)) (s : Store (Object V)) (world : World)
    → load codec holder.workflow s ≡ ok recorded
    → IsMirrored codec (opened holder recorded s world)
opened-IsMirrored codec holder recorded s world loaded key v there =
    elim (Option-cases (Dict.get key (records_of holder.workflow s))) [
      | inl missing ↦
          absurd (
            cc (rw missing at (sym (load-get codec holder.workflow key s recorded loaded) ∙ there)))
      | inr (st, held) ↦ (
        st,
        held,
        rw held at (sym (load-get codec holder.workflow key s recorded loaded) ∙ there),
      )
    ]

Holds-loaded :
    {V : Type 0} (codec : Codec (Object V)) (w key : String) (v : Object V) (t : Store (Object V))
    (recorded : Dict String (Object V))
    → load codec w t ≡ ok recorded
    → Holds codec w key v t
    → Dict.get key recorded ≡ some v
Holds-loaded codec w key v t recorded loaded (st, held, decodes) =
    load-get codec w key t recorded loaded ∙ rw held decodes

-- A workflow of these steps that has finished in a pass whose `extend` leaves the records, resumed by
-- any pass on a store that loads and has kept what that pass left, with clocks that have not gone
-- back: the value that it returned, with the store and the world as they were.
pub resume_again :
    {V World E A : Type 0} (codec : Codec (Object V)) (iso : IsoFormat)
    (extend next_extend : Extend V World E) (at later : String → Readings)
    (stops stops' : String → Bool) (program : Program V World E A) (holder next_holder : Pass)
    (s t : Store (Object V)) (world next_world : World) (value : A)
    (recorded : Dict String (Object V))
    → KeepsRecords extend
    → ((key : String) → (at key).later ≤ (later key).later)
    → next_holder.workflow ≡ holder.workflow
    → (resume codec holder (body_of codec iso extend at stops program) s world).0
      ≡ ok (completed value)
    → Kept (resume codec holder (body_of codec iso extend at stops program) s world).1.0 t
    → load codec next_holder.workflow t ≡ ok recorded
    → resume codec next_holder (body_of codec iso next_extend later stops' program) t next_world
      ≡ (ok (completed value), (t, next_world))
unfolding resume settle
resume_again codec iso extend next_extend at later stops stops' program holder next_holder s t world
      next_world value recorded keeps order same h kept loaded =
    let (first, read, returned, clear) =
      resume-completed codec holder (body_of codec iso extend at stops program) s world value h in
    let r = opened holder first s world in
    let m = pass_of codec iso extend at stops program in
    let (follows, again) =
      pass_of-Repeats codec iso extend next_extend keeps at later order stops stops' program r value
        (raised_of-ok (m r).0 value returned) in
    let (knows, owner, reached, mirrors) = follows in
    let left : Kept (m r).1.store t = rw (read, resume) at kept in
    let known : Knows (m r).1.recorded recorded = λ k v there.
      Holds-loaded codec next_holder.workflow k v t recorded loaded (
        subst (λ w. Holds codec w k v t) (ap (λ p. p.workflow) owner ∙ sym same)
          (Holds-Kept codec (m r).1.holder.workflow k v (m r).1.store t left
            (mirrors (opened-IsMirrored codec holder first s world read) k v there))) in
    rw (loaded, resume)
      (ap (λ p. (settle (raised_of p.0) p.1.reached, (p.1.store, p.1.world)))
        (again (opened next_holder recorded t next_world) refl known))
