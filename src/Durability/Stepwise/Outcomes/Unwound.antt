-- ===== src/Durability/Stepwise/Outcomes/Unwound.antt =====
-- Groups of exceptions: what `unwound` raises, and when a pass is finished.
use without.Prelude.{
  String, Bool-cases, true, false, ◌≡◌, ◌≢◌, refl, sym, ap, ap₂, ◌∙◌, Option, Option-cases, none,
  some, ◌⊎◌, inl, inr, List, [], ◌∷◌, ◌++◌, Memᴰ, All, some-cancel, subst, Result, Result-cases, ok,
  err,
}
use without.Prelude.Dict.{Dict}
use without.Durability.Values.{Pass, Codec}
use without.Durability.Checkpointer.{Store}
use without.Durability.Checkpointer.Reads.{load}
use without.Durability.Stepwise.Outcomes.Reported.{Reports, stopped_at-Reports}
use without.Durability.Stepwise.{
  Object, Suspended, Fault, suspended, superseded, contended, cancelled, index_error, value_error,
  type_error, swallowed, store_raised, failed,
}
use without.Durability.Stepwise.Outcomes.{
  Outcome, completed, sleeping, blocked, Raising, lone, group, Group, end, with, leaves, leaves_of,
  is_lost, first_lost, joined, unless_empty, fault_left, rest_of, rest_of_all, suspensions_of, bare,
  unwound_with, unwound, settle, Body, opened, resume,
}

module _ {E : Type 0} where
  -- The faults of a list that are no suspensions, in order.
  abbrev pub failures_of : List (Fault E) → List (Fault E)
  failures_of [] = []
  failures_of (suspended s ∷ faults) = failures_of faults
  failures_of (fault ∷ faults) = fault ∷ failures_of faults

  failures_of-append :
      (xs ys : List (Fault E)) → failures_of (xs ++ ys) ≡ failures_of xs ++ failures_of ys
  failures_of-append [] ys = refl
  failures_of-append (suspended s ∷ xs) ys = failures_of-append xs ys
  failures_of-append (superseded ∷ xs) ys = ap (λ l. superseded ∷ l) (failures_of-append xs ys)
  failures_of-append (contended ∷ xs) ys = ap (λ l. contended ∷ l) (failures_of-append xs ys)
  failures_of-append (cancelled ∷ xs) ys = ap (λ l. cancelled ∷ l) (failures_of-append xs ys)
  failures_of-append (index_error ∷ xs) ys = ap (λ l. index_error ∷ l) (failures_of-append xs ys)
  failures_of-append (value_error k ∷ xs) ys =
      ap (λ l. value_error k ∷ l) (failures_of-append xs ys)
  failures_of-append (type_error k ∷ xs) ys = ap (λ l. type_error k ∷ l) (failures_of-append xs ys)
  failures_of-append (swallowed k ∷ xs) ys = ap (λ l. swallowed k ∷ l) (failures_of-append xs ys)
  failures_of-append (store_raised k ∷ xs) ys =
      ap (λ l. store_raised k ∷ l) (failures_of-append xs ys)
  failures_of-append (failed k ∷ xs) ys = ap (λ l. failed k ∷ l) (failures_of-append xs ys)

  abbrev pub leaves_left : Option (Raising E) → List (Fault E)
  leaves_left none = []
  leaves_left (some left) = leaves left

  leaves-fault_left : (fault : Fault E) → leaves_left (fault_left fault) ≡ failures_of (fault ∷ [])
  unfolding leaves
  leaves-fault_left (suspended s) = refl
  leaves-fault_left superseded = refl
  leaves-fault_left contended = refl
  leaves-fault_left cancelled = refl
  leaves-fault_left index_error = refl
  leaves-fault_left (value_error k) = refl
  leaves-fault_left (type_error k) = refl
  leaves-fault_left (swallowed k) = refl
  leaves-fault_left (store_raised k) = refl
  leaves-fault_left (failed k) = refl

  leaves-unless_empty : (g : Group E) → leaves_left (unless_empty g) ≡ leaves_of g
  unfolding leaves leaves_of
  leaves-unless_empty end = refl
  leaves-unless_empty (with nested g) = refl

  leaves-joined :
      (o : Option (Raising E)) (g : Group E) → leaves_of (joined o g) ≡ leaves_left o ++ leaves_of g
  unfolding leaves leaves_of
  leaves-joined none g = refl
  leaves-joined (some nested) g = refl

  mutual
    unfolding rest_of rest_of_all leaves leaves_of

    -- What a split leaves of a group has the group's failures as its leaves, in their order.
    pub leaves-rest_of :
        (raised : Raising E) → leaves_left (rest_of raised) ≡ failures_of (leaves raised)
    leaves-rest_of (lone fault) = leaves-fault_left fault
    leaves-rest_of (group g) = leaves-unless_empty (rest_of_all g) ∙ leaves-rest_of_all g

    leaves-rest_of_all : (g : Group E) → leaves_of (rest_of_all g) ≡ failures_of (leaves_of g)
    leaves-rest_of_all end = refl
    leaves-rest_of_all (with nested g) =
        leaves-joined (rest_of nested) (rest_of_all g)
        ∙ ap₂ (λ xs ys. xs ++ ys) (leaves-rest_of nested) (leaves-rest_of_all g)
        ∙ sym (failures_of-append (leaves nested) (leaves_of g))

  -- `Fenced` or `Contended`: the faults that say the claim is gone.
  abbrev pub IsLost : Fault E → Type 0
  IsLost fault = (fault ≡ superseded) ⊎ (fault ≡ contended)

  is_lost-IsLost : (fault : Fault E) → is_lost fault ≡ true → IsLost fault
  is_lost-IsLost superseded h = inl refl
  is_lost-IsLost contended h = inr refl
  is_lost-IsLost (suspended s) h = absurd (cc h)
  is_lost-IsLost cancelled h = absurd (cc h)
  is_lost-IsLost index_error h = absurd (cc h)
  is_lost-IsLost (value_error k) h = absurd (cc h)
  is_lost-IsLost (type_error k) h = absurd (cc h)
  is_lost-IsLost (swallowed k) h = absurd (cc h)
  is_lost-IsLost (store_raised k) h = absurd (cc h)
  is_lost-IsLost (failed k) h = absurd (cc h)

  is_kept-IsLost : (fault : Fault E) → is_lost fault ≡ false → ¬ IsLost fault
  is_kept-IsLost fault h (inl same) = cc (h, ap (λ f. is_lost f) same)
  is_kept-IsLost fault h (inr same) = cc (h, ap (λ f. is_lost f) same)

  -- The first claim that is lost is one of the leaves; where there is none, no leaf is one.
  first_lost-some :
      (faults : List (Fault E)) (lost : Fault E)
      → first_lost faults ≡ some lost
      → Memᴰ lost faults × IsLost lost
  unfolding first_lost
  first_lost-some [] lost h = absurd (cc h)
  first_lost-some (f ∷ faults) lost h = elim (Bool-cases (is_lost f)) [
    | inl is ↦
        let same : f ≡ lost = some-cancel (rw is at h) in
        (Memᴰ.head (sym same), subst (λ x. IsLost x) same (is_lost-IsLost f is))
    | inr other ↦ let (m, is) = first_lost-some faults lost (rw other at h) in (Memᴰ.tail m, is)
  ]

  first_lost-none :
      (faults : List (Fault E)) → first_lost faults ≡ none → All (λ f. ¬ IsLost f) faults
  unfolding first_lost
  first_lost-none [] h = tt
  first_lost-none (f ∷ faults) h = elim (Bool-cases (is_lost f)) [
    | inl is ↦ absurd (cc (rw is at h))
    | inr other ↦ (is_kept-IsLost f other, first_lost-none faults (rw other at h))
  ]

  -- What is raised for a group: one of its leaves, a claim that is lost; or, if none is, its failures.
  abbrev pub Raises : List (Fault E) → Raising E → Type 0
  Raises faults raised =
      ((lost : Fault E) × (raised ≡ lone lost) × Memᴰ lost faults × IsLost lost)
      ⊎ (All (λ f. ¬ IsLost f) faults × (leaves raised ≡ failures_of faults))

module _ {E A : Type 0} where
  -- A group in which some leaf is no suspension is raised: a claim that one of its leaves says is
  -- lost, bare; or, if there is none, a group's worth of all its failures in their order, and none of
  -- its suspensions.
  pub settle-Raises :
      (g : Group E) (reached : List Suspended)
      → failures_of (leaves_of g) ≢ []
      → (raised : Raising E) × (settle {A = A} (err (group g)) reached ≡ err raised)
        × Raises (leaves_of g) raised
  unfolding settle unwound leaves
  settle-Raises g reached some_failed = elim (Option-cases (first_lost (leaves_of g))) [
    | inr (lost, found) ↦
        let (m, is) = first_lost-some (leaves_of g) lost found in
        (lone lost, rw found refl, inl (lost, refl, m, is))
    | inl kept ↦ elim (Option-cases (rest_of (group g))) [
      | inl nothing ↦ absurd (some_failed (sym (leaves-rest_of (group g)) ∙ ap leaves_left nothing))
      | inr (raised, left) ↦ (
        raised,
        rw kept (rw left refl),
        inr (
          first_lost-none (leaves_of g) kept,
          sym (ap leaves_left left) ∙ leaves-rest_of (group g),
        ),
      )
    ]
  ]

  not-completed :
      (s : List Suspended) (value : A) (answer : Result (Fault E) (Outcome A))
      → Reports s answer
      → bare answer ≢ ok (completed value)
  not-completed s value (ok (completed v)) reports h = reports
  not-completed s value (ok (sleeping key due)) reports h = cc h
  not-completed s value (ok (blocked waiting listening)) reports h = cc h
  not-completed s value (err fault) reports h = cc h

  unwound_with-not_completed :
      (s : List Suspended) (value : A) (lost : Option (Fault E)) (left : Option (Raising E))
      (answer : Result (Fault E) (Outcome A))
      → Reports s answer
      → unwound_with lost left answer ≢ ok (completed value)
  unwound_with-not_completed s value (some lost) left answer reports h = cc h
  unwound_with-not_completed s value none (some left) answer reports h = cc h
  unwound_with-not_completed s value none none answer reports h =
      not-completed s value answer reports h

  settle-completed :
      (answer : Result (Raising E) A) (reached : List Suspended) (value : A)
      → settle answer reached ≡ ok (completed value)
      → (answer ≡ ok value) × (reached ≡ [])
  unfolding settle unwound
  settle-completed (ok v) [] value h = (cc h, refl)
  settle-completed (ok v) (first ∷ reached) value h = absurd (cc h)
  settle-completed (err (lone (suspended s))) reached value h =
      absurd
        (not-completed (reached ++ (s ∷ [])) value _ (stopped_at-Reports E A (s ∷ []) reached) h)
  settle-completed (err (group g)) reached value h =
      let raised = suspensions_of (leaves (group g)) in
      absurd (
        unwound_with-not_completed (reached ++ raised) value (first_lost (leaves (group g)))
          (rest_of (group g)) _ (stopped_at-Reports E A raised reached) h)
  settle-completed (err (lone _)) reached value h = absurd (cc h)

module _ {V World E A : Type 0} (codec : Codec (Object V)) where
  -- A pass that is reported as completed is one whose body returned the value, and reached no
  -- suspension on the way, caught or not.
  pub resume-completed :
      (holder : Pass) (body : Body V World E A) (store : Store (Object V)) (world : World)
      (value : A)
      → (resume codec holder body store world).0 ≡ ok (completed value)
      → (recorded : Dict String (Object V)) × (load codec holder.workflow store ≡ ok recorded)
        × ((body (opened holder recorded store world)).0 ≡ ok value)
        × ((body (opened holder recorded store world)).1.reached ≡ [])
  unfolding resume
  resume-completed holder body store world value h =
      elim (Result-cases (load codec holder.workflow store)) [
        | inr (e, bad) ↦ absurd (cc (rw (bad, resume) at h))
        | inl (recorded, loaded) ↦ (
          recorded,
          loaded,
          (settle-completed _ _ value (rw (loaded, resume) at h)).0,
          (settle-completed _ _ value (rw (loaded, resume) at h)).1,
        )
      ]
