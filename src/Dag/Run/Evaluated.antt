-- ===== src/Dag/Run/Evaluated.antt =====
-- What `evaluate` makes of the completions that it was given.
use without.Prelude.{
  ◌≤◌, ◌<◌, String, ◌≡◌, refl, sym, ap, ◌∙◌, Bool-cases, Option, Option-cases, none, some, ◌⊎◌, inl,
  inr, List, [], ◌∷◌, ◌++◌, ok, arith,
}
use without.Prelude.Eq.{◌==◌, string_key}
use without.Prelude.Dict
use without.Prelude.Dict.{Dict}
use without.Dag.Graph.{Node, Plan}
use without.Dag.Sorter.{count}
use without.Dag.Run.{last_of, evaluated}
use without.Dag.Run.Invariant.{keys_of}
use without.Dag.Run.Completion.{get_of_uncounted}

pub last_of_once :
    {Value : Type 0} (target : String) (result : Option Value) (yielded : List (String × Value))
    → count target (keys_of yielded) ≤ 1
    → last_of target result yielded
      ≡ elim (Dict.get target yielded) [ none ↦ result | some v ↦ some v ]
unfolding last_of Dict.get
last_of_once target result [] once = refl
last_of_once target result ((key, value) ∷ yielded) once = elim (Bool-cases (key == target)) [
  | inl same ↦ rw same (
      last_of_once target (some value) yielded (ground (arith, once, same))
      ∙ rw (get_of_uncounted target yielded (ground (arith, once, same))) refl)
  | inr other ↦ rw other (last_of_once target result yielded (ground (arith, once, other)))
]

counted_of :
    {Value : Type 0} (target : String) (v : Value) (yielded : List (String × Value))
    → Dict.get target yielded ≡ some v
    → 0 < count target (keys_of yielded)
unfolding Dict.get
counted_of target v [] h = absurd (cc h)
counted_of target v ((key, value) ∷ yielded) h = elim (Bool-cases (key == target)) [
  | inl same ↦ ground (arith, same)
  | inr other ↦ ground (arith, other, counted_of target v yielded (rw other at h))
]

pub latest :
    {Value : Type 0} (target : String) (v : Value) (inputs yielded : List (String × Value))
    → (0 < count target (keys_of yielded) → Dict.get target inputs ≡ none)
    → Dict.get target (inputs ++ yielded) ≡ some v
    → ◌≡◌ {A = Option Value}
        (elim (Dict.get target yielded) [ none ↦ Dict.get target inputs | some w ↦ some w ])
        (some v)
latest target v inputs yielded new there = elim (Option-cases (Dict.get target yielded)) [
  | inl missing ↦ rw missing (ground (arith, there, missing, Dict.get-append target inputs yielded))
  | inr (w, found) ↦
      let none_before = new (counted_of target w yielded found) in
      rw found (ground (arith, there, found, none_before, Dict.get-append target inputs yielded))
]

pub evaluated-last :
    {Op Value : Type 0} (plan : Plan Op) (target : String) (v : Value) (inputs : Dict String Value)
    (yielded : List (String × Value))
    → ((n : Node Op) × (Dict.get target plan.by_key ≡ some n))
      ⊎ ((w : Value) × (Dict.get target inputs ≡ some w))
    → last_of target (Dict.get target inputs) yielded ≡ some v
    → evaluated plan target inputs yielded ≡ ok (some v)
unfolding evaluated
evaluated-last plan target v inputs yielded is_there last =
    elim (Option-cases (Dict.get target plan.by_key)) [
      | inr (n, found) ↦ rw (found, evaluated) (ap ok last)
      | inl missing ↦ elim is_there [
        | inl (n, found) ↦ absurd (cc (sym missing ∙ found))
        | inr (w, supplied) ↦
            rw (missing, evaluated) (rw (supplied, evaluated) (ap ok (rw supplied at last)))
      ]
    ]
