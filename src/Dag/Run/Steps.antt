-- ===== src/Dag/Run/Steps.antt =====
-- The steps of a run, and the runs that they make.
use without.Prelude.{ℕ, String, ◌≡◌, true, false, Option, none, some, List, [], ◌∷◌, ◌++◌, ok}
use without.Prelude.Dict.{Dict}
use without.Dag.Graph.{Plan}
use without.Dag.Sorter.{Sorter}
use without.Dag.Run.{Run, fill, complete, open_run}

-- Where a run is: at the test of the outer loop, or past it.
pub data Phase : Type 0 where
  top inside : Phase

module _ {Op Value : Type 0} (t : Sorter) (plan : Plan Op) (inputs : Dict String Value)
    (limit : Option ℕ) where
  -- The states that a run reaches, with what it has yielded.
  pub data Reach : Phase → Run t.State Value → List (String × Value) → Type 0 where
    opened : {s : Run t.State Value} → open_run t plan inputs limit ≡ ok s → Reach top s []
    entered :
        {s : Run t.State Value} {yielded : List (String × Value)}
        → t.is_active s.sorter ≡ true
        → Reach top s yielded
        → Reach inside s yielded
    filled :
        {s s' : Run t.State Value} {yielded : List (String × Value)}
        → fill t plan limit s ≡ ok (some s')
        → Reach inside s yielded
        → Reach inside s' yielded
    completed :
        {s s' : Run t.State Value} {yielded yielded' : List (String × Value)} (key : String)
        (value : Value) (args : List Value) (before after : List (String × List Value))
        → fill t plan limit s ≡ ok none
        → s.running ≡ before ++ (key, args) ∷ after
        → complete t key value (before ++ after) s ≡ ok s'
        → yielded' ≡ yielded ++ (key, value) ∷ []
        → Reach inside s yielded
        → Reach top s' yielded'

  -- The runs that are over, by the test of the outer loop or by its `break`.
  pub data Ended : Run t.State Value → List (String × Value) → Type 0 where
    drained :
        {s : Run t.State Value} {yielded : List (String × Value)}
        → t.is_active s.sorter ≡ false
        → Reach top s yielded
        → Ended s yielded
    idle :
        {s : Run t.State Value} {yielded : List (String × Value)}
        → fill t plan limit s ≡ ok none
        → s.running ≡ []
        → Reach inside s yielded
        → Ended s yielded

  pub Ended-Reach :
      {s : Run t.State Value} {yielded : List (String × Value)}
      → Ended s yielded
      → (phase : Phase) × Reach phase s yielded
  Ended-Reach (drained _ r) = (top, r)
  Ended-Reach (idle _ _ r) = (inside, r)
