-- ===== src/Dag/Run.antt =====
-- `drive` and `evaluate` of packages/without_dag/src/without_dag/execution.py
--
-- A running node is its key and the arguments that it was given. Which of the running nodes
-- completes next, and with what result, is not the code's to say: a step of the run takes any.
-- `drive` is suspended only where it waits for a completion and where it yields one.
pub mod Steps
pub mod Counts
pub mod Release
pub mod Invariant
pub mod Unlock
pub mod Visits
pub mod Fill
pub mod Completion
pub mod Opening
pub mod Limit
pub mod Evaluated
pub mod Outcome
mod Chain
mod Samples
use without.Prelude.{
  ℕ, ◌-◌, String, Bool, true, false, ltb, nat_eq, Option, none, some, List, [], ◌∷◌, ◌++◌, length,
  if◌then◌else◌, Result, ok, err,
}
use without.Prelude.Eq.{◌==◌, string_key}
use without.Prelude.Dict
use without.Prelude.Dict.{Dict}
use without.Dag.Graph.{Plan, is_bad_limit}
use without.Dag.Sorter.{Sorter}

-- What a run may raise of itself.
pub data Fault : Type 0 where
  bad_limit cycle key_error unknown_key value_error : Fault

pub record Run (S Value : Type 0) : Type 0 where
  pub sorter : S
  pub consumers : Dict String ℕ
  pub results : Dict String Value
  pub running : List (String × List Value)
  pub ready : List String

-- `tuple(results[dependency] for …)`
unfoldable pub arguments :
    {Value : Type 0} → List String → Dict String Value → Result Fault (List Value)
arguments [] results = ok []
arguments (dependency ∷ dependencies) results = elim (Dict.get dependency results) [
  | none ↦ err key_error
  | some value ↦ elim (arguments dependencies results) [
    | err fault ↦ err fault
    | ok values ↦ ok (value ∷ values)
  ]
]

module _ {S Value : Type 0} where
  -- One round of the loop of `release_dependencies`. A count of zero would fall below it, and is
  -- left: neither it nor what it falls to is ever one that falls to zero.
  unfoldable pub release : String → Run S Value → Result Fault (Run S Value)
  release dependency s =
      let count : ℕ = elim (Dict.get dependency s.consumers) [ none ↦ 0 | some n ↦ n ] in
      let s' = record s { consumers = Dict.put dependency (count - 1) s.consumers } in
      if nat_eq count 1
      then (elim (Dict.get dependency s.results) [
        | none ↦ err key_error
        | some value ↦ ok (record s' { results = Dict.remove dependency s.results })
      ])
      else ok s'

  unfoldable pub release_all : List String → Run S Value → Result Fault (Run S Value)
  release_all [] s = ok s
  release_all (dependency ∷ dependencies) s = elim (release dependency s) [
    | err fault ↦ err fault
    | ok s' ↦ release_all dependencies s'
  ]

  unfoldable pub has_slot : Option ℕ → Run S Value → Bool
  has_slot none s = true
  has_slot (some limit) s = ltb (length s.running) limit

-- `sorter.done(key)` and `ready.extend(sorter.get_ready())`
unfoldable pub unlock :
    {Value : Type 0} (t : Sorter) → String → Run t.State Value → Result Fault (Run t.State Value)
unlock t key s = elim (t.done key s.sorter) [
  | none ↦ err value_error
  | some marked ↦
      let (keys, sorter) = t.get_ready marked in
      ok (record s { sorter = sorter; ready = s.ready ++ keys })
]

-- What follows the completion of a running node.
unfoldable pub complete :
    {Value : Type 0} (t : Sorter)
    → String
    → Value
    → List (String × List Value)
    → Run t.State Value
    → Result Fault (Run t.State Value)
complete t key value others s =
    unlock t key (record s { running = others; results = Dict.put key value s.results })

module _ {Op Value : Type 0} (t : Sorter) (plan : Plan Op) where
  -- `release_dependencies`
  unfoldable pub release_dependencies :
      String → Run t.State Value → Result Fault (Run t.State Value)
  release_dependencies key s = elim (Dict.get key plan.by_key) [
    | none ↦ ok s
    | some consumed ↦ release_all consumed.dependencies s
  ]

  -- The body of the inner loop for a key that was popped.
  unfoldable pub visit : String → Run t.State Value → Result Fault (Run t.State Value)
  visit key s = elim (Dict.get key s.results) [
    | some supplied ↦ elim (release_dependencies key s) [
      | err fault ↦ err fault
      | ok s' ↦ unlock t key s'
    ]
    | none ↦ elim (Dict.get key plan.by_key) [
      | none ↦ err unknown_key
      | some node ↦ elim (arguments node.dependencies s.results) [
        | err fault ↦ err fault
        | ok args ↦ elim (release_dependencies key s) [
          | err fault ↦ err fault
          | ok s' ↦ ok (record s' { running = s'.running ++ (key, args) ∷ [] })
        ]
      ]
    ]
  ]

  -- A round of the inner loop by what is ready, and `ok none` where the loop is left.
  unfoldable pub fill_from :
      List String → Option ℕ → Run t.State Value → Result Fault (Option (Run t.State Value))
  fill_from [] limit s = ok none
  fill_from (key ∷ ready) limit s =
      if has_slot limit s
      then (elim (visit key (record s { ready = ready })) [
        | err fault ↦ err fault
        | ok s' ↦ ok (some s')
      ])
      else ok none

  abbrev pub fill : Option ℕ → Run t.State Value → Result Fault (Option (Run t.State Value))
  fill limit s = fill_from s.ready limit s

  -- The start of `drive`.
  unfoldable pub open_run : Dict String Value → Option ℕ → Result Fault (Run t.State Value)
  open_run inputs limit =
      if is_bad_limit limit then err bad_limit else (elim (t.prepare plan.dependencies) [
        | none ↦ err cycle
        | some prepared ↦
            (let (keys, sorter) = t.get_ready prepared in
              ok (record {
                sorter = sorter;
                consumers = plan.consumers;
                results = inputs;
                running = [];
                ready = keys;
              }))
      ])

-- `evaluate`, over the completions that `drive` yields: the loop, and the whole.
unfoldable pub last_of :
    {Value : Type 0} → String → Option Value → List (String × Value) → Option Value
last_of target result [] = result
last_of target result ((key, value) ∷ yielded) =
    last_of target (if key == target then some value else result) yielded

unfoldable pub evaluated :
    {Op Value : Type 0}
    → Plan Op
    → String
    → Dict String Value
    → List (String × Value)
    → Result Fault (Option Value)
evaluated plan target inputs yielded = elim (Dict.get target plan.by_key) [
  | some node ↦ ok (last_of target (Dict.get target inputs) yielded)
  | none ↦ elim (Dict.get target inputs) [
    | none ↦ err unknown_key
    | some supplied ↦ ok (last_of target (some supplied) yielded)
  ]
]
