-- ===== src/Dag/Run/Samples.antt =====
-- A run of two nodes in a chain over an entry: tests, and the theorems at it.
use without.Prelude.{
  ℕ, ◌≤◌, ◌<◌, ◌+◌, String, ◌≡◌, refl, ap, true, false, Bool-cases, Option, none, some, some-cancel,
  List, [], ◌∷◌, ◌++◌, ◌⊎◌, inl, inr, ok, err, All, length, arith,
}
use without.Prelude.Eq.{◌==◌, string_key}
use without.Prelude.Dict
use without.Prelude.Dict.{Dict}
use without.Dag.Graph.{Node, plan_of, by_key_of, consumers_of, count_all}
use without.Dag.Sorter.{count}
use without.Dag.Run.{
  Run, bad_limit, arguments, release, release_all, release_dependencies, unlock, visit, fill_from,
  fill, complete, open_run, has_slot, evaluated,
}
use without.Dag.Run.Steps.{Phase, inside, Reach, opened, entered, filled, completed, Ended, drained}
use without.Dag.Run.Invariant.{IsClosed}
use without.Dag.Run.Chain.{sorter, waits, piece, all_done, is_chain}
use without.Dag.Run.Chain.Laws.{sorter-IsSorter}
use without.Dag.Run.Limit.{drive-within_limit}
use without.Dag.Run.Outcome.{
  IsGiven, drive-never_raises, drive-runs_once, drive-arguments, drive-completes, evaluate-returns,
}

abbrev two_nodes : List (Node ℕ)
two_nodes =
    (record { key = "fetch"; dependencies = "input:0" ∷ []; run = 1 })
    ∷ (record { key = "render"; dependencies = "fetch" ∷ []; run = 2 })
    ∷ []

abbrev entry : Dict String ℕ
entry = ("input:0", 5) ∷ []

abbrev State : Type 0
State = Run sorter.State ℕ

-- After the start, where the entry is ready.
abbrev at_start : State
at_start = record {
  sorter = ("input:0" ∷ [], []);
  consumers = ("input:0", 1) ∷ ("fetch", 1) ∷ [];
  results = entry;
  running = [];
  ready = "input:0" ∷ [];
}

-- The entry is passed on, and the first node is ready.
abbrev passed_on : State
passed_on = record {
  sorter = ("input:0" ∷ "fetch" ∷ [], "input:0" ∷ []);
  consumers = ("input:0", 1) ∷ ("fetch", 1) ∷ [];
  results = entry;
  running = [];
  ready = "fetch" ∷ [];
}

-- The first node runs, and the entry, which nothing else reads, is dropped.
abbrev fetching : State
fetching = record {
  sorter = ("input:0" ∷ "fetch" ∷ [], "input:0" ∷ []);
  consumers = ("input:0", 0) ∷ ("fetch", 1) ∷ [];
  results = [];
  running = ("fetch", 5 ∷ []) ∷ [];
  ready = [];
}

abbrev fetched : State
fetched = record {
  sorter = ("input:0" ∷ "fetch" ∷ "render" ∷ [], "input:0" ∷ "fetch" ∷ []);
  consumers = ("input:0", 0) ∷ ("fetch", 1) ∷ [];
  results = ("fetch", 7) ∷ [];
  running = [];
  ready = "render" ∷ [];
}

abbrev rendering : State
rendering = record {
  sorter = ("input:0" ∷ "fetch" ∷ "render" ∷ [], "input:0" ∷ "fetch" ∷ []);
  consumers = ("input:0", 0) ∷ ("fetch", 0) ∷ [];
  results = [];
  running = ("render", 7 ∷ []) ∷ [];
  ready = [];
}

abbrev rendered : State
rendered = record {
  sorter = ("input:0" ∷ "fetch" ∷ "render" ∷ [], "input:0" ∷ "fetch" ∷ "render" ∷ []);
  consumers = ("input:0", 0) ∷ ("fetch", 0) ∷ [];
  results = ("render", 9) ∷ [];
  running = [];
  ready = [];
}

abbrev one : Option ℕ
one = some 1

opens : open_run sorter (plan_of two_nodes) entry one ≡ ok at_start
unfolding open_run plan_of by_key_of consumers_of count_all Dict.get Dict.put waits piece is_chain
opens = refl

refuses_no_slots : open_run sorter (plan_of two_nodes) entry (some 0) ≡ err bad_limit
unfolding open_run
refuses_no_slots = refl

passes : fill sorter (plan_of two_nodes) one at_start ≡ ok (some passed_on)
unfolding fill_from has_slot visit arguments release_dependencies release_all release plan_of
    by_key_of Dict.get Dict.put Dict.remove unlock waits piece
passes = refl

starts : fill sorter (plan_of two_nodes) one passed_on ≡ ok (some fetching)
unfolding fill_from has_slot visit arguments release_dependencies release_all release plan_of
    by_key_of Dict.get Dict.put Dict.remove unlock waits piece
starts = refl

waits_for_fetch : fill sorter (plan_of two_nodes) one fetching ≡ ok none
unfolding fill_from has_slot visit arguments release_dependencies release_all release plan_of
    by_key_of Dict.get Dict.put Dict.remove unlock waits piece
waits_for_fetch = refl

fetches : complete sorter "fetch" 7 [] fetching ≡ ok fetched
unfolding complete fill_from has_slot visit arguments release_dependencies release_all release
    plan_of by_key_of Dict.get Dict.put Dict.remove unlock waits piece
fetches = refl

starts_next : fill sorter (plan_of two_nodes) one fetched ≡ ok (some rendering)
unfolding fill_from has_slot visit arguments release_dependencies release_all release plan_of
    by_key_of Dict.get Dict.put Dict.remove unlock waits piece
starts_next = refl

waits_for_render : fill sorter (plan_of two_nodes) one rendering ≡ ok none
unfolding fill_from has_slot visit arguments release_dependencies release_all release plan_of
    by_key_of Dict.get Dict.put Dict.remove unlock waits piece
waits_for_render = refl

renders : complete sorter "render" 9 [] rendering ≡ ok rendered
unfolding complete fill_from has_slot visit arguments release_dependencies release_all release
    plan_of by_key_of Dict.get Dict.put Dict.remove unlock waits piece
renders = refl

quiet : sorter.is_active rendered.sorter ≡ false
unfolding all_done fill_from has_slot visit arguments release_dependencies release_all release
    plan_of by_key_of Dict.get Dict.put Dict.remove unlock waits piece
quiet = refl

-- The run up to the first node, and the whole.
abbrev yields : Dict String ℕ
yields = ("fetch", 7) ∷ ("render", 9) ∷ []

abbrev Runs : Phase → State → List (String × ℕ) → Type 0
Runs = Reach sorter (plan_of two_nodes) entry one

run_fetching : Runs inside fetching []
unfolding waits piece all_done
run_fetching = filled starts (filled passes (entered refl (opened opens)))

run_rendering : Runs inside rendering (("fetch", 7) ∷ [])
unfolding waits piece all_done
run_rendering = filled starts_next (
    entered refl
      (completed "fetch" 7 (5 ∷ []) [] [] waits_for_fetch refl fetches refl run_fetching))

whole_run : Ended sorter (plan_of two_nodes) entry one rendered yields
whole_run =
    drained quiet
      (completed "render" 9 (7 ∷ []) [] [] waits_for_render refl renders refl run_rendering)

closed : IsClosed sorter sorter-IsSorter two_nodes entry
unfolding plan_of by_key_of Dict.get Dict.put
closed key dependency n found reads = elim (Bool-cases ("fetch" == key)) [
  | inl same ↦
      let e = some-cancel (rw same at found) in
      let input : ("input:0" == dependency) ≡ true =
        ground (arith, reads, ap (λ m. count dependency m.dependencies) e) in
      inr (5, rw input refl)
  | inr not_fetch ↦ elim (Bool-cases ("render" == key)) [
    | inl same ↦
        let e = some-cancel (rw same at (rw not_fetch at found)) in
        let fetch : ("fetch" == dependency) ≡ true =
          ground (arith, reads, ap (λ m. count dependency m.dependencies) e) in
        inl (record { key = "fetch"; dependencies = "input:0" ∷ []; run = 1 }, rw fetch refl)
    | inr other ↦ absurd (cc (rw other at (rw not_fetch at found)))
  ]
]

drive-never_raises_example :
    ((fill sorter (plan_of two_nodes) one fetching ≡ ok none)
      ⊎ ((s' : State) × (fill sorter (plan_of two_nodes) one fetching ≡ ok (some s'))))
    × ((key : String) (value : ℕ) (args : List ℕ) (before after : List (String × List ℕ))
        → fetching.running ≡ before ++ (key, args) ∷ after
        → (s' : State) × (complete sorter key value (before ++ after) fetching ≡ ok s'))
drive-never_raises_example =
    drive-never_raises sorter sorter-IsSorter two_nodes entry one fetching [] closed run_fetching

drive-runs_once_example :
    (count "fetch" ("fetch" ∷ []) + count "fetch" ("render" ∷ []) ≤ 1)
    × (0 < count "fetch" ("fetch" ∷ []) + count "fetch" ("render" ∷ [])
        → Dict.get "fetch" entry ≡ none)
drive-runs_once_example =
    drive-runs_once sorter sorter-IsSorter two_nodes entry one rendering (("fetch", 7) ∷ []) "fetch"
      closed run_rendering

drive-arguments_example :
    All
      (IsGiven sorter sorter-IsSorter two_nodes entry one (("fetch", 7) ∷ []))
      (("render", 7 ∷ []) ∷ [])
drive-arguments_example =
    drive-arguments sorter sorter-IsSorter two_nodes entry one rendering (("fetch", 7) ∷ []) closed
      run_rendering

drive-within_limit_example : length rendering.running ≤ 1
drive-within_limit_example =
    drive-within_limit sorter (plan_of two_nodes) entry 1 rendering (("fetch", 7) ∷ [])
      run_rendering

drive-completes_example : (v : ℕ) × (Dict.get "render" (entry ++ yields) ≡ some v)
unfolding plan_of by_key_of Dict.get Dict.put
drive-completes_example =
    drive-completes sorter sorter-IsSorter two_nodes entry one rendered yields "render"
      (record { key = "render"; dependencies = "fetch" ∷ []; run = 2 }) closed whole_run refl

evaluate-returns_example :
    (v : ℕ) × (evaluated (plan_of two_nodes) "render" entry yields ≡ ok (some v))
    × (Dict.get "render" (entry ++ yields) ≡ some v)
unfolding plan_of by_key_of Dict.get Dict.put
evaluate-returns_example =
    evaluate-returns sorter sorter-IsSorter two_nodes entry one rendered yields "render" closed
      whole_run (inl (record { key = "render"; dependencies = "fetch" ∷ []; run = 2 }, refl))
