-- ===== src/Dag/Run/Chain.antt =====
-- A sorter that takes one graph, of two nodes in a chain over an entry.
pub mod Laws
use without.Prelude.{
  ◌+◌, ◌≤◌, ◌<◌, String, ◌≡◌, refl, sym, ap, Bool, true, false, Bool-cases, ltb, nat_eq, none, some,
  List, [], ◌∷◌, ◌++◌, ◌⊎◌, inl, inr, length, if◌then◌else◌, arith, some-cancel,
}
use without.Prelude.Eq.{◌==◌, string_key}
use without.Prelude.Dict
use without.Prelude.Dict.{Dict}
use without.Dag.Sorter.{Sorter, IsSorter, count}
use without.Dag.Run.Counts.{count-append}

abbrev pub chain : Dict String (List String)
chain = ("fetch", "input:0" ∷ []) ∷ ("render", "fetch" ∷ []) ∷ []

abbrev pub Keys : Type 0
Keys = List String × List String

unfoldable pub piece : String → Bool → List String → List String
piece key free passed = if ltb 0 (count key passed) then [] else (if free then key ∷ [] else [])

unfoldable pub waits : Keys → List String
waits (passed, finished) =
    piece "input:0" true passed
    ++ (piece "fetch" (ltb 0 (count "input:0" finished)) passed
        ++ piece "render" (ltb 0 (count "fetch" finished)) passed)

unfoldable pub all_done : List String → List String → Bool
all_done [] finished = true
all_done (key ∷ keys) finished =
    if ltb 0 (count key finished) then all_done keys finished else false

unfoldable pub is_chain : Dict String (List String) → Bool
is_chain ((a, b ∷ []) ∷ (c, d ∷ []) ∷ []) =
    if a == "fetch"
    then (if b == "input:0" then (if c == "render" then d == "fetch" else false) else false)
    else false
is_chain _ = false

abbrev pub sorter : Sorter
sorter = record {
  State = Keys;
  prepare = λ g. if is_chain g then some ([], []) else none;
  get_ready = λ s. (waits s, (s.0 ++ waits s, s.1));
  done = λ key s.
      if ltb 0 (count key s.0)
      then (if ltb 0 (count key s.1) then none else some (s.0, s.1 ++ key ∷ []))
      else none;
  is_active =
      λ s. if nat_eq (length (waits s)) 0 then (if all_done s.0 s.1 then false else true) else true;
}

chain-of :
    (a b c d : String)
    → (a == "fetch") ≡ true
    → (b == "input:0") ≡ true
    → (c == "render") ≡ true
    → (d == "fetch") ≡ true
    → chain ≡ (a, b ∷ []) ∷ (c, d ∷ []) ∷ []
chain-of a b c d ha hb hc hd = cc (
  (string_key.beq_iff a "fetch").0 ha,
  (string_key.beq_iff b "input:0").0 hb,
  (string_key.beq_iff c "render").0 hc,
  (string_key.beq_iff d "fetch").0 hd,
)

pub is_chain_lem : (g : Dict String (List String)) → is_chain g ≡ true → chain ≡ g
unfolding is_chain
is_chain_lem ((a, b ∷ []) ∷ (c, d ∷ []) ∷ []) h = elim (Bool-cases (a == "fetch")) [
  | inr no_a ↦ absurd (cc (rw no_a at h))
  | inl is_a ↦
      let ha = rw is_a at h in
      elim (Bool-cases (b == "input:0")) [
        | inr no_b ↦ absurd (cc (rw no_b at ha))
        | inl is_b ↦
            let hb = rw is_b at ha in
            elim (Bool-cases (c == "render")) [
              | inr no_c ↦ absurd (cc (rw no_c at hb))
              | inl is_c ↦ chain-of a b c d is_a is_b is_c (rw is_c at hb)
            ]
      ]
]
is_chain_lem _ h = absurd (cc h)

count-piece :
    (k key : String) (free : Bool) (passed : List String)
    → count k (piece key free passed)
      ≡ (if key == k then (if ltb 0 (count key passed) then 0 else (if free then 1 else 0)) else 0)
unfolding piece
count-piece k key free passed = ground (arith)

count-waits :
    (k : String) (s : Keys)
    → count k (waits s)
      ≡ count k (piece "input:0" true s.0)
        + (count k (piece "fetch" (ltb 0 (count "input:0" s.1)) s.0)
            + count k (piece "render" (ltb 0 (count "fetch" s.1)) s.0))
unfolding waits
count-waits k (passed, finished) = omega (
  arith,
  count-append k (piece "input:0" true passed) (
      piece "fetch" (ltb 0 (count "input:0" finished)) passed
      ++ piece "render" (ltb 0 (count "fetch" finished)) passed),
  count-append k (piece "fetch" (ltb 0 (count "input:0" finished)) passed)
      (piece "render" (ltb 0 (count "fetch" finished)) passed),
)

pub piece-empty :
    (key : String) (free : Bool) (passed : List String)
    → (0 < count key passed) ⊎ (free ≡ false)
    → piece key free passed ≡ []
unfolding piece
piece-empty key free passed h = elim (Bool-cases (ltb 0 (count key passed))) [
  | inl there ↦ rw there refl
  | inr away ↦ elim h [
    | inl there ↦ absurd (ground (arith, there, away))
    | inr shut ↦ rw away (rw shut refl)
  ]
]

pub all_done_lem :
    (keys finished : List String) (k : String)
    → all_done keys finished ≡ true
    → 0 < count k keys
    → 0 < count k finished
unfolding all_done
all_done_lem [] finished k h there = absurd (omega (arith, there))
all_done_lem (key ∷ keys) finished k h there = elim (Bool-cases (ltb 0 (count key finished))) [
  | inr not ↦ absurd (cc (rw not at h))
  | inl done ↦ elim (Bool-cases (key == k)) [
    | inl same ↦ rw (sym ((string_key.beq_iff key k).0 same)) (ground (arith, done))
    | inr other ↦ all_done_lem keys finished k (rw done at h) (ground (arith, there, other))
  ]
]

-- The counts of what waits, at each of the three keys and at any other.
pub waits-at :
    (k : String) (s : Keys)
    → count k (waits s)
      ≡ (if "input:0" == k then (if ltb 0 (count "input:0" s.0) then 0 else 1) else 0)
        + ((if "fetch" == k
              then (if ltb 0 (count "fetch" s.0)
                  then 0
                  else (if ltb 0 (count "input:0" s.1) then 1 else 0))
              else 0)
            + (if "render" == k
                then (if ltb 0 (count "render" s.0)
                    then 0
                    else (if ltb 0 (count "fetch" s.1) then 1 else 0))
                else 0))
waits-at k s = omega (
  arith,
  count-waits k s,
  count-piece k "input:0" true s.0,
  count-piece k "fetch" (ltb 0 (count "input:0" s.1)) s.0,
  count-piece k "render" (ltb 0 (count "fetch" s.1)) s.0,
)

pub apart : (a b k : String) → (a == b) ≡ false → (if a == k then (b == k) else false) ≡ false
apart a b k h =
    ground (arith, h, string_key.beq_iff a k, string_key.beq_iff b k, string_key.beq_iff a b)

pub waits-once : (s : Keys) (k : String) → count k (waits s) ≤ 1
waits-once s k = ground (
  arith,
  waits-at k s,
  apart "input:0" "fetch" k refl,
  apart "input:0" "render" k refl,
  apart "fetch" "render" k refl,
)
