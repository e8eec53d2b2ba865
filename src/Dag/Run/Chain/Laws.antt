-- ===== src/Dag/Run/Chain/Laws.antt =====
-- The chain sorter against the interface of a sorter.
use without.Prelude.{
  ◌<◌, String, ◌≡◌, refl, sym, ap, true, false, Bool-cases, ltb, nat_eq, some, List, [], ◌∷◌, ◌++◌,
  ◌⊎◌, inl, inr, length, arith, some-cancel,
}
use without.Prelude.Eq.{◌==◌, string_key}
use without.Prelude.Dict
use without.Prelude.Dict.{Dict}
use without.Dag.Sorter.{IsSorter, count}
use without.Dag.Run.Counts.{count-append}
use without.Dag.Run.Chain.{
  chain, Keys, piece, waits, all_done, is_chain, sorter, is_chain_lem, piece-empty, all_done_lem,
  waits-at, apart, waits-once,
}

-- What is passed of the three keys.
count_of-key : (key k : String) (ks : List String) → (key == k) ≡ true → count key ks ≡ count k ks
count_of-key key k ks h = ap (λ x. count x ks) ((string_key.beq_iff key k).0 h)

waits-new : (s : Keys) (k : String) → 0 < count k (waits s) → count k s.0 ≡ 0
waits-new s k h = elim (Bool-cases ("input:0" == k)) [
  | inl same ↦ ground (
    arith,
    h,
    waits-at k s,
    same,
    count_of-key "input:0" k s.0 same,
    apart "input:0" "fetch" k refl,
    apart "input:0" "render" k refl,
  )
  | inr not_input ↦ elim (Bool-cases ("fetch" == k)) [
    | inl same ↦ ground (
      arith,
      h,
      waits-at k s,
      not_input,
      same,
      count_of-key "fetch" k s.0 same,
      apart "fetch" "render" k refl,
    )
    | inr not_fetch ↦ elim (Bool-cases ("render" == k)) [
      | inl same ↦
          ground
            (arith, h, waits-at k s, not_input, not_fetch, same, count_of-key "render" k s.0 same)
      | inr other ↦ absurd (ground (arith, h, waits-at k s, not_input, not_fetch, other))
    ]
  ]
]

chain-cases :
    (k : String) (ds : List String)
    → Dict.get k chain ≡ some ds
    → ((("fetch" == k) ≡ true) × (ds ≡ "input:0" ∷ []))
      ⊎ ((("render" == k) ≡ true) × (ds ≡ "fetch" ∷ []))
unfolding Dict.get
chain-cases k ds h = elim (Bool-cases ("fetch" == k)) [
  | inl same ↦ inl (same, sym (some-cancel (rw same at h)))
  | inr not_fetch ↦ elim (Bool-cases ("render" == k)) [
    | inl same ↦ inr (same, sym (some-cancel (rw same at (rw not_fetch at h))))
    | inr other ↦ absurd (cc (rw other at (rw not_fetch at h)))
  ]
]

read-one : (key d : String) (ds : List String) → ds ≡ key ∷ [] → 0 < count d ds → (key == d) ≡ true
read-one key d ds e reads = ground (arith, ap (count d) e, reads)

waits-after :
    (s : Keys) (k d : String) (ds : List String)
    → 0 < count k (waits s)
    → Dict.get k chain ≡ some ds
    → 0 < count d ds
    → 0 < count d s.1
waits-after s k d ds h found reads = elim (chain-cases k ds found) [
  | inl (same, e) ↦ ground (
    arith,
    h,
    waits-at k s,
    same,
    ap (count d) e,
    reads,
    apart "fetch" "render" k refl,
    apart "fetch" "input:0" k refl,
    count_of-key "input:0" d s.1 (read-one "input:0" d ds e reads),
  )
  | inr (same, e) ↦ ground (
    arith,
    h,
    waits-at k s,
    same,
    ap (count d) e,
    reads,
    apart "render" "fetch" k refl,
    apart "render" "input:0" k refl,
    count_of-key "fetch" d s.1 (read-one "fetch" d ds e reads),
  )
]

waits-known :
    (s : Keys) (k : String)
    → 0 < count k (waits s)
    → ((ds : List String) × (Dict.get k chain ≡ some ds))
      ⊎ ((reader : String) × (ds : List String) × (Dict.get reader chain ≡ some ds)
          × (0 < count k ds))
unfolding Dict.get
waits-known s k h = elim (Bool-cases ("fetch" == k)) [
  | inl same ↦ inl ("input:0" ∷ [], rw same refl)
  | inr not_fetch ↦ elim (Bool-cases ("render" == k)) [
    | inl same ↦ inl ("fetch" ∷ [], rw not_fetch (rw same refl))
    | inr not_render ↦
        inr ("fetch", "input:0" ∷ [], refl, ground (arith, h, waits-at k s, not_fetch, not_render))
  ]
]

waits-exhausted :
    (s : Keys) (k : String) (ds : List String)
    → waits s ≡ []
    → ((j : String) → 0 < count j s.0 → 0 < count j s.1)
    → Dict.get k chain ≡ some ds
    → 0 < count k s.1
waits-exhausted s k ds h done found =
    let input : 0 < count "input:0" s.1 =
      ground (arith, ap (count "input:0") h, waits-at "input:0" s, done "input:0") in
    let fetch : 0 < count "fetch" s.1 =
      ground (arith, ap (count "fetch") h, waits-at "fetch" s, done "fetch", input) in
    let render : 0 < count "render" s.1 =
      ground (arith, ap (count "render") h, waits-at "render" s, done "render", fetch) in
    elim (chain-cases k ds found) [
      | inl (same, _) ↦ omega (arith, fetch, count_of-key "fetch" k s.1 same)
      | inr (same, _) ↦ omega (arith, render, count_of-key "render" k s.1 same)
    ]

length-zero : {A : Type 0} (xs : List A) → length xs ≡ 0 → xs ≡ []
length-zero [] h = refl
length-zero (x ∷ xs) h = absurd (omega (arith, h))

waits-inactive :
    (s : Keys)
    → sorter.is_active s ≡ false
    → (waits s ≡ []) × ((k : String) → 0 < count k s.0 → 0 < count k s.1)
waits-inactive s h = elim (Bool-cases (nat_eq (length (waits s)) 0)) [
  | inr more ↦ absurd (cc (rw more at h))
  | inl none_waits ↦ elim (Bool-cases (all_done s.0 s.1)) [
    | inl done ↦ (
      length-zero (waits s) (ground (arith, none_waits)),
      λ k there. all_done_lem s.0 s.1 k done there,
    )
    | inr not ↦ absurd (cc (rw not at (rw none_waits at h)))
  ]
]

waits-drained : (s : Keys) → waits (s.0 ++ waits s, s.1) ≡ []
unfolding waits
waits-drained s =
    let passed = s.0 ++ waits s in
    let input : piece "input:0" true passed ≡ [] =
      piece-empty "input:0" true passed
        (inl (ground (arith, waits-at "input:0" s, count-append "input:0" s.0 (waits s)))) in
    let fetch : piece "fetch" (ltb 0 (count "input:0" s.1)) passed ≡ [] =
      piece-empty "fetch" (ltb 0 (count "input:0" s.1)) passed
        (elim (Bool-cases (ltb 0 (count "input:0" s.1))) [
          | inl free ↦
              inl (ground (arith, free, waits-at "fetch" s, count-append "fetch" s.0 (waits s)))
          | inr shut ↦ inr shut
        ]) in
    let render : piece "render" (ltb 0 (count "fetch" s.1)) passed ≡ [] =
      piece-empty "render" (ltb 0 (count "fetch" s.1)) passed
        (elim (Bool-cases (ltb 0 (count "fetch" s.1))) [
          | inl free ↦
              inl (ground (arith, free, waits-at "render" s, count-append "render" s.0 (waits s)))
          | inr shut ↦ inr shut
        ]) in
    cc (input, fetch, render)

done-marked :
    (key : String) (s q : Keys)
    → sorter.done key s ≡ some q
    → (chain ≡ chain) × (q.0 ≡ s.0) × (q.1 ≡ s.1 ++ key ∷ [])
done-marked key s q h = elim (Bool-cases (ltb 0 (count key s.0))) [
  | inr fresh ↦ absurd (cc (rw fresh at h))
  | inl passed ↦ elim (Bool-cases (ltb 0 (count key s.1))) [
    | inl again ↦ absurd (cc (rw again at (rw passed at h)))
    | inr free ↦
        let e = some-cancel (rw free at (rw passed at h)) in
        (refl, ap (λ x. x.0) (sym e), ap (λ x. x.1) (sym e))
  ]
]

pub sorter-IsSorter : IsSorter sorter
sorter-IsSorter = record {
  graph = λ s. chain;
  passed = λ s. s.0;
  finished = λ s. s.1;
  waiting = waits;
  prepare_lem = λ g s h. elim (Bool-cases (is_chain g)) [
    | inl good ↦
        let e = some-cancel (rw good at h) in
        (is_chain_lem g good, ap (λ x. x.0) (sym e), ap (λ x. x.1) (sym e))
    | inr bad ↦ absurd (cc (rw bad at h))
  ];
  get_ready_lem = λ s. (refl, refl, refl, refl, waits-drained s);
  done_lem = λ key s q h. done-marked key s q h;
  done_accepts = λ key s passed unmarked.
      let is_passed : ltb 0 (count key s.0) ≡ true = ground (arith, passed) in
      let is_free : ltb 0 (count key s.1) ≡ false = ground (arith, unmarked) in
      ((s.0, s.1 ++ key ∷ []), rw is_passed (rw is_free refl));
  waiting_once = waits-once;
  waiting_new = waits-new;
  waiting_after = waits-after;
  waiting_known = waits-known;
  inactive = λ s h. waits-inactive s h;
  exhausted = waits-exhausted;
}
