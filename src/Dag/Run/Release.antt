-- ===== src/Dag/Run/Release.antt =====
-- `release_dependencies`: the counts of the reads, and the results that are dropped.
use without.Prelude.{
  ℕ, ◌+◌, ◌-◌, ◌≤◌, ◌<◌, String, ◌≡◌, refl, ◌∙◌, Bool-cases, nat_eq, Option-cases, some, ◌⊎◌, inl,
  inr, List, [], ◌∷◌, Result-cases, ok, arith,
}
use without.Prelude.Eq.{string_key}
use without.Prelude.Dict
use without.Prelude.Dict.{Dict}
use without.Dag.Sorter.{count}
use without.Dag.Run.{Run, release, release_all, arguments}
use without.Dag.Run.Counts.{tally, tally-put}

abbrev pub with_counts :
    {S Value : Type 0} → Dict String ℕ → Dict String Value → Run S Value → Run S Value
with_counts c r s = record s { consumers = c; results = r }

module _ {Value : Type 0} where
  -- The counts and the results that are left of `c` and `r` once `reads` have been released.
  pub record Released (reads : List String) (c : Dict String ℕ) (r : Dict String Value)
      (c' : Dict String ℕ) (r' : Dict String Value) : Type 0 where
    pub counted : (key : String) → tally key c' + count key reads ≡ tally key c
    pub kept :
        (key : String)
        → (count key reads ≡ 0) ⊎ (0 < tally key c')
        → Dict.get key r' ≡ Dict.get key r
    pub only : (key : String) (v : Value) → Dict.get key r' ≡ some v → Dict.get key r ≡ some v

  Released-cons :
      (d : String) (ds : List String) {c c' c'' : Dict String ℕ} {r r' r'' : Dict String Value}
      → Released (d ∷ []) c r c' r'
      → Released ds c' r' c'' r''
      → Released (d ∷ ds) c r c'' r''
  Released-cons d ds one more = record {
    counted = λ key. ground (arith, one.counted key, more.counted key);
    kept = λ key h. elim h [
      | inl unread ↦
          more.kept key (inl (ground (arith, unread))) ∙ one.kept key (inl (ground (arith, unread)))
      | inr left ↦
          more.kept key (inr left) ∙ one.kept key (inr (omega (arith, more.counted key, left)))
    ];
    only = λ key v h. one.only key v (more.only key v h);
  }

module _ {S Value : Type 0} where
  release-Released :
      (d : String) (s : Run S Value) {v : Value}
      → 0 < tally d s.consumers
      → Dict.get d s.results ≡ some v
      → (c : Dict String ℕ) × (r : Dict String Value) × (release d s ≡ ok (with_counts c r s))
        × Released (d ∷ []) s.consumers s.results c r
  unfolding release
  release-Released d s {v} some_left there =
      let n = tally d s.consumers in
      elim (Bool-cases (nat_eq n 1)) [
        | inr more ↦ (
          Dict.put d (n - 1) s.consumers,
          s.results,
          rw more refl,
          record {
            counted = λ key.
                ground
                  (arith, tally-put d key (n - 1) s.consumers, string_key.beq_iff d key, some_left);
            kept = λ key h. refl;
            only = λ key w h. h;
          },
        )
        | inl last ↦ (
          Dict.put d (n - 1) s.consumers,
          Dict.remove d s.results,
          rw last (rw (there, release) refl),
          record {
            counted = λ key.
                ground
                  (arith, tally-put d key (n - 1) s.consumers, string_key.beq_iff d key, some_left);
            kept = λ key h. ground (
              arith,
              Dict.get-remove d key s.results,
              tally-put d key (n - 1) s.consumers,
              last,
              h,
            );
            only = λ key w h. ground (arith, Dict.get-remove d key s.results);
          },
        )
      ]

  -- Where every read that is to be released is counted, and of a result that is there, nothing is raised.
  pub release_all-Released :
      (ds : List String) (s : Run S Value)
      → ((key : String) → count key ds ≤ tally key s.consumers)
      → ((key : String) → 0 < count key ds → (v : Value) × (Dict.get key s.results ≡ some v))
      → (c : Dict String ℕ) × (r : Dict String Value) × (release_all ds s ≡ ok (with_counts c r s))
        × Released ds s.consumers s.results c r
  unfolding release_all
  release_all-Released [] s enough there = (
    s.consumers,
    s.results,
    refl,
    record { counted = λ key. omega arith; kept = λ key h. refl; only = λ key v h. h },
  )
  release_all-Released (d ∷ ds) s enough there =
      let (v, found) = there d (ground (arith, string_key.beq_iff d d)) in
      let (c, r, made, one) =
        release-Released d s (ground (arith, enough d, string_key.beq_iff d d)) found in
      let (c', r', rest, more) =
        release_all-Released ds (with_counts c r s)
          (λ key. ground (arith, enough key, one.counted key))
          (λ key h.
            let (w, held) = there key (ground (arith, h)) in
            (w, one.kept key (inr (ground (arith, h, enough key, one.counted key))) ∙ held)) in
      (c', r', rw (made, release_all) rest, Released-cons d ds one more)

-- The arguments are the results of the dependencies, where all have one.
pub arguments-ok :
    {Value : Type 0} (ds : List String) (results : Dict String Value)
    → ((key : String) → 0 < count key ds → (v : Value) × (Dict.get key results ≡ some v))
    → (args : List Value) × (arguments ds results ≡ ok args)
unfolding arguments
arguments-ok [] results there = ([], refl)
arguments-ok (d ∷ ds) results there =
    let (v, found) = there d (ground (arith, string_key.beq_iff d d)) in
    let (args, made) = arguments-ok ds results (λ key h. there key (ground (arith, h))) in
    (v ∷ args, rw (found, arguments) (rw (made, arguments) refl))

-- Arguments that were taken from results that are all known are the known values.
pub arguments-known :
    {Value : Type 0} (ds : List String) (results known : Dict String Value) (args : List Value)
    → ((key : String) (v : Value) → Dict.get key results ≡ some v → Dict.get key known ≡ some v)
    → arguments ds results ≡ ok args
    → arguments ds known ≡ ok args
unfolding arguments
arguments-known [] results known args only made = made
arguments-known (d ∷ ds) results known args only made = elim (Option-cases (Dict.get d results)) [
  | inl missing ↦ absurd (cc (rw (missing, arguments) at made))
  | inr (v, found) ↦ elim (Result-cases (arguments ds results)) [
    | inr (fault, failed) ↦ absurd (cc (rw (failed, arguments) at (rw (found, arguments) at made)))
    | inl (rest, fine) ↦
        let e = rw (fine, arguments) at (rw (found, arguments) at made) in
        rw (only d v found, arguments)
          (rw (arguments-known ds results known rest only fine, arguments) e)
  ]
]
