-- ===== src/Prelude/Dict.antt =====
-- Python's `dict`: an association list in insertion order, where a write to a present key keeps
-- its place.
use Prim.Native.Nat.{◌+◌}
use mathlib.Core.Path.{◌≡◌, refl, sym, ap, subst, ◌∙◌}
use mathlib.Core.Logic.{inl, inr}
use mathlib.Core.Option.{Option, none, some}
use mathlib.Core.List.{List, [], ◌∷◌, ◌++◌, Memᴰ}
use native.Mathlib.Omega.{arith}
use without.Prelude.Tests.{if◌then◌else◌, Bool-cases, some-cancel}
use without.Prelude.Lists.{length, All}
use without.Prelude.Eq.{EqKey, ◌==◌}

abbrev pub Dict {ℓ κ} : Type ℓ → Type κ → Type (ℓ ⊔ κ)
Dict K V = List (K × V)

module _ {ℓ κ} {K : Type ℓ} {V : Type κ} ⦃e : EqKey K⦄ where
  unfoldable pub get : K → Dict K V → Option V
  get k [] = none
  get k ((j, v) ∷ d) = if j == k then some v else get k d

  unfoldable pub put : K → V → Dict K V → Dict K V
  put k v [] = (k, v) ∷ []
  put k v ((j, w) ∷ d) = if j == k then (j, v) ∷ d else (j, w) ∷ put k v d

  unfoldable pub remove : K → Dict K V → Dict K V
  remove k [] = []
  remove k ((j, v) ∷ d) = let rest = remove k d in if j == k then rest else (j, v) ∷ rest

  pub get-put :
      (k j : K) (v : V) (d : Dict K V) → get j (put k v d) ≡ (if k == j then some v else get j d)
  unfolding get put
  get-put k j v [] = refl
  get-put k j v ((i, w) ∷ d) =
      ground (arith, get-put k j v d, e.beq_iff i k, e.beq_iff i j, e.beq_iff k j)

  pub get-remove :
      (k j : K) (d : Dict K V) → get j (remove k d) ≡ (if k == j then none else get j d)
  unfolding get remove
  get-remove k j [] = ground arith
  get-remove k j ((i, w) ∷ d) =
      ground (arith, get-remove k j d, e.beq_iff i k, e.beq_iff i j, e.beq_iff k j)

  pub length-put :
      (k : K) (v : V) (d : Dict K V) → get k d ≡ none → length (put k v d) ≡ length d + 1
  unfolding get put
  length-put k v [] h = omega arith
  length-put k v ((i, w) ∷ d) h = ground (arith, length-put k v d)

  pub length-put_present :
      (k : K) (v w : V) (d : Dict K V) → get k d ≡ some w → length (put k v d) ≡ length d
  unfolding get put
  length-put_present k v w [] h = cc
  length-put_present k v w ((i, u) ∷ d) h = ground (arith, length-put_present k v w d)

  -- No key stands twice.
  abbrev pub Distinct : Dict K V → Type κ
  Distinct [] = Unit
  Distinct ((k, v) ∷ d) = (get k d ≡ none) × Distinct d

  pub Distinct-put : (k : K) (v : V) (d : Dict K V) → Distinct d → Distinct (put k v d)
  unfolding get put
  Distinct-put k v [] h = (refl, tt)
  Distinct-put k v ((j, w) ∷ d) (fresh, h) = elim (Bool-cases (j == k)) [
    | inl same ↦ rw same (fresh, h)
    | inr other ↦ rw other (
      get-put k j v d ∙ ground (arith, e.beq_iff j k, e.beq_iff k j, fresh),
      Distinct-put k v d h,
    )
  ]

  pub Distinct-remove : (k : K) (d : Dict K V) → Distinct d → Distinct (remove k d)
  unfolding get remove
  Distinct-remove k [] h = tt
  Distinct-remove k ((j, w) ∷ d) (fresh, h) = elim (Bool-cases (j == k)) [
    | inl same ↦ rw same (Distinct-remove k d h)
    | inr other ↦ rw other (get-remove k j d ∙ ground (arith, fresh), Distinct-remove k d h)
  ]

  pub get-mem : (k : K) (v : V) (d : Dict K V) → Distinct d → Memᴰ (k, v) d → get k d ≡ some v
  unfolding get
  get-mem k v [] h m = elim m [ ]
  get-mem k v ((j, w) ∷ d) h (Memᴰ.head same) =
      rw ((e.beq_iff j k).1 (sym (ap (λ p. p.0) same))) (ap some (sym (ap (λ p. p.1) same)))
  get-mem k v ((j, w) ∷ d) (fresh, h) (Memᴰ.tail m) =
      ground (arith, get-mem k v d h m, e.beq_iff j k, fresh)

  pub mem-get : (k : K) (v : V) (d : Dict K V) → get k d ≡ some v → Memᴰ (k, v) d
  unfolding get
  mem-get k v [] h = absurd (cc h)
  mem-get k v ((j, w) ∷ d) h = elim (Bool-cases (j == k)) [
    | inl same ↦ Memᴰ.head (
        ap (λ i. (i, v)) (sym ((e.beq_iff j k).0 same))
        ∙ ap (λ x. (j, x)) (some-cancel (sym (rw same at h))))
    | inr other ↦ Memᴰ.tail (mem-get k v d (rw other at h))
  ]

  pub All-put {μ} :
      (P : K × V → Type μ) (k : K) (v : V) (d : Dict K V) → P (k, v) → All P d → All P (put k v d)
  unfolding put
  All-put P k v [] p h = (p, tt)
  All-put P k v ((j, w) ∷ d) p (q, h) = elim (Bool-cases (j == k)) [
    | inl same ↦ rw same (subst (λ i. P (i, v)) (sym ((e.beq_iff j k).0 same)) p, h)
    | inr other ↦ rw other (q, All-put P k v d p h)
  ]

  pub All-remove {μ} : (P : K × V → Type μ) (k : K) (d : Dict K V) → All P d → All P (remove k d)
  unfolding remove
  All-remove P k [] h = tt
  All-remove P k ((j, w) ∷ d) (q, h) = elim (Bool-cases (j == k)) [
    | inl same ↦ rw same (All-remove P k d h)
    | inr other ↦ rw other (q, All-remove P k d h)
  ]

  pub get-append :
      (k : K) (d f : Dict K V)
      → get k (d ++ f) ≡ elim (get k d) [ none ↦ get k f | some v ↦ some v ]
  unfolding get
  get-append k [] f = refl
  get-append k ((j, w) ∷ d) f = elim (Bool-cases (j == k)) [
    | inl same ↦ rw same refl
    | inr other ↦ rw other (get-append k d f)
  ]

  pub get-append_left :
      (k : K) (v : V) (d f : Dict K V) → get k d ≡ some v → get k (d ++ f) ≡ some v
  get-append_left k v d f there = get-append k d f ∙ rw there refl
