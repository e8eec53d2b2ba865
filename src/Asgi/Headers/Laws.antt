-- ===== src/Asgi/Headers/Laws.antt =====
-- What each helper on headers leaves under a name.
use without.Prelude.{
  ℕ, ◌≡◌, refl, ap, ◌∙◌, false, Bool-cases, ◌||◌, none, some, inl, inr, List, [], ◌∷◌, ◌++◌,
  append-nil, if◌then◌else◌, arith,
}
use without.Prelude.Eq.{◌==◌}
use without.Asgi.Bytes.{Bytes, bytes_key, lower, lower_byte}
use without.Asgi.Headers.{
  RawHeaders, get_all, first, remove, replace, is_named, names_of, drop_named, merge,
}

lower_byte_twice : (b : ℕ) → lower_byte (lower_byte b) ≡ lower_byte b
lower_byte_twice b = ground arith

lower_twice : (b : Bytes) → lower (lower b) ≡ lower b
unfolding lower
lower_twice [] = refl
lower_twice (x ∷ b) = ground (arith, lower_byte_twice x, lower_twice b)

get_all-append : (h k : RawHeaders) (n : Bytes) → get_all (h ++ k) n ≡ get_all h n ++ get_all k n
unfolding get_all
get_all-append [] k n = refl
get_all-append ((key, v) ∷ h) k n = ground (arith, get_all-append h k n)

get_all-remove :
    (h : RawHeaders) (n m : Bytes)
    → get_all (remove h n) m ≡ (if lower n == lower m then [] else get_all h m)
unfolding get_all remove
get_all-remove [] n m = ground arith
get_all-remove ((key, v) ∷ h) n m = ground (
  arith,
  get_all-remove h n m,
  bytes_key.beq_iff (lower key) (lower n),
  bytes_key.beq_iff (lower n) (lower m),
  bytes_key.beq_iff (lower key) (lower m),
)

get_all-one :
    (n v m : Bytes) → get_all ((lower n, v) ∷ []) m ≡ (if lower n == lower m then v ∷ [] else [])
unfolding get_all
get_all-one n v m = rw (lower_twice n) refl

-- After a replacement a name has the new value alone, and every other name what it had.
pub get_all-replace :
    (h : RawHeaders) (n v m : Bytes)
    → get_all (replace h n v) m ≡ (if lower n == lower m then v ∷ [] else get_all h m)
unfolding replace
get_all-replace h n v m =
    get_all-append (remove h n) ((lower n, v) ∷ []) m
    ∙ ground (arith, get_all-remove h n m, get_all-one n v m, append-nil (get_all h m))

is_named-same : (k m : Bytes) (ns : List Bytes) → lower k ≡ lower m → is_named k ns ≡ is_named m ns
unfolding is_named
is_named-same k m [] e = refl
is_named-same k m (n ∷ ns) e = rw e (ap (λ b. (lower n == lower m) || b) (is_named-same k m ns e))

get_all-drop_named :
    (ns : List Bytes) (h : RawHeaders) (m : Bytes)
    → get_all (drop_named ns h) m ≡ (if is_named m ns then [] else get_all h m)
unfolding get_all drop_named
get_all-drop_named ns [] m = ground arith
get_all-drop_named ns ((key, v) ∷ h) m = ground (
  arith,
  get_all-drop_named ns h m,
  bytes_key.beq_iff (lower key) (lower m),
  is_named-same key m ns,
)

get_all_unnamed : (h : RawHeaders) (m : Bytes) → is_named m (names_of h) ≡ false → get_all h m ≡ []
unfolding get_all is_named
get_all_unnamed [] m e = refl
get_all_unnamed ((key, v) ∷ h) m e = ground (arith, get_all_unnamed h m)

-- After a merge a name that the second headers have, in whatever case, has their values, and every
-- other name those of the first.
pub get_all-merge :
    (base over : RawHeaders) (m : Bytes)
    → get_all (merge base over) m
      ≡ (if is_named m (names_of over) then get_all over m else get_all base m)
unfolding merge
get_all-merge base over m =
    get_all-append (drop_named (names_of over) base) over m
    ∙ elim (Bool-cases (is_named m (names_of over))) [
      | inl named ↦ rw (get_all-drop_named (names_of over) base m) (rw named refl)
      | inr unnamed ↦
          rw (get_all-drop_named (names_of over) base m, get_all_unnamed over m unnamed)
            (rw unnamed (append-nil (get_all base m)))
    ]

-- `first` is the head of `get_all`.
pub first-get_all :
    (h : RawHeaders) (n : Bytes) → first h n ≡ elim (get_all h n) [ [] ↦ none | v ∷ vs ↦ some v ]
unfolding first get_all
first-get_all [] n = refl
first-get_all ((key, v) ∷ h) n = elim (Bool-cases (lower key == lower n)) [
  | inl same ↦ rw same refl
  | inr other ↦ rw other (first-get_all h n)
]
