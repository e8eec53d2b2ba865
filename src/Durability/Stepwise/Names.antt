-- ===== src/Durability/Stepwise/Names.antt =====
-- The names that a pass uses: each once, and none of the inbox's.
use text.Mathlib.Text.{starts_with}
use text.Mathlib.TextPositions.{starts_with-append}
use without.Prelude.{
  ℕ, String, Bool-cases, true, false, ◌||◌, ◌≡◌, ◌≢◌, refl, ap, ◌∙◌, ◌⊎◌, inl, inr, List, [], ◌∷◌,
  Memᴰ, mem-cases, ok, err, arith,
}
use without.Prelude.Eq.{string_key}
use without.Durability.InboxKey.{inbox_key, inbox_digits, padded, width_from}
use without.Durability.Checkpointer.Inbox.{IsPlain}
use without.Durability.Stepwise.{value_error, Run, inbox, is_in, claim_key}

inbox_key-starts : (n : ℕ) → starts_with (inbox_key n) inbox ≡ true
unfolding inbox_key
inbox_key-starts n = starts_with-append inbox (padded (width_from n inbox_digits n) n)

is_in-false :
    (key used : String) (names : List String)
    → is_in key names ≡ false
    → Memᴰ used names
    → used ≢ key
unfolding is_in
is_in-false key used [] h m e = elim m [ ]
is_in-false key used (name ∷ names) h m e = elim (mem-cases m) [
  | inl same ↦ ground (arith, h, string_key.beq_iff name key, same, e)
  | inr n ↦ is_in-false key used names (ground (arith, h)) n e
]

-- The names that a pass has used are all different, and none is one that the inbox assigns.
abbrev pub AreApart : List String → Type 0
AreApart [] = Unit
AreApart (key ∷ names) =
    ((used : String) → Memᴰ used names → used ≢ key) × IsPlain key × AreApart names

-- A name that a pass claims keeps its names apart, or is refused with nothing changed.
pub claim_key-AreApart :
    {V World E : Type 0} (key : String) (r : Run V World)
    → AreApart r.claimed
    → ((claim_key {E = E} key r).0 ≡ ok tt)
        × AreApart (claim_key {E = E} key r).1.claimed
        × ((claim_key {E = E} key r).1.claimed ≡ key ∷ r.claimed)
      ⊎ (claim_key {E = E} key r ≡ (err (value_error key), r))
unfolding claim_key
claim_key-AreApart key r apart = elim (Bool-cases (starts_with key inbox || is_in key r.claimed)) [
  | inl refused ↦ inr (rw refused refl)
  | inr free ↦ rw free (
      inl (
        refl,
        (
          λ used m. is_in-false key used r.claimed (ground (arith, free)) m,
          λ n small e.
              let begins : starts_with key inbox ≡ true =
                ap (λ k. starts_with k inbox) e ∙ inbox_key-starts n in
              absurd (ground (arith, free, begins)),
          apart,
        ),
        refl,
      ))
]
