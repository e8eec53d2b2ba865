-- ===== src/Durability/Stepwise/Inbox/Cursor.antt =====
-- A read of an inbox, cut at a cursor: what a fuller inbox is cut back to.
use Prim.Native.String.{[] as nil, ◌∷◌ as cons}
use text.Mathlib.Text.{starts_with}
use without.Prelude.{
  ℕ, zero, suc, String, Bool-cases, true, false, ◌&&◌, ◌≡◌, refl, sym, ap, ap₂, subst, ◌∙◌, Option,
  Option-cases, none, some, some-cancel, inl, inr, List, [], ◌∷◌, ◌++◌, append-nil, All, All-split,
  arith,
}
use without.Prelude.Dict.{Dict}
use without.Durability.Values.{Entry}
use without.Durability.Stepwise.{Object, text_lt, inbox}
use without.Durability.Stepwise.Inbox.{unread, take, islice, delivered, up_to, through, last_key}

text_lt-asym : (s t : String) → text_lt s t ≡ true → text_lt t s ≡ false
unfolding text_lt
text_lt-asym nil nil h = absurd (cc h)
text_lt-asym nil (cons d t) h = refl
text_lt-asym (cons c s) nil h = absurd (cc h)
text_lt-asym (cons c s) (cons d t) h = ground (arith, h, text_lt-asym s t)

text_lt_irrefl : (s : String) → text_lt s s ≡ false
unfolding text_lt
text_lt_irrefl nil = refl
text_lt_irrefl (cons c s) = ground (arith, text_lt_irrefl s)

module _ {V : Type 0} where
  -- The keys of a list of entries go up.
  abbrev pub Ascending : List (Entry (Object V)) → Type 0
  Ascending [] = Unit
  Ascending (e ∷ es) = All (λ f. text_lt e.key f.key ≡ true) es × Ascending es

  -- No entry is past the bound; every entry is past it.
  abbrev Within : String → List (Entry (Object V)) → Type 0
  Within bound = All (λ e. text_lt bound e.key ≡ false)

  abbrev Past : String → List (Entry (Object V)) → Type 0
  Past bound = All (λ e. text_lt bound e.key ≡ true)

  up_to-Within :
      (bound : String) (es : List (Entry (Object V))) → Within bound es → up_to bound es ≡ es
  unfolding up_to
  up_to-Within bound [] h = refl
  up_to-Within bound (e ∷ es) (p, h) = rw p (ap (λ l. e ∷ l) (up_to-Within bound es h))

  up_to-Past : (bound : String) (es : List (Entry (Object V))) → Past bound es → up_to bound es ≡ []
  unfolding up_to
  up_to-Past bound [] h = refl
  up_to-Past bound (e ∷ es) (p, h) = rw p (up_to-Past bound es h)

  up_to-append :
      (bound : String) (es fs : List (Entry (Object V)))
      → up_to bound (es ++ fs) ≡ up_to bound es ++ up_to bound fs
  unfolding up_to
  up_to-append bound [] fs = refl
  up_to-append bound (e ∷ es) fs = elim (Bool-cases (text_lt bound e.key)) [
    | inl past ↦ rw past (up_to-append bound es fs)
    | inr within ↦ rw within (ap (λ l. e ∷ l) (up_to-append bound es fs))
  ]

  last_key-some :
      (e : Entry (Object V)) (es : List (Entry (Object V)))
      → (b : String) × (last_key (e ∷ es) ≡ some b)
  unfolding last_key
  last_key-some e es = elim (Option-cases (last_key es)) [
    | inl missing ↦ (e.key, rw missing refl)
    | inr (b, there) ↦ (b, rw there refl)
  ]

  last-above :
      (low : String) (es : List (Entry (Object V))) (b : String)
      → All (λ f. text_lt low f.key ≡ true) es
      → last_key es ≡ some b
      → text_lt low b ≡ true
  unfolding last_key
  last-above low [] b h last = absurd (cc last)
  last-above low (e ∷ es) b (p, h) last = elim (Option-cases (last_key es)) [
    | inl missing ↦ ap (text_lt low) (some-cancel (sym (rw missing at last))) ∙ p
    | inr (c, there) ↦ last-above low es b h (there ∙ rw there at last)
  ]

  -- The last key of an ascending list parts it from what follows.
  last_key-parts :
      (es fs : List (Entry (Object V))) (bound : String)
      → Ascending (es ++ fs)
      → last_key es ≡ some bound
      → Within bound es × Past bound fs
  unfolding last_key
  last_key-parts [] fs bound h last = absurd (cc last)
  last_key-parts (e ∷ []) fs bound (above, h) last =
      subst (λ b. Within b (e ∷ []) × Past b fs) (some-cancel last)
        ((text_lt_irrefl e.key, tt), above)
  last_key-parts (e ∷ f ∷ es) fs bound (above, h) last =
      let (b, there) = last_key-some f es in
      let same : last_key (f ∷ es) ≡ some bound = there ∙ rw there at last in
      let (within, past) = last_key-parts (f ∷ es) fs bound h same in
      let low = (All-split (λ g. text_lt e.key g.key ≡ true) (f ∷ es) fs above).0 in
      ((text_lt-asym e.key bound (last-above e.key (f ∷ es) bound low same), within), past)

  take-append :
      (n : ℕ) (es fs : List (Entry (Object V)))
      → (later : List (Entry (Object V))) × (take n (es ++ fs) ≡ take n es ++ later)
  unfolding take
  take-append zero es fs = ([], refl)
  take-append (suc n) [] fs = (take (suc n) fs, refl)
  take-append (suc n) (e ∷ es) fs =
      let (later, same) = take-append n es fs in (later, ap (λ l. e ∷ l) same)

  islice-append :
      (limit : Option ℕ) (es fs : List (Entry (Object V)))
      → (later : List (Entry (Object V))) × (islice limit (es ++ fs) ≡ islice limit es ++ later)
  islice-append none es fs = (fs, refl)
  islice-append (some n) es fs = take-append n es fs

  All-take :
      (P : Entry (Object V) → Type 0) (n : ℕ) (es : List (Entry (Object V)))
      → All P es
      → All P (take n es)
  unfolding take
  All-take P zero es h = tt
  All-take P (suc n) [] h = tt
  All-take P (suc n) (e ∷ es) (p, h) = (p, All-take P n es h)

  All-islice :
      (P : Entry (Object V) → Type 0) (limit : Option ℕ) (es : List (Entry (Object V)))
      → All P es
      → All P (islice limit es)
  All-islice P none es h = h
  All-islice P (some n) es h = All-take P n es h

  Ascending-take : (n : ℕ) (es : List (Entry (Object V))) → Ascending es → Ascending (take n es)
  unfolding take
  Ascending-take zero es h = tt
  Ascending-take (suc n) [] h = tt
  Ascending-take (suc n) (e ∷ es) (above, h) =
      (All-take (λ f. text_lt e.key f.key ≡ true) n es above, Ascending-take n es h)

  Ascending-islice :
      (limit : Option ℕ) (es : List (Entry (Object V))) → Ascending es → Ascending (islice limit es)
  Ascending-islice none es h = h
  Ascending-islice (some n) es h = Ascending-take n es h

  unread-Past :
      (cursor : String) (recorded : Dict String (Object V))
      → Past cursor (unread (some cursor) recorded)
  unfolding unread
  unread-Past cursor [] = tt
  unread-Past cursor ((key, value) ∷ recorded) =
      elim (Bool-cases (starts_with key inbox && text_lt cursor key)) [
        | inr left ↦ rw left (unread-Past cursor recorded)
        | inl taken ↦ rw taken (ground (arith, taken), unread-Past cursor recorded)
      ]

  -- Where a read of a list stops: at its last key, and at the cursor if it took nothing.
  abbrev pub bound_of : List (Entry (Object V)) → Option String → Option String
  bound_of available after = elim (last_key available) [ none ↦ after | some key ↦ some key ]

  Empty-cut :
      (after : Option String) (limit : Option ℕ) (recorded : Dict String (Object V))
      → through (delivered after limit recorded) after ≡ []
  Empty-cut none limit recorded = refl
  Empty-cut (some cursor) limit recorded =
      up_to-Past cursor _ (All-islice _ limit _ (unread-Past cursor recorded))

  cut_back :
      (taken later all : List (Entry (Object V))) (after : Option String)
      → all ≡ taken ++ later
      → Ascending all
      → through all after ≡ []
      → through all (bound_of taken after) ≡ taken
  unfolding last_key
  cut_back [] later all after whole ascending nothing = nothing
  cut_back (e ∷ es) later all after whole ascending nothing =
      let (bound, last) = last_key-some e es in
      let (within, past) =
        last_key-parts (e ∷ es) later bound (subst Ascending whole ascending) last in
      ap (λ o. through all (elim o [ none ↦ after | some key ↦ some key ])) last
      ∙ ap (up_to bound) whole
      ∙ up_to-append bound (e ∷ es) later
      ∙ ap₂ (λ xs ys. xs ++ ys) (up_to-Within bound (e ∷ es) within) (up_to-Past bound later past)
      ∙ append-nil (e ∷ es)

  -- However much is delivered later, behind everything that a read has seen, the read is cut back to
  -- what it took.
  pub through-delivered :
      (after : Option String) (limit : Option ℕ) (recorded fuller : Dict String (Object V))
      (newer : List (Entry (Object V)))
      → unread after fuller ≡ unread after recorded ++ newer
      → Ascending (unread after fuller)
      → through (delivered after limit fuller) (bound_of (delivered after limit recorded) after)
        ≡ delivered after limit recorded
  through-delivered after limit recorded fuller newer grows ascending =
      let (later, same) = islice-append limit (unread after recorded) newer in
      let taken = delivered after limit recorded in
      let whole : delivered after limit fuller ≡ taken ++ later = ap (islice limit) grows ∙ same in
      cut_back taken later (delivered after limit fuller) after whole
        (Ascending-islice limit (unread after fuller) ascending) (Empty-cut after limit fuller)
