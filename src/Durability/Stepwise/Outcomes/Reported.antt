-- ===== src/Durability/Stepwise/Outcomes/Reported.antt =====
-- What a pass that stopped reports: a deadline before the waits on the outside, and all of those.
use without.Prelude.{
  ℕ, ◌≤◌, String, ◌≡◌, ◌≢◌, sym, ◌∙◌, none, some, ◌⊎◌, inl, inr, List, [], ◌∷◌, ◌++◌, Memᴰ, All-mem,
  Result, ok, err,
}
use without.Prelude.Eq.{string_key}
use without.Prelude.Dict
use without.Prelude.Dict.{Dict}
use without.Durability.Stepwise.{Suspended, input_needed, message_needed, Fault, set_of}
use without.Durability.Stepwise.Outcomes.{
  Outcome, completed, sleeping, blocked, deadlines_into, earliest, is_input, is_message, keys_where,
  blocked_or, report, stopped_at,
}
use without.Durability.Stepwise.Outcomes.Deadlines.{
  first_due, deadlines-first, deadlines-Distinct, earliest-Least,
}
use without.Durability.Stepwise.Outcomes.Waits.{Names, Names-inputs, Names-messages}

module _ {E A : Type 0} where
  -- What a pass with these suspensions may report.
  abbrev pub Reports : List Suspended → Result (Fault E) (Outcome A) → Type 0
  Reports s (ok (completed v)) = ⊥
  Reports s (ok (sleeping key due)) =
      (first_due key s ≡ some due) × ((k : String) (d : ℕ) → first_due k s ≡ some d → due ≤ d)
  Reports s (ok (blocked waiting listening)) =
      ((k : String) → first_due k s ≡ none)
      × Names input_needed s waiting
      × Names message_needed s listening
      × ((waiting ≢ []) ⊎ (listening ≢ []))
  Reports s (err e) =
      (k : String)
      → (first_due k s ≡ none) × ¬ (Memᴰ (input_needed k) s) × ¬ (Memᴰ (message_needed k) s)

module _ (E A : Type 0) where
  blocked_or-Reports :
      (s : List Suspended) (waiting listening : List String)
      → ((k : String) → first_due k s ≡ none)
      → Names input_needed s waiting
      → Names message_needed s listening
      → Reports s (blocked_or {E = E} {A = A} s waiting listening)
  blocked_or-Reports [] [] [] none_due w l =
      λ k. (none_due k, λ m. elim ((w k).1 m) [ ], λ m. elim ((l k).1 m) [ ])
  blocked_or-Reports (first ∷ rest) [] [] none_due w l =
      λ k. (none_due k, λ m. elim ((w k).1 m) [ ], λ m. elim ((l k).1 m) [ ])
  blocked_or-Reports [] (x ∷ xs) l none_due named listed = (none_due, named, listed, inl (λ e. cc))
  blocked_or-Reports [] [] (x ∷ xs) none_due named listed = (none_due, named, listed, inr (λ e. cc))
  blocked_or-Reports (first ∷ rest) (x ∷ xs) l none_due named listed =
      (none_due, named, listed, inl (λ e. cc))
  blocked_or-Reports (first ∷ rest) [] (x ∷ xs) none_due named listed =
      (none_due, named, listed, inr (λ e. cc))

  report-Reports :
      (s : List Suspended) (d : Dict String ℕ)
      → ((k : String) → Dict.get k d ≡ first_due k s)
      → Dict.Distinct d
      → Reports s (report {E = E} {A = A} s d)
  unfolding Dict.get
  report-Reports s [] same distinct =
      blocked_or-Reports s (set_of (keys_where is_input s)) (set_of (keys_where is_message s))
        (λ k. sym (same k)) (Names-inputs s) (Names-messages s)
  report-Reports s (item ∷ items) same distinct =
      let best = earliest item items in
      let (m, le, all) = earliest-Least item items in
      (
        sym (same best.0) ∙ Dict.get-mem best.0 best.1 (item ∷ items) distinct m,
        λ k d due.
            All-mem (λ i. best.1 ≤ i.1) (item ∷ items) (le, all)
              (Dict.mem-get k d (item ∷ items) (same k ∙ due)),
      )

  -- What a pass that stopped reports, from what it reached and what came out of it: a moment that it
  -- chose first under some name, and none chosen first under a name is before it; where it sleeps
  -- nowhere, exactly the names that it awaits and the names under which it listens, and one at
  -- least; and an error only where it waits in none of the three ways.
  pub stopped_at-Reports :
      (raised reached : List Suspended)
      → Reports (reached ++ raised) (stopped_at {E = E} {A = A} raised reached)
  unfolding stopped_at
  stopped_at-Reports raised reached =
      let s = reached ++ raised in
      report-Reports s (deadlines_into s []) (λ k. deadlines-first k s) (deadlines-Distinct s [] tt)
