-- ===== src/Durability/Stepwise/Inbox/Again.antt =====
-- A read of the inbox and its replays, against an inbox that has grown.
use text.Mathlib.Text.{starts_with}
use without.Prelude.{
  ℕ, String, Bool, true, ◌||◌, ◌≡◌, refl, sym, ap, subst, ◌∙◌, Option, none, some, inl, inr, List,
  [], ◌∷◌, ◌++◌, Result-cases, ok, err, ok-injective, append-nil, All-split,
}
use without.Prelude.Eq.{string_key}
use without.Prelude.Dict
use without.Durability.Values.{Codec, Entry}
use without.Durability.Stepwise.{
  Object, text_lt, nothing, written, Fault, Readings, Run, Action, Extend, and_then, inbox, is_in,
}
use without.Durability.Stepwise.Steps.{perform}
use without.Durability.Stepwise.Inbox.{
  unread, delivered, through, last_key, parse_bound, last_or, cut, pending_from, pending,
}
use without.Durability.Stepwise.Steps.New.{
  RoundTrips, IsNew, perform-new, claim_key-free, claim_key-ok,
}
use without.Durability.Stepwise.Inbox.Cursor.{Ascending, bound_of, through-delivered}

abbrev chosen : Option String → Option String → Option String
chosen o after = elim o [ none ↦ after | some key ↦ some key ]

parse_bound-last_or :
    (V E : Type 0) (key : String) (o after : Option String)
    → parse_bound {V = V} {E = E} key (last_or o after) ≡ ok (chosen o after)
unfolding parse_bound
parse_bound-last_or V E key none none = refl
parse_bound-last_or V E key none (some cursor) = refl
parse_bound-last_or V E key (some last) after = refl

module _ {V : Type 0} where
  Ascending-prefix : (es fs : List (Entry (Object V))) → Ascending (es ++ fs) → Ascending es
  Ascending-prefix [] fs h = tt
  Ascending-prefix (e ∷ es) fs (above, h) =
      ((All-split (λ f. text_lt e.key f.key ≡ true) es fs above).0, Ascending-prefix es fs h)

  RoundTrips-last_or :
      (codec : Codec (Object V)) (o after : Option String)
      → RoundTrips codec nothing
      → ((key : String) → RoundTrips codec (written key))
      → RoundTrips codec (last_or o after)
  RoundTrips-last_or codec none none absent texts = absent
  RoundTrips-last_or codec none (some cursor) absent texts = texts cursor
  RoundTrips-last_or codec (some last) after absent texts = texts last

module _ {V World E : Type 0} (codec : Codec (Object V)) (extend : Extend V World E) where
  -- A read that finds its record is cut back to it.
  pending_from-recorded :
      (key : String) (after : Option String) (at : Readings) (stopped : Bool)
      (available : List (Entry (Object V))) (o : Option String) (r : Run V World)
      → Dict.get key r.recorded ≡ some (last_or o after)
      → pending_from codec extend key after at stopped available r
        ≡ (ok (through available (chosen o after)), r)
  unfolding perform
  pending_from-recorded key after at stopped available o r there =
      let found : perform codec extend key (parse_bound key) none at
            (λ world. (ok (last_or (last_key available) after), world)) stopped r
          ≡ (parse_bound {V = V} {E = E} key (last_or o after), r) =
        rw (there, perform) refl in
      ap (λ p. elim p.0 [ err e ↦ (err e, p.1) | ok bound ↦ (ok (through available bound), p.1) ])
        found
      ∙ rw (parse_bound-last_or V E key o after) refl

  -- A read that finds none takes all that is there, and records where it stopped.
  pending_from-new :
      (key : String) (after : Option String) (at : Readings) (stopped : Bool)
      (available : List (Entry (Object V))) (r : Run V World) (entries : List (Entry (Object V)))
      → RoundTrips codec nothing
      → ((k : String) → RoundTrips codec (written k))
      → IsNew key r
      → (pending_from codec extend key after at stopped available r).0 ≡ ok entries
      → (entries ≡ through available (bound_of available after))
        × (Dict.get key (pending_from codec extend key after at stopped available r).1.recorded
            ≡ some (last_or (last_key available) after))
  pending_from-new key after at stopped available r entries absent texts new h =
      let o = last_key available in
      let reading : Action V World E (Option String) =
        perform codec extend key (parse_bound key) none at (λ world. (ok (last_or o after), world))
          stopped in
      elim (Result-cases (reading r).0) [
        | inr (e, failed) ↦ absurd (cc (rw (failed, and_then) at h))
        | inl (bound, read) ↦
            let (parsed, held) =
              perform-new codec extend key (parse_bound key) at (last_or o after) stopped r bound
                new (RoundTrips-last_or codec o after absent texts) read in
            let stops : bound ≡ chosen o after =
              ok-injective {X = Fault E} (sym parsed ∙ parse_bound-last_or V E key o after) in
            rw (read, and_then)
              (
                sym (ok-injective {X = Fault E} (rw (read, and_then) at h))
                    ∙ ap (through available) stops,
                held,
              )
      ]

module _ {V World E : Type 0} (codec : Codec (Object V))
    (extend next_extend : Extend V World E) where
  -- A `pending` that returned, under a name new to the run and to its store and with a codec that `None`
  -- and texts come back from, took everything that was there, as far as its limit. Another under that
  -- name and cursor, in a run that has used the same names, knows the record and has the same inbox
  -- with more behind, in the order of the keys, returns the same entries and only uses up its name.
  pub pending_again :
      (key : String) (after : Option String) (limit : Option ℕ) (at later : Readings)
      (stopped stopped' : Bool) (r t : Run V World) (entries newer : List (Entry (Object V)))
      → RoundTrips codec nothing
      → ((k : String) → RoundTrips codec (written k))
      → IsNew key r
      → (pending codec extend key after limit at stopped r).0 ≡ ok entries
      → t.claimed ≡ r.claimed
      → Dict.get key t.recorded
        ≡ Dict.get key (pending codec extend key after limit at stopped r).1.recorded
      → unread after t.recorded ≡ unread after r.recorded ++ newer
      → Ascending (unread after t.recorded)
      → (entries ≡ delivered after limit r.recorded)
        × (pending codec next_extend key after limit later stopped' t
            ≡ (ok entries, record t { claimed = key ∷ t.claimed }))
  unfolding pending
  pending_again key after limit at later stopped stopped' r t entries newer absent texts new h same
        knows grows ascending =
      let taken = delivered after limit r.recorded in
      let o = last_key taken in
      let used : Run V World = record r { claimed = key ∷ r.claimed } in
      let first : Action V World E (List (Entry (Object V))) =
        λ s. pending_from codec extend key after at stopped (delivered after limit s.recorded) s in
      let second : Action V World E (List (Entry (Object V))) = λ s.
        pending_from codec next_extend key after later stopped' (delivered after limit s.recorded)
          s in
      let free = claim_key-ok codec key first r entries h in
      let went = claim_key-free codec key first r free in
      let (cut, held) =
        pending_from-new codec extend key after at stopped taken used entries absent texts new
          (sym (ap (λ p. p.0) went) ∙ h) in
      let whole : entries ≡ taken =
        cut
        ∙ through-delivered after limit r.recorded r.recorded []
            (sym (append-nil (unread after r.recorded)))
            (Ascending-prefix (unread after r.recorded) newer (subst Ascending grows ascending)) in
      (
        whole,
        claim_key-free codec key second t
              (ap (λ c. starts_with key inbox || is_in key c) same ∙ free)
            ∙ pending_from-recorded codec next_extend key after later stopped'
                (delivered after limit t.recorded) o (record t { claimed = key ∷ t.claimed })
                (knows ∙ ap (λ p. Dict.get key p.1.recorded) went ∙ held)
            ∙ ap (λ es. (ok es, record t { claimed = key ∷ t.claimed }))
                (through-delivered after limit r.recorded t.recorded newer grows ascending
                  ∙ sym whole),
      )
