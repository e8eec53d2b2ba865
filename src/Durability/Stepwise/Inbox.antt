-- ===== src/Durability/Stepwise/Inbox.antt =====
-- `receive`, `pending`, `delivered`, `through` and `parse_bound`
pub mod Cursor
pub mod Again
mod Samples
use text.Mathlib.Text.{starts_with}
use without.Prelude.{
  ℕ, zero, suc, String, Bool, true, false, not, ◌&&◌, Option, none, some, List, [], ◌∷◌, map,
  if◌then◌else◌, Result, ok, err,
}
use without.Prelude.Eq.{string_key}
use without.Prelude.Dict
use without.Prelude.Dict.{Dict}
use without.Durability.Values.{Codec, Entry}
use without.Durability.Stepwise.{
  Object, nothing, written, other, message_needed, Fault, index_error, type_error, Readings, Run,
  Action, Extend, Work, and_then, suspend, claim_key, inbox, text_lt,
}
use without.Durability.Stepwise.Steps.{Parse, perform}

-- `after is None or key > after`
abbrev pub is_past : Option String → String → Bool
is_past none key = true
is_past (some cursor) key = text_lt cursor key

module _ {V : Type 0} where
  -- `unread`: the entries of the inbox past a cursor.
  unfoldable pub unread : Option String → Dict String (Object V) → List (Entry (Object V))
  unread after [] = []
  unread after ((key, value) ∷ recorded) =
      let rest = unread after recorded in
      if starts_with key inbox && is_past after key
      then record { key = key; value = value } ∷ rest
      else rest

  unfoldable pub take : ℕ → List (Entry (Object V)) → List (Entry (Object V))
  take zero entries = []
  take (suc n) [] = []
  take (suc n) (entry ∷ entries) = entry ∷ take n entries

  -- `islice`, whose limit may be `None`.
  abbrev pub islice : Option ℕ → List (Entry (Object V)) → List (Entry (Object V))
  islice none entries = entries
  islice (some limit) entries = take limit entries

  -- `Run.delivered`
  abbrev pub delivered : Option String → Option ℕ → Dict String (Object V) → List (Entry (Object V))
  delivered after limit recorded = islice limit (unread after recorded)

  -- The entries of which the key is `<=` the bound.
  unfoldable pub up_to : String → List (Entry (Object V)) → List (Entry (Object V))
  up_to bound [] = []
  up_to bound (entry ∷ entries) =
      let rest = up_to bound entries in if not (text_lt bound entry.key) then entry ∷ rest else rest

  -- `through`
  abbrev pub through : List (Entry (Object V)) → Option String → List (Entry (Object V))
  through available none = []
  through available (some bound) = up_to bound available

  -- `available[-1].key`; `none` is an `IndexError`.
  unfoldable pub last_key : List (Entry (Object V)) → Option String
  last_key [] = none
  last_key (entry ∷ entries) = elim (last_key entries) [
    | none ↦ some entry.key
    | some key ↦ some key
  ]

  -- A cursor as it is recorded.
  abbrev pub object_of : Option String → Object V
  object_of none = nothing
  object_of (some key) = written key

  -- `last_taken` of `pending`
  abbrev pub last_or : Option String → Option String → Object V
  last_or none after = object_of after
  last_or (some key) after = written key

module _ {V E : Type 0} where
  -- `last_taken` of `receive`
  abbrev pub last_of : Option String → Result (Fault E) (Object V)
  last_of none = err index_error
  last_of (some key) = ok (written key)

  -- `parse_bound`, and `parsing_bound` when it is given a key alone
  unfoldable pub parse_bound : String → Parse V E (Option String)
  parse_bound key nothing = ok none
  parse_bound key (written bound) = ok (some bound)
  parse_bound key (other v) = err (type_error key)

module _ {V World E : Type 0} (codec : Codec (Object V)) (extend : Extend V World E) where
  abbrev pub cut :
      List (Entry (Object V))
      → Action V World E (Option String)
      → Action V World E (List (Entry (Object V)))
  cut available reading = and_then reading (λ bound r. (ok (through available bound), r))

  -- `receive` once its name has been claimed
  abbrev pub receive_from :
      String
      → Readings
      → Bool
      → List (Entry (Object V))
      → Action V World E (List (Entry (Object V)))
  receive_from key at stopped available = cut available (
      perform codec extend key (parse_bound key) none at
        (λ world. (last_of (last_key available), world)) stopped)

  abbrev pub receive_or_stop :
      String
      → Readings
      → Bool
      → List (Entry (Object V))
      → Option (Object V)
      → Action V World E (List (Entry (Object V)))
  receive_or_stop key at stopped [] none r = suspend (message_needed key) r
  receive_or_stop key at stopped available held r = receive_from key at stopped available r

  -- `Run.receive`
  unfoldable pub receive :
      String
      → Option String
      → Option ℕ
      → Readings
      → Bool
      → Action V World E (List (Entry (Object V)))
  receive key after limit at stopped = and_then (claim_key key) (λ _ r.
      receive_or_stop key at stopped (delivered after limit r.recorded) (Dict.get key r.recorded) r)

  -- `pending` once its name has been claimed
  abbrev pub pending_from :
      String
      → Option String
      → Readings
      → Bool
      → List (Entry (Object V))
      → Action V World E (List (Entry (Object V)))
  pending_from key after at stopped available = cut available (
      perform codec extend key (parse_bound key) none at
        (λ world. (ok (last_or (last_key available) after), world)) stopped)

  -- `Run.pending`
  unfoldable pub pending :
      String
      → Option String
      → Option ℕ
      → Readings
      → Bool
      → Action V World E (List (Entry (Object V)))
  pending key after limit at stopped =
      and_then (claim_key key)
        (λ _ r. pending_from key after at stopped (delivered after limit r.recorded) r)
