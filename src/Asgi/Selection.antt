-- ===== src/Asgi/Selection.antt =====
-- packages/without_asgi/src/without_asgi/selection.py
--
-- `date_of` is what `parse_http_date` and `timestamp` make of a field: its moment in whole seconds,
-- and `none` for a value that is no date; moments are counted from one before all that occur.
-- `last_modified` is such a moment too.
pub mod Tags
pub mod Spans
pub mod Precedence
mod Samples
use without.Prelude.{
  ℕ, zero, suc, ◌+◌, ◌-◌, min, ltb, leb, nat_eq, Bool, true, false, not, ◌&&◌, ◌||◌, Option, none,
  some, List, [], ◌∷◌, ◌++◌, length, if◌then◌else◌,
}
use without.Prelude.Eq.{◌==◌}
use without.Asgi.Bytes.{
  Bytes, bytes, bytes_key, lower, all_digits, int_from, starts_with, contains, partition, strip,
}
use without.Asgi.Headers.{RawHeaders, get_all, first}

pub data Selection : Type 0 where
  whole head : Selection
  span : (start last : ℕ) → Selection
  not_modified unsatisfiable : Selection

-- _MAX_RANGE_DIGITS
abbrev pub max_range_digits : ℕ
max_range_digits = 20

-- `_digits`
unfoldable pub digits : Bytes → Option ℕ
digits [] = none
digits (b ∷ bs) =
    if ltb max_range_digits (length (b ∷ bs)) || not (all_digits (b ∷ bs))
    then none
    else some (int_from 0 (b ∷ bs))

-- `_suffix_span`
unfoldable pub suffix_span : Bytes → (size : ℕ) → Selection
suffix_span last_raw size = elim (digits last_raw) [
  | none ↦ whole
  | some suffix ↦
      if nat_eq suffix 0 || nat_eq size 0 then unsatisfiable else span (size - suffix) (size - 1)
]

-- `_span_for` from the test of `first` on.
unfoldable pub span_from : (first : ℕ) → Bytes → (size : ℕ) → Selection
span_from start last_raw size = if leb size start then unsatisfiable else elim last_raw [
  | [] ↦ span start (size - 1)
  | b ∷ bs ↦ elim (digits (b ∷ bs)) [
    | none ↦ whole
    | some last ↦ if ltb last start then whole else span start (min last (size - 1))
  ]
]

-- `_span_for` once the unit is known to be bytes.
unfoldable pub byte_span : Bytes → (size : ℕ) → Selection
byte_span raw size = if contains 44 raw then whole else elim (partition 45 (strip raw)) [
  | none ↦ whole
  | some (first_raw, last_raw) ↦ elim first_raw [
    | [] ↦ suffix_span last_raw size
    | b ∷ bs ↦ elim (digits (b ∷ bs)) [ none ↦ whole | some start ↦ span_from start last_raw size ]
  ]
]

-- `_span_for`
unfoldable pub span_for : Bytes → (size : ℕ) → Selection
span_for spec size = elim (partition 61 spec) [
  | none ↦ whole
  | some (unit, raw) ↦ if lower (strip unit) == bytes "bytes" then byte_span raw size else whole
]

-- `b",".join`
unfoldable pub join_commas : List Bytes → Bytes
join_commas [] = []
join_commas (v ∷ []) = v
join_commas (v ∷ w ∷ vs) = v ++ 44 ∷ join_commas (w ∷ vs)

-- The scan of one tag, past any `W/`: the tag up to its closing quote, and what follows it.
unfoldable pub quoted : (prefix : Bytes) → Bytes → Option (Bytes × Bytes)
quoted prefix [] = none
quoted prefix (b ∷ bs) =
    if nat_eq b 34
    then (elim (partition 34 bs) [
      | none ↦ none
      | some (opaque, rest) ↦ some (prefix ++ 34 ∷ opaque ++ 34 ∷ [], rest)
    ])
    else none

-- What follows the two bytes `W/`, if a tag starts with them.
unfoldable pub after_weak : Bytes → Option Bytes
after_weak (a ∷ b ∷ bs) = if nat_eq a 87 && nat_eq b 47 then some bs else none
after_weak _ = none

unfoldable pub tag_at : Bytes → Option (Bytes × Bytes)
tag_at bs = elim (after_weak bs) [ none ↦ quoted [] bs | some rest ↦ quoted (bytes "W/") rest ]

-- What the loop of `_entity_tags` comes to: its tags, its return of none from inside, or no end.
pub data TagScan : Type 0 where
  tags : List Bytes → TagScan
  malformed out_of_fuel : TagScan

abbrev pub with_tag : Bytes → TagScan → TagScan
with_tag tag (tags more) = tags (tag ∷ more)
with_tag tag malformed = malformed
with_tag tag out_of_fuel = out_of_fuel

-- The loop of `_entity_tags`. A step takes a byte at least, so that the length of the bytes is fuel
-- enough.
unfoldable pub tags_from : (fuel : ℕ) → Bytes → TagScan
tags_from fuel [] = tags []
tags_from zero (b ∷ bs) = out_of_fuel
tags_from (suc fuel) (b ∷ bs) =
    let skipped = tags_from fuel bs in
    if nat_eq b 32 || nat_eq b 9 || nat_eq b 44
    then skipped
    else (if nat_eq b 42 then with_tag (42 ∷ []) skipped else (elim (tag_at (b ∷ bs)) [
      | none ↦ malformed
      | some (tag, rest) ↦ with_tag tag (tags_from fuel rest)
    ]))

-- `_entity_tags`
unfoldable pub entity_tags : List Bytes → List Bytes
entity_tags values = elim (tags_from (length (join_commas values)) (join_commas values)) [
  | tags listed ↦ listed
  | _ ↦ []
]

-- `_opaque`
unfoldable pub opaque_of : Bytes → Bytes
opaque_of tag = elim (after_weak tag) [ none ↦ tag | some opaque ↦ opaque ]

abbrev pub weakly_matches : Bytes → Bytes → Bool
weakly_matches candidate current = opaque_of candidate == opaque_of current

abbrev pub strongly_matches : Bytes → Bytes → Bool
strongly_matches candidate current =
    (candidate == current) && not (starts_with (bytes "W/") candidate)

unfoldable pub any_matches : List Bytes → Bytes → Bool
any_matches [] etag = false
any_matches (candidate ∷ candidates) etag =
    weakly_matches candidate etag || any_matches candidates etag

unfoldable pub has_star : List Bytes → Bool
has_star [] = false
has_star (candidate ∷ candidates) = (candidate == 42 ∷ []) || has_star candidates

module _ (date_of : Bytes → Option ℕ) where
  -- `_is_current` where the request has no `If-None-Match`.
  unfoldable pub unmodified_since : RawHeaders → Option ℕ → Bool
  unmodified_since raw last_modified = elim (first raw (bytes "if-modified-since")) [
    | none ↦ false
    | some since ↦ elim last_modified [
      | none ↦ false
      | some modified ↦ elim (date_of since) [ none ↦ false | some when ↦ leb modified when ]
    ]
  ]

  -- `_is_current`
  unfoldable pub is_current : RawHeaders → Option Bytes → Option ℕ → Bool
  is_current raw etag last_modified = elim (get_all raw (bytes "if-none-match")) [
    | [] ↦ unmodified_since raw last_modified
    | c ∷ cs ↦
        let candidates = entity_tags (c ∷ cs) in
        if has_star candidates
        then true
        else elim etag [ none ↦ false | some tag ↦ any_matches candidates tag ]
  ]

  -- `_range_allowed`
  unfoldable pub range_allowed : RawHeaders → Option Bytes → Option ℕ → Bool
  range_allowed raw etag last_modified = elim (first raw (bytes "if-range")) [
    | none ↦ true
    | some condition ↦
        if starts_with (34 ∷ []) condition || starts_with (bytes "W/") condition
        then (elim etag [ none ↦ false | some tag ↦ strongly_matches condition tag ])
        else (elim (date_of condition) [
          | none ↦ false
          | some when ↦ elim last_modified [ none ↦ false | some modified ↦ nat_eq modified when ]
        ])
  ]

  -- `selection_for`
  unfoldable pub selection_for :
      (size : ℕ) (method : Bytes) → RawHeaders → Option Bytes → Option ℕ → Selection
  selection_for size method raw etag last_modified =
      if not ((method == bytes "GET") || (method == bytes "HEAD"))
      then whole
      else (if is_current raw etag last_modified
          then not_modified
          else (if not (method == bytes "GET") then head else elim (first raw (bytes "range")) [
            | none ↦ whole
            | some spec ↦ if range_allowed raw etag last_modified then span_for spec size else whole
          ]))
