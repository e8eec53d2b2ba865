-- ===== src/Asgi/Selection/Spans.antt =====
-- A span that is answered lies within the representation.
use without.Prelude.{
  ℕ, ◌≤◌, ◌<◌, ltb, leb, nat_eq, not, ◌||◌, Bool-cases, Option, Option-cases, inl, inr, [], ◌∷◌,
  arith,
}
use without.Prelude.Eq.{◌==◌}
use without.Asgi.Bytes.{Bytes, bytes, bytes_key, lower, contains, partition, strip}
use without.Asgi.Headers.{RawHeaders, first}
use without.Asgi.Selection.{
  Selection, span, digits, suffix_span, span_from, byte_span, span_for, is_current, range_allowed,
  selection_for,
}

-- A span names bytes that a representation of the size has, at least one.
abbrev pub IsWithin : ℕ → Selection → Type 0
IsWithin size (span start last) = (start ≤ last) × (last < size)
IsWithin size _ = Unit

suffix_span-IsWithin : (raw : Bytes) (size : ℕ) → IsWithin size (suffix_span raw size)
unfolding suffix_span
suffix_span-IsWithin raw size = elim (Option-cases (digits raw)) [
  | inl bad ↦ rw (bad, suffix_span) tt
  | inr (n, good) ↦ elim (Bool-cases (nat_eq n 0 || nat_eq size 0)) [
    | inl none' ↦ rw (good, suffix_span) (rw none' tt)
    | inr some' ↦ rw (good, suffix_span) (rw some' (ground (arith, some')))
  ]
]

span_from-IsWithin : (start : ℕ) (raw : Bytes) (size : ℕ) → IsWithin size (span_from start raw size)
unfolding span_from
span_from-IsWithin start [] size = elim (Bool-cases (leb size start)) [
  | inl beyond ↦ rw beyond tt
  | inr inside ↦ rw inside (ground (arith, inside))
]
span_from-IsWithin start (b ∷ bs) size = elim (Bool-cases (leb size start)) [
  | inl beyond ↦ rw beyond tt
  | inr inside ↦ elim (Option-cases (digits (b ∷ bs))) [
    | inl bad ↦ rw inside (rw (bad, span_from) tt)
    | inr (last, good) ↦ elim (Bool-cases (ltb last start)) [
      | inl crossed ↦ rw inside (rw (good, span_from) (rw crossed tt))
      | inr ordered ↦
          rw inside (rw (good, span_from) (rw ordered (ground (arith, inside, ordered))))
    ]
  ]
]

byte_span-IsWithin : (raw : Bytes) (size : ℕ) → IsWithin size (byte_span raw size)
unfolding byte_span
byte_span-IsWithin raw size = elim (Bool-cases (contains 44 raw)) [
  | inl several ↦ rw several tt
  | inr single ↦ elim (Option-cases (partition 45 (strip raw))) [
    | inl bad ↦ rw single (rw (bad, byte_span) tt)
    | inr (([], last_raw), good) ↦
        rw single (rw (good, byte_span) (suffix_span-IsWithin last_raw size))
    | inr ((b ∷ bs, last_raw), good) ↦ elim (Option-cases (digits (b ∷ bs))) [
      | inl odd ↦ rw single (rw (good, byte_span) (rw (odd, byte_span) tt))
      | inr (start, number) ↦
          rw single
            (rw (good, byte_span) (rw (number, byte_span) (span_from-IsWithin start last_raw size)))
    ]
  ]
]

span_for-IsWithin : (spec : Bytes) (size : ℕ) → IsWithin size (span_for spec size)
unfolding span_for
span_for-IsWithin spec size = elim (Option-cases (partition 61 spec)) [
  | inl bad ↦ rw (bad, span_for) tt
  | inr ((unit, raw), good) ↦ elim (Bool-cases (lower (strip unit) == bytes "bytes")) [
    | inl known ↦ rw (good, span_for) (rw known (byte_span-IsWithin raw size))
    | inr unknown ↦ rw (good, span_for) (rw unknown tt)
  ]
]

-- Whatever a request asks, a span that is answered names at least one byte, and only bytes that the
-- representation has.
pub selection_for-IsWithin :
    (date_of : Bytes → Option ℕ) (size : ℕ) (method : Bytes) (raw : RawHeaders)
    (etag : Option Bytes) (last_modified : Option ℕ)
    → IsWithin size (selection_for date_of size method raw etag last_modified)
unfolding selection_for
selection_for-IsWithin date_of size method raw etag last_modified =
    elim (Bool-cases (not ((method == bytes "GET") || (method == bytes "HEAD")))) [
      | inl other ↦ rw other tt
      | inr read ↦ elim (Bool-cases (is_current date_of raw etag last_modified)) [
        | inl current ↦ rw read (rw current tt)
        | inr stale ↦ elim (Bool-cases (not (method == bytes "GET"))) [
          | inl is_head ↦ rw read (rw stale (rw is_head tt))
          | inr is_get ↦ elim (Option-cases (first raw (bytes "range"))) [
            | inl unasked ↦ rw read (rw stale (rw is_get (rw (unasked, selection_for) tt)))
            | inr (spec, asked) ↦ elim (Bool-cases (range_allowed date_of raw etag last_modified)) [
              | inl allowed ↦ rw read (
                  rw stale (
                    rw is_get
                      (rw (asked, selection_for) (rw allowed (span_for-IsWithin spec size)))))
              | inr refused ↦
                  rw read (rw stale (rw is_get (rw (asked, selection_for) (rw refused tt))))
            ]
          ]
        ]
      ]
    ]
