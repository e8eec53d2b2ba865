-- ===== src/Asgi/Sse/Fields.antt =====
-- The lines of a frame: what they do to the parser, and the text that they make.
use without.Prelude.{
  ◌≤◌, ℕ, ◌+◌, ◌≡◌, refl, sym, ap, ◌∙◌, Bool, true, false, ◌||◌, ◌&&◌, Bool-cases, none, some, List,
  [], ◌∷◌, ◌++◌, map, nat_eq, All, append-nil, append_assoc, inl, inr, arith, length,
}
use without.Asgi.Bytes.{bytes, bytes_key}
use without.Asgi.Sse.{
  Text, Pieces, cr, lf, on_first, split_after, split_lines, has_newline, join_lf,
}
use without.Asgi.Sse.Lines.{glue, ends_cr, split_after-append}
use without.Asgi.Sse.Frames.{pieces_of, unresumable_from, decimal, max_retry_digits}
use without.Asgi.Sse.Decimal.{decimal-int, decimal-digits, decimal-length}
use without.Asgi.Sse.Parser.{
  retried, Frame, is_retry, with_item, handle, handle_all, field, take_field, partition_colon,
}

-- Lines, each with its line feed.
abbrev pub ended : List Text → Text
ended [] = []
ended (line ∷ lines) = line ++ (lf ∷ ended lines)

abbrev pub IsLine : Text → Type 0
IsLine line = has_newline line ≡ false

pub join_lf-ended : (lines : List Text) → join_lf (lines ++ [] ∷ []) ≡ ended lines
unfolding join_lf
join_lf-ended [] = refl
join_lf-ended (line ∷ []) = refl
join_lf-ended (line ∷ next ∷ lines) = ap (λ l. line ++ (lf ∷ l)) (join_lf-ended (next ∷ lines))

split_after-line : (line : Text) → IsLine line → split_after false line ≡ ([], line)
unfolding split_after has_newline
split_after-line [] h = refl
split_after-line (c ∷ line) h =
    let plain : nat_eq c cr ≡ false = ground (arith, h) in
    let not_newline : (nat_eq c cr || nat_eq c lf) ≡ false = ground (arith, h) in
    rw not_newline (rw plain (ap (on_first c) (split_after-line line (ground (arith, h)))))

ends_cr-line : (line : Text) → IsLine line → ends_cr false line ≡ false
unfolding has_newline
ends_cr-line [] h = refl
ends_cr-line (c ∷ line) h =
    let plain : nat_eq c cr ≡ false = ground (arith, h) in
    rw plain (ends_cr-line line (ground (arith, h)))

split_lines-line :
    (line rest : Text)
    → IsLine line
    → split_lines (line ++ (lf ∷ rest)) ≡ (line ∷ (split_lines rest).0, (split_lines rest).1)
unfolding split_after
split_lines-line line rest h =
    split_after-append false line (lf ∷ rest)
    ∙ ap (λ p. glue p (split_after (ends_cr false line) (lf ∷ rest))) (split_after-line line h)
    ∙ ap (λ e. glue ([], line) (split_after e (lf ∷ rest))) (ends_cr-line line h)
    ∙ ap (λ l. (l ∷ (split_lines rest).0, (split_lines rest).1)) (append-nil line)

-- The lines of a text of lines come out of it, before those of what follows.
pub split_lines-ended :
    (lines : List Text) (rest : Text)
    → All IsLine lines
    → split_lines (ended lines ++ rest) ≡ (lines ++ (split_lines rest).0, (split_lines rest).1)
split_lines-ended [] rest h = refl
split_lines-ended (line ∷ lines) rest (l, h) =
    ap split_lines (append_assoc line (lf ∷ ended lines) rest)
    ∙ split_lines-line line (ended lines ++ rest) l
    ∙ ap (λ p. (line ∷ p.0, p.1)) (split_lines-ended lines rest h)

on_first-IsLine :
    (c : ℕ) (p : Pieces)
    → (nat_eq c cr || nat_eq c lf) ≡ false
    → All IsLine (pieces_of p)
    → All IsLine (pieces_of (on_first c p))
unfolding has_newline
on_first-IsLine c ([], last) plain (h, _) = (rw plain h, tt)
on_first-IsLine c (piece ∷ pieces, last) plain (h, more) = (rw plain h, more)

-- No terminator is left in a piece of a split.
pub split_after-IsLine :
    (after : Bool) (value : Text) → All IsLine (pieces_of (split_after after value))
unfolding split_after has_newline
split_after-IsLine after [] = (refl, tt)
split_after-IsLine after (c ∷ value) = elim (Bool-cases (after && nat_eq c lf)) [
  | inl skipped ↦ rw skipped (split_after-IsLine (nat_eq c cr) value)
  | inr new ↦ elim (Bool-cases (nat_eq c cr || nat_eq c lf)) [
    | inl ends ↦ rw new (rw ends (refl, split_after-IsLine (nat_eq c cr) value))
    | inr plain ↦ rw new (
        rw plain (
          on_first-IsLine c (split_after (nat_eq c cr) value) plain
            (split_after-IsLine (nat_eq c cr) value)))
  ]
]

pub handle-data :
    (value : Text) (f : Frame)
    → handle (bytes "data: " ++ value) f
      ≡ (none, record f { data' = f.data' ++ value ∷ []; buffered = f.buffered + length value })
unfolding handle field partition_colon take_field
handle-data value f = refl

pub handle-event :
    (value : Text) (f : Frame)
    → handle (bytes "event: " ++ value) f ≡ (none, record f { event_type = value })
unfolding handle field partition_colon take_field
handle-event value f = refl

pub handle-id :
    (value : Text) (f : Frame)
    → unresumable_from true value ≡ none
    → handle (bytes "id: " ++ value) f ≡ (none, record f { last_id = value })
unfolding handle field partition_colon take_field
handle-id value f fine =
    ap
      (λ found.
        (none, elim found as (λ _. Frame) [ none ↦ record f { last_id = value } | some c ↦ f ]))
      fine

pub handle-comment : (value : Text) (f : Frame) → handle (bytes ":" ++ value) f ≡ (none, f)
unfolding handle
handle-comment value f = refl

decimal-is_retry : (n : ℕ) → length (decimal n) ≤ max_retry_digits → is_retry (decimal n) ≡ true
unfolding is_retry
decimal-is_retry n short = ground (arith, short, decimal-length n, decimal-digits n)

pub handle-retry :
    (n : ℕ) (f : Frame)
    → length (decimal n) ≤ max_retry_digits
    → handle (bytes "retry: " ++ decimal n) f ≡ (some (retried n), f)
unfolding handle field partition_colon take_field
handle-retry n f short =
    rw (decimal-is_retry n short, take_field) (ap (λ m. (some (retried m), f)) (decimal-int n))

abbrev pub size : List Text → ℕ
size [] = 0
size (value ∷ values) = length value + size values

-- A run of data lines adds their values to the data of the frame.
pub handle_all-data :
    (values lines : List Text) (f : Frame)
    → handle_all (map (λ value. bytes "data: " ++ value) values ++ lines) f
      ≡ handle_all lines
          (record f { data' = f.data' ++ values; buffered = f.buffered + size values })
unfolding handle_all
handle_all-data [] lines f =
    ap (λ d. handle_all lines (record f { data' = d; buffered = f.buffered }))
      (sym (append-nil f.data'))
    ∙ ap (λ b. handle_all lines (record f { data' = f.data' ++ []; buffered = b })) (omega arith)
handle_all-data (value ∷ values) lines f =
    ap
      (λ r. (
        with_item r.0 (handle_all (map (λ v. bytes "data: " ++ v) values ++ lines) r.1).0,
        (handle_all (map (λ v. bytes "data: " ++ v) values ++ lines) r.1).1,
      ))
      (handle-data value f)
    ∙ handle_all-data values lines
        (record f { data' = f.data' ++ value ∷ []; buffered = f.buffered + length value })
    ∙ ap (handle_all lines) (
        ap (λ d. record f { data' = d; buffered = f.buffered + length value + size values })
          (append_assoc f.data' (value ∷ []) values)
        ∙ ap (λ b. record f { data' = f.data' ++ (value ∷ values); buffered = b }) (omega arith))

-- A run of comments does nothing.
pub handle_all-comments :
    (values lines : List Text) (f : Frame)
    → handle_all (map (λ value. bytes ":" ++ value) values ++ lines) f ≡ handle_all lines f
unfolding handle_all handle
handle_all-comments [] lines f = refl
handle_all-comments (value ∷ values) lines f = handle_all-comments values lines f
