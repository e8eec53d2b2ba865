-- ===== src/Asgi/Sse/Retained.antt =====
-- What the parser retains, and its counts of it.
use without.Prelude.{
  ℕ, ◌+◌, ◌≤◌, ◌≡◌, refl, Bool, true, false, ◌<◌, ap, subst, Bool-cases, Option, none, some, List,
  [], ◌∷◌, ◌++◌, length, nat_eq, ◌≢◌, if◌then◌else◌, inl, inr, arith,
}
use without.Prelude.Eq.{◌==◌}
use without.Asgi.Bytes.{bytes, bytes_key}
use without.Asgi.Sse.{Text, Pieces, split_lines, concat}
use without.Asgi.Sse.Frames.{unresumable_from}
use without.Asgi.Sse.Parser.{
  Frame, Parser, take_field, dispatch_of, handle, handle_all, field, is_retry, append_piece,
  take_pieces, take_chunk, hold_back, exceeds, opened, parse_texts,
}

-- The characters of texts.
abbrev pub size : List Text → ℕ
size [] = 0
size (text ∷ texts) = length text + size texts

abbrev pub IsCounted : Parser → Type 0
IsCounted s = (s.pending_size ≡ size s.pending) × (s.frame.buffered ≡ size s.frame.data')

size-append : (xs ys : List Text) → size (xs ++ ys) ≡ size xs + size ys
size-append [] ys = omega arith
size-append (x ∷ xs) ys = omega (arith, size-append xs ys)

-- Whatever becomes of an id, the data and its count stay.
ids :
    (found : Option ℕ) (value : Text) (f : Frame)
    → f.buffered ≡ size f.data'
    → (elim found as (λ _. Frame) [ none ↦ record f { last_id = value } | some c ↦ f ]).buffered
      ≡ size (elim found as (λ _. Frame) [ none ↦ record f { last_id = value } | some c ↦ f ]).data'
ids none value f h = h
ids (some c) value f h = h

take_field-counted :
    (name value : Text) (f : Frame)
    → f.buffered ≡ size f.data'
    → (take_field name value f).1.buffered ≡ size (take_field name value f).1.data'
unfolding take_field
take_field-counted name value f h = elim (Bool-cases (name == bytes "data")) [
  | inl is_data ↦ rw is_data (omega (arith, h, size-append f.data' (value ∷ [])))
  | inr e1 ↦ elim (Bool-cases (name == bytes "event")) [
    | inl e2 ↦ rw e1 (rw e2 h)
    | inr e2 ↦ elim (Bool-cases (name == bytes "id")) [
      | inl e3 ↦ rw e1 (rw e2 (rw e3 (ids (unresumable_from true value) value f h)))
      | inr e3 ↦ elim (Bool-cases (name == bytes "retry")) [
        | inr e4 ↦ rw e1 (rw e2 (rw e3 (rw e4 h)))
        | inl e4 ↦ elim (Bool-cases (is_retry value)) [
          | inl e5 ↦ rw e1 (rw e2 (rw e3 (rw e4 (rw e5 h))))
          | inr e5 ↦ rw e1 (rw e2 (rw e3 (rw e4 (rw e5 h))))
        ]
      ]
    ]
  ]
]

dispatch-counted :
    (values : List Text) (f : Frame)
    → (dispatch_of values f).1.buffered ≡ size (dispatch_of values f).1.data'
unfolding dispatch_of
dispatch-counted (value ∷ values) f = refl
dispatch-counted [] f = elim (Bool-cases (f.last_id == f.reported_id)) [
  | inl same ↦ rw same refl
  | inr moved ↦ rw moved refl
]

handle-counted :
    (line : Text) (f : Frame)
    → f.buffered ≡ size f.data'
    → (handle line f).1.buffered ≡ size (handle line f).1.data'
unfolding handle
handle-counted [] f h = dispatch-counted f.data' f
handle-counted (c ∷ line) f h = elim (Bool-cases (nat_eq c 58)) [
  | inl colon ↦ rw colon h
  | inr other ↦ rw other (take_field-counted (field (c ∷ line)).0 (field (c ∷ line)).1 f h)
]

handle_all-counted :
    (lines : List Text) (f : Frame)
    → f.buffered ≡ size f.data'
    → (handle_all lines f).1.buffered ≡ size (handle_all lines f).1.data'
unfolding handle_all
handle_all-counted [] f h = h
handle_all-counted (line ∷ lines) f h =
    handle_all-counted lines (handle line f).1 (handle-counted line f h)

append_piece-size :
    (piece : Text) (pending : List Text)
    → size (append_piece piece pending) ≡ size pending + length piece
append_piece-size [] pending = omega arith
append_piece-size (c ∷ piece) pending = omega (arith, size-append pending ((c ∷ piece) ∷ []))

take_pieces-IsCounted :
    (p : Pieces) (held : Bool) (s : Parser) → IsCounted s → IsCounted (take_pieces p held s).1
unfolding take_pieces
take_pieces-IsCounted ([], last) held s (pending, buffered) =
    (omega (arith, pending, append_piece-size last s.pending), buffered)
take_pieces-IsCounted (first ∷ pieces, last) held s (pending, buffered) = (
  omega (arith, append_piece-size last []),
  handle_all-counted ((concat s.pending ++ first) ∷ pieces) s.frame buffered,
)

take_chunk-IsCounted : (chunk : Text) (s : Parser) → IsCounted s → IsCounted (take_chunk chunk s).1
unfolding take_chunk
take_chunk-IsCounted chunk s h =
    let (text, held) = hold_back ((if s.held then 13 ∷ [] else []) ++ chunk) in
    take_pieces-IsCounted (split_lines text) held s h

-- The state after chunks, none of which is refused.
unfoldable pub after : List Text → Parser → Parser
after [] s = s
after (chunk ∷ chunks) s = after chunks (take_chunk chunk s).1

-- What a state holds toward the event that is being assembled: its data, its type and a part of a line.
abbrev pub held_size : Parser → ℕ
held_size s = size s.frame.data' + length s.frame.event_type + size s.pending

-- The parser's verdict on the size, `failed`: after some of the chunks, one at least, it would hold
-- more than `n` characters; or, where it has not failed, it holds `n` at most after any of them.
abbrev pub Bounds : ℕ → List Text → Parser → Bool → Type 0
Bounds n chunks s true =
    (chunk : Text) × (front rest : List Text) × (chunks ≡ front ++ chunk ∷ rest)
    × (n < held_size (after (front ++ chunk ∷ []) s))
Bounds n chunks s false =
    (chunk : Text) (front rest : List Text)
    → chunks ≡ front ++ chunk ∷ rest
    → held_size (after (front ++ chunk ∷ []) s) ≤ n

held_later :
    (n : ℕ) (chunk : Text) (chunks : List Text) (s : Parser)
    → held_size (take_chunk chunk s).1 ≤ n
    → Bounds n chunks (take_chunk chunk s).1 false
    → (next : Text) (front rest : List Text) → chunk ∷ chunks ≡ front ++ next ∷ rest
    → held_size (after (front ++ next ∷ []) s) ≤ n
unfolding after
held_later n chunk chunks s within more next [] rest e =
    let same : chunk ≡ next = cc e in subst (λ c. held_size (take_chunk c s).1 ≤ n) same within
held_later n chunk chunks s within more next (first ∷ front) rest e =
    let same : chunk ≡ first = cc e in
    subst (λ c. held_size (after (front ++ next ∷ []) (take_chunk c s).1) ≤ n) same
      (more next front rest (cc e))

not_nil : (chunk : Text) (front rest : List Text) → [] ≢ front ++ chunk ∷ rest
not_nil chunk [] rest e = cc e
not_nil chunk (first ∷ front) rest e = cc e

Bounds-later :
    (n : ℕ) (chunk : Text) (chunks : List Text) (s : Parser) (failed : Bool)
    → held_size (take_chunk chunk s).1 ≤ n
    → Bounds n chunks (take_chunk chunk s).1 failed
    → Bounds n (chunk ∷ chunks) s failed
unfolding after
Bounds-later n chunk chunks s true within (next, front, rest, e, over) =
    (next, chunk ∷ front, rest, ap (λ l. chunk ∷ l) e, over)
Bounds-later n chunk chunks s false within more =
    λ next front rest e. held_later n chunk chunks s within more next front rest e

parse_texts-Bounds :
    (n : ℕ) (chunks : List Text) (s : Parser)
    → IsCounted s
    → Bounds n chunks s (parse_texts (some n) chunks s).1
unfolding parse_texts after
parse_texts-Bounds n [] s h = λ chunk front rest e. absurd (not_nil chunk front rest e)
parse_texts-Bounds n (chunk ∷ chunks) s h =
    let (pending, buffered) = take_chunk-IsCounted chunk s h in
    elim (Bool-cases (exceeds (some n) (take_chunk chunk s).1)) [
      | inl over ↦ rw over (chunk, [], chunks, refl, ground (arith, over, pending, buffered))
      | inr within ↦ rw within (
          Bounds-later n chunk chunks s (parse_texts (some n) chunks (take_chunk chunk s).1).1
            (ground (arith, within, pending, buffered))
            (parse_texts-Bounds n chunks (take_chunk chunk s).1 (pending, buffered)))
    ]

-- With a bound of `n` characters, the parser fails on chunks for their size where after some of them
-- it would hold more than `n` of the data, the type and the part of a line; and where it does not
-- fail, it holds `n` at most after each.
pub parse-retains :
    (n : ℕ) (last_event_id : Text) (chunks : List Text)
    → Bounds n chunks (opened last_event_id) (parse_texts (some n) chunks (opened last_event_id)).1
parse-retains n last_event_id chunks =
    parse_texts-Bounds n chunks (opened last_event_id) (refl, refl)
