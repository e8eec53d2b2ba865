-- ===== src/Asgi/Sse/Frames.antt =====
-- The frames of sse.py, what each refuses when it is built, and `encode_event`.
use without.Prelude.{
  ℕ, zero, suc, ◌+◌, ◌/◌, ◌%◌, Bool, true, false, ◌||◌, ◌&&◌, Option, none, some, List, [], ◌∷◌,
  ◌++◌, map, length, ltb, leb, nat_eq, if◌then◌else◌,
}
use without.Prelude.Eq.{◌==◌}
use without.Asgi.Bytes.{bytes, bytes_key}
use without.Asgi.Sse.{Text, Pieces, cr, lf, space, split_lines, has_newline, join_lf}

-- The messages that a frame is refused with.
pub data Refusal : Type 0 where
  type_newline id_newline id_space id_control retry_digits : Refusal

abbrev pub default_event_type : Text
default_event_type = bytes "message"

abbrev pub max_retry_digits : ℕ
max_retry_digits = 16

-- `[\x00-\x1f\x7f]`
abbrev pub is_control : ℕ → Bool
is_control c = leb c 31 || nat_eq c 127

-- `_UNRESUMABLE_ID.search`: the first character that is found, from the start of a text or past it.
unfoldable pub unresumable_from : (at_start : Bool) → Text → Option ℕ
unresumable_from at_start [] = none
unresumable_from at_start (c ∷ cs) =
    let rest = unresumable_from false cs in
    if is_control c || (nat_eq c space && (at_start || nat_eq (length cs) 0)) then some c else rest

-- `_spellable_type`
unfoldable pub spellable_type : Text → Option Refusal
spellable_type value = if has_newline value then some type_newline else none

-- `_resumable_id`
unfoldable pub resumable_id : Text → Option Refusal
resumable_id value = elim (unresumable_from true value) [
  | none ↦ none
  | some found ↦
      if nat_eq found cr || nat_eq found lf
      then some id_newline
      else (if nat_eq found space then some id_space else some id_control)
]

pub record Event : Type 0 where
  pub data' : Text
  pub type' : Text
  pub id : Option Text

-- The frames: `Event`, `Comment`, `Retry` with the count of its milliseconds, which is not negative,
-- and `Checkpoint`.
pub data ServerSentEvent : Type 0 where
  event : Event → ServerSentEvent
  comment : Text → ServerSentEvent
  retry : ℕ → ServerSentEvent
  checkpoint : Text → ServerSentEvent

-- `str` of a number, in as many steps as it has digits at most.
unfoldable pub decimal_from : ℕ → ℕ → Text
decimal_from zero n = []
decimal_from (suc fuel) n =
    let front = decimal_from fuel (n / 10) in (if ltb n 10 then [] else front) ++ (48 + n % 10) ∷ []

abbrev pub decimal : ℕ → Text
decimal n = decimal_from (suc n) n

-- `__post_init__` of the frames
unfoldable pub refused : ServerSentEvent → Option Refusal
refused (event e) = elim (if e.type' == default_event_type then none else spellable_type e.type') [
  | some refusal ↦ some refusal
  | none ↦ elim e.id [ none ↦ none | some id ↦ resumable_id id ]
]
refused (comment message) = none
refused (retry after) =
    if ltb max_retry_digits (length (decimal after)) then some retry_digits else none
refused (checkpoint id) = resumable_id id

-- The pieces of a split, in a list.
abbrev pub pieces_of : Pieces → List Text
pieces_of (pieces, last) = pieces ++ last ∷ []

-- `_data_lines`
unfoldable pub data_lines : Text → List Text
data_lines value = map (λ piece. bytes "data: " ++ piece) (pieces_of (split_lines value))

-- The lines of a frame.
unfoldable pub lines_of : ServerSentEvent → List Text
lines_of (event e) =
    (if (e.type' == []) || (e.type' == default_event_type)
      then []
      else (bytes "event: " ++ e.type') ∷ [])
    ++ ((elim e.id [ none ↦ [] | some id ↦ (bytes "id: " ++ id) ∷ [] ]) ++ data_lines e.data')
lines_of (comment message) = map (λ piece. bytes ":" ++ piece) (pieces_of (split_lines message))
lines_of (retry after) = (bytes "retry: " ++ decimal after) ∷ []
lines_of (checkpoint id) = (bytes "id: " ++ id) ∷ []

-- `encode_event`, before `encode`
unfoldable pub encode_event : ServerSentEvent → Text
encode_event frame = join_lf (lines_of frame ++ [] ∷ [] ∷ [])
