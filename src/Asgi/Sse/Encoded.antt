-- ===== src/Asgi/Sse/Encoded.antt =====
-- The lines of a stream of encoded frames.
use without.Prelude.{
  ◌≡◌, refl, sym, ap, ◌∙◌, true, false, ◌||◌, Bool-cases, Option, Option-cases, ◌⊎◌, none, some,
  List, [], ◌∷◌, ◌++◌, map, if◌then◌else◌, All, All-append, append_assoc, inl, inr, arith,
}
use without.Prelude.Eq.{◌==◌}
use without.Asgi.Bytes.{bytes, bytes_key}
use without.Asgi.Sse.{Text, split_after, split_lines, has_newline, join_lf, concat}
use without.Asgi.Sse.Frames.{
  Refusal, ServerSentEvent, Event, event, comment, retry, checkpoint, refused, default_event_type,
  decimal, pieces_of, data_lines, lines_of, encode_event, resumable_id, spellable_type,
}
use without.Asgi.Sse.Decimal.{decimal-digits, digits-newline}
use without.Asgi.Sse.Ids.{unresumable-newline, resumable-none, spellable-newline}
use without.Asgi.Sse.Fields.{ended, IsLine, join_lf-ended, split_lines-ended, split_after-IsLine}
use without.Asgi.Sse.Dispatch.{IsSpellable}

pub event-parts :
    (e : Event)
    → IsSpellable (event e)
    → (((e.type' == default_event_type) ≡ true) ⊎ (spellable_type e.type' ≡ none))
      × ◌≡◌ {A = Option Refusal} (elim e.id [ none ↦ none | some id ↦ resumable_id id ]) none
unfolding refused
event-parts e h = elim (Bool-cases (e.type' == default_event_type)) [
  | inl default ↦ (inl default, rw (default, refused) at h)
  | inr other ↦ elim (Option-cases (spellable_type e.type')) [
    | inl fine ↦ (inr fine, rw (fine, refused) at (rw (other, refused) at h))
    | inr (r, bad) ↦ absurd (cc (rw (bad, refused) at (rw (other, refused) at h)))
  ]
]

pub checkpoint-fine : (id : Text) → IsSpellable (checkpoint id) → resumable_id id ≡ none
unfolding refused
checkpoint-fine id h = h

encode_event-ended :
    (frame : ServerSentEvent) → encode_event frame ≡ ended (lines_of frame ++ [] ∷ [])
unfolding encode_event
encode_event-ended frame =
    ap join_lf (sym (append_assoc (lines_of frame) ([] ∷ []) ([] ∷ [])))
    ∙ join_lf-ended (lines_of frame ++ [] ∷ [])

prefixed-IsLine :
    (front : Text) (values : List Text)
    → ((value : Text) → IsLine value → IsLine (front ++ value))
    → All IsLine values
    → All IsLine (map (λ value. front ++ value) values)
prefixed-IsLine front [] keeps h = tt
prefixed-IsLine front (value ∷ values) keeps (l, h) =
    (keeps value l, prefixed-IsLine front values keeps h)

empty-IsLine : IsLine []
unfolding has_newline
empty-IsLine = refl

split_lines-nothing : split_lines [] ≡ ([], [])
unfolding split_after
split_lines-nothing = refl

named-IsLine :
    (type : Text)
    → ((type == default_event_type) ≡ true) ⊎ (spellable_type type ≡ none)
    → All IsLine (
        if (type == []) || (type == default_event_type) then [] else (bytes "event: " ++ type) ∷ [])
unfolding has_newline
named-IsLine type h = elim (Bool-cases ((type == []) || (type == default_event_type))) [
  | inl unnamed ↦ rw unnamed tt
  | inr named ↦ rw named (elim h [
    | inl default ↦ absurd (ground (arith, default, named))
    | inr fine ↦ (spellable-newline type fine, tt)
  ])
]

identified-IsLine :
    (id : Option Text)
    → ◌≡◌ {A = Option Refusal} (elim id [ none ↦ none | some id ↦ resumable_id id ]) none
    → All IsLine (elim id as (λ _. List Text) [ none ↦ [] | some id ↦ (bytes "id: " ++ id) ∷ [] ])
unfolding has_newline
identified-IsLine none fine = tt
identified-IsLine (some id) fine = (unresumable-newline true id (resumable-none id fine), tt)

data_lines-IsLine : (value : Text) → All IsLine (data_lines value)
unfolding data_lines has_newline
data_lines-IsLine value =
    prefixed-IsLine (bytes "data: ") (pieces_of (split_lines value)) (λ v l. l)
      (split_after-IsLine false value)

-- No line of a frame holds a terminator.
lines_of-IsLine : (frame : ServerSentEvent) → IsSpellable frame → All IsLine (lines_of frame)
unfolding lines_of has_newline
lines_of-IsLine (event e) h =
    let (type_fine, id_fine) = event-parts e h in
    All-append IsLine _ _ (named-IsLine e.type' type_fine) (
      All-append IsLine _ (data_lines e.data') (identified-IsLine e.id id_fine)
        (data_lines-IsLine e.data'))
lines_of-IsLine (comment message) h =
    prefixed-IsLine (bytes ":") (pieces_of (split_lines message)) (λ value l. l)
      (split_after-IsLine false message)
lines_of-IsLine (retry after) h = (digits-newline (decimal after) (decimal-digits after), tt)
lines_of-IsLine (checkpoint id) h =
    (unresumable-newline true id (resumable-none id (checkpoint-fine id h)), tt)

-- The lines of a stream of frames.
abbrev pub stream_lines : List ServerSentEvent → List Text
stream_lines [] = []
stream_lines (frame ∷ frames) = lines_of frame ++ ([] ∷ stream_lines frames)

abbrev pub encoded : List ServerSentEvent → Text
encoded frames = concat (map encode_event frames)

pub split_lines-encoded :
    (frames : List ServerSentEvent)
    → All IsSpellable frames
    → split_lines (encoded frames) ≡ (stream_lines frames, [])
unfolding concat
split_lines-encoded [] h = split_lines-nothing
split_lines-encoded (frame ∷ frames) (fine, h) =
    ap (λ t. split_lines (t ++ encoded frames)) (encode_event-ended frame)
    ∙ split_lines-ended (lines_of frame ++ [] ∷ []) (encoded frames) (
        All-append IsLine (lines_of frame) ([] ∷ []) (lines_of-IsLine frame fine)
          (empty-IsLine, tt))
    ∙ ap (λ p. ((lines_of frame ++ [] ∷ []) ++ p.0, p.1)) (split_lines-encoded frames h)
    ∙ ap (λ l. (l, [])) (append_assoc (lines_of frame) ([] ∷ []) (stream_lines frames))
