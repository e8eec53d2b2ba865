-- ===== src/Asgi/Sse/Dispatch.antt =====
-- What the parser does at the lines of one frame, and what a peer is to get of frames.
use without.Prelude.{
  ℕ, ◌≡◌, refl, sym, ap, ap₂, ◌∙◌, Bool, true, false, ◌||◌, ◌&&◌, Bool-cases, Option, none, some,
  List, [], ◌∷◌, ◌++◌, nat_eq, if◌then◌else◌, inl, inr, arith,
}
use without.Prelude.Eq.{◌==◌}
use without.Asgi.Bytes.{bytes, bytes_key}
use without.Asgi.Sse.{Text, Pieces, cr, lf, on_first, split_after, join_lf}
use without.Asgi.Sse.Frames.{
  Refusal, ServerSentEvent, event, comment, retry, checkpoint, refused, default_event_type,
  pieces_of, resumable_id,
}
use without.Asgi.Sse.Parser.{
  Received, received, retried, moved, Frame, handle, handle_all, with_item, dispatch_of, opened,
}
use without.Asgi.Sse.Ids.{resumable-none}
use without.Asgi.Sse.Fields.{handle-event, handle-id}

-- A text with a line feed in place of every terminator.
unfoldable pub normalised_after : Bool → Text → Text
normalised_after after [] = []
normalised_after after (c ∷ value) =
    let rest = normalised_after (nat_eq c cr) value in
    if after && nat_eq c lf then rest else (if nat_eq c cr then lf ∷ rest else c ∷ rest)

-- What a peer gets of frames: the events with their data normalised, the type that an unnamed one has
-- and the id that the stream has come to; each `retry`; and the ids that move the stream.
unfoldable pub delivered : Text → List ServerSentEvent → List Received
delivered last [] = []
delivered last (event e ∷ frames) =
    let id : Text = elim e.id [ none ↦ last | some id ↦ id ] in
    received (record {
      data' = normalised_after false e.data';
      type' = if e.type' == [] then default_event_type else e.type';
      id = id;
    })
    ∷ delivered id frames
delivered last (comment message ∷ frames) = delivered last frames
delivered last (retry after ∷ frames) = retried after ∷ delivered last frames
delivered last (checkpoint id ∷ frames) =
    let rest = delivered id frames in if id == last then rest else moved id ∷ rest

abbrev pub IsSpellable : ServerSentEvent → Type 0
IsSpellable frame = refused frame ≡ none

join_lf-ended_piece :
    (pieces : List Text) (last : Text)
    → join_lf ([] ∷ pieces ++ last ∷ []) ≡ lf ∷ join_lf (pieces ++ last ∷ [])
unfolding join_lf
join_lf-ended_piece [] last = refl
join_lf-ended_piece (piece ∷ pieces) last = refl

join_lf-on_first :
    (c : ℕ) (p : Pieces) → join_lf (pieces_of (on_first c p)) ≡ c ∷ join_lf (pieces_of p)
unfolding join_lf
join_lf-on_first c ([], last) = refl
join_lf-on_first c (piece ∷ [], last) = refl
join_lf-on_first c (piece ∷ next ∷ pieces, last) = refl

join_lf-one : (line : Text) → join_lf (line ∷ []) ≡ line
unfolding join_lf
join_lf-one line = refl

-- The pieces of a text, joined with line feeds.
pub join_lf-split :
    (after : Bool) (value : Text)
    → join_lf (pieces_of (split_after after value)) ≡ normalised_after after value
unfolding split_after normalised_after
join_lf-split after [] = join_lf-one []
join_lf-split after (c ∷ value) = elim (Bool-cases (after && nat_eq c lf)) [
  | inl skipped ↦ rw skipped (join_lf-split (nat_eq c cr) value)
  | inr new ↦ rw new (elim (Bool-cases (nat_eq c cr)) [
    | inl is_cr ↦ rw is_cr (
        join_lf-ended_piece (split_after true value).0 (split_after true value).1
        ∙ ap (λ l. lf ∷ l) (join_lf-split true value))
    | inr not_cr ↦ elim (Bool-cases (nat_eq c lf)) [
      | inl is_lf ↦ rw not_cr (
          rw is_lf (
            join_lf-ended_piece (split_after false value).0 (split_after false value).1
            ∙ ap₂ (λ x l. x ∷ l) (ground (arith, is_lf)) (join_lf-split false value)))
      | inr plain ↦ rw not_cr (
          rw plain (
            join_lf-on_first c (split_after false value)
            ∙ ap (λ l. c ∷ l) (join_lf-split false value)))
    ]
  ])
]

-- A frame that holds nothing, in a stream that has come to an id and has reported it.
abbrev pub clean : Text → Frame
clean last = (opened last).frame

-- The id that a stream has come to after a frame.
abbrev pub point : Text → ServerSentEvent → Text
point last (event e) = elim e.id [ none ↦ last | some id ↦ id ]
point last (comment message) = last
point last (retry after) = last
point last (checkpoint id) = id

abbrev pub Handled : Type 0
Handled = List Received × Frame

abbrev pub followed : List Received → Handled → Handled
followed items r = (items ++ r.0, r.1)

pub handle_all-one :
    (line : Text) (lines : List Text) (f f' : Frame) (item : Option Received)
    → handle line f ≡ (item, f')
    → handle_all (line ∷ lines) f
      ≡ (with_item item (handle_all lines f').0, (handle_all lines f').1)
unfolding handle_all
handle_all-one line lines f f' item h =
    ap (λ r. (with_item r.0 (handle_all lines r.1).0, (handle_all lines r.1).1)) h

pub named-handled :
    (type : Text) (lines : List Text) (f : Frame)
    → f.event_type ≡ []
    → handle_all
        ((if (type == []) || (type == default_event_type)
            then []
            else (bytes "event: " ++ type) ∷ [])
          ++ lines)
        f
      ≡ handle_all lines (record f {
        event_type = if (type == []) || (type == default_event_type) then [] else type;
      })
named-handled type lines f blank =
    elim (Bool-cases ((type == []) || (type == default_event_type))) [
      | inl unnamed ↦ rw unnamed (ap (λ t. handle_all lines (record f { event_type = t })) blank)
      | inr named ↦ rw named (
          handle_all-one (bytes "event: " ++ type) lines f (record f { event_type = type }) none
            (handle-event type f))
    ]

pub identified-handled :
    (id : Option Text) (lines : List Text) (f : Frame)
    → ◌≡◌ {A = Option Refusal} (elim id [ none ↦ none | some id ↦ resumable_id id ]) none
    → handle_all
        ((elim id as (λ _. List Text) [ none ↦ [] | some id ↦ (bytes "id: " ++ id) ∷ [] ]) ++ lines)
        f
      ≡ handle_all lines (record f { last_id = elim id [ none ↦ f.last_id | some id ↦ id ] })
identified-handled none lines f fine = refl
identified-handled (some id) lines f fine =
    handle_all-one (bytes "id: " ++ id) lines f (record f { last_id = id }) none
      (handle-id id f (resumable-none id fine))

pub dispatched-type :
    (type : Text)
    → (if (if (type == []) || (type == default_event_type) then [] else type) == []
        then default_event_type
        else (if (type == []) || (type == default_event_type) then [] else type))
      ≡ (if type == [] then default_event_type else type)
dispatched-type type = elim (Bool-cases (type == [])) [
  | inl blank ↦ rw blank refl
  | inr some_type ↦ elim (Bool-cases (type == default_event_type)) [
    | inl default ↦
        rw some_type (rw default (sym ((bytes_key.beq_iff type default_event_type).0 default)))
    | inr other ↦ rw some_type (rw other (rw some_type refl))
  ]
]

-- A blank line after data dispatches it.
pub dispatch-data :
    (p : Pieces) (type last reported : Text) (n : ℕ) (lines : List Text)
    → handle_all ([] ∷ lines) (record {
      data' = pieces_of p;
      event_type = type;
      last_id = last;
      reported_id = reported;
      buffered = n;
    })
      ≡ followed
          (received (record {
            data' = join_lf (pieces_of p);
            type' = if type == [] then default_event_type else type;
            id = last;
          })
            ∷ [])
          (handle_all lines (clean last))
unfolding handle_all handle dispatch_of
dispatch-data ([], last') type last reported n lines = refl
dispatch-data (piece ∷ pieces, last') type last reported n lines = refl

pub dispatch-blank :
    (last reported : Text) (lines : List Text)
    → handle_all ([] ∷ lines) (record (clean reported) { last_id = last })
      ≡ followed (if last == reported then [] else moved last ∷ []) (handle_all lines (clean last))
unfolding handle_all handle dispatch_of
dispatch-blank last reported lines = elim (Bool-cases (last == reported)) [
  | inl same ↦ rw same (
      ap (λ r. handle_all lines (record (clean last) { reported_id = r }))
        (sym ((bytes_key.beq_iff last reported).0 same)))
  | inr other ↦ rw other refl
]
