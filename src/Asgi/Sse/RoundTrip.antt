-- ===== src/Asgi/Sse/RoundTrip.antt =====
-- `encode_event`, and what the parser makes of its frames.
use without.Prelude.{
  ◌≤◌, ℕ, ◌+◌, ◌≡◌, refl, sym, ap, ap₂, ◌∙◌, false, ◌||◌, Bool-cases, Option, none, some, List, [],
  ◌∷◌, ◌++◌, map, ltb, if◌then◌else◌, All, append_assoc, inl, inr, arith, length,
}
use without.Prelude.Eq.{◌==◌}
use without.Asgi.Bytes.{Bytes, bytes, bytes_key}
use without.Asgi.Sse.{Text, split_lines, concat}
use without.Asgi.Sse.Lines.{glue, glue-none}
use without.Asgi.Sse.Frames.{
  ServerSentEvent, event, comment, retry, checkpoint, refused, default_event_type, max_retry_digits,
  decimal, pieces_of, data_lines, lines_of, encode_event,
}
use without.Asgi.Sse.Parser.{
  Decoder, decode_chunks, parse_events_with_directives, received, retried, Frame, handle_all,
}
use without.Asgi.Sse.Ids.{resumable-none}
use without.Asgi.Sse.Fields.{handle-id, handle-retry, size, handle_all-data, handle_all-comments}
use without.Asgi.Sse.Chunks.{opened-lines}
use without.Asgi.Sse.Served.{with_heartbeat, pulled}
use without.Asgi.Sse.Dispatch.{
  delivered, IsSpellable, clean, point, followed, join_lf-split, handle_all-one, named-handled,
  identified-handled, dispatched-type, dispatch-data, dispatch-blank,
}
use without.Asgi.Sse.Encoded.{event-parts, checkpoint-fine, stream_lines, split_lines-encoded}

retry-short : (after : ℕ) → IsSpellable (retry after) → length (decimal after) ≤ max_retry_digits
unfolding refused
retry-short after h = elim (Bool-cases (ltb max_retry_digits (length (decimal after)))) [
  | inl long ↦ absurd (cc (rw long at h))
  | inr short ↦ ground (arith, short)
]

handle_all-lines :
    (value : Text) (lines : List Text) (f : Frame)
    → handle_all (data_lines value ++ lines) f
      ≡ handle_all lines (record f {
        data' = f.data' ++ pieces_of (split_lines value);
        buffered = f.buffered + size (pieces_of (split_lines value));
      })
unfolding data_lines
handle_all-lines value lines f = handle_all-data (pieces_of (split_lines value)) lines f

-- A blank line at a clean frame does nothing.
blank :
    (last : Text) (lines : List Text)
    → handle_all ([] ∷ lines) (clean last) ≡ handle_all lines (clean last)
blank last lines = dispatch-blank last last lines ∙ rw ((bytes_key.beq_iff last last).1 refl) refl

-- The lines of a frame, with the blank one, deliver what the frame is.
frame-handled :
    (frame : ServerSentEvent) (lines : List Text) (last : Text)
    → IsSpellable frame
    → handle_all (lines_of frame ++ ([] ∷ lines)) (clean last)
      ≡ followed (delivered last (frame ∷ [])) (handle_all lines (clean (point last frame)))
unfolding lines_of delivered
frame-handled (event e) lines last h =
    let (_, id_fine) = event-parts e h in
    let type = if (e.type' == []) || (e.type' == default_event_type) then [] else e.type' in
    let id : Text = elim e.id [ none ↦ last | some id ↦ id ] in
    let p = split_lines e.data' in
    let N : List Text =
      if (e.type' == []) || (e.type' == default_event_type)
      then []
      else (bytes "event: " ++ e.type') ∷ [] in
    let I : List Text = elim e.id [ none ↦ [] | some id ↦ (bytes "id: " ++ id) ∷ [] ] in
    ap (λ l. handle_all l (clean last))
      (append_assoc N (I ++ data_lines e.data') ([] ∷ lines)
        ∙ ap (λ l. N ++ l) (append_assoc I (data_lines e.data') ([] ∷ lines)))
    ∙ named-handled e.type' (I ++ (data_lines e.data' ++ ([] ∷ lines))) (clean last) refl
    ∙ identified-handled e.id (data_lines e.data' ++ ([] ∷ lines))
        (record (clean last) { event_type = type }) id_fine
    ∙ handle_all-lines e.data' ([] ∷ lines)
        (record (clean last) { event_type = type; last_id = id })
    ∙ dispatch-data p type id last (0 + size (pieces_of p)) lines
    ∙ ap₂
        (λ d t.
          followed (received (record { data' = d; type' = t; id = id }) ∷ [])
            (handle_all lines (clean id)))
        (join_lf-split false e.data') (dispatched-type e.type')
frame-handled (comment message) lines last h =
    handle_all-comments (pieces_of (split_lines message)) ([] ∷ lines) (clean last)
    ∙ blank last lines
frame-handled (retry after) lines last h =
    handle_all-one (bytes "retry: " ++ decimal after) ([] ∷ lines) (clean last) (clean last)
      (some (retried after)) (handle-retry after (clean last) (retry-short after h))
    ∙ ap (λ r. followed (retried after ∷ []) r) (blank last lines)
frame-handled (checkpoint id) lines last h =
    handle_all-one (bytes "id: " ++ id) ([] ∷ lines) (clean last)
      (record (clean last) { last_id = id }) none
      (handle-id id (clean last) (resumable-none id (checkpoint-fine id h)))
    ∙ dispatch-blank id last lines

delivered-cons :
    (last : Text) (frame : ServerSentEvent) (frames : List ServerSentEvent)
    → delivered last (frame ∷ frames)
      ≡ delivered last (frame ∷ []) ++ delivered (point last frame) frames
unfolding delivered
delivered-cons last (event e) frames = refl
delivered-cons last (comment message) frames = refl
delivered-cons last (retry after) frames = refl
delivered-cons last (checkpoint id) frames = elim (Bool-cases (id == last)) [
  | inl same ↦ rw same refl
  | inr other ↦ rw other refl
]

stream_lines-handled :
    (frames : List ServerSentEvent) (last : Text)
    → All IsSpellable frames
    → (handle_all (stream_lines frames) (clean last)).0 ≡ delivered last frames
unfolding handle_all delivered
stream_lines-handled [] last h = refl
stream_lines-handled (frame ∷ frames) last (fine, h) =
    ap (λ r. r.0) (frame-handled frame (stream_lines frames) last fine)
    ∙ ap (λ l. delivered last (frame ∷ []) ++ l) (stream_lines-handled frames (point last frame) h)
    ∙ sym (delivered-cons last frame frames)

-- Frames that none refuses, encoded and cut into chunks in any way, are parsed to the events, the reconnection
-- times and the resumption points that the frames spell, when nothing bounds the size and the decoder gives
-- back the text that was encoded.
pub encode-parse :
    (d : Decoder) (last_event_id : Text) (frames : List ServerSentEvent) (chunks : List Bytes)
    → All IsSpellable frames
    → concat (decode_chunks d d.start chunks) ≡ concat (map encode_event frames)
    → parse_events_with_directives d last_event_id none chunks
      ≡ (delivered last_event_id frames, false)
unfolding parse_events_with_directives
encode-parse d last_event_id frames chunks fine same =
    opened-lines (decode_chunks d d.start chunks) last_event_id
    ∙ ap (λ t. ((handle_all (glue ([], []) (split_lines t)).0 (clean last_event_id)).0, false)) same
    ∙ ap (λ p. ((handle_all (glue ([], []) p).0 (clean last_event_id)).0, false))
        (split_lines-encoded frames fine)
    ∙ ap (λ p. ((handle_all p.0 (clean last_event_id)).0, false))
        (glue-none (stream_lines frames, []))
    ∙ ap (λ x. (x, false)) (stream_lines-handled frames last_event_id fine)

-- A comment as a heartbeat changes nothing of what is delivered: it is what the pulled frames deliver alone.
pub heartbeat-delivered :
    (last message : Text) (waits : List (Option ServerSentEvent))
    → delivered last (with_heartbeat (comment message) waits) ≡ delivered last (pulled waits)
unfolding delivered with_heartbeat pulled
heartbeat-delivered last message [] = refl
heartbeat-delivered last message (none ∷ waits) = heartbeat-delivered last message waits
heartbeat-delivered last message (some frame ∷ waits) =
    delivered-cons last frame (with_heartbeat (comment message) waits)
    ∙ ap (λ l. delivered last (frame ∷ []) ++ l)
        (heartbeat-delivered (point last frame) message waits)
    ∙ sym (delivered-cons last frame (pulled waits))
