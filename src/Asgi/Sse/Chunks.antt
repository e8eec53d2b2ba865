-- ===== src/Asgi/Sse/Chunks.antt =====
-- The chunks that a stream arrives in, and the text that they make together.
use without.Prelude.{
  ℕ, ◌≡◌, refl, sym, ap, ◌∙◌, Bool, true, false, Bool-cases, Option, none, some, List, [], ◌∷◌,
  ◌++◌, nat_eq, if◌then◌else◌, append-nil, inl, inr, arith, append_assoc,
}
use without.Asgi.Bytes.{Bytes}
use without.Asgi.Sse.{Text, cr, Pieces, split_after, split_lines, concat}
use without.Asgi.Sse.Lines.{glue, ends_cr, split_after-append, glue-glue, glue-cons}
use without.Asgi.Sse.Parser.{
  Received, Frame, Parser, Decoder, handle, with_item, handle_all, hold_back, append_piece,
  take_pieces, take_chunk, finish, parse_texts, opened, decode_chunks, parse_events_with_directives,
}

with_item-append :
    (item : Option Received) (xs ys : List Received)
    → with_item item (xs ++ ys) ≡ with_item item xs ++ ys
with_item-append none xs ys = refl
with_item-append (some item) xs ys = refl

handle_all-append :
    (xs ys : List Text) (f : Frame)
    → (handle_all (xs ++ ys) f).0 ≡ (handle_all xs f).0 ++ (handle_all ys (handle_all xs f).1).0
unfolding handle_all
handle_all-append [] ys f = refl
handle_all-append (x ∷ xs) ys f =
    ap (with_item (handle x f).0) (handle_all-append xs ys (handle x f).1)
    ∙ with_item-append (handle x f).0 (handle_all xs (handle x f).1).0 _

concat-append_piece :
    (piece : Text) (pending : List Text)
    → concat (append_piece piece pending) ≡ concat pending ++ piece
unfolding concat
concat-append_piece [] pending = sym (append-nil (concat pending))
concat-append_piece (c ∷ piece) [] = append-nil (c ∷ piece)
concat-append_piece (c ∷ piece) (p ∷ pending) =
    ap (λ l. p ++ l) (concat-append_piece (c ∷ piece) pending)
    ∙ sym (append_assoc p (concat pending) (c ∷ piece))

abbrev held_text : Bool → Text
held_text held = if held then cr ∷ [] else []

hold_back-text : (t : Text) → t ≡ (hold_back t).0 ++ held_text (hold_back t).1
unfolding hold_back
hold_back-text [] = refl
hold_back-text (c ∷ []) = elim (Bool-cases (nat_eq c cr)) [
  | inl same ↦ rw same (ground (arith, same))
  | inr other ↦ rw other refl
]
hold_back-text (c ∷ d ∷ t) = ap (λ l. c ∷ l) (hold_back-text (d ∷ t))

hold_back-ends_after :
    (c d : ℕ) (t : Text)
    → (hold_back (d ∷ t)).1 ≡ false
    → ends_cr (nat_eq c cr) (hold_back (d ∷ t)).0 ≡ false
unfolding hold_back
hold_back-ends_after c d [] h = elim (Bool-cases (nat_eq d cr)) [
  | inl same ↦ absurd (cc (rw same at h))
  | inr other ↦ rw other other
]
hold_back-ends_after c d (e ∷ t) h = hold_back-ends_after d e t h

-- With nothing held, the text that is left does not end with a carriage return.
hold_back-ends : (t : Text) → (hold_back t).1 ≡ false → ends_cr false (hold_back t).0 ≡ false
unfolding hold_back
hold_back-ends [] h = refl
hold_back-ends (c ∷ []) h = elim (Bool-cases (nat_eq c cr)) [
  | inl same ↦ absurd (cc (rw same at h))
  | inr other ↦ rw other other
]
hold_back-ends (c ∷ d ∷ t) h = hold_back-ends_after c d t h

-- What follows a held carriage return, or no carriage return, is split as from the start.
split-rest :
    (after held : Bool) (rest : Text)
    → (held ≡ false → after ≡ false)
    → split_after after (held_text held ++ rest) ≡ split_lines (held_text held ++ rest)
unfolding split_after
split-rest after false rest h = ap (λ x. split_after x rest) (h refl)
split-rest true true rest h = refl
split-rest false true rest h = refl

take_pieces-handled :
    (p q : Pieces) (held : Bool) (s : Parser)
    → (handle_all (glue ([], concat s.pending) (glue p q)).0 s.frame).0
      ≡ (take_pieces p held s).0
        ++ (handle_all
            (glue ([], concat (take_pieces p held s).1.pending) q).0
            (take_pieces p held s).1.frame).0
unfolding take_pieces concat
take_pieces-handled ([], last) q held s =
    ap (λ x. (handle_all x.0 s.frame).0)
      (glue-glue (concat s.pending) last q
        ∙ ap (λ x. glue ([], x) q) (sym (concat-append_piece last s.pending)))
take_pieces-handled (first ∷ pieces, last) q held s =
    ap (λ x. (handle_all x s.frame).0) (glue-cons (concat s.pending) first last pieces q)
    ∙ handle_all-append ((concat s.pending ++ first) ∷ pieces) (glue ([], last) q).0 s.frame
    ∙ ap
        (λ x.
          (handle_all ((concat s.pending ++ first) ∷ pieces) s.frame).0
          ++ (handle_all (glue ([], x) q).0
              (handle_all ((concat s.pending ++ first) ∷ pieces) s.frame).1).0)
        (sym (concat-append_piece last []))

take_pieces-held : (p : Pieces) (held : Bool) (s : Parser) → (take_pieces p held s).1.held ≡ held
unfolding take_pieces
take_pieces-held ([], last) held s = refl
take_pieces-held (first ∷ pieces, last) held s = refl

-- What a state makes of a text that follows: what its lines hold.
abbrev all_of : Parser → Text → List Received
all_of s rest =
    (handle_all (glue ([], concat s.pending) (split_lines (held_text s.held ++ rest))).0 s.frame).0

take_chunk-all_of :
    (chunk rest : Text) (s : Parser)
    → all_of s (chunk ++ rest) ≡ (take_chunk chunk s).0 ++ all_of (take_chunk chunk s).1 rest
unfolding take_chunk
take_chunk-all_of chunk rest s =
    let t = held_text s.held ++ chunk in
    let u = (hold_back t).0 in
    let h = (hold_back t).1 in
    let q = split_lines (held_text h ++ rest) in
    let parts : held_text s.held ++ (chunk ++ rest) ≡ u ++ (held_text h ++ rest) =
      sym (append_assoc (held_text s.held) chunk rest)
      ∙ ap (λ x. x ++ rest) (hold_back-text t)
      ∙ append_assoc u (held_text h) rest in
    let split : split_lines (held_text s.held ++ (chunk ++ rest)) ≡ glue (split_lines u) q =
      ap split_lines parts
      ∙ split_after-append false u (held_text h ++ rest)
      ∙ ap (glue (split_lines u)) (split-rest (ends_cr false u) h rest (hold_back-ends t)) in
    ap (λ x. (handle_all (glue ([], concat s.pending) x).0 s.frame).0) split
    ∙ take_pieces-handled (split_lines u) q h s
    ∙ ap
        (λ x.
          (take_pieces (split_lines u) h s).0
          ++ (handle_all
              (glue ([], concat (take_pieces (split_lines u) h s).1.pending)
                (split_lines (held_text x ++ rest))).0
              (take_pieces (split_lines u) h s).1.frame).0)
        (sym (take_pieces-held (split_lines u) h s))

finish_if :
    (held : Bool) (pending : List Text) (f : Frame)
    → (handle_all (glue ([], concat pending) (split_lines (held_text held ++ []))).0 f).0
      ≡ (if held then with_item (handle (concat pending) f).0 [] else [])
unfolding handle_all split_after
finish_if false pending f = refl
finish_if true pending f = ap (λ x. with_item (handle x f).0 []) (append-nil (concat pending))

finish-all_of : (s : Parser) → all_of s [] ≡ finish s
unfolding finish
finish-all_of s = finish_if s.held s.pending s.frame

-- Without a bound on the size, what is parsed of decoded chunks is what the lines of their text hold: those
-- that a terminator ends, each handled in turn.
pub parse_texts-lines :
    (chunks : List Text) (s : Parser)
    → parse_texts none chunks s ≡ (
      (handle_all
          (glue
            ([], concat s.pending)
            (split_lines ((if s.held then cr ∷ [] else []) ++ concat chunks))).0
          s.frame).0,
      false,
    )
unfolding parse_texts concat
parse_texts-lines [] s = ap (λ x. (x, false)) (sym (finish-all_of s))
parse_texts-lines (chunk ∷ chunks) s =
    let (items, s') = take_chunk chunk s in
    ap (λ x. (items ++ x.0, x.1)) (parse_texts-lines chunks s')
    ∙ ap (λ x. (x, false)) (sym (take_chunk-all_of chunk (concat chunks) s))

-- What the documentation of an incremental decoder says: a text in parts is decoded in parts, and
-- nothing is decoded to nothing.
pub record IsIncremental (d : Decoder) : Type 0 where
  pub decode_nothing : (s : d.State) → d.decode s [] ≡ ([], s)
  pub decode_append :
      (s : d.State) (a b : Bytes)
      → d.decode s (a ++ b)
        ≡ ((d.decode s a).0 ++ (d.decode (d.decode s a).1 b).0, (d.decode (d.decode s a).1 b).1)

concat-one : (t : Text) → concat (t ∷ []) ≡ t
unfolding concat
concat-one t = append-nil t

decode_chunks-whole :
    (d : Decoder)
    → IsIncremental d
    → (s : d.State) (chunks : List Bytes)
    → concat (decode_chunks d s chunks) ≡ (d.decode s (concat chunks)).0
unfolding decode_chunks concat
decode_chunks-whole d i s [] = sym (ap (λ x. x.0) (i.decode_nothing s))
decode_chunks-whole d i s (chunk ∷ chunks) =
    ap (λ l. (d.decode s chunk).0 ++ l) (decode_chunks-whole d i (d.decode s chunk).1 chunks)
    ∙ sym (ap (λ x. x.0) (i.decode_append s chunk (concat chunks)))

pub opened-lines :
    (texts : List Text) (last_event_id : Text)
    → parse_texts none texts (opened last_event_id) ≡ (
      (handle_all (glue ([], []) (split_lines (concat texts))).0 (opened last_event_id).frame).0,
      false,
    )
unfolding concat
opened-lines texts last_event_id = parse_texts-lines texts (opened last_event_id)

-- Without a bound on the size and with a decoder that is incremental, two streams of the same bytes, however they are
-- cut into chunks, are parsed to the same events and directives: those of a stream in one chunk.
pub parse-chunks :
    (d : Decoder)
    → IsIncremental d
    → (last_event_id : Text) (chunks : List Bytes)
    → parse_events_with_directives d last_event_id none chunks
      ≡ parse_events_with_directives d last_event_id none (concat chunks ∷ [])
unfolding parse_events_with_directives
parse-chunks d i last_event_id chunks =
    opened-lines (decode_chunks d d.start chunks) last_event_id
    ∙ ap
        (λ t.
          ((handle_all (glue ([], []) (split_lines t)).0 (opened last_event_id).frame).0, false))
        (decode_chunks-whole d i d.start chunks
          ∙ ap (λ b. (d.decode d.start b).0) (sym (concat-one (concat chunks)))
          ∙ sym (decode_chunks-whole d i d.start (concat chunks ∷ [])))
    ∙ sym (opened-lines (decode_chunks d d.start (concat chunks ∷ [])) last_event_id)
