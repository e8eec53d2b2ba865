-- ===== src/Asgi/Sse/Parser.antt =====
-- `parse_events_with_directives` and `parse_events` of sse.py
use without.Prelude.{
  ℕ, ◌+◌, Bool, true, false, ◌&&◌, Option, none, some, List, [], ◌∷◌, ◌++◌, length, ltb, leb,
  nat_eq, if◌then◌else◌,
}
use without.Prelude.Eq.{◌==◌}
use without.Asgi.Bytes.{Bytes, bytes, bytes_key, all_digits, int_from}
use without.Asgi.Sse.{Text, cr, space, split_lines, concat, join_lf}
use without.Asgi.Sse.Frames.{default_event_type, max_retry_digits, unresumable_from}

pub record ReceivedEvent : Type 0 where
  pub data' : Text
  pub type' : Text
  pub id : Text

-- What a parser yields: an event, a `Retry` and a `Checkpoint`.
pub data Received : Type 0 where
  received : ReceivedEvent → Received
  retried : ℕ → Received
  moved : Text → Received

-- The frame that is assembled, with the resumption point and the one that was last reported.
pub record Frame : Type 0 where
  pub data' : List Text
  pub event_type : Text
  pub last_id : Text
  pub reported_id : Text
  pub buffered : ℕ

-- `line.partition(":")`: the name, and the value where there is a colon.
unfoldable pub partition_colon : Text → Text × Option Text
partition_colon [] = ([], none)
partition_colon (c ∷ line) =
    let (name, value) = partition_colon line in
    if nat_eq c 58 then ([], some line) else (c ∷ name, value)

-- `value.removeprefix(" ")`
abbrev pub drop_space : Text → Text
drop_space [] = []
drop_space (c ∷ value) = if nat_eq c space then value else c ∷ value

-- `_field`
unfoldable pub field : Text → Text × Text
field line =
    let (name, value) = partition_colon line in
    (name, elim value [ none ↦ [] | some value ↦ drop_space value ])

-- `_RETRY.fullmatch`
unfoldable pub is_retry : Text → Bool
is_retry value = leb 1 (length value) && (leb (length value) max_retry_digits && all_digits value)

-- The `match` on a field's name.
unfoldable pub take_field : Text → Text → Frame → Option Received × Frame
take_field name value f =
    if name == bytes "data"
    then (none, record f { data' = f.data' ++ value ∷ []; buffered = f.buffered + length value })
    else (if name == bytes "event"
        then (none, record f { event_type = value })
        else (if name == bytes "id"
            then (
              none,
              elim (unresumable_from true value) [
                | none ↦ record f { last_id = value }
                | some c ↦ f
              ],
            )
            else (if name == bytes "retry"
                then (if is_retry value then (some (retried (int_from 0 value)), f) else (none, f))
                else (none, f))))

-- The dispatch at a blank line, by the data of the frame.
unfoldable pub dispatch_of : List Text → Frame → Option Received × Frame
dispatch_of (value ∷ values) f = (
  some (
      received (record {
        data' = join_lf (value ∷ values);
        type' = if f.event_type == [] then default_event_type else f.event_type;
        id = f.last_id;
      })),
  record f { data' = []; event_type = []; reported_id = f.last_id; buffered = 0 },
)
dispatch_of [] f =
    if f.last_id == f.reported_id
    then (none, record f { data' = []; event_type = []; buffered = 0 })
    else (
      some (moved f.last_id),
      record f { data' = []; event_type = []; reported_id = f.last_id; buffered = 0 },
    )

abbrev pub dispatch : Frame → Option Received × Frame
dispatch f = dispatch_of f.data' f

-- `handle`
unfoldable pub handle : Text → Frame → Option Received × Frame
handle [] f = dispatch f
handle (c ∷ line) f =
    if nat_eq c 58
    then (none, f)
    else (let (name, value) = field (c ∷ line) in take_field name value f)

abbrev pub with_item : Option Received → List Received → List Received
with_item none items = items
with_item (some item) items = item ∷ items

-- The loop over the lines that a chunk ends.
unfoldable pub handle_all : List Text → Frame → List Received × Frame
handle_all [] f = ([], f)
handle_all (line ∷ lines) f =
    let (item, f') = handle line f in
    let (items, f'') = handle_all lines f' in (with_item item items, f'')

-- The state between two chunks; `held` is whether a carriage return is held back.
pub record Parser : Type 0 where
  pub pending : List Text
  pub pending_size : ℕ
  pub held : Bool
  pub frame : Frame

-- A text without a carriage return at its end, and whether there was one.
unfoldable pub hold_back : Text → Text × Bool
hold_back [] = ([], false)
hold_back (c ∷ text) = elim text [
  | [] ↦ if nat_eq c cr then ([], true) else (c ∷ [], false)
  | _ ∷ _ ↦ let (rest, held) = hold_back text in (c ∷ rest, held)
]

-- `pending.append` of the last piece, where it is not empty.
abbrev pub append_piece : Text → List Text → List Text
append_piece [] pending = pending
append_piece (c ∷ piece) pending = pending ++ (c ∷ piece) ∷ []

-- One round of the loop, but for the test of the size: what is yielded, and the state.
unfoldable pub take_pieces : List Text × Text → Bool → Parser → List Received × Parser
take_pieces ([], last) held s = (
  [],
  record s {
    pending = append_piece last s.pending;
    pending_size = s.pending_size + length last;
    held = held;
  },
)
take_pieces (first ∷ pieces, last) held s =
    let (items, frame) = handle_all ((concat s.pending ++ first) ∷ pieces) s.frame in
    (
      items,
      record {
        pending = append_piece last [];
        pending_size = length last;
        held = held;
        frame = frame;
      },
    )

unfoldable pub take_chunk : Text → Parser → List Received × Parser
take_chunk chunk s =
    let (text, held) = hold_back ((if s.held then cr ∷ [] else []) ++ chunk) in
    take_pieces (split_lines text) held s

-- The characters that are retained, by the parser's counts.
abbrev pub retained : Parser → ℕ
retained s = s.frame.buffered + length s.frame.event_type + s.pending_size

abbrev pub exceeds : Option ℕ → Parser → Bool
exceeds none s = false
exceeds (some max_event_size) s = ltb max_event_size (retained s)

-- What the end of the stream makes of a carriage return that is held.
unfoldable pub finish : Parser → List Received
finish s = if s.held then with_item (handle (concat s.pending) s.frame).0 [] else []

-- The loop over the decoded chunks: what is yielded, and whether the size was exceeded.
unfoldable pub parse_texts : Option ℕ → List Text → Parser → List Received × Bool
parse_texts limit [] s = (finish s, false)
parse_texts limit (chunk ∷ chunks) s =
    let (items, s') = take_chunk chunk s in
    let (more, failed) = parse_texts limit chunks s' in
    if exceeds limit s' then (items, true) else (items ++ more, failed)

-- The start, from the id that the stream is resumed with.
abbrev pub opened : Text → Parser
opened last_event_id = record {
  pending = [];
  pending_size = 0;
  held = false;
  frame = record {
    data' = [];
    event_type = [];
    last_id = last_event_id;
    reported_id = last_event_id;
    buffered = 0;
  };
}

-- `codecs.getincrementaldecoder("utf-8-sig")(errors="replace")`, as its states and `decode`.
pub record Decoder : Type 1 where
  pub State : Type 0
  pub start : State
  pub decode : State → Bytes → Text × State

unfoldable pub decode_chunks : (d : Decoder) → d.State → List Bytes → List Text
decode_chunks d s [] = []
decode_chunks d s (chunk ∷ chunks) =
    let (text, s') = d.decode s chunk in text ∷ decode_chunks d s' chunks

-- `parse_events_with_directives`
unfoldable pub parse_events_with_directives :
    Decoder → Text → Option ℕ → List Bytes → List Received × Bool
parse_events_with_directives d last_event_id limit chunks =
    parse_texts limit (decode_chunks d d.start chunks) (opened last_event_id)

-- `parse_events`: the events alone.
unfoldable pub events_of : List Received → List ReceivedEvent
events_of [] = []
events_of (item ∷ items) =
    let rest = events_of items in
    elim item [ received e ↦ e ∷ rest | retried n ↦ rest | moved id ↦ rest ]

abbrev pub parse_events : Decoder → Text → Option ℕ → List Bytes → List ReceivedEvent × Bool
parse_events d last_event_id limit chunks =
    let (items, failed) = parse_events_with_directives d last_event_id limit chunks in
    (events_of items, failed)
