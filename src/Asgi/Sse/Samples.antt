-- ===== src/Asgi/Sse/Samples.antt =====
-- A stream of five frames: tests, and the theorems at it.
use without.Prelude.{◌≡◌, refl, true, false, none, some, List, [], ◌∷◌, ◌++◌, map, All}
use without.Asgi.Bytes.{Bytes, bytes, bytes_key}
use without.Asgi.Headers.{merge, drop_named, is_named}
use without.Asgi.Sse.{Text, split_after, has_newline, concat, join_lf}
use without.Asgi.Sse.Frames.{
  Event, ServerSentEvent, event, comment, retry, checkpoint, refused, id_newline, id_space,
  encode_event, lines_of, data_lines, decimal_from, unresumable_from, resumable_id, spellable_type,
}
use without.Asgi.Sse.Parser.{
  Received, received, retried, moved, Decoder, parse_events_with_directives, parse_texts,
  decode_chunks, take_chunk, take_pieces, hold_back, finish, handle, handle_all, dispatch_of, field,
  partition_colon, take_field, opened,
}
use without.Asgi.Sse.Served.{
  event_stream, bodies, event_stream_headers, response_start, response_body,
}
use without.Asgi.Sse.Chunks.{IsIncremental, parse-chunks}
use without.Asgi.Sse.Retained.{Bounds, parse-retains}
use without.Asgi.Sse.Dispatch.{delivered, normalised_after, IsSpellable}
use without.Asgi.Sse.RoundTrip.{encode-parse}

-- A decoder of ASCII: each byte is its character.
abbrev plain : Decoder
plain = record { State = Unit; start = tt; decode = λ s b. (b, s) }

plain-IsIncremental : IsIncremental plain
plain-IsIncremental = record { decode_nothing = λ s. refl; decode_append = λ s a b. refl }

abbrev tick : Event
tick = record {
  data' = bytes "a" ++ (13 ∷ 10 ∷ bytes "b");
  type' = bytes "tick";
  id = some (bytes "7");
}

abbrev frames : List ServerSentEvent
frames = retry 1500 ∷ event tick ∷ comment [] ∷ checkpoint (bytes "9") ∷ checkpoint (bytes "9") ∷ []

abbrev wire : Text
wire =
    bytes "retry: 1500"
    ++ (10 ∷ 10 ∷ bytes "event: tick"
        ++ (10 ∷ bytes "id: 7"
            ++ (10 ∷ bytes "data: a"
                ++ (10 ∷ bytes "data: b"
                    ++ (10 ∷ 10 ∷ bytes ":"
                        ++ (10 ∷ 10 ∷ bytes "id: 9"
                            ++ (10 ∷ 10 ∷ bytes "id: 9" ++ (10 ∷ 10 ∷ []))))))))

abbrev items : List Received
items =
    retried 1500
    ∷ received
        (record { data' = bytes "a" ++ (10 ∷ bytes "b"); type' = bytes "tick"; id = bytes "7" })
    ∷ moved (bytes "9")
    ∷ []

encodes : concat (map encode_event frames) ≡ wire
unfolding concat encode_event lines_of data_lines decimal_from split_after join_lf
encodes = refl

delivers : delivered [] frames ≡ items
unfolding delivered normalised_after
delivers = refl

-- A carriage return and its line feed, in two chunks, end one line.
abbrev cut : List Bytes
cut =
    (bytes "id: 4" ++ (13 ∷ [])) ∷ (10 ∷ bytes "dat") ∷ (bytes "a:x" ++ (13 ∷ [])) ∷ (13 ∷ []) ∷ []

parses_cut :
    parse_events_with_directives plain [] none cut
    ≡ (received (record { data' = bytes "x"; type' = bytes "message"; id = bytes "4" }) ∷ [], false)
unfolding parse_events_with_directives parse_texts decode_chunks take_chunk take_pieces hold_back
    finish handle handle_all dispatch_of field partition_colon take_field unresumable_from
    split_after concat join_lf
parses_cut = refl

fails_over_the_bound :
    parse_events_with_directives plain [] (some 4) (bytes "data: hello" ∷ []) ≡ ([], true)
unfolding parse_events_with_directives parse_texts decode_chunks take_chunk take_pieces hold_back
    split_after
fails_over_the_bound = refl

refuses_id_newline : refused (checkpoint (bytes "a" ++ (10 ∷ []))) ≡ some id_newline
unfolding refused resumable_id unresumable_from
refuses_id_newline = refl

refuses_id_space : refused (checkpoint (bytes "a ")) ≡ some id_space
unfolding refused resumable_id unresumable_from
refuses_id_space = refl

serves_one :
    event_stream (λ t. t) 200 [] (checkpoint (bytes "9") ∷ [])
    ≡ response_start 200 event_stream_headers
      ∷ response_body (bytes "id: 9" ++ (10 ∷ 10 ∷ [])) true
      ∷ response_body [] false
      ∷ []
unfolding event_stream bodies merge drop_named is_named event_stream_headers encode_event lines_of
    join_lf
serves_one = refl

frames-IsSpellable : All IsSpellable frames
unfolding refused resumable_id spellable_type unresumable_from has_newline decimal_from
frames-IsSpellable = (refl, (refl, (refl, (refl, (refl, tt)))))

parse-chunks_example :
    parse_events_with_directives plain (bytes "1") none cut
    ≡ parse_events_with_directives plain (bytes "1") none (concat cut ∷ [])
parse-chunks_example = parse-chunks plain plain-IsIncremental (bytes "1") cut

abbrev wire_chunks : List Bytes
wire_chunks = wire ∷ []

decoded_wire : concat (decode_chunks plain tt wire_chunks) ≡ concat (map encode_event frames)
unfolding concat decode_chunks encode_event lines_of data_lines decimal_from split_after join_lf
decoded_wire = refl

encode-parse_example :
    parse_events_with_directives plain [] none wire_chunks ≡ (delivered [] frames, false)
encode-parse_example = encode-parse plain [] frames wire_chunks frames-IsSpellable decoded_wire

parse-retains_example :
    Bounds 9
      (bytes "data: hel" ∷ bytes "lo" ∷ [])
      (opened [])
      (parse_texts (some 9) (bytes "data: hel" ∷ bytes "lo" ∷ []) (opened [])).1
parse-retains_example = parse-retains 9 [] (bytes "data: hel" ∷ bytes "lo" ∷ [])
