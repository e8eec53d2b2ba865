-- ===== src/Asgi/Sse/Served.antt =====
-- `event_stream` and `with_heartbeat` of sse.py
--
-- A stream is the list of what it yields. A wait of `with_heartbeat` ends with a frame, or with the
-- interval's lapse while the pull goes on.
use without.Prelude.{ℕ, Bool, true, false, Option, none, some, List, [], ◌∷◌}
use without.Asgi.Bytes.{Bytes, bytes}
use without.Asgi.Headers.{RawHeaders, merge}
use without.Asgi.Sse.{Text}
use without.Asgi.Sse.Frames.{ServerSentEvent, encode_event}

unfoldable pub event_stream_headers : RawHeaders
event_stream_headers =
    (bytes "content-type", bytes "text/event-stream")
    ∷ (bytes "cache-control", bytes "no-store")
    ∷ []

-- The messages of the response. A start has `trailers` too, which no stream of events sets.
pub data Outbound : Type 0 where
  response_start : (status : ℕ) → RawHeaders → Outbound
  response_body : Bytes → (more_body : Bool) → Outbound

-- `event_stream`, where `encode` is the UTF-8 encoder
unfoldable pub bodies : (Text → Bytes) → List ServerSentEvent → List Outbound
bodies encode [] = response_body [] false ∷ []
bodies encode (frame ∷ events) =
    response_body (encode (encode_event frame)) true ∷ bodies encode events

unfoldable pub event_stream : (Text → Bytes) → ℕ → RawHeaders → List ServerSentEvent → List Outbound
event_stream encode status headers events =
    response_start status (merge event_stream_headers headers) ∷ bodies encode events

-- `with_heartbeat`, by how each wait ends
unfoldable pub with_heartbeat :
    ServerSentEvent → List (Option ServerSentEvent) → List ServerSentEvent
with_heartbeat beat [] = []
with_heartbeat beat (none ∷ waits) = beat ∷ with_heartbeat beat waits
with_heartbeat beat (some frame ∷ waits) = frame ∷ with_heartbeat beat waits

-- The frames that the source yielded.
unfoldable pub pulled : List (Option ServerSentEvent) → List ServerSentEvent
pulled [] = []
pulled (none ∷ waits) = pulled waits
pulled (some frame ∷ waits) = frame ∷ pulled waits
