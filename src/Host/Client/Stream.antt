-- ===== src/Host/Client/Stream.antt =====
-- decodeHTTPSSEResponse of internal/host/demo.go on the stream that internal/mcpserver/http.go writes.
use mcp_from_scratch.Base.Text.{in_front}
use mcp_from_scratch.Protocol.Errors.{plain}
use mcp_from_scratch.Protocol.Ids.{RequestId, same_id}
use mcp_from_scratch.Host.Events.{read_sse_data, new_reader, write_sse_message}
use mcp_from_scratch.Host.Events.RoundTrip.{OneLine, written_lines, read_sse_data-write_sse_message}
use mcp_from_scratch.Host.Client.{
  decode_answer, envelope_of, response_or_next, decode_sse_response, of_status, http_answer,
}
use mcp_from_scratch.Base.{
  ℕ, zero, suc, ◌<◌, ◌≤◌, String, ◌≡◌, refl, ap, ◌∙◌, true, false, Option, some, List, [], ◌∷◌,
  arith, ◌==◌, length, ok, or_fail,
}
use mcp_from_scratch.Json.{Json}

-- serveHTTPRequestScoped: the notifications of a request, and its response.
abbrev pub request_stream : List String → String → String
request_stream [] response = in_front (write_sse_message response) ""
request_stream (n ∷ ns) response = in_front (write_sse_message n) (request_stream ns response)

module _ (parse_json : String → Option Json) where
  pub record IsNotification (text : String) : Type 0 where
    pub on_one_line : OneLine text
    pub message : Json
    pub id : Option RequestId
    pub method : String
    pub parsed : parse_json text ≡ some message
    pub decoded : envelope_of parse_json message ≡ some (id, method)
    pub named : (method == "") ≡ false

  pub data Notifications : List String → Type 0 where
    no_more : Notifications []
    one_more :
        {n : String} {ns : List String}
        → IsNotification n
        → Notifications ns
        → Notifications (n ∷ ns)

  pub record IsResponse (wanted : RequestId) (text : String) (message : Json) : Type 0 where
    pub on_one_line : OneLine text
    pub id : RequestId
    pub parsed : parse_json text ≡ some message
    pub decoded : envelope_of parse_json message ≡ some (some id, "")
    pub same : same_id wanted id ≡ true

  round :
      (wanted : RequestId) (reader rest : List String) (event : String) (message : Json) (fuel : ℕ)
      → read_sse_data reader ≡ ok (event, rest)
      → parse_json event ≡ some message
      → decode_sse_response parse_json (suc fuel) (some wanted) reader
        ≡ response_or_next parse_json
            (some wanted)
            message
            (envelope_of parse_json message)
            (decode_sse_response parse_json fuel (some wanted) rest)
  unfolding decode_sse_response
  round wanted reader rest event message fuel read parsed = rw (read, parsed) refl

  decode_sse_response-request_stream :
      (wanted : RequestId) (notifications : List String) (response : String) (message : Json)
      (fuel : ℕ)
      → Notifications notifications
      → IsResponse wanted response message
      → length notifications < fuel
      → decode_sse_response parse_json fuel
          (some wanted)
          (new_reader (request_stream notifications response))
        ≡ or_fail (decode_answer message) (plain "decode SSE JSON-RPC response")
  decode_sse_response-request_stream wanted ns response message zero several r enough =
      absurd (omega arith)
  decode_sse_response-request_stream wanted [] response message (suc fuel) no_more r enough =
      round wanted (new_reader (request_stream [] response)) (new_reader "") response message fuel
        (read_sse_data-write_sse_message response "" r.on_one_line) r.parsed
      ∙ rw (r.decoded, r.same) refl
  decode_sse_response-request_stream wanted (n ∷ ns) response message (suc fuel) (one_more h hs) r
        enough =
      round wanted (new_reader (request_stream (n ∷ ns) response))
        (new_reader (request_stream ns response)) n h.message fuel
        (read_sse_data-write_sse_message n (request_stream ns response) h.on_one_line) h.parsed
      ∙ rw (h.decoded, h.named) refl
      ∙ decode_sse_response-request_stream wanted ns response message fuel hs r (omega arith)

  lines_suffice :
      {ns : List String} (response : String)
      → Notifications ns
      → length ns ≤ length (new_reader (request_stream ns response))
  lines_suffice response no_more = omega arith
  lines_suffice response (one_more {n} {ns} h hs) =
      let rest = lines_suffice response hs in
      rw (written_lines n (request_stream ns response) h.on_one_line) (omega arith)

  -- A client that asked with an identifier gets, from a stream with status 200 in which any
  -- notifications stand before a response with that identifier, each message on a line, the decoded
  -- response: the notifications are passed over, and the reading of the stream ends.
  pub http_answer-request_stream :
      (wanted : RequestId) (notifications : List String) (response : String) (message : Json)
      → Notifications notifications
      → IsResponse wanted response message
      → http_answer parse_json parse_json
          (some wanted)
          200
          (some "text/event-stream")
          (request_stream notifications response)
        ≡ of_status 200 (or_fail (decode_answer message) (plain "decode SSE JSON-RPC response"))
  unfolding http_answer
  http_answer-request_stream wanted ns response message several r = ap (of_status 200) (
      decode_sse_response-request_stream wanted ns response message
        (suc (length (new_reader (request_stream ns response)))) several r
        (let enough = lines_suffice response several in omega arith))
