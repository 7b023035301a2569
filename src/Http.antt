-- ===== src/Http.antt =====
-- internal/mcpserver/http.go: the decisions of serveHTTP on one request. A request is given with what
-- mime.ParseMediaType and url.Parse make of its Content-Type and its Origin; a body is given as the
-- JSON values that a decoder reads from it. What is streamed after the first message is not modelled.
pub mod Headers
pub mod Isolation
use mcp_from_scratch.Base.Text.{trim_space, split, before, equal_fold}
use mcp_from_scratch.Context.{Ctx}
use mcp_from_scratch.Environment.{Environment}
use mcp_from_scratch.Envelope.{protocol_version}
use mcp_from_scratch.Metadata.{RequestMeta, decode_params, valid_progress_token, log_level_rank}
use mcp_from_scratch.Protocol.Errors.{
  RpcError, ErrorCode, Message, new_error, new_error_with_data, parse_error, invalid_request,
  header_mismatch, method_not_found, unsupported_protocol_version,
  missing_required_client_capability, missing_required_task_capability,
}
use mcp_from_scratch.Protocol.Ids.{RequestId}
use mcp_from_scratch.Protocol.Requests.{
  Request, Response, Notification, unmarshal_request, validate_request, method_uses_name_header,
}
use mcp_from_scratch.Json.Decode.{as_struct, string_member, struct_member}
use mcp_from_scratch.Json.Decode.{◌>>=◌ as bind}
use mcp_from_scratch.Server.{Server}
use mcp_from_scratch.Server.Handle.{handle}
use mcp_from_scratch.Server.Listen.{subscribe}
use mcp_from_scratch.Subscriptions.{Subscription}
use mcp_from_scratch.Base.{
  ℕ, String, Bool, true, false, not, ◌&&◌, ◌||◌, Option, none, some, List, [], ◌∷◌, arith, ◌==◌,
  if◌then◌else◌, is_some, Result, ok, err,
}
use mcp_from_scratch.Base.{◌>>=◌}
use mcp_from_scratch.Json.{Json, str, arr, Fields, Raw, object, strings, get}

-- The scheme and the host of an origin; `unparsed` is one that url.Parse refuses.
pub data Origin : Type 0 where
  no_origin unparsed : Origin
  parsed : String → String → Origin

pub data HttpBody : Type 0 where
  malformed : HttpBody
  single : Json → HttpBody
  trailing : Json → HttpBody

pub record HttpCall : Type 0 where
  pub method : String
  pub host : String
  pub origin : Origin
  pub content_type : Option String
  pub accept : List String
  pub header_version : String
  pub header_method : String
  pub header_name : String
  pub body : HttpBody
  pub can_flush : Bool

-- A status without a body, a JSON-RPC response, the stream of a subscription after its
-- acknowledgement, or a stream that ends with the response.
pub data HttpReply : Type 0 where
  status : ℕ → HttpReply
  rpc : ℕ → Response → HttpReply
  subscribed : Subscription → Notification → HttpReply
  streamed : Response → HttpReply

unfoldable pub valid_request_origin : HttpCall → Bool
valid_request_origin call = elim call.origin [
  | no_origin ↦ true
  | unparsed ↦ false
  | parsed scheme host ↦ not (scheme == "") && equal_fold host call.host
]

abbrev pub media_type : Option String → String → Bool
media_type none wanted = false
media_type (some type) wanted = equal_fold type wanted

any_part : List String → String → Bool
any_part [] wanted = false
any_part (part ∷ parts) wanted =
    equal_fold (trim_space (before b';' part)) wanted || any_part parts wanted

unfoldable pub accepts_media_type : List String → String → Bool
unfolding any_part
accepts_media_type [] wanted = false
accepts_media_type (value ∷ values) wanted =
    any_part (split b',' value) wanted || accepts_media_type values wanted

pub record HeaderParams : Type 0 where
  pub meta : RequestMeta
  pub name : String
  pub uri : String
  pub task_id : String

abbrev pub decode_header_params : Raw → Option HeaderParams
decode_header_params raw = bind (decode_params raw) λ decoded.
    bind (string_member "name" decoded.0) λ name. bind (string_member "uri" decoded.0) λ uri.
      bind (string_member "taskId" decoded.0)
        λ task_id. some (record { meta = decoded.1; name = name; uri = uri; task_id = task_id })

unfoldable pub expected_name : String → HeaderParams → String
expected_name method params =
    if method == "tasks/get" || method == "tasks/update" || method == "tasks/cancel"
    then params.task_id
    else if method == "resources/read"
    then params.uri
    else params.name

mismatch : Option RpcError
mismatch = some (new_error header_mismatch "MCP transport header mismatch")

decoded_headers : HttpCall → Request → Option HeaderParams → Option RpcError
unfolding mismatch
decoded_headers call request none = mismatch
decoded_headers call request (some params) =
    if call.header_version == "" || not (call.header_version == params.meta.protocol_version)
    then mismatch
    else if not (call.header_version == protocol_version)
    then some (
        new_error_with_data unsupported_protocol_version "unsupported protocol version" (
          object (
            ("supported", arr (strings (protocol_version ∷ [])))
            ∷ ("requested", str call.header_version)
            ∷ [])))
    else if call.header_method == "" || not (call.header_method == request.method)
    then mismatch
    else if method_uses_name_header request.method
        && (call.header_name == "" || not (call.header_name == expected_name request.method params))
    then mismatch
    else none

-- `none` if the headers agree with the body.
unfoldable pub validate_http_headers : HttpCall → Request → Option RpcError
unfolding decoded_headers
validate_http_headers call request =
    decoded_headers call request (decode_header_params request.params)

abbrev rpc_error : ℕ → Option RequestId → RpcError → HttpReply
rpc_error code id e = rpc code (record { jsonrpc = "2.0"; id = id; result = none; error = some e })

abbrev http_parse_error : HttpReply
http_parse_error = rpc_error 400 none (new_error parse_error "parse error")

abbrev code_status : ErrorCode → ℕ
code_status method_not_found = 404
code_status unsupported_protocol_version = 400
code_status missing_required_client_capability = 400
code_status missing_required_task_capability = 400
code_status _ = 200

unfoldable pub response_status : Response → ℕ
response_status response = elim response.error [ none ↦ 200 | some e ↦ code_status e.code ]

meta_token : Raw → Raw
meta_token raw =
    bind (as_struct raw)
      λ fields. bind (struct_member "_meta" fields) λ meta. get "progressToken" meta

request_has_progress_token : Raw → Bool
unfolding meta_token
request_has_progress_token raw = valid_progress_token (meta_token raw)

abbrev level_of : Option (Fields × RequestMeta) → String
level_of none = ""
level_of (some (fields, meta)) = meta.log_level

request_has_log_level : Raw → Bool
request_has_log_level raw = is_some (log_level_rank (level_of (decode_params raw)))

unfoldable pub decoded_request : HttpBody → Option Request
decoded_request malformed = none
decoded_request (trailing v) = none
decoded_request (single v) = unmarshal_request v

module _ (env : Environment) (ctx : Ctx) (now : ℕ) (random : Result Message (List ℕ)) where
  abbrev Replied : Type 0
  Replied = HttpReply × Server

  opened : Option RequestId → Result RpcError (Subscription × Notification) × Server → Replied
  opened id (err e, server) = (rpc_error 200 id e, server)
  opened id (ok (subscriber, acknowledged), server) = (subscribed subscriber acknowledged, server)

  serve_http_subscription : HttpCall → Request → Server → Replied
  unfolding opened
  serve_http_subscription call request server =
      if not call.can_flush
      then (status 500, server)
      else opened request.id (subscribe ctx now request.id request.params server)

  abbrev ending : Response × Server → Replied
  ending (response, server) = (streamed response, server)

  serve_http_request_scoped : HttpCall → Request → Server → Replied
  serve_http_request_scoped call request server =
      if not call.can_flush
      then (status 500, server)
      else ending (handle env ctx now random request server)

  answered : Request → Response × Server → Replied
  answered request (response, server) =
      if not (is_some request.id)
      then (status 202, server)
      else (rpc (response_status response) response, server)

  -- A request whose envelope and headers are valid.
  unfoldable pub serve_request : HttpCall → Request → Server → Replied
  unfolding serve_http_subscription serve_http_request_scoped answered request_has_progress_token
      request_has_log_level
  serve_request call request server =
      if request.method == "subscriptions/listen" && not (is_some request.id)
      then (
        rpc_error 400 none (new_error invalid_request "subscriptions/listen requires a request ID"),
        server,
      )
      else if request.method == "subscriptions/listen"
      then serve_http_subscription call request server
      else if is_some request.id
          && (request_has_progress_token request.params || request_has_log_level request.params)
      then serve_http_request_scoped call request server
      else answered request (handle env ctx now random request server)

  with_headers : HttpCall → Request → Option RpcError → Server → Replied
  unfolding serve_request
  with_headers call request (some e) server = (rpc_error 400 request.id e, server)
  with_headers call request none server = serve_request call request server

  with_envelope : HttpCall → Request → Option RpcError → Server → Replied
  unfolding with_headers
  with_envelope call request (some e) server = (rpc_error 400 request.id e, server)
  with_envelope call request none server =
      with_headers call request (validate_http_headers call request) server

  with_request : HttpCall → Option Request → Server → Replied
  unfolding with_envelope
  with_request call none server = (http_parse_error, server)
  with_request call (some request) server =
      with_envelope call request (validate_request request) server

  -- serveHTTP
  unfoldable pub serve : HttpCall → Server → Replied
  unfolding with_request
  serve call server =
      if not (call.method == "POST")
      then (status 405, server)
      else if not (valid_request_origin call)
      then (status 403, server)
      else if not (media_type call.content_type "application/json")
      then (status 415, server)
      else if not (accepts_media_type call.accept "application/json")
          || not (accepts_media_type call.accept "text/event-stream")
      then (status 406, server)
      else with_request call (decoded_request call.body) server
