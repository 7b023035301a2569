-- ===== src/Host/Client.antt =====
-- internal/host/demo.go and extensions.go: the requests that a client sends, the answers that it
-- gets, and what it makes of their results. A client is a function on the state `W` of everything
-- behind its transport.
pub mod Admission
pub mod Sending
pub mod Stream
use mcp_from_scratch.Base.Decimal.{ℤ}
use mcp_from_scratch.Envelope.{protocol_version}
use mcp_from_scratch.Protocol.Errors.{Message, plain, quoting, wrapping}
use mcp_from_scratch.Protocol.Extensions.{Extensions, validate, intersect_extensions}
use mcp_from_scratch.Protocol.Ids.{same_id, RequestId, number, unmarshal_id, marshal_id}
use mcp_from_scratch.Protocol.Requests.{Request, method_uses_name_header}
use mcp_from_scratch.Protocol.Tasks.{tasks_extension_id}
use mcp_from_scratch.Metadata.{entries}
use mcp_from_scratch.Http.{HttpCall, no_origin, single}
use mcp_from_scratch.Host.Events.{read_sse_data, new_reader}
use mcp_from_scratch.Json.Decode.{
  integer_member, as_struct, string_member, map_member, struct_member, ◌>>=◌ as and_then,
}
use mcp_from_scratch.Base.{
  ℕ, zero, suc, String, Bool, true, false, not, ◌||◌, Option, none, some, List, [], ◌∷◌, arith,
  ◌==◌, eqb, if◌then◌else◌, Result, ok, err, or_fail, length, is_some,
}
use mcp_from_scratch.Base.{◌>>=◌}
use mcp_from_scratch.Json.{Json, null, str, obj, Fields, end, field, Raw, object, get, put}

-- protocol.Error as a client decodes it.
pub record RpcFailure : Type 0 where
  pub code : ℤ
  pub message : String
  pub detail : Raw

-- protocol.Response as a client decodes it.
pub record Answer : Type 0 where
  pub jsonrpc : String
  pub id : Option RequestId
  pub result : Raw
  pub error : Option RpcFailure

abbrev pub no_answer : Answer
no_answer = record { jsonrpc = ""; id = none; result = none; error = none }

-- An answer, and the error that the call returns beside it.
abbrev pub Called : Type 0
Called = Answer × Option Message

pub record Client (W : Type 0) : Type 0 where
  pub call : Request → W → Called × W

abbrev failure_of : Option Fields → Option (Option RpcFailure)
failure_of none = some none
failure_of (some fields) = and_then (integer_member (get "code" fields)) λ code.
    and_then (string_member "message" fields)
      λ message. some (some (record { code = code; message = message; detail = get "data" fields }))

abbrev pub optional_id : Raw → Option (Option RequestId)
optional_id none = some none
optional_id (some null) = some none
optional_id (some v) = and_then (unmarshal_id v) λ id. some (some id)

unfoldable pub decode_answer : Json → Option Answer
decode_answer message = and_then (as_struct (some message)) λ fields.
    and_then (string_member "jsonrpc" fields) λ jsonrpc.
      and_then (optional_id (get "id" fields)) λ id. and_then (map_member "error" fields) λ failure.
        and_then (failure_of failure) λ error.
          some (record { jsonrpc = jsonrpc; id = id; result = get "result" fields; error = error })

-- The error of a call whose answer has arrived; of its text, the message of the server.
abbrev pub with_failure : Answer → Called
with_failure answer = (
  answer,
  elim answer.error [ none ↦ none | some f ↦ some (wrapping "JSON-RPC error" (plain f.message)) ],
)

abbrev marshal_params : Raw → Fields → Fields
marshal_params none rest = rest
marshal_params (some v) rest = field "params" v rest

abbrev marshal_request_id : Option RequestId → Fields → Fields
marshal_request_id none rest = rest
marshal_request_id (some id) rest = elim (marshal_id id) [
  | none ↦ rest
  | some v ↦ field "id" v rest
]

-- json.Marshal of a request whose identifier, if any, was set.
unfoldable pub marshal_request : Request → Json
marshal_request request = obj (
    field "jsonrpc" (str request.jsonrpc) (
      marshal_request_id request.id
        (field "method" (str request.method) (marshal_params request.params end))))

abbrev pub client_extensions : Extensions
client_extensions = (tasks_extension_id, obj end) ∷ []

abbrev with_extensions : Extensions → Fields → Fields
with_extensions [] base = base
with_extensions (e ∷ es) base = put "extensions" (obj (object (e ∷ es))) base

unfoldable pub capabilities_with_extensions : Fields → Extensions → Result Message Fields
capabilities_with_extensions base extensions = elim (validate extensions) [
  | err e ↦ err (wrapping "validate client extensions" e)
  | ok u ↦ ok (with_extensions extensions base)
]

abbrev elicitation : Fields
elicitation = object (("elicitation", obj (object (("form", obj end) ∷ []))) ∷ [])

abbrev or_nothing : Result Message Fields → Fields
or_nothing (ok fields) = fields
or_nothing (err e) = end

-- requestMetaForVersion; the extensions of the client are valid.
unfoldable pub request_meta_for_version : String → Fields
unfolding capabilities_with_extensions
request_meta_for_version version = object (
    ("io.modelcontextprotocol/protocolVersion", str version)
    ∷ (
      "io.modelcontextprotocol/clientInfo",
      obj (object (("name", str "mcp-from-scratch-host") ∷ ("version", str "0.1.0") ∷ [])),
    )
    ∷ (
      "io.modelcontextprotocol/clientCapabilities",
      obj (or_nothing (capabilities_with_extensions elicitation client_extensions)),
    )
    ∷ [])

abbrev pub client_request : ℕ → String → Fields → Request
client_request id method params = record {
  jsonrpc = "2.0";
  id = some (number (ℤ.pos id));
  method = method;
  params = some (obj params);
  id_null = false;
}

abbrev extension_map : Option Fields → Extensions
extension_map none = []
extension_map (some fs) = entries fs

offered_by_server : Raw → Option Extensions
offered_by_server raw = and_then (as_struct raw) λ fields.
    and_then (struct_member "capabilities" fields) λ capabilities.
      and_then (map_member "extensions" capabilities) λ extensions. some (extension_map extensions)

unfoldable pub negotiated_extensions : Extensions → Raw → Result Message Extensions
unfolding offered_by_server
negotiated_extensions offered discovery = elim (validate offered) [
  | err e ↦ err (wrapping "validate client extensions" e)
  | ok u ↦ elim (offered_by_server discovery) [
    | none ↦ err (plain "decode server extensions")
    | some server ↦ elim (validate server) [
      | err e ↦ err (wrapping "validate server extensions" e)
      | ok v ↦ ok (intersect_extensions offered server)
    ]
  ]
]

abbrev result_type : Raw → Result Message String
result_type none = ok "complete"
result_type (some (str s)) =
    if s == "" then err (plain "decode result envelope: result type must not be empty") else ok s
result_type (some _) = err (plain "decode result envelope: result type must be a string")

abbrev complete_type : Fields → String → Result Message Fields
complete_type fields type =
    if type == "complete" then ok fields else err (quoting "unsupported result type " type "")

-- The members of a complete result, into which the caller decodes its target.
unfoldable pub decode_complete_result : Raw → Result Message Fields
decode_complete_result (some (obj fields)) =
    result_type (get "resultType" fields) >>= complete_type fields
decode_complete_result (some null) = err (plain "decode result envelope: result must be an object")
decode_complete_result _ = err (plain "decode result envelope")

unfoldable pub decode_input_required_result : Raw → Result Message Fields
decode_input_required_result raw = do
  fields ← or_fail (as_struct raw) (plain "decode result envelope")
  type ← or_fail (string_member "resultType" fields) (plain "decode result envelope")
  if type == "input_required" then ok fields else err (quoting "unexpected result type " type "")

abbrev non_empty : String → Option String
non_empty name = if name == "" then none else some name

abbrev name_for : String → Option (String × String × String) → Option String
name_for method none = none
name_for method (some (name, uri, task_id)) =
    if method == "resources/read"
    then non_empty uri
    else if method == "tasks/get" || method == "tasks/update" || method == "tasks/cancel"
    then non_empty task_id
    else non_empty name

names_of : Raw → Option (String × String × String)
names_of raw = and_then (as_struct raw) λ fields. and_then (string_member "name" fields) λ name.
    and_then (string_member "uri" fields)
      λ uri. and_then (string_member "taskId" fields) λ task_id. some (name, uri, task_id)

-- The name that the transport repeats in a header.
unfoldable pub request_name : Request → Option String
unfolding names_of
request_name request =
    if method_uses_name_header request.method
    then name_for request.method (names_of request.params)
    else none

abbrev header : Option String → String
header none = ""
header (some s) = s

-- httpRPCClient.newRequest, with the header values as it sets them.
unfoldable pub new_request : String → Request → HttpCall
unfolding request_name marshal_request
new_request host request = record {
  method = "POST";
  host = host;
  origin = no_origin;
  content_type = some "application/json";
  accept = "application/json, text/event-stream" ∷ [];
  header_version = protocol_version;
  header_method = request.method;
  header_name = header (request_name request);
  body = single (marshal_request request);
  can_flush = true;
}

-- The result of a call by the status of the response and its decoded body.
abbrev pub of_status : ℕ → Result Message Answer → Called
of_status status (err e) = (no_answer, some (wrapping "decode HTTP response" e))
of_status status (ok answer) =
    if is_some answer.error
    then with_failure answer
    else if not (eqb status 200)
    then (answer, some (plain "unexpected HTTP status"))
    else (answer, none)

module _ (parse_json : String → Option Json) where
  abbrev envelope_of : Json → Option (Option RequestId × String)
  envelope_of message = and_then (as_struct (some message)) λ fields.
      and_then (optional_id (get "id" fields))
        λ id. and_then (string_member "method" fields) λ method. some (id, method)

  abbrev both_same : Option RequestId → Option RequestId → Bool
  both_same (some wanted) (some found) = same_id wanted found
  both_same _ _ = false

  abbrev response_or_next :
      Option RequestId
      → Json
      → Option (Option RequestId × String)
      → Result Message Answer
      → Result Message Answer
  response_or_next wanted message none next = err (plain "decode SSE JSON-RPC message")
  response_or_next wanted message (some (id, method)) next =
      if not (method == "")
      then next
      else if not (both_same wanted id)
      then err (plain "unexpected SSE response ID")
      else or_fail (decode_answer message) (plain "decode SSE JSON-RPC response")

  abbrev on_message : Option RequestId → Option Json → Result Message Answer → Result Message Answer
  on_message wanted none next = err (plain "decode SSE JSON-RPC message")
  on_message wanted (some message) next = response_or_next wanted message (envelope_of message) next

  abbrev on_event :
      Option RequestId
      → (List String → Result Message Answer)
      → Result Message (String × List String)
      → Result Message Answer
  on_event wanted again (err e) = err e
  on_event wanted again (ok (event, rest)) = on_message wanted (parse_json event) (again rest)

  -- decodeHTTPSSEResponse: notifications before the response are passed over. Each round takes at
  -- least one line of the input, so that its number of lines is enough fuel.
  unfoldable pub decode_sse_response : ℕ → Option RequestId → List String → Result Message Answer
  unfolding decode_answer read_sse_data same_id
  decode_sse_response zero wanted reader = err (plain "out of fuel")
  decode_sse_response (suc fuel) wanted reader =
      on_event wanted (decode_sse_response fuel wanted) (read_sse_data reader)

  -- What httpRPCClient.call makes of a response; `none` is a content type that does not parse, and
  -- `first` decodes the first value of a body.
  unfoldable pub http_answer :
      (String → Option Json) → Option RequestId → ℕ → Option String → String → Called
  unfolding decode_sse_response decode_answer new_reader
  http_answer first wanted status none body =
      (no_answer, some (plain "decode HTTP response content type"))
  http_answer first wanted status (some type) body =
      if type == "application/json"
      then of_status status
          (or_fail (and_then (first body) decode_answer) (plain "decode HTTP response"))
      else if type == "text/event-stream"
      then of_status status
          (decode_sse_response (suc (length (new_reader body))) wanted (new_reader body))
      else (no_answer, some (quoting "unexpected HTTP response content type " type ""))
