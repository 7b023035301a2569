-- ===== src/Metadata.antt =====
-- The metadata that every modern request carries: RequestMeta of internal/protocol/types.go, its
-- validation in internal/mcpserver/server.go, and what internal/mcpserver/tasks.go reads from it.
use mcp_from_scratch.Json.Decode.{as_struct, string_member, map_member, struct_member}
use mcp_from_scratch.Json.Decode.{◌>>=◌}
use mcp_from_scratch.Protocol.Errors.{
  RpcError, new_error, new_error_with_data, invalid_params, unsupported_protocol_version,
}
use mcp_from_scratch.Protocol.Ids.{RequestId, is_string, unmarshal_id}
use mcp_from_scratch.Protocol.Extensions.{Extensions, validate}
use mcp_from_scratch.Protocol.Tasks.{tasks_extension_id, missing_task_capability_error}
use mcp_from_scratch.Context.{Ctx, execution_principal}
use mcp_from_scratch.Envelope.{protocol_version}
use mcp_from_scratch.Base.{
  ℕ, String, Bool, true, false, not, ◌&&◌, ◌||◌, Option, none, some, [], ◌∷◌, ◌==◌, if◌then◌else◌,
  is_some, lookup, Result, ok, err,
}
use mcp_from_scratch.Json.{null, str, arr, obj, Fields, end, field, Raw, object, strings, get}

pub record Implementation : Type 0 where
  pub name : String
  pub version : String

pub record RequestMeta : Type 0 where
  pub protocol_version : String
  pub client_info : Option Implementation
  pub client_capabilities : Option Fields
  pub trace_parent : String
  pub trace_state : String
  pub baggage : String
  pub log_level : String
  pub progress_token : Raw

decode_implementation : Option Fields → Option (Option Implementation)
decode_implementation none = some none
decode_implementation (some fields) = do
  name ← string_member "name" fields
  version ← string_member "version" fields
  some (some (record { name = name; version = version }))

unfoldable pub decode_meta : Fields → Option RequestMeta
unfolding decode_implementation
decode_meta fields = do
  version ← string_member "io.modelcontextprotocol/protocolVersion" fields
  info ← map_member "io.modelcontextprotocol/clientInfo" fields
  client ← decode_implementation info
  capabilities ← map_member "io.modelcontextprotocol/clientCapabilities" fields
  parent ← string_member "traceparent" fields
  state ← string_member "tracestate" fields
  baggage ← string_member "baggage" fields
  level ← string_member "io.modelcontextprotocol/logLevel" fields
  some (record {
    protocol_version = version;
    client_info = client;
    client_capabilities = capabilities;
    trace_parent = parent;
    trace_state = state;
    baggage = baggage;
    log_level = level;
    progress_token = get "progressToken" fields;
  })

-- The members of the params, and the RequestMeta that every params struct embeds.
unfoldable pub decode_params : Raw → Option (Fields × RequestMeta)
decode_params raw = do
  fields ← as_struct raw
  meta_fields ← struct_member "_meta" fields
  meta ← decode_meta meta_fields
  some (fields, meta)

unfoldable pub log_level_rank : String → Option ℕ
log_level_rank level =
    if level == "debug"
    then some 0
    else if level == "info"
    then some 1
    else if level == "notice"
    then some 2
    else if level == "warning"
    then some 3
    else if level == "error"
    then some 4
    else if level == "critical"
    then some 5
    else if level == "alert"
    then some 6
    else if level == "emergency"
    then some 7
    else none

abbrev integer_id : Option RequestId → Bool
integer_id none = false
integer_id (some id) = not (is_string id)

unfoldable pub valid_progress_token : Raw → Bool
valid_progress_token none = false
valid_progress_token (some null) = false
valid_progress_token (some (str s)) = true
valid_progress_token (some v) = integer_id (unmarshal_id v)

bad_metadata : RpcError
bad_metadata = new_error invalid_params "missing or invalid request metadata"

-- An absent token is no error.
bad_token : Raw → Bool
bad_token none = false
bad_token (some v) = not (valid_progress_token (some v))

validate_meta : RequestMeta → Option RpcError
unfolding bad_metadata bad_token
validate_meta meta =
    if meta.protocol_version == "" || not (is_some meta.client_capabilities)
    then some bad_metadata
    else if not (meta.protocol_version == protocol_version)
    then some (
        new_error_with_data unsupported_protocol_version "unsupported protocol version" (
          object (
            ("supported", arr (strings (protocol_version ∷ [])))
            ∷ ("requested", str meta.protocol_version)
            ∷ [])))
    else if not (meta.log_level == "") && not (is_some (log_level_rank meta.log_level))
    then some (new_error invalid_params "invalid request log level")
    else if bad_token meta.progress_token
    then some (new_error invalid_params "invalid progress token")
    else none

validate_decoded : Option (Fields × RequestMeta) → Option RpcError
unfolding validate_meta bad_metadata
validate_decoded none = some bad_metadata
validate_decoded (some (fields, meta)) = validate_meta meta

-- `none` if the metadata is valid.
unfoldable pub validate_request_metadata : Raw → Option RpcError
unfolding validate_decoded
validate_request_metadata raw = validate_decoded (decode_params raw)

abbrev client_name : Option Implementation → String
client_name none = ""
client_name (some info) = info.name

abbrev or_client : Option String → RequestMeta → String
or_client (some principal) meta = principal
or_client none meta = client_name meta.client_info

unfoldable pub task_owner : Ctx → RequestMeta → String
task_owner ctx meta = or_client (execution_principal ctx) meta

abbrev pub entries : Fields → Extensions
entries end = []
entries (field k v fs) = (k, v) ∷ entries fs

abbrev valid_and_listed {ℓ} : {E : Type ℓ} → Result E (Unit {0}) → Extensions → Bool
valid_and_listed (ok u) extensions = is_some (lookup tasks_extension_id extensions)
valid_and_listed (err e) extensions = false

-- The client's extensions are a map that validates and holds the tasks extension; null is a nil map.
offers_tasks : Raw → Bool
offers_tasks (some (obj fs)) = valid_and_listed (validate (entries fs)) (entries fs)
offers_tasks _ = false

unfoldable pub tasks_capability : Option Fields → Bool
unfolding offers_tasks
tasks_capability none = false
tasks_capability (some capabilities) = offers_tasks (get "extensions" capabilities)

unfoldable pub tasks_enabled : Extensions → Bool
tasks_enabled extensions = is_some (lookup tasks_extension_id extensions)

unfoldable pub task_capability_error : Extensions → RequestMeta → Option RpcError
task_capability_error extensions meta =
    if not (tasks_enabled extensions) || not (tasks_capability meta.client_capabilities)
    then some missing_task_capability_error
    else none
