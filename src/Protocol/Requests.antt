-- ===== src/Protocol/Requests.antt =====
-- Requests, notifications and responses of internal/protocol/types.go.
use mcp_from_scratch.Json.Decode.{◌>>=◌, as_struct, string_member}
use mcp_from_scratch.Protocol.Errors.{RpcError, new_error, invalid_request}
use mcp_from_scratch.Protocol.Ids.{RequestId, unmarshal_id}
use mcp_from_scratch.Base.{
  String, Bool, true, false, not, ◌||◌, Option, none, some, ◌==◌, if◌then◌else◌,
}
use mcp_from_scratch.Json.{Json, null, Raw, get}

pub record Request : Type 0 where
  pub jsonrpc : String
  pub id : Option RequestId
  pub method : String
  pub params : Raw
  pub id_null : Bool

pub record Notification : Type 0 where
  pub jsonrpc : String
  pub method : String
  pub params : Raw

pub record Response : Type 0 where
  pub jsonrpc : String
  pub id : Option RequestId
  pub result : Raw
  pub error : Option RpcError

-- The member "id": absent, null, or an identifier; `none` is a decoding error.
pub data IdMember : Type 0 where
  absent : IdMember
  null_id : IdMember
  given : RequestId → IdMember

id_member : Raw → Option IdMember
id_member none = some absent
id_member (some null) = some null_id
id_member (some v) = do id ← unmarshal_id v; some (given id)

abbrev id_of : IdMember → Option RequestId
id_of (given id) = some id
id_of _ = none

abbrev is_null : IdMember → Bool
is_null null_id = true
is_null _ = false

unfoldable pub unmarshal_request : Json → Option Request
unfolding id_member
unmarshal_request message = do
  fields ← as_struct (some message)
  jsonrpc ← string_member "jsonrpc" fields
  method ← string_member "method" fields
  id ← id_member (get "id" fields)
  some (record {
    jsonrpc = jsonrpc;
    id = id_of id;
    method = method;
    params = get "params" fields;
    id_null = is_null id;
  })

-- `none` if the envelope is valid.
unfoldable pub validate_request : Request → Option RpcError
validate_request request =
    if not (request.jsonrpc == "2.0")
    then some (new_error invalid_request "invalid request")
    else if request.method == ""
    then some (new_error invalid_request "invalid request")
    else if request.id_null
    then some (new_error invalid_request "invalid request")
    else none

unfoldable pub method_uses_name_header : String → Bool
method_uses_name_header method =
    method == "tools/call"
    || method == "resources/read"
    || method == "prompts/get"
    || method == "tasks/get"
    || method == "tasks/update"
    || method == "tasks/cancel"
