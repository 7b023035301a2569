-- ===== src/Protocol/Errors.antt =====
-- Error objects of internal/protocol/types.go.
use mcp_from_scratch.Base.{ℕ, String, none, some}
use mcp_from_scratch.Json.{obj, Fields, Raw}

-- The codes are negative; `magnitude` is the number without its sign.
pub data ErrorCode : Type 0 where
  parse_error invalid_request method_not_found invalid_params internal_error : ErrorCode
  header_mismatch missing_required_client_capability unsupported_protocol_version : ErrorCode
  missing_required_task_capability server_overloaded : ErrorCode

abbrev pub magnitude : ErrorCode → ℕ
magnitude parse_error = 32700
magnitude invalid_request = 32600
magnitude method_not_found = 32601
magnitude invalid_params = 32602
magnitude internal_error = 32603
magnitude header_mismatch = 32020
magnitude missing_required_client_capability = 32021
magnitude unsupported_protocol_version = 32022
magnitude missing_required_task_capability = 32003
magnitude server_overloaded = 32024

-- The text of an error: literal, with a value that `%q` quotes, or ended by what the JSON package
-- says of a value that it cannot decode.
pub data Message : Type 0 where
  plain : String → Message
  quoting : String → String → String → Message
  counting : String → ℕ → String → Message
  decoding : String → Message
  wrapping : String → Message → Message

pub record RpcError : Type 0 where
  pub code : ErrorCode
  pub message : Message
  pub detail : Raw

abbrev pub new_error : ErrorCode → String → RpcError
new_error code message = record { code = code; message = plain message; detail = none }

abbrev pub new_error_with_data : ErrorCode → String → Fields → RpcError
new_error_with_data code message detail = record {
  code = code;
  message = plain message;
  detail = some (obj detail);
}
