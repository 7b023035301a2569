-- ===== src/Confirmation.antt =====
-- internal/mcpserver/mrtr.go: the confirm_preview tool, which asks for a confirmation with a state
-- that only the server can have made, and completes when the state comes back with an answer.
pub mod RoundTrip
use Prim.Native.String.{◌++◌ as append}
use mcp_from_scratch.Base.Text.{bytes_of}
use mcp_from_scratch.Base.Base64.{encode, decode}
use mcp_from_scratch.Environment.{Environment}
use mcp_from_scratch.Envelope.{ToolResult}
use mcp_from_scratch.Json.Decode.{as_struct, string_member, bool_member, struct_member}
use mcp_from_scratch.Json.Decode.{◌>>=◌}
use mcp_from_scratch.Protocol.Errors.{
  plain, quoting, decoding, new_error_with_data, missing_required_client_capability,
}
use mcp_from_scratch.Tools.{Tool, ToolInvocation, ToolError, protocol_error, plain_error}
use mcp_from_scratch.Base.{
  ℕ, String, Bool, true, false, not, ◌&&◌, ◌||◌, Option, none, some, List, [], ◌∷◌, ◌++◌, arith,
  ◌==◌, eqb, if◌then◌else◌, is_some, member, Map, lookup, Result, ok, err,
}
use mcp_from_scratch.Json.{Json, str, arr, obj, Fields, end, Raw, object, strings, get, is_empty}

abbrev pub confirm_preview_input_key : String
confirm_preview_input_key = "confirm_preview"

abbrev demo_request_state_key : String
demo_request_state_key = "mcp-from-scratch-confirm-preview-v1"

abbrev form_or_empty : Fields → Bool
form_or_empty elicitation = is_empty elicitation || is_some (get "form" elicitation)

abbrev supports_raw : Raw → Bool
supports_raw (some (obj elicitation)) = form_or_empty elicitation
supports_raw _ = false

unfoldable pub supports_form_elicitation : Option Fields → Bool
supports_form_elicitation none = false
supports_form_elicitation (some capabilities) = supports_raw (get "elicitation" capabilities)

object_schema : String → String → Json → Fields
object_schema member description type = object (
    ("type", str "object")
    ∷ (
      "properties",
      obj (
          object
            ((member, obj (object (("type", type) ∷ ("description", str description) ∷ []))) ∷ [])),
    )
    ∷ ("required", arr (strings (member ∷ [])))
    ∷ [])

pub text_result : String → ToolResult
text_result t = record {
  result_type = "";
  content = record { type = "text"; text = t } ∷ [];
  structured_content = none;
  is_error = false;
  input_requests = [];
  request_state = "";
}

pub data Answer : Type 0 where
  answer : String → Bool → Answer

-- The answer to the elicitation: its action and content.confirm.
unfoldable pub decode_answer : Json → Option Answer
decode_answer raw = do
  fields ← as_struct (some raw)
  action ← string_member "action" fields
  content ← struct_member "content" fields
  confirm ← bool_member "confirm" content
  some (answer action confirm)

unfoldable pub answered : String → Option Answer → Result ToolError ToolResult
unfolding text_result
answered preview none = err (plain_error (decoding "decode confirm_preview input response"))
answered preview (some (answer action confirm)) =
    if action == "accept"
    then ok (
        text_result
          (if confirm then append "confirmed preview: " preview else "preview was not confirmed"))
    else if action == "decline"
    then ok (text_result "preview declined")
    else if action == "cancel"
    then ok (text_result "preview canceled")
    else err (plain_error (quoting "invalid elicitation action " action ""))

same_bytes : List ℕ → List ℕ → Bool
same_bytes [] [] = true
same_bytes (a ∷ s) (b ∷ t) = eqb a b && same_bytes s t
same_bytes _ _ = false

abbrev no_responses : Map Json → Bool
no_responses [] = true
no_responses (r ∷ rs) = false

module _ (env : Environment) where
  unfoldable pub confirm_preview_state_digest : String → List ℕ
  unfolding bytes_of
  confirm_preview_state_digest preview =
      env.hmac_sha256 (bytes_of demo_request_state_key)
        (bytes_of confirm_preview_input_key ++ 0 ∷ bytes_of preview)

  unfoldable pub confirm_preview_state : String → String
  confirm_preview_state preview = encode (confirm_preview_state_digest preview)

  equals_digest : String → Option (List ℕ) → Bool
  unfolding same_bytes
  equals_digest preview none = false
  equals_digest preview (some decoded) = same_bytes decoded (confirm_preview_state_digest preview)

  unfoldable pub valid_confirm_preview_state : String → String → Bool
  unfolding equals_digest
  valid_confirm_preview_state preview state = equals_digest preview (decode state)

  unfoldable pub new_confirm_preview_input_required : String → ToolResult
  unfolding object_schema
  new_confirm_preview_input_required preview = record {
    result_type = "input_required";
    content = [];
    structured_content = none;
    is_error = false;
    input_requests =
        (
          confirm_preview_input_key,
          obj (
              object (
                ("method", str "elicitation/create")
                ∷ (
                  "params",
                  obj (
                      object (
                        ("mode", str "form")
                        ∷ ("message", str (append "Confirm this preview: " preview))
                        ∷ (
                          "requestedSchema",
                          obj (object_schema "confirm" "Confirm the preview." (str "boolean")),
                        )
                        ∷ [])),
                )
                ∷ [])),
        )
        ∷ [];
    request_state = confirm_preview_state preview;
  }

  respond : String → Option Json → Result ToolError ToolResult
  respond preview none = ok (new_confirm_preview_input_required preview)
  respond preview (some raw) = answered preview (decode_answer raw)

  confirm_decoded : ToolInvocation → Option String → Result ToolError ToolResult
  unfolding respond
  confirm_decoded invocation none = err (plain_error (decoding "decode confirm_preview arguments"))
  confirm_decoded invocation (some preview) =
      if no_responses invocation.input_responses
      then if not (invocation.request_state == "")
        then err (plain_error (plain "requestState requires inputResponses"))
        else ok (new_confirm_preview_input_required preview)
      else if invocation.request_state == ""
      then err (plain_error (plain "missing requestState"))
      else if not (valid_confirm_preview_state preview invocation.request_state)
      then err (plain_error (plain "invalid requestState"))
      else respond preview (lookup confirm_preview_input_key invocation.input_responses)

  abbrev decode_preview : Raw → Option String
  decode_preview raw = do fields ← as_struct raw; string_member "preview" fields

  unfoldable pub confirm_preview_call : ToolInvocation → Result ToolError ToolResult
  unfolding confirm_decoded
  confirm_preview_call invocation =
      if not (supports_form_elicitation invocation.client_capabilities)
      then err (
          protocol_error (
            new_error_with_data missing_required_client_capability
              "missing required client capability"
              (object (
                (
                  "requiredCapabilities",
                  obj (object (("elicitation", obj (object (("form", obj end) ∷ []))) ∷ [])),
                )
                ∷ []))))
      else confirm_decoded invocation (decode_preview invocation.arguments)

  unfoldable pub confirm_preview_tool : Tool
  unfolding object_schema
  confirm_preview_tool = record {
    definition = record {
      name = confirm_preview_input_key;
      description = "Preview an inert action and complete only after explicit confirmation.";
      input_schema =
          some
            (object_schema "preview" "Description of the inert action to confirm." (str "string"));
      output_schema = none;
    };
    call = confirm_preview_call;
  }
