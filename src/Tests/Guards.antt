-- ===== src/Tests/Guards.antt =====
-- Tools, the confirmation and the resource server on concrete inputs.
use mcp_from_scratch.Oauth.{is_metadata_request}
use mcp_from_scratch.Tools.{validate_json_depth}
use mcp_from_scratch.Tools.{validate_tool_arguments}
use mcp_from_scratch.Oauth.{unique_strings}
use mcp_from_scratch.Oauth.{missing_scopes}
use mcp_from_scratch.Oauth.{protected_operation}
use mcp_from_scratch.Oauth.{valid_claims}
use mcp_from_scratch.Base.Text.{equal_fold}
use mcp_from_scratch.Base.Text.{words}
use mcp_from_scratch.Oauth.{parse_bearer_header}
use mcp_from_scratch.Oauth.{serve_protected}
use mcp_from_scratch.Confirmation.{answered}
use mcp_from_scratch.Confirmation.{valid_confirm_preview_state}
use mcp_from_scratch.Base.Base64.{encode}
use mcp_from_scratch.Json.Decode.{bool_member}
use mcp_from_scratch.Json.Decode.{struct_member}
use mcp_from_scratch.Confirmation.{decode_answer}
use mcp_from_scratch.Json.Decode.{string_member}
use mcp_from_scratch.Json.Decode.{as_struct}
use mcp_from_scratch.Confirmation.{supports_form_elicitation}
use Prim.Native.String.{◌++◌ as append}
use mcp_from_scratch.Base.Base64.{decode}
use mcp_from_scratch.Tools.{ToolInvocation, RegisteredTool, invoke}
use mcp_from_scratch.Tools.Calls.{ArgumentsFit, OutputFits, invoke-ok}
use mcp_from_scratch.Server.{echo_tool}
use mcp_from_scratch.Confirmation.{
  confirm_preview_call, confirm_preview_input_key, confirm_preview_state,
  confirm_preview_state_digest, new_confirm_preview_input_required, text_result,
}
use mcp_from_scratch.Confirmation.RoundTrip.{confirm_round_trip, confirm_needs_state}
use mcp_from_scratch.Oauth.{
  TokenClaims, ResourceServerConfig, ResourceServer, Url, HttpRequest, no_body, serve_http,
  delegated, principal_of, oauth_task_principal, required_scopes,
}
use mcp_from_scratch.Oauth.Access.{Bound, Granted, delegated-Granted, granted_delegated}
use mcp_from_scratch.Oauth.Policy.{new_resource_server, required_scopes_advertised}
use mcp_from_scratch.Tests.{alice, toy_env, acceptance}
use mcp_from_scratch.Base.{
  String, ◌≡◌, refl, true, false, Option, none, some, [], ◌∷◌, arith, ◌==◌, if◌then◌else◌, lookup,
  ok, member, All,
}
use mcp_from_scratch.Json.{str, obj, Fields, end, field, get}

abbrev echo : RegisteredTool
echo = record {
  tool = echo_tool "echo";
  definition = record {
    name = "echo";
    description = "";
    input_schema = some end;
    output_schema = none;
  };
  input_schema = end;
  output_schema = none;
}

abbrev echo_arguments : Fields
echo_arguments = field "text" (str "hi") end

abbrev echo_invocation : ToolInvocation
echo_invocation = record {
  context = alice;
  arguments = some (obj echo_arguments);
  input_responses = [];
  request_state = "";
  client_capabilities = some end;
}

invoke-ok_example :
    (fs : Fields) × (echo_invocation.arguments ≡ some (obj fs))
    × ArgumentsFit toy_env end fs
    × (echo.tool.call echo_invocation ≡ ok (text_result "hi"))
    × OutputFits toy_env none none
unfolding invoke validate_tool_arguments validate_json_depth echo_tool as_struct string_member get
invoke-ok_example = invoke-ok toy_env "echo" echo echo_invocation (text_result "hi") refl

abbrev confirming : ToolInvocation
confirming = record {
  context = alice;
  arguments = some (obj (field "preview" (str "plan") end));
  input_responses = [];
  request_state = "";
  client_capabilities = some (field "elicitation" (obj end) end);
}

confirm_round_trip_example :
    let asked = new_confirm_preview_input_required toy_env "plan" in
    (confirm_preview_call toy_env confirming ≡ ok asked)
    × (confirm_preview_call toy_env (record confirming {
      request_state = asked.request_state;
      input_responses = (confirm_preview_input_key, acceptance) ∷ [];
    })
        ≡ ok (text_result (append "confirmed preview: " "plan")))
unfolding supports_form_elicitation get as_struct string_member confirm_preview_state_digest
    decode_answer struct_member bool_member
confirm_round_trip_example =
    confirm_round_trip toy_env "plan" confirming acceptance refl refl refl refl
      (omega arith, (omega arith, (omega arith, (omega arith, tt)))) (λ e. cc) refl

abbrev answering : ToolInvocation
answering = record confirming {
  request_state = confirm_preview_state toy_env "plan";
  input_responses = (confirm_preview_input_key, acceptance) ∷ [];
}

confirm_needs_state_example :
    decode (confirm_preview_state toy_env "plan")
    ≡ some (confirm_preview_state_digest toy_env "plan")
unfolding as_struct string_member get confirm_preview_call supports_form_elicitation
    confirm_preview_state encode confirm_preview_state_digest valid_confirm_preview_state decode
    lookup answered decode_answer struct_member bool_member
confirm_needs_state_example =
    confirm_needs_state toy_env "plan" answering (text_result "confirmed preview: plan") refl
      (λ e. cc) refl

abbrev pub claims : TokenClaims
claims = record {
  active = true;
  expires_at = some 900;
  issuer = "https://issuer";
  audience = "https://mcp" ∷ [];
  scopes = "tools" ∷ "tools" ∷ "read" ∷ [];
  subject = "alice";
}

abbrev plain_url : Url
plain_url = record {
  scheme = "https";
  hostname = "mcp";
  has_user = false;
  fragment = "";
  path = "/metadata";
  raw_query = "";
}

abbrev config : ResourceServerConfig
config = record {
  canonical_resource_uri = "https://mcp";
  protected_resource_metadata_url = "https://mcp/metadata";
  authorization_servers = "https://issuer" ∷ [];
  scopes_supported = "tools" ∷ "read" ∷ [];
  method_scopes = ("tools/call:echo", "tools" ∷ []) ∷ ("tools/call", "tools" ∷ "read" ∷ []) ∷ [];
}

abbrev pub guard : ResourceServer
guard = record { config = config; metadata_url = plain_url; policy = config.method_scopes }

abbrev pub validator : String → Option TokenClaims
validator t = if t == "secret" then some claims else none

abbrev pub request : HttpRequest
request = record {
  method = "POST";
  path = "/mcp";
  raw_query = "";
  access_token_in_query = false;
  authorization = "Bearer secret" ∷ [];
  mcp_method = "tools/call";
  mcp_name = "echo";
  body = no_body;
}

delegated-Granted_example :
    Granted guard validator 100 request (principal_of claims) (oauth_task_principal claims)
unfolding serve_http serve_protected parse_bearer_header words equal_fold valid_claims
    protected_operation missing_scopes required_scopes lookup principal_of unique_strings
delegated-Granted_example =
    delegated-Granted guard validator 100 request (principal_of claims)
      (oauth_task_principal claims) refl

claims_Bound : Bound config 100 claims
claims_Bound = record {
  is_active = refl;
  names_subject = λ e. cc;
  is_live = (900, refl, omega arith);
  issuer_trusted = refl;
  audience_named = refl;
}

granted_delegated_example :
    serve_http guard validator 100 request
    ≡ delegated (principal_of claims) (oauth_task_principal claims)
unfolding is_metadata_request parse_bearer_header words equal_fold protected_operation
    required_scopes lookup
granted_delegated_example =
    granted_delegated guard validator 100 request claims "secret" "tools/call" "echo" refl refl refl
      refl claims_Bound (λ e. cc) refl (refl, tt)

abbrev url_parser : String → Option Url
url_parser s = some plain_url

required_scopes_advertised_example :
    All
      (λ s. member s config.scopes_supported ≡ true)
      (required_scopes guard.policy "tools/call" "echo")
unfolding new_resource_server
required_scopes_advertised_example =
    required_scopes_advertised url_parser true true config guard "tools/call" "echo" refl (λ e. cc)
