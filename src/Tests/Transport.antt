-- ===== src/Tests/Transport.antt =====
-- Calls over HTTP and the admission on stdio, on concrete inputs.
use mcp_from_scratch.Oauth.{unique_strings}
use mcp_from_scratch.Oauth.{required_scopes}
use mcp_from_scratch.Oauth.{missing_scopes}
use mcp_from_scratch.Oauth.{protected_operation}
use mcp_from_scratch.Oauth.{valid_claims}
use mcp_from_scratch.Base.Text.{words}
use mcp_from_scratch.Oauth.{parse_bearer_header}
use mcp_from_scratch.Oauth.{serve_protected}
use mcp_from_scratch.Stdio.{cancel_call}
use mcp_from_scratch.Stdio.{remove_subscription}
use mcp_from_scratch.Stdio.{register_id}
use mcp_from_scratch.Stdio.{remove_call}
use mcp_from_scratch.Stdio.{finish_call}
use mcp_from_scratch.Tasks.{expired}
use mcp_from_scratch.Context.{execution_principal}
use mcp_from_scratch.Metadata.{task_owner}
use mcp_from_scratch.Tasks.{lookup_locked}
use mcp_from_scratch.Context.{context_err}
use mcp_from_scratch.Tasks.{cancel}
use mcp_from_scratch.Base.Regex.{matches}
use mcp_from_scratch.Protocol.Extensions.{valid_extension_id}
use mcp_from_scratch.Protocol.Extensions.{validate}
use mcp_from_scratch.Metadata.{tasks_capability}
use mcp_from_scratch.Metadata.{tasks_enabled}
use mcp_from_scratch.Metadata.{task_capability_error}
use mcp_from_scratch.Server.TaskCalls.{cancel_task}
use mcp_from_scratch.Server.Handle.{method_of}
use mcp_from_scratch.Metadata.{validate_request_metadata}
use mcp_from_scratch.Server.Handle.{handle}
use mcp_from_scratch.Metadata.{log_level_rank}
use mcp_from_scratch.Metadata.{valid_progress_token}
use mcp_from_scratch.Http.{expected_name}
use mcp_from_scratch.Protocol.Requests.{method_uses_name_header}
use mcp_from_scratch.Metadata.{decode_meta}
use mcp_from_scratch.Json.Decode.{struct_member}
use mcp_from_scratch.Metadata.{decode_params}
use mcp_from_scratch.Http.{validate_http_headers}
use mcp_from_scratch.Protocol.Requests.{validate_request}
use mcp_from_scratch.Base.Decimal.{parse_int}
use mcp_from_scratch.Protocol.Ids.{unmarshal_id}
use mcp_from_scratch.Json.Decode.{string_member}
use mcp_from_scratch.Json.Decode.{as_struct}
use mcp_from_scratch.Protocol.Requests.{unmarshal_request}
use mcp_from_scratch.Http.{decoded_request}
use mcp_from_scratch.Base.Text.{before}
use mcp_from_scratch.Base.Text.{trim_space}
use mcp_from_scratch.Base.Text.{split}
use mcp_from_scratch.Http.{accepts_media_type}
use mcp_from_scratch.Base.Text.{equal_fold}
use mcp_from_scratch.Http.{valid_request_origin}
use mcp_from_scratch.Protocol.Tasks.{terminal}
use mcp_from_scratch.Tasks.{TaskRecord}
use mcp_from_scratch.Server.{Server}
use mcp_from_scratch.Http.{HttpCall, no_origin, single, serve}
use mcp_from_scratch.Http.Headers.{Admitted, serve-Admitted}
use mcp_from_scratch.Protocol.Ids.{RequestId, text}
use mcp_from_scratch.Stdio.{
  Connection, nothing, idle, calls, listens, cancels, call_ends, steps, serial_of, admit_listen,
  cancel_request, responds,
}
use mcp_from_scratch.Stdio.Bounds.{Within, steps-Within}
use mcp_from_scratch.Stdio.Cancellation.{cancelled_never_responds}
use mcp_from_scratch.Context.{with_execution_principal}
use mcp_from_scratch.Oauth.{principal_of, oauth_task_principal, serve_http}
use mcp_from_scratch.Http.Isolation.{delegated_keeps_foreign}
use mcp_from_scratch.Tests.Guards.{guard, validator, request, claims}
use mcp_from_scratch.Tests.{alices, alice, toy_env, request_meta, toy_server}
use mcp_from_scratch.Base.{
  ◌≡◌, ◌≢◌, ◌==◌, eq_iff, refl, ap, Bool, true, false, Option, none, some, [], ◌∷◌, arith, All,
  lookup, insert, ok,
}
use mcp_from_scratch.Json.{num, str, obj, object, get}

abbrev posted_cancel : HttpCall
posted_cancel = record {
  method = "POST";
  host = "localhost";
  origin = no_origin;
  content_type = some "application/json";
  accept = "application/json, text/event-stream" ∷ [];
  header_version = "2026-07-28";
  header_method = "tasks/cancel";
  header_name = "t1";
  body = single (
      obj (
        object (
          ("jsonrpc", str "2.0")
          ∷ ("id", num "7")
          ∷ ("method", str "tasks/cancel")
          ∷ ("params", obj (object (("_meta", request_meta) ∷ ("taskId", str "t1") ∷ [])))
          ∷ [])));
  can_flush = true;
}

abbrev is_over : Option TaskRecord → Bool
is_over none = false
is_over (some r) = terminal r.task.status

t1_over : Server → Bool
t1_over server = is_over (lookup "t1" server.tasks)

serve_over : t1_over (serve toy_env alice 2000 (ok []) posted_cancel toy_server).1 ≡ true
unfolding t1_over serve lookup valid_request_origin equal_fold accepts_media_type split trim_space
    before decoded_request unmarshal_request as_struct string_member get unmarshal_id parse_int
    validate_request validate_http_headers decode_params struct_member decode_meta
    method_uses_name_header expected_name valid_progress_token log_level_rank handle
    validate_request_metadata method_of cancel_task task_capability_error tasks_enabled
    tasks_capability validate valid_extension_id matches cancel context_err lookup_locked task_owner
    execution_principal expired terminal insert
serve_over = refl

toy_not_over : t1_over toy_server ≡ false
unfolding t1_over lookup terminal
toy_not_over = refl

serve-Admitted_example : Admitted posted_cancel
serve-Admitted_example =
    serve-Admitted toy_env alice 2000 (ok []) posted_cancel toy_server
      (λ same. cc (ap t1_over same, serve_over, toy_not_over))

other_owner_test : (oauth_task_principal claims == "alice") ≡ false
unfolding oauth_task_principal
other_owner_test = refl

other_owner : oauth_task_principal claims ≢ "alice"
other_owner e = ground (arith, eq_iff (oauth_task_principal claims) "alice", other_owner_test, e)

delegated_keeps_foreign_example :
    lookup "t1"
      (serve toy_env
        (with_execution_principal alice (oauth_task_principal claims))
        800
        (ok [])
        posted_cancel
        toy_server).1.tasks
    ≡ some alices
unfolding serve_http serve_protected parse_bearer_header words equal_fold valid_claims
    protected_operation missing_scopes required_scopes lookup principal_of unique_strings
delegated_keeps_foreign_example =
    delegated_keeps_foreign guard validator toy_env alice 800 (ok []) request posted_cancel
      toy_server (principal_of claims) (oauth_task_principal claims) "t1" alices refl other_owner
      refl

abbrev a : RequestId
a = text "a"

steps-Within_example : Within (steps (calls (some a) ∷ calls (some a) ∷ cancels a ∷ []) idle)
steps-Within_example = steps-Within (calls (some a) ∷ calls (some a) ∷ cancels a ∷ [])

abbrev in_flight : Connection
in_flight = record idle {
  active_ids = a ∷ [];
  active_calls = (a, 0) ∷ [];
  slots = record { serial = 0; id = some a; cancelled = false } ∷ [];
  next_serial = 1;
}

cancelled_never_responds_example :
    All
      (λ c. c.serial ≡ 0 → responds c ≡ false)
      (steps (calls (some a) ∷ []) (cancel_request a in_flight)).slots
unfolding serial_of
cancelled_never_responds_example =
    cancelled_never_responds 0 a in_flight (calls (some a) ∷ []) refl (omega arith)

-- A call is cancelled, its identifier is used for a subscription, and then the call ends.
abbrev reused : Connection
reused =
    steps
      (cancels a
        ∷ listens a none
        ∷ call_ends (record { serial = 0; id = some a; cancelled = true })
        ∷ [])
      in_flight

-- The subscription is active, and yet its identifier is free for a second one.
identifier_taken_twice :
    (serial_of a reused.active_subscriptions ≡ some 1) × ((admit_listen a none reused).0 ≡ nothing)
unfolding steps serial_of finish_call remove_call admit_listen register_id cancel_request
    remove_subscription cancel_call
identifier_taken_twice = (refl, refl)
