-- ===== src/Tests/Workflow.antt =====
-- Requests to the server on concrete inputs.
use mcp_from_scratch.Tasks.{expired}
use mcp_from_scratch.Tasks.{lookup_locked}
use mcp_from_scratch.Context.{context_err}
use mcp_from_scratch.Server.Listen.{readable}
use mcp_from_scratch.Base.Regex.{matches}
use mcp_from_scratch.Protocol.Extensions.{valid_extension_id}
use mcp_from_scratch.Protocol.Extensions.{validate}
use mcp_from_scratch.Metadata.{tasks_capability}
use mcp_from_scratch.Metadata.{tasks_enabled}
use mcp_from_scratch.Metadata.{task_capability_error}
use mcp_from_scratch.Json.Decode.{strings_member}
use mcp_from_scratch.Json.Decode.{bool_member}
use mcp_from_scratch.Json.Decode.{string_member}
use mcp_from_scratch.Metadata.{decode_meta}
use mcp_from_scratch.Json.Decode.{struct_member}
use mcp_from_scratch.Json.Decode.{as_struct}
use mcp_from_scratch.Metadata.{decode_params}
use mcp_from_scratch.Base.Decimal.{pos}
use mcp_from_scratch.Base.Text.{hex}
use mcp_from_scratch.Context.{execution_principal}
use mcp_from_scratch.Metadata.{RequestMeta, task_owner, validate_request_metadata}
use mcp_from_scratch.Protocol.Errors.{Message}
use mcp_from_scratch.Protocol.Ids.{number, text}
use mcp_from_scratch.Protocol.Requests.{Request}
use mcp_from_scratch.Tasks.{TaskRecord, deferred_echo_input_key}
use mcp_from_scratch.Server.{Server}
use mcp_from_scratch.Server.TaskCalls.RoundTrip.{deferred_echo_round_trip, echoed_record, set_task}
use mcp_from_scratch.Server.TaskCalls.{
  call_deferred_echo_task, update_task, get_task, deferred_record,
}
use mcp_from_scratch.Server.Replies.{create_task_result, empty_task_result, task_result}
use mcp_from_scratch.Server.Handle.{handle}
use mcp_from_scratch.Server.Handle.Isolation.{handle_keeps_foreign}
use mcp_from_scratch.Server.Listen.{subscribe, decode_listen}
use mcp_from_scratch.Server.Listen.Ownership.{Readable, subscribe_follows_own}
use mcp_from_scratch.Subscriptions.{
  SubscriptionFilter, open_subscription, subscription_acknowledged_notification,
}
use mcp_from_scratch.Legacy.{StdioCompatibilityState, unknown_era, legacy_era, classify_stdio_era}
use mcp_from_scratch.Legacy.Lifecycle.{session, first_request_decides}
use mcp_from_scratch.Tasks.{get as task_get}
use mcp_from_scratch.Json.Decode.{map_member}
use mcp_from_scratch.Tasks.{approves}
use mcp_from_scratch.Envelope.{marshal_tool_result}
use mcp_from_scratch.Protocol.Tasks.{completed}
use mcp_from_scratch.Tasks.{text_result}
use mcp_from_scratch.Tests.{alice, bob, toy_env, alices, acceptance, request_meta, toy_server}
use mcp_from_scratch.Base.{
  ℕ, String, ◌≡◌, refl, false, none, some, List, [], ◌∷◌, arith, All, lookup, Result, ok, err,
}
use mcp_from_scratch.Json.{Json, null, str, arr, obj, nil, Fields, end, Raw, object, strings, get}

abbrev no_random : Result Message (List ℕ)
no_random = ok []

abbrev params_with : List (String × Json) → Raw
params_with rest = some (obj (object (("_meta", request_meta) ∷ rest)))

abbrev request_for : String → List (String × Json) → Request
request_for method rest = record {
  jsonrpc = "2.0";
  id = some (number (pos 7));
  method = method;
  params = params_with rest;
  id_null = false;
}

abbrev cancel_t1 : Request
cancel_t1 = request_for "tasks/cancel" (("taskId", str "t1") ∷ [])

handle_keeps_foreign_example :
    lookup "t1" (handle toy_env bob 2000 no_random cancel_t1 toy_server).1.tasks ≡ some alices
unfolding execution_principal lookup
handle_keeps_foreign_example =
    handle_keeps_foreign toy_env bob 2000 no_random cancel_t1 toy_server "bob" "t1" alices refl
      (λ e. cc) refl

abbrev call_params : Raw
call_params =
    params_with
      (("name", str "deferred_echo") ∷ ("arguments", obj (object (("text", str "hi") ∷ []))) ∷ [])

abbrev update_request : Raw
update_request = params_with (
    ("taskId", str "0a0b")
    ∷ ("inputResponses", obj (object ((deferred_echo_input_key, acceptance) ∷ [])))
    ∷ [])

abbrev get_request : Raw
get_request = params_with (("taskId", str "0a0b") ∷ [])

abbrev fields_of : Raw → Fields
fields_of (some (obj fs)) = fs
fields_of _ = end

abbrev negotiated : RequestMeta
negotiated = record {
  protocol_version = "2026-07-28";
  client_info = none;
  client_capabilities = some (
      object (("extensions", obj (object (("io.modelcontextprotocol/tasks", obj end) ∷ []))) ∷ []));
  trace_parent = "";
  trace_state = "";
  baggage = "";
  log_level = "";
  progress_token = none;
}

abbrev echo_task : TaskRecord
echo_task = deferred_record toy_env (hex (10 ∷ 11 ∷ [])) (task_owner alice negotiated) "hi" 1000

abbrev echo_done : TaskRecord
echo_done =
    echoed_record toy_env (hex (10 ∷ 11 ∷ [])) (task_owner alice negotiated) "hi" 1000
      (some acceptance) 2000

abbrev asked_server : Server
asked_server = set_task (hex (10 ∷ 11 ∷ [])) echo_task toy_server

abbrev finished_server : Server
finished_server = set_task (hex (10 ∷ 11 ∷ [])) echo_done asked_server

deferred_echo_round_trip_example :
    (call_deferred_echo_task toy_env alice 1000 (ok (10 ∷ 11 ∷ [])) call_params toy_server
      ≡ some (ok (create_task_result toy_env echo_task.task), asked_server))
    × (update_task toy_env alice 2000 update_request asked_server
        ≡ (ok empty_task_result, finished_server))
    × (get_task toy_env alice 3000 get_request finished_server
        ≡ (ok (task_result toy_env echo_done.task), finished_server))
    × (echo_done.task.status ≡ completed)
    × (echo_done.task.result ≡ some (marshal_tool_result (text_result "hi")))
unfolding context_err decode_params as_struct struct_member get decode_meta string_member lookup
    task_capability_error tasks_enabled tasks_capability validate valid_extension_id matches
    task_owner execution_principal hex map_member approves bool_member
deferred_echo_round_trip_example =
    deferred_echo_round_trip toy_env toy_server (10 ∷ 11 ∷ []) "hi" (some acceptance) alice alice
      alice 1000 2000 3000 call_params update_request get_request (fields_of call_params) negotiated
      negotiated negotiated refl refl refl refl refl (λ e. cc) refl (λ e. cc) (λ e. cc) refl refl
      refl refl refl (λ e. cc) refl (omega arith) refl refl refl refl (omega arith)

abbrev listen_params : Raw
listen_params =
    params_with
      (("notifications", obj (object (("taskIds", arr (strings ("t1" ∷ "t2" ∷ []))) ∷ []))) ∷ [])

abbrev follows : SubscriptionFilter
follows = record {
  tools_list_changed = false;
  resources_list_changed = false;
  prompts_list_changed = false;
  task_ids = "t1" ∷ [];
}

subscribe_follows_own_example :
    (meta : RequestMeta) × (filter : SubscriptionFilter) × (decode_listen listen_params
      ≡ some (meta, filter))
    × ("alice" ≡ task_owner alice meta)
    × All (Readable toy_server.tasks (task_owner alice meta) 2000) ("t1" ∷ [])
unfolding subscribe validate_request_metadata decode_params as_struct struct_member get decode_meta
    string_member bool_member strings_member task_capability_error tasks_enabled lookup
    tasks_capability validate valid_extension_id matches readable task_owner task_get
    execution_principal context_err lookup_locked expired open_subscription
subscribe_follows_own_example =
    subscribe_follows_own alice 2000 (text "s") listen_params toy_server
      (open_subscription (text "s") follows "alice")
      (subscription_acknowledged_notification (text "s") follows) refl

abbrev initialize : Request
initialize = record (request_for "initialize" []) { params = some (obj end) }

abbrev fresh : StdioCompatibilityState
fresh = record { era = unknown_era; legacy_initialized = false }

first_request_decides_example :
    (session toy_env alice
      ((1, no_random, initialize) ∷ (2, no_random, cancel_t1) ∷ [])
      fresh
      toy_server).0.era
    ≡ classify_stdio_era initialize
first_request_decides_example =
    first_request_decides toy_env alice 1 no_random initialize ((2, no_random, cancel_t1) ∷ [])
      fresh toy_server refl

abbrev legacy_state : StdioCompatibilityState
legacy_state = record { era = legacy_era; legacy_initialized = false }

abbrev legacy_fields : Fields
legacy_fields = object (("name", str "echo") ∷ ("_meta", str "old") ∷ [])

abbrev result_or_null : Result Message Json → Json
result_or_null (ok v) = v
result_or_null (err m) = null

abbrev modern_result : Fields
modern_result = object (("resultType", str "complete") ∷ ("_meta", null) ∷ ("tools", arr nil) ∷ [])
