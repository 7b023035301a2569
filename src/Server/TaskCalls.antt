-- ===== src/Server/TaskCalls.antt =====
-- The task methods of internal/mcpserver/tasks.go: tasks/get, tasks/update, tasks/cancel, and the
-- tool call that creates a task. Each returns the reply and the server as it leaves it.
pub mod Isolation
pub mod RoundTrip
use Prim.Native.String.{◌++◌ as append}
use mcp_from_scratch.Base.Decimal.{pos}
use mcp_from_scratch.Base.Text.{hex}
use mcp_from_scratch.Context.{Ctx, ContextError, canceled, deadline_exceeded}
use mcp_from_scratch.Environment.{Environment}
use mcp_from_scratch.Metadata.{
  RequestMeta, decode_params, task_owner, task_capability_error, entries,
}
use mcp_from_scratch.Protocol.Errors.{
  RpcError, ErrorCode, Message, plain, wrapping, new_error, invalid_params, internal_error,
}
use mcp_from_scratch.Protocol.Tasks.{DetailedTask, input_required, instant}
use mcp_from_scratch.Tasks.{
  TaskRecord, Tasks, TaskError, not_found, expired_task, foreign, terminal_task, context, failure,
  create, get, update, cancel, deferred_echo_input_key,
}
use mcp_from_scratch.Subscriptions.{publish_task_changed}
use mcp_from_scratch.Json.Decode.{string_member, map_member, members}
use mcp_from_scratch.Json.Decode.{◌>>=◌}
use mcp_from_scratch.Server.{Server, deferred_echo_tool_name, text_argument}
use mcp_from_scratch.Server.Replies.{task_result, create_task_result, empty_task_result}
use mcp_from_scratch.Base.{
  ℕ, ◌*◌, String, not, ◌||◌, Option, none, some, List, [], ◌∷◌, arith, ◌==◌, if◌then◌else◌, is_some,
  Map, lookup, Result, ok, err,
}
use mcp_from_scratch.Json.{Json, str, arr, obj, Fields, Raw, object, strings}
use mcp_from_scratch.Json.{get as get_member}

abbrev pub Outcome : Type 0
Outcome = Result RpcError Json × Server

context_message : ContextError → Message
context_message canceled = plain "context canceled"
context_message deadline_exceeded = plain "context deadline exceeded"

-- err.Error()
pub task_message : TaskError → Message
unfolding context_message
task_message not_found = plain "task not found"
task_message expired_task = plain "task expired"
task_message foreign = plain "task belongs to another owner"
task_message terminal_task = plain "task is terminal"
task_message (context e) = context_message e
task_message (failure m) = m

abbrev pub error_with : ErrorCode → Message → RpcError
error_with code m = record { code = code; message = m; detail = none }

unfoldable pub task_protocol_error : TaskError → RpcError
unfolding context_message
task_protocol_error (context e) = error_with invalid_params (context_message e)
task_protocol_error (failure m) = error_with invalid_params m
task_protocol_error not_found = new_error invalid_params "invalid task"
task_protocol_error expired_task = new_error invalid_params "invalid task"
task_protocol_error foreign = new_error invalid_params "invalid task"
task_protocol_error terminal_task = new_error invalid_params "invalid task"

task_id_required : RpcError
task_id_required = new_error invalid_params "taskId is required"

abbrev json_entries : Map Json → Map Raw
json_entries [] = []
json_entries ((k, v) ∷ m) = (k, some v) ∷ json_entries m

-- GetTaskParams and CancelTaskParams.
abbrev pub task_params : Raw → Option (RequestMeta × String)
task_params raw = do
  (fields, meta) ← decode_params raw
  task_id ← string_member "taskId" fields
  some (meta, task_id)

-- UpdateTaskParams
abbrev pub update_params : Raw → Option (RequestMeta × String × Map Raw)
update_params raw = do
  (meta, task_id) ← task_params raw
  (fields, again) ← decode_params raw
  responses ← map_member "inputResponses" fields
  some (meta, task_id, json_entries (entries (members responses)))

-- An error that a check found ends the call.
unless_error : Option RpcError → Server → Outcome → Outcome
unless_error (some e) server next = (err e, server)
unless_error none server next = next

changed : Result TaskError TaskRecord × Tasks → Server → Outcome
unfolding task_protocol_error
changed (err e, left) server = (err (task_protocol_error e), record server { tasks = left })
changed (ok r, left) server = (
  ok empty_task_result,
  record server { tasks = left; registry = publish_task_changed r.owner r.task server.registry },
)

module _ (env : Environment) where
  shown : Result TaskError TaskRecord × Tasks → Server → Outcome
  unfolding task_protocol_error
  shown (err e, left) server = (err (task_protocol_error e), record server { tasks = left })
  shown (ok r, left) server = (ok (task_result env r.task), record server { tasks = left })

  module _ (ctx : Ctx) (now : ℕ) where
    get_decoded : Option (RequestMeta × String) → Server → Outcome
    unfolding task_id_required unless_error shown
    get_decoded none server = (err task_id_required, server)
    get_decoded (some (meta, task_id)) server =
        if task_id == ""
        then (err task_id_required, server)
        else unless_error (task_capability_error server.extensions meta) server
            (shown (get ctx task_id (task_owner ctx meta) now server.tasks) server)

    unfoldable pub get_task : Raw → Server → Outcome
    unfolding get_decoded
    get_task raw = get_decoded (task_params raw)

    update_decoded : Option (RequestMeta × String × Map Raw) → Server → Outcome
    unfolding task_id_required unless_error changed
    update_decoded none server = (err task_id_required, server)
    update_decoded (some (meta, task_id, responses)) server =
        if task_id == ""
        then (err task_id_required, server)
        else unless_error (task_capability_error server.extensions meta) server
            (changed (update ctx task_id (task_owner ctx meta) responses now server.tasks) server)

    unfoldable pub update_task : Raw → Server → Outcome
    unfolding update_decoded
    update_task raw = update_decoded (update_params raw)

    cancel_decoded : Option (RequestMeta × String) → Server → Outcome
    unfolding task_id_required unless_error changed
    cancel_decoded none server = (err task_id_required, server)
    cancel_decoded (some (meta, task_id)) server =
        if task_id == ""
        then (err task_id_required, server)
        else unless_error (task_capability_error server.extensions meta) server
            (changed (cancel ctx task_id (task_owner ctx meta) now server.tasks) server)

    unfoldable pub cancel_task : Raw → Server → Outcome
    unfolding cancel_decoded
    cancel_task raw = cancel_decoded (task_params raw)

  -- The task that a deferred echo of a text creates.
  unfoldable pub deferred_task : String → String → ℕ → DetailedTask
  deferred_task task_id text now = record {
    task_id = task_id;
    status = input_required;
    status_message = "approval is required";
    created_at = instant now;
    last_updated_at = instant now;
    ttl_ms = some (pos (5 * 60 * 1000));
    poll_interval_ms = pos 25;
    input_requests =
        (
          deferred_echo_input_key,
          record {
            method = "elicitation/create";
            params = record {
              mode = "form";
              message = append "Approve deferred echo: " text;
              requested_schema = object (
                  ("type", str "object")
                  ∷ (
                    "properties",
                    obj (object (("confirm", obj (object (("type", str "boolean") ∷ []))) ∷ [])),
                  )
                  ∷ ("required", arr (strings ("confirm" ∷ [])))
                  ∷ []);
            };
          },
        )
        ∷ [];
    input_responses = [];
    result = none;
    error = none;
  }

  abbrev pub deferred_record : String → String → String → ℕ → TaskRecord
  deferred_record task_id owner text now = record {
    task = deferred_task task_id text now;
    owner = owner;
    metadata = ("deferred_echo_text", text) ∷ [];
  }

  stored : TaskRecord → Result TaskError (Unit {0}) × Tasks → Server → Outcome
  unfolding task_message
  stored r (err e, left) server =
      (err (error_with internal_error (task_message e)), record server { tasks = left })
  stored r (ok u, left) server = (
    ok (create_task_result env r.task),
    record server { tasks = left; registry = publish_task_changed r.owner r.task server.registry },
  )

  module _ (ctx : Ctx) (now : ℕ) (random : Result Message (List ℕ)) where
    -- newTaskID, then the creation.
    identified : String → String → Result Message (List ℕ) → Server → Outcome
    unfolding stored
    identified owner text (err m) server =
        (err (error_with internal_error (wrapping "generate task ID" m)), server)
    identified owner text (ok bytes) server =
        let r = deferred_record (hex bytes) owner text now in
        stored r (create ctx r server.tasks) server

    with_text : String → Option String → Server → Outcome
    unfolding identified
    with_text owner none server =
        (err (new_error invalid_params "deferred_echo requires a non-empty text"), server)
    with_text owner (some text) server =
        if text == ""
        then (err (new_error invalid_params "deferred_echo requires a non-empty text"), server)
        else identified owner text random server

    deferred : Fields → RequestMeta → Server → Outcome
    unfolding with_text unless_error
    deferred fields meta server =
        unless_error (task_capability_error server.extensions meta) server (
          if task_owner ctx meta == ""
          then (err (new_error invalid_params "clientInfo.name is required for tasks"), server)
          else with_text (task_owner ctx meta) (text_argument (get_member "arguments" fields))
              server)

    named_deferred : Fields → RequestMeta → Option String → Server → Option Outcome
    unfolding deferred
    named_deferred fields meta none server = none
    named_deferred fields meta (some name) server =
        if not (name == deferred_echo_tool_name)
          || not (is_some (lookup deferred_echo_tool_name server.tools))
        then none
        else some (deferred fields meta server)

    call_decoded : Option (Fields × RequestMeta) → Server → Option Outcome
    unfolding named_deferred
    call_decoded none server = none
    call_decoded (some (fields, meta)) server =
        named_deferred fields meta (string_member "name" fields) server

    -- `none` if the call is not one of the deferred echo.
    unfoldable pub call_deferred_echo_task : Raw → Server → Option Outcome
    unfolding call_decoded
    call_deferred_echo_task raw = call_decoded (decode_params raw)
