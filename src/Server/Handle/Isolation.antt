-- ===== src/Server/Handle/Isolation.antt =====
-- What a request can do to the tasks of others.
use mcp_from_scratch.Context.{Ctx, execution_principal}
use mcp_from_scratch.Environment.{Environment}
use mcp_from_scratch.Metadata.{validate_request_metadata}
use mcp_from_scratch.Protocol.Errors.{RpcError, Message}
use mcp_from_scratch.Protocol.Requests.{Request}
use mcp_from_scratch.Tasks.{TaskRecord}
use mcp_from_scratch.Server.{Server}
use mcp_from_scratch.Server.TaskCalls.{Outcome}
use mcp_from_scratch.Server.TaskCalls.Isolation.{
  get_task_keeps, update_task_keeps, cancel_task_keeps, deferred_echo_keeps,
}
use mcp_from_scratch.Server.Handle.{
  handle, outcome, guarded, tools_call, dispatch, method_of, Method, discover, list_tools_method,
  list_resources_method, read_resource_method, list_prompts_method, get_prompt_method,
  call_tool_method, get_task_method, update_task_method, cancel_task_method, unknown,
}
use mcp_from_scratch.Server.Handle.Reading.{respond-state}
use mcp_from_scratch.Base.{
  ℕ, String, ◌≡◌, refl, ap, ◌∙◌, ◌≢◌, Option, none, some, List, lookup, Result,
}
use mcp_from_scratch.Json.{Raw}

module _ (k : String) (r : TaskRecord) where
  abbrev Holds : Server → Type 0
  Holds server = lookup k server.tasks ≡ some r

  module _ (env : Environment) where
    module _ (ctx : Ctx) (now : ℕ) (random : Result Message (List ℕ)) (p : String)
        (known : execution_principal ctx ≡ some p) (stranger : p ≢ r.owner) where
      tools_call_keeps :
          (raw : Raw) (server : Server) (o : Option Outcome)
          → Holds server
          → ((made : Outcome) → o ≡ some made → Holds made.1)
          → Holds (tools_call env ctx now random raw server o).1
      unfolding tools_call
      tools_call_keeps raw server none held kept = held
      tools_call_keeps raw server (some made) held kept = kept made refl

      dispatch_keeps :
          (method : Method) (raw : Raw) (server : Server)
          → Holds server
          → Holds (dispatch env ctx now random method raw server).1
      unfolding dispatch
      dispatch_keeps discover raw server held = held
      dispatch_keeps list_tools_method raw server held = held
      dispatch_keeps list_resources_method raw server held = held
      dispatch_keeps read_resource_method raw server held = held
      dispatch_keeps list_prompts_method raw server held = held
      dispatch_keeps get_prompt_method raw server held = held
      dispatch_keeps call_tool_method raw server held =
          tools_call_keeps raw server _ held (λ made h.
            deferred_echo_keeps k r env ctx now random p known stranger raw server made held h)
      dispatch_keeps get_task_method raw server held =
          get_task_keeps k r env ctx now random p known stranger raw server held
      dispatch_keeps update_task_method raw server held =
          update_task_keeps k r env ctx now random p known stranger raw server held
      dispatch_keeps cancel_task_method raw server held =
          cancel_task_keeps k r env ctx now random p known stranger raw server held
      dispatch_keeps unknown raw server held = held

      guarded_keeps :
          (e : Option RpcError) (method : Method) (raw : Raw) (server : Server)
          → Holds server
          → Holds (guarded env ctx now random e method raw server).1
      unfolding guarded
      guarded_keeps (some e) method raw server held = held
      guarded_keeps none method raw server held = dispatch_keeps method raw server held

-- No request of an authenticated principal, of any method, with any parameters and at any time,
-- changes or removes a task that belongs to another.
pub handle_keeps_foreign :
    (env : Environment) (ctx : Ctx) (now : ℕ) (random : Result Message (List ℕ)) (request : Request)
    (server : Server) (p k : String) (r : TaskRecord)
    → execution_principal ctx ≡ some p
    → p ≢ r.owner
    → lookup k server.tasks ≡ some r
    → lookup k (handle env ctx now random request server).1.tasks ≡ some r
unfolding handle outcome
handle_keeps_foreign env ctx now random request server p k r known stranger held =
    ap (λ (s : Server). lookup k s.tasks)
      (respond-state env ctx now random request (outcome env ctx now random request server))
    ∙ guarded_keeps k r env ctx now random p known stranger
        (validate_request_metadata request.params) (method_of request.method) request.params server
        held
