-- ===== src/Server/Handle/Reading.antt =====
-- Methods of Handle that only read.
use mcp_from_scratch.Context.{Ctx}
use mcp_from_scratch.Environment.{Environment}
use mcp_from_scratch.Metadata.{validate_request_metadata}
use mcp_from_scratch.Protocol.Errors.{RpcError, Message}
use mcp_from_scratch.Protocol.Requests.{Request}
use mcp_from_scratch.Server.{Server}
use mcp_from_scratch.Server.TaskCalls.{Outcome}
use mcp_from_scratch.Server.Handle.{
  handle, respond, outcome, guarded, dispatch, method_of, Method, discover, list_tools_method,
  list_resources_method, read_resource_method, list_prompts_method, get_prompt_method,
  call_tool_method, get_task_method, update_task_method, cancel_task_method, unknown,
}
use mcp_from_scratch.Base.{
  ℕ, ◌≡◌, refl, ◌∙◌, Bool, true, false, Option, none, some, List, Result, ok, err,
}
use mcp_from_scratch.Json.{Raw}

-- The methods that reach the task repository.
abbrev pub reaches_tasks : Method → Bool
reaches_tasks call_tool_method = true
reaches_tasks get_task_method = true
reaches_tasks update_task_method = true
reaches_tasks cancel_task_method = true
reaches_tasks _ = false

module _ (env : Environment) (ctx : Ctx) (now : ℕ) (random : Result Message (List ℕ)) where
  pub respond-state :
      (request : Request) (o : Outcome) → (respond env ctx now random request o).1 ≡ o.1
  unfolding respond
  respond-state request (err e, server) = refl
  respond-state request (ok v, server) = refl

  dispatch_reads :
      (method : Method) (raw : Raw) (server : Server)
      → reaches_tasks method ≡ false
      → (dispatch env ctx now random method raw server).1 ≡ server
  unfolding dispatch
  dispatch_reads discover raw server h = refl
  dispatch_reads list_tools_method raw server h = refl
  dispatch_reads list_resources_method raw server h = refl
  dispatch_reads read_resource_method raw server h = refl
  dispatch_reads list_prompts_method raw server h = refl
  dispatch_reads get_prompt_method raw server h = refl
  dispatch_reads call_tool_method raw server h = absurd (cc)
  dispatch_reads get_task_method raw server h = absurd (cc)
  dispatch_reads update_task_method raw server h = absurd (cc)
  dispatch_reads cancel_task_method raw server h = absurd (cc)
  dispatch_reads unknown raw server h = refl

  guarded_reads :
      (e : Option RpcError) (method : Method) (raw : Raw) (server : Server)
      → reaches_tasks method ≡ false
      → (guarded env ctx now random e method raw server).1 ≡ server
  unfolding guarded
  guarded_reads (some e) method raw server h = refl
  guarded_reads none method raw server h = dispatch_reads method raw server h

-- A request for any method but tools/call and the task methods leaves the server as it is.
handle_reads :
    (env : Environment) (ctx : Ctx) (now : ℕ) (random : Result Message (List ℕ)) (request : Request)
    (server : Server)
    → reaches_tasks (method_of request.method) ≡ false
    → (handle env ctx now random request server).1 ≡ server
unfolding handle outcome
handle_reads env ctx now random request server h =
    respond-state env ctx now random request (outcome env ctx now random request server)
    ∙ guarded_reads env ctx now random (validate_request_metadata request.params)
        (method_of request.method) request.params server h
