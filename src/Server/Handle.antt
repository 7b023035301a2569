-- ===== src/Server/Handle.antt =====
-- Handle of internal/mcpserver/server.go: one request, its reply, and the server as it leaves it.
-- The values that withObservabilityContext puts into the context only reach logs and progress
-- notifications, so it has no counterpart here.
pub mod Reading
pub mod Isolation
use mcp_from_scratch.Context.{Ctx}
use mcp_from_scratch.Environment.{Environment}
use mcp_from_scratch.Envelope.{ToolResult, marshal_tool_result}
use mcp_from_scratch.Metadata.{RequestMeta, decode_params, validate_request_metadata, entries}
use mcp_from_scratch.Protocol.Errors.{
  RpcError, Message, plain, quoting, decoding, new_error, invalid_params, method_not_found,
}
use mcp_from_scratch.Protocol.Requests.{Request, Response}
use mcp_from_scratch.Tools.{ToolError, protocol_error, plain_error, RegisteredTool, invoke}
use mcp_from_scratch.Catalogs.{list_resources, read_resource, list_prompts, get_prompt}
use mcp_from_scratch.Json.Decode.{string_member, map_member, members}
use mcp_from_scratch.Json.Decode.{◌>>=◌}
use mcp_from_scratch.Server.{Server}
use mcp_from_scratch.Server.Replies.{discover_result, list_tools}
use mcp_from_scratch.Server.TaskCalls.{
  Outcome, error_with, get_task, update_task, cancel_task, call_deferred_echo_task,
}
use mcp_from_scratch.Base.{
  ℕ, String, not, Option, none, some, List, arith, ◌==◌, if◌then◌else◌, Map, lookup, Result, ok,
  err,
}
use mcp_from_scratch.Json.{Json, Raw}
use mcp_from_scratch.Json.{get as get_member}

pub record ToolCallParams : Type 0 where
  pub meta : RequestMeta
  pub name : String
  pub arguments : Raw
  pub input_responses : Map Json
  pub request_state : String

abbrev decode_tool_call : Raw → Option ToolCallParams
decode_tool_call raw = do
  (fields, meta) ← decode_params raw
  name ← string_member "name" fields
  responses ← map_member "inputResponses" fields
  state ← string_member "requestState" fields
  some (record {
    meta = meta;
    name = name;
    arguments = get_member "arguments" fields;
    input_responses = entries (members responses);
    request_state = state;
  })

-- The methods that the switch tells apart.
pub data Method : Type 0 where
  discover list_tools_method list_resources_method read_resource_method : Method
  list_prompts_method get_prompt_method call_tool_method : Method
  get_task_method update_task_method cancel_task_method unknown : Method

unfoldable pub method_of : String → Method
method_of name =
    if name == "server/discover"
    then discover
    else if name == "tools/list"
    then list_tools_method
    else if name == "resources/list"
    then list_resources_method
    else if name == "resources/read"
    then read_resource_method
    else if name == "prompts/list"
    then list_prompts_method
    else if name == "prompts/get"
    then get_prompt_method
    else if name == "tools/call"
    then call_tool_method
    else if name == "tasks/get"
    then get_task_method
    else if name == "tasks/update"
    then update_task_method
    else if name == "tasks/cancel"
    then cancel_task_method
    else unknown

tool_rpc_error : ToolError → RpcError
tool_rpc_error (protocol_error e) = e
tool_rpc_error (plain_error m) = error_with invalid_params m

-- The result type is "complete" unless the tool set one.
finished : ToolResult → ToolResult
finished r = if r.result_type == "" then record r { result_type = "complete" } else r

tool_reply : Result ToolError ToolResult → Result RpcError Json
unfolding tool_rpc_error finished
tool_reply (err e) = err (tool_rpc_error e)
tool_reply (ok r) = ok (marshal_tool_result (finished r))

module _ (env : Environment) (ctx : Ctx) where
  call_named : ToolCallParams → Option RegisteredTool → Result ToolError ToolResult
  call_named params none = err (plain_error (quoting "unknown tool " params.name ""))
  call_named params (some entry) = invoke env params.name entry (record {
    context = ctx;
    arguments = params.arguments;
    input_responses = params.input_responses;
    request_state = params.request_state;
    client_capabilities = params.meta.client_capabilities;
  })

  call_tool_decoded : Map RegisteredTool → Option ToolCallParams → Result ToolError ToolResult
  unfolding call_named
  call_tool_decoded tools none = err (plain_error (decoding "decode tool call params"))
  call_tool_decoded tools (some params) =
      if params.name == ""
      then err (plain_error (plain "missing tool name"))
      else call_named params (lookup params.name tools)

  unfoldable pub call_tool : Map RegisteredTool → Raw → Result ToolError ToolResult
  unfolding call_tool_decoded
  call_tool tools raw = call_tool_decoded tools (decode_tool_call raw)

  module _ (now : ℕ) (random : Result Message (List ℕ)) where
    -- The case "tools/call".
    tools_call : Raw → Server → Option Outcome → Outcome
    unfolding tool_reply
    tools_call raw server (some outcome) = outcome
    tools_call raw server none = (tool_reply (call_tool server.tools raw), server)

    -- The switch.
    dispatch : Method → Raw → Server → Outcome
    unfolding tools_call
    dispatch discover raw server = (ok (discover_result server.extensions), server)
    dispatch list_tools_method raw server = (list_tools server.tools raw, server)
    dispatch list_resources_method raw server = (list_resources server.resources raw, server)
    dispatch read_resource_method raw server = (read_resource server.resources raw, server)
    dispatch list_prompts_method raw server = (list_prompts server.prompts raw, server)
    dispatch get_prompt_method raw server = (get_prompt server.prompts raw, server)
    dispatch call_tool_method raw server =
        tools_call raw server (call_deferred_echo_task env ctx now random raw server)
    dispatch get_task_method raw server = get_task env ctx now raw server
    dispatch update_task_method raw server = update_task env ctx now raw server
    dispatch cancel_task_method raw server = cancel_task env ctx now raw server
    dispatch unknown raw server = (err (new_error method_not_found "method not found"), server)

    guarded : Option RpcError → Method → Raw → Server → Outcome
    unfolding dispatch
    guarded (some e) method raw server = (err e, server)
    guarded none method raw server = dispatch method raw server

    pub respond : Request → Outcome → Response × Server
    respond request (err e, server) =
        (record { jsonrpc = "2.0"; id = request.id; result = none; error = some e }, server)
    respond request (ok v, server) =
        (record { jsonrpc = "2.0"; id = request.id; result = some v; error = none }, server)

    outcome : Request → Server → Outcome
    unfolding guarded
    outcome request server =
        guarded (validate_request_metadata request.params) (method_of request.method) request.params
          server

    unfoldable pub handle : Request → Server → Response × Server
    unfolding outcome respond
    handle request server = respond request (outcome request server)
