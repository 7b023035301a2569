-- ===== src/Server/Replies.antt =====
-- The results that the server marshals: discovery, the definitions of tools, and tasks.
use mcp_from_scratch.Base.Decimal.{ℤ, pos, negsuc, format_int}
use mcp_from_scratch.Environment.{Environment}
use mcp_from_scratch.Envelope.{result_meta, protocol_version, complete_result, cacheable_result}
use mcp_from_scratch.Protocol.Extensions.{Extensions, intersect_extensions}
use mcp_from_scratch.Protocol.Tasks.{
  DetailedTask, TaskInputRequest, Timestamp, empty, malformed, instant, status_text,
}
use mcp_from_scratch.Tools.{ToolDefinition, RegisteredTool}
use mcp_from_scratch.Protocol.Errors.{RpcError}
use mcp_from_scratch.Pages.{list_page, snapshot}
use mcp_from_scratch.Base.{
  ℕ, zero, suc, ◌*◌, String, true, Option, none, some, List, [], ◌∷◌, ◌++◌, map, ◌==◌,
  if◌then◌else◌, Map, Result,
}
use mcp_from_scratch.Json.{
  Json, null, bool, num, str, arr, obj, Fields, end, field, Raw, object, strings, omit_empty,
}

abbrev discovery_ttl_millis : ℕ
discovery_ttl_millis = 60 * 60 * 1000

abbrev list_changes : Json
list_changes = obj (object (("listChanged", bool true) ∷ []))

extensions_member : Extensions → List (String × Json)
extensions_member [] = []
extensions_member (e ∷ es) = ("extensions", obj (object (e ∷ es))) ∷ []

-- The case "server/discover" of Handle.
unfoldable pub discover_result : Extensions → Json
unfolding extensions_member
discover_result extensions = cacheable_result discovery_ttl_millis (
    ("supportedVersions", arr (strings (protocol_version ∷ [])))
    ∷ (
      "capabilities",
      obj (
          object (
            ("tools", list_changes)
            ∷ ("resources", list_changes)
            ∷ ("prompts", list_changes)
            ∷ ("logging", obj end)
            ∷ extensions_member (intersect_extensions extensions extensions))),
    )
    ∷ [])

abbrev nullable : Option Fields → Json
nullable none = null
nullable (some fs) = obj fs

abbrev output_schema_member : Option Fields → Fields
output_schema_member none = end
output_schema_member (some fs) = field "outputSchema" (obj fs) end

definition_json : ToolDefinition → Json
definition_json d = obj (
    field "name" (str d.name) (
      omit_empty "description" d.description
        (field "inputSchema" (nullable d.input_schema) (output_schema_member d.output_schema))))

unfoldable pub list_tools : Map RegisteredTool → Raw → Result RpcError Json
unfolding definition_json
list_tools tools =
    list_page "tools" definition_json (map (λ entry. entry.definition) (snapshot tools))

abbrev ttl_json : Option ℤ → Json
ttl_json none = null
ttl_json (some t) = num (format_int t)

abbrev poll_member : ℤ → List (String × Json)
poll_member (pos zero) = []
poll_member (pos (suc n)) = ("pollIntervalMs", num (format_int (pos (suc n)))) ∷ []
poll_member (negsuc n) = ("pollIntervalMs", num (format_int (negsuc n))) ∷ []

input_request_json : TaskInputRequest → Json
input_request_json r = obj (
    object (
      ("method", str r.method)
      ∷ (
        "params",
        obj (
            object (
              ("mode", str r.params.mode)
              ∷ ("message", str r.params.message)
              ∷ ("requestedSchema", obj r.params.requested_schema)
              ∷ [])),
      )
      ∷ []))

requests_member : Map TaskInputRequest → List (String × Json)
unfolding input_request_json
requests_member [] = []
requests_member (r ∷ rs) =
    ("inputRequests", obj (object (map (λ e. (e.0, input_request_json e.1)) (r ∷ rs)))) ∷ []

abbrev raw_member : String → Raw → List (String × Json)
raw_member k none = []
raw_member k (some v) = (k, v) ∷ []

abbrev text_member : String → String → List (String × Json)
text_member k s = if s == "" then [] else (k, str s) ∷ []

module _ (env : Environment) where
  time_text : Timestamp → String
  time_text empty = ""
  time_text (malformed s) = s
  time_text (instant t) = env.format_time t

  -- The members of a DetailedTask.
  unfoldable pub task_members : DetailedTask → List (String × Json)
  unfolding time_text requests_member
  task_members task =
      ("taskId", str task.task_id)
      ∷ ("status", str (status_text task.status))
      ∷ (text_member "statusMessage" task.status_message
          ++ (("createdAt", str (time_text task.created_at))
              ∷ ("lastUpdatedAt", str (time_text task.last_updated_at))
              ∷ ("ttlMs", ttl_json task.ttl_ms)
              ∷ (poll_member task.poll_interval_ms
                  ++ requests_member task.input_requests
                  ++ raw_member "result" task.result
                  ++ raw_member "error" task.error)))

  unfoldable pub task_result : DetailedTask → Json
  unfolding task_members
  task_result task = complete_result (task_members task)

  unfoldable pub create_task_result : DetailedTask → Json
  unfolding task_members
  create_task_result task =
      obj (object (("resultType", str "task") ∷ ("_meta", result_meta) ∷ task_members task))

pub empty_task_result : Json
empty_task_result = complete_result []
