-- ===== src/Tests.antt =====
-- Concrete inputs on which the theorems of the other modules are applied.
pub mod Store
pub mod Workflow
pub mod Wire
pub mod Guards
pub mod Transport
pub mod OauthClient
pub mod Observing
pub mod Clients
use mcp_from_scratch.Base.Decimal.{pos}
use mcp_from_scratch.Context.{Ctx}
use mcp_from_scratch.Environment.{Environment}
use mcp_from_scratch.Protocol.Tasks.{
  DetailedTask, TaskInputRequest, input_required, instant, tasks_extension_id,
}
use mcp_from_scratch.Protocol.Extensions.{Extensions}
use mcp_from_scratch.Tasks.{TaskRecord, deferred_echo_input_key}
use mcp_from_scratch.Server.{Server, deferred_echo_tool, deferred_echo_tool_name}
use mcp_from_scratch.Tools.{RegisteredTool}
use mcp_from_scratch.Base.{true, none, some, [], ◌∷◌, arith}
use mcp_from_scratch.Base.{◌>>=◌}
use mcp_from_scratch.Json.{Json, bool, str, obj, end, object}

abbrev pub alice : Ctx
alice = some (record { error = none; principal = some "alice" })

abbrev pub bob : Ctx
bob = some (record { error = none; principal = some "bob" })

abbrev pub toy_env : Environment
toy_env = record {
  resolves = λ schema. true;
  conforms = λ schema v. true;
  text_size = λ v. 20;
  hmac_sha256 = λ key message. 7 ∷ 99 ∷ 255 ∷ 0 ∷ [];
  format_time = λ t. "2026-07-28T00:00:00Z";
}

abbrev pub approval_request : TaskInputRequest
approval_request = record {
  method = "elicitation/create";
  params = record { mode = "form"; message = "Approve"; requested_schema = end };
}

abbrev pub waiting : DetailedTask
waiting = record {
  task_id = "t1";
  status = input_required;
  status_message = "approval is required";
  created_at = instant 1000;
  last_updated_at = instant 1000;
  ttl_ms = some (pos 5);
  poll_interval_ms = pos 25;
  input_requests = (deferred_echo_input_key, approval_request) ∷ [];
  input_responses = [];
  result = none;
  error = none;
}

abbrev pub alices : TaskRecord
alices = record { task = waiting; owner = "alice"; metadata = ("deferred_echo_text", "hello") ∷ [] }

-- {"action": "accept", "content": {"confirm": true}}
abbrev pub acceptance : Json
acceptance = obj (
    object
      (("action", str "accept") ∷ ("content", obj (object (("confirm", bool true) ∷ []))) ∷ []))

abbrev pub task_extensions : Extensions
task_extensions = (tasks_extension_id, obj end) ∷ []

-- The metadata of a client that negotiated the tasks extension.
abbrev pub request_meta : Json
request_meta = obj (
    object (
      ("io.modelcontextprotocol/protocolVersion", str "2026-07-28")
      ∷ (
        "io.modelcontextprotocol/clientCapabilities",
        obj (object (("extensions", obj (object ((tasks_extension_id, obj end) ∷ []))) ∷ [])),
      )
      ∷ []))

abbrev pub echo_entry : RegisteredTool
echo_entry = record {
  tool = deferred_echo_tool;
  definition = record {
    name = "deferred_echo";
    description = "";
    input_schema = some end;
    output_schema = none;
  };
  input_schema = end;
  output_schema = none;
}

abbrev pub toy_server : Server
toy_server = record {
  tools = (deferred_echo_tool_name, echo_entry) ∷ [];
  resources = [];
  prompts = [];
  registry = [];
  extensions = task_extensions;
  tasks = ("t1", alices) ∷ [];
}
