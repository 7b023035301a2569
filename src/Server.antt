-- ===== src/Server.antt =====
-- The server of internal/mcpserver/server.go: its state and the calls that set it up. The modules
-- below answer requests. A call is one step on the state; the mutexes of the source only make its
-- parts atomic.
pub mod Replies
pub mod TaskCalls
pub mod Handle
pub mod Listen
use mcp_from_scratch.Environment.{Environment}
use mcp_from_scratch.Envelope.{ToolResult}
use mcp_from_scratch.Protocol.Errors.{Message, plain, decoding}
use mcp_from_scratch.Protocol.Extensions.{Extensions, validate, intersect_extensions}
use mcp_from_scratch.Tasks.{Tasks}
use mcp_from_scratch.Tools.{
  Tool, ToolInvocation, ToolError, plain_error, RegisteredTool, register_tool,
}
use mcp_from_scratch.Catalogs.{
  Resource, Prompt, PromptArgument, Render, register_resource, register_prompt, default_resources,
  default_prompts,
}
use mcp_from_scratch.Confirmation.{confirm_preview_tool, text_result}
use mcp_from_scratch.Subscriptions.{
  Registry, ListChangeKind, tool_list_change, resource_list_change, prompt_list_change,
  publish_list_changed,
}
use mcp_from_scratch.Json.Decode.{as_struct, string_member}
use mcp_from_scratch.Json.Decode.{◌>>=◌ as bind}
use mcp_from_scratch.Base.{String, Option, none, some, List, [], ◌∷◌, arith, Map, Result, ok, err}
use mcp_from_scratch.Base.{◌>>=◌}
use mcp_from_scratch.Json.{str, arr, obj, Fields, end, field, Raw, object, strings, omit_empty}

-- The resources and prompts are there from the first use on, so from the start here.
pub record Server : Type 0 where
  pub tools : Map RegisteredTool
  pub resources : Map Resource
  pub prompts : Map Prompt
  pub registry : Registry
  pub extensions : Extensions
  pub tasks : Tasks

-- A string-typed property of an object schema, with its description unless it has none.
text_schema : String → Fields
text_schema description = object (
    ("type", str "object")
    ∷ (
      "properties",
      obj (
          object (
            ("text", obj (field "type" (str "string") (omit_empty "description" description end)))
            ∷ [])),
    )
    ∷ ("required", arr (strings ("text" ∷ [])))
    ∷ [])

abbrev pub text_argument : Raw → Option String
text_argument raw = bind (as_struct raw) λ fields. string_member "text" fields

echoed : Option String → Result ToolError ToolResult
echoed none = err (plain_error (decoding "decode echo arguments"))
echoed (some text) = ok (text_result text)

unfoldable pub echo_call : ToolInvocation → Result ToolError ToolResult
unfolding echoed
echo_call invocation = echoed (text_argument invocation.arguments)

unfoldable pub echo_tool : String → Tool
unfolding text_schema echo_call
echo_tool name = record {
  definition = record {
    name = name;
    description = "Return the text argument back to the caller.";
    input_schema = some (text_schema "Text to return.");
    output_schema = none;
  };
  call = echo_call;
}

abbrev pub deferred_echo_tool_name : String
deferred_echo_tool_name = "deferred_echo"

unfoldable pub deferred_echo_tool : Tool
unfolding text_schema
deferred_echo_tool = record {
  definition = record {
    name = deferred_echo_tool_name;
    description = "Create a durable task that waits for approval before echoing.";
    input_schema = some (text_schema "");
    output_schema = none;
  };
  call = λ invocation.
      err (plain_error (plain "deferred_echo must be invoked through the Tasks extension"));
}

-- SetExtensions
unfoldable pub set_extensions : Extensions → Server → Result Message Server
set_extensions extensions server = do
  _ ← validate extensions
  ok (record server { extensions = intersect_extensions extensions extensions })

announce : ListChangeKind → Server → Server
announce kind server = record server { registry = publish_list_changed kind server.registry }

-- RegisterResource and RegisterPrompt
unfoldable pub add_resource : Resource → Server → Result Message Server
unfolding announce
add_resource resource server = do
  resources ← register_resource resource server.resources
  ok (announce resource_list_change (record server { resources = resources }))

unfoldable pub add_prompt :
    String → String → List PromptArgument → Option Render → Server → Result Message Server
unfolding announce
add_prompt name description arguments render server = do
  prompts ← register_prompt name description arguments render server.prompts
  ok (announce prompt_list_change (record server { prompts = prompts }))

module _ (env : Environment) where
  -- RegisterTool
  unfoldable pub add_tool : Option Tool → Server → Result Message Server
  unfolding announce
  add_tool tool server = do
    tools ← register_tool env tool server.tools
    ok (announce tool_list_change (record server { tools = tools }))

  -- RegisterDeferredEchoTool
  unfoldable pub add_deferred_echo_tool : Server → Result Message Server
  unfolding add_tool
  add_deferred_echo_tool = add_tool (some deferred_echo_tool)

  add_tools : List (Option Tool) → Server → Result Message Server
  unfolding add_tool
  add_tools [] server = ok server
  add_tools (tool ∷ tools) server = do grown ← add_tool tool server; add_tools tools grown

  or_default : List (Option Tool) → List (Option Tool)
  or_default [] = some (echo_tool "echo") ∷ some (confirm_preview_tool env) ∷ []
  or_default (t ∷ ts) = t ∷ ts

  abbrev empty_server : Server
  empty_server = record {
    tools = [];
    resources = default_resources;
    prompts = default_prompts;
    registry = [];
    extensions = [];
    tasks = [];
  }

  -- NewServer; a nil tool is `none`.
  unfoldable pub new_server : List (Option Tool) → Result Message Server
  unfolding add_tools or_default
  new_server tools = add_tools (or_default tools) empty_server
