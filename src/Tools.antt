-- ===== src/Tools.antt =====
-- internal/mcpserver/schema.go and the tool registry of internal/mcpserver/server.go. A schema that
-- resolved is kept as the schema itself; the numbers of a JSON value are its literals, so that
-- normalizeJSONNumbers, which only changes their Go type, has no counterpart.
pub mod Depth
pub mod Calls
use mcp_from_scratch.Base.Text.{trim_space}
use mcp_from_scratch.Base.Decimal.{codes}
use mcp_from_scratch.Context.{Ctx}
use mcp_from_scratch.Envelope.{ToolResult}
use mcp_from_scratch.Environment.{Environment}
use mcp_from_scratch.Protocol.Errors.{
  RpcError, Message, plain, quoting, counting, decoding, new_error_with_data, internal_error,
}
use mcp_from_scratch.Base.{
  ℕ, ◌+◌, ◌-◌, String, Bool, true, false, not, ◌&&◌, ◌||◌, Option, none, some, List, [], ◌∷◌, ◌++◌,
  arith, ◌==◌, ltb, eqb, if◌then◌else◌, is_some, Map, lookup, insert, Result, ok, err,
}
use mcp_from_scratch.Base.{◌>>=◌}
use mcp_from_scratch.Json.{
  Json, null, bool, num, str, arr, obj, Items, nil, cons, Fields, end, field, Raw, get,
}

abbrev pub max_tool_schema_bytes : ℕ
max_tool_schema_bytes = 1048576

abbrev pub max_tool_argument_bytes : ℕ
max_tool_argument_bytes = 1048576

abbrev pub max_nesting : ℕ
max_nesting = 64

pub record ToolDefinition : Type 0 where
  pub name : String
  pub description : String
  pub input_schema : Option Fields
  pub output_schema : Option Fields

pub record ToolInvocation : Type 0 where
  pub context : Ctx
  pub arguments : Raw
  pub input_responses : Map Json
  pub request_state : String
  pub client_capabilities : Option Fields

-- A *protocol.Error, or any other error.
pub data ToolError : Type 0 where
  protocol_error : RpcError → ToolError
  plain_error : Message → ToolError

pub record Tool : Type 0 where
  pub definition : ToolDefinition
  pub call : ToolInvocation → Result ToolError ToolResult

pub record RegisteredTool : Type 0 where
  pub tool : Tool
  pub definition : ToolDefinition
  pub input_schema : Fields
  pub output_schema : Option Fields

-- The tokens of a JSON text that the depth check tells apart.
pub data Token : Type 0 where
  opening closing atom : Token

unfoldable mutual
  pub tokens : Json → List Token
  tokens null = atom ∷ []
  tokens (bool b) = atom ∷ []
  tokens (num n) = atom ∷ []
  tokens (str s) = atom ∷ []
  tokens (arr vs) = opening ∷ (item_tokens vs ++ closing ∷ [])
  tokens (obj fs) = opening ∷ (field_tokens fs ++ closing ∷ [])

  pub item_tokens : Items → List Token
  item_tokens nil = []
  item_tokens (cons v vs) = tokens v ++ item_tokens vs

  pub field_tokens : Fields → List Token
  field_tokens end = []
  field_tokens (field k v fs) = atom ∷ (tokens v ++ field_tokens fs)

too_deep : ℕ → Message
too_deep limit = counting "JSON nesting exceeds " limit " levels"

-- The loop over the tokens, with the depth that it has reached.
unfoldable pub depth_loop : ℕ → ℕ → List Token → Result Message (Unit {0})
unfolding too_deep
depth_loop limit depth [] = ok tt
depth_loop limit depth (atom ∷ rest) = depth_loop limit depth rest
depth_loop limit depth (opening ∷ rest) =
    let inside = depth_loop limit (depth + 1) rest in
    if ltb limit (depth + 1) then err (too_deep limit) else inside
depth_loop limit depth (closing ∷ rest) = depth_loop limit (depth - 1) rest

unfoldable pub validate_json_depth : Json → ℕ → Result Message (Unit {0})
unfolding depth_loop tokens
validate_json_depth v limit = depth_loop limit 0 (tokens v)

is_ref : String → Bool
is_ref k = k == "$ref" || k == "$dynamicRef"

hash_first : List ℕ → Bool
hash_first [] = false
hash_first (c ∷ cs) = eqb c b'#'

local_ref : Json → Bool
unfolding hash_first
local_ref null = true
local_ref (str s) = hash_first (codes s)
local_ref _ = false

external : Message
external = plain "external schema reference is not allowed"

mutual
  unfolding is_ref local_ref external

  pub walk : Json → Result Message (Unit {0})
  walk (obj fs) = walk_fields fs
  walk (arr vs) = walk_items vs
  walk null = ok tt
  walk (bool b) = ok tt
  walk (num n) = ok tt
  walk (str s) = ok tt

  pub walk_fields : Fields → Result Message (Unit {0})
  walk_fields end = ok tt
  walk_fields (field k v fs) =
      let deeper = walk v >>= (λ _. walk_fields fs) in
      if is_ref k && not (local_ref v) then err external else deeper

  pub walk_items : Items → Result Message (Unit {0})
  walk_items nil = ok tt
  walk_items (cons v vs) = walk v >>= (λ _. walk_items vs)

abbrev is_object_type : Option Json → Bool
is_object_type (some (str s)) = s == "object"
is_object_type _ = false

module _ (env : Environment) where
  resolved : Fields → Result Message Fields
  resolved raw = if env.resolves raw then ok raw else err (decoding "resolve schema")

  unfoldable pub compile_schema : Fields → Bool → Result Message Fields
  unfolding walk_fields resolved
  compile_schema raw input =
      if input && not (is_object_type (get "type" raw))
      then err (plain "input schema top-level type must be object")
      else if ltb max_tool_schema_bytes (env.text_size (obj raw))
      then err (counting "schema exceeds " max_tool_schema_bytes " bytes")
      else do _ ← validate_json_depth (obj raw) max_nesting; _ ← walk_fields raw; resolved raw

  compile_output : Option Fields → Result Message (Option Fields)
  compile_output none = ok none
  compile_output (some raw) = do schema ← compile_schema raw false; ok (some schema)

  prepare_input : Tool → Option Fields → Result Message RegisteredTool
  unfolding compile_output
  prepare_input tool none =
      err (quoting "register tool " tool.definition.name ": missing input schema")
  prepare_input tool (some raw) = do
    input ← compile_schema raw true
    output ← compile_output tool.definition.output_schema
    ok (record {
      tool = tool;
      definition = tool.definition;
      input_schema = input;
      output_schema = output;
    })

  -- A nil tool is `none`. The copy of the definition through JSON is the definition.
  unfoldable pub prepare_tool : Option Tool → Result Message RegisteredTool
  unfolding prepare_input
  prepare_tool none = err (plain "register tool: nil tool")
  prepare_tool (some tool) =
      if trim_space tool.definition.name == ""
      then err (plain "register tool: missing tool name")
      else prepare_input tool tool.definition.input_schema

  store_tool : Map RegisteredTool → RegisteredTool → Result Message (Map RegisteredTool)
  store_tool tools entry =
      if is_some (lookup entry.definition.name tools)
      then err (quoting "register tool: duplicate tool " entry.definition.name "")
      else ok (insert entry.definition.name entry tools)

  -- RegisterTool, up to the publication of the change.
  unfoldable pub register_tool :
      Option Tool → Map RegisteredTool → Result Message (Map RegisteredTool)
  unfolding store_tool
  register_tool tool tools = prepare_tool tool >>= store_tool tools

  matched : Fields → Json → Result Message (Unit {0})
  matched schema v =
      if env.conforms schema v
      then ok tt
      else err (plain "tool arguments do not match input schema")

  checked_object : Fields → Json → Result Message (Unit {0})
  unfolding matched
  checked_object schema v = do _ ← validate_json_depth v max_nesting; matched schema v

  checked_size : Fields → Json → Result Message (Unit {0})
  unfolding checked_object
  checked_size schema null = err (plain "tool arguments must be an object")
  checked_size schema v =
      if ltb max_tool_argument_bytes (env.text_size v)
      then err (counting "tool arguments exceed " max_tool_argument_bytes " bytes")
      else elim v [
        | obj fs ↦ checked_object schema (obj fs)
        | _ ↦ err (plain "tool arguments must be an object")
      ]

  unfoldable pub validate_tool_arguments : Fields → Raw → Result Message (Unit {0})
  unfolding checked_size
  validate_tool_arguments schema none = err (plain "tool arguments must be an object")
  validate_tool_arguments schema (some v) = checked_size schema v

  tool_detail : String → Fields
  tool_detail name = field "tool" (str name) end

  checked_structured : String → Fields → ToolResult → Raw → Result ToolError ToolResult
  unfolding tool_detail
  checked_structured name schema result none = err (
      protocol_error (
        new_error_with_data internal_error
          "tool output is missing structured content required by output schema" (tool_detail name)))
  checked_structured name schema result (some v) =
      if env.conforms schema v
      then ok result
      else err (
          protocol_error (
            new_error_with_data internal_error "tool output does not match output schema"
              (tool_detail name)))

  checked_output : String → Option Fields → ToolResult → Result ToolError ToolResult
  unfolding checked_structured
  checked_output name none result = ok result
  checked_output name (some schema) result =
      checked_structured name schema result result.structured_content

  abbrev as_tool_error {ℓ} : {A : Type ℓ} → Result Message A → Result ToolError A
  as_tool_error (ok a) = ok a
  as_tool_error (err m) = err (plain_error m)

  -- callTool, once the name is known to be registered.
  unfoldable pub invoke : String → RegisteredTool → ToolInvocation → Result ToolError ToolResult
  unfolding checked_output
  invoke name entry invocation = do
    _ ← as_tool_error (validate_tool_arguments entry.input_schema invocation.arguments)
    result ← entry.tool.call invocation
    checked_output name entry.output_schema result
