-- ===== src/Envelope.antt =====
-- Results of internal/mcpserver/server.go: the envelope that every result carries and the result
-- of a tool, as the JSON objects that mustMarshal makes of them.
use mcp_from_scratch.Base.Decimal.{format_int, pos}
use mcp_from_scratch.Base.{ℕ, String, Bool, true, none, some, List, [], ◌∷◌, if◌then◌else◌, Map}
use mcp_from_scratch.Json.{
  Json, bool, num, str, arr, obj, Items, nil, cons, Fields, end, field, Raw, object, omit_empty,
}

abbrev pub protocol_version : String
protocol_version = "2026-07-28"

abbrev pub server_name : String
server_name = "mcp-from-scratch"

abbrev pub server_version : String
server_version = "0.1.0"

abbrev pub result_meta : Json
result_meta = obj (
    object (
      (
        "io.modelcontextprotocol/serverInfo",
        obj (object (("name", str server_name) ∷ ("version", str server_version) ∷ [])),
      )
      ∷ []))

-- newResult, with the members that the embedding struct adds behind it.
unfoldable pub complete_result : List (String × Json) → Json
complete_result rest = obj (object (("resultType", str "complete") ∷ ("_meta", result_meta) ∷ rest))

unfoldable pub cacheable_result : ℕ → List (String × Json) → Json
unfolding complete_result
cacheable_result ttl rest =
    complete_result (("ttlMs", num (format_int (pos ttl))) ∷ ("cacheScope", str "public") ∷ rest)

pub record ContentBlock : Type 0 where
  pub type : String
  pub text : String

-- ToolResult; an empty `result_type` is the zero value that Handle replaces by "complete".
pub record ToolResult : Type 0 where
  pub result_type : String
  pub content : List ContentBlock
  pub structured_content : Raw
  pub is_error : Bool
  pub input_requests : Map Json
  pub request_state : String

abbrev block_items : List ContentBlock → Items
block_items [] = nil
block_items (b ∷ bs) =
    cons (obj (field "type" (str b.type) (omit_empty "text" b.text end))) (block_items bs)

abbrev omit_none : String → Raw → Fields → Fields
omit_none k none fs = fs
omit_none k (some v) fs = field k v fs

abbrev content_member : List ContentBlock → Fields → Fields
content_member [] fs = fs
content_member (b ∷ bs) fs = field "content" (arr (block_items (b ∷ bs))) fs

abbrev requests_member : Map Json → Fields → Fields
requests_member [] fs = fs
requests_member (r ∷ rs) fs = field "inputRequests" (obj (object (r ∷ rs))) fs

-- mustMarshal of a ToolResult whose Meta is that of newResult.
unfoldable pub marshal_tool_result : ToolResult → Json
marshal_tool_result r = obj (
    field "resultType" (str r.result_type) (
      field "_meta" result_meta (
        content_member r.content (
          omit_none "structuredContent" r.structured_content (
            let rest =
              requests_member r.input_requests (omit_empty "requestState" r.request_state end) in
            if r.is_error then field "isError" (bool true) rest else rest)))))
