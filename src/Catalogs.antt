-- ===== src/Catalogs.antt =====
-- internal/mcpserver/catalogs.go: resources and prompts.
use Prim.Native.String.{◌++◌ as append}
use mcp_from_scratch.Base.Text.{trim_space}
use mcp_from_scratch.Json.Decode.{string_member, map_member}
use mcp_from_scratch.Pages.{snapshot, list_page}
use mcp_from_scratch.Protocol.Errors.{RpcError, Message, plain, quoting, new_error, invalid_params}
use mcp_from_scratch.Metadata.{RequestMeta, decode_params}
use mcp_from_scratch.Envelope.{complete_result}
use mcp_from_scratch.Base.{
  String, Bool, true, false, ◌||◌, Option, none, some, List, [], ◌∷◌, ◌++◌, map, ◌==◌,
  if◌then◌else◌, is_some, Map, lookup, insert, Result, ok, err,
}
use mcp_from_scratch.Json.{
  Json, null, bool, str, arr, obj, Fields, end, field, Raw, object, array, omit_empty,
}

pub record Resource : Type 0 where
  pub uri : String
  pub name : String
  pub description : String
  pub mime_type : String
  pub text : String

pub record PromptArgument : Type 0 where
  pub name : String
  pub description : String
  pub required : Bool

pub record PromptMessage : Type 0 where
  pub role : String
  pub content_type : String
  pub content_text : String

abbrev pub Render : Type 0
Render = Map String → Result Message (List PromptMessage)

pub record Prompt : Type 0 where
  pub name : String
  pub description : String
  pub arguments : List PromptArgument
  pub render : Render

abbrev required_member : Bool → Fields
required_member true = field "required" (bool true) end
required_member false = end

abbrev argument_json : PromptArgument → Json
argument_json a = obj (
    field "name" (str a.name) (omit_empty "description" a.description (required_member a.required)))

abbrev arguments_member : List PromptArgument → Fields
arguments_member [] = end
arguments_member (a ∷ as') = field "arguments" (arr (array (map argument_json (a ∷ as')))) end

resource_json : Resource → Json
resource_json r = obj (
    field "uri" (str r.uri) (
      field "name" (str r.name)
        (omit_empty "description" r.description (omit_empty "mimeType" r.mime_type end))))

prompt_json : Prompt → Json
prompt_json p = obj (
    field "name" (str p.name)
      (omit_empty "description" p.description (arguments_member p.arguments)))

unfoldable pub list_resources : Map Resource → Raw → Result RpcError Json
unfolding list_page resource_json
list_resources resources = list_page "resources" resource_json (snapshot resources)

unfoldable pub list_prompts : Map Prompt → Raw → Result RpcError Json
unfolding list_page prompt_json
list_prompts prompts = list_page "prompts" prompt_json (snapshot prompts)

abbrev or_empty : Option String → String
or_empty none = ""
or_empty (some s) = s

abbrev text_of : String → Option (Fields × RequestMeta) → String
text_of k none = ""
text_of k (some (fields, meta)) = or_empty (string_member k fields)

content_json : Resource → Json
content_json r =
    obj
      (field "uri" (str r.uri) (omit_empty "mimeType" r.mime_type (field "text" (str r.text) end)))

abbrev read_found : String → Option Resource → Result RpcError Json
read_found uri none = err (record {
  code = invalid_params;
  message = quoting "unknown resource URI " uri "";
  detail = none;
})
read_found uri (some r) =
    ok (complete_result (("contents", arr (array (content_json r ∷ []))) ∷ []))

unfoldable pub read_resource : Map Resource → Raw → Result RpcError Json
unfolding content_json
read_resource resources raw =
    let uri = text_of "uri" (decode_params raw) in
    if uri == ""
    then err (new_error invalid_params "missing or invalid resource URI")
    else read_found uri (lookup uri resources)

abbrev add_entry : String → String → Option (Map String) → Option (Map String)
add_entry k s none = none
add_entry k s (some m) = some ((k, s) ∷ m)

-- A map[string]string member.
text_entries : Fields → Option (Map String)
text_entries end = some []
text_entries (field k (str s) fs) = add_entry k s (text_entries fs)
text_entries (field k null fs) = add_entry k "" (text_entries fs)
text_entries (field k v fs) = none

abbrev text_map : Option (Option Fields) → Option (Map String)
text_map none = none
text_map (some none) = some []
text_map (some (some fs)) = text_entries fs

abbrev name_and_arguments : Option String → Option (Map String) → Option (String × Map String)
name_and_arguments (some name) (some arguments) = some (name, arguments)
name_and_arguments _ _ = none

decode_prompt_get : Option (Fields × RequestMeta) → Option (String × Map String)
unfolding text_entries
decode_prompt_get none = none
decode_prompt_get (some (fields, meta)) =
    name_and_arguments (string_member "name" fields) (text_map (map_member "arguments" fields))

message_json : PromptMessage → Json
message_json m = obj (
    object (
      ("role", str m.role)
      ∷ ("content", obj (object (("type", str m.content_type) ∷ ("text", str m.content_text) ∷ [])))
      ∷ []))

rendered : Prompt → Result Message (List PromptMessage) → Result RpcError Json
unfolding message_json
rendered p (err m) = err (record { code = invalid_params; message = m; detail = none })
rendered p (ok messages) = ok (
    complete_result (
      (if p.description == "" then [] else ("description", str p.description) ∷ [])
      ++ ("messages", arr (array (map message_json messages))) ∷ []))

get_found : String → Map String → Option Prompt → Result RpcError Json
unfolding rendered
get_found name arguments none =
    err
      (record { code = invalid_params; message = quoting "unknown prompt " name ""; detail = none })
get_found name arguments (some p) = rendered p (p.render arguments)

missing_prompt : RpcError
missing_prompt = new_error invalid_params "missing or invalid prompt name"

get_decoded : Map Prompt → Option (String × Map String) → Result RpcError Json
unfolding get_found missing_prompt
get_decoded prompts none = err missing_prompt
get_decoded prompts (some (name, arguments)) =
    if name == "" then err missing_prompt else get_found name arguments (lookup name prompts)

unfoldable pub get_prompt : Map Prompt → Raw → Result RpcError Json
unfolding get_decoded decode_prompt_get
get_prompt prompts raw = get_decoded prompts (decode_prompt_get (decode_params raw))

-- RegisterResource, up to the publication of the change.
unfoldable pub register_resource : Resource → Map Resource → Result Message (Map Resource)
register_resource resource resources =
    if resource.uri == "" || resource.name == ""
    then err (plain "register resource: URI and name are required")
    else if is_some (lookup resource.uri resources)
    then err (quoting "register resource: duplicate URI " resource.uri "")
    else ok (insert resource.uri resource resources)

store_prompt : Prompt → Map Prompt → Result Message (Map Prompt)
store_prompt prompt prompts =
    if is_some (lookup prompt.name prompts)
    then err (quoting "register prompt: duplicate name " prompt.name "")
    else ok (insert prompt.name prompt prompts)

-- RegisterPrompt, up to the publication of the change; the renderer may be nil.
unfoldable pub register_prompt :
    String → String → List PromptArgument → Option Render → Map Prompt → Result Message (Map Prompt)
unfolding store_prompt
register_prompt name description arguments none prompts =
    err (plain "register prompt: name and renderer are required")
register_prompt name description arguments (some render) prompts =
    if name == ""
    then err (plain "register prompt: name and renderer are required")
    else store_prompt
        (record { name = name; description = description; arguments = arguments; render = render })
        prompts

abbrev pub default_resources : Map Resource
default_resources =
    (
      "demo://project/guide",
      record {
        uri = "demo://project/guide";
        name = "Project guide";
        description = "A short guide exposed as readable MCP context.";
        mime_type = "text/plain";
        text = "Use tools for actions, resources for context, and prompts for reusable workflows.";
      },
    )
    ∷ []

-- renderExplainTopic
render_explain_topic : Render
render_explain_topic arguments =
    let topic = trim_space (or_empty (lookup "topic" arguments)) in
    if topic == ""
    then err (quoting "missing required prompt argument " "topic" "")
    else ok (
        record {
          role = "user";
          content_type = "text";
          content_text = append "Explain " (append topic " with one practical example.");
        }
        ∷ [])

pub default_prompts : Map Prompt
unfolding render_explain_topic
default_prompts =
    (
      "explain-topic",
      record {
        name = "explain-topic";
        description = "Ask for a practical explanation of a topic.";
        arguments =
            record { name = "topic"; description = "The topic to explain."; required = true } ∷ [];
        render = render_explain_topic;
      },
    )
    ∷ []
