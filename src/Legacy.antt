-- ===== src/Legacy.antt =====
-- internal/mcpserver/legacy.go: the stdio connection's era, and the historical lifecycle that starts
-- with `initialize`, at the boundary in front of the modern dispatcher.
pub mod Lifecycle
use mcp_from_scratch.Context.{Ctx}
use mcp_from_scratch.Environment.{Environment}
use mcp_from_scratch.Envelope.{protocol_version, server_name, server_version}
use mcp_from_scratch.Metadata.{decode_meta}
use mcp_from_scratch.Protocol.Errors.{
  RpcError, Message, plain, decoding, wrapping, new_error, new_error_with_data, method_not_found,
  invalid_request, invalid_params, internal_error,
}
use mcp_from_scratch.Protocol.Ids.{RequestId}
use mcp_from_scratch.Protocol.Requests.{Request, Response}
use mcp_from_scratch.Json.Decode.{as_struct}
use mcp_from_scratch.Json.Decode.{◌>>=◌ as bind}
use mcp_from_scratch.Server.{Server}
use mcp_from_scratch.Server.Handle.{handle}
use mcp_from_scratch.Base.{
  ℕ, String, Bool, true, false, not, ◌&&◌, ◌||◌, Option, none, some, List, [], ◌∷◌, arith, ◌==◌,
  if◌then◌else◌, Result, ok, err,
}
use mcp_from_scratch.Base.{◌>>=◌}
use mcp_from_scratch.Json.{Json, null, bool, str, obj, end, Raw, object, get, put, delete}

abbrev pub legacy_protocol_version : String
legacy_protocol_version = "2025-06-18"

pub data StdioEra : Type 0 where
  unknown_era modern_era legacy_era : StdioEra

pub record StdioCompatibilityState : Type 0 where
  pub era : StdioEra
  pub legacy_initialized : Bool

abbrev names_version : Option String → Bool
names_version none = false
names_version (some version) = not (version == "")

abbrev decodes_version : Raw → Option String
decodes_version meta =
    bind (as_struct meta) λ fields. bind (decode_meta fields) λ m. some m.protocol_version

-- The member _meta of the params, if they are an object that has one.
abbrev meta_member : Raw → Raw
meta_member (some (obj fs)) = get "_meta" fs
meta_member _ = none

unfoldable pub has_modern_metadata : Raw → Bool
has_modern_metadata raw = names_version (decodes_version (meta_member raw))

unfoldable pub classify_stdio_era : Request → StdioEra
classify_stdio_era request =
    if request.method == "initialize"
    then if has_modern_metadata request.params then modern_era else legacy_era
    else modern_era

pub modern_initialize_diagnostic : Option RequestId → Response
modern_initialize_diagnostic id = record {
  jsonrpc = "2.0";
  id = id;
  result = none;
  error = some (
      new_error_with_data method_not_found
        "initialize is unavailable for modern MCP; call server/discover instead"
        (object (
          ("modernMethod", str "server/discover")
          ∷ ("legacyLifecycle", str "initialize")
          ∷ ("supportedProtocolVersion", str protocol_version)
          ∷ [])));
}

abbrev pub refusal : Request → RpcError → Response
refusal request e = record { jsonrpc = "2.0"; id = request.id; result = none; error = some e }

abbrev pub success : Request → Json → Response
success request v = record { jsonrpc = "2.0"; id = request.id; result = some v; error = none }

-- A response with neither result nor error, which is never written.
abbrev blank : Request → Response
blank request = record { jsonrpc = "2.0"; id = request.id; result = none; error = none }

abbrev list_changes : Json
list_changes = obj (object (("listChanged", bool true) ∷ []))

pub legacy_initialize_result : Json
legacy_initialize_result = obj (
    object (
      ("protocolVersion", str legacy_protocol_version)
      ∷ (
        "capabilities",
        obj (
            object (
              ("tools", list_changes)
              ∷ ("resources", list_changes)
              ∷ ("prompts", list_changes)
              ∷ [])),
      )
      ∷ (
        "serverInfo",
        obj (object (("name", str server_name) ∷ ("version", str server_version) ∷ [])),
      )
      ∷ []))

-- The RequestMeta that the legacy path makes up, as encoding/json writes it.
abbrev pub compatibility_meta : Json
compatibility_meta = obj (
    object (
      ("io.modelcontextprotocol/protocolVersion", str protocol_version)
      ∷ ("io.modelcontextprotocol/clientCapabilities", obj end)
      ∷ []))

unfoldable pub legacy_params_as_modern : Raw → Result Message Json
legacy_params_as_modern none = ok (obj (put "_meta" compatibility_meta end))
legacy_params_as_modern (some null) = ok (obj (put "_meta" compatibility_meta end))
legacy_params_as_modern (some (obj fs)) = ok (obj (put "_meta" compatibility_meta fs))
legacy_params_as_modern (some v) =
    err (wrapping "legacy params must be an object" (decoding "decode params"))

unfoldable pub strip_modern_result_envelope : Raw → Result Message Json
strip_modern_result_envelope (some (obj fs)) =
    ok (obj (delete "cacheScope" (delete "ttlMs" (delete "_meta" (delete "resultType" fs)))))
strip_modern_result_envelope (some null) = err (plain "result must be an object")
strip_modern_result_envelope raw = err (decoding "decode result")

stripped : Request → Result Message Json → Response
stripped request (ok v) = success request v
stripped request (err m) =
    refusal request
      (record { code = internal_error; message = wrapping "encode legacy result" m; detail = none })

-- The modern response, with the envelope taken off its result.
legacy_response : Request → Response → Response
unfolding stripped
legacy_response request response = elim response.error [
  | some e ↦ refusal request e
  | none ↦ stripped request (strip_modern_result_envelope response.result)
]

is_business : String → Bool
is_business method =
    method == "tools/list"
    || method == "tools/call"
    || method == "resources/list"
    || method == "resources/read"
    || method == "prompts/list"
    || method == "prompts/get"

-- The era is decided by the first request and kept.
pub decide_era : Request → StdioEra → StdioEra
decide_era request unknown_era = classify_stdio_era request
decide_era request modern_era = modern_era
decide_era request legacy_era = legacy_era

module _ (env : Environment) (ctx : Ctx) (now : ℕ) (random : Result Message (List ℕ)) where
  abbrev modern_request : Request → Json → Request
  modern_request request params = record {
    jsonrpc = "2.0";
    id = request.id;
    method = request.method;
    params = some params;
    id_null = false;
  }

  legacy_reply : Request → Response × Server → Response × Server
  unfolding legacy_response
  legacy_reply request (response, server) = (legacy_response request response, server)

  business_with : Request → Result Message Json → Server → Response × Server
  unfolding legacy_reply
  business_with request (err m) server =
      (refusal request (record { code = invalid_params; message = m; detail = none }), server)
  business_with request (ok params) server =
      legacy_reply request (handle env ctx now random (modern_request request params) server)

  unfoldable pub handle_legacy_business : Request → Server → Response × Server
  unfolding business_with
  handle_legacy_business request server =
      business_with request (legacy_params_as_modern request.params) server

  abbrev Answered : Type 0
  Answered = Response × StdioCompatibilityState × Server

  -- The second switch, once the lifecycle methods are dealt with.
  initialized_or_refused : Request → StdioCompatibilityState → Server → Answered
  unfolding is_business
  initialized_or_refused request state server =
      if not state.legacy_initialized
      then (
        refusal request (
            new_error_with_data invalid_request
              "legacy server requires initialize before business requests"
              (object (("requiredMethod", str "initialize") ∷ []))),
        state,
        server,
      )
      else if is_business request.method
      then (let served = handle_legacy_business request server in (served.0, state, served.1))
      else (refusal request (new_error method_not_found "method not found"), state, server)

  unfoldable pub handle_legacy_stdio : Request → StdioCompatibilityState → Server → Answered
  unfolding initialized_or_refused legacy_initialize_result
  handle_legacy_stdio request state server =
      if not state.legacy_initialized && request.method == "server/discover"
      then (refusal request (new_error method_not_found "method not found"), state, server)
      else if request.method == "server/discover"
      then (
        refusal request (
            new_error method_not_found
              "legacy server does not implement server/discover; use initialize"),
        state,
        server,
      )
      else if request.method == "initialize"
      then (if state.legacy_initialized
          then (
            refusal request (new_error invalid_request "legacy server is already initialized"),
            state,
            server,
          )
          else (
            success request legacy_initialize_result,
            record state { legacy_initialized = true },
            server,
          ))
      else if request.method == "notifications/initialized"
      then (if not state.legacy_initialized
          then (
            refusal request (new_error invalid_request "legacy server is not initialized"),
            state,
            server,
          )
          else (blank request, state, server))
      else initialized_or_refused request state server

  some_response : Answered → Option Response × StdioCompatibilityState × Server
  some_response (response, state, server) = (some response, state, server)

  answer_in :
      StdioEra
      → Request
      → StdioCompatibilityState
      → Server
      → Option Response × StdioCompatibilityState × Server
  unfolding modern_initialize_diagnostic some_response
  answer_in modern_era request state server =
      if request.method == "initialize"
      then (some (modern_initialize_diagnostic request.id), state, server)
      else (none, state, server)
  answer_in legacy_era request state server =
      some_response (handle_legacy_stdio request state server)
  answer_in unknown_era request state server = (none, state, server)

  -- `none` is a request that is left to the modern path.
  unfoldable pub handle_stdio_compatibility :
      Request
      → StdioCompatibilityState
      → Server
      → Option Response × StdioCompatibilityState × Server
  unfolding decide_era answer_in
  handle_stdio_compatibility request state server =
      let settled = record state { era = decide_era request state.era } in
      answer_in settled.era request settled server
