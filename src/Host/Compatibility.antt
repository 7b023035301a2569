-- ===== src/Host/Compatibility.antt =====
-- internal/host/compatibility.go: which lifecycle a server on stdio speaks.
pub mod Era
use mcp_from_scratch.Host.Discovery.{
  valid_discovery_envelope, valid_rpc_error_envelope, valid_modern_discovery,
  valid_legacy_discovery, valid_legacy_initialize_result, advertised_common_version,
}
use mcp_from_scratch.Base.Decimal.{pos, negsuc}
use mcp_from_scratch.Protocol.Errors.{Message, plain, wrapping}
use mcp_from_scratch.Host.Client.{
  RpcFailure, Answer, Client, Called, client_request, request_meta_for_version,
}
use mcp_from_scratch.Base.{
  ℕ, String, false, not, ◌&&◌, ◌||◌, Option, none, some, List, [], ◌∷◌, arith, eqb, if◌then◌else◌,
  Result, ok, err,
}
use mcp_from_scratch.Base.{◌>>=◌}
use mcp_from_scratch.Json.{str, obj, end, object}

pub data ServerEra : Type 0 where
  modern legacy : ServerEra

pub record CompatibilityResult : Type 0 where
  pub era : ServerEra
  pub protocol_version : String
  pub discovery : Answer

abbrev Detected : Type 0
Detected = Result Message CompatibilityResult

module _ {W : Type 0} (client : Client W)
    (initialize_legacy : Option (W → Option Message × W)) where
  unfoldable pub call_discovery : ℕ → String → W → Called × W
  unfolding request_meta_for_version
  call_discovery id version = client.call (
      client_request id "server/discover"
        (object (("_meta", obj (request_meta_for_version version)) ∷ [])))

  abbrev initialized_era : Answer → Option Message × W → Detected × W
  initialized_era discovery (some e, w) = (err (wrapping "initialize legacy server" e), w)
  initialized_era discovery (none, w) =
      (ok (record { era = legacy; protocol_version = "2025-06-18"; discovery = discovery }), w)

  abbrev legacy_with : Option (W → Option Message × W) → Answer → W → Detected × W
  legacy_with none discovery w =
      (err (plain "legacy MCP server detected but no initializer is configured"), w)
  legacy_with (some initialize) discovery w = initialized_era discovery (initialize w)

  unfoldable pub select_legacy_era : Answer → W → Detected × W
  select_legacy_era discovery w = legacy_with initialize_legacy discovery w

  abbrev after_retry : String → Called × W → Detected × W
  after_retry version ((answer, some e), w) = (err (wrapping "server/discover retry" e), w)
  after_retry version ((answer, none), w) =
      if not (valid_discovery_envelope answer 2)
        || not (valid_modern_discovery answer.result version)
      then (err (plain "server/discover retry returned an invalid result"), w)
      else (ok (record { era = modern; protocol_version = version; discovery = answer }), w)

  abbrev retry_with : Option String → Message → W → Detected × W
  retry_with none e w = (err (wrapping "server/discover" e), w)
  retry_with (some version) e w = after_retry version (call_discovery 2 version w)

  -- The codes -32601 (method not found) and -32022 (unsupported protocol version).
  abbrev on_failure : List String → String → Answer → RpcFailure → Message → W → Detected × W
  on_failure supported requested answer failure e w = elim failure.code [
    | pos n ↦ (err (wrapping "server/discover" e), w)
    | negsuc n ↦
        if eqb n 32600
        then select_legacy_era answer w
        else if eqb n 32021
        then retry_with (advertised_common_version failure.detail supported requested) e w
        else (err (wrapping "server/discover" e), w)
  ]

  abbrev failed_call :
      List String → String → Answer → Option RpcFailure → Message → W → Detected × W
  failed_call supported requested answer none e w = (err (wrapping "server/discover" e), w)
  failed_call supported requested answer (some failure) e w =
      if not (valid_rpc_error_envelope answer 1)
      then (err (plain "server/discover returned an invalid JSON-RPC error envelope"), w)
      else on_failure supported requested answer failure e w

  abbrev answered_call : String → Answer → W → Detected × W
  answered_call requested answer w =
      if valid_discovery_envelope answer 1 && valid_modern_discovery answer.result requested
      then (ok (record { era = modern; protocol_version = requested; discovery = answer }), w)
      else if valid_discovery_envelope answer 1 && valid_legacy_discovery answer.result
      then select_legacy_era answer w
      else (err (plain "server/discover returned an invalid result"), w)

  abbrev first_call : List String → String → Called × W → Detected × W
  first_call supported requested ((answer, none), w) = answered_call requested answer w
  first_call supported requested ((answer, some e), w) =
      failed_call supported requested answer answer.error e w

  unfoldable pub detect_server_era : List String → W → Detected × W
  unfolding call_discovery select_legacy_era valid_discovery_envelope valid_rpc_error_envelope
      valid_modern_discovery valid_legacy_discovery advertised_common_version
  detect_server_era [] w = (err (plain "detect server era: no supported protocol versions"), w)
  detect_server_era (requested ∷ others) w =
      first_call (requested ∷ others) requested (call_discovery 1 requested w)

  -- compatibilityNegotiator: the first result is kept.
  abbrev remember : Detected × W → Detected × Option Detected × W
  remember (result, w) = (result, some result, w)

  unfoldable pub detect : List String → Option Detected → W → Detected × Option Detected × W
  unfolding detect_server_era
  detect supported none w = remember (detect_server_era supported w)
  detect supported (some result) w = (result, some result, w)

module _ {W : Type 0} (client : Client W) where
  abbrev finish_initialize : Called × W → Option Message × W
  finish_initialize ((answer, e), w) = (e, w)

  abbrev check_initialize : Called × W → Option Message × W
  check_initialize ((answer, some e), w) = (some (wrapping "legacy initialize" e), w)
  check_initialize ((answer, none), w) =
      if not (valid_legacy_initialize_result answer.result)
      then (some (plain "legacy initialize returned an invalid result"), w)
      else finish_initialize (
          client.call
            (record {
              jsonrpc = "2.0";
              id = none;
              method = "notifications/initialized";
              params = none;
              id_null = false;
            })
            w)

  unfoldable pub legacy_initialize_call : W → Option Message × W
  unfolding valid_legacy_initialize_result
  legacy_initialize_call w = check_initialize (
      client.call
        (client_request 2 "initialize" (
          object (
            ("protocolVersion", str "2025-06-18")
            ∷ ("capabilities", obj end)
            ∷ (
              "clientInfo",
              obj (object (("name", str "mcp-from-scratch-host") ∷ ("version", str "0.1.0") ∷ [])),
            )
            ∷ [])))
        w)
