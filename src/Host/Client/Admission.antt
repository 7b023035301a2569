-- ===== src/Host/Client/Admission.antt =====
-- The requests of a client over HTTP meet the checks of the server: newRequest of internal/host/demo.go
-- against serveHTTP of internal/mcpserver/http.go.
use mcp_from_scratch.Base.Decimal.{parse_int-format_int}
use mcp_from_scratch.Base.Text.{equal_fold, split, trim_space, before}
use mcp_from_scratch.Context.{Ctx}
use mcp_from_scratch.Environment.{Environment}
use mcp_from_scratch.Envelope.{protocol_version}
use mcp_from_scratch.Metadata.{decode_params}
use mcp_from_scratch.Protocol.Errors.{Message}
use mcp_from_scratch.Protocol.Ids.{RequestId, unset, number, text, IsId, marshal_id, unmarshal_id}
use mcp_from_scratch.Protocol.Requests.{
  Request, unmarshal_request, validate_request, method_uses_name_header,
}
use mcp_from_scratch.Server.{Server}
use mcp_from_scratch.Http.{
  HttpCall, HeaderParams, decode_header_params, expected_name, validate_http_headers,
  accepts_media_type, valid_request_origin, decoded_request, serve, serve_request,
}
use mcp_from_scratch.Http.Headers.{Mirrors}
use mcp_from_scratch.Host.Client.{
  marshal_request, new_request, request_name, names_of, name_for, header, non_empty,
}
use mcp_from_scratch.Host.Client.Sending.{Clean, clean, transmitted, transmitted-Clean}
use mathlib.Core.Option
use mcp_from_scratch.Json.Decode.{as_struct, string_member}
use mcp_from_scratch.Base.{
  ℕ, String, ◌≡◌, refl, sym, ap, subst, ◌∙◌, ◌≢◌, inl, inr, Bool, true, false, ◌||◌, Option, none,
  some, List, arith, ◌==◌, eq_iff, Bool-cases, Result,
}
use mcp_from_scratch.Json.{Raw, get}

-- A request as the client makes them: its identifier was set, its parameters carry the version of the
-- protocol and, where the method wants it, the name that the header repeats, and the method and that
-- name are header values that arrive as they are.
pub record Sendable (request : Request) (params : HeaderParams) : Type 0 where
  pub version : request.jsonrpc ≡ "2.0"
  pub named : request.method ≢ ""
  pub not_null : request.id_null ≡ false
  pub identified : (id : RequestId) → request.id ≡ some id → IsId id
  pub decoded : decode_header_params request.params ≡ some params
  pub protocol : params.meta.protocol_version ≡ protocol_version
  pub addressed :
      method_uses_name_header request.method ≡ true → expected_name request.method params ≢ ""
  pub clean_method : Clean request.method
  pub clean_name :
      method_uses_name_header request.method ≡ true → Clean (expected_name request.method params)

abbrev made : String → Option RequestId → String → Raw → Request
made jsonrpc id method params = record {
  jsonrpc = jsonrpc;
  id = id;
  method = method;
  params = params;
  id_null = false;
}

abbrev IsOptionalId : Option RequestId → Type 0
IsOptionalId none = Unit {0}
IsOptionalId (some id) = IsId id

unmarshal-marshal_made :
    (jsonrpc : String) (id : Option RequestId) (method : String) (params : Raw)
    → IsOptionalId id
    → unmarshal_request (marshal_request (made jsonrpc id method params))
      ≡ some (made jsonrpc id method params)
unfolding unmarshal_request marshal_request as_struct string_member get marshal_id unmarshal_id
unmarshal-marshal_made j none m none h = refl
unmarshal-marshal_made j none m (some v) h = refl
unmarshal-marshal_made j (some unset) m p h = absurd h
unmarshal-marshal_made j (some (text s)) m none h = refl
unmarshal-marshal_made j (some (text s)) m (some v) h = refl
unmarshal-marshal_made j (some (number z)) m none h = rw (parse_int-format_int z h) refl
unmarshal-marshal_made j (some (number z)) m (some v) h = rw (parse_int-format_int z h) refl

optional : (o : Option RequestId) → ((id : RequestId) → o ≡ some id → IsId id) → IsOptionalId o
optional none h = tt
optional (some id) h = h id refl

unmarshal-marshal_request :
    (request : Request) (params : HeaderParams)
    → Sendable request params
    → unmarshal_request (marshal_request request) ≡ some request
unmarshal-marshal_request r params h =
    subst (λ (x : Request). unmarshal_request (marshal_request x) ≡ some x)
      (sym (ap (λ (b : Bool). record r { id_null = b }) h.not_null))
      (unmarshal-marshal_made r.jsonrpc r.id r.method r.params (optional r.id h.identified))

header-non_empty : (name : String) → header (non_empty name) ≡ name
header-non_empty name = ground (arith, eq_iff name "")

-- The name in the header is the one that the server expects.
name_for-expected :
    (method : String) (params : HeaderParams)
    → header (name_for method (some (params.name, params.uri, params.task_id)))
      ≡ expected_name method params
unfolding expected_name
name_for-expected method params = elim (Bool-cases (method == "resources/read")) [
  | inl reads ↦
      subst
        (λ (m : String).
          header (name_for m (some (params.name, params.uri, params.task_id)))
          ≡ expected_name m params)
        (sym ((eq_iff method "resources/read").0 reads)) (header-non_empty params.uri)
  | inr other ↦
      elim (Bool-cases
        (method == "tasks/get" || method == "tasks/update" || method == "tasks/cancel")) [
          | inl on_task ↦ rw (other, on_task) (header-non_empty params.task_id)
          | inr plain ↦ rw (other, plain) (header-non_empty params.name)
        ]
]

names_of-decoded :
    (raw : Raw) (params : HeaderParams)
    → decode_header_params raw ≡ some params
    → names_of raw ≡ some (params.name, params.uri, params.task_id)
unfolding names_of decode_params
names_of-decoded raw params h = ground arith

Mirrors-none :
    (call : HttpCall) (request : Request) (params : HeaderParams)
    → Mirrors call request params
    → request.method ≢ ""
    → decode_header_params request.params ≡ some params
    → validate_http_headers call request ≡ none
unfolding validate_http_headers
Mirrors-none call request params m named decoded = rw decoded (
    rw (version_blank, version_same, version_ours, method_blank, method_same)
      (elim (Bool-cases (method_uses_name_header request.method)) [
        | inr plain ↦ rw plain refl
        | inl uses ↦
            rw
              (
                uses,
                is_not call.header_name "" (m.name_mirrored uses).1,
                (eq_iff call.header_name (expected_name request.method params)).1
                    (m.name_mirrored uses).0,
              )
              refl
      ]))
  where
    is_not : (a b : String) → a ≢ b → (a == b) ≡ false
    is_not a b h = ground (arith, eq_iff a b)

    version_blank : (call.header_version == "") ≡ false
    version_blank = rw m.version_known refl

    version_same : (call.header_version == params.meta.protocol_version) ≡ true
    version_same =
        (eq_iff call.header_version params.meta.protocol_version).1
          (m.version_known ∙ sym m.version_mirrored)

    version_ours : (call.header_version == protocol_version) ≡ true
    version_ours = (eq_iff call.header_version protocol_version).1 m.version_known

    method_blank : (call.header_method == "") ≡ false
    method_blank = is_not call.header_method "" (λ e. named (sym m.method_mirrored ∙ e))

    method_same : (call.header_method == request.method) ≡ true
    method_same = (eq_iff call.header_method request.method).1 m.method_mirrored

new_request-name :
    (host : String) (request : Request) (params : HeaderParams)
    → Sendable request params
    → method_uses_name_header request.method ≡ true
    → (new_request host request).header_name ≡ expected_name request.method params
unfolding new_request request_name
new_request-name host request params h uses =
    rw (uses, names_of-decoded request.params params h.decoded)
      (name_for-expected request.method params)

new_request-Mirrors :
    (host : String) (request : Request) (params : HeaderParams)
    → Sendable request params
    → Mirrors (new_request host request) request params
unfolding new_request request_name
new_request-Mirrors host request params h = record {
  version_known = refl;
  version_mirrored = h.protocol;
  method_mirrored = refl;
  name_mirrored = λ uses.
      let named = new_request-name host request params h uses in
      (named, λ blank. h.addressed uses (sym named ∙ blank));
}

new_request-unnamed :
    (host : String) (request : Request)
    → method_uses_name_header request.method ≡ false
    → (new_request host request).header_name ≡ ""
unfolding new_request request_name
new_request-unnamed host request unused = rw unused refl

transmitted-new_request :
    (host : String) (request : Request) (params : HeaderParams)
    → Sendable request params
    → transmitted (new_request host request) ≡ some (new_request host request)
unfolding new_request
transmitted-new_request host request params h =
    transmitted-Clean (new_request host request) (clean protocol_version (omega arith) refl refl)
      h.clean_method
      (elim (Bool-cases (method_uses_name_header request.method)) [
        | inl uses ↦
            subst Clean (sym (new_request-name host request params h uses)) (h.clean_name uses)
        | inr unused ↦
            subst Clean (sym (new_request-unnamed host request unused)) (clean "" tt refl refl)
      ])

validate_request-Sendable :
    (request : Request) (params : HeaderParams)
    → Sendable request params
    → validate_request request ≡ none
unfolding validate_request
validate_request-Sendable request params h =
    ground (
      arith,
      h.version,
      h.named,
      h.not_null,
      eq_iff request.jsonrpc "2.0",
      eq_iff request.method "",
    )

module _ (env : Environment) (ctx : Ctx) (now : ℕ) (random : Result Message (List ℕ))
    (server : Server) (host : String) where
  -- Every request of the client over HTTP whose identifier was set, whose parameters carry the
  -- version of the protocol and, for a method that wants it, a name, and whose method and name have
  -- no control characters and no blanks at their ends, is sent by net/http with its headers as they
  -- were set, passes all checks of the server's transport, is decoded as the request that was sent,
  -- and is served as that request.
  pub serve-new_request :
      (request : Request) (params : HeaderParams)
      → Sendable request params
      → Option.map
          (λ call. serve env ctx now random call server)
          (transmitted (new_request host request))
        ≡ some (serve_request env ctx now random (new_request host request) request server)
  unfolding serve new_request valid_request_origin accepts_media_type decoded_request equal_fold
      split trim_space before
  serve-new_request request params h =
      rw
        (
          transmitted-new_request host request params h,
          unmarshal-marshal_request request params h,
          validate_request-Sendable request params h,
          Mirrors-none (new_request host request) request params
              (new_request-Mirrors host request params h) h.named h.decoded,
        )
        refl
