-- ===== src/Http/Headers.antt =====
-- What a request over HTTP must show before it reaches the server.
use mcp_from_scratch.Context.{Ctx}
use mcp_from_scratch.Environment.{Environment}
use mcp_from_scratch.Envelope.{protocol_version}
use mcp_from_scratch.Protocol.Errors.{RpcError, Message}
use mcp_from_scratch.Protocol.Requests.{Request, validate_request, method_uses_name_header}
use mcp_from_scratch.Server.{Server}
use mcp_from_scratch.Http.{
  HttpCall, HeaderParams, decode_header_params, expected_name, validate_http_headers,
  decoded_headers, mismatch, valid_request_origin, accepts_media_type, media_type, serve,
  with_request, with_envelope, with_headers, decoded_request,
}
use mcp_from_scratch.Base.{
  ℕ, ◌≡◌, refl, ◌≢◌, inl, inr, true, Option, none, some, List, arith, ◌==◌, eq_iff, Bool-cases,
  Result,
}

-- The headers mirror the body.
pub record Mirrors (call : HttpCall) (request : Request) (params : HeaderParams) : Type 0 where
  pub version_known : call.header_version ≡ protocol_version
  pub version_mirrored : params.meta.protocol_version ≡ protocol_version
  pub method_mirrored : call.header_method ≡ request.method
  pub name_mirrored :
      method_uses_name_header request.method ≡ true
      → (call.header_name ≡ expected_name request.method params) × (call.header_name ≢ "")

decoded_headers-Mirrors :
    (call : HttpCall) (request : Request) (params : HeaderParams)
    → decoded_headers call request (some params) ≡ none
    → Mirrors call request params
unfolding decoded_headers mismatch
decoded_headers-Mirrors call request params h = record {
  version_known = ground (arith, eq_iff call.header_version protocol_version);
  version_mirrored = ground (
    arith,
    eq_iff call.header_version protocol_version,
    eq_iff call.header_version params.meta.protocol_version,
  );
  method_mirrored = ground (arith, eq_iff call.header_method request.method);
  name_mirrored = λ uses. (
    ground (arith, eq_iff call.header_name (expected_name request.method params)),
    ground (arith, eq_iff call.header_name ""),
  );
}

-- What a call that reaches the server has shown.
pub record Admitted (call : HttpCall) : Type 0 where
  pub posted : call.method ≡ "POST"
  pub origin_valid : valid_request_origin call ≡ true
  pub sends_json : media_type call.content_type "application/json" ≡ true
  pub accepts_json : accepts_media_type call.accept "application/json" ≡ true
  pub accepts_events : accepts_media_type call.accept "text/event-stream" ≡ true
  pub request : Request
  pub params : HeaderParams
  pub sent : decoded_request call.body ≡ some request
  pub well_formed : validate_request request ≡ none
  pub decoded : decode_header_params request.params ≡ some params
  pub mirrored : Mirrors call request params

module _ (env : Environment) (ctx : Ctx) (now : ℕ) (random : Result Message (List ℕ))
    (call : HttpCall) (server : Server) where
  -- The request, its parameters, and that they are what the checks want.
  abbrev Shown : Option Request → Type 0
  Shown found =
      (request : Request) × (params : HeaderParams) × (found ≡ some request)
      × (validate_request request ≡ none)
      × (decode_header_params request.params ≡ some params)
      × Mirrors call request params

  checked_headers :
      (request : Request) (found : Option HeaderParams)
      → decoded_headers call request found ≡ none
      → (params : HeaderParams) × (found ≡ some params) × Mirrors call request params
  unfolding decoded_headers mismatch
  checked_headers request none h = absurd (cc)
  checked_headers request (some params) h =
      (params, refl, decoded_headers-Mirrors call request params h)

  headers_checked :
      (request : Request) (e : Option RpcError)
      → (with_headers env ctx now random call request e server).1 ≢ server
      → e ≡ none
  unfolding with_headers
  headers_checked request (some e) changed = absurd (changed refl)
  headers_checked request none changed = refl

  envelope_checked :
      (request : Request) (e : Option RpcError)
      → (with_envelope env ctx now random call request e server).1 ≢ server
      → (e ≡ none) × (validate_http_headers call request ≡ none)
  unfolding with_envelope
  envelope_checked request (some e) changed = absurd (changed refl)
  envelope_checked request none changed =
      (refl, headers_checked request (validate_http_headers call request) changed)

  request-Shown :
      (found : Option Request)
      → (with_request env ctx now random call found server).1 ≢ server
      → Shown found
  unfolding with_request validate_http_headers
  request-Shown none changed = absurd (changed refl)
  request-Shown (some request) changed =
      let (valid, agree) = envelope_checked request (validate_request request) changed in
      let (params, decoded, mirrored) =
        checked_headers request (decode_header_params request.params) agree in
      (request, params, refl, valid, decoded, mirrored)

-- A call over HTTP changes the server only if it is a POST of JSON from a valid origin that accepts
-- both media types, its body is a single well-formed request, and its headers repeat the protocol
-- version, the method and, where the method has one, the name that the body gives.
pub serve-Admitted :
    (env : Environment) (ctx : Ctx) (now : ℕ) (random : Result Message (List ℕ)) (call : HttpCall)
    (server : Server)
    → (serve env ctx now random call server).1 ≢ server
    → Admitted call
unfolding serve
serve-Admitted env ctx now random call server changed = elim (Bool-cases (call.method == "POST")) [
  | inr a ↦ absurd (changed (rw a refl))
  | inl a ↦ elim (Bool-cases (valid_request_origin call)) [
    | inr b ↦ absurd (changed (rw (a, b) refl))
    | inl b ↦ elim (Bool-cases (media_type call.content_type "application/json")) [
      | inr c ↦ absurd (changed (rw (a, b, c) refl))
      | inl c ↦ elim (Bool-cases (accepts_media_type call.accept "application/json")) [
        | inr d ↦ absurd (changed (rw (a, b, c, d) refl))
        | inl d ↦ elim (Bool-cases (accepts_media_type call.accept "text/event-stream")) [
          | inr e ↦ absurd (changed (rw (a, b, c, d, e) refl))
          | inl e ↦
              let (request, params, sent, valid, decoded, mirrored) =
                request-Shown env ctx now random call server (decoded_request call.body)
                  (rw (a, b, c, d, e) at changed) in
              record {
                posted = (eq_iff call.method "POST").0 a;
                origin_valid = b;
                sends_json = c;
                accepts_json = d;
                accepts_events = e;
                request = request;
                params = params;
                sent = sent;
                well_formed = valid;
                decoded = decoded;
                mirrored = mirrored;
              }
        ]
      ]
    ]
  ]
]
