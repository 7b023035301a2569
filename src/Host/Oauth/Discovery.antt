-- ===== src/Host/Oauth/Discovery.antt =====
-- internal/host/oauth.go: the metadata of the protected resource and of its authorization server.
pub mod Keeps
use Prim.Native.Char.{code}
use Prim.Native.String.{◌++◌ as append}
use mcp_from_scratch.Protocol.Errors.{Message, plain}
use mcp_from_scratch.Json.Decode.{
  as_struct, string_member, bool_member, strings_member, ◌>>=◌ as and_then,
}
use mcp_from_scratch.Host.Oauth.{Url, Web, OauthConfig, OauthState, OauthAction, fetch_json}
use mcp_from_scratch.Host.Oauth.Endpoint.{validate_endpoint}
use mcp_from_scratch.Base.{
  String, Bool, true, false, not, ◌&&◌, Option, none, some, List, [], ◌∷◌, arith, ◌==◌, eqb,
  if◌then◌else◌, Result, ok, err,
}
use mcp_from_scratch.Base.{◌>>=◌}
use mcp_from_scratch.Json.{null, str, arr, obj, Items, nil, cons, Raw, get}

pub record ResourceMetadata : Type 0 where
  pub resource : String
  pub authorization_servers : List String

pub record ServerMetadata : Type 0 where
  pub issuer : String
  pub authorization_endpoint : String
  pub token_endpoint : String
  pub registration_endpoint : String
  pub code_challenge_methods : List String
  pub issuer_parameter_supported : Bool
  pub client_id_metadata_supported : Bool

-- A member that is decoded into a variable which may hold the value of an earlier attempt, and
-- whether it had the right type.
abbrev text_onto : Raw → String → String × Bool
text_onto none old = (old, true)
text_onto (some null) old = (old, true)
text_onto (some (str s)) old = (s, true)
text_onto (some _) old = (old, false)

texts : Items → List String × Bool
texts nil = ([], true)
texts (cons (str s) vs) = let rest = texts vs in (s ∷ rest.0, rest.1)
texts (cons null vs) = let rest = texts vs in ("" ∷ rest.0, rest.1)
texts (cons _ vs) = let rest = texts vs in ("" ∷ rest.0, false)

abbrev texts_onto : Raw → List String → List String × Bool
texts_onto none old = (old, true)
texts_onto (some null) old = ([], true)
texts_onto (some (arr vs)) old = texts vs
texts_onto (some _) old = (old, false)

decode_resource : Raw → ResourceMetadata → ResourceMetadata × Bool
unfolding texts
decode_resource (some null) old = (old, true)
decode_resource (some (obj fs)) old =
    let resource = text_onto (get "resource" fs) old.resource in
    let servers = texts_onto (get "authorization_servers" fs) old.authorization_servers in
    (record { resource = resource.0; authorization_servers = servers.0 }, resource.1 && servers.1)
decode_resource _ old = (old, false)

decode_server : Raw → Option ServerMetadata
decode_server raw = and_then (as_struct raw) λ fields.
    and_then (string_member "issuer" fields) λ issuer.
      and_then (string_member "authorization_endpoint" fields) λ authorization.
        and_then (string_member "token_endpoint" fields) λ token.
          and_then (string_member "registration_endpoint" fields) λ registration.
            and_then (strings_member "code_challenge_methods_supported" fields) λ methods.
              and_then (bool_member "authorization_response_iss_parameter_supported" fields) λ iss.
                and_then (bool_member "client_id_metadata_document_supported" fields) λ documents.
                  some (record {
                    issuer = issuer;
                    authorization_endpoint = authorization;
                    token_endpoint = token;
                    registration_endpoint = registration;
                    code_challenge_methods = methods;
                    issuer_parameter_supported = iss;
                    client_id_metadata_supported = documents;
                  })

-- strings.TrimSuffix(s, "/")
trim_slash : String → String
trim_slash String.[] = ""
trim_slash (String.◌∷◌ c s) =
    let rest = trim_slash s in if s == "" && eqb (code c) b'/' then "" else String.◌∷◌ c rest

resource_candidates : Url → String → List String
resource_candidates endpoint advertised =
    let base = append endpoint.scheme (append "://" endpoint.host) in
    if advertised == ""
    then append base (append "/.well-known/oauth-protected-resource" endpoint.escaped_path)
      ∷ append base "/.well-known/oauth-protected-resource"
      ∷ []
    else advertised ∷ []

server_candidates : String → Url → List String
unfolding trim_slash
server_candidates issuer parsed =
    let base = append parsed.scheme (append "://" parsed.host) in
    let path = trim_slash parsed.escaped_path in
    append base (append "/.well-known/oauth-authorization-server" path)
    ∷ append (trim_slash issuer) "/.well-known/oauth-authorization-server"
    ∷ append base (append "/.well-known/openid-configuration" path)
    ∷ append (trim_slash issuer) "/.well-known/openid-configuration"
    ∷ []

module _ {W : Type 0} (web : Web W) (config : OauthConfig) where
  abbrev settle_resource :
      (ResourceMetadata → OauthAction W ResourceMetadata)
      → ResourceMetadata × Bool
      → OauthAction W ResourceMetadata
  settle_resource next (found, true) s = (ok found, s)
  settle_resource next (found, false) s = next found s

  abbrev take_resource :
      (ResourceMetadata → OauthAction W ResourceMetadata)
      → ResourceMetadata
      → Raw × OauthState W
      → Result Message ResourceMetadata × OauthState W
  take_resource next found (raw, s) = settle_resource next (decode_resource raw found) s

  unfoldable pub try_resources : List String → ResourceMetadata → OauthAction W ResourceMetadata
  unfolding decode_resource fetch_json validate_endpoint
  try_resources [] found s = (err (plain "protected resource metadata discovery failed"), s)
  try_resources (candidate ∷ rest) found s =
      elim (validate_endpoint web config.allow_loopback candidate
        "protected resource metadata URL") [
          | err e ↦ try_resources rest found s
          | ok url ↦ take_resource (try_resources rest) found (fetch_json web candidate s)
        ]

  unfoldable pub discover_resource : Url → String → OauthAction W ResourceMetadata
  unfolding try_resources resource_candidates
  discover_resource endpoint advertised =
      try_resources (resource_candidates endpoint advertised)
        (record { resource = ""; authorization_servers = [] })

  check_registration : ServerMetadata → Result Message ServerMetadata
  check_registration metadata =
      if metadata.registration_endpoint == ""
      then ok metadata
      else (validate_endpoint web config.allow_loopback metadata.registration_endpoint
            "registration endpoint"
          >>= λ url. ok metadata)

  check_server : String → ServerMetadata → Result Message ServerMetadata
  unfolding check_registration validate_endpoint
  check_server issuer metadata =
      if not (metadata.issuer == issuer)
      then err (plain "authorization server issuer mismatch")
      else (validate_endpoint web config.allow_loopback metadata.authorization_endpoint
            "authorization endpoint"
          >>= λ url.
              validate_endpoint web config.allow_loopback metadata.token_endpoint "token endpoint"
              >>= λ token. check_registration metadata)

  abbrev settle_server :
      String → OauthAction W ServerMetadata → Option ServerMetadata → OauthAction W ServerMetadata
  settle_server issuer next none s = next s
  settle_server issuer next (some metadata) s = (check_server issuer metadata, s)

  abbrev take_server :
      String
      → OauthAction W ServerMetadata
      → Raw × OauthState W
      → Result Message ServerMetadata × OauthState W
  take_server issuer next (raw, s) = settle_server issuer next (decode_server raw) s

  unfoldable pub try_servers : String → List String → OauthAction W ServerMetadata
  unfolding check_server decode_server fetch_json
  try_servers issuer [] s = (err (plain "authorization server discovery failed"), s)
  try_servers issuer (candidate ∷ rest) s =
      take_server issuer (try_servers issuer rest) (fetch_json web candidate s)

  abbrev walk_servers : String → Result Message Url → OauthAction W ServerMetadata
  walk_servers issuer (err e) s = (err e, s)
  walk_servers issuer (ok parsed) s = try_servers issuer (server_candidates issuer parsed) s

  unfoldable pub discover_authorization_server : String → OauthAction W ServerMetadata
  unfolding try_servers server_candidates
  discover_authorization_server issuer s =
      walk_servers issuer
        (validate_endpoint web config.allow_loopback issuer "authorization server issuer") s
