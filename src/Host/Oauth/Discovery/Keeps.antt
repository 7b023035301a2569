-- ===== src/Host/Oauth/Discovery/Keeps.antt =====
-- internal/host/oauth.go: the discovery of metadata leaves the tokens and the pending flows alone, and
-- makes no request that carries a token or a code.
use mcp_from_scratch.Protocol.Errors.{Message}
use mcp_from_scratch.Host.Oauth.{
  Url, OauthToken, PendingFlow, WebCall, Web, OauthConfig, OauthState, OauthAction, fetch_json,
}
use mcp_from_scratch.Host.Oauth.Endpoint.{validate_endpoint}
use mcp_from_scratch.Host.Oauth.Rules.{Holds, Stays, Keeps, fetch_json-Keeps}
use mcp_from_scratch.Host.Oauth.Discovery.{
  ResourceMetadata, ServerMetadata, decode_resource, settle_resource, try_resources,
  discover_resource, decode_server, check_server, try_servers, settle_server, walk_servers,
  discover_authorization_server,
}
use mcp_from_scratch.Base.{
  String, inl, inr, Bool, true, false, Option, none, some, List, [], ◌∷◌, Map, Result, ok, err,
  Result-cases,
}

module _ {W : Type 0} (web : Web W) (config : OauthConfig)
    (Q : Map OauthToken → Map PendingFlow → List WebCall → Type 0) where
  settle_resource-Keeps :
      (next : ResourceMetadata → OauthAction W ResourceMetadata) (t : ResourceMetadata × Bool)
      (s : OauthState W)
      → ((m : ResourceMetadata) (s' : OauthState W) → Holds web Q s' → Stays web Q (next m s'))
      → Holds web Q s
      → Stays web Q (settle_resource web config next t s)
  settle_resource-Keeps next (m, true) s k h = h
  settle_resource-Keeps next (m, false) s k h = k m s h

  try_resources-Keeps :
      (candidates : List String) (found : ResourceMetadata) (s : OauthState W)
      → Holds web Q s
      → Stays web Q (try_resources web config candidates found s)
  unfolding try_resources
  try_resources-Keeps [] found s h = h
  try_resources-Keeps (c ∷ rest) found s h =
      elim (Result-cases
        (validate_endpoint web config.allow_loopback c "protected resource metadata URL")) [
          | inl (e, bad) ↦ rw (bad, try_resources) (try_resources-Keeps rest found s h)
          | inr (url, good) ↦
              rw (good, try_resources)
                (settle_resource-Keeps (try_resources web config rest)
                  (decode_resource (fetch_json web c s).0 found) (fetch_json web c s).1
                  (try_resources-Keeps rest) (fetch_json-Keeps web Q c s h))
        ]

  pub discover_resource-Keeps :
      (endpoint : Url) (advertised : String)
      → Keeps web Q (discover_resource web config endpoint advertised)
  unfolding discover_resource
  discover_resource-Keeps endpoint advertised = record { run = try_resources-Keeps _ _ }

  settle_server-Keeps :
      (issuer : String) (next : OauthAction W ServerMetadata) (o : Option ServerMetadata)
      (s : OauthState W)
      → ((s' : OauthState W) → Holds web Q s' → Stays web Q (next s'))
      → Holds web Q s
      → Stays web Q (settle_server web config issuer next o s)
  settle_server-Keeps issuer next none s k h = k s h
  settle_server-Keeps issuer next (some m) s k h =
      elim (Result-cases (check_server web config issuer m)) [
        | inl (e, bad) ↦ rw bad h
        | inr (a, good) ↦ rw good h
      ]

  try_servers-Keeps :
      (issuer : String) (candidates : List String) (s : OauthState W)
      → Holds web Q s
      → Stays web Q (try_servers web config issuer candidates s)
  unfolding try_servers
  try_servers-Keeps issuer [] s h = h
  try_servers-Keeps issuer (c ∷ rest) s h =
      settle_server-Keeps issuer (try_servers web config issuer rest)
        (decode_server (fetch_json web c s).0) (fetch_json web c s).1
        (try_servers-Keeps issuer rest) (fetch_json-Keeps web Q c s h)

  walk_servers-Keeps :
      (issuer : String) (parsed : Result Message Url) (s : OauthState W)
      → Holds web Q s
      → Stays web Q (walk_servers web config issuer parsed s)
  walk_servers-Keeps issuer (err e) s h = h
  walk_servers-Keeps issuer (ok url) s h = try_servers-Keeps issuer _ s h

  pub discover_authorization_server-Keeps :
      (issuer : String) → Keeps web Q (discover_authorization_server web config issuer)
  unfolding discover_authorization_server
  discover_authorization_server-Keeps issuer = record { run = walk_servers-Keeps issuer _ }
