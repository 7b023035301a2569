-- ===== src/Host/Oauth/Registration.antt =====
-- internal/host/oauth.go: the client identifier for an authorization server, and the checks that
-- NewOAuthHost makes of a configuration.
pub mod Keeps
use mcp_from_scratch.Protocol.Errors.{Message, plain}
use mcp_from_scratch.Json.Decode.{as_struct, string_member, strings_member, ◌>>=◌ as and_then}
use mcp_from_scratch.Host.Oauth.{
  Web, Url, WebResponse, json_call, OauthConfig, OauthClientRegistration, OauthState, OauthAction,
  client_of, save_client, fetch_json, send_call, decode_oauth_json, in_world,
}
use mcp_from_scratch.Host.Oauth.Endpoint.{validate_endpoint}
use mcp_from_scratch.Host.Oauth.Discovery.{ServerMetadata}
use mcp_from_scratch.Base.{
  String, Bool, true, false, not, ◌&&◌, ◌||◌, Option, none, some, List, [], ◌∷◌, arith, ◌==◌, ltb,
  if◌then◌else◌, member, Result, ok, err,
}
use mcp_from_scratch.Base.{◌>>=◌}
use mcp_from_scratch.Json.{str, arr, Fields, Raw, object, strings}

-- s.saveClient, and the identifier as the result.
unfoldable pub keep_client : {W : Type 0} → String → String → String → OauthAction W String
keep_client issuer resource client_id s =
    (ok client_id, record s { store = save_client issuer resource client_id s.store })

unfoldable pub find_registration :
    String → String → List OauthClientRegistration → Option OauthClientRegistration
find_registration issuer resource [] = none
find_registration issuer resource (r ∷ rest) =
    let more = find_registration issuer resource rest in
    if r.issuer == issuer && r.resource == resource then some r else more

pub record ClientDocument : Type 0 where
  pub client_id : String
  pub client_name : String
  pub redirect_uris : List String

decode_document : Raw → Option ClientDocument
decode_document raw = and_then (as_struct raw) λ fields.
    and_then (string_member "client_id" fields) λ id.
      and_then (string_member "client_name" fields) λ name.
        and_then (strings_member "redirect_uris" fields)
          λ uris. some (record { client_id = id; client_name = name; redirect_uris = uris })

decode_registered : Raw → Option String
decode_registered raw = and_then (as_struct raw) λ fields. string_member "client_id" fields

abbrev local_host : Option Url → Bool
local_host none = false
local_host (some url) =
    url.hostname == "localhost" || url.hostname == "127.0.0.1" || url.hostname == "::1"

module _ {W : Type 0} (web : Web W) (config : OauthConfig) where
  registration_payload : Fields
  registration_payload = object (
      ("redirect_uris", arr (strings (config.redirect_uri ∷ [])))
      ∷ (
        "application_type",
        str (if local_host (web.parse_url config.redirect_uri) then "native" else "web"),
      )
      ∷ ("client_name", str "mcp-from-scratch-host")
      ∷ [])

  abbrev use_document : String → String → Option ClientDocument → OauthAction W String
  use_document issuer resource none s = (err (plain "fetch client ID metadata"), s)
  use_document issuer resource (some document) s =
      if not (document.client_id == config.client_id_metadata_url)
        || document.client_name == ""
        || not (member config.redirect_uri document.redirect_uris)
      then (err (plain "client ID metadata mismatch"), s)
      else keep_client issuer resource document.client_id s

  abbrev with_document : String → String → Raw × OauthState W → Result Message String × OauthState W
  with_document issuer resource (raw, s) = use_document issuer resource (decode_document raw) s

  abbrev keep_answer : String → String → Result Message String → OauthAction W String
  keep_answer issuer resource (err e) s = (err e, s)
  keep_answer issuer resource (ok client_id) s =
      if client_id == "" then (ok "", s) else keep_client issuer resource client_id s

  abbrev answered :
      String → String → Result Message String × OauthState W → Result Message String × OauthState W
  answered issuer resource (r, s) = keep_answer issuer resource r s

  ask_user : String → String → OauthAction W String
  ask_user issuer resource s =
      if config.asks_user
      then answered issuer resource (in_world s (web.user_client_id issuer s.world))
      else (err (plain "no OAuth client registration available"), s)

  abbrev registered_id : WebResponse → Option String
  registered_id response =
      if ltb response.status 300 then decode_registered (decode_oauth_json response.body) else none

  -- A registration that fails is no error: the user is asked instead.
  abbrev use_registered : String → String → Option String → OauthAction W String
  use_registered issuer resource none s = ask_user issuer resource s
  use_registered issuer resource (some client_id) s =
      if client_id == ""
      then ask_user issuer resource s
      else keep_client issuer resource client_id s

  abbrev registered :
      String
      → String
      → Result Message WebResponse × OauthState W
      → Result Message String × OauthState W
  registered issuer resource (err e, s) = ask_user issuer resource s
  registered issuer resource (ok response, s) =
      use_registered issuer resource (registered_id response) s

  unfoldable pub register_client : ServerMetadata → String → OauthAction W String
  unfolding ask_user keep_client decode_document decode_registered registration_payload fetch_json
      send_call decode_oauth_json
  register_client server resource s =
      if not (config.client_id_metadata_url == "") && server.client_id_metadata_supported
      then with_document server.issuer resource (fetch_json web config.client_id_metadata_url s)
      else if not (server.registration_endpoint == "")
      then registered server.issuer resource
          (send_call web (json_call server.registration_endpoint registration_payload) s)
      else ask_user server.issuer resource s

  abbrev preregistered :
      ServerMetadata → String → Option OauthClientRegistration → OauthAction W String
  preregistered server resource (some r) s = keep_client server.issuer resource r.client_id s
  preregistered server resource none s = register_client server resource s

  abbrev stored_or : Option String → OauthAction W String → OauthAction W String
  stored_or (some client_id) next s = (ok client_id, s)
  stored_or none next s = next s

  unfoldable pub resolve_client_id : ServerMetadata → String → OauthAction W String
  unfolding keep_client register_client client_of find_registration
  resolve_client_id server resource s =
      stored_or (client_of server.issuer resource s.store)
        (preregistered server resource
          (find_registration server.issuer resource config.client_registrations))
        s

  check_registrations : List OauthClientRegistration → Result Message (Unit {0})
  unfolding validate_endpoint
  check_registrations [] = ok tt
  check_registrations (r ∷ rest) =
      if r.issuer == "" || r.resource == "" || r.client_id == ""
      then err (plain "oauth client registration requires issuer, resource, and client ID")
      else do
        issuer ← validate_endpoint web config.allow_loopback r.issuer "client registration issuer"
        resource ←
            validate_endpoint web config.allow_loopback r.resource "client registration resource"
        check_registrations rest

  check_metadata_url : Result Message (Unit {0})
  unfolding validate_endpoint
  check_metadata_url = if config.client_id_metadata_url == "" then ok tt else do
    url ←
        validate_endpoint web config.allow_loopback config.client_id_metadata_url
          "client ID metadata URL"
    ok tt

  -- The checks before the transport is made; the redirect may always lead to the loopback.
  unfoldable pub new_oauth_host : Result Message OauthConfig
  unfolding check_registrations check_metadata_url validate_endpoint
  new_oauth_host =
      if config.canonical_resource_uri == ""
        || config.redirect_uri == ""
        || not config.store_given
        || not config.authorization_given
      then err
          (plain "oauth host requires resource, redirect, memory store, and authorization callback")
      else do
        resource ←
            validate_endpoint web config.allow_loopback config.canonical_resource_uri
              "canonical resource URI"
        redirect ← validate_endpoint web true config.redirect_uri "redirect URI"
        checked ← check_metadata_url
        registered ← check_registrations config.client_registrations
        ok config
