-- ===== src/Host/Oauth.antt =====
-- internal/host/oauth.go: the OAuth client of the host, its data and its store in memory. What the
-- client calls outside this program is the record `Web`, over a world `W` that the calls change; the
-- calls over HTTP are kept in the order in which they are made.
pub mod Rules
pub mod Endpoint
pub mod Challenge
pub mod Discovery
pub mod Registration
pub mod Flow
pub mod Requests
use Prim.Native.String.{◌++◌ as append}
use mcp_from_scratch.Protocol.Errors.{Message}
use mcp_from_scratch.Base.Actions.{Action}
use mcp_from_scratch.Base.{
  ℕ, String, Bool, Option, none, some, List, [], ◌∷◌, arith, ltb, leb, if◌then◌else◌, length, Map,
  lookup, insert, remove, Result, ok, err,
}
use mcp_from_scratch.Json.{Fields, Raw}

-- A parsed URL: `user` tells whether it has user information.
pub record Url : Type 0 where
  pub scheme : String
  pub host : String
  pub hostname : String
  pub escaped_path : String
  pub raw_query : String
  pub user : Bool
  pub fragment : String

-- The four bytes or the sixteen bytes of a net.IP, as one number. An IPv6 address that maps an IPv4
-- address is that IPv4 address.
pub data Ip : Type 0 where
  v4 : ℕ → Ip
  v6 : ℕ → Ip

pub record OauthCallback : Type 0 where
  pub code : String
  pub state : String
  pub issuer : String

pub record OauthToken : Type 0 where
  pub access_token : String
  pub issuer : String
  pub resource : String
  pub audience : List String
  pub scopes : List String
  pub expires_at : ℕ

pub record OauthClientRegistration : Type 0 where
  pub issuer : String
  pub resource : String
  pub client_id : String

pub record PendingFlow : Type 0 where
  pub issuer : String
  pub resource : String
  pub state : String
  pub verifier : String
  pub redirect_uri : String
  pub scopes : List String
  pub issuer_required : Bool
  pub expires_at : ℕ

pub record MemoryStore : Type 0 where
  pub flows : Map PendingFlow
  pub tokens : Map OauthToken
  pub clients : Map String

abbrev pub empty_store : MemoryStore
empty_store = record { flows = []; tokens = []; clients = [] }

unfoldable pub store_key : String → String → String
store_key issuer resource = append issuer (append "\0" resource)

unfoldable pub save_flow : PendingFlow → MemoryStore → MemoryStore
save_flow flow store = record store { flows = insert flow.state flow store.flows }

unfoldable pub take_flow : String → MemoryStore → Option PendingFlow × MemoryStore
take_flow state store =
    (lookup state store.flows, record store { flows = remove state store.flows })

unfoldable pub save_token : OauthToken → MemoryStore → MemoryStore
save_token token store = record store {
  tokens = insert (store_key token.issuer token.resource) token store.tokens;
}

abbrev unexpired : ℕ → Option OauthToken → Option OauthToken
unexpired now none = none
unexpired now (some token) = if ltb now token.expires_at then some token else none

-- `none` is `ok == false`.
unfoldable pub token_of : String → String → ℕ → MemoryStore → Option OauthToken
token_of issuer resource now store = unexpired now (lookup (store_key issuer resource) store.tokens)

unfoldable pub save_client : String → String → String → MemoryStore → MemoryStore
save_client issuer resource client_id store = record store {
  clients = insert (store_key issuer resource) client_id store.clients;
}

unfoldable pub client_of : String → String → MemoryStore → Option String
client_of issuer resource store = lookup (store_key issuer resource) store.clients

-- A request to the protected resource carries the value of its Authorization header.
pub data WebCall : Type 0 where
  resource_call : Option String → List ℕ → WebCall
  get_call : String → WebCall
  json_call : String → Fields → WebCall
  form_call : String → Map String → WebCall

-- What io.ReadAll reads of a body: an error, or its length and the JSON value that it parses to.
pub data Body : Type 0 where
  unreadable : Body
  readable : ℕ → Raw → Body

pub record WebResponse : Type 0 where
  pub status : ℕ
  pub challenges : List String
  pub body : Body

pub record OauthConfig : Type 0 where
  pub canonical_resource_uri : String
  pub redirect_uri : String
  pub client_registrations : List OauthClientRegistration
  pub client_id_metadata_url : String
  pub asks_user : Bool
  pub store_given : Bool
  pub authorization_given : Bool
  pub allow_loopback : Bool

-- `none` of `send` is a failure of the transport. `open_authorization` has the endpoint and the
-- query parameters that are set on it.
pub record Web (W : Type 0) : Type 0 where
  pub parse_url : String → Option Url
  pub parse_ip : String → Option Ip
  pub unquote : String → Option String
  pub sha256 : List ℕ → List ℕ
  pub now : W → ℕ
  pub random : ℕ → W → Result Message (List ℕ) × W
  pub send : WebCall → W → Option WebResponse × W
  pub open_authorization : Url → Map String → W → Result Message OauthCallback × W
  pub user_client_id : String → W → Result Message String × W

pub record OauthState (W : Type 0) : Type 0 where
  pub store : MemoryStore
  pub world : W
  pub calls : List WebCall

abbrev pub OauthAction : Type 0 → Type 0 → Type 0
OauthAction W A = Action Message (OauthState W) A

abbrev sent :
    {W : Type 0}
    → WebCall
    → OauthState W
    → Option WebResponse × W
    → Result Message WebResponse × OauthState W
sent call s (none, world) =
    (err (Message.plain "request failed"), record s { world = world; calls = call ∷ s.calls })
sent call s (some response, world) =
    (ok response, record s { world = world; calls = call ∷ s.calls })

-- config.HTTPClient.Do; the last call stands first.
unfoldable pub send_call : {W : Type 0} → Web W → WebCall → OauthAction W WebResponse
send_call web call s = sent call s (web.send call s.world)

unfoldable pub read_now : {W : Type 0} → Web W → OauthAction W ℕ
read_now web s = (ok (web.now s.world), s)

abbrev pub in_world :
    {W A : Type 0} → OauthState W → Result Message A × W → Result Message A × OauthState W
in_world s (r, world) = (r, record s { world = world })

-- The most bytes of a body that are read.
abbrev pub max_body : ℕ
max_body = 1048576

unfoldable pub decode_oauth_json : Body → Raw
decode_oauth_json unreadable = none
decode_oauth_json (readable size value) = if ltb max_body size then none else value

abbrev fetched : WebResponse → Raw
fetched response = if leb 300 response.status then none else decode_oauth_json response.body

abbrev as_fetched : {W : Type 0} → Result Message WebResponse × OauthState W → Raw × OauthState W
as_fetched (ok response, s) = (fetched response, s)
as_fetched (err e, s) = (none, s)

-- fetchJSON up to the decoding; `none` is an error.
unfoldable pub fetch_json : {W : Type 0} → Web W → String → OauthState W → Raw × OauthState W
unfolding send_call decode_oauth_json
fetch_json web endpoint s = as_fetched (send_call web (get_call endpoint) s)

-- At one bound the body that is replayed: `fails` tells that reading ends with an error.
pub data RequestBody : Type 0 where
  no_body : RequestBody
  body_of : List ℕ → Bool → RequestBody

unfoldable pub read_replay_body : RequestBody → Result Message (List ℕ)
read_replay_body no_body = ok []
read_replay_body (body_of bytes fails) =
    if ltb max_body (length bytes)
    then err (Message.counting "oauth request body exceeds " max_body " bytes")
    else if fails
    then err (Message.plain "read failed")
    else ok bytes
