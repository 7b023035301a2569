-- ===== src/Host/Oauth/Flow.antt =====
-- internal/host/oauth.go: the authorization code flow.
pub mod Binding
pub mod Redemption
pub mod Pending
use Prim.Native.String.{◌++◌ as append}
use mcp_from_scratch.Protocol.Errors.{Message, plain}
use mcp_from_scratch.Json.Decode.{as_struct, string_member, strings_member, ◌>>=◌ as and_then}
use mcp_from_scratch.Base.Decimal.{ℤ, pos, negsuc, codes, parse_int}
use mcp_from_scratch.Base.Base64.{encode}
use mcp_from_scratch.Base.Text.{words}
use mcp_from_scratch.Base.Actions.{return, fail, lift, deferring, ◌>>=◌}
use mcp_from_scratch.Host.Oauth.{
  Url, OauthCallback, OauthToken, PendingFlow, save_flow, take_flow, save_token, token_of, Web,
  WebResponse, form_call, OauthConfig, OauthState, OauthAction, send_call, read_now, in_world,
  decode_oauth_json,
}
use mcp_from_scratch.Host.Oauth.Endpoint.{validate_endpoint}
use mcp_from_scratch.Host.Oauth.Challenge.{contains_all}
use mcp_from_scratch.Host.Oauth.Discovery.{
  ResourceMetadata, ServerMetadata, discover_resource, discover_authorization_server,
}
use mcp_from_scratch.Host.Oauth.Registration.{resolve_client_id}
use mcp_from_scratch.Base.{
  ℕ, ◌+◌, ◌-◌, ◌*◌, ◌%◌, ◌^◌, String, not, ◌&&◌, ◌||◌, Option, none, some, List, [], ◌∷◌, arith,
  ◌==◌, ltb, leb, eqb, if◌then◌else◌, member, Map, ok,
}
use mcp_from_scratch.Json.{null, num, Raw, get}

pub record TokenAnswer : Type 0 where
  pub access_token : String
  pub expires_in : ℕ
  pub scope : String
  pub audience : List String

-- A member of type int64; only what is above 0 is used.
abbrev positive : Option ℤ → Option ℕ
positive none = none
positive (some (pos n)) = some n
positive (some (negsuc n)) = some 0

abbrev as_int : Raw → Option ℕ
as_int none = some 0
as_int (some null) = some 0
as_int (some (num literal)) = positive (parse_int (codes literal))
as_int (some _) = none

decode_answer : Raw → Option TokenAnswer
decode_answer raw = and_then (as_struct raw) λ fields.
    and_then (string_member "access_token" fields) λ token.
      and_then (as_int (get "expires_in" fields)) λ expires.
        and_then (string_member "scope" fields) λ scope.
          and_then (strings_member "aud" fields) λ audience. some (record {
            access_token = token;
            expires_in = expires;
            scope = scope;
            audience = audience;
          })

pub usable : WebResponse → Option TokenAnswer
unfolding decode_answer
usable response =
    if leb 300 response.status then none else decode_answer (decode_oauth_json response.body)

-- now.Add(time.Duration(seconds) * time.Second), in 64-bit arithmetic.
unfoldable pub expiry : ℕ → ℕ → ℕ
expiry now seconds =
    let nanos = (seconds * 1000000000) % 2 ^ 64 in
    if ltb nanos (2 ^ 63) then now + nanos else now - (2 ^ 64 - nanos)

unfoldable pub code_form : String → String → PendingFlow → Map String
code_form client_id code flow =
    ("grant_type", "authorization_code")
    ∷ ("code", code)
    ∷ ("client_id", client_id)
    ∷ ("redirect_uri", flow.redirect_uri)
    ∷ ("code_verifier", flow.verifier)
    ∷ ("resource", flow.resource)
    ∷ []

unfoldable pub token_from : PendingFlow → ℕ → TokenAnswer → OauthToken
token_from flow now answer = record {
  access_token = answer.access_token;
  issuer = flow.issuer;
  resource = flow.resource;
  audience = answer.audience;
  scopes = words answer.scope;
  expires_at = expiry now answer.expires_in;
}

-- strings.Join(words, " ")
unfoldable pub join_words : List String → String
join_words [] = ""
join_words (w ∷ ws) =
    let rest = join_words ws in elim ws [ [] ↦ w | _ ∷ _ ↦ append w (append " " rest) ]

abbrev covering : List String → Option OauthToken → Option OauthToken
covering scopes none = none
covering scopes (some token) = if contains_all token.scopes scopes then some token else none

module _ {W : Type 0} (web : Web W) (config : OauthConfig) where
  abbrev accept_answer : PendingFlow → Option TokenAnswer → OauthAction W OauthToken
  accept_answer flow none = fail (plain "token exchange failed")
  accept_answer flow (some answer) =
      if answer.access_token == "" || eqb answer.expires_in 0
      then fail (plain "token exchange failed")
      else if not (member flow.resource answer.audience)
      then fail (plain "token audience mismatch")
      else read_now web >>= λ now. return (token_from flow now answer)

  unfoldable pub exchange_code : String → String → String → PendingFlow → OauthAction W OauthToken
  unfolding validate_endpoint code_form token_from usable send_call read_now decode_oauth_json
  exchange_code endpoint client_id code flow = do
    url ← lift (validate_endpoint web config.allow_loopback endpoint "token endpoint")
    response ← send_call web (form_call endpoint (code_form client_id code flow))
    accept_answer flow (usable response)

  unfoldable pub take_pending : String → OauthAction W (Option PendingFlow)
  take_pending state s =
      let taken = take_flow state s.store in (ok taken.0, record s { store = taken.1 })

  unfoldable pub put_flow : PendingFlow → OauthAction W (Unit {0})
  put_flow flow s = (ok tt, record s { store = save_flow flow s.store })

  unfoldable pub put_token : OauthToken → OauthAction W (Unit {0})
  put_token token s = (ok tt, record s { store = save_token token s.store })

  -- What is checked of the callback before its code is used; `none` is no error.
  unfoldable pub callback_error : String → OauthCallback → ℕ → Option PendingFlow → Option Message
  callback_error state callback now none = some (plain "oauth state mismatch or expired")
  callback_error state callback now (some stored) =
      if not (callback.state == state)
        || not (stored.state == state)
        || not (ltb now stored.expires_at)
      then some (plain "oauth state mismatch or expired")
      else if not (callback.issuer == "") && not (callback.issuer == stored.issuer)
      then some (plain "authorization issuer mismatch")
      else if stored.issuer_required && callback.issuer == ""
      then some (plain "authorization issuer missing")
      else none

  abbrev use_callback :
      ServerMetadata
      → String
      → OauthCallback
      → Option Message
      → Option PendingFlow
      → OauthAction W OauthToken
  use_callback server client_id callback (some e) stored = fail e
  use_callback server client_id callback none none = fail (plain "oauth state mismatch or expired")
  use_callback server client_id callback none (some stored) = do
    token ← exchange_code server.token_endpoint client_id callback.code stored
    saved ← put_token token
    return token

  -- From the answer of the user's agent to the token.
  unfoldable pub redeem :
      ServerMetadata → String → String → OauthCallback → OauthAction W OauthToken
  unfolding take_pending read_now callback_error exchange_code put_token
  redeem server client_id state callback = do
    stored ← take_pending state
    now ← read_now web
    use_callback server client_id callback (callback_error state callback now stored) stored

  random_token : ℕ → OauthAction W String
  random_token size = do bytes ← (λ s. in_world s (web.random size s.world)); return (encode bytes)

  abbrev drop_flow : String → OauthState W → OauthState W
  drop_flow state s = record s { store = (take_flow state s.store).1 }

  -- The parameters that are set on the query of the authorization endpoint.
  authorization_query : String → String → PendingFlow → Map String
  unfolding join_words
  authorization_query client_id resource flow =
      ("response_type", "code")
      ∷ ("client_id", client_id)
      ∷ ("redirect_uri", config.redirect_uri)
      ∷ ("resource", resource)
      ∷ ("scope", join_words flow.scopes)
      ∷ ("state", flow.state)
      ∷ ("code_challenge", encode (web.sha256 (codes flow.verifier)))
      ∷ ("code_challenge_method", "S256")
      ∷ []

  unfoldable pub open_flow : ServerMetadata → String → PendingFlow → OauthAction W OauthToken
  unfolding redeem authorization_query validate_endpoint
  open_flow server client_id flow = do
    url ← lift (
        validate_endpoint web config.allow_loopback server.authorization_endpoint
          "authorization endpoint")
    callback ← (λ s.
        in_world s
          (web.open_authorization url (authorization_query client_id flow.resource flow) s.world))
    redeem server client_id flow.state callback

  pending_flow : ServerMetadata → String → List String → String → String → ℕ → PendingFlow
  pending_flow server resource scopes state verifier now = record {
    issuer = server.issuer;
    resource = resource;
    state = state;
    verifier = verifier;
    redirect_uri = config.redirect_uri;
    scopes = scopes;
    issuer_required = server.issuer_parameter_supported;
    expires_at = now + 5 * 60 * 1000000000;
  }

  unfoldable pub run_flow : ServerMetadata → String → PendingFlow → OauthAction W OauthToken
  unfolding put_flow open_flow
  run_flow server client_id flow = do
    saved ← put_flow flow
    deferring (open_flow server client_id flow) (drop_flow flow.state)

  unfoldable pub obtain_token : ServerMetadata → String → List String → OauthAction W OauthToken
  unfolding resolve_client_id random_token run_flow read_now pending_flow
  obtain_token server resource scopes =
      if not (member "S256" server.code_challenge_methods)
      then fail (plain "authorization server does not support PKCE S256")
      else do
        client_id ← resolve_client_id web config server resource
        state ← random_token 24
        verifier ← random_token 48
        now ← read_now web
        run_flow server client_id (pending_flow server resource scopes state verifier now)

  unfoldable pub reusable_token :
      ServerMetadata → String → List String → OauthAction W (Option OauthToken)
  unfolding token_of contains_all
  reusable_token server resource scopes s =
      (ok (covering scopes (token_of server.issuer resource (web.now s.world) s.store)), s)

  abbrev token_or_obtain :
      ServerMetadata → String → List String → Option OauthToken → OauthAction W OauthToken
  token_or_obtain server resource scopes (some token) = return token
  token_or_obtain server resource scopes none = obtain_token server resource scopes

  abbrev with_resource : List String → ResourceMetadata → List String → OauthAction W OauthToken
  with_resource scopes found [] = fail (plain "protected resource metadata mismatch")
  with_resource scopes found (issuer ∷ others) =
      if not (found.resource == config.canonical_resource_uri)
      then fail (plain "protected resource metadata mismatch")
      else do
        server ← discover_authorization_server web config issuer
        token ← reusable_token server found.resource scopes
        token_or_obtain server found.resource scopes token

  unfoldable pub authorize : Url → String → List String → OauthAction W OauthToken
  unfolding discover_resource discover_authorization_server reusable_token obtain_token
  authorize endpoint metadata_url scopes = do
    found ← discover_resource web config endpoint metadata_url
    with_resource scopes found found.authorization_servers
