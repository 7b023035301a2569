-- ===== src/Host/Oauth/Requests.antt =====
-- OAuthHost.Do of internal/host/oauth.go: a request to the protected resource, and its repetitions
-- with a token.
pub mod Bounds
use Prim.Native.String.{◌++◌ as append}
use mcp_from_scratch.Protocol.Errors.{plain}
use mcp_from_scratch.Base.Actions.{fail, lift, return, ◌>>=◌}
use mcp_from_scratch.Host.Oauth.{
  Url, Web, WebResponse, resource_call, OauthConfig, OauthAction, RequestBody, read_replay_body,
  send_call,
}
use mcp_from_scratch.Host.Oauth.Endpoint.{validate_endpoint, same_oauth_resource}
use mcp_from_scratch.Host.Oauth.Challenge.{parse_bearer_challenges, union_scopes}
use mcp_from_scratch.Host.Oauth.Flow.{authorize}
use mcp_from_scratch.Base.{
  ℕ, zero, suc, String, Bool, not, ◌||◌, Option, none, some, List, arith, ◌==◌, eqb, if◌then◌else◌,
}

-- A request without what the client leaves as it is: `text` is request.URL.String().
pub record OauthRequest : Type 0 where
  pub url : Url
  pub text : String
  pub body : RequestBody

-- The Authorization header of the caller is dropped; the zero token is the empty text.
abbrev pub authorization : String → Option String
authorization token = if token == "" then none else some (append "Bearer " token)

abbrev pub refused : ℕ → Bool
refused status = eqb status 401 || eqb status 403

module _ {W : Type 0} (web : Web W) (config : OauthConfig) (url : Url) (body : List ℕ) where
  -- One attempt, and as many more as are left.
  unfoldable pub attempts : ℕ → List String → String → OauthAction W WebResponse
  unfolding send_call authorize parse_bearer_challenges union_scopes
  attempts zero scopes token = do
    response ← send_call web (resource_call (authorization token) body)
    if not (refused response.status)
        then return response
        else fail (plain "oauth authorization retry exhausted")
  attempts (suc left) scopes token = do
    response ← send_call web (resource_call (authorization token) body)
    if not (refused response.status)
        then return response
        else (lift (parse_bearer_challenges web.unquote response.challenges) >>= λ challenge.
            let wanted = union_scopes scopes challenge.1 in
            authorize web config url challenge.0 wanted >>= λ next.
            attempts left wanted next.access_token)

module _ {W : Type 0} (web : Web W) (config : OauthConfig) where
  unfoldable pub do_request : Option OauthRequest → List String → OauthAction W WebResponse
  unfolding validate_endpoint same_oauth_resource read_replay_body attempts
  do_request none scopes = fail (plain "oauth request is required")
  do_request (some request) scopes = do
    checked ←
        lift
          (validate_endpoint web config.allow_loopback request.text "protected resource endpoint")
    if not (same_oauth_resource web request.url config.canonical_resource_uri)
        then fail (plain "protected resource endpoint mismatch")
        else (lift (read_replay_body request.body) >>= λ body.
            attempts web config request.url body 2 scopes "")
