-- ===== src/Oauth.antt =====
-- internal/mcpserver/oauth.go: the OAuth resource server in front of the HTTP handler. The validator
-- of tokens, which the program is given, and url.Parse are parameters; the handler behind is told by
-- what it is called with.
pub mod Access
pub mod Policy
use Prim.Native.Char.{code}
use Prim.Native.String.{◌++◌ as append}
use mcp_from_scratch.Base.Text.{equal_fold, words}
use mcp_from_scratch.Protocol.Requests.{Request, unmarshal_request}
use mcp_from_scratch.Json.Decode.{as_struct, string_member}
use mcp_from_scratch.Json.Decode.{◌>>=◌ as bind}
use mcp_from_scratch.Base.{
  ℕ, String, Bool, false, not, ◌&&◌, ◌||◌, Option, none, some, List, [], ◌∷◌, ◌++◌, arith, ◌==◌,
  ltb, eqb, if◌then◌else◌, member, Map, lookup,
}
use mcp_from_scratch.Base.{◌>>=◌}
use mcp_from_scratch.Json.{Raw}

abbrev pub max_oauth_request_body_bytes : ℕ
max_oauth_request_body_bytes = 1048576

abbrev pub oauth_invalid_token_error : String
oauth_invalid_token_error = "invalid_token"

abbrev pub oauth_scope_error : String
oauth_scope_error = "insufficient_scope"

-- The zero time is `none`.
pub record TokenClaims : Type 0 where
  pub active : Bool
  pub expires_at : Option ℕ
  pub issuer : String
  pub audience : List String
  pub scopes : List String
  pub subject : String

pub record Principal : Type 0 where
  pub subject : String
  pub issuer : String
  pub audience : List String
  pub scopes : List String
  pub claims : TokenClaims

-- What url.Parse finds in a URL.
pub record Url : Type 0 where
  pub scheme : String
  pub hostname : String
  pub has_user : Bool
  pub fragment : String
  pub path : String
  pub raw_query : String

abbrev pub ScopePolicy : Type 0
ScopePolicy = Map (List String)

pub record ResourceServerConfig : Type 0 where
  pub canonical_resource_uri : String
  pub protected_resource_metadata_url : String
  pub authorization_servers : List String
  pub scopes_supported : List String
  pub method_scopes : ScopePolicy

pub record ResourceServer : Type 0 where
  pub config : ResourceServerConfig
  pub metadata_url : Url
  pub policy : ScopePolicy

-- A body with its size in bytes and the JSON that it is, if it is.
pub record Body : Type 0 where
  pub size : ℕ
  pub content : Raw

-- A request as the wrapper reads it; a body that cannot be read is `failed`.
pub data BodyRead : Type 0 where
  no_body failed : BodyRead
  bytes : Body → BodyRead

pub record HttpRequest : Type 0 where
  pub method : String
  pub path : String
  pub raw_query : String
  pub access_token_in_query : Bool
  pub authorization : List String
  pub mcp_method : String
  pub mcp_name : String
  pub body : BodyRead

-- A response of the wrapper, or the delegation with the principal of the tasks.
pub data Served : Type 0 where
  metadata : Served
  unauthorized : String → Served
  forbidden : String → Served
  invalid_request : Served
  delegated : Principal → String → Served

replace_all : ℕ → String → String → String
replace_all old new String.[] = String.[]
replace_all old new (String.◌∷◌ c s) =
    let rest = replace_all old new s in
    if eqb (code c) old then append new rest else String.◌∷◌ c rest

escape_auth_param : String → String
unfolding replace_all
escape_auth_param value = replace_all b'"' "\\\"" (replace_all b'\\' "\\\\" value)

join : String → List String → String
join separator [] = ""
join separator (s ∷ []) = s
join separator (s ∷ t ∷ ss) = append s (append separator (join separator (t ∷ ss)))

parameter : String → String → String
unfolding escape_auth_param
parameter name value = append name (append "=\"" (append (escape_auth_param value) "\""))

abbrev scope_parameter : List String → List String
scope_parameter [] = []
scope_parameter (s ∷ ss) = parameter "scope" (join " " (s ∷ ss)) ∷ []

unfoldable pub bearer_challenge : String → String → List String → String
unfolding join parameter
bearer_challenge metadata_url error_code scopes = append "Bearer " (
    join ", " (
      (if error_code == "" then [] else parameter "error" error_code ∷ [])
      ++ scope_parameter scopes
      ++ parameter "resource_metadata" metadata_url ∷ []))

-- The outcome of parseBearerHeader: no credentials, unusable ones, or a token.
pub data Bearer : Type 0 where
  not_present not_valid : Bearer
  token : String → Bearer

bearer_parts : List String → Bearer
bearer_parts (scheme ∷ value ∷ []) =
    if not (equal_fold scheme "Bearer") || value == "" then not_valid else token value
bearer_parts _ = not_valid

unfoldable pub parse_bearer_header : List String → Bearer
unfolding bearer_parts
parse_bearer_header [] = not_present
parse_bearer_header (value ∷ []) = bearer_parts (words value)
parse_bearer_header (value ∷ v ∷ vs) = not_valid

abbrev unexpired : ℕ → Option ℕ → Bool
unexpired now none = false
unexpired now (some t) = ltb now t

unfoldable pub valid_claims : ResourceServerConfig → ℕ → TokenClaims → Bool
valid_claims config now claims =
    not (not claims.active || claims.subject == "")
    && unexpired now claims.expires_at
    && not (not (member claims.issuer config.authorization_servers) || claims.issuer == "")
    && member config.canonical_resource_uri claims.audience

-- The values of a list that are not in `seen`, each once, in order.
unique_beyond : List String → List String → List String
unique_beyond seen [] = []
unique_beyond seen (v ∷ vs) =
    let skipped = unique_beyond seen vs in
    let taken = unique_beyond (v ∷ seen) vs in if member v seen then skipped else v ∷ taken

unfoldable pub unique_strings : List String → List String
unfolding unique_beyond
unique_strings values = unique_beyond [] values

unfoldable pub missing_scopes : List String → List String → List String
missing_scopes granted [] = []
missing_scopes granted (scope ∷ required) =
    let rest = missing_scopes granted required in
    if member scope granted then rest else scope ∷ rest

abbrev or_else : Option (List String) → List String → List String
or_else none rest = rest
or_else (some scopes) rest = scopes

first_entry : ScopePolicy → List String → List String
first_entry policy [] = []
first_entry policy (key ∷ keys) =
    let rest = first_entry policy keys in or_else (lookup key policy) rest

abbrev named_keys : String → String → List String
named_keys method name =
    append method (append ":" name)
    ∷ append method (append "/" name)
    ∷ append method (append " " name)
    ∷ []

unfoldable pub required_scopes : ScopePolicy → String → String → List String
unfolding first_entry
required_scopes policy method name =
    if method == ""
    then []
    else first_entry policy ((if name == "" then [] else named_keys method name) ++ method ∷ [])

abbrev text_or_empty : Option String → String
text_or_empty none = ""
text_or_empty (some s) = s

-- A member of the parameters; an error of the decoding is ignored.
abbrev parameter_text : String → Raw → String
parameter_text k raw = text_or_empty (bind (as_struct raw) λ fields. string_member k fields)

operation_name : Request → String
operation_name request =
    if request.method == "tasks/get"
      || request.method == "tasks/update"
      || request.method == "tasks/cancel"
    then parameter_text "taskId" request.params
    else if request.method == "resources/read"
    then parameter_text "uri" request.params
    else parameter_text "name" request.params

operation_of : Option Request → String × String
unfolding operation_name
operation_of none = ("", "")
operation_of (some request) =
    if request.method == "" then ("", "") else (request.method, operation_name request)

-- `none` is an error.
unfoldable pub protected_operation : HttpRequest → Option (String × String)
unfolding operation_of
protected_operation request = elim request.body [
  | no_body ↦ some (request.mcp_method, request.mcp_name)
  | failed ↦ none
  | bytes body ↦
      if ltb max_oauth_request_body_bytes body.size
      then none
      else some (operation_of (bind body.content unmarshal_request))
]

-- issuer + "\x00" + subject
unfoldable pub oauth_task_principal : TokenClaims → String
oauth_task_principal claims =
    append claims.issuer (append (String.◌∷◌ "\0" String.[]) claims.subject)

unfoldable pub principal_of : TokenClaims → Principal
principal_of claims = record {
  subject = claims.subject;
  issuer = claims.issuer;
  audience = claims.audience;
  scopes = unique_strings claims.scopes;
  claims = claims;
}

refuse : ResourceServer → String → Served
refuse server error_code =
    unauthorized (bearer_challenge server.config.protected_resource_metadata_url error_code [])

module _ (server : ResourceServer) (validate_token : String → Option TokenClaims) (now : ℕ) where
  permitted : TokenClaims → List String → List String → Served
  permitted claims required [] = delegated (principal_of claims) (oauth_task_principal claims)
  permitted claims required (missing ∷ more) =
      forbidden
        (bearer_challenge server.config.protected_resource_metadata_url oauth_scope_error required)

  authorized : TokenClaims → Option (String × String) → Served
  unfolding permitted
  authorized claims none = invalid_request
  authorized claims (some (method, name)) =
      let required = required_scopes server.policy method name in
      permitted claims required (missing_scopes (principal_of claims).scopes required)

  with_claims : HttpRequest → Option TokenClaims → Served
  unfolding authorized refuse
  with_claims request none = refuse server oauth_invalid_token_error
  with_claims request (some claims) =
      if not (valid_claims server.config now claims)
      then refuse server oauth_invalid_token_error
      else authorized claims (protected_operation request)

  with_bearer : HttpRequest → Bearer → Served
  unfolding with_claims refuse
  with_bearer request not_present = refuse server ""
  with_bearer request not_valid = refuse server oauth_invalid_token_error
  with_bearer request (token t) = with_claims request (validate_token t)

  unfoldable pub serve_protected : HttpRequest → Served
  unfolding with_bearer refuse
  serve_protected request =
      if request.access_token_in_query
      then refuse server oauth_invalid_token_error
      else with_bearer request (parse_bearer_header request.authorization)

  unfoldable pub is_metadata_request : HttpRequest → Bool
  is_metadata_request request =
      request.method == "GET"
      && request.path == server.metadata_url.path
      && request.raw_query == server.metadata_url.raw_query

  unfoldable pub serve_http : HttpRequest → Served
  unfolding is_metadata_request
  serve_http request = if is_metadata_request request then metadata else serve_protected request
