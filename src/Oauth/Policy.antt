-- ===== src/Oauth/Policy.antt =====
-- The configuration that NewResourceServer of internal/mcpserver/oauth.go accepts. url.Parse is a
-- parameter.
use Prim.Native.String.{◌++◌ as append}
use mcp_from_scratch.Base.Decimal.{format_nat}
use mcp_from_scratch.Protocol.Errors.{Message, plain, quoting}
use mcp_from_scratch.Oauth.{
  Url, ScopePolicy, ResourceServerConfig, ResourceServer, or_else, first_entry, required_scopes,
}
use mcp_from_scratch.Base.{
  ℕ, suc, String, ◌≡◌, refl, subst, ◌≢◌, inl, inr, Bool, true, false, not, ◌&&◌, ◌||◌, Option, none,
  some, List, [], ◌∷◌, ◌==◌, if◌then◌else◌, Bool-cases, member, All, lookup, Result, ok, err,
  bind-ok, ok_injective,
}
use mcp_from_scratch.Base.{◌>>=◌}

abbrev in_package : String → Message
in_package text = plain (append "oauth resource server: " text)

duplicate : String → String → Message
duplicate label value =
    quoting (append "oauth resource server: duplicate " (append label " ")) value ""

-- The loop of validateUniqueNonEmpty, with the values that it has seen.
unique_after : String → List String → List String → Result Message (Unit {0})
unfolding duplicate
unique_after label seen [] = ok tt
unique_after label seen (v ∷ vs) =
    let rest = unique_after label (v ∷ seen) vs in
    if v == ""
    then err (in_package (append label " must not be empty"))
    else if member v seen
    then err (duplicate label v)
    else rest

unfoldable pub validate_unique_non_empty : String → List String → Result Message (Unit {0})
unfolding unique_after
validate_unique_non_empty label values = unique_after label [] values

policy_unique : ScopePolicy → Result Message (Unit {0})
unfolding validate_unique_non_empty
policy_unique [] = ok tt
policy_unique ((key, required) ∷ policy) = do
  _ ← validate_unique_non_empty (append "policy scope for \"" (append key "\"")) required
  policy_unique policy

scopes_supported : List String → List String → Result Message (Unit {0})
scopes_supported supported [] = ok tt
scopes_supported supported (scope ∷ scopes) =
    let rest = scopes_supported supported scopes in
    if not (member scope supported)
    then err (quoting "oauth resource server: policy scope " scope " is not supported")
    else rest

policy_supported : List String → ScopePolicy → Result Message (Unit {0})
unfolding scopes_supported
policy_supported supported [] = ok tt
policy_supported supported ((key, required) ∷ policy) = do
  _ ← scopes_supported supported required
  policy_supported supported policy

supported_unless_empty : List String → ScopePolicy → Result Message (Unit {0})
unfolding policy_supported
supported_unless_empty [] policy = ok tt
supported_unless_empty (s ∷ ss) policy = policy_supported (s ∷ ss) policy

unfoldable pub validate_policy : List String → ScopePolicy → Result Message (Unit {0})
unfolding policy_unique supported_unless_empty
validate_policy supported policy = do
  _ ← policy_unique policy
  supported_unless_empty supported policy

unfoldable pub is_loopback_host : String → Bool
is_loopback_host host = host == "localhost" || host == "127.0.0.1" || host == "::1"

abbrev no_servers : List String → Bool
no_servers [] = true
no_servers (s ∷ ss) = false

module _ (parse_url : String → Option Url) where
  parsed_url : String → Option Url → Result Message Url
  unfolding is_loopback_host
  parsed_url label none = err (in_package (append label " must be an absolute URI"))
  parsed_url label (some url) =
      if url.scheme == ""
      then err (in_package (append label " must be an absolute URI"))
      else if url.has_user || not (url.fragment == "")
      then err (in_package (append label " must not contain userinfo or fragment"))
      else if not (url.scheme == "https")
          && not (url.scheme == "http" && is_loopback_host url.hostname)
      then err (in_package (append label " must use https or loopback http"))
      else ok url

  unfoldable pub parse_absolute_url : String → String → Result Message Url
  unfolding parsed_url
  parse_absolute_url label value =
      if value == ""
      then err (in_package (append label " is required"))
      else parsed_url label (parse_url value)

  check_servers : ℕ → List String → Result Message (Unit {0})
  unfolding parse_absolute_url
  check_servers i [] = ok tt
  check_servers i (issuer ∷ issuers) = do
    _ ← parse_absolute_url (append "authorization server " (format_nat i)) issuer
    check_servers (suc i) issuers

  given : Bool → String → Result Message (Unit {0})
  given present text = if present then ok tt else err (in_package text)

  -- A nil validator is `false`, as is a nil handler.
  unfoldable pub new_resource_server :
      Bool → Bool → ResourceServerConfig → Result Message ResourceServer
  unfolding check_servers given validate_unique_non_empty validate_policy
  new_resource_server next validator config = do
    _ ← given next "nil next handler"
    _ ← parse_absolute_url "canonical resource URI" config.canonical_resource_uri
    url ←
        parse_absolute_url "protected resource metadata URL" config.protected_resource_metadata_url
    _ ←
        given (not (no_servers config.authorization_servers))
          "at least one authorization server is required"
    _ ← check_servers 0 config.authorization_servers
    _ ← given validator "token validator is required"
    _ ← validate_unique_non_empty "supported scope" config.scopes_supported
    _ ← validate_policy config.scopes_supported config.method_scopes
    ok (record { config = config; metadata_url = url; policy = config.method_scopes })

scopes_supported-ok :
    (supported scopes : List String) (u : Unit {0})
    → scopes_supported supported scopes ≡ ok u
    → All (λ s. member s supported ≡ true) scopes
unfolding scopes_supported
scopes_supported-ok supported [] u h = tt
scopes_supported-ok supported (s ∷ scopes) u h = elim (Bool-cases (member s supported)) [
  | inl e ↦ (e, scopes_supported-ok supported scopes u (rw e at h))
  | inr e ↦ absurd (cc (rw e at h))
]

policy_supported-ok :
    (supported : List String) (policy : ScopePolicy) (key : String) (required : List String)
    (u : Unit {0})
    → policy_supported supported policy ≡ ok u
    → lookup key policy ≡ some required
    → All (λ s. member s supported ≡ true) required
unfolding policy_supported lookup
policy_supported-ok supported [] key required u h found = absurd (cc)
policy_supported-ok supported ((j, scopes) ∷ policy) key required u h found =
    let (v, here, rest) =
      bind-ok (scopes_supported supported scopes) (λ _. policy_supported supported policy) h in
    elim (Bool-cases (j == key)) [
      | inl e ↦
          let same : scopes ≡ required = cc (rw e at found) in
          subst (All (λ s. member s supported ≡ true)) same
            (scopes_supported-ok supported scopes v here)
      | inr e ↦ policy_supported-ok supported policy key required u rest (rw e at found)
    ]

All-or_else :
    (supported : List String) (entry : Option (List String)) (rest : List String)
    → ((required : List String)
        → entry ≡ some required
        → All (λ s. member s supported ≡ true) required)
    → All (λ s. member s supported ≡ true) rest
    → All (λ s. member s supported ≡ true) (or_else entry rest)
All-or_else supported none rest here there = there
All-or_else supported (some required) rest here there = here required refl

-- The scopes of the first key that has an entry are those of some key, or there are none.
first_entry-supported :
    (supported : List String) (policy : ScopePolicy) (u : Unit {0}) (keys : List String)
    → policy_supported supported policy ≡ ok u
    → All (λ s. member s supported ≡ true) (first_entry policy keys)
unfolding first_entry
first_entry-supported supported policy u [] h = tt
first_entry-supported supported policy u (key ∷ keys) h =
    All-or_else supported (lookup key policy) (first_entry policy keys)
      (λ required e. policy_supported-ok supported policy key required u h e)
      (first_entry-supported supported policy u keys h)

required_scopes-supported :
    (supported : List String) (policy : ScopePolicy) (u : Unit {0}) (method name : String)
    → policy_supported supported policy ≡ ok u
    → All (λ s. member s supported ≡ true) (required_scopes policy method name)
unfolding required_scopes
required_scopes-supported supported policy u method name h = elim (Bool-cases (method == "")) [
  | inl e ↦ rw e tt
  | inr e ↦ rw e (first_entry-supported supported policy u _ h)
]

supported-policy :
    (supported : List String) (policy : ScopePolicy) (u : Unit {0})
    → supported ≢ []
    → supported_unless_empty supported policy ≡ ok u
    → policy_supported supported policy ≡ ok u
unfolding supported_unless_empty
supported-policy [] policy u some_scope h = absurd (some_scope refl)
supported-policy (s ∷ ss) policy u some_scope h = h

-- A resource server that was set up with a list of scopes that is not empty never requires a scope,
-- of whatever operation, that it does not advertise.
pub required_scopes_advertised :
    (parse_url : String → Option Url) (next validator : Bool) (config : ResourceServerConfig)
    (server : ResourceServer) (method name : String)
    → new_resource_server parse_url next validator config ≡ ok server
    → config.scopes_supported ≢ []
    → All
        (λ s. member s server.config.scopes_supported ≡ true)
        (required_scopes server.policy method name)
unfolding new_resource_server validate_policy
required_scopes_advertised parse_url next validator config server method name h some_scope =
    let (u1, e1, h1) = bind-ok (given parse_url next "nil next handler") _ h in
    let (u2, e2, h2) =
      bind-ok (parse_absolute_url parse_url "canonical resource URI" config.canonical_resource_uri)
        _ h1 in
    let (u3, e3, h3) =
      bind-ok
        (parse_absolute_url parse_url "protected resource metadata URL"
          config.protected_resource_metadata_url)
        _ h2 in
    let (u4, e4, h4) =
      bind-ok
        (given parse_url (not (no_servers config.authorization_servers))
          "at least one authorization server is required")
        _ h3 in
    let (u5, e5, h5) = bind-ok (check_servers parse_url 0 config.authorization_servers) _ h4 in
    let (u6, e6, h6) = bind-ok (given parse_url validator "token validator is required") _ h5 in
    let (u7, e7, h7) =
      bind-ok (validate_unique_non_empty "supported scope" config.scopes_supported) _ h6 in
    let (u8, e8, h8) =
      bind-ok (validate_policy config.scopes_supported config.method_scopes) _ h7 in
    let (u9, e9, supported) =
      bind-ok (policy_unique config.method_scopes)
        (λ _. supported_unless_empty config.scopes_supported config.method_scopes) e8 in
    rw (← ok_injective h8) (
      required_scopes-supported config.scopes_supported config.method_scopes u8 method name
        (supported-policy config.scopes_supported config.method_scopes u8 some_scope supported))
