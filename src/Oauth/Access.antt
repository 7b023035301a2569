-- ===== src/Oauth/Access.antt =====
-- Who gets past the resource server.
use mcp_from_scratch.Oauth.{
  TokenClaims, Principal, ResourceServer, ResourceServerConfig, HttpRequest, delegated, Bearer,
  token, not_present, not_valid, parse_bearer_header, valid_claims, unexpired, unique_beyond,
  unique_strings, missing_scopes, required_scopes, protected_operation, oauth_task_principal,
  principal_of, refuse, permitted, authorized, with_claims, with_bearer, serve_protected,
  serve_http, is_metadata_request,
}
use mcp_from_scratch.Base.{
  ℕ, ◌<◌, String, ◌≡◌, refl, sym, ap, ◌∙◌, ◌≢◌, inl, inr, true, false, Option, none, some, List, [],
  ◌∷◌, arith, ◌==◌, eq_iff, Bool-cases, member, All,
}

-- The loop of uniqueStrings keeps every value that it has not seen.
member-unique_beyond :
    (s : String) (seen values : List String)
    → member s seen ≡ false
    → member s (unique_beyond seen values) ≡ member s values
unfolding unique_beyond
member-unique_beyond s seen [] h = refl
member-unique_beyond s seen (v ∷ vs) h = elim (Bool-cases (v == s)) [
  | inl e ↦
      let fresh : member v seen ≡ false = ap (λ x. member x seen) ((eq_iff v s).0 e) ∙ h in
      rw (fresh, e) refl
  | inr e ↦ ground (
    arith,
    e,
    h,
    member-unique_beyond s seen vs h,
    member-unique_beyond s (v ∷ seen) vs (rw (e, h) refl),
  )
]

-- A scope that is required and not missing is granted.
missing_scopes-none :
    (granted required : List String)
    → missing_scopes granted required ≡ []
    → All (λ s. member s granted ≡ true) required
unfolding missing_scopes
missing_scopes-none granted [] h = tt
missing_scopes-none granted (s ∷ required) h = elim (Bool-cases (member s granted)) [
  | inl e ↦ (e, missing_scopes-none granted required (rw e at h))
  | inr e ↦ absurd (cc (rw e at h))
]

All-unique :
    (scopes required : List String)
    → All (λ s. member s (unique_strings scopes) ≡ true) required
    → All (λ s. member s scopes ≡ true) required
unfolding unique_strings
All-unique scopes [] h = tt
All-unique scopes (s ∷ required) (h, hs) =
    (sym (member-unique_beyond s [] scopes refl) ∙ h, All-unique scopes required hs)

-- The claims that bind a token to the resource at a time.
pub record Bound (config : ResourceServerConfig) (now : ℕ) (claims : TokenClaims) : Type 0 where
  pub is_active : claims.active ≡ true
  pub names_subject : claims.subject ≢ ""
  pub is_live : (t : ℕ) × (claims.expires_at ≡ some t) × (now < t)
  pub issuer_trusted : member claims.issuer config.authorization_servers ≡ true
  pub audience_named : member config.canonical_resource_uri claims.audience ≡ true

unexpired-live :
    (now : ℕ) (t : Option ℕ) → unexpired now t ≡ true → (s : ℕ) × (t ≡ some s) × (now < s)
unexpired-live now none h = absurd (cc)
unexpired-live now (some s) h = (s, refl, ground arith)

valid_claims-Bound :
    (config : ResourceServerConfig) (now : ℕ) (claims : TokenClaims)
    → valid_claims config now claims ≡ true
    → Bound config now claims
unfolding valid_claims
valid_claims-Bound config now claims h = record {
  is_active = ground arith;
  names_subject = ground (arith, eq_iff claims.subject "");
  is_live = unexpired-live now claims.expires_at (ground arith);
  issuer_trusted = ground arith;
  audience_named = ground arith;
}

-- What a delegated request has shown: a token in its only Authorization header, claims of that token
-- that hold now, and every scope that its operation requires.
pub record Granted (server : ResourceServer) (validate_token : String → Option TokenClaims)
    (now : ℕ) (request : HttpRequest) (principal : Principal) (owner : String) : Type 0 where
  pub bearer : String
  pub claims : TokenClaims
  pub method : String
  pub name : String
  pub query_clean : request.access_token_in_query ≡ false
  pub presented : parse_bearer_header request.authorization ≡ token bearer
  pub validated : validate_token bearer ≡ some claims
  pub bound : Bound server.config now claims
  pub operation : protected_operation request ≡ some (method, name)
  pub covered : All (λ s. member s claims.scopes ≡ true) (required_scopes server.policy method name)
  pub principal_exact : principal ≡ principal_of claims
  pub owner_exact : owner ≡ oauth_task_principal claims

module _ (server : ResourceServer) (validate_token : String → Option TokenClaims) (now : ℕ)
    (request : HttpRequest) (principal : Principal) (owner : String) where
  abbrev Grants : Type 0
  Grants = Granted server validate_token now request principal owner

  permitted-delegated :
      (claims : TokenClaims) (required missing : List String)
      → permitted server validate_token now claims required missing ≡ delegated principal owner
      → (missing ≡ []) × (principal ≡ principal_of claims) × (owner ≡ oauth_task_principal claims)
  unfolding permitted
  permitted-delegated claims required [] h = (refl, cc, cc)
  permitted-delegated claims required (m ∷ more) h = absurd (cc)

  authorized-delegated :
      (claims : TokenClaims) (op : Option (String × String))
      → authorized server validate_token now claims op ≡ delegated principal owner
      → (method : String) × (name : String) × (op ≡ some (method, name))
        × All (λ s. member s claims.scopes ≡ true) (required_scopes server.policy method name)
        × (principal ≡ principal_of claims)
        × (owner ≡ oauth_task_principal claims)
  unfolding authorized principal_of
  authorized-delegated claims none h = absurd (cc)
  authorized-delegated claims (some (method, name)) h =
      let required = required_scopes server.policy method name in
      let (none_missing, same, same_owner) =
        permitted-delegated claims required (missing_scopes (unique_strings claims.scopes) required)
          h in
      (
        method,
        name,
        refl,
        All-unique claims.scopes required
            (missing_scopes-none (unique_strings claims.scopes) required none_missing),
        same,
        same_owner,
      )

  with_claims-delegated :
      (t : String) (found : Option TokenClaims)
      → request.access_token_in_query ≡ false
      → parse_bearer_header request.authorization ≡ token t
      → validate_token t ≡ found
      → with_claims server validate_token now request found ≡ delegated principal owner
      → Grants
  unfolding with_claims refuse
  with_claims-delegated t none clean shown checked h = absurd (cc)
  with_claims-delegated t (some claims) clean shown checked h =
      elim (Bool-cases (valid_claims server.config now claims)) [
        | inr e ↦ absurd (cc (rw e at h))
        | inl e ↦
            let (method, name, op, covered, same, same_owner) =
              authorized-delegated claims (protected_operation request) (rw e at h) in
            record {
              bearer = t;
              claims = claims;
              method = method;
              name = name;
              query_clean = clean;
              presented = shown;
              validated = checked;
              bound = valid_claims-Bound server.config now claims e;
              operation = op;
              covered = covered;
              principal_exact = same;
              owner_exact = same_owner;
            }
      ]

  with_bearer-delegated :
      (b : Bearer)
      → request.access_token_in_query ≡ false
      → parse_bearer_header request.authorization ≡ b
      → with_bearer server validate_token now request b ≡ delegated principal owner
      → Grants
  unfolding with_bearer refuse
  with_bearer-delegated not_present clean shown h = absurd (cc)
  with_bearer-delegated not_valid clean shown h = absurd (cc)
  with_bearer-delegated (token t) clean shown h =
      with_claims-delegated t (validate_token t) clean shown refl h

-- A request reaches the handler behind the resource server only with a single bearer token in its
-- header and none in its query, which the validator accepts, whose claims are active, unexpired, of
-- a trusted issuer and for this resource, and whose scopes include all that its operation requires;
-- it then acts for the principal of these claims.
pub delegated-Granted :
    (server : ResourceServer) (validate_token : String → Option TokenClaims) (now : ℕ)
    (request : HttpRequest) (principal : Principal) (owner : String)
    → serve_http server validate_token now request ≡ delegated principal owner
    → Granted server validate_token now request principal owner
unfolding serve_http serve_protected refuse protected_operation
delegated-Granted server validate_token now request principal owner h =
    elim (Bool-cases (is_metadata_request server validate_token now request)) [
      | inl e ↦ absurd (cc (rw e at h))
      | inr e ↦ elim (Bool-cases request.access_token_in_query) [
        | inl q ↦ absurd (cc (rw (e, q) at h))
        | inr q ↦
            with_bearer-delegated server validate_token now request principal owner
              (parse_bearer_header request.authorization) q refl (rw (e, q) at h)
      ]
    ]

valid_claims_complete :
    (config : ResourceServerConfig) (now : ℕ) (claims : TokenClaims)
    → Bound config now claims
    → claims.issuer ≢ ""
    → valid_claims config now claims ≡ true
unfolding valid_claims
valid_claims_complete config now claims b named =
    let (t, expiry, live) = b.is_live in
    rw (b.is_active, expiry, b.issuer_trusted, b.audience_named)
      (ground
        (arith, b.names_subject, named, live, eq_iff claims.subject "", eq_iff claims.issuer ""))

missing_scopes-covered :
    (granted required : List String)
    → All (λ s. member s granted ≡ true) required
    → missing_scopes granted required ≡ []
unfolding missing_scopes
missing_scopes-covered granted [] a = refl
missing_scopes-covered granted (s ∷ required) (h, hs) =
    rw h (missing_scopes-covered granted required hs)

All-into_unique :
    (scopes required : List String)
    → All (λ s. member s scopes ≡ true) required
    → All (λ s. member s (unique_strings scopes) ≡ true) required
unfolding unique_strings
All-into_unique scopes [] h = tt
All-into_unique scopes (s ∷ required) (h, hs) =
    (member-unique_beyond s [] scopes refl ∙ h, All-into_unique scopes required hs)

-- A request that does not ask for the metadata document, has no token in its query, presents one
-- bearer token in its header that the validator accepts with claims that hold now, of a named issuer,
-- whose body can be read, and whose token covers the scopes of its operation, is delegated.
pub granted_delegated :
    (server : ResourceServer) (validate_token : String → Option TokenClaims) (now : ℕ)
    (request : HttpRequest) (claims : TokenClaims) (bearer method name : String)
    → is_metadata_request server validate_token now request ≡ false
    → request.access_token_in_query ≡ false
    → parse_bearer_header request.authorization ≡ token bearer
    → validate_token bearer ≡ some claims
    → Bound server.config now claims
    → claims.issuer ≢ ""
    → protected_operation request ≡ some (method, name)
    → All (λ s. member s claims.scopes ≡ true) (required_scopes server.policy method name)
    → serve_http server validate_token now request
      ≡ delegated (principal_of claims) (oauth_task_principal claims)
unfolding serve_http serve_protected with_bearer with_claims authorized permitted principal_of
    is_metadata_request
granted_delegated server validate_token now request claims bearer method name other clean shown
      checked bound named op covered =
    let none_missing =
      missing_scopes-covered (unique_strings claims.scopes)
        (required_scopes server.policy method name)
        (All-into_unique claims.scopes (required_scopes server.policy method name) covered) in
    let holds = valid_claims_complete server.config now claims bound named in
    rw
      (
        other, clean, shown, with_bearer, checked, with_claims, holds, op, authorized, none_missing,
        permitted,
      )
      refl
