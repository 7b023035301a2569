-- ===== src/Host/Oauth/Requests/Bounds.antt =====
-- OAuthHost.Do of internal/host/oauth.go: how often a request is sent, and with which tokens.
use Prim.Native.String.{◌++◌ as append}
use mcp_from_scratch.Protocol.Errors.{Message}
use mcp_from_scratch.Base.Actions.{
  Ends, Triple, fail, lift, ◌>>=◌, Triple-bind, Triple-return, Triple-fail, Triple-lift, Triple-to,
}
use mcp_from_scratch.Host.Oauth.{
  Url, OauthToken, WebCall, resource_call, get_call, json_call, form_call, Web, WebResponse,
  OauthConfig, OauthState, RequestBody, read_replay_body, send_call, sent,
}
use mcp_from_scratch.Host.Oauth.Endpoint.{validate_endpoint, same_oauth_resource}
use mcp_from_scratch.Host.Oauth.Challenge.{parse_bearer_challenges, union_scopes}
use mcp_from_scratch.Host.Oauth.Rules.{heavy}
use mcp_from_scratch.Host.Oauth.Flow.Binding.{
  asked, Bound, Granted, AllBound, Safe, authorize-Yields,
}
use mcp_from_scratch.Host.Oauth.Requests.{
  OauthRequest, authorization, refused, attempts, do_request,
}
use mcp_from_scratch.Base.{
  ℕ, zero, suc, ◌+◌, ◌≤◌, String, ◌≡◌, refl, ap, subst, true, member, Map, lookup, ◌⊎◌, inl, inr,
  false, not, Option, none, some, List, [], ◌∷◌, arith, ◌==◌, if◌then◌else◌, Bool-cases, length,
  All, Result, ok, err,
}

asked-heavy : (calls : List WebCall) → asked (heavy calls) ≡ asked calls
asked-heavy [] = refl
asked-heavy (resource_call token body ∷ calls) =
    ap (λ cs. resource_call token body ∷ cs) (asked-heavy calls)
asked-heavy (form_call url form ∷ calls) = asked-heavy calls
asked-heavy (get_call url ∷ calls) = asked-heavy calls
asked-heavy (json_call url payload ∷ calls) = asked-heavy calls

-- All tokens of a store are for the resource and name it in their audience.
abbrev pub AllFor : String → Map OauthToken → Type 0
AllFor resource tokens =
    (key : String) (token : OauthToken)
    → lookup key tokens ≡ some token
    → (token.resource ≡ resource) × (member resource token.audience ≡ true)

-- The text of a token that the store held, or that the token endpoint granted for the resource.
abbrev pub Issued : {W : Type 0} → Web W → String → Map OauthToken → String → Type 0
Issued web resource tokens text =
    ((key : String) × (token : OauthToken) × (lookup key tokens ≡ some token)
      × (token.access_token ≡ text))
    ⊎ Granted web resource text

-- A request without a token, or with a known one; and with the whole body.
abbrev pub Carries : (String → Type 0) → RequestBody → WebCall → Type 0
Carries Known whole (resource_call auth body) =
    (read_replay_body whole ≡ ok body)
    × ((auth ≡ none) ⊎ ((text : String) × Known text × (auth ≡ some (append "Bearer " text))))
Carries Known whole (get_call url) = Unit
Carries Known whole (json_call url payload) = Unit
Carries Known whole (form_call url form) = Unit

abbrev Backed : (String → Type 0) → String → Type 0
Backed Known text = (text ≡ "") ⊎ Known text

authorization-Carries :
    (Known : String → Type 0) (text : String) (whole : RequestBody) (body : List ℕ)
    → read_replay_body whole ≡ ok body
    → Backed Known text
    → Carries Known whole (resource_call (authorization text) body)
authorization-Carries Known text whole body read (inl e) = (read, inl (rw e refl))
authorization-Carries Known text whole body read (inr known) = (
  read,
  elim (Bool-cases (text == "")) [
    | inl blank ↦ inl (rw blank refl)
    | inr given ↦ inr (text, known, rw given refl)
  ],
)

module _ {W : Type 0} (web : Web W) (config : OauthConfig) (whole : RequestBody)
    (Known : String → Type 0)
    (grants : (text : String) → Granted web config.canonical_resource_uri text → Known text) where
  abbrev Sent : ℕ → List WebCall → Type 0
  Sent left calls = All (Carries Known whole) calls × (length calls + left ≤ 3)

  abbrev At : ℕ → OauthState W → Type 0
  At left = Safe web config (Sent left) Known grants

  abbrev Accepted : WebResponse → OauthState W → Type 0
  Accepted response s = (refused response.status ≡ false) × At 0 s

  sent-At :
      (left : ℕ) (auth : Option String) (body : List ℕ) (s : OauthState W)
      (t : Option WebResponse × W)
      → Carries Known whole (resource_call auth body)
      → At (suc left) s
      → Ends (λ (m : Message) s'. At 0 s') (λ r s'. At left s') (sent (resource_call auth body) s t)
  sent-At left auth body s (none, w) c h = (h.0, ((c, h.1.0), omega (arith, h.1.1)))
  sent-At left auth body s (some r, w) c h = (h.0, ((c, h.1.0), omega (arith, h.1.1)))

  send-At :
      (left : ℕ) (auth : Option String) (body : List ℕ)
      → Carries Known whole (resource_call auth body)
      → Triple
          (At (suc left))
          (send_call web (resource_call auth body))
          (λ m s. At 0 s)
          (λ r s. At left s)
  unfolding send_call
  send-At left auth body c = record { run = λ s h. sent-At left auth body s _ c h }

  At-less : (left : ℕ) (s : OauthState W) → At left s → At 0 s
  At-less left s h = (h.0, (h.1.0, omega (arith, h.1.1)))

  attempts-Accepted :
      (url : Url) (body : List ℕ) (left : ℕ) (scopes : List String) (text : String)
      → read_replay_body whole ≡ ok body
      → Backed Known text
      → Triple
          (At (suc left))
          (attempts web config url body left scopes text)
          (λ (m : Message) s. At 0 s)
          Accepted
  unfolding attempts
  attempts-Accepted url body zero scopes text read b =
      Triple-bind (λ r s. At 0 s) _ _
        (send-At 0 (authorization text) body (authorization-Carries Known text whole body read b))
        λ r. elim (Bool-cases (refused r.status)) [
          | inl no_more ↦ rw no_more (Triple-fail _ (λ s h. h))
          | inr fine ↦ rw fine (Triple-return r (λ s h. (fine, h)))
        ]
  attempts-Accepted url body (suc left) scopes text read b =
      Triple-bind (λ r s. At (suc left) s) _ _
        (send-At (suc left) (authorization text) body
          (authorization-Carries Known text whole body read b))
        λ r. elim (Bool-cases (refused r.status)) [
          | inr fine ↦ rw fine (Triple-return r (λ s h. (fine, At-less (suc left) s h)))
          | inl again ↦ rw again (
              Triple-bind (λ c s. At (suc left) s) _ _
                (Triple-lift (parse_bearer_challenges web.unquote r.challenges) (λ c s _ h. h)
                  (λ m s h. At-less (suc left) s h))
                λ c.
                  Triple-bind (λ t s. Bound config.canonical_resource_uri Known t × At (suc left) s)
                    _ _
                    (Triple-to _ (λ t s h. h) (λ m s h. At-less (suc left) s h)
                      (authorize-Yields web config (Sent (suc left)) Known grants url c.0
                        (union_scopes scopes c.1)))
                    λ t. record {
                      run = λ s h.
                          (attempts-Accepted url body left (union_scopes scopes c.1) t.access_token
                              read (inr h.0.2)).run
                            s h.1;
                    })
        ]

module _ {W : Type 0} (web : Web W) (config : OauthConfig) (request : OauthRequest)
    (scopes : List String) (Known : String → Type 0)
    (grants : (text : String) → Granted web config.canonical_resource_uri text → Known text) where
  on_body :
      (r : Result Message (List ℕ))
      → read_replay_body request.body ≡ r
      → Triple
          (At web config request.body Known grants 3)
          (lift r >>= λ body. attempts web config request.url body 2 scopes "")
          (λ (m : Message) s. At web config request.body Known grants 0 s)
          (Accepted web config request.body Known grants)
  on_body (err m) e = record { run = λ s h. At-less web config request.body Known grants 3 s h }
  on_body (ok body) e = record {
    run = λ s h.
        (attempts-Accepted web config request.body Known grants request.url body 2 scopes "" e
            (inl refl)).run
          s h;
  }

  matched :
      Triple
        (At web config request.body Known grants 3)
        (if not (same_oauth_resource web request.url config.canonical_resource_uri)
          then fail (Message.plain "protected resource endpoint mismatch")
          else (lift (read_replay_body request.body) >>= λ body.
              attempts web config request.url body 2 scopes ""))
        (λ (m : Message) s. At web config request.body Known grants 0 s)
        (Accepted web config request.body Known grants)
  matched = elim (Bool-cases (same_oauth_resource web request.url config.canonical_resource_uri)) [
    | inr other ↦ rw other (Triple-fail _ (At-less web config request.body Known grants 3))
    | inl same ↦ rw same (on_body (read_replay_body request.body) refl)
  ]

  do_request-Accepted :
      Triple
        (At web config request.body Known grants 3)
        (do_request web config (some request) scopes)
        (λ (m : Message) s. At web config request.body Known grants 0 s)
        (Accepted web config request.body Known grants)
  unfolding do_request
  do_request-Accepted =
      Triple-bind (λ u s. At web config request.body Known grants 3 s) _ _
        (Triple-lift
          (validate_endpoint web config.allow_loopback request.text "protected resource endpoint")
          (λ u s _ h. h) (λ m s h. At-less web config request.body Known grants 3 s h))
        λ u. matched

  abbrev pub Returned : Result Message WebResponse → Type 0
  Returned (err m) = Unit {0}
  Returned (ok response) = refused response.status ≡ false

  abbrev pub Ended : Result Message WebResponse × OauthState W → Type 0
  Ended t =
      (length (asked t.1.calls) ≤ 3)
      × All (Carries Known request.body) (asked t.1.calls)
      × AllBound config.canonical_resource_uri Known t.1.store.tokens
      × Returned t.0

  outcome :
      (t : Result Message WebResponse × OauthState W)
      → Ends
          (λ (m : Message) s. At web config request.body Known grants 0 s)
          (Accepted web config request.body Known grants)
          t
      → Ended t
  outcome (err m, s) h = (
    subst (λ cs. length cs ≤ 3) (asked-heavy s.calls) (omega (arith, h.1.1)),
    subst (All (Carries Known request.body)) (asked-heavy s.calls) h.1.0,
    h.0,
    tt,
  )
  outcome (ok r, s) h = (
    subst (λ cs. length cs ≤ 3) (asked-heavy s.calls) (omega (arith, h.1.1.1)),
    subst (All (Carries Known request.body)) (asked-heavy s.calls) h.1.1.0,
    h.1.0,
    h.0,
  )

module _ {W : Type 0} (web : Web W) (config : OauthConfig) (request : OauthRequest)
    (scopes : List String) where
  abbrev pub IssuedFrom : OauthState W → String → Type 0
  IssuedFrom s = Issued web config.canonical_resource_uri s.store.tokens

  abbrev pub Outcome : OauthState W → Type 0
  Outcome s =
      Ended web config request scopes (IssuedFrom s) (λ text granted. inr granted)
        (do_request web config (some request) scopes s)

  -- Doing a request from a store whose tokens are all for the resource and name it in their audience,
  -- whatever the servers and the user answer, sends it at most three times, each time with the whole
  -- body and with no token, or with one that the store held at the start or that a server of this
  -- network answers, in some state, to a form that asks for a token for the resource, naming the
  -- resource in its audience. The tokens that are stored in the end are such ones, for the resource;
  -- and a response that is returned is neither 401 nor 403.
  pub do_request-Outcome :
      (s : OauthState W)
      → AllFor config.canonical_resource_uri s.store.tokens
      → s.calls ≡ []
      → Outcome s
  do_request-Outcome s bound fresh =
      outcome web config request scopes (IssuedFrom s) (λ text granted. inr granted)
        (do_request web config (some request) scopes s)
        ((do_request-Accepted web config request scopes (IssuedFrom s)
            (λ text granted. inr granted)).run
          s
          (
            λ key token found. (
              (bound key token found).0,
              (bound key token found).1,
              inl (key, token, found, refl),
            ),
            (rw fresh tt, rw fresh (omega arith)),
          ))
