-- ===== src/Host/Oauth/Flow/Binding.antt =====
-- internal/host/oauth.go: the tokens that the flow returns and stores are bound to the resource.
use mcp_from_scratch.Protocol.Errors.{Message}
use mcp_from_scratch.Base.Actions.{
  Ends, Triple, return, fail, ◌>>=◌, Triple-bind, Triple-return, Triple-fail, Triple-lift,
  Triple-to, Triple-from, Triple-deferring,
}
use mcp_from_scratch.Host.Oauth.{
  Url, OauthCallback, OauthToken, PendingFlow, WebCall, resource_call, get_call, json_call,
  form_call, WebResponse, Web, OauthConfig, OauthState, OauthAction, store_key, save_flow,
  take_flow, save_token, token_of, unexpired, send_call, sent, read_now,
}
use mcp_from_scratch.Host.Oauth.Challenge.{contains_all}
use mcp_from_scratch.Host.Oauth.Rules.{Holds, Keeps, outside-Keeps}
use mcp_from_scratch.Host.Oauth.Discovery.{ResourceMetadata, ServerMetadata}
use mcp_from_scratch.Host.Oauth.Discovery.Keeps.{
  discover_resource-Keeps, discover_authorization_server-Keeps,
}
use mcp_from_scratch.Host.Oauth.Registration.Keeps.{resolve_client_id-Keeps}
use mcp_from_scratch.Host.Oauth.Flow.{
  TokenAnswer, usable, token_from, code_form, accept_answer, exchange_code, take_pending, put_flow,
  put_token, callback_error, use_callback, redeem, random_token, drop_flow, authorization_query,
  open_flow, pending_flow, run_flow, obtain_token, covering, reusable_token, token_or_obtain,
  with_resource, authorize,
}
use mcp_from_scratch.Base.{
  ℕ, String, ◌≡◌, refl, sym, ap, subst, inl, inr, true, not, ◌||◌, Option, none, some, List, [],
  ◌∷◌, arith, ◌==◌, eq_iff, eq_refl, ltb, eqb, if◌then◌else◌, Bool-cases, member, Map, lookup,
  insert, lookup-insert,
}

-- The requests to the protected resource among those that carry a token or a code.
abbrev pub asked : List WebCall → List WebCall
asked [] = []
asked (resource_call token body ∷ calls) = resource_call token body ∷ asked calls
asked (form_call url form ∷ calls) = asked calls
asked (get_call url ∷ calls) = asked calls
asked (json_call url payload ∷ calls) = asked calls

-- A token for the resource, with the resource among its audience, whose text is a known one.
abbrev pub Bound : String → (String → Type 0) → OauthToken → Type 0
Bound resource Known token =
    (token.resource ≡ resource) × (member resource token.audience ≡ true) × Known token.access_token

abbrev pub AllBound : String → (String → Type 0) → Map OauthToken → Type 0
AllBound resource Known tokens =
    (key : String) (token : OauthToken)
    → lookup key tokens ≡ some token
    → Bound resource Known token

-- In some state of the network, a server answers a request for a token, for the resource, with this
-- text for a token, and with the resource among those that the token is for.
abbrev pub Granted : {W : Type 0} → Web W → String → String → Type 0
Granted {W} web resource text =
    (url : String) × (form : Map String) × (w : W) × (response : WebResponse)
    × (answer : TokenAnswer) × (lookup "resource" form ≡ some resource)
    × ((web.send (form_call url form) w).0 ≡ some response)
    × (usable response ≡ some answer)
    × (member resource answer.audience ≡ true)
    × (answer.access_token ≡ text)

AllBound-insert :
    (resource : String) (Known : String → Type 0) (key : String) (token : OauthToken)
    (tokens : Map OauthToken)
    → Bound resource Known token
    → AllBound resource Known tokens
    → AllBound resource Known (insert key token tokens)
AllBound-insert resource Known key token tokens b h j t found = elim (Bool-cases (key == j)) [
  | inl same ↦
      subst (Bound resource Known)
        (let e : token ≡ t = ground (arith, lookup-insert key j token tokens) in e) b
  | inr other ↦ h j t (ground (arith, lookup-insert key j token tokens))
]

module _ {W : Type 0} (web : Web W) (config : OauthConfig) (R : List WebCall → Type 0)
    (Known : String → Type 0)
    (grants : (text : String) → Granted web config.canonical_resource_uri text → Known text) where
  abbrev Q : Map OauthToken → Map PendingFlow → List WebCall → Type 0
  Q tokens flows calls = AllBound config.canonical_resource_uri Known tokens × R (asked calls)

  abbrev pub Safe : OauthState W → Type 0
  Safe = Holds web Q

  abbrev pub Yields : OauthAction W OauthToken → Type 0
  Yields m =
      Triple Safe m (λ e s. Safe s) (λ t s. Bound config.canonical_resource_uri Known t × Safe s)

  -- An answer of the token endpoint to the form.
  abbrev Answered : String → Map String → WebResponse → Type 0
  Answered url form response = (w : W) × ((web.send (form_call url form) w).0 ≡ some response)

  sent_form-Answered :
      (url : String) (form : Map String) (s : OauthState W) (o : Option WebResponse) (w : W)
      → (web.send (form_call url form) s.world).0 ≡ o
      → Safe s
      → Ends
          (λ (e : Message) s'. Safe s')
          (λ r s'. Answered url form r × Safe s')
          (sent (form_call url form) s (o, w))
  sent_form-Answered url form s none w e h = h
  sent_form-Answered url form s (some r) w e h = ((s.world, e), h)

  send_form-Answered :
      (url : String) (form : Map String)
      → Triple Safe
          (send_call web (form_call url form))
          (λ (e : Message) s. Safe s)
          (λ r s. Answered url form r × Safe s)
  unfolding send_call
  send_form-Answered url form = record { run = λ s h. sent_form-Answered url form s _ _ refl h }

  abbrev Grants : PendingFlow → Option TokenAnswer → Type 0
  Grants flow o =
      (answer : TokenAnswer)
      → o ≡ some answer
      → member flow.resource answer.audience ≡ true
      → Known answer.access_token

  heard :
      (flow : PendingFlow) (answer : TokenAnswer)
      → flow.resource ≡ config.canonical_resource_uri
      → (member flow.resource answer.audience ≡ true → Known answer.access_token)
      → Yields (
          if not (member flow.resource answer.audience)
          then fail (Message.plain "token audience mismatch")
          else (read_now web >>= λ now. return (token_from flow now answer)))
  unfolding read_now token_from
  heard flow answer e known = elim (Bool-cases (member flow.resource answer.audience)) [
    | inl among ↦ rw among (record {
      run = λ s h. ((e, subst (λ r. member r answer.audience ≡ true) e among, known among), h);
    })
    | inr deaf ↦ rw deaf (Triple-fail _ (λ s h. h))
  ]

  accept_answer-Yields :
      (flow : PendingFlow) (o : Option TokenAnswer)
      → flow.resource ≡ config.canonical_resource_uri
      → Grants flow o
      → Yields (accept_answer web config flow o)
  unfolding read_now token_from
  accept_answer-Yields flow none e g = Triple-fail _ (λ s h. h)
  accept_answer-Yields flow (some answer) e g =
      elim (Bool-cases (answer.access_token == "" || eqb answer.expires_in 0)) [
        | inl bad ↦ rw bad (Triple-fail _ (λ s h. h))
        | inr good ↦ rw good (heard flow answer e (g answer refl))
      ]

  answered-Grants :
      (flow : PendingFlow) (url client_id code : String) (response : WebResponse)
      → flow.resource ≡ config.canonical_resource_uri
      → Answered url (code_form client_id code flow) response
      → Grants flow (usable response)
  unfolding code_form lookup
  answered-Grants flow url client_id code response e (w, sent_to) answer found among =
      grants answer.access_token (
        url,
        code_form client_id code flow,
        w,
        response,
        answer,
        ap some e,
        sent_to,
        found,
        subst (λ r. member r answer.audience ≡ true) e among,
        refl,
      )

  exchange_code-Yields :
      (endpoint client_id code : String) (flow : PendingFlow)
      → flow.resource ≡ config.canonical_resource_uri
      → Yields (exchange_code web config endpoint client_id code flow)
  unfolding exchange_code
  exchange_code-Yields endpoint client_id code flow e =
      Triple-bind (λ url s. Safe s) _ _ (Triple-lift _ (λ a s _ h. h) (λ _ s h. h))
        λ url.
          Triple-bind (λ r s. Answered endpoint (code_form client_id code flow) r × Safe s) _ _
            (send_form-Answered endpoint (code_form client_id code flow))
            λ response. record {
              run = λ s h.
                  (accept_answer-Yields flow (usable response) e
                      (answered-Grants flow endpoint client_id code response e h.0)).run
                    s h.1;
            }

  -- The flow is pending under its state.
  abbrev Ready : PendingFlow → OauthState W → Type 0
  Ready flow s = Safe s × (lookup flow.state s.store.flows ≡ some flow)

  take_pending-Ready :
      (flow : PendingFlow)
      → Triple
          (Ready flow)
          (take_pending web config flow.state)
          (λ e s. Safe s)
          (λ o s. (o ≡ some flow) × Safe s)
  unfolding take_pending take_flow
  take_pending-Ready flow = record { run = λ s h. (h.1, h.0) }

  put_token-Yields :
      (token : OauthToken)
      → Triple
          (λ s. Bound config.canonical_resource_uri Known token × Safe s)
          (put_token web config token)
          (λ e s. Safe s)
          (λ u s. Bound config.canonical_resource_uri Known token × Safe s)
  unfolding put_token save_token
  put_token-Yields token = record {
    run = λ s h. (
      h.0,
      (
        AllBound-insert config.canonical_resource_uri Known (store_key token.issuer token.resource)
            token s.store.tokens h.0 h.1.0,
        h.1.1,
      ),
    );
  }

  use_callback-Yields :
      (server : ServerMetadata) (client_id : String) (callback : OauthCallback) (flow : PendingFlow)
      (o : Option Message)
      → flow.resource ≡ config.canonical_resource_uri
      → Yields (use_callback web config server client_id callback o (some flow))
  use_callback-Yields server client_id callback flow (some m) e = Triple-fail _ (λ s h. h)
  use_callback-Yields server client_id callback flow none e =
      Triple-bind (λ t s. Bound config.canonical_resource_uri Known t × Safe s)
        (exchange_code web config server.token_endpoint client_id callback.code flow) _
        (exchange_code-Yields server.token_endpoint client_id callback.code flow e)
        λ token.
          Triple-bind (λ u s. Bound config.canonical_resource_uri Known token × Safe s)
            (put_token web config token) _ (put_token-Yields token)
            λ u. Triple-return token (λ s h. h)

  redeem-Yields :
      (server : ServerMetadata) (client_id : String) (callback : OauthCallback) (flow : PendingFlow)
      → flow.resource ≡ config.canonical_resource_uri
      → Triple
          (Ready flow)
          (redeem web config server client_id flow.state callback)
          (λ e s. Safe s)
          (λ t s. Bound config.canonical_resource_uri Known t × Safe s)
  unfolding redeem read_now
  redeem-Yields server client_id callback flow e =
      Triple-bind (λ o s. (o ≡ some flow) × Safe s) (take_pending web config flow.state) _
        (take_pending-Ready flow)
        λ o. record {
          run = λ s h.
              subst
                (λ (o' : Option PendingFlow).
                  Ends (λ (m : Message) s'. Safe s')
                    (λ t s'. Bound config.canonical_resource_uri Known t × Safe s')
                    (use_callback web config server client_id callback
                      (callback_error web config flow.state callback (web.now s.world) o') o' s))
                (sym h.0)
                ((use_callback-Yields server client_id callback flow
                    (callback_error web config flow.state callback (web.now s.world) (some flow))
                    e).run
                  s h.1);
        }

  open_flow-Yields :
      (server : ServerMetadata) (client_id : String) (flow : PendingFlow)
      → flow.resource ≡ config.canonical_resource_uri
      → Triple
          (Ready flow)
          (open_flow web config server client_id flow)
          (λ e s. Safe s)
          (λ t s. Bound config.canonical_resource_uri Known t × Safe s)
  unfolding open_flow
  open_flow-Yields server client_id flow e =
      Triple-bind (λ url s. Ready flow s) _ _ (Triple-lift _ (λ a s _ h. h) (λ _ s h. h.0))
        λ url.
          Triple-bind (λ callback s. Ready flow s) _ _
            (Triple-to _ (λ a s h. h) (λ m s h. h.0)
              (outside-Keeps web
                (λ tokens flows calls. Q tokens flows calls × (lookup flow.state flows ≡ some flow))
                (web.open_authorization url
                  (authorization_query web config client_id flow.resource flow))))
            λ callback. redeem-Yields server client_id callback flow e

  put_flow-Ready :
      (flow : PendingFlow)
      → Triple Safe (put_flow web config flow) (λ (m : Message) s. Safe s) (λ u s. Ready flow s)
  unfolding put_flow save_flow
  put_flow-Ready flow = record {
    run = λ s h. (
      h,
      ground (arith, lookup-insert flow.state flow.state flow s.store.flows, eq_refl flow.state),
    );
  }

  run_flow-Yields :
      (server : ServerMetadata) (client_id : String) (flow : PendingFlow)
      → flow.resource ≡ config.canonical_resource_uri
      → Yields (run_flow web config server client_id flow)
  unfolding run_flow take_flow
  run_flow-Yields server client_id flow e =
      Triple-bind (λ u s. Ready flow s) _ _ (put_flow-Ready flow)
        λ u.
          Triple-deferring _ (drop_flow web config flow.state) (λ t s h. h) (λ m s h. h)
            (open_flow-Yields server client_id flow e)

  random_token-Safe : (size : ℕ) → Keeps web Q (random_token web config size)
  unfolding random_token
  random_token-Safe size =
      Triple-bind (λ bytes s. Safe s) _ _ (outside-Keeps web Q (web.random size))
        λ bytes. Triple-return _ (λ s h. h)

  obtain_token-Yields :
      (server : ServerMetadata) (resource : String) (scopes : List String)
      → resource ≡ config.canonical_resource_uri
      → Yields (obtain_token web config server resource scopes)
  unfolding obtain_token pending_flow read_now
  obtain_token-Yields server resource scopes e =
      elim (Bool-cases (member "S256" server.code_challenge_methods)) [
        | inr none_supported ↦ rw none_supported (Triple-fail _ (λ s h. h))
        | inl supported ↦ rw supported (
            Triple-bind (λ id s. Safe s) _ _ (resolve_client_id-Keeps web config Q server resource)
              λ id.
                Triple-bind (λ state s. Safe s) _ _ (random_token-Safe 24)
                  λ state.
                    Triple-bind (λ verifier s. Safe s) _ _ (random_token-Safe 48)
                      λ verifier. record {
                        run = λ s h.
                            (run_flow-Yields server id
                                (pending_flow web config server resource scopes state verifier
                                  (web.now s.world))
                                e).run
                              s h;
                      })
      ]

  abbrev Covered : Option OauthToken → Type 0
  Covered none = Unit
  Covered (some token) = Bound config.canonical_resource_uri Known token

  covering-Covered :
      (tokens : Map OauthToken) (key : String) (now : ℕ) (scopes : List String)
      (o : Option OauthToken)
      → lookup key tokens ≡ o
      → AllBound config.canonical_resource_uri Known tokens
      → Covered (covering scopes (unexpired now o))
  covering-Covered tokens key now scopes none found h = tt
  covering-Covered tokens key now scopes (some token) found h =
      elim (Bool-cases (ltb now token.expires_at)) [
        | inr old ↦ rw old tt
        | inl fresh ↦ rw fresh (elim (Bool-cases (contains_all token.scopes scopes)) [
          | inl covers ↦ rw covers (h key token found)
          | inr short ↦ rw short tt
        ])
      ]

  reusable_token-Covered :
      (server : ServerMetadata) (resource : String) (scopes : List String)
      → Triple Safe
          (reusable_token web config server resource scopes)
          (λ (m : Message) s. Safe s)
          (λ o s. Covered o × Safe s)
  unfolding reusable_token token_of
  reusable_token-Covered server resource scopes = record {
    run = λ s h. (
      covering-Covered s.store.tokens (store_key server.issuer resource) (web.now s.world) scopes _
          refl h.0,
      h,
    );
  }

  token_or_obtain-Yields :
      (server : ServerMetadata) (resource : String) (scopes : List String) (o : Option OauthToken)
      → resource ≡ config.canonical_resource_uri
      → Triple
          (λ s. Covered o × Safe s)
          (token_or_obtain web config server resource scopes o)
          (λ (m : Message) s. Safe s)
          (λ t s. Bound config.canonical_resource_uri Known t × Safe s)
  token_or_obtain-Yields server resource scopes (some token) e = Triple-return token (λ s h. h)
  token_or_obtain-Yields server resource scopes none e =
      Triple-from _ (λ s h. h.1) (obtain_token-Yields server resource scopes e)

  with_resource-Yields :
      (scopes : List String) (found : ResourceMetadata) (servers : List String)
      → Yields (with_resource web config scopes found servers)
  with_resource-Yields scopes found [] = Triple-fail _ (λ s h. h)
  with_resource-Yields scopes found (issuer ∷ others) =
      elim (Bool-cases (found.resource == config.canonical_resource_uri)) [
        | inr other ↦ rw other (Triple-fail _ (λ s h. h))
        | inl same ↦ rw same (
            Triple-bind (λ server s. Safe s) _ _
              (discover_authorization_server-Keeps web config Q issuer)
              λ server.
                Triple-bind (λ o s. Covered o × Safe s) _ _
                  (reusable_token-Covered server found.resource scopes)
                  λ o.
                    token_or_obtain-Yields server found.resource scopes o
                      ((eq_iff found.resource config.canonical_resource_uri).0 same))
      ]

  pub authorize-Yields :
      (endpoint : Url) (metadata_url : String) (scopes : List String)
      → Yields (authorize web config endpoint metadata_url scopes)
  unfolding authorize
  authorize-Yields endpoint metadata_url scopes =
      Triple-bind (λ found s. Safe s) _ _
        (discover_resource-Keeps web config Q endpoint metadata_url)
        λ found. with_resource-Yields scopes found found.authorization_servers
