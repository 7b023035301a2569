-- ===== src/Host/Oauth/Flow/Pending.antt =====
-- internal/host/oauth.go: the authorization leaves no flow of its own pending.
use mcp_from_scratch.Protocol.Errors.{Message}
use mcp_from_scratch.Base.Actions.{
  Ends, Triple, Triple-bind, Triple-return, Triple-fail, Triple-lift, Triple-deferring,
}
use mcp_from_scratch.Host.Oauth.{
  Url, OauthCallback, OauthToken, PendingFlow, WebCall, form_call, WebResponse, Web, OauthConfig,
  OauthState, OauthAction, save_flow, take_flow, save_token, send_call, sent, read_now,
}
use mcp_from_scratch.Host.Oauth.Endpoint.{validate_endpoint}
use mcp_from_scratch.Host.Oauth.Rules.{Keeps, outside-Keeps}
use mcp_from_scratch.Host.Oauth.Discovery.{ResourceMetadata, ServerMetadata}
use mcp_from_scratch.Host.Oauth.Discovery.Keeps.{
  discover_resource-Keeps, discover_authorization_server-Keeps,
}
use mcp_from_scratch.Host.Oauth.Registration.Keeps.{resolve_client_id-Keeps}
use mcp_from_scratch.Host.Oauth.Flow.{
  TokenAnswer, usable, code_form, accept_answer, exchange_code, take_pending, put_flow, put_token,
  callback_error, use_callback, redeem, random_token, drop_flow, authorization_query, open_flow,
  pending_flow, run_flow, obtain_token, reusable_token, token_or_obtain, with_resource, authorize,
}
use mcp_from_scratch.Base.{
  ℕ, String, ◌≡◌, inl, inr, ◌||◌, Option, none, some, List, [], ◌∷◌, arith, ◌==◌, eqb, Bool-cases,
  member, Map, lookup, insert, remove, lookup-insert, lookup-remove, Result, ok, err,
}

module _ {W : Type 0} (web : Web W) (config : OauthConfig) (F : Map PendingFlow → Type 0) where
  abbrev pub Q : Map OauthToken → Map PendingFlow → List WebCall → Type 0
  Q tokens flows calls = F flows

  sent_form-Keeps :
      (url : String) (form : Map String) (s : OauthState W) (t : Option WebResponse × W)
      → F s.store.flows
      → Ends
          (λ (e : Message) s'. F s'.store.flows)
          (λ a s'. F s'.store.flows)
          (sent (form_call url form) s t)
  sent_form-Keeps url form s (none, w) h = h
  sent_form-Keeps url form s (some r, w) h = h

  send_form-Keeps :
      (url : String) (form : Map String) → Keeps web Q (send_call web (form_call url form))
  unfolding send_call
  send_form-Keeps url form = record { run = λ s h. sent_form-Keeps url form s _ h }

  accept_answer-Keeps :
      (flow : PendingFlow) (o : Option TokenAnswer) → Keeps web Q (accept_answer web config flow o)
  unfolding read_now
  accept_answer-Keeps flow none = Triple-fail _ (λ s h. h)
  accept_answer-Keeps flow (some answer) =
      elim (Bool-cases (answer.access_token == "" || eqb answer.expires_in 0)) [
        | inl bad ↦ rw bad (Triple-fail _ (λ s h. h))
        | inr good ↦ rw good (elim (Bool-cases (member flow.resource answer.audience)) [
          | inl among ↦ rw among (record { run = λ s h. h })
          | inr deaf ↦ rw deaf (Triple-fail _ (λ s h. h))
        ])
      ]

  exchange_code-Keeps :
      (endpoint client_id code : String) (flow : PendingFlow)
      → Keeps web Q (exchange_code web config endpoint client_id code flow)
  unfolding exchange_code
  exchange_code-Keeps endpoint client_id code flow =
      Triple-bind (λ url s. F s.store.flows) _ _
        (Triple-lift (validate_endpoint web config.allow_loopback endpoint "token endpoint")
          (λ a s _ h. h) (λ m s h. h))
        λ url.
          Triple-bind (λ r s. F s.store.flows) _ _
            (send_form-Keeps endpoint (code_form client_id code flow))
            λ response. accept_answer-Keeps flow (usable response)

  put_token-Keeps : (token : OauthToken) → Keeps web Q (put_token web config token)
  unfolding put_token save_token
  put_token-Keeps token = record { run = λ s h. h }

  use_callback-Keeps :
      (server : ServerMetadata) (client_id : String) (callback : OauthCallback) (o : Option Message)
      (stored : Option PendingFlow)
      → Keeps web Q (use_callback web config server client_id callback o stored)
  use_callback-Keeps server client_id callback (some m) stored = Triple-fail _ (λ s h. h)
  use_callback-Keeps server client_id callback none none = Triple-fail _ (λ s h. h)
  use_callback-Keeps server client_id callback none (some flow) =
      Triple-bind (λ t s. F s.store.flows) _ _
        (exchange_code-Keeps server.token_endpoint client_id callback.code flow)
        λ token.
          Triple-bind (λ u s. F s.store.flows) _ _ (put_token-Keeps token)
            λ u. Triple-return token (λ s h. h)

-- Every flow but the one under the state was pending at first.
abbrev OlderBut : String → Map PendingFlow → Map PendingFlow → Type 0
OlderBut state first flows =
    (key : String) (flow : PendingFlow)
    → lookup key (remove state flows) ≡ some flow
    → lookup key first ≡ some flow

abbrev pub Older : Map PendingFlow → Map PendingFlow → Type 0
Older first flows =
    (key : String) (flow : PendingFlow)
    → lookup key flows ≡ some flow
    → lookup key first ≡ some flow

OlderBut-remove :
    (state : String) (first flows : Map PendingFlow)
    → OlderBut state first flows
    → OlderBut state first (remove state flows)
OlderBut-remove state first flows h key flow found =
    h key flow
      (ground (arith, lookup-remove state key flows, lookup-remove state key (remove state flows)))

OlderBut-insert :
    (state : String) (first flows : Map PendingFlow) (pending : PendingFlow)
    → Older first flows
    → OlderBut state first (insert state pending flows)
OlderBut-insert state first flows pending h key flow found = h key flow (
    ground (
      arith,
      lookup-remove state key (insert state pending flows),
      lookup-insert state key pending flows,
    ))

module _ {W : Type 0} (web : Web W) (config : OauthConfig) (first : Map PendingFlow) where
  Leaves : String → OauthState W → Type 0
  Leaves state s = OlderBut state first s.store.flows

  abbrev Recalls : {A : Type 0} → OauthAction W A → Type 0
  Recalls m = Keeps web (Q web config (Older first)) m

  take_pending-Keeps :
      (state : String)
      → Keeps web (Q web config (OlderBut state first)) (take_pending web config state)
  unfolding take_pending take_flow
  take_pending-Keeps state = record { run = λ s h. OlderBut-remove state first s.store.flows h }

  redeem-Keeps :
      (server : ServerMetadata) (client_id state : String) (callback : OauthCallback)
      → Keeps web
          (Q web config (OlderBut state first))
          (redeem web config server client_id state callback)
  unfolding redeem read_now
  redeem-Keeps server client_id state callback =
      Triple-bind (λ o s. OlderBut state first s.store.flows) _ _ (take_pending-Keeps state)
        λ o. record {
          run = λ s h.
              (use_callback-Keeps web config (OlderBut state first) server client_id callback
                  (callback_error web config state callback (web.now s.world) o) o).run
                s h;
        }

  open_flow-Keeps :
      (server : ServerMetadata) (client_id : String) (flow : PendingFlow)
      → Keeps web
          (Q web config (OlderBut flow.state first))
          (open_flow web config server client_id flow)
  unfolding open_flow
  open_flow-Keeps server client_id flow =
      Triple-bind (λ url s. OlderBut flow.state first s.store.flows) _ _
        (Triple-lift
          (validate_endpoint web config.allow_loopback server.authorization_endpoint
            "authorization endpoint")
          (λ a s _ h. h) (λ m s h. h))
        λ url.
          Triple-bind (λ callback s. OlderBut flow.state first s.store.flows) _ _
            (outside-Keeps web (Q web config (OlderBut flow.state first)) (
              web.open_authorization url
                (authorization_query web config client_id flow.resource flow)))
            λ callback. redeem-Keeps server client_id flow.state callback

  put_flow-leaves :
      (flow : PendingFlow)
      → Triple
          (λ s. Older first s.store.flows)
          (put_flow web config flow)
          (λ (m : Message) s. Older first s.store.flows)
          (λ u s. OlderBut flow.state first s.store.flows)
  unfolding put_flow save_flow
  put_flow-leaves flow = record {
    run = λ s h. OlderBut-insert flow.state first s.store.flows flow h;
  }

  run_flow-Keeps :
      (server : ServerMetadata) (client_id : String) (flow : PendingFlow)
      → Recalls (run_flow web config server client_id flow)
  unfolding run_flow take_flow
  run_flow-Keeps server client_id flow =
      Triple-bind (λ u s. OlderBut flow.state first s.store.flows) _ _ (put_flow-leaves flow)
        λ u.
          Triple-deferring _ (drop_flow web config flow.state) (λ t s h. h) (λ m s h. h)
            (open_flow-Keeps server client_id flow)

  random_token-Keeps : (size : ℕ) → Recalls (random_token web config size)
  unfolding random_token
  random_token-Keeps size =
      Triple-bind (λ bytes s. Older first s.store.flows) _ _
        (outside-Keeps web (Q web config (Older first)) (web.random size))
        λ bytes. Triple-return _ (λ s h. h)

  obtain_token-Keeps :
      (server : ServerMetadata) (resource : String) (scopes : List String)
      → Recalls (obtain_token web config server resource scopes)
  unfolding obtain_token read_now
  obtain_token-Keeps server resource scopes =
      elim (Bool-cases (member "S256" server.code_challenge_methods)) [
        | inr none_supported ↦ rw none_supported (Triple-fail _ (λ s h. h))
        | inl supported ↦ rw supported (
            Triple-bind (λ id s. Older first s.store.flows) _ _
              (resolve_client_id-Keeps web config (Q web config (Older first)) server resource)
              λ id.
                Triple-bind (λ state s. Older first s.store.flows) _ _ (random_token-Keeps 24)
                  λ state.
                    Triple-bind (λ verifier s. Older first s.store.flows) _ _
                      (random_token-Keeps 48)
                      λ verifier. record {
                        run = λ s h.
                            (run_flow-Keeps server id (
                                pending_flow web config server resource scopes state verifier
                                  (web.now s.world))).run
                              s h;
                      })
      ]

  reusable_token-Keeps :
      (server : ServerMetadata) (resource : String) (scopes : List String)
      → Recalls (reusable_token web config server resource scopes)
  unfolding reusable_token
  reusable_token-Keeps server resource scopes = record { run = λ s h. h }

  token_or_obtain-Keeps :
      (server : ServerMetadata) (resource : String) (scopes : List String) (o : Option OauthToken)
      → Recalls (token_or_obtain web config server resource scopes o)
  token_or_obtain-Keeps server resource scopes (some token) = Triple-return token (λ s h. h)
  token_or_obtain-Keeps server resource scopes none = obtain_token-Keeps server resource scopes

  with_resource-Keeps :
      (scopes : List String) (found : ResourceMetadata) (servers : List String)
      → Recalls (with_resource web config scopes found servers)
  with_resource-Keeps scopes found [] = Triple-fail _ (λ s h. h)
  with_resource-Keeps scopes found (issuer ∷ others) =
      elim (Bool-cases (found.resource == config.canonical_resource_uri)) [
        | inr other ↦ rw other (Triple-fail _ (λ s h. h))
        | inl same ↦ rw same (
            Triple-bind (λ server s. Older first s.store.flows) _ _
              (discover_authorization_server-Keeps web config (Q web config (Older first)) issuer)
              λ server.
                Triple-bind (λ o s. Older first s.store.flows) _ _
                  (reusable_token-Keeps server found.resource scopes)
                  λ o. token_or_obtain-Keeps server found.resource scopes o)
      ]

  authorize-Keeps :
      (endpoint : Url) (metadata_url : String) (scopes : List String)
      → Recalls (authorize web config endpoint metadata_url scopes)
  unfolding authorize
  authorize-Keeps endpoint metadata_url scopes =
      Triple-bind (λ found s. Older first s.store.flows) _ _
        (discover_resource-Keeps web config (Q web config (Older first)) endpoint metadata_url)
        λ found. with_resource-Keeps scopes found found.authorization_servers

ended :
    {W : Type 0} (F : Map PendingFlow → Type 0) (t : Result Message OauthToken × OauthState W)
    → Ends (λ (m : Message) s. F s.store.flows) (λ a s. F s.store.flows) t
    → F t.1.store.flows
ended F (ok a, s) h = h
ended F (err m, s) h = h

-- Whether it ends with a token or with an error, and whatever the servers and the user answer, an
-- authorization leaves no flow pending that was not pending before: its own state cannot be used
-- by a callback that comes later.
pub authorize-Older :
    {W : Type 0} (web : Web W) (config : OauthConfig) (endpoint : Url) (metadata_url : String)
    (scopes : List String) (s : OauthState W)
    → Older s.store.flows (authorize web config endpoint metadata_url scopes s).1.store.flows
authorize-Older web config endpoint metadata_url scopes s =
    ended (Older s.store.flows) (authorize web config endpoint metadata_url scopes s) (
      (authorize-Keeps web config s.store.flows endpoint metadata_url scopes).run s
        (λ key flow found. found))
