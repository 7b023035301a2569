-- ===== src/Host/Oauth/Flow/Redemption.antt =====
-- internal/host/oauth.go: when a code is sent to the token endpoint, and what becomes of the flow.
use mcp_from_scratch.Protocol.Errors.{Message}
use mcp_from_scratch.Base.Actions.{
  Ends, Triple, Triple-bind, Triple-return, Triple-fail, Triple-lift,
}
use mcp_from_scratch.Host.Oauth.{
  OauthCallback, OauthToken, PendingFlow, WebCall, form_call, WebResponse, Web, OauthConfig,
  OauthState, take_flow, save_token, send_call, sent, read_now,
}
use mcp_from_scratch.Host.Oauth.Endpoint.{validate_endpoint}
use mcp_from_scratch.Host.Oauth.Rules.{heavy}
use mcp_from_scratch.Host.Oauth.Discovery.{ServerMetadata}
use mcp_from_scratch.Host.Oauth.Flow.{
  TokenAnswer, usable, code_form, accept_answer, exchange_code, take_pending, put_token,
  callback_error, use_callback, redeem,
}
use mcp_from_scratch.Base.{
  ℕ, ◌<◌, String, ◌≡◌, refl, ap, ◌≢◌, ◌⊎◌, inl, inr, true, ◌||◌, Option, none, some, List, ◌∷◌,
  arith, ◌==◌, eq_iff, eq_refl, eqb, Bool-cases, member, Map, lookup, lookup-remove, Result, ok,
  err,
}

-- The callback answers the flow that is pending under the state, in time and from its issuer.
pub record Genuine (state : String) (callback : OauthCallback) (flow : PendingFlow) (now : ℕ)
    : Type 0 where
  pub same_state : callback.state ≡ state
  pub own_state : flow.state ≡ state
  pub in_time : now < flow.expires_at
  pub same_issuer : (callback.issuer ≡ "") ⊎ (callback.issuer ≡ flow.issuer)
  pub issuer_given : flow.issuer_required ≡ true → callback.issuer ≢ ""

module _ {W : Type 0} (web : Web W) (config : OauthConfig) where
  callback_error-none :
      (state : String) (callback : OauthCallback) (now : ℕ) (flow : PendingFlow)
      → callback_error web config state callback now (some flow) ≡ none
      → Genuine state callback flow now
  unfolding callback_error
  callback_error-none state callback now flow h = record {
    same_state = ground (arith, eq_iff callback.state state);
    own_state = ground (arith, eq_iff flow.state state);
    in_time = ground arith;
    same_issuer = issuers;
    issuer_given = λ needed blank. ground (arith, eq_iff callback.issuer "");
  }
    where
      issuers : (callback.issuer ≡ "") ⊎ (callback.issuer ≡ flow.issuer)
      issuers = elim (Bool-cases (callback.issuer == "")) [
        | inl blank ↦ inl ((eq_iff callback.issuer "").0 blank)
        | inr given ↦ inr (ground (arith, eq_iff callback.issuer flow.issuer))
      ]

  module _ (state : String) (before : List WebCall) (call : WebCall) where
    -- No request with a code yet, or this one; and the flow is not pending any more.
    abbrev Taken : OauthState W → Type 0
    Taken s = (heavy s.calls ≡ before) × (lookup state s.store.flows ≡ none)

    abbrev Done : OauthState W → Type 0
    Done s =
        ((heavy s.calls ≡ before) ⊎ (heavy s.calls ≡ call ∷ before))
        × (lookup state s.store.flows ≡ none)

  module _ (state : String) (before : List WebCall) (endpoint : String) (form : Map String) where
    sent_form-Done :
        (s : OauthState W) (t : Option WebResponse × W)
        → Taken state before (form_call endpoint form) s
        → Ends
            (λ (m : Message) s'. Done state before (form_call endpoint form) s')
            (λ r s'. Done state before (form_call endpoint form) s')
            (sent (form_call endpoint form) s t)
    sent_form-Done s (none, w) h = (inr (ap (λ cs. form_call endpoint form ∷ cs) h.0), h.1)
    sent_form-Done s (some r, w) h = (inr (ap (λ cs. form_call endpoint form ∷ cs) h.0), h.1)

    send_form-Done :
        Triple
          (Taken state before (form_call endpoint form))
          (send_call web (form_call endpoint form))
          (λ m s. Done state before (form_call endpoint form) s)
          (λ r s. Done state before (form_call endpoint form) s)
    unfolding send_call
    send_form-Done = record { run = λ s h. sent_form-Done s _ h }

  accept_answer-Done :
      (P : OauthState W → Type 0) (flow : PendingFlow) (o : Option TokenAnswer)
      → Triple P (accept_answer web config flow o) (λ m s. P s) (λ t s. P s)
  unfolding read_now
  accept_answer-Done P flow none = Triple-fail _ (λ s h. h)
  accept_answer-Done P flow (some answer) =
      elim (Bool-cases (answer.access_token == "" || eqb answer.expires_in 0)) [
        | inl bad ↦ rw bad (Triple-fail _ (λ s h. h))
        | inr good ↦ rw good (elim (Bool-cases (member flow.resource answer.audience)) [
          | inl among ↦ rw among (record { run = λ s h. h })
          | inr deaf ↦ rw deaf (Triple-fail _ (λ s h. h))
        ])
      ]

  exchange_code-Done :
      (state : String) (before : List WebCall) (endpoint client_id code : String)
      (flow : PendingFlow)
      → Triple
          (Taken state before (form_call endpoint (code_form client_id code flow)))
          (exchange_code web config endpoint client_id code flow)
          (λ m s. Done state before (form_call endpoint (code_form client_id code flow)) s)
          (λ t s. Done state before (form_call endpoint (code_form client_id code flow)) s)
  unfolding exchange_code
  exchange_code-Done state before endpoint client_id code flow =
      Triple-bind
        (λ url s. Taken state before (form_call endpoint (code_form client_id code flow)) s) _ _
        (Triple-lift (validate_endpoint web config.allow_loopback endpoint "token endpoint")
          (λ a s _ h. h) (λ m s h. (inl h.0, h.1)))
        λ url.
          Triple-bind
            (λ r s. Done state before (form_call endpoint (code_form client_id code flow)) s) _ _
            (send_form-Done state before endpoint (code_form client_id code flow))
            λ response.
              accept_answer-Done
                (Done state before (form_call endpoint (code_form client_id code flow))) flow
                (usable response)

  put_token-Done :
      (state : String) (before : List WebCall) (call : WebCall) (token : OauthToken)
      → Triple
          (Done state before call)
          (put_token web config token)
          (λ (m : Message) s. Done state before call s)
          (λ u s. Done state before call s)
  unfolding put_token save_token
  put_token-Done state before call token = record { run = λ s h. h }

  abbrev pub Redeemed :
      ServerMetadata
      → String
      → String
      → OauthCallback
      → OauthState W
      → Result Message OauthToken × OauthState W
      → Type 0
  Redeemed server client_id state callback s t =
      ((heavy t.1.calls ≡ heavy s.calls)
        ⊎ ((flow : PendingFlow) × (lookup state s.store.flows ≡ some flow)
            × Genuine state callback flow (web.now s.world)
            × (heavy t.1.calls
                ≡ form_call server.token_endpoint (code_form client_id callback.code flow)
                  ∷ heavy s.calls)))
      × (lookup state t.1.store.flows ≡ none)

  done :
      (server : ServerMetadata) (client_id state : String) (callback : OauthCallback)
      (flow : PendingFlow) (s : OauthState W) (t : Result Message OauthToken × OauthState W)
      → lookup state s.store.flows ≡ some flow
      → Genuine state callback flow (web.now s.world)
      → Ends
          (λ (m : Message) s'.
            Done state
              (heavy s.calls)
              (form_call server.token_endpoint (code_form client_id callback.code flow))
              s')
          (λ a s'.
            Done state
              (heavy s.calls)
              (form_call server.token_endpoint (code_form client_id callback.code flow))
              s')
          t
      → Redeemed server client_id state callback s t
  done server client_id state callback flow s (err m, s') found g (inl same, gone) =
      (inl same, gone)
  done server client_id state callback flow s (err m, s') found g (inr more, gone) =
      (inr (flow, found, g, more), gone)
  done server client_id state callback flow s (ok a, s') found g (inl same, gone) = (inl same, gone)
  done server client_id state callback flow s (ok a, s') found g (inr more, gone) =
      (inr (flow, found, g, more), gone)

  exchanged :
      (server : ServerMetadata) (client_id state : String) (callback : OauthCallback)
      (flow : PendingFlow) (s s1 : OauthState W)
      → lookup state s.store.flows ≡ some flow
      → Genuine state callback flow (web.now s.world)
      → heavy s1.calls ≡ heavy s.calls
      → lookup state s1.store.flows ≡ none
      → Redeemed server client_id state callback s
          (use_callback web config server client_id callback none (some flow) s1)
  exchanged server client_id state callback flow s s1 found g same gone =
      let call = form_call server.token_endpoint (code_form client_id callback.code flow) in
      done server client_id state callback flow s _ found g (
        (Triple-bind (λ token s'. Done state (heavy s.calls) call s')
            (exchange_code web config server.token_endpoint client_id callback.code flow) _
            (exchange_code-Done state (heavy s.calls) server.token_endpoint client_id callback.code
              flow)
            λ token.
              Triple-bind (λ u s'. Done state (heavy s.calls) call s') (put_token web config token)
                _ (put_token-Done state (heavy s.calls) call token)
                λ u. Triple-return token (λ s' h. h)).run
          s1 (same, gone))

  used :
      (server : ServerMetadata) (client_id state : String) (callback : OauthCallback)
      (s s1 : OauthState W) (stored : Option PendingFlow) (o : Option Message)
      → lookup state s.store.flows ≡ stored
      → callback_error web config state callback (web.now s.world) stored ≡ o
      → heavy s1.calls ≡ heavy s.calls
      → lookup state s1.store.flows ≡ none
      → Redeemed server client_id state callback s
          (use_callback web config server client_id callback o stored s1)
  used server client_id state callback s s1 stored (some m) found e same gone = (inl same, gone)
  used server client_id state callback s s1 none none found e same gone = (inl same, gone)
  used server client_id state callback s s1 (some flow) none found e same gone =
      exchanged server client_id state callback flow s s1 found
        (callback_error-none state callback (web.now s.world) flow e) same gone

  -- Redeeming a callback either sends no code, or sends the code of this callback, once and with the
  -- verifier of the pending flow, to the token endpoint; the latter only if the callback carries the
  -- state under which the flow is pending, the flow has not expired, and the issuer that the callback
  -- names is the flow's, and is named where the server promised it. On every branch the flow is not
  -- pending any more, so that no second callback can use it.
  pub redeem-Genuine :
      (server : ServerMetadata) (client_id state : String) (callback : OauthCallback)
      (s : OauthState W)
      → Redeemed server client_id state callback s
          (redeem web config server client_id state callback s)
  unfolding redeem take_pending take_flow read_now
  redeem-Genuine server client_id state callback s =
      used server client_id state callback s (record s { store = (take_flow state s.store).1 })
        (lookup state s.store.flows) _ refl refl refl
        (ground (arith, lookup-remove state state s.store.flows, eq_refl state))
