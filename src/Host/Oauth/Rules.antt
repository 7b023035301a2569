-- ===== src/Host/Oauth/Rules.antt =====
-- internal/host/oauth.go: what the client does with the outside leaves the tokens and the pending
-- flows alone, unless a request carries a token or a code.
use mcp_from_scratch.Protocol.Errors.{Message}
use mcp_from_scratch.Base.Actions.{Ends, Triple}
use mcp_from_scratch.Host.Oauth.{
  OauthToken, PendingFlow, WebCall, resource_call, get_call, json_call, form_call, WebResponse, Web,
  OauthState, OauthAction, send_call, sent, fetch_json, as_fetched, in_world,
}
use mcp_from_scratch.Base.{String, Option, none, some, List, [], ◌∷◌, Map, Result, ok, err}

-- The requests that carry a token or a code.
abbrev pub heavy : List WebCall → List WebCall
heavy [] = []
heavy (resource_call token body ∷ calls) = resource_call token body ∷ heavy calls
heavy (form_call url form ∷ calls) = form_call url form ∷ heavy calls
heavy (get_call url ∷ calls) = heavy calls
heavy (json_call url payload ∷ calls) = heavy calls

module _ {W : Type 0} (web : Web W)
    (Q : Map OauthToken → Map PendingFlow → List WebCall → Type 0) where
  abbrev pub Holds : OauthState W → Type 0
  Holds s = Q s.store.tokens s.store.flows (heavy s.calls)

  abbrev pub Stays : {A : Type 0} → Result Message A × OauthState W → Type 0
  Stays t = Ends (λ e s. Holds s) (λ a s. Holds s) t

  abbrev pub Keeps : {A : Type 0} → OauthAction W A → Type 0
  Keeps m = Triple Holds m (λ e s. Holds s) (λ a s. Holds s)

  sent-get :
      (url : String) (s : OauthState W) (r : Option WebResponse × W)
      → Holds s
      → Holds (as_fetched (sent (get_call url) s r)).1
  sent-get url s (none, w) h = h
  sent-get url s (some response, w) h = h

  pub fetch_json-Keeps :
      (url : String) (s : OauthState W) → Holds s → Holds (fetch_json web url s).1
  unfolding fetch_json send_call
  fetch_json-Keeps url s h = sent-get url s (web.send (get_call url) s.world) h

  in_world-Keeps :
      {A : Type 0} (s : OauthState W) (t : Result Message A × W) → Holds s → Stays (in_world s t)
  in_world-Keeps s (ok a, w) h = h
  in_world-Keeps s (err e, w) h = h

  pub outside-Keeps :
      {A : Type 0} (f : W → Result Message A × W) → Keeps {A = A} (λ s. in_world s (f s.world))
  outside-Keeps f = record { run = λ s h. in_world-Keeps s (f s.world) h }
