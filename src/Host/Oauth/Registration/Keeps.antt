-- ===== src/Host/Oauth/Registration/Keeps.antt =====
-- internal/host/oauth.go: the choice of a client identifier leaves the tokens and the pending flows
-- alone, and makes no request that carries a token or a code.
use mcp_from_scratch.Protocol.Errors.{Message}
use mcp_from_scratch.Host.Oauth.{
  OauthToken, PendingFlow, WebCall, json_call, WebResponse, Web, OauthConfig,
  OauthClientRegistration, OauthState, OauthAction, send_call, sent, fetch_json, in_world,
  save_client, client_of,
}
use mcp_from_scratch.Host.Oauth.Rules.{Holds, Stays, Keeps, fetch_json-Keeps}
use mcp_from_scratch.Host.Oauth.Discovery.{ServerMetadata}
use mcp_from_scratch.Host.Oauth.Registration.{
  keep_client, find_registration, ClientDocument, use_document, decode_document, answered, ask_user,
  use_registered, registered, registered_id, register_client, preregistered, stored_or,
  resolve_client_id, registration_payload,
}
use mcp_from_scratch.Base.{
  String, inl, inr, not, ◌&&◌, ◌||◌, Option, none, some, List, ◌==◌, Bool-cases, member, Map,
  Result, ok, err,
}
use mcp_from_scratch.Json.{Fields}

module _ {W : Type 0} (web : Web W) (config : OauthConfig)
    (Q : Map OauthToken → Map PendingFlow → List WebCall → Type 0) where
  keep_client-Keeps :
      (issuer resource client_id : String) (s : OauthState W)
      → Holds web Q s
      → Stays web Q (keep_client issuer resource client_id s)
  unfolding keep_client save_client
  keep_client-Keeps issuer resource client_id s h = h

  keep_answer-Keeps :
      (issuer resource : String) (t : Result Message String × W) (s : OauthState W)
      → Holds web Q s
      → Stays web Q (answered web config issuer resource (in_world s t))
  keep_answer-Keeps issuer resource (err e, w) s h = h
  keep_answer-Keeps issuer resource (ok id, w) s h = elim (Bool-cases (id == "")) [
    | inl none_given ↦ rw none_given h
    | inr given ↦ rw given (keep_client-Keeps issuer resource id (record s { world = w }) h)
  ]

  ask_user-Keeps :
      (issuer resource : String) (s : OauthState W)
      → Holds web Q s
      → Stays web Q (ask_user web config issuer resource s)
  unfolding ask_user
  ask_user-Keeps issuer resource s h = elim (Bool-cases config.asks_user) [
    | inl asks ↦ rw asks (keep_answer-Keeps issuer resource (web.user_client_id issuer s.world) s h)
    | inr silent ↦ rw silent h
  ]

  use_document-Keeps :
      (issuer resource : String) (o : Option ClientDocument) (s : OauthState W)
      → Holds web Q s
      → Stays web Q (use_document web config issuer resource o s)
  use_document-Keeps issuer resource none s h = h
  use_document-Keeps issuer resource (some d) s h =
      elim (Bool-cases (
        not (d.client_id == config.client_id_metadata_url)
        || d.client_name == ""
        || not (member config.redirect_uri d.redirect_uris))) [
          | inl bad ↦ rw bad h
          | inr good ↦ rw good (keep_client-Keeps issuer resource d.client_id s h)
        ]

  use_registered-Keeps :
      (issuer resource : String) (o : Option String) (s : OauthState W)
      → Holds web Q s
      → Stays web Q (use_registered web config issuer resource o s)
  use_registered-Keeps issuer resource none s h = ask_user-Keeps issuer resource s h
  use_registered-Keeps issuer resource (some id) s h = elim (Bool-cases (id == "")) [
    | inl nothing ↦ rw nothing (ask_user-Keeps issuer resource s h)
    | inr given ↦ rw given (keep_client-Keeps issuer resource id s h)
  ]

  registered-Keeps :
      (issuer resource url : String) (payload : Fields) (t : Option WebResponse × W)
      (s : OauthState W)
      → Holds web Q s
      → Stays web Q (registered web config issuer resource (sent (json_call url payload) s t))
  registered-Keeps issuer resource url payload (none, w) s h = ask_user-Keeps issuer resource _ h
  registered-Keeps issuer resource url payload (some r, w) s h =
      use_registered-Keeps issuer resource (registered_id web config r) _ h

  register_client-Keeps :
      (server : ServerMetadata) (resource : String) (s : OauthState W)
      → Holds web Q s
      → Stays web Q (register_client web config server resource s)
  unfolding register_client send_call
  register_client-Keeps server resource s h =
      elim (Bool-cases
        (not (config.client_id_metadata_url == "") && server.client_id_metadata_supported)) [
          | inl by_document ↦ rw by_document (
              use_document-Keeps server.issuer resource
                (decode_document (fetch_json web config.client_id_metadata_url s).0)
                (fetch_json web config.client_id_metadata_url s).1
                (fetch_json-Keeps web Q config.client_id_metadata_url s h))
          | inr other ↦ rw other (elim (Bool-cases (not (server.registration_endpoint == ""))) [
            | inl dynamic ↦ rw dynamic (
                registered-Keeps server.issuer resource server.registration_endpoint
                  (registration_payload web config)
                  (web.send
                    (json_call server.registration_endpoint (registration_payload web config))
                    s.world)
                  s h)
            | inr manual ↦ rw manual (ask_user-Keeps server.issuer resource s h)
          ])
        ]

  preregistered-Keeps :
      (server : ServerMetadata) (resource : String) (o : Option OauthClientRegistration)
      (s : OauthState W)
      → Holds web Q s
      → Stays web Q (preregistered web config server resource o s)
  preregistered-Keeps server resource none s h = register_client-Keeps server resource s h
  preregistered-Keeps server resource (some r) s h =
      keep_client-Keeps server.issuer resource r.client_id s h

  stored_or-Keeps :
      (o : Option String) (next : OauthAction W String) (s : OauthState W)
      → ((s' : OauthState W) → Holds web Q s' → Stays web Q (next s'))
      → Holds web Q s
      → Stays web Q (stored_or web config o next s)
  stored_or-Keeps none next s k h = k s h
  stored_or-Keeps (some id) next s k h = h

  pub resolve_client_id-Keeps :
      (server : ServerMetadata) (resource : String)
      → Keeps web Q (resolve_client_id web config server resource)
  unfolding resolve_client_id
  resolve_client_id-Keeps server resource = record {
    run = λ s h.
        stored_or-Keeps (client_of server.issuer resource s.store)
          (preregistered web config server resource
            (find_registration server.issuer resource config.client_registrations))
          s
          (preregistered-Keeps server resource
            (find_registration server.issuer resource config.client_registrations))
          h;
  }
