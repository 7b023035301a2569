-- ===== src/Http/Isolation.antt =====
-- What a call over HTTP can do to the tasks of others, and who the resource server makes it.
use Prim.Native.String.append.{nil, cons}
use Prim.Native.Char.{Char}
use Prim.Native.String.{◌++◌ as append}
use mcp_from_scratch.Context.{Ctx, execution_principal, with_execution_principal}
use mcp_from_scratch.Environment.{Environment}
use mcp_from_scratch.Protocol.Errors.{RpcError, Message}
use mcp_from_scratch.Protocol.Requests.{Request, Response, Notification, validate_request}
use mcp_from_scratch.Tasks.{TaskRecord}
use mcp_from_scratch.Subscriptions.{Subscription}
use mcp_from_scratch.Server.{Server}
use mcp_from_scratch.Server.Handle.{handle}
use mcp_from_scratch.Server.Handle.Isolation.{handle_keeps_foreign}
use mcp_from_scratch.Server.Listen.{subscribe}
use mcp_from_scratch.Server.Listen.Isolation.{subscribe_keeps}
use mcp_from_scratch.Oauth.{
  TokenClaims, Principal, ResourceServer, HttpRequest, serve_http, delegated, oauth_task_principal,
}
use mcp_from_scratch.Oauth.Access.{delegated-Granted}
use mcp_from_scratch.Http.{
  HttpCall, HttpReply, validate_http_headers, valid_request_origin, accepts_media_type, media_type,
  opened, ending, answered, serve_http_subscription, serve_http_request_scoped, serve,
  serve_request, with_request, with_envelope, with_headers, decoded_request,
  request_has_progress_token, request_has_log_level,
}
use mcp_from_scratch.Base.{
  ℕ, String, ◌≡◌, refl, sym, ap, ◌∙◌, ◌≢◌, Bool, true, false, not, ◌&&◌, ◌||◌, Option, none, some,
  List, arith, ◌==◌, eq_iff, if◌then◌else◌, is_some, lookup, Result, ok, err,
}

module _ (env : Environment) (ctx : Ctx) (now : ℕ) (random : Result Message (List ℕ))
    (call : HttpCall) (p k : String) (r : TaskRecord) (known : execution_principal ctx ≡ some p)
    (stranger : p ≢ r.owner) where
  abbrev Holds : HttpReply × Server → Type 0
  Holds o = lookup k o.1.tasks ≡ some r

  if_keeps :
      (b : Bool) (o next : HttpReply × Server)
      → Holds o
      → Holds next
      → Holds (if b then o else next)
  if_keeps true o next h g = h
  if_keeps false o next h g = g

  opened_keeps :
      (request : Request) (o : Result RpcError (Subscription × Notification) × Server)
      → lookup k o.1.tasks ≡ some r
      → Holds (opened env ctx now random request.id o)
  unfolding opened
  opened_keeps request (err e, server) h = h
  opened_keeps request (ok (s, ack), server) h = h

  answered_keeps :
      (request : Request) (o : Response × Server)
      → lookup k o.1.tasks ≡ some r
      → Holds (answered env ctx now random request o)
  unfolding answered
  answered_keeps request (response, server) h = if_keeps (not (is_some request.id)) _ _ h h

  ending_keeps :
      (o : Response × Server) → lookup k o.1.tasks ≡ some r → Holds (ending env ctx now random o)
  ending_keeps (response, server) h = h

  module _ (server : Server) (held : lookup k server.tasks ≡ some r) where
    handled :
        (request : Request) → lookup k (handle env ctx now random request server).1.tasks ≡ some r
    handled request =
        handle_keeps_foreign env ctx now random request server p k r known stranger held

    serve_request_keeps :
        (request : Request) → Holds (serve_request env ctx now random call request server)
    unfolding serve_request serve_http_subscription serve_http_request_scoped
    serve_request_keeps request =
        if_keeps (request.method == "subscriptions/listen" && not (is_some request.id)) _ _ held (
          if_keeps (request.method == "subscriptions/listen") _ _
            (if_keeps (not call.can_flush) _ _ held (
              opened_keeps request (subscribe ctx now request.id request.params server) (
                subscribe_keeps ctx now request.id request.params server p k r known stranger
                  held)))
            (if_keeps
              (is_some request.id
                && (request_has_progress_token request.params
                    || request_has_log_level request.params))
              _ _
              (if_keeps (not call.can_flush) _ _ held
                (ending_keeps (handle env ctx now random request server) (handled request)))
              (answered_keeps request (handle env ctx now random request server)
                (handled request))))

    with_headers_keeps :
        (request : Request) (e : Option RpcError)
        → Holds (with_headers env ctx now random call request e server)
    unfolding with_headers
    with_headers_keeps request (some e) = held
    with_headers_keeps request none = serve_request_keeps request

    with_envelope_keeps :
        (request : Request) (e : Option RpcError)
        → Holds (with_envelope env ctx now random call request e server)
    unfolding with_envelope
    with_envelope_keeps request (some e) = held
    with_envelope_keeps request none =
        with_headers_keeps request (validate_http_headers call request)

    with_request_keeps :
        (found : Option Request) → Holds (with_request env ctx now random call found server)
    unfolding with_request
    with_request_keeps none = held
    with_request_keeps (some request) = with_envelope_keeps request (validate_request request)

    serve_keeps : Holds (serve env ctx now random call server)
    unfolding serve
    serve_keeps = if_keeps (not (call.method == "POST")) _ _ held (
        if_keeps (not (valid_request_origin call)) _ _ held (
          if_keeps (not (media_type call.content_type "application/json")) _ _ held (
            if_keeps
              (not (accepts_media_type call.accept "application/json")
                || not (accepts_media_type call.accept "text/event-stream"))
              _ _ held (with_request_keeps (decoded_request call.body)))))

append-nil : (s : String) → append String.[] s ≡ s
append-nil s = nil s

append-cons : (c : Char) (s t : String) → append (String.◌∷◌ c s) t ≡ String.◌∷◌ c (append s t)
append-cons c s t = cons c s t

append-ne-nil : (s : String) (c : Char) (t : String) → append s (String.◌∷◌ c t) ≢ ""
append-ne-nil String.[] c t e = let same = sym (append-nil (String.◌∷◌ c t)) ∙ e in cc same
append-ne-nil (String.◌∷◌ d s) c t e =
    let same = sym (append-cons d s (String.◌∷◌ c t)) ∙ e in cc same

oauth_task_principal_given : (claims : TokenClaims) → oauth_task_principal claims ≢ ""
unfolding oauth_task_principal
oauth_task_principal_given claims e =
    append-ne-nil claims.issuer "\0" (append String.[] claims.subject)
      (ap (append claims.issuer) (sym (append-cons "\0" String.[] claims.subject)) ∙ e)

differs : (s : String) → s ≢ "" → (s == "") ≡ false
differs s h = ground (arith, eq_iff s "")

-- A request that the resource server delegates acts on the HTTP endpoint for the issuer and the
-- subject of its token: whatever the call is, it neither changes nor removes a task that is kept
-- under another name than theirs.
pub delegated_keeps_foreign :
    (guard : ResourceServer) (validate_token : String → Option TokenClaims) (env : Environment)
    (ctx : Ctx) (now : ℕ) (random : Result Message (List ℕ)) (request : HttpRequest)
    (call : HttpCall) (server : Server) (principal : Principal) (owner k : String) (r : TaskRecord)
    → serve_http guard validate_token now request ≡ delegated principal owner
    → owner ≢ r.owner
    → lookup k server.tasks ≡ some r
    → lookup k (serve env (with_execution_principal ctx owner) now random call server).1.tasks
      ≡ some r
unfolding with_execution_principal execution_principal
delegated_keeps_foreign guard validate_token env ctx now random request call server principal owner
      k r passed stranger held =
    let granted = delegated-Granted guard validate_token now request principal owner passed in
    let given : (owner == "") ≡ false =
      differs owner
        (λ e. oauth_task_principal_given granted.claims (sym granted.owner_exact ∙ e)) in
    serve_keeps env (with_execution_principal ctx owner) now random call owner k r (rw given refl)
      stranger server held
