-- ===== src/Tests/OauthClient.antt =====
-- The OAuth client of the host, on concrete inputs.
use mcp_from_scratch.Base.Decimal.{parse_int}
use mcp_from_scratch.Base.Base64.{encode}
use mcp_from_scratch.Host.Oauth.{save_client}
use mcp_from_scratch.Host.Oauth.{take_flow}
use mcp_from_scratch.Json.Decode.{bool_member}
use mcp_from_scratch.Json.Decode.{strings_member}
use mcp_from_scratch.Json.Decode.{string_member}
use mcp_from_scratch.Json.Decode.{as_struct}
use mcp_from_scratch.Base.Text.{trim_space}
use mcp_from_scratch.Protocol.Errors.{Message}
use mcp_from_scratch.Host.Oauth.{
  Url, Ip, v4, v6, OauthCallback, PendingFlow, empty_store, save_flow, WebCall, resource_call,
  get_call, json_call, form_call, readable, WebResponse, OauthConfig, Web, OauthState, body_of,
}
use mcp_from_scratch.Host.Oauth.Endpoint.{dial_context}
use mcp_from_scratch.Host.Oauth.Endpoint.Ranges.{Admissible, Sized, dial_context-Admissible}
use mcp_from_scratch.Host.Oauth.Challenge.{split_auth_params, union_scopes, parse_bearer_challenges}
use mcp_from_scratch.Host.Oauth.Challenge.Parts.{joined, Part, split_auth_params-Part}
use mcp_from_scratch.Host.Oauth.Challenge.Scopes.{member-union_scopes}
use mcp_from_scratch.Host.Oauth.Discovery.{ServerMetadata}
use mcp_from_scratch.Host.Oauth.Flow.{expiry, redeem, authorize}
use mcp_from_scratch.Host.Oauth.Flow.Binding.{asked}
use mcp_from_scratch.Host.Oauth.Flow.Redemption.{Redeemed, redeem-Genuine}
use mcp_from_scratch.Host.Oauth.Flow.Pending.{Older, authorize-Older}
use mcp_from_scratch.Host.Oauth.Requests.{OauthRequest, do_request}
use mcp_from_scratch.Host.Oauth.Requests.Bounds.{Outcome, do_request-Outcome}
use mcp_from_scratch.Base.{
  ℕ, ◌+◌, String, ◌≡◌, refl, subst, true, false, not, ◌&&◌, ◌||◌, Option, none, some, List, [], ◌∷◌,
  map, arith, ◌==◌, eq_iff, member, All, lookup, insert, Result, ok, err, ok_injective, ltb, ◌^◌,
}
use mcp_from_scratch.Json.{num, str, arr, obj, Fields, object, strings, get}

abbrev resource_uri : String
resource_uri = "https://api.example/mcp"

abbrev issuer_uri : String
issuer_uri = "https://login.example"

abbrev at_host : String → Url
at_host host = record {
  scheme = "https";
  host = host;
  hostname = host;
  escaped_path = "";
  raw_query = "";
  user = false;
  fragment = "";
}

abbrev answer : ℕ → List String → Fields → Option WebResponse
answer status challenges fields =
    some
      (record { status = status; challenges = challenges; body = readable 100 (some (obj fields)) })

-- The resource wants a token; the servers answer each other request at once.
abbrev serve_call : WebCall → Option WebResponse
serve_call (resource_call none body) = answer 401 ("Bearer scope=\"tools\"" ∷ []) (object [])
serve_call (resource_call (some auth) body) = answer 200 [] (object [])
serve_call (json_call url payload) = answer 201 [] (object (("client_id", str "registered") ∷ []))
serve_call (form_call url form) = answer 200 [] (
    object (
      ("access_token", str "secret")
      ∷ ("expires_in", num "60")
      ∷ ("scope", str "tools")
      ∷ ("aud", arr (strings (resource_uri ∷ [])))
      ∷ []))
serve_call (get_call url) = answer 200 [] (
    object (
      ("resource", str resource_uri)
      ∷ ("authorization_servers", arr (strings (issuer_uri ∷ [])))
      ∷ ("issuer", str issuer_uri)
      ∷ ("authorization_endpoint", str "https://login.example/authorize")
      ∷ ("token_endpoint", str "https://login.example/token")
      ∷ ("registration_endpoint", str "https://login.example/register")
      ∷ ("code_challenge_methods_supported", arr (strings ("S256" ∷ [])))
      ∷ []))

abbrev or_blank : Option String → String
or_blank none = ""
or_blank (some s) = s

-- The world is the time in nanoseconds.
abbrev toy_web : Web ℕ
toy_web = record {
  parse_url = λ raw. some (at_host raw);
  parse_ip = λ host. none;
  unquote = λ quoted. some "tools";
  sha256 = λ bytes. bytes;
  now = λ w. w;
  random = λ size w. (ok (1 ∷ 2 ∷ 3 ∷ []), w + 1);
  send = λ call w. (serve_call call, w + 1);
  open_authorization = λ url query w.
      (ok (record { code = "code"; state = or_blank (lookup "state" query); issuer = "" }), w + 1);
  user_client_id = λ issuer w. (ok "typed", w);
}

abbrev toy_config : OauthConfig
toy_config = record {
  canonical_resource_uri = resource_uri;
  redirect_uri = "https://host.example/callback";
  client_registrations = [];
  client_id_metadata_url = "";
  asks_user = false;
  store_given = true;
  authorization_given = true;
  allow_loopback = false;
}

abbrev fresh : OauthState ℕ
fresh = record { store = empty_store; world = 1000; calls = [] }

abbrev toy_request : OauthRequest
toy_request = record {
  url = at_host resource_uri;
  text = resource_uri;
  body = body_of (7 ∷ 8 ∷ []) false;
}

-- The request is sent without a token, and again with the one that the flow obtains.
sent_twice :
    asked (do_request toy_web toy_config (some toy_request) [] fresh).1.calls
    ≡ resource_call (some "Bearer secret") (7 ∷ 8 ∷ []) ∷ resource_call none (7 ∷ 8 ∷ []) ∷ []
unfolding do_request trim_space lookup insert get as_struct string_member strings_member bool_member
    take_flow save_flow save_client encode parse_int
sent_twice = refl

do_request-Outcome_example : Outcome toy_web toy_config toy_request [] fresh
unfolding lookup
do_request-Outcome_example =
    do_request-Outcome toy_web toy_config toy_request [] fresh (λ key token found. cc) refl

abbrev toy_server : ServerMetadata
toy_server = record {
  issuer = issuer_uri;
  authorization_endpoint = "https://login.example/authorize";
  token_endpoint = "https://login.example/token";
  registration_endpoint = "";
  code_challenge_methods = "S256" ∷ [];
  issuer_parameter_supported = true;
  client_id_metadata_supported = false;
}

abbrev toy_flow : PendingFlow
toy_flow = record {
  issuer = issuer_uri;
  resource = resource_uri;
  state = "state";
  verifier = "verifier";
  redirect_uri = "https://host.example/callback";
  scopes = [];
  issuer_required = true;
  expires_at = 5000;
}

abbrev toy_callback : OauthCallback
toy_callback = record { code = "code"; state = "state"; issuer = issuer_uri }

abbrev pending : OauthState ℕ
pending = record fresh { store = save_flow toy_flow empty_store }

redeem-Genuine_example :
    Redeemed toy_web toy_config toy_server "client" "state" toy_callback pending
      (redeem toy_web toy_config toy_server "client" "state" toy_callback pending)
redeem-Genuine_example =
    redeem-Genuine toy_web toy_config toy_server "client" "state" toy_callback pending

authorize-Older_example :
    Older pending.store.flows
      (authorize toy_web toy_config (at_host resource_uri) "" ("tools" ∷ []) pending).1.store.flows
authorize-Older_example =
    authorize-Older toy_web toy_config (at_host resource_uri) "" ("tools" ∷ []) pending

abbrev resolve : String → Result Message (List (Option Ip))
resolve host = ok (
    some (v4 0x08080808) ∷ some (v4 0x7f000001) ∷ some (v6 0x20014860486000000000000000008888) ∷ [])

dial_context-Admissible_example :
    (host : String) × (rest : List (Option Ip)) × (◌≡◌ {A = Result Message (String × String)}
      (ok ("dns.example", "443"))
      (ok (host, "443")))
    × (resolve host ≡ ok (some (v4 0x08080808) ∷ rest))
    × All (Admissible true) (some (v4 0x08080808) ∷ rest)
unfolding dial_context
dial_context-Admissible_example =
    dial_context-Admissible true (ok ("dns.example", "443")) resolve (some (v4 0x08080808)) "443"
      (λ host ips answered. subst (All Sized) (ok_injective answered) (omega arith)) refl

split_auth_params-Part_example :
    (ps : List String) × (("a=\"b,c\"" ∷ "d=e" ∷ []) ≡ map trim_space ps)
    × (joined ps ≡ "a=\"b,c\", d=e")
    × All Part ps
unfolding split_auth_params trim_space
split_auth_params-Part_example =
    split_auth_params-Part "a=\"b,c\", d=e" ("a=\"b,c\"" ∷ "d=e" ∷ [])
      (λ e. absurd (ground (arith, eq_iff "a=\"b,c\", d=e" ""))) refl

member-union_scopes_example :
    member "b" (union_scopes ("c" ∷ "a" ∷ []) ("b" ∷ "" ∷ "a" ∷ []))
    ≡ (not ("b" == "") && (member "b" ("c" ∷ "a" ∷ []) || member "b" ("b" ∷ "" ∷ "a" ∷ [])))
member-union_scopes_example = member-union_scopes "b" ("c" ∷ "a" ∷ []) ("b" ∷ "" ∷ "a" ∷ [])

-- A challenge that is the name of its scheme alone is not recognised.
bare_bearer_refused :
    parse_bearer_challenges toy_web.unquote ("Bearer" ∷ [])
    ≡ err (Message.plain "oauth response did not contain a Bearer challenge")
unfolding parse_bearer_challenges trim_space
bare_bearer_refused = refl

-- A token that is granted for 9223372037 seconds has expired when it arrives.
long_token_expired : ltb (expiry (10 ^ 19) 9223372037) (10 ^ 19) ≡ true
unfolding expiry
long_token_expired = refl
