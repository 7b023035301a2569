-- ===== src/Legacy/Lifecycle.antt =====
-- The lifecycle of a stdio connection, and the translation between the two eras.
use mcp_from_scratch.Context.{Ctx}
use mcp_from_scratch.Environment.{Environment}
use mcp_from_scratch.Json.Decode.{as_struct, string_member, map_member, struct_member}
use mcp_from_scratch.Metadata.{validate_request_metadata, decode_params, decode_meta}
use mcp_from_scratch.Protocol.Errors.{Message}
use mcp_from_scratch.Protocol.Requests.{Request, Response}
use mcp_from_scratch.Server.{Server}
use mcp_from_scratch.Legacy.{
  StdioEra, unknown_era, modern_era, legacy_era, StdioCompatibilityState, classify_stdio_era,
  handle_legacy_stdio, initialized_or_refused, handle_stdio_compatibility, decide_era,
  compatibility_meta, answer_in, some_response, legacy_params_as_modern,
  strip_modern_result_envelope,
}
use mcp_from_scratch.Base.{
  ℕ, String, ◌≡◌, refl, sym, ap, ◌∙◌, ◌≢◌, Bool, true, false, ◌||◌, none, some, List, [], ◌∷◌,
  arith, ◌==◌, eq_iff, eq_refl, if◌then◌else◌, is_some, Result, ok, ok_injective,
}
use mcp_from_scratch.Json.{
  Json, null, bool, num, str, arr, obj, Fields, end, field, Raw, get, put, delete,
}

module _ (env : Environment) (ctx : Ctx) (now : ℕ) (random : Result Message (List ℕ)) where
  -- The legacy path keeps the era, and never forgets the initialization.
  legacy_state :
      (request : Request) (state : StdioCompatibilityState) (server : Server)
      → let after = (handle_legacy_stdio env ctx now random request state server).1 in
        (after.era ≡ state.era)
        × (state.legacy_initialized ≡ true → after.legacy_initialized ≡ true)
  unfolding handle_legacy_stdio initialized_or_refused
  legacy_state request state server = (ground arith, λ h. ground arith)

  some_response_state :
      (o : Response × StdioCompatibilityState × Server)
      → (some_response env ctx now random o).1 ≡ o.1
  unfolding some_response
  some_response_state (response, state, server) = refl

  answer_in_era :
      (era : StdioEra) (request : Request) (state : StdioCompatibilityState) (server : Server)
      → (answer_in env ctx now random era request state server).1.era ≡ state.era
  unfolding answer_in
  answer_in_era unknown_era request state server = refl
  answer_in_era modern_era request state server = ground arith
  answer_in_era legacy_era request state server =
      ap (λ (s : StdioCompatibilityState). s.era)
        (some_response_state (handle_legacy_stdio env ctx now random request state server))
      ∙ (legacy_state request state server).0

  compatibility_era :
      (request : Request) (state : StdioCompatibilityState) (server : Server)
      → (handle_stdio_compatibility env ctx now random request state server).1.era
        ≡ decide_era request state.era
  unfolding handle_stdio_compatibility
  compatibility_era request state server =
      answer_in_era (decide_era request state.era) request
        (record state { era = decide_era request state.era }) server

-- The requests of a connection in order, each with the time and the random bytes of its handling.
abbrev pub Arrivals : Type 0
Arrivals = List (ℕ × Result Message (List ℕ) × Request)

unfoldable pub session :
    Environment
    → Ctx
    → Arrivals
    → StdioCompatibilityState
    → Server
    → StdioCompatibilityState × Server
session env ctx [] state server = (state, server)
session env ctx ((now, random, request) ∷ requests) state server =
    let next = handle_stdio_compatibility env ctx now random request state server in
    session env ctx requests next.1 next.2

classify_decided : (request : Request) → classify_stdio_era request ≢ unknown_era
unfolding classify_stdio_era
classify_decided request h = ground arith

decide_era_fixed :
    (request : Request) (era : StdioEra) → era ≢ unknown_era → decide_era request era ≡ era
unfolding decide_era
decide_era_fixed request unknown_era h = absurd (h refl)
decide_era_fixed request modern_era h = refl
decide_era_fixed request legacy_era h = refl

session_era :
    (env : Environment) (ctx : Ctx) (requests : Arrivals) (state : StdioCompatibilityState)
    (server : Server)
    → state.era ≢ unknown_era
    → (session env ctx requests state server).0.era ≡ state.era
unfolding session
session_era env ctx [] state server h = refl
session_era env ctx ((now, random, request) ∷ requests) state server h =
    let next = handle_stdio_compatibility env ctx now random request state server in
    let same : next.1.era ≡ state.era =
      compatibility_era env ctx now random request state server
      ∙ decide_era_fixed request state.era h in
    session_era env ctx requests next.1 next.2 (λ e. h (sym same ∙ e)) ∙ same

-- The era of a connection that has none yet becomes what its first request says, and no later request
-- changes it.
pub first_request_decides :
    (env : Environment) (ctx : Ctx) (now : ℕ) (random : Result Message (List ℕ)) (request : Request)
    (requests : Arrivals) (state : StdioCompatibilityState) (server : Server)
    → state.era ≡ unknown_era
    → (session env ctx ((now, random, request) ∷ requests) state server).0.era
      ≡ classify_stdio_era request
unfolding session decide_era classify_stdio_era
first_request_decides env ctx now random request requests state server fresh =
    let next = handle_stdio_compatibility env ctx now random request state server in
    let same : next.1.era ≡ classify_stdio_era request =
      compatibility_era env ctx now random request state server ∙ (rw (fresh, decide_era) refl) in
    session_era env ctx requests next.1 next.2 (λ e. classify_decided request (sym same ∙ e)) ∙ same

-- Before `initialize` a legacy connection serves nothing: any other request is answered by an error
-- and no result, and leaves the server and the state of the connection as they are.
initialize_comes_first :
    (env : Environment) (ctx : Ctx) (now : ℕ) (random : Result Message (List ℕ)) (request : Request)
    (state : StdioCompatibilityState) (server : Server)
    → state.legacy_initialized ≡ false
    → request.method ≢ "initialize"
    → let o = handle_legacy_stdio env ctx now random request state server in
      (o.0.result ≡ none) × (is_some o.0.error ≡ true) × (o.1 ≡ state) × (o.2 ≡ server)
unfolding handle_legacy_stdio initialized_or_refused
initialize_comes_first env ctx now random request state server early other =
    let no : (request.method == "initialize") ≡ false =
      ground (arith, eq_iff request.method "initialize") in
    (ground arith, ground arith, ground arith, ground arith)

fields_of : Json → Fields
fields_of (obj fs) = fs
fields_of _ = end

obj_injective : {fs gs : Fields} → ◌≡◌ {A = Json} (obj fs) (obj gs) → fs ≡ gs
unfolding fields_of
obj_injective h = ap fields_of h

get-put : (k : String) (v : Json) (fs : Fields) → get k (put k v fs) ≡ some v
unfolding get put
get-put k v end = ground (arith, eq_refl k)
get-put k v (field j w fs) = ground (arith, eq_iff j k, eq_refl k, get-put k v fs)

valid_with_meta :
    (fs : Fields)
    → get "_meta" fs ≡ some compatibility_meta
    → validate_request_metadata (some (obj fs)) ≡ none
unfolding validate_request_metadata decode_params decode_meta as_struct struct_member map_member get
    string_member
valid_with_meta fs h = rw h refl

-- The parameters that the legacy path makes up pass the check of the request metadata, whatever the
-- legacy client sent.
legacy_params_valid :
    (raw : Raw) (v : Json)
    → legacy_params_as_modern raw ≡ ok v
    → validate_request_metadata (some v) ≡ none
unfolding legacy_params_as_modern
legacy_params_valid none v h =
    rw (← ok_injective h) (valid_with_meta _ (get-put "_meta" compatibility_meta end))
legacy_params_valid (some null) v h =
    rw (← ok_injective h) (valid_with_meta _ (get-put "_meta" compatibility_meta end))
legacy_params_valid (some (obj fs)) v h =
    rw (← ok_injective h) (valid_with_meta _ (get-put "_meta" compatibility_meta fs))
legacy_params_valid (some (bool b)) v h = absurd (cc)
legacy_params_valid (some (num n)) v h = absurd (cc)
legacy_params_valid (some (str s)) v h = absurd (cc)
legacy_params_valid (some (arr vs)) v h = absurd (cc)

get-delete :
    (k j : String) (fs : Fields) → get j (delete k fs) ≡ (if k == j then none else get j fs)
unfolding get delete
get-delete k j end = ground arith
get-delete k j (field i w fs) =
    ground (arith, eq_iff i k, eq_iff k j, eq_iff i j, get-delete k j fs)

abbrev pub envelope_member : String → Bool
envelope_member k = k == "resultType" || k == "_meta" || k == "ttlMs" || k == "cacheScope"

-- A legacy client gets, of an object result, exactly the members that are not of the envelope.
strip_removes_envelope :
    (fs stripped : Fields) (k : String)
    → strip_modern_result_envelope (some (obj fs)) ≡ ok (obj stripped)
    → get k stripped ≡ (if envelope_member k then none else get k fs)
unfolding strip_modern_result_envelope
strip_removes_envelope fs stripped k h = rw (← obj_injective (ok_injective h)) (
    get-delete "cacheScope" k (delete "ttlMs" (delete "_meta" (delete "resultType" fs)))
    ∙ rw
        (
          get-delete "ttlMs" k (delete "_meta" (delete "resultType" fs)),
          get-delete "_meta" k (delete "resultType" fs),
          get-delete "resultType" k fs,
        )
        (ground (
          arith,
          eq_iff "cacheScope" k,
          eq_iff "ttlMs" k,
          eq_iff "_meta" k,
          eq_iff "resultType" k,
          eq_iff k "cacheScope",
          eq_iff k "ttlMs",
          eq_iff k "_meta",
          eq_iff k "resultType",
        )))
