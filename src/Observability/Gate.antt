-- ===== src/Observability/Gate.antt =====
-- Log of internal/mcpserver/observability.go: which messages reach the transport.
use mcp_from_scratch.Metadata.{log_level_rank}
use mcp_from_scratch.Protocol.Requests.{Notification}
use mcp_from_scratch.Runtime.{Floats, RequestRuntime, Situation, emit_notification}
use mcp_from_scratch.Runtime.Order.{delivered_by}
use mcp_from_scratch.Observability.{
  RequestObservability, redact_value, log_notification, log_enabled, at_most, log,
}
use mcp_from_scratch.Base.{
  ℕ, ◌≤◌, String, ◌≡◌, refl, inl, inr, Bool, true, false, not, ◌||◌, Option, none, some, ◌∷◌, arith,
  Bool-cases,
}
use mcp_from_scratch.Json.{Raw, str, obj, field, end}

at_most-ranks :
    (a b : Option ℕ)
    → at_most a b ≡ true
    → (wanted : ℕ) × (actual : ℕ) × (a ≡ some wanted) × (b ≡ some actual) × (wanted ≤ actual)
at_most-ranks (some w) (some a) h = (w, a, refl, refl, ground arith)
at_most-ranks (some w) none h = cc
at_most-ranks none b h = cc

-- The request asked for a level, and the message is at least as severe.
abbrev pub AskedFor : Option RequestObservability → String → Type 0
AskedFor o level =
    (asked : RequestObservability) × (wanted : ℕ) × (actual : ℕ) × (o ≡ some asked)
    × (log_level_rank asked.log_level ≡ some wanted)
    × (log_level_rank level ≡ some actual)
    × (wanted ≤ actual)

log_enabled-AskedFor :
    (o : Option RequestObservability) (level : String)
    → log_enabled o level ≡ true
    → AskedFor o level
unfolding log_enabled
log_enabled-AskedFor none level h = cc
log_enabled-AskedFor (some o) level h =
    let (w, a, p, q, le) =
      at_most-ranks (log_level_rank o.log_level) (log_level_rank level) (ground arith) in
    (o, w, a, refl, p, q, le)

module _ {F : Type 0} (floats : Floats F) where
  emit_adds :
      (at : Situation) (n : Notification) (r : Option (RequestRuntime F))
      → ((emit_notification floats at n r).0 ≡ true
          → delivered_by floats (emit_notification floats at n r).1 ≡ n ∷ delivered_by floats r)
        × ((emit_notification floats at n r).0 ≡ false → (emit_notification floats at n r).1 ≡ r)
  unfolding emit_notification
  emit_adds at n none = (λ h. cc, λ h. refl)
  emit_adds at n (some r) = (λ h. ground arith, λ h. ground arith)

  -- The message of the log as the protocol writes it, its data redacted.
  abbrev pub log_message : String → String → Raw → Notification
  log_message level logger detail = record {
    jsonrpc = "2.0";
    method = "notifications/message";
    params = some (
        obj (
          field "level" (str level)
            (field "logger" (str logger) (field "data" (redact_value detail) end))));
  }

  abbrev pub Gated :
      Option RequestObservability
      → String
      → String
      → Raw
      → Option (RequestRuntime F)
      → Bool × Option (RequestRuntime F)
      → Type 0
  Gated o level logger detail r (true, after) =
      AskedFor o level
      × (delivered_by floats after ≡ log_message level logger detail ∷ delivered_by floats r)
  Gated o level logger detail r (false, after) = after ≡ r

  emit-Gated :
      (o : Option RequestObservability) (level logger : String) (detail : Raw)
      (r : Option (RequestRuntime F)) (t : Bool × Option (RequestRuntime F))
      → AskedFor o level
      → (t.0 ≡ true
          → delivered_by floats t.1 ≡ log_message level logger detail ∷ delivered_by floats r)
        × (t.0 ≡ false → t.1 ≡ r)
      → Gated o level logger detail r t
  emit-Gated o level logger detail r (true, after) asked h = (asked, h.0 refl)
  emit-Gated o level logger detail r (false, after) asked h = h.1 refl

  -- A message is logged with success only if the request asked for a level that the message reaches;
  -- then exactly one notification is delivered, notifications/message with the level, the logger and
  -- the data as the redaction leaves them.
  -- Otherwise nothing is delivered and nothing is changed.
  pub log-Gated :
      (at : Situation) (o : Option RequestObservability) (level logger : String) (detail : Raw)
      (r : Option (RequestRuntime F))
      → Gated o level logger detail r (log floats at o level logger detail r)
  unfolding log log_notification
  log-Gated at o level logger detail r =
      elim (Bool-cases (not at.given || not (log_enabled o level))) [
        | inl closed ↦ rw closed refl
        | inr open_ ↦ rw open_ (
            emit-Gated o level logger detail r
              (emit_notification floats at (log_notification level logger detail) r)
              (log_enabled-AskedFor o level (ground arith))
              (emit_adds at (log_notification level logger detail) r))
      ]
