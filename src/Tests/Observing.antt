-- ===== src/Tests/Observing.antt =====
-- The progress and the logs of a request, on concrete inputs.
use mcp_from_scratch.Metadata.{log_level_rank}
use mcp_from_scratch.Protocol.Requests.{Notification}
use mcp_from_scratch.Runtime.{
  Floats, RequestRuntime, Situation, RuntimeCall, emits, reports, finishes, report_progress,
  emit_notification, progress_notification, finish_request_runtime, runtime_step, runtime_run,
}
use mcp_from_scratch.Runtime.Order.{
  Ascending, reported, delivered_by, reports-Ascending, finished_is_silent,
}
use mcp_from_scratch.Observability.{
  RequestObservability, log, log_enabled, log_notification, redact_value, redact_json_value,
  sensitive_log_key, any_contained, contains_codes, starts,
}
use mcp_from_scratch.Observability.Gate.{Gated, log-Gated}
use mcp_from_scratch.Observability.Redaction.{Open, OpenFields}
use mcp_from_scratch.Observability.Redaction.{
  hidden, shown, same, objects, no_fields, redact_json_value-Alike,
}
use mcp_from_scratch.Base.{
  ℕ, String, ◌≡◌, refl, true, false, Option, none, some, List, [], ◌∷◌, ◌++◌, ltb, eqb,
}
use mcp_from_scratch.Json.{Json, str, obj, object}

abbrev whole : Floats ℕ
whole = record {
  less = ltb;
  is_nan = λ x. false;
  is_infinite = λ x. eqb x 1000;
  zero_float = 0;
  minus_infinity = 0;
  literal = λ x. "0";
}

abbrev quiet : Situation
quiet = record {
  given = true;
  failed = false;
  parent_failed = false;
  failed_inside = false;
  parent_failed_inside = false;
  accepted = true;
}

abbrev running : RequestRuntime ℕ
running = record {
  sink_given = true;
  token = some (str "p");
  last = 0;
  done = false;
  delivered = [];
}

abbrev hello : Notification
hello = record { jsonrpc = "2.0"; method = "hello"; params = none }

-- The third report falls behind, the fourth is not finite, the last one comes too late.
abbrev work : List (RuntimeCall ℕ)
work =
    reports quiet 3 10 ""
    ∷ emits quiet hello
    ∷ reports quiet 5 10 ""
    ∷ reports quiet 4 10 ""
    ∷ reports quiet 1000 10 ""
    ∷ finishes
    ∷ reports quiet 6 10 ""
    ∷ []

two_reports : reported whole work (some running) ≡ 3 ∷ 5 ∷ []
unfolding report_progress progress_notification emit_notification finish_request_runtime
    runtime_step
two_reports = refl

reports-Ascending_example : Ascending whole 0 (reported whole work (some running))
reports-Ascending_example = reports-Ascending whole work running

finished_is_silent_example :
    delivered_by whole (
      runtime_run whole
        ((emits quiet hello ∷ []) ++ finishes ∷ emits quiet hello ∷ [])
        (some running))
    ≡ delivered_by whole (runtime_run whole (emits quiet hello ∷ []) (some running))
finished_is_silent_example =
    finished_is_silent whole (emits quiet hello ∷ []) (emits quiet hello ∷ []) (some running)

abbrev asked_for_warnings : Option RequestObservability
asked_for_warnings = some (record {
  trace = record { trace_parent = ""; trace_state = ""; baggage = "" };
  log_level = "warning";
})

abbrev detail : String → Json
detail secret = obj (object (("accessToken", str secret) ∷ ("tool", str "echo") ∷ []))

log-Gated_example :
    Gated whole asked_for_warnings "error" "server"
      (some (detail "s"))
      (some running)
      (log whole quiet asked_for_warnings "error" "server" (some (detail "s")) (some running))
log-Gated_example =
    log-Gated whole quiet asked_for_warnings "error" "server" (some (detail "s")) (some running)

logged : (log whole quiet asked_for_warnings "error" "server" none (some running)).0 ≡ true
unfolding log log_enabled log_level_rank log_notification redact_value redact_json_value
    emit_notification
logged = refl

not_logged : (log whole quiet asked_for_warnings "info" "server" none (some running)).0 ≡ false
unfolding log log_enabled log_level_rank log_notification redact_value redact_json_value
    emit_notification
not_logged = refl

access_token : sensitive_log_key "accessToken" ≡ true
unfolding sensitive_log_key any_contained contains_codes starts
access_token = refl

tool_shown : sensitive_log_key "tool" ≡ false
unfolding sensitive_log_key any_contained contains_codes starts
tool_shown = refl

echo_Open : Open (obj (object (("tool", str "echo") ∷ [])))
unfolding Open OpenFields
echo_Open = (tool_shown, tt, tt)

redact_json_value-Alike_example :
    (redact_json_value (detail "one") ≡ redact_json_value (detail "another"))
    × (redact_json_value (obj (object (("tool", str "echo") ∷ [])))
        ≡ obj (object (("tool", str "echo") ∷ [])))
redact_json_value-Alike_example =
    redact_json_value-Alike (detail "one") (detail "another")
      (obj (object (("tool", str "echo") ∷ [])))
      (objects (hidden access_token (shown (same (str "echo")) no_fields))) echo_Open
