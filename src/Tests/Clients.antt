-- ===== src/Tests/Clients.antt =====
-- The clients of the host, on concrete inputs.
use mcp_from_scratch.Base.Decimal.{pos, parse_int, format_int}
use mcp_from_scratch.Base.Text.{split}
use mcp_from_scratch.Protocol.Ids.{RequestId, number, IsId, unmarshal_id, to_string}
use mcp_from_scratch.Protocol.Requests.{Request}
use mcp_from_scratch.Metadata.{decode_params, decode_meta}
use mcp_from_scratch.Http.{HeaderParams, expected_name, serve, serve_request}
use mcp_from_scratch.Host.Client.{
  Answer, Client, client_request, new_request, request_meta_for_version,
}
use mcp_from_scratch.Protocol.Errors.{plain}
use mcp_from_scratch.Protocol.Ids.{same_id}
use mcp_from_scratch.Host.Client.{decode_answer, of_status, http_answer}
use mcp_from_scratch.Base.{or_fail}
use mcp_from_scratch.Host.Client.Stream.{
  IsNotification, IsResponse, one_more, no_more, request_stream, http_answer-request_stream,
}
use mcp_from_scratch.Host.Client.Admission.{Sendable, serve-new_request}
use mcp_from_scratch.Host.Client.{request_name}
use mcp_from_scratch.Http.{HttpCall}
use mcp_from_scratch.Protocol.Requests.{method_uses_name_header}
use mcp_from_scratch.Host.Client.Sending.{clean, transmitted}
use mathlib.Core.Option
use mcp_from_scratch.Host.Events.{read_sse_data, new_reader, read_from}
use mcp_from_scratch.Host.Discovery.{
  integer_id_equals, valid_discovery_envelope, valid_modern_discovery,
}
use mcp_from_scratch.Host.Compatibility.{
  modern, CompatibilityResult, call_discovery, detect_server_era,
}
use mcp_from_scratch.Host.Compatibility.Era.{Justified, detect_server_era-Justified}
use mcp_from_scratch.Host.Tasks.{TaskSnapshot, get_http_task, wait_for_http_task}
use mcp_from_scratch.Host.Streams.{
  TaskSubscription, OpenedStream, open_task_subscription, read_notification,
  validate_task_acknowledgement,
}
use mcp_from_scratch.Host.Streams.Delivery.{drain, drain-Requested}
use mcp_from_scratch.Host.Tasks.Waiting.{Polls, Returns, wait_for_http_task-Returns}
use mcp_from_scratch.Json.Decode.{
  as_struct, string_member, map_member, struct_member, strings_member,
}
use mcp_from_scratch.Tests.{alice, toy_env, request_meta, toy_server}
use mcp_from_scratch.Base.{
  ℕ, zero, suc, ◌+◌, String, ◌≡◌, refl, subst, ◌≢◌, inl, Bool, true, false, Option, none, some, [],
  ◌∷◌, arith, ◌==◌, eq_iff, if◌then◌else◌, length, member, All, ok,
}
use mcp_from_scratch.Json.{Json, num, str, arr, obj, Fields, end, object, array, get}

abbrev cancel_t1 : Request
cancel_t1 =
    client_request 7 "tasks/cancel" (object (("_meta", request_meta) ∷ ("taskId", str "t1") ∷ []))

abbrev cancel_params : HeaderParams
cancel_params = record {
  meta = record {
    protocol_version = "2026-07-28";
    client_info = none;
    client_capabilities = some (
        object
          (("extensions", obj (object (("io.modelcontextprotocol/tasks", obj end) ∷ []))) ∷ []));
    trace_parent = "";
    trace_state = "";
    baggage = "";
    log_level = "";
    progress_token = none;
  };
  name = "";
  uri = "";
  task_id = "t1";
}

some_injective : {x y : RequestId} → ◌≡◌ {A = Option RequestId} (some x) (some y) → x ≡ y
some_injective h = cc

is_not : (s t : String) → (s == t) ≡ false → s ≢ t
is_not s t h e = ground (arith, eq_iff s t)

cancel_t1-Sendable : Sendable cancel_t1 cancel_params
unfolding decode_params as_struct struct_member string_member decode_meta map_member get
    expected_name
cancel_t1-Sendable = record {
  version = refl;
  named = is_not "tasks/cancel" "" refl;
  not_null = refl;
  identified = λ id given. subst IsId (some_injective given) (omega arith);
  decoded = refl;
  protocol = refl;
  addressed = λ uses. is_not "t1" "" refl;
  clean_method = clean "tasks/cancel" (omega arith) refl refl;
  clean_name = λ uses. clean "t1" (omega arith) refl refl;
}

abbrev cancel_blank : Request
cancel_blank =
    client_request 7 "tasks/cancel" (object (("_meta", request_meta) ∷ ("taskId", str "t1 ") ∷ []))

serve-new_request_example :
    Option.map
      (λ call. serve toy_env alice 2000 (ok []) call toy_server)
      (transmitted (new_request "localhost" cancel_t1))
    ≡ some (
        serve_request toy_env alice 2000
          (ok [])
          (new_request "localhost" cancel_t1)
          cancel_t1
          toy_server)
serve-new_request_example =
    serve-new_request toy_env alice 2000 (ok []) toy_server "localhost" cancel_t1 cancel_params
      cancel_t1-Sendable

-- A name that ends with a blank arrives without it.
blank_lost :
    Option.map
      (λ (call : HttpCall). call.header_name)
      (transmitted (new_request "localhost" cancel_blank))
    ≡ some "t1"
unfolding transmitted new_request request_name as_struct string_member get method_uses_name_header
blank_lost = refl

abbrev discovered : Fields
discovered = object (
    ("resultType", str "complete")
    ∷ ("supportedVersions", arr (array (str "2026-07-28" ∷ [])))
    ∷ ("capabilities", obj end)
    ∷ (
      "_meta",
      obj (
          object (
            (
              "io.modelcontextprotocol/serverInfo",
              obj (object (("name", str "server") ∷ ("version", str "1") ∷ [])),
            )
            ∷ [])),
    )
    ∷ [])

abbrev answering : Option RequestId → Fields → Answer
answering id fields = record { jsonrpc = "2.0"; id = id; result = some (obj fields); error = none }

-- It answers every request with its description, and counts them.
abbrev modern_server : Client ℕ
modern_server = record { call = λ request w. ((answering request.id discovered, none), suc w) }

abbrev modern_result : CompatibilityResult
modern_result = record {
  era = modern;
  protocol_version = "2026-07-28";
  discovery = answering (some (number (pos 1))) discovered;
}

detected : (detect_server_era modern_server none ("2026-07-28" ∷ []) 0).0 ≡ ok modern_result
unfolding detect_server_era call_discovery valid_discovery_envelope integer_id_equals
    valid_modern_discovery request_meta_for_version as_struct string_member get strings_member
    map_member struct_member
detected = refl

detect_server_era-Justified_example : Justified modern_server none ("2026-07-28" ∷ []) modern_result
detect_server_era-Justified_example =
    detect_server_era-Justified modern_server none ("2026-07-28" ∷ []) 0 modern_result detected

abbrev snapshot : String → Fields
snapshot status = object (
    ("resultType", str "complete")
    ∷ ("taskId", str "t1")
    ∷ ("status", str status)
    ∷ ("pollIntervalMs", num "25")
    ∷ [])

abbrev status_after : ℕ → String
status_after zero = "working"
status_after (suc zero) = "input_required"
status_after (suc (suc n)) = "completed"

-- The task is over at the third poll; `w` counts the polls.
abbrev task_server : Client ℕ
task_server = record {
  call = λ request w. ((answering request.id (snapshot (status_after w)), none), suc w);
}

abbrev no_pause : ℕ → ℕ → Bool × ℕ
no_pause nanos w = (true, w)

abbrev seen : String → TaskSnapshot
seen status = record {
  task_id = "t1";
  status = status;
  status_message = "";
  created_at = "";
  last_updated_at = "";
  ttl_ms = none;
  poll_interval_ms = pos 25;
  input_requests = [];
  result = none;
  failure = none;
}

abbrev history : ℕ → TaskSnapshot
history n = seen (status_after n)

heard : (i : ℕ) → get_http_task task_server (1 + i) "t1" i ≡ (ok (history i), suc i)
unfolding get_http_task get string_member struct_member parse_int
heard zero = refl
heard (suc zero) = refl
heard (suc (suc n)) = refl

every_poll : Polls task_server no_pause "t1" 1 history (λ i. 25) (λ i. i) (λ i. suc i)
every_poll = record {
  hears = heard;
  wants = λ i. refl;
  positive = λ i. omega arith;
  small = λ i. omega arith;
  fires = λ i. refl;
}

wait_for_http_task-Returns_example :
    Returns task_server no_pause "t1" history
      (λ i. suc i)
      2
      (wait_for_http_task task_server no_pause 3 "t1" 1 0)
wait_for_http_task-Returns_example =
    wait_for_http_task-Returns task_server no_pause "t1" 3 2 1 history (λ i. 25) (λ i. i)
      (λ i. suc i) every_poll (inl refl) (omega arith)

abbrev notified : String → Fields → Json
notified method params =
    obj (object (("jsonrpc", str "2.0") ∷ ("method", str method) ∷ ("params", obj params) ∷ []))

abbrev subscribed : Json
subscribed = obj (object (("io.modelcontextprotocol/subscriptionId", num "30") ∷ []))

abbrev acknowledgement : Json
acknowledgement = notified "notifications/subscriptions/acknowledged" (
    object (
      ("_meta", subscribed)
      ∷ ("notifications", obj (object (("taskIds", arr (array (str "t1" ∷ []))) ∷ [])))
      ∷ []))

abbrev task_changed : String → Json
task_changed id =
    notified "notifications/tasks"
      (object (("_meta", subscribed) ∷ ("taskId", str id) ∷ ("status", str "completed") ∷ []))

-- The three messages of the test by their first words.
abbrev parse_toy : String → Option Json
parse_toy s =
    if s == "ack"
    then some acknowledgement
    else if s == "t1"
    then some (task_changed "t1")
    else if s == "t2"
    then some (task_changed "t2")
    else none

abbrev opened : OpenedStream
opened = record {
  status = 200;
  media_type = some "text/event-stream";
  input = "data: ack\n\ndata: t1\n\ndata: t2\n\n";
}

abbrev opened_subscription : TaskSubscription
opened_subscription = record {
  id = 30;
  reader = "data: t1" ∷ "" ∷ "data: t2" ∷ "" ∷ "" ∷ [];
  acknowledged = record {
    jsonrpc = "2.0";
    method = "notifications/subscriptions/acknowledged";
    params = some (
        obj (
          object (
            ("_meta", subscribed)
            ∷ ("notifications", obj (object (("taskIds", arr (array (str "t1" ∷ []))) ∷ [])))
            ∷ [])));
  };
  task_ids = "t1" ∷ [];
}

subscribes : open_task_subscription parse_toy 30 ("t1" ∷ []) opened ≡ ok opened_subscription
unfolding open_task_subscription validate_task_acknowledgement read_notification read_sse_data
    read_from new_reader split as_struct string_member get struct_member unmarshal_id parse_int
    to_string format_int strings_member
subscribes = refl

drain-Requested_example :
    All
      (λ (t : TaskSnapshot). member t.task_id ("t1" ∷ []) ≡ true)
      (drain parse_toy 2 opened_subscription)
drain-Requested_example =
    drain-Requested parse_toy 30 ("t1" ∷ []) opened opened_subscription 2 subscribes

-- The task that was not asked for ends the stream.
one_delivered : length (drain parse_toy 2 opened_subscription) ≡ 1
unfolding drain as_struct string_member get map_member struct_member unmarshal_id parse_int
one_delivered = refl

abbrev tool_progress : Json
tool_progress = notified "notifications/progress" end

abbrev tool_response : Json
tool_response = obj (object (("jsonrpc", str "2.0") ∷ ("id", num "3") ∷ ("result", obj end) ∷ []))

abbrev parse_stream : String → Option Json
parse_stream s =
    if s == "p" then some tool_progress else if s == "r" then some tool_response else none

tool_progress-IsNotification : IsNotification parse_stream "p"
unfolding as_struct get string_member
tool_progress-IsNotification = record {
  on_one_line = refl;
  message = tool_progress;
  id = none;
  method = "notifications/progress";
  parsed = refl;
  decoded = refl;
  named = refl;
}

tool_response-IsResponse : IsResponse parse_stream (number (pos 3)) "r" tool_response
unfolding as_struct same_id get unmarshal_id parse_int string_member
tool_response-IsResponse = record {
  on_one_line = refl;
  id = number (pos 3);
  parsed = refl;
  decoded = refl;
  same = refl;
}

http_answer-request_stream_example :
    http_answer parse_stream parse_stream
      (some (number (pos 3)))
      200
      (some "text/event-stream")
      (request_stream ("p" ∷ "p" ∷ []) "r")
    ≡ of_status 200 (or_fail (decode_answer tool_response) (plain "decode SSE JSON-RPC response"))
http_answer-request_stream_example =
    http_answer-request_stream parse_stream (number (pos 3)) ("p" ∷ "p" ∷ []) "r" tool_response
      (one_more tool_progress-IsNotification (one_more tool_progress-IsNotification no_more))
      tool_response-IsResponse
