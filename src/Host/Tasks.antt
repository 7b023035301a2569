-- ===== src/Host/Tasks.antt =====
-- internal/host/tasks.go: the calls of the client that concern tasks, and the wait for their end.
pub mod Waiting
use mcp_from_scratch.Base.Decimal.{ℤ, pos, negsuc}
use mcp_from_scratch.Protocol.Errors.{Message, plain}
use mcp_from_scratch.Protocol.Requests.{Request}
use mcp_from_scratch.Envelope.{protocol_version}
use mcp_from_scratch.Host.Client.{
  Client, Called, client_request, request_meta_for_version, decode_complete_result,
}
use mcp_from_scratch.Json.Decode.{
  integer_member, as_struct, string_member, map_member, struct_member, ◌>>=◌ as and_then,
}
use mcp_from_scratch.Base.{
  ℕ, zero, suc, ◌+◌, ◌-◌, ◌*◌, ◌%◌, ◌^◌, String, Bool, true, false, ◌||◌, Option, none, some, List,
  [], ◌∷◌, ◌++◌, arith, ◌==◌, leb, eqb, if◌then◌else◌, Map, Result, ok, err, or_fail,
}
use mcp_from_scratch.Base.{◌>>=◌}
use mcp_from_scratch.Json.{Json, null, str, obj, Fields, end, field, Raw, object, get}

-- protocol.DetailedTask as a client decodes it.
pub record TaskSnapshot : Type 0 where
  pub task_id : String
  pub status : String
  pub status_message : String
  pub created_at : String
  pub last_updated_at : String
  pub ttl_ms : Option ℤ
  pub poll_interval_ms : ℤ
  pub input_requests : Map String
  pub result : Raw
  pub failure : Raw

abbrev pub status_terminal : String → Bool
status_terminal status = status == "completed" || status == "failed" || status == "cancelled"

abbrev optional_integer : Raw → Option (Option ℤ)
optional_integer none = some none
optional_integer (some null) = some none
optional_integer (some v) = and_then (integer_member (some v)) λ n. some (some n)

-- The method of an input request; its parameters must decode.
input_request : Json → Option String
input_request v = and_then (as_struct (some v)) λ fields.
    and_then (string_member "method" fields) λ method.
      and_then (struct_member "params" fields) λ params.
        and_then (string_member "mode" params) λ mode.
          and_then (string_member "message" params)
            λ message. and_then (map_member "requestedSchema" params) λ schema. some method

input_requests : Fields → Option (Map String)
unfolding input_request
input_requests end = some []
input_requests (field k v fs) =
    let rest = input_requests fs in
    and_then (input_request v) λ method. and_then rest λ others. some ((k, method) ∷ others)

abbrev requests_in : Option Fields → Option (Map String)
requests_in none = some []
requests_in (some fs) = input_requests fs

abbrev error_in : Option Fields → Option (Unit {0})
error_in none = some tt
error_in (some fs) =
    and_then (integer_member (get "code" fs))
      λ code. and_then (string_member "message" fs) λ message. some tt

unfoldable pub decode_task : Fields → Option TaskSnapshot
unfolding input_requests
decode_task fields = and_then (string_member "taskId" fields) λ task_id.
    and_then (string_member "status" fields) λ status.
      and_then (string_member "statusMessage" fields) λ status_message.
        and_then (string_member "createdAt" fields) λ created.
          and_then (string_member "lastUpdatedAt" fields) λ updated.
            and_then (optional_integer (get "ttlMs" fields)) λ ttl.
              and_then (integer_member (get "pollIntervalMs" fields)) λ interval.
                and_then (map_member "inputRequests" fields) λ asked.
                  and_then (requests_in asked) λ requests.
                    and_then (map_member "error" fields) λ failure.
                      and_then (error_in failure) λ checked. some (record {
                        task_id = task_id;
                        status = status;
                        status_message = status_message;
                        created_at = created;
                        last_updated_at = updated;
                        ttl_ms = ttl;
                        poll_interval_ms = interval;
                        input_requests = requests;
                        result = get "result" fields;
                        failure = get "error" fields;
                      })

-- The members that every result embeds must decode.
embedded_result : Fields → Option (Unit {0})
embedded_result fields = and_then (string_member "resultType" fields) λ type.
    and_then (struct_member "_meta" fields) λ meta.
      and_then (struct_member "io.modelcontextprotocol/serverInfo" meta) λ info.
        and_then (string_member "name" info)
          λ name. and_then (string_member "version" info) λ version. some tt

abbrev pub task_request : ℕ → String → List (String × Json) → Request
task_request id method members =
    client_request id method
      (object (members ++ ("_meta", obj (request_meta_for_version protocol_version)) ∷ []))

module _ {W : Type 0} (client : Client W) where
  abbrev got_task : Called → Result Message TaskSnapshot
  got_task (answer, some e) = err e
  got_task (answer, none) = decode_complete_result answer.result >>= λ fields.
      or_fail (and_then (embedded_result fields) λ u. decode_task fields)
        (plain "decode tasks/get result")

  abbrev acknowledged_by : Called → Result Message (Unit {0})
  acknowledged_by (answer, some e) = err e
  acknowledged_by (answer, none) = decode_complete_result answer.result >>= λ fields.
      or_fail (embedded_result fields) (plain "decode result")

  abbrev first_of {ℓ κ} : {A : Type ℓ} {B : Type κ} (f : A → B) → A × W → B × W
  first_of f (a, w) = (f a, w)

  unfoldable pub get_http_task : ℕ → String → W → Result Message TaskSnapshot × W
  unfolding decode_task embedded_result decode_complete_result request_meta_for_version
  get_http_task id task_id w =
      first_of got_task (client.call (task_request id "tasks/get" (("taskId", str task_id) ∷ [])) w)

  unfoldable pub update_http_task : ℕ → String → Map Json → W → Result Message (Unit {0}) × W
  unfolding embedded_result decode_complete_result request_meta_for_version
  update_http_task id task_id responses w = first_of acknowledged_by (
      client.call
        (task_request id "tasks/update"
          (("taskId", str task_id) ∷ ("inputResponses", obj (object responses)) ∷ []))
        w)

  unfoldable pub cancel_http_task : ℕ → String → W → Result Message (Unit {0}) × W
  unfolding embedded_result decode_complete_result request_meta_for_version
  cancel_http_task id task_id w =
      first_of acknowledged_by
        (client.call (task_request id "tasks/cancel" (("taskId", str task_id) ∷ [])) w)

-- time.Duration(ms) * time.Millisecond in 64-bit arithmetic, or 25 ms if that is not positive.
unfoldable pub poll_nanos : ℤ → ℕ
poll_nanos (pos n) =
    let nanos = (n * 1000000) % 2 ^ 64 in
    if eqb nanos 0 || leb (2 ^ 63) nanos then 25000000 else nanos
poll_nanos (negsuc n) =
    let nanos = (2 ^ 64 - ((n + 1) * 1000000) % 2 ^ 64) % 2 ^ 64 in
    if eqb nanos 0 || leb (2 ^ 63) nanos then 25000000 else nanos

-- `pause` waits, and tells whether the timer fired before the context was done.
module _ {W : Type 0} (client : Client W) (pause : ℕ → W → Bool × W) where
  abbrev next_poll :
      (ℕ → W → Result Message TaskSnapshot × W) → ℕ → Bool × W → Result Message TaskSnapshot × W
  next_poll again id (true, w) = again (suc id) w
  next_poll again id (false, w) = (err (plain "context done"), w)

  abbrev polled :
      (ℕ → W → Result Message TaskSnapshot × W)
      → ℕ
      → Result Message TaskSnapshot × W
      → Result Message TaskSnapshot × W
  polled again id (err e, w) = (err e, w)
  polled again id (ok task, w) =
      if status_terminal task.status
      then (ok task, w)
      else next_poll again id (pause (poll_nanos task.poll_interval_ms) w)

  -- WaitForHTTPTask: the loop has no bound of its own.
  unfoldable pub wait_for_http_task : ℕ → String → ℕ → W → Result Message TaskSnapshot × W
  unfolding get_http_task poll_nanos
  wait_for_http_task zero task_id id w = (err (plain "out of fuel"), w)
  wait_for_http_task (suc fuel) task_id id w =
      polled (wait_for_http_task fuel task_id) id (get_http_task client id task_id w)
