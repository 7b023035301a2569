-- ===== src/Host/Streams.antt =====
-- The streams of internal/host/tasks.go and subscriptions.go. The input of a stream is given as the
-- text that the server writes; `parse_json` is the JSON parser.
pub mod Delivery
use mcp_from_scratch.Base.Decimal.{pos, format_nat}
use mcp_from_scratch.Protocol.Errors.{Message, plain, quoting}
use mcp_from_scratch.Protocol.Ids.{RequestId, unset, number, unmarshal_id, to_string}
use mcp_from_scratch.Protocol.Requests.{Notification}
use mcp_from_scratch.Host.Tasks.{TaskSnapshot, decode_task}
use mcp_from_scratch.Host.Events.{read_sse_data, new_reader}
use mcp_from_scratch.Json.Decode.{
  as_struct, string_member, bool_member, struct_member, strings_member, ◌>>=◌ as and_then,
}
use mcp_from_scratch.Base.{
  ℕ, String, Bool, true, false, not, ◌&&◌, ◌||◌, Option, none, some, List, [], ◌∷◌, arith, ◌==◌,
  eqb, if◌then◌else◌, member, Result, ok, err, or_fail,
}
use mcp_from_scratch.Base.{◌>>=◌}
use mcp_from_scratch.Json.{Json, null, Fields, Raw, get}

-- The answer to a request that opens a stream.
pub record OpenedStream : Type 0 where
  pub status : ℕ
  pub media_type : Option String
  pub input : String

pub record TaskSubscription : Type 0 where
  pub id : ℕ
  pub reader : List String
  pub acknowledged : Notification
  pub task_ids : List String

abbrev is_stream : Option String → Bool
is_stream none = false
is_stream (some type) = type == "text/event-stream"

-- A RequestID held by value: null is an error for it.
abbrev pub id_value : Raw → Option RequestId
id_value none = some unset
id_value (some null) = none
id_value (some v) = unmarshal_id v

unfoldable pub decode_notification : Json → Option Notification
decode_notification message = and_then (as_struct (some message)) λ fields.
    and_then (string_member "jsonrpc" fields) λ jsonrpc.
      and_then (string_member "method" fields)
        λ method. some (record { jsonrpc = jsonrpc; method = method; params = get "params" fields })

-- The identifier of the subscription, and the filter that the server accepted.
unfoldable pub decode_acknowledgement : Raw → Option (RequestId × Fields)
decode_acknowledgement raw = and_then (as_struct raw) λ fields.
    and_then (struct_member "_meta" fields) λ meta.
      and_then (id_value (get "io.modelcontextprotocol/subscriptionId" meta))
        λ id. and_then (struct_member "notifications" fields) λ filter. some (id, filter)

abbrev all_requested : List String → List String → Bool
all_requested requested [] = true
all_requested requested (t ∷ ts) = member t requested && all_requested requested ts

abbrev check_ids : List String → Option (List String) → Result Message (List String)
check_ids requested none = err (plain "decode task subscription acknowledgement")
check_ids requested (some ids) =
    if all_requested requested ids
    then ok ids
    else err (plain "task subscription acknowledged unrequested task")

abbrev check_acknowledgement :
    ℕ → List String → Option (RequestId × Fields) → Result Message (List String)
check_acknowledgement id requested none = err (plain "decode task subscription acknowledgement")
check_acknowledgement id requested (some (found, filter)) =
    let ids = check_ids requested (strings_member "taskIds" filter) in
    if not (to_string found == format_nat id) then err (plain "task subscription ID") else ids

-- validateTaskSubscriptionAcknowledgement, with the task identifiers that are acknowledged.
unfoldable pub validate_task_acknowledgement :
    Notification → ℕ → List String → Result Message (List String)
unfolding decode_acknowledgement
validate_task_acknowledgement n id requested =
    if not (n.jsonrpc == "2.0") || not (n.method == "notifications/subscriptions/acknowledged")
    then err (quoting "unexpected task subscription acknowledgement " n.method "")
    else check_acknowledgement id requested (decode_acknowledgement n.params)

-- validateSubscriptionNotification
abbrev check_notification : ℕ → Bool → Option (RequestId × Fields) → Result Message (Unit {0})
check_notification id require_tools none = err (plain "decode subscription notification params")
check_notification id require_tools (some (found, filter)) =
    elim (bool_member "toolsListChanged" filter) [
      | none ↦ err (plain "decode subscription notification params")
      | some changed ↦
          if not (to_string found == format_nat id)
          then err (plain "subscription notification ID")
          else if require_tools && not changed
          then err (plain "subscription acknowledgement omitted toolsListChanged")
          else ok tt
    ]

unfoldable pub validate_subscription_notification :
    Notification → String → ℕ → Bool → Result Message (Unit {0})
unfolding decode_acknowledgement
validate_subscription_notification n method id require_tools =
    if not (n.jsonrpc == "2.0") || not (n.method == method)
    then err (quoting "unexpected subscription notification " n.method "")
    else check_notification id require_tools (decode_acknowledgement n.params)

pub record ToolsSubscription : Type 0 where
  pub id : ℕ
  pub reader : List String
  pub acknowledged : Notification

abbrev own_id : RequestId → ℕ → Bool
own_id (number (pos n)) id = eqb n id
own_id _ id = false

abbrev task_params : Fields → Option (TaskSnapshot × RequestId)
task_params fields = and_then (decode_task fields) λ task.
    and_then (struct_member "_meta" fields) λ meta.
      and_then (id_value (get "io.modelcontextprotocol/subscriptionId" meta)) λ id. some (task, id)

abbrev check_task : TaskSubscription → TaskSnapshot × RequestId → Result Message TaskSnapshot
check_task s (task, id) =
    if not (own_id id s.id)
    then err (plain "task notification subscription ID")
    else if not (member task.task_id s.task_ids)
    then err (plain "task notification referenced unacknowledged task")
    else ok task

abbrev check_task_method : Notification → Result Message (Unit {0})
check_task_method n =
    if not (n.jsonrpc == "2.0") || not (n.method == "notifications/tasks")
    then err (quoting "unexpected task notification " n.method "")
    else ok tt

abbrev decoded_task : Notification → Result Message (TaskSnapshot × RequestId)
decoded_task n =
    or_fail (and_then (as_struct n.params) task_params) (plain "decode task notification task")

module _ (parse_json : String → Option Json) where
  -- The next event of a stream as a notification, and the reader behind it.
  unfoldable pub read_notification : List String → Result Message (Notification × List String)
  unfolding decode_notification read_sse_data
  read_notification reader = do
    event ← read_sse_data reader
    message ← or_fail (parse_json event.0) (plain "decode notification")
    n ← or_fail (decode_notification message) (plain "decode notification")
    ok (n, event.1)

  abbrev first_acknowledgement : ℕ → List String → String → Result Message TaskSubscription
  first_acknowledgement id task_ids input = do
    event ← read_notification (new_reader input)
    ids ← validate_task_acknowledgement event.0 id task_ids
    ok (record { id = id; reader = event.1; acknowledged = event.0; task_ids = ids })

  unfoldable pub open_task_subscription :
      ℕ → List String → OpenedStream → Result Message TaskSubscription
  unfolding validate_task_acknowledgement read_notification
  open_task_subscription id task_ids opened =
      if not (eqb opened.status 200) || not (is_stream opened.media_type)
      then err (plain "open task subscription: unexpected HTTP response")
      else first_acknowledgement id task_ids opened.input

  unfoldable pub open_tools_subscription : ℕ → OpenedStream → Result Message ToolsSubscription
  unfolding validate_subscription_notification read_notification
  open_tools_subscription id opened =
      if not (eqb opened.status 200) || not (is_stream opened.media_type)
      then err (plain "open subscription: unexpected HTTP response")
      else do
        event ← read_notification (new_reader opened.input)
        checked ←
            validate_subscription_notification event.0 "notifications/subscriptions/acknowledged" id
              true
        ok (record { id = id; reader = event.1; acknowledged = event.0 })

  -- The wait of RefreshOnNextToolsListChanged, before the tools are listed again.
  unfoldable pub next_tools_change :
      ToolsSubscription → Result Message (Notification × ToolsSubscription)
  unfolding validate_subscription_notification read_notification
  next_tools_change s = do
    event ← read_notification s.reader
    checked ←
        validate_subscription_notification event.0 "notifications/tools/list_changed" s.id false
    ok (event.0, record s { reader = event.1 })

  -- HTTPTaskSubscription.Next
  unfoldable pub next_task :
      TaskSubscription → Result Message (Notification × TaskSnapshot × TaskSubscription)
  unfolding decode_task read_notification
  next_task s = do
    event ← read_notification s.reader
    checked ← check_task_method event.0
    decoded ← decoded_task event.0
    task ← check_task s decoded
    ok (event.0, task, record s { reader = event.1 })
