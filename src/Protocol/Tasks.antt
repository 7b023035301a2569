-- ===== src/Protocol/Tasks.antt =====
-- internal/protocol/tasks.go: the states and the data of a task. A timestamp stands for what
-- time.Parse makes of its RFC 3339 text, in nanoseconds.
use mcp_from_scratch.Base.Decimal.{ℤ, is_negative}
use mcp_from_scratch.Protocol.Errors.{
  Message, plain, quoting, RpcError, new_error_with_data, missing_required_task_capability,
}
use mcp_from_scratch.Base.{
  ℕ, String, Bool, true, false, not, ◌||◌, Option, none, some, [], ◌∷◌, ◌==◌, if◌then◌else◌, Map,
  Result, ok, err,
}
use mcp_from_scratch.Json.{Json, obj, Fields, end, Raw, object}

abbrev pub tasks_extension_id : String
tasks_extension_id = "io.modelcontextprotocol/tasks"

-- A status is a text in the source; `other` is any text that is not one of the five.
pub data TaskStatus : Type 0 where
  working input_required completed failed cancelled : TaskStatus
  other : String → TaskStatus

unfoldable pub valid : TaskStatus → Bool
valid (other s) = false
valid working = true
valid input_required = true
valid completed = true
valid failed = true
valid cancelled = true

unfoldable pub terminal : TaskStatus → Bool
terminal completed = true
terminal failed = true
terminal cancelled = true
terminal working = false
terminal input_required = false
terminal (other s) = false

pub data Timestamp : Type 0 where
  empty : Timestamp
  malformed : String → Timestamp
  instant : ℕ → Timestamp

pub record ElicitationRequest : Type 0 where
  pub mode : String
  pub message : String
  pub requested_schema : Fields

pub record TaskInputRequest : Type 0 where
  pub method : String
  pub params : ElicitationRequest

pub record DetailedTask : Type 0 where
  pub task_id : String
  pub status : TaskStatus
  pub status_message : String
  pub created_at : Timestamp
  pub last_updated_at : Timestamp
  pub ttl_ms : Option ℤ
  pub poll_interval_ms : ℤ
  pub input_requests : Map TaskInputRequest
  pub input_responses : Map Json
  pub result : Raw
  pub error : Raw

abbrev no_time : Timestamp → Bool
no_time empty = true
no_time _ = false

abbrev ttl_negative : Option ℤ → Bool
ttl_negative none = false
ttl_negative (some t) = is_negative t

abbrev pub status_text : TaskStatus → String
status_text (other s) = s
status_text working = "working"
status_text input_required = "input_required"
status_text completed = "completed"
status_text failed = "failed"
status_text cancelled = "cancelled"

unfoldable pub validate_task : DetailedTask → Result Message (Unit {0})
unfolding valid
validate_task task =
    if task.task_id == ""
    then err (plain "taskId is required")
    else if not (valid task.status)
    then err (quoting "invalid task status " (status_text task.status) "")
    else if no_time task.created_at || no_time task.last_updated_at
    then err (plain "createdAt and lastUpdatedAt are required")
    else if ttl_negative task.ttl_ms
    then err (plain "ttlMs must not be negative")
    else ok tt

abbrev pub missing_task_capability_error : RpcError
missing_task_capability_error =
    new_error_with_data missing_required_task_capability "missing required client capability" (
      object (
        (
          "requiredCapabilities",
          obj (object (("extensions", obj (object ((tasks_extension_id, obj end) ∷ []))) ∷ [])),
        )
        ∷ []))
