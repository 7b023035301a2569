-- ===== src/Runtime.antt =====
-- internal/mcpserver/runtime.go: what a running request sends to its transport. A floating-point
-- number of the program is a value of `F`, with what the code asks of it. What the sink answers and
-- whether a context has an error are given with each call.
pub mod Order
use mcp_from_scratch.Json.Decode.{as_struct, struct_member, ◌>>=◌ as and_then}
use mcp_from_scratch.Metadata.{valid_progress_token}
use mcp_from_scratch.Protocol.Requests.{Notification}
use mcp_from_scratch.Base.{
  String, Bool, true, false, not, ◌&&◌, ◌||◌, Option, none, some, List, [], ◌∷◌, arith,
  if◌then◌else◌, is_some,
}
use mcp_from_scratch.Json.{Json, null, num, obj, Fields, end, field, Raw, get, omit_empty}

pub record Floats (F : Type 0) : Type 0 where
  pub less : F → F → Bool
  pub is_nan : F → Bool
  pub is_infinite : F → Bool
  pub zero_float : F
  pub minus_infinity : F
  pub literal : F → String

-- requestRuntime; the notifications that the sink accepted are kept, the last one first.
pub record RequestRuntime (F : Type 0) : Type 0 where
  pub sink_given : Bool
  pub token : Raw
  pub last : F
  pub done : Bool
  pub delivered : List Notification

-- What a call meets: whether its context is nil, and whether the context or the one under which the
-- request runs has an error, before the lock is taken and under it.
pub record Situation : Type 0 where
  pub given : Bool
  pub failed : Bool
  pub parent_failed : Bool
  pub failed_inside : Bool
  pub parent_failed_inside : Bool
  pub accepted : Bool

module _ {F : Type 0} (floats : Floats F) where
  abbrev deliver : Bool → Notification → RequestRuntime F → Bool × RequestRuntime F
  deliver true n r = (true, record r { delivered = n ∷ r.delivered })
  deliver false n r = (false, r)

  abbrev unchanged : Option (RequestRuntime F) → Bool × Option (RequestRuntime F)
  unchanged o = (false, o)

  abbrev kept : Bool × RequestRuntime F → Bool × Option (RequestRuntime F)
  kept (sent, r) = (sent, some r)

  -- `none` is a context without a runtime.
  unfoldable pub emit_notification :
      Situation → Notification → Option (RequestRuntime F) → Bool × Option (RequestRuntime F)
  emit_notification at n none = (false, none)
  emit_notification at n (some r) =
      if not at.given || not r.sink_given
      then (false, some r)
      else if at.failed || at.parent_failed
      then (false, some r)
      else if r.done || at.parent_failed_inside
      then (false, some r)
      else kept (deliver at.accepted n r)

  abbrev with_total : F → Fields → Fields
  with_total total rest =
      if not (floats.is_nan total)
        && not (floats.is_infinite total)
        && not (floats.less total floats.zero_float)
      then field "total" (num (floats.literal total)) rest
      else rest

  abbrev or_null : Raw → Json
  or_null none = null
  or_null (some v) = v

  unfoldable pub progress_notification : Raw → F → F → String → Notification
  progress_notification token progress total message = record {
    jsonrpc = "2.0";
    method = "notifications/progress";
    params = some (
        obj (
          field "_meta" (obj (field "progressToken" (or_null token) end)) (
            field "progress" (num (floats.literal progress))
              (with_total total (omit_empty "message" message end)))));
  }

  abbrev record_progress : F → Bool × RequestRuntime F → Bool × Option (RequestRuntime F)
  record_progress progress (true, r) = (true, some (record r { last = progress }))
  record_progress progress (false, r) = (false, some r)

  unfoldable pub report_progress :
      Situation → F → F → String → Option (RequestRuntime F) → Bool × Option (RequestRuntime F)
  unfolding progress_notification
  report_progress at progress total message none = (false, none)
  report_progress at progress total message (some r) =
      if not at.given || not r.sink_given || not (is_some r.token)
      then (false, some r)
      else if at.failed || at.parent_failed
      then (false, some r)
      else if floats.is_nan progress
          || floats.is_infinite progress
          || floats.less progress floats.zero_float
      then (false, some r)
      else if r.done || at.failed_inside || at.parent_failed_inside || floats.less progress r.last
      then (false, some r)
      else record_progress progress
          (deliver at.accepted (progress_notification r.token progress total message) r)

  token_of : Raw → Raw
  token_of raw =
      and_then (as_struct raw)
        λ fields. and_then (struct_member "_meta" fields) λ meta. get "progressToken" meta

  unfoldable pub with_request_runtime : Bool → Raw → RequestRuntime F
  unfolding token_of valid_progress_token
  with_request_runtime sink_given raw = record {
    sink_given = sink_given;
    token = if valid_progress_token (token_of raw) then token_of raw else none;
    last = floats.minus_infinity;
    done = false;
    delivered = [];
  }

  unfoldable pub with_notification_sink : Bool → RequestRuntime F
  with_notification_sink sink_given = record {
    sink_given = sink_given;
    token = none;
    last = floats.minus_infinity;
    done = false;
    delivered = [];
  }

  unfoldable pub finish_request_runtime : Option (RequestRuntime F) → Option (RequestRuntime F)
  finish_request_runtime none = none
  finish_request_runtime (some r) = some (record r { done = true })

-- The calls that a handler and its helpers make, in the order in which they take the lock.
pub data RuntimeCall (F : Type 0) : Type 0 where
  emits : Situation → Notification → RuntimeCall F
  reports : Situation → F → F → String → RuntimeCall F
  finishes : RuntimeCall F

module _ {F : Type 0} (floats : Floats F) where
  unfoldable pub runtime_step :
      RuntimeCall F → Option (RequestRuntime F) → Option (RequestRuntime F)
  unfolding emit_notification report_progress finish_request_runtime
  runtime_step (emits at n) o = (emit_notification floats at n o).1
  runtime_step (reports at progress total message) o =
      (report_progress floats at progress total message o).1
  runtime_step finishes o = finish_request_runtime floats o

  unfoldable pub runtime_run :
      List (RuntimeCall F) → Option (RequestRuntime F) → Option (RequestRuntime F)
  unfolding runtime_step
  runtime_run [] o = o
  runtime_run (c ∷ cs) o = runtime_run cs (runtime_step c o)
