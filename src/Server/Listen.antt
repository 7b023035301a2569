-- ===== src/Server/Listen.antt =====
-- The subscriptions of the server: subscribe of internal/mcpserver/subscriptions.go, which looks up
-- the tasks that are asked for, and so may delete those that have expired.
pub mod Ownership
pub mod Isolation
use mcp_from_scratch.Context.{Ctx}
use mcp_from_scratch.Metadata.{
  RequestMeta, decode_params, validate_request_metadata, task_owner, task_capability_error,
}
use mcp_from_scratch.Protocol.Errors.{RpcError, new_error, invalid_params, invalid_request}
use mcp_from_scratch.Protocol.Ids.{RequestId}
use mcp_from_scratch.Protocol.Requests.{Notification}
use mcp_from_scratch.Tasks.{TaskRecord, Tasks, TaskError, get}
use mcp_from_scratch.Subscriptions.{
  SubscriptionFilter, Subscription, open_subscription, subscription_acknowledged_notification,
}
use mcp_from_scratch.Json.Decode.{bool_member, strings_member, map_member}
use mcp_from_scratch.Json.Decode.{◌>>=◌}
use mcp_from_scratch.Server.{Server}
use mcp_from_scratch.Base.{
  ℕ, String, Option, none, some, List, [], ◌∷◌, ◌++◌, arith, ltb, if◌then◌else◌, length, Result, ok,
  err,
}
use mcp_from_scratch.Json.{Raw, Fields}

abbrev decode_filter : Fields → Option SubscriptionFilter
decode_filter fields = do
  tools ← bool_member "toolsListChanged" fields
  resources ← bool_member "resourcesListChanged" fields
  prompts ← bool_member "promptsListChanged" fields
  ids ← strings_member "taskIds" fields
  some (record {
    tools_list_changed = tools;
    resources_list_changed = resources;
    prompts_list_changed = prompts;
    task_ids = ids;
  })

-- A member that is absent or null is no filter.
abbrev pub decode_listen : Raw → Option (RequestMeta × SubscriptionFilter)
decode_listen raw = do
  (fields, meta) ← decode_params raw
  notifications ← map_member "notifications" fields
  filter_fields ← notifications
  filter ← decode_filter filter_fields
  some (meta, filter)

kept : String → Result TaskError TaskRecord → List String → List String
kept task_id (err e) ids = ids
kept task_id (ok r) ids = task_id ∷ ids

-- The loop over the task identifiers: those that the caller can read.
unfoldable pub readable : Ctx → String → ℕ → List String → Tasks → List String × Tasks
unfolding kept
readable ctx owner now [] tasks = ([], tasks)
readable ctx owner now (task_id ∷ ids) tasks =
    let found = get ctx task_id owner now tasks in
    let rest = readable ctx owner now ids found.1 in (kept task_id found.0 rest.0, rest.1)

agreed : SubscriptionFilter → List String → SubscriptionFilter
agreed filter ids = record filter { task_ids = ids }

abbrev Opened : Type 0
Opened = Result RpcError (Subscription × Notification) × Server

-- The new subscription is the last of the registry.
opened : RequestId → String → SubscriptionFilter → Tasks → Server → Opened
opened id owner filter tasks server =
    let s = open_subscription id filter owner in
    (
      ok (s, subscription_acknowledged_notification id filter),
      record server { tasks = tasks; registry = server.registry ++ s ∷ [] },
    )

module _ (ctx : Ctx) (now : ℕ) where
  with_ids : RequestId → RequestMeta → SubscriptionFilter → Option RpcError → Server → Opened
  unfolding opened agreed
  with_ids id meta filter (some e) server = (err e, server)
  with_ids id meta filter none server =
      let owner = task_owner ctx meta in
      let found = readable ctx owner now filter.task_ids server.tasks in
      opened id owner (agreed filter found.0) found.1 server

  listened : RequestId → Option (RequestMeta × SubscriptionFilter) → Server → Opened
  unfolding with_ids
  listened id none server =
      (err (new_error invalid_params "missing or invalid notifications filter"), server)
  listened id (some (meta, filter)) server =
      if ltb 0 (length filter.task_ids)
      then with_ids id meta filter (task_capability_error server.extensions meta) server
      else opened id (task_owner ctx meta) filter server.tasks server

  validated : RequestId → Option RpcError → Raw → Server → Opened
  unfolding listened
  validated id (some e) raw server = (err e, server)
  validated id none raw server = listened id (decode_listen raw) server

  unfoldable pub subscribe : Option RequestId → Raw → Server → Opened
  unfolding validated
  subscribe none raw server =
      (err (new_error invalid_request "subscriptions/listen requires a request ID"), server)
  subscribe (some id) raw server = validated id (validate_request_metadata raw) raw server
