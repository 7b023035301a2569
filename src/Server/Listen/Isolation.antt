-- ===== src/Server/Listen/Isolation.antt =====
-- What opening a subscription can do to the tasks of others.
use mcp_from_scratch.Context.{Ctx, execution_principal}
use mcp_from_scratch.Metadata.{
  RequestMeta, validate_request_metadata, task_owner, task_capability_error,
}
use mcp_from_scratch.Protocol.Errors.{RpcError}
use mcp_from_scratch.Protocol.Ids.{RequestId}
use mcp_from_scratch.Subscriptions.{SubscriptionFilter}
use mcp_from_scratch.Tasks.{TaskRecord, Tasks, gets, get, after}
use mcp_from_scratch.Tasks.Ownership.{after_keeps}
use mcp_from_scratch.Server.{Server}
use mcp_from_scratch.Server.TaskCalls.Isolation.{or_client-principal}
use mcp_from_scratch.Server.Listen.{
  readable, opened, with_ids, listened, validated, subscribe, decode_listen,
}
use mcp_from_scratch.Base.{
  ℕ, String, ◌≡◌, sym, ◌∙◌, ◌≢◌, inl, inr, Option, none, some, List, [], ◌∷◌, ltb, Bool-cases,
  length, lookup,
}
use mcp_from_scratch.Json.{Raw}

module _ (k : String) (r : TaskRecord) (ctx : Ctx) (now : ℕ) where
  readable_keeps :
      (owner : String) (ids : List String) (tasks : Tasks)
      → owner ≢ r.owner
      → lookup k tasks ≡ some r
      → lookup k (readable ctx owner now ids tasks).1 ≡ some r
  unfolding readable after
  readable_keeps owner [] tasks stranger held = held
  readable_keeps owner (id ∷ ids) tasks stranger held =
      readable_keeps owner ids (get ctx id owner now tasks).1 stranger
        (after_keeps now (gets ctx id owner) tasks k r held stranger)

  module _ (id : RequestId) (server : Server) (held : lookup k server.tasks ≡ some r)
      (stranger : (meta : RequestMeta) → task_owner ctx meta ≢ r.owner) where
    with_ids_keeps :
        (meta : RequestMeta) (filter : SubscriptionFilter) (e : Option RpcError)
        → lookup k (with_ids ctx now id meta filter e server).1.tasks ≡ some r
    unfolding with_ids opened
    with_ids_keeps meta filter (some e) = held
    with_ids_keeps meta filter none =
        readable_keeps (task_owner ctx meta) filter.task_ids server.tasks (stranger meta) held

    listened_keeps :
        (params : Option (RequestMeta × SubscriptionFilter))
        → lookup k (listened ctx now id params server).1.tasks ≡ some r
    unfolding listened opened
    listened_keeps none = held
    listened_keeps (some (meta, filter)) = elim (Bool-cases (ltb 0 (length filter.task_ids))) [
      | inl e ↦ rw e (with_ids_keeps meta filter (task_capability_error server.extensions meta))
      | inr e ↦ rw e held
    ]

    validated_keeps :
        (e : Option RpcError) (raw : Raw)
        → lookup k (validated ctx now id e raw server).1.tasks ≡ some r
    unfolding validated
    validated_keeps (some e) raw = held
    validated_keeps none raw = listened_keeps (decode_listen raw)

pub subscribe_keeps :
    (ctx : Ctx) (now : ℕ) (id : Option RequestId) (raw : Raw) (server : Server) (p k : String)
    (r : TaskRecord)
    → execution_principal ctx ≡ some p
    → p ≢ r.owner
    → lookup k server.tasks ≡ some r
    → lookup k (subscribe ctx now id raw server).1.tasks ≡ some r
unfolding subscribe
subscribe_keeps ctx now none raw server p k r known stranger held = held
subscribe_keeps ctx now (some id) raw server p k r known stranger held =
    validated_keeps k r ctx now id server held
      (λ meta e. stranger (sym (or_client-principal ctx meta p known) ∙ e))
      (validate_request_metadata raw) raw
