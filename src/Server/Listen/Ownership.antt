-- ===== src/Server/Listen/Ownership.antt =====
-- Which tasks a new subscription follows.
use mcp_from_scratch.Context.{Ctx}
use mcp_from_scratch.Metadata.{
  RequestMeta, validate_request_metadata, task_owner, task_capability_error,
}
use mcp_from_scratch.Protocol.Errors.{RpcError}
use mcp_from_scratch.Protocol.Ids.{RequestId}
use mcp_from_scratch.Protocol.Requests.{Notification}
use mcp_from_scratch.Tasks.{TaskRecord, Tasks, TaskError, get, expired}
use mcp_from_scratch.Tasks.Access.{get-shrinks}
use mcp_from_scratch.Tasks.Outcomes.{get-ok}
use mcp_from_scratch.Subscriptions.{SubscriptionFilter, Subscription, open_subscription}
use mcp_from_scratch.Server.{Server}
use mcp_from_scratch.Server.Listen.{
  readable, kept, opened, with_ids, listened, validated, subscribe, decode_listen, agreed,
}
use mcp_from_scratch.Base.{
  ℕ, String, ◌≡◌, refl, ap, inl, inr, false, Option, none, some, List, [], ◌∷◌, arith, ltb,
  Bool-cases, length, All, lookup, Result, ok, err, ok_injective,
}
use mcp_from_scratch.Json.{Raw}

-- The caller's task under the identifier, before its time is over.
abbrev pub Readable : Tasks → String → ℕ → String → Type 0
Readable tasks owner now task_id =
    (r : TaskRecord) × (lookup task_id tasks ≡ some r)
    × (r.owner ≡ owner)
    × (expired r.task now ≡ false)

All-weaken :
    (ctx : Ctx) (task_id owner : String) (now : ℕ) (tasks : Tasks) (ids : List String)
    → All (Readable (get ctx task_id owner now tasks).1 owner now) ids
    → All (Readable tasks owner now) ids
All-weaken ctx task_id owner now tasks [] a = tt
All-weaken ctx task_id owner now tasks (id ∷ ids) ((r, held, mine, live), rest) = (
  (r, get-shrinks ctx task_id owner now tasks id r held, mine, live),
  All-weaken ctx task_id owner now tasks ids rest,
)

kept-Readable :
    (tasks : Tasks) (owner : String) (now : ℕ) (task_id : String)
    (result : Result TaskError TaskRecord) (ids : List String)
    → ((r : TaskRecord) → result ≡ ok r → Readable tasks owner now task_id)
    → All (Readable tasks owner now) ids
    → All (Readable tasks owner now) (kept task_id result ids)
unfolding kept
kept-Readable tasks owner now task_id (err e) ids here rest = rest
kept-Readable tasks owner now task_id (ok r) ids here rest = (here r refl, rest)

readable-Readable :
    (ctx : Ctx) (owner : String) (now : ℕ) (ids : List String) (tasks : Tasks)
    → All (Readable tasks owner now) (readable ctx owner now ids tasks).0
unfolding readable
readable-Readable ctx owner now [] tasks = tt
readable-Readable ctx owner now (task_id ∷ ids) tasks =
    kept-Readable tasks owner now task_id (get ctx task_id owner now tasks).0 _
      (λ r h.
        let (held, mine, live, same) = get-ok ctx task_id owner now tasks r h in
        (r, held, mine, live))
      (All-weaken ctx task_id owner now tasks _
        (readable-Readable ctx owner now ids (get ctx task_id owner now tasks).1))

opened_follows :
    (id : RequestId) (owner : String) (now : ℕ) (filter : SubscriptionFilter) (left : Tasks)
    (server : Server) (s : Subscription) (ack : Notification)
    → All (Readable server.tasks owner now) filter.task_ids
    → (opened id owner filter left server).0 ≡ ok (s, ack)
    → (s.owner ≡ owner) × All (Readable server.tasks owner now) s.notifications.task_ids
unfolding opened open_subscription
opened_follows id owner now filter left server s ack a h =
    let same = ap (λ (p : Subscription × Notification). p.0) (ok_injective h) in
    rw (← same) (refl, a)

module _ (ctx : Ctx) (now : ℕ) (id : RequestId) (server : Server) (s : Subscription)
    (ack : Notification) where
  abbrev Follows : RequestMeta → Type 0
  Follows meta =
      (s.owner ≡ task_owner ctx meta)
      × All (Readable server.tasks (task_owner ctx meta) now) s.notifications.task_ids

  with_ids-Follows :
      (meta : RequestMeta) (filter : SubscriptionFilter) (e : Option RpcError)
      → (with_ids ctx now id meta filter e server).0 ≡ ok (s, ack)
      → Follows meta
  unfolding with_ids agreed
  with_ids-Follows meta filter (some e) h = absurd (cc)
  with_ids-Follows meta filter none h =
      let found = readable ctx (task_owner ctx meta) now filter.task_ids server.tasks in
      opened_follows id (task_owner ctx meta) now (agreed filter found.0) found.1 server s ack
        (readable-Readable ctx (task_owner ctx meta) now filter.task_ids server.tasks) h

  no_ids : (P : String → Type 0) (ids : List String) → ltb 0 (length ids) ≡ false → All P ids
  no_ids P [] h = tt
  no_ids P (t ∷ ids) h = absurd (ground arith)

  listened-Follows :
      (params : Option (RequestMeta × SubscriptionFilter))
      → (listened ctx now id params server).0 ≡ ok (s, ack)
      → (meta : RequestMeta) × (filter : SubscriptionFilter) × (params ≡ some (meta, filter))
        × Follows meta
  unfolding listened
  listened-Follows none h = absurd (cc)
  listened-Follows (some (meta, filter)) h = elim (Bool-cases (ltb 0 (length filter.task_ids))) [
    | inl e ↦ (
      meta,
      filter,
      refl,
      with_ids-Follows meta filter (task_capability_error server.extensions meta) (rw e at h),
    )
    | inr e ↦ (
      meta,
      filter,
      refl,
      opened_follows id (task_owner ctx meta) now filter server.tasks server s ack
          (no_ids (Readable server.tasks (task_owner ctx meta) now) filter.task_ids e) (rw e at h),
    )
  ]

  validated-Follows :
      (e : Option RpcError) (raw : Raw)
      → (validated ctx now id e raw server).0 ≡ ok (s, ack)
      → (meta : RequestMeta) × (filter : SubscriptionFilter) × (decode_listen raw
          ≡ some (meta, filter))
        × Follows meta
  unfolding validated
  validated-Follows (some e) raw h = absurd (cc)
  validated-Follows none raw h = listened-Follows (decode_listen raw) h

-- A subscription that is opened carries the caller's name, and every task identifier that it follows
-- is that of a live task which the caller owns: asking for a foreign or an unknown task adds nothing.
pub subscribe_follows_own :
    (ctx : Ctx) (now : ℕ) (id : RequestId) (raw : Raw) (server : Server) (s : Subscription)
    (ack : Notification)
    → (subscribe ctx now (some id) raw server).0 ≡ ok (s, ack)
    → (meta : RequestMeta) × (filter : SubscriptionFilter) × (decode_listen raw
        ≡ some (meta, filter))
      × (s.owner ≡ task_owner ctx meta)
      × All (Readable server.tasks (task_owner ctx meta) now) s.notifications.task_ids
unfolding subscribe
subscribe_follows_own ctx now id raw server s ack h =
    let (meta, filter, sent, follows) =
      validated-Follows ctx now id server s ack (validate_request_metadata raw) raw h in
    (meta, filter, sent, follows.0, follows.1)
