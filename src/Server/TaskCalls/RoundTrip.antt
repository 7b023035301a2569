-- ===== src/Server/TaskCalls/RoundTrip.antt =====
-- The deferred echo from its creation to its result.
use mcp_from_scratch.Base.Text.{hex}
use mcp_from_scratch.Base.Decimal.{pos}
use mcp_from_scratch.Context.{Ctx, context_err}
use mcp_from_scratch.Environment.{Environment}
use mcp_from_scratch.Metadata.{RequestMeta, decode_params, task_owner, task_capability_error}
use mcp_from_scratch.Protocol.Tasks.{input_required, completed, instant, validate_task, terminal}
use mcp_from_scratch.Tasks.{
  TaskRecord, expired, complete, approves, deferred_echo_input_key, text_result,
}
use mcp_from_scratch.Tasks.Expiry.{expired_exact}
use mcp_from_scratch.Envelope.{marshal_tool_result}
use mcp_from_scratch.Tasks.Outcomes.{update_approval, get-finds, create-stores}
use mcp_from_scratch.Subscriptions.{publish_task_changed}
use mcp_from_scratch.Server.{Server, text_argument, deferred_echo_tool_name}
use mcp_from_scratch.Server.Replies.{task_result, create_task_result, empty_task_result}
use mcp_from_scratch.Server.TaskCalls.{
  unless_error, shown, changed, stored, get_decoded, get_task, update_decoded, update_task,
  identified, with_text, deferred, named_deferred, call_decoded, call_deferred_echo_task,
  task_params, update_params, deferred_record, deferred_task,
}
use mcp_from_scratch.Json.Decode.{string_member}
use mcp_from_scratch.Base.{
  ℕ, ◌+◌, ◌<◌, String, ◌≡◌, refl, ap, ◌∙◌, ◌≢◌, inl, inr, true, false, none, some, List, [], ◌∷◌,
  arith, ◌==◌, eq_iff, eq_refl, if◌then◌else◌, Bool-cases, is_some, lookup, insert, lookup-insert,
  ok,
}
use mcp_from_scratch.Json.{Raw, Fields}
use mcp_from_scratch.Json.{get as get_member}

abbrev pub set_task : String → TaskRecord → Server → Server
set_task task_id r server = record server {
  tasks = insert task_id r server.tasks;
  registry = publish_task_changed r.owner r.task server.registry;
}

differs : (s t : String) → s ≢ t → (s == t) ≡ false
differs s t h = ground (arith, eq_iff s t)

module _ (env : Environment) (ctx : Ctx) (now : ℕ) (raw : Raw) (server : Server)
    (meta : RequestMeta) where
  pub get_task_shows :
      (task_id : String) (r : TaskRecord)
      → context_err ctx ≡ none
      → task_params raw ≡ some (meta, task_id)
      → task_capability_error server.extensions meta ≡ none
      → task_id ≢ ""
      → r.owner ≢ ""
      → task_owner ctx meta ≡ r.owner
      → lookup task_id server.tasks ≡ some r
      → expired r.task now ≡ false
      → get_task env ctx now raw server ≡ (ok (task_result env r.task), server)
  unfolding get_task get_decoded unless_error shown
  get_task_shows task_id r running sent able named known mine held live =
      ap (λ params. get_decoded env ctx now params server) sent
      ∙ rw (
        get_decoded,
        differs task_id "" named,
        able,
        unless_error,
        mine,
        get-finds ctx task_id r.owner now server.tasks r running named known held refl live,
        shown,
      )

  pub update_task-approves :
      (task_id : String) (v : Raw) (r : TaskRecord)
      → context_err ctx ≡ none
      → update_params raw ≡ some (meta, task_id, (deferred_echo_input_key, v) ∷ [])
      → task_capability_error server.extensions meta ≡ none
      → task_id ≢ ""
      → r.owner ≢ ""
      → task_owner ctx meta ≡ r.owner
      → lookup task_id server.tasks ≡ some r
      → expired r.task now ≡ false
      → r.task.status ≡ input_required
      → is_some (lookup deferred_echo_input_key r.task.input_requests) ≡ true
      → v ≢ none
      → approves v ≡ true
      → update_task env ctx now raw server ≡ (
        ok empty_task_result,
        set_task task_id (complete ((deferred_echo_input_key, v) ∷ []) now r) server,
      )
  unfolding update_task update_decoded unless_error changed complete
  update_task-approves task_id v r running sent able named known mine held live waits asked json
        accepts =
      ap (λ params. update_decoded env ctx now params server) sent
      ∙ rw (
        update_decoded,
        differs task_id "" named,
        able,
        unless_error,
        mine,
        update_approval ctx task_id r.owner v now server.tasks r running named known held refl live
            waits asked json accepts,
        changed,
      )

deferred_task-valid :
    (env : Environment) (task_id text : String) (now : ℕ)
    → task_id ≢ ""
    → validate_task (deferred_task env task_id text now) ≡ ok tt
unfolding validate_task deferred_task
deferred_task-valid env task_id text now named = rw (differs task_id "" named) refl

-- A call of deferred_echo by a client that negotiated tasks, with a text and an identifier that is
-- not taken, stores the task, which waits for its approval, under the caller's name, announces it,
-- and replies with it.
pub deferred_echo_creates :
    (env : Environment) (ctx : Ctx) (now : ℕ) (bytes : List ℕ) (raw : Raw) (server : Server)
    (fields : Fields) (meta : RequestMeta) (text : String)
    → context_err ctx ≡ none
    → decode_params raw ≡ some (fields, meta)
    → string_member "name" fields ≡ some deferred_echo_tool_name
    → is_some (lookup deferred_echo_tool_name server.tools) ≡ true
    → task_capability_error server.extensions meta ≡ none
    → task_owner ctx meta ≢ ""
    → text_argument (get_member "arguments" fields) ≡ some text
    → text ≢ ""
    → hex bytes ≢ ""
    → lookup (hex bytes) server.tasks ≡ none
    → let r = deferred_record env (hex bytes) (task_owner ctx meta) text now in
      call_deferred_echo_task env ctx now (ok bytes) raw server
      ≡ some (ok (create_task_result env r.task), set_task (hex bytes) r server)
unfolding call_deferred_echo_task call_decoded named_deferred deferred with_text identified
    unless_error stored deferred_task terminal
deferred_echo_creates env ctx now bytes raw server fields meta text running sent name there able
      known said full named fresh =
    rw (
      sent,
      call_decoded,
      name,
      named_deferred,
      there,
      deferred,
      able,
      unless_error,
      differs (task_owner ctx meta) "" known,
      said,
      with_text,
      differs text "" full,
      identified,
      create-stores ctx (deferred_record env (hex bytes) (task_owner ctx meta) text now)
          server.tasks running known (deferred_task-valid env (hex bytes) text now named) refl
          fresh,
      stored,
    )

-- A task with the lifetime of a deferred echo is live for five minutes.
live_until :
    (r : TaskRecord) (created now : ℕ)
    → r.task.ttl_ms ≡ some (pos 300000)
    → r.task.created_at ≡ instant created
    → now < created + 300000000000
    → expired r.task now ≡ false
live_until r created now ttl birth early = elim (Bool-cases (expired r.task now)) [
  | inl late ↦ absurd (
      let over = (expired_exact r.task 300000 created now ttl birth (ground arith)).0 late in
      ground arith)
  | inr live ↦ live
]

-- The result that tasks/get shows once the echo is approved.
abbrev pub echoed_record : Environment → String → String → String → ℕ → Raw → ℕ → TaskRecord
echoed_record env task_id owner text now v approved_at =
    complete ((deferred_echo_input_key, v) ∷ []) approved_at
      (deferred_record env task_id owner text now)

echoed_record-result :
    (env : Environment) (task_id owner text : String) (now : ℕ) (v : Raw) (approved_at : ℕ)
    → text ≢ ""
    → (echoed_record env task_id owner text now v approved_at).task.result
      ≡ some (marshal_tool_result (text_result text))
unfolding complete lookup
echoed_record-result env task_id owner text now v approved_at full =
    ap
      (λ b. some (marshal_tool_result (text_result (if b then "deferred echo approved" else text))))
      (differs text "" full)

-- The whole workflow of the deferred echo over three requests of one caller, who is known and has
-- negotiated tasks, at a server that has the tool and not yet the identifier, whatever it holds
-- besides: the call with a text creates the task, the approval within five minutes of it completes
-- the task, and tasks/get within the same time shows the completed task, whose result is the text.
pub deferred_echo_round_trip :
    (env : Environment) (server : Server) (bytes : List ℕ) (text : String) (v : Raw)
    (ctx_call ctx_update ctx_get : Ctx) (created approved_at read_at : ℕ)
    (raw_call raw_update raw_get : Raw) (fields : Fields)
    (meta_call meta_update meta_get : RequestMeta)
    → context_err ctx_call ≡ none
    → decode_params raw_call ≡ some (fields, meta_call)
    → string_member "name" fields ≡ some deferred_echo_tool_name
    → is_some (lookup deferred_echo_tool_name server.tools) ≡ true
    → task_capability_error server.extensions meta_call ≡ none
    → task_owner ctx_call meta_call ≢ ""
    → text_argument (get_member "arguments" fields) ≡ some text
    → text ≢ ""
    → hex bytes ≢ ""
    → lookup (hex bytes) server.tasks ≡ none
    → context_err ctx_update ≡ none
    → update_params raw_update ≡ some (meta_update, hex bytes, (deferred_echo_input_key, v) ∷ [])
    → task_capability_error server.extensions meta_update ≡ none
    → task_owner ctx_update meta_update ≡ task_owner ctx_call meta_call
    → v ≢ none
    → approves v ≡ true
    → approved_at < created + 300000000000
    → context_err ctx_get ≡ none
    → task_params raw_get ≡ some (meta_get, hex bytes)
    → task_capability_error server.extensions meta_get ≡ none
    → task_owner ctx_get meta_get ≡ task_owner ctx_call meta_call
    → read_at < created + 300000000000
    → let r = deferred_record env (hex bytes) (task_owner ctx_call meta_call) text created in
      let done =
        echoed_record env (hex bytes) (task_owner ctx_call meta_call) text created v approved_at in
      let asked = set_task (hex bytes) r server in
      let finished = set_task (hex bytes) done asked in
      (call_deferred_echo_task env ctx_call created (ok bytes) raw_call server
        ≡ some (ok (create_task_result env r.task), asked))
      × (update_task env ctx_update approved_at raw_update asked ≡ (ok empty_task_result, finished))
      × (get_task env ctx_get read_at raw_get finished ≡ (ok (task_result env done.task), finished))
      × (done.task.status ≡ completed)
      × (done.task.result ≡ some (marshal_tool_result (text_result text)))
unfolding complete deferred_task lookup
deferred_echo_round_trip env server bytes text v ctx_call ctx_update ctx_get created approved_at
      read_at raw_call raw_update raw_get fields meta_call meta_update meta_get running sent name
      there able known said full named fresh running_update sent_update able_update mine_update json
      accepts early running_get sent_get able_get mine_get soon =
    (
      deferred_echo_creates env ctx_call created bytes raw_call server fields meta_call text running
          sent name there able known said full named fresh,
      update_task-approves env ctx_update approved_at raw_update asked meta_update (hex bytes) v r
          running_update sent_update able_update named known mine_update (lookup-set r server)
          (live_until r created approved_at refl refl early) refl refl json accepts,
      get_task_shows env ctx_get read_at raw_get finished meta_get (hex bytes) done running_get
          sent_get able_get named known mine_get (lookup-set done asked)
          (live_until done created read_at refl refl soon),
      refl,
      echoed_record-result env (hex bytes) (task_owner ctx_call meta_call) text created v
          approved_at full,
    )
  where
    r : TaskRecord
    r = deferred_record env (hex bytes) (task_owner ctx_call meta_call) text created

    done : TaskRecord
    done = echoed_record env (hex bytes) (task_owner ctx_call meta_call) text created v approved_at

    asked : Server
    asked = set_task (hex bytes) r server

    finished : Server
    finished = set_task (hex bytes) done asked

    lookup-set :
        (s : TaskRecord) (before : Server)
        → lookup (hex bytes) (set_task (hex bytes) s before).tasks ≡ some s
    lookup-set s before = rw (lookup-insert, eq_refl) refl
