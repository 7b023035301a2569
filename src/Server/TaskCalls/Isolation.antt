-- ===== src/Server/TaskCalls/Isolation.antt =====
-- What the task methods can do to the tasks of others.
use mcp_from_scratch.Context.{Ctx, execution_principal}
use mcp_from_scratch.Environment.{Environment}
use mcp_from_scratch.Metadata.{RequestMeta, decode_params, task_owner, task_capability_error}
use mcp_from_scratch.Protocol.Errors.{RpcError, Message}
use mcp_from_scratch.Tasks.{TaskRecord, Tasks, TaskError, creates, gets, updates, cancels, after}
use mcp_from_scratch.Tasks.Ownership.{after_keeps}
use mcp_from_scratch.Server.{Server, text_argument}
use mcp_from_scratch.Server.TaskCalls.{
  Outcome, unless_error, shown, changed, stored, get_decoded, get_task, update_decoded, update_task,
  cancel_decoded, cancel_task, identified, with_text, deferred, named_deferred, call_decoded,
  call_deferred_echo_task, task_params, update_params, deferred_record,
}
use mcp_from_scratch.Base.Text.{hex}
use mcp_from_scratch.Json.Decode.{string_member}
use mcp_from_scratch.Base.{
  ℕ, String, ◌≡◌, refl, sym, ◌∙◌, ◌≢◌, Bool, true, false, Option, none, some, List, arith, ◌==◌,
  if◌then◌else◌, Map, lookup, Result, ok, err,
}
use mcp_from_scratch.Json.{Raw, Fields}
use mcp_from_scratch.Json.{get as get_member}

pub or_client-principal :
    (ctx : Ctx) (meta : RequestMeta) (p : String)
    → execution_principal ctx ≡ some p
    → task_owner ctx meta ≡ p
unfolding task_owner
or_client-principal ctx meta p h = rw h refl

module _ (k : String) (r : TaskRecord) where
  abbrev pub Holds : Server → Type 0
  Holds server = lookup k server.tasks ≡ some r

  unless_error_keeps :
      (e : Option RpcError) (server : Server) (next : Outcome)
      → Holds server
      → Holds next.1
      → Holds (unless_error e server next).1
  unfolding unless_error
  unless_error_keeps (some e) server next held kept = held
  unless_error_keeps none server next held kept = kept

  if_keeps :
      (b : Bool) (o next : Outcome) → Holds o.1 → Holds next.1 → Holds (if b then o else next).1
  if_keeps true o next held kept = held
  if_keeps false o next held kept = kept

  changed_keeps :
      (o : Result TaskError TaskRecord × Tasks) (server : Server)
      → lookup k o.1 ≡ some r
      → Holds (changed o server).1
  unfolding changed
  changed_keeps (err e, left) server h = h
  changed_keeps (ok s, left) server h = h

  module _ (env : Environment) where
    shown_keeps :
        (o : Result TaskError TaskRecord × Tasks) (server : Server)
        → lookup k o.1 ≡ some r
        → Holds (shown env o server).1
    unfolding shown
    shown_keeps (err e, left) server h = h
    shown_keeps (ok s, left) server h = h

    stored_keeps :
        (s : TaskRecord) (o : Result TaskError (Unit {0}) × Tasks) (server : Server)
        → lookup k o.1 ≡ some r
        → Holds (stored env s o server).1
    unfolding stored
    stored_keeps s (err e, left) server h = h
    stored_keeps s (ok u, left) server h = h

    module _ (ctx : Ctx) (now : ℕ) (random : Result Message (List ℕ)) (p : String)
        (known : execution_principal ctx ≡ some p) (stranger : p ≢ r.owner) where
      other : (meta : RequestMeta) → task_owner ctx meta ≢ r.owner
      other meta e = stranger (sym (or_client-principal ctx meta p known) ∙ e)

      get_decoded_keeps :
          (params : Option (RequestMeta × String)) (server : Server)
          → Holds server
          → Holds (get_decoded env ctx now params server).1
      unfolding get_decoded after
      get_decoded_keeps none server held = held
      get_decoded_keeps (some (meta, task_id)) server held = if_keeps (task_id == "") _ _ held (
          unless_error_keeps (task_capability_error server.extensions meta) server _ held (
            shown_keeps _ server (
              after_keeps now (gets ctx task_id (task_owner ctx meta)) server.tasks k r held
                (other meta))))

      update_decoded_keeps :
          (params : Option (RequestMeta × String × Map Raw)) (server : Server)
          → Holds server
          → Holds (update_decoded env ctx now params server).1
      unfolding update_decoded after
      update_decoded_keeps none server held = held
      update_decoded_keeps (some (meta, task_id, responses)) server held =
          if_keeps (task_id == "") _ _ held (
            unless_error_keeps (task_capability_error server.extensions meta) server _ held (
              changed_keeps _ server (
                after_keeps now (updates ctx task_id (task_owner ctx meta) responses) server.tasks k
                  r held (other meta))))

      cancel_decoded_keeps :
          (params : Option (RequestMeta × String)) (server : Server)
          → Holds server
          → Holds (cancel_decoded env ctx now params server).1
      unfolding cancel_decoded after
      cancel_decoded_keeps none server held = held
      cancel_decoded_keeps (some (meta, task_id)) server held = if_keeps (task_id == "") _ _ held (
          unless_error_keeps (task_capability_error server.extensions meta) server _ held (
            changed_keeps _ server (
              after_keeps now (cancels ctx task_id (task_owner ctx meta)) server.tasks k r held
                (other meta))))

      identified_keeps :
          (meta : RequestMeta) (text : String) (bytes : Result Message (List ℕ)) (server : Server)
          → Holds server
          → Holds (identified env ctx now random (task_owner ctx meta) text bytes server).1
      unfolding identified after
      identified_keeps meta text (err m) server held = held
      identified_keeps meta text (ok bytes) server held =
          stored_keeps (deferred_record env (hex bytes) (task_owner ctx meta) text now) _ server (
            after_keeps now
              (creates ctx (deferred_record env (hex bytes) (task_owner ctx meta) text now))
              server.tasks k r held (other meta))

      with_text_keeps :
          (meta : RequestMeta) (text : Option String) (server : Server)
          → Holds server
          → Holds (with_text env ctx now random (task_owner ctx meta) text server).1
      unfolding with_text
      with_text_keeps meta none server held = held
      with_text_keeps meta (some text) server held =
          if_keeps (text == "") _ _ held (identified_keeps meta text random server held)

      deferred_keeps :
          (fields : Fields) (meta : RequestMeta) (server : Server)
          → Holds server
          → Holds (deferred env ctx now random fields meta server).1
      unfolding deferred
      deferred_keeps fields meta server held =
          unless_error_keeps (task_capability_error server.extensions meta) server _ held (
            if_keeps (task_owner ctx meta == "") _ _ held
              (with_text_keeps meta (text_argument (get_member "arguments" fields)) server held))

      named_keeps :
          (fields : Fields) (meta : RequestMeta) (name : Option String) (server : Server)
          (made : Outcome)
          → Holds server
          → named_deferred env ctx now random fields meta name server ≡ some made
          → Holds made.1
      unfolding named_deferred
      named_keeps fields meta none server made held h = absurd (cc)
      named_keeps fields meta (some name) server made held h =
          let kept = deferred_keeps fields meta server held in ground arith

      call_keeps :
          (params : Option (Fields × RequestMeta)) (server : Server) (made : Outcome)
          → Holds server
          → call_decoded env ctx now random params server ≡ some made
          → Holds made.1
      unfolding call_decoded
      call_keeps none server made held h = absurd (cc)
      call_keeps (some (fields, meta)) server made held h =
          named_keeps fields meta (string_member "name" fields) server made held h

      pub get_task_keeps :
          (raw : Raw) (server : Server) → Holds server → Holds (get_task env ctx now raw server).1
      unfolding get_task
      get_task_keeps raw server held = get_decoded_keeps (task_params raw) server held

      pub update_task_keeps :
          (raw : Raw) (server : Server)
          → Holds server
          → Holds (update_task env ctx now raw server).1
      unfolding update_task
      update_task_keeps raw server held = update_decoded_keeps (update_params raw) server held

      pub cancel_task_keeps :
          (raw : Raw) (server : Server)
          → Holds server
          → Holds (cancel_task env ctx now raw server).1
      unfolding cancel_task
      cancel_task_keeps raw server held = cancel_decoded_keeps (task_params raw) server held

      pub deferred_echo_keeps :
          (raw : Raw) (server : Server) (made : Outcome)
          → Holds server
          → call_deferred_echo_task env ctx now random raw server ≡ some made
          → Holds made.1
      unfolding call_deferred_echo_task
      deferred_echo_keeps raw server made held h = call_keeps (decode_params raw) server made held h
