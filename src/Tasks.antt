-- ===== src/Tasks.antt =====
-- MemoryTaskRepository of internal/mcpserver/tasks.go. A method takes the map of tasks and the time
-- of the clock, in nanoseconds, and returns its result and the map as it leaves it; the mutex makes
-- each call one step. Values are immutable here, so the copies that cloneRecord makes are the values.
pub mod Access
pub mod Lifecycle
pub mod Ownership
pub mod Outcomes
pub mod Expiry
use mcp_from_scratch.Base.Decimal.{ℤ, pos, negsuc}
use mcp_from_scratch.Json.Decode.{as_struct, string_member, bool_member, struct_member}
use mcp_from_scratch.Json.Decode.{◌>>=◌ as bind}
use mcp_from_scratch.Protocol.Errors.{Message, plain, quoting}
use mcp_from_scratch.Protocol.Tasks.{
  DetailedTask, TaskInputRequest, TaskStatus, input_required, completed, cancelled, terminal,
  Timestamp, empty, malformed, instant, validate_task,
}
use mcp_from_scratch.Context.{Ctx, ContextError, context_err}
use mcp_from_scratch.Envelope.{ToolResult, marshal_tool_result}
use mcp_from_scratch.Base.{
  ℕ, ◌+◌, ◌-◌, ◌*◌, ◌%◌, ◌^◌, String, Bool, true, false, not, ◌&&◌, ◌||◌, Option, none, some, List,
  [], ◌∷◌, arith, ◌==◌, ltb, leb, if◌then◌else◌, is_some, Map, lookup, insert, remove, Result, ok,
  err,
}
use mcp_from_scratch.Base.{◌>>=◌}
use mcp_from_scratch.Json.{Json, Raw}

pub record TaskRecord : Type 0 where
  pub task : DetailedTask
  pub owner : String
  pub metadata : Map String

abbrev pub Tasks : Type 0
Tasks = Map TaskRecord

pub data TaskError : Type 0 where
  not_found expired_task foreign terminal_task : TaskError
  context : ContextError → TaskError
  failure : Message → TaskError

abbrev pub deferred_echo_input_key : String
deferred_echo_input_key = "approval"

-- time.Duration(ms) * time.Millisecond, an int64: the bits of a wrapped product.
abbrev pub duration_bits : ℕ → ℕ
duration_bits ms = ms * 1000000 % 2 ^ 64

-- !now.Before(created.Add(d)) for the duration with these bits.
abbrev reached : ℕ → ℕ → ℕ → Bool
reached bits created now =
    if ltb bits (2 ^ 63) then leb (created + bits) now else leb created (now + (2 ^ 64 - bits))

abbrev expired_at : ℕ → Timestamp → ℕ → Bool
expired_at ms empty now = true
expired_at ms (malformed s) now = true
expired_at ms (instant created) now = reached (duration_bits ms) created now

abbrev expired_ttl : Option ℤ → Timestamp → ℕ → Bool
expired_ttl none created now = false
expired_ttl (some (negsuc n)) created now = false
expired_ttl (some (pos ms)) created now = expired_at ms created now

unfoldable pub expired : DetailedTask → ℕ → Bool
expired task now = expired_ttl task.ttl_ms task.created_at now

module _ (tasks : Tasks) (task_id owner : String) (now : ℕ) where
  admit : TaskRecord → Result TaskError TaskRecord × Tasks
  admit r =
      if owner == "" || not (r.owner == owner)
      then (err foreign, tasks)
      else if expired r.task now
      then (err expired_task, remove task_id tasks)
      else (ok r, tasks)

  -- A task that has expired is deleted by the lookup that finds it.
  unfoldable pub lookup_locked : Result TaskError TaskRecord × Tasks
  unfolding admit
  lookup_locked =
      if task_id == ""
      then (err not_found, tasks)
      else elim (lookup task_id tasks) [ none ↦ (err not_found, tasks) | some r ↦ admit r ]

abbrev refused {ℓ} : {A : Type ℓ} → TaskError → Tasks → Result TaskError A × Tasks
refused e tasks = (err e, tasks)

store : TaskRecord → Tasks → Result TaskError (Unit {0}) × Tasks
store r tasks =
    if is_some (lookup r.task.task_id tasks)
    then (err (failure (quoting "task " r.task.task_id " already exists")), tasks)
    else (
      ok tt,
      insert r.task.task_id (record r { task = record r.task { input_responses = [] } }) tasks,
    )

create_valid : Result Message (Unit {0}) → TaskRecord → Tasks → Result TaskError (Unit {0}) × Tasks
unfolding store
create_valid (err m) r tasks = (err (failure m), tasks)
create_valid (ok u) r tasks =
    if terminal r.task.status
    then (err (failure (plain "new task cannot be terminal")), tasks)
    else store r tasks

create_checked : Option ContextError → TaskRecord → Tasks → Result TaskError (Unit {0}) × Tasks
unfolding create_valid
create_checked (some e) r tasks = (err (context e), tasks)
create_checked none r tasks =
    if r.owner == ""
    then (err (failure (plain "task owner is required")), tasks)
    else create_valid (validate_task r.task) r tasks

unfoldable pub create : Ctx → TaskRecord → Tasks → Result TaskError (Unit {0}) × Tasks
unfolding create_checked
create ctx r tasks = create_checked (context_err ctx) r tasks

get_checked :
    Option ContextError → String → String → ℕ → Tasks → Result TaskError TaskRecord × Tasks
get_checked (some e) task_id owner now tasks = (err (context e), tasks)
get_checked none task_id owner now tasks = lookup_locked tasks task_id owner now

unfoldable pub get : Ctx → String → String → ℕ → Tasks → Result TaskError TaskRecord × Tasks
unfolding get_checked
get ctx = get_checked (context_err ctx)

-- The first loop of Update: every key was requested, and its value is JSON (`some`).
requested : Map TaskInputRequest → Map Raw → Result TaskError (Unit {0})
requested requests [] = ok tt
requested requests ((key, raw) ∷ rest) =
    let next = requested requests rest in
    if not (is_some (lookup key requests))
    then err (failure (quoting "input response " key " was not requested"))
    else if not (is_some raw)
    then err (failure (quoting "input response " key " is invalid JSON"))
    else next

abbrev accepted : Option (String × Bool) → Bool
accepted none = false
accepted (some (action, confirm)) = action == "accept" && confirm

-- {"action": "accept", "content": {"confirm": true}}
unfoldable pub approves : Raw → Bool
approves raw = accepted (
    bind (as_struct raw) λ fields. bind (string_member "action" fields) λ action.
      bind (struct_member "content" fields)
        λ content. bind (bool_member "confirm" content) λ confirm. some (action, confirm))

-- The second loop of Update.
approved : Map Raw → Result TaskError (Unit {0})
approved [] = ok tt
approved ((key, raw) ∷ rest) =
    let next = approved rest in
    if not (key == deferred_echo_input_key)
    then err (failure (quoting "unsupported input response " key ""))
    else if not (approves raw)
    then err (failure (plain "approval must accept with confirm=true"))
    else next

abbrev echo_text : Option String → String
echo_text none = "deferred echo approved"
echo_text (some t) = if t == "" then "deferred echo approved" else t

abbrev pub text_result : String → ToolResult
text_result t = record {
  result_type = "complete";
  content = record { type = "text"; text = t } ∷ [];
  structured_content = none;
  is_error = false;
  input_requests = [];
  request_state = "";
}

abbrev json_values : Map Raw → Map Json
json_values [] = []
json_values ((k, none) ∷ m) = json_values m
json_values ((k, some v) ∷ m) = (k, v) ∷ json_values m

unfoldable pub complete : Map Raw → ℕ → TaskRecord → TaskRecord
complete responses now r = record r {
  task = record r.task {
    input_responses = json_values responses;
    input_requests = [];
    status = completed;
    status_message = "deferred echo completed";
    last_updated_at = instant now;
    result =
        some
          (marshal_tool_result (text_result (echo_text (lookup "deferred_echo_text" r.metadata))));
  };
}

abbrev awaits_input : TaskStatus → Bool
awaits_input input_required = true
awaits_input _ = false

abbrev no_entry : Map Raw → Bool
no_entry [] = true
no_entry (e ∷ m) = false

pub answer : Map Raw → ℕ → TaskRecord → Result TaskError TaskRecord
unfolding requested approved complete
answer responses now r =
    if terminal r.task.status
    then err terminal_task
    else if not (awaits_input r.task.status)
    then err (failure (plain "task is not awaiting input"))
    else if no_entry responses
    then err (failure (plain "inputResponses is required"))
    else do
      _ ← requested r.task.input_requests responses
      _ ← approved responses
      ok (complete responses now r)

-- r.tasks[taskID] = record, if the record could be changed.
save : String → Tasks → Result TaskError TaskRecord → Result TaskError TaskRecord × Tasks
save task_id tasks (err e) = (err e, tasks)
save task_id tasks (ok r) = (ok r, insert task_id r tasks)

finish :
    (TaskRecord → Result TaskError TaskRecord)
    → String
    → Result TaskError TaskRecord × Tasks
    → Result TaskError TaskRecord × Tasks
unfolding save
finish edit task_id (found, left) = save task_id left (found >>= edit)

-- Update and Cancel: the lookup, then the edit of the record that it finds.
change :
    (TaskRecord → Result TaskError TaskRecord)
    → Option ContextError
    → String
    → String
    → ℕ
    → Tasks
    → Result TaskError TaskRecord × Tasks
unfolding finish
change edit (some e) task_id owner now tasks = (err (context e), tasks)
change edit none task_id owner now tasks =
    finish edit task_id (lookup_locked tasks task_id owner now)

unfoldable pub update :
    Ctx → String → String → Map Raw → ℕ → Tasks → Result TaskError TaskRecord × Tasks
unfolding change answer
update ctx task_id owner responses now tasks =
    change (answer responses now) (context_err ctx) task_id owner now tasks

cancelled_record : ℕ → TaskRecord → TaskRecord
cancelled_record now r = record r {
  task = record r.task {
    input_requests = [];
    status = cancelled;
    status_message = "task cancelled";
    last_updated_at = instant now;
  };
}

withdraw : ℕ → TaskRecord → Result TaskError TaskRecord
unfolding cancelled_record
withdraw now r = if terminal r.task.status then err terminal_task else ok (cancelled_record now r)

unfoldable pub cancel : Ctx → String → String → ℕ → Tasks → Result TaskError TaskRecord × Tasks
unfolding change withdraw
cancel ctx task_id owner now tasks = change (withdraw now) (context_err ctx) task_id owner now tasks

-- One call of the repository, as the server makes it.
pub data Call : Type 0 where
  creates : Ctx → TaskRecord → Call
  gets : Ctx → String → String → Call
  updates : Ctx → String → String → Map Raw → Call
  cancels : Ctx → String → String → Call

unfoldable pub after : ℕ → Call → Tasks → Tasks
after now (creates ctx r) tasks = (create ctx r tasks).1
after now (gets ctx task_id owner) tasks = (get ctx task_id owner now tasks).1
after now (updates ctx task_id owner responses) tasks =
    (update ctx task_id owner responses now tasks).1
after now (cancels ctx task_id owner) tasks = (cancel ctx task_id owner now tasks).1

-- A history: calls with the times at which they run.
unfoldable pub run : List (ℕ × Call) → Tasks → Tasks
unfolding after
run [] tasks = tasks
run ((now, c) ∷ cs) tasks = run cs (after now c tasks)
