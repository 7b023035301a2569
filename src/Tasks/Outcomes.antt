-- ===== src/Tasks/Outcomes.antt =====
-- What the calls of the repository return, and when.
use mcp_from_scratch.Protocol.Tasks.{DetailedTask, input_required, terminal, validate_task}
use mcp_from_scratch.Context.{Ctx, context_err}
use mcp_from_scratch.Tasks.{
  TaskRecord, Tasks, TaskError, expired, lookup_locked, foreign, expired_task, admit, create,
  create_checked, create_valid, store, get_checked, get, finish, change, save, answer, requested,
  approved, approves, complete, update, deferred_echo_input_key,
}
use mcp_from_scratch.Tasks.Access.{refuses, drops, finds, found}
use mcp_from_scratch.Tasks.Lifecycle.{admitted, create-admitted, answer_completes}
use mcp_from_scratch.Base.{
  ℕ, String, ◌≡◌, refl, sym, ap, ◌∙◌, ◌≢◌, inl, inr, true, false, none, some, [], ◌∷◌, arith,
  eq_iff, eq_refl, Option-cases, is_some, Map, lookup, insert, remove, lookup-insert, lookup-remove,
  Result, ok, err, Result-cases, ok_injective,
}
use mcp_from_scratch.Json.{Raw}

module _ (tasks : Tasks) (task_id owner : String) (now : ℕ) where
  lookup_locked-ok :
      (s : TaskRecord)
      → (lookup_locked tasks task_id owner now).0 ≡ ok s
      → (lookup task_id tasks ≡ some s)
        × (s.owner ≡ owner)
        × (expired s.task now ≡ false)
        × ((lookup_locked tasks task_id owner now).1 ≡ tasks)
  lookup_locked-ok s h = elim (found tasks task_id owner now) [
    | refuses e l ↦ absurd (cc (ap (λ p. p.0) l))
    | drops r held mine late l ↦ absurd (cc (ap (λ p. p.0) l))
    | finds r held mine live l ↦
        let same : s ≡ r = ok_injective (sym h ∙ ap (λ p. p.0) l) in
        rw same (held, mine, live, ap (λ p. p.1) l)
  ]

  lookup_locked-finds :
      (s : TaskRecord)
      → task_id ≢ ""
      → owner ≢ ""
      → lookup task_id tasks ≡ some s
      → s.owner ≡ owner
      → expired s.task now ≡ false
      → lookup_locked tasks task_id owner now ≡ (ok s, tasks)
  unfolding lookup_locked admit
  lookup_locked-finds s named known held mine live =
      ground (arith, eq_iff task_id "", eq_iff owner "", eq_iff s.owner owner)

  lookup_locked-foreign :
      (s : TaskRecord)
      → task_id ≢ ""
      → lookup task_id tasks ≡ some s
      → s.owner ≢ owner
      → lookup_locked tasks task_id owner now ≡ (err foreign, tasks)
  unfolding lookup_locked admit
  lookup_locked-foreign s named held other = ground (arith, eq_iff task_id "", eq_iff s.owner owner)

  lookup_locked-expired :
      (s : TaskRecord)
      → task_id ≢ ""
      → owner ≢ ""
      → lookup task_id tasks ≡ some s
      → s.owner ≡ owner
      → expired s.task now ≡ true
      → lookup_locked tasks task_id owner now ≡ (err expired_task, remove task_id tasks)
  unfolding lookup_locked admit
  lookup_locked-expired s named known held mine late =
      ground (arith, eq_iff task_id "", eq_iff owner "", eq_iff s.owner owner)

-- A task that Get returns is the one stored under its identifier, is the caller's, and its time is not
-- over; the store is as it was.
pub get-ok :
    (ctx : Ctx) (task_id owner : String) (now : ℕ) (tasks : Tasks) (s : TaskRecord)
    → (get ctx task_id owner now tasks).0 ≡ ok s
    → (lookup task_id tasks ≡ some s)
      × (s.owner ≡ owner)
      × (expired s.task now ≡ false)
      × ((get ctx task_id owner now tasks).1 ≡ tasks)
unfolding get get_checked
get-ok ctx task_id owner now tasks s h = elim (Option-cases (context_err ctx)) [
  | inl e ↦
      rw (e, get_checked) (lookup_locked-ok tasks task_id owner now s (rw (e, get_checked) at h))
  | inr (c, e) ↦ absurd (cc (rw (e, get_checked) at h))
]

-- Every response of the list is an acceptance of the approval.
abbrev pub AllApprove : Map Raw → Type 0
AllApprove [] = Unit {0}
AllApprove ((key, raw) ∷ rest) =
    (key ≡ deferred_echo_input_key) × (approves raw ≡ true) × AllApprove rest

approved-ok :
    (responses : Map Raw) (u : Unit {0}) → approved responses ≡ ok u → AllApprove responses
unfolding approved
approved-ok [] u h = tt
approved-ok ((key, raw) ∷ rest) u h =
    ground (arith, eq_iff key deferred_echo_input_key, approved-ok rest u)

answer-approved :
    (responses : Map Raw) (now : ℕ) (r s : TaskRecord)
    → answer responses now r ≡ ok s
    → (responses ≢ []) × (approved responses ≡ ok tt)
unfolding answer
answer-approved [] now r s h = ground arith
answer-approved (p ∷ rest) now r s h = (
  (λ e. cc),
  ground (
    arith,
    Result-cases (requested r.task.input_requests (p ∷ rest)),
    Result-cases (approved (p ∷ rest)),
  ),
)

finish-ok :
    (edit : TaskRecord → Result TaskError TaskRecord) (task_id : String)
    (o : Result TaskError TaskRecord × Tasks) (s : TaskRecord)
    → (finish edit task_id o).0 ≡ ok s
    → (r : TaskRecord) × (o.0 ≡ ok r)
      × (edit r ≡ ok s)
      × ((finish edit task_id o).1 ≡ insert task_id s o.1)
unfolding finish save
finish-ok edit task_id (err e, left) s h = absurd (cc)
finish-ok edit task_id (ok r, left) s h = elim (Result-cases (edit r)) [
  | inl (e, x) ↦ absurd (cc (rw (x, save) at h))
  | inr (t, x) ↦
      let same : t ≡ s = ok_injective (rw (x, save) at h) in
      (r, refl, x ∙ ap ok same, rw (x, save) (rw same))
]

-- Update succeeds only for the owner of a live task that waits for input, when every response given
-- is an acceptance of the approval; it then stores the completed task and returns it.
pub update-ok :
    (ctx : Ctx) (task_id owner : String) (responses : Map Raw) (now : ℕ) (tasks : Tasks)
    (s : TaskRecord)
    → (update ctx task_id owner responses now tasks).0 ≡ ok s
    → (r : TaskRecord) × (lookup task_id tasks ≡ some r)
      × (r.owner ≡ owner)
      × (expired r.task now ≡ false)
      × (r.task.status ≡ input_required)
      × (responses ≢ [])
      × AllApprove responses
      × (s ≡ complete responses now r)
      × ((update ctx task_id owner responses now tasks).1 ≡ insert task_id s tasks)
unfolding update change
update-ok ctx task_id owner responses now tasks s h = elim (Option-cases (context_err ctx)) [
  | inr (c, e) ↦ absurd (cc (rw (e, change) at h))
  | inl e ↦
      let (r, found, edited, stored) =
        finish-ok (answer responses now) task_id (lookup_locked tasks task_id owner now) s
          (rw (e, change) at h) in
      let (held, mine, live, left) = lookup_locked-ok tasks task_id owner now r found in
      let (waits, same) = answer_completes responses now r s edited in
      let (given, accepts) = answer-approved responses now r s edited in
      (
        r,
        held,
        mine,
        live,
        waits,
        given,
        approved-ok responses tt accepts,
        same,
        rw (e, change) (stored ∙ ap (insert task_id s) left),
      )
]

-- In a context that has not ended, the owner's single response to the approval that a live task waits
-- for, if it accepts with confirm=true, completes the task, and the completed task is stored.
pub update_approval :
    (ctx : Ctx) (task_id owner : String) (raw : Raw) (now : ℕ) (tasks : Tasks) (r : TaskRecord)
    → context_err ctx ≡ none
    → task_id ≢ ""
    → owner ≢ ""
    → lookup task_id tasks ≡ some r
    → r.owner ≡ owner
    → expired r.task now ≡ false
    → r.task.status ≡ input_required
    → is_some (lookup deferred_echo_input_key r.task.input_requests) ≡ true
    → raw ≢ none
    → approves raw ≡ true
    → let s = complete ((deferred_echo_input_key, raw) ∷ []) now r in
      update ctx task_id owner ((deferred_echo_input_key, raw) ∷ []) now tasks
      ≡ (ok s, insert task_id s tasks)
unfolding update change finish save answer requested approved terminal
update_approval ctx task_id owner raw now tasks r running named known held mine live waits asked
      json accepts =
    rw running (
      rw (lookup_locked-finds tasks task_id owner now r named known held mine live)
        (ground (arith, eq_refl deferred_echo_input_key)))

validate_task-named :
    (task : DetailedTask) (u : Unit {0}) → validate_task task ≡ ok u → task.task_id ≢ ""
unfolding validate_task
validate_task-named task u h = ground (arith, eq_iff task.task_id "")

create-named :
    (ctx : Ctx) (r : TaskRecord) (tasks : Tasks) (u : Unit {0})
    → (create ctx r tasks).0 ≡ ok u
    → (r.owner ≢ "") × (r.task.task_id ≢ "")
unfolding create create_checked create_valid
create-named ctx r tasks u h = elim (Result-cases (validate_task r.task)) [
  | inl (e, v) ↦ absurd (ground (arith))
  | inr (w, v) ↦ (ground (arith, eq_iff r.owner ""), validate_task-named r.task w v)
]

created_stored :
    (ctx : Ctx) (r : TaskRecord) (tasks : Tasks) (u : Unit {0})
    → (create ctx r tasks).0 ≡ ok u
    → lookup r.task.task_id (create ctx r tasks).1 ≡ some (admitted r)
created_stored ctx r tasks u h =
    let (fresh, live, made) = create-admitted ctx r tasks u h in rw (made, lookup-insert, eq_refl)

-- Until its time is over a task that was created is read back by its owner, in a context that has not
-- ended, as it was given, without any responses, and reading it changes nothing.
pub get-create :
    (ctx : Ctx) (r : TaskRecord) (tasks : Tasks) (u : Unit {0}) (now : ℕ)
    → context_err ctx ≡ none
    → (create ctx r tasks).0 ≡ ok u
    → expired r.task now ≡ false
    → get ctx r.task.task_id r.owner now (create ctx r tasks).1
      ≡ (ok (admitted r), (create ctx r tasks).1)
unfolding get get_checked expired
get-create ctx r tasks u now running h live =
    let (known, named) = create-named ctx r tasks u h in
    rw (running, get_checked)
      (lookup_locked-finds _ r.task.task_id r.owner now (admitted r) named known
        (created_stored ctx r tasks u h) refl live)

-- Once the time of a task that was created is over, its owner's read, in a context that has not ended,
-- reports the expiry and deletes it.
pub get-create-expired :
    (ctx : Ctx) (r : TaskRecord) (tasks : Tasks) (u : Unit {0}) (now : ℕ)
    → context_err ctx ≡ none
    → (create ctx r tasks).0 ≡ ok u
    → expired r.task now ≡ true
    → ((get ctx r.task.task_id r.owner now (create ctx r tasks).1).0 ≡ err expired_task)
      × (lookup r.task.task_id (get ctx r.task.task_id r.owner now (create ctx r tasks).1).1 ≡ none)
unfolding get get_checked expired
get-create-expired ctx r tasks u now running h late =
    let (known, named) = create-named ctx r tasks u h in
    let e =
      lookup_locked-expired _ r.task.task_id r.owner now (admitted r) named known
        (created_stored ctx r tasks u h) refl late in
    rw (running, get_checked)
      (ap (λ p. p.0) e, ap (λ p. lookup r.task.task_id p.1) e ∙ rw (lookup-remove, eq_refl))

pub get-finds :
    (ctx : Ctx) (task_id owner : String) (now : ℕ) (tasks : Tasks) (s : TaskRecord)
    → context_err ctx ≡ none
    → task_id ≢ ""
    → owner ≢ ""
    → lookup task_id tasks ≡ some s
    → s.owner ≡ owner
    → expired s.task now ≡ false
    → get ctx task_id owner now tasks ≡ (ok s, tasks)
unfolding get get_checked
get-finds ctx task_id owner now tasks s running named known held mine live =
    rw (running, get_checked)
      (lookup_locked-finds tasks task_id owner now s named known held mine live)

pub create-stores :
    (ctx : Ctx) (r : TaskRecord) (tasks : Tasks)
    → context_err ctx ≡ none
    → r.owner ≢ ""
    → validate_task r.task ≡ ok tt
    → terminal r.task.status ≡ false
    → lookup r.task.task_id tasks ≡ none
    → create ctx r tasks ≡ (ok tt, insert r.task.task_id (admitted r) tasks)
unfolding create create_checked create_valid store
create-stores ctx r tasks running known well_formed live fresh =
    rw (running, create_checked, well_formed, create_valid, live, fresh, store)
      (ground (arith, eq_iff r.owner ""))
