-- ===== src/Tasks/Lifecycle.antt =====
-- Every call of the repository moves the task under a key along the lifecycle of
-- internal/protocol/tasks.go, or leaves it alone.
use mcp_from_scratch.Protocol.Tasks.{input_required, completed, cancelled, terminal}
use mcp_from_scratch.Context.{Ctx, ContextError, context_err}
use mcp_from_scratch.Tasks.{
  TaskRecord, Tasks, TaskError, expired, lookup_locked, store, create_valid, create_checked, create,
  get_checked, get, save, change, requested, approved, complete, answer, withdraw, cancelled_record,
  terminal_task, update, cancel, Call, creates, gets, updates, cancels, after,
}
use mcp_from_scratch.Tasks.Access.{refuses, drops, finds, found}
use mcp_from_scratch.Base.{
  ℕ, String, ◌≡◌, refl, ap, subst, ◌∙◌, inl, inr, true, false, Option, none, some, [], arith, ◌==◌,
  eq_iff, Bool-cases, Option-cases, Map, lookup, insert, lookup-insert, lookup-remove, Result, ok,
  err, Result-cases,
}
use mcp_from_scratch.Json.{Raw}

-- What a task keeps for its whole life.
pub record Same (r s : TaskRecord) : Type 0 where
  pub same_owner : s.owner ≡ r.owner
  pub same_id : s.task.task_id ≡ r.task.task_id
  pub same_birth : s.task.created_at ≡ r.task.created_at
  pub same_ttl : s.task.ttl_ms ≡ r.task.ttl_ms

-- One step of the task under a key at a time: nothing, creation, deletion once its time is over,
-- completion of a task that waited for input, or cancellation of one that was not terminal.
pub data Move (now : ℕ) (before later : Option TaskRecord) : Type 0 where
  stays : later ≡ before → Move now before later
  born :
      (r : TaskRecord)
      → before ≡ none
      → later ≡ some r
      → terminal r.task.status ≡ false
      → Move now before later
  lapses :
      (r : TaskRecord)
      → before ≡ some r
      → later ≡ none
      → expired r.task now ≡ true
      → Move now before later
  completes :
      (r s : TaskRecord)
      → before ≡ some r
      → later ≡ some s
      → r.task.status ≡ input_required
      → s.task.status ≡ completed
      → Same r s
      → s.task.input_requests ≡ []
      → expired r.task now ≡ false
      → Move now before later
  is_cancelled :
      (r s : TaskRecord)
      → before ≡ some r
      → later ≡ some s
      → terminal r.task.status ≡ false
      → s.task.status ≡ cancelled
      → Same r s
      → s.task.input_requests ≡ []
      → expired r.task now ≡ false
      → Move now before later

abbrev pub MovesAt : ℕ → String → Tasks → Tasks → Type 0
MovesAt now k before later = Move now (lookup k before) (lookup k later)

-- The record that Create stores.
abbrev pub admitted : TaskRecord → TaskRecord
admitted r = record r { task = record r.task { input_responses = [] } }

pub create-refused :
    (ctx : Ctx) (r : TaskRecord) (tasks : Tasks) (e : TaskError)
    → (create ctx r tasks).0 ≡ err e
    → (create ctx r tasks).1 ≡ tasks
unfolding create create_checked create_valid store
create-refused ctx r tasks e h = ground arith

pub create-admitted :
    (ctx : Ctx) (r : TaskRecord) (tasks : Tasks) (u : Unit {0})
    → (create ctx r tasks).0 ≡ ok u
    → (lookup r.task.task_id tasks ≡ none)
      × (terminal r.task.status ≡ false)
      × ((create ctx r tasks).1 ≡ insert r.task.task_id (admitted r) tasks)
unfolding create create_checked create_valid store
create-admitted ctx r tasks u h = ground (arith, Option-cases (lookup r.task.task_id tasks))

create-Move :
    (ctx : Ctx) (r : TaskRecord) (now : ℕ) (tasks : Tasks) (k : String)
    → MovesAt now k tasks (create ctx r tasks).1
create-Move ctx r now tasks k = elim (Result-cases (create ctx r tasks).0) [
  | inl (e, h) ↦ rw (create-refused ctx r tasks e h) (stays refl)
  | inr (u, h) ↦
      let (fresh, live, made) = create-admitted ctx r tasks u h in
      rw (made, lookup-insert r.task.task_id k (admitted r) tasks)
        (elim (Bool-cases (r.task.task_id == k)) [
          | inl e ↦ rw e (
              born (admitted r)
                (subst (λ j. lookup j tasks ≡ none) ((eq_iff r.task.task_id k).0 e) fresh) refl
                live)
          | inr e ↦ rw e (stays refl)
        ])
]

lookup_locked-Move :
    (tasks : Tasks) (task_id owner : String) (now : ℕ) (k : String)
    → MovesAt now k tasks (lookup_locked tasks task_id owner now).1
lookup_locked-Move tasks task_id owner now k = elim (found tasks task_id owner now) [
  | refuses e h ↦ rw h (stays refl)
  | drops r held mine late h ↦
      rw (h, lookup-remove task_id k tasks)
        (elim (Bool-cases (task_id == k)) [
          | inl e ↦ rw e (
              lapses r (subst (λ j. lookup j tasks ≡ some r) ((eq_iff task_id k).0 e) held) refl
                late)
          | inr e ↦ rw e (stays refl)
        ])
  | finds r held mine live h ↦ rw h (stays refl)
]

-- What an edit of a found record may do.
pub data Edits (now : ℕ) (r : TaskRecord) (result : Result TaskError TaskRecord) : Type 0 where
  fails : (e : TaskError) → result ≡ err e → Edits now r result
  completing :
      (s : TaskRecord)
      → result ≡ ok s
      → r.task.status ≡ input_required
      → s.task.status ≡ completed
      → Same r s
      → s.task.input_requests ≡ []
      → Edits now r result
  cancelling :
      (s : TaskRecord)
      → result ≡ ok s
      → terminal r.task.status ≡ false
      → s.task.status ≡ cancelled
      → Same r s
      → s.task.input_requests ≡ []
      → Edits now r result

saved :
    (now : ℕ) (tasks : Tasks) (task_id k : String) (r : TaskRecord)
    (result : Result TaskError TaskRecord)
    → lookup task_id tasks ≡ some r
    → expired r.task now ≡ false
    → Edits now r result
    → MovesAt now k tasks (save task_id tasks result).1
unfolding save
saved now tasks task_id k r result held live (fails e h) = rw h (stays refl)
saved now tasks task_id k r result held live (completing s h b c d f) =
    rw (h, save, lookup-insert task_id k s tasks)
      (elim (Bool-cases (task_id == k)) [
        | inl e ↦ rw e (
            completes r s (subst (λ j. lookup j tasks ≡ some r) ((eq_iff task_id k).0 e) held) refl
              b c d f live)
        | inr e ↦ rw e (stays refl)
      ])
saved now tasks task_id k r result held live (cancelling s h b c d f) =
    rw (h, save, lookup-insert task_id k s tasks)
      (elim (Bool-cases (task_id == k)) [
        | inl e ↦ rw e (
            is_cancelled r s (subst (λ j. lookup j tasks ≡ some r) ((eq_iff task_id k).0 e) held)
              refl b c d f live)
        | inr e ↦ rw e (stays refl)
      ])

change-Move :
    (edit : TaskRecord → Result TaskError TaskRecord) (stopped : Option ContextError)
    (task_id owner : String) (now : ℕ) (tasks : Tasks) (k : String)
    → ((r : TaskRecord) → Edits now r (edit r))
    → MovesAt now k tasks (change edit stopped task_id owner now tasks).1
unfolding change
change-Move edit (some e) task_id owner now tasks k edits = stays refl
change-Move edit none task_id owner now tasks k edits = elim (found tasks task_id owner now) [
  | refuses e h ↦ rw h (stays refl)
  | drops r held mine late h ↦ rw h (rw h at (lookup_locked-Move tasks task_id owner now k))
  | finds r held mine live h ↦ rw h (saved now tasks task_id k r (edit r) held live (edits r))
]

withdraw-Edits : (now : ℕ) (r : TaskRecord) → Edits now r (withdraw now r)
unfolding withdraw
withdraw-Edits now r = elim (Bool-cases (terminal r.task.status)) [
  | inl over ↦ fails terminal_task (rw over)
  | inr live ↦
      cancelling (cancelled_record now r) (rw live) live refl
        (record { same_owner = refl; same_id = refl; same_birth = refl; same_ttl = refl }) refl
]

pub answer_completes :
    (responses : Map Raw) (now : ℕ) (r s : TaskRecord)
    → answer responses now r ≡ ok s
    → (r.task.status ≡ input_required) × (s ≡ complete responses now r)
unfolding answer
answer_completes responses now r s h = ground (
  arith,
  Result-cases (requested r.task.input_requests responses),
  Result-cases (approved responses),
)

answer-Edits :
    (responses : Map Raw) (now : ℕ) (r : TaskRecord) → Edits now r (answer responses now r)
unfolding complete
answer-Edits responses now r = elim (Result-cases (answer responses now r)) [
  | inl (e, h) ↦ fails e h
  | inr (s, h) ↦
      let (waits, same) = answer_completes responses now r s h in
      completing (complete responses now r) (h ∙ ap ok same) waits refl
        (record { same_owner = refl; same_id = refl; same_birth = refl; same_ttl = refl }) refl
]

get-Move :
    (stopped : Option ContextError) (task_id owner : String) (now : ℕ) (tasks : Tasks) (k : String)
    → MovesAt now k tasks (get_checked stopped task_id owner now tasks).1
unfolding get_checked
get-Move (some e) task_id owner now tasks k = stays refl
get-Move none task_id owner now tasks k = lookup_locked-Move tasks task_id owner now k

-- Every call moves the task under every key by one step of the lifecycle.
pub after-Move :
    (now : ℕ) (c : Call) (tasks : Tasks) (k : String) → MovesAt now k tasks (after now c tasks)
unfolding after update cancel get get_checked
after-Move now (creates ctx r) tasks k = create-Move ctx r now tasks k
after-Move now (gets ctx task_id owner) tasks k =
    get-Move (context_err ctx) task_id owner now tasks k
after-Move now (updates ctx task_id owner responses) tasks k =
    change-Move (answer responses now) (context_err ctx) task_id owner now tasks k
      (answer-Edits responses now)
after-Move now (cancels ctx task_id owner) tasks k =
    change-Move (withdraw now) (context_err ctx) task_id owner now tasks k (withdraw-Edits now)
