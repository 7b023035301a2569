-- ===== src/Tasks/Ownership.antt =====
-- Who can see or change a task: callers other than its owner cannot.
use mcp_from_scratch.Context.{Ctx, ContextError, context_err}
use mcp_from_scratch.Tasks.{
  TaskRecord, Tasks, TaskError, create, get_checked, get, change, save, answer, withdraw, update,
  cancel, Call, creates, gets, updates, cancels, after, run,
}
use mcp_from_scratch.Tasks.Access.{refuses, drops, finds, found}
use mcp_from_scratch.Tasks.Lifecycle.{admitted, create-refused, create-admitted}
use mcp_from_scratch.Base.{
  ℕ, String, ◌≡◌, ap, ◌∙◌, ◌≢◌, inl, inr, Option, none, some, List, [], ◌∷◌, lookup,
  lookup-insert_ne, lookup-remove_ne, Result, ok, err, Result-cases,
}

-- The principal that a call acts for.
abbrev pub caller : Call → String
caller (creates ctx r) = r.owner
caller (gets ctx task_id owner) = owner
caller (updates ctx task_id owner responses) = owner
caller (cancels ctx task_id owner) = owner

module _ (tasks : Tasks) (k : String) (r : TaskRecord) (held : lookup k tasks ≡ some r) where
  fresh_ne : (j : String) → lookup j tasks ≡ none → j ≢ k
  fresh_ne j fresh e = cc (ap (λ i. lookup i tasks) e)

  create_keeps : (ctx : Ctx) (s : TaskRecord) → lookup k (create ctx s tasks).1 ≡ some r
  create_keeps ctx s = elim (Result-cases (create ctx s tasks).0) [
    | inl (e, h) ↦ rw (create-refused ctx s tasks e h) held
    | inr (u, h) ↦
        let (fresh, live, made) = create-admitted ctx s tasks u h in
        rw made (lookup-insert_ne (admitted s) tasks (fresh_ne s.task.task_id fresh) ∙ held)
  ]

  module _ (task_id owner : String) (now : ℕ) (stranger : owner ≢ r.owner) where
    other_key : (s : TaskRecord) → lookup task_id tasks ≡ some s → s.owner ≡ owner → task_id ≢ k
    other_key s found mine e = stranger (cc (ap (λ j. lookup j tasks) e))

    save_keeps :
        (s : TaskRecord) (result : Result TaskError TaskRecord)
        → lookup task_id tasks ≡ some s
        → s.owner ≡ owner
        → lookup k (save task_id tasks result).1 ≡ some r
    unfolding save
    save_keeps s (err e) found mine = held
    save_keeps s (ok t) found mine = lookup-insert_ne t tasks (other_key s found mine) ∙ held

    change_keeps :
        (edit : TaskRecord → Result TaskError TaskRecord) (stopped : Option ContextError)
        → lookup k (change edit stopped task_id owner now tasks).1 ≡ some r
    unfolding change
    change_keeps edit (some e) = held
    change_keeps edit none = elim (found tasks task_id owner now) [
      | refuses e h ↦ rw h held
      | drops s found mine late h ↦ rw h (lookup-remove_ne tasks (other_key s found mine) ∙ held)
      | finds s found mine live h ↦ rw h (save_keeps s (edit s) found mine)
    ]

    get_keeps :
        (stopped : Option ContextError)
        → lookup k (get_checked stopped task_id owner now tasks).1 ≡ some r
    unfolding get_checked
    get_keeps (some e) = held
    get_keeps none = elim (found tasks task_id owner now) [
      | refuses e h ↦ rw h held
      | drops s found mine late h ↦ rw h (lookup-remove_ne tasks (other_key s found mine) ∙ held)
      | finds s found mine live h ↦ rw h held
    ]

pub after_keeps :
    (now : ℕ) (c : Call) (tasks : Tasks) (k : String) (r : TaskRecord)
    → lookup k tasks ≡ some r
    → caller c ≢ r.owner
    → lookup k (after now c tasks) ≡ some r
unfolding after get update cancel
after_keeps now (creates ctx s) tasks k r held stranger = create_keeps tasks k r held ctx s
after_keeps now (gets ctx task_id owner) tasks k r held stranger =
    get_keeps tasks k r held task_id owner now stranger (context_err ctx)
after_keeps now (updates ctx task_id owner responses) tasks k r held stranger =
    change_keeps tasks k r held task_id owner now stranger (answer responses now) (context_err ctx)
after_keeps now (cancels ctx task_id owner) tasks k r held stranger =
    change_keeps tasks k r held task_id owner now stranger (withdraw now) (context_err ctx)

abbrev pub AllBy : (String → Type 0) → List (ℕ × Call) → Type 0
AllBy P [] = Unit {0}
AllBy P ((now, c) ∷ cs) = P (caller c) × AllBy P cs

-- A stored task outlives, unchanged, any history of calls that act for principals other than its
-- owner: nobody else can complete, cancel, replace or expire it.
pub run_by_others_keeps :
    (cs : List (ℕ × Call)) (tasks : Tasks) (k : String) (r : TaskRecord)
    → lookup k tasks ≡ some r
    → AllBy (λ owner. owner ≢ r.owner) cs
    → lookup k (run cs tasks) ≡ some r
unfolding run
run_by_others_keeps [] tasks k r held others = held
run_by_others_keeps ((now, c) ∷ cs) tasks k r held others =
    run_by_others_keeps cs (after now c tasks) k r (after_keeps now c tasks k r held others.0)
      others.1
