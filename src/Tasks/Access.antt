-- ===== src/Tasks/Access.antt =====
-- What a lookup of the repository can do, and who can see or change a task.
use mcp_from_scratch.Context.{Ctx, context_err}
use mcp_from_scratch.Tasks.{
  TaskRecord, Tasks, TaskError, not_found, expired_task, foreign, expired, lookup_locked, admit,
  get_checked, get,
}
use mcp_from_scratch.Base.{
  ℕ, String, ◌≡◌, inl, inr, true, false, not, ◌||◌, some, arith, ◌==◌, eq_iff, Bool-cases,
  Option-cases, lookup, remove, lookup-remove, ok, err,
}

-- The three outcomes of lookupLocked.
pub data Found (tasks : Tasks) (task_id owner : String) (now : ℕ) : Type 0 where
  refuses :
      (e : TaskError)
      → lookup_locked tasks task_id owner now ≡ (err e, tasks)
      → Found tasks task_id owner now
  drops :
      (r : TaskRecord)
      → lookup task_id tasks ≡ some r
      → r.owner ≡ owner
      → expired r.task now ≡ true
      → lookup_locked tasks task_id owner now ≡ (err expired_task, remove task_id tasks)
      → Found tasks task_id owner now
  finds :
      (r : TaskRecord)
      → lookup task_id tasks ≡ some r
      → r.owner ≡ owner
      → expired r.task now ≡ false
      → lookup_locked tasks task_id owner now ≡ (ok r, tasks)
      → Found tasks task_id owner now

admit-Found :
    (tasks : Tasks) (task_id owner : String) (now : ℕ) (r : TaskRecord)
    → lookup task_id tasks ≡ some r
    → lookup_locked tasks task_id owner now ≡ admit tasks task_id owner now r
    → Found tasks task_id owner now
unfolding admit
admit-Found tasks task_id owner now r held e =
    elim (Bool-cases (owner == "" || not (r.owner == owner))) [
      | inl bad ↦ refuses foreign (rw bad at e)
      | inr good ↦ elim (Bool-cases (expired r.task now)) [
        | inl late ↦ drops r held (ground (arith, eq_iff r.owner owner)) late (rw (good, late) at e)
        | inr live ↦ finds r held (ground (arith, eq_iff r.owner owner)) live (rw (good, live) at e)
      ]
    ]

pub found : (tasks : Tasks) (task_id owner : String) (now : ℕ) → Found tasks task_id owner now
unfolding lookup_locked
found tasks task_id owner now = elim (Bool-cases (task_id == "")) [
  | inl blank ↦ refuses not_found (rw blank)
  | inr named ↦ elim (Option-cases (lookup task_id tasks)) [
    | inl e ↦ refuses not_found (rw (named, e))
    | inr (r, e) ↦ admit-Found tasks task_id owner now r e (rw (named, e))
  ]
]

removed_from :
    (tasks : Tasks) (j k : String) (r : TaskRecord)
    → lookup k (remove j tasks) ≡ some r
    → lookup k tasks ≡ some r
removed_from tasks j k r h = elim (Bool-cases (j == k)) [
  | inl e ↦ absurd (let gone = lookup-remove j k tasks in ground arith)
  | inr e ↦ let same = lookup-remove j k tasks in ground arith
]

-- What a read leaves in the store was there before.
pub get-shrinks :
    (ctx : Ctx) (task_id owner : String) (now : ℕ) (tasks : Tasks) (k : String) (r : TaskRecord)
    → lookup k (get ctx task_id owner now tasks).1 ≡ some r
    → lookup k tasks ≡ some r
unfolding get get_checked
get-shrinks ctx task_id owner now tasks k r h = elim (Option-cases (context_err ctx)) [
  | inr (c, e) ↦ (rw (e, get_checked) at h)
  | inl e ↦
      let h' = (rw (e, get_checked) at h) in
      elim (found tasks task_id owner now) [
        | refuses x l ↦ (rw l at h')
        | drops s held mine late l ↦ removed_from tasks task_id k r (rw l at h')
        | finds s held mine live l ↦ (rw l at h')
      ]
]
