-- ===== src/Tasks/Expiry.antt =====
-- The lifetime of a task, and what the 64-bit product of its milliseconds does to it.
use mcp_from_scratch.Base.Decimal.{pos}
use mcp_from_scratch.Protocol.Tasks.{DetailedTask, instant, terminal}
use mcp_from_scratch.Tasks.{TaskRecord, Tasks, Call, after, run, expired}
use mcp_from_scratch.Tasks.Lifecycle.{
  Move, stays, born, lapses, completes, is_cancelled, after-Move,
}
use mcp_from_scratch.Base.{
  ℕ, ◌+◌, ◌*◌, ◌≤◌, String, ◌≡◌, ◌∙◌, ◌↔◌, true, false, Option, some, List, [], ◌∷◌, arith, lookup,
}

-- The lifetime of a task of at most 9223372036854 ms, some 292 years, from a time of creation that
-- parses, ends exactly at that time plus the lifetime, and not a nanosecond before.
pub expired_exact :
    (task : DetailedTask) (ms created now : ℕ)
    → task.ttl_ms ≡ some (pos ms)
    → task.created_at ≡ instant created
    → ms ≤ 9223372036854
    → (expired task now ≡ true) ↔ (created + ms * 1000000 ≤ now)
unfolding expired
expired_exact task ms created now ttl birth small = rw (ttl, birth, expired) (ground arith)

-- A task whose lifetime is between 9223372036855 ms and 18446744073709 ms has expired at the moment of
-- its creation: the product in nanoseconds is negative as an int64.
pub expired_at_birth :
    (task : DetailedTask) (ms created : ℕ)
    → task.ttl_ms ≡ some (pos ms)
    → task.created_at ≡ instant created
    → 9223372036855 ≤ ms
    → ms ≤ 18446744073709
    → expired task created ≡ true
unfolding expired
expired_at_birth task ms created ttl birth long bounded = rw (ttl, birth, expired) (ground arith)

-- Whether a history ever finds the record under the key expired.
abbrev pub Outlives : TaskRecord → List (ℕ × Call) → Type 0
Outlives r [] = Unit {0}
Outlives r ((now, c) ∷ cs) = (expired r.task now ≡ false) × Outlives r cs

terminal_stays :
    (now : ℕ) (r : TaskRecord) (before later : Option TaskRecord)
    → Move now before later
    → before ≡ some r
    → terminal r.task.status ≡ true
    → expired r.task now ≡ false
    → later ≡ some r
unfolding terminal
terminal_stays now r before later (stays e) b done live = e ∙ b
terminal_stays now r before later (born s e f g) b done live = absurd (cc)
terminal_stays now r before later (lapses s e f late) b done live = absurd (ground (arith))
terminal_stays now r before later (completes s t e f g h i j k) b done live = absurd (ground arith)
terminal_stays now r before later (is_cancelled s t e f g h i j k) b done live =
    absurd (ground arith)

-- A stored task that is completed, failed or cancelled stays as it is under every history of calls, by
-- anybody, none of which comes when its time is over.
pub run-terminal :
    (cs : List (ℕ × Call)) (tasks : Tasks) (k : String) (r : TaskRecord)
    → lookup k tasks ≡ some r
    → terminal r.task.status ≡ true
    → Outlives r cs
    → lookup k (run cs tasks) ≡ some r
unfolding run
run-terminal [] tasks k r held done live = held
run-terminal ((now, c) ∷ cs) tasks k r held done live =
    run-terminal cs (after now c tasks) k r
      (terminal_stays now r (lookup k tasks) (lookup k (after now c tasks))
        (after-Move now c tasks k) held done live.0)
      done live.1
