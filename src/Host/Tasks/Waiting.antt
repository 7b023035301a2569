-- ===== src/Host/Tasks/Waiting.antt =====
-- WaitForHTTPTask of internal/host/tasks.go: when the polling ends, and with what.
use mcp_from_scratch.Base.Decimal.{pos}
use mcp_from_scratch.Protocol.Errors.{Message}
use mcp_from_scratch.Host.Client.{Client}
use mcp_from_scratch.Host.Tasks.{
  TaskSnapshot, status_terminal, poll_nanos, get_http_task, wait_for_http_task,
}
use mcp_from_scratch.Base.{
  ℕ, zero, suc, ◌+◌, ◌*◌, ◌^◌, ◌<◌, ◌≤◌, String, ◌≡◌, refl, subst, ◌⊎◌, inl, inr, Bool, true, false,
  arith, Bool-cases, eq_iff, Result, ok,
}

-- The statuses in which a task ends.
abbrev pub Over : String → Type 0
Over status = (status ≡ "completed") ⊎ (status ≡ "failed") ⊎ (status ≡ "cancelled")

terminal-Over : (status : String) → status_terminal status ≡ true → Over status
terminal-Over status h =
    ground (arith, eq_iff status "completed", eq_iff status "failed", eq_iff status "cancelled")

Over-terminal : (status : String) → Over status → status_terminal status ≡ true
Over-terminal status h =
    ground (arith, eq_iff status "completed", eq_iff status "failed", eq_iff status "cancelled")

poll_nanos-small : (n : ℕ) → 0 < n → n * 1000000 < 2 ^ 63 → poll_nanos (pos n) ≡ n * 1000000
unfolding poll_nanos
poll_nanos-small n some small = ground arith

still : (status : String) → status_terminal status ≡ false → Over status → ⊥
still status open_ over =
    absurd (let e : status_terminal status ≡ true = Over-terminal status over in cc)

not_first :
    (history : ℕ → TaskSnapshot) (k : ℕ)
    → status_terminal (history 0).status ≡ false
    → Over (history k).status
    → (m : ℕ) × (k ≡ suc m)
not_first history zero open_ over = absurd (still (history 0).status open_ over)
not_first history (suc m) open_ over = (m, refl)

earlier :
    (P : ℕ → Type 0) (j : ℕ)
    → (P 0 → ⊥)
    → ((i : ℕ) → i < j → P (suc i) → ⊥)
    → (i : ℕ) → i < suc j
    → P i
    → ⊥
earlier P j now rest zero h p = now p
earlier P j now rest (suc i) h p = rest i (omega arith) p

module _ {W : Type 0} (client : Client W) (pause : ℕ → W → Bool × W) (task_id : String) where
  -- The polls from the identifier on: the i-th asks at the world `at i`, hears `history i` and leaves
  -- the world `heard i`; the task wants an interval of that many milliseconds, positive and within a
  -- Duration, and the timer for it fires and leaves the world of the next poll.
  pub record Polls (id : ℕ) (history : ℕ → TaskSnapshot) (interval : ℕ → ℕ) (at heard : ℕ → W)
      : Type 0 where
    pub hears : (i : ℕ) → get_http_task client (id + i) task_id (at i) ≡ (ok (history i), heard i)
    pub wants : (i : ℕ) → (history i).poll_interval_ms ≡ pos (interval i)
    pub positive : (i : ℕ) → 0 < interval i
    pub small : (i : ℕ) → interval i * 1000000 < 2 ^ 63
    pub fires : (i : ℕ) → pause (interval i * 1000000) (heard i) ≡ (true, at (suc i))

  -- The first snapshot that is over, among those up to the given one, is what the loop returns.
  abbrev pub Returns : (ℕ → TaskSnapshot) → (ℕ → W) → ℕ → Result Message TaskSnapshot × W → Type 0
  Returns history heard k t =
      (j : ℕ) × (j ≤ k)
      × Over (history j).status
      × ((i : ℕ) → i < j → Over (history i).status → ⊥)
      × (t ≡ (ok (history j), heard j))

  later :
      (id : ℕ) (history : ℕ → TaskSnapshot) (interval : ℕ → ℕ) (at heard : ℕ → W)
      → Polls id history interval at heard
      → Polls
          (suc id)
          (λ i. history (suc i))
          (λ i. interval (suc i))
          (λ i. at (suc i))
          (λ i. heard (suc i))
  later id history interval at heard polls = record {
    hears = λ i.
        let e : id + suc i ≡ suc id + i = omega arith in
        subst
          (λ n. get_http_task client n task_id (at (suc i)) ≡ (ok (history (suc i)), heard (suc i)))
          e (polls.hears (suc i));
    wants = λ i. polls.wants (suc i);
    positive = λ i. polls.positive (suc i);
    small = λ i. polls.small (suc i);
    fires = λ i. polls.fires (suc i);
  }

  first :
      (id : ℕ) (history : ℕ → TaskSnapshot) (interval : ℕ → ℕ) (at heard : ℕ → W)
      → Polls id history interval at heard
      → get_http_task client id task_id (at 0) ≡ (ok (history 0), heard 0)
  first id history interval at heard polls =
      let e : id + 0 ≡ id = omega arith in
      subst (λ n. get_http_task client n task_id (at 0) ≡ (ok (history 0), heard 0)) e
        (polls.hears 0)

  timer :
      (id : ℕ) (history : ℕ → TaskSnapshot) (interval : ℕ → ℕ) (at heard : ℕ → W)
      → Polls id history interval at heard
      → pause (poll_nanos (history 0).poll_interval_ms) (heard 0) ≡ (true, at 1)
  timer id history interval at heard polls =
      rw (polls.wants 0, poll_nanos-small (interval 0) (polls.positive 0) (polls.small 0))
        (polls.fires 0)

  -- WaitForHTTPTask polls again, with a new identifier for each request and the wanted interval in
  -- between, until the task is completed, failed or cancelled, and returns the first snapshot that
  -- says so. With no failing poll, positive intervals within a Duration and timers that fire, a task
  -- that is over at some poll ends the loop, in fewer steps than polls up to there and one more.
  pub wait_for_http_task-Returns :
      (fuel k id : ℕ) (history : ℕ → TaskSnapshot) (interval : ℕ → ℕ) (at heard : ℕ → W)
      → Polls id history interval at heard
      → Over (history k).status
      → k < fuel
      → Returns history heard k (wait_for_http_task client pause fuel task_id id (at 0))
  unfolding wait_for_http_task
  wait_for_http_task-Returns zero k id history interval at heard polls over enough =
      absurd (omega arith)
  wait_for_http_task-Returns (suc fuel) k id history interval at heard polls over enough =
      elim (Bool-cases (status_terminal (history 0).status)) [
        | inl done ↦
            rw (first id history interval at heard polls, done)
              (
                0,
                omega arith,
                terminal-Over (history 0).status done,
                λ i h. absurd (omega arith),
                refl,
              )
        | inr open_ ↦
            let (m, e) = not_first history k open_ over in
            let (j, within, ended, earliest, same) =
              wait_for_http_task-Returns fuel m (suc id) (λ i. history (suc i))
                (λ i. interval (suc i)) (λ i. at (suc i)) (λ i. heard (suc i))
                (later id history interval at heard polls)
                (subst (λ n. Over (history n).status) e over) (omega arith) in
            rw
              (
                first id history interval at heard polls,
                open_,
                timer id history interval at heard polls,
              )
              (
                suc j,
                omega arith,
                ended,
                earlier (λ i. Over (history i).status) j (λ o. still (history 0).status open_ o)
                    earliest,
                same,
              )
      ]
