-- ===== src/Stdio/Cancellation.antt =====
-- A cancelled call writes no response.
use mcp_from_scratch.Protocol.Errors.{RpcError}
use mcp_from_scratch.Protocol.Ids.{RequestId}
use mcp_from_scratch.Stdio.{
  without_key, serial_of, ActiveCall, Connection, Registration, registered, duplicate, overloaded,
  register_id, release_id, remove_call, mark, mark_found, cancel_call, remove_subscription, start,
  started_call, started, admit_call, listening, admit_listen, cancel_request, without_slot, removed,
  finish_call, responds, Event, calls, listens, cancels, call_ends, stream_ends, step, steps,
  max_concurrent_stdio_requests,
}
use mcp_from_scratch.Base.{
  ℕ, ◌<◌, ◌≡◌, refl, sym, subst, inl, inr, false, Option, none, some, List, [], ◌∷◌, arith, leb,
  eqb, Bool-cases, length, All,
}

module _ (n : ℕ) where
  abbrev SilentSlots : List ActiveCall → Type 0
  SilentSlots = All (λ c. c.serial ≡ n → responds c ≡ false)

  -- The call with the serial number is silent, and no call to come will have that number.
  abbrev Silent : Connection → Type 0
  Silent conn = SilentSlots conn.slots × (n < conn.next_serial)

  mark-Silent : (slots : List ActiveCall) → SilentSlots (mark n slots)
  unfolding mark responds
  mark-Silent [] = tt
  mark-Silent (c ∷ cs) = elim (Bool-cases (eqb c.serial n)) [
    | inl e ↦ rw e ((λ s. ground arith), mark-Silent cs)
    | inr e ↦ rw e ((λ s. absurd (ground (arith, e, s))), mark-Silent cs)
  ]

  mark_other-Silent :
      (m : ℕ) (slots : List ActiveCall) → SilentSlots slots → SilentSlots (mark m slots)
  unfolding mark responds
  mark_other-Silent m [] h = tt
  mark_other-Silent m (c ∷ cs) (here, rest) = elim (Bool-cases (eqb c.serial m)) [
    | inl e ↦ rw e ((λ s. ground arith), mark_other-Silent m cs rest)
    | inr e ↦ rw e (here, mark_other-Silent m cs rest)
  ]

  mark_found-Silent :
      (m : Option ℕ) (slots : List ActiveCall)
      → SilentSlots slots
      → SilentSlots (mark_found m slots)
  mark_found-Silent none slots h = h
  mark_found-Silent (some m) slots h = mark_other-Silent m slots h

  without_slot-Silent :
      (m : ℕ) (slots : List ActiveCall) → SilentSlots slots → SilentSlots (without_slot m slots)
  unfolding without_slot
  without_slot-Silent m [] h = tt
  without_slot-Silent m (c ∷ cs) (here, rest) = elim (Bool-cases (eqb c.serial m)) [
    | inl e ↦ rw e (without_slot-Silent m cs rest)
    | inr e ↦ rw e (here, without_slot-Silent m cs rest)
  ]

  -- The parts of a connection that the property reads.
  abbrev Alike : Connection → Connection → Type 0
  Alike conn after = (after.slots ≡ conn.slots) × (after.next_serial ≡ conn.next_serial)

  Alike-Silent : (conn after : Connection) → Alike conn after → Silent conn → Silent after
  Alike-Silent conn after (slots, serial) (h, k) =
      (subst SilentSlots (sym slots) h, subst (λ m. n < m) (sym serial) k)

  register_id-Alike : (id : RequestId) (conn : Connection) → Alike conn (register_id id conn).1
  unfolding register_id
  register_id-Alike id conn = (ground arith, ground arith)

  remove_call-Alike :
      (id : RequestId) (m : ℕ) (conn : Connection) → Alike conn (remove_call id m conn)
  unfolding remove_call
  remove_call-Alike id m conn = (ground arith, ground arith)

  remove_subscription-Alike :
      (id : RequestId) (expected : Option ℕ) (conn : Connection)
      → Alike conn (remove_subscription id expected conn)
  unfolding remove_subscription
  remove_subscription-Alike id none conn = (refl, refl)
  remove_subscription-Alike id (some m) conn = (ground arith, ground arith)

  start-Silent : (id : Option RequestId) (conn : Connection) → Silent conn → Silent (start id conn)
  unfolding start
  start-Silent id conn (h, k) = (((λ s. absurd (omega (arith, s, k))), h), omega arith)

  started_call-Silent :
      (id : RequestId) (o : Registration × Connection) → Silent o.1 → Silent (started_call id o).1
  unfolding started_call
  started_call-Silent id (registered, conn) h =
      start-Silent (some id)
        (record conn { active_calls = (id, conn.next_serial) ∷ without_key id conn.active_calls }) h
  started_call-Silent id (duplicate, conn) h = h
  started_call-Silent id (overloaded, conn) h = h

  started-Silent :
      (id : Option RequestId) (conn : Connection) → Silent conn → Silent (started id conn).1
  unfolding started
  started-Silent none conn h = start-Silent none conn h
  started-Silent (some id) conn h =
      started_call-Silent id (register_id id conn)
        (Alike-Silent conn (register_id id conn).1 (register_id-Alike id conn) h)

  admit_call-Silent :
      (id : Option RequestId) (conn : Connection) → Silent conn → Silent (admit_call id conn).1
  unfolding admit_call
  admit_call-Silent id conn h =
      elim (Bool-cases (leb max_concurrent_stdio_requests (length conn.slots))) [
        | inl e ↦ rw e h
        | inr e ↦ rw e (started-Silent id conn h)
      ]

  listening-Silent :
      (id : RequestId) (e : Option RpcError) (o : Registration × Connection)
      → Silent o.1
      → Silent (listening id e o).1
  unfolding listening release_id
  listening-Silent id e (duplicate, conn) h = h
  listening-Silent id e (overloaded, conn) h = h
  listening-Silent id (some e) (registered, conn) h = h
  listening-Silent id none (registered, conn) (h, k) = (h, omega arith)

  removed-Silent :
      (id : Option RequestId) (m : ℕ) (conn : Connection) → Silent conn → Silent (removed id m conn)
  removed-Silent none m conn h = h
  removed-Silent (some id) m conn h =
      Alike-Silent conn (remove_call id m conn) (remove_call-Alike id m conn) h

  step-Silent : (e : Event) (conn : Connection) → Silent conn → Silent (step e conn)
  unfolding step admit_listen cancel_request cancel_call finish_call
  step-Silent (calls id) conn h = admit_call-Silent id conn h
  step-Silent (listens id e) conn h =
      listening-Silent id e (register_id id conn)
        (Alike-Silent conn (register_id id conn).1 (register_id-Alike id conn) h)
  step-Silent (cancels id) conn (h, k) =
      Alike-Silent (cancel_call id conn) (remove_subscription id none (cancel_call id conn))
        (remove_subscription-Alike id none (cancel_call id conn))
        (mark_found-Silent (serial_of id conn.active_calls) conn.slots h, k)
  step-Silent (call_ends call) conn h =
      let (r, k) = removed-Silent call.id call.serial conn h in
      (without_slot-Silent call.serial (removed call.id call.serial conn).slots r, k)
  step-Silent (stream_ends id m) conn h =
      Alike-Silent conn (remove_subscription id (some m) conn)
        (remove_subscription-Alike id (some m) conn) h

  steps-Silent :
      (events : List Event) (conn : Connection) → Silent conn → Silent (steps events conn)
  unfolding steps
  steps-Silent [] conn h = h
  steps-Silent (e ∷ events) conn h = steps-Silent events (step e conn) (step-Silent e conn h)

-- Once `notifications/cancelled` has named the identifier of a call in flight, whose serial number was
-- given out before, that call writes no response, whatever happens afterwards on the connection.
pub cancelled_never_responds :
    (n : ℕ) (id : RequestId) (conn : Connection) (events : List Event)
    → serial_of id conn.active_calls ≡ some n
    → n < conn.next_serial
    → All (λ c. c.serial ≡ n → responds c ≡ false) (steps events (cancel_request id conn)).slots
unfolding cancel_request cancel_call
cancelled_never_responds n id conn events found old =
    (steps-Silent n events (cancel_request id conn) (
      Alike-Silent n (cancel_call id conn) (remove_subscription id none (cancel_call id conn))
        (remove_subscription-Alike n id none (cancel_call id conn))
        (rw found (mark-Silent n conn.slots), old))).0
