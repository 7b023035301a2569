-- ===== src/Stdio/Bounds.antt =====
-- What a connection keeps to, whatever arrives and in whatever order its goroutines run.
use mcp_from_scratch.Protocol.Errors.{RpcError}
use mcp_from_scratch.Protocol.Ids.{RequestId}
use mcp_from_scratch.Protocol.Ids.{same_id}
use mcp_from_scratch.Stdio.{
  has_id, without_id, without_key, serial_of, Serials, ActiveCall, Connection, idle, Registration,
  registered, duplicate, overloaded, register_id, release_id, remove_call, same_serial, mark,
  mark_found, cancel_call, remove_subscription, start, started_call, started, admit_call, listening,
  admit_listen, cancel_request, without_slot, removed, finish_call, Event, calls, listens, cancels,
  call_ends, stream_ends, step, steps, max_concurrent_stdio_requests, max_active_stdio_request_ids,
}
use mcp_from_scratch.Base.{
  ℕ, ◌≤◌, ◌<◌, ◌≡◌, refl, sym, subst, inl, inr, false, Option, none, some, List, [], ◌∷◌, arith,
  leb, Bool-cases, length,
}

abbrev pub Distinct : List RequestId → Type 0
Distinct [] = Unit {0}
Distinct (id ∷ ids) = (has_id id ids ≡ false) × Distinct ids

-- The two limits, and that no identifier is held twice.
pub record Within (conn : Connection) : Type 0 where
  pub ids_bounded : length conn.active_ids ≤ 64
  pub slots_bounded : length conn.slots ≤ 32
  pub ids_distinct : Distinct conn.active_ids

length-without_id :
    (id : RequestId) (ids : List RequestId) → length (without_id id ids) ≤ length ids
unfolding without_id
length-without_id id [] = omega arith
length-without_id id (i ∷ ids) = ground (arith, length-without_id id ids)

has_id-without_id :
    (j id : RequestId) (ids : List RequestId)
    → has_id j ids ≡ false
    → has_id j (without_id id ids) ≡ false
unfolding has_id without_id
has_id-without_id j id [] h = refl
has_id-without_id j id (i ∷ ids) h = ground (arith, has_id-without_id j id ids)

Distinct-without_id :
    (id : RequestId) (ids : List RequestId) → Distinct ids → Distinct (without_id id ids)
unfolding without_id
Distinct-without_id id [] d = tt
Distinct-without_id id (i ∷ ids) (fresh, d) = elim (Bool-cases (same_id i id)) [
  | inl e ↦ rw e (Distinct-without_id id ids d)
  | inr e ↦ rw e (has_id-without_id i id ids fresh, Distinct-without_id id ids d)
]

length-mark : (n : ℕ) (slots : List ActiveCall) → length (mark n slots) ≡ length slots
unfolding mark
length-mark n [] = refl
length-mark n (c ∷ cs) = ground (arith, length-mark n cs)

length-mark_found :
    (n : Option ℕ) (slots : List ActiveCall) → length (mark_found n slots) ≡ length slots
length-mark_found none slots = refl
length-mark_found (some n) slots = length-mark n slots

length-without_slot :
    (n : ℕ) (slots : List ActiveCall) → length (without_slot n slots) ≤ length slots
unfolding without_slot
length-without_slot n [] = omega arith
length-without_slot n (c ∷ cs) = ground (arith, length-without_slot n cs)

released :
    (id : RequestId) (conn : Connection)
    → Within conn
    → Within (record conn { active_ids = without_id id conn.active_ids })
released id conn w =
    let fewer = length-without_id id conn.active_ids in
    let bound = w.ids_bounded in
    record {
      ids_bounded = omega arith;
      slots_bounded = w.slots_bounded;
      ids_distinct = Distinct-without_id id conn.active_ids w.ids_distinct;
    }

register_id-Within :
    (id : RequestId) (conn : Connection) → Within conn → Within (register_id id conn).1
unfolding register_id
register_id-Within id conn w = elim (Bool-cases (has_id id conn.active_ids)) [
  | inl e ↦ rw e w
  | inr e ↦ elim (Bool-cases (leb max_active_stdio_request_ids (length conn.active_ids))) [
    | inl f ↦ rw (e, f) w
    | inr f ↦
        rw (e, f)
          (record {
            ids_bounded = ground (arith, f);
            slots_bounded = w.slots_bounded;
            ids_distinct = (e, w.ids_distinct);
          })
  ]
]

start-Within :
    (id : Option RequestId) (conn : Connection)
    → length conn.slots < 32
    → Within conn
    → Within (start id conn)
unfolding start
start-Within id conn room w = record {
  ids_bounded = w.ids_bounded;
  slots_bounded = omega arith;
  ids_distinct = w.ids_distinct;
}

register_id-slots :
    (id : RequestId) (conn : Connection) → (register_id id conn).1.slots ≡ conn.slots
unfolding register_id
register_id-slots id conn = ground arith

started_call-Within :
    (id : RequestId) (o : Registration × Connection)
    → length o.1.slots < 32
    → Within o.1
    → Within (started_call id o).1
unfolding started_call
started_call-Within id (registered, conn) room w =
    start-Within (some id)
      (record conn { active_calls = (id, conn.next_serial) ∷ without_key id conn.active_calls })
      room
      (record {
        ids_bounded = w.ids_bounded;
        slots_bounded = w.slots_bounded;
        ids_distinct = w.ids_distinct;
      })
started_call-Within id (duplicate, conn) room w = w
started_call-Within id (overloaded, conn) room w = w

started-Within :
    (id : Option RequestId) (conn : Connection)
    → length conn.slots < 32
    → Within conn
    → Within (started id conn).1
unfolding started
started-Within none conn room w = start-Within none conn room w
started-Within (some id) conn room w =
    started_call-Within id (register_id id conn)
      (subst (λ s. length s < 32) (sym (register_id-slots id conn)) room)
      (register_id-Within id conn w)

listening-Within :
    (id : RequestId) (e : Option RpcError) (o : Registration × Connection)
    → Within o.1
    → Within (listening id e o).1
unfolding listening release_id
listening-Within id e (duplicate, conn) w = w
listening-Within id e (overloaded, conn) w = w
listening-Within id (some e) (registered, conn) w = released id conn w
listening-Within id none (registered, conn) w = record {
  ids_bounded = w.ids_bounded;
  slots_bounded = w.slots_bounded;
  ids_distinct = w.ids_distinct;
}

cancel_call-Within :
    (id : RequestId) (conn : Connection) → Within conn → Within (cancel_call id conn)
unfolding cancel_call
cancel_call-Within id conn w = record {
  ids_bounded = w.ids_bounded;
  slots_bounded =
      subst (λ n. n ≤ 32) (sym (length-mark_found (serial_of id conn.active_calls) conn.slots))
        w.slots_bounded;
  ids_distinct = w.ids_distinct;
}

removed_ids :
    (id : RequestId) (subscriptions entries : Serials) (conn : Connection)
    → Within conn
    → Within (record conn {
      active_subscriptions = subscriptions;
      active_calls = entries;
      active_ids = without_id id conn.active_ids;
    })
removed_ids id subscriptions entries conn w =
    let r = released id conn w in
    record {
      ids_bounded = r.ids_bounded;
      slots_bounded = r.slots_bounded;
      ids_distinct = r.ids_distinct;
    }

remove_subscription-Within :
    (id : RequestId) (expected : Option ℕ) (conn : Connection)
    → Within conn
    → Within (remove_subscription id expected conn)
unfolding remove_subscription
remove_subscription-Within id none conn w =
    removed_ids id (without_key id conn.active_subscriptions) conn.active_calls conn w
remove_subscription-Within id (some n) conn w =
    elim (Bool-cases (same_serial (serial_of id conn.active_subscriptions) n)) [
      | inl e ↦
          rw e (removed_ids id (without_key id conn.active_subscriptions) conn.active_calls conn w)
      | inr e ↦ rw e w
    ]

remove_call-Within :
    (id : RequestId) (n : ℕ) (conn : Connection) → Within conn → Within (remove_call id n conn)
unfolding remove_call
remove_call-Within id n conn w =
    elim (Bool-cases (same_serial (serial_of id conn.active_calls) n)) [
      | inl e ↦
          rw e (removed_ids id conn.active_subscriptions (without_key id conn.active_calls) conn w)
      | inr e ↦ rw e w
    ]

removed-Within :
    (id : Option RequestId) (n : ℕ) (conn : Connection) → Within conn → Within (removed id n conn)
removed-Within none n conn w = w
removed-Within (some id) n conn w = remove_call-Within id n conn w

finish_call-Within :
    (call : ActiveCall) (conn : Connection) → Within conn → Within (finish_call call conn)
unfolding finish_call
finish_call-Within call conn w =
    let r = removed-Within call.id call.serial conn w in
    let fewer = length-without_slot call.serial (removed call.id call.serial conn).slots in
    let bound = r.slots_bounded in
    record {
      ids_bounded = r.ids_bounded;
      slots_bounded = omega arith;
      ids_distinct = r.ids_distinct;
    }

admit_call-Within :
    (id : Option RequestId) (conn : Connection) → Within conn → Within (admit_call id conn).1
unfolding admit_call
admit_call-Within id conn w =
    elim (Bool-cases (leb max_concurrent_stdio_requests (length conn.slots))) [
      | inl e ↦ rw e w
      | inr e ↦ rw e (started-Within id conn (ground (arith, e)) w)
    ]

step-Within : (e : Event) (conn : Connection) → Within conn → Within (step e conn)
unfolding step admit_listen cancel_request
step-Within (calls id) conn w = admit_call-Within id conn w
step-Within (listens id e) conn w =
    listening-Within id e (register_id id conn) (register_id-Within id conn w)
step-Within (cancels id) conn w =
    remove_subscription-Within id none (cancel_call id conn) (cancel_call-Within id conn w)
step-Within (call_ends call) conn w = finish_call-Within call conn w
step-Within (stream_ends id n) conn w = remove_subscription-Within id (some n) conn w

-- Whatever arrives on a connection, and in whatever order its calls and streams end, at most 32
-- calls hold a slot at once, and the identifiers that the connection keeps as taken, the list that
-- stands for the keys of the map activeIDs, are at most 64 and each stands in it once.
pub steps-Within : (events : List Event) → Within (steps events idle)
unfolding steps
steps-Within events =
    kept events idle
      (record { ids_bounded = omega arith; slots_bounded = omega arith; ids_distinct = tt })
  where
    kept : (rest : List Event) (conn : Connection) → Within conn → Within (steps rest conn)
    kept [] conn w = w
    kept (e ∷ rest) conn w = kept rest (step e conn) (step-Within e conn w)
