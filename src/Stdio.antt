-- ===== src/Stdio.antt =====
-- internal/mcpserver/stdio.go: how a connection admits requests while others run. A step is what one
-- goroutine does under the lock: the reader's admission of a message, the end of a call, the end of
-- a stream. Calls and streams are told apart by serial numbers, where the source compares pointers.
-- The messages that are answered before the admission, and the shutdown, are not modelled.
pub mod Bounds
pub mod Cancellation
use mcp_from_scratch.Protocol.Errors.{
  RpcError, new_error, invalid_request, invalid_params, server_overloaded,
}
use mcp_from_scratch.Protocol.Ids.{same_id, RequestId}
use mcp_from_scratch.Base.{
  ℕ, suc, Bool, true, false, not, ◌&&◌, ◌||◌, Option, none, some, List, [], ◌∷◌, arith, leb, eqb,
  if◌then◌else◌, is_some, length,
}
use mcp_from_scratch.Base.{◌>>=◌}

abbrev pub max_concurrent_stdio_requests : ℕ
max_concurrent_stdio_requests = 32

abbrev pub max_active_stdio_request_ids : ℕ
max_active_stdio_request_ids = 64

pub has_id : RequestId → List RequestId → Bool
unfolding same_id
has_id id [] = false
has_id id (i ∷ ids) = same_id i id || has_id id ids

pub without_id : RequestId → List RequestId → List RequestId
unfolding same_id
without_id id [] = []
without_id id (i ∷ ids) = let rest = without_id id ids in if same_id i id then rest else i ∷ rest

abbrev pub Serials : Type 0
Serials = List (RequestId × ℕ)

unfoldable pub serial_of : RequestId → Serials → Option ℕ
unfolding same_id
serial_of id [] = none
serial_of id ((i, n) ∷ rest) = if same_id i id then some n else serial_of id rest

pub without_key : RequestId → Serials → Serials
unfolding same_id
without_key id [] = []
without_key id ((i, n) ∷ entries) =
    let rest = without_key id entries in if same_id i id then rest else (i, n) ∷ rest

-- An execution slot that is taken: the goroutine of a call or of a notification.
pub record ActiveCall : Type 0 where
  pub serial : ℕ
  pub id : Option RequestId
  pub cancelled : Bool

pub record Connection : Type 0 where
  pub active_ids : List RequestId
  pub active_calls : Serials
  pub active_subscriptions : Serials
  pub slots : List ActiveCall
  pub next_serial : ℕ

abbrev pub idle : Connection
idle = record {
  active_ids = [];
  active_calls = [];
  active_subscriptions = [];
  slots = [];
  next_serial = 0;
}

pub data Registration : Type 0 where
  registered duplicate overloaded : Registration

unfoldable pub register_id : RequestId → Connection → Registration × Connection
unfolding has_id
register_id id conn =
    if has_id id conn.active_ids
    then (duplicate, conn)
    else if leb max_active_stdio_request_ids (length conn.active_ids)
    then (overloaded, conn)
    else (registered, record conn { active_ids = id ∷ conn.active_ids })

release_id : RequestId → Connection → Connection
unfolding without_id
release_id id conn = record conn { active_ids = without_id id conn.active_ids }

abbrev same_serial : Option ℕ → ℕ → Bool
same_serial none n = false
same_serial (some m) n = eqb m n

unfoldable pub remove_call : RequestId → ℕ → Connection → Connection
unfolding without_id without_key serial_of
remove_call id serial conn =
    if same_serial (serial_of id conn.active_calls) serial
    then record conn {
      active_calls = without_key id conn.active_calls;
      active_ids = without_id id conn.active_ids;
    }
    else conn

mark : ℕ → List ActiveCall → List ActiveCall
mark serial [] = []
mark serial (c ∷ cs) =
    let rest = mark serial cs in
    if eqb c.serial serial then record c { cancelled = true } ∷ rest else c ∷ rest

abbrev mark_found : Option ℕ → List ActiveCall → List ActiveCall
mark_found none slots = slots
mark_found (some serial) slots = mark serial slots

unfoldable pub cancel_call : RequestId → Connection → Connection
unfolding mark serial_of
cancel_call id conn = record conn { slots = mark_found (serial_of id conn.active_calls) conn.slots }

-- removeSubscription; `none` expects any subscription. An identifier that has no subscription is
-- released all the same.
unfoldable pub remove_subscription : RequestId → Option ℕ → Connection → Connection
unfolding without_id without_key serial_of
remove_subscription id expected conn =
    let removed = record conn {
      active_subscriptions = without_key id conn.active_subscriptions;
      active_ids = without_id id conn.active_ids;
    } in
    elim expected [
      | none ↦ removed
      | some serial ↦
          if same_serial (serial_of id conn.active_subscriptions) serial then removed else conn
    ]

-- What the reader writes at once, if anything.
pub data Answer : Type 0 where
  nothing : Answer
  refuses : RpcError → Answer

pub start : Option RequestId → Connection → Connection
start id conn = record conn {
  slots = record { serial = conn.next_serial; id = id; cancelled = false } ∷ conn.slots;
  next_serial = suc conn.next_serial;
}

started_call : RequestId → Registration × Connection → Answer × Connection
unfolding start
started_call id (registered, conn) = (
  nothing,
  start (some id)
      (record conn { active_calls = (id, conn.next_serial) ∷ without_key id conn.active_calls }),
)
started_call id (duplicate, conn) =
    (refuses (new_error invalid_request "duplicate request ID"), conn)
started_call id (overloaded, conn) =
    (refuses (new_error server_overloaded "server overloaded"), conn)

abbrev overload : Option RequestId → Answer
overload none = nothing
overload (some id) = refuses (new_error server_overloaded "server overloaded")

started : Option RequestId → Connection → Answer × Connection
unfolding started_call start
started none conn = (nothing, start none conn)
started (some id) conn = started_call id (register_id id conn)

-- The admission of a call (`some`) or a notification: a slot first, then the identifier.
unfoldable pub admit_call : Option RequestId → Connection → Answer × Connection
unfolding started
admit_call id conn =
    if leb max_concurrent_stdio_requests (length conn.slots)
    then (overload id, conn)
    else started id conn

listening : RequestId → Option RpcError → Registration × Connection → Answer × Connection
unfolding release_id
listening id e (duplicate, conn) =
    (refuses (new_error invalid_params "subscription request ID is already active"), conn)
listening id e (overloaded, conn) =
    (refuses (new_error server_overloaded "server overloaded"), conn)
listening id (some e) (registered, conn) = (refuses e, release_id id conn)
listening id none (registered, conn) = (
  nothing,
  record conn {
    active_subscriptions = (id, conn.next_serial) ∷ without_key id conn.active_subscriptions;
    next_serial = suc conn.next_serial;
  },
)

-- The admission of subscriptions/listen, with the error that subscribe returns, if any.
unfoldable pub admit_listen : RequestId → Option RpcError → Connection → Answer × Connection
unfolding listening
admit_listen id e conn = listening id e (register_id id conn)

-- notifications/cancelled
unfoldable pub cancel_request : RequestId → Connection → Connection
cancel_request id conn = remove_subscription id none (cancel_call id conn)

without_slot : ℕ → List ActiveCall → List ActiveCall
without_slot serial [] = []
without_slot serial (c ∷ cs) =
    let rest = without_slot serial cs in if eqb c.serial serial then rest else c ∷ rest

abbrev removed : Option RequestId → ℕ → Connection → Connection
removed none serial conn = conn
removed (some id) serial conn = remove_call id serial conn

-- The deferred calls at the end of the goroutine of a call.
unfoldable pub finish_call : ActiveCall → Connection → Connection
unfolding without_slot
finish_call call conn =
    let after = removed call.id call.serial conn in
    record after { slots = without_slot call.serial after.slots }

-- Whether the call writes its response: a notification and a cancelled call do not.
unfoldable pub responds : ActiveCall → Bool
responds call = is_some call.id && not call.cancelled

-- The steps of a connection, in the order in which they take the lock.
pub data Event : Type 0 where
  calls : Option RequestId → Event
  listens : RequestId → Option RpcError → Event
  cancels : RequestId → Event
  call_ends : ActiveCall → Event
  stream_ends : RequestId → ℕ → Event

unfoldable pub step : Event → Connection → Connection
step (calls id) conn = (admit_call id conn).1
step (listens id e) conn = (admit_listen id e conn).1
step (cancels id) conn = cancel_request id conn
step (call_ends call) conn = finish_call call conn
step (stream_ends id serial) conn = remove_subscription id (some serial) conn

unfoldable pub steps : List Event → Connection → Connection
unfolding step
steps [] conn = conn
steps (e ∷ events) conn = steps events (step e conn)
