-- ===== src/Host/Streams/Delivery.antt =====
-- HTTPTaskSubscription of internal/host/tasks.go: whose tasks a stream delivers.
use mcp_from_scratch.Protocol.Errors.{Message}
use mcp_from_scratch.Protocol.Ids.{RequestId}
use mcp_from_scratch.Protocol.Requests.{Notification}
use mcp_from_scratch.Host.Events.{new_reader}
use mcp_from_scratch.Host.Tasks.{TaskSnapshot}
use mcp_from_scratch.Host.Streams.{
  TaskSubscription, OpenedStream, all_requested, check_ids, check_acknowledgement, is_stream,
  own_id, first_acknowledgement, check_task, check_task_method, decoded_task,
  decode_acknowledgement, validate_task_acknowledgement, read_notification, open_task_subscription,
  next_task,
}
use mcp_from_scratch.Json.Decode.{strings_member}
use mcp_from_scratch.Base.{
  ℕ, zero, suc, String, ◌≡◌, refl, sym, subst, ◌∙◌, inl, inr, Bool, true, false, not, ◌&&◌, ◌||◌,
  Option, none, some, List, [], ◌∷◌, arith, ◌==◌, eq_iff, eqb, Bool-cases, member, All, Result, ok,
  err, bind-ok, ok_injective,
}
use mcp_from_scratch.Json.{Json, Fields}

and-both : (a b : Bool) → (a && b) ≡ true → (a ≡ true) × (b ≡ true)
and-both true b h = (refl, h)
and-both false b h = cc

Requested : List String → List String → Type 0
Requested requested ids = (t : String) → member t ids ≡ true → member t requested ≡ true

all_requested-head :
    (requested : List String) (i : String) (ids : List String)
    → all_requested requested (i ∷ ids) ≡ true
    → member i requested ≡ true
all_requested-head requested i ids h = (and-both (member i requested) _ h).0

all_requested-tail :
    (requested : List String) (i : String) (ids : List String)
    → all_requested requested (i ∷ ids) ≡ true
    → all_requested requested ids ≡ true
all_requested-tail requested i ids h = (and-both (member i requested) _ h).1

member-tail :
    (t i : String) (ids : List String)
    → (i == t) ≡ false
    → member t (i ∷ ids) ≡ true
    → member t ids ≡ true
member-tail t i ids other found = sym (rw other refl) ∙ found

all_requested-Requested :
    (requested ids : List String) → all_requested requested ids ≡ true → Requested requested ids
unfolding Requested
all_requested-Requested requested [] h t found = cc
all_requested-Requested requested (i ∷ ids) h t found = elim (Bool-cases (i == t)) [
  | inl same ↦
      subst (λ s. member s requested ≡ true) ((eq_iff i t).0 same)
        (all_requested-head requested i ids h)
  | inr other ↦
      all_requested-Requested requested ids (all_requested-tail requested i ids h) t
        (member-tail t i ids other found)
]

check_ids-Requested :
    (requested : List String) (o : Option (List String)) {ids : List String}
    → check_ids requested o ≡ ok ids
    → Requested requested ids
check_ids-Requested requested none h = cc
check_ids-Requested requested (some found) h = elim (Bool-cases (all_requested requested found)) [
  | inl all_in ↦
      subst (Requested requested) (ok_injective (sym (rw all_in refl) ∙ h))
        (all_requested-Requested requested found all_in)
  | inr one_out ↦ ground arith
]

check_acknowledgement-Requested :
    (id : ℕ) (requested : List String) (o : Option (RequestId × Fields)) {ids : List String}
    → check_acknowledgement id requested o ≡ ok ids
    → Requested requested ids
check_acknowledgement-Requested id requested none h = cc
check_acknowledgement-Requested id requested (some (found, filter)) h =
    check_ids-Requested requested (strings_member "taskIds" filter) (ground arith)

validate-Requested :
    (n : Notification) (id : ℕ) (requested : List String) {ids : List String}
    → validate_task_acknowledgement n id requested ≡ ok ids
    → Requested requested ids
unfolding validate_task_acknowledgement
validate-Requested n id requested h =
    check_acknowledgement-Requested id requested (decode_acknowledgement n.params) (ground arith)

check_task-passes :
    (s : TaskSubscription) (found : TaskSnapshot) (id : RequestId)
    → own_id id s.id ≡ true
    → member found.task_id s.task_ids ≡ true
    → ok found ≡ check_task s (found, id)
check_task-passes s found id own listed = rw (own, listed) refl

check_task-found :
    (s : TaskSubscription) (found : TaskSnapshot) (id : RequestId) {task : TaskSnapshot}
    → check_task s (found, id) ≡ ok task
    → own_id id s.id ≡ true
    → member found.task_id s.task_ids ≡ true
    → member task.task_id s.task_ids ≡ true
check_task-found s found id h own listed =
    subst (λ (t : TaskSnapshot). member t.task_id s.task_ids ≡ true)
      (ok_injective (check_task-passes s found id own listed ∙ h)) listed

check_task-member :
    (s : TaskSubscription) (d : TaskSnapshot × RequestId) {task : TaskSnapshot}
    → check_task s d ≡ ok task
    → member task.task_id s.task_ids ≡ true
check_task-member s (found, id) h = elim (Bool-cases (own_id id s.id)) [
  | inl own ↦ elim (Bool-cases (member found.task_id s.task_ids)) [
    | inl listed ↦ check_task-found s found id h own listed
    | inr unlisted ↦ ground arith
  ]
  | inr other ↦ ground arith
]

abbrev delivered :
    (TaskSubscription → List TaskSnapshot)
    → Result Message (Notification × TaskSnapshot × TaskSubscription)
    → List TaskSnapshot
delivered again (err e) = []
delivered again (ok t) = t.1 ∷ again t.2

Requested-All :
    (requested ids : List String) (ts : List TaskSnapshot)
    → Requested requested ids
    → All (λ t. member t.task_id ids ≡ true) ts
    → All (λ t. member t.task_id requested ≡ true) ts
unfolding Requested
Requested-All requested ids [] h a = tt
Requested-All requested ids (t ∷ ts) h a = (h t.task_id a.0, Requested-All requested ids ts h a.1)

module _ (parse_json : String → Option Json) where
  acknowledged-Requested :
      (id : ℕ) (requested : List String) (input : String) {s : TaskSubscription}
      → first_acknowledgement parse_json id requested input ≡ ok s
      → Requested requested s.task_ids
  unfolding Requested
  acknowledged-Requested id requested input h =
      let (event, read, h1) = bind-ok (read_notification parse_json (new_reader input)) _ h in
      let (ids, valid, h2) = bind-ok (validate_task_acknowledgement event.0 id requested) _ h1 in
      subst (λ s. Requested requested s.task_ids) (ok_injective h2)
        (validate-Requested event.0 id requested valid)

  open_task-Requested :
      (id : ℕ) (requested : List String) (opened : OpenedStream) {s : TaskSubscription}
      → open_task_subscription parse_json id requested opened ≡ ok s
      → Requested requested s.task_ids
  unfolding open_task_subscription
  open_task-Requested id requested opened h =
      elim (Bool-cases (not (eqb opened.status 200) || not (is_stream opened.media_type))) [
        | inl refused ↦ ground arith
        | inr accepted ↦
            acknowledged-Requested id requested opened.input (sym (rw accepted refl) ∙ h)
      ]

  -- What repeated calls of Next deliver, up to the first error.
  unfoldable pub drain : ℕ → TaskSubscription → List TaskSnapshot
  unfolding next_task
  drain zero s = []
  drain (suc n) s = delivered (drain n) (next_task parse_json s)

  next_task-member :
      (s : TaskSubscription) {t : Notification × TaskSnapshot × TaskSubscription}
      → next_task parse_json s ≡ ok t
      → (member t.1.task_id s.task_ids ≡ true) × (t.2.task_ids ≡ s.task_ids)
  unfolding next_task
  next_task-member s h =
      let (event, read, h1) = bind-ok (read_notification parse_json s.reader) _ h in
      let (u, checked, h2) = bind-ok (check_task_method event.0) _ h1 in
      let (decoded, found, h3) = bind-ok (decoded_task event.0) _ h2 in
      let (task, valid, h4) = bind-ok (check_task s decoded) _ h3 in
      subst
        (λ (t : Notification × TaskSnapshot × TaskSubscription).
          (member t.1.task_id s.task_ids ≡ true) × (t.2.task_ids ≡ s.task_ids))
        (ok_injective h4) (check_task-member s decoded valid, refl)

  delivered-member :
      (again : TaskSubscription → List TaskSnapshot) (ids : List String)
      → ((s : TaskSubscription) (ids : List String)
          → s.task_ids ≡ ids
          → All (λ t. member t.task_id ids ≡ true) (again s))
      → (s : TaskSubscription) (r : Result Message (Notification × TaskSnapshot × TaskSubscription))
      → next_task parse_json s ≡ r
      → s.task_ids ≡ ids
      → All (λ t. member t.task_id ids ≡ true) (delivered again r)
  delivered-member again ids rest s (err e) h same = tt
  delivered-member again ids rest s (ok t) h same =
      let (found, kept) = next_task-member s h in
      (subst (λ l. member t.1.task_id l ≡ true) same found, rest t.2 ids (kept ∙ same))

  drain-member :
      (n : ℕ) (s : TaskSubscription) (ids : List String)
      → s.task_ids ≡ ids
      → All (λ t. member t.task_id ids ≡ true) (drain n s)
  unfolding drain
  drain-member zero s ids same = tt
  drain-member (suc n) s ids same =
      delivered-member (drain n) ids (drain-member n) s (next_task parse_json s) refl same

  -- Every task that Next delivers on a subscription, up to the first error, is one of those that the
  -- host asked for, whatever the server acknowledged and sent.
  pub drain-Requested :
      (id : ℕ) (requested : List String) (opened : OpenedStream) (s : TaskSubscription) (n : ℕ)
      → open_task_subscription parse_json id requested opened ≡ ok s
      → All (λ t. member t.task_id requested ≡ true) (drain n s)
  unfolding Requested
  drain-Requested id requested opened s n h =
      Requested-All requested s.task_ids (drain n s) (open_task-Requested id requested opened h)
        (drain-member n s s.task_ids refl)
