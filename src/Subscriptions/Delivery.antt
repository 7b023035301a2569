-- ===== src/Subscriptions/Delivery.antt =====
-- What can wait in the channel of a subscription, and which subscriptions a change reaches.
use mcp_from_scratch.Protocol.Ids.{RequestId}
use mcp_from_scratch.Protocol.Tasks.{DetailedTask}
use mcp_from_scratch.Subscriptions.{
  SubscriptionFilter, ListChangeKind, Event, list_changed, task_changed, Subscription, Registry,
  accepts, open_subscription, offered, notify, hears_list, tell_list, publish_list_changed,
  hears_task, tell_task, publish_task_changed, change_at, unsubscribe, finish, close_subscriptions,
  receive,
}
use mcp_from_scratch.Base.{
  ℕ, zero, suc, String, ◌≡◌, refl, sym, ap, ◌∙◌, ◌≢◌, ◌⊎◌, inl, inr, true, Option, none, some, List,
  [], ◌∷◌, ◌++◌, arith, eq_iff, Bool-cases, member, All, All-map, get_elem?, get_elem?-map,
}

-- An event is tagged with the subscription's own identifier and is one that it asked for.
abbrev FitsEvent : RequestId → SubscriptionFilter → Event → Type 0
FitsEvent own f (list_changed id kind) = (id ≡ own) × (accepts f kind ≡ true)
FitsEvent own f (task_changed id task) = (id ≡ own) × (member task.task_id f.task_ids ≡ true)

abbrev FitsWaiting : RequestId → SubscriptionFilter → Option Event → Type 0
FitsWaiting own f none = Unit {0}
FitsWaiting own f (some e) = FitsEvent own f e

abbrev pub Fits : Subscription → Type 0
Fits s = FitsWaiting s.id s.notifications s.events

-- What the server does with the set of its subscriptions.
pub data Act : Type 0 where
  opens : RequestId → SubscriptionFilter → String → Act
  publishes_list : ListChangeKind → Act
  publishes_task : String → DetailedTask → Act
  unsubscribes receives : ℕ → Act
  closes : Act

unfoldable pub act : Act → Registry → Registry
act (opens id agreed owner) registry = registry ++ open_subscription id agreed owner ∷ []
act (publishes_list kind) registry = publish_list_changed kind registry
act (publishes_task owner task) registry = publish_task_changed owner task registry
act (unsubscribes n) registry = unsubscribe n registry
act (receives n) registry = receive n registry
act closes registry = close_subscriptions registry

unfoldable pub acts : List Act → Registry → Registry
unfolding act
acts [] registry = registry
acts (a ∷ rest) registry = acts rest (act a registry)

offered-Fits :
    (own : RequestId) (f : SubscriptionFilter) (waiting : Option Event) (e : Event)
    → FitsEvent own f e
    → FitsWaiting own f waiting
    → FitsWaiting own f (offered waiting e)
unfolding offered
offered-Fits own f none e new old = new
offered-Fits own f (some m) e new old = old

tell_list-Fits : (kind : ListChangeKind) (s : Subscription) → Fits s → Fits (tell_list kind s)
unfolding tell_list notify
tell_list-Fits kind s h = elim (Bool-cases (hears_list kind s)) [
  | inl hears ↦ rw hears (
      offered-Fits s.id s.notifications s.events (list_changed s.id kind)
        (refl, unfold hears_list in ground arith) h)
  | inr deaf ↦ rw deaf h
]

tell_task-Fits :
    (owner : String) (task : DetailedTask) (s : Subscription)
    → Fits s
    → Fits (tell_task owner task s)
unfolding tell_task notify
tell_task-Fits owner task s h = elim (Bool-cases (hears_task owner task s)) [
  | inl hears ↦ rw hears (
      offered-Fits s.id s.notifications s.events (task_changed s.id task)
        (refl, unfold hears_task in ground arith) h)
  | inr deaf ↦ rw deaf h
]

finish-Fits : (s : Subscription) → Fits s → Fits (finish s)
unfolding finish
finish-Fits s h = ground (arith, Bool-cases s.registered)

change_at-Fits :
    (f : Subscription → Subscription)
    → ((s : Subscription) → Fits s → Fits (f s))
    → (n : ℕ) (registry : Registry) → All Fits registry
    → All Fits (change_at f n registry)
unfolding change_at
change_at-Fits f step n [] h = tt
change_at-Fits f step zero (s ∷ registry) h = (step s h.0, h.1)
change_at-Fits f step (suc n) (s ∷ registry) h = (h.0, change_at-Fits f step n registry h.1)

opened-Fits :
    (registry : Registry) (s : Subscription)
    → s.events ≡ none
    → All Fits registry
    → All Fits (registry ++ s ∷ [])
opened-Fits [] s e h = (rw e tt, tt)
opened-Fits (r ∷ registry) s e h = (h.0, opened-Fits registry s e h.1)

act-Fits : (a : Act) (registry : Registry) → All Fits registry → All Fits (act a registry)
unfolding act publish_list_changed publish_task_changed unsubscribe receive close_subscriptions
    open_subscription
act-Fits (opens id agreed owner) registry h =
    opened-Fits registry (open_subscription id agreed owner) refl h
act-Fits (publishes_list kind) registry h =
    All-map Fits (tell_list kind) (tell_list-Fits kind) registry h
act-Fits (publishes_task owner task) registry h =
    All-map Fits (tell_task owner task) (tell_task-Fits owner task) registry h
act-Fits (unsubscribes n) registry h = change_at-Fits _ (λ s k. k) n registry h
act-Fits (receives n) registry h = change_at-Fits _ (λ s k. tt) n registry h
act-Fits closes registry h = All-map Fits finish finish-Fits registry h

-- Whatever the server does, from its start, the event that waits for a subscription carries that
-- subscription's identifier and is of a kind, or of a task, that its filter names.
pub acts-Fits : (history : List Act) → All Fits (acts history [])
unfolding acts
acts-Fits history = kept history [] tt
  where
    kept :
        (rest : List Act) (registry : Registry) → All Fits registry → All Fits (acts rest registry)
    kept [] registry h = h
    kept (a ∷ rest) registry h = kept rest (act a registry) (act-Fits a registry h)

get_elem?-change_at :
    (f : Subscription → Subscription) (n : ℕ) (registry : Registry) (s : Subscription)
    → get_elem? registry n ≡ some s
    → get_elem? (change_at f n registry) n ≡ some (f s)
unfolding change_at
get_elem?-change_at f n [] s at = cc
get_elem?-change_at f zero (r ∷ registry) s at =
    let same : r ≡ s = cc in ap (λ (t : Subscription). some (f t)) same
get_elem?-change_at f (suc n) (r ∷ registry) s at = get_elem?-change_at f n registry s at

-- A change of a task is not offered where an event waits.
publish_task_changed_full :
    (owner : String) (task : DetailedTask) (registry : Registry) (n : ℕ) (s : Subscription)
    (e : Event)
    → get_elem? registry n ≡ some s
    → s.events ≡ some e
    → get_elem? (publish_task_changed owner task registry) n ≡ some s
unfolding publish_task_changed tell_task notify
publish_task_changed_full owner task registry n s e at full =
    get_elem?-map (tell_task owner task) registry n s at ∙ ground (arith)

module _ (owner : String) (task : DetailedTask) (registry : Registry) (n : ℕ) (s : Subscription)
    (at : get_elem? registry n ≡ some s) where
  -- A change of an owner's task leaves a subscription of the registry that is another owner's, or
  -- nobody's, as it was.
  pub publish_task_changed_private :
      (s.owner ≡ "") ⊎ (s.owner ≢ owner)
      → get_elem? (publish_task_changed owner task registry) n ≡ some s
  unfolding publish_task_changed tell_task hears_task
  publish_task_changed_private other =
      get_elem?-map (tell_task owner task) registry n s at
      ∙ ground (arith, eq_iff s.owner "", eq_iff s.owner owner)

  -- A change of a known owner's task is delivered to each registered subscription of that owner that
  -- lists the task and where no event waits: it waits there then, under the subscription's identifier.
  publish_task_changed_delivers :
      s.registered ≡ true
      → s.owner ≡ owner
      → owner ≢ ""
      → member task.task_id s.notifications.task_ids ≡ true
      → s.events ≡ none
      → get_elem? (publish_task_changed owner task registry) n
        ≡ some (record s { events = some (task_changed s.id task) })
  unfolding publish_task_changed tell_task hears_task notify
  publish_task_changed_delivers live mine known listed room =
      get_elem?-map (tell_task owner task) registry n s at
      ∙ ground (arith, eq_iff s.owner "", eq_iff s.owner owner)

-- A change of another owner's task, then two of a known owner's, with no reading in between, reach a
-- registered subscription of that owner that lists the task and where no event waits as the first of
-- its own owner's alone: that one waits, the second, be it the last of the task's life, is lost, and
-- after one reading nothing waits.
pub publish_task_changed_overtaken :
    (owner other : String) (foreign task last : DetailedTask) (registry : Registry) (n : ℕ)
    (s : Subscription)
    → get_elem? registry n ≡ some s
    → s.registered ≡ true
    → s.owner ≡ owner
    → owner ≢ ""
    → owner ≢ other
    → member task.task_id s.notifications.task_ids ≡ true
    → s.events ≡ none
    → let changes : List Act =
        publishes_task other foreign ∷ publishes_task owner task ∷ publishes_task owner last ∷ [] in
      (get_elem? (acts changes registry) n
        ≡ some (record s { events = some (task_changed s.id task) }))
      × (get_elem? (acts (receives n ∷ []) (acts changes registry)) n ≡ some s)
unfolding acts act receive
publish_task_changed_overtaken owner other foreign task last registry n s at live mine known apart
      listed room =
    let strange = publish_task_changed other foreign registry in
    let untouched =
      publish_task_changed_private other foreign registry n s at
        (inr (λ e. apart (sym mine ∙ e))) in
    let waits =
      publish_task_changed_full owner last (publish_task_changed owner task strange) n
        (record s { events = some (task_changed s.id task) }) (task_changed s.id task)
        (publish_task_changed_delivers owner task strange n s untouched live mine known listed room)
        refl in
    (
      waits,
      get_elem?-change_at (λ s. record s { events = none }) n _ _ waits
          ∙ ap (λ (e : Option Event). some (record s { events = e })) (sym room),
    )
