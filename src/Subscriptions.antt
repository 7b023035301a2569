-- ===== src/Subscriptions.antt =====
-- Subscriptions of internal/mcpserver/subscriptions.go. The registry keeps every subscription that
-- was opened, in order; `registered` says that it is in the server's set. A subscription's channel
-- of events has room for one, and its closed channels are flags. Publishing is one step here, where
-- the source lets go of the lock between its snapshot of the set and the sends.
pub mod Delivery
use mcp_from_scratch.Protocol.Ids.{RequestId, marshal_id}
use mcp_from_scratch.Protocol.Requests.{Notification, Response}
use mcp_from_scratch.Protocol.Tasks.{DetailedTask}
use mcp_from_scratch.Base.{
  ℕ, zero, suc, String, Bool, true, false, not, ◌&&◌, ◌||◌, Option, none, some, List, [], ◌∷◌, map,
  arith, ◌==◌, if◌then◌else◌, member,
}
use mcp_from_scratch.Json.{
  Json, null, bool, str, arr, obj, Fields, end, field, Raw, object, strings,
}

pub record SubscriptionFilter : Type 0 where
  pub tools_list_changed : Bool
  pub resources_list_changed : Bool
  pub prompts_list_changed : Bool
  pub task_ids : List String

pub data ListChangeKind : Type 0 where
  tool_list_change resource_list_change prompt_list_change : ListChangeKind

-- What a stream carries besides its acknowledgement, with the identifier that tags it.
pub data Event : Type 0 where
  list_changed : RequestId → ListChangeKind → Event
  task_changed : RequestId → DetailedTask → Event

pub record Subscription : Type 0 where
  pub id : RequestId
  pub notifications : SubscriptionFilter
  pub owner : String
  pub events : Option Event
  pub complete : Bool
  pub done : Bool
  pub registered : Bool

abbrev pub Registry : Type 0
Registry = List Subscription

unfoldable pub accepts : SubscriptionFilter → ListChangeKind → Bool
accepts f tool_list_change = f.tools_list_changed
accepts f resource_list_change = f.resources_list_changed
accepts f prompt_list_change = f.prompts_list_changed

unfoldable pub open_subscription : RequestId → SubscriptionFilter → String → Subscription
open_subscription id agreed owner = record {
  id = id;
  notifications = agreed;
  owner = owner;
  events = none;
  complete = false;
  done = false;
  registered = true;
}

-- The send does not wait: a message that finds the channel full is dropped.
offered : Option Event → Event → Option Event
offered none message = some message
offered (some waiting) message = some waiting

notify : Event → Subscription → Subscription
unfolding offered
notify message s = record s { events = offered s.events message }

hears_list : ListChangeKind → Subscription → Bool
hears_list kind s = s.registered && accepts s.notifications kind

tell_list : ListChangeKind → Subscription → Subscription
unfolding notify hears_list
tell_list kind s = if hears_list kind s then notify (list_changed s.id kind) s else s

unfoldable pub publish_list_changed : ListChangeKind → Registry → Registry
unfolding tell_list
publish_list_changed kind registry = map (tell_list kind) registry

hears_task : String → DetailedTask → Subscription → Bool
hears_task owner task s =
    s.registered
    && not (s.owner == "" || not (s.owner == owner))
    && member task.task_id s.notifications.task_ids

tell_task : String → DetailedTask → Subscription → Subscription
unfolding notify hears_task
tell_task owner task s = if hears_task owner task s then notify (task_changed s.id task) s else s

unfoldable pub publish_task_changed : String → DetailedTask → Registry → Registry
unfolding tell_task
publish_task_changed owner task registry = map (tell_task owner task) registry

-- The subscription at a position of the registry is the pointer that its stream holds.
change_at : (Subscription → Subscription) → ℕ → Registry → Registry
change_at f n [] = []
change_at f zero (s ∷ registry) = f s ∷ registry
change_at f (suc n) (s ∷ registry) = s ∷ change_at f n registry

unfoldable pub unsubscribe : ℕ → Registry → Registry
unfolding change_at
unsubscribe = change_at (λ s. record s { registered = false; done = true })

finish : Subscription → Subscription
finish s = if s.registered then record s { complete = true } else s

unfoldable pub close_subscriptions : Registry → Registry
unfolding finish
close_subscriptions registry = map finish registry

-- The stream takes the event that waits, `message := <-subscriber.events`.
unfoldable pub receive : ℕ → Registry → Registry
unfolding change_at
receive = change_at (λ s. record s { events = none })

abbrev meta_of : Raw → Json
meta_of none = null
meta_of (some id) = obj (object (("io.modelcontextprotocol/subscriptionId", id) ∷ []))

abbrev flag : String → Bool → Fields → Fields
flag k true fs = field k (bool true) fs
flag k false fs = fs

abbrev ids_member : List String → Fields
ids_member [] = end
ids_member (t ∷ ts) = field "taskIds" (arr (strings (t ∷ ts))) end

filter_json : SubscriptionFilter → Json
filter_json f = obj (
    flag "toolsListChanged" f.tools_list_changed (
      flag "resourcesListChanged" f.resources_list_changed
        (flag "promptsListChanged" f.prompts_list_changed (ids_member f.task_ids))))

unfoldable pub subscription_acknowledged_notification :
    RequestId → SubscriptionFilter → Notification
unfolding filter_json
subscription_acknowledged_notification id agreed = record {
  jsonrpc = "2.0";
  method = "notifications/subscriptions/acknowledged";
  params = some (
      obj
        (object (("_meta", meta_of (marshal_id id)) ∷ ("notifications", filter_json agreed) ∷ [])));
}

abbrev change_method : ListChangeKind → String
change_method tool_list_change = "notifications/tools/list_changed"
change_method resource_list_change = "notifications/resources/list_changed"
change_method prompt_list_change = "notifications/prompts/list_changed"

unfoldable pub list_changed_notification : RequestId → ListChangeKind → Notification
list_changed_notification id kind = record {
  jsonrpc = "2.0";
  method = change_method kind;
  params = some (obj (object (("_meta", meta_of (marshal_id id)) ∷ [])));
}

unfoldable pub subscription_complete_response : RequestId → Response
subscription_complete_response id = record {
  jsonrpc = "2.0";
  id = some id;
  result =
      some
        (obj (object (("resultType", str "complete") ∷ ("_meta", meta_of (marshal_id id)) ∷ [])));
  error = none;
}
