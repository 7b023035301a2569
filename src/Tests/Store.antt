-- ===== src/Tests/Store.antt =====
-- The task store and the subscriptions on concrete inputs.
use mcp_from_scratch.Protocol.Tasks.{validate_task}
use mcp_from_scratch.Json.Decode.{bool_member}
use mcp_from_scratch.Json.Decode.{struct_member}
use mcp_from_scratch.Json.{get as json_get}
use mcp_from_scratch.Json.Decode.{string_member}
use mcp_from_scratch.Json.Decode.{as_struct}
use mcp_from_scratch.Tasks.{lookup_locked}
use mcp_from_scratch.Context.{context_err}
use mcp_from_scratch.Base.Decimal.{pos}
use mcp_from_scratch.Protocol.Ids.{number, text}
use mcp_from_scratch.Protocol.Tasks.{DetailedTask, input_required, completed, terminal}
use mcp_from_scratch.Tasks.{
  TaskRecord, Tasks, gets, cancels, expired, create, get, update, complete, approves, after, run,
  deferred_echo_input_key,
}
use mcp_from_scratch.Tasks.{expired_task}
use mcp_from_scratch.Tasks.Lifecycle.{MovesAt, after-Move, admitted}
use mcp_from_scratch.Tasks.Ownership.{run_by_others_keeps}
use mcp_from_scratch.Tasks.Expiry.{expired_at_birth, run-terminal}
use mcp_from_scratch.Tasks.Outcomes.{update-ok, get-create, get-create-expired, AllApprove}
use mcp_from_scratch.Subscriptions.{
  Subscription, SubscriptionFilter, publish_task_changed, task_changed, tool_list_change,
}
use mcp_from_scratch.Subscriptions.Delivery.{
  Act, opens, publishes_list, publishes_task, receives, acts, Fits, acts-Fits,
  publish_task_changed_private, publish_task_changed_overtaken,
}
use mcp_from_scratch.Json.{Raw}
use mcp_from_scratch.Tests.{alice, bob, waiting, alices, acceptance}
use mcp_from_scratch.Base.{
  String, ◌≡◌, refl, ◌≢◌, inr, true, false, none, some, List, [], ◌∷◌, arith, All, get_elem?, Map,
  lookup, insert, ok, err,
}

abbrev held : Tasks
held = ("t1", alices) ∷ []

after-Move_example : MovesAt 2000 "t1" held (after 2000 (cancels alice "t1" "alice") held)
after-Move_example = after-Move 2000 (cancels alice "t1" "alice") held "t1"

run_by_others_keeps_example :
    lookup "t1" (run ((2000, cancels bob "t1" "bob") ∷ (3000, gets bob "t1" "bob") ∷ []) held)
    ≡ some alices
unfolding lookup
run_by_others_keeps_example =
    run_by_others_keeps ((2000, cancels bob "t1" "bob") ∷ (3000, gets bob "t1" "bob") ∷ []) held
      "t1" alices refl ((λ e. cc), ((λ e. cc), tt))

abbrev responses : Map Raw
responses = (deferred_echo_input_key, some acceptance) ∷ []

abbrev approved : TaskRecord
approved = complete responses 2000 alices

update-ok_example :
    (r : TaskRecord) × (lookup "t1" held ≡ some r)
    × (r.owner ≡ "alice")
    × (expired r.task 2000 ≡ false)
    × (r.task.status ≡ input_required)
    × (responses ≢ [])
    × AllApprove responses
    × (approved ≡ complete responses 2000 r)
    × ((update alice "t1" "alice" responses 2000 held).1 ≡ insert "t1" approved held)
unfolding update context_err lookup_locked lookup expired terminal approves as_struct string_member
    json_get struct_member bool_member
update-ok_example = update-ok alice "t1" "alice" responses 2000 held approved refl

get-create_example :
    get alice "t1" "alice" 2000 (create alice alices []).1
    ≡ (ok (admitted alices), (create alice alices []).1)
unfolding create expired context_err validate_task terminal lookup
get-create_example = get-create alice alices [] tt 2000 refl refl refl

get-create-expired_example :
    ((get alice "t1" "alice" 5001000 (create alice alices []).1).0 ≡ err expired_task)
    × (lookup "t1" (get alice "t1" "alice" 5001000 (create alice alices []).1).1 ≡ none)
unfolding create expired context_err validate_task terminal lookup
get-create-expired_example = get-create-expired alice alices [] tt 5001000 refl refl refl

abbrev long_lived : DetailedTask
long_lived = record waiting { ttl_ms = some (pos 9223372036855) }

expired_at_birth_example : expired long_lived 1000 ≡ true
expired_at_birth_example =
    expired_at_birth long_lived 9223372036855 1000 refl refl (omega arith) (omega arith)

abbrev finished : TaskRecord
finished = record alices { task = record waiting { status = completed } }

run-terminal_example :
    lookup "t1" (run ((2000, cancels alice "t1" "alice") ∷ []) (("t1", finished) ∷ []))
    ≡ some finished
unfolding terminal expired lookup
run-terminal_example =
    run-terminal ((2000, cancels alice "t1" "alice") ∷ []) (("t1", finished) ∷ []) "t1" finished
      refl refl (refl, tt)

abbrev follows_t1 : SubscriptionFilter
follows_t1 = record {
  tools_list_changed = true;
  resources_list_changed = false;
  prompts_list_changed = false;
  task_ids = "t1" ∷ [];
}

abbrev history : List Act
history =
    opens (number (pos 1)) follows_t1 "alice"
    ∷ opens (text "b") follows_t1 "bob"
    ∷ publishes_list tool_list_change
    ∷ receives 0
    ∷ publishes_task "alice" waiting
    ∷ []

acts-Fits_example : All Fits (acts history [])
acts-Fits_example = acts-Fits history

abbrev subscriber : String → Subscription
subscriber owner = record {
  id = text "s";
  notifications = follows_t1;
  owner = owner;
  events = none;
  complete = false;
  done = false;
  registered = true;
}

publish_task_changed_private_example :
    get_elem? (publish_task_changed "alice" waiting (subscriber "bob" ∷ [])) 0
    ≡ some (subscriber "bob")
publish_task_changed_private_example =
    publish_task_changed_private "alice" waiting (subscriber "bob" ∷ []) 0 (subscriber "bob") refl
      (inr (λ e. cc))

publish_task_changed_overtaken_example :
    let changes : List Act =
      publishes_task "bob" waiting
      ∷ publishes_task "alice" waiting
      ∷ publishes_task "alice" finished.task
      ∷ [] in
    (get_elem? (acts changes (subscriber "alice" ∷ [])) 0
      ≡ some (record (subscriber "alice") { events = some (task_changed (text "s") waiting) }))
    × (get_elem? (acts (receives 0 ∷ []) (acts changes (subscriber "alice" ∷ []))) 0
        ≡ some (subscriber "alice"))
publish_task_changed_overtaken_example =
    publish_task_changed_overtaken "alice" "bob" waiting waiting finished.task
      (subscriber "alice" ∷ []) 0 (subscriber "alice") refl refl refl (λ e. cc) (λ e. cc) refl refl
