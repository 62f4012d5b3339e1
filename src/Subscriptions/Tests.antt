-- ===== src/Subscriptions/Tests.antt =====
-- Runs of the subscriptions of snulbug/mcp_subscriptions.py on short streams.
use snulbug.Base.{◌≡◌, refl, String, true, none, some, [], ◌∷◌, is_some, if◌then◌else◌}
use snulbug.Base.Dict
use snulbug.Base.Json
use snulbug.Base.Json.{Json, Fields, Items, bool, str, arr, obj, nil, cons, field, end, as_str}
use snulbug.Subscriptions.{
  Identifier, name, Subscription, Issue, mismatched_id, acknowledged, subscription_id, matching_id,
  counted, notification_issue, notify_params, notify_with, receive,
}
use snulbug.Subscriptions
use snulbug.Subscriptions.Scope.{Narrows, receive-narrow}
use snulbug.Subscriptions.Delivery.{Asked, passed-Asked}

abbrev wanted : Fields
wanted =
    field "toolsListChanged" (bool true)
      (field "resourceSubscriptions" (arr (cons (str "file:///a") nil)) end)

abbrev meta : Fields → Fields
meta = field "_meta" (obj (field subscription_id (str "s1") end))

abbrev message : String → Fields → Fields
message method params = field "method" (str method) (field "params" (obj params) end)

abbrev acknowledgment : Fields
acknowledgment = message acknowledged (meta (field "notifications" (obj wanted) end))

abbrev changed_params : Fields
changed_params = meta end

abbrev changed : Fields
changed = message "notifications/tools/list_changed" changed_params

abbrev fresh : Subscription
fresh = Subscriptions.new (name "s1") wanted

changed-params : Json.get changed "params" ≡ some (Json.obj changed_params)
unfolding Json.get
changed-params = refl

changed-method : as_str (Json.get changed "method") ≡ some "notifications/tools/list_changed"
unfolding Json.get
changed-method = refl

changed-passes : (notification_issue (receive fresh (acknowledgment ∷ [])) changed).0 ≡ none
unfolding notification_issue notify_params notify_with receive Subscriptions.new matching_id
    Json.get Dict.get Dict.put Subscriptions.acknowledge_issue Subscriptions.delivery_issue
    Subscriptions.filter_issue Subscriptions.broadens Subscriptions.resources Subscriptions.sets
changed-passes = refl

passed-Asked_example :
    (matching_id changed_params (name "s1") ≡ true)
    × Asked wanted "notifications/tools/list_changed" changed_params
passed-Asked_example =
    passed-Asked (name "s1") wanted (acknowledgment ∷ []) changed changed_params
      "notifications/tools/list_changed" changed-params changed-method changed-passes

receive-narrow_example :
    ((receive fresh (acknowledgment ∷ changed ∷ [])).requested ≡ wanted)
    × ((m : Fields)
        → (receive fresh (acknowledgment ∷ changed ∷ [])).accepted ≡ some m
        → Narrows m wanted)
    × (counted (Dict.get (receive fresh (acknowledgment ∷ changed ∷ [])).counts acknowledged)
        ≡ (if is_some (receive fresh (acknowledgment ∷ changed ∷ [])).accepted then 1 else 0))
receive-narrow_example = receive-narrow (name "s1") wanted (acknowledgment ∷ changed ∷ [])

foreign_message : (notification_issue fresh (message acknowledged end)).0 ≡ some mismatched_id
unfolding notification_issue notify_params Subscriptions.new matching_id Json.get
foreign_message = refl
