-- ===== src/Subscriptions.antt =====
-- snulbug/mcp_subscriptions.py: the filter of a `subscriptions/listen` request, and the
-- notifications that the stream of one subscription lets through.
pub mod Scope
pub mod Delivery
mod Tests
use Prim.Native.String.{count}
use snulbug.Base.{
  ℕ, ◌+◌, String, Bool, true, false, ◌&&◌, ◌||◌, not, Option, none, some, List, [], ◌∷◌, ltb,
  length, any, all, contains, subset, keep, is_some, ◌==◌, if◌then◌else◌, or_else,
}
use snulbug.Base.Dict
use snulbug.Base.Dict.{Dict}
use snulbug.Base.Int.{ℤ}
use snulbug.Base.Json
use snulbug.Base.Json.{
  Json, Fields, Items, null, bool, int, str, arr, obj, nil, cons, field, keys, mapping, as_str,
  as_strs, is_true, eqb_ℤ,
}

abbrev pub acknowledged : String
acknowledged = "notifications/subscriptions/acknowledged"

abbrev pub subscription_id : String
subscription_id = "io.modelcontextprotocol/subscriptionId"

abbrev pub resource_updated : String
resource_updated = "notifications/resources/updated"

-- `CHANGE_FILTERS`, from the method of a notification to the key of its filter
abbrev pub change_filters : Dict String
change_filters =
    ("notifications/tools/list_changed", "toolsListChanged")
    ∷ ("notifications/prompts/list_changed", "promptsListChanged")
    ∷ ("notifications/resources/list_changed", "resourcesListChanged")
    ∷ []

abbrev pub filter_keys : List String
filter_keys = "toolsListChanged" ∷ "promptsListChanged" ∷ "resourcesListChanged" ∷ []

-- The messages of the issues, by what they say.
pub data Issue : Type 0 where
  unknown_fields not_booleans bad_uris extra_params : Issue
  mismatched_id acknowledged_twice broader_changes broader_uris : Issue
  not_acknowledged change_not_acknowledged uri_not_acknowledged not_permitted : Issue

-- type(value[key]) is not bool, for a key that is there
abbrev not_bool : Option Json → Bool
not_bool none = false
not_bool (some (bool b)) = false
not_bool (some _) = true

abbrev distinct : List String → Bool
distinct [] = true
distinct (x ∷ xs) = not (contains xs x) && distinct xs

-- a list of at most 128 distinct texts of 1 to 4096 characters
uris_ok : Option (List String) → Bool
uris_ok none = false
uris_ok (some uris) =
    not (ltb 128 (length uris))
    && (all (λ uri. not (uri == "") && not (ltb 4096 (count uri))) uris && distinct uris)

uris_issue : Option Json → Option Issue
unfolding uris_ok
uris_issue none = none
uris_issue (some (arr xs)) = if uris_ok (as_strs xs) then none else some bad_uris
uris_issue (some _) = some bad_uris

unfoldable pub filter_issue : Option Json → Option Issue
unfolding uris_issue
filter_issue (some (obj m)) =
    if not (subset (keys m) ("resourceSubscriptions" ∷ filter_keys))
    then some unknown_fields
    else if any (λ k. not_bool (Json.get m k)) filter_keys
    then some not_booleans
    else uris_issue (Json.get m "resourceSubscriptions")
filter_issue _ = some unknown_fields

unfoldable pub request_issue : Fields → Option Issue
unfolding filter_issue
request_issue params =
    if not (subset (keys params) ("_meta" ∷ "notifications" ∷ []))
    then some extra_params
    else filter_issue (Json.get params "notifications")

-- A request id: a text or an integer.
pub data Identifier : Type 0 where
  name : String → Identifier
  number : ℤ → Identifier

-- `type(supplied) is type(identifier) and supplied == identifier`
abbrev is_id : Option Json → Identifier → Bool
is_id (some (str s)) (name t) = s == t
is_id (some (int n)) (number m) = eqb_ℤ n m
is_id _ _ = false

unfoldable pub matching_id : Fields → Identifier → Bool
matching_id container identifier =
    is_id (Json.get (mapping (Json.get container "_meta")) subscription_id) identifier

pub record Subscription : Type 0 where
  pub identifier : Identifier
  pub requested : Fields
  pub accepted : Option Fields
  pub counts : Dict ℕ

unfoldable pub new : Identifier → Fields → Subscription
new identifier requested = record {
  identifier = identifier;
  requested = requested;
  accepted = none;
  counts = [];
}

-- `m.get("resourceSubscriptions", [])` of a filter without issue
unfoldable pub resources : Fields → List String
resources m = elim (Json.get m "resourceSubscriptions") [
  | some (arr xs) ↦ or_else (as_strs xs) []
  | _ ↦ []
]

abbrev pub counted : Option ℕ → ℕ
counted none = 0
counted (some n) = n

-- `m.get(key) is True`
unfoldable pub sets : Fields → String → Bool
sets m key = is_true (Json.get m key)

-- whether `accepted` sets a change that `requested` does not
unfoldable pub broadens : Fields → Fields → Bool
broadens accepted requested = any (λ key. sets accepted key && not (sets requested key)) filter_keys

-- the checks of an acknowledgment's filter
unfoldable pub acknowledge_issue : Subscription → Option Json → Option Issue
acknowledge_issue s supplied =
    if is_some s.accepted then some acknowledged_twice else elim (filter_issue supplied) [
      | some issue ↦ some issue
      | none ↦
          let m = mapping supplied in
          if broadens m s.requested
          then some broader_changes
          else if not (subset (resources m) (resources s.requested))
          then some broader_uris
          else none
    ]

-- the checks of a notification that is no acknowledgment
unfoldable pub delivery_issue : Option Fields → Option String → Fields → Option Issue
delivery_issue none method params = some not_acknowledged
delivery_issue (some accepted) none params = some not_permitted
delivery_issue (some accepted) (some method) params = elim (Dict.get change_filters method) [
  | some key ↦ if sets accepted key then none else some change_not_acknowledged
  | none ↦
      if method == resource_updated
      then elim (as_str (Json.get params "uri")) [
        | some uri ↦ if contains (resources accepted) uri then none else some uri_not_acknowledged
        | none ↦ some uri_not_acknowledged
      ]
      else some not_permitted
]

-- self.counts[method] = self.counts.get(method, 0) + 1
abbrev pub count_event : Subscription → String → Subscription
count_event s method = record s {
  counts = Dict.put s.counts method (counted (Dict.get s.counts method) + 1);
}

abbrev pub is_acknowledgment : Option String → Bool
is_acknowledgment none = false
is_acknowledgment (some method) = method == acknowledged

-- the end of `notification_issue`: a message with an issue changes nothing
abbrev pub settle : Option Issue → Subscription → Subscription → Option Issue × Subscription
settle (some issue) s s' = (some issue, s)
settle none s s' = (none, s')

unfoldable pub notify_with : Subscription → Option String → Fields → Option Issue × Subscription
notify_with s method params =
    if is_acknowledgment method
    then settle (acknowledge_issue s (Json.get params "notifications")) s (
        count_event (record s { accepted = some (mapping (Json.get params "notifications")) })
          (or_else method ""))
    else settle (delivery_issue s.accepted method params) s (count_event s (or_else method ""))

-- the rest of `notification_issue` for its `params`
unfoldable pub notify_params : Subscription → Fields → Option Json → Option Issue × Subscription
unfolding matching_id
notify_params s message (some (obj params)) =
    if matching_id params s.identifier
    then notify_with s (as_str (Json.get message "method")) params
    else (some mismatched_id, s)
notify_params s message _ = (some mismatched_id, s)

unfoldable pub notification_issue : Subscription → Fields → Option Issue × Subscription
unfolding notify_params
notification_issue s message = notify_params s message (Json.get message "params")

-- The messages of a stream, each judged in the state that those before it left.
unfoldable pub receive : Subscription → List Fields → Subscription
receive s [] = s
receive s (message ∷ messages) = receive (notification_issue s message).1 messages

-- `summary`, less the counts, which are the state's
pub record Summary : Type 0 where
  pub acknowledged : Bool
  pub requested_changes : List String
  pub requested_resources : ℕ
  pub accepted_changes : List String
  pub accepted_resources : ℕ
  pub events : Dict ℕ

abbrev true_keys : Fields → List String
true_keys m = keep (sets m) filter_keys

unfoldable pub summary : Subscription → Summary
summary s =
    let accepted = or_else s.accepted Json.end in
    record {
      acknowledged = is_some s.accepted;
      requested_changes = true_keys s.requested;
      requested_resources = length (resources s.requested);
      accepted_changes = true_keys accepted;
      accepted_resources = length (resources accepted);
      events = s.counts;
    }
