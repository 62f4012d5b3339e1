-- ===== src/Progress/Enforce.antt =====
-- The policies of snulbug/mcp_progress.py on requests and on the messages of a response.
use snulbug.Base.{
  ℕ, String, Bool, true, false, ◌||◌, Option, none, some, List, [], ◌∷◌, or_else, ◌==◌,
  if◌then◌else◌,
}
use snulbug.Base.Result.{Result, ok, err}
use Prim.Native.String
use snulbug.Base.Json
use snulbug.Base.Json.{
  Json, Fields, Items, nil, cons, arr, obj, str, end, field, mapping, as_str, int,
}
use snulbug.Base.Int.{negsuc}
use snulbug.State.{PolicyStateStore, StateError}
use snulbug.Progress.{Platform, ProgressPolicyConfig}
use snulbug.Progress.Keys.{progress_method, cancelled_method, task_cancel_method, jsonrpc_id}
use snulbug.Progress.Track.{
  register_request, observe_task_status, cancel_task, observe_request_completion,
}
use snulbug.Progress.Check.{
  Check, unchecked, flagged, missing_request_id, allowed, parse_progress, present, check_progress,
  check_cancelled,
}

-- What the policy on requests answers: whether the request passes, and the check, if there was one.
pub record Outcome : Type 0 where
  pub passes : Bool
  pub check : Option Check

abbrev checked : ProgressPolicyConfig → Check → Outcome
checked config c = record { passes = allowed config c; check = some c }

abbrev unhindered : Outcome
unhindered = record { passes = true; check = none }

-- the checks where there is no store
abbrev pub bare_progress : Platform → Fields → Check
bare_progress py message = elim (parse_progress py message) [
  | err reason ↦ flagged reason
  | ok p ↦ unchecked
]

abbrev pub bare_cancelled : Fields → Check
bare_cancelled message =
    elim (present (Json.get (mapping (Json.get message "params")) "requestId")) [
      | none ↦ flagged missing_request_id
      | some request_id ↦ unchecked
    ]

abbrev task_id_of : Fields → Option String
task_id_of request = elim (as_str (Json.get (mapping (Json.get request "params")) "taskId")) [
  | none ↦ none
  | some id ↦ if id == "" then none else some id
]

abbrev judged {ℓ} :
    {S : Type ℓ}
    → ProgressPolicyConfig
    → Result StateError Check × S
    → Result StateError Outcome × S
judged config (err e, s) = (err e, s)
judged config (ok c, s) = (ok (checked config c), s)

-- `enforce_mcp_progress_request_policy` for a request that is an object
unfoldable pub enforce_request :
    {S : Type 0}
    → Option (PolicyStateStore S)
    → Platform
    → ProgressPolicyConfig
    → ℕ
    → Fields
    → S
    → Result StateError Outcome × S
unfolding allowed parse_progress
enforce_request none py config now request s =
    let method = or_else (as_str (Json.get request "method")) "" in
    (
      ok (
          if method == progress_method
          then checked config (bare_progress py request)
          else if method == cancelled_method
          then checked config (bare_cancelled request)
          else unhindered),
      s,
    )
enforce_request (some store) py config now request s =
    let method = or_else (as_str (Json.get request "method")) "" in
    let observed =
      observe_task_status store py now request (register_request store py now config request s) in
    if method == progress_method
    then judged config (check_progress store py config now request observed)
    else if method == cancelled_method
    then judged config
        (let c = check_cancelled store py config now request observed in (ok c.0, c.1))
    else if method == task_cancel_method
    then elim (task_id_of request) [
      | none ↦ (ok unhindered, observed)
      | some task_id ↦ (ok unhindered, (cancel_task store py now task_id none observed).1)
    ]
    else (ok unhindered, observed)

abbrev is_followed_method : Option String → Bool
is_followed_method none = false
is_followed_method (some method) = method == progress_method || method == cancelled_method

abbrev message_of : Fields → List Fields
message_of m = if is_followed_method (as_str (Json.get m "method")) then m ∷ [] else []

abbrev item_messages : Items → List Fields
item_messages nil = []
item_messages (cons (obj m) xs) =
    let rest = item_messages xs in
    if is_followed_method (as_str (Json.get m "method")) then m ∷ rest else rest
item_messages (cons _ xs) = item_messages xs

-- `mcp_progress_messages_from_payload`
unfoldable pub messages_of : Json → List Fields
messages_of (obj m) = message_of m
messages_of (arr xs) = item_messages xs
messages_of _ = []

-- `_blocked_progress_message` of a message that is followed
unfoldable pub blocked_message : Platform → Fields → Json
unfolding jsonrpc_id
blocked_message py m =
    let method = or_else (as_str (Json.get m "method")) "" in
    obj (
      field "jsonrpc" (str "2.0") (
        field "id" (or_else (jsonrpc_id py m) Json.null) (
          field "error"
            (obj (
              field "code" (int (negsuc 31999)) (
                field "message"
                  (str (String.◌++◌ "MCP " (String.◌++◌ method " blocked by snulbug policy")))
                  (field "data"
                    (obj (
                      field "reason_code" (str "response.progress_cancel_blocked")
                        (field "method" (str method) end)))
                    end))))
            end)))

abbrev block_item : Platform → Fields → Json
block_item py m =
    if is_followed_method (as_str (Json.get m "method")) then blocked_message py m else obj m

abbrev block_items : Platform → Items → Items
block_items py nil = nil
block_items py (cons (obj m) xs) = cons (block_item py m) (block_items py xs)
block_items py (cons x xs) = cons x (block_items py xs)

-- `_block_progress_messages`
unfoldable pub block_messages : Platform → Json → Json
unfolding blocked_message
block_messages py (obj m) = block_item py m
block_messages py (arr xs) = arr (block_items py xs)
block_messages py payload = payload

module _ {S : Type 0} (store : PolicyStateStore S) (py : Platform) (config : ProgressPolicyConfig)
    (now : ℕ) where
  abbrev check_message : Fields → S → Result StateError Check × S
  check_message m s =
      if or_else (as_str (Json.get m "method")) "" == progress_method
      then check_progress store py config now m s
      else let c = check_cancelled store py config now m s in (ok c.0, c.1)

  -- the loop of the policy on responses over the messages of a payload
  unfoldable pub check_messages : List Fields → S → Result StateError (List Check) × S
  check_messages [] s = (ok [], s)
  check_messages (m ∷ ms) s =
      let first = check_message m s in
      let rest = check_messages ms first.1 in
      elim first.0 [
        | err e ↦ (err e, first.1)
        | ok c ↦ elim rest.0 [ err e ↦ (err e, rest.1) | ok cs ↦ (ok (c ∷ cs), rest.1) ]
      ]

  abbrev all_pass : List Check → Bool
  all_pass [] = true
  all_pass (c ∷ cs) = let rest = all_pass cs in if allowed config c then rest else false

  abbrev object_of : Json → Option Fields
  object_of (obj m) = some m
  object_of _ = none

  -- `enforce_mcp_progress_response_policy` for a payload that was read: what is passed on
  unfoldable pub enforce_response : Fields → Json → S → Result StateError Json × S
  unfolding messages_of check_messages block_messages observe_request_completion allowed
  enforce_response request payload s =
      let checks = check_messages (messages_of payload) s in
      elim checks.0 [
        | err e ↦ (err e, checks.1)
        | ok cs ↦ (
          ok (if all_pass cs then payload else block_messages py payload),
          observe_request_completion store py now request (object_of payload) checks.1,
        )
      ]
