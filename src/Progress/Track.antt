-- ===== src/Progress/Track.antt =====
-- The records of snulbug/mcp_progress.py: a request is registered with its token, and forgotten when
-- it or its task is done.
use snulbug.Base.{
  ℕ, String, Bool, true, false, not, ◌&&◌, ◌||◌, Option, none, some, contains, ◌==◌, if◌then◌else◌,
}
use snulbug.Base.Json
use snulbug.Base.Json.{Json, Fields, null, bool, str, obj, end, field, as_str, is_true, either}
use snulbug.State.{PolicyStateStore}
use snulbug.Tasks.{request_metadata, response_metadata}
use snulbug.Progress.{Platform, ProgressPolicyConfig}
use snulbug.Progress.Keys.{
  drop_empty, progress_token, jsonrpc_id, progress_key, request_key, task_key, load_json,
  progress_method, cancelled_method, terminal_statuses,
}

abbrev hash_or_null : Platform → Option Json → Json
hash_or_null py none = null
hash_or_null py (some token) = str (py.token_hash token)

abbrev is_empty_record : Fields → Bool
is_empty_record end = true
is_empty_record (field k v m) = false

abbrev pub is_terminal : Option String → Bool
is_terminal none = false
is_terminal (some status) = contains terminal_statuses status

-- if terminal_status: progress["terminal_status"] = terminal_status
abbrev with_terminal_status : Fields → Option String → Fields
with_terminal_status progress none = progress
with_terminal_status progress (some status) =
    if status == "" then progress else Json.put progress "terminal_status" (str status)

abbrev metadata_of : Option Fields → Fields
metadata_of none = end
metadata_of (some payload) = response_metadata payload

module _ {S : Type 0} (store : PolicyStateStore S) (py : Platform) (now : ℕ) where
  -- the record of a token that is registered
  unfoldable pub token_record : Json → Json → String → Bool → Fields
  unfolding drop_empty
  token_record token request_id method task_augmented = drop_empty (
      field "token_hash" (str (py.token_hash token)) (
        field "request_id" request_id (
          field "method" (str method) (
            field "task_augmented" (bool task_augmented)
              (field "last_progress" null (field "terminal" (bool false) end))))))

  -- the writes of `_register_request`
  unfoldable pub register : ProgressPolicyConfig → Fields → Json → String → S → S
  unfolding token_record drop_empty request_metadata progress_token request_key progress_key
  register config request request_id method s =
      let task_augmented = is_true (Json.get (request_metadata request) "task_augmented") in
      let token = progress_token request in
      let record_ = drop_empty (
        field "request_id" request_id (
          field "method" (str method) (
            field "task_augmented" (bool task_augmented)
              (field "progress_token_hash" (hash_or_null py token) end)))) in
      let s1 =
        store.put now s (request_key py request_id) (py.dumps (obj record_))
          (some config.state_ttl) in
      elim token [
        | none ↦ s1
        | some t ↦
            store.put now s1 (progress_key py t)
              (py.dumps (obj (token_record t request_id method task_augmented)))
              (some config.state_ttl)
      ]

  -- `_register_request`
  unfoldable pub register_request : ProgressPolicyConfig → Fields → S → S
  unfolding register jsonrpc_id
  register_request config request s = elim (as_str (Json.get request "method")) [
    | none ↦ s
    | some method ↦ elim (jsonrpc_id py request) [
      | none ↦ s
      | some request_id ↦
          if method == progress_method || method == cancelled_method
          then s
          else register config request request_id method s
    ]
  ]

  -- the progress record of a task that is done: it is marked, and then deleted
  unfoldable pub end_progress : Option String → Option String → S → S
  unfolding load_json
  end_progress none terminal_status s = s
  end_progress (some key) terminal_status s =
      let found = store.get now s key in
      let progress = load_json py found.0 in
      let marked = Json.put progress "terminal" (bool true) in
      let with_status = with_terminal_status marked terminal_status in
      let written =
        if is_empty_record progress
        then found.1
        else store.put now found.1 key (py.dumps (obj with_status)) (some 60000000) in
      (store.delete now written key).1

  abbrev forget_request : Option Json → S → S
  forget_request none s = s
  forget_request (some null) s = s
  forget_request (some id) s = (store.delete now s (request_key py id)).1

  -- `_cancel_task`, and whether there was a record
  unfoldable pub cancel_task : String → Option String → S → Bool × S
  unfolding load_json task_key end_progress request_key
  cancel_task task_id terminal_status s =
      let found = store.get now s (task_key py task_id) in
      let record_ = load_json py found.0 in
      let ended = end_progress (as_str (Json.get record_ "progress_key")) terminal_status found.1 in
      let forgotten = forget_request (Json.get record_ "request_id") ended in
      if is_empty_record record_
      then (false, found.1)
      else (true, (store.delete now forgotten (task_key py task_id)).1)

  -- `_observe_task_status_request`
  unfoldable pub observe_task_status : Fields → S → S
  unfolding cancel_task request_metadata
  observe_task_status request s =
      let metadata = request_metadata request in
      let status = as_str (Json.get metadata "task_status") in
      elim (as_str (either (Json.get metadata "task_id") (Json.get metadata "related_task_id"))) [
        | none ↦ s
        | some task_id ↦ if is_terminal status then (cancel_task task_id status s).1 else s
      ]

  abbrev track_task : Option String → Option Json → Json → S → S
  track_task (some task_id) (some token) request_id s =
      store.put now s (task_key py task_id)
        (py.dumps (
          obj (
            field "task_id" (str task_id) (
              field "request_id" request_id (
                field "progress_token_hash" (str (py.token_hash token))
                  (field "progress_key" (str (progress_key py token)) end))))))
        (some 3600000000)
  track_task _ _ request_id s = s

  abbrev forget_token : Option Json → S → S
  forget_token none s = s
  forget_token (some token) s = (store.delete now s (progress_key py token)).1

  -- the end of a request that is answered
  abbrev complete : Option String → Option String → Bool → Option Json → Json → S → S
  complete task_id status task_augmented token request_id s =
      let forgotten = forget_token token (store.delete now s (request_key py request_id)).1 in
      let waits = task_augmented && not (is_terminal status) in
      elim task_id [
        | none ↦ if waits then s else forgotten
        | some id ↦
            let cancelled = (cancel_task id status s).1 in
            if is_terminal status then cancelled else if waits then s else forgotten
      ]

  -- `_observe_request_completion`, for a payload that is an object or another value
  unfoldable pub observe_request_completion : Fields → Option Fields → S → S
  unfolding cancel_task request_metadata response_metadata progress_token jsonrpc_id task_key
      progress_key request_key
  observe_request_completion request payload s = elim (jsonrpc_id py request) [
    | none ↦ s
    | some request_id ↦
        let token = progress_token request in
        let task_augmented = is_true (Json.get (request_metadata request) "task_augmented") in
        let response_task = metadata_of payload in
        let task_id = as_str (Json.get response_task "task_id") in
        let status = as_str (Json.get response_task "task_status") in
        complete task_id status task_augmented token request_id
          (track_task task_id token request_id s)
  ]
