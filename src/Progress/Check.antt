-- ===== src/Progress/Check.antt =====
-- The checks of snulbug/mcp_progress.py on notifications of progress and of cancellation.
use snulbug.Base.{
  ℕ, String, ◌&&◌, Bool, true, false, not, Option, none, some, or_else, ◌==◌, if◌then◌else◌,
}
use snulbug.Base.Result.{Result, ok, err}
use snulbug.Base.Int.{pos, ltb_ℤ}
use snulbug.Base.Json
use snulbug.Base.Json.{Json, Fields, null, bool, str, obj, end, field, mapping, as_str, is_true}
use snulbug.State.{PolicyStateStore, StateError}
use snulbug.Progress.{
  Platform, ProgressPolicyConfig, allow, warn, block, is_number, parts_of, less_than,
}
use snulbug.Progress.Keys.{
  valid_token, progress_key, progress_key_from_hash, progress_rate_key, request_key, load_json,
}

-- Why a notification is flagged.
pub data Reason : Type 0 where
  missing_token invalid_value invalid_total exceeds_total : Reason
  rate_limited unknown_token after_terminal non_monotonic : Reason
  missing_request_id unknown_request initialize_forbidden task_requires_tasks_cancel : Reason

-- What a check says: there is no store to ask, the notification is followed, or it is flagged.
pub data Check : Type 0 where
  unchecked followed : Check
  flagged : Reason → Check

-- `_flag` and `_allowed`: whether the message passes
unfoldable pub allowed : ProgressPolicyConfig → Check → Bool
allowed config (flagged reason) = elim config.action [ allow ↦ true | warn ↦ true | block ↦ false ]
allowed config _ = true

-- The parts of a notification of progress that are valid.
pub record Progress : Type 0 where
  pub token : Json
  pub progress : Json
  pub total : Option Json

abbrev total_issue : Platform → Json → Option Json → Option Reason
total_issue py progress none = none
total_issue py progress (some total) =
    if not (is_number total)
    then some invalid_total
    else if less_than py total progress
    then some exceeds_total
    else none

abbrev pub present : Option Json → Option Json
present (some null) = none
present v = v

-- the checks of the notification itself, in their order
unfoldable pub parse_progress : Platform → Fields → Result Reason Progress
unfolding valid_token
parse_progress py message =
    let params = mapping (Json.get message "params") in
    let progress = or_else (Json.get params "progress") null in
    let total = present (Json.get params "total") in
    elim (valid_token (Json.get params "progressToken")) [
      | none ↦ err missing_token
      | some token ↦
          if not (is_number progress)
          then err invalid_value
          else elim (total_issue py progress total) [
            | some reason ↦ err reason
            | none ↦ ok (record { token = token; progress = progress; total = total })
          ]
    ]

abbrev pub is_empty_record : Fields → Bool
is_empty_record end = true
is_empty_record (field k v m) = false

-- isinstance(previous, int | float) and progress <= previous
unfoldable pub falls_back : Platform → Option Json → Json → Bool
falls_back py none progress = false
falls_back py (some previous) progress = elim (parts_of previous) [
  | none ↦ false
  | some p ↦
      not (py.is_nan previous) && not (py.is_nan progress) && not (less_than py previous progress)
]

-- the checks of a record
unfoldable pub record_issue : Platform → Fields → Json → Option Reason
unfolding falls_back
record_issue py record_ progress =
    if is_empty_record record_
    then some unknown_token
    else if is_true (Json.get record_ "terminal")
    then some after_terminal
    else if falls_back py (Json.get record_ "last_progress") progress
    then some non_monotonic
    else none

abbrev with_total : Fields → Option Json → Fields
with_total record_ none = record_
with_total record_ (some total) = Json.put record_ "total" total

-- the record that is written
unfoldable pub advanced : Fields → Progress → Fields
advanced record_ p = with_total (Json.put record_ "last_progress" p.progress) p.total

module _ {S : Type 0} (store : PolicyStateStore S) (py : Platform) (config : ProgressPolicyConfig)
    (now : ℕ) where
  -- the check of the record of a token
  unfoldable pub follow : Progress → S → Check × S
  follow p s =
      let key = progress_key py p.token in
      let found = store.get now s key in
      let record_ = load_json py found.0 in
      elim (record_issue py record_ p.progress) [
        | some reason ↦ (flagged reason, found.1)
        | none ↦ (
          followed,
          store.put now found.1 key (py.dumps (obj (advanced record_ p))) (some config.state_ttl),
        )
      ]

  -- the rest of `_check_progress_notification`, from the counter of the rate on
  unfoldable pub check_rate : Progress → S → Result StateError Check × S
  check_rate p s =
      let counted =
        store.incr now s (progress_rate_key py p.token) (pos 1)
          (some config.progress_rate_window) in
      elim counted.0 [
        | err e ↦ (err e, counted.1)
        | ok count ↦
            let answered = follow p counted.1 in
            if ltb_ℤ (pos config.progress_rate_limit) count
            then (ok (flagged rate_limited), counted.1)
            else (ok answered.0, answered.1)
      ]

  -- `_check_progress_notification`
  unfoldable pub check_progress : Fields → S → Result StateError Check × S
  check_progress message s = elim (parse_progress py message) [
    | err reason ↦ (ok (flagged reason), s)
    | ok p ↦ check_rate p s
  ]

  abbrev cancel_issue : Fields → Option Reason
  cancel_issue record_ =
      if is_empty_record record_
      then some unknown_request
      else if or_else (as_str (Json.get record_ "method")) "" == "initialize"
      then some initialize_forbidden
      else if is_true (Json.get record_ "task_augmented")
      then some task_requires_tasks_cancel
      else none

  abbrev forget_hash : Option String → S → S
  forget_hash none s = s
  forget_hash (some hash) s = (store.delete now s (progress_key_from_hash hash)).1

  -- `_check_cancelled_notification`
  unfoldable pub check_cancelled : Fields → S → Check × S
  unfolding load_json request_key progress_key_from_hash
  check_cancelled message s =
      elim (present (Json.get (mapping (Json.get message "params")) "requestId")) [
        | none ↦ (flagged missing_request_id, s)
        | some request_id ↦
            let found = store.get now s (request_key py request_id) in
            let record_ = load_json py found.0 in
            elim (cancel_issue record_) [
              | some reason ↦ (flagged reason, found.1)
              | none ↦ (
                followed,
                forget_hash (as_str (Json.get record_ "progress_token_hash"))
                    (store.delete now found.1 (request_key py request_id)).1,
              )
            ]
      ]
