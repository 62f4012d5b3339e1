-- ===== src/Progress/Tests.antt =====
-- Two notifications of one token to snulbug/mcp_progress.py, and what its policy lets through.
use snulbug.Base.{
  ℕ, ◌≡◌, refl, String, true, false, Option, none, some, [], ◌∷◌, arith, ◌==◌, if◌then◌else◌,
}
use snulbug.Base.Dict
use snulbug.Base.Int.{pos, ◌*ℤ◌}
use snulbug.Base.Result.{ok}
use snulbug.Base.Json
use snulbug.Base.Json.{Json, Fields, str, int, bool, obj, end, field}
use snulbug.State
use snulbug.State.Tally.{python}
use snulbug.State.Memory.Refinement.{view}
use snulbug.State.Memory.{Items, memory_store, get, put, read}
use snulbug.Progress.{Platform, ProgressPolicyConfig, block, less, less_than}
use snulbug.Progress.Keys.{progress_key, progress_key_from_hash, load_json, valid_token}
use snulbug.Progress.Check.{
  Progress, followed, follow, parse_progress, record_issue, falls_back, advanced,
}
use snulbug.Progress.Enforce.{enforce_request}
use snulbug.Progress.Monotonic.{follow-rises}

abbrev known : Fields
known = field "token_hash" (str "h") end

abbrev advanced_to : Json → Fields
advanced_to n = field "token_hash" (str "h") (field "last_progress" n end)

-- The text "a" is the record of a registered token, and every other text that of its progress 1.
abbrev platform : Platform
platform = record {
  loads = λ s. some (obj (if s == "a" then known else advanced_to (int (pos 1))));
  dumps = λ v. "b";
  token_hash = λ v. "h";
  str = λ v. "text";
  is_nan = λ v. elim v [ Json.flt n e ↦ true | _ ↦ false ];
}

abbrev config : ProgressPolicyConfig
config = record {
  action = block;
  progress_rate_limit = 60;
  progress_rate_window = 60000000;
  state_ttl = 3600000000;
}

abbrev notification : Json → Fields
notification n =
    field "method" (str "notifications/progress")
      (field "params" (obj (field "progressToken" (str "token") (field "progress" n end))) end)

abbrev token : Progress
token = record { token = str "token"; progress = int (pos 1); total = none }

abbrev later : Progress
later = record { token = str "token"; progress = int (pos 2); total = none }

abbrev stored : String → Option ℕ → Items
stored text expires =
    ("snulbug:mcp-progress:token:h", record { value = text; expires = expires }) ∷ []

parses : parse_progress platform (notification (int (pos 1))) ≡ ok token
unfolding parse_progress valid_token Json.get
parses = refl

parses_later : parse_progress platform (notification (int (pos 2))) ≡ ok later
unfolding parse_progress valid_token Json.get
parses_later = refl

follows :
    follow (memory_store python) platform config 1 token (stored "a" none)
    ≡ (followed, stored "b" (some 3600000001))
unfolding follow load_json record_issue falls_back advanced progress_key progress_key_from_hash get
    put read Dict.get Dict.put Json.get Json.put State.expires_at State.expired
follows = refl

follows_later :
    follow (memory_store python) platform config 3 later (stored "b" (some 3600000001))
    ≡ (followed, stored "b" (some 3600000003))
unfolding follow load_json record_issue falls_back advanced progress_key progress_key_from_hash get
    put read Dict.get Dict.put Json.get Json.put State.expires_at State.expired less_than less ◌*ℤ◌
follows_later = refl

reads_back :
    platform.loads "b"
    ≡ some (
        obj (
          advanced
            (load_json platform (view (stored "a" none) 1 (progress_key platform (str "token"))))
            token))
unfolding view load_json advanced progress_key progress_key_from_hash Dict.get Json.get Json.put
    State.expired
reads_back = refl

follow-rises_example : less_than platform (int (pos 1)) (int (pos 2)) ≡ true
follow-rises_example =
    follow-rises python platform config 1 3 (notification (int (pos 1)))
      (notification (int (pos 2))) token later (stored "a" none) (stored "b" (some 3600000001))
      (stored "b" (some 3600000001)) (stored "b" (some 3600000003)) parses parses_later refl follows
      (omega arith) refl follows_later refl reads_back refl refl

-- A cancellation of a task that names no task passes, also under the action "block".
unnamed_cancel_passes :
    (enforce_request {S = Items} none platform config 1
      (field "method" (str "tasks/cancel") end)
      []).0
    ≡ ok (record { passes = true; check = none })
unfolding enforce_request Json.get
unnamed_cancel_passes = refl
