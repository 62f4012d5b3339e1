-- ===== src/Progress/Keys.antt =====
-- The tokens, the keys and the records of snulbug/mcp_progress.py.
use Prim.Native.String
use snulbug.Base.{String, not, Option, none, some, List, [], ◌∷◌, truthy, ◌==◌, if◌then◌else◌}
use snulbug.Base.Json
use snulbug.Base.Json.{Json, Fields, null, bool, int, flt, str, arr, obj, end, field, mapping}
use snulbug.Fabric.Values.{keep_fields, is_blank}
use snulbug.Progress.{Platform}

-- `_drop_empty`
unfoldable pub drop_empty : Fields → Fields
drop_empty m = keep_fields (λ v. not (is_blank v)) m

-- `_valid_token`
unfoldable pub valid_token : Option Json → Option Json
valid_token (some (str s)) = if s == "" then none else some (str s)
valid_token (some (int n)) = some (int n)
valid_token _ = none

-- `_progress_token_from_request`
unfoldable pub progress_token : Fields → Option Json
unfolding valid_token
progress_token request =
    valid_token
      (Json.get (mapping (Json.get (mapping (Json.get request "params")) "_meta")) "progressToken")

abbrev id_of : Platform → Json → Option Json
id_of py null = none
id_of py (bool b) = some (bool b)
id_of py (int n) = some (int n)
id_of py (flt n e) = some (flt n e)
id_of py (str s) = some (str s)
id_of py (arr xs) = some (str (py.str (arr xs)))
id_of py (obj m) = some (str (py.str (obj m)))

-- `_jsonrpc_id`
unfoldable pub jsonrpc_id : Platform → Fields → Option Json
jsonrpc_id py request = elim (Json.get request "id") [ none ↦ none | some value ↦ id_of py value ]

-- `_progress_key_from_hash`, `_progress_key`, `_progress_rate_key`, `_request_key` and `_task_key`
unfoldable pub progress_key_from_hash : String → String
progress_key_from_hash hash = String.◌++◌ "snulbug:mcp-progress:token:" hash

unfoldable pub progress_key : Platform → Json → String
unfolding progress_key_from_hash
progress_key py token = progress_key_from_hash (py.token_hash token)

unfoldable pub progress_rate_key : Platform → Json → String
progress_rate_key py token = String.◌++◌ "snulbug:mcp-progress:rate:" (py.token_hash token)

unfoldable pub request_key : Platform → Json → String
request_key py id = String.◌++◌ "snulbug:mcp-progress:request:" (py.token_hash id)

unfoldable pub task_key : Platform → String → String
task_key py id = String.◌++◌ "snulbug:mcp-progress:task:" (py.token_hash (str id))

-- `_load_json`
unfoldable pub load_json : Platform → Option String → Fields
load_json py value = elim (truthy value) [ none ↦ end | some text ↦ mapping (py.loads text) ]

abbrev pub progress_method : String
progress_method = "notifications/progress"

abbrev pub cancelled_method : String
cancelled_method = "notifications/cancelled"

abbrev pub task_cancel_method : String
task_cancel_method = "tasks/cancel"

abbrev pub terminal_statuses : List String
terminal_statuses = "completed" ∷ "failed" ∷ "cancelled" ∷ []
