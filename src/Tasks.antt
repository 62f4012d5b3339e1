-- ===== src/Tasks.antt =====
-- snulbug/mcp_tasks.py: what the gateway records of the tasks that requests and responses name.
-- Metadata are the fields of a dictionary, in the order in which they are set.
pub mod Metadata
pub mod Counts
mod Tests
use snulbug.Base.{
  ℕ, ◌+◌, String, Bool, true, false, not, ◌&&◌, Option, none, some, List, [], ◌∷◌, ◌++◌, contains,
  or_else, truthy, is_empty, ◌==◌, if◌then◌else◌,
}
use snulbug.Base.Int.{ℤ, pos, negsuc}
use snulbug.Base.Json
use snulbug.Base.Json.{Json, Fields, Items, bool, int, flt, str, obj, end, field, mapping, as_str}

abbrev pub task_methods : List String
task_methods = "tasks/get" ∷ "tasks/result" ∷ "tasks/list" ∷ "tasks/cancel" ∷ []

abbrev pub status_method : String
status_method = "notifications/tasks/status"

abbrev pub related_task_key : String
related_task_key = "io.modelcontextprotocol/related-task"

-- `is_mcp_task_method` and `is_mcp_task_notification` of a text
unfoldable pub is_task_method : String → Bool
is_task_method method = contains task_methods method

unfoldable pub is_task_notification : String → Bool
is_task_notification method = method == status_method

-- method.removeprefix("tasks/") of a task method
unfoldable pub operation : String → String
operation method =
    if method == "tasks/get"
    then "get"
    else if method == "tasks/result"
    then "result"
    else if method == "tasks/list"
    then "list"
    else "cancel"

-- a text that is not empty, under a key
unfoldable pub text_of : Fields → String → Option String
text_of m key = truthy (as_str (Json.get m key))

abbrev is_non_negative : Json → Bool
is_non_negative (bool b) = true
is_non_negative (int (pos n)) = true
is_non_negative (flt (pos n) e) = true
is_non_negative _ = false

-- a number under a key, if it is not negative; Python's booleans are numbers
unfoldable pub number_of : Fields → String → Option Json
number_of m key = elim (Json.get m key) [
  | none ↦ none
  | some v ↦ if is_non_negative v then some v else none
]

-- metadata[key] = value, for a value that is there
unfoldable pub set_if : Fields → String → Option Json → Fields
set_if m key none = m
set_if m key (some v) = Json.put m key v

unfoldable pub set_text : Fields → String → Option String → Fields
set_text m key none = m
set_text m key (some s) = Json.put m key (str s)

-- `related_task_id_from_meta`
unfoldable pub related_task_id : Option Json → Option String
unfolding text_of
related_task_id meta = text_of (mapping (Json.get (mapping meta) related_task_key)) "taskId"

-- the metadata that the method alone gives
unfoldable pub method_metadata : String → Fields
unfolding is_task_method is_task_notification operation
method_metadata method =
    let m =
      (if is_task_method method
        then Json.put (Json.put end "task_method" (str method)) "task_operation"
            (str (operation method))
        else end) in
    if is_task_notification method
    then Json.put (Json.put m "task_notification" (str method)) "task_operation" (str "status")
    else m

-- whether a request is augmented with a task, and for how long
unfoldable pub augmentation : Fields → Option Json → Fields
unfolding set_if number_of
augmentation m (some (obj task)) =
    set_if (Json.put m "task_augmented" (bool true)) "task_ttl_ms" (number_of task "ttl")
augmentation m _ = m

unfoldable pub params_metadata : Fields → Fields → Fields
unfolding set_text text_of related_task_id
params_metadata m params =
    set_text
      (set_text (set_text m "task_id" (text_of params "taskId")) "task_status"
        (text_of params "status"))
      "related_task_id" (related_task_id (Json.get params "_meta"))

-- `mcp_task_request_metadata`
unfoldable pub request_metadata : Fields → Fields
unfolding method_metadata augmentation params_metadata
request_metadata request = elim (as_str (Json.get request "method")) [
  | none ↦ end
  | some method ↦
      let params = mapping (Json.get request "params") in
      params_metadata (augmentation (method_metadata method) (Json.get params "task")) params
]

-- the task of a result, or the result itself
abbrev task_or : Fields → Option Json → Fields
task_or result (some (obj task)) = task
task_or result _ = result

-- `mcp_task_response_metadata` of a payload that is an object
unfoldable pub response_metadata : Fields → Fields
unfolding set_text set_if text_of number_of related_task_id
response_metadata payload =
    let result = mapping (Json.get payload "result") in
    let task = task_or result (Json.get result "task") in
    let named =
      set_text (set_text end "task_id" (text_of task "taskId")) "task_status"
        (text_of task "status") in
    let timed =
      set_if (set_if named "task_ttl_ms" (number_of task "ttl")) "task_poll_interval_ms"
        (number_of task "pollInterval") in
    set_text timed "related_task_id" (related_task_id (Json.get result "_meta"))

-- The support of a tool for tasks.
pub data Support : Type 0 where
  forbidden optional required : Support

-- `normalize_task_support`, or "forbidden"
unfoldable pub support_of : Option Json → Support
support_of (some (str s)) =
    if s == "optional" then optional else if s == "required" then required else forbidden
support_of _ = forbidden

-- `task_support_summary`, whose lists of names are sorted at the end by Python's `sorted`
pub record Summary : Type 0 where
  pub forbidden_count : ℕ
  pub optional_count : ℕ
  pub required_count : ℕ
  pub forbidden_tools : List String
  pub optional_tools : List String
  pub required_tools : List String

abbrev named : Fields → List String → List String
named tool names = elim (truthy (as_str (Json.get tool "name"))) [
  | none ↦ names
  | some name ↦ names ++ name ∷ []
]

unfoldable pub count_tool : Fields → Support → Summary → Summary
count_tool tool forbidden s = record s {
  forbidden_count = s.forbidden_count + 1;
  forbidden_tools = named tool s.forbidden_tools;
}
count_tool tool optional s = record s {
  optional_count = s.optional_count + 1;
  optional_tools = named tool s.optional_tools;
}
count_tool tool required s = record s {
  required_count = s.required_count + 1;
  required_tools = named tool s.required_tools;
}

-- the `taskSupport` of a tool's `execution`
unfoldable pub tool_support : Fields → Support
unfolding support_of
tool_support tool = support_of (Json.get (mapping (Json.get tool "execution")) "taskSupport")

unfoldable pub summarize : List Fields → Summary → Summary
unfolding count_tool tool_support
summarize [] s = s
summarize (tool ∷ tools) s = summarize tools (count_tool tool (tool_support tool) s)

abbrev pub no_tools : Summary
no_tools = record {
  forbidden_count = 0;
  optional_count = 0;
  required_count = 0;
  forbidden_tools = [];
  optional_tools = [];
  required_tools = [];
}

-- `task_capable_tools`
unfoldable pub task_capable : Summary → ℕ
task_capable s = s.optional_count + s.required_count
