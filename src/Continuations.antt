-- ===== src/Continuations.antt =====
-- snulbug/mcp_mrtr.py: the bounds of requests that go on over several round trips. A mapping is a JSON
-- object here, and a byte is a byte of UTF-8.
pub mod Inputs
pub mod Declared
pub mod Bounded
mod Tests
use Prim.Native.String.{len}
use mathlib.Core.Option
use snulbug.Base.{
  ℕ, suc, ◌+◌, String, Bool, true, false, not, ◌&&◌, ◌||◌, Option, none, some, List, [], ◌∷◌,
  contains, is_some, leb, ltb, ◌==◌, if◌then◌else◌,
}
use snulbug.Base.Json.{Json, Fields, null, bool, int, flt, str, arr, obj, end, field, get, mapping}

-- the messages, by what they say
pub data MrtrIssue : Type 0 where
  method_unsupported no_input task_unsupported malformed_input params_not_object undeclared :
      MrtrIssue
  state_invalid map_invalid map_too_large : MrtrIssue
  elicitation_invalid mode_undeclared url_missing schema_missing : MrtrIssue
  sampling_invalid tokens_not_positive tools_undeclared context_undeclared : MrtrIssue

abbrev pub mrtr_methods : List String
mrtr_methods = "tools/call" ∷ "resources/read" ∷ "prompts/get" ∷ []

abbrev pub input_methods : List String
input_methods = "roots/list" ∷ "sampling/createMessage" ∷ "elicitation/create" ∷ []

abbrev pub max_inputs : ℕ
max_inputs = 32

abbrev pub max_state_bytes : ℕ
max_state_bytes = 65536

abbrev pub max_input_bytes : ℕ
max_input_bytes = 262144

abbrev pub has : String → Fields → Bool
has key m = is_some (get m key)

-- isinstance(value, Mapping), for a value that may be missing
abbrev pub is_mapping : Option Json → Bool
is_mapping (some (obj m)) = true
is_mapping _ = false

abbrev pub is_string : Option Json → Bool
is_string (some (str s)) = true
is_string _ = false

-- an issue, unless the test holds
abbrev pub unless : Bool → MrtrIssue → Option MrtrIssue
unless true issue = none
unless false issue = some issue

-- `first or second`
abbrev pub or_next : Option MrtrIssue → Option MrtrIssue → Option MrtrIssue
or_next (some issue) next = some issue
or_next none next = next

unfoldable pub size : Fields → ℕ
size end = 0
size (field k v m) = suc (size m)

-- every key is bounded and not empty, and every value is a mapping
unfoldable pub are_objects : Fields → Bool
are_objects end = true
are_objects (field k v m) = not (k == "") && leb (len k) 256 && is_mapping (some v) && are_objects m

unfoldable pub input_required : Json → Option Fields
input_required (obj payload) = elim (get payload "result") [
  | some (obj result) ↦ elim (get result "resultType") [
    | some (str kind) ↦ if kind == "input_required" then some result else none
    | _ ↦ none
  ]
  | _ ↦ none
]
input_required _ = none

-- `_state_issue`, for the state in the container
unfoldable pub state_value_issue : Option Json → Option MrtrIssue
state_value_issue none = none
state_value_issue (some (str state)) = unless (leb (len state) max_state_bytes) state_invalid
state_value_issue (some _) = some state_invalid

abbrev pub state_issue : Fields → Option MrtrIssue
state_issue container = state_value_issue (get container "requestState")

-- `dumped` is the length of json.dumps(value, ensure_ascii=True)
module _ (dumped : Json → ℕ) where
  unfoldable pub map_issue : Json → Option MrtrIssue
  unfolding size are_objects
  map_issue (obj m) =
      or_next (unless (leb (size m) max_inputs && are_objects m) map_invalid)
        (unless (leb (dumped (obj m)) max_input_bytes) map_too_large)
  map_issue _ = some map_invalid

  -- the answers, if there are any
  unfoldable pub answers_issue : Option Json → Option MrtrIssue
  unfolding map_issue
  answers_issue none = none
  answers_issue (some value) = map_issue value

  unfoldable pub continuation_issue : String → Fields → Option MrtrIssue
  unfolding state_value_issue answers_issue
  continuation_issue method params =
      if has "requestState" params || has "inputResponses" params
      then if contains mrtr_methods method
        then or_next (state_issue params) (answers_issue (get params "inputResponses"))
        else some method_unsupported
      else none

-- `mrtr_request_metadata`
unfoldable pub request_metadata : (ℕ → Json) → Fields → Fields
unfolding size
request_metadata number request = elim (get request "params") [
  | some (obj params) ↦
      if has "inputResponses" params || has "requestState" params
      then field "continuation" (bool true) (
          field "state_present" (bool (has "requestState" params)) (
            field "input_response_count" (number (size (mapping (get params "inputResponses"))))
              end))
      else end
  | _ ↦ end
]
