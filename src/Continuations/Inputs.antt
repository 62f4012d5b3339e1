-- ===== src/Continuations/Inputs.antt =====
-- The requests for input that a result of snulbug/mcp_mrtr.py may make of a client.
use Prim.Native.String.{slice, find}
use snulbug.Base.{
  List, ℕ, String, Bool, true, false, not, ◌&&◌, ◌||◌, Option, none, some, [], ◌∷◌, all, contains,
  ltb, ◌==◌, if◌then◌else◌,
}
use snulbug.Base.Result.{Result, ok, err}
use snulbug.Base.Int.{pos}
use snulbug.Base.Json.{
  bool, nil, cons, Items, Json, Fields, int, str, arr, obj, end, field, get, keys, mapping, truth,
}
use snulbug.Continuations.{
  size, input_required, MrtrIssue, undeclared, input_methods, mrtr_methods, has, is_mapping,
  is_string, unless, or_next, state_issue, map_issue,
}
use snulbug.Base.Sort.{sorted_texts, distinct}
use snulbug.Continuations as Continuations

-- a KeyError or an AttributeError, for a request without the metadata of its client
pub data Raised : Type 0 where
  no_metadata : Raised

-- method.split("/", 1)[0]
unfoldable pub feature_of : String → String
feature_of method = slice method 0 (find method "/")

abbrev is_list : Option Json → Bool
is_list (some (arr xs)) = true
is_list _ = false

-- the value is a text that is not empty
abbrev is_text : Option Json → Bool
is_text (some (str s)) = not (s == "")
is_text _ = false

-- `mode`, if it is a text
abbrev pub mode_of : Fields → Option String
mode_of params = elim (get params "mode") [
  | none ↦ some "form"
  | some (str s) ↦ some s
  | some _ ↦ none
]

-- the checks of an elicitation, for its mode
unfoldable pub mode_issue : Fields → Fields → Option String → Option MrtrIssue
mode_issue capability params none = some Continuations.elicitation_invalid
mode_issue capability params (some mode) =
    or_next
      (unless (contains ("form" ∷ "url" ∷ []) mode && is_string (get params "message"))
        Continuations.elicitation_invalid)
      (or_next (unless (is_mapping (get capability mode)) Continuations.mode_undeclared) (
        or_next
          (unless (not (mode == "url") || is_text (get params "url")) Continuations.url_missing)
          (unless (not (mode == "form") || is_mapping (get params "requestedSchema"))
            Continuations.schema_missing)))

unfoldable pub elicitation_issue : Fields → Fields → Option MrtrIssue
unfolding mode_issue
elicitation_issue capability params = mode_issue capability params (mode_of params)

-- type(value) is int
abbrev is_int : Option Json → Bool
is_int (some (int n)) = true
is_int _ = false

abbrev is_positive : Option Json → Bool
is_positive (some (int (pos n))) = ltb 0 n
is_positive _ = false

-- params.get("tools"), and whether it is true
abbrev pub asks_tools : Fields → Bool
asks_tools params = elim (get params "tools") [ none ↦ false | some v ↦ truth v ]

-- params.get("includeContext", "none") != "none"
abbrev pub asks_context : Fields → Bool
asks_context params = elim (get params "includeContext") [
  | none ↦ false
  | some (str s) ↦ not (s == "none")
  | some _ ↦ true
]

unfoldable pub sampling_issue : Fields → Fields → Option MrtrIssue
sampling_issue capability params =
    or_next
      (unless (is_list (get params "messages") && is_int (get params "maxTokens"))
        Continuations.sampling_invalid)
      (or_next (unless (is_positive (get params "maxTokens")) Continuations.tokens_not_positive) (
        or_next
          (unless (not (asks_tools params) || is_mapping (get capability "tools"))
            Continuations.tools_undeclared)
          (unless (not (asks_context params) || is_mapping (get capability "context"))
            Continuations.context_undeclared)))

-- the end of the loop's body, for a capability that is declared
unfoldable pub use_issue : String → Fields → Fields → Option MrtrIssue
unfolding elicitation_issue sampling_issue
use_issue method capability params =
    or_next (if method == "elicitation/create" then elicitation_issue capability params else none)
      (if method == "sampling/createMessage" then sampling_issue capability params else none)

-- from the capability on
unfoldable pub capability_issue : String → Option Json → Fields → Option MrtrIssue
unfolding use_issue
capability_issue method (some (obj capability)) params = use_issue method capability params
capability_issue method _ params = some undeclared

-- item.get("params", {}), from there on
unfoldable pub params_issue : Fields → String → Option Json → Option MrtrIssue
unfolding capability_issue feature_of
params_issue capabilities method none =
    capability_issue method (get capabilities (feature_of method)) end
params_issue capabilities method (some (obj params)) =
    capability_issue method (get capabilities (feature_of method)) params
params_issue capabilities method (some _) = some Continuations.params_not_object

-- item.get("method"), from there on
unfoldable pub method_issue : Fields → Fields → Option Json → Option MrtrIssue
unfolding params_issue
method_issue capabilities item (some (str method)) =
    if contains input_methods method && all (contains ("method" ∷ "params" ∷ [])) (keys item)
    then params_issue capabilities method (get item "params")
    else some Continuations.malformed_input
method_issue capabilities item _ = some Continuations.malformed_input

-- The loop; an item is a mapping by then.
unfoldable pub inputs_issue : Fields → Fields → Option MrtrIssue
unfolding method_issue
inputs_issue capabilities end = none
inputs_issue capabilities (field key item items) =
    let rest = inputs_issue capabilities items in
    or_next (method_issue capabilities (mapping (some item)) (get (mapping (some item)) "method"))
      rest

-- request["params"]["_meta"].get("io.modelcontextprotocol/clientCapabilities", {}), where nothing raises
unfoldable pub capabilities_of : Fields → Option Json
capabilities_of request = elim (get request "params") [
  | some (obj params) ↦ elim (get params "_meta") [
    | some (obj meta) ↦ elim (get meta "io.modelcontextprotocol/clientCapabilities") [
      | none ↦ some (obj end)
      | some capabilities ↦ some capabilities
    ]
    | _ ↦ none
  ]
  | _ ↦ none
]

-- An item for which the capabilities are read though they are no mapping; without any capability its
-- issue would be that none is declared.
abbrev before_capabilities : Option MrtrIssue → Result Raised (Option MrtrIssue)
before_capabilities (some undeclared) = err no_metadata
before_capabilities issue = ok issue

-- The loop over the inputs, which raises when capabilities that it reads are no mapping.
unfoldable pub checked_inputs : Option Json → Fields → Result Raised (Option MrtrIssue)
unfolding inputs_issue
checked_inputs none inputs = err no_metadata
checked_inputs (some (obj capabilities)) inputs = ok (inputs_issue capabilities inputs)
checked_inputs (some _) end = ok none
checked_inputs (some _) (field key item items) =
    before_capabilities
      (method_issue end (mapping (some item)) (get (mapping (some item)) "method"))

-- whether the method of the request supports such a result
abbrev supports : Fields → Bool
supports request = elim (get request "method") [
  | some (str method) ↦ contains mrtr_methods method
  | _ ↦ false
]

module _ (dumped : Json → ℕ) where
  -- the checks before the capabilities are read, for `inputs`
  unfoldable pub envelope_issue : Fields → Fields → Json → Option MrtrIssue
  envelope_issue result request inputs =
      or_next (unless (supports request) Continuations.method_unsupported) (
        or_next
          (unless (has "inputRequests" result || has "requestState" result) Continuations.no_input)
          (or_next (unless (not (has "task" result)) Continuations.task_unsupported)
            (or_next (state_issue result) (map_issue dumped inputs))))

  abbrev pub inputs_of : Fields → Json
  inputs_of result = elim (get result "inputRequests") [ none ↦ obj end | some v ↦ v ]

  unfoldable pub input_required_issue : Fields → Fields → Result Raised (Option MrtrIssue)
  unfolding envelope_issue checked_inputs capabilities_of
  input_required_issue result request = elim (envelope_issue result request (inputs_of result)) [
    | some issue ↦ ok (some issue)
    | none ↦ checked_inputs (capabilities_of request) (mapping (some (inputs_of result)))
  ]

-- the methods that the inputs name
unfoldable pub methods_of : Fields → List String
methods_of end = []
methods_of (field key item items) =
    let rest = methods_of items in
    elim (get (mapping (some item)) "method") [ some (str method) ↦ method ∷ rest | _ ↦ rest ]

abbrev pub texts : List String → Items
texts [] = nil
texts (s ∷ l) = cons (str s) (texts l)

-- `mrtr_result_metadata`, with the printing of a number
unfoldable pub result_metadata : (ℕ → Json) → Json → Fields
unfolding methods_of
result_metadata number payload = elim (input_required payload) [
  | none ↦ end
  | some result ↦
      let inputs = mapping (get result "inputRequests") in
      field "result_type" (str "input_required") (
        field "state_present" (bool (has "requestState" result)) (
          field "input_request_count" (number (size inputs))
            (field "methods" (arr (texts (sorted_texts (distinct (methods_of inputs))))) end)))
]
