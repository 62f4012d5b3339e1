-- ===== src/Continuations/Tests.antt =====
-- A continuation of snulbug/mcp_mrtr.py, and a result that asks for input.
use snulbug.Base.{ℕ, ◌≡◌, ◌↔◌, ◌⊎◌, refl, none, some}
use snulbug.Base.Result.{ok}
use snulbug.Base.Json
use snulbug.Base.Json.{Json, Fields, str, obj, end, field, get, mapping}
use snulbug.Continuations.{
  continuation_issue, state_value_issue, answers_issue, map_issue, size, are_objects, undeclared,
}
use snulbug.Continuations.Inputs.{
  inputs_of, input_required_issue, envelope_issue, checked_inputs, capabilities_of, inputs_issue,
  method_issue, params_issue, capability_issue, use_issue, elicitation_issue, mode_issue,
  sampling_issue, feature_of,
}
use snulbug.Continuations.Declared.{IsDeclared, input_required-IsDeclared}
use snulbug.Continuations.Bounded.{IsSupported, IsShort, IsSmall, continuation-IsBounded}

abbrev dumped : Json → ℕ
dumped v = 2

abbrev params : Fields
params =
    field "requestState" (str "opaque") (field "inputResponses" (obj (field "q" (obj end) end)) end)

continues : continuation_issue dumped "tools/call" params ≡ none
unfolding continuation_issue state_value_issue answers_issue map_issue size are_objects Json.get
continues = refl

continuation-IsBounded_example : (continuation_issue dumped "tools/call" params ≡ none) ↔ (
    ((get params "requestState" ≡ none) × (get params "inputResponses" ≡ none))
    ⊎ (IsSupported "tools/call"
        × IsShort (get params "requestState")
        × IsSmall dumped (get params "inputResponses")))
continuation-IsBounded_example = continuation-IsBounded dumped "tools/call" params

abbrev capabilities : Fields
capabilities = field "elicitation" (obj (field "form" (obj end) end)) end

abbrev request : Fields
request = field "method" (str "tools/call") (
    field "params"
      (obj (
        field "_meta"
          (obj (field "io.modelcontextprotocol/clientCapabilities" (obj capabilities) end)) end))
      end)

abbrev question : Fields
question = field "method" (str "elicitation/create") (
    field "params" (obj (field "message" (str "Why?") (field "requestedSchema" (obj end) end))) end)

abbrev asking : Fields → Fields
asking item = field "inputRequests" (obj (field "q" (obj item) end)) end

asks : input_required_issue dumped (asking question) request ≡ ok none
unfolding input_required_issue envelope_issue checked_inputs capabilities_of inputs_issue
    method_issue params_issue capability_issue use_issue elicitation_issue mode_issue sampling_issue
    feature_of state_value_issue map_issue size are_objects Json.get
asks = refl

has_capabilities : capabilities_of request ≡ some (obj capabilities)
unfolding capabilities_of Json.get
has_capabilities = refl

has_question : get (mapping (some (inputs_of dumped (asking question)))) "q" ≡ some (obj question)
unfolding Json.get
has_question = refl

input_required-IsDeclared_example : IsDeclared capabilities question
input_required-IsDeclared_example =
    input_required-IsDeclared dumped (asking question) request capabilities "q" (obj question) asks
      has_capabilities has_question

refuses_roots :
    input_required_issue dumped (asking (field "method" (str "roots/list") end)) request
    ≡ ok (some undeclared)
unfolding input_required_issue envelope_issue checked_inputs capabilities_of inputs_issue
    method_issue params_issue capability_issue use_issue elicitation_issue mode_issue sampling_issue
    feature_of state_value_issue map_issue size are_objects Json.get
refuses_roots = refl
