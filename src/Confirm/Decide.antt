-- ===== src/Confirm/Decide.antt =====
-- `ConfirmationBroker.decide` of snulbug/confirm.py. The approvals of the session are looked up and
-- changed under the lock, and the person is asked without it, so a decision is two steps.
use snulbug.Base.{
  ℕ, String, Bool, true, false, not, Option, none, some, List, [], ◌∷◌, contains, eqb, ◌==◌,
  or_else, if◌then◌else◌,
}
use snulbug.Base.Int.{ℤ, pos, negsuc}
use snulbug.Base.Json
use snulbug.Base.Json.{Json, Fields, str}
use snulbug.Confirm.{
  Platform, Input, Answer, Mode, once, session, cached_session, denied, Readiness, no_fileno,
  select_fails, readable,
}
use snulbug.Confirm.Prompt.{optional_string, prompt_text}

abbrev pub reason_code_of : Mode → String
reason_code_of once = "confirm.approved_once"
reason_code_of session = "confirm.approved_session"
reason_code_of cached_session = "confirm.cached_session"
reason_code_of denied = "confirm.approved"

-- `_approved`
unfoldable pub approved : Mode → Fields → Option String → Option String → Answer
approved mode decision remember_key reason = record {
  approved = true;
  mode = mode;
  remember_key = remember_key;
  reason = or_else reason "confirmation approved";
  reason_code = reason_code_of mode;
  prompt = Json.get decision "prompt";
  status = none;
  body = none;
}

abbrev status_of : Platform → Option Json → Option ℤ
status_of py none = some (pos 403)
status_of py (some v) = py.int v

-- `_denied`, which gives `none` when the status of the decision is no number and `int` raises
unfoldable pub refused : Platform → Fields → String → String → Option Answer
unfolding optional_string
refused py decision reason reason_code = elim (status_of py (Json.get decision "status")) [
  | none ↦ none
  | some status ↦ some (record {
    approved = false;
    mode = denied;
    remember_key = optional_string py (Json.get decision "remember_key");
    reason = reason;
    reason_code = reason_code;
    prompt = Json.get decision "prompt";
    status = some status;
    body = some (or_else (Json.get decision "body") (str "confirmation denied"));
  })
]

-- `_timeout_seconds`
abbrev at_least_zero : Option ℤ → ℕ
at_least_zero none = 30000000
at_least_zero (some (pos n)) = n
at_least_zero (some (negsuc n)) = 0

unfoldable pub timeout_seconds : Platform → Option Json → ℕ
timeout_seconds py none = 30000000
timeout_seconds py (some Json.null) = 30000000
timeout_seconds py (some v) = at_least_zero (py.float_seconds v)

-- `_can_prompt`
unfoldable pub can_prompt : Input → Bool
can_prompt input = if input.is_own then true else or_else input.isatty false

abbrev line_of : String → Option String
line_of line = if line == "" then none else some line

-- `_read_line`
abbrev read_ready : Readiness → String → Option String
read_ready no_fileno line = line_of line
read_ready select_fails line = line_of line
read_ready (readable ready) line = if ready then line_of line else none

unfoldable pub read_line : Input → ℕ → Option String
read_line input timeout = if eqb timeout 0 then none else read_ready input.readiness input.line

abbrev pub once_words : List String
once_words = "o" ∷ "once" ∷ "y" ∷ "yes" ∷ "allow" ∷ []

abbrev pub session_words : List String
session_words = "a" ∷ "always" ∷ "s" ∷ "session" ∷ []

-- the lookup of `decide`, which ends it when the key was approved for the session
unfoldable pub look : Platform → Fields → List String → Option Answer
unfolding optional_string approved
look py decision approvals = elim (optional_string py (Json.get decision "remember_key")) [
  | none ↦ none
  | some key ↦
      if contains approvals key
      then some (approved cached_session decision (some key) none)
      else none
]

-- What the rest of `decide` does: its answer, or none if it raises, the approvals, and the prompt.
pub record Conclusion : Type 0 where
  pub answer : Option Answer
  pub approvals : List String
  pub written : Option String

abbrev concluded : Option Answer → List String → Option String → Conclusion
concluded answer approvals written = record {
  answer = answer;
  approvals = approvals;
  written = written;
}

-- what a choice does
unfoldable pub choose :
    Platform → Fields → Option String → String → List String → Option Answer × List String
unfolding approved refused
choose py decision remember_key choice approvals =
    if contains once_words choice
    then (some (approved once decision remember_key none), approvals)
    else if contains session_words choice
    then elim remember_key [
      | some key ↦ (some (approved session decision (some key) none), key ∷ approvals)
      | none ↦ (
        some (
            approved once decision none
              (some "session approval requested without remember_key; allowed once")),
        approvals,
      )
    ]
    else (refused py decision "confirmation denied" "confirm.denied", approvals)

unfoldable pub conclude : Platform → Bool → Input → Fields → Fields → List String → Conclusion
unfolding choose can_prompt read_line timeout_seconds prompt_text
conclude py enabled input decision request approvals =
    let key = optional_string py (Json.get decision "remember_key") in
    let timeout = timeout_seconds py (Json.get decision "timeout_seconds") in
    let prompt = prompt_text py decision request key timeout in
    if not enabled
    then concluded (refused py decision "confirmation is not enabled" "confirm.unavailable")
        approvals none
    else if not (can_prompt input)
    then concluded
        (refused py decision "confirmation requires an interactive input stream"
          "confirm.noninteractive")
        approvals none
    else elim (read_line input timeout) [
      | none ↦
          concluded (refused py decision "confirmation timed out" "confirm.timeout") approvals
            (some prompt)
      | some line ↦
          let chosen = choose py decision key (py.choice line) approvals in
          concluded chosen.0 chosen.1 (some prompt)
    ]

-- `decide`, when nothing comes between its two steps
unfoldable pub decide : Platform → Bool → Input → Fields → Fields → List String → Conclusion
unfolding look conclude
decide py enabled input decision request approvals = elim (look py decision approvals) [
  | some answer ↦ concluded (some answer) approvals none
  | none ↦ conclude py enabled input decision request approvals
]
