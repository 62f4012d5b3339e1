-- ===== src/Confirm/Tests.antt =====
-- Runs of snulbug/confirm.py with one key.
use snulbug.Base.{◌≡◌, refl, String, true, none, some, List, [], ◌∷◌}
use snulbug.Base.Json
use snulbug.Base.Json.{Json, Fields, str, int, end, field}
use snulbug.Confirm.{Platform, Input, cached_session, no_fileno}
use snulbug.Confirm.Prompt.{optional_string}
use snulbug.Confirm.Decide.{
  approved, can_prompt, read_line, timeout_seconds, look, choose, conclude,
}
use snulbug.Confirm.Consent.{Event, looks, concludes, step, run, Consented, approval-Consented}

abbrev text : Json → String
text (str s) = s
text _ = "other"

abbrev platform : Platform
platform = record {
  str = text;
  int = λ v. none;
  float_seconds = λ v. none;
  choice = λ line. line;
  loads = λ s. none;
  dumps = λ v. "";
  general = λ n. "30";
  sorted = λ ks. ks;
}

abbrev person : Input
person = record { is_own = true; isatty = none; readiness = no_fileno; line = "always" }

abbrev decision : Fields
decision = field "remember_key" (str "read") end

abbrev events : List Event
events = looks decision ∷ concludes person decision end ∷ []

remembered :
    (step platform true (looks decision) (run platform true events [])).0
    ≡ some (approved cached_session decision (some "read") none)
unfolding step run look conclude choose optional_string can_prompt read_line timeout_seconds
    Json.get approved
remembered = refl

approval-Consented_example : Consented platform true events (looks decision)
approval-Consented_example =
    approval-Consented platform true events (looks decision)
      (approved cached_session decision (some "read") none) remembered (unfold approved in refl)
