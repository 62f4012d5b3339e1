-- ===== src/Confirm.antt =====
-- snulbug/confirm.py: `ConfirmationBroker`, which asks a person whether a request may pass, and
-- remembers what was approved for the session.
pub mod Prompt
pub mod Decide
pub mod Choices
pub mod Consent
mod Tests
use snulbug.Base.{ℕ, String, Bool, Option, List}
use snulbug.Base.Int.{ℤ}
use snulbug.Base.Json.{Json, Fields}

-- What the file takes from Python's library. Seconds are microseconds here.
pub record Platform : Type 0 where
  pub str : Json → String
  pub int : Json → Option ℤ
  pub float_seconds : Json → Option ℤ
  -- line.strip().lower()
  pub choice : String → String
  pub loads : String → Option Json
  -- json.dumps(value, separators=(",", ":"))
  pub dumps : Json → String
  -- f"{timeout:g}"
  pub general : ℕ → String
  pub sorted : List String → List String

-- Whether the input can be waited for: it has no file number, `select` fails, or it answers.
pub data Readiness : Type 0 where
  no_fileno select_fails : Readiness
  readable : Bool → Readiness

-- The input of a broker: whether it is another stream than the standard input, what `isatty` says,
-- if it does not raise, and what is there to read.
pub record Input : Type 0 where
  pub is_own : Bool
  pub isatty : Option Bool
  pub readiness : Readiness
  pub line : String

pub data Mode : Type 0 where
  once session cached_session denied : Mode

-- The answer of `_approved` or `_denied`.
pub record Answer : Type 0 where
  pub approved : Bool
  pub mode : Mode
  pub remember_key : Option String
  pub reason : String
  pub reason_code : String
  pub prompt : Option Json
  pub status : Option ℤ
  pub body : Option Json
