-- ===== src/Base/Asgi.antt =====
-- The parts of an ASGI connection that snulbug/public_origin.py and snulbug/http_routes.py read, and
-- the messages that they send. A byte string is the text of its characters in ASCII or Latin-1.
use Prim.Native.Nat.{ℕ}
use Prim.Native.String.{String}
use mathlib.Core.Bool.{Bool}
use mathlib.Core.Option.{Option}
use mathlib.Core.List.{List}

abbrev pub Header : Type 0
Header = String × String

pub record Scope : Type 0 where
  pub type : String
  pub method : String
  pub path : Option String
  pub raw_path : Option String
  pub query_string : Option String
  pub headers : List Header
  -- the host of scope["client"]
  pub client : Option String
  pub scheme : Option String
  -- scope[INGRESS_HEADERS_SCOPE_KEY]
  pub ingress_headers : Option (List Header)

pub data Sent : Type 0 where
  websocket_close : ℕ → String → Sent
  response_start : ℕ → List Header → Sent
  -- a body and its `more_body`, which is false when it is left out
  response_body : String → Bool → Sent
