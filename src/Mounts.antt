-- ===== src/Mounts.antt =====
-- snulbug/http_routes.py: the HTTP mounts beside the MCP endpoint. A byte string is a text, as in
-- Base/Asgi, and a mount of the configuration is a JSON value.
pub mod Contract
pub mod Normalize
pub mod Headers
pub mod Serve
pub mod Paths
pub mod Reserved
pub mod Longest
pub mod Trusted
pub mod Answer
mod Tests
use Prim.Native.String
use Prim.Native.Char.{Char}
use text.Mathlib.Text.{starts_with}
use snulbug.Base.{ℕ, String, Bool, ◌||◌, Option, List, ◌==◌}
use snulbug.Base.Json.{Json}
use snulbug.Base.Asgi.{Header}
use snulbug.Origin.{Library}

-- What httpx.URL gives: the path of the URL, and the URL with another path and query.
pub record Target : Type 0 where
  pub raw_path : String
  pub copy_with : String → String

-- What the file takes from Python's library and from httpx; none stands for an exception.
pub record Platform : Type 0 where
  pub library : Library
  -- httpx.URL(upstream)
  pub httpx_url : String → Option Target
  -- quote(text, safe="/:@!$&'()*+,;=-._~")
  pub quote : String → String
  pub isspace : Char → Bool
  -- text.rstrip("/")
  pub rstrip_slashes : String → String
  -- text.split("/") and value.split(b",")
  pub split_slashes : String → List String
  pub split_commas : String → List String
  pub strip : String → String
  -- path.encode("utf-8")
  pub utf8 : String → String
  -- float(value); none where it is not finite, and for a value that `math.isfinite` refuses
  pub float : Json → Option Json
  -- str(number)
  pub str : ℕ → String
  -- ", ".join(methods)
  pub join : List String → String

-- what the code raises, by what it says
pub data MountError : Type 0 where
  not_an_array unsupported_fields invalid_prefix overlapping duplicate invalid_upstream : MountError
  upstream_not_plain strip_prefix_not_bool invalid_auth not_bool invalid_methods : MountError
  invalid_timeout invalid_health_path invalid_health_status preserve_host_without_origin :
      MountError
  invalid_public_url : MountError

-- One effective contract, the dictionary of `http_route_contract`.
pub record Route : Type 0 where
  pub prefix : String
  pub upstream : String
  pub strip_prefix : Bool
  pub auth : String
  pub methods : List String
  pub forward_authorization : Bool
  pub forward_cookies : Bool
  pub preserve_host : Bool
  pub public_origin : Option String
  pub timeout : Json
  pub health_path : Option String
  pub health_status : ℕ

unfoldable pub path_matches : String → String → Bool
path_matches path prefix = path == prefix || starts_with path (String.◌++◌ prefix "/")
