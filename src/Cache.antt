-- ===== src/Cache.antt =====
-- snulbug/mcp_cache.py: the cache hints of results at the gateway's response boundary. A byte string
-- is a text with one character for each byte.
pub mod Results
pub mod Boundary
pub mod Private
pub mod Order
pub mod Limit
mod Tests
use snulbug.Base.{String, Option, List, [], ◌∷◌, ℕ}
use snulbug.Base.Json.{Json}

-- What the file takes from Python's library.
pub record Platform : Type 0 where
  -- json.loads(body), where it does not raise
  pub loads : String → Option Json
  -- json.dumps(payload, separators=(",", ":")).encode()
  pub dumps : Json → String
  pub lower : String → String
  -- text.split(b";")[0]
  pub before_semicolon : String → String
  -- path.rstrip("/")
  pub rstrip_slashes : String → String
  -- str(number)
  pub str : ℕ → String

abbrev pub cacheable_methods : List String
cacheable_methods =
    "server/discover" ∷ "tools/list" ∷ "prompts/list" ∷ "resources/list"
    ∷ "resources/templates/list" ∷ "resources/read" ∷ []
