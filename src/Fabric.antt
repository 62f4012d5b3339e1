-- ===== src/Fabric.antt =====
-- snulbug/fabric_members.py: the registry of the gateways that form one fabric. A member is the
-- dictionary that the registry holds for it, and the registry is a text in a policy state store or a
-- file. Times and durations are microseconds.
pub mod Values
pub mod Members
pub mod Changes
pub mod Update
pub mod Exchange
pub mod Lifetime
pub mod Kept
pub mod Contention
mod Tests
use snulbug.Base.{ℕ, String, Bool, Option, List, [], ◌∷◌, length}
use snulbug.Base.Dict.{Dict}
use snulbug.Base.Int.{ℤ}
use snulbug.Base.Json.{Json, Fields}

-- What the module takes from Python's library: JSON texts, the pattern of `_safe_name`, times as
-- ISO texts, the host, and `str` and `float` of values.
pub record Platform : Type 0 where
  pub loads : String → Option Json
  -- json.dumps(value, sort_keys=True, separators=(",", ":"))
  pub dumps : Json → String
  -- re.sub(r"[^A-Za-z0-9_.-]+", "-", text).strip("-")
  pub safe_text : String → String
  -- text.replace("-", "_")
  pub underscored : String → String
  pub isoformat : ℕ → String
  pub fromisoformat : String → Option ℕ
  pub float_seconds : ℕ → Json
  pub str : Json → String
  pub hostname : String
  pub pid : ℤ

-- A registry, as `_normalize_registry` returns it, less its constant schema and version.
pub record Registry : Type 0 where
  pub updated_at : Json
  pub members : Dict Fields

-- The messages of the errors that are raised, by what they say.
pub data FabricError : Type 0 where
  bad_json not_object bad_schema bad_members : FabricError
  bad_role bad_status bad_ttl no_upstreams : FabricError
  contended : FabricError

abbrev pub roles : List String
roles = "data_plane" ∷ "control_plane" ∷ "observer" ∷ []

abbrev pub statuses : List String
statuses = "active" ∷ "draining" ∷ "left" ∷ []

abbrev pub schema : String
schema = "snulbug.fabric-members.v1"
