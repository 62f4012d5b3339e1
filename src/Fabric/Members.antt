-- ===== src/Fabric/Members.antt =====
-- The members of a registry of snulbug/fabric_members.py: who is active, their upstreams, and the
-- summary.
use Prim.Native.String
use text.Mathlib.Text.{starts_with}
use snulbug.Base.{
  ℕ, ◌+◌, String, Bool, false, not, ◌&&◌, ◌||◌, Option, none, some, List, [], ◌∷◌, ◌++◌, map, keep,
  contains, or_else, leb, length, if◌then◌else◌,
}
use snulbug.Base.Dict
use snulbug.Base.Dict.{Dict}
use snulbug.Base.Json
use snulbug.Base.Json.{Json, Fields, str, as_str}
use snulbug.Fabric.{Platform, Registry}
use snulbug.Fabric.Values.{renormalize, sequence_mappings, text_or}

-- `_member_expired`
abbrev is_over : Platform → ℕ → Option String → Bool
is_over py now none = false
is_over py now (some t) = elim (py.fromisoformat t) [ none ↦ false | some over ↦ leb over now ]

unfoldable pub member_expired : Platform → ℕ → Fields → Bool
member_expired py now member = is_over py now (as_str (Json.get member "expires_at"))

abbrev values : Dict Fields → List Fields
values [] = []
values ((k, m) ∷ rest) = m ∷ values rest

-- `_sequence_mappings` of the members of a registry: an empty member is one too
unfoldable pub members_of : Platform → Registry → List Fields
unfolding renormalize
members_of py r = values (renormalize py r).members

-- member.get(key) in a set of texts
abbrev pub has_one : List String → Option String → Bool
has_one allowed none = false
has_one allowed (some text) = contains allowed text

-- the test of `active_fabric_members`
unfoldable pub is_listed : Platform → ℕ → List String → List String → Bool → Fields → Bool
unfolding member_expired
is_listed py now roles statuses include_expired member =
    has_one roles (as_str (Json.get member "role"))
    && (has_one statuses (as_str (Json.get member "status"))
        && (include_expired || not (member_expired py now member)))

-- `active_fabric_members`, before Python's `sorted`
unfoldable pub active_members :
    Platform → ℕ → List String → List String → Bool → Registry → List Fields
unfolding is_listed members_of
active_members py now roles statuses include_expired r =
    keep (is_listed py now (map py.underscored roles) (map py.underscored statuses) include_expired)
      (members_of py r)

abbrev prefixed : String → String → String
prefixed prefix text = if starts_with text prefix then text else String.◌++◌ prefix text

-- `_member_prefixed_name` and `_member_prefixed_tool_prefix`
unfoldable pub prefixed_name : String → String → String
prefixed_name member_id name = prefixed (String.◌++◌ member_id "-") name

unfoldable pub prefixed_tool_prefix : String → String → String
prefixed_tool_prefix member_id tool_prefix = prefixed (String.◌++◌ member_id ".") tool_prefix

-- the names of an upstream, with the member's id before them
unfoldable pub prefix_names : Platform → String → Fields → Fields
unfolding prefixed_name prefixed_tool_prefix
prefix_names py member_id upstream =
    let name = prefixed_name member_id (text_or py (Json.get upstream "name") member_id) in
    let tools = text_or py (Json.get upstream "tool_prefix") (String.◌++◌ name ".") in
    Json.put (Json.put upstream "name" (str name)) "tool_prefix"
      (str (prefixed_tool_prefix member_id tools))

abbrev or_null : Option Json → Json
or_null none = Json.null
or_null (some v) = v

-- str(member.get(key, default))
abbrev str_or : Platform → Option Json → String → String
str_or py none default = default
str_or py (some v) default = py.str v

-- `_member_upstream`
unfoldable pub member_upstream : Platform → Bool → Fields → Fields → Fields
unfolding prefix_names
member_upstream py prefix_member_names member upstream =
    let member_id = str_or py (Json.get member "id") "None" in
    let named = if prefix_member_names then prefix_names py member_id upstream else upstream in
    let owned = Json.put named "fabric_member_id" (str member_id) in
    let with_role = Json.put owned "fabric_member_role" (or_null (Json.get member "role")) in
    let with_status =
      Json.put with_role "fabric_member_status" (or_null (Json.get member "status")) in
    let with_beat =
      Json.put with_status "fabric_member_heartbeat_at"
        (or_null (Json.get member "heartbeat_at")) in
    Json.put with_beat "fabric_member_expires_at" (or_null (Json.get member "expires_at"))

abbrev upstreams_of : Platform → Bool → List Fields → List Fields
upstreams_of py prefix_member_names [] = []
upstreams_of py prefix_member_names (m ∷ ms) =
    map (member_upstream py prefix_member_names m) (sequence_mappings (Json.get m "upstreams"))
    ++ upstreams_of py prefix_member_names ms

-- `member_upstreams`, whose members Python has `sorted` by id
unfoldable pub member_upstreams :
    (sorted : List Fields → List Fields)
    → Platform
    → ℕ
    → List String
    → List String
    → Bool
    → Bool
    → Registry
    → List Fields
unfolding active_members member_upstream
member_upstreams sorted py now roles statuses include_expired prefix_member_names r =
    upstreams_of py prefix_member_names
      (sorted (active_members py now roles statuses include_expired r))

-- The summary of a registry.
pub record Summary : Type 0 where
  pub member_count : ℕ
  pub active_count : ℕ
  pub expired_count : ℕ
  pub data_plane_count : ℕ
  pub upstream_count : ℕ
  pub roles : Dict ℕ
  pub statuses : Dict ℕ

-- `_count_by`
abbrev pub count_by : Platform → String → Dict ℕ → List Fields → Dict ℕ
count_by py key counts [] = counts
count_by py key counts (m ∷ ms) =
    let value = str_or py (Json.get m key) "unknown" in
    count_by py key (Dict.put counts value (or_else (Dict.get counts value) 0 + 1)) ms

abbrev total_upstreams : List Fields → ℕ
total_upstreams [] = 0
total_upstreams (m ∷ ms) = length (sequence_mappings (Json.get m "upstreams")) + total_upstreams ms

abbrev is_active : Platform → ℕ → Fields → Bool
is_active py now m =
    has_one ("active" ∷ []) (as_str (Json.get m "status")) && not (member_expired py now m)

-- `summarize_fabric_members`
unfoldable pub summarize : Platform → ℕ → Registry → Summary
unfolding members_of member_expired
summarize py now r =
    let members = members_of py r in
    let active = keep (is_active py now) members in
    record {
      member_count = length members;
      active_count = length active;
      expired_count = length (keep (member_expired py now) members);
      data_plane_count =
          length (keep (λ m. has_one ("data_plane" ∷ []) (as_str (Json.get m "role"))) active);
      upstream_count = total_upstreams active;
      roles = count_by py "role" [] members;
      statuses = count_by py "status" [] members;
    }
