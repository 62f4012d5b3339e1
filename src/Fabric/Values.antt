-- ===== src/Fabric/Values.antt =====
-- The helpers of snulbug/fabric_members.py on JSON values, and the registry as a JSON value.
use snulbug.Base.{
  zero, suc, ◌^◌, String, Bool, true, false, not, ◌||◌, Option, none, some, List, [], ◌∷◌, contains,
  or_else, eqb, ◌==◌, if◌then◌else◌,
}
use snulbug.Base.Dict
use snulbug.Base.Dict.{Dict}
use snulbug.Base.Result.{Result, ok, err}
use snulbug.Base.Int.{pos, negsuc}
use snulbug.Base.Json
use snulbug.Base.Json.{
  truth, Json, Fields, Items, null, bool, int, flt, str, arr, obj, nil, cons, end, field,
}
use snulbug.Fabric.{
  Platform, Registry, FabricError, bad_json, not_object, bad_schema, bad_members, roles, statuses,
  schema,
}
use Prim.Native.String

-- str(value or default)
abbrev pub text_or : Platform → Option Json → String → String
text_or py none default = default
text_or py (some v) default = if truth v then py.str v else default

-- item in (None, "", [], {})
abbrev pub is_blank : Json → Bool
is_blank null = true
is_blank (str s) = s == ""
is_blank (arr nil) = true
is_blank (obj end) = true
is_blank _ = false

-- the fields whose values pass a test
abbrev pub keep_fields : (Json → Bool) → Fields → Fields
keep_fields p end = end
keep_fields p (field k v m) = let rest = keep_fields p m in if p v then field k v rest else rest

-- `_drop_empty`
unfoldable pub drop_empty : Fields → Fields
drop_empty m = keep_fields (λ v. not (is_blank v)) m

-- `_safe_name`
unfoldable pub safe_name : Platform → String → String
safe_name py text = let name = py.safe_text text in if name == "" then "member" else name

-- `_sequence_mappings`: the objects among the values of an object or of a list
abbrev field_mappings : Fields → List Fields
field_mappings end = []
field_mappings (field k (obj m) rest) = m ∷ field_mappings rest
field_mappings (field k _ rest) = field_mappings rest

abbrev item_mappings : Items → List Fields
item_mappings nil = []
item_mappings (cons (obj m) rest) = m ∷ item_mappings rest
item_mappings (cons _ rest) = item_mappings rest

unfoldable pub sequence_mappings : Option Json → List Fields
sequence_mappings (some (obj m)) = field_mappings m
sequence_mappings (some (arr xs)) = item_mappings xs
sequence_mappings _ = []

-- result.setdefault(key, value)
abbrev set_default : Fields → String → Json → Fields
set_default m k v = elim (Json.get m k) [ none ↦ Json.put m k v | some _ ↦ m ]

abbrev is_set : Json → Bool
is_set null = false
is_set _ = true

-- `_normalize_upstream`
unfoldable pub normalize_upstream : Platform → String → Fields → Fields
unfolding safe_name
normalize_upstream py member_id upstream =
    let name = safe_name py (text_or py (Json.get upstream "name") member_id) in
    set_default (Json.put (keep_fields is_set upstream) "name" (str name)) "tool_prefix"
      (str (String.◌++◌ name "."))

abbrev pub upstream_items : Platform → String → List Fields → Items
upstream_items py member_id [] = nil
upstream_items py member_id (m ∷ ms) =
    cons (obj (normalize_upstream py member_id m)) (upstream_items py member_id ms)

abbrev one_of : List String → String → String → String
one_of allowed default text = if contains allowed text then text else default

-- str(member.get(key, default)).replace("-", "_")
abbrev word_of : Platform → Option Json → String → String
word_of py none default = py.underscored default
word_of py (some v) default = py.underscored (py.str v)

abbrev pub member_name : Platform → Fields → String → String
member_name py member fallback = safe_name py (text_or py (Json.get member "id") fallback)

-- `_normalize_member`
unfoldable pub normalize_member : Platform → Fields → String → Fields
unfolding drop_empty safe_name sequence_mappings normalize_upstream
normalize_member py member fallback =
    let name = member_name py member fallback in
    let named = Json.put member "id" (str name) in
    let with_role =
      Json.put named "role"
        (str (one_of roles "data_plane" (word_of py (Json.get member "role") "data_plane"))) in
    let with_status =
      Json.put with_role "status"
        (str (one_of statuses "active" (word_of py (Json.get member "status") "active"))) in
    drop_empty (
      Json.put with_status "upstreams"
        (arr (upstream_items py name (sequence_mappings (Json.get member "upstreams")))))

-- the loop of `_normalize_registry` over the members, by id
unfoldable pub normalize_members : Platform → Dict Fields → Fields → Dict Fields
unfolding normalize_member safe_name
normalize_members py done end = done
normalize_members py done (field k (obj member) rest) =
    normalize_members py (Dict.put done (member_name py member k) (normalize_member py member k))
      rest
normalize_members py done (field k _ rest) = normalize_members py done rest

abbrev set_id : Platform → Fields → Fields → Option Json → Fields
set_id py done m none = done
set_id py done m (some v) = if truth v then Json.put done (py.str v) (obj m) else done

-- a list of members as an object, by their ids
abbrev members_by_id : Platform → Fields → Items → Fields
members_by_id py done nil = done
members_by_id py done (cons (obj m) rest) =
    members_by_id py (set_id py done m (Json.get m "id")) rest
members_by_id py done (cons _ rest) = members_by_id py done rest

abbrev pub members_of : Platform → Option Json → Result FabricError Fields
members_of py none = ok end
members_of py (some (arr xs)) = ok (members_by_id py end xs)
members_of py (some (obj m)) = ok m
members_of py (some _) = err bad_members

-- value == 1
abbrev is_one : Option Json → Bool
is_one (some (int (pos n))) = eqb n 1
is_one (some (bool b)) = b
is_one (some (flt (pos n) (pos zero))) = eqb n 1
is_one (some (flt (pos n) (negsuc k))) = eqb n (2 ^ suc k)
is_one _ = false

abbrev is_text : String → Option Json → Bool
is_text s (some (str t)) = t == s
is_text s _ = false

abbrev pub empty_registry : Registry
empty_registry = record { updated_at = null; members = [] }

abbrev normalize_object : Platform → Fields → Result FabricError Registry
normalize_object py value =
    if not (is_text schema (Json.get value "schema")) || not (is_one (Json.get value "version"))
    then err bad_schema
    else elim (members_of py (Json.get value "members")) [
      | err e ↦ err e
      | ok members ↦ ok (record {
        updated_at = or_else (Json.get value "updated_at") null;
        members = normalize_members py [] members;
      })
    ]

-- `_normalize_registry`
unfoldable pub normalize_registry : Platform → Json → Result FabricError Registry
unfolding normalize_members
normalize_registry py null = ok empty_registry
normalize_registry py (str s) = if s == "" then ok empty_registry else err not_object
normalize_registry py (obj value) = normalize_object py value
normalize_registry py _ = err not_object

abbrev fields_of : Dict Fields → Fields
fields_of [] = end
fields_of ((k, m) ∷ rest) = field k (obj m) (fields_of rest)

-- `_normalize_registry` of a registry that the module holds
unfoldable pub renormalize : Platform → Registry → Registry
unfolding normalize_members
renormalize py r = record r { members = normalize_members py [] (fields_of r.members) }

unfoldable pub registry_json : Registry → Json
registry_json r = obj (
    field "schema" (str schema) (
      field "version" (int (pos 1))
        (field "updated_at" r.updated_at (field "members" (obj (fields_of r.members)) end))))

-- `_encode_registry`
unfoldable pub encode_registry : Platform → Registry → String
unfolding renormalize registry_json
encode_registry py r = py.dumps (registry_json (renormalize py r))

-- `_decode_registry`
unfoldable pub decode_registry : Platform → Option String → Result FabricError Registry
unfolding normalize_registry
decode_registry py none = ok empty_registry
decode_registry py (some raw) = elim (py.loads raw) [
  | none ↦ err bad_json
  | some value ↦ normalize_registry py value
]
