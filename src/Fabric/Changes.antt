-- ===== src/Fabric/Changes.antt =====
-- The changes of snulbug/fabric_members.py to a registry: a member registers, shows that it is alive,
-- or leaves. A change is given the time and a registry, and gives its answer and the registry.
use snulbug.Base.{
  ℕ, ◌+◌, String, Bool, true, false, not, ◌&&◌, Option, none, some, List, contains, is_empty, leb,
  or_else, ◌==◌, if◌then◌else◌,
}
use snulbug.Base.Dict
use snulbug.Base.Result.{Result, ok, err, ◌>>=◌}
use snulbug.Base.Json
use snulbug.Base.Json.{Json, truth, Fields, null, str, int, arr, obj, end}
use snulbug.Fabric.{
  Platform, Registry, FabricError, bad_role, bad_status, bad_ttl, no_upstreams, roles, statuses,
}
use snulbug.Fabric.Values.{safe_name, drop_empty, upstream_items}
use snulbug.Fabric.Members.{Summary, summarize}

-- What a change answers.
pub record Answer : Type 0 where
  pub ok : Bool
  pub member : Option Fields
  pub unregistered : Option Bool
  pub summary : Option Summary

abbrev pub Change : Type 0
Change = ℕ → Registry → Result FabricError (Answer × Registry)

-- The arguments of `register_fabric_member`. Labels are texts, and metadata is a JSON object.
pub record MemberRequest : Type 0 where
  pub member_id : String
  pub role : String
  pub upstreams : List Fields
  pub ttl : ℕ
  pub status : String
  pub labels : Fields
  pub metadata : Fields

abbrev refuse_if : Bool → FabricError → Result FabricError (Unit {0})
refuse_if true e = err e
refuse_if false e = ok tt

-- `_expires_at`
unfoldable pub expires_at : Platform → ℕ → ℕ → String
expires_at py now ttl = py.isoformat (or_else (py.fromisoformat (py.isoformat now)) now + ttl)

-- created_at or now
abbrev created : Platform → ℕ → Option Json → Json
created py now none = str (py.isoformat now)
created py now (some v) = if truth v then v else str (py.isoformat now)

-- the dictionary of `_member_record`
unfoldable pub member_fields : Platform → ℕ → String → MemberRequest → Option Json → Fields
unfolding expires_at
member_fields py now name r created_at =
    (Json.field "id" (str name) (
      Json.field "role" (str (py.underscored r.role)) (
        Json.field "status" (str (py.underscored r.status)) (
          Json.field "created_at" (created py now created_at) (
            Json.field "heartbeat_at" (str (py.isoformat now)) (
              Json.field "ttl_seconds" (py.float_seconds r.ttl) (
                Json.field "expires_at" (str (expires_at py now r.ttl)) (
                  Json.field "host" (str py.hostname) (
                    Json.field "pid" (int py.pid) (
                      Json.field "labels" (obj r.labels) (
                        Json.field "metadata" (obj r.metadata) (
                          Json.field "upstreams" (arr (upstream_items py name r.upstreams))
                            end))))))))))))

unfoldable pub new_member : Platform → ℕ → String → MemberRequest → Option Json → Fields
unfolding drop_empty member_fields
new_member py now name r created_at = drop_empty (member_fields py now name r created_at)

-- `_member_record`
unfoldable pub member_record :
    Platform → ℕ → String → MemberRequest → Option Json → Result FabricError Fields
unfolding new_member safe_name
member_record py now member_id r created_at = do
  let name = safe_name py member_id
  _ ← refuse_if (not (contains roles (py.underscored r.role))) bad_role
  _ ← refuse_if (not (contains statuses (py.underscored r.status))) bad_status
  _ ← refuse_if (leb r.ttl 0) bad_ttl
  _ ← refuse_if (py.underscored r.role == "data_plane" && is_empty r.upstreams) no_upstreams
  ok (new_member py now name r created_at)

-- _mapping(current["members"].get(key))
abbrev pub held : Registry → String → Fields
held r name = or_else (Dict.get r.members name) end

abbrev pub store_member : Platform → ℕ → Registry → String → Fields → Registry
store_member py now r name member = record {
  updated_at = str (py.isoformat now);
  members = Dict.put r.members name member;
}

-- the update of `register_fabric_member`
unfoldable pub register : Platform → MemberRequest → Change
unfolding member_record safe_name
register py request now current = do
  let name = safe_name py request.member_id
  member ← member_record py now name request (Json.get (held current name) "created_at")
  let next = store_member py now current name member
  ok (
    record {
      ok = true;
      member = some member;
      unregistered = none;
      summary = some (summarize py now next);
    },
    next,
  )

abbrev pub is_missing : Fields → Bool
is_missing end = true
is_missing (Json.field k v m) = false

-- the fields that a heartbeat writes
unfoldable pub beat : Platform → ℕ → ℕ → String → Fields → Fields
unfolding expires_at
beat py now ttl status member =
    Json.put
      (Json.put
        (Json.put (Json.put member "status" (str status)) "heartbeat_at" (str (py.isoformat now)))
        "ttl_seconds" (py.float_seconds ttl))
      "expires_at" (str (expires_at py now ttl))

-- the update of `heartbeat_fabric_member`
unfoldable pub heartbeat : Platform → String → ℕ → String → Change
unfolding beat safe_name
heartbeat py member_id ttl status now current =
    let name = safe_name py member_id in
    let member = held current name in
    let updated = beat py now ttl status member in
    let next = store_member py now current name updated in
    if is_missing member
    then ok (record { ok = false; member = none; unregistered = none; summary = none }, current)
    else ok (
      record {
        ok = true;
        member = some updated;
        unregistered = none;
        summary = some (summarize py now next);
      },
      next,
    )

-- the fields of a member that has left
unfoldable pub gone : Platform → ℕ → Fields → Fields
gone py now member =
    Json.put
      (Json.put
        (Json.put (Json.put member "status" (str "left")) "left_at" (str (py.isoformat now)))
        "heartbeat_at" (str (py.isoformat now)))
      "expires_at" (str (py.isoformat now))

-- the update of `unregister_fabric_member`
unfoldable pub unregister : Platform → String → Change
unfolding gone safe_name
unregister py member_id now current =
    let name = safe_name py member_id in
    let member = held current name in
    let next = store_member py now current name (gone py now member) in
    if is_missing member
    then ok (
      record {
        ok = true;
        member = none;
        unregistered = some false;
        summary = some (summarize py now current);
      },
      current,
    )
    else ok (
      record {
        ok = true;
        member = none;
        unregistered = some true;
        summary = some (summarize py now next);
      },
      next,
    )
