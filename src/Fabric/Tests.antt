-- ===== src/Fabric/Tests.antt =====
-- Runs of snulbug/fabric_members.py on small registries.
use snulbug.Base.{
  ℕ, zero, suc, ◌+◌, ◌≡◌, ◌≢◌, ◌⊎◌, refl, ap, true, false, Option, none, some, [], ◌∷◌, arith, leb,
}
use snulbug.Base.Result.{ok, err}
use snulbug.Base.Int.{pos}
use snulbug.Base.Json.{Json, Fields, str, int, null, field, end, obj, truth}
use snulbug.State.Tally.{python, tally, size, size-tally}
use snulbug.State.Memory.Refinement.{view}
use snulbug.State.Memory.{Items, memory_store, get, cas, put, read, same}
use snulbug.Fabric.{Platform, Registry, contended}
use snulbug.Fabric.Values.{
  empty_registry, decode_registry, normalize_registry, normalize_members, safe_name, drop_empty,
  encode_registry, registry_json,
}
use snulbug.Fabric.Changes.{
  held, MemberRequest, Answer, register, new_member, beat, gone, member_record, member_fields,
  expires_at,
}
use snulbug.Fabric.Members.{prefixed_name, member_expired, is_listed, summarize}
use snulbug.Fabric.Update.{
  Round, update_registry, register_member, heartbeat_member, unregister_member, attempts, exchange,
}
use snulbug.Fabric.Exchange.{IsAtomic, reached, update_registry-IsAtomic}
use snulbug.Fabric.Lifetime.{lifetime}
use snulbug.Fabric.Kept.{registers, change_of, change-keeps}
use snulbug.Fabric.Contention.{IsDisturbed, calls-settle}
use snulbug.State
use snulbug.Base.Json
use snulbug.Base.Dict

abbrev time_of : ℕ → Option ℕ
time_of zero = none
time_of (suc n) = some n

-- Times as texts of their length, the empty text being none.
abbrev platform : Platform
platform = record {
  loads = λ s. some (registry_json empty_registry);
  dumps = λ v. "registry";
  safe_text = λ s. s;
  underscored = λ s. s;
  isoformat = λ t. tally (suc t);
  fromisoformat = λ s. time_of (size s);
  float_seconds = λ t. int (pos t);
  str = λ v. "text";
  hostname = "host";
  pid = pos 7;
}

clock : (t : ℕ) → platform.fromisoformat (platform.isoformat t) ≡ some t
clock t = ap (λ n. time_of n) (size-tally (suc t))

abbrev request : MemberRequest
request = record {
  member_id = "edge";
  role = "data_plane";
  upstreams = field "name" (str "files") end ∷ [];
  ttl = 30;
  status = "active";
  labels = end;
  metadata = end;
}

lifetime_example :
    (member_expired platform 40 (new_member platform 5 "edge" request none) ≡ leb 35 40)
    × (member_expired platform 40 (beat platform 5 50 "active" end) ≡ leb 55 40)
    × (member_expired platform 40 (gone platform 5 end) ≡ leb 5 40)
    × (is_listed platform 40 ("data_plane" ∷ []) ("active" ∷ []) true (gone platform 5 end) ≡ false)
lifetime_example =
    lifetime platform clock refl 5 50 40 "edge" request none "active" end ("data_plane" ∷ [])
      ("active" ∷ []) true refl

-- Others write the key in the first round, and then rest.
abbrev meddle : ℕ → Items → Items
meddle zero s = ("members", record { value = "other"; expires = none }) ∷ []
meddle (suc i) s = s

abbrev rounds : ℕ → Round Items
rounds i = record { read_at = i; others = meddle i; write_at = i + 1 }

abbrev edge : Fields
edge = new_member platform 1 "edge" request none

abbrev registered : Registry
registered = record { updated_at = str (tally 2); members = ("edge", edge) ∷ [] }

abbrev answer : Answer
answer = record {
  ok = true;
  member = some edge;
  unregistered = none;
  summary = some (summarize platform 1 registered);
}

abbrev written : Items
written = ("members", record { value = "registry"; expires = none }) ∷ []

registers_edge :
    update_registry (memory_store python) platform "members" rounds (register platform request) []
    ≡ (ok answer, written)
unfolding update_registry attempts exchange decode_registry normalize_registry normalize_members
    register member_record new_member member_fields expires_at safe_name drop_empty encode_registry
    registry_json summarize get cas put read same Dict.get Dict.put Json.get Json.put
    State.expires_at State.expired
registers_edge = refl

undisturbed : ¬ IsDisturbed "members" rounds [] 1
unfolding reached get Dict.get State.expired view
undisturbed changed = changed refl

update_registry-IsAtomic_example :
    IsAtomic platform "members" rounds (register platform request) [] answer written
update_registry-IsAtomic_example =
    update_registry-IsAtomic python platform "members" rounds (register platform request) [] answer
      written registers_edge

calls-settle_example :
    ((register_member (memory_store python) platform "members" request rounds []).0 ≢ err contended)
    × ((heartbeat_member (memory_store python) platform "members" "edge" 9 "active" rounds []).0
        ≢ err contended)
    × ((unregister_member (memory_store python) platform "members" "edge" rounds []).0
        ≢ err contended)
calls-settle_example =
    calls-settle python platform "members" rounds [] 1 request "edge" 9 "active" (omega arith)
      undisturbed

prefixes :
    (prefixed_name "edge" "files" ≡ "edge-files")
    × (prefixed_name "edge" "edge-files" ≡ "edge-files")
unfolding prefixed_name
prefixes = (refl, refl)

abbrev founded : Registry
founded = record {
  updated_at = null;
  members =
      ("edge", field "created_at" (str "1") end) ∷ ("other", field "id" (str "other") end) ∷ [];
}

abbrev renewed_edge : Fields
renewed_edge = new_member platform 4 "edge" request (some (str "1"))

abbrev refounded : Registry
refounded = record {
  updated_at = str (tally 5);
  members = ("edge", renewed_edge) ∷ ("other", field "id" (str "other") end) ∷ [];
}

abbrev again : Answer
again = record {
  ok = true;
  member = some renewed_edge;
  unregistered = none;
  summary = some (summarize platform 4 refounded);
}

registers_again : change_of platform (registers request) 4 founded ≡ ok (again, refounded)
unfolding change_of register member_record new_member member_fields expires_at safe_name Dict.get
    Dict.put Json.get Json.put
registers_again = refl

other_name : safe_name platform "edge" ≢ "other"
unfolding safe_name
other_name h = absurd (cc h)

change-keeps_example :
    (Dict.get refounded.members "other" ≡ Dict.get founded.members "other")
    × ((Json.get (held founded (safe_name platform "edge")) "created_at" ≡ none)
        ⊎ ((v : Json) × (Json.get (held founded (safe_name platform "edge")) "created_at" ≡ some v)
            × (truth v ≡ false))
        ⊎ (Json.get (held refounded (safe_name platform "edge")) "created_at"
            ≡ Json.get (held founded (safe_name platform "edge")) "created_at"))
change-keeps_example =
    change-keeps platform (registers request) 4 founded refounded again "other" registers_again
      other_name
