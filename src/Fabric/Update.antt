-- ===== src/Fabric/Update.antt =====
-- `_update_registry` of snulbug/fabric_members.py: a change of a registry in a policy state store is
-- exchanged against the text that was read, and tried again while others change it in between.
use snulbug.Base.{ℕ, zero, suc, ◌+◌, String, Bool, Option, none, contains, not, if◌then◌else◌}
use snulbug.Base.Result.{Result, ok, err}
use snulbug.State.{PolicyStateStore}
use snulbug.Base.Json.{Json}
use snulbug.Fabric.{Platform, Registry, FabricError, bad_status, contended, statuses}
use snulbug.Fabric.Values.{
  decode_registry, encode_registry, normalize_registry, renormalize, registry_json, empty_registry,
}
use snulbug.Fabric.Changes.{Change, Answer, MemberRequest, register, heartbeat, unregister}

-- One attempt as the store sees it: when the registry is read, what others do to the store until
-- it is exchanged, and when that is.
pub record Round (S : Type 0) : Type 0 where
  pub read_at : ℕ
  pub others : S → S
  pub write_at : ℕ

module _ {S : Type 0} (store : PolicyStateStore S) (py : Platform) (key : String) where
  -- the exchange, and the attempts that are left if it fails
  unfoldable pub exchange : Round S → Option String → Answer × Registry → S → Bool × S
  unfolding encode_registry
  exchange round raw change s =
      store.cas round.write_at (round.others s) key raw (encode_registry py change.1) none

  unfoldable pub attempts : ℕ → (ℕ → Round S) → ℕ → Change → S → Result FabricError Answer × S
  unfolding exchange
  attempts zero rounds i change s = (err contended, s)
  attempts (suc n) rounds i change s =
      let round = rounds i in
      let found = store.get (rounds i).read_at s key in
      elim (decode_registry py found.0) [
        | err e ↦ (err e, found.1)
        | ok current ↦ elim (change (rounds i).read_at current) [
          | err e ↦ (err e, found.1)
          | ok changed ↦
              let swapped = exchange (rounds i) found.0 changed found.1 in
              let again = attempts n rounds (i + 1) change swapped.1 in
              if swapped.0 then (ok changed.0, swapped.1) else again
        ]
      ]

  -- `_update_registry` on a state store
  unfoldable pub update_registry : (ℕ → Round S) → Change → S → Result FabricError Answer × S
  unfolding attempts
  update_registry rounds change s = attempts 8 rounds 0 change s

  -- `register_fabric_member`, `heartbeat_fabric_member` and `unregister_fabric_member`
  unfoldable pub register_member : MemberRequest → (ℕ → Round S) → S → Result FabricError Answer × S
  unfolding update_registry register
  register_member request rounds s = update_registry rounds (register py request) s

  unfoldable pub heartbeat_member :
      String → ℕ → String → (ℕ → Round S) → S → Result FabricError Answer × S
  unfolding update_registry heartbeat
  heartbeat_member member_id ttl status rounds s =
      if not (contains statuses status)
      then (err bad_status, s)
      else update_registry rounds (heartbeat py member_id ttl status) s

  unfoldable pub unregister_member : String → (ℕ → Round S) → S → Result FabricError Answer × S
  unfolding update_registry unregister
  unregister_member member_id rounds s = update_registry rounds (unregister py member_id) s

-- A registry file: it is missing, or no JSON, or it has a value.
pub data RegistryFile : Type 0 where
  absent broken : RegistryFile
  holds : Json → RegistryFile

-- `load_fabric_member_registry` of a file
unfoldable pub load_file : Platform → RegistryFile → Result FabricError Registry
unfolding normalize_registry
load_file py absent = ok empty_registry
load_file py broken = err FabricError.bad_json
load_file py (holds value) = normalize_registry py value

-- `_update_registry` on a file, which takes no lock
unfoldable pub update_file :
    Platform → ℕ → Change → RegistryFile → Result FabricError Answer × RegistryFile
unfolding load_file renormalize registry_json
update_file py now change file = elim (load_file py file) [
  | err e ↦ (err e, file)
  | ok current ↦ elim (change now current) [
    | err e ↦ (err e, file)
    | ok (answer, next) ↦ (ok answer, holds (registry_json (renormalize py next)))
  ]
]
