-- ===== src/Fabric/Lifetime.antt =====
-- How long a member of snulbug/fabric_members.py is active: until it registers or beats again, or leaves.
use snulbug.Base.{
  ℕ, ◌+◌, ◌≡◌, String, Bool, true, false, not, Option, none, some, List, leb, arith, eq_iff, ap,
  ◌∙◌, contains,
}
use snulbug.Base.Json
use snulbug.Base.Json.{Json, Fields, str, field, end, get-put, as_str}
use snulbug.Fabric.{Platform}
use snulbug.Fabric.Values.{keep_fields, drop_empty, is_blank}
use snulbug.Fabric.Members.{member_expired, has_one, is_listed}
use snulbug.Fabric.Changes.{MemberRequest, expires_at, member_fields, new_member, beat, gone}

get-keep_fields :
    (p : Json → Bool) (m : Fields) (k : String) (v : Json)
    → Json.get m k ≡ some v
    → p v ≡ true
    → Json.get (keep_fields p m) k ≡ some v
unfolding Json.get
get-keep_fields p end k v h keeps = ground arith
get-keep_fields p (field j w m) k v h keeps = ground (arith, get-keep_fields p m k v)

pub get-drop_empty :
    (m : Fields) (k : String) (v : Json)
    → Json.get m k ≡ some v
    → is_blank v ≡ false
    → Json.get (drop_empty m) k ≡ some v
unfolding drop_empty
get-drop_empty m k v h set = get-keep_fields (λ w. not (is_blank w)) m k v h (simp (set))

module _ (py : Platform) (clock : (t : ℕ) → py.fromisoformat (py.isoformat t) ≡ some t)
    (no_time : py.fromisoformat "" ≡ none) where
  expires_at-is : (now ttl : ℕ) → expires_at py now ttl ≡ py.isoformat (now + ttl)
  unfolding expires_at
  expires_at-is now ttl = ground (arith, clock now)

  expired-at :
      (t over : ℕ) (m : Fields)
      → Json.get m "expires_at" ≡ some (str (py.isoformat over))
      → member_expired py t m ≡ leb over t
  unfolding member_expired
  expired-at t over m h = simp (h, clock)

  isoformat-set : (t : ℕ) → is_blank (str (py.isoformat t)) ≡ false
  isoformat-set t = ground (arith, clock t, no_time, eq_iff (py.isoformat t) "")

  new_member-expires :
      (now : ℕ) (name : String) (r : MemberRequest) (created_at : Option Json)
      → Json.get (new_member py now name r created_at) "expires_at"
        ≡ some (str (py.isoformat (now + r.ttl)))
  unfolding new_member
  new_member-expires now name r created_at =
      get-drop_empty (member_fields py now name r created_at) "expires_at"
        (str (py.isoformat (now + r.ttl)))
        (unfold member_fields Json.get in ap (λ s. some (str s)) (expires_at-is now r.ttl))
        (isoformat-set (now + r.ttl))

  beat-expires :
      (now ttl : ℕ) (status : String) (m : Fields)
      → Json.get (beat py now ttl status m) "expires_at" ≡ some (str (py.isoformat (now + ttl)))
  unfolding beat
  beat-expires now ttl status m = grind (arith, get-put, expires_at-is now ttl)

  gone-expires :
      (now : ℕ) (m : Fields) → Json.get (gone py now m) "expires_at" ≡ some (str (py.isoformat now))
  unfolding gone
  gone-expires now m = grind (arith, get-put)

  gone-status : (now : ℕ) (m : Fields) → Json.get (gone py now m) "status" ≡ some (str "left")
  unfolding gone
  gone-status now m = grind (arith, get-put)

  gone-not_in :
      (statuses : List String) (now : ℕ) (m : Fields)
      → contains statuses "left" ≡ false
      → has_one statuses (as_str (Json.get (gone py now m) "status")) ≡ false
  gone-not_in statuses now m left = ap (λ v. has_one statuses (as_str v)) (gone-status now m) ∙ left

  -- The lifetime of a member: a registration and a heartbeat both make it expire exactly when their
  -- time to live is over, from the time at which they run, and a member that has left is expired from
  -- that time on and is in no list that does not ask for members that have left. Reading a time back
  -- is assumed to give that time, and an empty text is no time.
  pub lifetime :
      (now ttl t : ℕ) (name : String) (request : MemberRequest) (created_at : Option Json)
      (status : String) (member : Fields) (roles statuses : List String) (include_expired : Bool)
      → contains statuses "left" ≡ false
      → (member_expired py t (new_member py now name request created_at)
          ≡ leb (now + request.ttl) t)
        × (member_expired py t (beat py now ttl status member) ≡ leb (now + ttl) t)
        × (member_expired py t (gone py now member) ≡ leb now t)
        × (is_listed py t roles statuses include_expired (gone py now member) ≡ false)
  unfolding is_listed
  lifetime now ttl t name r c status m roles statuses inc left = (
    expired-at t (now + r.ttl) _ (new_member-expires now name r c),
    expired-at t (now + ttl) _ (beat-expires now ttl status m),
    expired-at t now _ (gone-expires now m),
    ground (arith, gone-not_in statuses now m left),
  )
