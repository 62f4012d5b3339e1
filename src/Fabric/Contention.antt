-- ===== src/Fabric/Contention.antt =====
-- When `_update_registry` of snulbug/fabric_members.py gives up.
use snulbug.Base.{
  ℕ, zero, suc, ◌+◌, ◌<◌, ◌≤◌, ◌≡◌, ◌≢◌, refl, String, false, Option, none, some, arith, Bool-cases,
  inl, inr, ◌⊎◌, Option-cases, ltb,
}
use mathlib.Core.Path.{subst}
use snulbug.Base.Json
use snulbug.Base.Json.{Json, null, bool, int, flt, str, arr, obj}
use snulbug.Base.Result.{err, Result-cases}
use snulbug.State.{IntText}
use snulbug.State.Memory.{Items, memory_store, get, cas, same}
use snulbug.State.Memory.Refinement.{view, get-view}
use snulbug.Fabric.{Platform, Registry, contended}
use snulbug.Fabric.Values.{decode_registry, members_of, normalize_registry}
use snulbug.Fabric.Changes.{
  Change, Answer, MemberRequest, register, heartbeat, unregister, member_record,
}
use snulbug.Fabric.Update.{
  Round, exchange, attempts, update_registry, register_member, heartbeat_member, unregister_member,
}
use snulbug.Fabric.Exchange.{
  attempts-unread, attempts-refused, attempts-step, same_refl, reached, at_exchange, missed-reached,
}

-- In the round `k` of a store that starts as `s`, the exchange finds another text of the registry
-- than the reading did.
abbrev pub IsDisturbed : String → (ℕ → Round Items) → Items → ℕ → Type 0
IsDisturbed key rounds s k =
    view (at_exchange key rounds s k) (rounds k).write_at key
    ≢ view (reached key rounds s k) (rounds k).read_at key

abbrev pub IsCalm : Change → Type 0
IsCalm change = (now : ℕ) (r : Registry) → change now r ≢ err contended

members-IsCalm : (py : Platform) (members : Option Json) → members_of py members ≢ err contended
members-IsCalm py none h = ground arith
members-IsCalm py (some (arr xs)) h = ground arith
members-IsCalm py (some (obj m)) h = ground arith
members-IsCalm py (some null) h = ground arith
members-IsCalm py (some (bool b)) h = ground arith
members-IsCalm py (some (int n)) h = ground arith
members-IsCalm py (some (flt n e)) h = ground arith
members-IsCalm py (some (str s)) h = ground arith

normalize-IsCalm : (py : Platform) (value : Json) → normalize_registry py value ≢ err contended
unfolding normalize_registry
normalize-IsCalm py (arr xs) h = ground arith
normalize-IsCalm py (obj m) h = elim (Result-cases (members_of py (Json.get m "members"))) [
  | inl (e, bad) ↦ members-IsCalm py (Json.get m "members") (ground (arith, bad))
  | inr (members, good) ↦ ground (arith, good)
]
normalize-IsCalm py null h = ground arith
normalize-IsCalm py (bool b) h = ground arith
normalize-IsCalm py (int n) h = ground arith
normalize-IsCalm py (flt n e) h = ground arith
normalize-IsCalm py (str s) h = ground arith

decode-IsCalm : (py : Platform) (raw : Option String) → decode_registry py raw ≢ err contended
unfolding decode_registry
decode-IsCalm py none h = ground arith
decode-IsCalm py (some raw) h = elim (Option-cases (py.loads raw)) [
  | inl broken ↦ ground (arith, broken)
  | inr (value, read) ↦ normalize-IsCalm py value (ground (arith, read))
]

exchange-quiet :
    (ints : IntText) (py : Platform) (key : String) (round : Round Items)
    (changed : Answer × Registry) (s : Items)
    → (exchange
        (memory_store ints)
        py
        key
        round
        (get round.read_at s key).0
        changed
        (get round.read_at s key).1).0
      ≡ false
    → view (round.others (get round.read_at s key).1) round.write_at key ≢ view s round.read_at key
unfolding exchange cas
exchange-quiet ints py key round changed s missed same = absurd (
    ground (
      arith,
      missed,
      same,
      get-view round.read_at s key,
      get-view round.write_at (round.others (get round.read_at s key).1) key,
      same_refl (get round.read_at s key).0,
    ))

here_or_later : (i k : ℕ) → i ≤ k → (i ≡ k) ⊎ (i + 1 ≤ k)
here_or_later i k low = elim (Bool-cases (ltb i k)) [
  | inl below ↦ inr (ground arith)
  | inr not_below ↦ inl (ground arith)
]

attempts-IsDisturbed :
    (ints : IntText) (py : Platform) (key : String) (n : ℕ) (rounds : ℕ → Round Items) (i : ℕ)
    (change : Change) (first s end : Items)
    → IsCalm change
    → s ≡ reached key rounds first i
    → attempts (memory_store ints) py key n rounds i change s ≡ (err contended, end)
    → (k : ℕ) → i ≤ k
    → k < i + n
    → IsDisturbed key rounds first k
unfolding attempts
attempts-IsDisturbed ints py key zero rounds i change first s end calm from h k low high =
    absurd (omega arith)
attempts-IsDisturbed ints py key (suc n) rounds i change first s end calm from h k low high =
    let round = rounds i in
    let raw = (get round.read_at s key).0 in
    let s1 = (get round.read_at s key).1 in
    elim (Result-cases (decode_registry py raw)) [
      | inl (e, bad) ↦ absurd (
          decode-IsCalm py raw
            (ground (arith, bad, attempts-unread ints py key n rounds i change s e bad)))
      | inr (current, read) ↦ elim (Result-cases (change round.read_at current)) [
        | inl (e, refused) ↦ absurd (
            calm round.read_at current (
              ground (
                arith,
                refused,
                attempts-refused ints py key n rounds i change s current e read refused,
              )))
        | inr (made, changed) ↦
            let step = attempts-step ints py key n rounds i change s current made read changed in
            elim (Bool-cases (exchange (memory_store ints) py key round raw made s1).0) [
              | inl done ↦ absurd (ground (arith, step, done))
              | inr missed ↦ elim (here_or_later i k low) [
                | inl here ↦
                    subst (λ j. IsDisturbed key rounds first j) here
                      (subst
                        (λ u.
                          view (round.others (get round.read_at u key).1) round.write_at key
                          ≢ view u round.read_at key)
                        from (exchange-quiet ints py key round made s missed))
                | inr later ↦
                    attempts-IsDisturbed ints py key n rounds (i + 1) change first
                      (exchange (memory_store ints) py key round raw made s1).1 end calm
                      (missed-reached ints py key rounds first i raw made s from missed)
                      (ground (arith, step, missed)) k later (omega arith)
              ]
            ]
      ]
    ]

register-IsCalm : (py : Platform) (request : MemberRequest) → IsCalm (register py request)
unfolding register member_record
register-IsCalm py request now r h = ground arith

heartbeat-IsCalm :
    (py : Platform) (member_id : String) (ttl : ℕ) (status : String)
    → IsCalm (heartbeat py member_id ttl status)
unfolding heartbeat
heartbeat-IsCalm py member_id ttl status now r h = ground arith

unregister-IsCalm : (py : Platform) (member_id : String) → IsCalm (unregister py member_id)
unfolding unregister
unregister-IsCalm py member_id now r h = ground arith

update_registry-settles :
    (ints : IntText) (py : Platform) (key : String) (rounds : ℕ → Round Items) (change : Change)
    (s : Items) (k : ℕ)
    → IsCalm change
    → k < 8
    → ¬ IsDisturbed key rounds s k
    → (update_registry (memory_store ints) py key rounds change s).0 ≢ err contended
unfolding update_registry reached
update_registry-settles ints py key rounds change s k calm small quiet h =
    let end = (attempts (memory_store ints) py key 8 rounds 0 change s).1 in
    quiet (
      attempts-IsDisturbed ints py key 8 rounds 0 change s s end calm refl (ground (arith, h)) k
        (omega arith) (omega arith))

-- A registration, a heartbeat and an unregistration on a memory store settle: if in one of the eight
-- rounds, run on what the rounds before leave of the store, the exchange finds the text of the
-- registry that the reading found, then none of the calls gives up with "contended".
pub calls-settle :
    (ints : IntText) (py : Platform) (key : String) (rounds : ℕ → Round Items) (s : Items) (k : ℕ)
    (request : MemberRequest) (member_id : String) (ttl : ℕ) (status : String)
    → k < 8
    → ¬ IsDisturbed key rounds s k
    → ((register_member (memory_store ints) py key request rounds s).0 ≢ err contended)
      × ((heartbeat_member (memory_store ints) py key member_id ttl status rounds s).0
          ≢ err contended)
      × ((unregister_member (memory_store ints) py key member_id rounds s).0 ≢ err contended)
unfolding register_member heartbeat_member unregister_member
calls-settle ints py key rounds s k request member_id ttl status small quiet =
    let beats =
      update_registry-settles ints py key rounds (heartbeat py member_id ttl status) s k
        (heartbeat-IsCalm py member_id ttl status) small quiet in
    (
      update_registry-settles ints py key rounds (register py request) s k
          (register-IsCalm py request) small quiet,
      λ h. ground (arith, beats),
      update_registry-settles ints py key rounds (unregister py member_id) s k
          (unregister-IsCalm py member_id) small quiet,
    )
