-- ===== src/Fabric/Exchange.antt =====
-- The retries of _update_registry in snulbug/fabric_members.py, on a memory store that others change
-- meanwhile.
use snulbug.Base.{
  ℕ, zero, suc, ◌+◌, ◌≡◌, ◌<◌, ◌≤◌, refl, String, true, Option, none, some, arith, Bool-cases, inl,
  inr, eq_iff, if◌then◌else◌, false, ap, ◌∙◌,
}
use snulbug.Base.Result.{ok, err, Result-cases}
use snulbug.State.{IntText}
use snulbug.State.Memory.{Items, memory_store, get, cas, put, same}
use snulbug.State.Memory.Refinement.{view, get-view}
use snulbug.Fabric.{Platform, Registry, FabricError}
use snulbug.Fabric.Values.{decode_registry, encode_registry}
use snulbug.Fabric.Changes.{Change, Answer}
use snulbug.Fabric.Update.{Round, exchange, attempts, update_registry}

same_eq : (a b : Option String) → same a b ≡ true → a ≡ b
unfolding same
same_eq none none h = refl
same_eq none (some b) h = cc
same_eq (some a) none h = cc
same_eq (some a) (some b) h = ground (arith, eq_iff a b)

pub same_refl : (a : Option String) → same a a ≡ true
unfolding same
same_refl none = refl
same_refl (some a) = (eq_iff a a).1 refl

-- What a store that starts as `s` holds at the start of the round `k`, when nothing was exchanged
-- before: the readings have dropped what expired, and what the others did is all there.
unfoldable pub reached : String → (ℕ → Round Items) → Items → ℕ → Items
reached key rounds s zero = s
reached key rounds s (suc k) =
    let before = (get (rounds k).read_at (reached key rounds s k) key).1 in
    (get (rounds k).write_at ((rounds k).others before) key).1

-- What it holds when the exchange of the round `k` runs, after the reading and what the others did.
abbrev pub at_exchange : String → (ℕ → Round Items) → Items → ℕ → Items
at_exchange key rounds s k =
    (rounds k).others (get (rounds k).read_at (reached key rounds s k) key).1

-- A successful exchange in the round `k`: the change is of the registry that the store has when the
-- exchange runs, after what the others did in this round and in those before, and the exchange
-- writes the changed registry there.
pub record IsAtomic (py : Platform) (key : String) (rounds : ℕ → Round Items) (change : Change)
    (s : Items) (answer : Answer) (end : Items) : Type 0 where
  pub k : ℕ
  pub in_time : k < 8
  pub current : Registry
  pub next : Registry
  pub held :
      decode_registry py (view (at_exchange key rounds s k) (rounds k).write_at key) ≡ ok current
  pub made : change (rounds k).read_at current ≡ ok (answer, next)
  pub written :
      end
      ≡ put
          (rounds k).write_at
          (get (rounds k).write_at (at_exchange key rounds s k) key).1
          key
          (encode_registry py next)
          none

swapped :
    (ints : IntText) (py : Platform) (key : String) (round : Round Items) (raw : Option String)
    (changed : Answer × Registry) (s : Items)
    → (exchange (memory_store ints) py key round raw changed s).0 ≡ true
    → (view (round.others s) round.write_at key ≡ raw)
      × ((exchange (memory_store ints) py key round raw changed s).1
          ≡ put round.write_at
              (get round.write_at (round.others s) key).1
              key
              (encode_registry py changed.1)
              none)
unfolding exchange cas
swapped ints py key round raw changed s h = ground (
  arith,
  get-view round.write_at (round.others s) key,
  same_eq (get round.write_at (round.others s) key).0 raw,
)

-- a failed exchange leaves what the others did
pub missed-leaves :
    (ints : IntText) (py : Platform) (key : String) (round : Round Items) (raw : Option String)
    (changed : Answer × Registry) (s : Items)
    → (exchange (memory_store ints) py key round raw changed s).0 ≡ false
    → (exchange (memory_store ints) py key round raw changed s).1
      ≡ (get round.write_at (round.others s) key).1
unfolding exchange cas
missed-leaves ints py key round raw changed s h = ground (arith, h)

-- so that the next round starts with what is reached
pub missed-reached :
    (ints : IntText) (py : Platform) (key : String) (rounds : ℕ → Round Items) (first : Items)
    (i : ℕ) (raw : Option String) (changed : Answer × Registry) (s : Items)
    → s ≡ reached key rounds first i
    → (exchange
        (memory_store ints)
        py
        key
        (rounds i)
        raw
        changed
        (get (rounds i).read_at s key).1).0
      ≡ false
    → (exchange
        (memory_store ints)
        py
        key
        (rounds i)
        raw
        changed
        (get (rounds i).read_at s key).1).1
      ≡ reached key rounds first (i + 1)
unfolding reached
missed-reached ints py key rounds first i raw changed s from missed =
    let next : suc i ≡ i + 1 = omega arith in
    missed-leaves ints py key (rounds i) raw changed (get (rounds i).read_at s key).1 missed
    ∙ ap (λ u. (get (rounds i).write_at ((rounds i).others (get (rounds i).read_at u key).1) key).1)
        from
    ∙ ap (λ j. reached key rounds first j) next

-- One attempt, by what becomes of it.
module _ (ints : IntText) (py : Platform) (key : String) (n : ℕ) (rounds : ℕ → Round Items) (i : ℕ)
    (change : Change) (s : Items) where
  pub attempts-unread :
      (e : FabricError)
      → decode_registry py (get (rounds i).read_at s key).0 ≡ err e
      → attempts (memory_store ints) py key (suc n) rounds i change s
        ≡ (err e, (get (rounds i).read_at s key).1)
  unfolding attempts
  attempts-unread e bad = ground (arith, bad)

  pub attempts-refused :
      (current : Registry) (e : FabricError)
      → decode_registry py (get (rounds i).read_at s key).0 ≡ ok current
      → change (rounds i).read_at current ≡ err e
      → attempts (memory_store ints) py key (suc n) rounds i change s
        ≡ (err e, (get (rounds i).read_at s key).1)
  unfolding attempts
  attempts-refused current e read refused = ground (arith, read, refused)

  pub attempts-step :
      (current : Registry) (made : Answer × Registry)
      → decode_registry py (get (rounds i).read_at s key).0 ≡ ok current
      → change (rounds i).read_at current ≡ ok made
      → attempts (memory_store ints) py key (suc n) rounds i change s ≡ (
          let e =
            exchange
              (memory_store ints)
              py
              key
              (rounds i)
              (get (rounds i).read_at s key).0
              made
              (get (rounds i).read_at s key).1 in
          if e.0
          then (ok made.0, e.1)
          else attempts (memory_store ints) py key n rounds (i + 1) change e.1)
  unfolding attempts
  attempts-step current made read changed = ground (arith, read, changed)

attempts-IsAtomic :
    (ints : IntText) (py : Platform) (key : String) (n : ℕ) (rounds : ℕ → Round Items) (i : ℕ)
    (change : Change) (first s : Items) (answer : Answer) (end : Items)
    → i + n ≤ 8
    → s ≡ reached key rounds first i
    → attempts (memory_store ints) py key n rounds i change s ≡ (ok answer, end)
    → IsAtomic py key rounds change first answer end
unfolding attempts
attempts-IsAtomic ints py key zero rounds i change first s answer end few from h =
    absurd (ground arith)
attempts-IsAtomic ints py key (suc n) rounds i change first s answer end few from h =
    let round = rounds i in
    let raw = (get round.read_at s key).0 in
    let s1 = (get round.read_at s key).1 in
    elim (Result-cases (decode_registry py raw)) [
      | inl (e, bad) ↦ absurd (ground (arith, bad))
      | inr (current, read) ↦ elim (Result-cases (change round.read_at current)) [
        | inl (e, refused) ↦ absurd (ground (arith, read, refused))
        | inr ((made, next), changed) ↦
            elim (Bool-cases (exchange (memory_store ints) py key round raw (made, next) s1).0) [
              | inl done ↦
                  let swap = swapped ints py key round raw (made, next) s1 done in
                  let step =
                    attempts-step ints py key n rounds i change s current (made, next) read
                      changed in
                  let same : (made ≡ answer)
                      × (end ≡ (exchange (memory_store ints) py key round raw (made, next) s1).1) =
                    ground (arith, step) in
                  record {
                    k = i;
                    in_time = omega arith;
                    current = current;
                    next = next;
                    held = cc (from, swap.0, read);
                    made = cc (changed, same.0);
                    written = cc (from, same.1, swap.1);
                  }
              | inr missed ↦
                  attempts-IsAtomic ints py key n rounds (i + 1) change first
                    (exchange (memory_store ints) py key round raw (made, next) s1).1 answer end
                    (omega arith)
                    (missed-reached ints py key rounds first i raw (made, next) s from missed)
                    (ground (
                      arith,
                      attempts-step ints py key n rounds i change s current (made, next) read
                          changed,
                    ))
            ]
      ]
    ]

-- A successful `_update_registry` on a memory store changes the registry that the store holds when
-- the exchange runs: whatever others do between the reading and the exchange, in at most eight rounds,
-- the answer and the written registry are the change of that very registry, and what is stored then
-- is what the others made of the store in this and the earlier rounds, with the registry exchanged.
pub update_registry-IsAtomic :
    (ints : IntText) (py : Platform) (key : String) (rounds : ℕ → Round Items) (change : Change)
    (s : Items) (answer : Answer) (end : Items)
    → update_registry (memory_store ints) py key rounds change s ≡ (ok answer, end)
    → IsAtomic py key rounds change s answer end
unfolding update_registry reached
update_registry-IsAtomic ints py key rounds change s answer end h =
    attempts-IsAtomic ints py key 8 rounds 0 change s s answer end (omega arith) refl h
