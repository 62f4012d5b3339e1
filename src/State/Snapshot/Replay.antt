-- ===== src/State/Snapshot/Replay.antt =====
-- What the snapshot store of snulbug/state.py records, and what it stands for: its operations
-- replay to its state, and it answers as the memory store does.
use snulbug.Base.{
  ℕ, ◌≡◌, refl, ap, ◌∙◌, String, true, Option, none, some, List, [], ◌∷◌, ◌++◌, All, arith,
}
use mathlib.Core.Option
use snulbug.Base.Dict
use snulbug.Base.Dict.{Dict}
use snulbug.Base.Int.{ℤ}
use snulbug.Base.Result.{Result, ok, err}
use snulbug.State.{
  IntText, StateError, Op, count, step, run, expires_at, expired, add_to, run-simulation,
}
use snulbug.State.Memory
use snulbug.State.Memory.{Item, Items, memory_store, same}
use snulbug.State.Snapshot.{
  Entry, Snapshot, snapshot_store, new, get, put, delete, incr, cas, finish_count,
}

-- One recorded operation, done again on a state.
replay_entry : Entry → Dict String → Dict String
replay_entry (Entry.got key value hit) d = d
replay_entry (Entry.wrote key before after ttl) d = Dict.put d key after
replay_entry (Entry.deleted key before gone) d = Dict.pop d key
replay_entry (Entry.counted key before amount after ttl) d = Dict.put d key after
replay_entry (Entry.compared key before expected (some after) true ttl) d = Dict.put d key after
replay_entry (Entry.compared key before expected after swapped ttl) d = d

pub replay : List Entry → Dict String → Dict String
replay [] d = d
replay (e ∷ es) d = replay es (replay_entry e d)

replay-append :
    (es : List Entry) (e : Entry) (d : Dict String)
    → replay (es ++ e ∷ []) d ≡ replay_entry e (replay es d)
unfolding replay
replay-append [] e d = refl
replay-append (x ∷ es) e d = replay-append es e (replay_entry x d)

abbrev pub IsFaithful : Snapshot → Type 0
IsFaithful s = replay s.operations s.initial_state ≡ s.items

finish_count-IsFaithful :
    (py : IntText) (s : Snapshot) (k : String) (amount : ℤ) (ttl : Option ℕ)
    (r : Result StateError ℤ)
    → IsFaithful s
    → IsFaithful (finish_count py s k amount ttl r).1
unfolding finish_count replay_entry
finish_count-IsFaithful py s k amount ttl (ok n) h = rw replay-append (rw h refl)
finish_count-IsFaithful py s k amount ttl (err e) h = h

step-IsFaithful :
    (py : IntText) (now : ℕ) (op : Op) (s : Snapshot)
    → IsFaithful s
    → IsFaithful (step (snapshot_store py) now op s).1
unfolding step get put delete incr cas replay_entry
step-IsFaithful py now (Op.get k) s h = rw replay-append h
step-IsFaithful py now (Op.put k v ttl) s h = rw replay-append (rw h refl)
step-IsFaithful py now (Op.delete k) s h = rw replay-append (rw h refl)
step-IsFaithful py now (Op.incr k amount ttl) s h =
    finish_count-IsFaithful py s k amount ttl (add_to py (Dict.get s.items k) amount) h
step-IsFaithful py now (Op.cas k expected v ttl) s h =
    rw replay-append (ground (arith, Dict.get-put_self s.items k v))

finish_count-initial :
    (py : IntText) (s : Snapshot) (k : String) (amount : ℤ) (ttl : Option ℕ)
    (r : Result StateError ℤ)
    → (finish_count py s k amount ttl r).1.initial_state ≡ s.initial_state
unfolding finish_count
finish_count-initial py s k amount ttl (ok n) = refl
finish_count-initial py s k amount ttl (err e) = refl

step-initial :
    (py : IntText) (now : ℕ) (op : Op) (s : Snapshot)
    → (step (snapshot_store py) now op s).1.initial_state ≡ s.initial_state
unfolding step get put delete incr cas
step-initial py now (Op.incr k amount ttl) s =
    finish_count-initial py s k amount ttl (add_to py (Dict.get s.items k) amount)
step-initial py now _ s = refl

run-replays :
    (py : IntText) (ops : List (ℕ × Op)) (s : Snapshot)
    → IsFaithful s
    → IsFaithful (run (snapshot_store py) ops s).1
      × ((run (snapshot_store py) ops s).1.initial_state ≡ s.initial_state)
unfolding run
run-replays py [] s h = (h, refl)
run-replays py ((now, op) ∷ ops) s h =
    let s' = (step (snapshot_store py) now op s).1 in
    let (faithful, kept) = run-replays py ops s' (step-IsFaithful py now op s h) in
    (faithful, kept ∙ step-initial py now op s)

-- After any timed calls on a new snapshot store, failing ones included, the recorded operations
-- replayed on the initial state give the final state, and the initial state is still the one that
-- the store was made with.
pub snapshot-run-replay :
    (py : IntText) (state : Dict (Option String)) (ops : List (ℕ × Op))
    → let s = (run (snapshot_store py) ops (new state)).1 in
      (replay s.operations s.initial_state ≡ s.items)
      × (s.initial_state ≡ (new state).initial_state)
unfolding new
snapshot-run-replay py state ops = run-replays py ops (new state) (unfold replay in refl)

abbrev lasting : String → Item
lasting v = record { value = v; expires = none }

abbrev entries : Dict String → Items
entries [] = []
entries ((k, v) ∷ d) = (k, lasting v) ∷ entries d

-- the memory store that holds the entries of a snapshot, with no expiry
abbrev pub unexpiring : Snapshot → Items
unexpiring s = entries s.items

get-entries :
    (d : Dict String) (k : String) → Dict.get (entries d) k ≡ Option.map lasting (Dict.get d k)
unfolding Dict.get
get-entries [] k = refl
get-entries ((j, v) ∷ d) k = ground (arith, get-entries d k)

entries-pop : (d : Dict String) (k : String) → entries (Dict.pop d k) ≡ Dict.pop (entries d) k
unfolding Dict.pop
entries-pop [] k = refl
entries-pop ((j, v) ∷ d) k = ground (arith, entries-pop d k)

entries-put :
    (d : Dict String) (k v : String) → entries (Dict.put d k v) ≡ Dict.put (entries d) k (lasting v)
unfolding Dict.put
entries-put [] k v = refl
entries-put ((j, w) ∷ d) k v = ground (arith, entries-put d k v)

-- The calls that set no expiry.
abbrev pub HasNoTtl : Op → Type 0
HasNoTtl (Op.put k v ttl) = ttl ≡ none
HasNoTtl (Op.incr k amount ttl) = ttl ≡ none
HasNoTtl (Op.cas k expected v ttl) = ttl ≡ none
HasNoTtl _ = Unit

memory-get :
    (now : ℕ) (s : Snapshot) (k : String)
    → Memory.get now (unexpiring s) k ≡ (Dict.get s.items k, unexpiring s)
unfolding Memory.get expired
memory-get now s k = ground (arith, get-entries s.items k)

memory-incr :
    (py : IntText) (now : ℕ) (s : Snapshot) (k : String) (amount : ℤ) (ttl : Option ℕ)
    → Memory.incr py now (unexpiring s) k amount ttl
      ≡ Memory.store_count py now (unexpiring s) k ttl (add_to py (Dict.get s.items k) amount)
unfolding Memory.incr
memory-incr py now s k amount ttl =
    ap (λ p. Memory.store_count py now p.1 k ttl (add_to py p.0 amount)) (memory-get now s k)

finish_count-memory :
    (py : IntText) (now : ℕ) (s : Snapshot) (k : String) (amount : ℤ) (r : Result StateError ℤ)
    → ((finish_count py s k amount none r).0
        ≡ (Memory.store_count py now (unexpiring s) k none r).0)
      × (unexpiring (finish_count py s k amount none r).1
          ≡ (Memory.store_count py now (unexpiring s) k none r).1)
unfolding finish_count Memory.store_count expires_at
finish_count-memory py now s k amount (ok n) = (refl, entries-put s.items k (py.str n))
finish_count-memory py now s k amount (err e) = (refl, refl)

step-unexpiring :
    (py : IntText) (now : ℕ) (op : Op) (s : Snapshot)
    → HasNoTtl op
    → ((step (snapshot_store py) now op s).0 ≡ (step (memory_store py) now op (unexpiring s)).0)
      × (unexpiring (step (snapshot_store py) now op s).1
          ≡ (step (memory_store py) now op (unexpiring s)).1)
unfolding step get put delete cas expires_at Memory.put Memory.delete
step-unexpiring py now (Op.get k) s p = ground (arith, memory-get now s k)
step-unexpiring py now (Op.put k v ttl) s p = ground (arith, entries-put s.items k v)
step-unexpiring py now (Op.delete k) s p =
    ground (arith, get-entries s.items k, entries-pop s.items k)
step-unexpiring py now (Op.incr k amount ttl) s p =
    unfold incr in
    rw (p, memory-incr)
      (let (told, left) =
          finish_count-memory py now s k amount (add_to py (Dict.get s.items k) amount) in
        (ap count told, left))
step-unexpiring py now (Op.cas k expected v ttl) s p =
    unfold Memory.cas expired in ground (arith, get-entries s.items k, entries-put s.items k v)

-- For calls that set no expiry, the snapshot store answers every list of timed calls as the memory
-- store that starts with the same entries does, and ends with the same entries.
snapshot-run-memory :
    (py : IntText) (ops : List (ℕ × Op)) (s : Snapshot)
    → All (λ o. HasNoTtl o.1) ops
    → ((run (snapshot_store py) ops s).0 ≡ (run (memory_store py) ops (unexpiring s)).0)
      × (unexpiring (run (snapshot_store py) ops s).1
          ≡ (run (memory_store py) ops (unexpiring s)).1)
snapshot-run-memory py =
    run-simulation (snapshot_store py) (memory_store py) unexpiring HasNoTtl (step-unexpiring py)
