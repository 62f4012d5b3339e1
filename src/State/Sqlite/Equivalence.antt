-- ===== src/State/Sqlite/Equivalence.antt =====
-- The SQLite store of snulbug/state.py against the memory store: the table without its
-- `updated_at` column is the dictionary of the memory store.
use snulbug.Base.{ℕ, ◌≡◌, refl, ap, String, Option, none, some, List, [], ◌∷◌, arith, All}
use snulbug.Base.Dict
use snulbug.Base.Dict.{Dict}
use snulbug.State.{IntText, Op, step, run, run-simulation, expires_at, add_to, StateError}
use snulbug.Base.Int.{ℤ}
use snulbug.Base.Result.{Result, ok, err}
use snulbug.State.Memory
use snulbug.State.Memory.{Item, Items, memory_store}
use snulbug.State.Sqlite.{Row, Table, sqlite_store, get, put, delete, incr, cas, finish_count}

abbrev row : String → Option ℕ → ℕ → Row
row v ttl now = record { value = v; expires_at = expires_at ttl now; updated_at = now }

abbrev item : Row → Item
item row = record { value = row.value; expires = row.expires_at }

abbrev pub items : Table → Items
items [] = []
items ((k, row) ∷ t) = (k, item row) ∷ items t

abbrev map_item : Option Row → Option Item
map_item none = none
map_item (some row) = some (item row)

get-items : (t : Table) (k : String) → Dict.get (items t) k ≡ map_item (Dict.get t k)
unfolding Dict.get
get-items [] k = refl
get-items ((j, row) ∷ t) k = ground (arith, get-items t k)

items-pop : (t : Table) (k : String) → items (Dict.pop t k) ≡ Dict.pop (items t) k
unfolding Dict.pop
items-pop [] k = refl
items-pop ((j, row) ∷ t) k = ground (arith, items-pop t k)

items-put :
    (t : Table) (k : String) (row : Row)
    → items (Dict.put t k row) ≡ Dict.put (items t) k (item row)
unfolding Dict.put
items-put [] k row = refl
items-put ((j, w) ∷ t) k row = ground (arith, items-put t k row)

get-items_alike :
    (now : ℕ) (t : Table) (k : String)
    → ((get now t k).0 ≡ (Memory.get now (items t) k).0)
      × (items (get now t k).1 ≡ (Memory.get now (items t) k).1)
unfolding get Memory.get
get-items_alike now t k = ground (arith, get-items t k, items-pop t k)

finish-items :
    (py : IntText) (now : ℕ) (begun t : Table) (k : String) (ttl : Option ℕ)
    (r : Result StateError ℤ)
    → ((e : StateError) → r ≡ err e → begun ≡ t)
    → ((finish_count py now begun t k ttl r).0 ≡ (Memory.store_count py now (items t) k ttl r).0)
      × (items (finish_count py now begun t k ttl r).1
          ≡ (Memory.store_count py now (items t) k ttl r).1)
unfolding finish_count Memory.store_count
finish-items py now begun t k ttl (ok n) h = (refl, items-put t k (row (py.str n) ttl now))
finish-items py now begun t k ttl (err e) h = (refl, ap items (h e refl))

-- A count that fails has read a live row, so there is nothing to roll back.
get-of_error :
    (py : IntText) (now : ℕ) (t : Table) (k : String) (amount : ℤ) (e : StateError)
    → add_to py (get now t k).0 amount ≡ err e
    → t ≡ (get now t k).1
unfolding add_to get
get-of_error py now t k amount e h = ground (arith, py.int_zero)

-- one call on the table, as one call on the dictionary
step-items :
    (py : IntText) (now : ℕ) (op : Op) (t : Table)
    → ((step (sqlite_store py) now op t).0 ≡ (step (memory_store py) now op (items t)).0)
      × (items (step (sqlite_store py) now op t).1 ≡ (step (memory_store py) now op (items t)).1)
unfolding step get put delete incr cas Memory.get Memory.put Memory.delete Memory.incr Memory.cas
step-items py now (Op.get k) t = ground (arith, get-items t k, items-pop t k)
step-items py now (Op.put k v ttl) t = (refl, items-put t k (row v ttl now))
step-items py now (Op.delete k) t = ground (arith, get-items t k, items-pop t k)
step-items py now (Op.incr k amount ttl) t =
    let same = get-items_alike now t k in
    let finished =
      finish-items py now t (get now t k).1 k ttl (add_to py (get now t k).0 amount)
        (get-of_error py now t k amount) in
    (cc (same.0, same.1, finished.0), cc (same.0, same.1, finished.1))
step-items py now (Op.cas k expected v ttl) t = ground (
  arith,
  get-items t k,
  items-pop t k,
  items-put t k (row v ttl now),
  items-put (Dict.pop t k) k (row v ttl now),
)

every : (ops : List (ℕ × Op)) → All (λ o. Unit {0}) ops
every [] = tt
every (o ∷ ops) = (tt, every ops)

-- On the same timed calls the SQLite store and the memory store give the same replies, a call
-- that raises included, and the table without `updated_at` is the dictionary at the end.
pub sqlite-run-memory :
    (py : IntText) (ops : List (ℕ × Op)) (t : Table)
    → ((run (sqlite_store py) ops t).0 ≡ (run (memory_store py) ops (items t)).0)
      × (items (run (sqlite_store py) ops t).1 ≡ (run (memory_store py) ops (items t)).1)
sqlite-run-memory py ops t =
    run-simulation (sqlite_store py) (memory_store py) items (λ op. Unit)
      (λ now op t _. step-items py now op t) ops t (every ops)
