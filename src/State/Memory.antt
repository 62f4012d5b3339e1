-- ===== src/State/Memory.antt =====
-- `MemoryStateStore` of snulbug/state.py: entries with an expiry, dropped when they are read.
-- The lock is held for a whole call, so a call is one step; it reads the clock once.
pub mod Refinement
use snulbug.Base.{ℕ, String, Bool, true, false, Option, none, some, is_some, ◌==◌, if◌then◌else◌}
use snulbug.Base.Dict
use snulbug.Base.Dict.{Dict}
use snulbug.Base.Result.{Result, ok, err}
use snulbug.Base.Int.{ℤ}
use snulbug.State.{StateError, IntText, PolicyStateStore, expires_at, expired, add_to}

pub record Item : Type 0 where
  pub value : String
  pub expires : Option ℕ

abbrev pub Items : Type 0
Items = Dict Item

-- what `get` does once the entry is looked up
unfoldable pub read : ℕ → Items → String → Option Item → Option String × Items
read now s key none = (none, s)
read now s key (some item) =
    if expired item.expires now then (none, Dict.pop s key) else (some item.value, s)

unfoldable pub get : ℕ → Items → String → Option String × Items
unfolding read
get now s key = read now s key (Dict.get s key)

unfoldable pub put : ℕ → Items → String → String → Option ℕ → Items
put now s key value ttl = Dict.put s key (record { value = value; expires = expires_at ttl now })

unfoldable pub delete : ℕ → Items → String → Bool × Items
delete now s key = (is_some (Dict.get s key), Dict.pop s key)

-- the write of `incr`, which a bad number skips
unfoldable pub store_count :
    IntText → ℕ → Items → String → Option ℕ → Result StateError ℤ → Result StateError ℤ × Items
unfolding put
store_count py now s key ttl (ok n) = (ok n, put now s key (py.str n) ttl)
store_count py now s key ttl (err e) = (err e, s)

unfoldable pub incr : IntText → ℕ → Items → String → ℤ → Option ℕ → Result StateError ℤ × Items
unfolding get store_count
incr py now s key amount ttl =
    let (current, s') = get now s key in store_count py now s' key ttl (add_to py current amount)

-- `current == expected` on texts that may be `None`
unfoldable pub same : Option String → Option String → Bool
same none none = true
same (some a) (some b) = a == b
same _ _ = false

unfoldable pub cas : ℕ → Items → String → Option String → String → Option ℕ → Bool × Items
unfolding get put same
cas now s key expected value ttl =
    let (current, s') = get now s key in
    if same current expected then (true, put now s' key value ttl) else (false, s')

abbrev pub memory_store : IntText → PolicyStateStore Items
memory_store py = record { get = get; put = put; delete = delete; incr = incr py; cas = cas }
