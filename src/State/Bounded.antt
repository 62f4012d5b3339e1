-- ===== src/State/Bounded.antt =====
-- `BoundedPolicyState` of snulbug/state.py: the calls of a policy, checked against the limits, made
-- on a store, and recorded. Keys and values have been made texts (`str`) when they arrive here,
-- and a length is the length of the UTF-8 encoding. Durations are in microseconds.
pub mod Calls
pub mod Limits
use Prim.Native.String
use Prim.Native.String.{len}
use snulbug.Base.{
  ◌*◌, ℕ, String, Bool, true, false, Option, none, some, List, [], ◌∷◌, ◌++◌, ltb, leb, length,
  is_some, ◌==◌, if◌then◌else◌,
}
use snulbug.Base.Result.{Result, ok, err, ◌>>=◌}
use snulbug.Base.Int.{ℤ, pos, negsuc}
use snulbug.State.{
  StateError, key_empty, key_too_long, value_too_long, ttl_not_positive, ttl_too_long, bad_options,
  limit_exceeded, not_writable, PolicyStateStore, Reply, value, done, flag, count,
}

pub record StateLimits : Type 0 where
  pub max_operations : ℕ
  pub max_key_bytes : ℕ
  pub max_value_bytes : ℕ
  pub max_ttl : ℕ

abbrev pub default_limits : StateLimits
default_limits = record {
  max_operations = 16;
  max_key_bytes = 256;
  max_value_bytes = 4096;
  max_ttl = 7 * 24 * 60 * 60 * 1000000;
}

-- The options of a call: none, a table with or without `ttl`, or something else.
pub data LuaOptions : Type 0 where
  missing : LuaOptions
  table : Option ℤ → LuaOptions
  other : LuaOptions

-- The dictionaries that `operations` collects, by their `op`.
pub data Record : Type 0 where
  got : (key : String) (hit : Bool) → Record
  wrote : (key : String) (value_bytes : ℕ) (ttl : Option ℕ) → Record
  deleted : (key : String) (deleted : Bool) → Record
  counted : (key : String) (amount value : ℤ) (ttl : Option ℕ) → Record
  compared : (key : String) (swapped : Bool) (ttl : Option ℕ) → Record

pub record BoundedState (S : Type 0) : Type 0 where
  pub store : S
  pub limits : StateLimits
  pub key_prefix : String
  pub read_only : Bool
  pub operations : List Record

abbrev pub Check : Type 0 → Type 0
Check A = Result StateError A

-- `_require_write`
unfoldable pub require_write : {S : Type 0} → BoundedState S → Check (Unit {0})
require_write b = if b.read_only then err not_writable else ok tt

-- `_ensure_operation_allowed`
unfoldable pub ensure_allowed : {S : Type 0} → BoundedState S → Check (Unit {0})
ensure_allowed b =
    if leb b.limits.max_operations (length b.operations) then err limit_exceeded else ok tt

-- `_key`
unfoldable pub full_key : {S : Type 0} → BoundedState S → String → Check String
full_key b key =
    let full = String.◌++◌ b.key_prefix key in
    if full == ""
    then err key_empty
    else if ltb b.limits.max_key_bytes (len full)
    then err key_too_long
    else ok full

-- `_value`
unfoldable pub state_value : {S : Type 0} → BoundedState S → String → Check String
state_value b v = if ltb b.limits.max_value_bytes (len v) then err value_too_long else ok v

unfoldable pub optional_value :
    {S : Type 0} → BoundedState S → Option String → Check (Option String)
unfolding state_value
optional_value b none = ok none
optional_value b (some v) = do v' ← state_value b v; ok (some v')

-- `_ttl`, with `_from_lua_options`
unfoldable pub checked_ttl : {S : Type 0} → BoundedState S → LuaOptions → Check (Option ℕ)
checked_ttl b missing = ok none
checked_ttl b (table none) = ok none
checked_ttl b (table (some (negsuc n))) = err ttl_not_positive
checked_ttl b (table (some (pos n))) =
    if leb n 0
    then err ttl_not_positive
    else if ltb b.limits.max_ttl n
    then err ttl_too_long
    else ok (some n)
checked_ttl b other = err bad_options

-- what a check that raises skips
abbrev pub attempt : {A S : Type 0} → Check A → S → (A → Check Reply × S) → Check Reply × S
attempt (ok a) b f = f a
attempt (err e) b f = (err e, b)

module _ {S : Type 0} (store : PolicyStateStore S) where
  -- the store after a call, and the record of it
  abbrev pub done_with : BoundedState S → S → Record → BoundedState S
  done_with b s r = record b { store = s; operations = b.operations ++ r ∷ [] }

  unfoldable pub get : ℕ → String → BoundedState S → Check Reply × BoundedState S
  unfolding ensure_allowed full_key
  get now key b =
      attempt (do _ ← ensure_allowed b; full_key b key) b
        λ k.
          let (found, s) = store.get now b.store k in
          (ok (value found), done_with b s (Record.got k (is_some found)))

  unfoldable pub put :
      ℕ → String → String → LuaOptions → BoundedState S → Check Reply × BoundedState S
  put now key v options b =
      attempt (do _ ← require_write b; _ ← ensure_allowed b; full_key b key) b
        λ k. attempt (state_value b v) b λ v'. attempt (checked_ttl b options) b λ ttl.
          (ok done, done_with b (store.put now b.store k v' ttl) (Record.wrote k (len v') ttl))

  unfoldable pub delete : ℕ → String → BoundedState S → Check Reply × BoundedState S
  delete now key b =
      attempt (do _ ← require_write b; _ ← ensure_allowed b; full_key b key) b
        λ k.
          let (gone, s) = store.delete now b.store k in
          (ok (flag gone), done_with b s (Record.deleted k gone))

  -- a store that raises has been called, and the call is not recorded
  abbrev pub finish_count :
      String
      → ℤ
      → Option ℕ
      → BoundedState S
      → Result StateError ℤ × S
      → Check Reply × BoundedState S
  finish_count k amount ttl b (ok n, s) =
      (ok (count (ok n)), done_with b s (Record.counted k amount n ttl))
  finish_count k amount ttl b (err e, s) = (err e, record b { store = s })

  unfoldable pub incr : ℕ → String → ℤ → LuaOptions → BoundedState S → Check Reply × BoundedState S
  incr now key amount options b =
      attempt (do _ ← require_write b; _ ← ensure_allowed b; full_key b key) b
        λ k.
          attempt (checked_ttl b options) b
            λ ttl. finish_count k amount ttl b (store.incr now b.store k amount ttl)

  unfoldable pub cas :
      ℕ
      → String
      → Option String
      → String
      → LuaOptions
      → BoundedState S
      → Check Reply × BoundedState S
  cas now key expected v options b =
      attempt (do _ ← require_write b; _ ← ensure_allowed b; full_key b key) b
        λ k. attempt (optional_value b expected) b λ expected'. attempt (state_value b v) b λ v'.
          attempt (checked_ttl b options) b λ ttl.
            let (swapped, s) = store.cas now b.store k expected' v' ttl in
            (ok (flag swapped), done_with b s (Record.compared k swapped ttl))
