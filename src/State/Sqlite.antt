-- ===== src/State/Sqlite.antt =====
-- `SQLiteStateStore` of snulbug/state.py, over the table `policy_state` with the key as primary key.
-- An SQL statement of the source is the change of the table that it states; a transaction keeps the
-- table that ROLLBACK returns to.
pub mod Equivalence
use snulbug.Base.{ℕ, String, Bool, true, false, Option, none, some, is_some, if◌then◌else◌}
use snulbug.Base.Dict
use snulbug.Base.Dict.{Dict}
use snulbug.Base.Result.{Result, ok, err}
use snulbug.Base.Int.{ℤ}
use snulbug.State.{StateError, IntText, PolicyStateStore, expires_at, expired, add_to}
use snulbug.State.Memory.{same}

pub record Row : Type 0 where
  pub value : String
  pub expires_at : Option ℕ
  pub updated_at : ℕ

abbrev pub Table : Type 0
Table = Dict Row

unfoldable pub read : ℕ → Table → String → Option Row → Option String × Table
read now t key none = (none, t)
read now t key (some row) =
    if expired row.expires_at now then (none, Dict.pop t key) else (some row.value, t)

unfoldable pub get : ℕ → Table → String → Option String × Table
unfolding read
get now t key = read now t key (Dict.get t key)

unfoldable pub put : ℕ → Table → String → String → Option ℕ → Table
put now t key value ttl =
    Dict.put t key (record { value = value; expires_at = expires_at ttl now; updated_at = now })

-- `cursor.rowcount > 0`
unfoldable pub delete : ℕ → Table → String → Bool × Table
delete now t key = (is_some (Dict.get t key), Dict.pop t key)

-- COMMIT keeps what the transaction wrote, ROLLBACK returns to the table at its BEGIN
unfoldable pub finish_count :
    IntText
    → ℕ
    → Table
    → Table
    → String
    → Option ℕ
    → Result StateError ℤ
    → Result StateError ℤ × Table
unfolding put
finish_count py now begun t key ttl (ok n) = (ok n, put now t key (py.str n) ttl)
finish_count py now begun t key ttl (err e) = (err e, begun)

unfoldable pub incr : IntText → ℕ → Table → String → ℤ → Option ℕ → Result StateError ℤ × Table
unfolding get finish_count
incr py now t key amount ttl =
    let (current, t') = get now t key in finish_count py now t t' key ttl (add_to py current amount)

unfoldable pub cas : ℕ → Table → String → Option String → String → Option ℕ → Bool × Table
unfolding get put same
cas now t key expected value ttl =
    let (current, t') = get now t key in
    if same current expected then (true, put now t' key value ttl) else (false, t')

abbrev pub sqlite_store : IntText → PolicyStateStore Table
sqlite_store py = record { get = get; put = put; delete = delete; incr = incr py; cas = cas }
