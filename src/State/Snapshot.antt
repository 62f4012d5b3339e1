-- ===== src/State/Snapshot.antt =====
-- `SnapshotStateStore` of snulbug/state.py: a store without expiry that records its operations.
pub mod Replay
use snulbug.Base.{
  ℕ, String, Bool, true, false, Option, none, some, List, [], ◌∷◌, ◌++◌, is_some, if◌then◌else◌,
}
use snulbug.Base.Dict
use snulbug.Base.Dict.{Dict}
use snulbug.Base.Result.{Result, ok, err}
use snulbug.Base.Int.{ℤ}
use snulbug.State.{StateError, IntText, PolicyStateStore, add_to}
use snulbug.State.Memory.{same}

-- The dictionaries that `operations` collects, by their `op`.
pub data Entry : Type 0 where
  got : (key : String) (value : Option String) (hit : Bool) → Entry
  wrote : (key : String) (before : Option String) (after : String) (ttl : Option ℕ) → Entry
  deleted : (key : String) (before : Option String) (deleted : Bool) → Entry
  counted :
      (key : String) (before : Option String) (amount : ℤ) (after : String) (ttl : Option ℕ) → Entry
  compared :
      (key : String) (before expected after : Option String) (swapped : Bool) (ttl : Option ℕ)
      → Entry

pub record Snapshot : Type 0 where
  pub initial_state : Dict String
  pub items : Dict String
  pub operations : List Entry

-- `_normalize_snapshot_state`: entries without a value are left out
unfoldable pub normalize : Dict (Option String) → Dict String → Dict String
normalize [] result = result
normalize ((k, none) ∷ state) result = normalize state result
normalize ((k, some v) ∷ state) result = normalize state (Dict.put result k v)

unfoldable pub new : Dict (Option String) → Snapshot
unfolding normalize
new state =
    let initial = normalize state [] in
    record { initial_state = initial; items = initial; operations = [] }

abbrev record_op : Snapshot → Entry → Snapshot
record_op s e = record s { operations = s.operations ++ e ∷ [] }

unfoldable pub get : ℕ → Snapshot → String → Option String × Snapshot
get now s key =
    let value = Dict.get s.items key in (value, record_op s (Entry.got key value (is_some value)))

unfoldable pub put : ℕ → Snapshot → String → String → Option ℕ → Snapshot
put now s key value ttl =
    let before = Dict.get s.items key in
    record_op (record s { items = Dict.put s.items key value }) (Entry.wrote key before value ttl)

unfoldable pub delete : ℕ → Snapshot → String → Bool × Snapshot
delete now s key =
    let before = Dict.get s.items key in
    let gone = is_some before in
    (gone, record_op (record s { items = Dict.pop s.items key }) (Entry.deleted key before gone))

-- a bad number raises before anything is written or recorded
unfoldable pub finish_count :
    IntText
    → Snapshot
    → String
    → ℤ
    → Option ℕ
    → Result StateError ℤ
    → Result StateError ℤ × Snapshot
finish_count py s key amount ttl (ok n) =
    let before = Dict.get s.items key in
    (
      ok n,
      record_op (record s { items = Dict.put s.items key (py.str n) })
          (Entry.counted key before amount (py.str n) ttl),
    )
finish_count py s key amount ttl (err e) = (err e, s)

unfoldable pub incr :
    IntText → ℕ → Snapshot → String → ℤ → Option ℕ → Result StateError ℤ × Snapshot
unfolding finish_count
incr py now s key amount ttl =
    finish_count py s key amount ttl (add_to py (Dict.get s.items key) amount)

unfoldable pub cas : ℕ → Snapshot → String → Option String → String → Option ℕ → Bool × Snapshot
unfolding same
cas now s key expected value ttl =
    let before = Dict.get s.items key in
    let swapped = same before expected in
    let items' = if swapped then Dict.put s.items key value else s.items in
    (
      swapped,
      record_op (record s { items = items' })
          (Entry.compared key before expected (Dict.get items' key) swapped ttl),
    )

abbrev pub snapshot_store : IntText → PolicyStateStore Snapshot
snapshot_store py = record { get = get; put = put; delete = delete; incr = incr py; cas = cas }
