-- ===== src/State/Tests.antt =====
-- Runs of the stores of snulbug/state.py on small states.
use snulbug.Base.{
  ℕ, ◌≤◌, ◌≡◌, refl, String, Bool, true, false, Option, none, some, List, [], ◌∷◌, arith,
}
use snulbug.Base.Dict
use snulbug.Base.Dict.{Dict, get-pop}
use snulbug.Base.Int.{pos}
use snulbug.State.{Op, step, run, expired}
use snulbug.State.Tally.{python}
use snulbug.State.Memory.{Item, Items, memory_store}
use snulbug.State.Memory
use snulbug.State.Memory.Refinement.{view, spec_step, Answers, memory-step-spec}
use snulbug.State.Sqlite.{Table, sqlite_store}
use snulbug.State.Sqlite.Equivalence.{items, sqlite-run-memory}
use snulbug.State.Snapshot.{Snapshot, snapshot_store}
use snulbug.State.Snapshot
use snulbug.State.Snapshot.Replay.{replay, snapshot-run-replay}
use snulbug.State.DryRun.{dry_store}
use snulbug.State.DryRun.Prediction.{dry_run-predicts}
use snulbug.State.Bounded.{BoundedState, LuaOptions}
use snulbug.State.Bounded.Calls.{LuaCall, call_all}
use snulbug.State.Bounded.Limits.{IsWithin, call_all-IsWithin}

abbrev calls : List (ℕ × Op)
calls =
    (1, Op.put "a" "11" (some 3))
    ∷ (2, Op.incr "n" (pos 2) none)
    ∷ (3, Op.cas "a" (some "11") "1" none)
    ∷ (9, Op.get "a")
    ∷ (9, Op.delete "a")
    ∷ []

abbrev held : Items
held = ("a", record { value = "11"; expires = some 5 }) ∷ []

memory-step-spec_example :
    (view (step (memory_store python) 2 (Op.incr "a" (pos 1) none) held).1 7 "a"
      ≡ spec_step python 2 (Op.incr "a" (pos 1) none) (view held) 7 "a")
    × Answers python 2
        (Op.incr "a" (pos 1) none)
        (view held)
        (step (memory_store python) 2 (Op.incr "a" (pos 1) none) held).0
memory-step-spec_example =
    memory-step-spec python 2 7 (Op.incr "a" (pos 1) none) held "a" (omega arith)

abbrev table : Table
table = ("a", record { value = "11"; expires_at = some 5; updated_at = 1 }) ∷ []

sqlite-run-memory_example :
    ((run (sqlite_store python) calls table).0 ≡ (run (memory_store python) calls (items table)).0)
    × (items (run (sqlite_store python) calls table).1
        ≡ (run (memory_store python) calls (items table)).1)
sqlite-run-memory_example = sqlite-run-memory python calls table

abbrev given : Dict (Option String)
given = ("a", some "11") ∷ ("b", none) ∷ []

snapshot-run-replay_example :
    (replay
        (run (snapshot_store python) calls (Snapshot.new given)).1.operations
        (run (snapshot_store python) calls (Snapshot.new given)).1.initial_state
      ≡ (run (snapshot_store python) calls (Snapshot.new given)).1.items)
    × ((run (snapshot_store python) calls (Snapshot.new given)).1.initial_state
        ≡ (Snapshot.new given).initial_state)
snapshot-run-replay_example = snapshot-run-replay python given calls

abbrev lasting_calls : List (ℕ × Op)
lasting_calls = (1, Op.put "a" "1" none) ∷ (2, Op.incr "a" (pos 2) none) ∷ (3, Op.delete "b") ∷ []

abbrev snapshot : Snapshot
snapshot = record { initial_state = []; items = ("b", "1") ∷ []; operations = [] }

dry_run-predicts_example :
    ((t : ℕ) (j : String)
      → 2 ≤ t
      → view (step (dry_store python (memory_store python)) 2 (Op.incr "a" (pos 1) none) held).1 t j
        ≡ view held t j)
    × ((step (dry_store python (memory_store python)) 2 (Op.incr "a" (pos 1) none) held).0
        ≡ (step (memory_store python) 2 (Op.incr "a" (pos 1) none) held).0)
dry_run-predicts_example = dry_run-predicts python 2 (Op.incr "a" (pos 1) none) held tt

is_held : Dict.get held "a" ≡ some (record { value = "11"; expires = some 5 })
unfolding Dict.get
is_held = refl

is_over : expired (some 5) 6 ≡ true
unfolding expired
is_over = refl

abbrev bounded : Bool → ℕ → BoundedState Items
bounded read_only most = record {
  store = held;
  limits = record { max_operations = most; max_key_bytes = 4; max_value_bytes = 4; max_ttl = 9 };
  key_prefix = "p";
  read_only = read_only;
  operations = [];
}

abbrev lua_calls : List (ℕ × LuaCall)
lua_calls =
    (1, LuaCall.put "a" "1" LuaOptions.missing)
    ∷ (2, LuaCall.get "a")
    ∷ (3, LuaCall.delete "too_long")
    ∷ []

call_all-IsWithin_example : IsWithin (call_all (memory_store python) lua_calls (bounded false 2))
call_all-IsWithin_example =
    call_all-IsWithin (memory_store python) lua_calls (bounded false 2)
      (record { few = omega arith; keys = tt })

abbrev IsUnchanged : Items → Type 0
IsUnchanged s = Dict.get s "b" ≡ none

reads_keep : (now : ℕ) (s : Items) (k : String) → IsUnchanged s → IsUnchanged (Memory.get now s k).1
unfolding Memory.get Memory.read
reads_keep now s k h = ground (arith, get-pop s k "b")

none_held : IsUnchanged held
unfolding Dict.get
none_held = refl
