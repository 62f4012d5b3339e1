-- ===== src/Schema/Size.antt =====
-- `_check_size` of snulbug/json_schema.py: a loop over a stack of values with their depths.
use snulbug.Base.{
  ℕ, zero, suc, ◌+◌, not, ◌||◌, Option, none, some, List, [], ◌∷◌, length, ltb, if◌then◌else◌,
}
use snulbug.Schema.{Value, Values, scalar, other, dict, list, end, more, max_nodes, max_depth}

-- What the check says: it returns, or raises one of two errors.
pub data Verdict : Type 0 where
  accepted validation_limit non_json : Verdict

-- What becomes of one turn of the loop: it raises, or goes on with a stack.
pub data Turn : Type 0 where
  stop : Verdict → Turn
  go : List (Value × ℕ) → Turn

abbrev pub count_of : Values → ℕ
count_of end = zero
count_of (more v vs) = suc (count_of vs)

-- pending.extend((child, depth) for child in children): the last child is popped first
abbrev pub push : Values → ℕ → List (Value × ℕ) → List (Value × ℕ)
push end depth pending = pending
push (more v vs) depth pending = push vs depth ((v, depth) ∷ pending)

-- the end of a turn, for the children of an object or a list
unfoldable pub extend : ℕ → Values → ℕ → List (Value × ℕ) → Turn
extend count children depth pending =
    if ltb max_nodes (count + length pending + count_of children)
    then stop validation_limit
    else go (push children (depth + 1) pending)

-- a turn after the limits are checked
unfoldable pub expand : ℕ → Value → ℕ → List (Value × ℕ) → Turn
unfolding extend
expand count scalar depth pending = go pending
expand count other depth pending = stop non_json
expand count (dict text_keys children) depth pending =
    if not text_keys then stop non_json else extend count children depth pending
expand count (list children) depth pending = extend count children depth pending

-- one turn, with the count of the values that are popped
unfoldable pub turn : ℕ → Value → ℕ → List (Value × ℕ) → Turn
unfolding expand
turn count item depth pending =
    if ltb max_nodes count || ltb max_depth depth
    then stop validation_limit
    else expand count item depth pending

-- the loop, which gives `none` when it runs out of fuel
unfoldable pub walk : ℕ → ℕ → List (Value × ℕ) → Option Verdict
walk fuel count [] = some accepted
walk zero count (p ∷ pending) = none
walk (suc fuel) count ((item, depth) ∷ pending) = elim (turn (count + 1) item depth pending) [
  | stop verdict ↦ some verdict
  | go next ↦ walk fuel (count + 1) next
]

-- `_check_size`
unfoldable pub check_size : Value → Option Verdict
unfolding walk
check_size value = walk (suc max_nodes) 0 ((value, 0) ∷ [])
