-- ===== src/State.antt =====
-- snulbug/state.py: the stores in which a Lua policy keeps its state. This file has the protocol
-- that the stores share and the calls that a policy makes; each store is a module below.
pub mod Memory
pub mod Sqlite
pub mod Snapshot
pub mod DryRun
pub mod Bounded
pub mod Tally
mod Tests
use snulbug.Base.{
  ℕ, ◌+◌, ◌≡◌, refl, String, Bool, Option, none, some, List, [], ◌∷◌, leb, or_else, truthy, All,
}
use snulbug.Base.Result.{Result, ok, err}
use snulbug.Base.Int.{ℤ, pos, ◌+ℤ◌}

-- What a call raises: `LuaDecisionError` by its message, and the `ValueError` of `int`.
pub data StateError : Type 0 where
  key_empty key_too_long value_too_long : StateError
  ttl_not_positive ttl_too_long bad_options : StateError
  limit_exceeded not_writable bad_integer : StateError

-- Python's `int(text)` and `str(number)`.
pub record IntText : Type 0 where
  pub int : String → Option ℤ
  pub str : ℤ → String
  pub int-str : (n : ℤ) → int (str n) ≡ some n
  pub int_zero : int "0" ≡ some (pos 0)

-- `PolicyStateStore`. Every call is given the time, in microseconds, at which it runs; the call that
-- may raise returns a result, beside the state that it leaves.
pub record PolicyStateStore (S : Type 0) : Type 0 where
  pub get : ℕ → S → String → Option String × S
  pub put : ℕ → S → String → String → Option ℕ → S
  pub delete : ℕ → S → String → Bool × S
  pub incr : ℕ → S → String → ℤ → Option ℕ → Result StateError ℤ × S
  pub cas : ℕ → S → String → Option String → String → Option ℕ → Bool × S

-- `_expires_at`
unfoldable pub expires_at : Option ℕ → ℕ → Option ℕ
expires_at none now = none
expires_at (some ttl) now = some (now + ttl)

-- `_expired`
unfoldable pub expired : Option ℕ → ℕ → Bool
expired none now = Bool.false
expired (some t) now = leb t now

-- `int(current or "0") + amount`: an empty text counts as "0" too
unfoldable pub add_to : IntText → Option String → ℤ → Result StateError ℤ
add_to py current amount = elim (py.int (or_else (truthy current) "0")) [
  | none ↦ err bad_integer
  | some n ↦ ok (n +ℤ amount)
]

-- The calls that a policy can make, and what they answer.
pub data Op : Type 0 where
  get : String → Op
  put : String → String → Option ℕ → Op
  delete : String → Op
  incr : String → ℤ → Option ℕ → Op
  cas : String → Option String → String → Option ℕ → Op

pub data Reply : Type 0 where
  value : Option String → Reply
  done : Reply
  flag : Bool → Reply
  count : Result StateError ℤ → Reply

module _ {S : Type 0} (store : PolicyStateStore S) where
  unfoldable pub step : ℕ → Op → S → Reply × S
  step now (get k) s = let (found, s') = store.get now s k in (value found, s')
  step now (put k v ttl) s = (done, store.put now s k v ttl)
  step now (delete k) s = let (deleted, s') = store.delete now s k in (flag deleted, s')
  step now (incr k amount ttl) s =
      let (counted, s') = store.incr now s k amount ttl in (count counted, s')
  step now (cas k expected v ttl) s =
      let (swapped, s') = store.cas now s k expected v ttl in (flag swapped, s')

  -- The replies to a list of timed calls, and the last state.
  unfoldable pub run : List (ℕ × Op) → S → List Reply × S
  run [] s = ([], s)
  run ((now, op) ∷ ops) s =
      let (reply, s') = step now op s in let (replies, s'') = run ops s' in (reply ∷ replies, s'')

-- Two stores that step alike on related states, for the calls of a kind, answer every list of
-- such calls alike.
module _ {S T : Type 0} (A : PolicyStateStore S) (B : PolicyStateStore T) (f : S → T)
    (P : Op → Type 0) where
  pub run-simulation :
      ((now : ℕ) (op : Op) (s : S)
        → P op
        → ((step A now op s).0 ≡ (step B now op (f s)).0)
          × (f (step A now op s).1 ≡ (step B now op (f s)).1))
      → (ops : List (ℕ × Op)) (s : S) → All (λ o. P o.1) ops
      → ((run A ops s).0 ≡ (run B ops (f s)).0) × (f (run A ops s).1 ≡ (run B ops (f s)).1)
  unfolding run
  run-simulation alike [] s p = (refl, refl)
  run-simulation alike ((now, op) ∷ ops) s p =
      let ih = run-simulation alike ops (step A now op s).1 p.1 in
      let (same, next) = alike now op s p.0 in (cc (same, next, ih.0), cc (next, ih.1))
