-- ===== src/State/Bounded/Limits.antt =====
-- What the limits of snulbug/state.py promise of a policy's calls, whatever the store.
use Prim.Native.String.{len}
use snulbug.Base.{
  ℕ, ◌≤◌, ◌<◌, ◌≡◌, ◌⊎◌, refl, String, true, Option, List, [], ◌∷◌, ◌++◌, arith, length,
  length-append, All, All-append,
}
use snulbug.Base.Int.{ℤ}
use snulbug.Base.Result.{Result, ok, err, ◌>>=◌}
use snulbug.State.{StateError, PolicyStateStore, Reply, limit_exceeded, not_writable}
use snulbug.State.Bounded.{
  BoundedState, Record, Check, attempt, finish_count, require_write, ensure_allowed, full_key,
  state_value, optional_value, checked_ttl, get, put, delete, incr, cas,
}
use snulbug.State.Bounded.Calls.{LuaCall, call, call_all}

abbrev key_of : Record → String
key_of (Record.got k hit) = k
key_of (Record.wrote k n ttl) = k
key_of (Record.deleted k gone) = k
key_of (Record.counted k a n ttl) = k
key_of (Record.compared k s ttl) = k

-- Every recorded operation is within the limits.
pub record IsWithin {S : Type 0} (b : BoundedState S) : Type 0 where
  pub few : length b.operations ≤ b.limits.max_operations
  pub keys : All (λ r. len (key_of r) ≤ b.limits.max_key_bytes) b.operations

module _ {A S : Type 0} {b : BoundedState S} (P : Check Reply × BoundedState S → Type 0) where
  -- what holds of a call that raises here, and of the rest of the call, holds of the call
  attempt_rule :
      (m : Check A) (f : A → Check Reply × BoundedState S)
      → ((e : StateError) → P (err e, b))
      → ((a : A) → m ≡ ok a → P (f a))
      → P (attempt m b f)
  attempt_rule (ok a) f raised rest = rest a refl
  attempt_rule (err e) f raised rest = raised e

module _ {S : Type 0} (b : BoundedState S) where
  abbrev admit : String → Check String
  admit key = do _ ← ensure_allowed b; full_key b key

  abbrev admit_write : String → Check String
  admit_write key = do _ ← require_write b; _ ← ensure_allowed b; full_key b key

  abbrev IsAdmitted : String → Type 0
  IsAdmitted k = (length b.operations < b.limits.max_operations) × (len k ≤ b.limits.max_key_bytes)

  admit-IsAdmitted : (key k : String) → admit key ≡ ok k → IsAdmitted k
  unfolding ensure_allowed full_key
  admit-IsAdmitted key k h = ground arith

  admit_write-IsAdmitted : (key k : String) → admit_write key ≡ ok k → IsAdmitted k
  unfolding ensure_allowed full_key require_write
  admit_write-IsAdmitted key k h = ground arith

  done_with-IsWithin :
      (s : S) (r : Record)
      → IsWithin b
      → IsAdmitted (key_of r)
      → IsWithin (record b { store = s; operations = b.operations ++ r ∷ [] })
  done_with-IsWithin s r w (room, short) = record {
    few = omega (arith, length-append b.operations (r ∷ []));
    keys =
        All-append (λ r. len (key_of r) ≤ b.limits.max_key_bytes) b.operations (r ∷ []) w.keys
          (short, tt);
  }

module _ {S : Type 0} (store : PolicyStateStore S) where
  abbrev Within : Check Reply × BoundedState S → Type 0
  Within out = IsWithin out.1

  finish_count-IsWithin :
      (k : String) (amount : ℤ) (ttl : Option ℕ) (b : BoundedState S) (r : Result StateError ℤ × S)
      → IsWithin b
      → IsAdmitted b k
      → IsWithin (finish_count store k amount ttl b r).1
  finish_count-IsWithin k amount ttl b (ok n, s) w a = done_with-IsWithin b s _ w a
  finish_count-IsWithin k amount ttl b (err e, s) w a = record { few = w.few; keys = w.keys }

  call-IsWithin :
      (now : ℕ) (c : LuaCall) (b : BoundedState S) → IsWithin b → IsWithin (call store now c b).1
  unfolding call get put delete incr cas
  call-IsWithin now (LuaCall.get key) b w =
      attempt_rule Within (admit b key) _ (λ e. w)
        λ k h. done_with-IsWithin b _ _ w (admit-IsAdmitted b key k h)
  call-IsWithin now (LuaCall.put key v options) b w =
      attempt_rule Within (admit_write b key) _ (λ e. w)
        λ k h.
          attempt_rule Within (state_value b v) _ (λ e. w)
            λ v' _.
              attempt_rule Within (checked_ttl b options) _ (λ e. w)
                λ ttl _. done_with-IsWithin b _ _ w (admit_write-IsAdmitted b key k h)
  call-IsWithin now (LuaCall.delete key) b w =
      attempt_rule Within (admit_write b key) _ (λ e. w)
        λ k h. done_with-IsWithin b _ _ w (admit_write-IsAdmitted b key k h)
  call-IsWithin now (LuaCall.incr key amount options) b w =
      attempt_rule Within (admit_write b key) _ (λ e. w)
        λ k h.
          attempt_rule Within (checked_ttl b options) _ (λ e. w)
            λ ttl _.
              finish_count-IsWithin k amount ttl b (store.incr now b.store k amount ttl) w
                (admit_write-IsAdmitted b key k h)
  call-IsWithin now (LuaCall.cas key expected v options) b w =
      attempt_rule Within (admit_write b key) _ (λ e. w)
        λ k h.
          attempt_rule Within (optional_value b expected) _ (λ e. w)
            λ expected' _.
              attempt_rule Within (state_value b v) _ (λ e. w)
                λ v' _.
                  attempt_rule Within (checked_ttl b options) _ (λ e. w)
                    λ ttl _. done_with-IsWithin b _ _ w (admit_write-IsAdmitted b key k h)

  -- However a policy calls its state, no more operations are recorded than the limit allows, and
  -- the key of each is within the limit of bytes, if this held before.
  pub call_all-IsWithin :
      (calls : List (ℕ × LuaCall)) (b : BoundedState S)
      → IsWithin b
      → IsWithin (call_all store calls b)
  unfolding call_all
  call_all-IsWithin [] b w = w
  call_all-IsWithin ((now, c) ∷ calls) b w =
      call_all-IsWithin calls (call store now c b).1 (call-IsWithin now c b w)

  -- Once the limit of operations is reached every call raises, and the state is as it was.
  call-exhausted :
      (now : ℕ) (c : LuaCall) (b : BoundedState S)
      → b.limits.max_operations ≤ length b.operations
      → ((call store now c b).1 ≡ b)
        × ((call store now c b).0 ≡ err limit_exceeded ⊎ (call store now c b).0 ≡ err not_writable)
  unfolding call get put delete incr cas ensure_allowed require_write
  call-exhausted now (LuaCall.get key) b h = ground arith
  call-exhausted now _ b h = ground arith

  call-read_only :
      (P : S → Type 0)
      → ((now : ℕ) (s : S) (k : String) → P s → P (store.get now s k).1)
      → (now : ℕ) (c : LuaCall) (b : BoundedState S) → b.read_only ≡ true
      → P b.store
      → P (call store now c b).1.store × ((call store now c b).1.read_only ≡ true)
  unfolding call get put delete incr cas require_write
  call-read_only P reads now (LuaCall.get key) b r p =
      attempt_rule (λ out. P out.1.store × (out.1.read_only ≡ true)) (admit b key) _ (λ e. (p, r))
        λ k h. (reads now b.store k p, r)
  call-read_only P reads now _ b r p = simp r (p, refl)

  -- In read-only state no sequence of calls can break what the reads of the store preserve.
  call_all-read_only :
      (P : S → Type 0)
      → ((now : ℕ) (s : S) (k : String) → P s → P (store.get now s k).1)
      → (calls : List (ℕ × LuaCall)) (b : BoundedState S) → b.read_only ≡ true
      → P b.store
      → P (call_all store calls b).store
  unfolding call_all
  call_all-read_only P reads [] b r p = p
  call_all-read_only P reads ((now, c) ∷ calls) b r p =
      let (kept, still) = call-read_only P reads now c b r p in
      call_all-read_only P reads calls (call store now c b).1 still kept
