-- ===== src/State/Bounded/Calls.antt =====
-- The calls of a policy on its bounded state, the functions of `lua_api` of snulbug/state.py.
use snulbug.Base.{ℕ, String, Option, List, [], ◌∷◌}
use snulbug.Base.Int.{ℤ}
use snulbug.State.{PolicyStateStore, Reply}
use snulbug.State.Bounded
use snulbug.State.Bounded.{BoundedState, LuaOptions, Check}

-- The functions of `lua_api`, as a policy calls them.
pub data LuaCall : Type 0 where
  get : String → LuaCall
  put : String → String → LuaOptions → LuaCall
  delete : String → LuaCall
  incr : String → ℤ → LuaOptions → LuaCall
  cas : String → Option String → String → LuaOptions → LuaCall

module _ {S : Type 0} (store : PolicyStateStore S) where
  unfoldable pub call : ℕ → LuaCall → BoundedState S → Check Reply × BoundedState S
  call now (LuaCall.get key) b = Bounded.get store now key b
  call now (LuaCall.put key v options) b = Bounded.put store now key v options b
  call now (LuaCall.delete key) b = Bounded.delete store now key b
  call now (LuaCall.incr key amount options) b = Bounded.incr store now key amount options b
  call now (LuaCall.cas key expected v options) b = Bounded.cas store now key expected v options b

  -- the calls of one policy, to the first that raises
  unfoldable pub call_all : List (ℕ × LuaCall) → BoundedState S → BoundedState S
  call_all [] b = b
  call_all ((now, c) ∷ calls) b = call_all calls (call now c b).1
