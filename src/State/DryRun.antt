-- ===== src/State/DryRun.antt =====
-- `DryRunStateStore` of snulbug/state.py: it reads a store and writes nothing to it.
pub mod Prediction
use snulbug.Base.{ℕ, String, Bool, Option, is_some}
use snulbug.Base.Result.{Result}
use snulbug.Base.Int.{ℤ}
use snulbug.State.{StateError, IntText, PolicyStateStore, add_to}
use snulbug.State.Memory.{same}

module _ {S : Type 0} (inner : PolicyStateStore S) where
  unfoldable pub put : ℕ → S → String → String → Option ℕ → S
  put now s key value ttl = s

  unfoldable pub delete : ℕ → S → String → Bool × S
  delete now s key = let (found, s') = inner.get now s key in (is_some found, s')

  unfoldable pub incr : IntText → ℕ → S → String → ℤ → Option ℕ → Result StateError ℤ × S
  incr py now s key amount ttl =
      let (found, s') = inner.get now s key in (add_to py found amount, s')

  unfoldable pub cas : ℕ → S → String → Option String → String → Option ℕ → Bool × S
  unfolding same
  cas now s key expected value ttl =
      let (found, s') = inner.get now s key in (same found expected, s')

abbrev pub dry_store : {S : Type 0} → IntText → PolicyStateStore S → PolicyStateStore S
dry_store py inner = record {
  get = inner.get;
  put = put inner;
  delete = delete inner;
  incr = incr inner py;
  cas = cas inner;
}
