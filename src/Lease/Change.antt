-- ===== src/Lease/Change.antt =====
-- snulbug/leases.py: the operations on the lease file that revoke, reactivate and clean up leases, each
-- in one transaction.
use snulbug.Base.{
  ℕ, ◌+◌, String, Bool, true, false, ◌&&◌, ◌||◌, Option, none, some, List, [], ◌∷◌, map, keep, any,
  find, is_some, or_else, truthy, ◌==◌, if◌then◌else◌,
}
use snulbug.Base.Result.{Result, ok, err, ◌>>=◌}
use snulbug.Lease.{
  Platform, Lease, File, holds, LeaseError, bad_max_calls, is_renewable, token_hash,
}
use snulbug.Lease.View.{is_active, renewal_active}
use snulbug.Lease.Store.{load_or_new, parse_ttl, guard, no_budget}

-- the first lease with an id, changed
abbrev pub update_first : (Lease → Bool) → (Lease → Lease) → List Lease → List Lease
update_first here change [] = []
update_first here change (l ∷ ls) =
    if here l then change l ∷ ls else l ∷ update_first here change ls

abbrev pub has_id : String → Lease → Bool
has_id id lease = lease.id == id

-- `value or now`
abbrev pub or_now : Option String → String → Option String
or_now o now = some (or_else (truthy o) now)

unfoldable pub mark_revoked : String → Lease → Lease
mark_revoked now lease = record lease { revoked_at = or_now lease.revoked_at now }

-- `revoke_lease`: whether the lease was found, and the file
unfoldable pub revoke_lease : Platform → ℕ → String → File → Result LeaseError (Bool × File)
unfolding mark_revoked load_or_new
revoke_lease py now lease_id file = do
  leases ← load_or_new file
  if any (has_id lease_id) leases
      then ok
          (true, holds (update_first (has_id lease_id) (mark_revoked (py.format_time now)) leases))
      else ok (false, file)

abbrev pub in_invite : String → Lease → Bool
in_invite invite_id lease = elim lease.invite [
  | none ↦ false
  | some i ↦ elim i.id [ none ↦ false | some id ↦ id == invite_id ]
]

unfoldable pub revoke_renewal : String → Lease → Lease
revoke_renewal now lease = elim lease.renewal [
  | none ↦ lease
  | some renewal ↦ record lease {
    renewal = some (record renewal { revoked_at = or_now renewal.revoked_at now });
  }
]

-- `revoke_invite_renewal`: every renewal of the invite
unfoldable pub revoke_invite_renewal : Platform → ℕ → String → File → Result LeaseError File
unfolding revoke_renewal load_or_new
revoke_invite_renewal py now invite_id file = do
  leases ← load_or_new file
  if any (λ l. in_invite invite_id l && is_some l.renewal) leases
      then ok (
          holds (
            map (λ l. if in_invite invite_id l then revoke_renewal (py.format_time now) l else l)
              leases))
      else ok file

abbrev or_limit : Option ℕ → Option ℕ → Option ℕ
or_limit none old = old
or_limit (some n) old = some n

unfoldable pub reactivated : Platform → ℕ → ℕ → Option ℕ → String → Lease → Lease
reactivated py now ttl max_calls token lease = record lease {
  revoked_at = none;
  expires_at = some (py.format_time (now + ttl));
  reactivated_at = some (py.format_time now);
  token_hash = token_hash py token;
  use_count = 0;
  last_used_at = none;
  last_tool = none;
  max_calls = or_limit max_calls lease.max_calls;
}

-- `reactivate_lease`: the token of the lease if it was found, and the file
unfoldable pub reactivate_lease :
    Platform
    → ℕ
    → String
    → ℕ
    → Option ℕ
    → Option String
    → String
    → File
    → Result LeaseError (Option String × File)
unfolding reactivated parse_ttl load_or_new
reactivate_lease py now lease_id ttl max_calls token drawn file = do
  _ ← guard (no_budget max_calls) bad_max_calls
  leases ← load_or_new file
  let fresh = or_else (truthy token) drawn
  elim (find (has_id lease_id) leases) [
    | none ↦ ok (none, file)
    | some lease ↦ if is_some lease.renewal then err is_renewable else (do
      seconds ← parse_ttl ttl
      let change = reactivated py now seconds max_calls fresh
      ok (some fresh, holds (update_first (has_id lease_id) change leases)))
  ]

-- `cleanup_inactive_leases`: the leases kept, and how many are removed
unfoldable pub is_kept : Platform → ℕ → Lease → Bool
is_kept py now lease = is_active py now lease || renewal_active py now lease

unfoldable pub cleanup_inactive_leases : Platform → ℕ → File → Result LeaseError (List Lease × File)
unfolding is_kept load_or_new
cleanup_inactive_leases py now file = do
  leases ← load_or_new file
  let kept = keep (is_kept py now) leases
  ok (kept, holds kept)
