-- ===== src/Lease/RenewTests.antt =====
-- Renewals of snulbug/leases.py on a small store.
use snulbug.Base.{◌*◌, ◌≡◌, refl, true, false, none, some, [], ◌∷◌, arith, find}
use snulbug.Base.Result.{ok}
use snulbug.Lease.{Lease, Renewal, holds, second, parse_time, token_hash, is_after}
use snulbug.Lease.Store.{token_for_renewal}
use snulbug.Lease.Change.{in_invite}
use snulbug.Lease.Auth.{auth_denial, auth_bound}
use snulbug.Lease.Renew.{
  Presented, granted, renew_lease, renewed, grant, is_due, renewal_denial, renew_found,
  bearer_denial, capability_denial, next_expiry, load,
}
use snulbug.Lease.RenewBounds.{IsGranted, renew-IsGranted}
use snulbug.Lease.RenewTokens.{renew_twice}
use snulbug.Lease.Sample.{platform, lease}

abbrev renewal : Renewal
renewal = record {
  authorization_expires_at = some "t111111111";
  lease_ttl = 5 * second;
  token_hash = "sha256:r1";
  bearer_hash = some "sha256:b1";
  generation = 0;
  renewal_count = 0;
  last_renewed_at = none;
  revoked_at = none;
  previous_token_hash = none;
  previous_token_expires_at = none;
}

abbrev renewable : Lease
renewable = record lease {
  invite =
      some (record { id = some "i1"; recipient = none; client_name = none; capabilities = [] });
  renewal = some renewal;
}

abbrev shown : Presented
shown = record { renewal_token = "r1"; bearer = some "b1"; auth = none; policy_capabilities = none }

due : is_due platform (4 * second) renewable renewal ≡ true
unfolding is_due next_expiry parse_time
due = refl

abbrev next : Lease
next = renewed platform (4 * second) "r1" renewable renewal

renews :
    renew_lease platform (4 * second) "i1" shown (holds (renewable ∷ []))
    ≡ ok (granted true next (token_for_renewal platform "r1" "l1" 1), holds (next ∷ []))
unfolding renew_lease renew_found renewal_denial bearer_denial capability_denial grant load
    token_hash is_after parse_time is_due next_expiry auth_denial auth_bound
renews = refl

renew-IsGranted_example :
    (old : Lease) × (r : Renewal) × (find (in_invite "i1") (renewable ∷ []) ≡ some old)
    × (old.renewal ≡ some r)
    × IsGranted platform (4 * second) old r shown next
renew-IsGranted_example =
    renew-IsGranted platform (4 * second) "i1" shown (renewable ∷ []) (holds (next ∷ [])) true next
      (token_for_renewal platform "r1" "l1" 1) renews

runs_until : parse_time platform (some "t111111") ≡ some (6 * second)
unfolding parse_time
runs_until = refl

authorized_until : parse_time platform (some "t111111111") ≡ some (9 * second)
unfolding parse_time
authorized_until = refl

renew_twice_example :
    renew_lease platform (4 * second) "i1" shown (holds (next ∷ []))
    ≡ ok (granted false next (token_for_renewal platform "r1" "l1" 1), holds (next ∷ []))
renew_twice_example =
    renew_twice platform (4 * second) (9 * second) "i1" shown (renewable ∷ []) renewable next
      renewal (token_for_renewal platform "r1" "l1" 1) (holds (next ∷ [])) refl refl
      authorized_until (omega arith) (omega arith) renews
