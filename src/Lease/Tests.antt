-- ===== src/Lease/Tests.antt =====
-- Runs of the lease operations of snulbug/leases.py on small stores.
use snulbug.Base.{◌*◌, ◌≡◌, ◌↔◌, refl, true, false, none, some, List, [], ◌∷◌, arith}
use snulbug.Base.Result.{ok}
use snulbug.Base.Json
use snulbug.Base.Json.{Fields, str, obj, field, end}
use snulbug.Lease.{
  Lease, holds, revoked, second, parse_time, dedupe, dedupe_from, token_hash, is_after,
}
use snulbug.Lease.Store.{create_lease, new_lease, with_renewal, load_or_new}
use snulbug.Lease.Change.{is_kept, cleanup_inactive_leases, revoke_lease, mark_revoked, has_id}
use snulbug.Lease.View.{is_active, renewal_active, invite_metadata, find_lease, owns_token}
use snulbug.Lease.Auth.{auth_denial, auth_bound}
use snulbug.Lease.Arguments.{tool_allowed}
use snulbug.Lease.Coverage.{covered, preview_coverage}
use snulbug.Lease.Denial.{denial, catalog_denial, tool_denial, arguments_denial}
use snulbug.Lease.Enforce.{
  Scope, LeasePolicyConfig, found, selected, unselected, enforce, preview, evaluate, resolve,
  presented, select, by_token, is_tool_call, decide, conclude, request_denial, by_id, of_matches,
}
use snulbug.Lease.Permits.{IsUsable, IsAllowedCall}
use snulbug.Lease.Permits.Exact.{denial-IsPermitted}
use snulbug.Lease.Budget.{Event, serve, Accounts, serve-Accounts}
use snulbug.Lease.Preview.{preview-enforce}
use snulbug.Lease.Revoke.{revoke-refuses}
use snulbug.Lease.Sample.{platform, request, drawn, lease, created}

creates : create_lease platform second request drawn (holds []) ≡ ok (created, holds (lease ∷ []))
unfolding create_lease new_lease token_hash dedupe dedupe_from with_renewal invite_metadata
creates = refl

none_older : find_lease platform second [] "k1" ≡ none
unfolding find_lease
none_older = refl

abbrev call : Fields
call = field "method" (str "tools/call") (field "params" (obj (field "name" (str "read") end)) end)

denial-IsPermitted_example :
    (denial platform second lease 0 call none ≡ none)
    ↔ (IsUsable platform second lease 0 none × IsAllowedCall platform lease call)
denial-IsPermitted_example = denial-IsPermitted platform second lease 0 call none

abbrev config : LeasePolicyConfig
config = record { has_file = true; required = true; header = "x-lease" }

abbrev by_header : Scope
by_header = record { selection = unselected; headers = ("x-lease", "k1") ∷ []; auth = none }

abbrev by_selection : Scope
by_selection = record { selection = selected "l1"; headers = []; auth = none }

preview-enforce_example :
    preview platform second config call by_header (holds (lease ∷ []))
    ≡ ((enforce platform second config call by_header (holds (lease ∷ []))).0, holds (lease ∷ []))
preview-enforce_example = preview-enforce platform second config call by_header (holds (lease ∷ []))

abbrev events : List Event
events =
    record { now = second; request = call; scope = by_header }
    ∷ record { now = 2 * second; request = call; scope = by_selection }
    ∷ record { now = 3 * second; request = call; scope = by_header }
    ∷ []

serve-Accounts_example :
    Accounts
      (lease ∷ [])
      (serve platform config events (holds (lease ∷ []))).0
      (serve platform config events (holds (lease ∷ []))).1
serve-Accounts_example =
    serve-Accounts platform config events (lease ∷ []) refl refl (λ m e. omega arith, tt)

abbrev gone : Lease
gone = record lease { revoked_at = some "t11" }

revokes :
    revoke_lease platform (2 * second) "l1" (holds (lease ∷ [])) ≡ ok (true, holds (gone ∷ []))
unfolding revoke_lease mark_revoked load_or_new
revokes = refl

resolves :
    resolve platform
      (3 * second)
      (selected "l1")
      (presented platform "x-lease" [])
      (holds (gone ∷ []))
    ≡ found gone (has_id "l1") (gone ∷ [])
unfolding resolve presented select by_id of_matches
resolves = refl

revoke-refuses_example :
    (evaluate platform (3 * second) config true call by_selection (holds (gone ∷ []))).0
    ≡ some revoked
revoke-refuses_example =
    revoke-refuses platform (2 * second) "l1" (lease ∷ []) (holds (gone ∷ [])) (3 * second) config
      true call by_selection gone (has_id "l1") (gone ∷ []) (tt, tt) revokes refl resolves refl

is_call : is_tool_call call ≡ true
unfolding Json.get
is_call = refl

allows : (evaluate platform second config false call by_header (holds (lease ∷ []))).0 ≡ none
unfolding evaluate resolve presented select by_token owns_token token_hash decide conclude
    request_denial denial catalog_denial tool_denial arguments_denial tool_allowed parse_time
    is_after auth_denial auth_bound Json.get
allows = refl

covers :
    (preview_coverage platform second call none none (holds (lease ∷ gone ∷ []))).0
    ≡ covered (lease ∷ [])
unfolding preview_coverage denial catalog_denial tool_denial arguments_denial tool_allowed is_after
    parse_time auth_denial auth_bound Json.get
covers = refl

cleans :
    cleanup_inactive_leases platform second (holds (gone ∷ lease ∷ []))
    ≡ ok (lease ∷ [], holds (lease ∷ []))
unfolding cleanup_inactive_leases is_kept is_active renewal_active is_after parse_time load_or_new
cleans = refl
