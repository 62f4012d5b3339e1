-- ===== src/Lease/Renew.antt =====
-- `renew_lease` of snulbug/leases.py: the lease of an invite is extended, or its present token
-- recovered, for the holder of the renewal token. The clock is read once in a call.
use snulbug.Base.{
  ℕ, ◌+◌, ◌-◌, ◌*◌, String, Bool, true, false, not, ◌&&◌, ◌||◌, Option, none, some, List, find,
  subset, ltb, leb, truthy, ◌==◌, if◌then◌else◌,
}
use snulbug.Base.Result.{Result, ok, err, ◌>>=◌}
use snulbug.Lease.{
  Platform, Lease, Renewal, File, absent, unreadable, holds, AuthContext, Reason, revoked,
  max_calls_exceeded, auth_missing, renewal_invalid, renewal_expired, renewal_auth_required,
  renewal_capability_removed, LeaseError, file_missing, file_invalid, second, is_set, is_after,
  parse_time, token_hash,
}
use snulbug.Lease.Auth.{auth_denial}
use snulbug.Lease.Denial.{is_spent, or_reason}
use snulbug.Lease.Store.{token_for_renewal}
use snulbug.Lease.Change.{update_first, in_invite}

-- `min` of two times
abbrev pub earlier : ℕ → ℕ → ℕ
earlier a b = if ltb b a then b else a

-- `_load_store` with `create_missing=False`
unfoldable pub load : File → Result LeaseError (List Lease)
load absent = err file_missing
load unreadable = err file_invalid
load (holds leases) = ok leases

-- What the caller presents.
pub record Presented : Type 0 where
  pub renewal_token : String
  pub bearer : Option String
  pub auth : Option AuthContext
  pub policy_capabilities : Option (List String)

abbrev pub auth_enabled : Option AuthContext → Bool
auth_enabled none = false
auth_enabled (some auth) = auth.enabled

abbrev bearer_matches : Platform → Option String → String → Bool
bearer_matches py none hash = false
bearer_matches py (some bearer) hash = not (bearer == "") && hash == token_hash py bearer

-- the bearer or the authenticated identity that a renewal needs
unfoldable pub bearer_denial : Platform → Renewal → Presented → Option Reason
bearer_denial py renewal p =
    if auth_enabled p.auth then none else elim (truthy renewal.bearer_hash) [
      | none ↦ some auth_missing
      | some hash ↦ if bearer_matches py p.bearer hash then none else some renewal_auth_required
    ]

unfoldable pub capability_denial : Lease → Option (List String) → Option Reason
capability_denial lease none = none
capability_denial lease (some allowed) =
    if subset lease.capabilities allowed then none else some renewal_capability_removed

-- the checks of a lease that has a renewal, in the order of the source
unfoldable pub renewal_denial : Platform → ℕ → Lease → Renewal → Presented → Option Reason
unfolding bearer_denial capability_denial
renewal_denial py now lease renewal p =
    if p.renewal_token == "" || not (renewal.token_hash == token_hash py p.renewal_token)
    then some renewal_invalid
    else if is_set lease.revoked_at || is_set renewal.revoked_at
    then some revoked
    else if not (is_after py now renewal.authorization_expires_at)
    then some renewal_expired
    else or_reason (bearer_denial py renewal p) (
        or_reason (auth_denial lease p.auth) (
          or_reason (capability_denial lease p.policy_capabilities)
            (if is_spent lease.max_calls lease.use_count then some max_calls_exceeded else none)))

-- the end of the lease window that a renewal would open
unfoldable pub next_expiry : Platform → ℕ → Renewal → ℕ
unfolding parse_time
next_expiry py now renewal = elim (parse_time py renewal.authorization_expires_at) [
  | none ↦ now + renewal.lease_ttl
  | some until ↦ earlier until (now + renewal.lease_ttl)
]

-- whether less than half of the window is left and the next would end later
unfoldable pub is_due : Platform → ℕ → Lease → Renewal → Bool
unfolding parse_time
is_due py now lease renewal = elim (parse_time py lease.expires_at) [
  | none ↦ true
  | some expires ↦
      leb (2 * (expires - now)) renewal.lease_ttl && ltb expires (next_expiry py now renewal)
]

-- the token of the window that ends, for the requests in flight
unfoldable pub keep_previous : Platform → ℕ → Lease → Renewal → Renewal
unfolding parse_time
keep_previous py now lease renewal =
    let closed : Renewal = record renewal {
      previous_token_hash = none;
      previous_token_expires_at = none;
    } in
    elim (parse_time py lease.expires_at) [
      | none ↦ closed
      | some expires ↦
          if ltb now expires
          then record renewal {
            previous_token_hash = some lease.token_hash;
            previous_token_expires_at = some (py.format_time (earlier expires (now + 30 * second)));
          }
          else closed
    ]

-- the lease in its next window
unfoldable pub renewed : Platform → ℕ → String → Lease → Renewal → Lease
unfolding keep_previous
renewed py now renewal_token lease renewal =
    let kept = keep_previous py now lease renewal in
    let generation = renewal.generation + 1 in
    record lease {
      expires_at = some (py.format_time (next_expiry py now renewal));
      token_hash = token_hash py (token_for_renewal py renewal_token lease.id generation);
      renewal = some (record kept {
        generation = generation;
        renewal_count = renewal.renewal_count + 1;
        last_renewed_at = some (py.format_time now);
      });
    }

-- A renewal is refused, or it gives the lease and its token, changed or as they were.
pub data Renewed : Type 0 where
  denied : Reason → Renewed
  granted : (changed : Bool) (lease : Lease) (token : String) → Renewed

unfoldable pub grant :
    Platform → ℕ → String → List Lease → Lease → Renewal → String → Renewed × File
unfolding is_due renewed
grant py now invite_id leases lease renewal renewal_token =
    if is_due py now lease renewal
    then (
      granted true (renewed py now renewal_token lease renewal)
          (token_for_renewal py renewal_token lease.id (renewal.generation + 1)),
      holds (
          update_first (in_invite invite_id) (λ l. renewed py now renewal_token lease renewal)
            leases),
    )
    else (
      granted false lease (token_for_renewal py renewal_token lease.id renewal.generation),
      holds leases,
    )

unfoldable pub renew_found :
    Platform → ℕ → String → List Lease → Presented → Lease → Option Renewal → Renewed × File
unfolding renewal_denial grant
renew_found py now invite_id leases p lease none = (denied renewal_invalid, holds leases)
renew_found py now invite_id leases p lease (some renewal) =
    elim (renewal_denial py now lease renewal p) [
      | some reason ↦ (denied reason, holds leases)
      | none ↦ grant py now invite_id leases lease renewal p.renewal_token
    ]

unfoldable pub renew_lease :
    Platform → ℕ → String → Presented → File → Result LeaseError (Renewed × File)
unfolding renew_found load
renew_lease py now invite_id p file = do
  leases ← load file
  elim (find (in_invite invite_id) leases) [
    | none ↦ ok (denied renewal_invalid, file)
    | some lease ↦ ok (renew_found py now invite_id leases p lease lease.renewal)
  ]
