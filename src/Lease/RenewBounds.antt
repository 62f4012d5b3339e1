-- ===== src/Lease/RenewBounds.antt =====
-- What a renewal of snulbug/leases.py may change: the window and the token of the lease, within the
-- authorization of the renewal, and nothing of what the lease permits.
use snulbug.Base.{
  ℕ, ◌+◌, ◌-◌, ◌%◌, ◌≤◌, ◌≡◌, ◌⊎◌, refl, String, Bool, true, false, Option, none, some, List, arith,
  find, eq_iff, Bool-cases, Option-cases, inl, inr,
}
use snulbug.Base.Result.{ok}
use snulbug.Lease.{
  Platform, Lease, Renewal, File, holds, second, is_set, is_after, parse_time, token_hash,
}
use snulbug.Lease.Auth.{auth_denial}
use snulbug.Lease.Denial.{is_spent}
use snulbug.Lease.Change.{in_invite}
use snulbug.Lease.Renew.{
  earlier, Presented, renewal_denial, next_expiry, is_due, renewed, granted, grant, renew_found,
  renew_lease,
}

-- What a lease permits, and how much of it is used up.
pub record HasSamePowers (old new : Lease) : Type 0 where
  pub id : new.id ≡ old.id
  pub task : new.task ≡ old.task
  pub revoked_at : new.revoked_at ≡ old.revoked_at
  pub capabilities : new.capabilities ≡ old.capabilities
  pub allow_tools : new.allow_tools ≡ old.allow_tools
  pub allow_paths : new.allow_paths ≡ old.allow_paths
  pub allow_hosts : new.allow_hosts ≡ old.allow_hosts
  pub allow_commands : new.allow_commands ≡ old.allow_commands
  pub allow_subjects : new.allow_subjects ≡ old.allow_subjects
  pub allow_issuers : new.allow_issuers ≡ old.allow_issuers
  pub allow_tenants : new.allow_tenants ≡ old.allow_tenants
  pub allow_client_ids : new.allow_client_ids ≡ old.allow_client_ids
  pub allow_groups : new.allow_groups ≡ old.allow_groups
  pub allow_auth_profiles : new.allow_auth_profiles ≡ old.allow_auth_profiles
  pub max_calls : new.max_calls ≡ old.max_calls
  pub use_count : new.use_count ≡ old.use_count

-- The renewal was presented by its holder while it was authorized, and the lease has uses left.
pub record IsAuthorized (py : Platform) (now : ℕ) (lease : Lease) (renewal : Renewal)
    (p : Presented) : Type 0 where
  pub holder : renewal.token_hash ≡ token_hash py p.renewal_token
  pub kept : is_set lease.revoked_at ≡ false
  pub renewal_kept : is_set renewal.revoked_at ≡ false
  pub running : is_after py now renewal.authorization_expires_at ≡ true
  pub identity : auth_denial lease p.auth ≡ none
  pub free : is_spent lease.max_calls lease.use_count ≡ false

-- A granted lease has the powers of the lease that was renewed, and it is that lease or it ends no
-- later than the authorization and than one lease time from now.
pub record IsGranted (py : Platform) (now : ℕ) (old : Lease) (renewal : Renewal) (p : Presented)
    (new : Lease) : Type 0 where
  pub authorized : IsAuthorized py now old renewal p
  pub powers : HasSamePowers old new
  pub window :
      (new ≡ old)
      ⊎ ((until end : ℕ) × (parse_time py renewal.authorization_expires_at ≡ some until)
          × (parse_time py new.expires_at ≡ some end)
          × (end ≤ until)
          × (end ≤ now + renewal.lease_ttl))

authorized :
    (py : Platform) (now : ℕ) (lease : Lease) (renewal : Renewal) (p : Presented)
    → renewal_denial py now lease renewal p ≡ none
    → IsAuthorized py now lease renewal p
unfolding renewal_denial
authorized py now lease renewal p h = record {
  holder = ground (arith, eq_iff renewal.token_hash (token_hash py p.renewal_token));
  kept = ground arith;
  renewal_kept = ground arith;
  running = ground arith;
  identity = ground arith;
  free = ground arith;
}

next_expiry-until :
    (py : Platform) (now : ℕ) (renewal : Renewal) (until : ℕ)
    → parse_time py renewal.authorization_expires_at ≡ some until
    → next_expiry py now renewal ≡ earlier until (now + renewal.lease_ttl)
unfolding next_expiry
next_expiry-until py now renewal until e = rw (e, next_expiry)

renewed-window :
    (py : Platform) (now : ℕ) (token : String) (lease : Lease) (renewal : Renewal)
    → is_after py now renewal.authorization_expires_at ≡ true
    → (until end : ℕ) × (parse_time py renewal.authorization_expires_at ≡ some until)
      × (parse_time py (renewed py now token lease renewal).expires_at ≡ some end)
      × (end ≤ until)
      × (end ≤ now + renewal.lease_ttl)
unfolding renewed is_after
renewed-window py now token lease renewal h =
    elim (Option-cases (parse_time py renewal.authorization_expires_at)) [
      | inl e ↦ absurd (ground arith)
      | inr (until, e) ↦
          let end = earlier until (now + renewal.lease_ttl) in
          (
            until,
            end - end % second,
            e,
            rw (next_expiry-until py now renewal until e)
                (unfold parse_time in py.parse-format end),
            ground arith,
            ground arith,
          )
    ]

renewed-powers :
    (py : Platform) (now : ℕ) (token : String) (lease : Lease) (renewal : Renewal)
    → HasSamePowers lease (renewed py now token lease renewal)
unfolding renewed
renewed-powers py now token lease renewal = record {
  id = refl;
  task = refl;
  revoked_at = refl;
  capabilities = refl;
  allow_tools = refl;
  allow_paths = refl;
  allow_hosts = refl;
  allow_commands = refl;
  allow_subjects = refl;
  allow_issuers = refl;
  allow_tenants = refl;
  allow_client_ids = refl;
  allow_groups = refl;
  allow_auth_profiles = refl;
  max_calls = refl;
  use_count = refl;
}

same_powers : (l : Lease) → HasSamePowers l l
same_powers l = record {
  id = refl;
  task = refl;
  revoked_at = refl;
  capabilities = refl;
  allow_tools = refl;
  allow_paths = refl;
  allow_hosts = refl;
  allow_commands = refl;
  allow_subjects = refl;
  allow_issuers = refl;
  allow_tenants = refl;
  allow_client_ids = refl;
  allow_groups = refl;
  allow_auth_profiles = refl;
  max_calls = refl;
  use_count = refl;
}

grant-IsGranted :
    (py : Platform) (now : ℕ) (invite_id : String) (ls : List Lease) (old : Lease)
    (renewal : Renewal) (p : Presented) (changed : Bool) (new : Lease) (token : String)
    → IsAuthorized py now old renewal p
    → (grant py now invite_id ls old renewal p.renewal_token).0 ≡ granted changed new token
    → IsGranted py now old renewal p new
unfolding grant
grant-IsGranted py now invite_id ls old renewal p changed new token a h =
    elim (Bool-cases (is_due py now old renewal)) [
      | inl due ↦
          let q : new ≡ renewed py now p.renewal_token old renewal = ground arith in
          rw q (record {
            authorized = a;
            powers = renewed-powers py now p.renewal_token old renewal;
            window = inr (renewed-window py now p.renewal_token old renewal a.running);
          })
      | inr early ↦
          let q : new ≡ old = ground arith in
          rw q (record { authorized = a; powers = same_powers old; window = inl refl })
    ]

found-IsGranted :
    (py : Platform) (now : ℕ) (invite_id : String) (ls : List Lease) (p : Presented) (old : Lease)
    (o : Option Renewal) (changed : Bool) (new : Lease) (token : String)
    → (renew_found py now invite_id ls p old o).0 ≡ granted changed new token
    → (renewal : Renewal) × (o ≡ some renewal) × IsGranted py now old renewal p new
unfolding renew_found
found-IsGranted py now invite_id ls p old none changed new token h = cc
found-IsGranted py now invite_id ls p old (some renewal) changed new token h =
    elim (Option-cases (renewal_denial py now old renewal p)) [
      | inl e ↦ (
        renewal,
        refl,
        grant-IsGranted py now invite_id ls old renewal p changed new token
            (authorized py now old renewal p e) (rw (e, renew_found) at h),
      )
      | inr (reason, e) ↦ absurd (ground arith)
    ]

-- A granted renewal was presented by the holder of the renewal token, under an unrevoked and
-- running authorization, by an identity that the lease takes, with uses left. The granted lease
-- permits what the old one did and has the same budget and uses, and it is the old lease or it
-- ends no later than the authorization, nor later than one lease time from now.
pub renew-IsGranted :
    (py : Platform) (now : ℕ) (invite_id : String) (p : Presented) (ls : List Lease) (file : File)
    (changed : Bool) (new : Lease) (token : String)
    → renew_lease py now invite_id p (holds ls) ≡ ok (granted changed new token, file)
    → (old : Lease) × (renewal : Renewal) × (find (in_invite invite_id) ls ≡ some old)
      × (old.renewal ≡ some renewal)
      × IsGranted py now old renewal p new
unfolding renew_lease
renew-IsGranted py now invite_id p ls file changed new token h =
    elim (Option-cases (find (in_invite invite_id) ls)) [
      | inl e ↦ absurd (ground arith)
      | inr (old, e) ↦
          let found = renew_found py now invite_id ls p old old.renewal in
          let q : found.0 ≡ granted changed new token = ground arith in
          let (renewal, held, g) =
            found-IsGranted py now invite_id ls p old old.renewal changed new token q in
          (old, renewal, e, held, g)
    ]
