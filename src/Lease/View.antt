-- ===== src/Lease/View.antt =====
-- snulbug/leases.py: the public view of a lease and of its renewal, and the search for the lease
-- that a token belongs to.
use snulbug.Base.{
  ℕ, map, keep, ◌-◌, ◌/◌, String, Bool, true, false, not, ◌&&◌, ◌||◌, Option, none, some, List, [],
  find, ◌==◌, eqb, or_else, truthy, if◌then◌else◌,
}
use snulbug.Lease.Auth.{auth_bound}
use snulbug.Lease.{
  Platform, Lease, Renewal, Invite, is_set, is_after, parse_time, token_hash, string_list,
}

-- the `active` of `_lease_view`
unfoldable pub is_active : Platform → ℕ → Lease → Bool
unfolding is_after
is_active py now lease = not (is_set lease.revoked_at) && is_after py now lease.expires_at

-- the `active` of `_renewal_view`; a lease with no renewal has an empty view
unfoldable pub renewal_active : Platform → ℕ → Lease → Bool
unfolding is_after
renewal_active py now lease = elim lease.renewal [
  | none ↦ false
  | some renewal ↦
      not (is_set lease.revoked_at)
      && (not (is_set renewal.revoked_at) && is_after py now renewal.authorization_expires_at)
]

abbrev same_time : Option ℕ → Option ℕ → Bool
same_time (some a) (some b) = eqb a b
same_time none none = true
same_time _ _ = false

-- the `renew_after` of `_renewal_view`: half a lease before its end, or at the last end
unfoldable pub renew_after : Platform → Lease → Renewal → Option String
unfolding parse_time
renew_after py lease renewal = elim (parse_time py lease.expires_at) [
  | none ↦ none
  | some expires ↦ some (
      py.format_time (
        if same_time (some expires) (parse_time py renewal.authorization_expires_at)
        then expires
        else expires - renewal.lease_ttl / 2))
]

-- `_lease_invite_metadata`: empty values are dropped
unfoldable pub invite_metadata : Option Invite → Invite
invite_metadata none = record { id = none; recipient = none; client_name = none; capabilities = [] }
invite_metadata (some i) = record {
  id = truthy i.id;
  recipient = truthy i.recipient;
  client_name = truthy i.client_name;
  capabilities = string_list i.capabilities;
}

-- the previous token of a renewed lease, while it overlaps with the next
abbrev is_previous : Platform → ℕ → String → Option Renewal → Bool
is_previous py now digest none = false
is_previous py now digest (some renewal) =
    is_after py now renewal.previous_token_expires_at
    && or_else renewal.previous_token_hash "" == digest

unfoldable pub owns_token : Platform → ℕ → String → Lease → Bool
unfolding is_after
owns_token py now digest lease =
    lease.token_hash == digest || is_previous py now digest lease.renewal

-- `_find_lease`
unfoldable pub find_lease : Platform → ℕ → List Lease → String → Option Lease
unfolding owns_token token_hash
find_lease py now leases token = find (owns_token py now (token_hash py token)) leases

-- `_renewal_view`
pub record RenewalView : Type 0 where
  pub active : Bool
  pub revoked_at : Option String
  pub authorization_expires_at : Option String
  pub lease_ttl : ℕ
  pub generation : ℕ
  pub renewal_count : ℕ
  pub last_renewed_at : Option String
  pub renew_after : Option String

unfoldable pub renewal_view : Platform → ℕ → Lease → Renewal → RenewalView
unfolding renewal_active renew_after
renewal_view py now lease renewal = record {
  active = renewal_active py now lease;
  revoked_at = renewal.revoked_at;
  authorization_expires_at = renewal.authorization_expires_at;
  lease_ttl = renewal.lease_ttl;
  generation = renewal.generation;
  renewal_count = renewal.renewal_count;
  last_renewed_at = renewal.last_renewed_at;
  renew_after = renew_after py lease renewal;
}

-- `_lease_view`: everything but the hashes
pub record LeaseView : Type 0 where
  pub id : String
  pub task : String
  pub active : Bool
  pub created_at : String
  pub expires_at : Option String
  pub revoked_at : Option String
  pub capabilities : List String
  pub allow_tools : List String
  pub allow_paths : List String
  pub allow_hosts : List String
  pub allow_commands : List String
  pub allow_subjects : List String
  pub allow_issuers : List String
  pub allow_tenants : List String
  pub allow_client_ids : List String
  pub allow_groups : List String
  pub allow_auth_profiles : List String
  pub auth_bound : Bool
  pub invite : Invite
  pub max_calls : Option ℕ
  pub use_count : ℕ
  pub last_used_at : Option String
  pub last_tool : Option String
  pub renewal : Option RenewalView

unfoldable pub lease_view : Platform → ℕ → Lease → LeaseView
unfolding is_active invite_metadata renewal_view
lease_view py now lease = record {
  id = lease.id;
  task = lease.task;
  active = is_active py now lease;
  created_at = lease.created_at;
  expires_at = lease.expires_at;
  revoked_at = lease.revoked_at;
  capabilities = lease.capabilities;
  allow_tools = lease.allow_tools;
  allow_paths = lease.allow_paths;
  allow_hosts = lease.allow_hosts;
  allow_commands = lease.allow_commands;
  allow_subjects = lease.allow_subjects;
  allow_issuers = lease.allow_issuers;
  allow_tenants = lease.allow_tenants;
  allow_client_ids = lease.allow_client_ids;
  allow_groups = lease.allow_groups;
  allow_auth_profiles = lease.allow_auth_profiles;
  auth_bound = auth_bound lease;
  invite = invite_metadata lease.invite;
  max_calls = lease.max_calls;
  use_count = lease.use_count;
  last_used_at = lease.last_used_at;
  last_tool = lease.last_tool;
  renewal = elim lease.renewal [
    | none ↦ none
    | some renewal ↦ some (renewal_view py now lease renewal)
  ];
}

-- `list_leases` of the leases of a store
unfoldable pub list_leases : Platform → ℕ → (include_inactive : Bool) → List Lease → List LeaseView
unfolding lease_view
list_leases py now include_inactive leases =
    let views = map (lease_view py now) leases in
    if include_inactive then views else keep (λ view. view.active) views
