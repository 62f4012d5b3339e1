-- ===== src/Lease/Store.antt =====
-- snulbug/leases.py: the operations on the lease file that creates leases, and what
-- the other operations share. Each runs in one transaction on the file, so it is a function of the file's content; what
-- it draws at random (ids and tokens) is an argument. A `ttl` is a number of microseconds, as
-- `_parse_ttl` makes of a number.
use snulbug.Base.{
  ℕ, ◌+◌, String, Bool, true, false, not, ◌&&◌, ◌||◌, Option, none, some, List, [], ◌∷◌, ◌++◌, map,
  ltb, leb, is_empty, is_some, or_else, truthy, ◌==◌, if◌then◌else◌,
}
use snulbug.Base.Result.{Result, ok, err, ◌>>=◌}
use snulbug.Lease.{
  Platform, Lease, Invite, File, absent, unreadable, holds, LeaseError, empty_task, no_tools,
  bad_max_calls, bad_ttl, not_invited, renewal_too_short, renewal_unbound, file_invalid, token_hash,
  dedupe, is_set,
}
use snulbug.Lease.View.{invite_metadata}
use Prim.Native.String

-- `_load_store` with `create_missing=True`
unfoldable pub load_or_new : File → Result LeaseError (List Lease)
load_or_new absent = ok []
load_or_new unreadable = err file_invalid
load_or_new (holds leases) = ok leases

-- `_parse_ttl` of a number
unfoldable pub parse_ttl : ℕ → Result LeaseError ℕ
parse_ttl ttl = if leb ttl 0 then err bad_ttl else ok ttl

-- `lease_token_for_renewal`
unfoldable pub token_for_renewal : Platform → String → String → ℕ → String
token_for_renewal py renewal_token lease_id generation = String.◌++◌ "sbl_" (
    py.hmac_sha256 renewal_token (
      String.◌++◌ "snulbug.lease.v1:"
        (String.◌++◌ lease_id (String.◌++◌ ":" (py.str_of_ℕ generation)))))

-- The arguments of `create_lease`.
pub record LeaseRequest : Type 0 where
  pub task : String
  pub allow_tools : List String
  pub capabilities : List String
  pub allow_paths : List String
  pub allow_hosts : List String
  pub allow_commands : List String
  pub allow_subjects : List String
  pub allow_issuers : List String
  pub allow_tenants : List String
  pub allow_client_ids : List String
  pub allow_groups : List String
  pub allow_auth_profiles : List String
  pub ttl : ℕ
  pub max_calls : Option ℕ
  pub token : Option String
  pub invite : Option Invite
  pub renewal_ttl : Option ℕ
  pub renewal_token : Option String
  pub renewal_bearer : Option String

-- What is drawn at random: the id of the lease, and the tokens that the caller does not give.
pub record Drawn : Type 0 where
  pub lease_id : String
  pub token : String
  pub renewal_token : String

pub record Created : Type 0 where
  pub lease : Lease
  pub token : String
  pub renewal_token : Option String

abbrev pub no_budget : Option ℕ → Bool
no_budget none = false
no_budget (some n) = leb n 0

abbrev pub guard : Bool → LeaseError → Result LeaseError (Unit {0})
guard true e = err e
guard false e = ok tt

-- an invite of which nothing is left is not stored
abbrev stored_invite : Invite → Option Invite
stored_invite i =
    if is_some i.id
      || (is_some i.recipient || (is_some i.client_name || not (is_empty i.capabilities)))
    then some i
    else none

-- the dictionary that `create_lease` starts from
unfoldable pub new_lease : Platform → ℕ → LeaseRequest → String → String → ℕ → Lease
new_lease py now r lease_id token ttl = record {
  id = lease_id;
  task = r.task;
  created_at = py.format_time now;
  expires_at = some (py.format_time (now + ttl));
  revoked_at = none;
  reactivated_at = none;
  token_hash = token_hash py token;
  capabilities = dedupe r.capabilities;
  allow_tools = dedupe r.allow_tools;
  allow_paths = dedupe r.allow_paths;
  allow_hosts = dedupe (map py.lower r.allow_hosts);
  allow_commands = dedupe r.allow_commands;
  allow_subjects = dedupe r.allow_subjects;
  allow_issuers = dedupe r.allow_issuers;
  allow_tenants = dedupe r.allow_tenants;
  allow_client_ids = dedupe r.allow_client_ids;
  allow_groups = dedupe r.allow_groups;
  allow_auth_profiles = dedupe r.allow_auth_profiles;
  max_calls = r.max_calls;
  use_count = 0;
  last_used_at = none;
  last_tool = none;
  invite = stored_invite (invite_metadata r.invite);
  renewal = none;
}

-- `not renewal_bearer and not (allow_issuers and (allow_subjects or allow_client_ids))`
abbrev pub is_unbound : LeaseRequest → Bool
is_unbound r =
    not (is_set r.renewal_bearer)
    && not (
        not (is_empty r.allow_issuers)
        && (not (is_empty r.allow_subjects) || not (is_empty r.allow_client_ids)))

-- the renewal of a new lease, whose token is derived from the renewal token
unfoldable pub add_renewal : Platform → ℕ → LeaseRequest → Drawn → Lease → ℕ → ℕ → Created
add_renewal py now r drawn lease ttl authorization =
    let renewal_token = or_else (truthy r.renewal_token) drawn.renewal_token in
    let token = token_for_renewal py renewal_token lease.id 0 in
    let renewed : Lease = record lease {
      token_hash = token_hash py token;
      renewal = some (record {
        authorization_expires_at = some (py.format_time (now + authorization));
        lease_ttl = ttl;
        token_hash = token_hash py renewal_token;
        bearer_hash = elim (truthy r.renewal_bearer) [
          | none ↦ none
          | some b ↦ some (token_hash py b)
        ];
        generation = 0;
        renewal_count = 0;
        last_renewed_at = none;
        revoked_at = none;
        previous_token_hash = none;
        previous_token_expires_at = none;
      });
    } in
    record { lease = renewed; token = token; renewal_token = some renewal_token }

unfoldable pub with_renewal :
    Platform → ℕ → LeaseRequest → Drawn → Lease → String → ℕ → Option ℕ → Result LeaseError Created
unfolding add_renewal
with_renewal py now r drawn lease token ttl none =
    ok (record { lease = lease; token = token; renewal_token = none })
with_renewal py now r drawn lease token ttl (some renewal_ttl) = do
  _ ← guard (not (is_some (invite_metadata r.invite).id)) not_invited
  authorization ← parse_ttl renewal_ttl
  _ ← guard (ltb authorization ttl) renewal_too_short
  _ ← guard (is_unbound r) renewal_unbound
  ok (add_renewal py now r drawn lease ttl authorization)

unfoldable pub create_lease :
    Platform → ℕ → LeaseRequest → Drawn → File → Result LeaseError (Created × File)
unfolding parse_ttl load_or_new
create_lease py now r drawn file = do
  _ ← guard (py.strip r.task == "") empty_task
  _ ← guard (is_empty r.allow_tools) no_tools
  _ ← guard (no_budget r.max_calls) bad_max_calls
  let token = or_else (truthy r.token) drawn.token
  ttl ← parse_ttl r.ttl
  created ←
      with_renewal py now r drawn (new_lease py now r drawn.lease_id token ttl) token ttl
        r.renewal_ttl
  leases ← load_or_new file
  ok (created, holds (leases ++ created.lease ∷ []))
