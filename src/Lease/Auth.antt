-- ===== src/Lease/Auth.antt =====
-- The identity part of snulbug/leases.py: whether a lease is bound to identities, and whether the
-- authenticated one is among them.
use snulbug.Base.{
  String, Bool, not, ◌&&◌, Option, none, some, List, [], ◌∷◌, any, contains, is_empty, or_else,
  if◌then◌else◌,
}
use snulbug.Lease.{
  Lease, AuthContext, Reason, auth_missing, subject_not_allowed, issuer_not_allowed,
  tenant_not_allowed, client_id_not_allowed, group_not_allowed, auth_profile_not_allowed,
  string_list,
}

-- `_lease_auth_bound`
unfoldable pub auth_bound : Lease → Bool
auth_bound lease =
    any (λ values. not (is_empty (string_list values)))
      (lease.allow_subjects ∷ lease.allow_issuers ∷ lease.allow_tenants ∷ lease.allow_client_ids
        ∷ lease.allow_groups ∷ lease.allow_auth_profiles ∷ [])

-- a non-empty list of allowed values that lacks the claim
unfoldable pub claim_denied : List String → Option String → Bool
claim_denied allowed claim =
    let values = string_list allowed in
    not (is_empty values) && not (contains values (or_else claim ""))

unfoldable pub groups_denied : List String → List String → Bool
groups_denied allowed groups =
    let values = string_list allowed in
    not (is_empty values) && not (any (contains values) (string_list groups))

unfoldable pub identity_denial : Lease → AuthContext → Option Reason
identity_denial lease auth =
    if not auth.enabled
    then some auth_missing
    else if claim_denied lease.allow_subjects auth.subject
    then some subject_not_allowed
    else if claim_denied lease.allow_issuers auth.issuer
    then some issuer_not_allowed
    else if claim_denied lease.allow_tenants auth.tenant
    then some tenant_not_allowed
    else if claim_denied lease.allow_client_ids auth.client_id
    then some client_id_not_allowed
    else if groups_denied lease.allow_groups auth.groups
    then some group_not_allowed
    else if claim_denied lease.allow_auth_profiles auth.profile_id
    then some auth_profile_not_allowed
    else none

-- `_lease_auth_denial_reason`
unfoldable pub auth_denial : Lease → Option AuthContext → Option Reason
unfolding identity_denial
auth_denial lease none = if auth_bound lease then some auth_missing else none
auth_denial lease (some auth) = if auth_bound lease then identity_denial lease auth else none
