-- ===== src/Lease/Permits.antt =====
-- What a lease of snulbug/leases.py permits, as conditions on the lease, the identity and the call.
pub mod Exact
use snulbug.Base.{
  ℕ, ◌<◌, ◌≡◌, ◌↔◌, ◌⊎◌, inl, inr, refl, String, Bool, true, false, not, ◌&&◌, ◌||◌, Option, none,
  some, List, [], ◌∷◌, arith, map, any, contains, All, is_empty, or_else, Bool-cases, Option-cases,
  if◌then◌else◌,
}
use snulbug.Base.Json.{Fields}
use snulbug.Lease.{Platform, Lease, AuthContext, Reason, string_list, is_set, is_after, parse_time}
use snulbug.Lease.Auth.{auth_bound, auth_denial, claim_denied, groups_denied, identity_denial}
use snulbug.Lease.Arguments.{
  path_keys, url_keys, command_keys, collect_fields, hosts_of, tool_allowed, path_allowed,
  some_denied,
}
use snulbug.Lease.Denial.{
  catalog_denial, tool_denial, arguments_denial, denial, tool_of, arguments_of,
}

-- A list that names values allows those; an empty one allows all.
abbrev pub Claims : List String → Option String → Type 0
Claims allowed claim =
    (string_list allowed ≡ []) ⊎ (contains (string_list allowed) (or_else claim "") ≡ true)

abbrev pub ClaimsSome : List String → List String → Type 0
ClaimsSome allowed groups =
    (string_list allowed ≡ []) ⊎ (any (contains (string_list allowed)) (string_list groups) ≡ true)

-- The identity is enabled, and each list of the lease that names values has its claim.
pub record HasIdentity (lease : Lease) (auth : AuthContext) : Type 0 where
  pub enabled : auth.enabled ≡ true
  pub subject : Claims lease.allow_subjects auth.subject
  pub issuer : Claims lease.allow_issuers auth.issuer
  pub tenant : Claims lease.allow_tenants auth.tenant
  pub client_id : Claims lease.allow_client_ids auth.client_id
  pub group : ClaimsSome lease.allow_groups auth.groups
  pub profile : Claims lease.allow_auth_profiles auth.profile_id

abbrev pub IsIdentified : Lease → Option AuthContext → Type 0
IsIdentified lease auth =
    (auth_bound lease ≡ false) ⊎ ((a : AuthContext) × (auth ≡ some a) × HasIdentity lease a)

-- Every value of a kind is allowed, where the lease names any.
abbrev pub AllowsAll : List String → (String → Bool) → List String → Type 0
AllowsAll allowed allows values = (allowed ≡ []) ⊎ All (λ v. allows v ≡ true) values

-- The conditions on the lease itself.
pub record IsUsable (py : Platform) (now : ℕ) (lease : Lease) (uses : ℕ) (auth : Option AuthContext)
    : Type 0 where
  pub kept : is_set lease.revoked_at ≡ false
  pub running : (t : ℕ) × (parse_time py lease.expires_at ≡ some t) × (now < t)
  pub budget : (m : ℕ) → lease.max_calls ≡ some m → uses < m
  pub identity : IsIdentified lease auth

-- The conditions on the call: its tool and the values among its arguments.
pub record IsAllowedCall (py : Platform) (lease : Lease) (request : Fields) : Type 0 where
  pub tool : (t : String) × (tool_of request ≡ some t) × (tool_allowed lease.allow_tools t ≡ true)
  pub paths :
      AllowsAll
        (string_list lease.allow_paths)
        (path_allowed py (string_list lease.allow_paths))
        (collect_fields py path_keys (arguments_of request))
  pub hosts :
      AllowsAll
        (map py.lower (string_list lease.allow_hosts))
        (λ host. contains (map py.lower (string_list lease.allow_hosts)) (py.lower host))
        (hosts_of py (collect_fields py url_keys (arguments_of request)))
  pub commands :
      AllowsAll
        (string_list lease.allow_commands)
        (λ c.
          contains (string_list lease.allow_commands) (py.command_name c)
          || contains (string_list lease.allow_commands) c)
        (collect_fields py command_keys (arguments_of request))
