-- ===== src/Lease/Permits/Exact.antt =====
-- The refusals of snulbug/leases.py against the conditions that a lease states.
use snulbug.Base.{
  ℕ, ◌<◌, ◌≡◌, ◌↔◌, ◌⊎◌, inl, inr, refl, String, Bool, true, false, not, ◌&&◌, ◌||◌, Option, none,
  some, List, [], ◌∷◌, arith, map, any, contains, All, is_empty, or_else, Bool-cases, Option-cases,
}
use snulbug.Base.Json.{Fields}
use snulbug.Lease.Permits.{
  Claims, ClaimsSome, HasIdentity, IsIdentified, AllowsAll, IsUsable, IsAllowedCall,
}
use snulbug.Lease.{Platform, Lease, AuthContext, string_list, is_after, parse_time}
use snulbug.Lease.Auth.{auth_bound, auth_denial, claim_denied, groups_denied, identity_denial}
use snulbug.Lease.Arguments.{
  path_keys, url_keys, command_keys, collect_fields, hosts_of, path_allowed, some_denied,
}
use snulbug.Lease.Denial.{is_spent, catalog_denial, tool_denial, denial, tool_of, arguments_of}

named_iff :
    (l : List String) (b : Bool) → ((not (is_empty l) && not b) ≡ false) ↔ ((l ≡ []) ⊎ (b ≡ true))
named_iff [] b = (λ h. inl refl, λ h. refl)
named_iff (x ∷ l) b = (λ h. inr (ground arith), λ h. ground arith)

any-not_iff :
    (p : String → Bool) (xs : List String)
    → (any (λ v. not (p v)) xs ≡ false) ↔ All (λ v. p v ≡ true) xs
any-not_iff p [] = (λ h. tt, λ h. refl)
any-not_iff p (x ∷ xs) =
    let (to, from) = any-not_iff p xs in
    (λ h. (ground arith, to (ground arith)), λ h. ground (arith, from h.1))

some_denied_iff :
    (allowed : List String) (allows : String → Bool) (values : List String)
    → (some_denied allowed allows values ≡ false) ↔ AllowsAll allowed allows values
some_denied_iff [] allows values = (λ h. inl refl, λ h. refl)
some_denied_iff (x ∷ l) allows values =
    let (to, from) = any-not_iff allows values in
    (λ h. inr (to h), λ h. elim h [ inl e ↦ cc | inr a ↦ from a ])

Claims-iff :
    (allowed : List String) (claim : Option String)
    → (claim_denied allowed claim ≡ false) ↔ Claims allowed claim
unfolding claim_denied
Claims-iff allowed claim =
    named_iff (string_list allowed) (contains (string_list allowed) (or_else claim ""))

groups_iff :
    (allowed groups : List String)
    → (groups_denied allowed groups ≡ false) ↔ ClaimsSome allowed groups
unfolding groups_denied
groups_iff allowed groups =
    named_iff (string_list allowed) (any (contains (string_list allowed)) (string_list groups))

identity_iff :
    (lease : Lease) (a : AuthContext) → (identity_denial lease a ≡ none) ↔ HasIdentity lease a
unfolding identity_denial
identity_iff lease a = (
  λ h. record {
    enabled = ground arith;
    subject = (Claims-iff lease.allow_subjects a.subject).0 (ground arith);
    issuer = (Claims-iff lease.allow_issuers a.issuer).0 (ground arith);
    tenant = (Claims-iff lease.allow_tenants a.tenant).0 (ground arith);
    client_id = (Claims-iff lease.allow_client_ids a.client_id).0 (ground arith);
    group = (groups_iff lease.allow_groups a.groups).0 (ground arith);
    profile = (Claims-iff lease.allow_auth_profiles a.profile_id).0 (ground arith);
  },
  λ h. simp (
    h.enabled,
    (Claims-iff lease.allow_subjects a.subject).1 h.subject,
    (Claims-iff lease.allow_issuers a.issuer).1 h.issuer,
    (Claims-iff lease.allow_tenants a.tenant).1 h.tenant,
    (Claims-iff lease.allow_client_ids a.client_id).1 h.client_id,
    (groups_iff lease.allow_groups a.groups).1 h.group,
    (Claims-iff lease.allow_auth_profiles a.profile_id).1 h.profile,
  ),
)

auth_iff :
    (lease : Lease) (auth : Option AuthContext)
    → (auth_denial lease auth ≡ none) ↔ IsIdentified lease auth
unfolding auth_denial
auth_iff lease none = (λ h. inl (ground arith), λ h. elim h [ inl e ↦ rw e | inr (a, e, i) ↦ cc ])
auth_iff lease (some a) = elim (Bool-cases (auth_bound lease)) [
  | inl bound ↦ (
    λ h. inr (a, refl, (identity_iff lease a).0 (ground arith)),
    λ h. elim h [
      | inl e ↦ cc
      | inr (b, e, i) ↦ let q : a ≡ b = cc e in rw (bound, q) ((identity_iff lease b).1 i)
    ],
  )
  | inr free ↦ (λ h. inl free, λ h. rw free)
]

budget_of :
    (lease : Lease) (uses : ℕ)
    → ((m : ℕ) → lease.max_calls ≡ some m → uses < m)
    → is_spent lease.max_calls uses ≡ false
budget_of lease uses h = elim (Option-cases lease.max_calls) [
  | inl e ↦ rw e
  | inr (m, e) ↦ ground (arith, h m e)
]

catalog_iff :
    (py : Platform) (now : ℕ) (lease : Lease) (uses : ℕ) (auth : Option AuthContext)
    → (catalog_denial py now lease uses auth ≡ none) ↔ IsUsable py now lease uses auth
unfolding catalog_denial is_after
catalog_iff py now lease uses auth = (
  λ h. record {
    kept = ground arith;
    running = elim (Option-cases (parse_time py lease.expires_at)) [
      | inl e ↦ absurd (ground arith)
      | inr (t, e) ↦ (t, e, ground arith)
    ];
    budget = λ m e. ground arith;
    identity = (auth_iff lease auth).0 (ground arith);
  },
  λ h.
      let (t, e, later) = h.running in
      ground (
        arith,
        h.kept,
        (auth_iff lease auth).1 h.identity,
        Option-cases lease.max_calls,
        budget_of lease uses h.budget,
      ),
)

call_of_tool :
    (py : Platform) (lease : Lease) (request : Fields) (tool : Option String)
    → tool_of request ≡ tool
    → (tool_denial py lease tool (arguments_of request) ≡ none) ↔ IsAllowedCall py lease request
unfolding tool_denial
call_of_tool py lease request none e = (λ h. cc, λ h. let (t, held, ok) = h.tool in cc)
call_of_tool py lease request (some tool) e =
    let (paths, to_paths) =
      some_denied_iff (string_list lease.allow_paths)
        (path_allowed py (string_list lease.allow_paths))
        (collect_fields py path_keys (arguments_of request)) in
    let (hosts, to_hosts) =
      some_denied_iff (map py.lower (string_list lease.allow_hosts))
        (λ host. contains (map py.lower (string_list lease.allow_hosts)) (py.lower host))
        (hosts_of py (collect_fields py url_keys (arguments_of request))) in
    let (commands, to_commands) =
      some_denied_iff (string_list lease.allow_commands)
        (λ c.
          contains (string_list lease.allow_commands) (py.command_name c)
          || contains (string_list lease.allow_commands) c)
        (collect_fields py command_keys (arguments_of request)) in
    (
      λ h. record {
        tool = (tool, e, ground arith);
        paths = paths (ground arith);
        hosts = hosts (ground arith);
        commands = commands (ground arith);
      },
      λ h.
          let (t, held, allowed) = h.tool in
          let same : tool ≡ t = cc (e, held) in
          simp (same, allowed, to_paths h.paths, to_hosts h.hosts, to_commands h.commands),
    )

call_iff :
    (py : Platform) (lease : Lease) (request : Fields)
    → (tool_denial py lease (tool_of request) (arguments_of request) ≡ none)
      ↔ IsAllowedCall py lease request
call_iff py lease request = call_of_tool py lease request (tool_of request) refl

-- A lease refuses a tool call with no reason exactly when it is neither revoked nor over, has uses
-- left, is used by an identity that it names, and allows the tool, and each path, host and command
-- among the arguments.
pub denial-IsPermitted :
    (py : Platform) (now : ℕ) (lease : Lease) (uses : ℕ) (request : Fields)
    (auth : Option AuthContext)
    → (denial py now lease uses request auth ≡ none)
      ↔ (IsUsable py now lease uses auth × IsAllowedCall py lease request)
unfolding denial
denial-IsPermitted py now lease uses request auth = (
  λ h. (
    (catalog_iff py now lease uses auth).0 (ground arith),
    (call_iff py lease request).0 (ground arith),
  ),
  λ h. simp ((catalog_iff py now lease uses auth).1 h.0, (call_iff py lease request).1 h.1),
)
