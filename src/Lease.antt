-- ===== src/Lease.antt =====
-- snulbug/leases.py: task-scoped leases for MCP tool calls. This file has the data of the lease
-- store and what the module takes from Python's library; the operations are the modules below.
pub mod Auth
pub mod Arguments
pub mod Denial
pub mod View
pub mod Store
pub mod Change
pub mod Renew
pub mod Enforce
pub mod Permits
pub mod Found
pub mod Budget
pub mod Preview
pub mod Revoke
pub mod RenewBounds
pub mod RenewTokens
pub mod Create
pub mod Coverage
pub mod Covered
pub mod Cleanup
pub mod Sample
mod RenewTests
mod Tests
use Prim.Native.String
use snulbug.Base.{
  ℕ, ◌+◌, ◌-◌, ◌*◌, ◌%◌, ◌≡◌, String, Bool, true, false, not, ◌&&◌, Option, none, some, List, [],
  ◌∷◌, ◌++◌, leb, ltb, contains, is_some, or_else, truthy, keep, ◌==◌, if◌then◌else◌,
}

-- Times and durations are microseconds; a stored time is a text in whole seconds.
abbrev pub second : ℕ
second = 1000000

-- What the module calls: times as ISO texts (`_format_time`, `_parse_time`), hashes and MACs,
-- methods of `str`, and the parsers of paths, URLs and command lines.
pub record Platform : Type 0 where
  pub format_time : ℕ → String
  pub parse_time : String → Option ℕ
  -- `_format_time` drops the microseconds, and what it writes is read back
  pub parse-format : (t : ℕ) → parse_time (format_time t) ≡ some (t - t % second)
  pub format_time-truthy : (t : ℕ) → truthy (some (format_time t)) ≡ some (format_time t)
  pub sha256 : String → String
  pub hmac_sha256 : String → String → String
  pub str_of_ℕ : ℕ → String
  pub lower : String → String
  pub strip : String → String
  pub replace : String → String → String → String
  pub rstrip : String → String → String
  pub normpath : String → String
  -- the host of a URL that has a scheme
  pub url_host : String → Option String
  -- `_command_name`: the name of the program of a command line
  pub command_name : String → String

pub record Renewal : Type 0 where
  pub authorization_expires_at : Option String
  pub lease_ttl : ℕ
  pub token_hash : String
  pub bearer_hash : Option String
  pub generation : ℕ
  pub renewal_count : ℕ
  pub last_renewed_at : Option String
  pub revoked_at : Option String
  pub previous_token_hash : Option String
  pub previous_token_expires_at : Option String

pub record Invite : Type 0 where
  pub id : Option String
  pub recipient : Option String
  pub client_name : Option String
  pub capabilities : List String

-- A lease as `create_lease` writes it; a key that may be missing, or hold None, is an Option.
pub record Lease : Type 0 where
  pub id : String
  pub task : String
  pub created_at : String
  pub expires_at : Option String
  pub revoked_at : Option String
  pub reactivated_at : Option String
  pub token_hash : String
  pub capabilities : List String
  pub allow_tools : List String
  pub allow_paths : List String
  pub allow_hosts : List String
  pub allow_commands : List String
  pub allow_subjects : List String
  pub allow_issuers : List String
  pub allow_tenants : List String
  pub allow_client_ids : List String
  pub allow_groups : List String
  pub allow_auth_profiles : List String
  pub max_calls : Option ℕ
  pub use_count : ℕ
  pub last_used_at : Option String
  pub last_tool : Option String
  pub invite : Option Invite
  pub renewal : Option Renewal

-- The lease file: missing, no JSON object with a list of leases, or a store.
pub data File : Type 0 where
  absent : File
  unreadable : File
  holds : List Lease → File

-- The identity that the gateway authenticated.
pub record AuthContext : Type 0 where
  pub enabled : Bool
  pub subject : Option String
  pub issuer : Option String
  pub tenant : Option String
  pub client_id : Option String
  pub groups : List String
  pub profile_id : Option String

-- The reason codes of a refused request or renewal.
pub data Reason : Type 0 where
  revoked expired max_calls_exceeded : Reason
  auth_missing subject_not_allowed issuer_not_allowed tenant_not_allowed : Reason
  client_id_not_allowed group_not_allowed auth_profile_not_allowed : Reason
  tool_not_allowed path_not_allowed host_not_allowed command_not_allowed : Reason
  missing invalid selection_invalid selection_conflict store_missing store_invalid : Reason
  renewal_invalid renewal_expired renewal_auth_required renewal_capability_removed : Reason

-- The exceptions of the operations.
pub data LeaseError : Type 0 where
  empty_task no_tools bad_max_calls bad_ttl : LeaseError
  not_invited renewal_too_short renewal_unbound : LeaseError
  is_renewable not_found file_missing file_invalid : LeaseError

-- `value or None` of a stored time, and whether a value is set
abbrev pub is_set : Option String → Bool
is_set o = is_some (truthy o)

-- `_string_list` of a list of texts: the empty ones are dropped
abbrev pub string_list : List String → List String
string_list = keep (λ item. not (item == ""))

-- `_token_hash`
unfoldable pub token_hash : Platform → String → String
token_hash py token = String.◌++◌ "sha256:" (py.sha256 token)

-- `_parse_time` of a value that may be missing
unfoldable pub parse_time : Platform → Option String → Option ℕ
parse_time py none = none
parse_time py (some t) = py.parse_time t

-- `_dedupe`, with the items seen so far
unfoldable pub dedupe_from : List String → List String → List String
dedupe_from seen [] = []
dedupe_from seen (item ∷ items) =
    let skipped = dedupe_from seen items in
    let taken = item ∷ dedupe_from (item ∷ seen) items in
    if not (item == "") && not (contains seen item) then taken else skipped

unfoldable pub dedupe : List String → List String
unfolding dedupe_from
dedupe = dedupe_from []

-- whether `expires_at` is a time after `now`
unfoldable pub is_after : Platform → ℕ → Option String → Bool
unfolding parse_time
is_after py now stamp = elim (parse_time py stamp) [ none ↦ false | some t ↦ ltb now t ]
