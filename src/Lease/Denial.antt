-- ===== src/Lease/Denial.antt =====
-- snulbug/leases.py: why a lease refuses a tool call, or the listing of the tools.
use snulbug.Base.{ℕ, String, Bool, false, not, Option, none, some, leb, if◌then◌else◌}
use snulbug.Base.Json
use snulbug.Base.Json.{Json, Fields, mapping, as_str}
use snulbug.Lease.{
  Platform, Lease, AuthContext, Reason, revoked, expired, max_calls_exceeded, tool_not_allowed,
  path_not_allowed, host_not_allowed, command_not_allowed, is_set, is_after,
}
use snulbug.Lease.Auth.{auth_denial}
use snulbug.Lease.Arguments.{
  path_keys, url_keys, command_keys, collect_fields, hosts_of, tool_allowed, paths_denied,
  hosts_denied, commands_denied,
}

-- `isinstance(max_calls, int) and use_count >= max_calls`
abbrev pub is_spent : Option ℕ → ℕ → Bool
is_spent none use_count = false
is_spent (some max_calls) use_count = leb max_calls use_count

-- `_lease_catalog_denial_reason`, and the first half of `_lease_denial_reason`
unfoldable pub catalog_denial : Platform → ℕ → Lease → ℕ → Option AuthContext → Option Reason
catalog_denial py now lease use_count auth =
    if is_set lease.revoked_at
    then some revoked
    else if not (is_after py now lease.expires_at)
    then some expired
    else if is_spent lease.max_calls use_count
    then some max_calls_exceeded
    else auth_denial lease auth

-- the second half of `_lease_denial_reason`: the arguments of the call
unfoldable pub arguments_denial : Platform → Lease → Fields → Option Reason
arguments_denial py lease arguments =
    if paths_denied py lease.allow_paths (collect_fields py path_keys arguments)
    then some path_not_allowed
    else if hosts_denied py lease.allow_hosts (hosts_of py (collect_fields py url_keys arguments))
    then some host_not_allowed
    else if commands_denied py lease.allow_commands (collect_fields py command_keys arguments)
    then some command_not_allowed
    else none

unfoldable pub tool_denial : Platform → Lease → Option String → Fields → Option Reason
unfolding arguments_denial
tool_denial py lease none arguments = some tool_not_allowed
tool_denial py lease (some tool) arguments =
    if tool_allowed lease.allow_tools tool
    then arguments_denial py lease arguments
    else some tool_not_allowed

-- a check that finds no reason hands over to the next
abbrev pub or_reason : Option Reason → Option Reason → Option Reason
or_reason (some reason) next = some reason
or_reason none next = next

-- the tool and the arguments of a `tools/call` request
abbrev pub params_of : Fields → Fields
params_of request = mapping (Json.get request "params")

abbrev pub tool_of : Fields → Option String
tool_of request = as_str (Json.get (params_of request) "name")

abbrev pub arguments_of : Fields → Fields
arguments_of request = mapping (Json.get (params_of request) "arguments")

-- `_lease_denial_reason`, at a given count of uses
unfoldable pub denial : Platform → ℕ → Lease → ℕ → Fields → Option AuthContext → Option Reason
unfolding catalog_denial tool_denial
denial py now lease use_count request auth =
    or_reason (catalog_denial py now lease use_count auth)
      (tool_denial py lease (tool_of request) (arguments_of request))
