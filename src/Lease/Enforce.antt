-- ===== src/Lease/Enforce.antt =====
-- snulbug/leases.py: the lease that a request presents, and the decision on the request. A call is
-- one transaction on the lease file, and reads the clock once.
use snulbug.Base.{
  ℕ, ◌+◌, String, Bool, true, false, ◌&&◌, Option, none, some, List, [], ◌∷◌, find, keep, ◌==◌,
  if◌then◌else◌,
}
use snulbug.Base.Json
use snulbug.Base.Json.{Fields, as_str}
use snulbug.Lease.{
  Platform, Lease, File, absent, unreadable, holds, AuthContext, Reason, missing, invalid,
  selection_invalid, selection_conflict, store_missing, store_invalid, token_hash,
}
use snulbug.Lease.Denial.{catalog_denial, denial, tool_of}
use snulbug.Lease.View.{owns_token}
use snulbug.Lease.Change.{update_first, has_id}

-- What in-process code has put under the trusted key of the request's scope.
pub data Selection : Type 0 where
  unselected : Selection
  selected : String → Selection
  not_trusted : Selection

pub record Scope : Type 0 where
  pub selection : Selection
  pub headers : List (String × String)
  pub auth : Option AuthContext

pub record LeasePolicyConfig : Type 0 where
  pub has_file : Bool
  pub required : Bool
  pub header : String

-- the values of the lease header
unfoldable pub presented : Platform → String → List (String × String) → List String
presented py header [] = []
presented py header ((name, value) ∷ headers) =
    let rest = presented py header headers in
    if py.lower name == py.lower header then py.strip value ∷ rest else rest

-- A request presents no lease, or is refused, or has a lease, with the test that finds it in the
-- store.
pub data Resolved : Type 0 where
  skipped : Resolved
  refused : Reason → Resolved
  found : Lease → (Lease → Bool) → List Lease → Resolved

abbrev pub no_lease : (Lease → Bool) → List Lease → Option Lease → Resolved
no_lease here leases none = refused invalid
no_lease here leases (some lease) = found lease here leases

-- the header alone selects a lease by its token
unfoldable pub by_token : Platform → ℕ → String → List Lease → Resolved
unfolding owns_token token_hash
by_token py now token leases =
    let here = owns_token py now (token_hash py token) in no_lease here leases (find here leases)

-- The token must belong to the selected lease. That lease alone has its id, so it is the same
-- lease if it has the same id.
abbrev pub same_lease : String → Option Lease → Lease → List Lease → Resolved
same_lease id none lease leases = refused selection_conflict
same_lease id (some other) lease leases =
    if other.id == id then found lease (has_id id) leases else refused selection_conflict

-- the leases with the selected id, of which there must be one
unfoldable pub of_matches : Platform → ℕ → String → List String → List Lease → List Lease → Resolved
unfolding owns_token token_hash
of_matches py now id values leases [] = refused invalid
of_matches py now id values leases (lease ∷ _ ∷ _) = refused invalid
of_matches py now id [] leases (lease ∷ []) = found lease (has_id id) leases
of_matches py now id (token ∷ _) leases (lease ∷ []) =
    same_lease id (find (owns_token py now (token_hash py token)) leases) lease leases

-- a trusted selection names a lease by its id
unfoldable pub by_id : Platform → ℕ → String → List String → List Lease → Resolved
unfolding of_matches
by_id py now id values leases = of_matches py now id values leases (keep (has_id id) leases)

unfoldable pub select : Platform → ℕ → Selection → List String → List Lease → Resolved
unfolding by_token by_id
select py now (selected id) values leases = by_id py now id values leases
select py now other (token ∷ values) leases = by_token py now token leases
select py now other [] leases = refused invalid

abbrev pub on_store : File → (List Lease → Resolved) → Resolved
on_store absent f = refused store_missing
on_store unreadable f = refused store_invalid
on_store (holds leases) f = f leases

-- `_resolve_presented_lease`
unfoldable pub resolve : Platform → ℕ → Selection → List String → File → Resolved
unfolding select
resolve py now not_trusted values file = refused selection_invalid
resolve py now selection (value ∷ _ ∷ _) file = refused selection_conflict
resolve py now selection (value ∷ []) file =
    if value == "" then refused invalid else on_store file (select py now selection (value ∷ []))
resolve py now unselected [] file = skipped
resolve py now (selected id) [] file = on_store file (select py now (selected id) [])

-- `_record_lease_use`
unfoldable pub record_use : Platform → ℕ → Option String → Lease → Lease
record_use py now tool lease = record lease {
  use_count = lease.use_count + 1;
  last_used_at = some (py.format_time now);
  last_tool = tool;
}

-- A decision: the reason if the request is refused.
abbrev pub Decision : Type 0
Decision = Option Reason

abbrev pub is_tool_call : Fields → Bool
is_tool_call request = elim (as_str (Json.get request "method")) [
  | none ↦ false
  | some method ↦ method == "tools/call"
]

-- why a lease refuses a request
unfoldable pub request_denial : Platform → ℕ → Lease → Fields → Option AuthContext → Decision
request_denial py now lease request auth =
    if is_tool_call request
    then denial py now lease lease.use_count request auth
    else catalog_denial py now lease lease.use_count auth

-- the end of the evaluation: an allowed tool call is recorded, where it consumes
unfoldable pub conclude :
    Platform → ℕ → Bool → Fields → File → (Lease → Bool) → List Lease → Decision → Decision × File
unfolding record_use
conclude py now consume request file here leases (some reason) = (some reason, file)
conclude py now consume request file here leases none =
    if consume && is_tool_call request
    then (none, holds (update_first here (record_use py now (tool_of request)) leases))
    else (none, file)

unfoldable pub decide :
    Platform → ℕ → Bool → Bool → Fields → Option AuthContext → File → Resolved → Decision × File
unfolding conclude
decide py now consume required request auth file skipped =
    (if required && is_tool_call request then some missing else none, file)
decide py now consume required request auth file (refused reason) = (some reason, file)
decide py now consume required request auth file (found lease here leases) =
    conclude py now consume request file here leases (request_denial py now lease request auth)

-- `_evaluate_locked_lease_policy`
unfoldable pub evaluate :
    Platform → ℕ → LeasePolicyConfig → Bool → Fields → Scope → File → Decision × File
unfolding resolve decide presented
evaluate py now config consume request scope file =
    if config.has_file
    then decide py now consume config.required request scope.auth file
        (resolve py now scope.selection (presented py config.header scope.headers) file)
    else (none, file)

-- `enforce_mcp_lease_policy` and `preview_mcp_lease_policy`
unfoldable pub enforce : Platform → ℕ → LeasePolicyConfig → Fields → Scope → File → Decision × File
enforce py now config request scope file = evaluate py now config true request scope file

unfoldable pub preview : Platform → ℕ → LeasePolicyConfig → Fields → Scope → File → Decision × File
preview py now config request scope file = evaluate py now config false request scope file
