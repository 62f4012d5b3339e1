-- ===== src/Lease/Coverage.antt =====
-- The previews of snulbug/leases.py that change nothing: whether a presented lease may list tools,
-- and which leases of a store cover a tool call. Of the metadata they keep the decision.
use Prim.Native.String.{count}
use snulbug.Base.{
  ℕ, ◌+◌, String, Bool, true, false, not, ◌||◌, Option, none, some, List, [], ◌∷◌, keep, ltb,
  is_some, ◌==◌, if◌then◌else◌, or_else,
}
use snulbug.Base.Dict
use snulbug.Base.Dict.{Dict}
use snulbug.Base.Json.{Fields}
use snulbug.Lease.{Platform, Lease, File, absent, unreadable, holds, AuthContext, Reason, missing}
use snulbug.Lease.Denial.{catalog_denial, denial}
use snulbug.Lease.Enforce.{
  Scope, Selection, unselected, selected, not_trusted, LeasePolicyConfig, Resolved, skipped,
  refused, found, resolve, presented, is_tool_call,
}

-- `select_mcp_lease`, with the check of `TrustedLeaseSelection`; `has_space` tells of white space
-- and control characters
abbrev may_select : String → Selection → Bool
may_select lease_id unselected = true
may_select lease_id (selected id) = id == lease_id
may_select lease_id not_trusted = false

unfoldable pub select_lease : (has_space : String → Bool) → Scope → String → Option Scope
select_lease has_space scope lease_id =
    if lease_id == "" || ltb 256 (count lease_id) || has_space lease_id
    then none
    else if may_select lease_id scope.selection
    then some (record scope { selection = selected lease_id })
    else none

-- What a catalog preview says: nothing, that the catalog is blocked, or which lease projects it.
pub data Catalog : Type 0 where
  unasked : Catalog
  blocked : Reason → Catalog
  allowed : Lease → Catalog

abbrev pub judged : Lease → Option Reason → Catalog
judged lease (some reason) = blocked reason
judged lease none = allowed lease

unfoldable pub catalog_of : Platform → ℕ → Bool → Option AuthContext → Resolved → Catalog
catalog_of py now required auth skipped = if required then blocked missing else unasked
catalog_of py now required auth (refused reason) = blocked reason
catalog_of py now required auth (found lease here leases) =
    judged lease (catalog_denial py now lease lease.use_count auth)

-- `preview_mcp_lease_catalog`
unfoldable pub preview_catalog : Platform → ℕ → LeasePolicyConfig → Scope → File → Catalog
unfolding catalog_of
preview_catalog py now config scope file =
    if config.has_file
    then catalog_of py now config.required scope.auth
        (resolve py now scope.selection (presented py config.header scope.headers) file)
    else unasked

-- the uses that a simulation has counted for a lease
abbrev pub extra : Option (Dict ℕ) → String → ℕ
extra none id = 0
extra (some consumption) id = or_else (Dict.get consumption id) 0

unfoldable pub coverage_denial :
    Platform → ℕ → Option (Dict ℕ) → Fields → Option AuthContext → Lease → Option Reason
coverage_denial py now consumption request auth lease =
    denial py now lease (lease.use_count + extra consumption lease.id) request auth

-- The leases that cover a call, and the reasons of the others.
unfoldable pub matches : (Lease → Option Reason) → List Lease → List Lease
matches why = keep (λ lease. not (is_some (why lease)))

unfoldable pub denials : (Lease → Option Reason) → List Lease → List (String × Reason)
denials why [] = []
denials why (lease ∷ leases) =
    let rest = denials why leases in
    elim (why lease) [ none ↦ rest | some reason ↦ (lease.id, reason) ∷ rest ]

-- What a coverage preview says.
pub data Coverage : Type 0 where
  not_tool_call no_store bad_store : Coverage
  covered : List Lease → Coverage
  uncovered : List (String × Reason) → Coverage

-- the first lease that covers the call is used once more
unfoldable pub consume_match : Option (Dict ℕ) → List Lease → Option (Dict ℕ)
consume_match (some consumption) (lease ∷ _) =
    if lease.id == ""
    then some consumption
    else some (Dict.put consumption lease.id (extra (some consumption) lease.id + 1))
consume_match consumption _ = consumption

abbrev pub conclusion : List Lease → List (String × Reason) → Coverage
conclusion [] reasons = uncovered reasons
conclusion (lease ∷ leases) reasons = covered (lease ∷ leases)

unfoldable pub cover_store :
    (Lease → Option Reason) → Option (Dict ℕ) → List Lease → Coverage × Option (Dict ℕ)
unfolding matches denials consume_match
cover_store why consumption leases = (
  conclusion (matches why leases) (denials why leases),
  consume_match consumption (matches why leases),
)

unfoldable pub cover_file :
    (Lease → Option Reason) → Option (Dict ℕ) → File → Coverage × Option (Dict ℕ)
unfolding cover_store
cover_file why consumption absent = (no_store, consumption)
cover_file why consumption unreadable = (bad_store, consumption)
cover_file why consumption (holds leases) = cover_store why consumption leases

-- `preview_mcp_lease_coverage`
unfoldable pub preview_coverage :
    Platform → ℕ → Fields → Option (Dict ℕ) → Option AuthContext → File → Coverage × Option (Dict ℕ)
unfolding cover_file coverage_denial
preview_coverage py now request consumption auth file =
    if is_tool_call request
    then cover_file (coverage_denial py now consumption request auth) consumption file
    else (not_tool_call, consumption)
