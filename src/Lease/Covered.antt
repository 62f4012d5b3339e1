-- ===== src/Lease/Covered.antt =====
-- What the previews of snulbug/leases.py tell of the calls that the leases permit.
use snulbug.Base.{
  ℕ, ◌+◌, ◌≡◌, refl, All, String, Bool, true, Option, none, some, List, [], ◌∷◌, arith,
  Option-cases, inl, inr,
}
use snulbug.Base.Dict.{Dict}
use snulbug.Base.Json.{Fields}
use snulbug.Lease.{Platform, Lease, File, holds, AuthContext, Reason}
use snulbug.Lease.Permits.{IsUsable, IsAllowedCall}
use snulbug.Lease.Permits.Exact.{denial-IsPermitted}
use snulbug.Lease.Arguments.{tool_allowed}
use snulbug.Lease.Denial.{catalog_denial, denial, tool_denial, tool_of, arguments_of}
use snulbug.Lease.Enforce.{
  Scope, LeasePolicyConfig, Resolved, skipped, refused, found, resolve, presented, is_tool_call,
  request_denial, decide, conclude, evaluate,
}
use snulbug.Lease.Coverage.{
  allowed, catalog_of, preview_catalog, extra, coverage_denial, matches, denials, covered,
  conclusion, preview_coverage,
}

not_denied :
    (py : Platform) (now : ℕ) (consume : Bool) (request : Fields) (file : File)
    (here : Lease → Bool) (leases : List Lease) (d : Option Reason)
    → (conclude py now consume request file here leases d).0 ≡ none
    → d ≡ none
unfolding conclude
not_denied py now consume request file here leases none h = refl
not_denied py now consume request file here leases (some reason) h = h

tool_not_denied :
    (py : Platform) (lease : Lease) (arguments : Fields) (tool : Option String)
    → tool_denial py lease tool arguments ≡ none
    → (t : String) × (tool ≡ some t) × (tool_allowed lease.allow_tools t ≡ true)
unfolding tool_denial
tool_not_denied py lease arguments none h = absurd (ground arith)
tool_not_denied py lease arguments (some t) h = (t, refl, ground arith)

granted_parts :
    (py : Platform) (now : ℕ) (lease : Lease) (request : Fields) (auth : Option AuthContext)
    → is_tool_call request ≡ true
    → request_denial py now lease request auth ≡ none
    → (catalog_denial py now lease lease.use_count auth ≡ none)
      × (tool_denial py lease (tool_of request) (arguments_of request) ≡ none)
unfolding request_denial denial
granted_parts py now lease request auth calls h = (ground arith, ground arith)

decided :
    (py : Platform) (now : ℕ) (consume : Bool) (request : Fields) (auth : Option AuthContext)
    (file : File) (r : Resolved)
    → is_tool_call request ≡ true
    → (decide py now consume true request auth file r).0 ≡ none
    → (lease : Lease) × (tool : String) × (catalog_of py now true auth r ≡ allowed lease)
      × (tool_of request ≡ some tool)
      × (tool_allowed lease.allow_tools tool ≡ true)
unfolding decide catalog_of
decided py now consume request auth file skipped calls e = absurd (ground arith)
decided py now consume request auth file (refused reason) calls e = absurd (ground arith)
decided py now consume request auth file (found lease here leases) calls e =
    let (usable, callable) =
      granted_parts py now lease request auth calls
        (not_denied py now consume request file here leases _ e) in
    let (tool, named, allows) = tool_not_denied py lease _ (tool_of request) callable in
    (lease, tool, rw usable refl, named, allows)

-- A preview or an enforcement that allows a tool call was of a lease whose catalog is allowed at
-- the time, and the called tool is one that the lease allows, where leases are required.
catalog-evaluate :
    (py : Platform) (now : ℕ) (config : LeasePolicyConfig) (consume : Bool) (request : Fields)
    (scope : Scope) (file : File)
    → config.has_file ≡ true
    → config.required ≡ true
    → is_tool_call request ≡ true
    → (evaluate py now config consume request scope file).0 ≡ none
    → (lease : Lease) × (tool : String) × (preview_catalog py now config scope file ≡ allowed lease)
      × (tool_of request ≡ some tool)
      × (tool_allowed lease.allow_tools tool ≡ true)
unfolding evaluate preview_catalog
catalog-evaluate py now config consume request scope file has required calls e =
    simp (has, required)
      (decided py now consume request scope.auth file
        (resolve py now scope.selection (presented py config.header scope.headers) file) calls
        (simp (has, required) at e))

All-matches :
    (P : Lease → Type 0) (why : Lease → Option Reason) (leases : List Lease)
    → ((l : Lease) → why l ≡ none → P l)
    → All P (matches why leases)
unfolding matches
All-matches P why [] permits = tt
All-matches P why (l ∷ leases) permits = elim (Option-cases (why l)) [
  | inl e ↦ rw e (permits l e, All-matches P why leases permits)
  | inr (reason, e) ↦ rw e (All-matches P why leases permits)
]

covered-matches :
    (ms ms' : List Lease) (reasons : List (String × Reason))
    → conclusion ms reasons ≡ covered ms'
    → ms ≡ ms'
covered-matches [] ms' reasons h = absurd (ground arith)
covered-matches (m ∷ ms) ms' reasons h = cc

-- Every lease that a coverage preview names permits the call, at the uses that it has counted and
-- those that the simulation has.
preview_coverage-IsUsable :
    (py : Platform) (now : ℕ) (request : Fields) (consumption : Option (Dict ℕ))
    (auth : Option AuthContext) (leases ms : List Lease)
    → is_tool_call request ≡ true
    → (preview_coverage py now request consumption auth (holds leases)).0 ≡ covered ms
    → All
        (λ l.
          IsUsable py now l (l.use_count + extra consumption l.id) auth
          × IsAllowedCall py l request)
        ms
unfolding preview_coverage coverage_denial
preview_coverage-IsUsable py now request consumption auth leases ms calls h =
    let why = coverage_denial py now consumption request auth in
    let same : matches why leases ≡ ms =
      covered-matches (matches why leases) ms (denials why leases) (simp calls at h) in
    rw (← same) (
      All-matches _ why leases λ l e.
        (denial-IsPermitted py now l (l.use_count + extra consumption l.id) request auth).0 e)
