-- ===== src/Lease/Budget.antt =====
-- How often the leases of snulbug/leases.py are used: each allowed tool call is one use of one
-- lease, and no lease is used more often than `max_calls` says.
use snulbug.Base.{
  ℕ, ◌+◌, ◌≤◌, ◌≡◌, refl, String, Bool, true, false, Option, none, some, List, [], ◌∷◌, arith, find,
  All, Bool-cases, inl, inr, if◌then◌else◌,
}
use snulbug.Base.Json.{Fields}
use snulbug.Lease.{Platform, Lease, AuthContext, File, absent, unreadable, holds}
use snulbug.Lease.Denial.{is_spent, catalog_denial, denial, tool_of}
use snulbug.Lease.Change.{update_first}
use snulbug.Lease.Enforce.{
  Scope, LeasePolicyConfig, Resolved, skipped, refused, found, Decision, is_tool_call,
  request_denial, decide, conclude, record_use, evaluate, enforce, presented,
}
use snulbug.Lease.Found.{IsFound, resolve-IsFound}

abbrev pub InBudget : Lease → Type 0
InBudget lease = (m : ℕ) → lease.max_calls ≡ some m → lease.use_count ≤ m

abbrev pub total_uses : List Lease → ℕ
total_uses [] = 0
total_uses (l ∷ ls) = l.use_count + total_uses ls

-- An update of the found lease that uses it once more.
total_uses-update :
    (here : Lease → Bool) (change : Lease → Lease) (ls : List Lease) (l : Lease)
    → ((x : Lease) → (change x).use_count ≡ x.use_count + 1)
    → find here ls ≡ some l
    → total_uses (update_first here change ls) ≡ total_uses ls + 1
total_uses-update here change [] l c h = cc
total_uses-update here change (x ∷ ls) l c h = elim (Bool-cases (here x)) [
  | inl e ↦ rw e (omega (arith, c x))
  | inr e ↦ rw e (omega (arith, total_uses-update here change ls l c (rw e at h)))
]

pub All-update {κ} :
    (P : Lease → Type κ) (here : Lease → Bool) (change : Lease → Lease) (ls : List Lease)
    (l : Lease)
    → find here ls ≡ some l
    → P (change l)
    → All P ls
    → All P (update_first here change ls)
All-update P here change [] l h p a = cc
All-update P here change (x ∷ ls) l h p a = elim (Bool-cases (here x)) [
  | inl e ↦ rw e (let q : x ≡ l = ground arith in rw q (p, a.1))
  | inr e ↦ rw e (a.0, All-update P here change ls l (rw e at h) p a.1)
]

record_use-InBudget :
    (py : Platform) (now : ℕ) (tool : Option String) (l : Lease)
    → is_spent l.max_calls l.use_count ≡ false
    → InBudget (record_use py now tool l)
unfolding record_use
record_use-InBudget py now tool l h m e = ground arith

-- an allowed request found uses left
not_spent :
    (py : Platform) (now : ℕ) (l : Lease) (request : Fields) (auth : Option AuthContext)
    → request_denial py now l request auth ≡ none
    → is_spent l.max_calls l.use_count ≡ false
unfolding request_denial denial catalog_denial
not_spent py now l request auth h = ground arith

-- What a decision does to a store: a use is counted exactly when a tool call is allowed.
abbrev pub used : Fields → Decision → ℕ
used request none = if is_tool_call request then 1 else 0
used request (some reason) = 0

-- The uses of the store after a decision, and the budgets of its leases.
abbrev pub Accounts : List Lease → ℕ → File → Type 0
Accounts ls n (holds ls') = (total_uses ls' ≡ total_uses ls + n) × All InBudget ls'
Accounts ls n _ = ⊥

allowed-Accounts :
    (py : Platform) (now : ℕ) (request : Fields) (ls : List Lease) (l : Lease) (here : Lease → Bool)
    → find here ls ≡ some l
    → is_spent l.max_calls l.use_count ≡ false
    → All InBudget ls
    → Accounts ls 1 (holds (update_first here (record_use py now (tool_of request)) ls))
allowed-Accounts py now request ls l here f free a = (
  total_uses-update here (record_use py now (tool_of request)) ls l (unfold record_use in λ x. refl)
      f,
  All-update InBudget here (record_use py now (tool_of request)) ls l f
      (record_use-InBudget py now (tool_of request) l free) a,
)

conclude-Accounts :
    (py : Platform) (now : ℕ) (request : Fields) (auth : Option AuthContext) (ls : List Lease)
    (l : Lease) (here : Lease → Bool) (d : Decision)
    → request_denial py now l request auth ≡ d
    → find here ls ≡ some l
    → All InBudget ls
    → Accounts ls
        (used request (conclude py now true request (holds ls) here ls d).0)
        (conclude py now true request (holds ls) here ls d).1
unfolding conclude
conclude-Accounts py now request auth ls l here (some reason) e f a = (omega arith, a)
conclude-Accounts py now request auth ls l here none e f a =
    elim (Bool-cases (is_tool_call request)) [
      | inl call ↦
          simp call
            (allowed-Accounts py now request ls l here f (not_spent py now l request auth e) a)
      | inr other ↦ simp other (omega arith, a)
    ]

decide-Accounts :
    (py : Platform) (now : ℕ) (request : Fields) (auth : Option AuthContext) (ls : List Lease)
    (r : Resolved)
    → IsFound (holds ls) r
    → All InBudget ls
    → Accounts ls
        (used request (decide py now true true request auth (holds ls) r).0)
        (decide py now true true request auth (holds ls) r).1
unfolding decide
decide-Accounts py now request auth ls skipped f a = elim (Bool-cases (is_tool_call request)) [
  | inl call ↦ simp call (omega arith, a)
  | inr other ↦ simp other (omega arith, a)
]
decide-Accounts py now request auth ls (refused reason) f a = (omega arith, a)
decide-Accounts py now request auth ls (found l here leases) f a =
    let same : ls ≡ leases = cc (f.0) in
    rw (← same) (conclude-Accounts py now request auth ls l here _ refl (rw (← same) at (f.1)) a)

-- A request, with the time and the scope at which it arrives.
pub record Event : Type 0 where
  pub now : ℕ
  pub request : Fields
  pub scope : Scope

-- The tool calls that a gateway allows, and the file at the end.
pub serve : Platform → LeasePolicyConfig → List Event → File → ℕ × File
serve py config [] file = (0, file)
serve py config (e ∷ es) file =
    let (decision, file') = enforce py e.now config e.request e.scope file in
    let (calls, file'') = serve py config es file' in (used e.request decision + calls, file'')

enforce-Accounts :
    (py : Platform) (config : LeasePolicyConfig) (e : Event) (ls : List Lease)
    → config.has_file ≡ true
    → config.required ≡ true
    → All InBudget ls
    → Accounts ls
        (used e.request (enforce py e.now config e.request e.scope (holds ls)).0)
        (enforce py e.now config e.request e.scope (holds ls)).1
unfolding enforce evaluate
enforce-Accounts py config e ls has required a =
    simp (has, required)
      (decide-Accounts py e.now e.request e.scope.auth ls _
        (resolve-IsFound py e.now e.scope.selection (presented py config.header e.scope.headers)
          (holds ls))
        a)

serve-step :
    (py : Platform) (config : LeasePolicyConfig) (es : List Event) (ls : List Lease) (n : ℕ)
    (file : File)
    → ((ls' : List Lease)
        → All InBudget ls'
        → Accounts ls' (serve py config es (holds ls')).0 (serve py config es (holds ls')).1)
    → Accounts ls n file
    → Accounts ls (n + (serve py config es file).0) (serve py config es file).1
serve-step py config es ls n absent ih a = absurd a
serve-step py config es ls n unreadable ih a = absurd a
serve-step py config es ls n (holds ls') ih a =
    extend ls ls' n _ (serve py config es (holds ls')).1 a.0 (ih ls' a.1)
  where
    extend :
        (ls ls' : List Lease) (n k : ℕ) (file : File)
        → total_uses ls' ≡ total_uses ls + n
        → Accounts ls' k file
        → Accounts ls (n + k) file
    extend ls ls' n k absent e b = absurd b
    extend ls ls' n k unreadable e b = absurd b
    extend ls ls' n k (holds ls'') e b = (omega (arith, b.0), b.1)

-- Where leases are required, any sequence of requests on a store whose leases are within budget
-- leaves a store whose leases are within budget, and the uses that its leases have counted are
-- those from before and one for each tool call that was allowed.
pub serve-Accounts :
    (py : Platform) (config : LeasePolicyConfig) (es : List Event) (ls : List Lease)
    → config.has_file ≡ true
    → config.required ≡ true
    → All InBudget ls
    → Accounts ls (serve py config es (holds ls)).0 (serve py config es (holds ls)).1
unfolding serve
serve-Accounts py config [] ls has required a = (omega arith, a)
serve-Accounts py config (e ∷ es) ls has required a =
    serve-step py config es ls _ (enforce py e.now config e.request e.scope (holds ls)).1
      (λ ls' b. serve-Accounts py config es ls' has required b)
      (enforce-Accounts py config e ls has required a)
