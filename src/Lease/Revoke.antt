-- ===== src/Lease/Revoke.antt =====
-- What a revocation in snulbug/leases.py does: a revoked lease serves no request.
use snulbug.Base.{
  ℕ, ◌≡◌, String, Bool, true, false, Option, some, List, [], ◌∷◌, arith, find, All, ◌==◌, eq_iff,
  Bool-cases, inl, inr,
}
use snulbug.Base.Json.{Fields}
use snulbug.Base.Result.{ok}
use snulbug.Lease.{Platform, Lease, AuthContext, revoked, File, holds, is_set}
use snulbug.Lease.Denial.{catalog_denial, denial}
use snulbug.Lease.Change.{update_first, has_id, mark_revoked, revoke_lease}
use snulbug.Lease.Enforce.{
  Scope, LeasePolicyConfig, Resolved, found, request_denial, resolve, decide, conclude, evaluate,
  presented,
}
use snulbug.Lease.Found.{IsFound, resolve-IsFound}

-- No two leases of a store have one id.
abbrev pub HasOwnIds : List Lease → Type 0
HasOwnIds [] = Unit
HasOwnIds (l ∷ ls) = All (λ k. (k.id == l.id) ≡ false) ls × HasOwnIds ls

-- Every lease with an id is revoked.
abbrev pub AreRevoked : String → List Lease → Type 0
AreRevoked id = All (λ l. has_id id l ≡ true → is_set l.revoked_at ≡ true)

mark_revoked-is_set :
    (py : Platform) (now : ℕ) (l : Lease)
    → is_set (mark_revoked (py.format_time now) l).revoked_at ≡ true
unfolding mark_revoked
mark_revoked-is_set py now l = ground (arith, py.format_time-truthy now)

others-AreRevoked :
    (id : String) (l : Lease) (ls : List Lease)
    → has_id id l ≡ true
    → All (λ k. (k.id == l.id) ≡ false) ls
    → AreRevoked id ls
others-AreRevoked id l [] e a = tt
others-AreRevoked id l (k ∷ ls) e a = (
  λ h. ground (arith, eq_iff l.id id, eq_iff k.id id, eq_iff k.id l.id),
  others-AreRevoked id l ls e a.1,
)

update-AreRevoked :
    (py : Platform) (now : ℕ) (id : String) (ls : List Lease)
    → HasOwnIds ls
    → AreRevoked id (update_first (has_id id) (mark_revoked (py.format_time now)) ls)
update-AreRevoked py now id [] u = tt
update-AreRevoked py now id (l ∷ ls) u = elim (Bool-cases (has_id id l)) [
  | inl e ↦ rw e (λ h. mark_revoked-is_set py now l, others-AreRevoked id l ls e u.0)
  | inr e ↦ rw e (λ h. cc, update-AreRevoked py now id ls u.1)
]

pub All-find :
    (P : Lease → Type 0) (here : Lease → Bool) (ls : List Lease) (l : Lease)
    → All P ls
    → find here ls ≡ some l
    → P l
All-find P here [] l a h = absurd (ground arith)
All-find P here (x ∷ ls) l a h = elim (Bool-cases (here x)) [
  | inl e ↦ let q : x ≡ l = ground arith in rw (← q) (a.0)
  | inr e ↦ All-find P here ls l a.1 (rw e at h)
]

revoked_denied :
    (py : Platform) (now : ℕ) (l : Lease) (request : Fields) (auth : Option AuthContext)
    → is_set l.revoked_at ≡ true
    → request_denial py now l request auth ≡ some revoked
unfolding request_denial denial catalog_denial
revoked_denied py now l request auth h = simp h (ground arith)

found-revoked :
    (py : Platform) (now : ℕ) (id : String) (ls : List Lease) (consume required : Bool)
    (request : Fields) (auth : Option AuthContext) (r : Resolved) (l : Lease) (here : Lease → Bool)
    (ls' : List Lease)
    → AreRevoked id ls
    → IsFound (holds ls) r
    → r ≡ found l here ls'
    → has_id id l ≡ true
    → (decide py now consume required request auth (holds ls) r).0 ≡ some revoked
unfolding decide conclude
found-revoked py now id ls consume required request auth r l here ls' a f e h =
    let where_found : IsFound (holds ls) (found l here ls') = rw e at f in
    let same : ls ≡ ls' = cc (where_found.0) in
    let gone : is_set l.revoked_at ≡ true =
      All-find _ here ls l a (rw (← same) at (where_found.1)) h in
    simp (e, revoked_denied py now l request auth gone)

-- Once a lease is revoked, whatever the time and the request, a request that resolves to a lease
-- of that id is refused as revoked, if the ids of the store are distinct.
pub revoke-refuses :
    (py : Platform) (t : ℕ) (id : String) (ls : List Lease) (file : File) (now : ℕ)
    (config : LeasePolicyConfig) (consume : Bool) (request : Fields) (scope : Scope) (l : Lease)
    (here : Lease → Bool) (ls' : List Lease)
    → HasOwnIds ls
    → revoke_lease py t id (holds ls) ≡ ok (true, file)
    → config.has_file ≡ true
    → resolve py now scope.selection (presented py config.header scope.headers) file
      ≡ found l here ls'
    → has_id id l ≡ true
    → (evaluate py now config consume request scope file).0 ≡ some revoked
unfolding evaluate revoke_lease
revoke-refuses py t id ls file now config consume request scope l here ls' u r has e h =
    let written : file ≡ holds (update_first (has_id id) (mark_revoked (py.format_time t)) ls) =
      ground arith in
    simp (has, written)
      (found-revoked py now id _ consume config.required request scope.auth _ l here ls'
        (update-AreRevoked py t id ls u)
        (resolve-IsFound py now scope.selection (presented py config.header scope.headers) _)
        (rw written at e) h)
