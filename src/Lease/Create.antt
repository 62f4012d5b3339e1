-- ===== src/Lease/Create.antt =====
-- What `create_lease` of snulbug/leases.py accepts, and the lease that it stores.
use snulbug.Base.{
  ℕ, ◌≤◌, ◌<◌, ◌≡◌, ◌≢◌, refl, String, Bool, true, false, not, ◌&&◌, Option, none, some, List, [],
  ◌∷◌, ◌++◌, arith, find, contains, ◌==◌, eq_iff, is_empty, is_some, truthy, or_else, Bool-cases,
  inl, inr,
}
use snulbug.Base.Result.{ok}
use snulbug.Lease.{Platform, Lease, File, holds, token_hash, dedupe, dedupe_from}
use snulbug.Lease.View.{find_lease, owns_token, invite_metadata}
use snulbug.Lease.Store.{
  LeaseRequest, Drawn, Created, new_lease, with_renewal, add_renewal, parse_ttl, create_lease,
  no_budget, is_unbound,
}

-- An accepted request names a task and a tool, and its lease time and budget are positive. With a
-- renewal it belongs to an invite, is authorized for as long as the lease, and is bound to a
-- bearer or to identities.
pub record IsAccepted (py : Platform) (r : LeaseRequest) : Type 0 where
  pub task : (py.strip r.task == "") ≡ false
  pub tools : r.allow_tools ≢ []
  pub ttl : 0 < r.ttl
  pub budget : (m : ℕ) → r.max_calls ≡ some m → 0 < m
  pub renewal :
      (authorization : ℕ)
      → r.renewal_ttl ≡ some authorization
      → (is_some (invite_metadata r.invite).id ≡ true)
        × (r.ttl ≤ authorization)
        × (is_unbound r ≡ false)

-- The stored lease is unused and unrevoked, and its token is the one that is returned.
pub record IsStored (py : Platform) (r : LeaseRequest) (c : Created) : Type 0 where
  pub token : c.lease.token_hash ≡ token_hash py c.token
  pub fresh : c.lease.use_count ≡ 0
  pub kept : c.lease.revoked_at ≡ none
  pub budget : c.lease.max_calls ≡ r.max_calls
  pub tools : c.lease.allow_tools ≡ dedupe r.allow_tools
  pub renewable : is_some c.lease.renewal ≡ is_some r.renewal_ttl

with_renewal-IsStored :
    (py : Platform) (now : ℕ) (r : LeaseRequest) (drawn : Drawn) (token : String) (ttl : ℕ)
    (o : Option ℕ) (c : Created)
    → with_renewal py now r drawn (new_lease py now r drawn.lease_id token ttl) token ttl o ≡ ok c
    → (c.lease.token_hash ≡ token_hash py c.token)
      × (c.lease.use_count ≡ 0)
      × (c.lease.revoked_at ≡ none)
      × (c.lease.max_calls ≡ r.max_calls)
      × (c.lease.allow_tools ≡ dedupe r.allow_tools)
      × (is_some c.lease.renewal ≡ is_some o)
unfolding with_renewal new_lease add_renewal
with_renewal-IsStored py now r drawn token ttl none c h = ground arith
with_renewal-IsStored py now r drawn token ttl (some a) c h = ground arith

with_renewal-accepts :
    (py : Platform) (now : ℕ) (r : LeaseRequest) (drawn : Drawn) (lease : Lease) (token : String)
    (ttl a : ℕ) (c : Created)
    → with_renewal py now r drawn lease token ttl (some a) ≡ ok c
    → (is_some (invite_metadata r.invite).id ≡ true) × (ttl ≤ a) × (is_unbound r ≡ false)
unfolding with_renewal parse_ttl
with_renewal-accepts py now r drawn lease token ttl a c h = ground arith

-- What the steps of a successful `create_lease` gave.
create-steps :
    (py : Platform) (now : ℕ) (r : LeaseRequest) (drawn : Drawn) (ls : List Lease) (c : Created)
    (file : File)
    → create_lease py now r drawn (holds ls) ≡ ok (c, file)
    → ((py.strip r.task == "") ≡ false)
      × (is_empty r.allow_tools ≡ false)
      × (no_budget r.max_calls ≡ false)
      × (0 < r.ttl)
      × (with_renewal py now r drawn
            (new_lease py now r drawn.lease_id (or_else (truthy r.token) drawn.token) r.ttl)
            (or_else (truthy r.token) drawn.token)
            r.ttl
            r.renewal_ttl
          ≡ ok c)
      × (file ≡ holds (ls ++ c.lease ∷ []))
unfolding create_lease
create-steps py now r drawn ls c file h = ground arith

-- A lease that is created without an error was asked for by an acceptable request, and it is stored
-- behind the others: unused and unrevoked, with the tools and the budget of the request, renewable
-- if that was asked for, and opened by the returned token.
create-IsStored :
    (py : Platform) (now : ℕ) (r : LeaseRequest) (drawn : Drawn) (ls : List Lease) (c : Created)
    (file : File)
    → create_lease py now r drawn (holds ls) ≡ ok (c, file)
    → IsAccepted py r × IsStored py r c × (file ≡ holds (ls ++ c.lease ∷ []))
create-IsStored py now r drawn ls c file h =
    let (task, tools, budget, ttl, made, written) = create-steps py now r drawn ls c file h in
    let (token, fresh, kept, limit, allowed, renewable) =
      with_renewal-IsStored py now r drawn _ r.ttl r.renewal_ttl c made in
    (
      record {
        task = task;
        tools = λ e. ground arith;
        ttl = ttl;
        budget = λ m e. ground arith;
        renewal = λ a e. with_renewal-accepts py now r drawn _ _ r.ttl a c (simp e at made);
      },
      record {
        token = token;
        fresh = fresh;
        kept = kept;
        budget = limit;
        tools = allowed;
        renewable = renewable;
      },
      written,
    )

find-append :
    (p : Lease → Bool) (ls : List Lease) (l : Lease)
    → find p ls ≡ none
    → p l ≡ true
    → find p (ls ++ l ∷ []) ≡ some l
find-append p [] l h e = rw e
find-append p (x ∷ ls) l h e = elim (Bool-cases (p x)) [
  | inl q ↦ absurd (ground arith)
  | inr q ↦ rw q (find-append p ls l (rw q at h) e)
]

-- The token of a new lease finds that lease, at any time at which no older lease has this token.
find_lease-create :
    (py : Platform) (now t : ℕ) (r : LeaseRequest) (drawn : Drawn) (ls : List Lease) (c : Created)
    → create_lease py now r drawn (holds ls) ≡ ok (c, holds (ls ++ c.lease ∷ []))
    → find_lease py t ls c.token ≡ none
    → find_lease py t (ls ++ c.lease ∷ []) c.token ≡ some c.lease
unfolding find_lease
find_lease-create py now t r drawn ls c h none_older =
    let (accepted, stored, written) = create-IsStored py now r drawn ls c _ h in
    find-append (owns_token py t (token_hash py c.token)) ls c.lease none_older (
      unfold owns_token in
      ground (arith, stored.token, eq_iff c.lease.token_hash (token_hash py c.token)))

-- Each item once, in the order of the first ones.
abbrev pub AreDistinct : List String → Type 0
AreDistinct [] = Unit
AreDistinct (x ∷ xs) = (contains xs x ≡ false) × AreDistinct xs

contains-dedupe_from :
    (seen xs : List String) (a : String)
    → contains (dedupe_from seen xs) a ≡ (contains xs a && (not (a == "") && not (contains seen a)))
unfolding dedupe_from
contains-dedupe_from seen [] a = refl
contains-dedupe_from seen (x ∷ xs) a = ground (
  arith,
  contains-dedupe_from seen xs a,
  contains-dedupe_from (x ∷ seen) xs a,
  eq_iff x a,
  eq_iff x "",
  eq_iff a "",
)

dedupe_from-AreDistinct : (seen xs : List String) → AreDistinct (dedupe_from seen xs)
unfolding dedupe_from
dedupe_from-AreDistinct seen [] = tt
dedupe_from-AreDistinct seen (x ∷ xs) = elim (Bool-cases (not (x == "") && not (contains seen x))) [
  | inl new ↦ rw new (
    ground (arith, contains-dedupe_from (x ∷ seen) xs x, eq_iff x x),
    dedupe_from-AreDistinct (x ∷ seen) xs,
  )
  | inr old ↦ rw old (dedupe_from-AreDistinct seen xs)
]

-- A deduplicated list has the non-empty items of the list, and each once.
dedupe-AreDistinct :
    (xs : List String)
    → AreDistinct (dedupe xs)
      × ((a : String) → contains (dedupe xs) a ≡ (contains xs a && not (a == "")))
unfolding dedupe
dedupe-AreDistinct xs =
    (dedupe_from-AreDistinct [] xs, λ a. ground (arith, contains-dedupe_from [] xs a))
