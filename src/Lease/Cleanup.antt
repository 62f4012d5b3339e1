-- ===== src/Lease/Cleanup.antt =====
-- What `cleanup_inactive_leases` of snulbug/leases.py removes.
use snulbug.Base.{
  ℕ, ◌≡◌, refl, ap, Bool, true, false, List, [], ◌∷◌, arith, map, keep, Bool-cases, inl, inr,
}
use snulbug.Base.Result.{ok}
use snulbug.Lease.{Platform, Lease, File, holds}
use snulbug.Lease.View.{lease_view, list_leases}
use snulbug.Lease.Change.{is_kept, cleanup_inactive_leases}

keep-map :
    {A B : Type 0} (view : A → B) (p : B → Bool) (q : A → Bool)
    → ((x : A) → p (view x) ≡ true → q x ≡ true)
    → (xs : List A) → keep p (map view (keep q xs)) ≡ keep p (map view xs)
keep-map view p q kept [] = refl
keep-map view p q kept (x ∷ xs) = elim (Bool-cases (q x)) [
  | inl e ↦ rw e (ground (arith, keep-map view p q kept xs))
  | inr e ↦ rw e (ground (arith, kept x, keep-map view p q kept xs))
]

active_kept :
    (py : Platform) (now : ℕ) (l : Lease)
    → (lease_view py now l).active ≡ true
    → is_kept py now l ≡ true
unfolding lease_view is_kept
active_kept py now l h = ground arith

list-keep :
    (py : Platform) (now : ℕ) (ls : List Lease)
    → list_leases py now false (keep (is_kept py now) ls) ≡ list_leases py now false ls
unfolding list_leases
list-keep py now =
    keep-map (lease_view py now) (λ view. view.active) (is_kept py now) (active_kept py now)

keep_twice : {A : Type 0} (p : A → Bool) (xs : List A) → keep p (keep p xs) ≡ keep p xs
keep_twice p [] = refl
keep_twice p (x ∷ xs) = ground (arith, keep_twice p xs)

-- A cleanup removes no lease that a listing of the active leases shows, and a second cleanup at
-- the same time changes nothing.
cleanup-list_leases :
    (py : Platform) (now : ℕ) (ls kept : List Lease) (file : File)
    → cleanup_inactive_leases py now (holds ls) ≡ ok (kept, file)
    → (list_leases py now false kept ≡ list_leases py now false ls)
      × (cleanup_inactive_leases py now file ≡ ok (kept, file))
unfolding cleanup_inactive_leases
cleanup-list_leases py now ls kept file h =
    let same : keep (is_kept py now) ls ≡ kept = ground arith in
    let written : file ≡ holds kept = ground arith in
    (
      rw (← same) (list-keep py now ls),
      rw (written, ← same) (ap (λ k. ok (k, holds k)) (keep_twice (is_kept py now) ls)),
    )
