-- ===== src/Lease/Found.antt =====
-- The lease that a request of snulbug/leases.py resolves to stands in the file.
use snulbug.Base.{
  ℕ, ◌≡◌, refl, String, Bool, Option, none, some, List, [], ◌∷◌, arith, find, keep, ◌==◌,
  Bool-cases, inl, inr,
}
use snulbug.Lease.{Platform, Lease, File, absent, unreadable, holds}
use snulbug.Lease.Change.{has_id}
use snulbug.Lease.Enforce.{
  Selection, selected, unselected, not_trusted, Resolved, found, resolve, select, of_matches, by_id,
  by_token, same_lease, on_store, no_lease,
}

-- What a resolved lease is to the file: the first one in it that the test finds.
abbrev pub IsFound : File → Resolved → Type 0
IsFound file (found lease here leases) = (file ≡ holds leases) × (find here leases ≡ some lease)
IsFound file _ = Unit

find_of_keep :
    (p : Lease → Bool) (ls : List Lease) (l : Lease) (more : List Lease)
    → keep p ls ≡ l ∷ more
    → find p ls ≡ some l
find_of_keep p [] l more h = cc
find_of_keep p (x ∷ ls) l more h = elim (Bool-cases (p x)) [
  | inl e ↦ rw e (ground arith)
  | inr e ↦ rw e (find_of_keep p ls l more (rw e at h))
]

no_lease-IsFound :
    (here : Lease → Bool) (ls : List Lease) (o : Option Lease)
    → find here ls ≡ o
    → IsFound (holds ls) (no_lease here ls o)
no_lease-IsFound here ls none h = tt
no_lease-IsFound here ls (some lease) h = (refl, h)

same_lease-IsFound :
    (id : String) (o : Option Lease) (lease : Lease) (ls : List Lease)
    → find (has_id id) ls ≡ some lease
    → IsFound (holds ls) (same_lease id o lease ls)
same_lease-IsFound id none lease ls h = tt
same_lease-IsFound id (some other) lease ls h = elim (Bool-cases (other.id == id)) [
  | inl e ↦ rw e (refl, h)
  | inr e ↦ rw e tt
]

of_matches-IsFound :
    (py : Platform) (now : ℕ) (id : String) (values : List String) (ls matches : List Lease)
    → keep (has_id id) ls ≡ matches
    → IsFound (holds ls) (of_matches py now id values ls matches)
unfolding of_matches
of_matches-IsFound py now id values ls [] h = tt
of_matches-IsFound py now id values ls (l ∷ k ∷ more) h = tt
of_matches-IsFound py now id [] ls (l ∷ []) h = (refl, find_of_keep (has_id id) ls l [] h)
of_matches-IsFound py now id (v ∷ vs) ls (l ∷ []) h =
    same_lease-IsFound id _ l ls (find_of_keep (has_id id) ls l [] h)

select-IsFound :
    (py : Platform) (now : ℕ) (selection : Selection) (values : List String) (ls : List Lease)
    → IsFound (holds ls) (select py now selection values ls)
unfolding select by_id by_token
select-IsFound py now (selected id) values ls = of_matches-IsFound py now id values ls _ refl
select-IsFound py now unselected (v ∷ vs) ls = no_lease-IsFound _ ls _ refl
select-IsFound py now not_trusted (v ∷ vs) ls = no_lease-IsFound _ ls _ refl
select-IsFound py now unselected [] ls = tt
select-IsFound py now not_trusted [] ls = tt

on_store-IsFound :
    (py : Platform) (now : ℕ) (selection : Selection) (values : List String) (file : File)
    → IsFound file (on_store file (select py now selection values))
on_store-IsFound py now selection values absent = tt
on_store-IsFound py now selection values unreadable = tt
on_store-IsFound py now selection values (holds ls) = select-IsFound py now selection values ls

pub resolve-IsFound :
    (py : Platform) (now : ℕ) (selection : Selection) (values : List String) (file : File)
    → IsFound file (resolve py now selection values file)
unfolding resolve
resolve-IsFound py now not_trusted values file = tt
resolve-IsFound py now unselected [] file = tt
resolve-IsFound py now unselected (v ∷ w ∷ vs) file = tt
resolve-IsFound py now (selected id) (v ∷ w ∷ vs) file = tt
resolve-IsFound py now (selected id) [] file = on_store-IsFound py now (selected id) [] file
resolve-IsFound py now unselected (v ∷ []) file = elim (Bool-cases (v == "")) [
  | inl e ↦ rw e tt
  | inr e ↦ rw e (on_store-IsFound py now unselected (v ∷ []) file)
]
resolve-IsFound py now (selected id) (v ∷ []) file = elim (Bool-cases (v == "")) [
  | inl e ↦ rw e tt
  | inr e ↦ rw e (on_store-IsFound py now (selected id) (v ∷ []) file)
]
