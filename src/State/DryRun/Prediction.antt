-- ===== src/State/DryRun/Prediction.antt =====
-- What a dry run over the memory store tells of the call that it stands for (snulbug/state.py).
use snulbug.Base.{
  ℕ, ◌≤◌, ◌≡◌, refl, String, true, false, some, arith, is_some, Option, Option-cases, inl, inr,
}
use snulbug.Base.Dict
use snulbug.State.{IntText, Op, step, expired, flag, value}
use snulbug.State.Memory.{Item, Items, memory_store, same}
use snulbug.State.Memory
use snulbug.State.Memory.Refinement.{view, view-get, get-view, memory-step-spec, Answers}
use snulbug.State.DryRun.{dry_store, put, delete, incr, cas}

-- A delete is predicted where the key holds no expired entry.
abbrev pub IsPredicted : ℕ → Op → Items → Type 0
IsPredicted now (Op.delete k) s =
    (item : Item) → Dict.get s k ≡ some item → expired item.expires now ≡ false
IsPredicted _ _ s = Unit

predicted_delete :
    (now : ℕ) (s : Items) (k : String)
    → IsPredicted now (Op.delete k) s
    → flag (is_some (Memory.get now s k).0) ≡ flag (Memory.delete now s k).0
unfolding Memory.get Memory.delete
predicted_delete now s k p = elim (Option-cases (Dict.get s k)) [
  | inl none_held ↦ rw none_held
  | inr (item, held) ↦ ground (arith, p item)
]

answer :
    (py : IntText) (now : ℕ) (op : Op) (s : Items)
    → Answers py now op (view s) (step (memory_store py) now op s).0
answer py now op s = (memory-step-spec py now now op s "" (omega arith)).1

-- A dry run changes nothing that can be read from then on, and it gives the reply that the call
-- itself would give, but for a delete of a key whose entry has expired.
pub dry_run-predicts :
    (py : IntText) (now : ℕ) (op : Op) (s : Items)
    → IsPredicted now op s
    → ((t : ℕ) (j : String)
        → now ≤ t
        → view (step (dry_store py (memory_store py)) now op s).1 t j ≡ view s t j)
      × ((step (dry_store py (memory_store py)) now op s).0 ≡ (step (memory_store py) now op s).0)
unfolding put delete incr cas step
dry_run-predicts py now (Op.get k) s p = (λ t j h. view-get now t s k j h, refl)
dry_run-predicts py now (Op.put k v ttl) s p = (λ t j h. refl, refl)
dry_run-predicts py now (Op.delete k) s p =
    (λ t j h. view-get now t s k j h, predicted_delete now s k p)
dry_run-predicts py now (Op.incr k amount ttl) s p = (
  λ t j h. view-get now t s k j h,
  cc (get-view now s k, (answer py now (Op.incr k amount ttl) s)),
)
dry_run-predicts py now (Op.cas k expected v ttl) s p = (
  λ t j h. view-get now t s k j h,
  cc (get-view now s k, (answer py now (Op.cas k expected v ttl) s)),
)

-- At a key whose entry has expired a read finds nothing and the dry run of a delete says so, but
-- the delete itself reports that it deleted the key.
expired-delete_reports :
    (py : IntText) (now : ℕ) (s : Items) (k : String) (item : Item)
    → Dict.get s k ≡ some item
    → expired item.expires now ≡ true
    → ((step (memory_store py) now (Op.get k) s).0 ≡ value Option.none)
      × ((step (dry_store py (memory_store py)) now (Op.delete k) s).0 ≡ flag false)
      × ((step (memory_store py) now (Op.delete k) s).0 ≡ flag true)
unfolding step delete Memory.get Memory.delete
expired-delete_reports py now s k item held gone = ground arith
