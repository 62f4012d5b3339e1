-- ===== src/State/Memory/Refinement.antt =====
-- The memory store of snulbug/state.py against what a reader sees: for each time and key, the
-- value that a read at that time would return.
use snulbug.Base.{
  ℕ, ◌≤◌, ◌+◌, ◌≡◌, refl, ap, ◌∙◌, String, true, Option, none, some, arith, ltb, is_some, ◌==◌,
  eq_iff, if◌then◌else◌,
}
use snulbug.Base.Dict
use snulbug.Base.Dict.{Dict}
use snulbug.Base.Int.{ℤ}
use snulbug.Base.Result.{Result, ok, err}
use snulbug.State.{
  IntText, StateError, Op, Reply, value, done, flag, count, step, expires_at, expired, add_to,
}
use snulbug.State.Memory.{
  Item, Items, memory_store, same, read, get, put, delete, incr, cas, store_count,
}

abbrev live : ℕ → Option Item → Option String
live t none = none
live t (some item) = if expired item.expires t then none else some item.value

unfoldable pub view : Items → ℕ → String → Option String
view s t key = live t (Dict.get s key)

-- The specification: the store is what a read of each key would return at each time.
abbrev pub Seen : Type 0
Seen = ℕ → String → Option String

abbrev pub lasting : String → Option ℕ → ℕ → ℕ → Option String
lasting v none now t = some v
lasting v (some ttl) now t = if ltb t (now + ttl) then some v else none

abbrev pub write : ℕ → String → String → Option ℕ → Seen → Seen
write now k v ttl seen t j = if k == j then lasting v ttl now t else seen t j

abbrev write_count : IntText → ℕ → String → Option ℕ → Seen → Result StateError ℤ → Seen
write_count py now k ttl seen (ok n) = write now k (py.str n) ttl seen
write_count py now k ttl seen (err e) = seen

abbrev pub spec_step : IntText → ℕ → Op → Seen → Seen
spec_step py now (Op.get k) seen = seen
spec_step py now (Op.put k v ttl) seen = write now k v ttl seen
spec_step py now (Op.delete k) seen = λ t j. if k == j then none else seen t j
spec_step py now (Op.incr k amount ttl) seen =
    write_count py now k ttl seen (add_to py (seen now k) amount)
spec_step py now (Op.cas k expected v ttl) seen =
    if same (seen now k) expected then write now k v ttl seen else seen

-- What a reply must be. A delete must report a key that could be read.
abbrev pub Answers : IntText → ℕ → Op → Seen → Reply → Type 0
Answers py now (Op.get k) seen r = r ≡ value (seen now k)
Answers py now (Op.put k v ttl) seen r = r ≡ done
Answers py now (Op.delete k) seen r = is_some (seen now k) ≡ true → r ≡ flag true
Answers py now (Op.incr k amount ttl) seen r = r ≡ count (add_to py (seen now k) amount)
Answers py now (Op.cas k expected v ttl) seen r = r ≡ flag (same (seen now k) expected)

expired_mono : (e : Option ℕ) (now t : ℕ) → now ≤ t → expired e now ≡ true → expired e t ≡ true
unfolding expired
expired_mono none now t h p = cc
expired_mono (some x) now t h p = ground arith

pub get-view : (now : ℕ) (s : Items) (k : String) → (get now s k).0 ≡ view s now k
unfolding get view
get-view now s k = ground arith

-- Dropping an expired entry changes nothing that is read from then on.
view-read :
    (now t : ℕ) (s : Items) (k j : String) (o : Option Item)
    → now ≤ t
    → Dict.get s k ≡ o
    → live t (Dict.get (read now s k o).1 j) ≡ live t (Dict.get s j)
unfolding read
view-read now t s k j none h e = refl
view-read now t s k j (some item) h e =
    ground (arith, Dict.get-pop s k j, eq_iff k j, expired_mono item.expires now t)

pub view-get :
    (now t : ℕ) (s : Items) (k j : String) → now ≤ t → view (get now s k).1 t j ≡ view s t j
unfolding get view
view-get now t s k j h = view-read now t s k j (Dict.get s k) h refl

pub view-put :
    (now t : ℕ) (s : Items) (k j v : String) (ttl : Option ℕ)
    → view (put now s k v ttl) t j ≡ write now k v ttl (view s) t j
unfolding put view expires_at expired
view-put now t s k j v none = simp Dict.dict_laws (ground arith)
view-put now t s k j v (some ttl) = simp Dict.dict_laws (ground arith)

view-delete :
    (now t : ℕ) (s : Items) (k j : String)
    → (view (delete now s k).1 t j ≡ (if k == j then none else view s t j))
      × (is_some (view s now k) ≡ true → (delete now s k).0 ≡ true)
unfolding delete view
view-delete now t s k j = (ground (arith, Dict.get-pop s k j), λ h. ground arith)

view-store_count :
    (py : IntText) (now t : ℕ) (s : Items) (k j : String) (ttl : Option ℕ) (seen : Seen)
    (r : Result StateError ℤ)
    → view s t j ≡ seen t j
    → (view (store_count py now s k ttl r).1 t j ≡ write_count py now k ttl seen r t j)
      × ((store_count py now s k ttl r).0 ≡ r)
unfolding store_count
view-store_count py now t s k j ttl seen (ok n) h = (
  view-put now t s k j (py.str n) ttl
      ∙ ap (if◌then◌else◌ (k == j) (lasting (py.str n) ttl now t)) h,
  refl,
)
view-store_count py now t s k j ttl seen (err e) h = (h, refl)

view-incr :
    (py : IntText) (now t : ℕ) (s : Items) (k j : String) (amount : ℤ) (ttl : Option ℕ)
    → now ≤ t
    → (view (incr py now s k amount ttl).1 t j
        ≡ write_count py now k ttl (view s) (add_to py (view s now k) amount) t j)
      × ((incr py now s k amount ttl).0 ≡ add_to py (view s now k) amount)
unfolding incr
view-incr py now t s k j amount ttl h = rw (← get-view now s k) (
    view-store_count py now t (get now s k).1 k j ttl (view s) (add_to py (get now s k).0 amount)
      (view-get now t s k j h))

view-cas :
    (now t : ℕ) (s : Items) (k j : String) (expected : Option String) (v : String) (ttl : Option ℕ)
    → now ≤ t
    → (view (cas now s k expected v ttl).1 t j
        ≡ (if same (view s now k) expected then write now k v ttl (view s) else view s) t j)
      × ((cas now s k expected v ttl).0 ≡ same (view s now k) expected)
unfolding cas
view-cas now t s k j expected v ttl h =
    ground
      (arith, get-view now s k, view-get now t s k j h, view-put now t (get now s k).1 k j v ttl)

-- After a call made at `now`, what is read of each key from then on is what the specification
-- says, and the reply is the specification's.
pub memory-step-spec :
    (py : IntText) (now t : ℕ) (op : Op) (s : Items) (j : String)
    → now ≤ t
    → (view (step (memory_store py) now op s).1 t j ≡ spec_step py now op (view s) t j)
      × Answers py now op (view s) (step (memory_store py) now op s).0
unfolding step
memory-step-spec py now t (Op.get k) s j h = (view-get now t s k j h, cc (get-view now s k))
memory-step-spec py now t (Op.put k v ttl) s j h = (view-put now t s k j v ttl, refl)
memory-step-spec py now t (Op.delete k) s j h =
    let (gone, told) = view-delete now t s k j in (gone, λ seen. ap flag (told seen))
memory-step-spec py now t (Op.incr k amount ttl) s j h =
    let (seen, told) = view-incr py now t s k j amount ttl h in (seen, ap count told)
memory-step-spec py now t (Op.cas k expected v ttl) s j h =
    let (seen, told) = view-cas now t s k j expected v ttl h in (seen, ap flag told)
