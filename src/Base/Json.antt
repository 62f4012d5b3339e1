-- ===== src/Base/Json.antt =====
-- A JSON value as Python reads it. A float is an integer times a power of two, `flt m e` for
-- m * 2 ^ e, so the infinities and NaN are left out. An object has the keys of its fields, and the
-- first field of a key counts; a parser leaves one field for each key.
use Prim.Native.String.{String}
use mathlib.Core.Path.{◌≡◌, refl}
use native.Mathlib.Omega.{arith}
use text.Mathlib.TextEquality.{eq_iff}
use mathlib.Core.Bool.{Bool, true, false, not}
use mathlib.Core.Option.{Option, none, some}
use mathlib.Core.List.{List, [], ◌∷◌}
use text.Mathlib.Text.{◌==◌}
use snulbug.Base.Tests.{if◌then◌else◌, eqb}
use snulbug.Base.Int.{ℤ, pos, negsuc}

mutual
  pub data Json : Type 0 where
    null : Json
    bool : Bool → Json
    int : ℤ → Json
    flt : ℤ → ℤ → Json
    str : String → Json
    arr : Items → Json
    obj : Fields → Json

  pub data Items : Type 0 where
    nil : Items
    cons : Json → Items → Items

  pub data Fields : Type 0 where
    end : Fields
    field : String → Json → Fields → Fields

-- m.get(key)
unfoldable pub get : Fields → String → Option Json
get end k = none
get (field j v m) k = if j == k then some v else get m k

-- m[key] = value
unfoldable pub put : Fields → String → Json → Fields
put end k v = field k v end
put (field j w m) k v = if j == k then field k v m else field j w (put m k v)

pub get-put :
    (m : Fields) (k j : String) (v : Json)
    → get (put m k v) j ≡ (if k == j then some v else get m j)
unfolding get put
get-put end k j v = refl
get-put (field i w m) k j v = ground (arith, eq_iff k j, eq_iff i k, eq_iff i j, get-put m k j v)

-- m.pop(key, None)
unfoldable pub pop : Fields → String → Fields
pop end k = end
pop (field j v m) k = let rest = pop m k in if j == k then rest else field j v rest

pub get-pop : (m : Fields) (k j : String) → get (pop m k) j ≡ (if k == j then none else get m j)
unfolding get pop
get-pop end k j = ground arith
get-pop (field i w m) k j = ground (arith, eq_iff k j, eq_iff i k, eq_iff i j, get-pop m k j)

abbrev pub keys : Fields → List String
keys end = []
keys (field k v m) = k ∷ keys m

-- `value if isinstance(value, Mapping) else {}`, for a value that may be missing
abbrev pub mapping : Option Json → Fields
mapping (some (obj m)) = m
mapping _ = end

-- `value if isinstance(value, str) else None`
abbrev pub as_str : Option Json → Option String
as_str (some (str s)) = some s
as_str _ = none

-- the texts of a list of texts
abbrev pub as_strs : Items → Option (List String)
as_strs nil = some []
as_strs (cons (str s) xs) = elim (as_strs xs) [ none ↦ none | some rest ↦ some (s ∷ rest) ]
as_strs (cons _ xs) = none

-- Python's truth of a value
abbrev pub truth : Json → Bool
truth null = false
truth (bool b) = b
truth (int (pos n)) = not (eqb n 0)
truth (int (negsuc n)) = true
truth (flt (pos n) e) = not (eqb n 0)
truth (flt (negsuc n) e) = true
truth (str s) = not (s == "")
truth (arr nil) = false
truth (arr (cons x xs)) = true
truth (obj end) = false
truth (obj (field k v m)) = true

abbrev pub is_true : Option Json → Bool
is_true (some (bool true)) = true
is_true _ = false

abbrev pub eqb_ℤ : ℤ → ℤ → Bool
eqb_ℤ (pos a) (pos b) = eqb a b
eqb_ℤ (negsuc a) (negsuc b) = eqb a b
eqb_ℤ _ _ = false

-- `a or b`, for values that may be missing
abbrev pub either : Option Json → Option Json → Option Json
either none b = b
either (some a) b = if truth a then some a else b

-- {**a, **b}
abbrev pub merge : Fields → Fields → Fields
merge a end = a
merge a (field k v b) = merge (put a k v) b
