-- ===== src/Base/Sort.antt =====
-- Python's stable `sorted`, and what a search in a list with falling keys finds.
use Prim.Native.Nat.{ℕ, ◌≤◌}
use mathlib.Core.Path.{◌≡◌, refl, ap, subst}
use mathlib.Core.Logic.{◌⊎◌, inl, inr}
use mathlib.Core.Bool.{Bool, true, false}
use mathlib.Core.Option.{none, some}
use mathlib.Core.List.{List, [], ◌∷◌, Memᴰ}
use mathlib.Core.List.Memᴰ
use native.Mathlib.Omega.{arith}
use Prim.Native.String.{String, compare}
use text.Mathlib.Text.{is_le}
use snulbug.Base.Tests.{leb, if◌then◌else◌, Bool-cases}
use snulbug.Base.Lists.{contains, find, keep, All}

-- sorted(texts)
unfoldable pub insert_text : String → List String → List String
insert_text x [] = x ∷ []
insert_text x (y ∷ ys) =
    let rest = insert_text x ys in if is_le (compare x y) then x ∷ y ∷ ys else y ∷ rest

unfoldable pub sorted_texts : List String → List String
unfolding insert_text
sorted_texts [] = []
sorted_texts (x ∷ xs) = insert_text x (sorted_texts xs)

-- the elements of set(texts)
unfoldable pub distinct : List String → List String
distinct [] = []
distinct (x ∷ xs) = let rest = distinct xs in if contains xs x then rest else x ∷ rest

module _ {ℓ} {A : Type ℓ} where
  if-Mem :
      {a : A} (b : Bool) (x : A) (l : List A)
      → Memᴰ a (if b then x ∷ l else l)
      → ((a ≡ x) × (b ≡ true)) ⊎ Memᴰ a l
  if-Mem true x l (Memᴰ.head q) = inl (q, refl)
  if-Mem true x l (Memᴰ.tail n) = inr n
  if-Mem false x l m = inr m

  pub keep-Mem : {a : A} (p : A → Bool) (l : List A) → Memᴰ a (keep p l) → Memᴰ a l × (p a ≡ true)
  keep-Mem p [] m = absurd (Memᴰ.not-nil m)
  keep-Mem p (x ∷ xs) m = elim (if-Mem (p x) x (keep p xs) m) [
    | inl h ↦ (Memᴰ.head h.0, cc (h.0, h.1))
    | inr n ↦ let h = keep-Mem p xs n in (Memᴰ.tail h.0, h.1)
  ]

  pub find-Mem : {a : A} (p : A → Bool) (l : List A) → find p l ≡ some a → Memᴰ a l × (p a ≡ true)
  find-Mem p [] h = absurd (cc h)
  find-Mem {a} p (x ∷ xs) h = elim (Bool-cases (p x)) [
    | inl e ↦ let q : a ≡ x = ground arith in (Memᴰ.head q, cc (q, e))
    | inr e ↦
        let rest : find p xs ≡ some a = ground arith in
        let r = find-Mem p xs rest in (Memᴰ.tail r.0, r.1)
  ]

  pub find-none : {a : A} (p : A → Bool) (l : List A) → find p l ≡ none → Memᴰ a l → p a ≡ false
  find-none p [] h m = absurd (Memᴰ.not-nil m)
  find-none {a} p (x ∷ xs) h (Memᴰ.head q) = elim (Bool-cases (p x)) [
    | inl e ↦ absurd (ground arith)
    | inr e ↦ cc (q, e)
  ]
  find-none {a} p (x ∷ xs) h (Memᴰ.tail m) =
      let rest : find p xs ≡ none = ground arith in find-none p xs rest m

  module _ (key : A → ℕ) where
    place : A → List A → List A
    place x [] = x ∷ []
    place x (y ∷ ys) = let rest = place x ys in if leb (key y) (key x) then x ∷ y ∷ ys else y ∷ rest

    -- sorted(xs, key=lambda x: -key(x))
    unfoldable pub sorted_falling : List A → List A
    unfolding place
    sorted_falling [] = []
    sorted_falling (x ∷ xs) = place x (sorted_falling xs)

    abbrev IsFalling : List A → Type 0
    IsFalling [] = Unit
    IsFalling (x ∷ xs) = All (λ y. key y ≤ key x) xs × IsFalling xs

    All-below :
        (x y : A) (l : List A)
        → key x ≤ key y
        → All (λ z. key z ≤ key x) l
        → All (λ z. key z ≤ key y) l
    All-below x y [] h a = tt
    All-below x y (z ∷ zs) h a = (omega (arith, a.0), All-below x y zs h a.1)

    All-place :
        (n : ℕ) (x : A) (l : List A)
        → key x ≤ n
        → All (λ z. key z ≤ n) l
        → All (λ z. key z ≤ n) (place x l)
    unfolding place
    All-place n x [] h a = (h, tt)
    All-place n x (y ∷ ys) h a = elim (Bool-cases (leb (key y) (key x))) [
      | inl e ↦ rw (e) (h, a)
      | inr e ↦ rw (e) (a.0, All-place n x ys h a.1)
    ]

    place-IsFalling : (x : A) (l : List A) → IsFalling l → IsFalling (place x l)
    unfolding place
    place-IsFalling x [] f = (tt, tt)
    place-IsFalling x (y ∷ ys) f = elim (Bool-cases (leb (key y) (key x))) [
      | inl e ↦
          let below : key y ≤ key x = ground arith in
          rw (e) ((below, All-below y x ys below f.0), f)
      | inr e ↦
          let above : key x ≤ key y = ground arith in
          rw (e) (All-place (key y) x ys above f.0, place-IsFalling x ys f.1)
    ]

    pub sorted_falling-IsFalling : (l : List A) → IsFalling (sorted_falling l)
    unfolding sorted_falling
    sorted_falling-IsFalling [] = tt
    sorted_falling-IsFalling (x ∷ xs) =
        place-IsFalling x (sorted_falling xs) (sorted_falling-IsFalling xs)

    placed : {a : A} (x : A) (l : List A) → Memᴰ a (place x l) → (a ≡ x) ⊎ Memᴰ a l
    unfolding place
    placed x [] m = Memᴰ.cases_cons m
    placed {a} x (y ∷ ys) m = elim (Bool-cases (leb (key y) (key x))) [
      | inl e ↦ Memᴰ.cases_cons (subst (λ b. Memᴰ a (if b then x ∷ y ∷ ys else y ∷ place x ys)) e m)
      | inr e ↦
          elim (Memᴰ.cases_cons
            (subst (λ b. Memᴰ a (if b then x ∷ y ∷ ys else y ∷ place x ys)) e m)) [
              | inl q ↦ inr (Memᴰ.head q)
              | inr n ↦ elim (placed x ys n) [ inl q ↦ inl q | inr k ↦ inr (Memᴰ.tail k) ]
            ]
    ]

    place-Mem : {a : A} (x : A) (l : List A) → (a ≡ x) ⊎ Memᴰ a l → Memᴰ a (place x l)
    unfolding place
    place-Mem x [] m = elim m [ inl q ↦ Memᴰ.head q | inr n ↦ Memᴰ.tail n ]
    place-Mem {a} x (y ∷ ys) m = elim (Bool-cases (leb (key y) (key x))) [
      | inl e ↦ rw (e) (elim m [ inl q ↦ Memᴰ.head q | inr n ↦ Memᴰ.tail n ])
      | inr e ↦ rw (e) (elim m [
        | inl q ↦ Memᴰ.tail (place-Mem x ys (inl q))
        | inr n ↦ elim (Memᴰ.cases_cons n) [
          | inl q ↦ Memᴰ.head q
          | inr k ↦ Memᴰ.tail (place-Mem x ys (inr k))
        ]
      ])
    ]

    pub Mem-sorted_falling : {a : A} (l : List A) → Memᴰ a l → Memᴰ a (sorted_falling l)
    unfolding sorted_falling
    Mem-sorted_falling (x ∷ xs) (Memᴰ.head q) = place-Mem x (sorted_falling xs) (inl q)
    Mem-sorted_falling (x ∷ xs) (Memᴰ.tail n) =
        place-Mem x (sorted_falling xs) (inr (Mem-sorted_falling xs n))
    Mem-sorted_falling [] m = elim m [ ]

    pub sorted_falling-Mem : {a : A} (l : List A) → Memᴰ a (sorted_falling l) → Memᴰ a l
    unfolding sorted_falling
    sorted_falling-Mem [] m = m
    sorted_falling-Mem (x ∷ xs) m = elim (placed x (sorted_falling xs) m) [
      | inl q ↦ Memᴰ.head q
      | inr n ↦ Memᴰ.tail (sorted_falling-Mem xs n)
    ]

    All-Mem : {a : A} (n : ℕ) (l : List A) → All (λ y. key y ≤ n) l → Memᴰ a l → key a ≤ n
    All-Mem n [] h m = elim m [ ]
    All-Mem n (x ∷ xs) h (Memᴰ.head q) = let e : key _ ≡ key x = ap key q in omega (arith, e, h.0)
    All-Mem n (x ∷ xs) h (Memᴰ.tail m) = All-Mem n xs h.1 m

    -- The first in a falling list of those that `p` is true of has the greatest key of them.
    pub find-greatest :
        {a b : A} (p : A → Bool) (l : List A)
        → IsFalling l
        → find p l ≡ some a
        → Memᴰ b l
        → p b ≡ true
        → key b ≤ key a
    find-greatest p [] f h m t = absurd (Memᴰ.not-nil m)
    find-greatest {a} {b} p (x ∷ xs) f h m t = elim (Bool-cases (p x)) [
      | inl e ↦
          let q : x ≡ a = ground arith in
          let k : key x ≡ key a = ap key q in
          elim (Memᴰ.cases_cons m) [
            | inl r ↦ let k2 : key b ≡ key x = ap key r in omega (arith, k, k2)
            | inr n ↦ omega (arith, k, All-Mem (key x) xs f.0 n)
          ]
      | inr e ↦
          let rest : find p xs ≡ some a = ground arith in
          elim (Memᴰ.cases_cons m) [
            | inl r ↦ absurd (ground (arith, ap p r))
            | inr n ↦ find-greatest p xs f.1 rest n t
          ]
    ]
