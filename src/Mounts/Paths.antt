-- ===== src/Mounts/Paths.antt =====
-- Mounts of snulbug/http_routes.py that match one path.
use Prim.Native.String
use mathlib.Core.Path.{subst}
use Prim.Native.String.{count}
use text.Mathlib.Text.{starts_with}
use text.Mathlib.TextBridge.{IsPrefix}
use text.Mathlib.TextEquality.{starts_with_iff}
use text.Mathlib.TextLemmas as Laws
use snulbug.Base.{◌≡◌, sym, ap, ◌∙◌, ◌⊎◌, inl, inr, String, true, arith, Bool-cases, ◌==◌, eq_iff}
use snulbug.Mounts.{path_matches}

-- Two texts that begin one text: one of them begins the other.
comparable : (p q u v : String) → String.◌++◌ p u ≡ String.◌++◌ q v → IsPrefix p q ⊎ IsPrefix q p
comparable String.[] q u v e = inl (q, Laws.nil-append q)
comparable (String.◌∷◌ c p) String.[] u v e = inr (String.◌∷◌ c p, Laws.nil-append (String.◌∷◌ c p))
comparable (String.◌∷◌ c p) (String.◌∷◌ d q) u v e =
    let f = sym (Laws.cons-append c p u) ∙ e ∙ Laws.cons-append d q v in
    let same = Laws.head-eq_of_cons-eq f in
    elim (comparable p q u v (Laws.tail-eq_of_cons-eq f)) [
      | inl w ↦ inl (w.0, Laws.cons-append c p w.0 ∙ cc (same, w.1))
      | inr w ↦ inr (w.0, Laws.cons-append d q w.0 ∙ cc (same, w.1))
    ]

path_matches-cases :
    (path prefix : String)
    → path_matches path prefix ≡ true
    → (path ≡ prefix) ⊎ IsPrefix (String.◌++◌ prefix "/") path
unfolding path_matches
path_matches-cases path prefix h = elim (Bool-cases (path == prefix)) [
  | inl e ↦ inl ((eq_iff path prefix).0 e)
  | inr e ↦
      let starts : starts_with path (String.◌++◌ prefix "/") ≡ true = ground (arith, e) in
      inr ((starts_with_iff path (String.◌++◌ prefix "/")).0 starts)
]

below :
    (path prefix : String)
    → IsPrefix (String.◌++◌ prefix "/") path
    → path_matches path prefix ≡ true
unfolding path_matches
below path prefix w =
    let starts = (starts_with_iff path (String.◌++◌ prefix "/")).1 w in ground (arith, starts)

same : (path prefix : String) → path ≡ prefix → path_matches path prefix ≡ true
unfolding path_matches
same path prefix e = let q = (eq_iff path prefix).1 e in ground (arith, q)

-- Texts that differ by less than a slash in both ways are equal.
within_slash :
    (a b : String)
    → IsPrefix b (String.◌++◌ a "/")
    → IsPrefix a (String.◌++◌ b "/")
    → (path_matches a b ≡ true) ⊎ (path_matches b a ≡ true)
within_slash a b (String.[], e) h =
    inr (below b a (String.[], Laws.append-nil _ ∙ sym e ∙ Laws.append-nil b))
within_slash a b (String.◌∷◌ c u, e) (String.[], f) =
    inl (below a b (String.[], Laws.append-nil _ ∙ sym f ∙ Laws.append-nil a))
within_slash a b (String.◌∷◌ c u, e) (String.◌∷◌ d v, f) =
    let left =
      sym (Laws.length-append b (String.◌∷◌ c u)) ∙ ap count e ∙ Laws.length-append a "/" in
    let right =
      sym (Laws.length-append a (String.◌∷◌ d v)) ∙ ap count f ∙ Laws.length-append b "/" in
    let equal : count b ≡ count a =
      omega (arith, left, right, Laws.length-cons c u, Laws.length-cons d v) in
    inl (same a b (sym (Laws.append_inj e equal).0))

-- What begins with `a` and a slash, and with `b`.
longer :
    (path a b : String)
    → IsPrefix (String.◌++◌ a "/") path
    → IsPrefix (String.◌++◌ b "/") path
    → IsPrefix (String.◌++◌ a "/") b ⊎ IsPrefix b (String.◌++◌ a "/")
longer path a b p q =
    comparable (String.◌++◌ a "/") b p.0 (String.◌++◌ "/" q.0)
      (p.1 ∙ sym q.1 ∙ Laws.append_assoc b "/" q.0)

-- Two prefixes that match one path: one of them matches the other.
pub overlapping :
    (path a b : String)
    → path_matches path a ≡ true
    → path_matches path b ≡ true
    → (path_matches a b ≡ true) ⊎ (path_matches b a ≡ true)
overlapping path a b p q = elim (path_matches-cases path a p) [
  | inl e ↦ inl (subst (λ s. path_matches s b ≡ true) e q)
  | inr u ↦ elim (path_matches-cases path b q) [
    | inl e ↦ inr (subst (λ s. path_matches s a ≡ true) e p)
    | inr v ↦ elim (longer path a b u v) [
      | inl w ↦ inr (below b a w)
      | inr w ↦ elim (longer path b a v u) [
        | inl x ↦ inl (below a b x)
        | inr x ↦ within_slash a b w x
      ]
    ]
  ]
]
