-- ===== src/Redaction/Depth.antt =====
-- How deep the redaction of snulbug/redaction.py goes into texts of JSON.
use Prim.Native.String.{len}
use snulbug.Base.{
  ℕ, ◌+◌, ◌≤◌, ◌<◌, ◌≡◌, ◌≢◌, ◌⊎◌, refl, inl, inr, String, Option, none, some, arith, Bool-cases,
  Option-cases,
}
use snulbug.Base.Json.{
  Json, Items, Fields, null, bool, int, flt, str, arr, obj, nil, cons, end, field,
}
use snulbug.Redaction.{
  Loaded, parsed, undecodable, raises, looks_like_json, Platform, RedactionConfig, redact_string,
  redact_value, redact_fields, redact_items,
}

-- The bytes of the texts in a value.
unfoldable mutual
  pub weight : Json → ℕ
  weight (str s) = len s
  weight (arr xs) = weight_items xs
  weight (obj m) = weight_fields m
  weight _ = 0

  pub weight_items : Items → ℕ
  weight_items nil = 0
  weight_items (cons v xs) = weight v + weight_items xs

  pub weight_fields : Fields → ℕ
  weight_fields end = 0
  weight_fields (field k v m) = weight v + weight_fields m

-- A text of JSON is longer than the texts that it holds.
abbrev pub IsShrinking : (String → Loaded) → Type 0
IsShrinking loads = (s : String) (v : Json) → loads s ≡ parsed v → weight v < len s

-- On a text of at most `limit` bytes json.loads raises nothing but a JSONDecodeError.
abbrev pub IsSafe : (String → Loaded) → ℕ → Type 0
IsSafe loads limit = (s : String) → len s ≤ limit → loads s ≢ raises

Loaded-cases : (l : Loaded) → (l ≡ undecodable) ⊎ (l ≡ raises) ⊎ ((v : Json) × (l ≡ parsed v))
Loaded-cases undecodable = inl refl
Loaded-cases raises = inr (inl refl)
Loaded-cases (parsed v) = inr (inr (v, refl))

module _ (py : Platform) (config : RedactionConfig) (inner : Json → Option Json) where
  abbrev redact : Option String → Json → Option Json
  redact = redact_value py config inner

  string-some :
      (s : String)
      → py.loads s ≢ raises
      → ((v : Json) → py.loads s ≡ parsed v → inner v ≢ none)
      → redact_string py config inner s ≢ none
  unfolding redact_string
  string-some s safe reads h = elim (Bool-cases (looks_like_json (py.strip s))) [
    | inl e ↦ elim (Loaded-cases (py.loads s)) [
      | inl f ↦ ground (arith, e, f)
      | inr (inl f) ↦ safe f
      | inr (inr f) ↦ elim (Option-cases (inner f.0)) [
        | inl r ↦ reads f.0 f.1 r
        | inr r ↦ ground (arith, e, f.1, r.1)
      ]
    ]
    | inr e ↦ ground (arith, e)
  ]

  module _ (n : ℕ) (safe : IsSafe py.loads n)
      (reads : (s : String) (v : Json) → len s ≤ n → py.loads s ≡ parsed v → inner v ≢ none) where
    mutual
      unfolding redact_value weight

      value-some : (key : Option String) (v : Json) → weight v ≤ n → redact key v ≢ none
      value-some key null w h = ground (arith, h)
      value-some key (bool b) w h = ground (arith, h)
      value-some key (int i) w h = ground (arith, h)
      value-some key (flt i e) w h = ground (arith, h)
      value-some key (str s) w h = elim (Option-cases (redact_string py config inner s)) [
        | inl e ↦ string-some s (safe s w) (λ v. reads s v w) e
        | inr e ↦ ground (arith, h, e.1)
      ]
      value-some key (arr xs) w h = elim (Option-cases (redact_items py config inner xs)) [
        | inl e ↦ items-some xs w e
        | inr e ↦ ground (arith, h, e.1)
      ]
      value-some key (obj m) w h = elim (Option-cases (redact_fields py config inner m)) [
        | inl e ↦ fields-some m w e
        | inr e ↦ ground (arith, h, e.1)
      ]

      items-some : (xs : Items) → weight_items xs ≤ n → redact_items py config inner xs ≢ none
      items-some nil w h = ground (arith, h)
      items-some (cons v xs) w h = elim (Option-cases (redact none v)) [
        | inl e ↦ value-some none v (omega arith) e
        | inr e ↦ elim (Option-cases (redact_items py config inner xs)) [
          | inl f ↦ items-some xs (omega arith) f
          | inr f ↦ ground (arith, h, e.1, f.1)
        ]
      ]

      fields-some : (m : Fields) → weight_fields m ≤ n → redact_fields py config inner m ≢ none
      fields-some end w h = ground (arith, h)
      fields-some (field k v m) w h = elim (Option-cases (redact (some k) v)) [
        | inl e ↦ value-some (some k) v (omega arith) e
        | inr e ↦ elim (Option-cases (redact_fields py config inner m)) [
          | inl f ↦ fields-some m (omega arith) f
          | inr f ↦ ground (arith, h, e.1, f.1)
        ]
      ]
