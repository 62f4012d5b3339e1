-- ===== src/Redaction/Secrets.antt =====
-- What a redaction of snulbug/redaction.py leaves behind.
use snulbug.Base.{
  ℕ, zero, suc, ◌≡◌, sym, ap, ◌∙◌, inl, inr, String, true, false, Option, none, some, List, [], ◌∷◌,
  arith, Bool-cases, Option-cases, ◌==◌, eq_iff, if◌then◌else◌,
}
use snulbug.Base.Json.{
  Json, Items, Fields, null, bool, int, flt, str, arr, obj, nil, cons, end, field, get,
}
use snulbug.Redaction.{
  Platform, RedactionConfig, is_listing, is_secret_key, is_hidden, redact_value, redact_fields,
  redact_items, redact_secrets,
}

-- A way into a JSON value: to the member of a key, or to the item of an index.
pub data Step : Type 0 where
  member : String → Step
  item : ℕ → Step

unfoldable pub nth : Items → ℕ → Option Json
nth nil n = none
nth (cons v xs) zero = some v
nth (cons v xs) (suc n) = nth xs n

-- The value at the end of a way and the key that it stands under. The lists of names under the keys
-- of `is_listing` are no part of any way.
unfoldable pub follow : Option String → List Step → Json → Option (Option String × Json)
unfolding nth
follow key [] v = some (key, v)
follow key (member k ∷ way) (obj m) = elim (get m k) [
  | none ↦ none
  | some w ↦ follow (some k) way w
]
follow key (item n ∷ way) (arr xs) = elim (nth xs n) [
  | none ↦ none
  | some w ↦ if is_listing key then none else follow none way w
]
follow key _ _ = none

module _ (py : Platform) (config : RedactionConfig) (inner : Json → Option Json) where
  abbrev redact : Option String → Json → Option Json
  redact = redact_value py config inner

  hidden :
      (key : Option String) (v : Json)
      → is_hidden py config key ≡ true
      → redact key v ≡ some (str config.replacement)
  unfolding redact_value
  hidden key null h = ground (arith, h)
  hidden key (bool b) h = ground (arith, h)
  hidden key (int n) h = ground (arith, h)
  hidden key (flt n e) h = ground (arith, h)
  hidden key (str s) h = ground (arith, h)
  hidden key (arr xs) h = ground (arith, h)
  hidden key (obj m) h = ground (arith, h)

  from_obj :
      (key : Option String) (v : Json) (n : Fields)
      → redact key v ≡ some (obj n)
      → (m : Fields) × (redact_fields py config inner m ≡ some n)
  unfolding redact_value
  from_obj key (obj m) n h = (m, ground (arith, h))
  from_obj key null n h = absurd (ground (arith, h))
  from_obj key (bool b) n h = absurd (ground (arith, h))
  from_obj key (int i) n h = absurd (ground (arith, h))
  from_obj key (flt i e) n h = absurd (ground (arith, h))
  from_obj key (str s) n h = absurd (ground (arith, h))
  from_obj key (arr xs) n h = absurd (ground (arith, h))

  from_arr :
      (key : Option String) (v : Json) (ys : Items)
      → redact key v ≡ some (arr ys)
      → is_listing key ≡ false
      → (xs : Items) × (redact_items py config inner xs ≡ some ys)
  unfolding redact_value
  from_arr key (arr xs) ys h l = (xs, ground (arith, h, l))
  from_arr key null ys h l = absurd (ground (arith, h))
  from_arr key (bool b) ys h l = absurd (ground (arith, h))
  from_arr key (int i) ys h l = absurd (ground (arith, h))
  from_arr key (flt i e) ys h l = absurd (ground (arith, h))
  from_arr key (str s) ys h l = absurd (ground (arith, h))
  from_arr key (obj m) ys h l = absurd (ground (arith, h))

  -- a member that is left is the redaction of one under the same key
  from_member :
      (m n : Fields) (k : String) (w : Json)
      → redact_fields py config inner m ≡ some n
      → get n k ≡ some w
      → (v : Json) × (redact (some k) v ≡ some w)
  unfolding redact_value get
  from_member end n k w h g =
      let empty : end ≡ n = ground (arith, h) in absurd (cc (ap (λ o. get o k) empty, g))
  from_member (field j v m) n k w h g = elim (Option-cases (redact (some j) v)) [
    | inl e ↦ absurd (ground (arith, e))
    | inr e ↦ elim (Option-cases (redact_fields py config inner m)) [
      | inl f ↦ absurd (ground (arith, e.1, f))
      | inr f ↦
          let made : field j e.0 f.0 ≡ n = ground (arith, e.1, f.1) in
          let found : get (field j e.0 f.0) k ≡ some w = ap (λ o. get o k) made ∙ g in
          elim (Bool-cases (j == k)) [
            | inl q ↦
                let same : e.0 ≡ w = ground (arith, q) in
                let key : j ≡ k = (eq_iff j k).0 q in
                (v, ap (λ i. redact (some i) v) (sym key) ∙ e.1 ∙ ap some same)
            | inr q ↦
                let rest : get f.0 k ≡ some w = ground (arith, q) in from_member m f.0 k w f.1 rest
          ]
    ]
  ]

  from_item :
      (xs ys : Items) (i : ℕ) (w : Json)
      → redact_items py config inner xs ≡ some ys
      → nth ys i ≡ some w
      → (v : Json) × (redact none v ≡ some w)
  unfolding redact_value nth
  from_item nil ys i w h g =
      let empty : nil ≡ ys = ground (arith, h) in absurd (cc (ap (λ o. nth o i) empty, g))
  from_item (cons v xs) ys i w h g = elim (Option-cases (redact none v)) [
    | inl e ↦ absurd (ground (arith, e))
    | inr e ↦ elim (Option-cases (redact_items py config inner xs)) [
      | inl f ↦ absurd (ground (arith, e.1, f))
      | inr f ↦
          let made : cons e.0 f.0 ≡ ys = ground (arith, e.1, f.1) in
          at_index i f.0 e.0 (ap (λ o. nth o i) made ∙ g) e.1
            (λ n rest. from_item xs f.0 n w f.1 rest)
    ]
  ]
    where
      at_index :
          (n : ℕ) (zs : Items) (z : Json)
          → nth (cons z zs) n ≡ some w
          → redact none v ≡ some z
          → ((k : ℕ) → nth zs k ≡ some w → (u : Json) × (redact none u ≡ some w))
          → (u : Json) × (redact none u ≡ some w)
      at_index zero zs z g e later = (v, e ∙ g)
      at_index (suc k) zs z g e later = later k g

  shown :
      (way : List Step) (key : Option String) (v r x : Json) (k : String)
      → redact key v ≡ some r
      → follow key way r ≡ some (some k, x)
      → is_secret_key py config k ≡ true
      → x ≡ str config.replacement
  unfolding follow is_hidden
  shown [] key v r x k h f secret =
      let at : key ≡ some k = ground (arith, f) in
      let here : r ≡ x = ground (arith, f) in
      let gone = hidden key v (ap (is_hidden py config) at ∙ secret) in cc (here, gone, h)
  shown (member j ∷ way) key v (obj n) x k h f secret =
      let m = from_obj key v n h in
      elim (Option-cases (get n j)) [
        | inl e ↦ absurd (ground (arith, e))
        | inr e ↦
            let u = from_member m.0 n j e.0 m.1 e.1 in
            let rest : follow (some j) way e.0 ≡ some (some k, x) = ground (arith, e.1) in
            shown way (some j) u.0 e.0 x k u.1 rest secret
      ]
  shown (item i ∷ way) key v (arr ys) x k h f secret = elim (Option-cases (nth ys i)) [
    | inl e ↦ absurd (ground (arith, e))
    | inr e ↦ elim (Bool-cases (is_listing key)) [
      | inl l ↦ absurd (ground (arith, e.1, l))
      | inr l ↦
          let xs = from_arr key v ys h l in
          let u = from_item xs.0 ys i e.0 xs.1 e.1 in
          let rest : follow none way e.0 ≡ some (some k, x) = ground (arith, e.1, l) in
          shown way none u.0 e.0 x k u.1 rest secret
    ]
  ]
  shown (_ ∷ way) key v _ x k h f secret = absurd (cc f)

module _ (py : Platform) (config : RedactionConfig) where
  -- In a value that was redacted, whatever stands under a secret key, however deep, is the
  -- replacement, except inside the lists of names that the redaction keeps and inside texts.
  pub redact_secrets-hides :
      (depth : ℕ) (way : List Step) (v r x : Json) (k : String)
      → redact_secrets py config depth v ≡ some r
      → follow none way r ≡ some (some k, x)
      → is_secret_key py config k ≡ true
      → x ≡ str config.replacement
  unfolding redact_secrets
  redact_secrets-hides zero way v r x k h f secret =
      shown py config (λ w. none) way none v r x k h f secret
  redact_secrets-hides (suc depth) way v r x k h f secret =
      shown py config (redact_secrets py config depth) way none v r x k h f secret
