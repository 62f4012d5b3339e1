-- ===== src/Activation/Promoted.antt =====
-- Which bundles snulbug/policy_activation.py promotes.
use snulbug.Base.{
  ◌≡◌, ◌≢◌, refl, sym, ◌∙◌, ◌⊎◌, inl, inr, String, Option, none, some, on_if, Bool-cases, eq_iff,
  ◌==◌,
}
use snulbug.Base.Result.{Result, ok, err}
use snulbug.Base.Json.{Json, Fields, null, bool, int, flt, str, arr, obj, get, mapping}
use snulbug.Activation.{Bundles, Platform, Promotion, policy_bundle_root}
use snulbug.Activation.Configured.{Inspected, target}
use snulbug.Activation.Reports.{Target, is_ok, or_null}
use snulbug.Activation.Reconcile.{
  verify, after_promotion, promotion_of, promoted, promote_approved, activate, target_of,
  with_lifecycle, with_root, with_policy, activation_of, mode_of, reconcile,
}

module _ (py : Platform) {World : Type 0} (bundles : Bundles World) (w : World) where
  -- What is stored is what was, or what the promotion of the target leaves that is approved and
  -- verifies as approved.
  abbrev IsPromoted : Target → World → Type 0
  IsPromoted t after =
      (after ≡ w)
      ⊎ ((approved : Json) × (promotion : Promotion) × (t.mode ≢ "require_active")
          × (t.state ≡ "approved")
          × (verify py bundles w t "approved" ≡ ok approved)
          × (after ≡ (bundles.promote_bundle_lifecycle w t.root promotion).1))

  -- The promotion of the configured bundle, which the inspection found approved and which verified
  -- as approved, when the mode is neither off nor require_active.
  abbrev pub IsGuarded : Fields → World → Type 0
  IsGuarded fabric after =
      (c : Inspected py bundles w fabric) × (approved : Json) × (promotion : Promotion) × (mode_of
          py fabric
        ≢ "off")
      × (mode_of py fabric ≢ "require_active")
      × (py.str (or_null (get c.lifecycle "state")) ≡ "approved")
      × (verify py bundles w (target py bundles w fabric c) "approved" ≡ ok approved)
      × (after ≡ (bundles.promote_bundle_lifecycle w c.root promotion).1)

  after_promotion-world :
      (t : Target) (approved : Json) (made : Result String Fields × World)
      → (after_promotion py bundles t approved made).1 ≡ made.1
  unfolding after_promotion
  after_promotion-world t approved (err e, u) = refl
  after_promotion-world t approved (ok made, u) =
      on_if (λ (r : Fields × World). r.1 ≡ u) (is_ok made) refl refl

  promoted-world :
      (t : Target) (made : Result String Promotion)
      → ((promoted py bundles w t made).1 ≡ w)
        ⊎ ((promotion : Promotion) × ((promoted py bundles w t made).1
              ≡ (bundles.promote_bundle_lifecycle w t.root promotion).1))
  unfolding promoted
  promoted-world t (err e) = inl refl
  promoted-world t (ok promotion) = inr (promotion, refl)

  promote_approved-IsPromoted :
      (activation : Fields) (t : Target) (v : Result String Json)
      → t.mode ≢ "require_active"
      → t.state ≡ "approved"
      → verify py bundles w t "approved" ≡ v
      → IsPromoted t (promote_approved py bundles w activation t v).1
  unfolding promote_approved
  promote_approved-IsPromoted activation t (err e) m s q = inl refl
  promote_approved-IsPromoted activation t (ok approved) m s q =
      let made = promoted py bundles w t (promotion_of py bundles activation t) in
      let world = after_promotion-world t approved made in
      elim (promoted-world t (promotion_of py bundles activation t)) [
        | inl e ↦ inl (world ∙ e)
        | inr e ↦ inr (approved, e.0, m, s, q, world ∙ e.1)
      ]

  activate-IsPromoted :
      (activation : Fields) (t : Target) → IsPromoted t (activate py bundles w activation t).1
  unfolding activate
  activate-IsPromoted activation t = on_if P (t.secret == "") (inl refl) (
      on_if P (t.key_id == "") (inl refl) (elim (Bool-cases (t.mode == "require_active")) [
        | inl e ↦ rw (e) (inl refl)
        | inr e ↦ rw (e) (
            on_if P (t.state == "active") (inl refl) (elim (Bool-cases (t.state == "approved")) [
              | inl f ↦ rw (f) (
                  promote_approved-IsPromoted activation t _
                    (λ q. absurd (cc (e, (eq_iff t.mode "require_active").1 q)))
                    ((eq_iff t.state "approved").0 f) refl)
              | inr f ↦ rw (f) (inl refl)
            ]))
      ]))
    where
      P : Fields × World → Type 0
      P r = IsPromoted t r.1

  state_text :
      (found : Option Json)
      → elim found [ none ↦ py.str null | some s ↦ py.str s ] ≡ py.str (or_null found)
  state_text none = refl
  state_text (some s) = refl

  -- the state of the target is the one that the inspection found
  target-state :
      (fabric : Fields) (c : Inspected py bundles w fabric)
      → (target py bundles w fabric c).state ≡ py.str (or_null (get c.lifecycle "state"))
  unfolding target_of
  target-state fabric c = state_text (get c.lifecycle "state")

  target-IsGuarded :
      (fabric : Fields) (c : Inspected py bundles w fabric) (after : World)
      → mode_of py fabric ≢ "off"
      → IsPromoted (target py bundles w fabric c) after
      → (after ≡ w) ⊎ IsGuarded fabric after
  unfolding target_of
  target-IsGuarded fabric c after on (inl same) = inl same
  target-IsGuarded fabric c after on (inr (approved, promotion, mode, state, verified, made)) =
      inr (c, approved, promotion, on, mode, sym (target-state fabric c) ∙ state, verified, made)

  with_lifecycle-IsGuarded :
      (fabric : Fields) (value : Json) (root : String) (found : Result String Fields)
      → mode_of py fabric ≢ "off"
      → get (mapping (get fabric "proxy")) "policy" ≡ some value
      → policy_bundle_root py bundles w (py.path (py.str value)) ≡ some root
      → bundles.inspect_bundle_lifecycle w root ≡ found
      → ((with_lifecycle py bundles w
            (activation_of fabric)
            (mode_of py fabric)
            (py.path (py.str value))
            root
            found).1
          ≡ w)
        ⊎ IsGuarded fabric
            (with_lifecycle py bundles w
              (activation_of fabric)
              (mode_of py fabric)
              (py.path (py.str value))
              root
              found).1
  unfolding with_lifecycle
  with_lifecycle-IsGuarded fabric value root (err e) on configured bundle inspected = inl refl
  with_lifecycle-IsGuarded fabric value root (ok lifecycle) on configured bundle inspected =
      let c : Inspected py bundles w fabric = record {
        value = value;
        root = root;
        lifecycle = lifecycle;
        configured = configured;
        bundle = bundle;
        inspected = inspected;
      } in
      target-IsGuarded fabric c _ on
        (activate-IsPromoted (activation_of fabric) (target py bundles w fabric c))

  with_root-IsGuarded :
      (fabric : Fields) (value : Json) (found : Option String)
      → mode_of py fabric ≢ "off"
      → get (mapping (get fabric "proxy")) "policy" ≡ some value
      → policy_bundle_root py bundles w (py.path (py.str value)) ≡ found
      → ((with_root py bundles w
            (activation_of fabric)
            (mode_of py fabric)
            (py.path (py.str value))
            found).1
          ≡ w)
        ⊎ IsGuarded fabric
            (with_root py bundles w
              (activation_of fabric)
              (mode_of py fabric)
              (py.path (py.str value))
              found).1
  unfolding with_root with_lifecycle
  with_root-IsGuarded fabric value none on configured bundle = inl refl
  with_root-IsGuarded fabric value (some root) on configured bundle =
      with_lifecycle-IsGuarded fabric value root _ on configured bundle refl

  with_policy-IsGuarded :
      (fabric : Fields) (value : Option Json)
      → mode_of py fabric ≢ "off"
      → get (mapping (get fabric "proxy")) "policy" ≡ value
      → ((with_policy py bundles w (activation_of fabric) (mode_of py fabric) value).1 ≡ w)
        ⊎ IsGuarded fabric
            (with_policy py bundles w (activation_of fabric) (mode_of py fabric) value).1
  unfolding with_policy
  with_policy-IsGuarded fabric none on h = inl refl
  with_policy-IsGuarded fabric (some null) on h = inl refl
  with_policy-IsGuarded fabric (some (bool b)) on h =
      with_root-IsGuarded fabric (bool b) _ on h refl
  with_policy-IsGuarded fabric (some (int n)) on h = with_root-IsGuarded fabric (int n) _ on h refl
  with_policy-IsGuarded fabric (some (flt n e)) on h =
      with_root-IsGuarded fabric (flt n e) _ on h refl
  with_policy-IsGuarded fabric (some (str s)) on h = with_root-IsGuarded fabric (str s) _ on h refl
  with_policy-IsGuarded fabric (some (arr xs)) on h =
      with_root-IsGuarded fabric (arr xs) _ on h refl
  with_policy-IsGuarded fabric (some (obj m)) on h = with_root-IsGuarded fabric (obj m) _ on h refl

  -- A reconciliation changes what is stored only by the promotion of the bundle of the configured
  -- policy, whose inspection gave the state "approved" and which verified as approved before, and
  -- only when the configured mode is neither off nor require_active.
  pub reconcile-IsGuarded :
      (fabric : Fields)
      → ((reconcile py bundles w fabric).1 ≡ w) ⊎ IsGuarded fabric (reconcile py bundles w fabric).1
  unfolding reconcile
  reconcile-IsGuarded fabric = elim (Bool-cases (mode_of py fabric == "off")) [
    | inl e ↦ inl (rw (e) refl)
    | inr e ↦
        let on : mode_of py fabric ≢ "off" =
          λ q. absurd (cc (e, (eq_iff (mode_of py fabric) "off").1 q)) in
        rw (e) (with_policy-IsGuarded fabric _ on refl)
  ]
