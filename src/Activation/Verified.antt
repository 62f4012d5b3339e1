-- ===== src/Activation/Verified.antt =====
-- What a report of snulbug/policy_activation.py promises.
use snulbug.Base.{
  ◌≡◌, refl, sym, ap, ◌∙◌, ◌⊎◌, inl, inr, String, true, false, Option, none, some, on_if, ◌==◌,
  Bool-cases, eq_iff,
}
use snulbug.Base.Result.{Result, ok, err}
use snulbug.Base.Json.{Json, Fields, null, bool, int, flt, str, arr, obj, get, get-put, mapping}
use snulbug.Activation.{Bundles, Platform, policy_bundle_root}
use snulbug.Activation.Configured.{Inspected, target}
use snulbug.Activation.Reports.{Target, failed, active_report, activated_report, is_ok}
use snulbug.Activation.Reconcile.{
  verify, after_promotion, promote_approved, activate, with_lifecycle, with_root, with_policy,
  reconcile, activation_of, mode_of,
}

module _ (py : Platform) {World : Type 0} (bundles : Bundles World) where
  -- A report that is ok has the verification of an active bundle, which holds of what is stored then.
  abbrev IsSound : Target → Fields × World → Type 0
  IsSound t r =
      get r.0 "ok" ≡ some (bool true)
      → (verified : Json) × (verify py bundles r.1 t "active" ≡ ok verified)
        × (get r.0 "verified" ≡ some verified)

  blocked-IsSound :
      (t : Target) (report : Fields) (w : World)
      → get report "ok" ≡ some (bool false)
      → IsSound t (report, w)
  blocked-IsSound t report w b h = absurd (cc (b, h))

  active_report-IsSound :
      (t : Target) (w : World) (v : Result String Json)
      → verify py bundles w t "active" ≡ v
      → IsSound t (active_report t.base v, w)
  unfolding active_report
  active_report-IsSound t w (err e) q h =
      blocked-IsSound t (active_report t.base (err e)) w (simp (get-put)) h
  active_report-IsSound t w (ok verified) q h = (verified, q, simp (get-put))

  activated_report-IsSound :
      (t : Target) (approved : Json) (made : Fields) (w : World) (v : Result String Json)
      → verify py bundles w t "active" ≡ v
      → IsSound t (activated_report t.base approved made v, w)
  unfolding activated_report
  activated_report-IsSound t approved made w (err e) q h =
      blocked-IsSound t (activated_report t.base approved made (err e)) w (simp (get-put)) h
  activated_report-IsSound t approved made w (ok verified) q h = (verified, q, simp (get-put))

  after_promotion-IsSound :
      (t : Target) (approved : Json) (made : Result String Fields × World)
      → IsSound t (after_promotion py bundles t approved made)
  unfolding after_promotion
  after_promotion-IsSound t approved (err e, w) = blocked-IsSound t _ w (simp (get-put))
  after_promotion-IsSound t approved (ok made, w) =
      on_if (IsSound t) (is_ok made)
        (activated_report-IsSound t approved made w (verify py bundles w t "active") refl)
        (blocked-IsSound t _ w (simp (get-put)))

  promote_approved-IsSound :
      (w : World) (activation : Fields) (t : Target) (v : Result String Json)
      → IsSound t (promote_approved py bundles w activation t v)
  unfolding promote_approved
  promote_approved-IsSound w activation t (err e) = blocked-IsSound t _ w (simp (get-put))
  promote_approved-IsSound w activation t (ok approved) = after_promotion-IsSound t approved _

  activate-IsSound :
      (w : World) (activation : Fields) (t : Target)
      → IsSound t (activate py bundles w activation t)
  unfolding activate
  activate-IsSound w activation t =
      on_if (IsSound t) (t.secret == "") (blocked-IsSound t _ w (simp (get-put))) (
        on_if (IsSound t) (t.key_id == "") (blocked-IsSound t _ w (simp (get-put))) (
          on_if (IsSound t) (t.mode == "require_active") (active_report-IsSound t w _ refl) (
            on_if (IsSound t) (t.state == "active") (active_report-IsSound t w _ refl) (
              on_if (IsSound t) (t.state == "approved") (promote_approved-IsSound w activation t _)
                (blocked-IsSound t _ w (simp (get-put)))))))

  -- A report that is ok holds what the verification of the configured bundle gives, as active and in
  -- what is stored then, where `w` was stored when the bundle was inspected.
  abbrev pub IsVerified : World → Fields → Fields → World → Type 0
  IsVerified w fabric report after =
      (c : Inspected py bundles w fabric) × (verified : Json) × (verify py bundles after
          (target py bundles w fabric c) "active"
        ≡ ok verified)
      × (get report "verified" ≡ some verified)

  abbrev Passes : World → Fields → Result String Fields × World → Type 0
  Passes w fabric r =
      (report : Fields)
      → r.0 ≡ ok report
      → get report "ok" ≡ some (bool true)
      → IsVerified w fabric report r.1

  with_lifecycle-Passes :
      (w : World) (fabric : Fields) (value : Json) (root : String) (found : Result String Fields)
      → get (mapping (get fabric "proxy")) "policy" ≡ some value
      → policy_bundle_root py bundles w (py.path (py.str value)) ≡ some root
      → bundles.inspect_bundle_lifecycle w root ≡ found
      → Passes w fabric (
          with_lifecycle py bundles w
            (activation_of fabric)
            (mode_of py fabric)
            (py.path (py.str value))
            root
            found)
  unfolding with_lifecycle
  with_lifecycle-Passes w fabric value root (err e) configured bundle inspected report q h =
      absurd (cc q)
  with_lifecycle-Passes w fabric value root (ok lifecycle) configured bundle inspected report q h =
      let c : Inspected py bundles w fabric = record {
        value = value;
        root = root;
        lifecycle = lifecycle;
        configured = configured;
        bundle = bundle;
        inspected = inspected;
      } in
      let t = target py bundles w fabric c in
      let made : (activate py bundles w (activation_of fabric) t).0 ≡ report = cc q in
      let sound = activate-IsSound w (activation_of fabric) t (ap (λ r. get r "ok") made ∙ h) in
      (c, sound.0, sound.1, ap (λ r. get r "verified") (sym made) ∙ sound.2)

  failed-Passes :
      (w : World) (fabric report : Fields)
      → get report "ok" ≡ some (bool false)
      → Passes w fabric (ok report, w)
  failed-Passes w fabric report b r q h =
      let same : report ≡ r = cc q in absurd (cc (b, ap (λ f. get f "ok") same, h))

  with_root-Passes :
      (w : World) (fabric : Fields) (value : Json) (found : Option String)
      → get (mapping (get fabric "proxy")) "policy" ≡ some value
      → policy_bundle_root py bundles w (py.path (py.str value)) ≡ found
      → Passes w fabric (
          with_root py bundles w
            (activation_of fabric)
            (mode_of py fabric)
            (py.path (py.str value))
            found)
  unfolding with_root failed get
  with_root-Passes w fabric value none configured bundle = failed-Passes w fabric _ (simp (get-put))
  with_root-Passes w fabric value (some root) configured bundle =
      with_lifecycle-Passes w fabric value root _ configured bundle refl

  with_policy-Passes :
      (w : World) (fabric : Fields) (value : Option Json)
      → get (mapping (get fabric "proxy")) "policy" ≡ value
      → Passes w fabric (with_policy py bundles w (activation_of fabric) (mode_of py fabric) value)
  unfolding with_policy failed get
  with_policy-Passes w fabric none h = failed-Passes w fabric _ (simp (get-put))
  with_policy-Passes w fabric (some null) h = failed-Passes w fabric _ (simp (get-put))
  with_policy-Passes w fabric (some (bool b)) h = with_root-Passes w fabric (bool b) _ h refl
  with_policy-Passes w fabric (some (int n)) h = with_root-Passes w fabric (int n) _ h refl
  with_policy-Passes w fabric (some (flt n e)) h = with_root-Passes w fabric (flt n e) _ h refl
  with_policy-Passes w fabric (some (str s)) h = with_root-Passes w fabric (str s) _ h refl
  with_policy-Passes w fabric (some (arr xs)) h = with_root-Passes w fabric (arr xs) _ h refl
  with_policy-Passes w fabric (some (obj m)) h = with_root-Passes w fabric (obj m) _ h refl

  -- When a reconciliation reports that it is ok, the configured mode is off, or the bundle of the
  -- configured policy, as it was inspected, verifies as active in what is stored when the call ends,
  -- and the report holds what that verification gives.
  pub reconcile-Passes :
      (w : World) (fabric report : Fields)
      → (reconcile py bundles w fabric).0 ≡ ok report
      → get report "ok" ≡ some (bool true)
      → (mode_of py fabric ≡ "off") ⊎ IsVerified w fabric report (reconcile py bundles w fabric).1
  unfolding reconcile
  reconcile-Passes w fabric report q h = elim (Bool-cases (mode_of py fabric == "off")) [
    | inl e ↦ inl ((eq_iff (mode_of py fabric) "off").0 e)
    | inr e ↦
        let checked = with_policy-Passes w fabric _ refl in
        inr (rw (e) (checked report (cc (e, q)) h))
  ]
