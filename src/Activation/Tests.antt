-- ===== src/Activation/Tests.antt =====
-- Activations of snulbug/policy_activation.py, where what is stored is the state of one bundle.
use snulbug.Base.{◌≡◌, refl, ap, ◌⊎◌, String, true, some, ◌==◌, if◌then◌else◌}
use snulbug.Base.Result.{ok, err}
use snulbug.Base.Int.{pos}
use snulbug.Base.Json
use snulbug.Base.Json.{Json, Fields, bool, int, str, obj, end, field, get}
use snulbug.Activation.{
  Bundles, Platform, activation_key_id, memory_limit_of, instructions_of, root_of,
  policy_bundle_root,
}
use snulbug.Activation.Reports.{activated_report}
use snulbug.Activation.Reconcile.{
  after_promotion, promotion_of, promoted, promote_approved, activate, target_of, with_lifecycle,
  with_root, with_policy, mode_of, reconcile,
}
use snulbug.Activation.Verified.{IsVerified, reconcile-Passes}
use snulbug.Activation.Promoted.{IsGuarded, reconcile-IsGuarded}

abbrev bundles : Bundles String
bundles = record {
  load_bundle = λ w path. ok ("policy.lua", "bundle");
  inspect_bundle_lifecycle = λ w root. ok (field "state" (str w) end);
  verify_bundle_lifecycle =
      λ w root key secret state. if w == state then ok (str "verified") else err "state";
  promote_bundle_lifecycle = λ w root promotion. (ok (field "ok" (bool true) end), "active");
}

abbrev text : Json → String
text (str s) = s
text _ = "None"

abbrev platform : Platform
platform = record {
  parent = λ s. s;
  resolve = λ s. some s;
  str = text;
  int = λ v. ok v;
  environ = λ name. "secret";
  path = λ s. s;
  repr = λ s. s;
  memory_limit = int (pos 8388608);
  instruction_limit = int (pos 100000);
}

abbrev fabric : Fields
fabric =
    field "policy_activation"
      (obj (field "mode" (str "promote_approved") (field "key_id" (str "k") end)))
      (field "proxy" (obj (field "policy" (str "policy.lua") end)) end)

abbrev report : Fields
report = field "mode" (str "promote_approved") (
    field "policy" (str "policy.lua") (
      field "bundle" (str "bundle") (
        field "name" Json.null (
          field "version" Json.null (
            field "previous_state" (str "approved") (
              field "secret_env" (str "SNULBUG_BUNDLE_SECRET") (
                field "key_id" (str "k") (
                  field "ok" (bool true) (
                    field "action" (str "activated") (
                      field "state" (str "active") (
                        field "activated" (bool true) (
                          field "approved_verification" (str "verified") (
                            field "validation" Json.null (
                              field "signature" Json.null
                                (field "verified" (str "verified") end)))))))))))))))

activates : reconcile platform bundles "approved" fabric ≡ (ok report, "active")
unfolding reconcile with_policy with_root with_lifecycle target_of activate promote_approved
    promoted promotion_of after_promotion activated_report activation_key_id memory_limit_of
    instructions_of root_of policy_bundle_root Json.get Json.put
activates = refl

keeps_draft : (reconcile platform bundles "draft" fabric).1 ≡ "draft"
unfolding reconcile with_policy with_root with_lifecycle target_of activate promote_approved
    promoted promotion_of after_promotion activated_report activation_key_id memory_limit_of
    instructions_of root_of policy_bundle_root Json.get Json.put
keeps_draft = refl

is_reported : get report "ok" ≡ some (bool true)
unfolding Json.get
is_reported = refl

reconcile-Passes_example :
    (mode_of platform fabric ≡ "off")
    ⊎ IsVerified platform bundles "approved" fabric report
        (reconcile platform bundles "approved" fabric).1
reconcile-Passes_example =
    reconcile-Passes platform bundles "approved" fabric report (ap (λ r. r.0) activates) is_reported

reconcile-IsGuarded_example :
    ((reconcile platform bundles "approved" fabric).1 ≡ "approved")
    ⊎ IsGuarded platform bundles "approved" fabric (reconcile platform bundles "approved" fabric).1
reconcile-IsGuarded_example = reconcile-IsGuarded platform bundles "approved" fabric
