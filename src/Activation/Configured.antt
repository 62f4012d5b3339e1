-- ===== src/Activation/Configured.antt =====
-- The bundle that a configuration of snulbug/policy_activation.py names.
use snulbug.Base.{◌≡◌, String, some}
use snulbug.Base.Result.{ok}
use snulbug.Base.Json.{Json, Fields, get, mapping}
use snulbug.Activation.{Bundles, Platform, policy_bundle_root}
use snulbug.Activation.Reports.{Target}
use snulbug.Activation.Reconcile.{activation_of, mode_of, target_of}

module _ (py : Platform) {World : Type 0} (bundles : Bundles World) (w : World) where
  -- The configured policy is the entrypoint of the bundle at `root`, whose inspection in what is
  -- stored gives `lifecycle`.
  pub record Inspected (fabric : Fields) : Type 0 where
    pub value : Json
    pub root : String
    pub lifecycle : Fields
    pub configured : get (mapping (get fabric "proxy")) "policy" ≡ some value
    pub bundle : policy_bundle_root py bundles w (py.path (py.str value)) ≡ some root
    pub inspected : bundles.inspect_bundle_lifecycle w root ≡ ok lifecycle

  -- What the activation works on for that bundle.
  abbrev pub target : (fabric : Fields) → Inspected fabric → Target
  target fabric c =
      target_of py bundles (activation_of fabric) (mode_of py fabric) (py.path (py.str c.value))
        c.root c.lifecycle
