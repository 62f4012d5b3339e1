-- ===== src/Activation/Reconcile.antt =====
-- `reconcile_policy_activation` of snulbug/policy_activation.py, for the configuration of a fabric.
use Prim.Native.String
use snulbug.Base.{String, true, Option, none, some, ◌==◌, if◌then◌else◌}
use snulbug.Base.Result.{Result, ok, err, ◌>>=◌}
use snulbug.Base.Json.{Json, Fields, null, bool, str, end, field, get, put, mapping}
use snulbug.Activation.Reports.{
  or_null, failed, blocked, active_report, activated_report, is_ok, Target,
}
use snulbug.Activation.{
  Bundles, Platform, Promotion, activation_key_id, memory_limit_of, text_or, instructions_of,
  policy_bundle_root,
}

-- `_activation_config`, of the configuration
abbrev pub activation_of : Fields → Fields
activation_of fabric = mapping (get fabric "policy_activation")

abbrev pub mode_of : Platform → Fields → String
mode_of py fabric = elim (get (activation_of fabric) "mode") [ none ↦ "off" | some m ↦ py.str m ]

module _ (py : Platform) {World : Type 0} (bundles : Bundles World) where
  abbrev pub verify : World → Target → String → Result String Json
  verify w t state = bundles.verify_bundle_lifecycle w t.root t.key_id t.secret state

  -- what follows a promotion, in the state that it leaves
  unfoldable pub after_promotion : Target → Json → Result String Fields × World → Fields × World
  unfolding activated_report
  after_promotion t approved (err e, w) = (
    put (put (put (blocked t.base end) "state" (str t.state)) "approved_verification" approved)
        "error" (str (String.◌++◌ "policy bundle promotion failed: " e)),
    w,
  )
  after_promotion t approved (ok promoted, w) =
      if is_ok promoted
      then (activated_report t.base approved promoted (verify w t "active"), w)
      else (
        put
            (put
              (put (put (blocked t.base end) "state" (str t.state)) "approved_verification"
                approved)
              "error"
              (elim (get promoted "error") [
                | none ↦ str "policy bundle promotion failed"
                | some e ↦ e
              ]))
            "validation" (or_null (get promoted "validation")),
        w,
      )

  -- the arguments of a promotion, whose conversions may raise
  unfoldable pub promotion_of : Fields → Target → Result String Promotion
  promotion_of activation t = instructions_of py activation >>= λ instructions.
      memory_limit_of py (get activation "memory_limit_bytes") >>= λ memory. ok (record {
        secret = t.secret;
        key_id = t.key_id;
        actor = text_or py activation "actor" "snulbug fabric controller";
        note = text_or py activation "note" "activated by fabric controller";
        instruction_limit = instructions;
        memory_limit_bytes = memory;
      })

  unfoldable pub promoted : World → Target → Result String Promotion → Result String Fields × World
  promoted w t (err e) = (err e, w)
  promoted w t (ok promotion) = bundles.promote_bundle_lifecycle w t.root promotion

  -- an approved bundle, for what its verification gives
  unfoldable pub promote_approved : World → Fields → Target → Result String Json → Fields × World
  unfolding after_promotion promotion_of promoted
  promote_approved w activation t (err e) = (
    put (put (blocked t.base end) "state" (str t.state)) "error"
        (str (String.◌++◌ "approved policy bundle verification failed: " e)),
    w,
  )
  promote_approved w activation t (ok approved) =
      after_promotion t approved (promoted w t (promotion_of activation t))

  -- from the check of the secret on
  unfoldable pub activate : World → Fields → Target → Fields × World
  unfolding active_report promote_approved
  activate w activation t =
      if t.secret == ""
      then (put (blocked t.base end) "error" (str (String.◌++◌ t.secret_env " is not set")), w)
      else if t.key_id == ""
      then (
        put (blocked t.base end) "error" (str "policy bundle signing key id is not configured"),
        w,
      )
      else if t.mode == "require_active"
      then (active_report t.base (verify w t "active"), w)
      else if t.state == "active"
      then (active_report t.base (verify w t "active"), w)
      else if t.state == "approved"
      then promote_approved w activation t (verify w t "approved")
      else (
        put (blocked t.base end) "error" (
            str (
              String.◌++◌ "policy bundle lifecycle state "
                (String.◌++◌ (py.repr t.state) " is not approved or active"))),
        w,
      )

  -- `base`, with the rest of what the activation works on
  unfoldable pub target_of : Fields → String → String → String → Fields → Target
  target_of activation mode policy root lifecycle =
      let secret_env = text_or py activation "secret_env" "SNULBUG_BUNDLE_SECRET" in
      let state : String = elim (get lifecycle "state") [
        | none ↦ py.str null
        | some s ↦ py.str s
      ] in
      let key_id = activation_key_id activation lifecycle in
      record {
        mode = mode;
        root = root;
        state = state;
        secret_env = secret_env;
        secret = py.environ secret_env;
        key_id = key_id;
        base = field "mode" (str mode) (
            field "policy" (str policy) (
              field "bundle" (str root) (
                field "name" (or_null (get lifecycle "name")) (
                  field "version" (or_null (get lifecycle "version")) (
                    field "previous_state" (str state)
                      (field "secret_env" (str secret_env) (field "key_id" (str key_id) end)))))));
      }

  -- for the lifecycle that is inspected
  unfoldable pub with_lifecycle :
      World
      → Fields
      → String
      → String
      → String
      → Result String Fields
      → Result String Fields × World
  unfolding activate target_of
  with_lifecycle w activation mode policy root (err e) = (err e, w)
  with_lifecycle w activation mode policy root (ok lifecycle) =
      let done = activate w activation (target_of activation mode policy root lifecycle) in
      (ok done.0, done.1)

  unfoldable pub with_root :
      World → Fields → String → String → Option String → Result String Fields × World
  unfolding with_lifecycle
  with_root w activation mode policy none =
      (ok (failed mode (String.◌++◌ "policy is not a bundle entrypoint: " policy) (some policy)), w)
  with_root w activation mode policy (some root) =
      with_lifecycle w activation mode policy root (bundles.inspect_bundle_lifecycle w root)

  unfoldable pub with_policy : World → Fields → String → Option Json → Result String Fields × World
  unfolding with_root policy_bundle_root failed
  with_policy w activation mode none =
      (ok (failed mode "mcp.proxy.policy is not configured" none), w)
  with_policy w activation mode (some null) =
      (ok (failed mode "mcp.proxy.policy is not configured" none), w)
  with_policy w activation mode (some value) =
      let policy = py.path (py.str value) in
      with_root w activation mode policy (policy_bundle_root py bundles w policy)

  -- The report, or the exception that leaves the call, and what is stored then.
  unfoldable pub reconcile : World → Fields → Result String Fields × World
  unfolding with_policy
  reconcile w fabric =
      let mode = mode_of py fabric in
      if mode == "off"
      then (
        ok (
            field "ok" (bool true) (
              field "mode" (str mode) (
                field "action" (str "skipped")
                  (field "reason" (str "policy activation is disabled") end)))),
        w,
      )
      else with_policy w (activation_of fabric) mode (get (mapping (get fabric "proxy")) "policy")
