-- ===== src/Activation/Reports.antt =====
-- The reports of snulbug/policy_activation.py, and what an activation works on.
use Prim.Native.String
use snulbug.Base.{String, Bool, true, false, Option, none, some}
use snulbug.Base.Result.{Result, ok, err}
use snulbug.Base.Json.{Json, Fields, null, bool, str, end, field, get, put, merge, truth}

abbrev pub or_null : Option Json → Json
or_null none = null
or_null (some v) = v

-- `_failed`
unfoldable pub failed : String → String → Option String → Fields
failed mode error policy =
    merge (field "ok" (bool false) (field "mode" (str mode) (field "action" (str "blocked") end)))
      (elim policy [
        | none ↦ field "error" (str error) end
        | some p ↦ field "policy" (str p) (field "error" (str error) end)
      ])

-- {**base, "ok": False, "action": "blocked", ...}
abbrev pub blocked : Fields → Fields → Fields
blocked base rest = merge (put (put base "ok" (bool false)) "action" (str "blocked")) rest

-- what `_verify_active` returns
unfoldable pub active_report : Fields → Result String Json → Fields
active_report base (err e) =
    put (put (blocked base end) "state" (or_null (get base "previous_state"))) "error" (str e)
active_report base (ok verified) =
    put
      (put
        (put (put (put base "ok" (bool true)) "action" (str "verified_active")) "state"
          (str "active"))
        "activated" (bool false))
      "verified" verified

-- What the activation works on: the configured policy, its bundle and its signing key.
pub record Target : Type 0 where
  pub mode : String
  pub root : String
  pub state : String
  pub secret_env : String
  pub secret : String
  pub key_id : String
  pub base : Fields

-- the report of a promotion, for what verifies afterwards
unfoldable pub activated_report : Fields → Json → Fields → Result String Json → Fields
activated_report base approved promoted (err e) =
    put
      (put
        (put (put (put (blocked base end) "state" (str "active")) "approved_verification" approved)
          "validation" (or_null (get promoted "validation")))
        "signature" (or_null (get promoted "signature")))
      "error" (str (String.◌++◌ "activated policy bundle verification failed: " e))
activated_report base approved promoted (ok verified) =
    put
      (put
        (put
          (put
            (put
              (put (put (put base "ok" (bool true)) "action" (str "activated")) "state"
                (str "active"))
              "activated" (bool true))
            "approved_verification" approved)
          "validation" (or_null (get promoted "validation")))
        "signature" (or_null (get promoted "signature")))
      "verified" verified

-- promoted.get("ok")
abbrev pub is_ok : Fields → Bool
is_ok promoted = elim (get promoted "ok") [ none ↦ false | some v ↦ truth v ]
