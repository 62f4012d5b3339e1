-- ===== src/Activation.antt =====
-- snulbug/policy_activation.py: the activation of an approved policy bundle. The bundles of
-- snulbug/bundle.py are an interface, whose state is what is stored of them; a path is a text.
pub mod Reports
pub mod Reconcile
pub mod Configured
pub mod Verified
pub mod Promoted
mod Tests
use snulbug.Base.{String, Bool, true, false, Option, none, some, ◌==◌, if◌then◌else◌}
use snulbug.Base.Result.{Result, ok, err}
use snulbug.Base.Json.{
  Json, Fields, null, bool, int, flt, str, arr, obj, end, field, get, mapping, either,
}

-- what promote_bundle_lifecycle is called with, apart from the state "active"
pub record Promotion : Type 0 where
  pub secret : String
  pub key_id : String
  pub actor : String
  pub note : String
  pub instruction_limit : Json
  pub memory_limit_bytes : Json

-- What the file calls; an exception is its text.
pub record Bundles (World : Type 0) : Type 0 where
  -- load_bundle(policy.parent), as its entrypoint and its root
  pub load_bundle : World → String → Result String (String × String)
  pub inspect_bundle_lifecycle : World → String → Result String Fields
  -- verify_bundle_lifecycle(root, secrets={key_id: secret}, required_state=state)
  pub verify_bundle_lifecycle : World → String → String → String → String → Result String Json
  pub promote_bundle_lifecycle : World → String → Promotion → Result String Fields × World

-- What the file takes from Python's library.
pub record Platform : Type 0 where
  pub parent : String → String
  -- path.resolve(), where it raises no OSError
  pub resolve : String → Option String
  pub str : Json → String
  pub int : Json → Result String Json
  -- os.environ.get(name, "")
  pub environ : String → String
  -- 8 * 1024 * 1024 and 100_000
  pub memory_limit : Json
  pub instruction_limit : Json
  -- str(Path(text)), and the repr of a text
  pub path : String → String
  pub repr : String → String

-- a text that is not empty
abbrev pub text_of : Option Json → Option String
text_of (some (str s)) = if s == "" then none else some s
text_of _ = none

-- `_activation_key_id`
unfoldable pub activation_key_id : Fields → Fields → String
activation_key_id activation lifecycle = elim (text_of (get activation "key_id")) [
  | some key ↦ key
  | none ↦ elim (text_of (get (mapping (get lifecycle "signature")) "key_id")) [
    | some key ↦ key
    | none ↦ ""
  ]
]

module _ (py : Platform) where
  -- `_memory_limit`
  unfoldable pub memory_limit_of : Option Json → Result String Json
  memory_limit_of none = ok py.memory_limit
  memory_limit_of (some null) = ok py.memory_limit
  memory_limit_of (some (str s)) = if s == "none" then ok null else py.int (str s)
  memory_limit_of (some value) = py.int value

  -- str(activation.get(key) or default)
  abbrev pub text_or : Fields → String → String → String
  text_or activation key default = elim (either (get activation key) (some (str default))) [
    | none ↦ default
    | some value ↦ py.str value
  ]

  -- int(activation.get("instruction_limit") or 100_000)
  unfoldable pub instructions_of : Fields → Result String Json
  instructions_of activation =
      elim (either (get activation "instruction_limit") (some py.instruction_limit)) [
        | none ↦ ok py.instruction_limit
        | some value ↦ py.int value
      ]

  -- the root of the loaded bundle, if the policy is its entrypoint
  unfoldable pub root_of : String → Result String (String × String) → Option String
  root_of policy (err e) = none
  root_of policy (ok (entrypoint, root)) = elim (py.resolve entrypoint) [
    | none ↦ none
    | some there ↦ elim (py.resolve policy) [
      | none ↦ none
      | some here ↦ if there == here then some root else none
    ]
  ]

  unfoldable pub policy_bundle_root :
      {World : Type 0} → Bundles World → World → String → Option String
  unfolding root_of
  policy_bundle_root bundles w policy = root_of policy (bundles.load_bundle w (py.parent policy))
