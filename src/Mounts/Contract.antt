-- ===== src/Mounts/Contract.antt =====
-- The contract of a mount of snulbug/http_routes.py. A mount that was checked is a record; a key that
-- the code leaves out is none.
use text.Mathlib.Text.{starts_with}
use snulbug.Base.{
  ℕ, String, Bool, true, false, not, ◌&&◌, Option, none, some, List, [], ◌∷◌, any, all, contains,
  is_some, is_empty, or_else, ◌==◌, ltb, leb, if◌then◌else◌,
}
use snulbug.Base.Result.{Result, ok, err, ◌>>=◌}
use snulbug.Base.Int.{pos}
use snulbug.Base.Json.{Json, Fields, bool, int, flt, str, arr, get, as_strs}
use snulbug.Origin.{SplitUrl, any_char, has_part, url}
use snulbug.Origin
use snulbug.Base.Sort.{sorted_texts}
use snulbug.Mounts.{Platform, Target, MountError, Route, path_matches}
use snulbug.Mounts as Mounts

-- what `_normalize_contract` keeps
pub record Contract : Type 0 where
  pub auth : Option String
  pub forward_authorization : Option Bool
  pub forward_cookies : Option Bool
  pub preserve_host : Option Bool
  pub methods : Option (List String)
  pub timeout : Option Json
  pub health_path : Option String
  pub health_status : Option ℕ

-- an element of what `normalize_http_routes` returns
pub record Mount : Type 0 where
  pub prefix : String
  pub upstream : String
  pub strip_prefix : Bool
  pub contract : Contract

abbrev http_methods : List String
http_methods = "GET" ∷ "HEAD" ∷ "POST" ∷ "PUT" ∷ "PATCH" ∷ "DELETE" ∷ "OPTIONS" ∷ []

-- `assert`: raise e unless the test holds
abbrev pub check : Bool → MountError → Result MountError (Unit {0})
check true e = ok tt
check false e = err e

-- len(set(xs)) == len(xs)
unfoldable are_unique : List String → Bool
are_unique [] = true
are_unique (x ∷ xs) = not (contains xs x) && are_unique xs

-- `contract[key]`, if it is there and a boolean
unfoldable flag : Fields → String → Result MountError (Option Bool)
flag route key = elim (get route key) [
  | none ↦ ok none
  | some (bool b) ↦ ok (some b)
  | some _ ↦ err Mounts.not_bool
]

unfoldable auth_of : Fields → Result MountError (Option String)
auth_of route = elim (get route "auth") [
  | none ↦ ok none
  | some (str s) ↦
      if contains ("public" ∷ "upstream" ∷ []) s then ok (some s) else err Mounts.invalid_auth
  | some _ ↦ err Mounts.invalid_auth
]

unfoldable methods_of : Fields → Result MountError (Option (List String))
unfolding sorted_texts are_unique
methods_of route = elim (get route "methods") [
  | none ↦ ok none
  | some (arr xs) ↦ elim (as_strs xs) [
    | none ↦ err Mounts.invalid_methods
    | some methods ↦
        if not (is_empty methods) && all (contains http_methods) methods && are_unique methods
        then ok (some (sorted_texts methods))
        else err Mounts.invalid_methods
  ]
  | some _ ↦ err Mounts.invalid_methods
]

-- `timeout > 0` for a number that is no boolean
abbrev is_positive : Json → Bool
is_positive (int (pos n)) = ltb 0 n
is_positive (flt (pos n) e) = ltb 0 n
is_positive _ = false

-- `200 <= status < 300`
abbrev success_status : Json → Option ℕ
success_status (int (pos n)) = if leb 200 n && ltb n 300 then some n else none
success_status _ = none

-- what `http_route_contract` returns, for the origin that was read
unfoldable pub contract_for : Mount → Json → Option String → Route
unfolding sorted_texts
contract_for mount timeout origin =
    let c = mount.contract in
    let trusted = not (elim c.auth [ none ↦ false | some s ↦ s == "public" ]) in
    record {
      prefix = mount.prefix;
      upstream = mount.upstream;
      strip_prefix = mount.strip_prefix;
      auth = or_else c.auth "undeclared";
      methods = sorted_texts (or_else c.methods http_methods);
      forward_authorization = or_else c.forward_authorization trusted;
      forward_cookies = or_else c.forward_cookies trusted;
      preserve_host = or_else c.preserve_host false;
      public_origin = origin;
      timeout = or_else c.timeout timeout;
      health_path = c.health_path;
      health_status = or_else c.health_status 200;
    }

module _ (py : Platform) where
  unfoldable timeout_of : Fields → Result MountError (Option Json)
  timeout_of route = elim (get route "timeout") [
    | none ↦ ok none
    | some value ↦ elim (py.float value) [
      | none ↦ err Mounts.invalid_timeout
      | some number ↦ if is_positive value then ok (some number) else err Mounts.invalid_timeout
    ]
  ]

  -- whether a segment is "." or ".."
  abbrev pub has_dots : String → Bool
  has_dots path = any (contains ("." ∷ ".." ∷ [])) (py.split_slashes path)

  unfoldable health_path_of : Fields → Result MountError (Option String)
  health_path_of route = elim (get route "health_path") [
    | none ↦ ok none
    | some (str path) ↦
        if starts_with path "/"
          && not (has_part path "//")
          && py.quote path == path
          && not (has_dots path)
        then ok (some path)
        else err Mounts.invalid_health_path
    | some _ ↦ err Mounts.invalid_health_path
  ]

  unfoldable health_status_of : Fields → Result MountError (Option ℕ)
  health_status_of route = elim (get route "health_status") [
    | none ↦ ok none
    | some value ↦
        if is_some (get route "health_path")
        then elim (success_status value) [
          | none ↦ err Mounts.invalid_health_status
          | some n ↦ ok (some n)
        ]
        else err Mounts.invalid_health_status
  ]

  unfoldable pub normalize_contract : Fields → Result MountError Contract
  unfolding flag auth_of methods_of timeout_of health_path_of health_status_of
  normalize_contract route = auth_of route >>= λ auth.
      flag route "forward_authorization" >>= λ authorization.
      flag route "forward_cookies" >>= λ cookies. flag route "preserve_host" >>= λ host.
      methods_of route >>= λ methods. timeout_of route >>= λ timeout.
      health_path_of route >>= λ path. health_status_of route >>= λ status. ok (record {
        auth = auth;
        forward_authorization = authorization;
        forward_cookies = cookies;
        preserve_host = host;
        methods = methods;
        timeout = timeout;
        health_path = path;
        health_status = status;
      })

  unfoldable pub http_route_contract : Json → Option String → Mount → Result MountError Route
  http_route_contract timeout public_url mount = elim (Origin.public_origin py.library public_url) [
    | err _ ↦ err Mounts.invalid_public_url
    | ok origin ↦
        if or_else mount.contract.preserve_host false && not (is_some origin)
        then err Mounts.preserve_host_without_origin
        else ok (contract_for mount timeout (elim origin [ none ↦ none | some o ↦ some (url o) ]))
  ]
