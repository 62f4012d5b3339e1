-- ===== src/Mounts/Normalize.antt =====
-- The checks of snulbug/http_routes.py on configured mounts.
use Prim.Native.Char.{code}
use text.Mathlib.Text.{starts_with}
use snulbug.Base.{
  ℕ, String, Bool, true, false, not, ◌&&◌, ◌||◌, Option, none, some, List, [], ◌∷◌, any, all,
  contains, is_some, ◌==◌, ltb, leb, eqb, if◌then◌else◌,
}
use snulbug.Base.Result.{Result, ok, err, ◌>>=◌}
use snulbug.Base.Json.{Json, Items, Fields, bool, str, arr, obj, nil, cons, get, keys}
use snulbug.Origin.{SplitUrl, any_char, has_part}
use snulbug.Mounts.{Platform, Target, MountError, Route, path_matches}
use snulbug.Mounts as Mounts
use snulbug.Mounts.Contract.{Mount, check, has_dots, normalize_contract}

abbrev pub route_fields : List String
route_fields =
    "prefix" ∷ "upstream" ∷ "strip_prefix" ∷ "auth" ∷ "methods" ∷ "forward_authorization"
    ∷ "forward_cookies" ∷ "preserve_host" ∷ "timeout" ∷ "health_path" ∷ "health_status" ∷ []

module _ (py : Platform) where
  -- the test of `prefix`
  unfoldable pub is_valid_prefix : String → Bool
  unfolding any_char
  is_valid_prefix prefix =
      starts_with prefix "/"
      && not (any_char (λ c. leb 128 (code c)) prefix)
      && not (any_char (λ c. py.isspace c || ltb (code c) 32 || eqb (code c) 127) prefix)
      && not (any (has_part prefix) ("?" ∷ "#" ∷ "%" ∷ "\\" ∷ []))
      && py.quote prefix == prefix
      && not (has_part prefix "//")
      && not (has_dots py prefix)

  -- mcp_path.rstrip("/") or "/", "/.well-known", "/snulbug"
  abbrev pub reserved : String → List String
  reserved mcp_path =
      let root = py.rstrip_slashes mcp_path in
      (if root == "" then "/" else root) ∷ "/.well-known" ∷ "/snulbug" ∷ []

  unfoldable pub overlaps : String → String → Bool
  overlaps mcp_path prefix =
      prefix == ""
      || any (λ item. item == "/" || path_matches prefix item || path_matches item prefix)
          (reserved mcp_path)

  -- the tests of the parsed upstream, for its port
  unfoldable is_plain_upstream : String → SplitUrl → Option ℕ → Bool
  is_plain_upstream upstream parsed port =
      contains ("http" ∷ "https" ∷ []) parsed.scheme
      && elim parsed.hostname [ none ↦ false | some host ↦ not (host == "") ]
      && not (is_some parsed.username)
      && not (is_some parsed.password)
      && parsed.query == ""
      && parsed.fragment == ""
      && not (has_part upstream "\\")
      && elim port [ none ↦ true | some n ↦ not (eqb n 0) ]

  unfoldable check_upstream : String → Result MountError (Unit {0})
  unfolding is_plain_upstream any_char
  check_upstream upstream =
      check (not (any_char (λ c. py.isspace c || ltb (code c) 32) upstream)) Mounts.invalid_upstream
      >>= λ _. elim (py.library.urlsplit upstream) [
        | none ↦ err Mounts.invalid_upstream
        | some parsed ↦ elim parsed.port [
          | none ↦ err Mounts.invalid_upstream
          | some port ↦ check (is_some (py.httpx_url upstream)) Mounts.invalid_upstream >>= λ _.
              check (is_plain_upstream upstream parsed port) Mounts.upstream_not_plain
        ]
      ]

  -- `prefix` as the code checks it, without its last slashes
  unfoldable pub prefix_of : String → List String → Option Json → Result MountError String
  unfolding is_valid_prefix
  prefix_of mcp_path prefixes (some (str given)) =
      let prefix = py.rstrip_slashes given in
      check (is_valid_prefix given) Mounts.invalid_prefix >>= λ _.
      check (not (overlaps mcp_path prefix)) Mounts.overlapping >>= λ _.
      check (not (contains prefixes prefix)) Mounts.duplicate >>= λ _. ok prefix
  prefix_of mcp_path prefixes _ = err Mounts.invalid_prefix

  unfoldable pub upstream_of : Fields → Result MountError String
  unfolding check_upstream
  upstream_of route = elim (get route "upstream") [
    | some (str upstream) ↦ check_upstream upstream >>= λ _. ok upstream
    | _ ↦ err Mounts.invalid_upstream
  ]

  unfoldable pub strip_of : Fields → Result MountError Bool
  strip_of route = elim (get route "strip_prefix") [
    | none ↦ ok true
    | some (bool b) ↦ ok b
    | some _ ↦ err Mounts.strip_prefix_not_bool
  ]

  -- One round of the loop, with `prefixes`.
  unfoldable pub normalize_route : String → List String → Json → Result MountError Mount
  unfolding upstream_of strip_of normalize_contract
  normalize_route mcp_path prefixes (obj route) =
      check (all (contains route_fields) (keys route)) Mounts.unsupported_fields >>= λ _.
      prefix_of mcp_path prefixes (get route "prefix") >>= λ prefix.
      upstream_of route >>= λ upstream. strip_of route >>= λ strip.
      normalize_contract py route >>= λ contract. ok (record {
        prefix = prefix;
        upstream = py.rstrip_slashes upstream;
        strip_prefix = strip;
        contract = contract;
      })
  normalize_route mcp_path prefixes _ = err Mounts.unsupported_fields

  -- the loop
  unfoldable pub normalize_items : String → List String → Items → Result MountError (List Mount)
  normalize_items mcp_path prefixes nil = ok []
  normalize_items mcp_path prefixes (cons route routes) =
      normalize_route mcp_path prefixes route >>= λ mount.
      normalize_items mcp_path (mount.prefix ∷ prefixes) routes >>= λ mounts. ok (mount ∷ mounts)

  unfoldable pub normalize_http_routes : String → Json → Result MountError (List Mount)
  normalize_http_routes mcp_path (arr routes) = normalize_items mcp_path [] routes
  normalize_http_routes mcp_path _ = err Mounts.not_an_array
