-- ===== src/Mounts/Headers.antt =====
-- The headers that snulbug/http_routes.py sends to an upstream.
use text.Mathlib.Text.{starts_with}
use snulbug.Base.{
  String, Bool, not, ◌&&◌, ◌||◌, Option, none, some, List, [], ◌∷◌, ◌++◌, map, keep, contains,
  or_else, ◌==◌, if◌then◌else◌,
}
use snulbug.Base.Asgi.{Header, Scope}
use snulbug.Origin.{PublicOrigin, origin_headers}
use snulbug.Mounts.{Platform, Route}

abbrev pub hop_headers : List String
hop_headers =
    "connection" ∷ "keep-alive" ∷ "proxy-authenticate" ∷ "proxy-authorization" ∷ "proxy-connection"
    ∷ "te" ∷ "trailer" ∷ "transfer-encoding" ∷ "upgrade" ∷ []

-- the test of the loop of `_request_headers`, for a name in lower case
unfoldable pub is_forwarded : String → Route → Header → Bool
is_forwarded lease_header route h =
    not (h.0 == "host")
    && not (
        starts_with h.0 "x-snulbug-"
        || starts_with h.0 "x-forwarded-"
        || contains (lease_header ∷ "forwarded" ∷ "dpop" ∷ []) h.0
        || (h.0 == "authorization" && not route.forward_authorization)
        || (h.0 == "cookie" && not route.forward_cookies))

-- `original_host` after the loop
unfoldable pub original_host : String → List Header → String
original_host host [] = host
original_host host ((name, value) ∷ headers) =
    original_host (if name == "host" then value else host) headers

module _ (py : Platform) where
  abbrev pub lower : String → String
  lower = py.library.lower

  -- the names that the Connection headers list
  unfoldable pub connection_tokens : List Header → List String
  connection_tokens [] = []
  connection_tokens ((name, value) ∷ headers) =
      let rest = connection_tokens headers in
      if lower name == "connection"
      then map (λ token. lower (py.strip token)) (py.split_commas value) ++ rest
      else rest

  abbrev pub is_end_to_end : List String → Header → Bool
  is_end_to_end tokens h =
      not (contains hop_headers (lower h.0)) && not (contains tokens (lower h.0))

  unfoldable pub end_to_end_headers : List Header → List Header
  end_to_end_headers headers =
      map (λ h. (lower h.0, h.1)) (keep (is_end_to_end (connection_tokens headers)) headers)

  -- what stands after the headers of the client, for the origin that was read
  unfoldable pub gateway_headers : Route → Scope → Option PublicOrigin → List Header
  unfolding original_host
  gateway_headers route scope origin =
      let host = original_host "" (end_to_end_headers scope.headers) in
      elim origin [
        | some o ↦
            origin_headers py.library o
            ++ (if route.preserve_host then ("host", o.authority) ∷ [] else [])
        | none ↦
            (if host == "" then [] else ("x-forwarded-host", host) ∷ [])
            ++ (("x-forwarded-proto", or_else scope.scheme "http") ∷ [])
      ]
      ++ (("x-forwarded-prefix", route.prefix) ∷ [])
      ++ elim scope.client [ none ↦ [] | some client ↦ ("x-forwarded-for", client) ∷ [] ]

  -- `_request_headers`, for the origin that public_origin(route["public_origin"]) reads
  unfoldable pub request_headers : String → Scope → Route → Option PublicOrigin → List Header
  unfolding gateway_headers is_forwarded end_to_end_headers
  request_headers lease_header scope route origin =
      keep (is_forwarded lease_header route) (end_to_end_headers scope.headers)
      ++ gateway_headers route scope origin
