-- ===== src/Mounts/Serve.antt =====
-- `HttpRoutesMiddleware` of snulbug/http_routes.py: the choice of a mount, and the proxying of one
-- request. The requests over the network are a parameter; a reply is what httpx gives in the end.
use Prim.Native.String.{len, count, slice}
use Prim.Native.String
use snulbug.Base.{
  ℕ, zero, suc, String, Bool, true, false, not, ◌&&◌, ◌||◌, Option, none, some, List, [], ◌∷◌, ◌++◌,
  map, keep, find, contains, or_else, is_empty, ◌==◌, if◌then◌else◌,
}
use snulbug.Base.Result.{Result, ok, ◌>>=◌}
use snulbug.Base.Json.{Json}
use snulbug.Base.Sort.{sorted_falling}
use snulbug.Base.Asgi.{Header, Scope, Sent, websocket_close, response_start, response_body}
use snulbug.Origin.{public_origin, PublicOrigin, OriginError}
use snulbug.Mounts.{Platform, Target, MountError, Route, path_matches}
use snulbug.Mounts.Contract.{Mount, has_dots, http_route_contract}
use snulbug.Mounts.Normalize.{normalize_http_routes}
use snulbug.Mounts.Headers.{end_to_end_headers, request_headers}

-- A message of the client; it leaves after the last one.
pub data Received : Type 0 where
  -- http.request with its body and `more_body`, "" and false when they are left out
  request_body : String → Bool → Received
  disconnect : Received

-- What httpx sends as the body: none, or the chunks that `body()` yields. The generator stops when
-- the body has ended, or raises when the client has left, which is false.
pub data Content : Type 0 where
  no_body : Content
  streamed : List String → Bool → Content

pub record Request : Type 0 where
  pub method : String
  pub target : String
  pub headers : List Header
  pub content : Content
  pub timeout : Json

-- What may be raised out of the exchange: `_ClientDisconnected` of the body, httpx.TimeoutException,
-- httpx.HTTPError or OSError, or anything else.
pub data Failure : Type 0 where
  client_disconnected timed_out unavailable other : Failure

-- The exchange: it fails before there is a response, or there is one with chunks, which come to their
-- end or break off.
pub data Reply : Type 0 where
  refused : Failure → Reply
  responded : ℕ → List Header → List String → Option Failure → Reply

-- What is sent, and whether an exception leaves the call.
pub record Run : Type 0 where
  pub sent : List Sent
  pub raised : Bool

pub data Served : Type 0 where
  -- self.app is called
  passed : Served
  served : Run → Served

abbrev returned : List Sent → Run
returned sent = record { sent = sent; raised = false }

unfoldable body : List Received → List String × Bool
body [] = ([], false)
body (disconnect ∷ ms) = ([], false)
body (request_body b more ∷ ms) =
    let rest = body ms in if more then (b ∷ rest.0, rest.1) else (b ∷ [], true)

unfoldable pub content : String → Bool → List Received → Content
unfolding body
content b more ms =
    let chunks = body (request_body b more ∷ ms) in
    if b == "" && not more then no_body else streamed chunks.0 chunks.1

abbrev chunk : String → Sent
chunk b = response_body b true

-- the messages of a response, and how it ends
unfoldable pub respond : ℕ → List Header → List String → Option Failure → Run
respond status headers chunks ending =
    let begun = response_start status headers ∷ map chunk chunks in
    elim ending [
      | none ↦ returned (begun ++ (response_body "" false ∷ []))
      | some client_disconnected ↦ returned begun
      | some _ ↦ record { sent = begun; raised = true }
    ]

-- the routes whose prefix is longer come first
unfoldable pub by_length : List Route → List Route
by_length routes = sorted_falling (λ r. count r.prefix) routes

unfoldable pub select : List Route → String → Option Route
select routes path = find (λ r. path_matches path r.prefix) routes

unfoldable pub take {ℓ} : {A : Type ℓ} → ℕ → List A → List A
take zero l = []
take (suc n) [] = []
take (suc n) (x ∷ xs) = x ∷ take n xs

-- the client leaves when that many messages are sent, which cancels the rest
unfoldable pub interrupted : Option ℕ → Run → Run
unfolding take
interrupted none run = run
interrupted (some n) run = returned (take n run.sent)

module _ (py : Platform) where
  -- `_error`
  unfoldable pub error : ℕ → String → List String → List Sent
  error status text allow =
      response_start status (
        ("content-type", "text/plain; charset=utf-8")
        ∷ ("content-length", py.str (len text))
        ∷ (if is_empty allow then [] else ("allow", py.join allow) ∷ []))
      ∷ response_body text false
      ∷ []

  -- `target`, for the base that httpx.URL gives
  unfoldable target_of : Route → Scope → String → Target → String
  target_of route scope raw_path base =
      let suffix =
        if route.strip_prefix then slice raw_path (len route.prefix) (len raw_path) else raw_path in
      let query = or_else scope.query_string "" in
      base.copy_with (
        String.◌++◌ (py.rstrip_slashes base.raw_path) (
          String.◌++◌ (if suffix == "" then "/" else suffix)
            (if query == "" then "" else String.◌++◌ "?" query)))

  unfoldable pub relay : Route → Reply → Run
  unfolding respond error
  relay route (responded status headers chunks ending) =
      respond status
        (keep (λ h. route.forward_cookies || not (h.0 == "set-cookie"))
          (end_to_end_headers py headers))
        chunks ending
  relay route (refused client_disconnected) = returned []
  relay route (refused timed_out) = returned (error 504 "HTTP route upstream timed out" [])
  relay route (refused unavailable) = returned (error 502 "HTTP route upstream unavailable" [])
  relay route (refused other) = record { sent = []; raised = true }

  module _ (lease_header : String) (exchange : Request → Reply) where
    -- `_forward` from `base` on, for what httpx.URL and public_origin give
    unfoldable pub send_on :
        Route
        → Scope
        → String
        → Content
        → Option Target
        → Result OriginError (Option PublicOrigin)
        → Run
    unfolding target_of relay
    send_on route scope raw_path content (some base) (ok origin) = relay route (
        exchange (record {
          method = scope.method;
          target = target_of route scope raw_path base;
          headers = request_headers py lease_header scope route origin;
          content = content;
          timeout = route.timeout;
        }))
    send_on route scope raw_path content _ _ = record { sent = []; raised = true }

    -- `_forward`, whose first message is awaited
    unfoldable pub forward : Route → Scope → String → List Received → Run
    unfolding content send_on
    forward route scope raw_path [] = returned []
    forward route scope raw_path (disconnect ∷ ms) = returned []
    forward route scope raw_path (request_body b more ∷ ms) =
        send_on route scope raw_path (content b more ms) (py.httpx_url route.upstream)
          (public_origin py.library route.public_origin)

    -- the request of a mount
    unfoldable pub answer : Route → Scope → List Received → Option ℕ → Run
    unfolding forward error interrupted
    answer route scope messages left =
        let path = or_else scope.path "" in
        let raw_path = or_else scope.raw_path (py.utf8 path) in
        if scope.type == "websocket"
        then returned (websocket_close 1008 "HTTP routes do not support WebSockets" ∷ [])
        else if not (contains route.methods scope.method)
        then returned (error 405 "HTTP method is not allowed for this mount" route.methods)
        else if has_dots py path || not (path_matches raw_path route.prefix)
        then returned (error 400 "Invalid route path" [])
        else interrupted left (forward route scope raw_path messages)

    -- `__call__`
    unfoldable pub serve : List Route → Scope → List Received → Option ℕ → Served
    unfolding select answer
    serve routes scope messages left =
        if contains ("http" ∷ "websocket" ∷ []) scope.type
        then elim (select routes (or_else scope.path "")) [
          | none ↦ passed
          | some route ↦ served (answer route scope messages left)
        ]
        else passed

  unfoldable pub contracts : Json → Option String → List Mount → Result MountError (List Route)
  contracts timeout public_url [] = ok []
  contracts timeout public_url (mount ∷ mounts) =
      http_route_contract py timeout public_url mount >>= λ route.
      contracts timeout public_url mounts >>= λ routes. ok (route ∷ routes)

  -- the routes that `__init__` keeps, after its check of the timeout
  unfoldable pub new_routes : String → Json → Option String → Json → Result MountError (List Route)
  unfolding contracts by_length
  new_routes mcp_path timeout public_url configured =
      normalize_http_routes py mcp_path configured >>= λ mounts.
      contracts timeout public_url mounts >>= λ routes. ok (by_length routes)
