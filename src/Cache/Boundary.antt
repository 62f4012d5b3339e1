-- ===== src/Cache/Boundary.antt =====
-- `McpCacheMiddleware` of snulbug/mcp_cache.py, for one request: what the application receives and
-- what it sends are events, each of which is one step.
use Prim.Native.String.{count}
use Prim.Native.String
use snulbug.Base.{
  ℕ, ◌+◌, String, Bool, true, false, not, ◌&&◌, Option, none, some, List, [], ◌∷◌, ◌++◌, find, keep,
  contains, or_else, leb, ltb, ◌==◌, if◌then◌else◌,
}
use snulbug.Base.Json.{Fields, bool, str, obj, end, field, get, as_str}
use snulbug.Base.Asgi.{Header, Scope, Sent, websocket_close, response_start, response_body}
use snulbug.Cache.{Platform}
use snulbug.Cache.Results.{fields_of, private_result}

abbrev cache_headers : List String
cache_headers =
    "cache-control" ∷ "expires" ∷ "age" ∷ "etag" ∷ "last-modified" ∷ "surrogate-control"
    ∷ "cdn-cache-control" ∷ []

-- the local variables of `__call__`
pub record Boundary : Type 0 where
  pub request_body : String
  pub request_overflow : Bool
  pub response_body : String
  pub start : Option (ℕ × List Header)
  pub rejected : Bool

unfoldable pub new : Boundary
new = record {
  request_body = "";
  request_overflow = false;
  response_body = "";
  start = none;
  rejected = false;
}

pub data Event : Type 0 where
  -- the body of an http.request, or another message
  receives : Option String → Event
  sends : Sent → Event

-- What a step hands on, and the metadata that it reports.
pub record Output : Type 0 where
  pub sent : List Sent
  pub reported : List Fields

abbrev pub quiet : Output
quiet = record { sent = []; reported = [] }

abbrev only : List Sent → Output
only sent = record { sent = sent; reported = [] }

-- `reject_oversized`
unfoldable pub too_large : Output
too_large = record {
  sent =
      response_start 502 (
        ("content-type", "application/json")
        ∷ ("cache-control", "no-store")
        ∷ ("content-length", "62")
        ∷ [])
      ∷ response_body "{\"error\":\"MCP JSON result exceeds the gateway response limit\"}" false
      ∷ [];
  reported =
      field "cache"
        (obj (field "blocked" (bool true) (field "reason_code" (str "response.too_large") end))) end
      ∷ [];
}

abbrev pub reject : Boundary → Output × Boundary
reject s = (too_large, record s { rejected = true; response_body = "" })

-- `capture_receive`
unfoldable pub capture : ℕ → Option String → Boundary → Boundary
capture limit none s = s
capture limit (some body) s =
    if s.request_overflow
    then s
    else if leb (count s.request_body + count body) limit
    then record s { request_body = String.◌++◌ s.request_body body }
    else record s { request_overflow = true; request_body = "" }

module _ (py : Platform) where
  -- the headers of a start that leaves
  unfoldable pub uncached : List Header → List Header
  uncached headers =
      keep (λ h. not (contains cache_headers (py.lower h.0))) headers
      ++ (("cache-control", "no-store") ∷ [])

  unfoldable pub content_type : List Header → String
  content_type headers = elim (find (λ h. py.lower h.0 == "content-type") headers) [
    | none ↦ ""
    | some h ↦ py.before_semicolon (py.lower h.1)
  ]

  unfoldable pub request_method : String → Option String
  request_method body = elim (py.loads body) [
    | none ↦ none
    | some request ↦ as_str (get (fields_of request) "method")
  ]

module _ (py : Platform) (limit : ℕ) where
  -- the end of a JSON body, with what `private_result` makes of it
  unfoldable pub finish : ℕ × List Header → String × Fields → Boundary → Output × Boundary
  finish start sealed s = if ltb limit (count sealed.0) then reject s else (
    record {
      sent =
          response_start start.0 (
            keep (λ h. not (py.lower h.0 == "content-length")) start.1
            ++ (("content-length", py.str (count sealed.0)) ∷ []))
          ∷ response_body sealed.0 false
          ∷ [];
      reported = elim sealed.1 [
        | end ↦ []
        | field k v m ↦ field "cache" (obj (field k v m)) end ∷ []
      ];
    },
    record s { start = none; response_body = "" },
  )

  -- a body of a JSON response
  unfoldable pub gather : ℕ × List Header → String → Bool → Boundary → Output × Boundary
  unfolding finish request_method
  gather start body more s =
      if ltb limit (count s.response_body + count body)
      then reject s
      else let next : Boundary = record s { response_body = String.◌++◌ s.response_body body } in
        if more
        then (quiet, next)
        else finish start (private_result py next.response_body (request_method py s.request_body))
            next

  -- the last part of `cache_safe_send`, for the start that is held back
  unfoldable pub send_body : Option (ℕ × List Header) → String → Bool → Boundary → Output × Boundary
  unfolding gather
  send_body none body more s = (only (response_body body more ∷ []), s)
  send_body (some start) body more s = gather start body more s

  unfoldable pub send_start : ℕ → List Header → Boundary → Output × Boundary
  unfolding uncached content_type
  send_start status headers s =
      if content_type py (uncached py headers) == "application/json"
      then (quiet, record s { start = some (status, uncached py headers) })
      else (only (response_start status (uncached py headers) ∷ []), s)

  -- a message that was not rejected before
  unfoldable pub pass : Sent → Boundary → Output × Boundary
  unfolding send_start send_body
  pass (response_start status headers) s = send_start status headers s
  pass (response_body body more) s = send_body s.start body more s
  pass (websocket_close code reason) s = (only (websocket_close code reason ∷ []), s)

  -- `cache_safe_send`
  unfoldable pub safe_send : Sent → Boundary → Output × Boundary
  unfolding pass
  safe_send message s = if s.rejected then (quiet, s) else pass message s

  unfoldable pub step : Event → Boundary → Output × Boundary
  unfolding capture safe_send
  step (receives body) s = (quiet, capture limit body s)
  step (sends message) s = safe_send message s

  -- what leaves, and the variables in the end
  unfoldable pub run : List Event → Boundary → List Sent × Boundary
  unfolding step
  run [] s = ([], s)
  run (e ∷ events) s =
      let one = step e s in let rest = run events one.1 in (one.0.sent ++ rest.0, rest.1)

  -- whether the middleware takes part: the first test of `__call__`
  unfoldable pub applies : String → Scope → Bool
  applies endpoint scope =
      let path = py.rstrip_slashes (or_else scope.path "/") in
      scope.type == "http" && (if path == "" then "/" else path) == endpoint
