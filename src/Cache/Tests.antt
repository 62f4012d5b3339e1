-- ===== src/Cache/Tests.antt =====
-- A result of snulbug/mcp_cache.py that passes the boundary, and one that is too large.
use snulbug.Base.{
  ◌≡◌, ◌≢◌, refl, ◌⊎◌, String, true, false, Option, none, some, List, [], ◌∷◌, if◌then◌else◌, ◌==◌,
  eq_iff,
}
use snulbug.Base.Int.{pos}
use snulbug.Base.Json
use snulbug.Base.Json.{Json, Fields, int, str, obj, end, field, get}
use snulbug.Base.Asgi.{response_start, response_body}
use snulbug.Base.Phases.{idle, done, broken, phase}
use snulbug.Cache.{Platform}
use snulbug.Cache.Results.{
  private_result, sealed_payload, result_of, fields_of, is_complete, is_left_alone, seal,
  cache_metadata,
}
use snulbug.Cache.Boundary.{
  Event, receives, sends, new, capture, uncached, content_type, request_method, finish, gather,
  send_body, send_start, pass, safe_send, step, run, too_large,
}
use snulbug.Cache.Private.{IsPrivate, private_result-IsPrivate}
use snulbug.Cache.Order.{told, run-in_order}
use snulbug.Cache.Limit.{IsBounded, run-IsBounded}

abbrev result : Fields
result = field "resultType" (str "complete") (
    field "ttlMs" (int (pos 9)) (field "cacheScope" (str "public") (field "tools" (str "all") end)))

abbrev payload : Json
payload = obj (field "id" (int (pos 1)) (field "result" (obj result) end))

abbrev request : Json
request = obj (field "method" (str "tools/list") end)

abbrev loads : String → Option Json
loads s = if s == "payload" then some payload else if s == "request" then some request else none

abbrev platform : Platform
platform = record {
  loads = loads;
  dumps = λ v. "sealed";
  lower = λ s. s;
  before_semicolon = λ s. s;
  rstrip_slashes = λ s. s;
  str = λ n. "6";
}

finds_result : result_of payload ≡ some result
unfolding result_of Json.get
finds_result = refl

apart : (a b : String) → (a == b) ≡ false → a ≢ b
apart a b h e = absurd (cc (h, (eq_iff a b).1 e))

private_result-IsPrivate_example :
    (q : Json) × (s : Fields) × (((private_result platform "payload" (some "tools/list")).0
          ≡ "payload")
        × (q ≡ payload)
      ⊎ ((private_result platform "payload" (some "tools/list")).0 ≡ "sealed"))
    × (result_of q ≡ some s)
    × IsPrivate s
    × (get s "tools" ≡ get result "tools")
    × (get (fields_of q) "id" ≡ get (fields_of payload) "id")
private_result-IsPrivate_example =
    private_result-IsPrivate platform "payload" (some "tools/list") payload result "tools" "id" refl
      finds_result (apart "tools" "ttlMs" refl) (apart "tools" "cacheScope" refl)
      (apart "id" "result" refl)

abbrev events : List Event
events =
    receives (some "request")
    ∷ sends (response_start 200 (("content-type", "application/json") ∷ ("etag", "1") ∷ []))
    ∷ sends (response_body "pay" true)
    ∷ sends (response_body "load" false)
    ∷ []

seals :
    (run platform 20 events new).0
    ≡ response_start 200 (
        ("content-type", "application/json")
        ∷ ("cache-control", "no-store")
        ∷ ("content-length", "6")
        ∷ [])
      ∷ response_body "sealed" false
      ∷ []
unfolding run new step capture safe_send pass send_start send_body gather finish request_method
    uncached content_type private_result sealed_payload result_of is_complete is_left_alone seal
    cache_metadata Json.get Json.put
seals = refl

refuses : (run platform 5 events new).0 ≡ too_large.sent
unfolding run new step capture safe_send pass send_start send_body gather finish request_method
    uncached content_type private_result sealed_payload result_of is_complete is_left_alone seal
    cache_metadata Json.get Json.put too_large
refuses = refl

ends : phase idle (told events) ≡ done
unfolding phase
ends = refl

in_order : phase idle (told events) ≢ broken
in_order e = absurd (cc (ends, e))

run-in_order_example :
    (phase idle (run platform 20 events new).0 ≢ broken)
    × ((phase idle (told events) ≢ done) ⊎ (phase idle (run platform 20 events new).0 ≡ done))
run-in_order_example = run-in_order platform 20 events in_order

run-IsBounded_example : IsBounded 20 (run platform 20 events new).1
run-IsBounded_example = run-IsBounded 20 platform events
