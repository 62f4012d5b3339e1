-- ===== src/Mounts/Tests.antt =====
-- Runs of snulbug/http_routes.py on two mounts.
use mathlib.Core.List.{Memᴰ}
use Prim.Native.String.{count}
use mathlib.Core.Path.{subst, sym}
use snulbug.Base.{
  ◌≤◌, ◌≡◌, ◌≢◌, refl, ◌⊎◌, String, true, false, none, some, List, [], ◌∷◌, contains,
}
use snulbug.Base.Result.{ok, err}
use snulbug.Base.Sort.{sorted_falling}
use snulbug.Base.Int.{pos}
use snulbug.Base.Json
use snulbug.Base.Json.{Json, Fields, int, str, arr, obj, nil, cons, end, field}
use snulbug.Base.Asgi.{Header, Scope, response_start, response_body}
use snulbug.Origin.{SplitUrl, public_origin}
use snulbug.Mounts.{Platform, Route, path_matches}
use snulbug.Mounts as Mounts
use snulbug.Mounts.Contract.{normalize_contract, http_route_contract, contract_for}
use snulbug.Mounts.Normalize.{
  normalize_http_routes, normalize_items, normalize_route, prefix_of, upstream_of, strip_of,
  overlaps,
}
use snulbug.Mounts.Headers.{
  hop_headers, connection_tokens, end_to_end_headers, gateway_headers, request_headers,
  is_forwarded, original_host,
}
use snulbug.Mounts.Serve.{
  request_body, Request, Reply, responded, passed, select, by_length, new_routes, contracts, answer,
  forward, serve,
}
use snulbug.Mounts.Longest.{select-longest}
use snulbug.Mounts.Reserved.{serve-reserved}
use snulbug.Mounts.Trusted.{IsGateways, IsCredential, request_headers-trusted}
use snulbug.Base.Phases.{phase, idle, broken}
use snulbug.Mounts.Answer.{IsAnswered, answer-in_order, answer-IsAnswered}

abbrev parsed : SplitUrl
parsed = record {
  scheme = "http";
  netloc = "inner";
  hostname = some "inner";
  username = none;
  password = none;
  query = "";
  fragment = "";
  port = some (some 3000);
}

-- Texts are taken as they are.
abbrev platform : Platform
platform = record {
  library = record {
    urlsplit = λ s. some parsed;
    raw_host = λ s. some "inner";
    compressed = λ s. none;
    is_label = λ s. true;
    ascii = λ s. some s;
    lower = λ s. s;
    rstrip_dots = λ s. s;
    split_dots = λ s. s ∷ [];
    str = λ n. "3000";
  };
  httpx_url = λ s. some (record { raw_path = ""; copy_with = λ path. path });
  quote = λ s. s;
  isspace = λ c. false;
  rstrip_slashes = λ s. s;
  split_slashes = λ s. s ∷ [];
  split_commas = λ s. s ∷ [];
  strip = λ s. s;
  utf8 = λ s. s;
  float = λ v. some v;
  str = λ n. "22";
  join = λ l. "GET";
}

abbrev entry : String → Fields
entry prefix =
    field "prefix" (str prefix)
      (field "upstream" (str "http://inner:3000") (field "auth" (str "public") end))

abbrev configured : Json
configured = arr (cons (obj (entry "/app")) (cons (obj (entry "/app/admin")) nil))

abbrev mount : String → Route
mount prefix = record {
  prefix = prefix;
  upstream = "http://inner:3000";
  strip_prefix = true;
  auth = "public";
  methods = "DELETE" ∷ "GET" ∷ "HEAD" ∷ "OPTIONS" ∷ "PATCH" ∷ "POST" ∷ "PUT" ∷ [];
  forward_authorization = false;
  forward_cookies = false;
  preserve_host = false;
  public_origin = none;
  timeout = int (pos 30);
  health_path = none;
  health_status = 200;
}

configures :
    new_routes platform "/mcp" (int (pos 30)) none configured
    ≡ ok (mount "/app/admin" ∷ mount "/app" ∷ [])
unfolding new_routes by_length contracts normalize_http_routes normalize_items normalize_route
    normalize_contract http_route_contract contract_for prefix_of upstream_of strip_of overlaps
    path_matches public_origin Json.get sorted_falling
configures = refl

refuses_overlap :
    normalize_http_routes platform "/mcp" (arr (cons (obj (entry "/mcp/app")) nil))
    ≡ err Mounts.overlapping
unfolding normalize_http_routes normalize_items normalize_route prefix_of overlaps path_matches
    Json.get
refuses_overlap = refl

abbrev scope_of : String → Scope
scope_of path = record {
  type = "http";
  method = "GET";
  path = some path;
  raw_path = none;
  query_string = none;
  headers = ("authorization", "secret") ∷ ("accept", "*/*") ∷ [];
  client = none;
  scheme = none;
  ingress_headers = none;
}

abbrev exchange : Request → Reply
exchange request = responded 200 [] ("hello" ∷ []) none

answers :
    answer platform "x-lease" exchange
      (mount "/app")
      (scope_of "/app/page")
      (request_body "" false ∷ [])
      none
    ≡ record {
      sent = response_start 200 [] ∷ response_body "hello" true ∷ response_body "" false ∷ [];
      raised = false;
    }
unfolding answer forward public_origin path_matches end_to_end_headers
answers = refl

mcp_matches : path_matches "/mcp/x" "/mcp" ≡ true
unfolding path_matches
mcp_matches = refl

serve-reserved_example :
    serve platform "x-lease" exchange
      (mount "/app/admin" ∷ mount "/app" ∷ [])
      (scope_of "/mcp/x")
      (request_body "" false ∷ [])
      none
    ≡ passed
serve-reserved_example =
    serve-reserved platform (int (pos 30)) none "/mcp" "x-lease" configured
      (mount "/app/admin" ∷ mount "/app" ∷ []) exchange (scope_of "/mcp/x")
      (request_body "" false ∷ []) none "/mcp" configures (Memᴰ.head refl) mcp_matches

abbrev both : List Route
both = mount "/app" ∷ mount "/app/admin" ∷ []

chosen : select (by_length both) "/app/admin/x" ≡ some (mount "/app/admin")
unfolding select by_length sorted_falling path_matches
chosen = refl

app_matches : path_matches "/app/admin/x" "/app" ≡ true
unfolding path_matches
app_matches = refl

select-longest_example :
    Memᴰ (mount "/app/admin") both
    × (path_matches "/app/admin/x" "/app/admin" ≡ true)
    × (count "/app" ≤ count "/app/admin")
select-longest_example =
    select-longest both "/app/admin/x" (mount "/app/admin") (mount "/app") chosen (Memᴰ.head refl)
      app_matches

abbrev accept : Header
accept = ("accept", "*/*")

sends :
    request_headers platform "x-lease" (scope_of "/app") (mount "/app") none
    ≡ accept ∷ ("x-forwarded-proto", "http") ∷ ("x-forwarded-prefix", "/app") ∷ []
unfolding request_headers gateway_headers is_forwarded end_to_end_headers connection_tokens
    original_host
sends = refl

request_headers-trusted_example :
    Memᴰ accept (gateway_headers platform (mount "/app") (scope_of "/app") none)
    ⊎ ((g : Header) × Memᴰ g (scope_of "/app").headers
        × (accept ≡ (g.0, g.1))
        × (contains hop_headers "accept" ≡ false)
        × (contains (connection_tokens platform (scope_of "/app").headers) "accept" ≡ false)
        × (¬ IsGateways "x-lease" "accept")
        × (¬ IsCredential (mount "/app") "accept"))
request_headers-trusted_example =
    request_headers-trusted platform "x-lease" (scope_of "/app") (mount "/app") none accept
      (subst (λ l. Memᴰ accept l) (sym sends) (Memᴰ.head refl))

answer-in_order_example :
    phase idle
      (answer platform "x-lease" exchange
        (mount "/app")
        (scope_of "/app/page")
        (request_body "" false ∷ [])
        (some 2)).sent
    ≢ broken
answer-in_order_example =
    answer-in_order platform "x-lease" exchange (mount "/app") (scope_of "/app/page")
      (request_body "" false ∷ []) (some 2)

answer-IsAnswered_example : IsAnswered (
    answer platform "x-lease" exchange
      (mount "/app")
      (scope_of "/app/page")
      (request_body "" false ∷ [])
      none)
answer-IsAnswered_example =
    answer-IsAnswered platform "x-lease" exchange (mount "/app") (scope_of "/app/page") "" false []
      (λ r. refl)
