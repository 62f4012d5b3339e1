-- ===== src/Origin/Tests.antt =====
-- Runs of snulbug/public_origin.py.
use mathlib.Core.List.{Memᴰ}
use snulbug.Base.{◌≡◌, refl, ◌⊎◌, true, false, none, some, [], ◌∷◌}
use snulbug.Base.Result.{ok, err}
use snulbug.Base.Asgi.{Scope}
use snulbug.Origin.{
  Library, SplitUrl, PublicOrigin, invalid_origin, passed, middleware, is_forwarded, own_headers,
  origin_headers, captured_origin_matches, captured_values, matches_origin, values_of,
  public_origin, read_origin, is_plain, host_text, with_port, any_char,
}
use snulbug.Origin.Forward.{Agrees, IsClaim, IsCapture, middleware-no_claims}

abbrev parsed : SplitUrl
parsed = record {
  scheme = "https";
  netloc = "Gate.example";
  hostname = some "gate.example";
  username = none;
  password = none;
  query = "";
  fragment = "";
  port = some none;
}

abbrev library : Library
library = record {
  urlsplit = λ s. some parsed;
  raw_host = λ s. some "gate.example";
  compressed = λ s. none;
  is_label = λ s. true;
  ascii = λ s. some s;
  lower = λ s. s;
  rstrip_dots = λ s. s;
  split_dots = λ s. s ∷ [];
  str = λ n. "443";
}

abbrev gate : PublicOrigin
gate = record { scheme = "https"; authority = "gate.example"; port = 443 }

reads_origin : public_origin library (some "https://gate.example") ≡ ok (some gate)
unfolding public_origin read_origin is_plain host_text with_port any_char
reads_origin = refl

refuses_spaces : public_origin library (some "https://gate example") ≡ err invalid_origin
unfolding public_origin any_char
refuses_spaces = refl

abbrev claiming : Scope
claiming = record {
  type = "http";
  method = "GET";
  path = some "/app";
  raw_path = none;
  query_string = none;
  headers = ("x-forwarded-host", "evil.example") ∷ ("accept", "*/*") ∷ [];
  client = none;
  scheme = some "http";
  ingress_headers = none;
}

abbrev forwarded : Scope
forwarded = record claiming {
  headers =
      ("accept", "*/*")
      ∷ ("x-forwarded-host", "gate.example")
      ∷ ("x-forwarded-proto", "https")
      ∷ ("x-forwarded-port", "443")
      ∷ [];
  ingress_headers = some claiming.headers;
}

forwards : middleware library (some gate) claiming ≡ passed forwarded
unfolding middleware is_forwarded own_headers origin_headers captured_origin_matches captured_values
    values_of
forwards = refl

middleware-no_claims_example :
    Agrees library gate
      (values_of library "x-snulbug-original-host" claiming.headers)
      (values_of library "x-snulbug-original-proto" claiming.headers)
    × (Memᴰ ("accept", "*/*") (own_headers library (some gate) claiming)
        ⊎ (Memᴰ ("accept", "*/*") claiming.headers × (¬ IsClaim "accept") × (¬ IsCapture "accept")))
middleware-no_claims_example =
    middleware-no_claims library gate claiming forwarded ("accept", "*/*") refl forwards
      (Memᴰ.head refl)

refuses_capture :
    captured_origin_matches library
      (("x-snulbug-original-host", "other.example") ∷ ("x-snulbug-original-proto", "ftp") ∷ [])
      gate
    ≡ false
unfolding captured_origin_matches captured_values values_of matches_origin
refuses_capture = refl
