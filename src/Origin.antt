-- ===== src/Origin.antt =====
-- snulbug/public_origin.py: the origin under which the public reaches the gateway, and the middleware
-- that forwards it. A property of PublicOrigin is a function on the record.
pub mod Forward
mod Tests
use Prim.Native.String.{len, count, slice, find}
use Prim.Native.String
use Prim.Native.Char.{Char, code}
use text.Mathlib.Text.{starts_with}
use snulbug.Base.{
  ℕ, ◌-◌, String, Bool, true, false, not, ◌&&◌, ◌||◌, Option, none, some, List, [], ◌∷◌, ◌++◌, map,
  any, all, keep, contains, length, is_some, or_else, ◌==◌, ltb, leb, eqb, if◌then◌else◌,
}
use snulbug.Base.Result.{Result, ok, err}
use snulbug.Base.Asgi.{Header, Scope, Sent, response_start, response_body}

-- What urllib.parse.urlsplit gives. `port` is none where reading it raises.
pub record SplitUrl : Type 0 where
  pub scheme : String
  pub netloc : String
  pub hostname : Option String
  pub username : Option String
  pub password : Option String
  pub query : String
  pub fragment : String
  pub port : Option (Option ℕ)

-- What the file takes from Python's library and from httpx; none stands for an exception.
pub record Library : Type 0 where
  pub urlsplit : String → Option SplitUrl
  -- httpx.URL(value).raw_host.decode("ascii")
  pub raw_host : String → Option String
  -- ipaddress.IPv6Address(host).compressed
  pub compressed : String → Option String
  -- re.fullmatch(r"[a-z0-9](?:[a-z0-9-]{0,61}[a-z0-9])?", label)
  pub is_label : String → Bool
  -- value.decode("ascii")
  pub ascii : String → Option String
  pub lower : String → String
  -- host.rstrip("."), and text.split(".")
  pub rstrip_dots : String → String
  pub split_dots : String → List String
  pub str : ℕ → String

unfoldable pub any_char : (Char → Bool) → String → Bool
any_char p String.[] = false
any_char p (String.◌∷◌ c s) = p c || any_char p s

-- part in text
abbrev pub has_part : String → String → Bool
has_part text part = leb (find text part) (len text)

-- netloc.endswith(":")
abbrev ends_in_colon : String → Bool
ends_in_colon netloc = slice netloc (len netloc - 1) (len netloc) == ":"

pub record PublicOrigin : Type 0 where
  pub scheme : String
  pub authority : String
  pub port : ℕ

-- the one message of `public_origin`
pub data OriginError : Type 0 where
  invalid_origin : OriginError

abbrev pub url : PublicOrigin → String
url origin = String.◌++◌ origin.scheme (String.◌++◌ "://" origin.authority)

module _ (py : Library) where
  unfoldable pub origin_headers : PublicOrigin → List Header
  origin_headers origin =
      ("x-forwarded-host", origin.authority)
      ∷ ("x-forwarded-proto", origin.scheme)
      ∷ ("x-forwarded-port", py.str origin.port)
      ∷ []

  -- the checks of the parsed URL before its host is read
  unfoldable pub is_plain : String → SplitUrl → Bool
  is_plain value parsed =
      contains ("http" ∷ "https" ∷ []) parsed.scheme
      && not (parsed.netloc == "")
      && not (is_some parsed.username)
      && not (is_some parsed.password)
      && not (any (has_part value) ("\\" ∷ "?" ∷ "#" ∷ []))
      && not (any (has_part parsed.netloc) ("," ∷ "%" ∷ []))
      && not (ends_in_colon parsed.netloc)

  -- the host in lower case, an IPv6 address in brackets
  unfoldable pub host_text : String → Option String
  host_text host =
      if has_part host ":"
      then elim (py.compressed host) [
        | none ↦ none
        | some address ↦ some (String.◌++◌ "[" (String.◌++◌ address "]"))
      ]
      else if ltb 253 (count host) || not (all py.is_label (py.split_dots (py.rstrip_dots host)))
      then none
      else some host

  -- from the host and the port on
  unfoldable pub with_port : SplitUrl → String → Option PublicOrigin
  with_port parsed host =
      let default_port = if parsed.scheme == "https" then 443 else 80 in
      elim parsed.port [
        | none ↦ none
        | some given ↦
            let port = or_else given default_port in
            if leb 1 port && leb port 65535
            then some (record {
              scheme = parsed.scheme;
              authority =
                  if eqb port default_port
                  then host
                  else String.◌++◌ host (String.◌++◌ ":" (py.str port));
              port = port;
            })
            else none
      ]

  -- the body of the `try`
  unfoldable pub read_origin : String → Option PublicOrigin
  unfolding is_plain host_text with_port
  read_origin value = elim (py.urlsplit value) [
    | none ↦ none
    | some parsed ↦
        if is_plain value parsed
        then elim (py.raw_host value) [
          | none ↦ none
          | some raw ↦ elim (host_text (py.lower raw)) [
            | none ↦ none
            | some host ↦ with_port parsed host
          ]
        ]
        else none
  ]

  unfoldable pub public_origin : Option String → Result OriginError (Option PublicOrigin)
  unfolding read_origin any_char
  public_origin none = ok none
  public_origin (some value) =
      if value == ""
      then ok none
      else if ltb 8192 (count value) || any_char (λ c. leb (code c) 32 || eqb (code c) 127) value
      then err invalid_origin
      else elim (read_origin value) [ none ↦ err invalid_origin | some origin ↦ ok (some origin) ]

  -- the values of a header
  unfoldable pub values_of : String → List Header → List String
  values_of key headers = map (λ h. h.1) (keep (λ h. py.lower h.0 == key) headers)

  abbrev pub same_origin : PublicOrigin → PublicOrigin → Bool
  same_origin a b = a.scheme == b.scheme && a.authority == b.authority && eqb a.port b.port

  -- the body of the `try` of captured_origin_matches
  unfoldable pub matches_origin : String → String → PublicOrigin → Bool
  unfolding public_origin
  matches_origin raw_host raw_scheme origin = elim (py.ascii raw_host) [
    | none ↦ false
    | some host ↦ elim (py.ascii raw_scheme) [
      | none ↦ false
      | some scheme ↦
          if any (has_part host) ("/" ∷ "?" ∷ "#" ∷ "@" ∷ [])
            || not (contains ("http" ∷ "https" ∷ []) scheme)
          then false
          else elim (public_origin (some (String.◌++◌ scheme (String.◌++◌ "://" host)))) [
            | ok (some found) ↦ same_origin found origin
            | _ ↦ false
          ]
    ]
  ]

  -- for the values of the two headers
  unfoldable pub captured_values : List String → List String → PublicOrigin → Bool
  unfolding matches_origin
  captured_values [] [] origin = true
  captured_values (host ∷ []) (scheme ∷ []) origin = matches_origin host scheme origin
  captured_values _ _ origin = false

  unfoldable pub captured_origin_matches : List Header → PublicOrigin → Bool
  unfolding values_of captured_values
  captured_origin_matches headers origin =
      captured_values (values_of "x-snulbug-original-host" headers)
        (values_of "x-snulbug-original-proto" headers) origin

  pub data Handled : Type 0 where
    -- self.app is called with this scope
    passed : Scope → Handled
    answered : List Sent → Handled

  -- whether the middleware forwards a header of the client
  unfoldable pub is_forwarded : Option PublicOrigin → Header → Bool
  is_forwarded origin h =
      let name = py.lower h.0 in
      not (contains ("x-snulbug-original-host" ∷ "x-snulbug-original-proto" ∷ []) name)
      && not (
          is_some origin
          && (contains ("forwarded" ∷ "x-original-host" ∷ "x-original-proto" ∷ []) name
              || starts_with name "x-forwarded-"))

  -- the headers that the middleware adds
  unfoldable pub own_headers : Option PublicOrigin → Scope → List Header
  unfolding origin_headers
  own_headers none scope = []
  own_headers (some origin) scope =
      origin_headers origin
      ++ elim scope.client [ none ↦ [] | some host ↦ ("x-forwarded-for", host) ∷ [] ]

  abbrev refused : List Sent
  refused =
      response_start 400
        (("content-type", "text/plain; charset=utf-8") ∷ ("content-length", "30") ∷ [])
      ∷ response_body "Invalid captured public origin" false
      ∷ []

  -- `PublicOriginMiddleware.__call__`
  unfoldable pub middleware : Option PublicOrigin → Scope → Handled
  unfolding is_forwarded own_headers captured_origin_matches
  middleware origin scope =
      if not (scope.type == "http")
      then passed scope
      else if elim origin [ none ↦ false | some o ↦ not (captured_origin_matches scope.headers o) ]
      then answered refused
      else passed (record scope {
        headers = keep (is_forwarded origin) scope.headers ++ own_headers origin scope;
        ingress_headers = some (or_else scope.ingress_headers scope.headers);
      })
