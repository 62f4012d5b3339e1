-- ===== src/Backoff/Keys.antt =====
-- The keys of snulbug/policy_backoff.py: which denials count together.
use Prim.Native.String
use text.Mathlib.Text.{starts_with}
use snulbug.Base.{
  String, Bool, true, false, not, ◌&&◌, ◌||◌, Option, none, some, List, [], ◌∷◌, any, or_else,
  is_some, ◌==◌, if◌then◌else◌,
}
use snulbug.Base.Result.{Result, ok, err, ◌>>=◌}
use snulbug.Base.Json
use snulbug.Base.Json.{
  Json, Fields, Items, null, str, arr, obj, nil, cons, end, field, keys, mapping, as_str, truth,
  either, merge,
}
use snulbug.Backoff.{Platform, PolicyBackoffConfig, BackoffError, index_error}

abbrev text_or_null : Option Json → Json
text_or_null (some (str s)) = str s
text_or_null _ = null

abbrev payload_of : Platform → Option String → Fields
payload_of py none = end
payload_of py (some body) = if body == "" then end else mapping (py.loads body)

-- `_mcp_context`
unfoldable pub mcp_context : Platform → Fields → Fields
mcp_context py request =
    let payload = payload_of py (as_str (Json.get request "body")) in
    let params = mapping (Json.get payload "params") in
    let tool = Json.get params "name" in
    let target = either tool (Json.get params "uri") in
    field "method" (text_or_null (Json.get payload "method"))
      (field "tool" (text_or_null tool) (field "target" (text_or_null target) end))

-- client[0], which raises on an empty list
abbrev client_ip : Option Json → Result BackoffError Json
client_ip (some (arr nil)) = err index_error
client_ip (some (arr (cons ip rest))) = ok ip
client_ip _ = ok null

-- the name of the upstream, where the other metadata have none
abbrev named : Fields → Option Json → Fields
named upstream none = upstream
named upstream (some name) =
    if truth name && not (is_some (Json.get upstream "name"))
    then Json.put upstream "name" name
    else upstream

-- `_backoff_context`
unfoldable pub backoff_context :
    Platform → Fields → Fields → Option Fields → Result BackoffError Fields
unfolding mcp_context
backoff_context py request scope decision =
    let lua = mapping (Json.get scope "lua") in
    let proxy = mapping (Json.get (mapping (Json.get scope "state")) "snulbug_proxy") in
    let auth = merge (mapping (Json.get lua "auth")) (mapping (Json.get proxy "auth")) in
    let lease =
      merge (merge (mapping (Json.get lua "lease")) (mapping (Json.get proxy "lease_preview")))
        (mapping (Json.get proxy "lease")) in
    let upstream =
      merge
        (merge (mapping (Json.get lua "upstream")) (mapping (Json.get proxy "upstream_preview")))
        (mapping (Json.get proxy "upstream_metadata")) in
    client_ip (Json.get request "client") >>= (λ ip. ok (
      field "request" (obj request) (
        field "mcp" (obj (mcp_context py request)) (
          field "auth" (obj auth) (
            field "lease" (obj lease) (
              field "upstream" (obj (named upstream (Json.get proxy "upstream"))) (
                field "decision" (obj (or_else decision end))
                  (field "client" (obj (field "ip" ip end)) end))))))))

-- `_field_value`, with null for `None`
abbrev descend : List String → Json → Json
descend [] value = value
descend (part ∷ parts) (obj m) = descend parts (or_else (Json.get m part) null)
descend (part ∷ parts) value = null

unfoldable pub field_value : Platform → String → Fields → Json
field_value py name context = descend (py.split_dots name) (obj context)

-- value not in (None, "")
abbrev is_given : Json → Bool
is_given null = false
is_given (str s) = not (s == "")
is_given _ = true

-- the loop of `_key` over the fields
unfoldable pub key_parts : Platform → Bool → Fields → List String → Fields → Fields
unfolding field_value
key_parts py include_reason context [] parts = parts
key_parts py include_reason context (name ∷ names) parts =
    let value = field_value py name context in
    let skipped = (name == "decision.reason_code" && not include_reason) || not (is_given value) in
    key_parts py include_reason context names
      (if skipped then parts else Json.put parts name (str (py.str value)))

-- the address of the client, where no part tells who it is
unfoldable pub with_client : Platform → Fields → Fields → Fields
unfolding field_value
with_client py context parts =
    let ip = field_value py "client.ip" context in
    let anonymous =
      not (any (λ name. starts_with name "auth.") (keys parts))
      && not (is_some (Json.get parts "client.ip")) in
    if anonymous && truth ip then Json.put parts "client.ip" (str (py.str ip)) else parts

-- `_key`
unfoldable pub key_of :
    Platform
    → PolicyBackoffConfig
    → String
    → Fields
    → Fields
    → Option Fields
    → Bool
    → String
    → Result BackoffError (String × Fields)
unfolding backoff_context key_parts with_client
key_of py config key_prefix request scope decision include_reason kind = do
  context ← backoff_context py request scope decision
  let parts = with_client py context (key_parts py include_reason context config.key_fields end)
  let digest = py.sha256 (py.dumps (obj parts))
  let prefix = String.◌++◌ key_prefix (String.◌++◌ "policy_backoff:" (String.◌++◌ kind ":"))
  ok (String.◌++◌ prefix digest, parts)

-- `_lookup_key` and `_deny_key`
unfoldable pub lookup_key :
    Platform
    → PolicyBackoffConfig
    → String
    → Fields
    → Fields
    → Result BackoffError (String × Fields)
unfolding key_of
lookup_key py config key_prefix request scope =
    key_of py config key_prefix request scope none false "lookup"

unfoldable pub deny_key :
    Platform
    → PolicyBackoffConfig
    → String
    → Fields
    → Fields
    → Fields
    → Result BackoffError (String × Fields)
unfolding key_of
deny_key py config key_prefix request scope decision =
    key_of py config key_prefix request scope (some decision) true "deny"
