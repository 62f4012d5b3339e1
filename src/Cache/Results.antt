-- ===== src/Cache/Results.antt =====
-- `private_result` of snulbug/mcp_cache.py.
use snulbug.Base.{
  String, Bool, true, false, not, ◌&&◌, ◌||◌, Option, none, some, contains, is_some, ◌==◌, eqb,
  if◌then◌else◌,
}
use snulbug.Base.Int.{pos}
use snulbug.Base.Json.{Json, Fields, bool, int, str, obj, end, field, get, put, pop}
use snulbug.Cache.{Platform, cacheable_methods}

-- value == text
abbrev is_text : String → Option Json → Bool
is_text t (some (str s)) = s == t
is_text t _ = false

-- type(ttl) is int and ttl >= 0
abbrev is_natural : Option Json → Bool
is_natural (some (int (pos n))) = true
is_natural _ = false

-- type(ttl) is int and ttl == 0
abbrev is_zero : Option Json → Bool
is_zero (some (int (pos n))) = eqb n 0
is_zero _ = false

abbrev has : String → Fields → Bool
has k m = is_some (get m k)

unfoldable pub is_complete : Option String → Fields → Bool
is_complete method result =
    is_text "complete" (get result "resultType")
    && elim method [ none ↦ false | some m ↦ contains cacheable_methods m ]

-- `metadata`
unfoldable pub cache_metadata : Bool → Fields → Fields
cache_metadata complete result =
    let ttl = get result "ttlMs" in
    let scope = get result "cacheScope" in
    let metadata = field "reason_code" (str "mcp.cache.policy_boundary") (
      field "hints_valid"
        (bool (is_natural ttl && (is_text "private" scope || is_text "public" scope)))
        (field "hints_changed"
          (bool (not complete || not (is_zero ttl) || not (is_text "private" scope)))
          (field "cacheable_method" (bool complete) end))) in
    if complete
    then put (put metadata "ttl_ms" (int (pos 0))) "cache_scope" (str "private")
    else metadata

-- the result with its new hints
unfoldable pub seal : Bool → Fields → Fields
seal complete result =
    if complete
    then put (put result "ttlMs" (int (pos 0))) "cacheScope" (str "private")
    else pop (pop result "ttlMs") "cacheScope"

-- whether the result is left as it is
unfoldable pub is_left_alone : Bool → Fields → Bool
is_left_alone complete result = not complete && not (has "ttlMs" result || has "cacheScope" result)

-- a payload that is a response with a result
unfoldable pub result_of : Json → Option Fields
result_of (obj payload) =
    if has "error" payload || has "method" payload
    then none
    else elim (get payload "result") [ some (obj result) ↦ some result | _ ↦ none ]
result_of _ = none

abbrev pub fields_of : Json → Fields
fields_of (obj m) = m
fields_of _ = end

module _ (py : Platform) where
  -- the result of a payload, if it is one, and its new hints
  unfoldable pub sealed_payload : String → Option String → Json → Option Fields → String × Fields
  unfolding is_complete cache_metadata seal is_left_alone
  sealed_payload body method payload none = (body, end)
  sealed_payload body method payload (some result) =
      let complete = is_complete method result in
      if is_left_alone complete result then (body, end) else (
        py.dumps (obj (put (fields_of payload) "result" (obj (seal complete result)))),
        cache_metadata complete result,
      )

  unfoldable pub private_result : String → Option String → String × Fields
  unfolding sealed_payload result_of
  private_result body method = elim (py.loads body) [
    | none ↦ (body, end)
    | some payload ↦ sealed_payload body method payload (result_of payload)
  ]
