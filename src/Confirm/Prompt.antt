-- ===== src/Confirm/Prompt.antt =====
-- The prompt of snulbug/confirm.py.
use Prim.Native.String
use snulbug.Base.{ℕ, String, Option, none, some, List, [], ◌∷◌, ◌++◌, or_else, ◌==◌, if◌then◌else◌}
use snulbug.Base.Json
use snulbug.Base.Json.{
  Json, truth, either, Fields, Items, null, str, arr, obj, nil, cons, end, field, as_str, keys,
}
use snulbug.Confirm.{Platform}

-- `_optional_string`
abbrev pub text_of : String → Option String
text_of text = if text == "" then none else some text

unfoldable pub optional_string : Platform → Option Json → Option String
optional_string py none = none
optional_string py (some null) = none
optional_string py (some v) = text_of (py.str v)

abbrev text_items : List String → Items
text_items [] = nil
text_items (s ∷ ss) = cons (str s) (text_items ss)

abbrev method_fields : Option Json → Fields
method_fields (some (str method)) = field "method" (str method) end
method_fields _ = end

abbrev target_fields : Option Json → Fields
target_fields (some (str target)) = field "target" (str target) end
target_fields _ = end

abbrev argument_fields : Platform → Option Json → Fields
argument_fields py (some (obj arguments)) =
    field "argument_keys" (arr (text_items (py.sorted (keys arguments)))) end
argument_fields py _ = end

abbrev join_fields : Fields → Fields → Fields
join_fields end rest = rest
join_fields (field k v m) rest = field k v (join_fields m rest)

abbrev params_fields : Platform → Option Json → Fields
params_fields py (some (obj params)) =
    join_fields (target_fields (either (Json.get params "name") (Json.get params "uri")))
      (argument_fields py (Json.get params "arguments"))
params_fields py _ = end

abbrev payload_summary : Platform → Option Json → Fields
payload_summary py (some (obj payload)) =
    join_fields (method_fields (Json.get payload "method"))
      (params_fields py (Json.get payload "params"))
payload_summary py _ = end

-- `_mcp_summary`
unfoldable pub mcp_summary : Platform → Fields → Fields
mcp_summary py request = elim (as_str (Json.get request "body")) [
  | none ↦ end
  | some body ↦ payload_summary py (py.loads body)
]

abbrev join_texts : String → List String → String
join_texts gap [] = ""
join_texts gap (s ∷ []) = s
join_texts gap (s ∷ ss) = String.◌++◌ s (String.◌++◌ gap (join_texts gap ss))

abbrev field_texts : Platform → Fields → List String
field_texts py end = []
field_texts py (field k v m) = String.◌++◌ k (String.◌++◌ "=" (py.dumps v)) ∷ field_texts py m

abbrev summary_lines : Platform → Fields → List String
summary_lines py end = []
summary_lines py m = String.◌++◌ "mcp: " (join_texts " " (field_texts py m)) ∷ []

abbrev code_lines : Platform → Option Json → List String
code_lines py none = []
code_lines py (some v) = if truth v then String.◌++◌ "reason_code: " (py.str v) ∷ [] else []

abbrev key_lines : Option String → List String
key_lines none = []
key_lines (some k) = String.◌++◌ "remember_key: " k ∷ []

abbrev first_of : Option String → Option String → String → String
first_of (some a) b c = a
first_of none b c = or_else b c

-- the text of `_write_prompt`
unfoldable pub prompt_text : Platform → Fields → Fields → Option String → ℕ → String
unfolding mcp_summary optional_string
prompt_text py decision request remember_key timeout =
    let prompt =
      first_of (optional_string py (Json.get decision "prompt"))
        (optional_string py (Json.get decision "reason")) "Allow this MCP request?" in
    join_texts "\n" (
      "" ∷ "snulbug confirm required" ∷ String.◌++◌ "prompt: " prompt ∷ []
      ++ (code_lines py (Json.get decision "reason_code")
          ++ (summary_lines py (mcp_summary py request)
              ++ (key_lines remember_key
                  ++ (String.◌++◌ "timeout_seconds: " (py.general timeout)
                      ∷ "Allow once / always for this session / deny? [o/a/d]: "
                      ∷ [])))))
