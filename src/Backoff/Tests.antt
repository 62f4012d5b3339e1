-- ===== src/Backoff/Tests.antt =====
-- A denial of snulbug/policy_backoff.py, and a request after it.
use snulbug.Base.{
  ◌+◌, ◌-◌, ◌≤◌, ◌<◌, ◌≡◌, ◌⊎◌, refl, String, true, false, Option, none, some, [], ◌∷◌, arith,
}
use snulbug.Base.Int.{ℤ, pos, ◌+ℤ◌}
use snulbug.Base.Result.{ok, ◌>>=◌}
use snulbug.Base.Dict
use snulbug.Base.Json
use snulbug.Base.Json.{Json, Fields, int, flt, str, obj, end, field}
use snulbug.State.Tally.{python}
use snulbug.State.Memory.{memory_store}
use snulbug.State.Memory.Refinement.{view}
use snulbug.Backoff.{Platform, PolicyBackoffConfig, matches_any, matches_pattern}
use snulbug.Backoff.Keys.{
  lookup_key, deny_key, key_of, backoff_context, mcp_context, key_parts, with_client, field_value,
}
use snulbug.Backoff.Deny.{
  active, float_value, decode_record, metadata_from_record, preflight, whole_seconds, int_or_zero,
  larger, second,
}
use snulbug.Backoff.Record.{delay_seconds, deny_record, is_selected, next_record, record_deny}
use snulbug.Backoff.Counts.{next_record-counts}
use snulbug.Backoff.Hold.{is_active, deny-holds}

abbrev text : Json → String
text (str s) = s
text _ = "other"

abbrev micros : Json → Option ℤ
micros (flt n e) = some n
micros _ = none

abbrev whole : Json → Option ℤ
whole (int n) = some n
whole _ = none

abbrev platform : (String → Option Json) → Platform
platform loads = record {
  loads = loads;
  dumps = λ v. "text";
  sha256 = λ s. s;
  first_byte = λ s. 0;
  str = text;
  int = whole;
  float_seconds = micros;
  seconds = λ n. flt (pos n) (pos 0);
  grown = λ n. some 2000000;
  jittered = λ delay byte. delay;
  split_dots = λ s. s ∷ [];
}

abbrev config : PolicyBackoffConfig
config = record {
  enabled = true;
  max_seconds = 60000000;
  window_seconds = 300000000;
  jitter = true;
  status = 429;
  reason_codes = "mcp.*" ∷ [];
  exclude_reason_codes = [];
  key_fields = "client.ip" ∷ [];
}

abbrev decision : Fields
decision = field "action" (str "reject") (field "reason_code" (str "mcp.tool") end)

abbrev lookup : String
lookup = "policy_backoff:lookup:text"

abbrev deny : String
deny = "policy_backoff:deny:text"

abbrev written : Fields
written =
    deny_record (platform (λ s. none)) 5 (pos 1) 2000000 "mcp.tool" "reject" none lookup deny end

-- The texts of this platform are all read as the record of the denial.
abbrev py : Platform
py = platform (λ s. some (obj written))

made :
    next_record py config "" 5 "mcp.tool" "reject" lookup deny end
      (decode_record py (view [] 5 deny))
    ≡ ok (2000000, written)
unfolding next_record delay_seconds deny_record decode_record Json.get ◌+ℤ◌ view Dict.get
made = refl

next_record-counts_example :
    (count : ℤ) × (int_or_zero py (Json.get (decode_record py (view [] 5 deny)) "count") ≡ ok count)
    × (Json.get written "count" ≡ some (int (count +ℤ pos 1)))
    × (Json.get written "cooldown_until" ≡ some (py.seconds (5 + 2000000)))
    × (2000000 ≤ larger second config.max_seconds)
next_record-counts_example =
    next_record-counts py config "" 5 "mcp.tool" "reject" lookup deny end
      (decode_record py (view [] 5 deny)) written 2000000 made

looked : lookup_key py config "" end end ≡ ok (lookup, end)
unfolding lookup_key key_of backoff_context mcp_context key_parts with_client field_value Json.get
    Json.put
looked = refl

denies : deny_key py config "" end end decision ≡ ok (deny, end)
unfolding deny_key key_of backoff_context mcp_context key_parts with_client field_value Json.get
    Json.put
denies = refl

selected : is_selected py config "" "mcp.tool" ≡ true
unfolding is_selected matches_any matches_pattern
selected = refl

deny-holds_example :
    ((1000005 < 5 + 2000000)
      × ((preflight py config ""
            (some (memory_store python))
            1000005
            end
            end
            (record_deny py config "" (some (memory_store python)) 5 end end decision []).1).0
          ≡ (metadata_from_record py written
              >>= (λ m. ok (active m lookup end (whole_seconds (5 + 2000000 - 1000005)))))))
    ⊎ ((5 + 2000000 ≤ 1000005)
        × (is_active
              (preflight py config ""
                (some (memory_store python))
                1000005
                end
                end
                (record_deny py config "" (some (memory_store python)) 5 end end decision []).1).0
            ≡ false))
deny-holds_example =
    deny-holds py config "" python 5 1000005 2000000 end end decision end end written lookup deny []
      refl (unfold Json.get in refl) (unfold Json.get in selected) looked denies
      (unfold Json.get in made) refl refl (λ n. unfold float_value in refl) (omega arith)
      (omega arith)
