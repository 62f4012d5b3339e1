-- ===== src/Backoff/Reply.antt =====
-- What snulbug/policy_backoff.py answers while a backoff is active: a decision, and headers.
use Prim.Native.String
use snulbug.Base.{ℕ, String, Bool, Option, none, some, List, [], ◌∷◌, or_else, if◌then◌else◌}
use snulbug.Base.Result.{Result, ok, ◌>>=◌}
use snulbug.Base.Int.{ℤ, pos}
use snulbug.Base.Json
use snulbug.Base.Json.{Json, Fields, int, str, obj, end, field, null, truth}
use snulbug.Backoff.{Platform, BackoffError}
use snulbug.Backoff.Deny.{text_or, number}

-- int(value or default)
abbrev int_or : Platform → Option Json → ℕ → Result BackoffError ℤ
int_or py none default = ok (pos default)
int_or py (some v) default = if truth v then number (py.int v) else ok (pos default)

-- `policy_backoff_active_decision`
unfoldable pub active_decision : Platform → Fields → Result BackoffError Fields
active_decision py metadata = do
  retry_after ← int_or py (Json.get metadata "retry_after") 1
  let original = text_or py (Json.get metadata "original_reason_code") "policy.denied"
  status ← int_or py (Json.get metadata "status") 429
  count ← int_or py (Json.get metadata "count") 0
  let body =
      String.◌++◌ "policy deny backoff active; retry after "
        (String.◌++◌ (py.str (int retry_after)) "s")
  ok (
      field "action" (str "reject") (
        field "status" (int status) (
          field "body" (str body) (
            field "reason" (str "policy deny backoff active") (
              field "reason_code" (str "policy.backoff_active") (
                field "context"
                  (obj (
                    field "retry_after" (int retry_after) (
                      field "count" (int count) (field "original_reason_code" (str original) end))))
                  end))))))

abbrev retry_headers : Platform → Bool → Option Json → List (String × String)
retry_headers py include_retry_after none = []
retry_headers py include_retry_after (some null) = []
retry_headers py include_retry_after (some v) =
    (if include_retry_after then "retry-after" else "x-snulbug-backoff-retry-after", py.str v) ∷ []

-- `policy_backoff_headers`, before the texts are encoded
unfoldable pub headers : Platform → Fields → Bool → List (String × String)
headers py metadata include_retry_after =
    ("x-snulbug-backoff-count", py.str (or_else (Json.get metadata "count") (int (pos 0))))
    ∷ ("x-snulbug-backoff-reason", text_or py (Json.get metadata "original_reason_code") "")
    ∷ retry_headers py include_retry_after (Json.get metadata "retry_after")
