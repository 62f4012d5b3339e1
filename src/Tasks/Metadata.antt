-- ===== src/Tasks/Metadata.antt =====
-- The ids that snulbug/mcp_tasks.py records.
use snulbug.Base.{
  ap, ◌∙◌, false, true, ◌≡◌, refl, String, Option, none, some, arith, ◌==◌, if◌then◌else◌, eq_iff,
}
use snulbug.Base.Json
use snulbug.Base.Json.{
  Json, Fields, bool, null, int, flt, arr, str, obj, end, field, as_str, mapping,
}
use snulbug.Tasks.{
  text_of, number_of, set_if, set_text, related_task_id, method_metadata, augmentation,
  params_metadata, request_metadata,
}

get-put :
    (m : Fields) (k j : String) (v : Json)
    → Json.get (Json.put m k v) j ≡ (if k == j then some v else Json.get m j)
unfolding Json.get Json.put
get-put end k j v = refl
get-put (field i w m) k j v = ground (arith, eq_iff k j, eq_iff i k, eq_iff i j, get-put m k j v)

set_text-other :
    (m : Fields) (k j : String) (t : Option String)
    → (k == j) ≡ false
    → Json.get (set_text m k t) j ≡ Json.get m j
unfolding set_text
set_text-other m k j none h = refl
set_text-other m k j (some s) h = ground (arith, get-put m k j (str s))

set_if-other :
    (m : Fields) (k j : String) (v : Option Json)
    → (k == j) ≡ false
    → Json.get (set_if m k v) j ≡ Json.get m j
unfolding set_if
set_if-other m k j none h = refl
set_if-other m k j (some v) h = ground (arith, get-put m k j v)

set_text-same :
    (m : Fields) (k : String) (t : Option String)
    → as_str (Json.get m k) ≡ none
    → as_str (Json.get (set_text m k t) k) ≡ t
unfolding set_text
set_text-same m k none h = h
set_text-same m k (some s) h = ground (arith, get-put m k k (str s), eq_iff k k)

method-none : (method : String) → Json.get (method_metadata method) "task_id" ≡ none
unfolding method_metadata Json.get Json.put
method-none method = ground arith

augmentation-none :
    (m : Fields) (task : Option Json)
    → Json.get m "task_id" ≡ none
    → Json.get (augmentation m task) "task_id" ≡ none
unfolding augmentation
augmentation-none m (some (obj task)) h =
    set_if-other (Json.put m "task_augmented" (bool true)) "task_ttl_ms" "task_id"
      (number_of task "ttl") refl
    ∙ (get-put m "task_augmented" "task_id" (bool true) ∙ h)
augmentation-none m _ h = h

params-task_id :
    (m params : Fields)
    → Json.get m "task_id" ≡ none
    → as_str (Json.get (params_metadata m params) "task_id") ≡ text_of params "taskId"
unfolding params_metadata
params-task_id m params h =
    let named = set_text m "task_id" (text_of params "taskId") in
    let timed = set_text named "task_status" (text_of params "status") in
    ap as_str (
      set_text-other timed "related_task_id" "task_id" (related_task_id (Json.get params "_meta"))
        refl
      ∙ set_text-other named "task_status" "task_id" (text_of params "status") refl)
    ∙ set_text-same m "task_id" (text_of params "taskId") (ap as_str h)

-- A request that has a method records as its task the one that its parameters name, and no task
-- where they name none, whatever else it records.
request_metadata-task_id :
    (request : Fields) (method : String)
    → as_str (Json.get request "method") ≡ some method
    → as_str (Json.get (request_metadata request) "task_id")
      ≡ text_of (mapping (Json.get request "params")) "taskId"
unfolding request_metadata
request_metadata-task_id request method h =
    let params = mapping (Json.get request "params") in
    let m = augmentation (method_metadata method) (Json.get params "task") in
    let none_yet : Json.get m "task_id" ≡ none =
      augmentation-none (method_metadata method) (Json.get params "task") (method-none method) in
    rw (h, request_metadata) (params-task_id m params none_yet)
