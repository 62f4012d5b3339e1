-- ===== src/Tasks/Tests.antt =====
-- Runs of snulbug/mcp_tasks.py on small messages.
use snulbug.Base.{◌≡◌, refl, some}
use snulbug.Base.Json
use snulbug.Base.Json.{Fields, str, obj, field, end, as_str, mapping}

abbrev request : Fields
request =
    field "method" (str "tasks/get") (field "params" (obj (field "taskId" (str "t1") end)) end)

request-method : as_str (Json.get request "method") ≡ some "tasks/get"
unfolding Json.get
request-method = refl
