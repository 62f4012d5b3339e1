-- ===== src/Schema/Tests.antt =====
-- Runs of snulbug/json_schema.py on small values.
use snulbug.Base.{◌≤◌, ◌≡◌, ◌↔◌, true, none, some, [], ◌∷◌, length}
use snulbug.Base.Result.{ok}
use snulbug.Schema.{Value, scalar, dict, list, end, more, max_nodes, max_depth, max_issues}
use snulbug.Schema.Size.{Verdict, accepted, check_size}
use snulbug.Schema.Measure.{nodes, height, is_json}
use snulbug.Schema.Exact.{check_size-exact}
use snulbug.Schema.Issues.{Library, validate_schema}
use snulbug.Schema.Closed.{IsValid, validate_schema-closed}

-- {"a": 1, "b": [null]}
abbrev sample : Value
sample = dict true (more scalar (more (list (more scalar end)) end))

check_size-exact_example :
    (verdict : Verdict) × (check_size sample ≡ some verdict)
    × ((verdict ≡ accepted)
        ↔ ((nodes sample ≤ max_nodes) × (height sample ≤ max_depth) × (is_json sample ≡ true)))
check_size-exact_example = check_size-exact sample

-- A validator that asks for an object.
abbrev library : Library (Unit {0})
library = record {
  encoded_bytes = λ schema. ok 17;
  compiled = λ schema. ok tt;
  errors = λ validator value. elim value [
    | dict keys vs ↦ ([], none)
    | _ ↦ (record { absolute_path = []; validator = some "type" } ∷ [], none)
  ];
  is_plain = λ s. true;
  quoted = λ s. s;
  str = λ n. "0";
  snake = λ s. s;
}

validate_schema-closed_example :
    (length (validate_schema library sample scalar "$") ≤ max_issues)
    × ((validate_schema library sample scalar "$" ≡ []) ↔ IsValid library sample scalar)
validate_schema-closed_example = validate_schema-closed library sample scalar "$"
