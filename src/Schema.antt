-- ===== src/Schema.antt =====
-- snulbug/json_schema.py: the check of the size of a value before it is validated, and validation
-- with issues in place of exceptions.
pub mod Size
pub mod Measure
pub mod Exact
pub mod Closed
pub mod Issues
mod Tests
use snulbug.Base.{ℕ, Bool}

-- A Python value as `_check_size` sees it: a JSON scalar; a value of another type, or a float that
-- is not finite; a dictionary, whether all its keys are texts, and its values; or a list.
mutual
  pub data Value : Type 0 where
    scalar other : Value
    dict : Bool → Values → Value
    list : Values → Value

  pub data Values : Type 0 where
    end : Values
    more : Value → Values → Values

abbrev pub max_nodes : ℕ
max_nodes = 10000

abbrev pub max_depth : ℕ
max_depth = 64

abbrev pub max_schema_bytes : ℕ
max_schema_bytes = 262144

abbrev pub max_issues : ℕ
max_issues = 20
