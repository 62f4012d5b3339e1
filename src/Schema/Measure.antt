-- ===== src/Schema/Measure.antt =====
-- The size, the height and the kind of a value, for what `_check_size` of snulbug/json_schema.py says.
use snulbug.Base.{ℕ, suc, ◌+◌, Bool, true, false, ◌&&◌, leb, if◌then◌else◌}
use snulbug.Schema.{Value, Values, scalar, other, dict, list, end, more}

abbrev pub larger : ℕ → ℕ → ℕ
larger a b = if leb a b then b else a

-- The values in a value, its height, and whether all of it is JSON.
abbrev mutual
  pub nodes : Value → ℕ
  nodes scalar = 1
  nodes other = 1
  nodes (dict keys vs) = suc (nodes_of vs)
  nodes (list vs) = suc (nodes_of vs)

  pub nodes_of : Values → ℕ
  nodes_of end = 0
  nodes_of (more v vs) = nodes v + nodes_of vs

abbrev mutual
  pub height : Value → ℕ
  height scalar = 0
  height other = 0
  height (dict keys vs) = height_of vs
  height (list vs) = height_of vs

  pub height_of : Values → ℕ
  height_of end = 0
  height_of (more v vs) = larger (suc (height v)) (height_of vs)

abbrev mutual
  pub is_json : Value → Bool
  is_json scalar = true
  is_json other = false
  is_json (dict keys vs) = keys && are_json vs
  is_json (list vs) = are_json vs

  pub are_json : Values → Bool
  are_json end = true
  are_json (more v vs) = is_json v && are_json vs
