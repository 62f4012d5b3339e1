-- ===== src/Tasks/Counts.antt =====
-- The counts of snulbug/mcp_tasks.py.
use snulbug.Base.{ℕ, ◌+◌, ◌≡◌, List, [], ◌∷◌, arith, length}
use snulbug.Base.Json.{Fields}
use snulbug.Tasks.{
  Support, forbidden, optional, required, Summary, no_tools, count_tool, tool_support, summarize,
  task_capable,
}

abbrev pub total : Summary → ℕ
total s = s.forbidden_count + task_capable s

total-count_tool :
    (tool : Fields) (k : Support) (s : Summary) → total (count_tool tool k s) ≡ total s + 1
unfolding count_tool task_capable
total-count_tool tool forbidden s = omega arith
total-count_tool tool optional s = omega arith
total-count_tool tool required s = omega arith

total-summarize :
    (tools : List Fields) (s : Summary) → total (summarize tools s) ≡ total s + length tools
unfolding summarize
total-summarize [] s = omega arith
total-summarize (tool ∷ tools) s = omega (
  arith,
  total-summarize tools (count_tool tool (tool_support tool) s),
  total-count_tool tool (tool_support tool) s,
)

-- Each tool is counted once: the tools that forbid tasks and those that are capable of them are
-- all the tools.
summarize-length :
    (tools : List Fields)
    → (summarize tools no_tools).forbidden_count + task_capable (summarize tools no_tools)
      ≡ length tools
unfolding task_capable
summarize-length tools = omega (arith, total-summarize tools no_tools)
