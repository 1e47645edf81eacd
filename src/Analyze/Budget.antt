-- ===== src/Analyze/Budget.antt =====
-- analyzeBudget (analyze.go).
use filestor.Base.{ℕ, ◌+◌, ◌-◌, ◌*◌, ◌≤◌, min, arith}

abbrev pub base_rounds : ℕ
base_rounds = 16

abbrev pub rounds_per_file : ℕ
rounds_per_file = 1

abbrev pub rounds_cap : ℕ
rounds_cap = 64

abbrev pub base_tool_calls : ℕ
base_tool_calls = 28

abbrev pub tool_calls_per_file : ℕ
tool_calls_per_file = 2

abbrev pub tool_calls_cap : ℕ
tool_calls_cap = 256

-- analyzeBudget; `files - 1` stops at 0, as extra does
unfoldable pub analyze_budget : ℕ → ℕ × ℕ
analyze_budget files =
    let extra = files - 1 in
    (
      min (base_rounds + rounds_per_file * extra) rounds_cap,
      min (base_tool_calls + tool_calls_per_file * extra) tool_calls_cap,
    )

pub analyze_budget-bounds :
    (files more : ℕ)
    → files ≤ more
    → (16 ≤ (analyze_budget files).0)
      × ((analyze_budget files).0 ≤ (analyze_budget more).0)
      × ((analyze_budget more).0 ≤ 64)
      × (28 ≤ (analyze_budget files).1)
      × ((analyze_budget files).1 ≤ (analyze_budget more).1)
      × ((analyze_budget more).1 ≤ 256)
unfolding analyze_budget
analyze_budget-bounds files more h = omega arith
