-- ===== src/Metrics.antt =====
-- metrics.py: the counters of created and of completed tasks. A `defaultdict` is an association list
-- that reads 0 where a key is missing.
pub mod Latency
pub mod Rising
pub mod Render
pub mod Rendered
use ai_worker_bridge_mcp.Base.{ℕ, ◌+◌, String, ◌&&◌, List, [], ◌∷◌, if◌then◌else◌}
use text.Mathlib.Text.{◌==◌ as str_eq}

abbrev pub Counter : Type 0
Counter = List (String × String × ℕ)

-- `counter[(key, label)]`
unfoldable pub reading : String → String → Counter → ℕ
reading key label [] = 0
reading key label ((k, l, n) ∷ rest) =
    if str_eq k key && str_eq l label then n else reading key label rest

-- `counter[(key, label)] += 1`
unfoldable pub bump : String → String → Counter → Counter
bump key label [] = (key, label, 1) ∷ []
bump key label ((k, l, n) ∷ rest) =
    if str_eq k key && str_eq l label then (k, l, n + 1) ∷ rest else (k, l, n) ∷ bump key label rest

pub record Metrics : Type 0 where
  pub tasks_created : Counter
  pub tasks_completed : Counter

unfoldable pub inc_task_created : String → String → Metrics → Metrics
inc_task_created worker_id mode m = record m { tasks_created = bump worker_id mode m.tasks_created }

unfoldable pub inc_task_completed : String → String → Metrics → Metrics
inc_task_completed worker_id state m = record m {
  tasks_completed = bump worker_id state m.tasks_completed;
}
