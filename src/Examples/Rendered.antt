-- ===== src/Examples/Rendered.antt =====
-- The metrics of two workers as a page of text.
use ai_worker_bridge_mcp.Base.{◌≡◌, refl, [], ◌∷◌, ◌+◌}
use ai_worker_bridge_mcp.Base.Text.{codes}
use ai_worker_bridge_mcp.Metrics.{Metrics, reading, inc_task_created}
use ai_worker_bridge_mcp.Metrics.Latency.{observed}
use ai_worker_bridge_mcp.Metrics.Render.{
  WorkerMetrics, Printer, pair_line, call_lines, pair_lines, render_lines,
}
use ai_worker_bridge_mcp.Metrics.Rendered.{Has, inc_task_created-rendered}

abbrev printer : Printer
printer = record {
  number = λ n. (48 + n) ∷ [];
  bound = λ n. (48 + n) ∷ codes ".0";
  seconds = λ n. codes "s";
}

abbrev counted : Metrics
counted = record {
  tasks_created = ("w", "sync", 2) ∷ ("a", "sync", 1) ∷ ("a", "async", 3) ∷ [];
  tasks_completed = [];
}

abbrev no_calls : WorkerMetrics
no_calls = record { worker_failures = []; circuit_open = []; worker_calls = [] }

in_order :
    pair_lines printer "created" "mode" counted.tasks_created
    ≡ codes "created{worker_id=\"a\",mode=\"async\"} 3"
      ∷ codes "created{worker_id=\"a\",mode=\"sync\"} 1"
      ∷ codes "created{worker_id=\"w\",mode=\"sync\"} 2"
      ∷ []
unfolding pair_lines
in_order = refl

of_calls :
    call_lines printer ("w", observed (1 ∷ 2 ∷ []) (2 ∷ 1 ∷ 3 ∷ []))
    ≡ codes "ai_bridge_worker_call_seconds_bucket{worker_id=\"w\",le=\"1.0\"} 1"
      ∷ codes "ai_bridge_worker_call_seconds_bucket{worker_id=\"w\",le=\"2.0\"} 2"
      ∷ codes "ai_bridge_worker_call_seconds_bucket{worker_id=\"w\",le=\"+Inf\"} 3"
      ∷ codes "ai_bridge_worker_call_seconds_count{worker_id=\"w\"} 3"
      ∷ codes "ai_bridge_worker_call_seconds_sum{worker_id=\"w\"} s"
      ∷ []
unfolding call_lines observed
of_calls = refl

inc_task_created-rendered_example :
    Has
      (pair_line printer "ai_bridge_tasks_created_total" "mode"
        ("a", "sync", reading "a" "sync" counted.tasks_created + 1))
      (render_lines printer (inc_task_created "a" "sync" counted) no_calls 0 1)
inc_task_created-rendered_example =
    inc_task_created-rendered printer counted no_calls 0 1 "a" "sync"
