-- ===== src/Metrics/Render.antt =====
-- metrics.py: the counters that have a worker alone as their key, and `render`. The texts of numbers are
-- a parameter; the latencies are in microseconds, and a printer gives their texts in seconds.
use ai_worker_bridge_mcp.Base.{
  ℕ, ◌+◌, String, Bool, true, false, ◌&&◌, ◌||◌, ◌==◌, List, [], ◌∷◌, ◌++◌, map, ltb, if◌then◌else◌,
}
use ai_worker_bridge_mcp.Base.Text.{Text, codes, join}
use ai_worker_bridge_mcp.Metrics.{Counter, Metrics}
use ai_worker_bridge_mcp.Metrics.Latency.{Buckets, Histogram, observe_worker_call, empty_histogram}
use text.Mathlib.Text.{◌==◌ as str_eq}

abbrev pub Tally : Type 0
Tally = List (String × ℕ)

pub record WorkerMetrics : Type 0 where
  pub worker_failures : Tally
  pub circuit_open : Tally
  pub worker_calls : List (String × Histogram)

-- `tally[worker_id] += 1`
unfoldable pub tallied : String → Tally → Tally
tallied worker_id [] = (worker_id, 1) ∷ []
tallied worker_id ((w, n) ∷ rest) =
    if str_eq w worker_id then (w, n + 1) ∷ rest else (w, n) ∷ tallied worker_id rest

unfoldable pub inc_worker_failure : String → WorkerMetrics → WorkerMetrics
unfolding tallied
inc_worker_failure worker_id m = record m { worker_failures = tallied worker_id m.worker_failures }

unfoldable pub inc_circuit_open : String → WorkerMetrics → WorkerMetrics
unfolding tallied
inc_circuit_open worker_id m = record m { circuit_open = tallied worker_id m.circuit_open }

-- `observe_worker_call` on the histograms of all workers.
unfoldable pub observed_for :
    List ℕ → String → ℕ → List (String × Histogram) → List (String × Histogram)
unfolding observe_worker_call empty_histogram
observed_for bounds worker_id micros [] =
    (worker_id, observe_worker_call micros (empty_histogram bounds)) ∷ []
observed_for bounds worker_id micros ((w, h) ∷ rest) =
    if str_eq w worker_id
    then (w, observe_worker_call micros h) ∷ rest
    else (w, h) ∷ observed_for bounds worker_id micros rest

unfoldable pub text_le : Text → Text → Bool
text_le [] t = true
text_le (a ∷ s) [] = false
text_le (a ∷ s) (b ∷ t) = ltb a b || ((a == b) && text_le s t)

-- The order of `sorted(counter.items())`: the keys of a dict differ, so the counts are not compared.
unfoldable pub item_le : String × String × ℕ → String × String × ℕ → Bool
unfolding text_le
item_le (j, k, m) (w, l, n) =
    if str_eq j w then text_le (codes k) (codes l) else text_le (codes j) (codes w)

unfoldable pub worker_le {ℓ} : {A : Type ℓ} → String × A → String × A → Bool
unfolding text_le
worker_le (j, m) (w, n) = text_le (codes j) (codes w)

unfoldable pub insert_item {ℓ} : {A : Type ℓ} → (A → A → Bool) → A → List A → List A
insert_item le x [] = x ∷ []
insert_item le x (y ∷ ys) = if le x y then x ∷ y ∷ ys else y ∷ insert_item le x ys

unfoldable pub sorted {ℓ} : {A : Type ℓ} → (A → A → Bool) → List A → List A
unfolding insert_item
sorted le [] = []
sorted le (x ∷ xs) = insert_item le x (sorted le xs)

-- The texts of a number, of a bound in seconds, and of a duration with six decimals.
pub record Printer : Type 0 where
  pub number : ℕ → Text
  pub bound : ℕ → Text
  pub seconds : ℕ → Text

-- `name="value"`
unfoldable pub label : String → Text → Text
label name text = codes name ++ (codes "=\"" ++ (text ++ codes "\""))

-- `metric{labels} value`
unfoldable pub sample : String → Text → Text → Text
sample metric labels text = codes metric ++ (codes "{" ++ (labels ++ (codes "} " ++ text)))

unfoldable pub pair_line : Printer → String → String → String × String × ℕ → Text
unfolding sample label
pair_line printer metric second (worker_id, text, n) =
    sample metric (label "worker_id" (codes worker_id) ++ (codes "," ++ label second (codes text)))
      (printer.number n)

unfoldable pub worker_line : Printer → String → String × ℕ → Text
unfolding sample label
worker_line printer metric (worker_id, n) =
    sample metric (label "worker_id" (codes worker_id)) (printer.number n)

unfoldable pub bucket_line : String → Text → Text → Text
unfolding sample label
bucket_line worker_id le text =
    sample "ai_bridge_worker_call_seconds_bucket"
      (label "worker_id" (codes worker_id) ++ (codes "," ++ label "le" le)) text

bucket_lines : Printer → String → Buckets → List Text
unfolding bucket_line
bucket_lines printer worker_id [] = []
bucket_lines printer worker_id ((b, n) ∷ rest) =
    bucket_line worker_id (printer.bound b) (printer.number n) ∷ bucket_lines printer worker_id rest

-- The lines of one worker's histogram.
unfoldable pub call_lines : Printer → String × Histogram → List Text
unfolding bucket_lines bucket_line worker_line sample label
call_lines printer (worker_id, h) =
    bucket_lines printer worker_id h.buckets
    ++ bucket_line worker_id (codes "+Inf") (printer.number h.calls)
      ∷ worker_line printer "ai_bridge_worker_call_seconds_count" (worker_id, h.calls)
      ∷ sample "ai_bridge_worker_call_seconds_sum" (label "worker_id" (codes worker_id))
          (printer.seconds h.total)
      ∷ []

all_call_lines : Printer → List (String × Histogram) → List Text
unfolding call_lines
all_call_lines printer [] = []
all_call_lines printer (entry ∷ rest) = call_lines printer entry ++ all_call_lines printer rest

-- The two comment lines of a metric.
unfoldable pub heading : String → String → String → List Text → List Text
heading metric help kind lines =
    (codes "# HELP " ++ (codes metric ++ (codes " " ++ codes help)))
    ∷ (codes "# TYPE " ++ (codes metric ++ (codes " " ++ codes kind)))
    ∷ lines

unfoldable pub gauge : Printer → String → String → ℕ → List Text
unfolding heading
gauge printer metric help n =
    heading metric help "gauge" ((codes metric ++ (codes " " ++ printer.number n)) ∷ [])

unfoldable pub pair_lines : Printer → String → String → Counter → List Text
unfolding sorted item_le pair_line
pair_lines printer metric second counter =
    map (pair_line printer metric second) (sorted item_le counter)

unfoldable pub tally_lines : Printer → String → Tally → List Text
unfolding sorted worker_le worker_line
tally_lines printer metric tally = map (worker_line printer metric) (sorted worker_le tally)

-- The lines after those of the created tasks.
unfoldable pub later_lines : Printer → Counter → WorkerMetrics → ℕ → ℕ → List Text
unfolding heading pair_lines tally_lines sorted worker_le all_call_lines gauge
later_lines printer tasks_completed w active_tasks queued_tasks =
    heading "ai_bridge_tasks_completed_total" "Tasks completed by worker and terminal state."
      "counter" (pair_lines printer "ai_bridge_tasks_completed_total" "state" tasks_completed)
    ++ heading "ai_bridge_worker_failures_total" "Worker call failures by worker." "counter"
        (tally_lines printer "ai_bridge_worker_failures_total" w.worker_failures)
    ++ heading "ai_bridge_circuit_open_total" "Circuit breaker openings by worker." "counter"
        (tally_lines printer "ai_bridge_circuit_open_total" w.circuit_open)
    ++ heading "ai_bridge_worker_call_seconds" "Worker call latency histogram." "histogram"
        (all_call_lines printer (sorted worker_le w.worker_calls))
    ++ gauge printer "ai_bridge_active_tasks" "Active in-process async tasks." active_tasks
    ++ gauge printer "ai_bridge_queued_tasks" "Durable queued tasks." queued_tasks

unfoldable pub render_lines : Printer → Metrics → WorkerMetrics → ℕ → ℕ → List Text
unfolding heading pair_lines later_lines
render_lines printer m w active_tasks queued_tasks =
    heading "ai_bridge_tasks_created_total" "Durable tasks created by worker and mode." "counter"
      (pair_lines printer "ai_bridge_tasks_created_total" "mode" m.tasks_created)
    ++ later_lines printer m.tasks_completed w active_tasks queued_tasks

unfoldable pub render : Printer → Metrics → WorkerMetrics → ℕ → ℕ → Text
unfolding render_lines
render printer m w active_tasks queued_tasks =
    join (codes "\n") (render_lines printer m w active_tasks queued_tasks) ++ codes "\n"
