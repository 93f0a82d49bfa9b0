-- ===== src/Examples/Data.antt =====
-- Tasks and tables for the examples.
use ai_worker_bridge_mcp.Base.{String, Option, none, some, [], ◌∷◌}
use ai_worker_bridge_mcp.Base.Text.{codes}
use ai_worker_bridge_mcp.TaskState.{TaskState, pending, running, completed, TaskRecord}
use ai_worker_bridge_mcp.Store.{Table}

abbrev pub task : String → Option String → TaskState → TaskRecord
task id key state = record {
  task_id = id;
  worker_id = "w";
  prompt = codes "do it";
  working_directory = none;
  idempotency_key = key;
  dispatch_attempt_id = none;
  attempt_count = 0;
  state = state;
  result = none;
  error = none;
  created_at = "t0";
  updated_at = "t0";
  started_at = none;
  completed_at = none;
  timeout_millis = 1000;
}

abbrev pub waiting : TaskRecord
waiting = task "a" (some "k") pending

abbrev pub busy : TaskRecord
busy = task "b" none running

abbrev pub ended : TaskRecord
ended = task "c" (some "m") completed

abbrev pub three_tasks : Table
three_tasks = waiting ∷ busy ∷ ended ∷ []
