-- ===== src/Examples/Managed.antt =====
-- The theorems of Manager on a manager with one worker and three tasks.
use ai_worker_bridge_mcp.Base.{◌≡◌, refl, true, false, some, [], ◌∷◌}
use ai_worker_bridge_mcp.Base.Text.{codes}
use ai_worker_bridge_mcp.Base.Exec.{ok, err}
use ai_worker_bridge_mcp.Exceptions.{timeout_error, missing_working_directory}
use ai_worker_bridge_mcp.Config.{manual, async}
use ai_worker_bridge_mcp.TaskState.{TaskRecord}
use ai_worker_bridge_mcp.Store.{get}
use ai_worker_bridge_mcp.Manager.{TaskManager, on_outcome, on_exception}
use ai_worker_bridge_mcp.Manager.Refused.{on_exception_of_pending}
use ai_worker_bridge_mcp.Examples.Data.{waiting, busy, ended, three_tasks}
use ai_worker_bridge_mcp.Examples.Stored.{three_tasks-IsValid}
use ai_worker_bridge_mcp.Manager.Background.{created}
use ai_worker_bridge_mcp.Manager.Calls.{CallRequest, task_response, submit, cancel}
use ai_worker_bridge_mcp.Metrics.{bump}
use ai_worker_bridge_mcp.Manager.Outcomes.{ended_with, on_outcome_settles}
use ai_worker_bridge_mcp.Manager.Cancelling.{IsCancelled, cancelled_by_caller, cancel-IsCancelled}
use ai_worker_bridge_mcp.Manager.Admission.{IsWithin, submit-IsWithin}
use ai_worker_bridge_mcp.Examples.Directories.{worker}

abbrev pub manager : TaskManager
manager = record {
  store = three_tasks;
  background = [];
  started = true;
  workers = record { workers = worker false ∷ []; active = λ id. 0 };
  recovery = record { policy = manual; delay_millis = 0 };
  limits = record {
    global_pending_tasks = 10;
    global_active_tasks = 10;
    per_worker_pending_tasks = 5;
    per_worker_active_tasks = some 2;
    sync_active_tasks = 4;
  };
  metrics = record { tasks_created = []; tasks_completed = [] };
  audit = [];
}

row_a : get "a" three_tasks ≡ some waiting
unfolding get
row_a = refl

row_b : get "b" three_tasks ≡ some busy
unfolding get
row_b = refl

on_outcome_settles_example :
    get "b" (on_outcome "t1" "b" (err (timeout_error [])) manager).store
    ≡ some (ended_with "t1" busy (err (timeout_error [])))
on_outcome_settles_example =
    on_outcome_settles "t1" "b" (err (timeout_error [])) busy manager three_tasks-IsValid row_b refl

cancel-IsCancelled_example :
    IsCancelled "b" (cancelled_by_caller "t1" busy) manager (cancel "t1" "b" manager)
cancel-IsCancelled_example = cancel-IsCancelled "t1" "b" busy manager three_tasks-IsValid row_b refl

abbrev request : CallRequest
request = record {
  worker_id = "w";
  prompt = codes "do it";
  mode = async;
  idempotency_key = some "fresh";
}

abbrev new_row : TaskRecord
new_row = record waiting {
  task_id = "d";
  idempotency_key = some "fresh";
  created_at = "t1";
  updated_at = "t1";
  working_directory = some (codes "/work/a");
  timeout_millis = 2000;
}

abbrev after_submit : TaskManager
after_submit = record manager {
  store = waiting ∷ busy ∷ ended ∷ new_row ∷ [];
  background = record { task_id = "d"; stage = created; cancelling = false } ∷ [];
  metrics = record { tasks_created = ("w", "async", 1) ∷ []; tasks_completed = [] };
  audit =
      record {
        event_type = "task_submission";
        outcome = "accepted";
        worker_id = some "w";
        task_id = some "d";
      }
      ∷ [];
}

submits :
    submit "d" "t1" (worker false) request (codes "/work/a") manager
    ≡ (ok (task_response new_row), after_submit)
unfolding submit bump
submits = refl

submit-IsWithin_example : IsWithin "w" after_submit
submit-IsWithin_example =
    submit-IsWithin "d" "t1" (worker false) request (codes "/work/a") manager submits

on_exception_of_pending_example : on_exception "t1" "a" missing_working_directory manager ≡ manager
on_exception_of_pending_example =
    on_exception_of_pending "t1" "a" missing_working_directory waiting manager row_a refl
