-- ===== src/Manager/Execution.antt =====
-- manager.py, `_run_task`: its three parts, from one wait to the next, and where it can be cancelled.
use ai_worker_bridge_mcp.Base.{
  ℕ, String, Bool, false, ◌&&◌, not, Option, none, some, ◌==◌, if◌then◌else◌,
}
use ai_worker_bridge_mcp.Base.Text.{Text}
use ai_worker_bridge_mcp.Base.Exec.{Result, ok, err}
use ai_worker_bridge_mcp.Json.{Json}
use ai_worker_bridge_mcp.Exceptions.{Exception}
use ai_worker_bridge_mcp.Config.{WorkerConfig}
use ai_worker_bridge_mcp.TaskState.{
  pending, running, recovering, state_eq, TaskRecord, transition, next_attempt,
}
use ai_worker_bridge_mcp.Permissions.{World, resolve_working_directory}
use ai_worker_bridge_mcp.Registry.{get_worker}
use ai_worker_bridge_mcp.Manager.Background.{Stage, created, sleeping, calling, put_run, drop_run}
use ai_worker_bridge_mcp.Manager.{
  TaskManager, Exec, continue, save, live, on_cancelled, on_exception, on_outcome,
}

-- `if task.state == RECOVERING: task = task.transition(PENDING)`
unfoldable pub requeued : String → TaskRecord → Result Exception TaskRecord
unfolding transition
requeued now task =
    if state_eq task.state recovering then transition now task pending none none else ok task

unfoldable pub saved_attempt : Result Exception TaskRecord → Exec TaskRecord
unfolding save
saved_attempt (err e) m = (err e, m)
saved_attempt (ok task) m = save task m

-- `if task.state == PENDING: …`: the next attempt is counted and stored as running.
unfoldable pub dispatched_attempt : (ℕ → String) → String → TaskRecord → Exec TaskRecord
unfolding next_attempt transition saved_attempt
dispatched_attempt now hex task m =
    if state_eq task.state pending
    then saved_attempt (transition (now 2) (next_attempt (now 1) hex task) running none none) m
    else (ok task, m)

unfoldable pub start_attempt : (ℕ → String) → String → Result Exception TaskRecord → Exec TaskRecord
unfolding dispatched_attempt
start_attempt now hex (err e) m = (err e, m)
start_attempt now hex (ok task) m = dispatched_attempt now hex task m

module _ (world : World) where
  unfoldable pub directory_saved : TaskRecord → Result Exception Text → Exec TaskRecord
  unfolding save
  directory_saved task (err e) m = (err e, m)
  directory_saved task (ok path) m = save (record task { working_directory = some path }) m

  -- `resolve_working_directory(self.workers.get(task.worker_id), task.prompt)`
  worker_directory : TaskRecord → Result Exception WorkerConfig → Result Exception Text
  unfolding resolve_working_directory
  worker_directory task (err e) = err e
  worker_directory task (ok worker) = resolve_working_directory world worker task.prompt

  unfoldable pub directory_or_saved : Option Text → TaskRecord → Exec TaskRecord
  unfolding directory_saved worker_directory get_worker
  directory_or_saved (some path) task m = (ok task, m)
  directory_or_saved none task m =
      directory_saved task (worker_directory task (get_worker m.workers task.worker_id)) m

  -- A task whose row has no working directory gets one from its worker's configuration.
  unfoldable pub ensure_directory : TaskRecord → Exec TaskRecord
  unfolding directory_or_saved
  ensure_directory task m = directory_or_saved task.working_directory task m

  -- From the end of the sleep to the worker's call.
  unfoldable pub prepare : (ℕ → String) → String → TaskRecord → Exec TaskRecord
  unfolding ensure_directory requeued start_attempt
  prepare now hex task m =
      continue (ensure_directory task m) (λ t. start_attempt now hex (requeued (now 0) t))

unfoldable pub finish_run : String → TaskManager → TaskManager
unfolding drop_run
finish_run task_id m = record m { background = drop_run task_id m.background }

unfoldable pub move_run : String → Stage → TaskManager → TaskManager
unfolding put_run
move_run task_id stage m = record m {
  background =
      put_run (record { task_id = task_id; stage = stage; cancelling = false }) m.background;
}

-- The worker is called, or the exception that came before the call is handled and the run ends.
unfoldable pub called :
    String → String → Bool → Result Exception TaskRecord × TaskManager → TaskManager
unfolding move_run finish_run on_exception
called now task_id recovery_attempt (ok task, m) =
    move_run task_id (calling task recovery_attempt) m
called now task_id recovery_attempt (err e, m) = finish_run task_id (on_exception now task_id e m)

module _ (world : World) where
  -- `_run_task` after the sleep, up to the worker's call.
  unfoldable pub wake : (ℕ → String) → String → String → TaskRecord → TaskManager → TaskManager
  unfolding prepare called
  wake now hex task_id task m =
      called (now 3) task_id (state_eq task.state recovering) (prepare world now hex task m)

  unfoldable pub begin_row :
      (ℕ → String) → String → String → Option TaskRecord → TaskManager → TaskManager
  unfolding finish_run move_run wake
  begin_row now hex task_id none m = finish_run task_id m
  begin_row now hex task_id (some task) m =
      if not (m.recovery.delay_millis == 0) && state_eq task.state recovering
      then move_run task_id (sleeping task) m
      else wake now hex task_id task m

  -- `_run_task` from its first step: it ends, sleeps, or goes on to the worker's call.
  unfoldable pub begin : (ℕ → String) → String → String → TaskManager → TaskManager
  unfolding live begin_row
  begin now hex task_id m = begin_row now hex task_id (live task_id m.store) m

-- `_run_task` after the worker's call, to its end.
unfoldable pub finish : String → String → Result Exception Json → TaskManager → TaskManager
unfolding finish_run on_outcome
finish now task_id outcome m = finish_run task_id (on_outcome now task_id outcome m)

-- CancelledError where `_run_task` waits; a coroutine that has not begun ends with no handler.
unfoldable pub interrupt : String → String → Stage → TaskManager → TaskManager
unfolding finish_run on_cancelled
interrupt now task_id created m = finish_run task_id m
interrupt now task_id stage m = finish_run task_id (on_cancelled now task_id m)
