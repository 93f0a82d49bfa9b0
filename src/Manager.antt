-- ===== src/Manager.antt =====
-- manager.py: the task manager. A method that runs to its end without waiting is one function of the
-- state. `_run_task` waits twice, in `asyncio.sleep` and in the worker's call, and is three functions,
-- from one wait to the next.
pub mod Background
pub mod Execution
pub mod Calls
pub mod Touches
pub mod Handlers
pub mod Preparing
pub mod Outcomes
pub mod Cancelling
pub mod Admission
pub mod Refused
pub mod Recovery
pub mod Steps
use ai_worker_bridge_mcp.Base.{
  ℕ, zero, suc, ◌+◌, String, Bool, true, false, ◌&&◌, ◌||◌, not, Option, none, some, List, [], ◌∷◌,
  ◌++◌, any, is_some, is_nil, leb, ltb, ◌==◌, if◌then◌else◌,
}
use ai_worker_bridge_mcp.Base.Text.{Text, codes, contains, lower, or_text}
use ai_worker_bridge_mcp.Base.Exec.{Result, ok, err}
use ai_worker_bridge_mcp.Json.{Json}
use ai_worker_bridge_mcp.Exceptions.{
  Exception, saturation_error, timeout_error, other_error, message, class_name,
}
use ai_worker_bridge_mcp.Config.{
  Mode, sync, async, mode_eq, RecoveryPolicy, manual, idempotent, always, RecoveryConfig,
  LimitsConfig, WorkerConfig,
}
use ai_worker_bridge_mcp.TaskState.{
  TaskState, pending, running, completed, failed, cancelled, timed_out, recovering, state_eq, value,
  is_terminal, queued_states, active_states, TaskRecord, transition, next_attempt, new_task,
}
use ai_worker_bridge_mcp.Store.{
  Table, get, upsert, create_or_get, Created, count_by_states, usable_key, mark_recovering,
}
use ai_worker_bridge_mcp.Permissions.{World, resolve_working_directory}
use ai_worker_bridge_mcp.Metrics.{Metrics, inc_task_created, inc_task_completed}
use ai_worker_bridge_mcp.Registry.{Registry, get_worker}
use Background.{
  Stage, created, sleeping, calling, Run, Runs, lookup_run, put_run, drop_run, request_cancel,
}
use text.Mathlib.Text.{◌==◌ as str_eq}

-- An event of the audit log: its type, its outcome, and the worker and the task that it names.
pub record Event : Type 0 where
  pub event_type : String
  pub outcome : String
  pub worker_id : Option String
  pub task_id : Option String

pub record TaskManager : Type 0 where
  pub store : Table
  pub background : Runs
  pub started : Bool
  pub workers : Registry
  pub recovery : RecoveryConfig
  pub limits : LimitsConfig
  pub metrics : Metrics
  pub audit : List Event

-- A method's result, or what it raises, and the state that it leaves.
abbrev pub Exec : Type 0 → Type 0
Exec A = TaskManager → Result Exception A × TaskManager

-- The next statement, unless the last one raised.
abbrev pub continue :
    {A B : Type 0}
    → Result Exception A × TaskManager
    → (A → Exec B)
    → Result Exception B × TaskManager
continue (ok a, m) f = f a m
continue (err e, m) f = (err e, m)

unfoldable pub emit : String → String → Option String → Option String → TaskManager → TaskManager
emit event outcome worker_id task_id m = record m {
  audit =
      m.audit
      ++ record { event_type = event; outcome = outcome; worker_id = worker_id; task_id = task_id }
        ∷ [];
}

-- `self.store.upsert(task)`
unfoldable pub save : TaskRecord → Exec TaskRecord
save task m = elim (upsert task m.store) [
  | ok rows ↦ (ok task, record m { store = rows })
  | err e ↦ (err e, m)
]

-- `self.store.get(task_id)`, if there is such a task and its state is not terminal.
live_row : Option TaskRecord → Option TaskRecord
live_row none = none
live_row (some t) = if is_terminal t.state then none else some t

unfoldable pub live : String → Table → Option TaskRecord
unfolding live_row
live task_id rows = live_row (get task_id rows)

unfoldable pub count_completed : TaskRecord → TaskManager → TaskManager
count_completed task m = record m {
  metrics = inc_task_completed task.worker_id (value task.state) m.metrics;
}

unfoldable pub saved_as : Result Exception TaskRecord → Exec TaskRecord
unfolding save count_completed
saved_as (err e) m = (err e, m)
saved_as (ok task) m = continue (save task m) (λ t n. (ok t, count_completed t n))

-- `latest.transition(target, …)`, the upsert of the clone, and its count.
unfoldable pub settle :
    String → TaskState → Option Text → Option Json → TaskRecord → Exec TaskRecord
unfolding saved_as
settle now target error result latest m = saved_as (transition now latest target error result) m

unfoldable pub cancelled_row : String → Option TaskRecord → TaskManager → TaskManager
unfolding settle
cancelled_row now none m = m
cancelled_row now (some latest) m =
    (settle now cancelled (some (codes "background task cancelled")) none latest m).1

-- The handler of CancelledError, `except InvalidTransition: pass` included.
unfoldable pub on_cancelled : String → String → TaskManager → TaskManager
unfolding live cancelled_row
on_cancelled now task_id m = cancelled_row now (live task_id m.store) m

-- The audit event of `_fail_terminal`, if the failure was stored.
unfoldable pub failure_logged : TaskState → Result Exception TaskRecord × TaskManager → TaskManager
unfolding emit
failure_logged state (ok t, m) =
    emit "worker_failure" (value state) (some t.worker_id) (some t.task_id) m
failure_logged state (err e, m) = m

unfoldable pub failed_row :
    String → TaskState → Text → Option TaskRecord → TaskManager → TaskManager
unfolding settle failure_logged
failed_row now state error none m = m
failed_row now state error (some latest) m =
    failure_logged state (settle now state (some error) none latest m)

unfoldable pub fail_terminal : String → String → TaskState → Text → TaskManager → TaskManager
unfolding live failed_row
fail_terminal now task_id state error m = failed_row now state error (live task_id m.store) m

unfoldable pub failure_target : Text → TaskState
unfolding contains lower
failure_target text = if contains (lower text) (codes "timeout") then timed_out else failed

-- The state and the message that a failed run is settled with.
unfoldable pub failure_of : Exception → TaskState × Text
unfolding failure_target message class_name
failure_of (timeout_error text) = (timed_out, or_text text (codes "worker timed out"))
failure_of e = let text = or_text (message e) (class_name e) in (failure_target text, text)

-- `except TimeoutError` and `except Exception`.
unfoldable pub on_exception : String → String → Exception → TaskManager → TaskManager
unfolding fail_terminal failure_of
on_exception now task_id e m = fail_terminal now task_id (failure_of e).0 (failure_of e).1 m

unfoldable pub completed_or_raised :
    String → String → Result Exception TaskRecord × TaskManager → TaskManager
unfolding on_exception
completed_or_raised now task_id (ok t, m) = m
completed_or_raised now task_id (err e, m) = on_exception now task_id e m

unfoldable pub completed_row :
    String → String → Json → Option TaskRecord → TaskManager → TaskManager
unfolding settle completed_or_raised
completed_row now task_id result none m = m
completed_row now task_id result (some latest) m =
    completed_or_raised now task_id (settle now completed none (some result) latest m)

-- What follows the worker's call: its result is stored, or its exception is handled.
unfoldable pub on_outcome : String → String → Result Exception Json → TaskManager → TaskManager
unfolding live completed_row on_exception
on_outcome now task_id (err e) m = on_exception now task_id e m
on_outcome now task_id (ok result) m = completed_row now task_id result (live task_id m.store) m
