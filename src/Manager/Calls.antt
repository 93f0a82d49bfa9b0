-- ===== src/Manager/Calls.antt =====
-- manager.py: the methods that the server calls, `call`, `check`, `cancel`, `start` and `stop`.
use ai_worker_bridge_mcp.Base.{
  ℕ, String, Bool, true, false, ◌&&◌, not, Option, none, some, List, [], ◌∷◌, any, length, is_some,
  leb, if◌then◌else◌,
}
use ai_worker_bridge_mcp.Base.Text.{Text, codes}
use ai_worker_bridge_mcp.Base.Exec.{Result, ok, err}
use ai_worker_bridge_mcp.Json.{Json}
use ai_worker_bridge_mcp.Exceptions.{Exception, saturation_error, invalid_transition, message}
use ai_worker_bridge_mcp.Config.{
  Mode, sync, mode_eq, RecoveryPolicy, manual, idempotent, always, RecoveryConfig, WorkerConfig,
}
use ai_worker_bridge_mcp.TaskState.{
  pending, cancelled, recovering, state_eq, is_terminal, queued_states, active_states, TaskRecord,
  new_task,
}
use ai_worker_bridge_mcp.Store.{
  Table, get, create_or_get, Created, count_by_states, usable_key, mark_recovering,
}
use ai_worker_bridge_mcp.Permissions.{World, resolve_working_directory}
use ai_worker_bridge_mcp.Metrics.{inc_task_created}
use ai_worker_bridge_mcp.Registry.{get_worker}
use ai_worker_bridge_mcp.Manager.Background.{created, Runs, lookup_run, put_run, request_cancel}
use ai_worker_bridge_mcp.Manager.{TaskManager, Exec, emit, settle}

-- What a method answers. A task is answered by the fields of its record.
pub data Reply : Type 0 where
  mode_refused : Mode → String → Reply
  other_mode_refused : Text → String → Reply
  sync_result : String → Json → Reply
  task_response : TaskRecord → Reply
  not_found : String → Reply
  invalid : Text → String → Reply

pub record CallRequest : Type 0 where
  pub worker_id : String
  pub prompt : Text
  pub mode : Mode
  pub idempotency_key : Option String

unfoldable pub active_count : TaskManager → ℕ
active_count m = length m.background

unfoldable pub queued_count : TaskManager → ℕ
unfolding count_by_states
queued_count m = count_by_states queued_states none m.store

abbrev saturated : String → String → Result Exception (Unit {0})
saturated text scope = err (saturation_error (codes text) scope)

-- `per_worker_active is not None and … >= per_worker_active`
reaches : ℕ → Option ℕ → Bool
reaches n none = false
reaches n (some limit) = leb limit n

unfoldable pub enforce_async_limits : String → TaskManager → Result Exception (Unit {0})
unfolding queued_count active_count reaches count_by_states
enforce_async_limits worker_id m =
    if leb m.limits.global_pending_tasks (queued_count m)
    then saturated "global pending task queue is full" "global_pending"
    else if leb m.limits.per_worker_pending_tasks
        (count_by_states queued_states (some worker_id) m.store)
    then saturated "worker pending task queue is full" "worker_pending"
    else if leb m.limits.global_active_tasks (active_count m)
    then saturated "global active task limit reached" "global_active"
    else if reaches (count_by_states active_states (some worker_id) m.store)
        m.limits.per_worker_active_tasks
    then saturated "worker active task limit reached" "worker_active"
    else ok tt

unfoldable pub enforce_sync_limits : String → TaskManager → Result Exception (Unit {0})
unfolding reaches
enforce_sync_limits worker_id m =
    if reaches (m.workers.active worker_id) m.limits.per_worker_active_tasks
    then saturated "worker sync capacity reached" "worker_sync"
    else ok tt

-- `_schedule`: a coroutine that has not ended is not started again.
unfoldable pub schedule : String → TaskManager → TaskManager
unfolding lookup_run put_run
schedule task_id m = elim (lookup_run task_id m.background) [
  | some run ↦ m
  | none ↦ record m {
    background =
        put_run (record { task_id = task_id; stage = created; cancelling = false }) m.background;
  }
]

-- What `call` does with the outcome of `create_or_get`.
unfoldable pub submitted : String → Result Exception Created → Exec Reply
unfolding schedule emit inc_task_created
submitted worker_id (err e) m = (err e, m)
submitted worker_id (ok (rows, task, true)) m = (
  ok (task_response task),
  schedule task.task_id (
      emit "task_submission" "accepted" (some worker_id) (some task.task_id)
        (record m { store = rows; metrics = inc_task_created worker_id "async" m.metrics })),
)
submitted worker_id (ok (rows, task, false)) m = (
  ok (task_response task),
  emit "task_submission" "idempotent_replay" (some worker_id) (some task.task_id)
      (record m { store = rows }),
)

-- The task is stored if the limits were not reached.
unfoldable pub submit_task : Result Exception (Unit {0}) → TaskRecord → String → Exec Reply
unfolding create_or_get submitted
submit_task (err e) task worker_id m = (err e, m)
submit_task (ok passed) task worker_id m = submitted worker_id (create_or_get task m.store) m

-- The asynchronous branch of `call`, after the mode is accepted.
unfoldable pub submit : String → String → WorkerConfig → CallRequest → Text → Exec Reply
unfolding enforce_async_limits new_task submit_task
submit hex now worker req directory m =
    submit_task (enforce_async_limits req.worker_id m)
      (new_task hex now req.worker_id req.prompt req.idempotency_key
        worker.timeout_limits.async_millis (some directory))
      req.worker_id m

unfoldable pub answered : String → Result Exception Json → Exec Reply
unfolding emit inc_task_created
answered worker_id (err e) m = (err e, m)
answered worker_id (ok result) m = (
  ok (sync_result worker_id result),
  emit "task_submission" "accepted" (some worker_id) none
      (record m { metrics = inc_task_created worker_id "sync" m.metrics }),
)

unfoldable pub call_worker :
    Result Exception (Unit {0}) → Result Exception Json → String → Exec Reply
unfolding answered
call_worker (err e) outcome worker_id m = (err e, m)
call_worker (ok passed) outcome worker_id m = answered worker_id outcome m

-- The synchronous branch of `call`; `outcome` is what the worker's call returns or raises.
unfoldable pub call_sync : Result Exception Json → String → Exec Reply
unfolding enforce_sync_limits call_worker
call_sync outcome worker_id m = call_worker (enforce_sync_limits worker_id m) outcome worker_id m

unfoldable pub accepted :
    String
    → String
    → Result Exception Json
    → WorkerConfig
    → CallRequest
    → Result Exception Text
    → Exec Reply
unfolding submit call_sync
accepted hex now outcome worker req (err e) m = (err e, m)
accepted hex now outcome worker req (ok directory) m =
    if not (any (λ mode. mode_eq mode req.mode) worker.allowed_modes)
    then (ok (mode_refused req.mode req.worker_id), m)
    else if mode_eq req.mode sync
    then call_sync outcome req.worker_id m
    else submit hex now worker req directory m

unfoldable pub call_known :
    World
    → String
    → String
    → Result Exception Json
    → CallRequest
    → Result Exception WorkerConfig
    → Exec Reply
unfolding accepted
call_known world hex now outcome req (err e) m = (err e, m)
call_known world hex now outcome req (ok worker) m =
    accepted hex now outcome worker req (resolve_working_directory world worker req.prompt) m

-- `call`: the task id `hex`, the time and the outcome of a synchronous call are given.
unfoldable pub call : World → String → String → Result Exception Json → CallRequest → Exec Reply
unfolding get_worker call_known
call world hex now outcome req m =
    call_known world hex now outcome req (get_worker m.workers req.worker_id) m

unfoldable pub refused_mode : Text → String → Result Exception Text → Exec Reply
refused_mode mode worker_id (err e) m = (err e, m)
refused_mode mode worker_id (ok directory) m = (ok (other_mode_refused mode worker_id), m)

unfoldable pub known_other_mode :
    World → Text → Text → String → Result Exception WorkerConfig → Exec Reply
unfolding refused_mode
known_other_mode world mode prompt worker_id (err e) m = (err e, m)
known_other_mode world mode prompt worker_id (ok worker) m =
    refused_mode mode worker_id (resolve_working_directory world worker prompt) m

-- `call` with a mode that is neither "sync" nor "async", which no worker allows.
unfoldable pub call_other_mode : World → Text → Text → String → Exec Reply
unfolding get_worker known_other_mode
call_other_mode world mode prompt worker_id m =
    known_other_mode world mode prompt worker_id (get_worker m.workers worker_id) m

unfoldable pub check : String → TaskManager → Reply
unfolding get
check task_id m = elim (get task_id m.store) [
  | none ↦ not_found task_id
  | some task ↦ task_response task
]

-- The last lines of `cancel`; `InvalidTransition` is answered, any other exception is raised.
unfoldable pub cancel_reply :
    String → Result Exception TaskRecord × TaskManager → Result Exception Reply × TaskManager
unfolding emit message
cancel_reply task_id (ok t, m) =
    (ok (task_response t), emit "task_cancel" "cancelled" (some t.worker_id) (some task_id) m)
cancel_reply task_id (err (invalid_transition source target), m) =
    (ok (invalid (message (invalid_transition source target)) task_id), m)
cancel_reply task_id (err e, m) = (err e, m)

unfoldable pub cancel_row : String → String → Option TaskRecord → Exec Reply
unfolding cancel_reply emit settle request_cancel
cancel_row now task_id none m =
    (ok (not_found task_id), emit "task_cancel" "not_found" none (some task_id) m)
cancel_row now task_id (some task) m =
    if is_terminal task.state
    then (ok (task_response task), m)
    else cancel_reply task_id (
        settle now cancelled (some (codes "cancelled by caller")) none task
          (record m { background = request_cancel task_id m.background }))

unfoldable pub cancel : String → String → Exec Reply
unfolding get cancel_row
cancel now task_id m = cancel_row now task_id (get task_id m.store) m

unfoldable pub replay_by_policy : RecoveryPolicy → TaskRecord → Bool
unfolding usable_key
replay_by_policy always task = true
replay_by_policy idempotent task = is_some (usable_key task.idempotency_key)
replay_by_policy manual task = state_eq task.state pending

unfoldable pub recovery_allows_replay : RecoveryConfig → TaskRecord → Bool
unfolding replay_by_policy
recovery_allows_replay r task = replay_by_policy r.policy task

-- The loop of `start` over what `mark_recovering` lists.
unfoldable pub schedule_each : List TaskRecord → TaskManager → TaskManager
unfolding schedule emit recovery_allows_replay
schedule_each [] m = m
schedule_each (t ∷ ts) m = schedule_each ts (
    if is_terminal t.state
    then m
    else if state_eq t.state recovering && not (recovery_allows_replay m.recovery t)
    then emit "task_recovery_deferred" "manual_required" (some t.worker_id) (some t.task_id) m
    else schedule t.task_id m)

-- `start` after `mark_recovering`, whose table and list are given.
unfoldable pub started_with : Result Exception (Table × List TaskRecord) → Exec (Unit {0})
unfolding schedule_each
started_with (err e) m = (err e, record m { started = true })
started_with (ok (rows, tasks)) m =
    (ok tt, schedule_each tasks (record m { started = true; store = rows }))

unfoldable pub start : (ℕ → String) → Exec (Unit {0})
unfolding mark_recovering started_with
start now m = if m.started then (ok tt, m) else started_with (mark_recovering now m.store) m

-- `stop` cancels every coroutine and waits for them; then it forgets them.
unfoldable pub stop_all : Runs → Runs
stop_all [] = []
stop_all (r ∷ rs) = record r { cancelling = true } ∷ stop_all rs

unfoldable pub stop_begin : TaskManager → TaskManager
unfolding stop_all
stop_begin m = record m { background = stop_all m.background }

unfoldable pub stop_end : TaskManager → TaskManager
stop_end m = record m { background = []; started = false }
