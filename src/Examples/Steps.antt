-- ===== src/Examples/Steps.antt =====
-- The theorems of Manager/Steps on a manager with one worker and three tasks.
use ai_worker_bridge_mcp.Base.{◌≡◌, refl, false, some, [], ◌∷◌}
use ai_worker_bridge_mcp.Base.Text.{codes}
use ai_worker_bridge_mcp.Base.Exec.{ok}
use ai_worker_bridge_mcp.Json.{null}
use ai_worker_bridge_mcp.TaskState.{TaskRecord}
use ai_worker_bridge_mcp.Store.{get, clash}
use ai_worker_bridge_mcp.Store.Unique.{IsValid}
use ai_worker_bridge_mcp.Manager.{TaskManager}
use ai_worker_bridge_mcp.Manager.Background.{Run, created, lookup_run}
use ai_worker_bridge_mcp.Manager.Calls.{cancel, start}
use ai_worker_bridge_mcp.Manager.Touches.{Keeps, phase}
use ai_worker_bridge_mcp.Manager.Outcomes.{ended_with}
use ai_worker_bridge_mcp.Manager.Steps.{cancels, Reach, here, next, Waits, IsCoherent}
use ai_worker_bridge_mcp.Manager.Steps.Safety.{Reach-Keeps, Reach-Lives, idle-IsCoherent}
use ai_worker_bridge_mcp.Manager.Steps.Due.{if_due, start-Schedules}
use ai_worker_bridge_mcp.TaskState.Lifecycle.{Lives}
use ai_worker_bridge_mcp.Config.{always}
use ai_worker_bridge_mcp.Manager.Steps.Progress.{Ends, dispatched_row, scheduled-Ends}
use ai_worker_bridge_mcp.Examples.Data.{waiting, busy, ended, three_tasks}
use ai_worker_bridge_mcp.Examples.Stored.{three_tasks-IsValid}
use ai_worker_bridge_mcp.Examples.Directories.{world}
use ai_worker_bridge_mcp.Examples.Managed.{manager}

manager-IsCoherent : IsCoherent manager
manager-IsCoherent = idle-IsCoherent manager three_tasks-IsValid refl

-- Two cancels, one of a task that has ended.
abbrev after_cancels : TaskManager
after_cancels = (cancel "t2" "c" (cancel "t1" "b" manager).1).1

cancelled_twice : Reach world manager after_cancels
cancelled_twice = next (next here (cancels "t1" "b" refl)) (cancels "t2" "c" refl)

Reach-Keeps_example : Keeps three_tasks after_cancels.store
Reach-Keeps_example = Reach-Keeps world manager-IsCoherent cancelled_twice

abbrev ready : TaskRecord
ready = record waiting { working_directory = some (codes "/work/a") }

abbrev scheduled : Run
scheduled = record { task_id = "a"; stage = created; cancelling = false }

abbrev with_run : TaskManager
with_run = record manager { store = ready ∷ busy ∷ ended ∷ []; background = scheduled ∷ [] }

ready-IsValid : IsValid with_run.store
unfolding clash
ready-IsValid = (refl, (refl, (refl, tt)))

row_ready : get "a" with_run.store ≡ some ready
unfolding get
row_ready = refl

scheduled-Waits : Waits "a" created with_run
unfolding lookup_run
scheduled-Waits = record { run = scheduled; found = refl; at = refl; going = refl }

scheduled-Ends_example :
    Ends world "a" (ended_with "t9" (dispatched_row (λ i. "t1") "h" ready) (ok null)) with_run
scheduled-Ends_example =
    scheduled-Ends world (λ i. "t1") "h" "t9" "a" (ok null) ready (codes "/work/a") with_run
      ready-IsValid row_ready refl refl scheduled-Waits

Reach-Lives_example : Lives (phase "b" three_tasks) (phase "b" after_cancels.store)
Reach-Lives_example = Reach-Lives world manager-IsCoherent cancelled_twice "b"

abbrev stopped_manager : TaskManager
stopped_manager = record manager {
  started = false;
  recovery = record { policy = always; delay_millis = 0 };
}

start-Schedules_example :
    lookup_run "b" (start (λ i. "t1") stopped_manager).1.background
    ≡ if_due stopped_manager.recovery "b" (get "b" (start (λ i. "t1") stopped_manager).1.store)
start-Schedules_example =
    start-Schedules (λ i. "t1") stopped_manager "b" refl refl three_tasks-IsValid
