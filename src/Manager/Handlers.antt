-- ===== src/Manager/Handlers.antt =====
-- manager.py: the handlers of `_run_task`, for a result, a failure and a cancellation, each touch the
-- row of their own task only, and only while it is open.
use ai_worker_bridge_mcp.Base.{String, ◌≡◌, ◌∙◌, refl, sym, subst, false, Option, none, some, arith}
use mathlib.Core.Option.{some-injective}
use ai_worker_bridge_mcp.Base.Text.{Text, codes}
use ai_worker_bridge_mcp.Base.Exec.{Result, ok, err}
use ai_worker_bridge_mcp.Exceptions.{Exception}
use ai_worker_bridge_mcp.Json.{Json}
use ai_worker_bridge_mcp.TaskState.{TaskState, cancelled, completed, is_terminal, TaskRecord}
use ai_worker_bridge_mcp.Store.{Table, get}
use ai_worker_bridge_mcp.Store.Selection.{task_id-get}
use ai_worker_bridge_mcp.Manager.{
  TaskManager, live, settle, on_cancelled, cancelled_row, failed_row, failure_of, fail_terminal,
  failure_logged, on_exception, completed_or_raised, completed_row, on_outcome,
}
use ai_worker_bridge_mcp.Manager.Touches.{
  Touches, SameTasks, Touches-SameTasks, Touches-refl, Touches-trans, IsOpen, settle-Touches,
  phase_of_row,
}

-- What `live` finds is the task's row, and it is open.
pub data IsLive (id : String) (rows : Table) : Option TaskRecord → Type 0 where
  nothing : IsLive id rows none
  row :
      (t : TaskRecord)
      → get id rows ≡ some t
      → t.task_id ≡ id
      → IsOpen id rows
      → IsLive id rows (some t)

live_row_of :
    (id : String) (rows : Table) {t : TaskRecord}
    → live id rows ≡ some t
    → (get id rows ≡ some t) × (is_terminal t.state ≡ false)
unfolding live
live_row_of id rows e = ground arith

pub live-IsLive : (id : String) (rows : Table) → IsLive id rows (live id rows)
live-IsLive id rows = split_on (live id rows) refl
  where
    split_on : (o : Option TaskRecord) → live id rows ≡ o → IsLive id rows o
    split_on none e = nothing
    split_on (some t) e =
        let (found, unfinished) = live_row_of id rows e in
        row t found (task_id-get id rows found) λ u h.
          let same : t ≡ u = some-injective t u (sym found ∙ h) in
          subst (λ (o : TaskRecord). is_terminal o.state ≡ false) same unfinished

cancelled_row-Touches :
    (now id : String) (m : TaskManager) {o : Option TaskRecord}
    → IsLive id m.store o
    → Touches id m (cancelled_row now o m)
unfolding cancelled_row
cancelled_row-Touches now id m nothing = Touches-refl id m
cancelled_row-Touches now id m (row t found own unfinished) =
    settle-Touches now cancelled (some (codes "background task cancelled")) none t id m own
      (phase_of_row found) unfinished

-- The handler of CancelledError keeps the keys unique, and changes no row of another task and no row
-- in a terminal state.
pub on_cancelled-Touches :
    (now id : String) (m : TaskManager) → Touches id m (on_cancelled now id m)
unfolding on_cancelled
on_cancelled-Touches now id m = cancelled_row-Touches now id m (live-IsLive id m.store)

failure_logged_same :
    (state : TaskState) (out : Result Exception TaskRecord × TaskManager)
    → SameTasks out.1 (failure_logged state out)
unfolding failure_logged
failure_logged_same state (ok t, m) = record { store = refl; background = refl; started = refl }
failure_logged_same state (err e, m) = record { store = refl; background = refl; started = refl }

failed_row-Touches :
    (now id : String) (state : TaskState) (error : Text) (m : TaskManager) {o : Option TaskRecord}
    → IsLive id m.store o
    → Touches id m (failed_row now state error o m)
failed_row-Touches now id state error m nothing = unfold failed_row in Touches-refl id m
failed_row-Touches now id state error m (row t found own unfinished) =
    unfold failed_row in
    Touches-SameTasks
      (settle-Touches now state (some error) none t id m own (phase_of_row found) unfinished)
      (failure_logged_same state (settle now state (some error) none t m))

pub on_exception-Touches :
    (now id : String) (e : Exception) (m : TaskManager) → Touches id m (on_exception now id e m)
on_exception-Touches now id e m =
    unfold on_exception fail_terminal in
    failed_row-Touches now id (failure_of e).0 (failure_of e).1 m (live-IsLive id m.store)

completed_or_raised-Touches :
    (now id : String) (a : TaskManager) (out : Result Exception TaskRecord × TaskManager)
    → Touches id a out.1
    → Touches id a (completed_or_raised now id out)
completed_or_raised-Touches now id a (ok t, m) h = unfold completed_or_raised in h
completed_or_raised-Touches now id a (err e, m) h =
    unfold completed_or_raised in Touches-trans h (on_exception-Touches now id e m)

completed_row-Touches :
    (now id : String) (result : Json) (m : TaskManager) {o : Option TaskRecord}
    → IsLive id m.store o
    → Touches id m (completed_row now id result o m)
completed_row-Touches now id result m nothing = unfold completed_row in Touches-refl id m
completed_row-Touches now id result m (row t found own unfinished) =
    unfold completed_row in
    completed_or_raised-Touches now id m (settle now completed none (some result) t m)
      (settle-Touches now completed none (some result) t id m own (phase_of_row found) unfinished)

-- The end of the worker's call, whatever its outcome, keeps the keys unique, and changes no row of
-- another task and no row in a terminal state.
pub on_outcome-Touches :
    (now id : String) (outcome : Result Exception Json) (m : TaskManager)
    → Touches id m (on_outcome now id outcome m)
on_outcome-Touches now id (err e) m = unfold on_outcome in on_exception-Touches now id e m
on_outcome-Touches now id (ok result) m =
    unfold on_outcome in completed_row-Touches now id result m (live-IsLive id m.store)
