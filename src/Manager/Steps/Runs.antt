-- ===== src/Manager/Steps/Runs.antt =====
-- manager.py: what a step of one coroutine does, from where it waits to its next wait or its end.
use ai_worker_bridge_mcp.Base.{
  ℕ, String, ◌≡◌, ◌∙◌, refl, sym, ap, subst, Bool, true, false, not, ◌&&◌, ◌==◌, Option, none, some,
  [], ◌⊎◌, inl, inr, Bool-cases, eq_iff, arith,
}
use ai_worker_bridge_mcp.Base.Exec.{Result, ok, err}
use ai_worker_bridge_mcp.Exceptions.{Exception}
use ai_worker_bridge_mcp.Json.{Json}
use ai_worker_bridge_mcp.Permissions.{World}
use ai_worker_bridge_mcp.TaskState.{TaskRecord, state_eq, recovering}
use ai_worker_bridge_mcp.Manager.{TaskManager}
use ai_worker_bridge_mcp.Manager.Background.{
  Stage, created, sleeping, calling, Run, Runs, lookup_run, drop_run, lookup-drop, lookup-put,
}
use ai_worker_bridge_mcp.Manager.Execution.{
  prepare, begin, begin_row, wake, called, finish, interrupt, finish_run, move_run,
}
use ai_worker_bridge_mcp.Manager.Touches.{
  Touches, Touches-refl, Touches-trans, Rewrites, phase_of_row,
}
use ai_worker_bridge_mcp.Manager.Handlers.{
  IsLive, nothing, row, live-IsLive, on_outcome-Touches, on_cancelled-Touches, on_exception-Touches,
}
use ai_worker_bridge_mcp.Manager.Preparing.{prepare-Touches}
use ai_worker_bridge_mcp.Manager.Steps.{Waits, IsCurrent, Effect}

pub Touches-Rewrites :
    {id : String} {m n : TaskManager} → Touches id m n → Rewrites id m.store n.store
Touches-Rewrites f = record { valid = f.valid; keeps = f.keeps; others = f.others; lives = f.lives }

not_started_without :
    (id : String) (rs : Runs) {run : Run} → lookup_run id rs ≡ some run → rs ≡ [] → ⊥
unfolding lookup_run
not_started_without id rs e h = ground arith

pub lookup-finish_run :
    (id : String) (n : TaskManager) → lookup_run id (finish_run id n).background ≡ none
unfolding finish_run
lookup-finish_run id n = ground (arith, lookup-drop id id n.background, eq_iff id id)

pub lookup-move_run :
    (id : String) (stage : Stage) (n : TaskManager)
    → lookup_run id (move_run id stage n).background
      ≡ some (record { task_id = id; stage = stage; cancelling = false })
unfolding move_run
lookup-move_run id stage n = ground (
  arith,
  lookup-put (record { task_id = id; stage = stage; cancelling = false }) id n.background,
  eq_iff id id,
)

-- A coroutine that ends after work on its task.
pub finish_run-Effect :
    (id : String) {m n : TaskManager} → Touches id m n → Effect id m (finish_run id n)
finish_run-Effect id {m} {n} f = record {
  rows = unfold finish_run in Touches-Rewrites f;
  runs = λ j h.
      unfold finish_run in lookup-drop id j n.background ∙ (rw h (ap (lookup_run j) f.background));
  own = λ task w. absurd (gone w);
  idle = λ old h.
      unfold finish_run in
      ap (drop_run id) (f.background ∙ old (sym f.started ∙ (unfold finish_run in h)))
      ∙ unfold drop_run in refl;
}
  where
    gone : {task : TaskRecord} → Waits id (sleeping task) (finish_run id n) → ⊥
    gone w = ground (arith, lookup-finish_run id n, w.found)

-- A coroutine that goes on to another wait after work on its task.
pub move_run-Effect :
    (id : String) (stage : Stage) {m n : TaskManager} {run : Run}
    → lookup_run id m.background ≡ some run
    → Touches id m n
    → ((task : TaskRecord) → stage ≡ sleeping task → IsCurrent id task n.store)
    → Effect id m (move_run id stage n)
move_run-Effect id stage {m} {n} {run} there f current = record {
  rows = unfold move_run in Touches-Rewrites f;
  runs = λ j h.
      unfold move_run in
      lookup-put (record { task_id = id; stage = stage; cancelling = false }) j n.background
      ∙ (rw h (ap (lookup_run j) f.background));
  own = λ task w. unfold move_run in current task (staged w);
  idle = λ old h.
      absurd
        (not_started_without id m.background there (old (sym f.started ∙ (unfold move_run in h))));
}
  where
    staged :
        {task : TaskRecord} → Waits id (sleeping task) (move_run id stage n) → stage ≡ sleeping task
    staged w = ground (arith, lookup-move_run id stage n, w.found, w.at)

called-Effect :
    (now id : String) (recovery : Bool) {m : TaskManager} {run : Run}
    (out : Result Exception TaskRecord × TaskManager)
    → lookup_run id m.background ≡ some run
    → Touches id m out.1
    → Effect id m (called now id recovery out)
called-Effect now id recovery (ok task, n) there f =
    unfold called in
    move_run-Effect id (calling task recovery) there f (λ t e. absurd (calling≢sleeping e))
  where
    calling≢sleeping : {t u : TaskRecord} {b : Bool} → calling u b ≡ sleeping t → ⊥
    calling≢sleeping e = cc
called-Effect now id recovery (err x, n) there f =
    unfold called in finish_run-Effect id (Touches-trans f (on_exception-Touches now id x n))

pub wake-Effect :
    (world : World) (now : ℕ → String) (hex id : String) (task : TaskRecord) {m : TaskManager}
    {run : Run}
    → lookup_run id m.background ≡ some run
    → IsCurrent id task m.store
    → Effect id m (wake world now hex id task m)
wake-Effect world now hex id task {m} there c =
    unfold wake in
    called-Effect (now 3) id (state_eq task.state recovering) (prepare world now hex task m) there
      (prepare-Touches world now hex task id m c.own c.unfinished c.row c.at)

begin_row-Effect :
    (world : World) (now : ℕ → String) (hex id : String) {m : TaskManager} {run : Run}
    {o : Option TaskRecord}
    → lookup_run id m.background ≡ some run
    → IsLive id m.store o
    → Effect id m (begin_row world now hex id o m)
begin_row-Effect world now hex id {m} there nothing =
    unfold begin_row in finish_run-Effect id (Touches-refl id m)
begin_row-Effect world now hex id {m} there (row t found own unfinished) = begun (Bool-cases slept)
  where
    slept : Bool
    slept = not (m.recovery.delay_millis == 0) && state_eq t.state recovering

    current : IsCurrent id t m.store
    current = record {
      own = own;
      unfinished = unfinished t found;
      row = unfinished;
      at = phase_of_row found;
    }

    begun : (slept ≡ true) ⊎ (slept ≡ false) → Effect id m (begin_row world now hex id (some t) m)
    begun (inl e) =
        unfold begin_row in
        rw e (
          move_run-Effect id (sleeping t) there (Touches-refl id m)
            λ u h. subst (λ x. IsCurrent id x m.store) (same_task h) current)
      where
        same_task : {u : TaskRecord} → sleeping t ≡ sleeping u → t ≡ u
        same_task h = cc
    begun (inr e) = unfold begin_row in rw e (wake-Effect world now hex id t there current)

pub begin-Effect :
    (world : World) (now : ℕ → String) (hex id : String) {m : TaskManager} {run : Run}
    → lookup_run id m.background ≡ some run
    → Effect id m (begin world now hex id m)
begin-Effect world now hex id {m} there =
    unfold begin in begin_row-Effect world now hex id there (live-IsLive id m.store)

pub finish-Effect :
    (now id : String) (outcome : Result Exception Json) (m : TaskManager)
    → Effect id m (finish now id outcome m)
finish-Effect now id outcome m =
    unfold finish in finish_run-Effect id (on_outcome-Touches now id outcome m)

pub interrupt-Effect :
    (now id : String) (stage : Stage) (m : TaskManager) → Effect id m (interrupt now id stage m)
interrupt-Effect now id created m = unfold interrupt in finish_run-Effect id (Touches-refl id m)
interrupt-Effect now id (sleeping t) m =
    unfold interrupt in finish_run-Effect id (on_cancelled-Touches now id m)
interrupt-Effect now id (calling t b) m =
    unfold interrupt in finish_run-Effect id (on_cancelled-Touches now id m)
