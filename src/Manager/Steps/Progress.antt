-- ===== src/Manager/Steps/Progress.antt =====
-- manager.py, `_run_task`: a pending task that is scheduled is dispatched, and ends with the outcome
-- of the worker's call.
use ai_worker_bridge_mcp.Base.{
  ℕ, String, ◌≡◌, ◌∙◌, refl, sym, ap, subst, true, false, none, some, arith, ◌+◌, is_some,
  if◌then◌else◌, Bool-cases, inl, inr,
}
use ai_worker_bridge_mcp.Base.Text.{Text}
use ai_worker_bridge_mcp.Base.Exec.{Result, ok}
use ai_worker_bridge_mcp.Exceptions.{Exception}
use ai_worker_bridge_mcp.Json.{Json}
use ai_worker_bridge_mcp.Permissions.{World}
use ai_worker_bridge_mcp.TaskState.{
  TaskRecord, pending, running, recovering, state_eq, transition, moved, next_attempt,
}
use ai_worker_bridge_mcp.Store.{get, upsert}
use ai_worker_bridge_mcp.Store.Unique.{IsValid}
use ai_worker_bridge_mcp.Store.Rewrites.{Wrote, upsert-Wrote}
use ai_worker_bridge_mcp.Store.Selection.{task_id-get}
use ai_worker_bridge_mcp.Manager.{TaskManager, save, continue, on_outcome}
use ai_worker_bridge_mcp.Manager.Background.{created, calling, lookup_run}
use ai_worker_bridge_mcp.Manager.Execution.{
  begin, begin_row, wake, prepare, ensure_directory, directory_or_saved, requeued, start_attempt,
  dispatched_attempt, saved_attempt, called, move_run, finish, finish_run,
}
use ai_worker_bridge_mcp.Manager.Refused.{live_of_pending}
use ai_worker_bridge_mcp.Manager.Outcomes.{save_of_upsert, ended_with, on_outcome_settles}
use ai_worker_bridge_mcp.Manager.Steps.{begins, finishes, Reach, here, next, Waits}
use ai_worker_bridge_mcp.Manager.Steps.Runs.{lookup-finish_run, lookup-move_run}

-- What the row of a pending task is to be when it is dispatched: running, with a new attempt.
abbrev pub dispatched_row : (ℕ → String) → String → TaskRecord → TaskRecord
dispatched_row now hex t = record t {
  state = running;
  dispatch_attempt_id = some hex;
  attempt_count = t.attempt_count + 1;
  updated_at = now 2;
  started_at = if is_some t.started_at then t.started_at else some (now 2);
}

moved-next_attempt :
    (now : ℕ → String) (hex : String) (t : TaskRecord)
    → moved (now 2) (next_attempt (now 1) hex t) running none none ≡ dispatched_row now hex t
moved-next_attempt now hex t = elim (Bool-cases (is_some t.started_at)) [
  | inl h ↦ unfold moved next_attempt in rw h refl
  | inr h ↦ unfold moved next_attempt in rw h refl
]

dispatched_row-state :
    (now : ℕ → String) (hex : String) (t : TaskRecord) → (dispatched_row now hex t).state ≡ running
dispatched_row-state now hex t = refl

attempt_allowed :
    (now : ℕ → String) (hex : String) (t : TaskRecord)
    → t.state ≡ pending
    → transition (now 2) (next_attempt (now 1) hex t) running none none
      ≡ ok (dispatched_row now hex t)
attempt_allowed now hex t h = allowed ∙ ap ok (moved-next_attempt now hex t)
  where
    allowed :
        transition (now 2) (next_attempt (now 1) hex t) running none none
        ≡ ok (moved (now 2) (next_attempt (now 1) hex t) running none none)
    allowed = unfold transition next_attempt in rw h refl

requeued_of_pending : (now : String) (t : TaskRecord) → t.state ≡ pending → requeued now t ≡ ok t
unfolding requeued
requeued_of_pending now t h = ground arith

dispatched_of_pending :
    (now : ℕ → String) (hex : String) (t : TaskRecord) (m : TaskManager)
    → t.state ≡ pending
    → dispatched_attempt now hex t m ≡ save (dispatched_row now hex t) m
dispatched_of_pending now hex t m h =
    taken ∙ ap (λ r. saved_attempt r m) (attempt_allowed now hex t h) ∙ unfold saved_attempt in refl
  where
    is_pending : state_eq t.state pending ≡ true
    is_pending = ap (λ s. state_eq s pending) h

    taken :
        dispatched_attempt now hex t m
        ≡ saved_attempt (transition (now 2) (next_attempt (now 1) hex t) running none none) m
    taken = unfold dispatched_attempt in rw is_pending refl

prepare_of_pending :
    (world : World) (now : ℕ → String) (hex : String) (t : TaskRecord) (directory : Text)
    (m : TaskManager)
    → t.state ≡ pending
    → t.working_directory ≡ some directory
    → prepare world now hex t m ≡ save (dispatched_row now hex t) m
prepare_of_pending world now hex t directory m h d =
    opened
    ∙ ap (λ r. start_attempt now hex r m) (requeued_of_pending (now 0) t h)
    ∙ started
    ∙ dispatched_of_pending now hex t m h
  where
    opened : prepare world now hex t m ≡ start_attempt now hex (requeued (now 0) t) m
    opened =
        unfold prepare ensure_directory in
        ap
          (λ o.
            continue (directory_or_saved world o t m)
              (λ u. start_attempt now hex (requeued (now 0) u)))
          d
        ∙ unfold directory_or_saved in refl

    started : start_attempt now hex (ok t) m ≡ dispatched_attempt now hex t m
    started = unfold start_attempt in refl

begin_of_pending :
    (world : World) (now : ℕ → String) (hex id : String) (t : TaskRecord) (m : TaskManager)
    → get id m.store ≡ some t
    → t.state ≡ pending
    → begin world now hex id m ≡ called (now 3) id false (prepare world now hex t m)
begin_of_pending world now hex id t m found h = opened ∙ awake ∙ asked
  where
    opened : begin world now hex id m ≡ begin_row world now hex id (some t) m
    opened =
        unfold begin in
        ap (λ o. begin_row world now hex id o m) (live_of_pending id m.store t found h)

    fresh : state_eq t.state recovering ≡ false
    fresh = ap (λ s. state_eq s recovering) h

    awake : begin_row world now hex id (some t) m ≡ wake world now hex id t m
    awake = unfold begin_row in ground (arith, fresh)

    asked : wake world now hex id t m ≡ called (now 3) id false (prepare world now hex t m)
    asked = unfold wake in ap (λ b. called (now 3) id b (prepare world now hex t m)) fresh

-- The state after the first step of a pending task's coroutine: its row is running, and the worker is
-- called.
pub record IsDispatched (id : String) (u : TaskRecord) (n : TaskManager) : Type 0 where
  pub valid : IsValid n.store
  pub row : get id n.store ≡ some u
  pub waits : Waits id (calling u false) n

begin-IsDispatched :
    (world : World) (now : ℕ → String) (hex id : String) (t : TaskRecord) (directory : Text)
    (m : TaskManager)
    → IsValid m.store
    → get id m.store ≡ some t
    → t.state ≡ pending
    → t.working_directory ≡ some directory
    → IsDispatched id (dispatched_row now hex t) (begin world now hex id m)
begin-IsDispatched world now hex id t directory m v found h d =
    subst (IsDispatched id u) (sym steps) (record {
      valid = unfold move_run in w.valid;
      row = unfold move_run in ap (λ i. get i w.next) (sym own) ∙ w.own;
      waits = record {
        run = record { task_id = id; stage = calling u false; cancelling = false };
        found = lookup-move_run id (calling u false) n;
        at = refl;
        going = refl;
      };
    })
  where
    u : TaskRecord
    u = dispatched_row now hex t

    own : t.task_id ≡ id
    own = task_id-get id m.store found

    w : Wrote t u m.store (upsert u m.store)
    w =
        upsert-Wrote t u m.store v (ap (λ i. get i m.store) own ∙ found)
          (record { id = refl; key = refl; created = refl })

    n : TaskManager
    n = record m { store = w.next }

    steps : begin world now hex id m ≡ move_run id (calling u false) n
    steps =
        begin_of_pending world now hex id t m found h
        ∙ ap (called (now 3) id false) (
            prepare_of_pending world now hex t directory m h d
            ∙ save_of_upsert u m {rows = w.next} w.done)
        ∙ unfold called in refl

-- The run of the task `id` from the state `m` to its end.
pub record Ends (world : World) (id : String) (row : TaskRecord) (m : TaskManager) : Type 0 where
  pub last : TaskManager
  pub reached : Reach world m last
  pub stored : get id last.store ≡ some row
  pub ended : lookup_run id last.background ≡ none

-- When the keys are unique, a pending task with a working directory whose coroutine is scheduled can
-- run to its end: it is dispatched, with one more attempt under a new id, and started now if it had not
-- been; when the worker's call ends its row ends, as Completed with the result, or as TimedOut or Failed
-- with the text of the exception; and the coroutine is gone.
pub scheduled-Ends :
    (world : World) (now : ℕ → String) (hex later id : String) (outcome : Result Exception Json)
    (t : TaskRecord) (directory : Text) (m : TaskManager)
    → IsValid m.store
    → get id m.store ≡ some t
    → t.state ≡ pending
    → t.working_directory ≡ some directory
    → Waits id created m
    → Ends world id (ended_with later (dispatched_row now hex t) outcome) m
scheduled-Ends world now hex later id outcome t directory m v found h d w =
    let b = begin-IsDispatched world now hex id t directory m v found h d in
    let n = begin world now hex id m in
    record {
      last = finish later id outcome n;
      reached =
          next (next here (begins now hex id w refl))
            (finishes later id outcome (dispatched_row now hex t) false b.waits refl);
      stored =
          finish_store id later outcome n
          ∙ on_outcome_settles later id outcome (dispatched_row now hex t) n b.valid b.row
              (dispatched_row-state now hex t);
      ended = unfold finish in lookup-finish_run id (on_outcome later id outcome n);
    }
  where
    finish_store :
        (id later : String) (outcome : Result Exception Json) (n : TaskManager)
        → get id (finish later id outcome n).store ≡ get id (on_outcome later id outcome n).store
    finish_store id later outcome n = unfold finish finish_run in refl
