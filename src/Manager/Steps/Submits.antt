-- ===== src/Manager/Steps/Submits.antt =====
-- manager.py, `call`, as a step: a task with a fresh id is added, or no row changes.
use ai_worker_bridge_mcp.Base.{
  String, ◌≡◌, ◌∙◌, refl, sym, ap, subst, true, false, not, any, Option, none, some, inl, inr,
  Bool-cases, eq_iff, if◌then◌else◌, false≢true,
}
use ai_worker_bridge_mcp.Base.Text.{Text}
use ai_worker_bridge_mcp.Base.Exec.{Result, ok, err}
use ai_worker_bridge_mcp.Exceptions.{Exception}
use ai_worker_bridge_mcp.Json.{Json}
use ai_worker_bridge_mcp.Config.{WorkerConfig, mode_eq, sync}
use ai_worker_bridge_mcp.Permissions.{World, resolve_working_directory}
use ai_worker_bridge_mcp.TaskState.{TaskRecord, TaskState, pending, new_task}
use ai_worker_bridge_mcp.Store.{get, create_or_get, Created}
use ai_worker_bridge_mcp.Store.Unique.{IsValid, create_or_get-IsValid}
use ai_worker_bridge_mcp.Store.Fresh.{Adds, added, replayed, create_or_get-Adds}
use ai_worker_bridge_mcp.Registry.{get_worker}
use ai_worker_bridge_mcp.Manager.{TaskManager, emit}
use ai_worker_bridge_mcp.Manager.Background.{lookup_run}
use ai_worker_bridge_mcp.Manager.Calls.{
  CallRequest, call, call_known, accepted, call_sync, call_worker, answered, submit, submit_task,
  submitted, enforce_async_limits,
}
use ai_worker_bridge_mcp.Manager.Touches.{Keeps, phase, phase_of, phase_of_row}
use ai_worker_bridge_mcp.TaskState.Lifecycle.{Lives, Lives-same, Lives-trans, onward, submission}
use ai_worker_bridge_mcp.Manager.Steps.{
  IsSafe, SameTasks-IsSafe, SameTasks-refl, Waits-others, IsCurrent-others,
}
use ai_worker_bridge_mcp.Manager.Steps.Schedules.{Scheduled, schedule-Scheduled}
use text.Mathlib.Text.{◌==◌ as str_eq}

-- What `call` does with a table that holds one more row.
record Grows (t : TaskRecord) (m a : TaskManager) : Type 0 where
  rows : (j : String) → get j a.store ≡ (if str_eq t.task_id j then some t else get j m.store)
  background : a.background ≡ m.background
  started : a.started ≡ m.started

none≢some : {x : TaskState} → ◌≡◌ {A = Option TaskState} none (some x) → ⊥
none≢some e = cc

module _ (t : TaskRecord) {m a : TaskManager} (fresh : get t.task_id m.store ≡ none)
    (g : Grows t m a) where
  fresh_at : (j : String) → str_eq t.task_id j ≡ true → get j m.store ≡ none
  fresh_at j same = subst (λ i. get i m.store ≡ none) ((eq_iff t.task_id j).0 same) fresh

  other_row : (j : String) → str_eq t.task_id j ≡ false → get j a.store ≡ get j m.store
  other_row j other = g.rows j ∙ (rw other refl)

  -- A row that is there is as it was.
  kept_row : (j : String) {x : TaskState} → phase j m.store ≡ some x → get j a.store ≡ get j m.store
  kept_row j {x} e = elim (Bool-cases (str_eq t.task_id j)) [
    | inl same ↦
        absurd (none≢some {x = x} (unfold phase_of in sym (ap phase_of (fresh_at j same)) ∙ e))
    | inr other ↦ other_row j other
  ]

  Grows-Keeps : Keeps m.store a.store
  Grows-Keeps j u e k = kept_row j (phase_of_row e) ∙ e

  Grows-Lives : t.state ≡ pending → (j : String) → Lives (phase j m.store) (phase j a.store)
  Grows-Lives h j = elim (Bool-cases (str_eq t.task_id j)) [
    | inl same ↦
        let before : phase j m.store ≡ none =
          ap phase_of (fresh_at j same) ∙ unfold phase_of in refl in
        let after : phase j a.store ≡ some pending =
          phase_of_row {t = t} (g.rows j ∙ (rw same refl)) ∙ ap some h in
        Lives-trans (onward (Lives-same before) submission) (Lives-same (sym after))
    | inr other ↦ Lives-same (ap phase_of (sym (other_row j other)))
  ]

Grows-IsSafe :
    (t : TaskRecord) (m : TaskManager) {a n : TaskManager}
    → m.started ≡ true
    → get t.task_id m.store ≡ none
    → t.state ≡ pending
    → (IsValid m.store → IsValid a.store)
    → Grows t m a
    → Scheduled a n
    → IsSafe m n
Grows-IsSafe t m {a} {n} on fresh h valid g s = record {
  coherent = λ c. record {
    valid = rw s.store (valid c.valid);
    current = λ id task w.
        let old =
          c.current id task (Waits-others (ap (lookup_run id) g.background) (s.waits id task w)) in
        IsCurrent-others (ap (get id) s.store ∙ kept_row t fresh g id old.at) old;
    idle = λ off. absurd (false≢true (sym off ∙ s.started ∙ g.started ∙ on));
  };
  keeps = λ c j u e k. ap (get j) s.store ∙ Grows-Keeps t fresh g j u e k;
  lives = λ c j. Lives-trans (Grows-Lives t fresh g h j) (Lives-same (ap (phase j) (sym s.store)));
}

submitted-IsSafe :
    (worker_id : String) (t : TaskRecord) (m : TaskManager) {out : Created}
    → m.started ≡ true
    → get t.task_id m.store ≡ none
    → t.state ≡ pending
    → (IsValid m.store → IsValid out.0)
    → Adds t m.store out
    → IsSafe m (submitted worker_id (ok out) m).1
unfolding submitted emit
submitted-IsSafe worker_id t m on fresh h valid (added after rows) =
    Grows-IsSafe t m on fresh h valid (record { rows = rows; background = refl; started = refl })
      (schedule-Scheduled t.task_id _)
submitted-IsSafe worker_id t m on fresh h valid (replayed old) =
    SameTasks-IsSafe (record { store = refl; background = refl; started = refl })

create_or_get-IsSafe :
    (worker_id : String) (t : TaskRecord) (m : TaskManager) (r : Result Exception Created)
    → m.started ≡ true
    → get t.task_id m.store ≡ none
    → t.state ≡ pending
    → create_or_get t m.store ≡ r
    → IsSafe m (submitted worker_id r m).1
create_or_get-IsSafe worker_id t m (err x) on fresh h e =
    unfold submitted in SameTasks-IsSafe (SameTasks-refl m)
create_or_get-IsSafe worker_id t m (ok out) on fresh h e =
    submitted-IsSafe worker_id t m on fresh h (λ v. create_or_get-IsValid t m.store v e)
      (create_or_get-Adds t m.store fresh e)

submit_task-IsSafe :
    (r : Result Exception (Unit {0})) (t : TaskRecord) (worker_id : String) (m : TaskManager)
    → m.started ≡ true
    → get t.task_id m.store ≡ none
    → t.state ≡ pending
    → IsSafe m (submit_task r t worker_id m).1
submit_task-IsSafe (err x) t worker_id m on fresh h =
    unfold submit_task in SameTasks-IsSafe (SameTasks-refl m)
submit_task-IsSafe (ok passed) t worker_id m on fresh h =
    unfold submit_task in create_or_get-IsSafe worker_id t m _ on fresh h refl

call_worker-IsSafe :
    (r : Result Exception (Unit {0})) (outcome : Result Exception Json) (worker_id : String)
    (m : TaskManager)
    → IsSafe m (call_worker r outcome worker_id m).1
unfolding call_worker answered emit
call_worker-IsSafe (err x) outcome worker_id m = SameTasks-IsSafe (SameTasks-refl m)
call_worker-IsSafe (ok passed) (err x) worker_id m = SameTasks-IsSafe (SameTasks-refl m)
call_worker-IsSafe (ok passed) (ok result) worker_id m =
    SameTasks-IsSafe (record { store = refl; background = refl; started = refl })

accepted-IsSafe :
    (hex now : String) (outcome : Result Exception Json) (worker : WorkerConfig) (req : CallRequest)
    (r : Result Exception Text) (m : TaskManager)
    → m.started ≡ true
    → get hex m.store ≡ none
    → IsSafe m (accepted hex now outcome worker req r m).1
accepted-IsSafe hex now outcome worker req (err x) m on fresh =
    unfold accepted in SameTasks-IsSafe (SameTasks-refl m)
accepted-IsSafe hex now outcome worker req (ok directory) m on fresh =
    elim (Bool-cases (not (any (λ mode. mode_eq mode req.mode) worker.allowed_modes))) [
      | inl e ↦ unfold accepted in rw e (SameTasks-IsSafe (SameTasks-refl m))
      | inr e ↦ elim (Bool-cases (mode_eq req.mode sync)) [
        | inl s ↦
            unfold accepted in
            rw e (rw s (unfold call_sync in call_worker-IsSafe _ outcome req.worker_id m))
        | inr s ↦
            unfold accepted in
            rw e (
              rw s (
                unfold submit in
                submit_task-IsSafe (enforce_async_limits req.worker_id m) _ req.worker_id m on
                  (unfold new_task in fresh) (unfold new_task in refl)))
      ]
    ]

call_known-IsSafe :
    (world : World) (hex now : String) (outcome : Result Exception Json) (req : CallRequest)
    (r : Result Exception WorkerConfig) (m : TaskManager)
    → m.started ≡ true
    → get hex m.store ≡ none
    → IsSafe m (call_known world hex now outcome req r m).1
call_known-IsSafe world hex now outcome req (err x) m on fresh =
    unfold call_known in SameTasks-IsSafe (SameTasks-refl m)
call_known-IsSafe world hex now outcome req (ok worker) m on fresh =
    unfold call_known in
    accepted-IsSafe hex now outcome worker req (resolve_working_directory world worker req.prompt) m
      on fresh

pub call-IsSafe :
    (world : World) (hex now : String) (outcome : Result Exception Json) (req : CallRequest)
    (m : TaskManager)
    → m.started ≡ true
    → get hex m.store ≡ none
    → IsSafe m (call world hex now outcome req m).1
call-IsSafe world hex now outcome req m on fresh =
    unfold call in
    call_known-IsSafe world hex now outcome req (get_worker m.workers req.worker_id) m on fresh
