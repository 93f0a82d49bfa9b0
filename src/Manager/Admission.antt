-- ===== src/Manager/Admission.antt =====
-- manager.py, `call` in asynchronous mode: the queue stays within its limits.
use ai_worker_bridge_mcp.Base.{
  ℕ, ◌+◌, ◌≤◌, ◌<◌, String, ◌≡◌, ◌∙◌, refl, sym, ap, subst, Bool, true, false, Option, none, some,
  arith, [], ◌∷◌, ◌++◌, count, length, Option-cases, inl, inr,
}
use ai_worker_bridge_mcp.Base.Text.{Text}
use ai_worker_bridge_mcp.Base.Exec.{Result, ok, err}
use ai_worker_bridge_mcp.Exceptions.{Exception}
use ai_worker_bridge_mcp.Config.{WorkerConfig, LimitsConfig}
use ai_worker_bridge_mcp.TaskState.{TaskRecord, queued_states}
use ai_worker_bridge_mcp.Store.{
  Table, put, upsert, insert, create_or_get, Created, count_by_states, created,
}
use ai_worker_bridge_mcp.Manager.{TaskManager, emit}
use ai_worker_bridge_mcp.Manager.Background.{
  created as created_stage, Run, Runs, lookup_run, drop_run, put_run,
}
use ai_worker_bridge_mcp.Manager.Calls.{
  Reply, CallRequest, submit, submit_task, submitted, queued_count, active_count,
  enforce_async_limits, schedule,
}

count-put :
    (p : TaskRecord → Bool) (t : TaskRecord) (rows : Table)
    → count p (put t rows) ≤ count p rows + 1
unfolding put
count-put p t [] = ground arith
count-put p t (r ∷ rows) = ground (arith, count-put p t rows)

count-append_one :
    (p : TaskRecord → Bool) (t : TaskRecord) (rows : Table)
    → count p (rows ++ t ∷ []) ≤ count p rows + 1
count-append_one p t [] = ground arith
count-append_one p t (r ∷ rows) = ground (arith, count-append_one p t rows)

-- `create_or_get` adds at most one row to what any test counts.
pub count-create_or_get :
    (p : TaskRecord → Bool) (t : TaskRecord) (rows : Table) {out : Created}
    → create_or_get t rows ≡ ok out
    → count p out.0 ≤ count p rows + 1
unfolding create_or_get upsert insert created
count-create_or_get p t rows {out} e = ground (arith, count-put p t rows, count-append_one p t rows)

-- The tests that `_enforce_async_limits` passed.
record IsBelow (worker_id : String) (m : TaskManager) : Type 0 where
  queued : queued_count m < m.limits.global_pending_tasks
  worker_queued :
      count_by_states queued_states (some worker_id) m.store < m.limits.per_worker_pending_tasks
  active : active_count m < m.limits.global_active_tasks

enforced :
    (worker_id : String) (m : TaskManager)
    → enforce_async_limits worker_id m ≡ ok tt
    → IsBelow worker_id m
enforced worker_id m e = record {
  queued = unfold enforce_async_limits in ground arith;
  worker_queued = unfold enforce_async_limits in ground arith;
  active = unfold enforce_async_limits in ground arith;
}

-- The queues of all tasks and of the worker's, and the coroutines, are within the limits.
pub record IsWithin (worker_id : String) (m : TaskManager) : Type 0 where
  pub queued : queued_count m ≤ m.limits.global_pending_tasks
  pub worker_queued :
      count_by_states queued_states (some worker_id) m.store ≤ m.limits.per_worker_pending_tasks
  pub active : active_count m ≤ m.limits.global_active_tasks

length-drop_run : (id : String) (rs : Runs) → length (drop_run id rs) ≤ length rs
unfolding drop_run
length-drop_run id [] = ground arith
length-drop_run id (r ∷ rs) = ground (arith, length-drop_run id rs)

length-put_run : (run : Run) (rs : Runs) → length (put_run run rs) ≤ length rs + 1
unfolding put_run
length-put_run run rs = omega (arith, length-drop_run run.task_id rs)

-- What scheduling a task changes.
record Grown (m n : TaskManager) : Type 0 where
  store : n.store ≡ m.store
  limits : n.limits ≡ m.limits
  active : active_count n ≤ active_count m + 1

pub schedule_known :
    (id : String) (m : TaskManager) {r : Run}
    → lookup_run id m.background ≡ some r
    → schedule id m ≡ m
unfolding schedule
schedule_known id m e = ground arith

pub schedule_new :
    (id : String) (m : TaskManager)
    → lookup_run id m.background ≡ none
    → schedule id m ≡ record m {
      background =
          put_run (record { task_id = id; stage = created_stage; cancelling = false }) m.background;
    }
unfolding schedule
schedule_new id m e = ground arith

schedule-Grown : (id : String) (m : TaskManager) → Grown m (schedule id m)
schedule-Grown id m = elim (Option-cases (lookup_run id m.background)) [
  | inl e ↦ subst (Grown m) (sym (schedule_new id m e)) (record {
    store = refl;
    limits = refl;
    active = unfold active_count in length-put_run _ m.background;
  })
  | inr (r, e) ↦
      subst (Grown m) (sym (schedule_known id m e))
        (record { store = refl; limits = refl; active = omega arith })
]

Grown-refl : (m : TaskManager) → Grown m m
Grown-refl m = record { store = refl; limits = refl; active = omega arith }

-- A table with at most one more row in each queue, and at most one more coroutine.
Grown-IsWithin :
    (worker_id : String) (m a n : TaskManager) (t : TaskRecord) {out : Created}
    → IsBelow worker_id m
    → create_or_get t m.store ≡ ok out
    → a.store ≡ out.0
    → a.limits ≡ m.limits
    → active_count a ≡ active_count m
    → Grown a n
    → IsWithin worker_id n
Grown-IsWithin worker_id m a n t {out} b e s l c g =
    let counted : (w : Option String)
        → count_by_states queued_states w n.store ≤ count_by_states queued_states w m.store + 1 =
      λ w.
        subst
          (λ rows.
            count_by_states queued_states w rows ≤ count_by_states queued_states w m.store + 1)
          (sym (g.store ∙ s))
          (unfold count_by_states in count-create_or_get _ t m.store {out = out} e) in
    let same : n.limits ≡ m.limits = g.limits ∙ l in
    record {
      queued =
          subst (λ (x : LimitsConfig). queued_count n ≤ x.global_pending_tasks) (sym same)
            (within (b.queued) (unfold queued_count in counted none));
      worker_queued =
          subst
            (λ (x : LimitsConfig).
              count_by_states queued_states (some worker_id) n.store ≤ x.per_worker_pending_tasks)
            (sym same) (within b.worker_queued (counted (some worker_id)));
      active =
          subst (λ (x : LimitsConfig). active_count n ≤ x.global_active_tasks) (sym same)
            (within b.active (subst (λ k. active_count n ≤ k + 1) c g.active));
    }
  where
    within : {x y limit : ℕ} → x < limit → y ≤ x + 1 → y ≤ limit
    within h k = omega arith

submitted-IsWithin :
    (worker_id : String) (m : TaskManager) (t : TaskRecord) (r : Result Exception Created)
    {reply : Reply} {n : TaskManager}
    → IsBelow worker_id m
    → create_or_get t m.store ≡ r
    → submitted worker_id r m ≡ (ok reply, n)
    → IsWithin worker_id n
submitted-IsWithin worker_id m t (err x) b e h = absurd (unfold submitted in cc)
submitted-IsWithin worker_id m t (ok (rows, u, true)) b e h =
    unfold submitted emit active_count in
    subst (IsWithin worker_id) (ap (λ o. o.1) h)
      (Grown-IsWithin worker_id m _ _ t b e refl refl refl (schedule-Grown u.task_id _))
submitted-IsWithin worker_id m t (ok (rows, u, false)) b e h =
    unfold submitted emit active_count in
    subst (IsWithin worker_id) (ap (λ o. o.1) h)
      (Grown-IsWithin worker_id m _ _ t b e refl refl refl (Grown-refl _))

submit_task-IsWithin :
    (worker_id : String) (m : TaskManager) (t : TaskRecord) (r : Result Exception (Unit {0}))
    {reply : Reply} {n : TaskManager}
    → enforce_async_limits worker_id m ≡ r
    → submit_task r t worker_id m ≡ (ok reply, n)
    → IsWithin worker_id n
submit_task-IsWithin worker_id m t (err x) e h = absurd (unfold submit_task in cc)
submit_task-IsWithin worker_id m t (ok passed) {reply} {n} e h =
    let h' : submitted worker_id (create_or_get t m.store) m ≡ (ok reply, n) =
      unfold submit_task in h in
    submitted-IsWithin worker_id m t (create_or_get t m.store) (enforced worker_id m e) refl h'

-- An asynchronous call that is answered leaves the queues of all tasks and of its worker, and the
-- coroutines, within the limits.
pub submit-IsWithin :
    (hex now : String) (worker : WorkerConfig) (req : CallRequest) (directory : Text)
    (m : TaskManager) {reply : Reply} {n : TaskManager}
    → submit hex now worker req directory m ≡ (ok reply, n)
    → IsWithin req.worker_id n
unfolding submit
submit-IsWithin hex now worker req directory m h =
    submit_task-IsWithin req.worker_id m _ (enforce_async_limits req.worker_id m) refl h
