-- ===== src/Manager/Preparing.antt =====
-- manager.py: `_run_task` up to the worker's call touches the row of its own task only.
use ai_worker_bridge_mcp.Base.{
  ℕ, String, ◌≡◌, ◌∙◌, refl, sym, ap, subst, true, false, Option, none, some, arith, Bool-cases,
  inl, inr,
}
use mathlib.Core.Option.{some-injective}
use ai_worker_bridge_mcp.Base.Text.{Text}
use ai_worker_bridge_mcp.Base.Exec.{Result, ok, err}
use ai_worker_bridge_mcp.Exceptions.{Exception}
use ai_worker_bridge_mcp.TaskState.{
  pending, running, recovering, state_eq, next_attempt, is_terminal, TaskRecord, transition,
}
use ai_worker_bridge_mcp.TaskState.Lifecycle.{Lives-same}
use ai_worker_bridge_mcp.Store.{Table, upsert}
use ai_worker_bridge_mcp.Manager.{TaskManager, save, continue}
use ai_worker_bridge_mcp.Permissions.{World}
use ai_worker_bridge_mcp.Manager.Execution.{
  directory_saved, directory_or_saved, ensure_directory, requeued, saved_attempt,
  dispatched_attempt, start_attempt, prepare,
}
use ai_worker_bridge_mcp.Manager.Touches.{
  Touches, Touches-refl, Touches-trans, IsOpen, Saved, raised, stored, save-Saved, save-Touches,
  upsert-get, upsert-phase, phase, IsNext, transition-later,
}

-- The task that a step hands on has the same id, and its row is open and in the task's state.
record IsHeld (id : String) (rows : Table) (u : TaskRecord) : Type 0 where
  own : u.task_id ≡ id
  row : IsOpen id rows
  at : phase id rows ≡ some u.state

abbrev Handed : String → Result Exception TaskRecord × TaskManager → Type 0
Handed id (ok u, n) = IsHeld id n.store u
Handed id (err e, n) = Unit

IsOpen-after :
    (u : TaskRecord) (rows after : Table)
    → upsert u rows ≡ ok after
    → is_terminal u.state ≡ false
    → IsOpen u.task_id after
IsOpen-after u rows after e h t found =
    let (w, there, same) = upsert-get u rows {after = after} e in
    let same_row : w ≡ t = some-injective w t (sym there ∙ found) in
    sym (ap (λ (r : TaskRecord). is_terminal r.state) same_row) ∙ ap is_terminal same ∙ h

Saved-Handed :
    {u : TaskRecord} {m : TaskManager} {out : Result Exception TaskRecord × TaskManager}
    → Saved u m out
    → is_terminal u.state ≡ false
    → Handed u.task_id out
Saved-Handed {u} {m} (raised e) h = tt
Saved-Handed {u} {m} (stored rows done) h = record {
  own = refl;
  row = IsOpen-after u m.store rows done h;
  at = upsert-phase u m.store {after = rows} done;
}

-- Both facts about a step for the task `id` in the state `m`.
abbrev Goes : String → TaskManager → Result Exception TaskRecord × TaskManager → Type 0
Goes id m out = Touches id m out.1 × Handed id out

save-Goes :
    (u : TaskRecord) (id : String) (m : TaskManager)
    → IsHeld id m.store u
    → is_terminal u.state ≡ false
    → Goes id m (save u m)
save-Goes u id m held h = (
  save-Touches u id m held.own held.row (Lives-same held.at),
  subst (λ i. Handed i (save u m)) held.own (Saved-Handed (save-Saved u m) h),
)

directory_saved-Goes :
    (world : World) (task : TaskRecord) (id : String) (m : TaskManager) (r : Result Exception Text)
    → IsHeld id m.store task
    → is_terminal task.state ≡ false
    → Goes id m (directory_saved world task r m)
directory_saved-Goes world task id m (err e) held h =
    unfold directory_saved in (Touches-refl id m, tt)
directory_saved-Goes world task id m (ok path) held h =
    unfold directory_saved in
    save-Goes (record task { working_directory = some path }) id m
      (record { own = held.own; row = held.row; at = held.at }) h

directory_or_saved-Goes :
    (world : World) (o : Option Text) (task : TaskRecord) (id : String) (m : TaskManager)
    → IsHeld id m.store task
    → is_terminal task.state ≡ false
    → Goes id m (directory_or_saved world o task m)
directory_or_saved-Goes world (some path) task id m held h =
    unfold directory_or_saved in (Touches-refl id m, held)
directory_or_saved-Goes world none task id m held h =
    unfold directory_or_saved in directory_saved-Goes world task id m _ held h

saved_attempt-Touches :
    (r : Result Exception TaskRecord) (id : String) (m : TaskManager)
    → ((u : TaskRecord) → r ≡ ok u → IsNext id m.store u)
    → IsOpen id m.store
    → Touches id m (saved_attempt r m).1
saved_attempt-Touches (err e) id m next unfinished = unfold saved_attempt in Touches-refl id m
saved_attempt-Touches (ok u) id m next unfinished =
    let v = next u refl in unfold saved_attempt in save-Touches u id m v.own unfinished v.life

-- A requeued task is in a state that the row's state leads to.
dispatched_attempt-Touches :
    (now : ℕ → String) (hex : String) (t : TaskRecord) (id : String) (m : TaskManager)
    → IsNext id m.store t
    → IsOpen id m.store
    → Touches id m (dispatched_attempt now hex t m).1
dispatched_attempt-Touches now hex t id m held unfinished =
    elim (Bool-cases (state_eq t.state pending)) [
      | inl e ↦
          subst (λ out. Touches id m out.1) (sym (attempt_of_pending e))
            (saved_attempt-Touches
              (transition (now 2) (next_attempt (now 1) hex t) running none none) id m
              (λ u d. attempted u d) unfinished)
      | inr e ↦ subst (λ out. Touches id m out.1) (sym (attempt_of_other e)) (Touches-refl id m)
    ]
  where
    attempted :
        (u : TaskRecord)
        → transition (now 2) (next_attempt (now 1) hex t) running none none ≡ ok u
        → IsNext id m.store u
    attempted u d =
        transition-later (now 2) (next_attempt (now 1) hex t) running none none id m.store
          (unfold next_attempt in record { own = held.own; life = held.life }) d

    attempt_of_pending :
        state_eq t.state pending ≡ true
        → dispatched_attempt now hex t m
          ≡ saved_attempt (transition (now 2) (next_attempt (now 1) hex t) running none none) m
    attempt_of_pending e = unfold dispatched_attempt in rw e

    attempt_of_other : state_eq t.state pending ≡ false → dispatched_attempt now hex t m ≡ (ok t, m)
    attempt_of_other e = unfold dispatched_attempt in rw e

start_attempt-Touches :
    (now : ℕ → String) (hex : String) (r : Result Exception TaskRecord) (id : String)
    (m : TaskManager)
    → ((u : TaskRecord) → r ≡ ok u → IsNext id m.store u)
    → IsOpen id m.store
    → Touches id m (start_attempt now hex r m).1
start_attempt-Touches now hex (err e) id m next unfinished =
    unfold start_attempt in Touches-refl id m
start_attempt-Touches now hex (ok t) id m next unfinished =
    unfold start_attempt in dispatched_attempt-Touches now hex t id m (next t refl) unfinished

requeued-IsNext :
    (now : String) (t : TaskRecord) (id : String) (rows : Table) {u : TaskRecord}
    → IsNext id rows t
    → requeued now t ≡ ok u
    → IsNext id rows u
requeued-IsNext now t id rows {u} held e = elim (Bool-cases (state_eq t.state recovering)) [
  | inl h ↦
      transition-later now t pending none none id rows {u = u} held
        (unfold requeued in ground arith)
  | inr h ↦ subst (IsNext id rows) (same h) held
]
  where
    same : state_eq t.state recovering ≡ false → t ≡ u
    same h = unfold requeued in ground arith

then_start :
    (now : ℕ → String) (hex id : String) (m : TaskManager)
    (out : Result Exception TaskRecord × TaskManager)
    → Goes id m out
    → Touches id m (continue out (λ t. start_attempt now hex (requeued (now 0) t))).1
then_start now hex id m (err e, n) (f, h) = f
then_start now hex id m (ok t, n) (f, held) = Touches-trans f (
    start_attempt-Touches now hex (requeued (now 0) t) id n
      (λ u e.
        requeued-IsNext (now 0) t id n.store (record { own = held.own; life = Lives-same held.at })
          e)
      held.row)

-- When the task has the id `id` and is open, and its row is in the task's state, `_run_task` up to the
-- worker's call keeps the keys unique, changes no row of another task and no row in a terminal state,
-- and moves the task's row along its lifecycle.
pub prepare-Touches :
    (world : World) (now : ℕ → String) (hex : String) (task : TaskRecord) (id : String)
    (m : TaskManager)
    → task.task_id ≡ id
    → is_terminal task.state ≡ false
    → IsOpen id m.store
    → phase id m.store ≡ some task.state
    → Touches id m (prepare world now hex task m).1
prepare-Touches world now hex task id m own h unfinished at =
    unfold prepare ensure_directory in
    then_start now hex id m (directory_or_saved world task.working_directory task m) (
      directory_or_saved-Goes world task.working_directory task id m
        (record { own = own; row = unfinished; at = at }) h)
