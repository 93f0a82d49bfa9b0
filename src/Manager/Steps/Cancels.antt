-- ===== src/Manager/Steps/Cancels.antt =====
-- manager.py, `cancel`, as a step: the task's row is settled, and its coroutine is asked to stop.
use ai_worker_bridge_mcp.Base.{
  String, ◌≡◌, ◌∙◌, refl, sym, ap, true, false, Option, none, some, inl, inr, Bool-cases, eq_iff,
  arith, false≢true,
}
use ai_worker_bridge_mcp.Base.Text.{codes}
use ai_worker_bridge_mcp.Base.Exec.{Result, ok, err}
use ai_worker_bridge_mcp.Exceptions.{Exception, invalid_transition}
use ai_worker_bridge_mcp.TaskState.{TaskRecord, cancelled, is_terminal}
use ai_worker_bridge_mcp.Store.{get}
use ai_worker_bridge_mcp.Store.Selection.{task_id-get}
use ai_worker_bridge_mcp.Manager.{TaskManager, settle, emit}
use ai_worker_bridge_mcp.Manager.Background.{
  Run, sleeping, lookup_run, request_cancel, lookup-request, with_cancel,
}
use ai_worker_bridge_mcp.Manager.Calls.{cancel, cancel_row, cancel_reply}
use ai_worker_bridge_mcp.Manager.Touches.{
  Touches, Touches-SameTasks, SameTasks, IsOpen, settle-Touches, phase_of_row,
}
use ai_worker_bridge_mcp.Manager.Steps.{
  Waits, Effect, IsSafe, Effect-IsSafe, SameTasks-IsSafe, SameTasks-refl,
}
use ai_worker_bridge_mcp.Manager.Steps.Runs.{Touches-Rewrites}
use mathlib.Core.Option.{some-injective}

cancel_reply_same :
    (id : String) (r : Result Exception TaskRecord) (m : TaskManager)
    → SameTasks m (cancel_reply id (r, m)).1
unfolding cancel_reply emit
cancel_reply_same id (ok t) m = record { store = refl; background = refl; started = refl }
cancel_reply_same id (err (invalid_transition source target)) m = SameTasks-refl m
cancel_reply_same id (err _) m = SameTasks-refl m

asked : String → TaskManager → TaskManager
asked id m = record m { background = request_cancel id m.background }

with_cancel-false : (o : Option Run) → with_cancel false o ≡ o
with_cancel-false none = refl
with_cancel-false (some r) = refl

with_cancel-true : (o : Option Run) {r : Run} → with_cancel true o ≡ some r → r.cancelling ≡ true
with_cancel-true none e = absurd (cc)
with_cancel-true (some r) e = ground arith

asked-Effect :
    (id : String) (m : TaskManager) {n : TaskManager} → Touches id (asked id m) n → Effect id m n
unfolding asked
asked-Effect id m {n} f = record {
  rows = Touches-Rewrites f;
  runs = λ j h.
      ap (lookup_run j) f.background
      ∙ lookup-request id j m.background
      ∙ (rw h (with_cancel-false (lookup_run j m.background)));
  own = λ task w. absurd (false≢true (sym w.going ∙ stopped w));
  idle = λ old h.
      f.background
      ∙ ap (request_cancel id) (old (sym f.started ∙ h))
      ∙ unfold request_cancel in refl;
}
  where
    stopped : {task : TaskRecord} → (w : Waits id (sleeping task) n) → w.run.cancelling ≡ true
    stopped w = with_cancel-true (lookup_run id m.background) (
        ap (λ b. with_cancel b (lookup_run id m.background)) (sym ((eq_iff id id).1 refl))
        ∙ sym (lookup-request id id m.background)
        ∙ sym (ap (lookup_run id) f.background)
        ∙ w.found)

cancel_row-IsSafe :
    (now id : String) (m : TaskManager) {o : Option TaskRecord}
    → get id m.store ≡ o
    → IsSafe m (cancel_row now id o m).1
unfolding asked
cancel_row-IsSafe now id m {o = none} e =
    SameTasks-IsSafe
      (unfold cancel_row emit in record { store = refl; background = refl; started = refl })
cancel_row-IsSafe now id m {o = some t} e = elim (Bool-cases (is_terminal t.state)) [
  | inl h ↦ unfold cancel_row in rw h (SameTasks-IsSafe (SameTasks-refl m))
  | inr h ↦ unfold cancel_row in rw h (Effect-IsSafe (asked-Effect id m (settled h)))
]
  where
    unfinished : is_terminal t.state ≡ false → IsOpen id m.store
    unfinished h u f =
        let same : t ≡ u = some-injective t u (sym e ∙ f) in
        sym (ap (λ (r : TaskRecord). is_terminal r.state) same) ∙ h

    settled :
        is_terminal t.state ≡ false
        → Touches id
            (asked id m)
            (cancel_reply id
              (settle now cancelled (some (codes "cancelled by caller")) none t (asked id m))).1
    settled h =
        Touches-SameTasks
          (settle-Touches now cancelled (some (codes "cancelled by caller")) none t id (asked id m)
            (task_id-get id m.store e) (phase_of_row e) (unfinished h))
          (cancel_reply_same id _ _)

pub cancel-IsSafe : (now id : String) (m : TaskManager) → IsSafe m (cancel now id m).1
cancel-IsSafe now id m = unfold cancel in cancel_row-IsSafe now id m refl
