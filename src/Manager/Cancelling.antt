-- ===== src/Manager/Cancelling.antt =====
-- manager.py, `cancel`: what the caller is answered, and what becomes of the task and its coroutine.
use ai_worker_bridge_mcp.Base.{
  String, ◌≡◌, ◌∙◌, refl, sym, ap, subst, true, false, Option, none, some, arith, eq_iff,
}
use ai_worker_bridge_mcp.Base.Text.{codes}
use ai_worker_bridge_mcp.Base.Exec.{Result, ok}
use ai_worker_bridge_mcp.Exceptions.{Exception}
use ai_worker_bridge_mcp.TaskState.{cancelled, is_terminal, TaskRecord, transition, moved}
use ai_worker_bridge_mcp.TaskState.Transitions.{transition_to_cancelled}
use ai_worker_bridge_mcp.Store.{get}
use ai_worker_bridge_mcp.Store.Unique.{IsValid}
use ai_worker_bridge_mcp.Store.Selection.{task_id-get}
use ai_worker_bridge_mcp.Manager.{TaskManager, emit, settle}
use ai_worker_bridge_mcp.Manager.Background.{
  Run, Runs, lookup_run, request_cancel, with_cancel, lookup-request,
}
use ai_worker_bridge_mcp.Manager.Calls.{Reply, task_response, cancel, cancel_row, cancel_reply}
use ai_worker_bridge_mcp.Manager.Outcomes.{Settled, settle-Settled}
use text.Mathlib.Text.{◌==◌ as str_eq}

-- The row that a cancelled task leaves.
abbrev pub cancelled_by_caller : String → TaskRecord → TaskRecord
cancelled_by_caller now t = record t {
  state = cancelled;
  updated_at = now;
  completed_at = some now;
  error = some (codes "cancelled by caller");
}

-- A coroutine that was asked to stop, if there is one.
abbrev pub asked_to_stop : Option Run → Option Run
asked_to_stop none = none
asked_to_stop (some r) = some (record r { cancelling = true })

-- The outcome `out` of cancelling the open task `t`.
pub record IsCancelled (id : String) (u : TaskRecord) (m : TaskManager)
    (out : Result Exception Reply × TaskManager) : Type 0 where
  pub answer : out.0 ≡ ok (task_response u)
  pub row : get id out.1.store ≡ some u
  pub own : lookup_run id out.1.background ≡ asked_to_stop (lookup_run id m.background)
  pub others :
      (j : String) → str_eq id j ≡ false → lookup_run j out.1.background ≡ lookup_run j m.background

moved-cancelled :
    (now : String) (t : TaskRecord)
    → moved now t cancelled (some (codes "cancelled by caller")) none ≡ cancelled_by_caller now t
unfolding moved
moved-cancelled now t = refl

-- What `request_cancel` does to each coroutine.
requested_own :
    (id : String) (rs : Runs)
    → lookup_run id (request_cancel id rs) ≡ asked_to_stop (lookup_run id rs)
requested_own id rs =
    lookup-request id id rs ∙ rw ((eq_iff id id).1 refl) (asked (lookup_run id rs))
  where
    asked : (o : Option Run) → with_cancel true o ≡ asked_to_stop o
    asked none = refl
    asked (some r) = refl

requested_others :
    (id j : String) (rs : Runs)
    → str_eq id j ≡ false
    → lookup_run j (request_cancel id rs) ≡ lookup_run j rs
requested_others id j rs h = lookup-request id j rs ∙ rw h (same (lookup_run j rs))
  where
    same : (o : Option Run) → with_cancel false o ≡ o
    same none = refl
    same (some r) = refl

open_to_cancel :
    (now : String) (t : TaskRecord)
    → is_terminal t.state ≡ false
    → transition now t cancelled (some (codes "cancelled by caller")) none
      ≡ ok (moved now t cancelled (some (codes "cancelled by caller")) none)
open_to_cancel now t h = transition_to_cancelled now t _ none ∙ ground arith

cancel_row_open :
    (now id : String) (t : TaskRecord) (m : TaskManager)
    → is_terminal t.state ≡ false
    → cancel_row now id (some t) m
      ≡ cancel_reply id (
          settle now cancelled
            (some (codes "cancelled by caller"))
            none
            t
            (record m { background = request_cancel id m.background }))
cancel_row_open now id t m h = unfold cancel_row in rw h

cancel_reply-IsCancelled :
    (id : String) (u : TaskRecord) (m n : TaskManager)
    → get id n.store ≡ some u
    → n.background ≡ request_cancel id m.background
    → IsCancelled id u m (cancel_reply id (ok u, n))
cancel_reply-IsCancelled id u m n e b =
    unfold cancel_reply emit in
    record {
      answer = refl;
      row = e;
      own = ap (lookup_run id) b ∙ requested_own id m.background;
      others = λ j h. ap (lookup_run j) b ∙ requested_others id j m.background h;
    }

cancel_step :
    (now id : String) (t : TaskRecord) (m : TaskManager)
    → get id m.store ≡ some t
    → cancel now id m ≡ cancel_row now id (some t) m
cancel_step now id t m e = unfold cancel in ap (λ o. cancel_row now id o m) e

-- When the keys are unique, cancelling a task that is not in a terminal state stores it as Cancelled, ended
-- now with the error "cancelled by caller", and otherwise as it was; the caller is answered with that
-- task; its coroutine, if it has one, is asked to stop, and every other coroutine is as it was.
pub cancel-IsCancelled :
    (now id : String) (t : TaskRecord) (m : TaskManager)
    → IsValid m.store
    → get id m.store ≡ some t
    → is_terminal t.state ≡ false
    → IsCancelled id (cancelled_by_caller now t) m (cancel now id m)
cancel-IsCancelled now id t m v e h =
    let own : t.task_id ≡ id = task_id-get id m.store e in
    let n = record m { background = request_cancel id m.background } in
    let s : Settled id (cancelled_by_caller now t) n
        (settle now cancelled (some (codes "cancelled by caller")) none t n) =
      subst
        (λ i.
          Settled i (cancelled_by_caller now t) n
            (settle now cancelled (some (codes "cancelled by caller")) none t n))
        own
        (subst
          (λ u.
            Settled t.task_id u n
              (settle now cancelled (some (codes "cancelled by caller")) none t n))
          (moved-cancelled now t)
          (settle-Settled now cancelled (some (codes "cancelled by caller")) none t n v
            (ap (λ i. get i m.store) own ∙ e) (open_to_cancel now t h))) in
    subst (IsCancelled id (cancelled_by_caller now t) m)
      (sym (cancel_step now id t m e ∙ cancel_row_open now id t m h ∙ ap (cancel_reply id) s.done))
      (cancel_reply-IsCancelled id (cancelled_by_caller now t) m s.next s.row s.background)
