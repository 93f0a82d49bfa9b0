-- ===== src/Manager/Refused.antt =====
-- manager.py, `_fail_terminal`: a failure that the table of transitions refuses is passed over.
use ai_worker_bridge_mcp.Base.{String, ◌≡◌, ◌∙◌, refl, ap, false, some, none, Bool-cases, inl, inr}
use ai_worker_bridge_mcp.Base.Text.{Text, codes, contains, lower, or_text}
use ai_worker_bridge_mcp.Base.Exec.{err}
use ai_worker_bridge_mcp.Exceptions.{
  Exception, timeout_error, invalid_transition, message, class_name,
}
use ai_worker_bridge_mcp.TaskState.{
  TaskState, pending, mem_state, value, allowed_transitions, TaskRecord, transition,
}
use ai_worker_bridge_mcp.Store.{Table, get}
use ai_worker_bridge_mcp.Manager.{
  TaskManager, live, settle, saved_as, failed_row, failure_of, failure_target, fail_terminal,
  failure_logged, on_exception,
}

pub live_of_pending :
    (id : String) (rows : Table) (t : TaskRecord)
    → get id rows ≡ some t
    → t.state ≡ pending
    → live id rows ≡ some t
unfolding live
live_of_pending id rows t e h = rw e (rw h)

failure_target_refused :
    (text : Text) → mem_state (failure_target text) (allowed_transitions pending) ≡ false
unfolding failure_target allowed_transitions
failure_target_refused text = elim (Bool-cases (contains (lower text) (codes "timeout"))) [
  | inl e ↦ rw e
  | inr e ↦ rw e
]

failure_refused : (e : Exception) → mem_state (failure_of e).0 (allowed_transitions pending) ≡ false
unfolding failure_of
failure_refused (timeout_error text) = unfold allowed_transitions in refl
failure_refused e = failure_target_refused (or_text (message e) (class_name e))

refused_from_pending :
    (now : String) (target : TaskState) (error : Text) (t : TaskRecord)
    → t.state ≡ pending
    → mem_state target (allowed_transitions pending) ≡ false
    → transition now t target (some error) none
      ≡ err (invalid_transition (value t.state) (value target))
unfolding transition
refused_from_pending now target error t h e = rw h (rw e)

failed_row_refused :
    (now : String) (target : TaskState) (error : Text) (t : TaskRecord) (m : TaskManager)
    {x : Exception}
    → transition now t target (some error) none ≡ err x
    → failed_row now target error (some t) m ≡ m
failed_row_refused now target error t m e =
    unfold failed_row settle in rw e (unfold saved_as failure_logged in refl)

-- An exception before the row of a task has left the pending state changes nothing: the task stays
-- pending, with no error, no count and no event.
pub on_exception_of_pending :
    (now id : String) (e : Exception) (t : TaskRecord) (m : TaskManager)
    → get id m.store ≡ some t
    → t.state ≡ pending
    → on_exception now id e m ≡ m
on_exception_of_pending now id e t m found h =
    unfold on_exception fail_terminal in
    ap (λ o. failed_row now (failure_of e).0 (failure_of e).1 o m)
      (live_of_pending id m.store t found h)
    ∙ failed_row_refused now (failure_of e).0 (failure_of e).1 t m
        (refused_from_pending now (failure_of e).0 (failure_of e).1 t h (failure_refused e))
