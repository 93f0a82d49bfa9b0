-- ===== src/Manager/Outcomes.antt =====
-- manager.py: how a run ends. The row of a running task takes the state, the error and the result that
-- the outcome of the worker's call calls for, and a caller's cancel takes effect at once.
use ai_worker_bridge_mcp.Base.{
  String, ◌≡◌, ◌∙◌, refl, ap, subst, Bool, true, false, is_nil, if◌then◌else◌, [], ◌∷◌, Option,
  none, some, arith, Bool-cases, inl, inr,
}
use ai_worker_bridge_mcp.Base.Text.{Text, codes, contains, lower, or_text}
use ai_worker_bridge_mcp.Base.Exec.{Result, ok, err}
use ai_worker_bridge_mcp.Exceptions.{Exception, timeout_error, message, class_name}
use ai_worker_bridge_mcp.Json.{Json}
use ai_worker_bridge_mcp.TaskState.{
  TaskState, running, completed, failed, timed_out, mem_state, allowed_transitions, TaskRecord,
  transition, moved,
}
use ai_worker_bridge_mcp.Store.{Table, get, upsert}
use ai_worker_bridge_mcp.Store.Unique.{IsValid}
use ai_worker_bridge_mcp.Store.Rewrites.{Wrote, upsert-Wrote}
use ai_worker_bridge_mcp.Store.Selection.{task_id-get}
use ai_worker_bridge_mcp.Manager.{
  TaskManager, save, live, settle, saved_as, count_completed, emit, failed_row, failure_of,
  failure_target, fail_terminal, failure_logged, on_exception, completed_or_raised, completed_row,
  on_outcome,
}

-- The step `out` from `m` stored `u` as the row `id`, and left the coroutines alone.
pub record Settled (id : String) (u : TaskRecord) (m : TaskManager)
    (out : Result Exception TaskRecord × TaskManager) : Type 0 where
  pub next : TaskManager
  pub done : out ≡ (ok u, next)
  pub row : get id next.store ≡ some u
  pub background : next.background ≡ m.background

pub save_of_upsert :
    (u : TaskRecord) (m : TaskManager) {rows : Table}
    → upsert u m.store ≡ ok rows
    → save u m ≡ (ok u, record m { store = rows })
unfolding save
save_of_upsert u m {rows} e = ground arith

save_step :
    (u : TaskRecord) (m : TaskManager) {rows : Table}
    → upsert u m.store ≡ ok rows
    → saved_as (ok u) m ≡ (ok u, count_completed u (record m { store = rows }))
save_step u m {rows} e = unfold saved_as in rw (save_of_upsert u m {rows = rows} e)

-- A transition of a stored row that the table allows is stored.
pub settle-Settled :
    (now : String) (target : TaskState) (error : Option Text) (result : Option Json)
    (t : TaskRecord) (m : TaskManager)
    → IsValid m.store
    → get t.task_id m.store ≡ some t
    → transition now t target error result ≡ ok (moved now t target error result)
    → Settled t.task_id (moved now t target error result) m (settle now target error result t m)
settle-Settled now target error result t m v found e =
    let u = moved now t target error result in
    let w : Wrote t u m.store (upsert u m.store) =
      upsert-Wrote t u m.store v found
        (unfold moved in record { id = refl; key = refl; created = refl }) in
    record {
      next = count_completed u (record m { store = w.next });
      done = unfold settle in rw e (save_step u m w.done);
      row = unfold count_completed in w.own;
      background = unfold count_completed in refl;
    }

from_running :
    (now : String) (target : TaskState) (error : Option Text) (result : Option Json)
    (t : TaskRecord)
    → t.state ≡ running
    → mem_state target (allowed_transitions running) ≡ true
    → transition now t target error result ≡ ok (moved now t target error result)
unfolding transition
from_running now target error result t h e = rw h (rw e)

live_of_running :
    (id : String) (rows : Table) (t : TaskRecord)
    → get id rows ≡ some t
    → t.state ≡ running
    → live id rows ≡ some t
unfolding live
live_of_running id rows t e h = rw e (rw h)

completed_row_step :
    (now id : String) (result : Json) (t : TaskRecord) (m : TaskManager)
    (out : Result Exception TaskRecord × TaskManager) {u : TaskRecord} {n : TaskManager}
    → settle now completed none (some result) t m ≡ out
    → out ≡ (ok u, n)
    → completed_row now id result (some t) m ≡ n
completed_row_step now id result t m out {u} {n} e f =
    unfold completed_row in (rw (e, f) (unfold completed_or_raised in refl))

failed_row_step :
    (now : String) (target : TaskState) (error : Text) (t : TaskRecord) (m : TaskManager)
    {u : TaskRecord} {n : TaskManager}
    → settle now target (some error) none t m ≡ (ok u, n)
    → (failed_row now target error (some t) m).store ≡ n.store
failed_row_step now target error t m {u} {n} e =
    unfold failed_row in (rw e (unfold failure_logged emit in refl))

failure_target_allowed :
    (text : Text) → mem_state (failure_target text) (allowed_transitions running) ≡ true
unfolding failure_target allowed_transitions
failure_target_allowed text = elim (Bool-cases (contains (lower text) (codes "timeout"))) [
  | inl e ↦ rw e
  | inr e ↦ rw e
]

failure_allowed : (e : Exception) → mem_state (failure_of e).0 (allowed_transitions running) ≡ true
unfolding failure_of
failure_allowed (timeout_error text) = unfold allowed_transitions in refl
failure_allowed e = failure_target_allowed (or_text (message e) (class_name e))

-- The text that a failed task shows: that of the exception, or a stand-in for an empty one.
abbrev pub shown_error : Exception → Text
shown_error (timeout_error text) = if is_nil text then codes "worker timed out" else text
shown_error e = if is_nil (message e) then class_name e else message e

-- Whether a failed task is TimedOut: for a TimeoutError, and for another exception whose text has the
-- word, in whatever case.
abbrev pub is_timeout : Exception → Bool
is_timeout (timeout_error text) = true
is_timeout e = contains (lower (shown_error e)) (codes "timeout")

-- What a running task's row is to be when the worker's call ends with the outcome.
abbrev pub ended_with : String → TaskRecord → Result Exception Json → TaskRecord
ended_with now t (ok result) = record t {
  state = completed;
  updated_at = now;
  completed_at = some now;
  result = some result;
}
ended_with now t (err e) = record t {
  state = if is_timeout e then timed_out else failed;
  updated_at = now;
  completed_at = some now;
  error = some (shown_error e);
}

moved-completed :
    (now : String) (t : TaskRecord) (result : Json)
    → moved now t completed none (some result) ≡ ended_with now t (ok result)
unfolding moved
moved-completed now t result = refl

moved_failed :
    (now : String) (t : TaskRecord) (timeout : Bool) (text : Text)
    → moved now t (if timeout then timed_out else failed) (some text) none ≡ record t {
      state = if timeout then timed_out else failed;
      updated_at = now;
      completed_at = some now;
      error = some text;
    }
unfolding moved
moved_failed now t true text = refl
moved_failed now t false text = refl

or_text_lem : (s default : Text) → or_text s default ≡ (if is_nil s then default else s)
or_text_lem [] default = refl
or_text_lem (c ∷ s) default = refl

failure_of-shown :
    (e : Exception) → failure_of e ≡ (if is_timeout e then timed_out else failed, shown_error e)
unfolding failure_of failure_target
failure_of-shown (timeout_error text) =
    ap (λ shown. (timed_out, shown)) (or_text_lem text (codes "worker timed out"))
failure_of-shown e =
    ap (λ shown. (if contains (lower shown) (codes "timeout") then timed_out else failed, shown))
      (or_text_lem (message e) (class_name e))

moved-failure_of :
    (now : String) (t : TaskRecord) (e : Exception)
    → moved now t (failure_of e).0 (some (failure_of e).1) none ≡ ended_with now t (err e)
moved-failure_of now t e =
    ap (λ (f : TaskState × Text). moved now t f.0 (some f.1) none) (failure_of-shown e)
    ∙ moved_failed now t (is_timeout e) (shown_error e)

-- The settlement of the running row `id`.
Settled-at :
    (now : String) (target : TaskState) (error : Option Text) (result : Option Json) (id : String)
    (t : TaskRecord) (m : TaskManager)
    → IsValid m.store
    → get id m.store ≡ some t
    → t.state ≡ running
    → mem_state target (allowed_transitions running) ≡ true
    → Settled id (moved now t target error result) m (settle now target error result t m)
Settled-at now target error result id t m v e h a =
    let own : t.task_id ≡ id = task_id-get id m.store e in
    let found : get t.task_id m.store ≡ some t = ap (λ i. get i m.store) own ∙ e in
    subst (λ i. Settled i (moved now t target error result) m (settle now target error result t m))
      own
      (settle-Settled now target error result t m v found
        (from_running now target error result t h a))

on_outcome_ok_step :
    (now id : String) (result : Json) (t : TaskRecord) (m : TaskManager)
    → live id m.store ≡ some t
    → on_outcome now id (ok result) m ≡ completed_row now id result (some t) m
on_outcome_ok_step now id result t m e =
    unfold on_outcome in ap (λ o. completed_row now id result o m) e

on_outcome_err_step :
    (now id : String) (x : Exception) (t : TaskRecord) (m : TaskManager)
    → live id m.store ≡ some t
    → on_outcome now id (err x) m ≡ failed_row now (failure_of x).0 (failure_of x).1 (some t) m
on_outcome_err_step now id x t m e =
    unfold on_outcome on_exception fail_terminal in
    ap (λ o. failed_row now (failure_of x).0 (failure_of x).1 o m) e

-- When the keys are unique, and the worker's call of a task ends while its row is running, the row ends
-- now, and is otherwise as it was: Completed with the result that was returned, or else TimedOut, for a
-- TimeoutError or a text with the word timeout, or Failed, with the text of the exception, or with
-- "worker timed out" or the class of the exception for an empty text.
pub on_outcome_settles :
    (now id : String) (outcome : Result Exception Json) (t : TaskRecord) (m : TaskManager)
    → IsValid m.store
    → get id m.store ≡ some t
    → t.state ≡ running
    → get id (on_outcome now id outcome m).store ≡ some (ended_with now t outcome)
on_outcome_settles now id (ok result) t m v e h =
    let s =
      Settled-at now completed none (some result) id t m v e h
        (unfold allowed_transitions in refl) in
    ap (λ (n : TaskManager). get id n.store)
      (on_outcome_ok_step now id result t m (live_of_running id m.store t e h)
        ∙ completed_row_step now id result t m _ refl s.done)
    ∙ s.row
    ∙ ap some (moved-completed now t result)
on_outcome_settles now id (err x) t m v e h =
    let s =
      Settled-at now (failure_of x).0 (some (failure_of x).1) none id t m v e h
        (failure_allowed x) in
    ap (λ (n : TaskManager). get id n.store)
      (on_outcome_err_step now id x t m (live_of_running id m.store t e h))
    ∙ ap (get id) (failed_row_step now (failure_of x).0 (failure_of x).1 t m s.done)
    ∙ s.row
    ∙ ap some (moved-failure_of now t x)
