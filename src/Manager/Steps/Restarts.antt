-- ===== src/Manager/Steps/Restarts.antt =====
-- manager.py, `start` and `stop`, as steps.
use ai_worker_bridge_mcp.Base.{
  ℕ, String, ◌≡◌, ◌∙◌, refl, sym, ap, subst, true, false, Option, Option-cases, some, List, [], ◌∷◌,
  if◌then◌else◌, inl, inr, Bool-cases, arith, false≢true,
}
use ai_worker_bridge_mcp.Base.Exec.{Result, ok}
use ai_worker_bridge_mcp.Exceptions.{Exception}
use ai_worker_bridge_mcp.TaskState.{
  TaskRecord, TaskState, pending, running, completed, failed, cancelled, timed_out, recovering,
  retrying, is_terminal, mem_state, state_eq, allowed_transitions,
}
use ai_worker_bridge_mcp.Store.{Table, get, mark_recovering, recoverable_states}
use ai_worker_bridge_mcp.Store.Unique.{IsValid}
use ai_worker_bridge_mcp.Store.Recovering.{WasMarked, Recovered, mark_recovering-Recovered}
use ai_worker_bridge_mcp.Manager.{TaskManager}
use ai_worker_bridge_mcp.Manager.Background.{Run, Runs, sleeping, lookup_run}
use ai_worker_bridge_mcp.Manager.Calls.{
  start, started_with, schedule_each, stop_begin, stop_end, stop_all,
}
use ai_worker_bridge_mcp.Manager.Touches.{Keeps, phase, phase_of, phase_of_row}
use ai_worker_bridge_mcp.TaskState.Lifecycle.{Lives, Lives-same, Lives-trans, onward, move, restart}
use ai_worker_bridge_mcp.Manager.Steps.{Waits, IsCoherent, IsSafe, SameTasks-IsSafe, SameTasks-refl}
use ai_worker_bridge_mcp.Manager.Steps.Schedules.{Scheduled, schedule_each-Scheduled}

pub no_run :
    {id : String} {task : TaskRecord} {m : TaskManager}
    → m.background ≡ []
    → Waits id (sleeping task) m
    → ⊥
unfolding lookup_run
no_run e w = ground (arith, w.found)

not_recoverable : (s : TaskState) → is_terminal s ≡ true → mem_state s recoverable_states ≡ false
not_recoverable completed h = refl
not_recoverable failed h = refl
not_recoverable cancelled h = refl
not_recoverable timed_out h = refl
not_recoverable pending h = absurd (cc)
not_recoverable running h = absurd (cc)
not_recoverable recovering h = absurd (cc)
not_recoverable retrying h = absurd (cc)

-- The state that `start` leaves, before its list is scheduled.
unfoldable pub marked_started : Table → TaskManager → TaskManager
marked_started rows m = record m { started = true; store = rows }

pub marked_store : (rows : Table) (m : TaskManager) → (marked_started rows m).store ≡ rows
unfolding marked_started
marked_store rows m = refl

pub start_step :
    (now : ℕ → String) (m : TaskManager) {rows : Table} {tasks : List TaskRecord}
    → m.started ≡ false
    → mark_recovering now m.store ≡ ok (rows, tasks)
    → (start now m).1 ≡ schedule_each tasks (marked_started rows m)
unfolding start marked_started
start_step now m h e = rw h (rw e (unfold started_with in refl))

start_again : (now : ℕ → String) (m : TaskManager) → m.started ≡ true → (start now m).1 ≡ m
unfolding start
start_again now m h = rw h refl

Scheduled-IsCoherent :
    (rows : Table) (m n : TaskManager)
    → m.background ≡ []
    → IsValid rows
    → Scheduled (marked_started rows m) n
    → IsCoherent n
unfolding marked_started
Scheduled-IsCoherent rows m n none_yet v s = record {
  valid = rw s.store v;
  current = λ id task w. absurd (no_run none_yet (s.waits id task w));
  idle = λ h. absurd (false≢true (sym h ∙ s.started));
}

Recovered-Keeps :
    {rows : Table} {out : Result Exception (Table × List TaskRecord)} (r : Recovered rows out)
    → Keeps rows r.after
Recovered-Keeps r j t e h = r.finished j t e (not_recoverable t.state h)

-- The restart of a row that is not in a terminal state.
marked-Lives :
    (s : TaskState) {p q : Option TaskState}
    → mem_state s recoverable_states ≡ true
    → p ≡ some s
    → q ≡ some (if state_eq s pending then s else recovering)
    → Lives p q
marked-Lives pending h e f = Lives-trans (Lives-same e) (Lives-same (sym f))
marked-Lives recovering h e f = Lives-trans (Lives-same e) (Lives-same (sym f))
marked-Lives running h e f =
    Lives-trans
      (onward (Lives-same e)
        (move {a = running} {b = recovering} (unfold allowed_transitions in refl)))
      (Lives-same (sym f))
marked-Lives retrying h e f = Lives-trans (onward (Lives-same e) restart) (Lives-same (sym f))
marked-Lives completed h e f = absurd (cc)
marked-Lives failed h e f = absurd (cc)
marked-Lives cancelled h e f = absurd (cc)
marked-Lives timed_out h e f = absurd (cc)

marked_phase :
    (t : TaskRecord) {o : Option TaskRecord}
    → WasMarked t o
    → phase_of o ≡ some (if state_eq t.state pending then t.state else recovering)
marked_phase t (stamp, e) = elim (Bool-cases (state_eq t.state pending)) [
  | inl h ↦ rw e (rw h (unfold phase_of in refl))
  | inr h ↦ rw e (rw h (unfold phase_of in refl))
]

Recovered-Lives :
    {rows : Table} {out : Result Exception (Table × List TaskRecord)} (r : Recovered rows out)
    (j : String)
    → Lives (phase j rows) (phase j r.after)
Recovered-Lives {rows} r j = elim (Option-cases (get j rows)) [
  | inl e ↦ Lives-same (ap phase_of (e ∙ sym (r.absent j e)))
  | inr (t, e) ↦ elim (Bool-cases (mem_state t.state recoverable_states)) [
    | inl h ↦ marked-Lives t.state h (phase_of_row e) (marked_phase t (r.interrupted j t e h))
    | inr h ↦ Lives-same (ap phase_of (e ∙ sym (r.finished j t e h)))
  ]
]

started_IsSafe : (now : ℕ → String) (m : TaskManager) → m.started ≡ false → IsSafe m (start now m).1
started_IsSafe now m h = record {
  coherent = λ c.
      let r = mark_recovering-Recovered now m.store c.valid in
      subst IsCoherent (sym (start_step now m h r.done)) (
        Scheduled-IsCoherent r.after m _ (c.idle h) r.valid
          (schedule_each-Scheduled r.updated (marked_started r.after m)));
  keeps = λ c.
      let r = mark_recovering-Recovered now m.store c.valid in
      let s = schedule_each-Scheduled r.updated (marked_started r.after m) in
      subst (λ (n : TaskManager). Keeps m.store n.store) (sym (start_step now m h r.done))
        (subst (Keeps m.store) (sym (s.store ∙ marked_store r.after m)) (Recovered-Keeps r));
  lives = λ c j.
      let r = mark_recovering-Recovered now m.store c.valid in
      let s = schedule_each-Scheduled r.updated (marked_started r.after m) in
      subst (λ (n : TaskManager). Lives (phase j m.store) (phase j n.store))
        (sym (start_step now m h r.done))
        (subst (λ rows. Lives (phase j m.store) (phase j rows))
          (sym (s.store ∙ marked_store r.after m)) (Recovered-Lives r j));
}

pub start-IsSafe : (now : ℕ → String) (m : TaskManager) → IsSafe m (start now m).1
start-IsSafe now m = elim (Bool-cases m.started) [
  | inl h ↦ subst (IsSafe m) (sym (start_again now m h)) (SameTasks-IsSafe (SameTasks-refl m))
  | inr h ↦ started_IsSafe now m h
]

stopped_run :
    (id : String) (rs : Runs) {run : Run}
    → lookup_run id (stop_all rs) ≡ some run
    → run.cancelling ≡ true
unfolding stop_all lookup_run
stopped_run id [] e = cc
stopped_run id (r ∷ rs) {run} e = ground (arith, stopped_run id rs {run = run})

pub stop_begin-IsSafe : (m : TaskManager) → IsSafe m (stop_begin m)
stop_begin-IsSafe m = record {
  coherent = λ c. record {
    valid = unfold stop_begin in c.valid;
    current =
        λ id task w. absurd (false≢true (sym w.going ∙ stopped_run id m.background (found w)));
    idle = λ h.
        unfold stop_begin in
        (ap stop_all (c.idle (unfold stop_begin in h)) ∙ unfold stop_all in refl);
  };
  keeps = λ c j t e h. unfold stop_begin in e;
  lives = λ c j. Lives-same (unfold stop_begin in refl);
}
  where
    found :
        {id : String} {task : TaskRecord} (w : Waits id (sleeping task) (stop_begin m))
        → lookup_run id (stop_all m.background) ≡ some w.run
    found w = unfold stop_begin in w.found

background-stop_end : (m : TaskManager) → (stop_end m).background ≡ []
unfolding stop_end
background-stop_end m = refl

pub stop_end-IsSafe : (m : TaskManager) → IsSafe m (stop_end m)
stop_end-IsSafe m = record {
  coherent = λ c. record {
    valid = unfold stop_end in c.valid;
    current = λ id task w. absurd (no_run (background-stop_end m) w);
    idle = λ h. unfold stop_end in refl;
  };
  keeps = λ c j t e h. unfold stop_end in e;
  lives = λ c j. Lives-same (unfold stop_end in refl);
}
