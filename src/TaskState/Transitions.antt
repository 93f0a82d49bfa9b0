-- ===== src/TaskState/Transitions.antt =====
-- What `transition` and `next_attempt` of task_state.py guarantee.
use ai_worker_bridge_mcp.Base.{
  String, ◌≡◌, ◌∙◌, refl, subst, Bool-cases, inl, inr, true, false, not, Option, none, some, arith,
  if◌then◌else◌, is_some,
}
use ai_worker_bridge_mcp.Base.Text.{Text}
use ai_worker_bridge_mcp.Base.Exec.{ok, err}
use ai_worker_bridge_mcp.Exceptions.{invalid_transition}
use ai_worker_bridge_mcp.Json.{Json}
use ai_worker_bridge_mcp.TaskState.{
  TaskState, pending, running, completed, failed, cancelled, timed_out, recovering, retrying, value,
  state_of, state_eq, mem_state, is_terminal, allowed_transitions, TaskRecord, transition, moved,
}

-- A state is recoverable from its text: no two states share one.
pub state_of-value : (s : TaskState) → state_of (value s) ≡ some s
unfolding state_of value
state_of-value pending = refl
state_of-value _ = refl

cancelled_allowed :
    (s : TaskState) → mem_state cancelled (allowed_transitions s) ≡ not (is_terminal s)
unfolding allowed_transitions
cancelled_allowed pending = refl
cancelled_allowed _ = refl

-- Cancelling is allowed from exactly the states that are not terminal.
pub transition_to_cancelled :
    (now : String) (task : TaskRecord) (error : Option Text) (result : Option Json)
    → transition now task cancelled error result ≡ (
        if is_terminal task.state
        then err (invalid_transition (value task.state) (value cancelled))
        else ok (moved now task cancelled error result))
unfolding transition
transition_to_cancelled now task error result = ground (arith, cancelled_allowed task.state)

-- `completed_at` is set on the terminal states only, and on all of them; `started_at` is set once the
-- task runs.
pub record IsStamped (task : TaskRecord) : Type 0 where
  pub completed_iff : is_some task.completed_at ≡ is_terminal task.state
  pub started_if : state_eq task.state running ≡ true → is_some task.started_at ≡ true

open_source :
    (s target : TaskState) → mem_state target (allowed_transitions s) ≡ true → is_terminal s ≡ false
unfolding allowed_transitions
open_source pending target h = refl
open_source running target h = refl
open_source recovering target h = refl
open_source retrying target h = refl
open_source completed target h = absurd (cc)
open_source failed target h = absurd (cc)
open_source cancelled target h = absurd (cc)
open_source timed_out target h = absurd (cc)

moved-IsStamped :
    (now : String) (task : TaskRecord) (target : TaskState) (error : Option Text)
    (result : Option Json)
    → IsStamped task
    → is_terminal task.state ≡ false
    → IsStamped (moved now task target error result)
unfolding moved
moved-IsStamped now task target error result s h = record {
  completed_iff = elim (Bool-cases (is_terminal target)) [
    | inl e ↦ rw e
    | inr e ↦ rw e (s.completed_iff ∙ h)
  ];
  started_if = λ r. rw r (is_started task.started_at);
}
  where
    is_started : (o : Option String) → is_some (if not (is_some o) then some now else o) ≡ true
    is_started none = refl
    is_started (some at) = refl

-- A transition that is accepted keeps `completed_at` set exactly on the terminal states, and
-- `started_at` set on a running task.
pub transition-IsStamped :
    (now : String) (task : TaskRecord) (target : TaskState) (error : Option Text)
    (result : Option Json) {after : TaskRecord}
    → IsStamped task
    → transition now task target error result ≡ ok after
    → IsStamped after
transition-IsStamped now task target error result {after} s e =
    elim (Bool-cases (mem_state target (allowed_transitions task.state))) [
      | inl h ↦
          subst IsStamped (accepted h)
            (moved-IsStamped now task target error result s (open_source task.state target h))
      | inr h ↦ absurd (refused h)
    ]
  where
    accepted :
        mem_state target (allowed_transitions task.state) ≡ true
        → moved now task target error result ≡ after
    accepted h = unfold transition in ground arith

    refused : mem_state target (allowed_transitions task.state) ≡ false → ⊥
    refused h = unfold transition in ground arith
