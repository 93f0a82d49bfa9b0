-- ===== src/TaskState/Lifecycle.antt =====
-- The lifecycle of a task, as task_state.py and the restart of store.py give it: the abstract view of
-- a row, which is the task's state, if there is a row.
use ai_worker_bridge_mcp.Base.{
  ◌≡◌, ◌∙◌, refl, sym, ap, subst, true, false, false≢true, Option, none, some,
}
use ai_worker_bridge_mcp.TaskState.{
  TaskState, pending, running, completed, failed, cancelled, timed_out, retrying, recovering,
  mem_state, is_terminal, allowed_transitions,
}
use mathlib.Core.Option.{some-injective}

-- One step: a submission, a transition that the table allows, or a restart, which moves a retrying
-- task to Recovering although the table has no such transition.
pub data Life : Option TaskState → Option TaskState → Type 0 where
  submission : Life none (some pending)
  move : {a b : TaskState} → mem_state b (allowed_transitions a) ≡ true → Life (some a) (some b)
  restart : Life (some retrying) (some recovering)

-- Any number of steps.
pub data Lives (p : Option TaskState) : Option TaskState → Type 0 where
  stays : Lives p p
  onward : {q r : Option TaskState} → Lives p q → Life q r → Lives p r

pub Lives-trans : {p q r : Option TaskState} → Lives p q → Lives q r → Lives p r
Lives-trans f stays = f
Lives-trans f (onward g s) = onward (Lives-trans f g) s

pub Lives-same : {p q : Option TaskState} → p ≡ q → Lives p q
Lives-same {p} e = subst (Lives p) e stays

no_move : (a b : TaskState) → is_terminal a ≡ true → mem_state b (allowed_transitions a) ≡ false
unfolding allowed_transitions
no_move completed b h = refl
no_move failed b h = refl
no_move cancelled b h = refl
no_move timed_out b h = refl
no_move pending b h = absurd (cc)
no_move running b h = absurd (cc)
no_move retrying b h = absurd (cc)
no_move recovering b h = absurd (cc)

Life-ended :
    {p q : Option TaskState} (a : TaskState) → Life p q → p ≡ some a → is_terminal a ≡ true → ⊥
Life-ended a submission e h = cc
Life-ended a (move {a = b} {b = c} allowed) e h =
    let same : b ≡ a = some-injective b a e in
    false≢true (sym (no_move b c (ap is_terminal same ∙ h)) ∙ allowed)
Life-ended a restart e h =
    let same : retrying ≡ a = some-injective retrying a e in false≢true (ap is_terminal same ∙ h)

-- No step leads out of a terminal state.
pub Lives-ended :
    {p q : Option TaskState} (a : TaskState)
    → Lives p q
    → p ≡ some a
    → is_terminal a ≡ true
    → q ≡ some a
Lives-ended a stays e h = e
Lives-ended a (onward f s) e h = absurd (Life-ended a s (Lives-ended a f e h) h)
