-- ===== src/TaskState.antt =====
-- task_state.py: the states of a task, the transitions between them, and the task record.
-- Each reading of `utc_now` and each fresh `uuid4().hex` is an argument.
pub mod Transitions
pub mod Lifecycle
use ai_worker_bridge_mcp.Base.{
  ℕ, ◌+◌, String, ◌==◌, Bool, true, false, ◌&&◌, not, Option, none, some, List, [], ◌∷◌, ◌++◌, any,
  is_some, if◌then◌else◌,
}
use ai_worker_bridge_mcp.Base.Text.{Text, codes}
use ai_worker_bridge_mcp.Base.Exec.{Result, ok, err}
use ai_worker_bridge_mcp.Exceptions.{Exception, invalid_transition}
use ai_worker_bridge_mcp.Json.{Json}
use text.Mathlib.Text.{◌==◌ as str_eq}

pub data TaskState : Type 0 where
  pending running completed failed cancelled timed_out recovering retrying : TaskState

abbrev pub ordinal : TaskState → ℕ
ordinal pending = 0
ordinal running = 1
ordinal completed = 2
ordinal failed = 3
ordinal cancelled = 4
ordinal timed_out = 5
ordinal recovering = 6
ordinal retrying = 7

-- `s == t`
abbrev pub state_eq : TaskState → TaskState → Bool
state_eq s t = ordinal s == ordinal t

-- `s in states`
abbrev pub mem_state : TaskState → List TaskState → Bool
mem_state s states = any (λ t. state_eq s t) states

-- The string that the enum member is.
unfoldable pub value : TaskState → String
value pending = "Pending"
value running = "Running"
value completed = "Completed"
value failed = "Failed"
value cancelled = "Cancelled"
value timed_out = "TimedOut"
value recovering = "Recovering"
value retrying = "Retrying"

abbrev pub terminal_states : List TaskState
terminal_states = completed ∷ failed ∷ cancelled ∷ timed_out ∷ []

abbrev pub active_states : List TaskState
active_states = running ∷ retrying ∷ []

abbrev pub queued_states : List TaskState
queued_states = pending ∷ recovering ∷ []

abbrev pub is_terminal : TaskState → Bool
is_terminal s = mem_state s terminal_states

unfoldable pub allowed_transitions : TaskState → List TaskState
allowed_transitions pending = running ∷ cancelled ∷ recovering ∷ []
allowed_transitions recovering = pending ∷ running ∷ failed ∷ cancelled ∷ []
allowed_transitions retrying = running ∷ failed ∷ cancelled ∷ []
allowed_transitions running =
    completed ∷ failed ∷ cancelled ∷ timed_out ∷ retrying ∷ recovering ∷ []
allowed_transitions _ = []

pub record TaskRecord : Type 0 where
  pub task_id : String
  pub worker_id : String
  pub prompt : Text
  pub working_directory : Option Text
  pub idempotency_key : Option String
  pub dispatch_attempt_id : Option String
  pub attempt_count : ℕ
  pub state : TaskState
  pub result : Option Json
  pub error : Option Text
  pub created_at : String
  pub updated_at : String
  pub started_at : Option String
  pub completed_at : Option String
  pub timeout_millis : ℕ

-- `new if new is not None else old`
abbrev pub or_else {ℓ} : {A : Type ℓ} → Option A → Option A → Option A
or_else none old = old
or_else (some a) old = some a

-- The clone that `transition` returns when the guard passes.
unfoldable pub moved : String → TaskRecord → TaskState → Option Text → Option Json → TaskRecord
moved now task target error result = record task {
  state = target;
  updated_at = now;
  started_at =
      if state_eq target running && not (is_some task.started_at)
      then some now
      else task.started_at;
  completed_at = if is_terminal target then some now else task.completed_at;
  error = or_else error task.error;
  result = or_else result task.result;
}

unfoldable pub transition :
    String → TaskRecord → TaskState → Option Text → Option Json → Result Exception TaskRecord
unfolding allowed_transitions
transition now task target error result =
    if mem_state target (allowed_transitions task.state)
    then ok (moved now task target error result)
    else err (invalid_transition (value task.state) (value target))

unfoldable pub next_attempt : String → String → TaskRecord → TaskRecord
next_attempt now hex task = record task {
  dispatch_attempt_id = some hex;
  attempt_count = task.attempt_count + 1;
  updated_at = now;
}

-- `TaskRecord(...)` with the defaults of the other fields.
unfoldable pub new_task :
    String → String → String → Text → Option String → ℕ → Option Text → TaskRecord
new_task hex now worker_id prompt key timeout directory = record {
  task_id = hex;
  worker_id = worker_id;
  prompt = prompt;
  working_directory = directory;
  idempotency_key = key;
  dispatch_attempt_id = none;
  attempt_count = 0;
  state = pending;
  result = none;
  error = none;
  created_at = now;
  updated_at = now;
  started_at = none;
  completed_at = none;
  timeout_millis = timeout;
}

find_state : String → List TaskState → Option TaskState
unfolding value
find_state text [] = none
find_state text (s ∷ states) = if str_eq (value s) text then some s else find_state text states

-- `TaskState(text)`, `none` where it raises ValueError.
unfoldable pub state_of : String → Option TaskState
unfolding find_state
state_of text =
    find_state text
      (pending ∷ running ∷ completed ∷ failed ∷ cancelled ∷ timed_out ∷ recovering ∷ retrying ∷ [])
