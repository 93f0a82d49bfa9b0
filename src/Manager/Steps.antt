-- ===== src/Manager/Steps.antt =====
-- manager.py: the interleavings of a manager's methods and of its coroutines. Between two steps every
-- coroutine waits, and the event loop takes any step that is possible. A coroutine that `cancel()` was
-- called on goes on with CancelledError and in no other way. Calls are accepted while the manager
-- is started, the id of a new task is fresh, and `stop` ends when every coroutine has ended.
pub mod Runs
pub mod Cancels
pub mod Schedules
pub mod Submits
pub mod Restarts
pub mod Due
pub mod Safety
pub mod Progress
use ai_worker_bridge_mcp.Base.{
  ℕ, String, ◌≡◌, ◌∙◌, refl, sym, ap, subst, Bool, true, false, Option, none, some, [], ◌⊎◌, inl,
  inr, false≢true, Bool-cases, eq_iff, arith,
}
use ai_worker_bridge_mcp.Base.Exec.{Result}
use ai_worker_bridge_mcp.Exceptions.{Exception}
use ai_worker_bridge_mcp.Json.{Json}
use ai_worker_bridge_mcp.Config.{RecoveryConfig, LimitsConfig}
use ai_worker_bridge_mcp.Permissions.{World}
use ai_worker_bridge_mcp.Registry.{Registry}
use ai_worker_bridge_mcp.TaskState.{TaskRecord, is_terminal}
use ai_worker_bridge_mcp.Store.{Table, get}
use ai_worker_bridge_mcp.Store.Unique.{IsValid}
use ai_worker_bridge_mcp.Manager.{TaskManager}
use ai_worker_bridge_mcp.Manager.Background.{Stage, created, sleeping, calling, Run, lookup_run}
use ai_worker_bridge_mcp.Manager.Execution.{begin, wake, finish, interrupt}
use ai_worker_bridge_mcp.Manager.Calls.{CallRequest, call, cancel, start, stop_begin, stop_end}
use ai_worker_bridge_mcp.Manager.Touches.{IsOpen, Keeps, Rewrites, SameTasks, phase, phase_of}
use ai_worker_bridge_mcp.TaskState.Lifecycle.{Lives, Lives-same, Lives-trans}
use text.Mathlib.Text.{◌==◌ as str_eq}

-- The coroutine of the task `id` waits at the stage `stage`, and was not cancelled.
pub record Waits (id : String) (stage : Stage) (m : TaskManager) : Type 0 where
  pub run : Run
  pub found : lookup_run id m.background ≡ some run
  pub at : run.stage ≡ stage
  pub going : run.cancelling ≡ false

pub data Step (world : World) (m n : TaskManager) : Type 0 where
  submits :
      (hex now : String) (outcome : Result Exception Json) (req : CallRequest)
      → m.started ≡ true
      → get hex m.store ≡ none
      → n ≡ (call world hex now outcome req m).1
      → Step world m n
  cancels : (now id : String) → n ≡ (cancel now id m).1 → Step world m n
  begins :
      (now : ℕ → String) (hex id : String)
      → Waits id created m
      → n ≡ begin world now hex id m
      → Step world m n
  wakes :
      (now : ℕ → String) (hex id : String) (task : TaskRecord)
      → Waits id (sleeping task) m
      → n ≡ wake world now hex id task m
      → Step world m n
  finishes :
      (now id : String) (outcome : Result Exception Json) (task : TaskRecord) (recovery : Bool)
      → Waits id (calling task recovery) m
      → n ≡ finish now id outcome m
      → Step world m n
  interrupts :
      (now id : String) (run : Run)
      → lookup_run id m.background ≡ some run
      → run.cancelling ≡ true
      → n ≡ interrupt now id run.stage m
      → Step world m n
  starts : (now : ℕ → String) → n ≡ (start now m).1 → Step world m n
  stops : n ≡ stop_begin m → Step world m n
  stopped : m.background ≡ [] → n ≡ stop_end m → Step world m n
  reconfigures :
      (workers : Registry) (recovery : RecoveryConfig) (limits : LimitsConfig)
      → n ≡ record m { workers = workers; recovery = recovery; limits = limits }
      → Step world m n

pub data Reach (world : World) (m : TaskManager) : TaskManager → Type 0 where
  here : Reach world m m
  next : {n o : TaskManager} → Reach world m n → Step world n o → Reach world m o

-- What a sleeping coroutine's local task must be: open, and in the state of its row.
pub record IsCurrent (id : String) (task : TaskRecord) (rows : Table) : Type 0 where
  pub own : task.task_id ≡ id
  pub unfinished : is_terminal task.state ≡ false
  pub row : IsOpen id rows
  pub at : phase id rows ≡ some task.state

-- Both keys are unique; a sleeping coroutine that was not cancelled holds a task of its own id that is
-- open, as is the task's row, in the task's state; and a manager that is not started has no coroutine.
pub record IsCoherent (m : TaskManager) : Type 0 where
  pub valid : IsValid m.store
  pub current :
      (id : String) (task : TaskRecord) → Waits id (sleeping task) m → IsCurrent id task m.store
  pub idle : m.started ≡ false → m.background ≡ []

-- What a step for the task `id` does.
pub record Effect (id : String) (m n : TaskManager) : Type 0 where
  pub rows : Rewrites id m.store n.store
  pub runs :
      (j : String) → str_eq id j ≡ false → lookup_run j n.background ≡ lookup_run j m.background
  pub own : (task : TaskRecord) → Waits id (sleeping task) n → IsCurrent id task n.store
  pub idle : (m.started ≡ false → m.background ≡ []) → n.started ≡ false → n.background ≡ []

pub IsCurrent-others :
    {j : String} {task : TaskRecord} {rows after : Table}
    → get j after ≡ get j rows
    → IsCurrent j task rows
    → IsCurrent j task after
IsCurrent-others same c = record {
  own = c.own;
  unfinished = c.unfinished;
  row = λ t e. c.row t (sym same ∙ e);
  at = ap phase_of same ∙ c.at;
}

pub Waits-others :
    {j : String} {stage : Stage} {m n : TaskManager}
    → lookup_run j n.background ≡ lookup_run j m.background
    → Waits j stage n
    → Waits j stage m
Waits-others same w = record { run = w.run; found = sym same ∙ w.found; at = w.at; going = w.going }

pub Effect-IsCoherent :
    {id : String} {m n : TaskManager} → IsCoherent m → Effect id m n → IsCoherent n
Effect-IsCoherent {id} {m} {n} c e = record {
  valid = e.rows.valid c.valid;
  current = λ j task w. current_at j task w (Bool-cases (str_eq id j));
  idle = e.idle c.idle;
}
  where
    current_at :
        (j : String) (task : TaskRecord)
        → Waits j (sleeping task) n
        → (str_eq id j ≡ true) ⊎ (str_eq id j ≡ false)
        → IsCurrent j task n.store
    current_at j task w (inl same) =
        let e' : id ≡ j = (eq_iff id j).0 same in
        subst (λ i. IsCurrent i task n.store) e'
          (e.own task (subst (λ i. Waits i (sleeping task) n) (sym e') w))
    current_at j task w (inr other) =
        IsCurrent-others (e.rows.others j other)
          (c.current j task (Waits-others (e.runs j other) w))

-- A step that keeps the state coherent and every terminal row, and moves every task along its
-- lifecycle.
pub record IsSafe (m n : TaskManager) : Type 0 where
  pub coherent : IsCoherent m → IsCoherent n
  pub keeps : IsCoherent m → Keeps m.store n.store
  pub lives : IsCoherent m → (j : String) → Lives (phase j m.store) (phase j n.store)

Rewrites-Lives :
    {id : String} {rows after : Table}
    → Rewrites id rows after
    → (j : String) → Lives (phase j rows) (phase j after)
Rewrites-Lives {id} {rows} {after} f j = elim (Bool-cases (str_eq id j)) [
  | inl same ↦ subst (λ i. Lives (phase i rows) (phase i after)) ((eq_iff id j).0 same) f.lives
  | inr other ↦ Lives-same (ap phase_of (sym (f.others j other)))
]

pub Effect-IsSafe : {id : String} {m n : TaskManager} → Effect id m n → IsSafe m n
Effect-IsSafe e = record {
  coherent = λ c. Effect-IsCoherent c e;
  keeps = λ c. e.rows.keeps;
  lives = λ c. Rewrites-Lives e.rows;
}

-- A step that leaves the rows, the coroutines and `_started` alone.
pub SameTasks-IsSafe : {m n : TaskManager} → SameTasks m n → IsSafe m n
SameTasks-IsSafe {m} {n} s = record {
  coherent = λ c. record {
    valid = rw s.store c.valid;
    current = λ id task w.
        IsCurrent-others (ap (get id) s.store)
          (c.current id task (Waits-others (ap (lookup_run id) s.background) w));
    idle = λ h. s.background ∙ c.idle (sym s.started ∙ h);
  };
  keeps = λ c j t e h. ap (get j) s.store ∙ e;
  lives = λ c j. Lives-same (ap (phase j) (sym s.store));
}

pub SameTasks-refl : (m : TaskManager) → SameTasks m m
SameTasks-refl m = record { store = refl; background = refl; started = refl }

pub IsSafe-trans : {a b c : TaskManager} → IsSafe a b → IsSafe b c → IsSafe a c
IsSafe-trans f g = record {
  coherent = λ h. g.coherent (f.coherent h);
  keeps = λ h j t e x. g.keeps (f.coherent h) j t (f.keeps h j t e x) x;
  lives = λ h j. Lives-trans (f.lives h j) (g.lives (f.coherent h) j);
}
