-- ===== src/Manager/Steps/Safety.antt =====
-- manager.py: what holds of a manager whatever the order of its steps.
use ai_worker_bridge_mcp.Base.{◌≡◌, String, refl, sym, subst, []}
use ai_worker_bridge_mcp.Permissions.{World}
use ai_worker_bridge_mcp.Store.Unique.{IsValid}
use ai_worker_bridge_mcp.Manager.{TaskManager}
use ai_worker_bridge_mcp.Manager.Touches.{Keeps, phase}
use ai_worker_bridge_mcp.TaskState.Lifecycle.{Lives, stays, Lives-trans}
use ai_worker_bridge_mcp.Manager.Steps.{
  Step, submits, cancels, begins, wakes, finishes, interrupts, starts, stops, stopped, reconfigures,
  Reach, here, next, IsCoherent, IsSafe, Effect-IsSafe, SameTasks-IsSafe,
}
use ai_worker_bridge_mcp.Manager.Steps.Runs.{
  begin-Effect, wake-Effect, finish-Effect, interrupt-Effect,
}
use ai_worker_bridge_mcp.Manager.Steps.Cancels.{cancel-IsSafe}
use ai_worker_bridge_mcp.Manager.Steps.Submits.{call-IsSafe}
use ai_worker_bridge_mcp.Manager.Steps.Restarts.{
  no_run, start-IsSafe, stop_begin-IsSafe, stop_end-IsSafe,
}

reached : {m n k : TaskManager} → n ≡ k → IsSafe m k → IsSafe m n
reached {m} e s = subst (IsSafe m) (sym e) s

-- A sleeping coroutine's step is safe where the state is coherent.
if_coherent : (m : TaskManager) {n : TaskManager} → (IsCoherent m → IsSafe m n) → IsSafe m n
if_coherent m f = record {
  coherent = λ c. (f c).coherent c;
  keeps = λ c. (f c).keeps c;
  lives = λ c. (f c).lives c;
}

pub Step-IsSafe : (world : World) {m n : TaskManager} → Step world m n → IsSafe m n
Step-IsSafe world {m} (submits hex now outcome req on fresh e) =
    reached e (call-IsSafe world hex now outcome req m on fresh)
Step-IsSafe world {m} (cancels now id e) = reached e (cancel-IsSafe now id m)
Step-IsSafe world {m} (begins now hex id w e) =
    reached e (Effect-IsSafe (begin-Effect world now hex id w.found))
Step-IsSafe world {m} (wakes now hex id task w e) = reached e (
    if_coherent m
      λ c. Effect-IsSafe (wake-Effect world now hex id task w.found (c.current id task w)))
Step-IsSafe world {m} (finishes now id outcome task recovery w e) =
    reached e (Effect-IsSafe (finish-Effect now id outcome m))
Step-IsSafe world {m} (interrupts now id run found gone e) =
    reached e (Effect-IsSafe (interrupt-Effect now id run.stage m))
Step-IsSafe world {m} (starts now e) = reached e (start-IsSafe now m)
Step-IsSafe world {m} (stops e) = reached e (stop_begin-IsSafe m)
Step-IsSafe world {m} (stopped none_left e) = reached e (stop_end-IsSafe m)
Step-IsSafe world {m} (reconfigures workers recovery limits e) =
    reached e (SameTasks-IsSafe (record { store = refl; background = refl; started = refl }))

-- From a coherent state, any sequence of steps keeps the state coherent: the keys stay unique, and a
-- sleeping coroutine that was not cancelled holds a task of its own id that is open.
pub Reach-IsCoherent :
    (world : World) {m n : TaskManager} → IsCoherent m → Reach world m n → IsCoherent n
Reach-IsCoherent world c here = c
Reach-IsCoherent world c (next r s) = (Step-IsSafe world s).coherent (Reach-IsCoherent world c r)

-- From a coherent state, no sequence of steps changes a row that is in a terminal state: the outcome
-- of a task that has ended is final, whatever calls, cancels, failures and restarts follow.
pub Reach-Keeps :
    (world : World) {m n : TaskManager} → IsCoherent m → Reach world m n → Keeps m.store n.store
Reach-Keeps world c here j t e h = e
Reach-Keeps world c (next r s) j t e h =
    (Step-IsSafe world s).keeps (Reach-IsCoherent world c r) j t (Reach-Keeps world c r j t e h) h

-- The manager refines the lifecycle of a task: from a coherent state, whatever sequence of calls,
-- cancels, coroutine steps, stops and restarts follows, the state of every task, or its absence, goes
-- through submissions, transitions that ALLOWED_TRANSITIONS has, and restarts of a retrying task only.
pub Reach-Lives :
    (world : World) {m n : TaskManager}
    → IsCoherent m
    → Reach world m n
    → (id : String) → Lives (phase id m.store) (phase id n.store)
Reach-Lives world c here id = stays
Reach-Lives world c (next r s) id =
    Lives-trans (Reach-Lives world c r id)
      ((Step-IsSafe world s).lives (Reach-IsCoherent world c r) id)

-- A manager that has not begun any coroutine is coherent, if its table's keys are unique.
pub idle-IsCoherent : (m : TaskManager) → IsValid m.store → m.background ≡ [] → IsCoherent m
idle-IsCoherent m v e = record {
  valid = v;
  current = λ id task w. absurd (no_run e w);
  idle = λ h. e;
}
