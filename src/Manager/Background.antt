-- ===== src/Manager/Background.antt =====
-- manager.py, `_background`: the coroutines of `_run_task` that have not ended, by task id. A
-- coroutine that ends leaves the dict at once.
use ai_worker_bridge_mcp.Base.{
  String, Bool, true, false, Option, none, some, List, [], ◌∷◌, ◌≡◌, arith, eq_iff, refl,
  if◌then◌else◌,
}
use ai_worker_bridge_mcp.TaskState.{TaskRecord}
use text.Mathlib.Text.{◌==◌ as str_eq}

-- Where a coroutine of `_run_task` waits, with its local variable `task`: before its first step, in
-- `asyncio.sleep`, or in the worker's call, where `recovery_attempt` is set too.
pub data Stage : Type 0 where
  created : Stage
  sleeping : TaskRecord → Stage
  calling : TaskRecord → Bool → Stage

pub record Run : Type 0 where
  pub task_id : String
  pub stage : Stage
  -- `cancel()` was called: CancelledError is raised where it waits.
  pub cancelling : Bool

abbrev pub Runs : Type 0
Runs = List Run

unfoldable pub lookup_run : String → Runs → Option Run
lookup_run task_id [] = none
lookup_run task_id (r ∷ rs) = if str_eq r.task_id task_id then some r else lookup_run task_id rs

unfoldable pub drop_run : String → Runs → Runs
drop_run task_id [] = []
drop_run task_id (r ∷ rs) =
    let rest = drop_run task_id rs in if str_eq r.task_id task_id then rest else r ∷ rest

unfoldable pub put_run : Run → Runs → Runs
unfolding drop_run
put_run run rs = run ∷ drop_run run.task_id rs

-- `bg.cancel()`, if there is such a coroutine.
unfoldable pub request_cancel : String → Runs → Runs
request_cancel task_id [] = []
request_cancel task_id (r ∷ rs) =
    (if str_eq r.task_id task_id then record r { cancelling = true } else r)
    ∷ request_cancel task_id rs

pub lookup-drop :
    (i j : String) (rs : Runs)
    → lookup_run j (drop_run i rs) ≡ (if str_eq i j then none else lookup_run j rs)
unfolding lookup_run drop_run
lookup-drop i j [] = ground arith
lookup-drop i j (r ∷ rs) =
    ground (arith, lookup-drop i j rs, eq_iff r.task_id i, eq_iff r.task_id j, eq_iff i j)

pub lookup-put :
    (run : Run) (j : String) (rs : Runs)
    → lookup_run j (put_run run rs) ≡ (if str_eq run.task_id j then some run else lookup_run j rs)
unfolding lookup_run put_run
lookup-put run j rs = ground (arith, lookup-drop run.task_id j rs)

-- The cancelled form of a coroutine.
abbrev pub with_cancel : Bool → Option Run → Option Run
with_cancel now none = none
with_cancel true (some r) = some (record r { cancelling = true })
with_cancel false (some r) = some r

pub lookup-request :
    (i j : String) (rs : Runs)
    → lookup_run j (request_cancel i rs) ≡ with_cancel (str_eq i j) (lookup_run j rs)
unfolding lookup_run request_cancel
lookup-request i j [] = refl
lookup-request i j (r ∷ rs) =
    ground (arith, lookup-request i j rs, eq_iff r.task_id i, eq_iff r.task_id j, eq_iff i j)
