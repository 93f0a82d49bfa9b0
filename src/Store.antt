-- ===== src/Store.antt =====
-- store.py: the durable table of tasks, and the statements that read and write it.
-- A row is held as the record that it decodes to; Store/Rows.antt has the columns themselves. An
-- operation that raises leaves the table as it was.
pub mod Rows
pub mod Unique
pub mod Reads
pub mod Rewrites
pub mod Selection
pub mod Recovering
pub mod Fresh
pub mod Schema
pub mod Migrated
use ai_worker_bridge_mcp.Base.{
  ℕ, zero, suc, ◌+◌, String, Bool, true, false, ◌&&◌, ◌||◌, not, Option, none, some, List, [], ◌∷◌,
  ◌++◌, any, select, count, if◌then◌else◌,
}
use ai_worker_bridge_mcp.Base.Exec.{Result, ok, err}
use ai_worker_bridge_mcp.Exceptions.{Exception, integrity_error}
use ai_worker_bridge_mcp.TaskState.{
  TaskState, pending, running, retrying, recovering, state_eq, mem_state, TaskRecord,
}
use text.Mathlib.Text.{◌==◌ as str_eq}

abbrev pub Table : Type 0
Table = List TaskRecord

-- `a = b` in SQL: no NULL equals another.
unfoldable pub key_eq : Option String → Option String → Bool
key_eq (some k) (some j) = str_eq k j
key_eq _ _ = false

-- `idempotency_key TEXT UNIQUE`, against the rows other than the task's own.
unfoldable pub holds_key : TaskRecord → TaskRecord → Bool
unfolding key_eq
holds_key task r =
    not (str_eq r.task_id task.task_id) && key_eq r.idempotency_key task.idempotency_key

unfoldable pub key_taken : TaskRecord → Table → Bool
unfolding holds_key
key_taken task rows = any (λ r. holds_key task r) rows

-- INSERT … ON CONFLICT(task_id) DO UPDATE: every column but `created_at` is replaced.
unfoldable pub put : TaskRecord → Table → Table
put task [] = task ∷ []
put task (r ∷ rows) =
    if str_eq r.task_id task.task_id
    then record task { created_at = r.created_at } ∷ rows
    else r ∷ put task rows

unfoldable pub upsert : TaskRecord → Table → Result Exception Table
unfolding key_taken put
upsert task rows = if key_taken task rows then err integrity_error else ok (put task rows)

-- A plain INSERT: neither the primary key nor the unique key may be there.
unfoldable pub clash : TaskRecord → TaskRecord → Bool
unfolding key_eq
clash a b = str_eq a.task_id b.task_id || key_eq a.idempotency_key b.idempotency_key

unfoldable pub insert : TaskRecord → Table → Result Exception Table
unfolding clash
insert task rows =
    if any (λ r. clash r task) rows then err integrity_error else ok (rows ++ task ∷ [])

unfoldable pub find : (TaskRecord → Bool) → Table → Option TaskRecord
find p [] = none
find p (r ∷ rows) = if p r then some r else find p rows

unfoldable pub get : String → Table → Option TaskRecord
unfolding find
get task_id rows = find (λ r. str_eq r.task_id task_id) rows

unfoldable pub get_by_idempotency_key : String → Table → Option TaskRecord
unfolding find key_eq
get_by_idempotency_key key rows = find (λ r. key_eq r.idempotency_key (some key)) rows

-- `bool(task.idempotency_key)`: neither `None` nor the empty string.
unfoldable pub usable_key : Option String → Option String
usable_key none = none
usable_key (some k) = if str_eq k "" then none else some k

-- The table after the call, the task that it returns, and whether it was created.
abbrev pub Created : Type 0
Created = Table × TaskRecord × Bool

unfoldable pub created : TaskRecord → Result Exception Table → Result Exception Created
created task (ok rows) = ok (rows, task, true)
created task (err e) = err e

unfoldable pub return_or_insert : Option TaskRecord → TaskRecord → Table → Result Exception Created
unfolding insert created
return_or_insert (some existing) task rows = ok (rows, existing, false)
return_or_insert none task rows = created task (insert task rows)

unfoldable pub create_keyed : Option String → TaskRecord → Table → Result Exception Created
unfolding upsert created return_or_insert get_by_idempotency_key
create_keyed none task rows = created task (upsert task rows)
create_keyed (some key) task rows = return_or_insert (get_by_idempotency_key key rows) task rows

unfoldable pub create_or_get : TaskRecord → Table → Result Exception Created
unfolding usable_key create_keyed
create_or_get task rows = create_keyed (usable_key task.idempotency_key) task rows

unfoldable pub list_by_states : List TaskState → Table → List TaskRecord
list_by_states states rows = select (λ r. mem_state r.state states) rows

in_worker : Option String → TaskRecord → Bool
in_worker none r = true
in_worker (some worker_id) r = str_eq r.worker_id worker_id

unfoldable pub count_by_states : List TaskState → Option String → Table → ℕ
unfolding in_worker
count_by_states states worker_id rows =
    count (λ r. mem_state r.state states && in_worker worker_id r) rows

unfoldable pub marked : String → TaskRecord → TaskRecord
marked now task = record task { state = recovering; updated_at = now; dispatch_attempt_id = none }

-- `updated.append(task)`, before what the rest of the loop appends.
unfoldable pub appended :
    TaskRecord
    → Result Exception (Table × List TaskRecord)
    → Result Exception (Table × List TaskRecord)
appended task (ok (rows, updated)) = ok (rows, task ∷ updated)
appended task (err e) = err e

-- The loop of `mark_recovering`, which stops at a write that raises; the writes before it are left
-- out of the error. The reading `now i` of the clock is for the i-th task.
unfoldable pub mark_each :
    (ℕ → String) → ℕ → List TaskRecord → Table → Result Exception (Table × List TaskRecord)
unfolding marked upsert appended
mark_each now i [] rows = ok (rows, [])
mark_each now i (task ∷ tasks) rows = elim (state_eq task.state pending) [
  | true ↦ appended task (mark_each now (i + 1) tasks rows)
  | false ↦ elim (upsert (marked (now i) task) rows) [
    | ok next ↦ appended (marked (now i) task) (mark_each now (i + 1) tasks next)
    | err e ↦ err e
  ]
]

abbrev pub recoverable_states : List TaskState
recoverable_states = pending ∷ running ∷ retrying ∷ recovering ∷ []

unfoldable pub mark_recovering : (ℕ → String) → Table → Result Exception (Table × List TaskRecord)
unfolding mark_each list_by_states
mark_recovering now rows = mark_each now 0 (list_by_states recoverable_states rows) rows
