-- ===== src/Examples/Stored.antt =====
-- The theorems of Store on concrete tables.
use ai_worker_bridge_mcp.Base.{
  String, ◌≡◌, ◌≢◌, refl, true, false, some, [], ◌∷◌, Option, eq_iff, arith,
}
use ai_worker_bridge_mcp.Base.Exec.{ok, err}
use ai_worker_bridge_mcp.Exceptions.{integrity_error}
use ai_worker_bridge_mcp.Json.{Json, null}
use ai_worker_bridge_mcp.TaskState.{pending, TaskRecord}
use ai_worker_bridge_mcp.Store.{Table, clash, upsert, create_or_get, mark_recovering, usable_key}
use ai_worker_bridge_mcp.Store.Rows.{params, row_to_record, row_to_record-params}
use ai_worker_bridge_mcp.Store.Unique.{IsValid}
use ai_worker_bridge_mcp.Store.Reads.{create_or_get_replay, create_or_get_empty_key}
use ai_worker_bridge_mcp.Store.Recovering.{Recovered, mark_recovering-Recovered}
use ai_worker_bridge_mcp.Examples.Data.{task, waiting, busy, ended, three_tasks}

pub three_tasks-IsValid : IsValid three_tasks
unfolding clash
three_tasks-IsValid = (refl, (refl, (refl, tt)))

abbrev busy_again : TaskRecord
busy_again = task "b" (some "n") pending

abbrev rewritten : Table
rewritten = waiting ∷ busy_again ∷ ended ∷ []

rewrites : upsert busy_again three_tasks ≡ ok rewritten
unfolding upsert
rewrites = refl

abbrev keyed : TaskRecord
keyed = task "d" (some "new") pending

abbrev keyed_again : TaskRecord
keyed_again = task "e" (some "new") pending

abbrev four_tasks : Table
four_tasks = waiting ∷ busy ∷ ended ∷ keyed ∷ []

creates : create_or_get keyed three_tasks ≡ ok (four_tasks, keyed, true)
unfolding create_or_get
creates = refl

keyed_usable : usable_key (some "new") ≡ some "new"
unfolding usable_key
keyed_usable = refl

create_or_get_replay_example : create_or_get keyed_again four_tasks ≡ ok (four_tasks, keyed, false)
create_or_get_replay_example =
    create_or_get_replay keyed keyed_again "new" three_tasks keyed_usable keyed_usable creates

abbrev blank : TaskRecord
blank = task "d" (some "") pending

abbrev blank_again : TaskRecord
blank_again = task "e" (some "") pending

abbrev with_blank : Table
with_blank = waiting ∷ busy ∷ ended ∷ blank ∷ []

creates_blank : create_or_get blank three_tasks ≡ ok (with_blank, blank, true)
unfolding create_or_get
creates_blank = refl

ids_differ : blank.task_id ≢ blank_again.task_id
ids_differ e = ground (arith, eq_iff "d" "e")

create_or_get_empty_key_example : create_or_get blank_again with_blank ≡ err integrity_error
create_or_get_empty_key_example =
    create_or_get_empty_key blank blank_again three_tasks refl refl ids_differ creates_blank

mark_recovering-Recovered_example : Recovered three_tasks (mark_recovering (λ i. "t9") three_tasks)
mark_recovering-Recovered_example =
    mark_recovering-Recovered (λ i. "t9") three_tasks three_tasks-IsValid

abbrev answered_task : TaskRecord
answered_task = record ended { result = some null }

-- A JSON text for the one value that the example writes.
abbrev dumps : Json → String
dumps j = "null"

abbrev loads : String → Option Json
loads text = some null

row_to_record-params_example :
    row_to_record dumps loads (params dumps loads answered_task) ≡ some answered_task
row_to_record-params_example = row_to_record-params dumps loads answered_task reads
  where
    reads : (j : Json) → answered_task.result ≡ some j → (loads (dumps j) ≡ some j) × (dumps j ≢ "")
    reads j e = (e, λ h. ground (arith, eq_iff "null" ""))
