-- ===== src/Store/Schema.antt =====
-- store.py, `_init_db` and `ping`: the columns of the tasks table, which an older database may lack, and
-- the probe's table. SQLite's answer to a statement that cannot be executed is outside.
use ai_worker_bridge_mcp.Base.{
  String, Bool, true, Option, none, some, List, [], ◌∷◌, ◌++◌, any, if◌then◌else◌,
}
use text.Mathlib.Text.{◌==◌ as str_eq}

pub record Database : Type 0 where
  -- The columns of `tasks`, if the table is there.
  pub tasks : Option (List String)
  pub indexes : List String
  -- The row with id 1 of `readiness_probe`, if the table has one.
  pub readiness_probe : Option String

unfoldable pub has_column : String → List String → Bool
has_column name columns = any (λ c. str_eq c name) columns

-- `CREATE TABLE IF NOT EXISTS tasks`
abbrev pub task_columns : List String
task_columns =
    "task_id" ∷ "worker_id" ∷ "prompt" ∷ "working_directory" ∷ "idempotency_key"
    ∷ "dispatch_attempt_id" ∷ "attempt_count" ∷ "state" ∷ "result_json" ∷ "error" ∷ "created_at"
    ∷ "updated_at" ∷ "started_at" ∷ "completed_at" ∷ "timeout_seconds" ∷ []

unfoldable pub created_columns : Option (List String) → List String
created_columns none = task_columns
created_columns (some columns) = columns

-- `if name not in columns: ALTER TABLE tasks ADD COLUMN`, where `columns` was read before.
unfoldable pub add_missing : List String → String → List String → List String
unfolding has_column
add_missing seen name columns = if has_column name seen then columns else columns ++ name ∷ []

unfoldable pub migrated : List String → List String
unfolding add_missing
migrated seen =
    add_missing seen "attempt_count"
      (add_missing seen "dispatch_attempt_id" (add_missing seen "working_directory" seen))

-- `CREATE INDEX IF NOT EXISTS`
unfoldable pub add_index : String → List String → List String
unfolding add_missing
add_index name indexes = add_missing indexes name indexes

unfoldable pub init_db : Database → Database
unfolding created_columns migrated add_index
init_db db = record db {
  tasks = some (migrated (created_columns db.tasks));
  indexes =
      add_index "idx_tasks_worker_state"
        (add_index "idx_tasks_worker" (add_index "idx_tasks_state" db.indexes));
}

-- The answer of a ping whose statements succeed, and what it writes.
unfoldable pub ping : String → Database → Bool × Database
ping now db = (true, record db { readiness_probe = some now })
