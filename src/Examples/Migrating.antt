-- ===== src/Examples/Migrating.antt =====
-- A database of the first version, before and after `_init_db`.
use ai_worker_bridge_mcp.Base.{String, ◌≡◌, refl, some, none, List, [], ◌∷◌, ◌++◌}
use ai_worker_bridge_mcp.Store.Schema.{Database, has_column, task_columns, created_columns, init_db}
use ai_worker_bridge_mcp.Store.Migrated.{first_columns, Covers, init_db-Covers}

abbrev first_version : Database
first_version = record { tasks = some first_columns; indexes = []; readiness_probe = none }

abbrev columns : List String
columns = first_columns ++ "working_directory" ∷ "dispatch_attempt_id" ∷ "attempt_count" ∷ []

is_first : Covers first_columns (created_columns first_version.tasks)
unfolding has_column created_columns
is_first = (
  refl,
  (refl, (refl, (refl, (refl, (refl, (refl, (refl, (refl, (refl, (refl, (refl, tt))))))))))),
)

has_all : (init_db first_version).tasks ≡ some columns
unfolding init_db
has_all = refl

init_db-Covers_example :
    Covers task_columns columns × ((init_db (init_db first_version)).tasks ≡ some columns)
init_db-Covers_example = init_db-Covers first_version is_first has_all
