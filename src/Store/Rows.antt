-- ===== src/Store/Rows.antt =====
-- store.py, `_params` and `_row_to_record`: the columns of a row, and the record that they decode to.
-- `dumps` and `loads` are those of Python's json module.
use ai_worker_bridge_mcp.Base.{
  ℕ, String, ◌≡◌, ◌≢◌, refl, Option, none, some, arith, eq_iff, if◌then◌else◌,
}
use ai_worker_bridge_mcp.Base.Text.{Text}
use ai_worker_bridge_mcp.Json.{Json}
use ai_worker_bridge_mcp.TaskState.{TaskState, value, state_of, TaskRecord}
use ai_worker_bridge_mcp.TaskState.Transitions.{state_of-value}
use text.Mathlib.Text.{◌==◌ as str_eq}

-- A row of `tasks`: `state` and `result_json` are text, the other columns are the record's values.
pub record Row : Type 0 where
  pub task_id : String
  pub worker_id : String
  pub prompt : Text
  pub working_directory : Option Text
  pub idempotency_key : Option String
  pub dispatch_attempt_id : Option String
  pub attempt_count : ℕ
  pub state : String
  pub result_json : Option String
  pub error : Option Text
  pub created_at : String
  pub updated_at : String
  pub started_at : Option String
  pub completed_at : Option String
  pub timeout_millis : ℕ

module _ (dumps : Json → String) (loads : String → Option Json) where
  result_column : Option Json → Option String
  result_column none = none
  result_column (some j) = some (dumps j)

  pub params : TaskRecord → Row
  unfolding result_column
  params t = record {
    task_id = t.task_id;
    worker_id = t.worker_id;
    prompt = t.prompt;
    working_directory = t.working_directory;
    idempotency_key = t.idempotency_key;
    dispatch_attempt_id = t.dispatch_attempt_id;
    attempt_count = t.attempt_count;
    state = value t.state;
    result_json = result_column t.result;
    error = t.error;
    created_at = t.created_at;
    updated_at = t.updated_at;
    started_at = t.started_at;
    completed_at = t.completed_at;
    timeout_millis = t.timeout_millis;
  }

  -- `json.loads(x) if x else None`; the outer `none` is a JSONDecodeError.
  read_result : Option String → Option (Option Json)
  read_result none = some none
  read_result (some text) =
      if str_eq text ""
      then some none
      else elim (loads text) [ none ↦ none | some j ↦ some (some j) ]

  decoded : Row → Option TaskState → Option (Option Json) → Option TaskRecord
  decoded row (some s) (some result) = some (record {
    task_id = row.task_id;
    worker_id = row.worker_id;
    prompt = row.prompt;
    working_directory = row.working_directory;
    idempotency_key = row.idempotency_key;
    dispatch_attempt_id = row.dispatch_attempt_id;
    attempt_count = row.attempt_count;
    state = s;
    result = result;
    error = row.error;
    created_at = row.created_at;
    updated_at = row.updated_at;
    started_at = row.started_at;
    completed_at = row.completed_at;
    timeout_millis = row.timeout_millis;
  })
  decoded row _ _ = none

  -- `none` where it raises: an unknown state, or a result that is no JSON.
  pub row_to_record : Row → Option TaskRecord
  unfolding decoded read_result
  row_to_record row = decoded row (state_of row.state) (read_result row.result_json)

  read_result_column :
      (r : Option Json)
      → ((j : Json) → r ≡ some j → (loads (dumps j) ≡ some j) × (dumps j ≢ ""))
      → read_result (result_column r) ≡ some r
  unfolding read_result result_column
  read_result_column none h = refl
  read_result_column (some j) h = ground (arith, h j refl, eq_iff (dumps j) "")

  -- What is written for a record is read back as that record, if the JSON text of its result is not
  -- empty and loads as that result.
  pub row_to_record-params :
      (t : TaskRecord)
      → ((j : Json) → t.result ≡ some j → (loads (dumps j) ≡ some j) × (dumps j ≢ ""))
      → row_to_record (params t) ≡ some t
  unfolding row_to_record params
  row_to_record-params t h = rw (state_of-value t.state, read_result_column t.result h)
