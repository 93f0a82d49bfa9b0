-- ===== src/Exceptions.antt =====
-- exceptions.py, and the other exceptions that the bridge raises or catches, with `str(exc)`.
use ai_worker_bridge_mcp.Base.{ℕ, String, Bool, true, false, List, [], ◌∷◌, ◌++◌}
use ai_worker_bridge_mcp.Base.Text.{Text, codes, join}

pub data Exception : Type 0 where
  missing_working_directory : Exception
  invalid_working_directory : Text → List Text → Exception
  saturation_error : Text → String → Exception
  -- `InvalidTransition`, with the two states' values.
  invalid_transition : String → String → Exception
  -- `KeyError` of `WorkerRegistry.get`.
  unknown_worker : String → Exception
  worker_unavailable : String → Exception
  -- `sqlite3.IntegrityError`: a UNIQUE constraint failed.
  integrity_error : Exception
  -- `TimeoutError`, and any other exception of the worker call, with its message and class name.
  timeout_error : Text → Exception
  other_error : Text → Text → Exception

allowed_text : List Text → Text
unfolding join
allowed_text [] = codes "(none)"
allowed_text (p ∷ ps) = join (codes ", ") (p ∷ ps)

-- `str(exc)`; that of a `KeyError` is the quoted message.
unfoldable pub message : Exception → Text
unfolding allowed_text
message missing_working_directory = codes "working_directory is required in YAML frontmatter"
message (invalid_working_directory path allowed) =
    codes "Specified working_directory '"
    ++ (path ++ (codes "' not in allowed paths: " ++ allowed_text allowed))
message (saturation_error text scope) = text
message (invalid_transition source target) =
    codes "cannot transition " ++ (codes source ++ (codes " -> " ++ codes target))
message (unknown_worker worker) = codes "'unknown worker_id: " ++ (codes worker ++ codes "'")
message (worker_unavailable worker) =
    codes "worker " ++ (codes worker ++ codes " circuit breaker is open")
message integrity_error = codes "UNIQUE constraint failed"
message (timeout_error text) = text
message (other_error text name) = text

-- `exc.status_code`, for the exceptions that carry one.
unfoldable pub status_code : Exception → ℕ
status_code (saturation_error text scope) = 503
status_code _ = 400

-- `isinstance(exc, WorkingDirectoryError)`
unfoldable pub is_working_directory_error : Exception → Bool
is_working_directory_error missing_working_directory = true
is_working_directory_error (invalid_working_directory path allowed) = true
is_working_directory_error _ = false

-- `exc.__class__.__name__`
unfoldable pub class_name : Exception → Text
class_name missing_working_directory = codes "MissingWorkingDirectory"
class_name (invalid_working_directory path allowed) = codes "InvalidWorkingDirectory"
class_name (saturation_error text scope) = codes "SaturationError"
class_name (invalid_transition source target) = codes "InvalidTransition"
class_name (unknown_worker worker) = codes "KeyError"
class_name (worker_unavailable worker) = codes "WorkerUnavailable"
class_name integrity_error = codes "IntegrityError"
class_name (timeout_error text) = codes "TimeoutError"
class_name (other_error text name) = name
