-- ===== src/Logging.antt =====
-- logging_config.py: what a log line holds, and the handlers that `configure_logging` leaves. The texts of
-- a time and of an exception, and the levels that the logging module names, are given.
use ai_worker_bridge_mcp.Base.{ℕ, Option, none, some, List, [], ◌∷◌, ◌++◌}
use ai_worker_bridge_mcp.Base.Text.{Text, codes}
use ai_worker_bridge_mcp.Json.{Json, str}

pub record LogRecord : Type 0 where
  pub created : Text
  pub levelname : Text
  pub name : Text
  pub message : Text
  pub exc_info : Option Text
  pub task_id : Option Json
  pub worker_id : Option Json
  pub event : Option Json

-- `payload[key] = value` where the value is not None; the keys of the payload differ.
unfoldable pub with_value : Text → Option Json → List (Text × Json) → List (Text × Json)
with_value key none payload = payload
with_value key (some v) payload = payload ++ (key, v) ∷ []

unfoldable pub with_exception : Option Text → List (Text × Json) → List (Text × Json)
with_exception none payload = payload
with_exception (some text) payload = payload ++ (codes "exc_info", str text) ∷ []

-- `JsonFormatter.format`, before the JSON text is made of it.
unfoldable pub format_payload : LogRecord → List (Text × Json)
unfolding with_value with_exception
format_payload r = with_value (codes "event") r.event (
    with_value (codes "worker_id") r.worker_id (
      with_value (codes "task_id") r.task_id (
        with_exception r.exc_info (
          (codes "ts", str r.created)
          ∷ (codes "level", str r.levelname)
          ∷ (codes "logger", str r.name)
          ∷ (codes "message", str r.message)
          ∷ []))))

pub data Handler : Type 0 where
  stream : Handler
  file : Text → Handler

pub record RootLogger : Type 0 where
  pub level : ℕ
  pub handlers : List Handler
  -- The warnings of a file that could not be opened, as its path and the class of its error.
  pub warnings : List (Text × Text)

-- `logging.INFO`
abbrev pub info_level : ℕ
info_level = 20

-- `getattr(logging, level.upper(), logging.INFO)`
unfoldable pub level_or : Option ℕ → ℕ
level_or none = info_level
level_or (some level) = level

-- The file handler is added, or the error's class is warned of.
unfoldable pub with_file : Text → Option Text → RootLogger → RootLogger
with_file path none root = record root { handlers = root.handlers ++ file path ∷ [] }
with_file path (some error) root = record root { warnings = root.warnings ++ (path, error) ∷ [] }

unfoldable pub configure_logging :
    (Text → Option ℕ) → Text → Text → Option Text → RootLogger → RootLogger
unfolding level_or with_file
configure_logging attribute level path error root =
    with_file path error
      (record root { level = level_or (attribute level); handlers = stream ∷ [] })
