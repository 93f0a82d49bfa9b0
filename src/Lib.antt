-- ===== src/Lib.antt =====
-- The AI Worker Bridge accepts tasks over HTTP and MCP, stores them in SQLite, dispatches them to
-- workers, and keeps every task's state through cancels, failures and restarts.
--
-- The parts, and the files that model them:
--   ai_bridge/task_state.py: TaskState.antt has the states, the table of allowed transitions, and
--     `transition` and `next_attempt` of a record; a deep copy is a record update.
--   ai_bridge/exceptions.py: Exceptions.antt, with the exceptions of other modules that are
--     raised through the code, as one data type.
--   ai_bridge/store.py: Store.antt has the table as a list of records, the statements as
--     functions of it, and the two unique columns; an operation that raises leaves the table as
--     it was. Its child Rows has `_params` and `_row_to_record`, the columns themselves, and its
--     child Schema has `_init_db` and `ping`.
--   ai_bridge/permissions.py: Permissions.antt has the frontmatter block, the allow-list and what
--     is dispatched; its child Paths has posixpath.normpath and `_safe_normalize` on lists of
--     code points.
--   ai_bridge/config.py, ai_bridge/auth.py: Config.antt has the records that the other parts
--     read, and its children the fields with their defaults (Fields), the normalised endpoint
--     of a worker (Endpoints), the validators (Validators), and the runtime paths and
--     `load_config` (Loading).
--   ai_bridge/workers.py: Registry.antt has the lookup of a worker and the count of its active
--     calls; its children have the circuit breaker of one worker (Circuit), the payload and the
--     headers of a request (Request), `_normalize_response` (Replies), what `call` does around
--     its request (Dispatch), the calls of a worker in any order (Load), and the health of the
--     workers with the listing that shows it (Health).
--   ai_bridge/metrics.py: Metrics.antt has the counters of created and of completed tasks;
--     its children have the histogram of one worker and the check of its bounds (Latency), and
--     the other counters and `render` (Render).
--   ai_bridge/manager.py: Manager.antt has the state and the handlers of `_run_task`; its
--     children have the coroutines (Background), `_run_task` from one wait to the next
--     (Execution), and `call`, `check`, `cancel`, `start` and `stop` (Calls), and the steps that
--     the event loop takes in any order (Steps). The other children have the theorems.
--   ai_bridge/logging_config.py: Logging.antt has what a log line holds, and the handlers.
--   ai_bridge/audit.py: Audit.antt has the fields that an event is written with, and its child
--     Log the logger over all that it emits.
--   ai_bridge/server.py: Server.antt has the app's state, `authenticate` and the scopes; its
--     children have `create_app` and its lifespan (Startup), `_reload_config` (Reload), the
--     JSON-RPC methods and the tools (Tools), `_tool_schemas` (Schemas), the HTTP endpoints
--     (Endpoints), and the pages and the mock worker (Pages). The other children have the theorems.
--   ai_watchdog/watchdog.py: Watchdog.antt has its records; its children have the settings
--     (Settings), and `check_task`, `wait_for_task` and `main` (Polling).
-- Json.antt has the JSON values, Base.antt the shared names, Examples.antt the concrete runs.
--
-- How they interact: the manager's `call` asks the registry for the worker and the policy for the
-- working directory, tests the limits, and hands the record to the store; `_schedule` adds a
-- coroutine, which reads the row again, moves it to Running, and settles it with the worker's
-- outcome. The server looks up the key that a request presents, requires the scope of the endpoint
-- or of the tool, and calls the manager; a reload gives the manager new settings, or the app
-- another manager.
--
-- Conventions. Text that the code takes apart is a list of code points, and a key or an id is a
-- string. Seconds are whole milliseconds, and microseconds in the metrics. A reading of the clock,
-- a fresh id and the outcome of a worker's call, and what a reload reads, are arguments; where a
-- function reads the clock more than once, the readings are a function of a number. A method of the
-- manager that runs to its end without waiting is one function of the state; where `_run_task`
-- waits, it is cut. A reload is one function, and a synchronous call is one too: its limit is
-- tested in the state in which its outcome arrives. The loop of `wait_for_task` alone runs on fuel,
-- the number of its rounds: with an interval above 0, one more than the number of intervals that
-- make up the timeout is enough. The answers that the watchdog gets, and how long each takes, are a sequence.
--
-- What the code takes from elsewhere is a parameter: `World` has the YAML reader, `str` of a YAML
-- value, and the file system's strict `resolve`; Rows has `json.dumps` and `json.loads`; the
-- watchdog's `Outside` has the environment and `float(text)`, and `Reader` has `json.loads` and
-- `str`; Fields has `urlsplit`, `urlunsplit` and pydantic's HttpUrl, and Request has `os.getenv`,
-- the base64 encoding and `str` of a number; `Printer` has the texts of the numbers of the metrics;
-- Loading has the environment and `expanduser`, and Logging the levels of the logging module. A step
-- of a manager that takes a call assumes that the id of the task, a UUID, is fresh.
--
-- Not modelled: the event stream of the server; FastAPI's reading of headers and bodies, except
-- that a body of /worker_call with an empty prompt is refused; the client address of a request, and
-- the key that an audit event names; a reload's new audit file, whose events are kept in the same
-- list; the watchdog's request, options and output; the JSON text of a line of the logs and of the
-- audit file; and, in the manager and the server, the fields of an audit event other than its type,
-- its outcome, its worker and its task.
pub mod Base
pub mod Json
pub mod Exceptions
pub mod TaskState
pub mod Store
pub mod Config
pub mod Permissions
pub mod Metrics
pub mod Registry
pub mod Audit
pub mod Manager
pub mod Server
pub mod Watchdog
pub mod Examples
pub mod Logging
