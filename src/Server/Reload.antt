-- ===== src/Server/Reload.antt =====
-- server.py, `_reload_config`: the new configuration is loaded, or loading it raises; for another state
-- path a new manager starts on the rows that are there.
use ai_worker_bridge_mcp.Base.{ℕ, String, Bool, false, not, List, [], is_nil, if◌then◌else◌}
use ai_worker_bridge_mcp.Base.Text.{Text}
use ai_worker_bridge_mcp.Base.Exec.{Result, ok, err}
use ai_worker_bridge_mcp.Exceptions.{Exception, message}
use ai_worker_bridge_mcp.Config.{WorkerConfig, RecoveryConfig, LimitsConfig, ScopedKeyConfig}
use ai_worker_bridge_mcp.Store.{Table}
use ai_worker_bridge_mcp.Registry.{Registry}
use ai_worker_bridge_mcp.Manager.{TaskManager}
use ai_worker_bridge_mcp.Manager.Calls.{start, stop_end}
use ai_worker_bridge_mcp.Server.{App}
use text.Mathlib.Text.{◌==◌ as str_eq}

-- What a reload takes from an `AppConfig`.
pub record NewConfig : Type 0 where
  pub workers : List WorkerConfig
  pub recovery : RecoveryConfig
  pub limits : LimitsConfig
  pub scoped_keys : List ScopedKeyConfig
  pub sqlite_path : String

-- The HTTPException with status 409, or another exception's text.
pub data ReloadError : Type 0 where
  conflict : ReloadError
  failed : Text → ReloadError

-- `WorkerRegistry(...)`: no call is in flight.
unfoldable pub new_registry : NewConfig → Registry
new_registry config = record { workers = config.workers; active = λ worker_id. 0 }

unfoldable pub has_active_tasks : TaskManager → Bool
has_active_tasks m = not (is_nil m.background)

unfoldable pub fresh_manager : NewConfig → Table → TaskManager → TaskManager
unfolding new_registry
fresh_manager config rows m = record {
  store = rows;
  background = [];
  started = false;
  workers = new_registry config;
  recovery = config.recovery;
  limits = config.limits;
  metrics = m.metrics;
  audit = m.audit;
}

-- After `new_manager.start()`.
unfoldable pub switched :
    NewConfig
    → Result Exception (Unit {0}) × TaskManager
    → App
    → Result ReloadError (Unit {0}) × App
unfolding stop_end message
switched config (err e, n) app =
    (err (failed (message e)), record app { manager = stop_end app.manager })
switched config (ok done, n) app = (
  ok tt,
  record { manager = n; scoped_keys = config.scoped_keys; sqlite_path = config.sqlite_path },
)

-- The same state path: the current manager goes on with the new settings.
unfoldable pub updated : NewConfig → App → App
unfolding new_registry
updated config app = record {
  manager = record app.manager {
    workers = new_registry config;
    recovery = config.recovery;
    limits = config.limits;
  };
  scoped_keys = config.scoped_keys;
  sqlite_path = config.sqlite_path;
}

unfoldable pub reload_with :
    (ℕ → String) → Table → Result Text NewConfig → App → Result ReloadError (Unit {0}) × App
unfolding has_active_tasks start fresh_manager switched updated
reload_with now rows (err text) app = (err (failed text), app)
reload_with now rows (ok config) app =
    if str_eq config.sqlite_path app.sqlite_path
    then (ok tt, updated config app)
    else if has_active_tasks app.manager
    then (err conflict, app)
    else switched config (start now (fresh_manager config rows app.manager)) app
