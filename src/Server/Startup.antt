-- ===== src/Server/Startup.antt =====
-- server.py, `create_app` and its lifespan: the app that a configuration and the rows of its state path
-- start. The directories that it makes, `configure_logging` and the audit file are elsewhere; the log
-- starts empty.
use ai_worker_bridge_mcp.Base.{ℕ, String, false, []}
use ai_worker_bridge_mcp.Base.Text.{Text}
use ai_worker_bridge_mcp.Base.Exec.{Result, ok, err}
use ai_worker_bridge_mcp.Exceptions.{Exception, message}
use ai_worker_bridge_mcp.Config.Validators.{AppConfig}
use ai_worker_bridge_mcp.Config.Fields.{Urls, RawConfig}
use ai_worker_bridge_mcp.Config.Loading.{load_config}
use ai_worker_bridge_mcp.Store.{Table}
use ai_worker_bridge_mcp.Manager.{TaskManager}
use ai_worker_bridge_mcp.Manager.Calls.{start}
use ai_worker_bridge_mcp.Server.{App}
use ai_worker_bridge_mcp.Server.Reload.{NewConfig, new_registry}

-- The part of an `AppConfig` that the app's state has.
unfoldable pub settings : AppConfig → NewConfig
settings config = record {
  workers = config.workers;
  recovery = config.recovery;
  limits = config.limits;
  scoped_keys = config.scoped_keys;
  sqlite_path = config.sqlite_path;
}

-- `TaskManager(store, workers, …)`
unfoldable pub new_manager : NewConfig → Table → TaskManager
unfolding new_registry
new_manager config rows = record {
  store = rows;
  background = [];
  started = false;
  workers = new_registry config;
  recovery = config.recovery;
  limits = config.limits;
  metrics = record { tasks_created = []; tasks_completed = [] };
  audit = [];
}

-- The lifespan after `manager.start()`, which the text of an exception ends.
unfoldable pub launched : NewConfig → Result Exception (Unit {0}) × TaskManager → Result Text App
unfolding message
launched config (err e, m) = err (message e)
launched config (ok done, m) =
    ok (record { manager = m; scoped_keys = config.scoped_keys; sqlite_path = config.sqlite_path })

unfoldable pub launch : (ℕ → String) → Table → Result Text AppConfig → Result Text App
unfolding settings new_manager start launched
launch clock rows (err text) = err text
launch clock rows (ok config) =
    launched (settings config) (start clock (new_manager (settings config) rows))

-- `create_app`, and the start of its lifespan; `opened` is what the configuration's file gives.
unfoldable pub create_app : Urls → (ℕ → String) → Table → Result Text RawConfig → Result Text App
unfolding load_config launch
create_app urls clock rows opened = launch clock rows (load_config urls opened)
