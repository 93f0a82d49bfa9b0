-- ===== src/Examples/Configured.antt =====
-- The theorems of Config on a configuration with one worker.
use ai_worker_bridge_mcp.Base.{◌≡◌, refl, true, some, [], ◌∷◌}
use ai_worker_bridge_mcp.Base.Text.{codes}
use ai_worker_bridge_mcp.Base.Exec.{ok}
use ai_worker_bridge_mcp.Config.{WorkerConfig, read, manual}
use ai_worker_bridge_mcp.Config.Validators.{
  AppConfig, checked_config, is_valid, apply_compatibility, with_root,
}
use ai_worker_bridge_mcp.Config.Defaults.{
  default_server, default_logging, default_audit, raw_worker, raw_config,
}
use ai_worker_bridge_mcp.Config.Fields.{RawConfig, filled}
use ai_worker_bridge_mcp.Config.Loading.{load_config}
use ai_worker_bridge_mcp.Examples.Defaulted.{plain_urls}
use ai_worker_bridge_mcp.Examples.Directories.{worker}
use ai_worker_bridge_mcp.Examples.Managed.{manager}

abbrev bare_worker : WorkerConfig
bare_worker = record (worker true) {
  filesystem = record { read = []; write = []; canonicalize = true };
}

abbrev rooted_worker : WorkerConfig
rooted_worker = record bare_worker {
  filesystem = record { read = codes "/" ∷ []; write = codes "/" ∷ []; canonicalize = true };
}

abbrev pub given : AppConfig
given = record {
  workers = bare_worker ∷ [];
  scoped_keys = record { key_id = "r"; env = "R"; scopes = read ∷ [] } ∷ [];
  buckets = 100 ∷ 250 ∷ [];
  breaker = record { failure_threshold = 3; recovery_millis = 30000 };
  recovery = record { policy = manual; delay_millis = 0 };
  limits = manager.limits;
  sqlite_path = "/data/tasks.sqlite";
  allow_implicit_root_filesystem = true;
  server = default_server;
  logging = default_logging;
  audit = default_audit;
}

abbrev pub loaded : AppConfig
loaded = record given { workers = rooted_worker ∷ [] }

-- The YAML of the configuration.
abbrev pub raw : RawConfig
raw = record (raw_config [] given.scoped_keys) {
  sqlite_path = some given.sqlite_path;
  buckets = some given.buckets;
  policy = some manual;
  global_pending_tasks = some given.limits.global_pending_tasks;
  global_active_tasks = some given.limits.global_active_tasks;
  per_worker_pending_tasks = some given.limits.per_worker_pending_tasks;
  per_worker_active_tasks = given.limits.per_worker_active_tasks;
  sync_active_tasks = some given.limits.sync_active_tasks;
  allow_implicit_root_filesystem = some true;
  workers =
      record (raw_worker (record {
        worker_id = bare_worker.worker_id;
        display_name = bare_worker.display_name;
        endpoint_url = bare_worker.endpoint_url;
        model_name = bare_worker.model_name;
        kept_url = bare_worker.endpoint_url;
      })) {
        secret_env = bare_worker.secret_env;
        sync_millis = some bare_worker.timeout_limits.sync_millis;
        async_millis = some bare_worker.timeout_limits.async_millis;
        canonicalize = some true;
        max_concurrent_tasks = some bare_worker.max_concurrent_tasks;
      }
      ∷ [];
}

pub loads : load_config plain_urls (ok raw) ≡ ok loaded
unfolding load_config checked_config filled is_valid apply_compatibility with_root
loads = refl
