-- ===== src/Config/Fields.antt =====
-- config.py: the fields as the YAML gives them, each with its default, and the endpoint of a worker, which
-- is normalised and must be a URL. `urlsplit` and `urlunsplit`, and the text that pydantic's HttpUrl keeps of
-- a valid URL, are parameters.
use ai_worker_bridge_mcp.Base.{ℕ, String, Bool, true, false, Option, none, some, List, [], ◌∷◌}
use ai_worker_bridge_mcp.Base.Text.{Text, codes}
use ai_worker_bridge_mcp.Config.{
  WorkerConfig, ScopedKeyConfig, AuthType, bearer, Mode, sync, async, RecoveryPolicy, idempotent,
}
use ai_worker_bridge_mcp.Config.Endpoints.{Parts, normalize_endpoint_url}
use ai_worker_bridge_mcp.Config.Validators.{AppConfig}

pub record Urls : Type 0 where
  pub urlsplit : Text → Parts
  pub urlunsplit : Parts → Text
  -- `none` where it is no valid URL.
  pub http_url : Text → Option Text

-- A worker of the YAML; a nested section that is left out is one without fields.
pub record RawWorker : Type 0 where
  pub worker_id : String
  pub display_name : Text
  pub endpoint_url : Text
  pub model_name : Text
  pub auth_type : Option AuthType
  pub secret_env : Option String
  pub username_env : Option String
  pub password_env : Option String
  pub default_system_prompt : Option Text
  pub capabilities : Option (List Text)
  pub description : Option Text
  pub allowed_modes : Option (List Mode)
  pub sync_millis : Option ℕ
  pub async_millis : Option ℕ
  pub read : Option (List Text)
  pub write : Option (List Text)
  pub canonicalize : Option Bool
  pub max_concurrent_tasks : Option ℕ

-- The YAML of the configuration.
pub record RawConfig : Type 0 where
  pub host : Option Text
  pub port : Option ℕ
  pub scoped_keys : List ScopedKeyConfig
  pub sqlite_path : Option String
  pub log_level : Option Text
  pub log_path : Option Text
  pub audit_enabled : Option Bool
  pub audit_path : Option Text
  pub buckets : Option (List ℕ)
  pub failure_threshold : Option ℕ
  pub recovery_millis : Option ℕ
  pub policy : Option RecoveryPolicy
  pub delay_millis : Option ℕ
  pub global_pending_tasks : Option ℕ
  pub global_active_tasks : Option ℕ
  pub per_worker_pending_tasks : Option ℕ
  pub per_worker_active_tasks : Option ℕ
  pub sync_active_tasks : Option ℕ
  pub allow_implicit_root_filesystem : Option Bool
  pub workers : List RawWorker

-- A field with its default.
unfoldable pub or_default : {A : Type 0} → Option A → A → A
or_default none default = default
or_default (some given) default = given

-- The endpoint that a worker keeps, if it is a URL.
unfoldable pub kept_endpoint : Urls → Text → Option Text
unfolding normalize_endpoint_url
kept_endpoint urls text = urls.http_url (normalize_endpoint_url urls.urlsplit urls.urlunsplit text)

unfoldable pub filled_worker : RawWorker → Text → WorkerConfig
unfolding or_default
filled_worker raw endpoint = record {
  worker_id = raw.worker_id;
  display_name = raw.display_name;
  endpoint_url = endpoint;
  auth_type = or_default raw.auth_type bearer;
  secret_env = raw.secret_env;
  username_env = raw.username_env;
  password_env = raw.password_env;
  model_name = raw.model_name;
  default_system_prompt = raw.default_system_prompt;
  capabilities = or_default raw.capabilities [];
  description = or_default raw.description [];
  allowed_modes = or_default raw.allowed_modes (sync ∷ async ∷ []);
  timeout_limits = record {
    sync_millis = or_default raw.sync_millis 30000;
    async_millis = or_default raw.async_millis 300000;
  };
  filesystem = record {
    read = or_default raw.read [];
    write = or_default raw.write [];
    canonicalize = or_default raw.canonicalize false;
  };
  max_concurrent_tasks = or_default raw.max_concurrent_tasks 2;
}

unfoldable pub with_worker :
    RawWorker → Option Text → Option (List WorkerConfig) → Option (List WorkerConfig)
unfolding filled_worker
with_worker raw (some endpoint) (some workers) = some (filled_worker raw endpoint ∷ workers)
with_worker raw _ _ = none

-- The workers, if every one has an endpoint that is a URL.
unfoldable pub filled_workers : Urls → List RawWorker → Option (List WorkerConfig)
unfolding with_worker kept_endpoint
filled_workers urls [] = some []
filled_workers urls (raw ∷ raws) =
    with_worker raw (kept_endpoint urls raw.endpoint_url) (filled_workers urls raws)

unfoldable pub filled_config : RawConfig → List WorkerConfig → AppConfig
unfolding or_default
filled_config raw workers = record {
  workers = workers;
  scoped_keys = raw.scoped_keys;
  buckets = or_default raw.buckets (
      100000 ∷ 250000 ∷ 500000 ∷ 1000000 ∷ 2500000 ∷ 5000000 ∷ 10000000 ∷ 30000000 ∷ 60000000 ∷ []);
  breaker = record {
    failure_threshold = or_default raw.failure_threshold 3;
    recovery_millis = or_default raw.recovery_millis 30000;
  };
  recovery = record {
    policy = or_default raw.policy idempotent;
    delay_millis = or_default raw.delay_millis 0;
  };
  limits = record {
    global_pending_tasks = or_default raw.global_pending_tasks 1000;
    global_active_tasks = or_default raw.global_active_tasks 100;
    per_worker_pending_tasks = or_default raw.per_worker_pending_tasks 100;
    per_worker_active_tasks = raw.per_worker_active_tasks;
    sync_active_tasks = or_default raw.sync_active_tasks 100;
  };
  sqlite_path = or_default raw.sqlite_path "/app/data/tasks.sqlite3";
  allow_implicit_root_filesystem = or_default raw.allow_implicit_root_filesystem false;
  server = record { host = or_default raw.host (codes "0.0.0.0"); port = or_default raw.port 8080 };
  logging = record {
    level = or_default raw.log_level (codes "INFO");
    file_path = or_default raw.log_path (codes "/app/logs/bridge.log");
  };
  audit = record {
    enabled = or_default raw.audit_enabled true;
    file_path = or_default raw.audit_path (codes "/app/logs/audit.jsonl");
  };
}

unfoldable pub with_workers : RawConfig → Option (List WorkerConfig) → Option AppConfig
unfolding filled_config
with_workers raw none = none
with_workers raw (some workers) = some (filled_config raw workers)

-- The fields with their defaults, `none` where an endpoint is no URL.
unfoldable pub filled : Urls → RawConfig → Option AppConfig
unfolding filled_workers with_workers
filled urls raw = with_workers raw (filled_workers urls raw.workers)
