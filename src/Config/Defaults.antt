-- ===== src/Config/Defaults.antt =====
-- config.py: what a configuration that leaves its optional fields out is to be.
use ai_worker_bridge_mcp.Base.{
  ℕ, String, ◌≡◌, ◌∙◌, refl, ap, if◌then◌else◌, Bool, true, false, not, ◌&&◌, none, some, List, [],
  ◌∷◌, all, All, is_nil, arith, map,
}
use ai_worker_bridge_mcp.Base.Text.{Text, codes, strip}
use ai_worker_bridge_mcp.Base.Exec.{ok}
use ai_worker_bridge_mcp.Config.{
  WorkerConfig, ScopedKeyConfig, TimeoutLimits, FilesystemPermissions, RecoveryConfig,
  CircuitBreakerConfig, LimitsConfig, sync, async, bearer, idempotent,
}
use ai_worker_bridge_mcp.Config.Validators.{
  AppConfig, ServerConfig, LoggingConfig, AuditConfig, is_id, worker_is_valid, worker_ids_unique,
  key_is_valid, scoped_keys_present, is_valid, limits_are_valid, breaker_is_valid,
  apply_compatibility, checked_config, paths_are_absolute,
}
use ai_worker_bridge_mcp.Config.Endpoints.{
  normalize_endpoint_url, is_complete, normalized_path, completed,
}
use ai_worker_bridge_mcp.Config.Fields.{
  Urls, RawWorker, RawConfig, or_default, kept_endpoint, filled_worker, with_worker, filled_workers,
  filled_config, with_workers, filled,
}
use ai_worker_bridge_mcp.Config.Loading.{load_config}
use ai_worker_bridge_mcp.Metrics.Latency.{validate_buckets}

abbrev pub default_timeouts : TimeoutLimits
default_timeouts = record { sync_millis = 30000; async_millis = 300000 }

abbrev pub default_filesystem : FilesystemPermissions
default_filesystem = record { read = []; write = []; canonicalize = false }

-- The required fields of a worker, of which the endpoint is a base URL, and the URL that the worker keeps.
pub record GivenWorker : Type 0 where
  pub worker_id : String
  pub display_name : Text
  pub endpoint_url : Text
  pub model_name : Text
  pub kept_url : Text

-- The endpoint has no path and no space around it, and is kept with the path of the completions.
pub record IsBase (urls : Urls) (given : GivenWorker) : Type 0 where
  pub stripped : strip given.endpoint_url ≡ given.endpoint_url
  pub some_text : is_nil given.endpoint_url ≡ false
  pub no_path : (urls.urlsplit given.endpoint_url).path ≡ []
  pub kept :
      urls.http_url (
        urls.urlunsplit
          (record (urls.urlsplit given.endpoint_url) { path = codes "/v1/chat/completions" }))
      ≡ some given.kept_url

-- The YAML of a worker that leaves all other fields out.
abbrev pub raw_worker : GivenWorker → RawWorker
raw_worker given = record {
  worker_id = given.worker_id;
  display_name = given.display_name;
  endpoint_url = given.endpoint_url;
  model_name = given.model_name;
  auth_type = none;
  secret_env = none;
  username_env = none;
  password_env = none;
  default_system_prompt = none;
  capabilities = none;
  description = none;
  allowed_modes = none;
  sync_millis = none;
  async_millis = none;
  read = none;
  write = none;
  canonicalize = none;
  max_concurrent_tasks = none;
}

-- The YAML of a configuration that leaves all other sections out.
abbrev pub raw_config : List GivenWorker → List ScopedKeyConfig → RawConfig
raw_config given keys = record {
  host = none;
  port = none;
  scoped_keys = keys;
  sqlite_path = none;
  log_level = none;
  log_path = none;
  audit_enabled = none;
  audit_path = none;
  buckets = none;
  failure_threshold = none;
  recovery_millis = none;
  policy = none;
  delay_millis = none;
  global_pending_tasks = none;
  global_active_tasks = none;
  per_worker_pending_tasks = none;
  per_worker_active_tasks = none;
  sync_active_tasks = none;
  allow_implicit_root_filesystem = none;
  workers = map raw_worker given;
}

-- What such a worker is to be.
abbrev pub plain_worker : GivenWorker → WorkerConfig
plain_worker given = record {
  worker_id = given.worker_id;
  display_name = given.display_name;
  endpoint_url = given.kept_url;
  auth_type = bearer;
  secret_env = none;
  username_env = none;
  password_env = none;
  model_name = given.model_name;
  default_system_prompt = none;
  capabilities = [];
  description = [];
  allowed_modes = sync ∷ async ∷ [];
  timeout_limits = default_timeouts;
  filesystem = default_filesystem;
  max_concurrent_tasks = 2;
}

abbrev pub default_buckets : List ℕ
default_buckets =
    100000 ∷ 250000 ∷ 500000 ∷ 1000000 ∷ 2500000 ∷ 5000000 ∷ 10000000 ∷ 30000000 ∷ 60000000 ∷ []

abbrev pub default_breaker : CircuitBreakerConfig
default_breaker = record { failure_threshold = 3; recovery_millis = 30000 }

abbrev pub default_recovery : RecoveryConfig
default_recovery = record { policy = idempotent; delay_millis = 0 }

abbrev pub default_limits : LimitsConfig
default_limits = record {
  global_pending_tasks = 1000;
  global_active_tasks = 100;
  per_worker_pending_tasks = 100;
  per_worker_active_tasks = none;
  sync_active_tasks = 100;
}

abbrev pub default_server : ServerConfig
default_server = record { host = codes "0.0.0.0"; port = 8080 }

abbrev pub default_logging : LoggingConfig
default_logging = record { level = codes "INFO"; file_path = codes "/app/logs/bridge.log" }

abbrev pub default_audit : AuditConfig
default_audit = record { enabled = true; file_path = codes "/app/logs/audit.jsonl" }

-- What such a configuration is to be.
abbrev pub plain_config : List WorkerConfig → List ScopedKeyConfig → AppConfig
plain_config workers keys = record {
  workers = workers;
  scoped_keys = keys;
  buckets = default_buckets;
  breaker = default_breaker;
  recovery = default_recovery;
  limits = default_limits;
  sqlite_path = "/app/data/tasks.sqlite3";
  allow_implicit_root_filesystem = false;
  server = default_server;
  logging = default_logging;
  audit = default_audit;
}

-- The constraints on the required fields.
abbrev pub is_usable : GivenWorker → Bool
is_usable given =
    is_id (codes given.worker_id)
    && (not (is_nil given.display_name) && not (is_nil given.model_name))

plain_worker_valid :
    (given : GivenWorker) → is_usable given ≡ true → worker_is_valid (plain_worker given) ≡ true
unfolding worker_is_valid paths_are_absolute
plain_worker_valid given h = ground arith

plain_workers_valid :
    (given : List GivenWorker)
    → all is_usable given ≡ true
    → all worker_is_valid (map plain_worker given) ≡ true
plain_workers_valid [] h = refl
plain_workers_valid (g ∷ given) h =
    ground (arith, plain_worker_valid g, plain_workers_valid given (ground arith))

plain_config-valid :
    (workers : List WorkerConfig) (keys : List ScopedKeyConfig)
    → all worker_is_valid workers ≡ true
    → worker_ids_unique workers ≡ true
    → all key_is_valid keys ≡ true
    → is_nil keys ≡ false
    → is_valid (plain_config workers keys) ≡ true
unfolding is_valid scoped_keys_present limits_are_valid breaker_is_valid validate_buckets
plain_config-valid workers keys w u k p = rw w (rw u (rw k (rw p refl)))

module _ (urls : Urls) where
  -- The steps of `normalize_endpoint_url` after `strip`, and after the test of an empty text.
  of_path : Text → Text → Text
  of_path text path =
      if is_complete path
      then text
      else urls.urlunsplit (record (urls.urlsplit text) { path = normalized_path path })

  of_stripped : Text → Text
  of_stripped text = if is_nil text then text else of_path text (urls.urlsplit text).path

  normalize_endpoint_url-base :
      (text : Text)
      → strip text ≡ text
      → is_nil text ≡ false
      → (urls.urlsplit text).path ≡ []
      → normalize_endpoint_url urls.urlsplit urls.urlunsplit text
        ≡ urls.urlunsplit (record (urls.urlsplit text) { path = codes "/v1/chat/completions" })
  normalize_endpoint_url-base text stripped some_text no_path =
      opened ∙ ap of_stripped stripped ∙ full ∙ ap (of_path text) no_path ∙ completed_root
    where
      opened : normalize_endpoint_url urls.urlsplit urls.urlunsplit text ≡ of_stripped (strip text)
      opened = unfold normalize_endpoint_url of_stripped of_path in refl

      full : of_stripped text ≡ of_path text (urls.urlsplit text).path
      full = unfold of_stripped in rw some_text refl

      completed_root :
          of_path text []
          ≡ urls.urlunsplit (record (urls.urlsplit text) { path = codes "/v1/chat/completions" })
      completed_root = unfold of_path is_complete normalized_path completed in refl

kept_endpoint-IsBase :
    (urls : Urls) (given : GivenWorker)
    → IsBase urls given
    → kept_endpoint urls given.endpoint_url ≡ some given.kept_url
unfolding kept_endpoint
kept_endpoint-IsBase urls given b =
    ap urls.http_url
      (normalize_endpoint_url-base urls given.endpoint_url b.stripped b.some_text b.no_path)
    ∙ b.kept

filled_workers-plain :
    (urls : Urls) (given : List GivenWorker)
    → All (IsBase urls) given
    → filled_workers urls (map raw_worker given) ≡ some (map plain_worker given)
unfolding filled_workers with_worker filled_worker or_default
filled_workers-plain urls [] b = refl
filled_workers-plain urls (g ∷ given) (b, bs) =
    rw (kept_endpoint-IsBase urls g b) (rw (filled_workers-plain urls given bs) refl)

filled-plain :
    (urls : Urls) (given : List GivenWorker) (keys : List ScopedKeyConfig)
    → All (IsBase urls) given
    → filled urls (raw_config given keys) ≡ some (plain_config (map plain_worker given) keys)
unfolding filled with_workers filled_config or_default
filled-plain urls given keys b = rw (filled_workers-plain urls given b) refl

-- A configuration that gives the required fields of its workers, with base URLs as their endpoints, and its
-- scoped keys, and leaves out all the rest, loads: every other field has its default, and every worker
-- the path /v1/chat/completions on its base URL.
pub load_config-plain_config :
    (urls : Urls) (given : List GivenWorker) (keys : List ScopedKeyConfig)
    → All (IsBase urls) given
    → all is_usable given ≡ true
    → worker_ids_unique (map plain_worker given) ≡ true
    → all key_is_valid keys ≡ true
    → is_nil keys ≡ false
    → load_config urls (ok (raw_config given keys))
      ≡ ok (plain_config (map plain_worker given) keys)
unfolding load_config checked_config
load_config-plain_config urls given keys bases usable unique valid_keys some_keys =
    rw (filled-plain urls given keys bases) (
      rw
        (plain_config-valid (map plain_worker given) keys (plain_workers_valid given usable) unique
          valid_keys some_keys)
        (unfold apply_compatibility in refl))
