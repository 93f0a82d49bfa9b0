-- ===== src/Config/Validators.antt =====
-- config.py: the validators of the fields that the model has, and `load_config`.
use ai_worker_bridge_mcp.Base.{
  ℕ, String, Bool, true, not, ◌&&◌, ◌||◌, Option, none, some, List, [], ◌∷◌, map, any, all, is_nil,
  is_some, leb, ◌==◌, if◌then◌else◌,
}
use ai_worker_bridge_mcp.Base.Text.{Text, codes, starts_with}
use ai_worker_bridge_mcp.Base.Exec.{Result, ok, err}
use ai_worker_bridge_mcp.Config.{
  WorkerConfig, CircuitBreakerConfig, RecoveryConfig, LimitsConfig, ScopedKeyConfig,
}
use ai_worker_bridge_mcp.Metrics.Latency.{validate_buckets}
use text.Mathlib.Text.{◌==◌ as str_eq}

pub record ServerConfig : Type 0 where
  pub host : Text
  pub port : ℕ

pub record LoggingConfig : Type 0 where
  pub level : Text
  pub file_path : Text

pub record AuditConfig : Type 0 where
  pub enabled : Bool
  pub file_path : Text

-- `AppConfig`; the bounds of the buckets are in microseconds.
pub record AppConfig : Type 0 where
  pub workers : List WorkerConfig
  pub scoped_keys : List ScopedKeyConfig
  pub buckets : List ℕ
  pub breaker : CircuitBreakerConfig
  pub recovery : RecoveryConfig
  pub limits : LimitsConfig
  pub sqlite_path : String
  pub allow_implicit_root_filesystem : Bool
  pub server : ServerConfig
  pub logging : LoggingConfig
  pub audit : AuditConfig

unfoldable pub paths_are_absolute : List Text → Bool
unfolding starts_with
paths_are_absolute paths = all (λ path. starts_with path (codes "/")) paths

between : ℕ → ℕ → ℕ → Bool
between low high c = leb low c && leb c high

-- `[a-zA-Z0-9_.-]`
is_id_char : ℕ → Bool
unfolding between
is_id_char c =
    between 97 122 c || (between 65 90 c || (between 48 57 c || (c == 95 || (c == 46 || c == 45))))

-- The pattern of `worker_id` and of `key_id`.
unfoldable pub is_id : Text → Bool
unfolding is_id_char
is_id text = not (is_nil text) && all is_id_char text

unfoldable pub worker_is_valid : WorkerConfig → Bool
unfolding is_id paths_are_absolute
worker_is_valid w =
    is_id (codes w.worker_id)
    && (not (is_nil w.display_name)
        && (not (is_nil w.model_name)
            && (not (is_nil w.allowed_modes)
                && (leb 1 w.timeout_limits.sync_millis
                    && (leb 1 w.timeout_limits.async_millis
                        && (paths_are_absolute w.filesystem.read
                            && (paths_are_absolute w.filesystem.write
                                && leb 1 w.max_concurrent_tasks)))))))

unfoldable pub key_is_valid : ScopedKeyConfig → Bool
unfolding is_id
key_is_valid k = is_id (codes k.key_id) && (not (is_nil (codes k.env)) && not (is_nil k.scopes))

-- `ge=1` of an optional limit.
at_least_one : Option ℕ → Bool
at_least_one none = true
at_least_one (some n) = leb 1 n

unfoldable pub limits_are_valid : LimitsConfig → Bool
unfolding at_least_one
limits_are_valid limits =
    leb 1 limits.global_active_tasks
    && (at_least_one limits.per_worker_active_tasks && leb 1 limits.sync_active_tasks)

unfoldable pub breaker_is_valid : CircuitBreakerConfig → Bool
breaker_is_valid breaker = leb 1 breaker.failure_threshold && leb 1 breaker.recovery_millis

-- `worker_ids_unique`: no two workers have one id.
unfoldable pub worker_ids_unique : List WorkerConfig → Bool
worker_ids_unique [] = true
worker_ids_unique (w ∷ ws) =
    not (any (λ (v : WorkerConfig). str_eq w.worker_id v.worker_id) ws) && worker_ids_unique ws

-- `validate_scoped_keys_present`
unfoldable pub scoped_keys_present : List ScopedKeyConfig → Bool
scoped_keys_present keys = not (is_nil keys)

unfoldable pub is_valid : AppConfig → Bool
unfolding worker_is_valid worker_ids_unique key_is_valid scoped_keys_present limits_are_valid
    breaker_is_valid validate_buckets
is_valid config =
    all worker_is_valid config.workers
    && (worker_ids_unique config.workers
        && (all key_is_valid config.scoped_keys
            && (scoped_keys_present config.scoped_keys
                && (is_some (validate_buckets config.buckets)
                    && (breaker_is_valid config.breaker && limits_are_valid config.limits)))))

-- The body of the loop of `apply_compatibility`.
unfoldable pub with_root : WorkerConfig → WorkerConfig
with_root w =
    if is_nil w.filesystem.read && is_nil w.filesystem.write
    then record w {
      filesystem = record w.filesystem { read = codes "/" ∷ []; write = codes "/" ∷ [] };
    }
    else w

unfoldable pub apply_compatibility : AppConfig → AppConfig
unfolding with_root
apply_compatibility config =
    if config.allow_implicit_root_filesystem
    then record config { workers = map with_root config.workers }
    else config

-- The fields with the validators, and `apply_compatibility`; `none` where a field is no value of its type.
unfoldable pub checked_config : Option AppConfig → Result Text AppConfig
unfolding is_valid apply_compatibility
checked_config none = err (codes "validation error")
checked_config (some config) =
    if is_valid config then ok (apply_compatibility config) else err (codes "validation error")
