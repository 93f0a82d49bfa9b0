-- ===== src/Config.antt =====
-- config.py: the validated configuration that the bridge runs with. Times are in milliseconds.
pub mod Validators
pub mod Sound
pub mod Endpoints
pub mod Fields
pub mod Loading
pub mod Defaults
use ai_worker_bridge_mcp.Base.{ℕ, String, Bool, true, false, Option, List}
use ai_worker_bridge_mcp.Base.Text.{Text}

pub data Mode : Type 0 where
  sync async : Mode

pub data Scope : Type 0 where
  read submit cancel admin : Scope

pub data RecoveryPolicy : Type 0 where
  manual idempotent always : RecoveryPolicy

pub record TimeoutLimits : Type 0 where
  pub sync_millis : ℕ
  pub async_millis : ℕ

pub record FilesystemPermissions : Type 0 where
  pub read : List Text
  pub write : List Text
  pub canonicalize : Bool

pub data AuthType : Type 0 where
  no_auth bearer basic : AuthType

pub record WorkerConfig : Type 0 where
  pub worker_id : String
  pub display_name : Text
  pub endpoint_url : Text
  pub auth_type : AuthType
  pub secret_env : Option String
  pub username_env : Option String
  pub password_env : Option String
  pub model_name : Text
  pub default_system_prompt : Option Text
  pub capabilities : List Text
  pub description : Text
  pub allowed_modes : List Mode
  pub timeout_limits : TimeoutLimits
  pub filesystem : FilesystemPermissions
  pub max_concurrent_tasks : ℕ

pub record CircuitBreakerConfig : Type 0 where
  pub failure_threshold : ℕ
  pub recovery_millis : ℕ

pub record RecoveryConfig : Type 0 where
  pub policy : RecoveryPolicy
  pub delay_millis : ℕ

pub record LimitsConfig : Type 0 where
  pub global_pending_tasks : ℕ
  pub global_active_tasks : ℕ
  pub per_worker_pending_tasks : ℕ
  pub per_worker_active_tasks : Option ℕ
  pub sync_active_tasks : ℕ

abbrev pub mode_eq : Mode → Mode → Bool
mode_eq sync sync = true
mode_eq async async = true
mode_eq _ _ = false

abbrev pub scope_eq : Scope → Scope → Bool
scope_eq read read = true
scope_eq submit submit = true
scope_eq cancel cancel = true
scope_eq admin admin = true
scope_eq _ _ = false

pub record ScopedKeyConfig : Type 0 where
  pub key_id : String
  pub env : String
  pub scopes : List Scope
