-- ===== src/Watchdog.antt =====
-- ai_watchdog/watchdog.py: the configuration of the watchdog, its errors, and the numbers it reads.
-- A time is in milliseconds. An error holds the parts of its text instead of the text.
pub mod Settings
pub mod Polling
pub mod Waiting
pub mod Validated
pub mod Endings
use ai_worker_bridge_mcp.Base.{ℕ, Bool, true, false, Option, ltb}
use ai_worker_bridge_mcp.Base.Text.{Text}
use ai_worker_bridge_mcp.Json.{Json}

-- A Python `float`, as far as the watchdog tells one from another; `negative` is below zero.
pub data Float : Type 0 where
  millis : ℕ → Float
  negative infinity nan : Float

-- `x < minimum`: a NaN is not below any number.
unfoldable pub less : Float → ℕ → Bool
less (millis n) minimum = ltb n minimum
less negative minimum = true
less infinity minimum = false
less nan minimum = false

-- A Python `int`; `negsuc n` is -(n + 1).
pub data ℤ : Type 0 where
  pos negsuc : ℕ → ℤ

unfoldable pub int_less : ℤ → ℕ → Bool
int_less (pos n) minimum = ltb n minimum
int_less (negsuc n) minimum = true

pub record WatchdogConfig : Type 0 where
  pub base_url : Text
  pub api_key : Text
  pub poll_interval : Float
  pub timeout_seconds : Float
  pub request_timeout : Float
  pub max_transient_errors : ℤ

-- Why a value is not accepted.
pub data Fault : Type 0 where
  required not_a_number too_small not_numeric : Fault

pub data WatchdogError : Type 0 where
  -- `ConfigError`, with the name of the setting.
  config_error : Text → Fault → WatchdogError
  -- `BridgeAPIError`: an HTTP status, a body that is no JSON object, `ok` false, or no task state.
  http_status : ℕ → Text → WatchdogError
  invalid_json non_object missing_state : WatchdogError
  reported : Text → WatchdogError
  -- `TransientHTTPError`, and the one that is raised after too many in a row.
  transient : Text → WatchdogError
  too_many_transient : Text → WatchdogError
  -- `WatchdogTimeoutError`, with the last state.
  timed_out : Text → WatchdogError
  -- What `time.sleep` raises for a negative, a NaN or an infinite number; no `WatchdogError`.
  unsleepable : WatchdogError
