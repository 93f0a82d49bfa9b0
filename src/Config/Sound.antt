-- ===== src/Config/Sound.antt =====
-- config.py: what the rest of the bridge can rely on in a configuration that loads.
use ai_worker_bridge_mcp.Base.{◌≤◌, ◌≡◌, true, false, List, All, is_nil}
use ai_worker_bridge_mcp.Base.Text.{Text, codes, starts_with}
use ai_worker_bridge_mcp.Base.Exec.{ok}
use ai_worker_bridge_mcp.Config.{WorkerConfig, ScopedKeyConfig}
use ai_worker_bridge_mcp.Config.Validators.{AppConfig}
use ai_worker_bridge_mcp.Registry.{find_worker}
use text.Mathlib.Text.{◌==◌ as str_eq}

-- Every worker of the list is the one that its id finds.
abbrev Finds : List WorkerConfig → List WorkerConfig → Type 0
Finds all_workers ws = All (λ (w : WorkerConfig). find_worker w.worker_id all_workers ≡ ok w) ws

-- What is asked of a worker: it is found by its id, may run something, and only in absolute paths.
pub record IsUsable (all_workers : List WorkerConfig) (w : WorkerConfig) : Type 0 where
  pub found : find_worker w.worker_id all_workers ≡ ok w
  pub modes : is_nil w.allowed_modes ≡ false
  pub capacity : 1 ≤ w.max_concurrent_tasks
  pub reads : All (λ path. starts_with path (codes "/") ≡ true) w.filesystem.read
  pub writes : All (λ path. starts_with path (codes "/") ≡ true) w.filesystem.write

pub record IsSound (config : AppConfig) : Type 0 where
  pub workers : All (IsUsable config.workers) config.workers
  pub some_key : is_nil config.scoped_keys ≡ false
  pub scopes : All (λ (k : ScopedKeyConfig). is_nil k.scopes ≡ false) config.scoped_keys
  pub threshold : 1 ≤ config.breaker.failure_threshold
