-- ===== src/Registry.antt =====
-- workers.py: the registry's lookup of a worker, and its count of active calls.
pub mod Circuit
pub mod Replies
pub mod Dispatch
pub mod Load
pub mod Health
pub mod Stored
pub mod Listing
pub mod Garbled
pub mod Request
pub mod Headers
use ai_worker_bridge_mcp.Base.{ℕ, String, List, [], ◌∷◌, if◌then◌else◌}
use ai_worker_bridge_mcp.Base.Exec.{Result, ok, err}
use ai_worker_bridge_mcp.Exceptions.{Exception, unknown_worker}
use ai_worker_bridge_mcp.Config.{WorkerConfig}
use text.Mathlib.Text.{◌==◌ as str_eq}

pub record Registry : Type 0 where
  pub workers : List WorkerConfig
  -- `_active`: how many calls of a worker are in flight.
  pub active : String → ℕ

unfoldable pub find_worker : String → List WorkerConfig → Result Exception WorkerConfig
find_worker worker_id [] = err (unknown_worker worker_id)
find_worker worker_id (w ∷ ws) =
    if str_eq w.worker_id worker_id then ok w else find_worker worker_id ws

-- `WorkerRegistry.get`
unfoldable pub get_worker : Registry → String → Result Exception WorkerConfig
unfolding find_worker
get_worker registry worker_id = find_worker worker_id registry.workers
