-- ===== src/Registry/Dispatch.antt =====
-- workers.py, `call`: one worker's share of the registry's state, around the HTTP request. The request's
-- outcome, the readings of the clock and the duration of the call are given.
use ai_worker_bridge_mcp.Base.{ℕ, ◌+◌, ◌-◌, Bool, if◌then◌else◌}
use ai_worker_bridge_mcp.Base.Exec.{Result, ok, err}
use ai_worker_bridge_mcp.Json.{Json}
use ai_worker_bridge_mcp.Exceptions.{Exception}
use ai_worker_bridge_mcp.Config.{CircuitBreakerConfig}
use ai_worker_bridge_mcp.Metrics.Latency.{Histogram, observe_worker_call}
use ai_worker_bridge_mcp.Registry.Circuit.{CircuitState, closed, record_success, record_failure}
use ai_worker_bridge_mcp.Registry.Replies.{normalize_response}

-- The entries of one worker: `_circuits`, `_active`, the permits that its semaphore has left, and its
-- metrics of calls, failures and opened circuits.
pub record Slot : Type 0 where
  pub circuit : CircuitState
  pub active : ℕ
  pub permits : ℕ
  pub calls : Histogram
  pub failures : ℕ
  pub opened : ℕ

-- What `MetricsRegistry` holds of the worker.
pub record WorkerCounts : Type 0 where
  pub calls : Histogram
  pub failures : ℕ
  pub opened : ℕ

-- `WorkerRegistry.__init__`, for a worker with the given `max_concurrent_tasks`, and the metrics that the
-- registry is given: those of a registry that it replaces go on.
unfoldable pub new_slot : ℕ → WorkerCounts → Slot
new_slot max_concurrent_tasks counts = record {
  circuit = closed;
  active = 0;
  permits = max_concurrent_tasks;
  calls = counts.calls;
  failures = counts.failures;
  opened = counts.opened;
}

-- The semaphore is acquired, and the call counted; there must be a permit.
unfoldable pub enter : Slot → Slot
enter slot = record slot { active = slot.active + 1; permits = slot.permits - 1 }

-- `inc_worker_failure` and `inc_circuit_open`, and the circuit after the failure.
unfoldable pub failed_with : CircuitState × Bool → Slot → Slot
failed_with (circuit, opens) slot = record slot {
  circuit = circuit;
  failures = slot.failures + 1;
  opened = if opens then slot.opened + 1 else slot.opened;
}

-- `record_failure`, with its metrics.
unfoldable pub count_failure : CircuitBreakerConfig → ℕ → ℕ → Slot → Slot
unfolding record_failure failed_with
count_failure breaker before after slot =
    failed_with (record_failure breaker before after slot.circuit) slot

-- `return self._normalize_response(data)`, and `except Exception`.
unfoldable pub returned :
    CircuitBreakerConfig → ℕ → ℕ → Result Exception Json → Slot → Result Exception Json × Slot
unfolding count_failure
returned breaker before after (ok result) slot = (ok result, slot)
returned breaker before after (err e) slot = (err e, count_failure breaker before after slot)

-- The end of the `try`, for what the request returns or raises.
unfoldable pub on_response :
    CircuitBreakerConfig → ℕ → ℕ → Result Exception Json → Slot → Result Exception Json × Slot
unfolding returned normalize_response record_success
on_response breaker before after (ok body) slot =
    returned breaker before after (normalize_response body)
      (record slot { circuit = record_success slot.circuit })
on_response breaker before after (err e) slot = (err e, count_failure breaker before after slot)

-- The `finally`, and the end of `async with` the semaphore. A cancelled call does only this.
unfoldable pub leave : ℕ → Slot → Slot
unfolding observe_worker_call
leave micros slot = record slot {
  active = slot.active - 1;
  permits = slot.permits + 1;
  calls = observe_worker_call micros slot.calls;
}

unfoldable pub left : ℕ → Result Exception Json × Slot → Result Exception Json × Slot
unfolding leave
left micros (result, slot) = (result, leave micros slot)

-- From the request's outcome to the end of the call.
unfoldable pub end_call :
    CircuitBreakerConfig → ℕ → ℕ → ℕ → Result Exception Json → Slot → Result Exception Json × Slot
unfolding on_response left
end_call breaker before after micros outcome slot =
    left micros (on_response breaker before after outcome slot)
