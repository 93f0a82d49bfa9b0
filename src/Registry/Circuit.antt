-- ===== src/Registry/Circuit.antt =====
-- workers.py: the circuit breaker of one worker. Times are in milliseconds of the monotonic clock;
-- `record_failure` reads it twice.
use ai_worker_bridge_mcp.Base.{
  ℕ, ◌+◌, String, ◌≡◌, refl, Bool, true, false, ◌&&◌, List, [], ◌∷◌, leb, ltb, length,
  if◌then◌else◌, arith, Bool-cases, inl, inr,
}
use ai_worker_bridge_mcp.Base.Exec.{Result, ok, err}
use ai_worker_bridge_mcp.Exceptions.{Exception, worker_unavailable}
use ai_worker_bridge_mcp.Config.{CircuitBreakerConfig}

pub record CircuitState : Type 0 where
  pub failures : ℕ
  pub down_until : ℕ

abbrev pub closed : CircuitState
closed = record { failures = 0; down_until = 0 }

unfoldable pub assert_available : String → ℕ → CircuitState → Result Exception (Unit {0})
assert_available worker_id now circuit =
    if ltb now circuit.down_until then err (worker_unavailable worker_id) else ok tt

unfoldable pub record_success : CircuitState → CircuitState
record_success circuit = closed

-- The circuit after a failure, and whether `inc_circuit_open` counts it.
unfoldable pub record_failure : CircuitBreakerConfig → ℕ → ℕ → CircuitState → CircuitState × Bool
record_failure breaker first second circuit =
    if leb breaker.failure_threshold (circuit.failures + 1)
    then (
      record { failures = circuit.failures + 1; down_until = second + breaker.recovery_millis },
      leb circuit.down_until first,
    )
    else (record circuit { failures = circuit.failures + 1 }, false)

-- Failures in a row, each with its two readings of the clock, the latest at the head.
unfoldable pub failed_calls : CircuitBreakerConfig → List (ℕ × ℕ) → CircuitState
unfolding record_failure
failed_calls breaker [] = closed
failed_calls breaker ((first, second) ∷ earlier) =
    (record_failure breaker first second (failed_calls breaker earlier)).0

failed_calls-failures :
    (breaker : CircuitBreakerConfig) (calls : List (ℕ × ℕ))
    → (failed_calls breaker calls).failures ≡ length calls
unfolding failed_calls
failed_calls-failures breaker [] = refl
failed_calls-failures breaker ((first, second) ∷ earlier) =
    ground (arith, failed_calls-failures breaker earlier)

-- Below the threshold the worker has never been down.
failed_calls_below :
    (breaker : CircuitBreakerConfig) (calls : List (ℕ × ℕ))
    → leb breaker.failure_threshold (length calls) ≡ false
    → (failed_calls breaker calls).down_until ≡ 0
unfolding failed_calls
failed_calls_below breaker [] h = refl
failed_calls_below breaker ((first, second) ∷ earlier) h =
    ground (arith, failed_calls-failures breaker earlier, failed_calls_below breaker earlier)

-- After failures in a row, the last one at `second`, the worker is refused exactly when there were at
-- least as many as the threshold and the recovery time since the last one is not over.
pub assert_available-failed_calls :
    (breaker : CircuitBreakerConfig) (first second : ℕ) (earlier : List (ℕ × ℕ))
    (worker_id : String) (now : ℕ)
    → assert_available worker_id now (failed_calls breaker ((first, second) ∷ earlier)) ≡ (
        if leb breaker.failure_threshold (length earlier + 1)
          && ltb now (second + breaker.recovery_millis)
        then err (worker_unavailable worker_id)
        else ok tt)
assert_available-failed_calls breaker first second earlier worker_id now =
    elim (Bool-cases (leb breaker.failure_threshold (length earlier + 1))) [
      | inl e ↦ ground (arith, reached e)
      | inr e ↦ ground (arith, below e)
    ]
  where
    reached :
        leb breaker.failure_threshold (length earlier + 1) ≡ true
        → assert_available worker_id now (failed_calls breaker ((first, second) ∷ earlier)) ≡ (
            if ltb now (second + breaker.recovery_millis)
            then err (worker_unavailable worker_id)
            else ok tt)
    reached e =
        unfold assert_available failed_calls in
        ground (arith, failed_calls-failures breaker earlier)

    below :
        leb breaker.failure_threshold (length earlier + 1) ≡ false
        → assert_available worker_id now (failed_calls breaker ((first, second) ∷ earlier)) ≡ ok tt
    below e =
        unfold assert_available in
        ground (arith, failed_calls_below breaker ((first, second) ∷ earlier))
