-- ===== src/Examples/Counted.antt =====
-- The theorems of the circuit breaker and of the histogram on concrete runs.
use ai_worker_bridge_mcp.Base.{arith, ℕ, ◌+◌, ◌≡◌, refl, some, List, [], ◌∷◌}
use ai_worker_bridge_mcp.Base.Exec.{ok, err}
use ai_worker_bridge_mcp.Json.{null, arr, nil}
use ai_worker_bridge_mcp.Exceptions.{worker_unavailable, timeout_error}
use ai_worker_bridge_mcp.Config.{CircuitBreakerConfig}
use ai_worker_bridge_mcp.Registry.Circuit.{
  assert_available, failed_calls, assert_available-failed_calls,
}
use ai_worker_bridge_mcp.Registry.Dispatch.{WorkerCounts, new_slot, enter, end_call}
use ai_worker_bridge_mcp.Registry.Load.{
  Load, enters, ends, Loads, start, step, idle, IsBalanced, Loads-IsBalanced,
}
use ai_worker_bridge_mcp.Registry.Garbled.{
  TimedReply, after_replies, assert_available-after_replies,
}
use ai_worker_bridge_mcp.Metrics.Latency.{
  observed, empty_histogram, cumulative, observed-cumulative, IsAscending, validate_buckets,
}
use ai_worker_bridge_mcp.Metrics.Rising.{IsRising, observed-IsRising}

abbrev breaker : CircuitBreakerConfig
breaker = record { failure_threshold = 2; recovery_millis = 1000 }

assert_available-failed_calls_example :
    assert_available "w" 1500 (failed_calls breaker ((900, 901) ∷ (500, 501) ∷ []))
    ≡ err (worker_unavailable "w")
assert_available-failed_calls_example =
    assert_available-failed_calls breaker 900 901 ((500, 501) ∷ []) "w" 1500

observed-cumulative_example :
    (observed (100 ∷ 250 ∷ []) (90 ∷ 200 ∷ 300 ∷ [])).buckets
    ≡ cumulative (100 ∷ 250 ∷ []) (90 ∷ 200 ∷ 300 ∷ [])
observed-cumulative_example = observed-cumulative (100 ∷ 250 ∷ []) (90 ∷ 200 ∷ 300 ∷ [])

abbrev bounds : List ℕ
bounds = 100 ∷ 250 ∷ []

accepts : validate_buckets bounds ≡ some bounds
unfolding validate_buckets
accepts = refl

observed-IsRising_example :
    IsAscending 0 bounds
    × IsRising 0
        (observed bounds (90 ∷ 200 ∷ 300 ∷ [])).calls
        (observed bounds (90 ∷ 200 ∷ 300 ∷ [])).buckets
observed-IsRising_example = observed-IsRising bounds (90 ∷ 200 ∷ 300 ∷ []) accepts

abbrev counts : WorkerCounts
counts = record { calls = empty_histogram bounds; failures = 3; opened = 1 }

-- Two calls, the second one begun before the first is answered.
abbrev one_begun : Load
one_begun = record { slot = enter (new_slot 2 counts); in_flight = 1; ended = 0; failed = 0 }

abbrev two_begun : Load
two_begun = record {
  slot = enter (enter (new_slot 2 counts));
  in_flight = 2;
  ended = 0;
  failed = 0;
}

abbrev one_ended : Load
one_ended = record {
  slot = (end_call breaker 10 11 500 (err (timeout_error [])) two_begun.slot).1;
  in_flight = 1;
  ended = 1;
  failed = 1;
}

two_calls : Loads breaker (idle 2 counts) one_ended
unfolding enter new_slot end_call
two_calls =
    step (step (step start (enters 1 refl refl)) (enters 0 refl refl))
      (ends 10 11 500 1 (err (timeout_error [])) refl refl)

Loads-IsBalanced_example : IsBalanced 2 counts one_ended
Loads-IsBalanced_example = Loads-IsBalanced breaker 2 counts two_calls

abbrev garbled : List TimedReply
garbled =
    record { before = 20; after = 21; body = null }
    ∷ record { before = 10; after = 11; body = arr nil }
    ∷ []

assert_available-after_replies_example :
    (assert_available "w" 30 (after_replies breaker garbled (new_slot 2 counts)).circuit ≡ ok tt)
    × ((after_replies breaker garbled (new_slot 2 counts)).failures ≡ counts.failures + 2)
assert_available-after_replies_example =
    assert_available-after_replies breaker (ground arith) 2 counts garbled "w" 30 (refl, (refl, tt))
