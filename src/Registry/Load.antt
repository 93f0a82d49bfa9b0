-- ===== src/Registry/Load.antt =====
-- workers.py, `call`: the calls of one worker in any order, each begun, answered or cancelled.
use ai_worker_bridge_mcp.Base.{ℕ, suc, ◌+◌, ◌-◌, ◌≡◌, ◌∙◌, refl, sym, ap, subst, Bool, arith}
use ai_worker_bridge_mcp.Base.Exec.{Result, ok, err}
use ai_worker_bridge_mcp.Json.{Json}
use ai_worker_bridge_mcp.Exceptions.{Exception}
use ai_worker_bridge_mcp.Config.{CircuitBreakerConfig}
use ai_worker_bridge_mcp.Metrics.Latency.{Histogram, observe_worker_call}
use ai_worker_bridge_mcp.Registry.Circuit.{CircuitState, record_failure, record_success}
use ai_worker_bridge_mcp.Registry.Replies.{normalize_response}
use ai_worker_bridge_mcp.Registry.Dispatch.{
  Slot, WorkerCounts, new_slot, enter, failed_with, count_failure, returned, on_response, leave,
  left, end_call,
}

-- The slot of a worker; how many calls hold a permit, how many have ended, and how many of those have
-- raised an exception of the request or of its reply.
pub record Load : Type 0 where
  pub slot : Slot
  pub in_flight : ℕ
  pub ended : ℕ
  pub failed : ℕ

abbrev pub raised : Result Exception Json → ℕ
raised (ok result) = 0
raised (err e) = 1

pub data LoadStep (breaker : CircuitBreakerConfig) (a b : Load) : Type 0 where
  enters :
      (more : ℕ)
      → a.slot.permits ≡ suc more
      → b ≡ record a { slot = enter a.slot; in_flight = a.in_flight + 1 }
      → LoadStep breaker a b
  ends :
      (before after micros more : ℕ) (outcome : Result Exception Json)
      → a.in_flight ≡ suc more
      → b ≡ record {
        slot = (end_call breaker before after micros outcome a.slot).1;
        in_flight = more;
        ended = a.ended + 1;
        failed = a.failed + raised (end_call breaker before after micros outcome a.slot).0;
      }
      → LoadStep breaker a b
  is_cancelled :
      (micros more : ℕ)
      → a.in_flight ≡ suc more
      → b ≡ record a { slot = leave micros a.slot; in_flight = more; ended = a.ended + 1 }
      → LoadStep breaker a b

pub data Loads (breaker : CircuitBreakerConfig) (a : Load) : Load → Type 0 where
  start : Loads breaker a a
  step : {b c : Load} → Loads breaker a b → LoadStep breaker b c → Loads breaker a c

abbrev pub idle : ℕ → WorkerCounts → Load
idle limit counts = record { slot = new_slot limit counts; in_flight = 0; ended = 0; failed = 0 }

-- `_active` counts the calls in flight, which with the permits left make up the limit; the histogram
-- has counted, over what it had before, the calls that have ended, and the metric of failures those that
-- raised.
pub record IsBalanced (limit : ℕ) (counts : WorkerCounts) (load : Load) : Type 0 where
  pub active : load.slot.active ≡ load.in_flight
  pub permits : load.in_flight + load.slot.permits ≡ limit
  pub calls : load.slot.calls.calls ≡ counts.calls.calls + load.ended
  pub failures : load.slot.failures ≡ counts.failures + load.failed

-- What the end of the `try` does to the slot: the failures alone are counted.
record Counts (slot : Slot) (r : Result Exception Json × Slot) : Type 0 where
  active : r.1.active ≡ slot.active
  permits : r.1.permits ≡ slot.permits
  calls : r.1.calls ≡ slot.calls
  failures : r.1.failures ≡ slot.failures + raised r.0

failed_with-Counts :
    (e : Exception) (c : CircuitState × Bool) (slot : Slot)
    → Counts slot (err e, failed_with c slot)
unfolding failed_with
failed_with-Counts e (circuit, opens) slot = record {
  active = refl;
  permits = refl;
  calls = refl;
  failures = refl;
}

-- What the end of a call does to the slot.
record Ends (slot : Slot) (r : Result Exception Json × Slot) : Type 0 where
  active : r.1.active ≡ slot.active - 1
  permits : r.1.permits ≡ slot.permits + 1
  calls : r.1.calls.calls ≡ slot.calls.calls + 1
  failures : r.1.failures ≡ slot.failures + raised r.0

left-Ends :
    (micros : ℕ) (slot : Slot) (r : Result Exception Json × Slot)
    → Counts slot r
    → Ends slot (left micros r)
left-Ends micros slot (result, next) c =
    unfold left leave observe_worker_call in
    record {
      active = ap (λ n. n - 1) c.active;
      permits = ap (λ n. n + 1) c.permits;
      calls = ap (λ (h : Histogram). h.calls + 1) c.calls;
      failures = c.failures;
    }

module _ (breaker : CircuitBreakerConfig) (before after : ℕ) where
  returned-Counts :
      (r : Result Exception Json) (slot : Slot) → Counts slot (returned breaker before after r slot)
  returned-Counts (ok result) slot =
      unfold returned in
      record { active = refl; permits = refl; calls = refl; failures = omega arith }
  returned-Counts (err e) slot =
      unfold returned count_failure in
      failed_with-Counts e (record_failure breaker before after slot.circuit) slot

  on_response-Counts :
      (outcome : Result Exception Json) (slot : Slot)
      → Counts slot (on_response breaker before after outcome slot)
  on_response-Counts (ok body) slot =
      unfold on_response in
      let c : Counts _ (
          returned breaker before after (normalize_response body)
            (record slot { circuit = record_success slot.circuit })) =
        returned-Counts (normalize_response body)
          (record slot { circuit = record_success slot.circuit }) in
      record { active = c.active; permits = c.permits; calls = c.calls; failures = c.failures }
  on_response-Counts (err e) slot =
      unfold on_response count_failure in
      failed_with-Counts e (record_failure breaker before after slot.circuit) slot

  end_call-Ends :
      (micros : ℕ) (outcome : Result Exception Json) (slot : Slot)
      → Ends slot (end_call breaker before after micros outcome slot)
  end_call-Ends micros outcome slot =
      unfold end_call in
      left-Ends micros slot (on_response breaker before after outcome slot)
        (on_response-Counts outcome slot)

idle-IsBalanced : (limit : ℕ) (counts : WorkerCounts) → IsBalanced limit counts (idle limit counts)
unfolding new_slot
idle-IsBalanced limit counts = record {
  active = refl;
  permits = omega arith;
  calls = omega arith;
  failures = omega arith;
}

LoadStep-IsBalanced :
    (breaker : CircuitBreakerConfig) (limit : ℕ) (counts : WorkerCounts) {a b : Load}
    → IsBalanced limit counts a
    → LoadStep breaker a b
    → IsBalanced limit counts b
LoadStep-IsBalanced breaker limit counts {a} h (enters more free e) =
    subst (IsBalanced limit counts) (sym e) (
      unfold enter in
      record {
        active = ap (λ n. n + 1) h.active;
        permits = let p : a.in_flight + a.slot.permits ≡ limit = h.permits in ground (arith, free);
        calls = h.calls;
        failures = h.failures;
      })
LoadStep-IsBalanced breaker limit counts {a} h (ends before after micros more outcome busy e) =
    let c : Ends a.slot (end_call breaker before after micros outcome a.slot) =
      end_call-Ends breaker before after micros outcome a.slot in
    let p : a.in_flight + a.slot.permits ≡ limit = h.permits in
    subst (IsBalanced limit counts) (sym e) (record {
      active = c.active ∙ ap (λ n. n - 1) (h.active ∙ busy) ∙ omega arith;
      permits = ap (λ n. more + n) c.permits ∙ ground (arith, busy);
      calls = c.calls ∙ ap (λ n. n + 1) h.calls ∙ omega arith;
      failures =
          c.failures
          ∙ ap (λ n. n + raised (end_call breaker before after micros outcome a.slot).0) h.failures
          ∙ omega arith;
    })
LoadStep-IsBalanced breaker limit counts {a} h (is_cancelled micros more busy e) =
    let p : a.in_flight + a.slot.permits ≡ limit = h.permits in
    subst (IsBalanced limit counts) (sym e) (
      unfold leave observe_worker_call in
      record {
        active = ap (λ n. n - 1) (h.active ∙ busy) ∙ omega arith;
        permits = ground (arith, busy);
        calls = ap (λ n. n + 1) h.calls ∙ omega arith;
        failures = h.failures;
      })

-- However the calls of a worker begin, are answered, raise or are cancelled, from a new registry on, and
-- while no call of a registry that it has replaced adds to the metrics: its count of active calls is the number of calls that hold a permit, these and the permits left make
-- up max_concurrent_tasks, and over what the metrics had when the registry began, the histogram has
-- counted every call that has ended, and the metric of failures every call that raised an exception of
-- the request or of its reply.
pub Loads-IsBalanced :
    (breaker : CircuitBreakerConfig) (limit : ℕ) (counts : WorkerCounts) {load : Load}
    → Loads breaker (idle limit counts) load
    → IsBalanced limit counts load
Loads-IsBalanced breaker limit counts start = idle-IsBalanced limit counts
Loads-IsBalanced breaker limit counts (step r s) =
    LoadStep-IsBalanced breaker limit counts (Loads-IsBalanced breaker limit counts r) s
