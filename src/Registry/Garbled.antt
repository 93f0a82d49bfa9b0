-- ===== src/Registry/Garbled.antt =====
-- workers.py, `call`: a worker whose replies are JSON, but no objects.
use ai_worker_bridge_mcp.Base.{
  ℕ, ◌+◌, ◌≤◌, String, ◌≡◌, ◌∙◌, refl, ap, Bool, true, false, List, [], ◌∷◌, All, length, arith,
}
use ai_worker_bridge_mcp.Base.Exec.{ok, err}
use ai_worker_bridge_mcp.Json.{Json, null, bool, int, neg, str, arr, obj}
use ai_worker_bridge_mcp.Exceptions.{Exception}
use ai_worker_bridge_mcp.Config.{CircuitBreakerConfig}
use ai_worker_bridge_mcp.Registry.Circuit.{closed, assert_available, record_failure, record_success}
use ai_worker_bridge_mcp.Registry.Replies.{choice, with_content, normalize_response}
use ai_worker_bridge_mcp.Registry.Dispatch.{
  Slot, WorkerCounts, new_slot, failed_with, count_failure, returned, on_response,
}

-- A reply with its two readings of the clock.
pub record TimedReply : Type 0 where
  pub before : ℕ
  pub after : ℕ
  pub body : Json

abbrev pub is_object : Json → Bool
is_object (obj fs) = true
is_object _ = false

-- The slot after the replies, the latest at the head.
unfoldable pub after_replies : CircuitBreakerConfig → List TimedReply → Slot → Slot
unfolding on_response
after_replies breaker [] slot = slot
after_replies breaker (reply ∷ earlier) slot =
    (on_response breaker reply.before reply.after (ok reply.body)
      (after_replies breaker earlier slot)).1

normalize_response-raises :
    (body : Json) → is_object body ≡ false → (e : Exception) × (normalize_response body ≡ err e)
unfolding normalize_response choice with_content
normalize_response-raises null h = (_, refl)
normalize_response-raises (bool b) h = (_, refl)
normalize_response-raises (int n) h = (_, refl)
normalize_response-raises (neg n) h = (_, refl)
normalize_response-raises (str s) h = (_, refl)
normalize_response-raises (arr vs) h = (_, refl)
normalize_response-raises (obj fs) h = absurd cc

-- After one such reply.
record Garbled (slot next : Slot) : Type 0 where
  circuit : next.circuit ≡ record { failures = 1; down_until = 0 }
  failures : next.failures ≡ slot.failures + 1

module _ (breaker : CircuitBreakerConfig) (enough : 2 ≤ breaker.failure_threshold) where
  first_failure :
      (before after : ℕ)
      → record_failure breaker before after closed
        ≡ (record { failures = 1; down_until = 0 }, false)
  first_failure before after = unfold record_failure in ground arith

  count_failure-Garbled :
      (before after : ℕ) (slot : Slot)
      → Garbled slot (count_failure breaker before after (record slot { circuit = closed }))
  count_failure-Garbled before after slot =
      unfold count_failure in
      rw (first_failure before after)
        (unfold failed_with in record { circuit = refl; failures = refl })

  on_response-Garbled :
      (reply : TimedReply) (slot : Slot)
      → is_object reply.body ≡ false
      → Garbled slot (on_response breaker reply.before reply.after (ok reply.body) slot).1
  on_response-Garbled reply slot h =
      let (e, raises) = normalize_response-raises reply.body h in
      unfold on_response in
      rw raises
        (unfold returned record_success in count_failure-Garbled reply.before reply.after slot)

  -- Where the threshold is at least two, no number of replies that are not JSON objects opens a new
  -- worker's circuit, although the metric of failures grows by every one of them: each reply is
  -- recorded as a success before it is recorded as a failure.
  pub assert_available-after_replies :
      (limit : ℕ) (counts : WorkerCounts) (replies : List TimedReply) (worker_id : String) (now : ℕ)
      → All (λ (reply : TimedReply). is_object reply.body ≡ false) replies
      → (assert_available worker_id now
            (after_replies breaker replies (new_slot limit counts)).circuit
          ≡ ok tt)
        × ((after_replies breaker replies (new_slot limit counts)).failures
            ≡ counts.failures + length replies)
  unfolding after_replies
  assert_available-after_replies limit counts [] worker_id now h =
      unfold new_slot assert_available in (ground arith, omega arith)
  assert_available-after_replies limit counts (reply ∷ earlier) worker_id now (h, hs) =
      let slot : Slot = after_replies breaker earlier (new_slot limit counts) in
      let g : Garbled slot _ = on_response-Garbled reply slot h in
      let counted = (assert_available-after_replies limit counts earlier worker_id now hs).1 in
      (
        rw g.circuit (unfold assert_available in ground arith),
        g.failures ∙ ap (λ n. n + 1) counted ∙ omega arith,
      )
