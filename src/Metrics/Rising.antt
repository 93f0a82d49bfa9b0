-- ===== src/Metrics/Rising.antt =====
-- metrics.py: the shape of a histogram whose bounds `_validate_buckets` has accepted.
use ai_worker_bridge_mcp.Base.{
  ℕ, ◌<◌, ◌≤◌, ◌≡◌, refl, subst, sym, some, List, [], ◌∷◌, leb, count, length, arith,
}
use ai_worker_bridge_mcp.Metrics.Latency.{
  Buckets, observed, observe_worker_call, empty_histogram, cumulative, observed-cumulative,
  IsAscending, validate_buckets, validate_buckets-IsAscending,
}

-- The counts never fall from one bucket to the next, from the given number up to the last one.
abbrev pub IsRising : ℕ → ℕ → Buckets → Type 0
IsRising low high [] = low ≤ high
IsRising low high ((b, n) ∷ rest) = (low ≤ n) × IsRising n high rest

count-bound :
    (a b : ℕ) (durations : List ℕ)
    → a < b
    → count (λ x. leb x a) durations ≤ count (λ x. leb x b) durations
count-bound a b [] h = ground arith
count-bound a b (x ∷ durations) h = ground (arith, count-bound a b durations h)

count-length : (a : ℕ) (durations : List ℕ) → count (λ x. leb x a) durations ≤ length durations
count-length a [] = ground arith
count-length a (x ∷ durations) = ground (arith, count-length a durations)

observed-calls : (bounds durations : List ℕ) → (observed bounds durations).calls ≡ length durations
unfolding observed observe_worker_call empty_histogram
observed-calls bounds [] = refl
observed-calls bounds (x ∷ durations) = ground (arith, observed-calls bounds durations)

cumulative-IsRising :
    (a : ℕ) (bounds durations : List ℕ)
    → IsAscending a bounds
    → IsRising (count (λ x. leb x a) durations) (length durations) (cumulative bounds durations)
cumulative-IsRising a [] durations h = count-length a durations
cumulative-IsRising a (b ∷ bounds) durations (low, rest) =
    (count-bound a b durations low, cumulative-IsRising b bounds durations rest)

IsRising-zero :
    (low high : ℕ) (buckets : Buckets) → IsRising low high buckets → IsRising 0 high buckets
IsRising-zero low high [] h = ground arith
IsRising-zero low high ((b, n) ∷ rest) (h, hs) = (ground arith, hs)

-- Where `_validate_buckets` accepts the bounds, it returns them positive and strictly increasing, and the
-- counts of a histogram with these bounds never fall from one bucket to the next, nor exceed the number
-- of calls.
pub observed-IsRising :
    (bounds durations : List ℕ) {out : List ℕ}
    → validate_buckets bounds ≡ some out
    → IsAscending 0 out × IsRising 0 (observed out durations).calls (observed out durations).buckets
observed-IsRising bounds durations {out} e =
    let (same, rising) = validate_buckets-IsAscending bounds {out = out} e in
    let ascending : IsAscending 0 out = subst (IsAscending 0) (sym same) rising in
    (
      ascending,
      rw (observed-calls out durations) (
          rw (observed-cumulative out durations)
            (IsRising-zero _ _ _ (cumulative-IsRising 0 out durations ascending))),
    )
