-- ===== src/Metrics/Latency.antt =====
-- metrics.py: the latency histogram of one worker, in microseconds, and the check of its bounds.
use ai_worker_bridge_mcp.Base.{
  ℕ, ◌+◌, ◌<◌, ◌≡◌, refl, ap, Bool, true, false, Option, some, none, List, [], ◌∷◌, leb, count,
  if◌then◌else◌, arith, ◌==◌,
}

-- `worker_call_buckets`, by bound.
abbrev pub Buckets : Type 0
Buckets = List (ℕ × ℕ)

pub record Histogram : Type 0 where
  pub calls : ℕ
  pub total : ℕ
  pub buckets : Buckets

abbrev sum : List ℕ → ℕ
sum [] = 0
sum (x ∷ xs) = x + sum xs

unfoldable pub observe_buckets : ℕ → Buckets → Buckets
observe_buckets micros [] = []
observe_buckets micros ((bound, n) ∷ rest) =
    (bound, if leb micros bound then n + 1 else n) ∷ observe_buckets micros rest

-- `observe_worker_call`
unfoldable pub observe_worker_call : ℕ → Histogram → Histogram
unfolding observe_buckets
observe_worker_call micros h = record {
  calls = h.calls + 1;
  total = h.total + micros;
  buckets = observe_buckets micros h.buckets;
}

empty_buckets : List ℕ → Buckets
empty_buckets [] = []
empty_buckets (b ∷ bounds) = (b, 0) ∷ empty_buckets bounds

unfoldable pub empty_histogram : List ℕ → Histogram
unfolding empty_buckets
empty_histogram bounds = record { calls = 0; total = 0; buckets = empty_buckets bounds }

-- The histogram after calls of the given durations, the latest at the head.
unfoldable pub observed : List ℕ → List ℕ → Histogram
unfolding observe_worker_call empty_histogram
observed bounds [] = empty_histogram bounds
observed bounds (micros ∷ earlier) = observe_worker_call micros (observed bounds earlier)

-- For each bound, how many of the durations are at most the bound.
abbrev pub cumulative : List ℕ → List ℕ → Buckets
cumulative [] durations = []
cumulative (b ∷ bounds) durations =
    (b, count (λ x. leb x b) durations) ∷ cumulative bounds durations

empty-cumulative : (bounds : List ℕ) → empty_buckets bounds ≡ cumulative bounds []
unfolding empty_buckets
empty-cumulative [] = refl
empty-cumulative (b ∷ bounds) = ap (λ r. (b, 0) ∷ r) (empty-cumulative bounds)

observe-cumulative :
    (micros : ℕ) (bounds durations : List ℕ)
    → observe_buckets micros (cumulative bounds durations) ≡ cumulative bounds (micros ∷ durations)
unfolding observe_buckets
observe-cumulative micros [] durations = refl
observe-cumulative micros (b ∷ bounds) durations =
    ground (arith, observe-cumulative micros bounds durations)

-- Each bucket holds the number of calls that took at most its bound.
pub observed-cumulative :
    (bounds durations : List ℕ) → (observed bounds durations).buckets ≡ cumulative bounds durations
unfolding observed observe_worker_call empty_histogram
observed-cumulative bounds [] = empty-cumulative bounds
observed-cumulative bounds (micros ∷ earlier) =
    rw (observed-cumulative bounds earlier) (observe-cumulative micros bounds earlier)

-- The loop of `_validate_buckets`, `false` where it raises ValueError.
unfoldable pub increasing_from : ℕ → List ℕ → Bool
increasing_from previous [] = true
increasing_from previous (b ∷ rest) =
    if b == 0 then false else if leb b previous then false else increasing_from b rest

unfoldable pub validate_buckets : List ℕ → Option (List ℕ)
unfolding increasing_from
validate_buckets [] = none
validate_buckets (b ∷ rest) = if increasing_from 0 (b ∷ rest) then some (b ∷ rest) else none

-- The bounds rise strictly, from above the given one.
abbrev pub IsAscending : ℕ → List ℕ → Type 0
IsAscending previous [] = Unit
IsAscending previous (b ∷ rest) = (previous < b) × IsAscending b rest

increasing_from-IsAscending :
    (previous : ℕ) (bounds : List ℕ)
    → increasing_from previous bounds ≡ true
    → IsAscending previous bounds
increasing_from-IsAscending previous [] h = tt
increasing_from-IsAscending previous (b ∷ rest) h = (
  unfold increasing_from in ground arith,
  increasing_from-IsAscending b rest (unfold increasing_from in ground arith),
)

validated :
    (bounds : List ℕ) {out : List ℕ}
    → validate_buckets bounds ≡ some out
    → (out ≡ bounds) × (increasing_from 0 bounds ≡ true)
validated [] e = absurd (unfold validate_buckets in cc)
validated (b ∷ rest) {out} e =
    (unfold validate_buckets in ground arith, unfold validate_buckets in ground arith)

-- Bounds that `_validate_buckets` accepts are returned as they are, positive and strictly increasing.
pub validate_buckets-IsAscending :
    (bounds : List ℕ) {out : List ℕ}
    → validate_buckets bounds ≡ some out
    → (out ≡ bounds) × IsAscending 0 bounds
validate_buckets-IsAscending bounds {out} e =
    let (same, rising) = validated bounds {out = out} e in
    (same, increasing_from-IsAscending 0 bounds rising)
