-- ===== src/Registry/Stored.antt =====
-- workers.py, `health_snapshot`: the results of the stale workers' probes, stored by their ids.
use ai_worker_bridge_mcp.Base.{
  ℕ, ◌≡◌, refl, sym, ap, subst, ◌∙◌, String, Bool, true, false, List, [], ◌∷◌, select, any, All,
  if◌then◌else◌, Bool-cases, inl, inr, eq_iff, arith,
}
use ai_worker_bridge_mcp.Base.Exec.{Result, ok}
use ai_worker_bridge_mcp.Exceptions.{Exception}
use ai_worker_bridge_mcp.Config.{WorkerConfig}
use ai_worker_bridge_mcp.Config.Validators.{worker_ids_unique}
use ai_worker_bridge_mcp.Registry.Health.{
  HealthState, Healths, probed_health, put_health, store_results, gather,
}
use text.Mathlib.Text.{◌==◌ as str_eq}

-- No worker of the list has the id.
abbrev IsAbsent : String → List WorkerConfig → Type 0
IsAbsent j ws = any (λ (v : WorkerConfig). str_eq j v.worker_id) ws ≡ false

select-IsAbsent :
    (stale : WorkerConfig → Bool) (j : String) (ws : List WorkerConfig)
    → IsAbsent j ws
    → IsAbsent j (select stale ws)
select-IsAbsent stale j [] h = refl
select-IsAbsent stale j (w ∷ ws) h =
    let rest : IsAbsent j (select stale ws) = select-IsAbsent stale j ws (ground arith) in
    elim (Bool-cases (stale w)) [ inl e ↦ rw e (ground arith) | inr e ↦ rw e rest ]

-- A list of workers in which no id is the given one, with the ids on the left of the comparison.
absent-all :
    (j : String) (ws : List WorkerConfig)
    → IsAbsent j ws
    → All (λ (v : WorkerConfig). str_eq v.worker_id j ≡ false) ws
absent-all j [] h = tt
absent-all j (w ∷ ws) h = (
  elim (Bool-cases (str_eq w.worker_id j)) [
    | inl e ↦
        let same : str_eq j w.worker_id ≡ true =
          (eq_iff j w.worker_id).1 (sym ((eq_iff w.worker_id j).0 e)) in
        absurd (ground arith)
    | inr e ↦ e
  ],
  absent-all j ws (ground arith),
)

-- The results of the workers' own probes, stored one after the other.
pub stored_each : ℕ → (WorkerConfig → Result Exception Bool) → List WorkerConfig → Healths → Healths
stored_each checked probe [] healths = healths
stored_each checked probe (w ∷ ws) healths =
    stored_each checked probe ws (put_health w.worker_id (probed_health checked (probe w)) healths)

pub store_results-gather :
    (checked : ℕ) (probe : WorkerConfig → Result Exception Bool) (ws : List WorkerConfig)
    (healths : Healths)
    → store_results checked ws (gather probe ws) healths
      ≡ (ok tt, stored_each checked probe ws healths)
unfolding store_results gather stored_each
store_results-gather checked probe [] healths = refl
store_results-gather checked probe (w ∷ ws) healths =
    store_results-gather checked probe ws
      (put_health w.worker_id (probed_health checked (probe w)) healths)

module _ (checked : ℕ) (probe : WorkerConfig → Result Exception Bool) where
  stored_each-other :
      (j : String) (ws : List WorkerConfig) (healths : Healths)
      → IsAbsent j ws
      → stored_each checked probe ws healths j ≡ healths j
  unfolding stored_each put_health
  stored_each-other j [] healths h = refl
  stored_each-other j (w ∷ ws) healths h =
      let other : str_eq j w.worker_id ≡ false = ground arith in
      let rest =
        stored_each-other j ws (put_health w.worker_id (probed_health checked (probe w)) healths)
          (ground arith) in
      rest ∙ rw other refl

  abbrev pub IsStored : (WorkerConfig → Bool) → Healths → Healths → WorkerConfig → Type 0
  IsStored stale healths later v =
      later v.worker_id ≡ (if stale v then probed_health checked (probe v) else healths v.worker_id)

  -- A worker with another id is stored as if the put had not been.
  IsStored-put :
      (stale : WorkerConfig → Bool) (j : String) (health : HealthState) (healths later : Healths)
      (ws : List WorkerConfig)
      → All (λ (v : WorkerConfig). str_eq v.worker_id j ≡ false) ws
      → All (IsStored stale (put_health j health healths) later) ws
      → All (IsStored stale healths later) ws
  unfolding put_health
  IsStored-put stale j health healths later [] others stored = tt
  IsStored-put stale j health healths later (w ∷ ws) (other, others) (stored, rest) = (
    stored ∙ ap (λ r. if stale w then probed_health checked (probe w) else r) (rw other refl),
    IsStored-put stale j health healths later ws others rest,
  )

  pub stored_each-stale :
      (stale : WorkerConfig → Bool) (ws : List WorkerConfig) (healths : Healths)
      → worker_ids_unique ws ≡ true
      → All (IsStored stale healths (stored_each checked probe (select stale ws) healths)) ws
  unfolding worker_ids_unique stored_each put_health
  stored_each-stale stale [] healths h = tt
  stored_each-stale stale (w ∷ ws) healths h =
      let alone : IsAbsent w.worker_id ws = ground arith in
      let absent : IsAbsent w.worker_id (select stale ws) =
        select-IsAbsent stale w.worker_id ws alone in
      let unique : worker_ids_unique ws ≡ true = ground arith in
      let same : str_eq w.worker_id w.worker_id ≡ true = (eq_iff w.worker_id w.worker_id).1 refl in
      let put : Healths = put_health w.worker_id (probed_health checked (probe w)) healths in
      let after_put = stored_each-stale stale ws put unique in
      let as_it_was = stored_each-stale stale ws healths unique in
      elim (Bool-cases (stale w)) [
        | inl e ↦
            let picked : select stale (w ∷ ws) ≡ w ∷ select stale ws = rw e refl in
            let put_there : put w.worker_id ≡ probed_health checked (probe w) = rw same refl in
            subst
              (λ zs. All (IsStored stale healths (stored_each checked probe zs healths)) (w ∷ ws))
              (sym picked)
              (
                rw e (stored_each-other w.worker_id (select stale ws) put absent ∙ put_there),
                IsStored-put stale w.worker_id (probed_health checked (probe w)) healths
                    (stored_each checked probe (select stale ws) put) ws
                    (absent-all w.worker_id ws alone) after_put,
              )
        | inr e ↦
            let passed : select stale (w ∷ ws) ≡ select stale ws = rw e refl in
            subst
              (λ zs. All (IsStored stale healths (stored_each checked probe zs healths)) (w ∷ ws))
              (sym passed)
              (rw e (stored_each-other w.worker_id (select stale ws) healths absent), as_it_was)
      ]
