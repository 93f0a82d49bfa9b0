-- ===== src/Registry/Listing.antt =====
-- workers.py, `list_public`: the health that a listing shows of each worker.
use ai_worker_bridge_mcp.Base.{
  ℕ, ◌+◌, ◌<◌, ◌≤◌, ◌≡◌, refl, sym, subst, String, Bool, true, false, Option, none, some, List, [],
  ◌∷◌, map, select, All, if◌then◌else◌, Bool-cases, Option-cases, ◌⊎◌, inl, inr, arith,
}
use ai_worker_bridge_mcp.Base.Text.{Text, codes}
use ai_worker_bridge_mcp.Base.Exec.{Result, ok, err}
use ai_worker_bridge_mcp.Exceptions.{Exception, class_name}
use ai_worker_bridge_mcp.Config.{WorkerConfig}
use ai_worker_bridge_mcp.Config.Validators.{worker_ids_unique}
use ai_worker_bridge_mcp.Registry.Health.{
  HealthState, Healths, is_stale, probed_health, stale_workers, health_snapshot, PublicWorker,
  public_entry, public_entries, list_public,
}
use ai_worker_bridge_mcp.Registry.Stored.{
  IsStored, stored_each, store_results-gather, stored_each-stale,
}

-- The entry that a worker is to have, up or down.
abbrev pub entry_of : (String → ℕ) → WorkerConfig → Bool → ℕ → Option Text → PublicWorker
entry_of active w up checked_at error = record {
  worker_id = w.worker_id;
  display_name = w.display_name;
  model_name = w.model_name;
  capabilities = w.capabilities;
  description = w.description;
  allowed_modes = w.allowed_modes;
  timeout_limits = w.timeout_limits;
  declared_filesystem = w.filesystem;
  max_concurrent_tasks = w.max_concurrent_tasks;
  active_tasks = active w.worker_id;
  status = if up then codes "up" else codes "down";
  health_checked_at = checked_at;
  health_error = error;
}

-- The stored health is not known, or older than the cache allows.
abbrev pub IsOld : ℕ → ℕ → HealthState → Type 0
IsOld now cache_millis h = (h.healthy ≡ none) ⊎ (h.checked_at + cache_millis < now)

-- What an entry may say of a worker whose stored health is `h` and whose probe ends with `r`: the stored
-- health, if it is known and recent, or else what the probe answers or raises.
pub data Shows (active : String → ℕ) (now checked cache_millis : ℕ) (r : Result Exception Bool)
    (h : HealthState) (w : WorkerConfig) (entry : PublicWorker) : Type 0 where
  cached :
      (up : Bool)
      → h.healthy ≡ some up
      → now ≤ h.checked_at + cache_millis
      → entry ≡ entry_of active w up h.checked_at h.error
      → Shows active now checked cache_millis r h w entry
  answered :
      (up : Bool)
      → IsOld now cache_millis h
      → r ≡ ok up
      → entry ≡ entry_of active w up checked (if up then none else some (codes "probe failed"))
      → Shows active now checked cache_millis r h w entry
  raised :
      (e : Exception)
      → IsOld now cache_millis h
      → r ≡ err e
      → entry ≡ entry_of active w false checked (some (class_name e))
      → Shows active now checked cache_millis r h w entry

-- The entries of the workers, one for each and in order.
abbrev pub AllShown :
    (WorkerConfig → PublicWorker → Type 0) → List WorkerConfig → List PublicWorker → Type 0
AllShown S [] [] = Unit
AllShown S (w ∷ ws) (entry ∷ entries) = S w entry × AllShown S ws entries
AllShown S _ _ = ⊥

AllShown-map :
    (S : WorkerConfig → PublicWorker → Type 0) (f : WorkerConfig → PublicWorker)
    (ws : List WorkerConfig)
    → All (λ w. S w (f w)) ws
    → AllShown S ws (map f ws)
AllShown-map S f [] h = tt
AllShown-map S f (w ∷ ws) (h, hs) = (h, AllShown-map S f ws hs)

is_stale-IsOld :
    (now cache_millis : ℕ) (h : HealthState)
    → is_stale now cache_millis h ≡ true
    → IsOld now cache_millis h
unfolding is_stale
is_stale-IsOld now cache_millis h e = elim (Option-cases h.healthy) [
  | inl unknown ↦ inl unknown
  | inr (up, known) ↦ inr (ground (arith, known))
]

-- What a worker's entry shows, once the health that is left has what its probe made of it.
probed-Shows :
    (active : String → ℕ) (now checked cache_millis : ℕ) (r : Result Exception Bool)
    (h : HealthState) (w : WorkerConfig)
    → IsOld now cache_millis h
    → Shows active now checked cache_millis r h w (public_entry active w (probed_health checked r))
unfolding public_entry probed_health
probed-Shows active now checked cache_millis (ok true) h w old = answered true old refl refl
probed-Shows active now checked cache_millis (ok false) h w old = answered false old refl refl
probed-Shows active now checked cache_millis (err e) h w old = raised e old refl refl

cached-Shows :
    (active : String → ℕ) (now checked cache_millis : ℕ) (r : Result Exception Bool)
    (h : HealthState) (w : WorkerConfig)
    → is_stale now cache_millis h ≡ false
    → Shows active now checked cache_millis r h w (public_entry active w h)
unfolding is_stale
cached-Shows active now checked cache_millis r h w e = elim (Option-cases h.healthy) [
  | inl unknown ↦ absurd (ground (arith, unknown))
  | inr (up, known) ↦ cached up known (ground (arith, known)) (unfold public_entry in rw known refl)
]

public_entry-Shows :
    (active : String → ℕ) (now checked cache_millis : ℕ) (r : Result Exception Bool)
    (h : HealthState) (w : WorkerConfig)
    → Shows active now checked cache_millis r h w
        (public_entry active w (if is_stale now cache_millis h then probed_health checked r else h))
public_entry-Shows active now checked cache_millis r h w =
    elim (Bool-cases (is_stale now cache_millis h)) [
      | inl e ↦
          rw e (
            probed-Shows active now checked cache_millis r h w
              (is_stale-IsOld now cache_millis h e))
      | inr e ↦ rw e (cached-Shows active now checked cache_millis r h w e)
    ]

entries-Shows :
    (active : String → ℕ) (now checked cache_millis : ℕ)
    (probe : WorkerConfig → Result Exception Bool) (healths later : Healths)
    (ws : List WorkerConfig)
    → All
        (IsStored checked probe
          (λ (w : WorkerConfig). is_stale now cache_millis (healths w.worker_id))
          healths
          later)
        ws
    → All
        (λ (w : WorkerConfig).
          Shows active now checked cache_millis
            (probe w)
            (healths w.worker_id)
            w
            (public_entry active w (later w.worker_id)))
        ws
entries-Shows active now checked cache_millis probe healths later [] h = tt
entries-Shows active now checked cache_millis probe healths later (w ∷ ws) (h, hs) = (
  subst
      (λ health.
        Shows active now checked cache_millis (probe w) (healths w.worker_id) w
          (public_entry active w health))
      (sym h)
      (public_entry-Shows active now checked cache_millis (probe w) (healths w.worker_id) w),
  entries-Shows active now checked cache_millis probe healths later ws hs,
)

-- Where no two workers share an id, a listing is made, with one entry for each worker, in order. It has
-- the worker's own fields and active calls, and says "up" or "down" by the stored health, if that is
-- known and no older than the cache allows, and else by what the worker's own probe answered or raised.
pub list_public-Shows :
    (active : String → ℕ) (now checked cache_millis : ℕ)
    (probe : WorkerConfig → Result Exception Bool) (workers : List WorkerConfig) (healths : Healths)
    → worker_ids_unique workers ≡ true
    → (entries : List PublicWorker) × ((list_public active now checked cache_millis probe workers
          healths).0
        ≡ ok entries)
      × AllShown
          (λ (w : WorkerConfig).
            Shows active now checked cache_millis (probe w) (healths w.worker_id) w)
          workers
          entries
unfolding list_public health_snapshot stale_workers
list_public-Shows active now checked cache_millis probe workers healths unique =
    let stale = λ (w : WorkerConfig). is_stale now cache_millis (healths w.worker_id) in
    let later : Healths = stored_each checked probe (select stale workers) healths in
    (
      map (λ (w : WorkerConfig). public_entry active w (later w.worker_id)) workers,
      rw (store_results-gather checked probe (select stale workers) healths)
          (unfold public_entries in refl),
      AllShown-map _ (λ (w : WorkerConfig). public_entry active w (later w.worker_id)) workers
          (entries-Shows active now checked cache_millis probe healths later workers
            (stored_each-stale checked probe stale workers healths unique)),
    )
