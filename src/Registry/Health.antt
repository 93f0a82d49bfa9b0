-- ===== src/Registry/Health.antt =====
-- workers.py, `list_public`: the health of the workers, which is probed again when it is older than the
-- cache allows. Times are in milliseconds of the wall clock, and of the monotonic clock for a circuit.
use ai_worker_bridge_mcp.Base.{
  ℕ, ◌+◌, String, Bool, false, not, ◌||◌, ◌==◌, Option, none, some, List, [], ◌∷◌, ◌++◌, map,
  select, is_nil, is_some, ltb, if◌then◌else◌,
}
use ai_worker_bridge_mcp.Base.Text.{Text, codes, text_eq, strip_right}
use ai_worker_bridge_mcp.Base.Exec.{Result, ok, err}
use ai_worker_bridge_mcp.Exceptions.{Exception, other_error, class_name}
use ai_worker_bridge_mcp.Config.{WorkerConfig, Mode, TimeoutLimits, FilesystemPermissions}
use ai_worker_bridge_mcp.Config.Endpoints.{Parts, ends_with, completions, is_slash}
use ai_worker_bridge_mcp.Registry.Circuit.{CircuitState}
use text.Mathlib.Text.{◌==◌ as str_eq}

pub record HealthState : Type 0 where
  pub healthy : Option Bool
  pub checked_at : ℕ
  pub error : Option Text

-- `_health`
abbrev pub Healths : Type 0
Healths = String → HealthState

abbrev pub unknown_health : HealthState
unknown_health = record { healthy = none; checked_at = 0; error = none }

unfoldable pub is_stale : ℕ → ℕ → HealthState → Bool
is_stale now cache_millis health =
    not (is_some health.healthy) || ltb (health.checked_at + cache_millis) now

-- What the snapshot makes of a probe that returned or raised.
unfoldable pub probed_health : ℕ → Result Exception Bool → HealthState
unfolding class_name
probed_health at (err e) = record {
  healthy = some false;
  checked_at = at;
  error = some (class_name e);
}
probed_health at (ok up) = record {
  healthy = some up;
  checked_at = at;
  error = if up then none else some (codes "probe failed");
}

unfoldable pub put_health : String → HealthState → Healths → Healths
put_health worker_id health healths j = if str_eq j worker_id then health else healths j

-- The ValueError of `zip(…, strict=True)`.
abbrev pub zip_error : Exception
zip_error = other_error (codes "zip() arguments have different lengths") (codes "ValueError")

-- `for worker, result in zip(stale_workers, results, strict=True)`, which raises where one of the lists
-- ends before the other.
unfoldable pub store_results :
    ℕ
    → List WorkerConfig
    → List (Result Exception Bool)
    → Healths
    → Result Exception (Unit {0}) × Healths
unfolding probed_health put_health
store_results at [] [] healths = (ok tt, healths)
store_results at (w ∷ ws) (r ∷ rs) healths =
    store_results at ws rs (put_health w.worker_id (probed_health at r) healths)
store_results at _ _ healths = (err zip_error, healths)

-- `asyncio.gather(…, return_exceptions=True)`: the results in the order of what is awaited.
unfoldable pub gather :
    (WorkerConfig → Result Exception Bool) → List WorkerConfig → List (Result Exception Bool)
gather probe [] = []
gather probe (w ∷ ws) = probe w ∷ gather probe ws

unfoldable pub stale_workers : ℕ → ℕ → List WorkerConfig → Healths → List WorkerConfig
unfolding is_stale
stale_workers now cache_millis workers healths =
    select (λ (w : WorkerConfig). is_stale now cache_millis (healths w.worker_id)) workers

unfoldable pub health_snapshot :
    ℕ
    → ℕ
    → ℕ
    → (WorkerConfig → Result Exception Bool)
    → List WorkerConfig
    → Healths
    → Result Exception (Unit {0}) × Healths
unfolding store_results gather stale_workers
health_snapshot now at cache_millis probe workers healths =
    let stale = stale_workers now cache_millis workers healths in
    store_results at stale (gather probe stale) healths

-- The answers to the requests of `_probe_worker`, in the order of its URLs.
unfoldable pub probe_answers :
    (Exception → Bool) → List (Result Exception ℕ) → Result Exception Bool
probe_answers is_http_error [] = ok false
probe_answers is_http_error (err e ∷ answers) = if is_http_error e then ok false else err e
probe_answers is_http_error (ok status ∷ answers) =
    let rest = probe_answers is_http_error answers in
    if (status == 404) || (status == 405) then rest else ok (ltb status 500)

-- `_probe_worker`: a worker whose circuit is open is not asked.
unfoldable pub probe_worker :
    (Exception → Bool) → ℕ → CircuitState → List (Result Exception ℕ) → Result Exception Bool
unfolding probe_answers
probe_worker is_http_error now circuit answers =
    if ltb now circuit.down_until then ok false else probe_answers is_http_error answers

-- `text[: -len(suffix)]`, of a text that ends with the suffix.
without_suffix : Text → Text → Text
unfolding text_eq
without_suffix [] suffix = []
without_suffix (c ∷ s) suffix =
    let rest = without_suffix s suffix in if text_eq (c ∷ s) suffix then [] else c ∷ rest

-- `list(dict.fromkeys(urls))`, from the last one on.
distinct : List Text → List Text
unfolding text_eq
distinct [] = []
distinct (url ∷ urls) = url ∷ select (λ other. not (text_eq url other)) (distinct urls)

models_url : (Parts → Text) → Parts → Text → List Text
models_url urlunsplit parts base =
    if is_nil base
    then []
    else urlunsplit (record parts { path = base ++ codes "/models"; query = []; fragment = [] })
      ∷ []

-- `_probe_urls`, from the parts of the endpoint's URL.
unfoldable pub probe_urls : (Parts → Text) → Parts → List Text
unfolding ends_with strip_right is_slash without_suffix models_url distinct
probe_urls urlunsplit parts =
    let path = strip_right is_slash parts.path in
    let origin = urlunsplit (record parts { path = []; query = []; fragment = [] }) in
    distinct (
      (if ends_with path completions
        then models_url urlunsplit parts (without_suffix path completions)
        else [])
      ++ (origin ++ codes "/health") ∷ (origin ++ codes "/v0/health") ∷ [])

-- The dict of one worker; `filesystem` is a part of `declared_filesystem`.
pub record PublicWorker : Type 0 where
  pub worker_id : String
  pub display_name : Text
  pub model_name : Text
  pub capabilities : List Text
  pub description : Text
  pub allowed_modes : List Mode
  pub timeout_limits : TimeoutLimits
  pub declared_filesystem : FilesystemPermissions
  pub max_concurrent_tasks : ℕ
  pub active_tasks : ℕ
  pub status : Text
  pub health_checked_at : ℕ
  pub health_error : Option Text

-- `"up" if health.healthy else "down"`
status_of : Option Bool → Text
status_of none = codes "down"
status_of (some up) = if up then codes "up" else codes "down"

unfoldable pub public_entry : (String → ℕ) → WorkerConfig → HealthState → PublicWorker
unfolding status_of
public_entry active w health = record {
  worker_id = w.worker_id;
  display_name = w.display_name;
  model_name = w.model_name;
  capabilities = w.capabilities;
  description = w.description;
  allowed_modes = w.allowed_modes;
  timeout_limits = w.timeout_limits;
  declared_filesystem = w.filesystem;
  max_concurrent_tasks = w.max_concurrent_tasks;
  active_tasks = active w.worker_id;
  status = status_of health.healthy;
  health_checked_at = health.checked_at;
  health_error = health.error;
}

unfoldable pub public_entries :
    (String → ℕ)
    → List WorkerConfig
    → Result Exception (Unit {0}) × Healths
    → Result Exception (List PublicWorker) × Healths
unfolding public_entry
public_entries active workers (err e, after) = (err e, after)
public_entries active workers (ok done, after) =
    (ok (map (λ (w : WorkerConfig). public_entry active w (after w.worker_id)) workers), after)

-- `list_public`, and the health that it leaves.
unfoldable pub list_public :
    (String → ℕ)
    → ℕ
    → ℕ
    → ℕ
    → (WorkerConfig → Result Exception Bool)
    → List WorkerConfig
    → Healths
    → Result Exception (List PublicWorker) × Healths
unfolding health_snapshot public_entries
list_public active now at cache_millis probe workers healths =
    public_entries active workers (health_snapshot now at cache_millis probe workers healths)
