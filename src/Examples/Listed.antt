-- ===== src/Examples/Listed.antt =====
-- The listing of two workers: one was probed lately, the other never.
use ai_worker_bridge_mcp.Base.{
  ◌≡◌, refl, Bool, true, some, none, List, [], ◌∷◌, ◌++◌, if◌then◌else◌,
}
use ai_worker_bridge_mcp.Base.Text.{Text, codes}
use ai_worker_bridge_mcp.Base.Exec.{Result, ok}
use ai_worker_bridge_mcp.Exceptions.{Exception}
use ai_worker_bridge_mcp.Config.{WorkerConfig}
use ai_worker_bridge_mcp.Config.Validators.{worker_ids_unique}
use ai_worker_bridge_mcp.Config.Endpoints.{Parts}
use ai_worker_bridge_mcp.Registry.Health.{
  Healths, unknown_health, PublicWorker, list_public, probe_urls,
}
use ai_worker_bridge_mcp.Registry.Listing.{Shows, AllShown, list_public-Shows}
use ai_worker_bridge_mcp.Examples.Directories.{worker}
use text.Mathlib.Text.{◌==◌ as str_eq}

abbrev second_worker : WorkerConfig
second_worker = record (worker true) { worker_id = "second" }

abbrev workers : List WorkerConfig
workers = worker true ∷ second_worker ∷ []

abbrev healths : Healths
healths worker_id =
    if str_eq worker_id "second"
    then unknown_health
    else record { healthy = some true; checked_at = 9000; error = none }

abbrev answers_all : WorkerConfig → Result Exception Bool
answers_all w = ok true

workers_differ : worker_ids_unique workers ≡ true
unfolding worker_ids_unique
workers_differ = refl

list_public-Shows_example :
    (entries : List PublicWorker) × ((list_public
        (λ j. 0)
        10000
        10001
        5000
        answers_all
        workers
        healths).0
      ≡ ok entries)
    × AllShown
        (λ (w : WorkerConfig).
          Shows (λ j. 0) 10000 10001 5000 (answers_all w) (healths w.worker_id) w)
        workers
        entries
list_public-Shows_example =
    list_public-Shows (λ j. 0) 10000 10001 5000 answers_all workers healths workers_differ

abbrev unsplit : Parts → Text
unsplit parts = parts.scheme ++ (codes "://" ++ (parts.netloc ++ parts.path))

probes :
    probe_urls unsplit (record {
      scheme = codes "http";
      netloc = codes "host";
      path = codes "/v1/chat/completions/";
      query = [];
      fragment = [];
    })
    ≡ codes "http://host/v1/models"
      ∷ codes "http://host/health"
      ∷ codes "http://host/v0/health"
      ∷ []
unfolding probe_urls
probes = refl
