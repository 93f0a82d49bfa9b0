-- ===== src/Server/Sessions.antt =====
-- server.py: the life of a server, from its start over the requests that it serves, between which the
-- coroutines of the manager go on.
use ai_worker_bridge_mcp.Base.{ℕ, String, ◌≡◌, refl, Option}
use ai_worker_bridge_mcp.Base.Text.{Text}
use ai_worker_bridge_mcp.Base.Exec.{Result, ok, err}
use ai_worker_bridge_mcp.Config.Validators.{AppConfig}
use ai_worker_bridge_mcp.Config.Fields.{Urls, RawConfig}
use ai_worker_bridge_mcp.Config.Loading.{load_config}
use ai_worker_bridge_mcp.Permissions.{World}
use ai_worker_bridge_mcp.Store.{Table}
use ai_worker_bridge_mcp.Store.Unique.{IsValid}
use ai_worker_bridge_mcp.Store.Recovering.{mark_recovering-Recovered}
use ai_worker_bridge_mcp.TaskState.Lifecycle.{Lives}
use ai_worker_bridge_mcp.Manager.{TaskManager}
use ai_worker_bridge_mcp.Manager.Calls.{start, started_with}
use ai_worker_bridge_mcp.Manager.Touches.{Keeps, phase}
use ai_worker_bridge_mcp.Manager.Steps.{Step, IsCoherent, IsSafe, IsSafe-trans}
use ai_worker_bridge_mcp.Manager.Steps.Restarts.{start-IsSafe}
use ai_worker_bridge_mcp.Manager.Steps.Safety.{Step-IsSafe, idle-IsCoherent}
use ai_worker_bridge_mcp.Server.{App, Headers}
use ai_worker_bridge_mcp.Server.Tools.{Draw}
use ai_worker_bridge_mcp.Server.Endpoints.{HttpRequest, handle_http}
use ai_worker_bridge_mcp.Server.Serving.{IsReady, handle_http-IsSafe}
use ai_worker_bridge_mcp.Exceptions.{Exception}
use ai_worker_bridge_mcp.Server.Reload.{NewConfig}
use ai_worker_bridge_mcp.Server.Startup.{settings, new_manager, launched, launch, create_app}

-- Requests and steps of the manager, in any order.
pub data Session (world : World) (getenv : String → Option Text) (a : App) : App → Type 0 where
  starts : Session world getenv a a
  serves :
      {b : App} (draw : Draw) (headers : Headers) (req : HttpRequest)
      → Session world getenv a b
      → IsReady draw b
      → Session world getenv a (handle_http getenv draw headers req b).1
  goes_on :
      {b : App} {n : TaskManager}
      → Session world getenv a b
      → Step world b.manager n
      → Session world getenv a (record b { manager = n })

Session-IsSafe :
    (world : World) (getenv : String → Option Text) {m : TaskManager} {a b : App}
    → IsSafe m a.manager
    → Session world getenv a b
    → IsSafe m b.manager
Session-IsSafe world getenv s starts = s
Session-IsSafe world getenv s (serves {b = b} draw headers req rest ready) =
    IsSafe-trans (Session-IsSafe world getenv s rest)
      (handle_http-IsSafe getenv draw headers req b ready)
Session-IsSafe world getenv s (goes_on rest step) =
    IsSafe-trans (Session-IsSafe world getenv s rest) (Step-IsSafe world step)

new_manager-IsCoherent :
    (config : AppConfig) (rows : Table)
    → IsValid rows
    → IsCoherent (new_manager (settings config) rows)
unfolding new_manager
new_manager-IsCoherent config rows v = idle-IsCoherent (new_manager (settings config) rows) v refl

start-succeeds :
    (clock : ℕ → String) (config : AppConfig) (rows : Table)
    → IsValid rows
    → (start clock (new_manager (settings config) rows)).0 ≡ ok tt
unfolding start new_manager
start-succeeds clock config rows v =
    rw (mark_recovering-Recovered clock rows v).done (unfold started_with in refl)

launched-ok :
    (config : NewConfig) (o : Result Exception (Unit {0}) × TaskManager)
    → o.0 ≡ ok tt
    → launched config o
      ≡ ok (record {
        manager = o.1;
        scoped_keys = config.scoped_keys;
        sqlite_path = config.sqlite_path;
      })
unfolding launched
launched-ok config (ok done, m) h = refl
launched-ok config (err e, m) h = absurd (cc)

-- The app that a configuration starts on the rows of its state path.
abbrev pub started_app : (ℕ → String) → Table → AppConfig → App
started_app clock rows config = record {
  manager = (start clock (new_manager (settings config) rows)).1;
  scoped_keys = (settings config).scoped_keys;
  sqlite_path = (settings config).sqlite_path;
}

-- What a server that started on the rows still owes to them: a coherent manager, every row that was in a
-- terminal state as it was, and every task further along its lifecycle.
pub record IsFaithful (rows : Table) (b : App) : Type 0 where
  pub coherent : IsCoherent b.manager
  pub keeps : Keeps rows b.manager.store
  pub lives : (id : String) → Lives (phase id rows) (phase id b.manager.store)

-- On rows with unique keys, a configuration that loads starts an app; and whatever requests it then
-- serves, each while the app is started, with a fresh id that is not taken, and, if it reloads a
-- configuration, with one that names the same state path, and whatever steps its manager takes between
-- them, the manager is coherent, every row that was in a terminal state at the start is as it was, and every task has gone
-- through submissions, allowed transitions and restarts of a retrying task only.
pub create_app-IsFaithful :
    (world : World) (getenv : String → Option Text) (clock : ℕ → String) (rows : Table)
    (urls : Urls) (opened : Result Text RawConfig) {config : AppConfig} {b : App}
    → load_config urls opened ≡ ok config
    → IsValid rows
    → Session world getenv (started_app clock rows config) b
    → (create_app urls clock rows opened ≡ ok (started_app clock rows config)) × IsFaithful rows b
unfolding create_app launch
create_app-IsFaithful world getenv clock rows urls opened {config} {b} loads v session =
    let m : TaskManager = new_manager (settings config) rows in
    let c : IsCoherent m = new_manager-IsCoherent config rows v in
    let safe : IsSafe m b.manager = Session-IsSafe world getenv (start-IsSafe clock m) session in
    (
      rw loads (launched-ok (settings config) (start clock m) (start-succeeds clock config rows v)),
      record {
        coherent = safe.coherent c;
        keeps = unfold new_manager in safe.keeps c;
        lives = unfold new_manager in safe.lives c;
      },
    )
