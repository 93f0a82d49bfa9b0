-- ===== src/Examples/Launched.antt =====
-- A server that starts on three tasks, serves a request, and stops its manager's coroutines.
use ai_worker_bridge_mcp.Base.{String, ◌≡◌, refl, Option, none, some, [], if◌then◌else◌}
use ai_worker_bridge_mcp.Base.Text.{Text, codes}
use ai_worker_bridge_mcp.Base.Exec.{ok, err}
use ai_worker_bridge_mcp.Json.{null}
use ai_worker_bridge_mcp.Store.{get, mark_recovering}
use ai_worker_bridge_mcp.Manager.Calls.{start, stop_begin}
use ai_worker_bridge_mcp.Manager.Steps.{stops}
use ai_worker_bridge_mcp.Server.{App, Headers}
use ai_worker_bridge_mcp.Server.Tools.{Draw}
use ai_worker_bridge_mcp.Server.Endpoints.{handle_http, worker_cancel}
use ai_worker_bridge_mcp.Server.Serving.{IsReady}
use ai_worker_bridge_mcp.Server.Startup.{create_app, new_manager, settings}
use ai_worker_bridge_mcp.Server.Sessions.{
  Session, starts, serves, goes_on, started_app, IsFaithful, create_app-IsFaithful,
}
use ai_worker_bridge_mcp.Examples.Data.{three_tasks}
use ai_worker_bridge_mcp.Examples.Stored.{three_tasks-IsValid}
use ai_worker_bridge_mcp.Examples.Directories.{world}
use ai_worker_bridge_mcp.Examples.Configured.{raw, loaded, loads}
use ai_worker_bridge_mcp.Examples.Defaulted.{plain_urls}
use text.Mathlib.Text.{◌==◌ as str_eq}

abbrev getenv : String → Option Text
getenv name = if str_eq name "R" then some (codes "open") else none

abbrev headers : Headers
headers = record { authorization = none; x_api_key = some (codes "open") }

abbrev draw : Draw
draw = record {
  world = world;
  hex = "h";
  now = "t9";
  outcome = ok null;
  clock = λ i. "t9";
  rows = [];
  new_config = err (codes "no file");
}

abbrev first : App
first = started_app (λ i. "t8") three_tasks loaded

first-IsReady : IsReady draw first
unfolding start new_manager get mark_recovering settings
first-IsReady = record { on = refl; fresh = refl; path = λ config e. absurd (cc) }

abbrev served_one : App
served_one = (handle_http getenv draw headers (worker_cancel "b") first).1

abbrev last : App
last = record served_one { manager = stop_begin served_one.manager }

two_steps : Session world getenv first last
two_steps = goes_on (serves draw headers (worker_cancel "b") starts first-IsReady) (stops refl)

create_app-IsFaithful_example :
    (create_app plain_urls (λ i. "t8") three_tasks (ok raw) ≡ ok first)
    × IsFaithful three_tasks last
create_app-IsFaithful_example =
    create_app-IsFaithful world getenv (λ i. "t8") three_tasks plain_urls (ok raw) loads
      three_tasks-IsValid two_steps
