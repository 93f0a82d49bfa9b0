-- ===== src/Examples/Served.antt =====
-- The theorems of Server on an app with a reader's key and a submitter's key.
use ai_worker_bridge_mcp.Base.{
  String, ◌≡◌, ◌∙◌, refl, sym, subst, true, Option, none, some, [], ◌∷◌, Any, if◌then◌else◌,
}
use ai_worker_bridge_mcp.Base.Text.{Text, codes, text_eq}
use ai_worker_bridge_mcp.Base.Exec.{ok-injective, ok}
use ai_worker_bridge_mcp.Json.{null}
use ai_worker_bridge_mcp.Config.{read, submit, ScopedKeyConfig, sync}
use ai_worker_bridge_mcp.Store.{get}
use ai_worker_bridge_mcp.Manager.Steps.{IsSafe}
use ai_worker_bridge_mcp.Server.{
  App, AuthContext, Headers, has_scope, presented, context, authenticate,
}
use ai_worker_bridge_mcp.Server.Reload.{NewConfig}
use ai_worker_bridge_mcp.Server.Tools.{
  Draw, RpcRequest, ToolArguments, worker_call, mode_of, tools_call,
}
use ai_worker_bridge_mcp.Server.Endpoints.{
  HttpRequest, HttpAnswer, WorkerCallRequest, rpc, reload, served, handle_http,
}
use ai_worker_bridge_mcp.Server.Endpoints
use ai_worker_bridge_mcp.Server.Keys.{Opens, authenticate-Opens}
use ai_worker_bridge_mcp.Server.Requests.{Untouched}
use ai_worker_bridge_mcp.Server.Readers.{IsReader, handle_http-Untouched}
use ai_worker_bridge_mcp.Server.Serving.{IsReady, handle_http-IsSafe}
use ai_worker_bridge_mcp.Server.Parity.{both, arguments_of, worker_call-parity}
use ai_worker_bridge_mcp.Examples.Directories.{world}
use ai_worker_bridge_mcp.Examples.Managed.{manager}
use text.Mathlib.Text.{◌==◌ as str_eq}

abbrev reader_key : ScopedKeyConfig
reader_key = record { key_id = "reader"; env = "R"; scopes = read ∷ [] }

abbrev submitter_key : ScopedKeyConfig
submitter_key = record { key_id = "submitter"; env = "S"; scopes = read ∷ submit ∷ [] }

abbrev pub app : App
app = record {
  manager = manager;
  scoped_keys = submitter_key ∷ reader_key ∷ [];
  sqlite_path = "/data/tasks.sqlite";
}

abbrev getenv : String → Option Text
getenv name =
    if str_eq name "R"
    then some (codes "open")
    else if str_eq name "S"
    then some (codes "sesame")
    else none

abbrev headers : Headers
headers = record { authorization = some (codes "Bearer  open"); x_api_key = none }

accepted : authenticate getenv headers app ≡ (ok (context reader_key), app)
unfolding authenticate
accepted = refl

authenticate-Opens_example :
    (text : Text) × (presented headers ≡ some text)
    × Any (Opens getenv text (context reader_key)) app.scoped_keys
    × (app ≡ app)
authenticate-Opens_example = authenticate-Opens getenv headers app accepted

reader_key-IsReader : IsReader (context reader_key)
unfolding has_scope context
reader_key-IsReader = record { no_submit = refl; no_cancel = refl; no_admin = refl }

abbrev same_config : NewConfig
same_config = record {
  workers = manager.workers.workers;
  recovery = manager.recovery;
  limits = manager.limits;
  scoped_keys = reader_key ∷ [];
  sqlite_path = "/data/tasks.sqlite";
}

abbrev pub draw : Draw
draw = record {
  world = world;
  hex = "h";
  now = "t1";
  outcome = ok null;
  clock = λ i. "t1";
  rows = [];
  new_config = ok same_config;
}

abbrev no_arguments : ToolArguments
no_arguments = record {
  worker_id = none;
  prompt = none;
  mode = none;
  idempotency_key = none;
  task_id = some "b";
}

abbrev cancel_request : RpcRequest
cancel_request = record { method = "tools/call"; name = "worker_cancel"; arguments = no_arguments }

every_context :
    (ctx : AuthContext) (n : App) → authenticate getenv headers app ≡ (ok ctx, n) → IsReader ctx
every_context ctx n e =
    let same : context reader_key ≡ ctx = cc (sym accepted ∙ e) in
    subst IsReader same reader_key-IsReader

handle_http-Untouched_example :
    Untouched app (handle_http getenv draw headers (rpc cancel_request) app).1
handle_http-Untouched_example =
    handle_http-Untouched getenv draw headers (rpc cancel_request) app every_context

app-IsReady : IsReady draw app
unfolding get
app-IsReady = record {
  on = refl;
  fresh = refl;
  path = λ config e.
      subst (λ (c : NewConfig). str_eq c.sqlite_path app.sqlite_path ≡ true) (ok-injective e) refl;
}

handle_http-IsSafe_example :
    IsSafe app.manager (handle_http getenv draw headers reload app).1.manager
handle_http-IsSafe_example = handle_http-IsSafe getenv draw headers reload app app-IsReady

abbrev body : WorkerCallRequest
body = record {
  worker_id = "w";
  prompt = codes "Working directory: /work/a";
  mode = codes "sync";
  idempotency_key = none;
}

sync-mode : mode_of body.mode ≡ some sync
unfolding mode_of text_eq
sync-mode = refl

submits : has_scope submit (context submitter_key) ≡ true
unfolding has_scope context
submits = refl

worker_call-parity_example :
    both (
      tools_call draw "worker_call"
        (some worker_call)
        (arguments_of body)
        (context submitter_key)
        app)
    ≡ served draw (Endpoints.worker_call body) (context submitter_key) app
worker_call-parity_example =
    worker_call-parity draw body sync (context submitter_key) app submits refl sync-mode
