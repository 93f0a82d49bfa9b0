-- ===== src/Server/Serving.antt =====
-- server.py: a request, whatever it is and however it ends, keeps the tasks safe.
use ai_worker_bridge_mcp.Base.{
  String, is_nil, ◌≡◌, ◌∙◌, refl, ap, true, Option, none, some, Bool-cases, inl, inr,
}
use ai_worker_bridge_mcp.Base.Text.{Text}
use ai_worker_bridge_mcp.Base.Exec.{Result, ok, err}
use ai_worker_bridge_mcp.Config.{Mode}
use ai_worker_bridge_mcp.Store.{get}
use ai_worker_bridge_mcp.Manager.Calls.{
  Reply, call, call_other_mode, known_other_mode, refused_mode,
}
use ai_worker_bridge_mcp.Manager.Calls
use ai_worker_bridge_mcp.Manager.Steps.{IsSafe, IsSafe-trans, SameTasks-IsSafe, SameTasks-refl}
use ai_worker_bridge_mcp.Manager.Steps.Submits.{call-IsSafe}
use ai_worker_bridge_mcp.Manager.Steps.Cancels.{cancel-IsSafe}
use ai_worker_bridge_mcp.Server.{App, AuthContext, Headers}
use ai_worker_bridge_mcp.Server.Reload.{NewConfig, reload_with, updated}
use ai_worker_bridge_mcp.Server.Tools.{
  Draw, ToolArguments, RpcRequest, Tool, worker_call, worker_check, worker_list, worker_cancel,
  worker_config_reload, run_tool, check_answer, tool_call, mode_of, cancel_answer, handle_jsonrpc,
}
use ai_worker_bridge_mcp.Server.Endpoints.{
  HttpRequest, HttpAnswer, WorkerCallRequest, live, health, tools, status, metrics, mcp_sse, reload,
  ready, rpc, served, call_endpoint, http_answer, denied_http, cancel_endpoint, reload_endpoint,
  endpoint_scope, handle_http,
}
use ai_worker_bridge_mcp.Server.Endpoints
use ai_worker_bridge_mcp.Server.Requests.{
  Untouched, Untouched-refl, every_rpc, rpc_endpoint-P, every_request,
}
use text.Mathlib.Text.{◌==◌ as str_eq}
use ai_worker_bridge_mcp.Server.Answers.{
  tool_call-IsSafe, Safe, Untouched-Safe, call_answer-Safe, http_answer-Safe, cancel_answer_of-Safe,
  cancel_endpoint-Safe, reload_answer-Safe, reload_endpoint-Safe,
}

-- The app is started, the request's fresh id is not taken, and a new configuration, if it loads, names
-- the same state path.
pub record IsReady (draw : Draw) (app : App) : Type 0 where
  pub on : app.manager.started ≡ true
  pub fresh : get draw.hex app.manager.store ≡ none
  pub path :
      (config : NewConfig)
      → draw.new_config ≡ ok config
      → str_eq config.sqlite_path app.sqlite_path ≡ true

Untouched-IsReady : {draw : Draw} {a b : App} → Untouched a b → IsReady draw a → IsReady draw b
Untouched-IsReady {draw} u r = record {
  on = u.tasks.started ∙ r.on;
  fresh = ap (get draw.hex) u.tasks.store ∙ r.fresh;
  path = λ config e. ap (str_eq config.sqlite_path) u.path ∙ r.path config e;
}

reload_with-Safe :
    (draw : Draw) (o : Result Text NewConfig) (app : App)
    → ((config : NewConfig) → o ≡ ok config → str_eq config.sqlite_path app.sqlite_path ≡ true)
    → Safe app (reload_with draw.clock draw.rows o app).1
reload_with-Safe draw (err text) app path =
    unfold reload_with in SameTasks-IsSafe (SameTasks-refl app.manager)
reload_with-Safe draw (ok config) app path =
    unfold reload_with in
    rw (path config refl) (
      unfold updated in
      SameTasks-IsSafe (record { store = refl; background = refl; started = refl }))

check_answer-Safe : (task_id : Option String) (app : App) → Safe app (check_answer task_id app).1
unfolding check_answer
check_answer-Safe none app = Untouched-Safe (Untouched-refl app)
check_answer-Safe (some task_id) app = Untouched-Safe (Untouched-refl app)

cancel_answer-Safe :
    (draw : Draw) (task_id : Option String) (app : App)
    → Safe app (cancel_answer draw task_id app).1
unfolding cancel_answer
cancel_answer-Safe draw none app = Untouched-Safe (Untouched-refl app)
cancel_answer-Safe draw (some task_id) app =
    cancel_answer_of-Safe (Calls.cancel draw.now task_id app.manager) app
      (cancel-IsSafe draw.now task_id app.manager)

module _ (draw : Draw) (app : App) (r : IsReady draw app) where
  run_tool-Safe :
      (name : String) (tool : Option Tool) (args : ToolArguments)
      → Safe app (run_tool draw name tool args app).1
  unfolding run_tool
  run_tool-Safe name none args = Untouched-Safe (Untouched-refl app)
  run_tool-Safe name (some worker_call) args =
      call_answer-Safe (tool_call draw args.worker_id args.prompt args app.manager) app
        (tool_call-IsSafe draw args.worker_id args.prompt args app.manager r.on r.fresh)
  run_tool-Safe name (some worker_check) args = check_answer-Safe args.task_id app
  run_tool-Safe name (some worker_list) args = Untouched-Safe (Untouched-refl app)
  run_tool-Safe name (some worker_cancel) args = cancel_answer-Safe draw args.task_id app
  run_tool-Safe name (some worker_config_reload) args =
      reload_answer-Safe (reload_with draw.clock draw.rows draw.new_config app) app
        (reload_with-Safe draw draw.new_config app r.path)

  rpc-Safe : (req : RpcRequest) (ctx : AuthContext) → Safe app (handle_jsonrpc draw req ctx app).1
  rpc-Safe req ctx =
      every_rpc (Safe app) draw ctx app (λ n u. Untouched-Safe u) req
        (λ tool h. run_tool-Safe req.name tool req.arguments)

  call_endpoint-Safe :
      (mode : Option Mode) (body : WorkerCallRequest)
      → Safe app (call_endpoint draw mode body app).1
  unfolding call_endpoint
  call_endpoint-Safe none body = Untouched-Safe (Untouched-refl app)
  call_endpoint-Safe (some mode) body =
      http_answer-Safe (call draw.world draw.hex draw.now draw.outcome _ app.manager) app
        (call-IsSafe draw.world draw.hex draw.now draw.outcome _ app.manager r.on r.fresh)

  served-Safe : (req : HttpRequest) (ctx : AuthContext) → Safe app (served draw req ctx app).1
  unfolding served
  served-Safe (rpc req) ctx =
      rpc_endpoint-P (Safe app) (handle_jsonrpc draw req ctx app) (rpc-Safe req ctx)
  served-Safe (Endpoints.worker_call body) ctx = elim (Bool-cases (is_nil body.prompt)) [
    | inl h ↦ rw h (Untouched-Safe (Untouched-refl app))
    | inr h ↦ rw h (call_endpoint-Safe (mode_of body.mode) body)
  ]
  served-Safe (Endpoints.worker_cancel task_id) ctx =
      cancel_endpoint-Safe (Calls.cancel draw.now task_id app.manager) app
        (cancel-IsSafe draw.now task_id app.manager)
  served-Safe reload ctx =
      reload_endpoint-Safe (reload_with draw.clock draw.rows draw.new_config app) app
        (reload_with-Safe draw draw.new_config app r.path)
  served-Safe (ready writable) ctx = Untouched-Safe (Untouched-refl app)
  served-Safe (Endpoints.worker_check task_id) ctx = Untouched-Safe (Untouched-refl app)
  served-Safe live ctx = Untouched-Safe (Untouched-refl app)
  served-Safe health ctx = Untouched-Safe (Untouched-refl app)
  served-Safe tools ctx = Untouched-Safe (Untouched-refl app)
  served-Safe status ctx = Untouched-Safe (Untouched-refl app)
  served-Safe metrics ctx = Untouched-Safe (Untouched-refl app)
  served-Safe Endpoints.worker_list ctx = Untouched-Safe (Untouched-refl app)
  served-Safe mcp_sse ctx = Untouched-Safe (Untouched-refl app)

-- While the app is started, the request's fresh id is not taken, and a configuration that a reload
-- finds names the same state path, an HTTP request, whatever it is, whoever sends it and whatever it
-- answers, keeps a coherent manager coherent and every row in a terminal state as it was, and moves
-- every task along its lifecycle.
pub handle_http-IsSafe :
    (getenv : String → Option Text) (draw : Draw) (headers : Headers) (req : HttpRequest)
    (app : App)
    → IsReady draw app
    → IsSafe app.manager (handle_http getenv draw headers req app).1.manager
handle_http-IsSafe getenv draw headers req app r =
    every_request (Safe app) draw req app (λ n u. Untouched-Safe u) getenv headers
      (λ ctx n e u granted.
        IsSafe-trans (Untouched-Safe u) (served-Safe draw n (Untouched-IsReady u r) req ctx))
