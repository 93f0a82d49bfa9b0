-- ===== src/Server/Readers.antt =====
-- server.py: what a request does when its key has only the read scope.
use ai_worker_bridge_mcp.Base.{String, ◌≡◌, ◌∙◌, sym, false≢true, true, false, Option, none, some}
use ai_worker_bridge_mcp.Base.Text.{Text}
use ai_worker_bridge_mcp.Base.Exec.{ok}
use ai_worker_bridge_mcp.Config.{submit, cancel, admin}
use ai_worker_bridge_mcp.Server.{App, AuthContext, Headers, has_scope, authenticate}
use ai_worker_bridge_mcp.Server.Tools.{
  Draw, ToolArguments, RpcRequest, Tool, worker_call, worker_check, worker_list, worker_cancel,
  worker_config_reload, scope_for_tool, run_tool, check_answer, handle_jsonrpc,
}
use ai_worker_bridge_mcp.Server.Endpoints.{
  HttpRequest, HttpAnswer, live, health, tools, status, metrics, mcp_sse, reload, ready, rpc,
  served, after_auth, depends, endpoint_scope, open_page, handle_http, rpc_endpoint,
}
use ai_worker_bridge_mcp.Server.Endpoints
use ai_worker_bridge_mcp.Server.Requests.{
  Untouched, Untouched-refl, Untouched-trans, Granted, every_rpc, rpc_endpoint-P, every_request,
}

-- The context has none of the scopes that change something.
pub record IsReader (ctx : AuthContext) : Type 0 where
  pub no_submit : has_scope submit ctx ≡ false
  pub no_cancel : has_scope cancel ctx ≡ false
  pub no_admin : has_scope admin ctx ≡ false

check_answer-Untouched :
    (task_id : Option String) (app : App) → Untouched app (check_answer task_id app).1
check_answer-Untouched none app = unfold check_answer in Untouched-refl app
check_answer-Untouched (some task_id) app = unfold check_answer in Untouched-refl app

run_tool-Untouched :
    (draw : Draw) (name : String) (tool : Option Tool) (args : ToolArguments) (ctx : AuthContext)
    (app : App)
    → IsReader ctx
    → has_scope (scope_for_tool tool) ctx ≡ true
    → Untouched app (run_tool draw name tool args app).1
unfolding scope_for_tool run_tool
run_tool-Untouched draw name none args ctx app r h = Untouched-refl app
run_tool-Untouched draw name (some worker_call) args ctx app r h =
    absurd (false≢true (sym r.no_submit ∙ h))
run_tool-Untouched draw name (some worker_check) args ctx app r h =
    check_answer-Untouched args.task_id app
run_tool-Untouched draw name (some worker_list) args ctx app r h = Untouched-refl app
run_tool-Untouched draw name (some worker_cancel) args ctx app r h =
    absurd (false≢true (sym r.no_cancel ∙ h))
run_tool-Untouched draw name (some worker_config_reload) args ctx app r h =
    absurd (false≢true (sym r.no_admin ∙ h))

-- A JSON-RPC request with a context that has none of the scopes submit, cancel and admin changes no
-- task, no coroutine, no configured key and no state path, whatever its method and its tool.
pub handle_jsonrpc-Untouched :
    (draw : Draw) (req : RpcRequest) (ctx : AuthContext) (app : App)
    → IsReader ctx
    → Untouched app (handle_jsonrpc draw req ctx app).1
handle_jsonrpc-Untouched draw req ctx app r =
    every_rpc (Untouched app) draw ctx app (λ n same. same) req
      (λ tool h. run_tool-Untouched draw req.name tool req.arguments ctx app r h)

served-Untouched :
    (draw : Draw) (req : HttpRequest) (ctx : AuthContext) (app : App)
    → IsReader ctx
    → Granted (endpoint_scope req) ctx
    → Untouched app (served draw req ctx app).1
unfolding served endpoint_scope
served-Untouched draw (rpc req) ctx app r g =
    rpc_endpoint-P (Untouched app) (handle_jsonrpc draw req ctx app)
      (handle_jsonrpc-Untouched draw req ctx app r)
served-Untouched draw (Endpoints.worker_call body) ctx app r g =
    absurd (false≢true (sym r.no_submit ∙ g))
served-Untouched draw (Endpoints.worker_cancel task_id) ctx app r g =
    absurd (false≢true (sym r.no_cancel ∙ g))
served-Untouched draw reload ctx app r g = absurd (false≢true (sym r.no_admin ∙ g))
served-Untouched draw (ready writable) ctx app r g = Untouched-refl app
served-Untouched draw (Endpoints.worker_check task_id) ctx app r g = Untouched-refl app
served-Untouched draw live ctx app r g = Untouched-refl app
served-Untouched draw health ctx app r g = Untouched-refl app
served-Untouched draw tools ctx app r g = Untouched-refl app
served-Untouched draw status ctx app r g = Untouched-refl app
served-Untouched draw metrics ctx app r g = Untouched-refl app
served-Untouched draw Endpoints.worker_list ctx app r g = Untouched-refl app
served-Untouched draw mcp_sse ctx app r g = Untouched-refl app

-- If the key that the headers present, where there is one, has none of the scopes submit, cancel and
-- admin, then an HTTP request, JSON-RPC included, changes no task, no coroutine, no configured key and
-- no state path, whatever it answers.
pub handle_http-Untouched :
    (getenv : String → Option Text) (draw : Draw) (headers : Headers) (req : HttpRequest)
    (app : App)
    → ((ctx : AuthContext) (n : App) → authenticate getenv headers app ≡ (ok ctx, n) → IsReader ctx)
    → Untouched app (handle_http getenv draw headers req app).1
handle_http-Untouched getenv draw headers req app readers =
    every_request (Untouched app) draw req app (λ n same. same) getenv headers
      (λ ctx n e same granted.
        Untouched-trans same (served-Untouched draw req ctx n (readers ctx n e) granted))
