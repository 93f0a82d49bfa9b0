-- ===== src/Server/Endpoints.antt =====
-- server.py, `create_app`: the HTTP endpoints, each with the scope that it requires. A page that only
-- shows the state is one answer here; Pages.antt has its content.
use ai_worker_bridge_mcp.Base.{String, Bool, true, false, Option, none, some, is_nil, if◌then◌else◌}
use ai_worker_bridge_mcp.Base.Text.{Text, codes}
use ai_worker_bridge_mcp.Base.Exec.{Result, ok, err}
use ai_worker_bridge_mcp.Exceptions.{
  Exception, saturation_error, message, status_code, is_working_directory_error,
}
use ai_worker_bridge_mcp.Config.{Mode, Scope, read, submit, cancel, admin}
use ai_worker_bridge_mcp.Manager.{TaskManager}
use ai_worker_bridge_mcp.Manager.Calls
use ai_worker_bridge_mcp.Manager.Calls.{Reply, call, check}
use ai_worker_bridge_mcp.Server.{
  App, AuthContext, Headers, http_error, saturated, crashed, unprocessable, Served, emit_app,
  authenticate, require_scope,
}
use ai_worker_bridge_mcp.Server.Reload.{ReloadError, conflict, failed, reload_with}
use ai_worker_bridge_mcp.Server.Tools.{Draw, RpcRequest, RpcOutcome, mode_of, handle_jsonrpc}

pub record WorkerCallRequest : Type 0 where
  pub worker_id : String
  pub prompt : Text
  pub mode : Text
  pub idempotency_key : Option String

pub data HttpRequest : Type 0 where
  live health tools status metrics worker_list mcp_sse reload : HttpRequest
  -- `store.ping()` returns, or it raises.
  ready : Bool → HttpRequest
  -- `/mcp` and `/messages`
  rpc : RpcRequest → HttpRequest
  worker_call : WorkerCallRequest → HttpRequest
  worker_check : String → HttpRequest
  worker_cancel : String → HttpRequest

pub data HttpAnswer : Type 0 where
  page : HttpAnswer
  readiness : Bool → HttpAnswer
  replied : Reply → HttpAnswer
  rpc_answered : RpcOutcome → HttpAnswer
  reloaded : HttpAnswer

-- `except WorkingDirectoryError`, if the exception is one.
unfoldable pub denied_http : Bool → Exception → App → Served HttpAnswer
unfolding message status_code emit_app
denied_http true e app =
    (err (http_error (status_code e) (message e)), emit_app "working_directory_denied" "denied" app)
denied_http false e app = (err crashed, app)

-- The exceptions of `manager.call` that `/worker_call` turns into an HTTPException.
unfoldable pub http_answer : Result Exception Reply × TaskManager → App → Served HttpAnswer
unfolding message status_code is_working_directory_error denied_http
http_answer (ok reply, n) app = (ok (replied reply), record app { manager = n })
http_answer (err (saturation_error text scope), n) app = (
  err (saturated (status_code (saturation_error text scope)) text scope),
  record app { manager = n },
)
http_answer (err e, n) app =
    denied_http (is_working_directory_error e) e (record app { manager = n })

unfoldable pub call_endpoint : Draw → Option Mode → WorkerCallRequest → App → Served HttpAnswer
unfolding http_answer call
call_endpoint draw none body app = (err (http_error 400 (codes "mode must be sync or async")), app)
call_endpoint draw (some mode) body app =
    http_answer
      (call draw.world draw.hex draw.now draw.outcome
        (record {
          worker_id = body.worker_id;
          prompt = body.prompt;
          mode = mode;
          idempotency_key = body.idempotency_key;
        })
        app.manager)
      app

unfoldable pub cancel_endpoint : Result Exception Reply × TaskManager → App → Served HttpAnswer
cancel_endpoint (ok reply, n) app = (ok (replied reply), record app { manager = n })
cancel_endpoint (err e, n) app = (err crashed, record app { manager = n })

unfoldable pub reload_endpoint : Result ReloadError (Unit {0}) × App → Served HttpAnswer
unfolding emit_app
reload_endpoint (ok done, app) = (ok reloaded, emit_app "config_reload" "success" app)
reload_endpoint (err conflict, app) = (
  err (http_error 409 (codes "cannot reload state.sqlite_path while async tasks are active")),
  app,
)
reload_endpoint (err (failed text), app) = (err crashed, app)

unfoldable pub rpc_endpoint : RpcOutcome × App → Served HttpAnswer
rpc_endpoint (outcome, app) = (ok (rpc_answered outcome), app)

-- The scope that an endpoint requires; `none` where it asks for no scope.
unfoldable pub endpoint_scope : HttpRequest → Option Scope
endpoint_scope live = none
endpoint_scope health = none
endpoint_scope (ready writable) = none
endpoint_scope (rpc req) = none
endpoint_scope (worker_call body) = some submit
endpoint_scope (worker_cancel task_id) = some cancel
endpoint_scope reload = some admin
endpoint_scope _ = some read

-- The body of an endpoint, for the context of the key.
unfoldable pub served : Draw → HttpRequest → AuthContext → App → Served HttpAnswer
unfolding call_endpoint mode_of check cancel_endpoint Calls.cancel reload_endpoint reload_with
    rpc_endpoint handle_jsonrpc
served draw (ready writable) ctx app = (ok (readiness writable), app)
served draw (rpc req) ctx app = rpc_endpoint (handle_jsonrpc draw req ctx app)
served draw (worker_call body) ctx app =
    if is_nil body.prompt
    then (err unprocessable, app)
    else call_endpoint draw (mode_of body.mode) body app
served draw (worker_check task_id) ctx app = (ok (replied (check task_id app.manager)), app)
served draw (worker_cancel task_id) ctx app =
    cancel_endpoint (Calls.cancel draw.now task_id app.manager) app
served draw reload ctx app = reload_endpoint (reload_with draw.clock draw.rows draw.new_config app)
served draw _ ctx app = (ok page, app)

unfoldable pub after_auth : Draw → HttpRequest → Served AuthContext → Served HttpAnswer
unfolding served
after_auth draw req (err e, app) = (err e, app)
after_auth draw req (ok ctx, app) = served draw req ctx app

-- The dependency of an endpoint: its scope, or a key at all for JSON-RPC.
unfoldable pub depends : (String → Option Text) → Option Scope → Headers → App → Served AuthContext
unfolding require_scope authenticate
depends getenv (some scope) headers app = require_scope getenv scope headers app
depends getenv none headers app = authenticate getenv headers app

-- A request with no dependency.
unfoldable pub open_page : HttpRequest → Option HttpAnswer
open_page live = some page
open_page health = some page
open_page (ready writable) = some (readiness writable)
open_page _ = none

unfoldable pub opened : Option HttpAnswer → App → Served HttpAnswer → Served HttpAnswer
opened none app rest = rest
opened (some answer) app rest = (ok answer, app)

unfoldable pub handle_http :
    (String → Option Text) → Draw → Headers → HttpRequest → App → Served HttpAnswer
unfolding opened open_page after_auth depends endpoint_scope
handle_http getenv draw headers req app =
    opened (open_page req) app
      (after_auth draw req (depends getenv (endpoint_scope req) headers app))
