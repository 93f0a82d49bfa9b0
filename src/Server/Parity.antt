-- ===== src/Server/Parity.antt =====
-- server.py: `/worker_call` and the tool `worker_call` are the same call.
use ai_worker_bridge_mcp.Base.{Bool, is_nil, ◌≡◌, refl, true, false, none, some}
use ai_worker_bridge_mcp.Base.Exec.{Result, ok, err}
use ai_worker_bridge_mcp.Exceptions.{Exception, saturation_error, is_working_directory_error}
use ai_worker_bridge_mcp.Config.{Mode, submit}
use ai_worker_bridge_mcp.Manager.{TaskManager}
use ai_worker_bridge_mcp.Manager.Calls.{Reply, call}
use ai_worker_bridge_mcp.Server.{
  App, AuthContext, Refusal, http_error, saturated, crashed, has_scope, Served,
}
use ai_worker_bridge_mcp.Server.Tools.{
  Draw, ToolArguments, ToolAnswer, replied, bad_request, RpcOutcome, answered, errored, forbidden,
  worker_call, rpc_outcome, call_answer, denied_answer, tool_call, call_in_mode, mode_of,
  given_mode, guarded, run_tool, scope_for_tool, tools_call,
}
use ai_worker_bridge_mcp.Server.Tools
use ai_worker_bridge_mcp.Server.Endpoints.{
  HttpAnswer, WorkerCallRequest, served, call_endpoint, http_answer, denied_http,
}
use ai_worker_bridge_mcp.Server.Endpoints

-- The HTTP answer that corresponds to a JSON-RPC response: a result with the status of an error is
-- that HTTPException, and an error response is an exception that nothing catches.
unfoldable pub as_http : RpcOutcome → Result Refusal HttpAnswer
as_http (answered (replied reply)) = ok (Endpoints.replied reply)
as_http (answered (bad_request status text)) = err (http_error status text)
as_http (answered (Tools.saturated status text scope)) = err (saturated status text scope)
as_http _ = err crashed

-- The tool call with the fields of the body of `/worker_call`.
unfoldable pub arguments_of : WorkerCallRequest → ToolArguments
arguments_of body = record {
  worker_id = some body.worker_id;
  prompt = some body.prompt;
  mode = some body.mode;
  idempotency_key = body.idempotency_key;
  task_id = none;
}

abbrev pub both : RpcOutcome × App → Served HttpAnswer
both r = (as_http r.0, r.1)

denied-parity :
    (denied : Bool) (e : Exception) (app : App)
    → both (rpc_outcome (denied_answer denied e app)) ≡ denied_http denied e app
unfolding as_http rpc_outcome denied_answer denied_http
denied-parity true e app = refl
denied-parity false e app = refl

answer-parity :
    (r : Result Exception Reply × TaskManager) (app : App)
    → both (rpc_outcome (call_answer r app)) ≡ http_answer r app
unfolding as_http rpc_outcome call_answer http_answer
answer-parity (ok reply, n) app = refl
answer-parity (err (saturation_error text scope), n) app = refl
answer-parity (err e, n) app =
    denied-parity (is_working_directory_error e) e (record app { manager = n })

-- For a key with the scope submit, a prompt that is not empty and the mode sync or async, the tool
-- worker_call with the fields of a /worker_call request leaves the same state as that request, the
-- audit log and the counters included, and answers the same: the same reply, the same status and text
-- for an error that is answered, and an error for an exception that the endpoint does not catch.
pub worker_call-parity :
    (draw : Draw) (body : WorkerCallRequest) (mode : Mode) (ctx : AuthContext) (app : App)
    → has_scope submit ctx ≡ true
    → is_nil body.prompt ≡ false
    → mode_of body.mode ≡ some mode
    → both (tools_call draw "worker_call" (some worker_call) (arguments_of body) ctx app)
      ≡ served draw (Endpoints.worker_call body) ctx app
unfolding tools_call guarded scope_for_tool run_tool arguments_of tool_call call_in_mode given_mode
    served call_endpoint
worker_call-parity draw body mode ctx app granted full e = rw granted (
    rw full
      (rw e (answer-parity (call draw.world draw.hex draw.now draw.outcome _ app.manager) app)))
