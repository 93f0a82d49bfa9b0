-- ===== src/Server/Tools.antt =====
-- server.py, `_handle_jsonrpc`: the JSON-RPC methods and the tools. A request holds the fields that the
-- handler reads; an argument that is there is a text.
use ai_worker_bridge_mcp.Base.{
  ℕ, String, Bool, true, false, not, ◌++◌, Option, none, some, if◌then◌else◌,
}
use ai_worker_bridge_mcp.Base.Text.{Text, codes, text_eq}
use ai_worker_bridge_mcp.Base.Exec.{Result, ok, err}
use ai_worker_bridge_mcp.Json.{Json}
use ai_worker_bridge_mcp.Exceptions.{
  Exception, saturation_error, other_error, message, status_code, is_working_directory_error,
}
use ai_worker_bridge_mcp.Config.{Mode, sync, async, Scope, read, submit, cancel, admin}
use ai_worker_bridge_mcp.Permissions.{World}
use ai_worker_bridge_mcp.Store.{Table}
use ai_worker_bridge_mcp.Manager.{TaskManager}
use ai_worker_bridge_mcp.Manager.Calls.{
  Reply, mode_refused, other_mode_refused, sync_result, task_response, not_found, invalid,
  CallRequest, call, call_other_mode, check,
}
use ai_worker_bridge_mcp.Manager.Calls
use ai_worker_bridge_mcp.Server.{App, AuthContext, has_scope, missing_scope, emit_app}
use ai_worker_bridge_mcp.Server.Reload.{NewConfig, ReloadError, conflict, failed, reload_with}
use text.Mathlib.Text.{◌==◌ as str_eq}

-- What a request draws from outside: a fresh id, the time, the outcome of a synchronous call, and what
-- a reload finds.
pub record Draw : Type 0 where
  pub world : World
  pub hex : String
  pub now : String
  pub outcome : Result Exception Json
  pub clock : ℕ → String
  pub rows : Table
  pub new_config : Result Text NewConfig

pub record ToolArguments : Type 0 where
  pub worker_id : Option String
  pub prompt : Option Text
  pub mode : Option Text
  pub idempotency_key : Option String
  pub task_id : Option String

pub record RpcRequest : Type 0 where
  pub method : String
  pub name : String
  pub arguments : ToolArguments

-- `call_result`, the dict that a tool answers.
pub data ToolAnswer : Type 0 where
  replied : Reply → ToolAnswer
  workers_listed : ToolAnswer
  bad_request : ℕ → Text → ToolAnswer
  saturated : ℕ → Text → String → ToolAnswer
  reloaded : ToolAnswer
  reload_conflict : ToolAnswer
  reload_failed : Text → ToolAnswer

-- The response: a result, or an error with code -32001 or -32000.
pub data RpcOutcome : Type 0 where
  initialized : RpcOutcome
  tools_listed : RpcOutcome
  answered : ToolAnswer → RpcOutcome
  forbidden : Text → RpcOutcome
  errored : Text → RpcOutcome

unfoldable pub reply_ok : Reply → Bool
reply_ok (mode_refused mode worker_id) = false
reply_ok (other_mode_refused mode worker_id) = false
reply_ok (sync_result worker_id result) = true
reply_ok (task_response task) = true
reply_ok (not_found task_id) = false
reply_ok (invalid text task_id) = false

-- `isError`
unfoldable pub is_error : ToolAnswer → Bool
unfolding reply_ok
is_error (replied reply) = not (reply_ok reply)
is_error workers_listed = false
is_error reloaded = false
is_error _ = true

unfoldable pub mode_of : Text → Option Mode
unfolding text_eq
mode_of text =
    if text_eq text (codes "sync")
    then some sync
    else if text_eq text (codes "async")
    then some async
    else none

-- `args["…"]` of an argument that is not there.
unfoldable pub missing_argument : Text → Exception
missing_argument name = other_error (codes "'" ++ (name ++ codes "'")) (codes "KeyError")

unfoldable pub call_in_mode :
    Draw
    → Option Mode
    → Text
    → String
    → Text
    → Option String
    → TaskManager
    → Result Exception Reply × TaskManager
unfolding call call_other_mode
call_in_mode draw (some mode) text worker_id prompt key m =
    call draw.world draw.hex draw.now draw.outcome
      (record { worker_id = worker_id; prompt = prompt; mode = mode; idempotency_key = key }) m
call_in_mode draw none text worker_id prompt key m =
    call_other_mode draw.world text prompt worker_id m

-- `args.get("mode", "sync")`
unfoldable pub given_mode : Option Text → Text
given_mode none = codes "sync"
given_mode (some text) = text

unfoldable pub tool_call :
    Draw
    → Option String
    → Option Text
    → ToolArguments
    → TaskManager
    → Result Exception Reply × TaskManager
unfolding call_in_mode mode_of given_mode missing_argument
tool_call draw none prompt args m = (err (missing_argument (codes "worker_id")), m)
tool_call draw (some worker_id) none args m = (err (missing_argument (codes "prompt")), m)
tool_call draw (some worker_id) (some prompt) args m =
    call_in_mode draw (mode_of (given_mode args.mode)) (given_mode args.mode) worker_id prompt
      args.idempotency_key m

-- `except WorkingDirectoryError`, if the exception is one.
unfoldable pub denied_answer : Bool → Exception → App → Result Exception ToolAnswer × App
unfolding message status_code emit_app
denied_answer true e app =
    (ok (bad_request (status_code e) (message e)), emit_app "working_directory_denied" "denied" app)
denied_answer false e app = (err e, app)

-- The exceptions of `manager.call` that a tool answers; any other is raised.
unfoldable pub call_answer :
    Result Exception Reply × TaskManager → App → Result Exception ToolAnswer × App
unfolding message status_code is_working_directory_error denied_answer
call_answer (ok reply, n) app = (ok (replied reply), record app { manager = n })
call_answer (err (saturation_error text scope), n) app = (
  ok (saturated (status_code (saturation_error text scope)) text scope),
  record app { manager = n },
)
call_answer (err e, n) app =
    denied_answer (is_working_directory_error e) e (record app { manager = n })

unfoldable pub check_answer : Option String → App → Result Exception ToolAnswer × App
unfolding check missing_argument
check_answer none app = (err (missing_argument (codes "task_id")), app)
check_answer (some task_id) app = (ok (replied (check task_id app.manager)), app)

unfoldable pub cancel_answer_of :
    Result Exception Reply × TaskManager → App → Result Exception ToolAnswer × App
cancel_answer_of (ok reply, n) app = (ok (replied reply), record app { manager = n })
cancel_answer_of (err e, n) app = (err e, record app { manager = n })

unfoldable pub cancel_answer : Draw → Option String → App → Result Exception ToolAnswer × App
unfolding Calls.cancel cancel_answer_of missing_argument
cancel_answer draw none app = (err (missing_argument (codes "task_id")), app)
cancel_answer draw (some task_id) app =
    cancel_answer_of (Calls.cancel draw.now task_id app.manager) app

unfoldable pub reload_answer :
    Result ReloadError (Unit {0}) × App → Result Exception ToolAnswer × App
unfolding emit_app
reload_answer (ok done, app) = (ok reloaded, emit_app "config_reload" "success" app)
reload_answer (err conflict, app) = (ok reload_conflict, app)
reload_answer (err (failed text), app) =
    (ok (reload_failed (codes "configuration reload failed: " ++ text)), app)

pub data Tool : Type 0 where
  worker_call worker_check worker_list worker_cancel worker_config_reload : Tool

unfoldable pub tool_of : String → Option Tool
tool_of name =
    if str_eq name "worker_call"
    then some worker_call
    else if str_eq name "worker_check"
    then some worker_check
    else if str_eq name "worker_list"
    then some worker_list
    else if str_eq name "worker_cancel"
    then some worker_cancel
    else if str_eq name "worker_config_reload"
    then some worker_config_reload
    else none

-- `_scope_for_tool`
unfoldable pub scope_for_tool : Option Tool → Scope
scope_for_tool (some worker_call) = submit
scope_for_tool (some worker_cancel) = cancel
scope_for_tool (some worker_config_reload) = admin
scope_for_tool _ = read

unfoldable pub run_tool :
    Draw → String → Option Tool → ToolArguments → App → Result Exception ToolAnswer × App
unfolding tool_call call_answer check_answer cancel_answer reload_with reload_answer
run_tool draw name none args app =
    (err (other_error (codes "unknown tool: " ++ codes name) (codes "ValueError")), app)
run_tool draw name (some worker_call) args app =
    call_answer (tool_call draw args.worker_id args.prompt args app.manager) app
run_tool draw name (some worker_check) args app = check_answer args.task_id app
run_tool draw name (some worker_list) args app = (ok workers_listed, app)
run_tool draw name (some worker_cancel) args app = cancel_answer draw args.task_id app
run_tool draw name (some worker_config_reload) args app =
    reload_answer (reload_with draw.clock draw.rows draw.new_config app)

-- `except Exception`
unfoldable pub rpc_outcome : Result Exception ToolAnswer × App → RpcOutcome × App
unfolding message
rpc_outcome (ok answer, app) = (answered answer, app)
rpc_outcome (err e, app) = (errored (message e), app)

-- `ctx.require(scope)` before a method, and `except HTTPException`.
unfoldable pub guarded : Scope → AuthContext → RpcOutcome × App → App → RpcOutcome × App
unfolding has_scope missing_scope emit_app
guarded scope ctx served app =
    if has_scope scope ctx
    then served
    else (forbidden (missing_scope scope), emit_app "auth_scope_denied" "forbidden" app)

unfoldable pub tools_call :
    Draw → String → Option Tool → ToolArguments → AuthContext → App → RpcOutcome × App
unfolding guarded scope_for_tool run_tool rpc_outcome
tools_call draw name tool args ctx app =
    guarded (scope_for_tool tool) ctx (rpc_outcome (run_tool draw name tool args app)) app

unfoldable pub handle_jsonrpc : Draw → RpcRequest → AuthContext → App → RpcOutcome × App
unfolding guarded tool_of tools_call
handle_jsonrpc draw req ctx app =
    if str_eq req.method "initialize"
    then guarded read ctx (initialized, app) app
    else if str_eq req.method "tools/list"
    then guarded read ctx (tools_listed, app) app
    else if str_eq req.method "tools/call"
    then tools_call draw req.name (tool_of req.name) req.arguments ctx app
    else (errored (codes "unsupported method: " ++ codes req.method), app)
