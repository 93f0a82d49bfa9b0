-- ===== src/Server/Answers.antt =====
-- server.py: what is made of a method's result or exception keeps the tasks safe.
use ai_worker_bridge_mcp.Base.{String, Bool, ◌≡◌, refl, sym, subst, true, false, Option, none, some}
use ai_worker_bridge_mcp.Base.Text.{Text}
use ai_worker_bridge_mcp.Base.Exec.{Result, ok, err}
use ai_worker_bridge_mcp.Exceptions.{Exception, saturation_error, is_working_directory_error}
use ai_worker_bridge_mcp.Config.{Mode}
use ai_worker_bridge_mcp.Store.{get}
use ai_worker_bridge_mcp.Registry.{get_worker}
use ai_worker_bridge_mcp.Permissions.{resolve_working_directory}
use ai_worker_bridge_mcp.Manager.{TaskManager}
use ai_worker_bridge_mcp.Manager.Calls.{Reply, call_other_mode, known_other_mode, refused_mode}
use ai_worker_bridge_mcp.Manager.Steps.{IsSafe, IsSafe-trans, SameTasks-IsSafe, SameTasks-refl}
use ai_worker_bridge_mcp.Manager.Steps.Submits.{call-IsSafe}
use ai_worker_bridge_mcp.Server.{App, emit_app}
use ai_worker_bridge_mcp.Server.Reload.{ReloadError, conflict, failed}
use ai_worker_bridge_mcp.Server.Tools.{
  Draw, ToolArguments, call_answer, denied_answer, tool_call, call_in_mode, mode_of, given_mode,
  cancel_answer_of, reload_answer,
}
use ai_worker_bridge_mcp.Server.Endpoints.{
  http_answer, denied_http, cancel_endpoint, reload_endpoint,
}
use ai_worker_bridge_mcp.Server.Requests.{Untouched, emit_app-Untouched}

refused_mode-same :
    (mode : Text) (worker_id : String) (r : Result Exception Text) (m : TaskManager)
    → (refused_mode mode worker_id r m).1 ≡ m
unfolding refused_mode
refused_mode-same mode worker_id (ok directory) m = refl
refused_mode-same mode worker_id (err e) m = refl

module _ (draw : Draw) where
  known_other_mode-same :
      (mode prompt : Text) (worker_id : String) (r : Result Exception _) (m : TaskManager)
      → (known_other_mode draw.world mode prompt worker_id r m).1 ≡ m
  unfolding known_other_mode
  known_other_mode-same mode prompt worker_id (err e) m = refl
  known_other_mode-same mode prompt worker_id (ok worker) m =
      refused_mode-same mode worker_id (resolve_working_directory draw.world worker prompt) m

  call_in_mode-IsSafe :
      (mode : Option Mode) (text : Text) (worker_id : String) (prompt : Text) (key : Option String)
      (m : TaskManager)
      → m.started ≡ true
      → get draw.hex m.store ≡ none
      → IsSafe m (call_in_mode draw mode text worker_id prompt key m).1
  unfolding call_in_mode call_other_mode
  call_in_mode-IsSafe (some mode) text worker_id prompt key m on fresh =
      call-IsSafe draw.world draw.hex draw.now draw.outcome _ m on fresh
  call_in_mode-IsSafe none text worker_id prompt key m on fresh =
      subst (IsSafe m)
        (sym (known_other_mode-same text prompt worker_id (get_worker m.workers worker_id) m))
        (SameTasks-IsSafe (SameTasks-refl m))

  pub tool_call-IsSafe :
      (worker_id : Option String) (prompt : Option Text) (args : ToolArguments) (m : TaskManager)
      → m.started ≡ true
      → get draw.hex m.store ≡ none
      → IsSafe m (tool_call draw worker_id prompt args m).1
  unfolding tool_call
  tool_call-IsSafe none prompt args m on fresh = SameTasks-IsSafe (SameTasks-refl m)
  tool_call-IsSafe (some worker_id) none args m on fresh = SameTasks-IsSafe (SameTasks-refl m)
  tool_call-IsSafe (some worker_id) (some prompt) args m on fresh =
      call_in_mode-IsSafe (mode_of (given_mode args.mode)) (given_mode args.mode) worker_id prompt
        args.idempotency_key m on fresh

-- An app whose manager is safe after the step; an event of the audit log changes nothing.
abbrev pub Safe : App → App → Type 0
Safe a b = IsSafe a.manager b.manager

pub Untouched-Safe : {a b : App} → Untouched a b → Safe a b
Untouched-Safe u = SameTasks-IsSafe u.tasks

emit_app-Safe : (event outcome : String) (a b : App) → Safe a b → Safe a (emit_app event outcome b)
emit_app-Safe event outcome a b s =
    IsSafe-trans s (Untouched-Safe (emit_app-Untouched event outcome b))

denied_answer-Safe :
    (a : App) (denied : Bool) (e : Exception) (app : App)
    → Safe a app
    → Safe a (denied_answer denied e app).1
denied_answer-Safe a true e app s =
    unfold denied_answer in emit_app-Safe "working_directory_denied" "denied" a app s
denied_answer-Safe a false e app s = unfold denied_answer in s

pub call_answer-Safe :
    (r : Result Exception Reply × TaskManager) (app : App)
    → IsSafe app.manager r.1
    → Safe app (call_answer r app).1
call_answer-Safe (ok reply, n) app s = unfold call_answer in s
call_answer-Safe (err (saturation_error text scope), n) app s = unfold call_answer in s
call_answer-Safe (err e, n) app s =
    unfold call_answer in
    denied_answer-Safe app (is_working_directory_error e) e (record app { manager = n }) s

denied_http-Safe :
    (a : App) (denied : Bool) (e : Exception) (app : App)
    → Safe a app
    → Safe a (denied_http denied e app).1
denied_http-Safe a true e app s =
    unfold denied_http in emit_app-Safe "working_directory_denied" "denied" a app s
denied_http-Safe a false e app s = unfold denied_http in s

pub http_answer-Safe :
    (r : Result Exception Reply × TaskManager) (app : App)
    → IsSafe app.manager r.1
    → Safe app (http_answer r app).1
http_answer-Safe (ok reply, n) app s = unfold http_answer in s
http_answer-Safe (err (saturation_error text scope), n) app s = unfold http_answer in s
http_answer-Safe (err e, n) app s =
    unfold http_answer in
    denied_http-Safe app (is_working_directory_error e) e (record app { manager = n }) s

pub cancel_answer_of-Safe :
    (r : Result Exception Reply × TaskManager) (app : App)
    → IsSafe app.manager r.1
    → Safe app (cancel_answer_of r app).1
unfolding cancel_answer_of
cancel_answer_of-Safe (ok reply, n) app s = s
cancel_answer_of-Safe (err e, n) app s = s

pub cancel_endpoint-Safe :
    (r : Result Exception Reply × TaskManager) (app : App)
    → IsSafe app.manager r.1
    → Safe app (cancel_endpoint r app).1
unfolding cancel_endpoint
cancel_endpoint-Safe (ok reply, n) app s = s
cancel_endpoint-Safe (err e, n) app s = s

pub reload_answer-Safe :
    (r : Result ReloadError (Unit {0}) × App) (app : App)
    → Safe app r.1
    → Safe app (reload_answer r).1
reload_answer-Safe (ok done, n) app s =
    unfold reload_answer in emit_app-Safe "config_reload" "success" app n s
reload_answer-Safe (err conflict, n) app s = unfold reload_answer in s
reload_answer-Safe (err (failed text), n) app s = unfold reload_answer in s

pub reload_endpoint-Safe :
    (r : Result ReloadError (Unit {0}) × App) (app : App)
    → Safe app r.1
    → Safe app (reload_endpoint r).1
reload_endpoint-Safe (ok done, n) app s =
    unfold reload_endpoint in emit_app-Safe "config_reload" "success" app n s
reload_endpoint-Safe (err conflict, n) app s = unfold reload_endpoint in s
reload_endpoint-Safe (err (failed text), n) app s = unfold reload_endpoint in s
