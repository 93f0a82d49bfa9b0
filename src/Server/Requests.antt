-- ===== src/Server/Requests.antt =====
-- server.py: the ways that a request can end. The key that it presents is looked up, which changes
-- nothing but the audit log; then its scope is looked for; then the endpoint or the tool does its work.
use ai_worker_bridge_mcp.Base.{
  String, ◌≡◌, ◌∙◌, refl, sym, subst, true, Option, none, some, Bool-cases, inl, inr, is_nil,
}
use ai_worker_bridge_mcp.Base.Text.{Text}
use ai_worker_bridge_mcp.Base.Exec.{Result, ok, err}
use ai_worker_bridge_mcp.Config.{Scope, read}
use ai_worker_bridge_mcp.Exceptions.{Exception}
use ai_worker_bridge_mcp.Manager.Touches.{SameTasks}
use ai_worker_bridge_mcp.Server.{
  App, AuthContext, Headers, Refusal, has_scope, emit_app, Served, identified, checked_key,
  authenticate, presented, find_key, require, require_scope,
}
use ai_worker_bridge_mcp.Server.Tools.{
  Draw, ToolArguments, ToolAnswer, RpcRequest, Tool, tool_of, scope_for_tool, run_tool, rpc_outcome,
  guarded, tools_call, handle_jsonrpc, RpcOutcome, initialized, tools_listed,
}
use ai_worker_bridge_mcp.Server.Endpoints.{
  HttpRequest, HttpAnswer, served, after_auth, depends, endpoint_scope, open_page, opened,
  handle_http, rpc_endpoint,
}
use text.Mathlib.Text.{◌==◌ as str_eq}

-- The tasks, the coroutines and the keys are as they were.
pub record Untouched (a b : App) : Type 0 where
  pub tasks : SameTasks a.manager b.manager
  pub keys : b.scoped_keys ≡ a.scoped_keys
  pub path : b.sqlite_path ≡ a.sqlite_path

pub Untouched-refl : (app : App) → Untouched app app
Untouched-refl app = record {
  tasks = record { store = refl; background = refl; started = refl };
  keys = refl;
  path = refl;
}

pub Untouched-trans : {a b c : App} → Untouched a b → Untouched b c → Untouched a c
Untouched-trans f g = record {
  tasks = record {
    store = g.tasks.store ∙ f.tasks.store;
    background = g.tasks.background ∙ f.tasks.background;
    started = g.tasks.started ∙ f.tasks.started;
  };
  keys = g.keys ∙ f.keys;
  path = g.path ∙ f.path;
}

pub emit_app-Untouched :
    (event outcome : String) (app : App) → Untouched app (emit_app event outcome app)
emit_app-Untouched event outcome app =
    unfold emit_app in
    record {
      tasks = record { store = refl; background = refl; started = refl };
      keys = refl;
      path = refl;
    }

-- The scope that the endpoint requires, if any, is the context's.
abbrev pub Granted : Option Scope → AuthContext → Type 0
Granted none ctx = Unit {0}
Granted (some scope) ctx = has_scope scope ctx ≡ true

pub identified-Untouched :
    (r : Result Refusal (Option AuthContext)) (app : App) → Untouched app (identified r app).1
identified-Untouched (err e) app = unfold identified in Untouched-refl app
identified-Untouched (ok (some ctx)) app = unfold identified in Untouched-refl app
identified-Untouched (ok none) app =
    unfold identified in emit_app-Untouched "auth_failure" "invalid" app

checked_key-Untouched :
    (getenv : String → Option Text) (o : Option Text) (app : App)
    → Untouched app (checked_key getenv o app).1
checked_key-Untouched getenv none app =
    unfold checked_key in emit_app-Untouched "auth_failure" "missing" app
checked_key-Untouched getenv (some text) app = elim (Bool-cases (is_nil text)) [
  | inl h ↦ unfold checked_key in rw h (emit_app-Untouched "auth_failure" "missing" app)
  | inr h ↦
      unfold checked_key in rw h (identified-Untouched (find_key getenv text app.scoped_keys) app)
]

-- Whatever holds of every untouched app, and of what each tool that is granted leaves, holds of what a
-- JSON-RPC request leaves.
module _ (P : App → Type 0) (draw : Draw) (ctx : AuthContext) (app : App)
    (refused : (n : App) → Untouched app n → P n) where
  guarded-P :
      (scope : Scope) (served : RpcOutcome × App)
      → (has_scope scope ctx ≡ true → P served.1)
      → P (guarded scope ctx served app).1
  guarded-P scope served granted = elim (Bool-cases (has_scope scope ctx)) [
    | inl h ↦ unfold guarded in rw h (granted h)
    | inr h ↦
        unfold guarded in rw h (refused _ (emit_app-Untouched "auth_scope_denied" "forbidden" app))
  ]

  rpc_outcome-P : (r : Result Exception ToolAnswer × App) → P r.1 → P (rpc_outcome r).1
  rpc_outcome-P (ok answer, n) p = unfold rpc_outcome in p
  rpc_outcome-P (err e, n) p = unfold rpc_outcome in p

  tools_call-P :
      (name : String) (tool : Option Tool) (args : ToolArguments)
      → (has_scope (scope_for_tool tool) ctx ≡ true → P (run_tool draw name tool args app).1)
      → P (tools_call draw name tool args ctx app).1
  tools_call-P name tool args granted =
      unfold tools_call in
      guarded-P (scope_for_tool tool) (rpc_outcome (run_tool draw name tool args app))
        (λ h. rpc_outcome-P (run_tool draw name tool args app) (granted h))

  pub every_rpc :
      (req : RpcRequest)
      → ((tool : Option Tool)
          → has_scope (scope_for_tool tool) ctx ≡ true
          → P (run_tool draw req.name tool req.arguments app).1)
      → P (handle_jsonrpc draw req ctx app).1
  every_rpc req granted = elim (Bool-cases (str_eq req.method "initialize")) [
    | inl i ↦ unfold handle_jsonrpc in rw i (guarded-P read (initialized, app) (λ h. unchanged))
    | inr i ↦ elim (Bool-cases (str_eq req.method "tools/list")) [
      | inl l ↦
          unfold handle_jsonrpc in rw i (rw l (guarded-P read (tools_listed, app) (λ h. unchanged)))
      | inr l ↦ elim (Bool-cases (str_eq req.method "tools/call")) [
        | inl c ↦
            unfold handle_jsonrpc in
            rw i (
              rw l (
                rw c (
                  tools_call-P req.name (tool_of req.name) req.arguments
                    (granted (tool_of req.name)))))
        | inr c ↦ unfold handle_jsonrpc in rw i (rw l (rw c unchanged))
      ]
    ]
  ]
    where
      unchanged : P app
      unchanged = refused app (Untouched-refl app)

pub rpc_endpoint-P : (P : App → Type 0) (r : RpcOutcome × App) → P r.1 → P (rpc_endpoint r).1
rpc_endpoint-P P (outcome, n) p = unfold rpc_endpoint in p

-- The same for an HTTP request and its endpoint.
module _ (P : App → Type 0) (draw : Draw) (req : HttpRequest) (app : App)
    (refused : (n : App) → Untouched app n → P n) where
  -- What the endpoint leaves, for a context that `a` gives.
  abbrev pub Serves : Served AuthContext → Type 0
  Serves a =
      (ctx : AuthContext) (n : App)
      → a ≡ (ok ctx, n)
      → Untouched app n
      → Granted (endpoint_scope req) ctx
      → P (served draw req ctx n).1

  after_require-P :
      {scope : Scope} (a : Served AuthContext)
      → endpoint_scope req ≡ some scope
      → Untouched app a.1
      → Serves a
      → P (after_auth draw req (require scope a)).1
  after_require-P (err e, n) q same serves = unfold require after_auth in refused n same
  after_require-P {scope} (ok ctx, n) q same serves = elim (Bool-cases (has_scope scope ctx)) [
    | inl h ↦
        unfold require after_auth in
        rw h (serves ctx n refl same (subst (λ o. Granted o ctx) (sym q) h))
    | inr h ↦
        unfold require after_auth in
        rw h
          (refused _ (Untouched-trans same (emit_app-Untouched "auth_scope_denied" "forbidden" n)))
  ]

  after_none-P :
      (a : Served AuthContext)
      → endpoint_scope req ≡ none
      → Untouched app a.1
      → Serves a
      → P (after_auth draw req a).1
  after_none-P (err e, n) q same serves = unfold after_auth in refused n same
  after_none-P (ok ctx, n) q same serves =
      unfold after_auth in serves ctx n refl same (subst (λ o. Granted o ctx) (sym q) tt)

  opened-P : (o : Option HttpAnswer) (rest : Served HttpAnswer) → P rest.1 → P (opened o app rest).1
  opened-P none rest p = unfold opened in p
  opened-P (some answer) rest p = unfold opened in refused app (Untouched-refl app)

  module _ (getenv : String → Option Text) (headers : Headers) where
    after_depends-P :
        (o : Option Scope)
        → endpoint_scope req ≡ o
        → Serves (authenticate getenv headers app)
        → P (after_auth draw req (depends getenv o headers app)).1
    after_depends-P none q serves =
        unfold depends in
        after_none-P (authenticate getenv headers app) q
          (unfold authenticate in checked_key-Untouched getenv (presented headers) app) serves
    after_depends-P (some scope) q serves =
        unfold depends require_scope in
        after_require-P (authenticate getenv headers app) q
          (unfold authenticate in checked_key-Untouched getenv (presented headers) app) serves

    pub every_request :
        Serves (authenticate getenv headers app) → P (handle_http getenv draw headers req app).1
    every_request serves =
        unfold handle_http in
        opened-P (open_page req)
          (after_auth draw req (depends getenv (endpoint_scope req) headers app))
          (after_depends-P (endpoint_scope req) refl serves)
