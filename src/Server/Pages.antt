-- ===== src/Server/Pages.antt =====
-- server.py: the pages of `create_app` that show the state, and the mock worker, whose reply is a
-- completion. `str` of a JSON value that is no text is a parameter.
use ai_worker_bridge_mcp.Base.{
  ℕ, String, Bool, true, false, not, Option, none, some, List, [], ◌++◌, is_nil, if◌then◌else◌,
}
use ai_worker_bridge_mcp.Base.Text.{Text, codes}
use ai_worker_bridge_mcp.Base.Exec.{Result, ok, err}
use ai_worker_bridge_mcp.Json.{
  Json, bool, int, str, arr, obj, nil, cons, end, field, Items, Fields, get, truthy,
}
use ai_worker_bridge_mcp.Exceptions.{Exception, class_name}
use ai_worker_bridge_mcp.Config.{RecoveryConfig, LimitsConfig}
use ai_worker_bridge_mcp.Manager.Calls.{active_count, queued_count}
use ai_worker_bridge_mcp.Registry.Health.{PublicWorker}
use ai_worker_bridge_mcp.Server.{App}

-- `/live` and `/health`
abbrev pub live_page : Json
live_page = obj (
    field (codes "ok") (bool true) (
      field (codes "service") (str (codes "ai-worker-bridge-mcp"))
        (field (codes "status") (str (codes "live")) end)))

abbrev pub health_page : Json
health_page = obj (
    field (codes "ok") (bool true) (
      field (codes "service") (str (codes "ai-worker-bridge-mcp")) (
        field (codes "live") (str (codes "/live"))
          (field (codes "ready") (str (codes "/ready")) end))))

ready_body : Bool → Fields → Json
ready_body is_ok checks =
    obj (field (codes "ok") (bool is_ok) (field (codes "checks") (obj checks) end))

-- `/ready`, with the status of the response: `store.ping()` returns, or it raises.
unfoldable pub ready_page : App → Result Exception Bool → ℕ × Json
unfolding ready_body class_name
ready_page app (ok writable) = (
  200,
  ready_body true (
      field (codes "config") (bool true) (
        field (codes "workers_configured") (bool (not (is_nil app.manager.workers.workers)))
          (field (codes "sqlite_writable") (bool writable) end))),
)
ready_page app (err e) = (
  503,
  ready_body false (
      field (codes "config") (bool true) (
        field (codes "workers_configured") (bool (not (is_nil app.manager.workers.workers))) (
          field (codes "sqlite_writable") (bool false)
            (field (codes "sqlite_error") (str (class_name e)) end)))),
)

-- The part of `/status` that changes; `workers` is what the registry lists.
pub record StatusPage : Type 0 where
  pub workers : List PublicWorker
  pub state_store : String
  pub recovery : RecoveryConfig
  pub limits : LimitsConfig
  pub active : ℕ
  pub queued : ℕ

unfoldable pub status_page : List PublicWorker → App → StatusPage
unfolding active_count queued_count
status_page workers app = record {
  workers = workers;
  state_store = app.sqlite_path;
  recovery = app.manager.recovery;
  limits = app.manager.limits;
  active = active_count app.manager;
  queued = queued_count app.manager;
}

-- `messages[-1]`
last_item : Json → Items → Json
last_item v nil = v
last_item v (cons w ws) = last_item w ws

-- `messages[-1].get("content", "")`, `none` where it raises.
content_of : Json → Option Json
content_of (obj fs) = elim (get (codes "content") fs) [ none ↦ some (str []) | some v ↦ some v ]
content_of _ = none

-- `payload.get("messages") or []`, and the content of its last one.
unfoldable pub last_content : Option Json → Option Json
unfolding last_item content_of
last_content (some (arr (cons v vs))) = content_of (last_item v vs)
last_content (some v) = if truthy v then none else some (str [])
last_content none = some (str [])

-- `f"{prompt}"`
unfoldable pub shown_value : (Json → Text) → Json → Text
shown_value str_value (str text) = text
shown_value str_value v = str_value v

-- `payload.get("model", "mock-worker")`
unfoldable pub model_of : Option Json → Json
model_of none = str (codes "mock-worker")
model_of (some v) = v

abbrev pub completion : Text → Json → Json
completion content model = obj (
    field (codes "id") (str (codes "chatcmpl-ai-bridge-smoke")) (
      field (codes "object") (str (codes "chat.completion")) (
        field (codes "choices")
          (arr (
            cons
              (obj (
                field (codes "index") (int 0) (
                  field (codes "message")
                    (obj (
                      field (codes "role") (str (codes "assistant"))
                        (field (codes "content") (str content) end)))
                    (field (codes "finish_reason") (str (codes "stop")) end))))
              nil))
          (field (codes "model") model end))))

unfoldable pub echoed : (Json → Text) → Fields → Option Json → Option Json
unfolding shown_value model_of
echoed str_value fs none = none
echoed str_value fs (some prompt) =
    some (
      completion (codes "echo:" ++ shown_value str_value prompt)
        (model_of (get (codes "model") fs)))

-- `/mock/openai`, `none` where it raises.
unfoldable pub mock_openai : (Json → Text) → Json → Option Json
unfolding echoed last_content
mock_openai str_value (obj fs) = echoed str_value fs (last_content (get (codes "messages") fs))
mock_openai str_value _ = none
