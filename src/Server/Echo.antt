-- ===== src/Server/Echo.antt =====
-- server.py and workers.py: the mock worker as a worker of the bridge.
use ai_worker_bridge_mcp.Base.{◌≡◌, refl, Bool-cases, inl, inr, Option, none, some, ◌++◌, is_nil}
use ai_worker_bridge_mcp.Base.Text.{Text, codes}
use ai_worker_bridge_mcp.Base.Exec.{ok}
use ai_worker_bridge_mcp.Json.{Json, str, arr, obj, end, field, get}
use ai_worker_bridge_mcp.Config.{WorkerConfig}
use ai_worker_bridge_mcp.Registry.Request.{CallArguments, payload, messages}
use ai_worker_bridge_mcp.Registry.Replies.{normalize_response}
use ai_worker_bridge_mcp.Server.Pages.{mock_openai, completion, last_content}

last_content-messages :
    (system : Option Text) (prompt : Text)
    → last_content (some (arr (messages system prompt))) ≡ some (str prompt)
unfolding last_content messages get
last_content-messages none prompt = refl
last_content-messages (some s) prompt = elim (Bool-cases (is_nil s)) [
  | inl e ↦ rw e refl
  | inr e ↦ rw e refl
]

mock_openai-payload :
    (str_value : Json → Text) (w : WorkerConfig) (args : CallArguments)
    → mock_openai str_value (payload w args)
      ≡ some (completion (codes "echo:" ++ args.prompt) (str w.model_name))
unfolding mock_openai payload get
mock_openai-payload str_value w args =
    rw (last_content-messages w.default_system_prompt args.prompt) refl

-- The mock worker answers every request that the registry makes, and the registry reads the prompt of the
-- request back out of the answer, after "echo:".
pub normalize_response-mock_openai :
    (str_value : Json → Text) (w : WorkerConfig) (args : CallArguments)
    → (reply : Json) × (mock_openai str_value (payload w args) ≡ some reply)
      × (normalize_response reply
          ≡ ok (
              obj (
                field
                  (codes "content")
                  (str (codes "echo:" ++ args.prompt))
                  (field (codes "raw") reply end))))
normalize_response-mock_openai str_value w args = (
  completion (codes "echo:" ++ args.prompt) (str w.model_name),
  mock_openai-payload str_value w args,
  unfold normalize_response in refl,
)
