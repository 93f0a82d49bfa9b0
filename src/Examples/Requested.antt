-- ===== src/Examples/Requested.antt =====
-- The theorems of the request, on a task with a key and a worker with a token.
use ai_worker_bridge_mcp.Base.{◌≡◌, some, none, false, [], ◌++◌}
use ai_worker_bridge_mcp.Base.Text.{codes}
use ai_worker_bridge_mcp.Base.Exec.{ok}
use ai_worker_bridge_mcp.Json.{Json, str, obj, end, field}
use ai_worker_bridge_mcp.TaskState.{TaskRecord}
use ai_worker_bridge_mcp.Store.{usable_key}
use ai_worker_bridge_mcp.Registry.Request.{Outside, task_arguments, lookup, headers, payload}
use ai_worker_bridge_mcp.Registry.Replies.{normalize_response}
use ai_worker_bridge_mcp.Server.Pages.{mock_openai}
use ai_worker_bridge_mcp.Server.Echo.{normalize_response-mock_openai}
use ai_worker_bridge_mcp.Registry.Headers.{id_text, headers-task_arguments}
use ai_worker_bridge_mcp.Examples.Data.{busy}
use ai_worker_bridge_mcp.Examples.Directories.{worker}

abbrev outside : Outside
outside = record {
  getenv = λ name. some (codes "secret");
  b64encode = λ t. t;
  decimal = λ n. codes "1";
}

abbrev keyed : TaskRecord
keyed = record busy { idempotency_key = some "order-1"; dispatch_attempt_id = some "a1" }

headers-task_arguments_example :
    (lookup "Idempotency-Key" (headers outside (worker false) (task_arguments keyed false))
      ≡ id_text (usable_key (some "order-1")) none)
    × (lookup "X-Dispatch-Attempt-ID" (headers outside (worker false) (task_arguments keyed false))
        ≡ id_text (usable_key (some "a1")) none)
headers-task_arguments_example = headers-task_arguments outside (worker false) keyed false

normalize_response-mock_openai_example :
    (reply : Json) × (mock_openai (λ v. []) (payload (worker false) (task_arguments keyed false))
      ≡ some reply)
    × (normalize_response reply
        ≡ ok (
            obj (
              field
                (codes "content")
                (str (codes "echo:" ++ (task_arguments keyed false).prompt))
                (field (codes "raw") reply end))))
normalize_response-mock_openai_example =
    normalize_response-mock_openai (λ v. []) (worker false) (task_arguments keyed false)
