-- ===== src/Examples/Offered.antt =====
-- The tools of the list, on requests that lack arguments.
use ai_worker_bridge_mcp.Base.{◌≡◌, refl, true, some, none, any, is_some}
use ai_worker_bridge_mcp.Base.Text.{codes, text_eq}
use ai_worker_bridge_mcp.Server.Tools.{ToolArguments, tool_of, mode_of, run_tool}
use ai_worker_bridge_mcp.Server.Schemas.{ToolSchema, mode_argument, tool_schemas}
use ai_worker_bridge_mcp.Server.Offered.{
  Raises, lacks, is_given, tool_of-tool_schemas, run_tool-lacks,
}
use ai_worker_bridge_mcp.Examples.Served.{draw, app}
use text.Mathlib.Text.{◌==◌ as str_eq}

abbrev no_prompt : ToolArguments
no_prompt = record {
  worker_id = some "w";
  prompt = none;
  mode = none;
  idempotency_key = none;
  task_id = none;
}

lacks_prompt : any (lacks "worker_call" no_prompt) tool_schemas ≡ true
unfolding tool_schemas is_given
lacks_prompt = refl

run_tool-lacks_example :
    Raises (run_tool draw "worker_call" (tool_of "worker_call") no_prompt app) app
run_tool-lacks_example = run_tool-lacks draw no_prompt app "worker_call" lacks_prompt

tool_of-tool_schemas_example :
    (is_some (tool_of "worker_list")
      ≡ any (λ (s : ToolSchema). str_eq "worker_list" s.name) tool_schemas)
    × (is_some (mode_of (codes "async")) ≡ any (text_eq (codes "async")) mode_argument.choices)
tool_of-tool_schemas_example = tool_of-tool_schemas "worker_list" (codes "async")
