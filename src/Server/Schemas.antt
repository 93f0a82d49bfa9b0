-- ===== src/Server/Schemas.antt =====
-- server.py, `_tool_schemas`: what the bridge says of its tools. A property of a tool's arguments is a
-- string; it may have the values that it is limited to, and a default.
use ai_worker_bridge_mcp.Base.{String, Option, none, some, List, [], ◌∷◌}
use ai_worker_bridge_mcp.Base.Text.{Text, codes}

pub record ArgumentSchema : Type 0 where
  pub name : String
  pub choices : List Text
  pub default_value : Option Text

pub record ToolSchema : Type 0 where
  pub name : String
  pub description : Text
  pub properties : List ArgumentSchema
  pub required : List String

abbrev pub plain_argument : String → ArgumentSchema
plain_argument name = record { name = name; choices = []; default_value = none }

abbrev pub mode_argument : ArgumentSchema
mode_argument = record {
  name = "mode";
  choices = codes "sync" ∷ codes "async" ∷ [];
  default_value = some (codes "sync");
}

abbrev pub call_schema : ToolSchema
call_schema = record {
  name = "worker_call";
  description = codes "Call an OpenAI-compatible worker synchronously or as a durable async task.";
  properties =
      plain_argument "worker_id"
      ∷ plain_argument "prompt"
      ∷ mode_argument
      ∷ plain_argument "idempotency_key"
      ∷ [];
  required = "worker_id" ∷ "prompt" ∷ [];
}

abbrev pub check_schema : ToolSchema
check_schema = record {
  name = "worker_check";
  description = codes "Poll a durable async task by taskId/task_id and retrieve result.";
  properties = plain_argument "task_id" ∷ [];
  required = "task_id" ∷ [];
}

abbrev pub list_schema : ToolSchema
list_schema = record {
  name = "worker_list";
  description = codes "List configured workers without exposing credentials.";
  properties = [];
  required = [];
}

abbrev pub cancel_schema : ToolSchema
cancel_schema = record {
  name = "worker_cancel";
  description = codes "Cancel a pending or running durable async task.";
  properties = plain_argument "task_id" ∷ [];
  required = "task_id" ∷ [];
}

abbrev pub reload_schema : ToolSchema
reload_schema = record {
  name = "worker_config_reload";
  description =
      codes
        "Reload bridge configuration from disk without calling the /reload HTTP endpoint directly.";
  properties = [];
  required = [];
}

unfoldable pub tool_schemas : List ToolSchema
tool_schemas = call_schema ∷ check_schema ∷ list_schema ∷ cancel_schema ∷ reload_schema ∷ []
