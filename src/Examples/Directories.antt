-- ===== src/Examples/Directories.antt =====
-- The theorems of Permissions on concrete prompts, with a directory tree that has no links.
use ai_worker_bridge_mcp.Base.{◌≡◌, ◌↔◌, refl, Bool, true, false, some, none, List, [], ◌∷◌}
use ai_worker_bridge_mcp.Base.Text.{Text, codes}
use ai_worker_bridge_mcp.Base.Exec.{ok}
use ai_worker_bridge_mcp.Json.{str, obj, field, end}
use ai_worker_bridge_mcp.Config.{bearer, sync, async, WorkerConfig}
use ai_worker_bridge_mcp.Permissions.{World, match_parts, resolve_working_directory}
use ai_worker_bridge_mcp.Permissions.Paths.{safe_normalize, segments}
use ai_worker_bridge_mcp.Permissions.Globs.{Matches, match_parts_iff}
use ai_worker_bridge_mcp.Permissions.Containment.{IsGranted, resolve_working_directory-IsGranted}
use ai_worker_bridge_mcp.Permissions.Canonical.{IsResolved, resolve_working_directory-IsResolved}

-- The YAML of the prompts of the examples, and a tree with no links.
abbrev pub world : World
unfolding segments
world = record {
  safe_load = λ body. some (obj (field (codes "working_directory") (str (codes "/work/a")) end));
  str_value = λ v. [];
  resolve = λ path. some (segments path);
}

abbrev pub worker : Bool → WorkerConfig
worker canonicalize = record {
  worker_id = "w";
  display_name = codes "Worker";
  endpoint_url = codes "http://host/v1/chat/completions";
  auth_type = bearer;
  secret_env = some "TOKEN";
  username_env = none;
  password_env = none;
  model_name = codes "m";
  default_system_prompt = none;
  capabilities = [];
  description = [];
  allowed_modes = sync ∷ async ∷ [];
  timeout_limits = record { sync_millis = 1000; async_millis = 2000 };
  filesystem = record { read = []; write = codes "/work" ∷ []; canonicalize = canonicalize };
  max_concurrent_tasks = 1;
}

abbrev pub prompt : Text
prompt = codes "---\nworking_directory: /work/a\n---\nDo"

normalises : safe_normalize (codes "/a//./b/") ≡ some (codes "/a/b")
unfolding safe_normalize
normalises = refl

abbrev pattern_parts : List Text
pattern_parts = codes "a" ∷ codes "*" ∷ codes "c" ∷ []

abbrev path_parts : List Text
path_parts = codes "a" ∷ codes "b" ∷ codes "b" ∷ codes "c" ∷ []

match_parts_iff_example :
    (match_parts pattern_parts path_parts ≡ true) ↔ Matches pattern_parts path_parts
match_parts_iff_example = match_parts_iff pattern_parts path_parts

lexical_answer : resolve_working_directory world (worker false) prompt ≡ ok (codes "/work/a")
unfolding resolve_working_directory
lexical_answer = refl

resolve_working_directory-IsGranted_example : IsGranted (codes "/work" ∷ []) (codes "/work/a")
resolve_working_directory-IsGranted_example =
    resolve_working_directory-IsGranted world (worker false) prompt refl lexical_answer

canonical_answer : resolve_working_directory world (worker true) prompt ≡ ok (codes "/work/a")
unfolding resolve_working_directory
canonical_answer = refl

resolve_working_directory-IsResolved_example :
    IsResolved world (codes "/work" ∷ []) (codes "/work/a")
resolve_working_directory-IsResolved_example =
    resolve_working_directory-IsResolved world (worker true) prompt refl canonical_answer
