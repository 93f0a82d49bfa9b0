-- ===== src/Permissions/Tests.antt =====
-- Runs of permissions.py on the inputs of tests/test_permissions.py.
use ai_worker_bridge_mcp.Base.{◌≡◌, refl, true, false, some, none, [], ◌∷◌}
use ai_worker_bridge_mcp.Base.Text.{codes}
use ai_worker_bridge_mcp.Base.Exec.{ok}
use ai_worker_bridge_mcp.Json.{str, obj, field, end}
use ai_worker_bridge_mcp.Permissions.Paths.{normpath}
use ai_worker_bridge_mcp.Permissions.{
  World, frontmatter, path_is_allowed, extract_working_directory,
}

abbrev world : World
world = record {
  safe_load = λ body. some (obj (field (codes "working_directory") (str (codes " /shared ")) end));
  str_value = λ v. [];
  resolve = λ path. none;
}

normalised : normpath (codes "//a/./b//c/") ≡ codes "//a/b/c"
unfolding normpath
normalised = refl

parent : normpath (codes "///a/../../b") ≡ codes "/b"
unfolding normpath
parent = refl

block :
    frontmatter (codes "---\nworking_directory: /shared\n---\nDo")
    ≡ some (codes "working_directory: /shared")
unfolding frontmatter
block = refl

extracted : extract_working_directory world (codes "---\nx\n--- ") ≡ ok (some (codes "/shared"))
unfolding extract_working_directory
extracted = refl

wildcard :
    path_is_allowed world (codes "/workspace/temp/file.txt") (codes "/workspace/*/temp" ∷ []) false
    ≡ true
unfolding path_is_allowed
wildcard = refl

traversal :
    path_is_allowed world (codes "/workspace/../../../etc/passwd") (codes "/workspace" ∷ []) false
    ≡ false
unfolding path_is_allowed
traversal = refl
