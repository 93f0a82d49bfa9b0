-- ===== src/Permissions/Paths.antt =====
-- permissions.py, `_safe_normalize`, with `posixpath.normpath`.
use ai_worker_bridge_mcp.Base.{
  ℕ, Bool, false, ◌&&◌, ◌||◌, not, Option, none, some, List, [], ◌∷◌, ◌++◌, any, is_nil, select,
  reverse, if◌then◌else◌,
}
use ai_worker_bridge_mcp.Base.Text.{Text, codes, text_eq, starts_with, join, split}
use mathlib.Core.List.{tail}

abbrev pub slash : ℕ
slash = b'/'

abbrev pub dot : Text
dot = codes "."

abbrev pub dot_dot : Text
dot_dot = codes ".."

abbrev pub is_rooted : Text → Bool
is_rooted path = starts_with path (codes "/")

-- Two leading slashes are kept, three or more are one.
unfoldable pub initial_slashes : Text → Text
unfolding starts_with
initial_slashes path =
    if starts_with path (codes "//") && not (starts_with path (codes "///"))
    then codes "//"
    else if starts_with path (codes "/")
    then codes "/"
    else []

is_top : Text → List Text → Bool
is_top comp [] = false
is_top comp (top ∷ stack) = text_eq top comp

-- One round of the loop of `normpath`; the top of `new_comps` is at the head.
unfoldable pub norm_step : Bool → List Text → Text → List Text
unfolding text_eq is_top
norm_step rooted stack comp =
    if is_nil comp || text_eq comp dot
    then stack
    else if not (text_eq comp dot_dot) || not rooted && is_nil stack || is_top dot_dot stack
    then comp ∷ stack
    else tail stack

unfoldable pub norm_comps : Bool → List Text → List Text → List Text
unfolding norm_step
norm_comps rooted stack [] = reverse stack
norm_comps rooted stack (comp ∷ comps) = norm_comps rooted (norm_step rooted stack comp) comps

abbrev pub or_dot : Text → Text
or_dot [] = dot
or_dot (c ∷ s) = c ∷ s

-- `posixpath.normpath(path)`
unfoldable pub normpath : Text → Text
unfolding initial_slashes norm_comps join split
normpath path =
    or_dot
      (initial_slashes path ++ join (codes "/") (norm_comps (is_rooted path) [] (split slash path)))

-- `[part for part in path.split("/") if part]`
unfoldable pub segments : Text → List Text
unfolding split
segments path = select (λ s. not (is_nil s)) (split slash path)

-- `text in texts`
unfoldable pub mem_text : Text → List Text → Bool
unfolding text_eq
mem_text t ts = any (λ u. text_eq u t) ts

unfoldable pub safe_normalize : Text → Option Text
unfolding starts_with segments mem_text normpath
safe_normalize path =
    if not (is_rooted path)
    then none
    else if mem_text dot_dot (segments path)
    then none
    else some (normpath path)
