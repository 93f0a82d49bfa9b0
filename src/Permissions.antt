-- ===== src/Permissions.antt =====
-- permissions.py: which working directory a task may run in.
-- The file system and the YAML parser are parameters; everything else is computed.
pub mod Paths
pub mod Tests
pub mod Segments
pub mod Normal
pub mod Globs
pub mod Containment
pub mod Canonical
use ai_worker_bridge_mcp.Base.{
  ℕ, zero, suc, String, Bool, true, false, ◌&&◌, ◌||◌, not, Option, none, some, List, [], ◌∷◌, ◌++◌,
  ◌==◌, any, is_some, is_nil, select, reverse, if◌then◌else◌,
}
use ai_worker_bridge_mcp.Base.Text.{
  Text, codes, text_eq, starts_with, contains, join, split, strip, strip_right,
}
use ai_worker_bridge_mcp.Base.Exec.{Result, ok, err}
use ai_worker_bridge_mcp.Config.{WorkerConfig}
use ai_worker_bridge_mcp.Exceptions.{
  Exception, missing_working_directory, invalid_working_directory,
}
use mathlib.Core.Option
use ai_worker_bridge_mcp.Json
use ai_worker_bridge_mcp.Json.{Json, null, bool, int, neg, str, arr, obj, Fields, end, truthy}
use Paths.{slash, is_rooted, normpath, segments, mem_text, safe_normalize}

-- What the code takes from outside: `yaml.safe_load` (`none` is a YAMLError), `str(value)` of a value
-- that is no string, and `Path(path).resolve(strict=True)` as the components under the root (`none`
-- is an OSError or a RuntimeError).
pub record World : Type 0 where
  pub safe_load : Text → Option Json
  pub str_value : Json → Text
  pub resolve : Text → Option (List Text)

is_blank : ℕ → Bool
is_blank c = c == 32 || c == 9

skip_blanks : Text → Text
unfolding is_blank
skip_blanks [] = []
skip_blanks (c ∷ s) = let rest = skip_blanks s in if is_blank c then rest else c ∷ s

-- `\r?\n`, and what follows it.
newline : Text → Option Text
newline [] = none
newline (c ∷ []) = if c == 10 then some [] else none
newline (c ∷ d ∷ s) = if c == 10 then some (d ∷ s) else if c == 13 && d == 10 then some s else none

dashes : Text → Option Text
unfolding skip_blanks
dashes (a ∷ b ∷ c ∷ rest) =
    if a == b'-' && b == b'-' && c == b'-' then some (skip_blanks rest) else none
dashes _ = none

-- `[ \t]*---[ \t]*`, and what follows it.
fence : Text → Option Text
unfolding skip_blanks dashes
fence s = dashes (skip_blanks s)

ends_line : Option Text → Bool
unfolding newline
ends_line none = false
ends_line (some []) = true
ends_line (some (c ∷ s)) = is_some (newline (c ∷ s))

-- `(?:\r?\n)[ \t]*---[ \t]*(?:\r?\n|\Z)`
closes : Text → Bool
unfolding newline fence ends_line
closes s = elim (newline s) [ none ↦ false | some rest ↦ ends_line (fence rest) ]

-- `(?P<body>.*?)`: the shortest text after which the block closes.
find_body : Text → Option Text
unfolding closes
find_body [] = if closes [] then some [] else none
find_body (c ∷ s) =
    let rest = Option.map (λ body. c ∷ body) (find_body s) in
    if closes (c ∷ s) then some [] else rest

skip_mark : Text → Text
skip_mark [] = []
skip_mark (c ∷ s) = if c == 0xfeff then s else c ∷ s

-- `_FRONTMATTER_RE.match(prompt)`, and its group "body".
unfoldable pub frontmatter : Text → Option Text
unfolding fence newline find_body skip_mark
frontmatter prompt = elim (fence (skip_mark prompt)) [
  | none ↦ none
  | some after ↦ elim (newline after) [ none ↦ none | some rest ↦ find_body rest ]
]

abbrev invalid_frontmatter : Exception
invalid_frontmatter = invalid_working_directory (codes "<invalid frontmatter>") []

-- `/`, then the components.
unfoldable pub path_text : List Text → Text
unfolding join
path_text comps = slash ∷ join (codes "/") comps

-- `a == b` and `a in b.parents`, on components: `a` is a prefix.
unfoldable pub is_within : List Text → List Text → Bool
unfolding text_eq
is_within [] comps = true
is_within (a ∷ root) [] = false
is_within (a ∷ root) (b ∷ comps) = text_eq a b && is_within root comps

suffixes : List Text → List (List Text)
suffixes [] = [] ∷ []
suffixes (t ∷ ts) = (t ∷ ts) ∷ suffixes ts

abbrev pub star : Text
star = codes "*"

unfoldable pub starts_segments : (List Text → Bool) → Text → List Text → Bool
unfolding text_eq suffixes
starts_segments rest head [] = text_eq head star && any rest (suffixes [])
starts_segments rest head (c ∷ cs) =
    if text_eq head star then any rest (suffixes (c ∷ cs)) else text_eq head c && rest cs

-- `_match_parts(pattern_parts, candidate_parts)`
unfoldable pub match_parts : List Text → List Text → Bool
unfolding starts_segments
match_parts [] cs = true
match_parts (p ∷ ps) cs =
    if is_nil cs && any (λ part. not (text_eq part star)) (p ∷ ps)
    then false
    else starts_segments (match_parts ps) p cs

unfoldable pub wildcard_prefix_matches : Text → Text → Bool
unfolding segments match_parts
wildcard_prefix_matches pattern candidate = match_parts (segments pattern) (segments candidate)

is_slash : ℕ → Bool
is_slash c = c == slash

-- One round of the loop of `path_is_allowed`, on a normalised candidate.
unfoldable pub allows : Text → Text → Bool
unfolding starts_with safe_normalize contains wildcard_prefix_matches text_eq strip_right is_slash
allows candidate allowed = elim (safe_normalize allowed) [
  | none ↦ false
  | some base ↦
      if contains base star
      then wildcard_prefix_matches base candidate
      else text_eq base (codes "/")
        || text_eq candidate base
        || starts_with candidate (strip_right is_slash base ++ codes "/")
]

-- The answer, or the refusal of a path that cannot be resolved.
unfoldable pub dispatched : List Text → Text → Option Text → Result Exception Text
dispatched allowed_paths requested none = err (invalid_working_directory requested allowed_paths)
dispatched allowed_paths requested (some path) = ok path

module _ (world : World) where
  -- One round of the loop of `_canonical_path_is_allowed`.
  unfoldable pub allows_canonical : List Text → Text → Bool
  unfolding starts_with contains safe_normalize is_within
  allows_canonical resolved allowed =
      if contains allowed star then false else elim (safe_normalize allowed) [
        | none ↦ false
        | some base ↦ elim (world.resolve base) [
          | none ↦ false
          | some root ↦ is_within root resolved
        ]
      ]

  unfoldable pub canonical_path_is_allowed : Text → List Text → Bool
  unfolding contains allows_canonical
  canonical_path_is_allowed candidate allowed_paths =
      if contains candidate star then false else elim (world.resolve candidate) [
        | none ↦ false
        | some resolved ↦ any (λ allowed. allows_canonical resolved allowed) allowed_paths
      ]

  unfoldable pub path_is_allowed : Text → List Text → Bool → Bool
  unfolding safe_normalize canonical_path_is_allowed allows
  path_is_allowed candidate allowed_paths canonicalize = elim (safe_normalize candidate) [
    | none ↦ false
    | some normalized ↦
        if canonicalize
        then canonical_path_is_allowed normalized allowed_paths
        else any (λ allowed. allows normalized allowed) allowed_paths
  ]

  -- `none` is an OSError or a RuntimeError.
  unfoldable pub normalize_for_dispatch : Text → Bool → Option Text
  unfolding safe_normalize normpath path_text
  normalize_for_dispatch path canonicalize = elim (safe_normalize path) [
    | none ↦ some path
    | some normalized ↦
        if canonicalize
        then Option.map path_text (world.resolve normalized)
        else some (normpath normalized)
  ]

  declared : Option Json → Result Exception (Option Text)
  unfolding strip
  declared none = ok none
  declared (some null) = ok none
  declared (some (str s)) =
      if is_nil (strip s) then err (invalid_working_directory s []) else ok (some (strip s))
  declared (some v) = err (invalid_working_directory (world.str_value v) [])

  -- `yaml.safe_load(body) or {}`, which must be a mapping.
  working_directory_of : Json → Result Exception (Option Text)
  unfolding declared Json.get truthy
  working_directory_of (obj fields) = declared (Json.get (codes "working_directory") fields)
  working_directory_of v = if truthy v then err invalid_frontmatter else ok none

  unfoldable pub extract_working_directory : Text → Result Exception (Option Text)
  unfolding frontmatter working_directory_of
  extract_working_directory prompt = elim (frontmatter prompt) [
    | none ↦ ok none
    | some body ↦ elim (world.safe_load body) [
      | none ↦ err invalid_frontmatter
      | some v ↦ working_directory_of v
    ]
  ]

  -- What `resolve_working_directory` does with the requested path.
  unfoldable pub admit : List Text → Bool → Text → Result Exception Text
  unfolding path_is_allowed normalize_for_dispatch dispatched
  admit allowed_paths canonicalize requested =
      if path_is_allowed requested allowed_paths canonicalize
      then dispatched allowed_paths requested (normalize_for_dispatch requested canonicalize)
      else err (invalid_working_directory requested allowed_paths)

  unfoldable pub requested_directory :
      WorkerConfig → Result Exception (Option Text) → Result Exception Text
  unfolding admit
  requested_directory worker (err e) = err e
  requested_directory worker (ok none) = err missing_working_directory
  requested_directory worker (ok (some requested)) =
      admit worker.filesystem.write worker.filesystem.canonicalize requested

  unfoldable pub resolve_working_directory : WorkerConfig → Text → Result Exception Text
  unfolding extract_working_directory requested_directory
  resolve_working_directory worker prompt =
      requested_directory worker (extract_working_directory prompt)
