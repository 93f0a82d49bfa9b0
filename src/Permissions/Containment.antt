-- ===== src/Permissions/Containment.antt =====
-- permissions.py, `resolve_working_directory`: the directory that it returns is one that the worker's
-- write paths grant.
use ai_worker_bridge_mcp.Base.{
  ℕ, ◌≡◌, ◌∙◌, refl, sym, ap, subst, Bool, true, false, ◌||◌, Option, none, some, List, [], ◌++◌,
  any, Any, Any-of_any, arith, Bool-cases, inl, inr, if◌then◌else◌, Option-cases, ==_iff,
}
use ai_worker_bridge_mcp.Base.Text.{
  Text, codes, text_eq, text_eq_iff, starts_with, starts_with_prefix, strip_right, contains,
}
use ai_worker_bridge_mcp.Base.Exec.{Result, ok, err}
use ai_worker_bridge_mcp.Exceptions.{Exception, invalid_working_directory}
use ai_worker_bridge_mcp.Config.{WorkerConfig}
use ai_worker_bridge_mcp.Permissions.{
  World, star, is_slash, allows, path_is_allowed, normalize_for_dispatch, dispatched, admit,
  requested_directory, wildcard_prefix_matches, extract_working_directory,
  resolve_working_directory,
}
use ai_worker_bridge_mcp.Permissions.Paths.{
  slash, dot_dot, is_rooted, normpath, segments, mem_text, safe_normalize,
}
use ai_worker_bridge_mcp.Permissions.Segments.{segments-append, segments-strip_right}
use ai_worker_bridge_mcp.Permissions.Normal.{
  components, IsSafe, safe_normalize-IsSafe, normpath-IsNormal,
}
use ai_worker_bridge_mcp.Permissions.Globs.{Matches, match_parts_sound}
use mathlib.Core.List.{append_assoc, append-nil}

-- `xs` is the beginning of `ys`.
abbrev pub IsPrefixOf : List Text → List Text → Type 0
IsPrefixOf xs ys = (rest : List Text) × (ys ≡ xs ++ rest)

-- What an entry of the write paths grants, on components: the directory itself and all below it, or
-- what the pattern matches.
pub data Grants (allowed path : Text) : Type 0 where
  below :
      mem_text dot_dot (segments allowed) ≡ false
      → IsPrefixOf (components allowed) (components path)
      → Grants allowed path
  matching :
      mem_text dot_dot (segments allowed) ≡ false
      → Matches (components allowed) (components path)
      → Grants allowed path

segments_root : segments (codes "/") ≡ []
unfolding segments
segments_root = refl

only_slash : (c : ℕ) → is_slash c ≡ true → c ≡ slash
unfolding is_slash
only_slash c h = (==_iff c slash).0 h

-- The textual test of a subdirectory is a test on segments.
IsPrefixOf-starts_with :
    (base candidate : Text)
    → starts_with candidate (strip_right is_slash base ++ codes "/") ≡ true
    → IsPrefixOf (segments base) (segments candidate)
IsPrefixOf-starts_with base candidate h =
    let (rest, e) = starts_with_prefix candidate (strip_right is_slash base ++ codes "/") h in
    (
      segments rest,
      ap segments (e ∙ append_assoc (strip_right is_slash base) (codes "/") rest)
          ∙ segments-append (strip_right is_slash base) rest
          ∙ ap (λ s. s ++ segments rest) (segments-strip_right is_slash base only_slash),
    )

IsPrefixOf-tests :
    (base candidate : Text)
    → (text_eq base (codes "/")
        || text_eq candidate base
        || starts_with candidate (strip_right is_slash base ++ codes "/"))
      ≡ true
    → IsPrefixOf (segments base) (segments candidate)
IsPrefixOf-tests base candidate h = elim (Bool-cases (text_eq base (codes "/"))) [
  | inl e ↦ (
    segments candidate,
    sym (
        ap (λ s. s ++ segments candidate)
          (ap segments ((text_eq_iff base (codes "/")).0 e) ∙ segments_root)),
  )
  | inr e ↦ elim (Bool-cases (text_eq candidate base)) [
    | inl same ↦
        ([], ap segments ((text_eq_iff candidate base).0 same) ∙ sym (append-nil (segments base)))
    | inr other ↦ IsPrefixOf-starts_with base candidate (ground arith)
  ]
]

allows_step :
    (candidate allowed : Text) {base : Text}
    → safe_normalize allowed ≡ some base
    → allows candidate allowed ≡ (
        if contains base star
        then wildcard_prefix_matches base candidate
        else text_eq base (codes "/")
          || text_eq candidate base
          || starts_with candidate (strip_right is_slash base ++ codes "/"))
unfolding allows
allows_step candidate allowed e = rw e

allows-none :
    (candidate allowed : Text) → safe_normalize allowed ≡ none → allows candidate allowed ≡ false
unfolding allows
allows-none candidate allowed e = rw e

Grants-of_base :
    (path candidate allowed base : Text)
    → IsSafe path candidate
    → IsSafe allowed base
    → allows candidate allowed ≡ true
    → safe_normalize allowed ≡ some base
    → Grants allowed path
Grants-of_base path candidate allowed base s t h e = elim (Bool-cases (contains base star)) [
  | inl glob ↦ matching t.no_parent (
      rw (sym t.normal_segments, sym s.normal_segments)
        (match_parts_sound _ _
          (unfold wildcard_prefix_matches in ground (arith, allows_step candidate allowed e))))
  | inr plain ↦ below t.no_parent (
      rw (sym t.normal_segments, sym s.normal_segments)
        (IsPrefixOf-tests base candidate (ground (arith, allows_step candidate allowed e))))
]

Grants-of_allows :
    (path candidate allowed : Text)
    → IsSafe path candidate
    → allows candidate allowed ≡ true
    → Grants allowed path
Grants-of_allows path candidate allowed s h = elim (Option-cases (safe_normalize allowed)) [
  | inl none_left ↦ absurd (ground (arith, allows-none candidate allowed none_left))
  | inr (base, e) ↦
      Grants-of_base path candidate allowed base s (safe_normalize-IsSafe allowed e) h e
]

Grants-of_components :
    (path other allowed : Text)
    → components other ≡ components path
    → Grants allowed path
    → Grants allowed other
Grants-of_components path other allowed e (below h (rest, split_at)) = below h (rest, e ∙ split_at)
Grants-of_components path other allowed e (matching h m) = matching h (rw e m)

-- The directory `path` is absolute, has no segment "..", and an entry of the list grants it.
pub record IsGranted (allowed_paths : List Text) (path : Text) : Type 0 where
  pub rooted : is_rooted path ≡ true
  pub no_parent : mem_text dot_dot (segments path) ≡ false
  pub granted : Any (λ allowed. Grants allowed path) allowed_paths

normal_IsGranted :
    (requested normal : Text) (allowed_paths : List Text)
    → safe_normalize requested ≡ some normal
    → any (λ allowed. allows normal allowed) allowed_paths ≡ true
    → IsGranted allowed_paths (normpath normal)
normal_IsGranted requested normal allowed_paths e h =
    let s = safe_normalize-IsSafe requested e in
    let n = normpath-IsNormal requested normal s in
    record {
      rooted = n.rooted;
      no_parent = n.no_parent;
      granted =
          Any-of_any (λ allowed. Grants allowed (normpath normal))
            (λ allowed. allows normal allowed) allowed_paths
            (λ allowed good.
              Grants-of_components requested (normpath normal) allowed n.same
                (Grants-of_allows requested normal allowed s good))
            h;
    }

module _ (world : World) where
  lexical_step :
      (requested : Text) (allowed_paths : List Text) {normal : Text}
      → safe_normalize requested ≡ some normal
      → (path_is_allowed world requested allowed_paths false
          ≡ any (λ allowed. allows normal allowed) allowed_paths)
        × (normalize_for_dispatch world requested false ≡ some (normpath normal))
  unfolding path_is_allowed normalize_for_dispatch
  lexical_step requested allowed_paths e = (rw e, rw e)

  lexical_none :
      (requested : Text) (allowed_paths : List Text)
      → safe_normalize requested ≡ none
      → path_is_allowed world requested allowed_paths false ≡ false
  unfolding path_is_allowed
  lexical_none requested allowed_paths e = rw e

  pub admit_step :
      (allowed_paths : List Text) (canonicalize : Bool) (requested : Text)
      → admit world allowed_paths canonicalize requested ≡ (
          if path_is_allowed world requested allowed_paths canonicalize
          then dispatched allowed_paths requested
              (normalize_for_dispatch world requested canonicalize)
          else err (invalid_working_directory requested allowed_paths))
  unfolding admit
  admit_step allowed_paths canonicalize requested = refl

  admit-IsGranted :
      (allowed_paths : List Text) (requested : Text) {path : Text}
      → admit world allowed_paths false requested ≡ ok path
      → IsGranted allowed_paths path
  admit-IsGranted allowed_paths requested {path} h =
      elim (Option-cases (safe_normalize requested)) [
        | inl e ↦ absurd (
            ground (
              arith,
              admit_step allowed_paths false requested,
              lexical_none requested allowed_paths e,
            ))
        | inr (normal, e) ↦
            let (tests, sent) = lexical_step requested allowed_paths e in
            let passed : any (λ allowed. allows normal allowed) allowed_paths ≡ true =
              unfold dispatched in ground (arith, admit_step allowed_paths false requested) in
            let e' : normpath normal ≡ path =
              unfold dispatched in ground (arith, admit_step allowed_paths false requested) in
            subst (IsGranted allowed_paths) e'
              (normal_IsGranted requested normal allowed_paths e passed)
      ]

  resolve_step :
      (worker : WorkerConfig) (prompt : Text)
      → resolve_working_directory world worker prompt
        ≡ requested_directory world worker (extract_working_directory world prompt)
  unfolding resolve_working_directory
  resolve_step worker prompt = refl

  -- An accepted directory is the answer for the path that the prompt requests.
  requested_of_ok :
      (worker : WorkerConfig) (r : Result Exception (Option Text)) {path : Text}
      → requested_directory world worker r ≡ ok path
      → (requested : Text) × (admit world worker.filesystem.write worker.filesystem.canonicalize
            requested
          ≡ ok path)
  unfolding requested_directory
  requested_of_ok worker (ok (some requested)) e = (requested, e)
  requested_of_ok worker (ok none) e = absurd (cc)
  requested_of_ok worker (err x) e = absurd (cc)

  pub admit_of_resolve :
      (worker : WorkerConfig) (prompt : Text) {path : Text}
      → resolve_working_directory world worker prompt ≡ ok path
      → (requested : Text) × (admit world worker.filesystem.write worker.filesystem.canonicalize
            requested
          ≡ ok path)
  admit_of_resolve worker prompt h =
      requested_of_ok worker (extract_working_directory world prompt)
        (sym (resolve_step worker prompt) ∙ h)

  -- Without `canonicalize`, a directory that is accepted is absolute, has no segment "..", and lies
  -- in or below an entry of the worker's write paths, or matches an entry with wildcards.
  pub resolve_working_directory-IsGranted :
      (worker : WorkerConfig) (prompt : Text) {path : Text}
      → worker.filesystem.canonicalize ≡ false
      → resolve_working_directory world worker prompt ≡ ok path
      → IsGranted worker.filesystem.write path
  resolve_working_directory-IsGranted worker prompt {path} lexical h =
      let (requested, e) = admit_of_resolve worker prompt h in
      admit-IsGranted worker.filesystem.write requested
        (ap (λ c. admit world worker.filesystem.write c requested) (sym lexical) ∙ e)
