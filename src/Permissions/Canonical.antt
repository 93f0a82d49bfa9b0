-- ===== src/Permissions/Canonical.antt =====
-- permissions.py with `canonicalize`: the directory that a task runs in is the resolved one, and it is
-- in or below a resolved entry of the write paths.
use ai_worker_bridge_mcp.Base.{
  ◌≡◌, ◌∙◌, refl, sym, ap, true, false, none, some, List, [], ◌∷◌, any, Any, Any-of_any, arith, inl,
  inr, Option-cases,
}
use ai_worker_bridge_mcp.Base.Text.{Text, text_eq_iff}
use ai_worker_bridge_mcp.Base.Exec.{ok}
use ai_worker_bridge_mcp.Config.{WorkerConfig}
use ai_worker_bridge_mcp.Permissions.{
  World, is_within, allows_canonical, canonical_path_is_allowed, path_is_allowed,
  normalize_for_dispatch, dispatched, admit, resolve_working_directory, path_text,
}
use ai_worker_bridge_mcp.Permissions.Paths.{safe_normalize}
use ai_worker_bridge_mcp.Permissions.Containment.{IsPrefixOf, admit_step, admit_of_resolve}

is_within_sound : (root comps : List Text) → is_within root comps ≡ true → IsPrefixOf root comps
unfolding is_within
is_within_sound [] comps h = (comps, refl)
is_within_sound (a ∷ root) [] h = ([], absurd (cc))
is_within_sound (a ∷ root) (b ∷ comps) h =
    let (rest, e) = is_within_sound root comps (ground arith) in
    (rest, ground (arith, text_eq_iff a b))

module _ (world : World) where
  -- An entry whose own resolution is the directory `comps`, or one above it.
  pub record Covers (comps : List Text) (allowed : Text) : Type 0 where
    pub root : List Text
    pub base : Text
    pub normal : safe_normalize allowed ≡ some base
    pub resolved : world.resolve base ≡ some root
    pub within : IsPrefixOf root comps

  -- The directory is the resolution of the requested path, and an entry covers it.
  pub record IsResolved (allowed_paths : List Text) (path : Text) : Type 0 where
    pub comps : List Text
    pub text : path ≡ path_text comps
    pub candidate : Text
    pub resolved : world.resolve candidate ≡ some comps
    pub covered : Any (λ allowed. Covers comps allowed) allowed_paths

  Covers-step :
      (comps : List Text) (allowed : Text)
      → allows_canonical world comps allowed ≡ true
      → Covers comps allowed
  Covers-step comps allowed h = elim (Option-cases (safe_normalize allowed)) [
    | inl e ↦ absurd (refused_base e h)
    | inr (base, e) ↦ elim (Option-cases (world.resolve base)) [
      | inl f ↦ absurd (refused_root e f h)
      | inr (root, f) ↦ record {
        root = root;
        base = base;
        normal = e;
        resolved = f;
        within = is_within_sound root comps (accepted e f h);
      }
    ]
  ]
    where
      refused_base : safe_normalize allowed ≡ none → allows_canonical world comps allowed ≡ true → ⊥
      refused_base e h = unfold allows_canonical in ground arith

      refused_root :
          {base : Text}
          → safe_normalize allowed ≡ some base
          → world.resolve base ≡ none
          → allows_canonical world comps allowed ≡ true
          → ⊥
      refused_root e f h = unfold allows_canonical in ground arith

      accepted :
          {base : Text} {root : List Text}
          → safe_normalize allowed ≡ some base
          → world.resolve base ≡ some root
          → allows_canonical world comps allowed ≡ true
          → is_within root comps ≡ true
      accepted e f h = unfold allows_canonical in ground arith

  canonical_step :
      (requested : Text) (allowed_paths : List Text) {normal : Text} {comps : List Text}
      → safe_normalize requested ≡ some normal
      → world.resolve normal ≡ some comps
      → path_is_allowed world requested allowed_paths true ≡ true
      → (normalize_for_dispatch world requested true ≡ some (path_text comps))
        × (any (λ allowed. allows_canonical world comps allowed) allowed_paths ≡ true)
  unfolding path_is_allowed canonical_path_is_allowed normalize_for_dispatch
  canonical_step requested allowed_paths {normal} {comps} e f h =
      (ground arith, ground (arith, canonical_tests))
    where
      canonical_tests :
          canonical_path_is_allowed world normal allowed_paths ≡ true
          → any (λ allowed. allows_canonical world comps allowed) allowed_paths ≡ true
      canonical_tests g = ground arith

  canonical_refused :
      (requested : Text) (allowed_paths : List Text)
      → safe_normalize requested ≡ none
      → path_is_allowed world requested allowed_paths true ≡ false
  unfolding path_is_allowed
  canonical_refused requested allowed_paths e = rw e

  canonical_unresolved :
      (requested : Text) (allowed_paths : List Text) {normal : Text}
      → safe_normalize requested ≡ some normal
      → world.resolve normal ≡ none
      → path_is_allowed world requested allowed_paths true ≡ false
  unfolding path_is_allowed canonical_path_is_allowed
  canonical_unresolved requested allowed_paths e f = ground arith

  allowed_of_admit :
      (allowed_paths : List Text) (requested : Text) {path : Text}
      → admit world allowed_paths true requested ≡ ok path
      → (path_is_allowed world requested allowed_paths true ≡ true)
        × (normalize_for_dispatch world requested true ≡ some path)
  unfolding dispatched
  allowed_of_admit allowed_paths requested h = (
    ground (arith, admit_step world allowed_paths true requested),
    ground (arith, admit_step world allowed_paths true requested),
  )

  admit-IsResolved :
      (allowed_paths : List Text) (requested : Text) {path : Text}
      → admit world allowed_paths true requested ≡ ok path
      → IsResolved allowed_paths path
  admit-IsResolved allowed_paths requested {path} h =
      let (allowed, sent) = allowed_of_admit allowed_paths requested h in
      elim (Option-cases (safe_normalize requested)) [
        | inl e ↦ absurd (ground (arith, canonical_refused requested allowed_paths e))
        | inr (normal, e) ↦ elim (Option-cases (world.resolve normal)) [
          | inl f ↦ absurd (ground (arith, canonical_unresolved requested allowed_paths e f))
          | inr (comps, f) ↦
              let (answer, tests) = canonical_step requested allowed_paths e f allowed in
              record {
                comps = comps;
                text = ground arith;
                candidate = normal;
                resolved = f;
                covered =
                    Any-of_any (λ a. Covers comps a) (λ a. allows_canonical world comps a)
                      allowed_paths (Covers-step comps) tests;
              }
        ]
      ]

  -- With `canonicalize`, a directory that is accepted is the resolution of a path, written from the
  -- root, and the resolution of an entry of the worker's write paths is that directory or one above.
  pub resolve_working_directory-IsResolved :
      (worker : WorkerConfig) (prompt : Text) {path : Text}
      → worker.filesystem.canonicalize ≡ true
      → resolve_working_directory world worker prompt ≡ ok path
      → IsResolved worker.filesystem.write path
  resolve_working_directory-IsResolved worker prompt canonical h =
      let (requested, e) = admit_of_resolve world worker prompt h in
      admit-IsResolved worker.filesystem.write requested
        (ap (λ c. admit world worker.filesystem.write c requested) (sym canonical) ∙ e)
