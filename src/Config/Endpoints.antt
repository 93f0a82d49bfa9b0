-- ===== src/Config/Endpoints.antt =====
-- config.py, `normalize_endpoint_url`. `urlsplit` and `urlunsplit` are parameters.
use ai_worker_bridge_mcp.Base.{
  ℕ, ◌≡◌, ◌∙◌, refl, sym, ap, Bool, true, ◌||◌, [], ◌∷◌, ◌++◌, reverse, is_nil, ◌==◌, Bool-cases,
  inl, inr, if◌then◌else◌, arith,
}
use ai_worker_bridge_mcp.Base.Text.{
  Text, codes, text_eq, text_eq_refl, strip, strip_left, strip_right,
}
use mathlib.Core.List.{reverse-append, reverse-reverse}

-- `s.endswith(t)`
unfoldable pub ends_with : Text → Text → Bool
unfolding text_eq
ends_with [] t = text_eq [] t
ends_with (c ∷ s) t = text_eq (c ∷ s) t || ends_with s t

pub record Parts : Type 0 where
  pub scheme : Text
  pub netloc : Text
  pub path : Text
  pub query : Text
  pub fragment : Text

unfoldable pub is_slash : ℕ → Bool
is_slash c = c == 47

abbrev pub completions : Text
completions = codes "/chat/completions"

-- `path.endswith("/chat/completions")`, after the slashes at its end are taken off.
unfoldable pub is_complete : Text → Bool
unfolding strip_right is_slash ends_with
is_complete path = ends_with (strip_right is_slash path) completions

-- `normalized_path`, from the path without the slashes at its end.
unfoldable pub completed : Text → Text
unfolding ends_with text_eq
completed path =
    if ends_with path (codes "/v1")
    then path ++ completions
    else if is_nil path || text_eq path (codes "/")
    then codes "/v1" ++ completions
    else (path ++ codes "/v1") ++ completions

unfoldable pub normalized_path : Text → Text
unfolding completed strip_right is_slash
normalized_path path = completed (strip_right is_slash path)

-- For a value that is a string; any other is left as it is.
unfoldable pub normalize_endpoint_url : (Text → Parts) → (Parts → Text) → Text → Text
unfolding strip is_complete normalized_path
normalize_endpoint_url urlsplit urlunsplit value =
    let stripped = strip value in
    let parts = urlsplit stripped in
    if is_nil stripped
    then stripped
    else if is_complete parts.path
    then stripped
    else urlunsplit (record parts { path = normalized_path parts.path })

ends_with-append : (s t : Text) → ends_with (s ++ t) t ≡ true
unfolding ends_with
ends_with-append [] [] = unfold text_eq in refl
ends_with-append [] (c ∷ t) = rw (text_eq_refl (c ∷ t)) refl
ends_with-append (c ∷ s) t = ground (arith, ends_with-append s t)

strip-completed : (q : Text) → strip_right is_slash (q ++ completions) ≡ q ++ completions
strip-completed q =
    taken_off ∙ sym (ap reverse (reverse-append q completions)) ∙ reverse-reverse (q ++ completions)
  where
    -- The last letter is no slash.
    kept :
        (rest : Text)
        → strip_left is_slash (reverse completions ++ rest) ≡ reverse completions ++ rest
    kept rest = unfold strip_left is_slash in refl

    taken_off : strip_right is_slash (q ++ completions) ≡ reverse (reverse completions ++ reverse q)
    taken_off =
        unfold strip_right in
        ap (λ t. reverse (strip_left is_slash t)) (reverse-append q completions)
        ∙ ap reverse (kept (reverse q))

completed-shape : (path : Text) → (q : Text) × (completed path ≡ q ++ completions)
completed-shape path = elim (Bool-cases (ends_with path (codes "/v1"))) [
  | inl h ↦ (path, unfold completed in rw h refl)
  | inr h ↦ elim (Bool-cases (is_nil path || text_eq path (codes "/"))) [
    | inl k ↦ (codes "/v1", unfold completed in rw h (rw k refl))
    | inr k ↦ (path ++ codes "/v1", unfold completed in rw h (rw k refl))
  ]
]

normalized_complete : (path : Text) → is_complete (normalized_path path) ≡ true
normalized_complete path =
    let (q, e) = completed-shape (strip_right is_slash path) in
    unfold is_complete normalized_path in
    rw e (rw (strip-completed q) (ends_with-append q completions))

-- What `normalize_endpoint_url` makes of the path of a URL.
unfoldable pub endpoint_path : Text → Text
unfolding is_complete normalized_path
endpoint_path path = if is_complete path then path else normalized_path path

-- The path of an endpoint after normalize_endpoint_url ends with "/chat/completions", slashes at its
-- end aside, and normalising it again changes nothing.
pub endpoint_path-idempotent :
    (path : Text)
    → (is_complete (endpoint_path path) ≡ true)
      × (endpoint_path (endpoint_path path) ≡ endpoint_path path)
endpoint_path-idempotent path = (complete, again)
  where
    complete : is_complete (endpoint_path path) ≡ true
    complete = elim (Bool-cases (is_complete path)) [
      | inl h ↦ unfold endpoint_path in rw h h
      | inr h ↦ unfold endpoint_path in rw h (normalized_complete path)
    ]

    again : endpoint_path (endpoint_path path) ≡ endpoint_path path
    again = kept (endpoint_path path) complete
      where
        kept : (p : Text) → is_complete p ≡ true → endpoint_path p ≡ p
        kept p h = unfold endpoint_path in rw h refl
