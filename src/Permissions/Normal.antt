-- ===== src/Permissions/Normal.antt =====
-- permissions.py: what `normpath` does to a rooted path that has no segment "..".
use ai_worker_bridge_mcp.Base.{
  ◌≡◌, ◌∙◌, refl, sym, ap, subst, Bool, true, false, ◌&&◌, not, none, some, List, [], ◌∷◌, ◌++◌,
  any, is_nil, select, reverse, arith, All, Bool-cases, ◌⊎◌, inl, inr, if◌then◌else◌,
}
use ai_worker_bridge_mcp.Base.Text.{Text, codes, split, join, starts_with, text_eq}
use ai_worker_bridge_mcp.Permissions.Paths.{
  slash, dot, dot_dot, is_rooted, initial_slashes, norm_step, norm_comps, normpath, segments,
  mem_text, safe_normalize, or_dot,
}
use ai_worker_bridge_mcp.Permissions.Segments.{
  segments-append, segments-join, segments-IsSegment, IsSegment,
}
use mathlib.Core.List.{append_assoc, append-nil, reverse-cons}

-- The components of a path: its segments but for ".".
abbrev pub components : Text → List Text
components path = select (λ c. not (text_eq c dot)) (segments path)

-- The parts that `normpath` keeps.
keeps : Text → Bool
keeps c = not (is_nil c) && not (text_eq c dot)

norm_step_keeps :
    (stack : List Text) (c : Text)
    → text_eq c dot_dot ≡ false
    → norm_step true stack c ≡ (if keeps c then c ∷ stack else stack)
unfolding norm_step keeps
norm_step_keeps stack [] h = ground arith
norm_step_keeps stack (a ∷ c) h = ground arith

norm_comps_keeps :
    (stack cs : List Text)
    → any (λ c. text_eq c dot_dot) cs ≡ false
    → norm_comps true stack cs ≡ reverse stack ++ select keeps cs
unfolding norm_comps
norm_comps_keeps stack [] h = sym (append-nil (reverse stack))
norm_comps_keeps stack (c ∷ cs) h = elim (Bool-cases (keeps c)) [
  | inl k ↦
      ap (λ t. norm_comps true t cs) (norm_step_keeps stack c (ground arith) ∙ rw k)
      ∙ norm_comps_keeps (c ∷ stack) cs (ground arith)
      ∙ rw (k, reverse-cons, append_assoc)
  | inr k ↦
      ap (λ t. norm_comps true t cs) (norm_step_keeps stack c (ground arith) ∙ rw k)
      ∙ norm_comps_keeps stack cs (ground arith)
      ∙ rw k
]

select-keeps :
    (cs : List Text)
    → select keeps cs ≡ select (λ c. not (text_eq c dot)) (select (λ c. not (is_nil c)) cs)
unfolding keeps
select-keeps [] = refl
select-keeps ([] ∷ cs) = select-keeps cs
select-keeps ((a ∷ c) ∷ cs) = elim (Bool-cases (text_eq (a ∷ c) dot)) [
  | inl e ↦ rw e (select-keeps cs)
  | inr e ↦ rw e (ap (λ r. (a ∷ c) ∷ r) (select-keeps cs))
]

all_parts :
    (cs : List Text)
    → mem_text dot_dot (select (λ c. not (is_nil c)) cs) ≡ false
    → any (λ c. text_eq c dot_dot) cs ≡ false
unfolding mem_text
all_parts [] h = refl
all_parts ([] ∷ cs) h = unfold text_eq in all_parts cs h
all_parts ((a ∷ c) ∷ cs) h = ground (arith, all_parts cs)

-- Without "..", the normalised parts of a rooted path are its components.
norm_comps-split :
    (path : Text)
    → mem_text dot_dot (segments path) ≡ false
    → norm_comps true [] (split slash path) ≡ components path
unfolding segments
norm_comps-split path h =
    norm_comps_keeps [] (split slash path) (all_parts (split slash path) h)
    ∙ select-keeps (split slash path)

All-select {κ} :
    (P : Text → Type κ) (p : Text → Bool) (ts : List Text) → All P ts → All P (select p ts)
All-select P p [] h = tt
All-select P p (t ∷ ts) (h, k) = elim (Bool-cases (p t)) [
  | inl e ↦ rw e (h, All-select P p ts k)
  | inr e ↦ rw e (All-select P p ts k)
]

pub components-IsSegment : (path : Text) → All IsSegment (components path)
components-IsSegment path =
    All-select IsSegment (λ c. not (text_eq c dot)) (segments path) (segments-IsSegment path)

slashes-cases :
    (path : Text)
    → is_rooted path ≡ true
    → (initial_slashes path ≡ codes "/") ⊎ (initial_slashes path ≡ codes "//")
unfolding initial_slashes
slashes-cases path h = ground arith

segments-slash : (t : Text) → segments (slash ∷ t) ≡ segments t
segments-slash t = segments-append [] t ∙ unfold segments split in refl

segments-slashes :
    (path t : Text) → is_rooted path ≡ true → segments (initial_slashes path ++ t) ≡ segments t
segments-slashes path t h = elim (slashes-cases path h) [
  | inl e ↦ ap (λ s. segments (s ++ t)) e ∙ segments-slash t
  | inr e ↦ ap (λ s. segments (s ++ t)) e ∙ segments-slash (slash ∷ t) ∙ segments-slash t
]

rooted_text :
    (path t : Text)
    → is_rooted path ≡ true
    → or_dot (initial_slashes path ++ t) ≡ initial_slashes path ++ t
rooted_text path t h = elim (slashes-cases path h) [ inl e ↦ rw e | inr e ↦ rw e ]

rooted_stays :
    (path t : Text) → is_rooted path ≡ true → is_rooted (initial_slashes path ++ t) ≡ true
unfolding starts_with
rooted_stays path t h = elim (slashes-cases path h) [ inl e ↦ rw e | inr e ↦ rw e ]

normpath_step :
    (path : Text)
    → normpath path
      ≡ or_dot (
          initial_slashes path
          ++ join (codes "/") (norm_comps (is_rooted path) [] (split slash path)))
unfolding normpath
normpath_step path = refl

normpath_of_rooted :
    (path : Text)
    → is_rooted path ≡ true
    → mem_text dot_dot (segments path) ≡ false
    → normpath path ≡ initial_slashes path ++ join (codes "/") (components path)
normpath_of_rooted path h k =
    normpath_step path
    ∙ ap
        (λ b.
          or_dot (initial_slashes path ++ join (codes "/") (norm_comps b [] (split slash path))))
        h
    ∙ rooted_text path (join (codes "/") (norm_comps true [] (split slash path))) h
    ∙ ap (λ cs. initial_slashes path ++ join (codes "/") cs) (norm_comps-split path k)

-- A path that passes `_safe_normalize`, and what it is normalised to.
pub record IsSafe (path normal : Text) : Type 0 where
  pub rooted : is_rooted path ≡ true
  pub no_parent : mem_text dot_dot (segments path) ≡ false
  pub normal_rooted : is_rooted normal ≡ true
  pub normal_segments : segments normal ≡ components path

pub normpath-IsSafe :
    (path : Text)
    → is_rooted path ≡ true
    → mem_text dot_dot (segments path) ≡ false
    → IsSafe path (normpath path)
normpath-IsSafe path h k =
    let e = normpath_of_rooted path h k in
    let t = join (codes "/") (components path) in
    record {
      rooted = h;
      no_parent = k;
      normal_rooted = ap is_rooted e ∙ rooted_stays path t h;
      normal_segments =
          ap segments e
          ∙ segments-slashes path t h
          ∙ segments-join (components path) (components-IsSegment path);
    }

safe_normalize_step :
    (path : Text)
    → safe_normalize path ≡ (
        if not (is_rooted path)
        then none
        else if mem_text dot_dot (segments path)
        then none
        else some (normpath path))
unfolding safe_normalize
safe_normalize_step path = refl

safe_normalize_passes :
    (path : Text) {normal : Text}
    → is_rooted path ≡ true
    → mem_text dot_dot (segments path) ≡ false
    → safe_normalize path ≡ some normal
    → normpath path ≡ normal
safe_normalize_passes path h k e = ground (arith, safe_normalize_step path)

-- What `_safe_normalize` accepts is rooted, has no segment "..", and keeps its components.
pub safe_normalize-IsSafe :
    (path : Text) {normal : Text} → safe_normalize path ≡ some normal → IsSafe path normal
safe_normalize-IsSafe path {normal} e = elim (Bool-cases (is_rooted path)) [
  | inl h ↦ elim (Bool-cases (mem_text dot_dot (segments path))) [
    | inl parent ↦ absurd (ground (arith, safe_normalize_step path))
    | inr k ↦
        let e' : normpath path ≡ normal = safe_normalize_passes path h k e in
        subst (IsSafe path) e' (normpath-IsSafe path h k)
  ]
  | inr h ↦ absurd (ground (arith, safe_normalize_step path))
]

mem_text-select :
    (p : Text → Bool) (ts : List Text)
    → mem_text dot_dot ts ≡ false
    → mem_text dot_dot (select p ts) ≡ false
unfolding mem_text
mem_text-select p [] h = refl
mem_text-select p (t ∷ ts) h = ground (arith, mem_text-select p ts)

select_twice {ℓ} : {A : Type ℓ} (p : A → Bool) (xs : List A) → select p (select p xs) ≡ select p xs
select_twice p [] = refl
select_twice p (x ∷ xs) = elim (Bool-cases (p x)) [
  | inl e ↦ rw e (rw e (ap (λ r. x ∷ r) (select_twice p xs)))
  | inr e ↦ rw e (select_twice p xs)
]

components_of_IsSafe :
    (path normal : Text) → IsSafe path normal → components normal ≡ components path
components_of_IsSafe path normal s =
    ap (select (λ c. not (text_eq c dot))) s.normal_segments
    ∙ select_twice (λ c. not (text_eq c dot)) (segments path)

no_parent_of_IsSafe :
    (path normal : Text) → IsSafe path normal → mem_text dot_dot (segments normal) ≡ false
no_parent_of_IsSafe path normal s =
    ap (mem_text dot_dot) s.normal_segments
    ∙ mem_text-select (λ c. not (text_eq c dot)) (segments path) s.no_parent

-- Normalising a second time changes no component.
pub record IsNormal (path normal : Text) : Type 0 where
  pub rooted : is_rooted normal ≡ true
  pub no_parent : mem_text dot_dot (segments normal) ≡ false
  pub same : components normal ≡ components path

pub normpath-IsNormal : (path normal : Text) → IsSafe path normal → IsNormal path (normpath normal)
normpath-IsNormal path normal s =
    let t = normpath-IsSafe normal s.normal_rooted (no_parent_of_IsSafe path normal s) in
    record {
      rooted = t.normal_rooted;
      no_parent = no_parent_of_IsSafe normal (normpath normal) t;
      same = components_of_IsSafe normal (normpath normal) t ∙ components_of_IsSafe path normal s;
    }
