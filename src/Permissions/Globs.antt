-- ===== src/Permissions/Globs.antt =====
-- permissions.py, `_match_parts`: it decides whether a pattern matches the first parts of a path.
use ai_worker_bridge_mcp.Base.{
  ◌≡◌, ◌≢◌, ◌∙◌, ◌↔◌, refl, sym, ap, subst, Bool, true, false, ◌&&◌, not, List, [], ◌∷◌, ◌++◌, any,
  is_nil, arith, Bool-cases, inl, inr, if◌then◌else◌,
}
use ai_worker_bridge_mcp.Base.Text.{Text, text_eq, text_eq_iff, text_eq_refl}
use ai_worker_bridge_mcp.Permissions.{star, suffixes, starts_segments, match_parts}

-- A pattern matches a path from its root: `*` stands for any number of parts, another part for
-- itself, and whatever the pattern leaves over is below the matched directory.
pub data Matches : List Text → List Text → Type 0 where
  done : {cs : List Text} → Matches [] cs
  skip :
      {p : Text} {ps : List Text} (xs : List Text) {cs : List Text}
      → p ≡ star
      → Matches ps cs
      → Matches (p ∷ ps) (xs ++ cs)
  same : {p : Text} {ps cs : List Text} → p ≢ star → Matches ps cs → Matches (p ∷ ps) (p ∷ cs)

any_suffix_sound :
    (f : List Text → Bool) (cs : List Text)
    → any f (suffixes cs) ≡ true
    → (xs ys : List Text) × (cs ≡ xs ++ ys) × (f ys ≡ true)
unfolding suffixes
any_suffix_sound f [] h = ([], [], refl, ground arith)
any_suffix_sound f (c ∷ cs) h = elim (Bool-cases (f (c ∷ cs))) [
  | inl e ↦ ([], c ∷ cs, refl, e)
  | inr e ↦
      let (xs, ys, split_at, good) = any_suffix_sound f cs (ground arith) in
      (c ∷ xs, ys, ap (λ r. c ∷ r) split_at, good)
]

any_suffix_complete :
    (f : List Text → Bool) (xs ys : List Text) → f ys ≡ true → any f (suffixes (xs ++ ys)) ≡ true
unfolding suffixes
any_suffix_complete f [] [] h = ground arith
any_suffix_complete f [] (y ∷ ys) h = ground arith
any_suffix_complete f (x ∷ xs) ys h = ground (arith, any_suffix_complete f xs ys h)

right_nil : (xs cs : List Text) → xs ++ cs ≡ [] → cs ≡ []
right_nil [] cs e = e
right_nil (x ∷ xs) cs e = absurd (ground arith)

-- The early `return False`: no pattern with a part other than `*` matches the empty path.
Matches-nil :
    {ps cs : List Text} → Matches ps cs → cs ≡ [] → any (λ p. not (text_eq p star)) ps ≡ false
Matches-nil done e = refl
Matches-nil (skip {p} {ps} xs {cs} h m) e =
    ground (arith, text_eq_iff p star, Matches-nil m (right_nil xs cs e))
Matches-nil (same h m) e = absurd (ground arith)

match_step :
    (p : Text) (ps cs : List Text)
    → match_parts (p ∷ ps) cs ≡ (
        if is_nil cs && any (λ part. not (text_eq part star)) (p ∷ ps)
        then false
        else starts_segments (match_parts ps) p cs)
unfolding match_parts
match_step p ps cs = refl

starts_segments-star :
    (f : List Text → Bool) (cs : List Text) → starts_segments f star cs ≡ any f (suffixes cs)
unfolding starts_segments
starts_segments-star f [] = refl
starts_segments-star f (c ∷ cs) = refl

starts_segments_same :
    (f : List Text → Bool) (p : Text) (cs : List Text)
    → p ≢ star
    → starts_segments f p (p ∷ cs) ≡ f cs
unfolding starts_segments
starts_segments_same f p cs h = ground (arith, text_eq_iff p star, text_eq_refl p)

starts_segments_sound :
    (f : List Text → Bool) (p : Text) (cs : List Text)
    → p ≢ star
    → starts_segments f p cs ≡ true
    → (rest : List Text) × (cs ≡ p ∷ rest) × (f rest ≡ true)
unfolding starts_segments
starts_segments_sound f p [] h e = ground (arith, text_eq_iff p star)
starts_segments_sound f p (c ∷ cs) h e =
    (cs, ground (arith, text_eq_iff p star, text_eq_iff p c), ground (arith, text_eq_iff p star))

pub match_parts_sound : (ps cs : List Text) → match_parts ps cs ≡ true → Matches ps cs
match_parts_sound [] cs h = done
match_parts_sound (p ∷ ps) cs h =
    let starts : starts_segments (match_parts ps) p cs ≡ true =
      ground (arith, match_step p ps cs) in
    elim (Bool-cases (text_eq p star)) [
      | inl e ↦
          let p_star = (text_eq_iff p star).0 e in
          let (xs, ys, split_at, good) = any_suffix_sound (match_parts ps) cs (
            sym (starts_segments-star (match_parts ps) cs)
            ∙ ap (λ q. starts_segments (match_parts ps) q cs) (sym p_star)
            ∙ starts) in
          subst (Matches (p ∷ ps)) (sym split_at) (skip xs p_star (match_parts_sound ps ys good))
      | inr e ↦
          let p_other : p ≢ star = ground (arith, text_eq_iff p star) in
          let (rest, split_at, good) = starts_segments_sound (match_parts ps) p cs p_other starts in
          subst (Matches (p ∷ ps)) (sym split_at) (same p_other (match_parts_sound ps rest good))
    ]

match_of_starts :
    (p : Text) (ps cs : List Text)
    → (cs ≡ [] → any (λ part. not (text_eq part star)) (p ∷ ps) ≡ false)
    → starts_segments (match_parts ps) p cs ≡ true
    → match_parts (p ∷ ps) cs ≡ true
match_of_starts p ps [] h e = ground (arith, match_step p ps [], h refl)
match_of_starts p ps (c ∷ cs) h e = match_step p ps (c ∷ cs) ∙ e

pub match_parts_complete : {ps cs : List Text} → Matches ps cs → match_parts ps cs ≡ true
match_parts_complete done = unfold match_parts in refl
match_parts_complete (skip {p} {ps} xs {cs} h m) =
    match_of_starts p ps (xs ++ cs) (Matches-nil (skip xs h m)) (
      ap (λ q. starts_segments (match_parts ps) q (xs ++ cs)) h
      ∙ starts_segments-star (match_parts ps) (xs ++ cs)
      ∙ any_suffix_complete (match_parts ps) xs cs (match_parts_complete m))
match_parts_complete (same {p} {ps} {cs} h m) =
    match_of_starts p ps (p ∷ cs) (λ e. absurd (ground arith))
      (starts_segments_same (match_parts ps) p cs h ∙ match_parts_complete m)

-- `_match_parts` returns True exactly when the pattern matches.
pub match_parts_iff : (ps cs : List Text) → (match_parts ps cs ≡ true) ↔ Matches ps cs
match_parts_iff ps cs = (match_parts_sound ps cs, match_parts_complete)
