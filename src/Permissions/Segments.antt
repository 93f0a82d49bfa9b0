-- ===== src/Permissions/Segments.antt =====
-- permissions.py: the segments of a path, under concatenation, stripping and joining.
use ai_worker_bridge_mcp.Base.{
  ℕ, ◌≡◌, ◌≢◌, ◌∙◌, refl, sym, ap, Bool, true, not, List, [], ◌∷◌, ◌++◌, ◌==◌, ==_iff, is_nil,
  select, reverse, arith, All, Bool-cases, inl, inr, if◌then◌else◌,
}
use ai_worker_bridge_mcp.Base.Text.{Text, codes, push, split, join, strip_left, strip_right}
use ai_worker_bridge_mcp.Permissions.Paths.{slash, segments}
use mathlib.Core.Path.{ap₂}
use mathlib.Core.List.{append-nil, reverse-append, reverse-reverse}

-- `split` gives at least one part; it never gives the empty list.
split-ne-nil : (sep : ℕ) (s : Text) → split sep s ≢ []
unfolding split push
split-ne-nil sep [] = λ e. cc
split-ne-nil sep (c ∷ s) = ground arith

push-append : (c : ℕ) (xs ys : List Text) → xs ≢ [] → push c (xs ++ ys) ≡ push c xs ++ ys
unfolding push
push-append c [] ys h = absurd (h refl)
push-append c (x ∷ xs) ys h = refl

split_step :
    (sep c : ℕ) (s : Text)
    → split sep (c ∷ s) ≡ (if c == sep then [] ∷ split sep s else push c (split sep s))
unfolding split
split_step sep c s = refl

-- A separator in the text divides the parts.
pub split-append : (sep : ℕ) (s t : Text) → split sep (s ++ sep ∷ t) ≡ split sep s ++ split sep t
split-append sep [] t = unfold split in ground arith
split-append sep (c ∷ s) t = ground (
  arith,
  split_step sep c s,
  split_step sep c (s ++ sep ∷ t),
  split-append sep s t,
  push-append c (split sep s) (split sep t) (split-ne-nil sep s),
)

select-append {ℓ} :
    {A : Type ℓ} (p : A → Bool) (xs ys : List A) → select p (xs ++ ys) ≡ select p xs ++ select p ys
select-append p [] ys = refl
select-append p (x ∷ xs) ys = elim (Bool-cases (p x)) [
  | inl e ↦ rw e (ap (λ r. x ∷ r) (select-append p xs ys))
  | inr e ↦ rw e (select-append p xs ys)
]

pub segments-append : (s t : Text) → segments (s ++ slash ∷ t) ≡ segments s ++ segments t
unfolding segments
segments-append s t =
    ap (select (λ u. not (is_nil u))) (split-append slash s t)
    ∙ select-append (λ u. not (is_nil u)) (split slash s) (split slash t)

-- Every code point of the text is a slash.
abbrev AllSlash : Text → Type 0
AllSlash s = All (λ c. c ≡ slash) s

segments_of_AllSlash : (s : Text) → AllSlash s → segments s ≡ []
unfolding segments split
segments_of_AllSlash [] h = refl
segments_of_AllSlash (c ∷ s) (e, h) = rw e (segments_of_AllSlash s h)

segments-append_slashes : (s t : Text) → AllSlash t → segments (s ++ t) ≡ segments s
segments-append_slashes s [] h = ap segments (append-nil s)
segments-append_slashes s (c ∷ t) (e, h) =
    ap (λ d. segments (s ++ d ∷ t)) e
    ∙ segments-append s t
    ∙ ap (λ r. segments s ++ r) (segments_of_AllSlash t h)
    ∙ append-nil (segments s)

-- What `strip_left` drops.
stripped :
    (p : ℕ → Bool) (s : Text)
    → (dropped : Text) × (s ≡ dropped ++ strip_left p s) × All (λ c. p c ≡ true) dropped
unfolding strip_left
stripped p [] = ([], refl, tt)
stripped p (c ∷ s) = elim (Bool-cases (p c)) [
  | inl e ↦
      let (dropped, split_at, each) = stripped p s in
      (c ∷ dropped, rw e (ap (λ r. c ∷ r) split_at), (e, each))
  | inr e ↦ ([], rw e, tt)
]

All-append {κ} : (P : ℕ → Type κ) (s t : Text) → All P s → All P t → All P (s ++ t)
All-append P [] t h k = k
All-append P (c ∷ s) t (e, h) k = (e, All-append P s t h k)

All-reverse {κ} : (P : ℕ → Type κ) (s : Text) → All P s → All P (reverse s)
All-reverse P [] h = tt
All-reverse P (c ∷ s) (e, h) =
    rw (reverse-append (c ∷ []) s) (All-append P (reverse s) (c ∷ []) (All-reverse P s h) (e, tt))

All-weaken :
    (p : ℕ → Bool) (s : Text)
    → ((c : ℕ) → p c ≡ true → c ≡ slash)
    → All (λ c. p c ≡ true) s
    → AllSlash s
All-weaken p [] only h = tt
All-weaken p (c ∷ s) only (e, h) = (only c e, All-weaken p s only h)

pub segments-strip_right :
    (p : ℕ → Bool) (s : Text)
    → ((c : ℕ) → p c ≡ true → c ≡ slash)
    → segments (strip_right p s) ≡ segments s
unfolding strip_right
segments-strip_right p s only =
    let (dropped, split_at, each) = stripped p (reverse s) in
    let kept = strip_left p (reverse s) in
    let whole : s ≡ reverse kept ++ reverse dropped =
      sym (reverse-reverse s) ∙ ap reverse split_at ∙ reverse-append dropped kept in
    sym (
      ap segments whole
      ∙ segments-append_slashes (reverse kept) (reverse dropped)
          (All-reverse (λ c. c ≡ slash) dropped (All-weaken p dropped only each)))

-- A text that holds no slash.
abbrev pub NoSlash : Text → Type 0
NoSlash s = All (λ c. c ≢ slash) s

-- A segment: it is not empty and holds no slash.
abbrev pub IsSegment : Text → Type 0
IsSegment s = (s ≢ []) × NoSlash s

push-NoSlash : (c : ℕ) (xs : List Text) → c ≢ slash → All NoSlash xs → All NoSlash (push c xs)
unfolding push
push-NoSlash c [] h k = ((h, tt), tt)
push-NoSlash c (x ∷ xs) h (k, ks) = ((h, k), ks)

split-NoSlash : (s : Text) → All NoSlash (split slash s)
split-NoSlash [] = unfold split in (tt, tt)
split-NoSlash (c ∷ s) = elim (Bool-cases (c == slash)) [
  | inl e ↦ rw (split_step slash c s, e) (tt, split-NoSlash s)
  | inr e ↦
      rw (split_step slash c s, e)
        (push-NoSlash c (split slash s) (λ h. ground (arith, ==_iff c slash)) (split-NoSlash s))
]

select-IsSegment :
    (xs : List Text) → All NoSlash xs → All IsSegment (select (λ u. not (is_nil u)) xs)
select-IsSegment [] h = tt
select-IsSegment ([] ∷ xs) (k, ks) = select-IsSegment xs ks
select-IsSegment ((c ∷ x) ∷ xs) (k, ks) = ((λ e. cc, k), select-IsSegment xs ks)

pub segments-IsSegment : (s : Text) → All IsSegment (segments s)
unfolding segments
segments-IsSegment s = select-IsSegment (split slash s) (split-NoSlash s)

push_one : (c : ℕ) (s : Text) → push c (s ∷ []) ≡ (c ∷ s) ∷ []
unfolding push
push_one c s = refl

split_of_NoSlash : (s : Text) → NoSlash s → split slash s ≡ s ∷ []
split_of_NoSlash [] h = unfold split in refl
split_of_NoSlash (c ∷ s) (k, h) =
    ground (arith, split_step slash c s, split_of_NoSlash s h, push_one c s)

segments_of_IsSegment : (s : Text) → IsSegment s → segments s ≡ s ∷ []
unfolding segments
segments_of_IsSegment [] (h, k) = absurd (h refl)
segments_of_IsSegment (c ∷ s) (h, k) = rw (split_of_NoSlash (c ∷ s) k)

join_step :
    (t u : Text) (ts : List Text)
    → join (codes "/") (t ∷ u ∷ ts) ≡ t ++ slash ∷ join (codes "/") (u ∷ ts)
unfolding join
join_step t u ts = refl

-- Joined segments are split into the same segments.
pub segments-join : (ts : List Text) → All IsSegment ts → segments (join (codes "/") ts) ≡ ts
segments-join [] h = unfold join segments split in refl
segments-join (t ∷ []) (h, k) = unfold join in segments_of_IsSegment t h
segments-join (t ∷ u ∷ ts) (h, k) =
    ap segments (join_step t u ts)
    ∙ segments-append t (join (codes "/") (u ∷ ts))
    ∙ ap₂ (λ a b. a ++ b) (segments_of_IsSegment t h) (segments-join (u ∷ ts) k)
