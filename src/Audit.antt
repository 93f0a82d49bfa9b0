-- ===== src/Audit.antt =====
-- audit.py, `emit`: the fields of an event that are written. The file itself, and the JSON line that is
-- made of the fields, are outside.
pub mod Log
use ai_worker_bridge_mcp.Base.{
  ◌≡◌, refl, subst, arith, Bool, true, false, ◌&&◌, Option, none, some, List, [], ◌∷◌, All, any,
  Bool-cases, inl, inr, if◌then◌else◌,
}
use ai_worker_bridge_mcp.Base.Text.{Text, codes, text_eq, lower}
use ai_worker_bridge_mcp.Json.{Json, str}

-- The dict `safe`, in the order in which its keys are added.
abbrev pub Entries : Type 0
Entries = List (Text × Json)

abbrev hidden_names : List Text
hidden_names =
    codes "prompt" ∷ codes "api_key" ∷ codes "token" ∷ codes "secret" ∷ codes "authorization" ∷ []

-- `key.lower() in {…}`
unfoldable pub is_hidden : Text → Bool
unfolding lower text_eq
is_hidden key = any (λ name. text_eq (lower key) name) hidden_names

-- `safe[key] = value`
put_entry : Text → Json → Entries → Entries
unfolding text_eq
put_entry key v [] = (key, v) ∷ []
put_entry key v ((k, u) ∷ safe) =
    if text_eq k key then (k, v) ∷ safe else (k, u) ∷ put_entry key v safe

-- The loop over the fields.
unfoldable pub add_fields : List (Text × Option Json) → Entries → Entries
unfolding is_hidden put_entry
add_fields [] safe = safe
add_fields ((key, none) ∷ fields) safe = add_fields fields safe
add_fields ((key, some v) ∷ fields) safe =
    add_fields fields (if is_hidden key then safe else put_entry key v safe)

-- What `emit` writes; nothing where the log is not enabled or has no file.
unfoldable pub written :
    Bool → Bool → Text → Text → Text → List (Text × Option Json) → Option Entries
unfolding add_fields
written enabled has_file timestamp event_type outcome fields =
    if enabled && has_file
    then some (
        add_fields fields (
          (codes "timestamp", str timestamp)
          ∷ (codes "event_type", str event_type)
          ∷ (codes "outcome", str outcome)
          ∷ []))
    else none

-- No entry has a hidden name.
abbrev pub IsClean : Entries → Type 0
IsClean safe = All (λ (e : Text × Json). is_hidden e.0 ≡ false) safe

put_entry-IsClean :
    (key : Text) (v : Json) (safe : Entries)
    → is_hidden key ≡ false
    → IsClean safe
    → IsClean (put_entry key v safe)
unfolding put_entry
put_entry-IsClean key v [] h c = (h, tt)
put_entry-IsClean key v ((k, u) ∷ safe) h (d, c) = elim (Bool-cases (text_eq k key)) [
  | inl e ↦ rw e (d, c)
  | inr e ↦ rw e (d, put_entry-IsClean key v safe h c)
]

-- The entries with one more field.
with_field-IsClean :
    (key : Text) (v : Json) (safe : Entries)
    → IsClean safe
    → IsClean (if is_hidden key then safe else put_entry key v safe)
with_field-IsClean key v safe c = elim (Bool-cases (is_hidden key)) [
  | inl h ↦ rw h c
  | inr h ↦ rw h (put_entry-IsClean key v safe h c)
]

add_fields-IsClean :
    (fields : List (Text × Option Json)) (safe : Entries)
    → IsClean safe
    → IsClean (add_fields fields safe)
unfolding add_fields
add_fields-IsClean [] safe c = c
add_fields-IsClean ((key, none) ∷ fields) safe c = add_fields-IsClean fields safe c
add_fields-IsClean ((key, some v) ∷ fields) safe c =
    add_fields-IsClean fields _ (with_field-IsClean key v safe c)

fixed-IsClean :
    (timestamp event_type outcome : Text)
    → IsClean (
        (codes "timestamp", str timestamp)
        ∷ (codes "event_type", str event_type)
        ∷ (codes "outcome", str outcome)
        ∷ [])
unfolding is_hidden lower text_eq
fixed-IsClean timestamp event_type outcome = (refl, (refl, (refl, tt)))

-- An event that is written has no entry named prompt, api_key, token, secret or authorization, in
-- whatever case of ASCII the field was named, and it is written only where the log is enabled and has a file.
pub written-IsClean :
    (enabled has_file : Bool) (timestamp event_type outcome : Text)
    (fields : List (Text × Option Json)) {out : Entries}
    → written enabled has_file timestamp event_type outcome fields ≡ some out
    → IsClean out × (enabled && has_file ≡ true)
written-IsClean enabled has_file timestamp event_type outcome fields {out} e =
    elim (Bool-cases (enabled && has_file)) [
      | inl h ↦
          let same : add_fields fields (
                (codes "timestamp", str timestamp)
                ∷ (codes "event_type", str event_type)
                ∷ (codes "outcome", str outcome)
                ∷ [])
              ≡ out =
            unfold written in ground arith in
          (
            subst IsClean same
                (add_fields-IsClean fields _ (fixed-IsClean timestamp event_type outcome)),
            h,
          )
      | inr h ↦ absurd (unfold written in ground arith)
    ]
