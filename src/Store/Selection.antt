-- ===== src/Store/Selection.antt =====
-- store.py, `SELECT … WHERE state IN …`: the rows that a selection returns.
use ai_worker_bridge_mcp.Base.{
  String, ◌≡◌, ◌∙◌, refl, subst, ap, Bool, true, false, none, some, List, [], ◌∷◌, any, All, select,
  arith, eq_iff, Bool-cases, inl, inr, if◌then◌else◌,
}
use ai_worker_bridge_mcp.TaskState.{TaskRecord}
use ai_worker_bridge_mcp.Store.{Table, get, find, clash}
use ai_worker_bridge_mcp.Store.Unique.{IsValid}
use text.Mathlib.Text.{◌==◌ as str_eq}

-- The ids of a list of tasks are distinct.
abbrev pub IsDistinct : List TaskRecord → Type 0
IsDistinct [] = Unit
IsDistinct (t ∷ ts) = (any (λ s. str_eq s.task_id t.task_id) ts ≡ false) × IsDistinct ts

abbrev pub is_listed : List TaskRecord → String → Bool
is_listed ts j = any (λ s. str_eq s.task_id j) ts

-- Each task of the list is a row.
abbrev pub AreRows : List TaskRecord → Table → Type 0
AreRows tasks rows = All (λ t. get t.task_id rows ≡ some t) tasks

-- Rows of tasks other than `t` are untouched by a write of `t`.
pub AreRows-others :
    (t : TaskRecord) (ts : List TaskRecord) (rows next : Table)
    → ((j : String) → str_eq t.task_id j ≡ false → get j next ≡ get j rows)
    → any (λ s. str_eq s.task_id t.task_id) ts ≡ false
    → AreRows ts rows
    → AreRows ts next
AreRows-others t [] rows next h d a = tt
AreRows-others t (s ∷ ts) rows next h d (e, a) = (
  ground (arith, h s.task_id, eq_iff t.task_id s.task_id, eq_iff s.task_id t.task_id),
  AreRows-others t ts rows next h (ground arith) a,
)

find_head :
    (j : String) (r : TaskRecord) (rows : Table)
    → get j (r ∷ rows) ≡ (if str_eq r.task_id j then some r else get j rows)
unfolding get find
find_head j r rows = refl

not_listed_of_clash :
    (p : TaskRecord → Bool) (r : TaskRecord) (rows : Table)
    → any (λ s. clash r s) rows ≡ false
    → any (λ s. str_eq s.task_id r.task_id) (select p rows) ≡ false
unfolding clash
not_listed_of_clash p r [] h = refl
not_listed_of_clash p r (s ∷ rows) h =
    ground
      (arith, not_listed_of_clash p r rows, eq_iff r.task_id s.task_id, eq_iff s.task_id r.task_id)

pub select-IsDistinct :
    (p : TaskRecord → Bool) (rows : Table) → IsValid rows → IsDistinct (select p rows)
select-IsDistinct p [] v = tt
select-IsDistinct p (r ∷ rows) (h, v) = elim (Bool-cases (p r)) [
  | inl e ↦ rw e (not_listed_of_clash p r rows h, select-IsDistinct p rows v)
  | inr e ↦ rw e (select-IsDistinct p rows v)
]

-- A row added in front of others, none of which has its id, hides none of them.
AreRows-cons :
    (r : TaskRecord) (ts rows : Table)
    → any (λ s. str_eq s.task_id r.task_id) ts ≡ false
    → AreRows ts rows
    → AreRows ts (r ∷ rows)
AreRows-cons r ts rows d a =
    AreRows-others r ts rows (r ∷ rows) (λ j h. ground (arith, find_head j r rows)) d a

pub select-AreRows :
    (p : TaskRecord → Bool) (rows : Table) → IsValid rows → AreRows (select p rows) rows
select-AreRows p [] v = tt
select-AreRows p (r ∷ rows) (h, v) =
    let rest =
      AreRows-cons r (select p rows) rows (not_listed_of_clash p r rows h)
        (select-AreRows p rows v) in
    elim (Bool-cases (p r)) [
      | inl e ↦ rw e (ground (arith, find_head r.task_id r rows, eq_iff r.task_id r.task_id), rest)
      | inr e ↦ rw e rest
    ]

-- A row that passes the test is selected, and one that fails it is not.
pub All-select {κ} :
    (P : TaskRecord → Type κ) (p : TaskRecord → Bool) (rows : Table) (j : String) {r : TaskRecord}
    → All P (select p rows)
    → get j rows ≡ some r
    → p r ≡ true
    → P r
All-select P p [] j a e h = absurd (unfold get find in cc)
All-select P p (s ∷ rows) j {r} a e h = elim (Bool-cases (str_eq s.task_id j)) [
  | inl same ↦
      let e' : s ≡ r = ground (arith, find_head j s rows) in subst P e' ((rw (ap p e' ∙ h) at a).0)
  | inr other ↦ elim (Bool-cases (p s)) [
    | inl chosen ↦ All-select P p rows j ((rw chosen at a).1) (ground (arith, find_head j s rows)) h
    | inr left ↦ All-select P p rows j (rw left at a) (ground (arith, find_head j s rows)) h
  ]
]

pub not_listed_of_test :
    (p : TaskRecord → Bool) (rows : Table) (j : String) {r : TaskRecord}
    → IsValid rows
    → get j rows ≡ some r
    → p r ≡ false
    → any (λ s. str_eq s.task_id j) (select p rows) ≡ false
not_listed_of_test p [] j v e h = refl
not_listed_of_test p (s ∷ rows) j {r} (d, v) e h = elim (Bool-cases (str_eq s.task_id j)) [
  | inl same ↦
      ground (arith, find_head j s rows, eq_iff s.task_id j, not_listed_of_clash p s rows d)
  | inr other ↦ ground (arith, find_head j s rows, not_listed_of_test p rows j {r = r} v)
]

pub absent_of_none :
    (p : TaskRecord → Bool) (rows : Table) (j : String)
    → get j rows ≡ none
    → any (λ s. str_eq s.task_id j) (select p rows) ≡ false
absent_of_none p [] j e = refl
absent_of_none p (s ∷ rows) j e = ground (arith, find_head j s rows, absent_of_none p rows j)

-- The row that an id leads to has that id.
pub task_id-get : (j : String) (rows : Table) {r : TaskRecord} → get j rows ≡ some r → r.task_id ≡ j
task_id-get j [] e = unfold get find in cc
task_id-get j (s ∷ rows) {r} e =
    ground (arith, find_head j s rows, eq_iff s.task_id j, task_id-get j rows {r = r})

-- A row that passes the test is listed.
pub listed_of_row :
    (p : TaskRecord → Bool) (rows : Table) (j : String) {r : TaskRecord}
    → get j rows ≡ some r
    → p r ≡ true
    → is_listed (select p rows) j ≡ true
listed_of_row p [] j e h = absurd (unfold get find in cc)
listed_of_row p (s ∷ rows) j {r} e h =
    ground (arith, find_head j s rows, listed_of_row p rows j {r = r})
