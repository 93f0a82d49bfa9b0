-- ===== src/Store/Unique.antt =====
-- store.py: the primary key and the unique idempotency key hold after every statement.
use ai_worker_bridge_mcp.Base.{
  String, ◌≡◌, refl, true, false, Option, none, some, [], ◌∷◌, ◌++◌, any, arith, eq_iff, Bool-cases,
  inl, inr,
}
use ai_worker_bridge_mcp.Base.Exec.{ok}
use ai_worker_bridge_mcp.TaskState.{TaskRecord}
use ai_worker_bridge_mcp.Store.{
  Table, key_eq, key_taken, holds_key, put, upsert, clash, insert, create_or_get, Created,
}
use text.Mathlib.Text.{◌==◌ as str_eq}

-- No two rows share a task id, and no two share an idempotency key.
abbrev pub IsValid : Table → Type 0
IsValid [] = Unit
IsValid (r ∷ rows) = (any (λ s. clash r s) rows ≡ false) × IsValid rows

pub key_eq_symm : (a b : Option String) → key_eq a b ≡ key_eq b a
unfolding key_eq
key_eq_symm none none = refl
key_eq_symm none (some b) = refl
key_eq_symm (some a) none = refl
key_eq_symm (some a) (some b) = ground (arith, eq_iff a b, eq_iff b a)

clash_symm : (a b : TaskRecord) → clash a b ≡ clash b a
unfolding clash
clash_symm a b = ground (
  arith,
  eq_iff a.task_id b.task_id,
  eq_iff b.task_id a.task_id,
  key_eq_symm a.idempotency_key b.idempotency_key,
)

-- A row whose id differs and whose key is not taken by the task clashes with nothing it writes.
clash-put :
    (r t : TaskRecord) (rows : Table)
    → any (λ s. clash r s) rows ≡ false
    → clash r t ≡ false
    → any (λ s. clash r s) (put t rows) ≡ false
unfolding put clash
clash-put r t [] h k = ground arith
clash-put r t (s ∷ rows) h k =
    ground (arith, clash-put r t rows, eq_iff s.task_id t.task_id, eq_iff r.task_id t.task_id)

clash_of_holds_key :
    (t r s : TaskRecord)
    → r.task_id ≡ t.task_id
    → clash r s ≡ false
    → holds_key t s ≡ false
    → clash t s ≡ false
unfolding holds_key clash
clash_of_holds_key t r s e h k = ground (
  arith,
  eq_iff r.task_id s.task_id,
  eq_iff t.task_id s.task_id,
  eq_iff s.task_id t.task_id,
  key_eq_symm s.idempotency_key t.idempotency_key,
)

put_same :
    (t r : TaskRecord) (rows : Table)
    → str_eq r.task_id t.task_id ≡ true
    → put t (r ∷ rows) ≡ record t { created_at = r.created_at } ∷ rows
unfolding put
put_same t r rows e = rw e

put_other :
    (t r : TaskRecord) (rows : Table)
    → str_eq r.task_id t.task_id ≡ false
    → put t (r ∷ rows) ≡ r ∷ put t rows
unfolding put
put_other t r rows e = rw e

clash_of_other :
    (t r : TaskRecord)
    → str_eq r.task_id t.task_id ≡ false
    → holds_key t r ≡ false
    → clash r t ≡ false
unfolding holds_key clash
clash_of_other t r e h = ground arith

any-clash_of_key_taken :
    (t r : TaskRecord) (rows : Table)
    → r.task_id ≡ t.task_id
    → any (λ s. clash r s) rows ≡ false
    → any (λ s. holds_key t s) rows ≡ false
    → any (λ s. clash t s) rows ≡ false
any-clash_of_key_taken t r [] e h k = refl
any-clash_of_key_taken t r (s ∷ rows) e h k =
    ground (arith, any-clash_of_key_taken t r rows e, clash_of_holds_key t r s e)

put-IsValid :
    (t : TaskRecord) (rows : Table)
    → any (λ s. holds_key t s) rows ≡ false
    → IsValid rows
    → IsValid (put t rows)
put-IsValid t [] k v = unfold put in (refl, tt)
put-IsValid t (r ∷ rows) k (h, v) = elim (Bool-cases (str_eq r.task_id t.task_id)) [
  | inl same ↦
      rw (put_same t r rows same)
        (unfold clash in any-clash_of_key_taken t r rows ((eq_iff _ _).0 same) h (ground arith), v)
  | inr other ↦ rw (put_other t r rows other) (
    clash-put r t rows h (clash_of_other t r other (ground arith)),
    put-IsValid t rows (ground arith) v,
  )
]

-- An upsert that succeeds keeps task ids and idempotency keys unique.
pub upsert-IsValid :
    (t : TaskRecord) (rows : Table) {after : Table}
    → IsValid rows
    → upsert t rows ≡ ok after
    → IsValid after
unfolding upsert
upsert-IsValid t rows {after} v e = elim (Bool-cases (key_taken t rows)) [
  | inl taken ↦ ground arith
  | inr free ↦ let e' : put t rows ≡ after = ground arith in rw e' at (put-IsValid t rows free v)
]

append-IsValid :
    (t : TaskRecord) (rows : Table)
    → any (λ r. clash r t) rows ≡ false
    → IsValid rows
    → IsValid (rows ++ t ∷ [])
append-IsValid t [] h v = (refl, tt)
append-IsValid t (r ∷ rows) h (k, v) =
    (any-append r rows k (ground arith), append-IsValid t rows (ground arith) v)
  where
    any-append :
        (r : TaskRecord) (rows : Table)
        → any (λ s. clash r s) rows ≡ false
        → clash r t ≡ false
        → any (λ s. clash r s) (rows ++ t ∷ []) ≡ false
    any-append r [] h k = ground arith
    any-append r (s ∷ rows) h k = ground (arith, any-append r rows)

pub insert-IsValid :
    (t : TaskRecord) (rows : Table) {after : Table}
    → IsValid rows
    → insert t rows ≡ ok after
    → IsValid after
unfolding insert
insert-IsValid t rows {after} v e = elim (Bool-cases (any (λ r. clash r t) rows)) [
  | inl taken ↦ ground arith
  | inr free ↦
      let e' : rows ++ t ∷ [] ≡ after = ground arith in rw e' at (append-IsValid t rows free v)
]

-- `create_or_get` keeps both keys unique, whichever path it takes.
pub create_or_get-IsValid :
    (t : TaskRecord) (rows : Table) {out : Created}
    → IsValid rows
    → create_or_get t rows ≡ ok out
    → IsValid out.0
unfolding create_or_get
create_or_get-IsValid t rows {out} v e =
    ground (arith, upsert-IsValid t rows {after = out.0} v, insert-IsValid t rows {after = out.0} v)
