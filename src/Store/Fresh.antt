-- ===== src/Store/Fresh.antt =====
-- store.py, `create_or_get` of a task whose id is new: a row is added, or the table is as it was.
use ai_worker_bridge_mcp.Base.{
  String, ◌≡◌, refl, subst, true, false, Option, none, some, arith, eq_iff, if◌then◌else◌,
}
use ai_worker_bridge_mcp.Base.Exec.{ok-injective, Result, ok, err}
use ai_worker_bridge_mcp.Exceptions.{Exception}
use ai_worker_bridge_mcp.TaskState.{TaskRecord}
use ai_worker_bridge_mcp.Store.{
  Table, get, upsert, insert, created, return_or_insert, create_keyed, create_or_get, Created,
  usable_key, get_by_idempotency_key,
}
use ai_worker_bridge_mcp.Store.Reads.{merged, get-upsert, get-insert}
use text.Mathlib.Text.{◌==◌ as str_eq}

-- The outcome of `create_or_get` for a task whose id is new.
pub data Adds (t : TaskRecord) (rows : Table) : Created → Type 0 where
  added :
      (after : Table)
      → ((j : String) → get j after ≡ (if str_eq t.task_id j then some t else get j rows))
      → Adds t rows (after, t, true)
  replayed : (old : TaskRecord) → Adds t rows (rows, old, false)

upsert-fresh :
    (t : TaskRecord) (rows : Table) {after : Table}
    → get t.task_id rows ≡ none
    → upsert t rows ≡ ok after
    → (j : String) → get j after ≡ (if str_eq t.task_id j then some t else get j rows)
unfolding merged
upsert-fresh t rows {after} fresh e j = ground (arith, get-upsert j t rows {after = after} e)

insert-fresh :
    (t : TaskRecord) (rows : Table) {after : Table}
    → get t.task_id rows ≡ none
    → insert t rows ≡ ok after
    → (j : String) → get j after ≡ (if str_eq t.task_id j then some t else get j rows)
insert-fresh t rows {after} fresh e j =
    ground (arith, get-insert j t rows {after = after} e, eq_iff t.task_id j)

created-Adds :
    (t : TaskRecord) (rows : Table) (r : Result Exception Table) {out : Created}
    → ((after : Table)
        → r ≡ ok after
        → (j : String) → get j after ≡ (if str_eq t.task_id j then some t else get j rows))
    → created t r ≡ ok out
    → Adds t rows out
unfolding created
created-Adds t rows (ok after) h e =
    subst (Adds t rows) (ok-injective e) (added after (h after refl))
created-Adds t rows (err x) h e = absurd (cc)

return_or_insert-Adds :
    (o : Option TaskRecord) (t : TaskRecord) (rows : Table) {out : Created}
    → get t.task_id rows ≡ none
    → return_or_insert o t rows ≡ ok out
    → Adds t rows out
return_or_insert-Adds (some old) t rows {out} fresh e =
    let e' : ◌≡◌ {A = Result Exception Created} (ok (rows, old, false)) (ok out) =
      unfold return_or_insert in e in
    subst (Adds t rows) (ok-injective e') (replayed old)
return_or_insert-Adds none t rows {out} fresh e =
    let e' : created t (insert t rows) ≡ ok out = unfold return_or_insert in e in
    created-Adds t rows (insert t rows) (λ after. insert-fresh t rows fresh) e'

create_keyed-Adds :
    (key : Option String) (t : TaskRecord) (rows : Table) {out : Created}
    → get t.task_id rows ≡ none
    → create_keyed key t rows ≡ ok out
    → Adds t rows out
create_keyed-Adds none t rows {out} fresh e =
    let e' : created t (upsert t rows) ≡ ok out = unfold create_keyed in e in
    created-Adds t rows (upsert t rows) (λ after. upsert-fresh t rows fresh) e'
create_keyed-Adds (some k) t rows {out} fresh e =
    let e' : return_or_insert (get_by_idempotency_key k rows) t rows ≡ ok out =
      unfold create_keyed in e in
    return_or_insert-Adds (get_by_idempotency_key k rows) t rows fresh e'

pub create_or_get-Adds :
    (t : TaskRecord) (rows : Table) {out : Created}
    → get t.task_id rows ≡ none
    → create_or_get t rows ≡ ok out
    → Adds t rows out
create_or_get-Adds t rows {out} fresh e =
    let e' : create_keyed (usable_key t.idempotency_key) t rows ≡ ok out =
      unfold create_or_get in e in
    create_keyed-Adds (usable_key t.idempotency_key) t rows fresh e'
