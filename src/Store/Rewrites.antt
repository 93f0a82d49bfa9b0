-- ===== src/Store/Rewrites.antt =====
-- store.py, `upsert` of a task that was read from the table: it succeeds, and rewrites that row alone.
use ai_worker_bridge_mcp.Base.{
  String, ◌≡◌, refl, sym, Bool, false, some, [], ◌∷◌, any, arith, eq_iff, Bool-cases, inl, inr,
}
use ai_worker_bridge_mcp.Base.Exec.{Result, ok}
use ai_worker_bridge_mcp.Exceptions.{Exception}
use ai_worker_bridge_mcp.TaskState.{TaskRecord}
use ai_worker_bridge_mcp.Store.{Table, key_taken, put, upsert, get, find, clash, holds_key}
use ai_worker_bridge_mcp.Store.Unique.{IsValid, upsert-IsValid, key_eq_symm}
use ai_worker_bridge_mcp.Store.Reads.{get-upsert, merged}
use text.Mathlib.Text.{◌==◌ as str_eq}

not_of_any :
    (p q : TaskRecord → Bool) (rows : Table) {t : TaskRecord}
    → any q rows ≡ false
    → find p rows ≡ some t
    → q t ≡ false
unfolding find
not_of_any p q [] h e = cc
not_of_any p q (r ∷ rows) {t} h e = ground (arith, not_of_any p q rows {t = t})

not_holds_key :
    (u r s : TaskRecord)
    → u.idempotency_key ≡ r.idempotency_key
    → clash r s ≡ false
    → holds_key u s ≡ false
unfolding clash holds_key
not_holds_key u r s e h = ground (arith, key_eq_symm r.idempotency_key s.idempotency_key)

none_holds_key :
    (u r : TaskRecord) (rows : Table)
    → u.idempotency_key ≡ r.idempotency_key
    → any (λ s. clash r s) rows ≡ false
    → any (λ s. holds_key u s) rows ≡ false
none_holds_key u r [] e h = refl
none_holds_key u r (s ∷ rows) e h = ground (arith, not_holds_key u r s e, none_holds_key u r rows e)

own_row : (u r : TaskRecord) → r.task_id ≡ u.task_id → holds_key u r ≡ false
unfolding holds_key
own_row u r e = ground (arith, eq_iff r.task_id u.task_id)

other_row :
    (u r t : TaskRecord)
    → u.idempotency_key ≡ t.idempotency_key
    → clash r t ≡ false
    → holds_key u r ≡ false
unfolding clash holds_key
other_row u r t e h = ground arith

-- A row does not refuse a rewrite of itself: no other row has its key.
free_of_row :
    (t u : TaskRecord) (rows : Table)
    → IsValid rows
    → get t.task_id rows ≡ some t
    → u.task_id ≡ t.task_id
    → u.idempotency_key ≡ t.idempotency_key
    → any (λ r. holds_key u r) rows ≡ false
free_of_row t u [] v e hi hk = refl
free_of_row t u (r ∷ rows) (h, v) e hi hk = elim (Bool-cases (str_eq r.task_id t.task_id)) [
  | inl same ↦
      let e' : r ≡ t = unfold get find in ground arith in
      ground (
        arith,
        eq_iff r.task_id t.task_id,
        own_row u r,
        none_holds_key u r rows (rw (sym e') at hk) h,
      )
  | inr other ↦
      let e' : get t.task_id rows ≡ some t = unfold get find in ground arith in
      ground (
        arith,
        other_row u r t hk (
            not_of_any (λ s. str_eq s.task_id t.task_id) (λ s. clash r s) rows h
              (unfold get in e')),
        free_of_row t u rows v e' hi hk,
      )
]

-- `u` is a later version of the row `t`.
pub record SameRow (t u : TaskRecord) : Type 0 where
  pub id : u.task_id ≡ t.task_id
  pub key : u.idempotency_key ≡ t.idempotency_key
  pub created : u.created_at ≡ t.created_at

-- The outcome `out` of a write that replaces the row of the task `t` by `u`, and nothing else.
pub record Wrote (t u : TaskRecord) (rows : Table) (out : Result Exception Table) : Type 0 where
  pub next : Table
  pub done : out ≡ ok next
  pub valid : IsValid next
  pub own : get t.task_id next ≡ some u
  pub others : (j : String) → str_eq t.task_id j ≡ false → get j next ≡ get j rows

upsert_of_row :
    (t u : TaskRecord) (rows : Table)
    → IsValid rows
    → get t.task_id rows ≡ some t
    → SameRow t u
    → upsert u rows ≡ ok (put u rows)
unfolding upsert key_taken
upsert_of_row t u rows v e s = rw (free_of_row t u rows v e s.id s.key)

merged_of_SameRow : (t u : TaskRecord) → SameRow t u → merged u (some t) ≡ u
unfolding merged
merged_of_SameRow t u s = ground (arith, s.created)

-- Rewriting a stored row by a later version of it succeeds, and changes that row alone.
pub upsert-Wrote :
    (t u : TaskRecord) (rows : Table)
    → IsValid rows
    → get t.task_id rows ≡ some t
    → SameRow t u
    → Wrote t u rows (upsert u rows)
upsert-Wrote t u rows v e s =
    let done = upsert_of_row t u rows v e s in
    record {
      next = put u rows;
      done = done;
      valid = upsert-IsValid u rows v done;
      own = ground (
        arith,
        get-upsert t.task_id u rows {after = put u rows} done,
        eq_iff u.task_id t.task_id,
        merged_of_SameRow t u s,
        s.id,
      );
      others = λ j h. ground (arith, get-upsert j u rows {after = put u rows} done, s.id);
    }
