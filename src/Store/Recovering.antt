-- ===== src/Store/Recovering.antt =====
-- store.py, `mark_recovering`: it never raises on a table whose keys are unique, marks every
-- interrupted task, and leaves every other row alone.
use ai_worker_bridge_mcp.Base.{
  ℕ, ◌+◌, String, ◌≡◌, ◌∙◌, refl, ap, ◌||◌, subst, Bool, true, false, Option, none, some, List, [],
  ◌∷◌, any, All, select, arith, Bool-cases, inl, inr, if◌then◌else◌,
}
use ai_worker_bridge_mcp.Base.Exec.{Result, ok}
use ai_worker_bridge_mcp.Exceptions.{Exception}
use ai_worker_bridge_mcp.TaskState.{recovering, pending, state_eq, mem_state, TaskRecord}
use ai_worker_bridge_mcp.Store.{
  Table, upsert, get, marked, mark_each, appended, mark_recovering, list_by_states,
  recoverable_states,
}
use ai_worker_bridge_mcp.Store.Unique.{IsValid}
use ai_worker_bridge_mcp.Store.Rewrites.{SameRow, Wrote, upsert-Wrote}
use ai_worker_bridge_mcp.Store.Selection.{
  IsDistinct, is_listed, AreRows, AreRows-others, select-IsDistinct, select-AreRows, All-select,
  not_listed_of_test, absent_of_none, listed_of_row, task_id-get,
}
use text.Mathlib.Text.{◌==◌ as str_eq}

-- What `mark_recovering` makes of a task.
abbrev pub WasMarked : TaskRecord → Option TaskRecord → Type 0
WasMarked t o =
    (stamp : String) × (o
      ≡ some (
          if state_eq t.state pending
          then t
          else record t { state = recovering; updated_at = stamp; dispatch_attempt_id = none }))

record Marks (tasks : List TaskRecord) (rows : Table)
    (out : Result Exception (Table × List TaskRecord)) : Type 0 where
  after : Table
  updated : List TaskRecord
  done : out ≡ ok (after, updated)
  valid : IsValid after
  others : (j : String) → is_listed tasks j ≡ false → get j after ≡ get j rows
  each : All (λ t. WasMarked t (get t.task_id after)) tasks
  rows_of : AreRows updated after
  ids : (j : String) → is_listed updated j ≡ is_listed tasks j

marked-SameRow : (stamp : String) (t : TaskRecord) → SameRow t (marked stamp t)
unfolding marked
marked-SameRow stamp t = record { id = refl; key = refl; created = refl }

-- The steps of the loop, with the writes shut.
mark_each-pending :
    (now : ℕ → String) (i : ℕ) (t : TaskRecord) (ts : List TaskRecord) (rows : Table)
    → state_eq t.state pending ≡ true
    → mark_each now i (t ∷ ts) rows ≡ appended t (mark_each now (i + 1) ts rows)
unfolding mark_each
mark_each-pending now i t ts rows h = ground arith

mark_each-marked :
    (now : ℕ → String) (i : ℕ) (t : TaskRecord) (ts : List TaskRecord) (rows next : Table)
    → state_eq t.state pending ≡ false
    → upsert (marked (now i) t) rows ≡ ok next
    → mark_each now i (t ∷ ts) rows ≡ appended (marked (now i) t) (mark_each now (i + 1) ts next)
unfolding mark_each
mark_each-marked now i t ts rows next h e = ground arith

Marks-pending :
    (t : TaskRecord) (ts : List TaskRecord) (rows : Table)
    {out : Result Exception (Table × List TaskRecord)}
    → state_eq t.state pending ≡ true
    → any (λ s. str_eq s.task_id t.task_id) ts ≡ false
    → get t.task_id rows ≡ some t
    → Marks ts rows out
    → Marks (t ∷ ts) rows (appended t out)
unfolding appended
Marks-pending t ts rows p d e m =
    let kept : get t.task_id m.after ≡ some t = m.others t.task_id d ∙ e in
    record {
      after = m.after;
      updated = t ∷ m.updated;
      done = rw m.done;
      valid = m.valid;
      others = λ j h. m.others j (ground arith);
      each = ((t.updated_at, rw p kept), m.each);
      rows_of = (kept, m.rows_of);
      ids = λ j. ap (λ b. str_eq t.task_id j || b) (m.ids j);
    }

Marks-marked :
    (stamp : String) (t : TaskRecord) (ts : List TaskRecord) (rows : Table)
    {wrote : Result Exception Table} {out : Result Exception (Table × List TaskRecord)}
    → state_eq t.state pending ≡ false
    → any (λ s. str_eq s.task_id t.task_id) ts ≡ false
    → (w : Wrote t (marked stamp t) rows wrote) → Marks ts w.next out
    → Marks (t ∷ ts) rows (appended (marked stamp t) out)
unfolding appended
Marks-marked stamp t ts rows p d w m =
    let own : get t.task_id m.after ≡ some (marked stamp t) = m.others t.task_id d ∙ w.own in
    record {
      after = m.after;
      updated = marked stamp t ∷ m.updated;
      done = rw m.done;
      valid = m.valid;
      others = λ j h. m.others j (ground arith) ∙ w.others j (ground arith);
      each = ((stamp, rw p (unfold marked in own)), m.each);
      rows_of = (unfold marked in own, m.rows_of);
      ids = λ j. unfold marked in ap (λ b. str_eq t.task_id j || b) (m.ids j);
    }

mark_each-Marks :
    (now : ℕ → String) (i : ℕ) (ts : List TaskRecord) (rows : Table)
    → IsValid rows
    → IsDistinct ts
    → AreRows ts rows
    → Marks ts rows (mark_each now i ts rows)
mark_each-Marks now i [] rows v d a = record {
  after = rows;
  updated = [];
  done = unfold mark_each in refl;
  valid = v;
  others = λ j h. refl;
  each = tt;
  rows_of = tt;
  ids = λ j. refl;
}
mark_each-Marks now i (t ∷ ts) rows v (d, ds) (e, a) =
    elim (Bool-cases (state_eq t.state pending)) [
      | inl p ↦
          rw (mark_each-pending now i t ts rows p)
            (Marks-pending t ts rows p d e (mark_each-Marks now (i + 1) ts rows v ds a))
      | inr p ↦
          let w = upsert-Wrote t (marked (now i) t) rows v e (marked-SameRow (now i) t) in
          rw (mark_each-marked now i t ts rows w.next p w.done) (
            Marks-marked (now i) t ts rows p d w (
              mark_each-Marks now (i + 1) ts w.next w.valid ds
                (AreRows-others t ts rows w.next w.others d a)))
    ]

-- The outcome of `mark_recovering` on the table `rows`.
pub record Recovered (rows : Table) (out : Result Exception (Table × List TaskRecord))
    : Type 0 where
  pub after : Table
  pub updated : List TaskRecord
  pub done : out ≡ ok (after, updated)
  pub valid : IsValid after
  -- A running, retrying or recovering row is recovering, with a new `updated_at` and no dispatch
  -- attempt; a pending row is as it was.
  pub interrupted :
      (j : String) (r : TaskRecord)
      → get j rows ≡ some r
      → mem_state r.state recoverable_states ≡ true
      → WasMarked r (get j after)
  -- A row in a terminal state is as it was.
  pub finished :
      (j : String) (r : TaskRecord)
      → get j rows ≡ some r
      → mem_state r.state recoverable_states ≡ false
      → get j after ≡ some r
  pub absent : (j : String) → get j rows ≡ none → get j after ≡ none
  pub listed : AreRows updated after
  pub complete :
      (j : String) (r : TaskRecord)
      → get j rows ≡ some r
      → mem_state r.state recoverable_states ≡ true
      → is_listed updated j ≡ true

is_recoverable : TaskRecord → Bool
is_recoverable r = mem_state r.state recoverable_states

Recovered-Marks :
    (rows : Table) {out : Result Exception (Table × List TaskRecord)}
    → IsValid rows
    → Marks (select is_recoverable rows) rows out
    → Recovered rows out
unfolding is_recoverable
Recovered-Marks rows v m = record {
  after = m.after;
  updated = m.updated;
  done = m.done;
  valid = m.valid;
  interrupted = λ j r e h.
      subst (λ i. WasMarked r (get i m.after)) (task_id-get j rows {r = r} e)
        (All-select (λ t. WasMarked t (get t.task_id m.after)) is_recoverable rows j m.each e h);
  finished = λ j r e h. m.others j (not_listed_of_test is_recoverable rows j {r = r} v e h) ∙ e;
  absent = λ j e. m.others j (absent_of_none is_recoverable rows j e) ∙ e;
  listed = m.rows_of;
  complete = λ j r e h. m.ids j ∙ listed_of_row is_recoverable rows j {r = r} e h;
}

-- On a table whose keys are unique, `mark_recovering` returns: every running, retrying or recovering
-- row is recovering afterwards, with no dispatch attempt; every other row is as it was; the tasks
-- that it lists are rows of the new table, every running, retrying, recovering or pending row is listed,
-- and the keys are still unique.
pub mark_recovering-Recovered :
    (now : ℕ → String) (rows : Table) → IsValid rows → Recovered rows (mark_recovering now rows)
unfolding mark_recovering list_by_states
mark_recovering-Recovered now rows v = Recovered-Marks rows v (
    unfold is_recoverable in
    mark_each-Marks now 0 (select is_recoverable rows) rows v
      (select-IsDistinct is_recoverable rows v) (select-AreRows is_recoverable rows v))
