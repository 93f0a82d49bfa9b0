-- ===== src/Manager/Touches.antt =====
-- manager.py: what the parts of `_run_task` for one task do to the table. They keep its keys unique,
-- change no row of another task, and change no row in a terminal state.
use ai_worker_bridge_mcp.Base.{
  String, ◌≡◌, ◌∙◌, ◌⊎◌, false≢true, refl, sym, ap, subst, true, false, Option, none, some, arith,
  eq_iff, Bool-cases, inl, inr,
}
use ai_worker_bridge_mcp.Base.Text.{Text}
use ai_worker_bridge_mcp.Base.Exec.{Result, ok, err}
use ai_worker_bridge_mcp.Exceptions.{Exception}
use ai_worker_bridge_mcp.Json.{Json}
use ai_worker_bridge_mcp.TaskState.{
  TaskState, is_terminal, mem_state, allowed_transitions, TaskRecord, transition, moved,
}
use ai_worker_bridge_mcp.TaskState.Lifecycle.{Lives, stays, Lives-trans, Lives-same, onward, move}
use ai_worker_bridge_mcp.Store.{Table, get, upsert}
use ai_worker_bridge_mcp.Store.Unique.{IsValid, upsert-IsValid}
use ai_worker_bridge_mcp.Store.Reads.{merged, get-upsert}
use ai_worker_bridge_mcp.Manager.{TaskManager, save, settle, saved_as, count_completed, continue}
use text.Mathlib.Text.{◌==◌ as str_eq}

-- Every row in a terminal state is as it was.
abbrev pub Keeps : Table → Table → Type 0
Keeps rows after =
    (j : String) (t : TaskRecord)
    → get j rows ≡ some t
    → is_terminal t.state ≡ true
    → get j after ≡ some t

-- The abstract view of the row of a task.
unfoldable pub phase_of : Option TaskRecord → Option TaskState
phase_of none = none
phase_of (some t) = some t.state

abbrev pub phase : String → Table → Option TaskState
phase id rows = phase_of (get id rows)

pub phase_of_row : {o : Option TaskRecord} {t : TaskRecord} → o ≡ some t → phase_of o ≡ some t.state
phase_of_row e = ap phase_of e ∙ unfold phase_of in refl

-- What work for the task `id` may do to the table.
pub record Rewrites (id : String) (rows after : Table) : Type 0 where
  pub valid : IsValid rows → IsValid after
  pub keeps : Keeps rows after
  pub others : (j : String) → str_eq id j ≡ false → get j after ≡ get j rows
  pub lives : Lives (phase id rows) (phase id after)

-- The same, for the manager: the coroutines and `_started` are left alone.
pub record Touches (id : String) (m n : TaskManager) : Type 0 where
  pub valid : IsValid m.store → IsValid n.store
  pub keeps : Keeps m.store n.store
  pub others : (j : String) → str_eq id j ≡ false → get j n.store ≡ get j m.store
  pub lives : Lives (phase id m.store) (phase id n.store)
  pub background : n.background ≡ m.background
  pub started : n.started ≡ m.started

pub Touches-refl : (id : String) (m : TaskManager) → Touches id m m
Touches-refl id m = record {
  valid = λ v. v;
  keeps = λ j t e h. e;
  others = λ j h. refl;
  lives = stays;
  background = refl;
  started = refl;
}

pub Touches-trans :
    {id : String} {a b c : TaskManager} → Touches id a b → Touches id b c → Touches id a c
Touches-trans f g = record {
  valid = λ v. g.valid (f.valid v);
  keeps = λ j t e h. g.keeps j t (f.keeps j t e h) h;
  others = λ j h. g.others j h ∙ f.others j h;
  lives = Lives-trans f.lives g.lives;
  background = g.background ∙ f.background;
  started = g.started ∙ f.started;
}

-- A change of the counters and of the audit log touches no task.
pub record SameTasks (m n : TaskManager) : Type 0 where
  pub store : n.store ≡ m.store
  pub background : n.background ≡ m.background
  pub started : n.started ≡ m.started

pub Touches-SameTasks :
    {id : String} {a b c : TaskManager} → Touches id a b → SameTasks b c → Touches id a c
Touches-SameTasks {id} f s = record {
  valid = λ v. rw s.store (f.valid v);
  keeps = λ j t e h. rw s.store (f.keeps j t e h);
  others = λ j h. ap (get j) s.store ∙ f.others j h;
  lives = Lives-trans f.lives (Lives-same (ap (phase id) (sym s.store)));
  background = s.background ∙ f.background;
  started = s.started ∙ f.started;
}

-- No row of the task is in a terminal state.
abbrev pub IsOpen : String → Table → Type 0
IsOpen id rows = (t : TaskRecord) → get id rows ≡ some t → is_terminal t.state ≡ false

-- The state of the row after an upsert.
pub upsert-get :
    (u : TaskRecord) (rows : Table) {after : Table}
    → upsert u rows ≡ ok after
    → (w : TaskRecord) × (get u.task_id after ≡ some w) × (w.state ≡ u.state)
unfolding merged
upsert-get u rows {after} e = (
  merged u (get u.task_id rows),
  ground (arith, get-upsert u.task_id u rows {after = after} e, eq_iff u.task_id u.task_id),
  ground arith,
)

pub upsert-phase :
    (u : TaskRecord) (rows : Table) {after : Table}
    → upsert u rows ≡ ok after
    → phase u.task_id after ≡ some u.state
upsert-phase u rows {after} e =
    let (w, found, same) = upsert-get u rows {after = after} e in phase_of_row found ∙ ap some same

upsert-Rewrites :
    (u : TaskRecord) (rows : Table) {after : Table}
    → IsOpen u.task_id rows
    → Lives (phase u.task_id rows) (some u.state)
    → upsert u rows ≡ ok after
    → Rewrites u.task_id rows after
upsert-Rewrites u rows {after} unfinished life e = record {
  valid = λ v. upsert-IsValid u rows {after = after} v e;
  keeps = λ j t h terminal. kept j t h terminal (Bool-cases (str_eq u.task_id j));
  others = λ j h. ground (arith, get-upsert j u rows {after = after} e);
  lives = Lives-trans life (Lives-same (sym (upsert-phase u rows {after = after} e)));
}
  where
    kept :
        (j : String) (t : TaskRecord)
        → get j rows ≡ some t
        → is_terminal t.state ≡ true
        → (str_eq u.task_id j ≡ true) ⊎ (str_eq u.task_id j ≡ false)
        → get j after ≡ some t
    kept j t h terminal (inl same) =
        let e' : get u.task_id rows ≡ some t =
          ap (λ i. get i rows) ((eq_iff u.task_id j).0 same) ∙ h in
        absurd (false≢true (sym (unfinished t e') ∙ terminal))
    kept j t h terminal (inr other) = ground (arith, get-upsert j u rows {after = after} e)

-- How an upsert in the manager's table ends: it raises and changes nothing, or the row is written.
pub data Saved (u : TaskRecord) (m : TaskManager)
    : Result Exception TaskRecord × TaskManager → Type 0 where
  raised : (e : Exception) → Saved u m (err e, m)
  stored : (rows : Table) → upsert u m.store ≡ ok rows → Saved u m (ok u, record m { store = rows })

saved_by :
    Result Exception Table → TaskRecord → TaskManager → Result Exception TaskRecord × TaskManager
saved_by (ok rows) u m = (ok u, record m { store = rows })
saved_by (err e) u m = (err e, m)

saved_by-Saved :
    (r : Result Exception Table) (u : TaskRecord) (m : TaskManager)
    → upsert u m.store ≡ r
    → Saved u m (saved_by r u m)
unfolding saved_by
saved_by-Saved (ok rows) u m e = stored rows e
saved_by-Saved (err x) u m e = raised x

save_step : (u : TaskRecord) (m : TaskManager) → save u m ≡ saved_by (upsert u m.store) u m
unfolding save saved_by
save_step u m = ground arith

pub save-Saved : (u : TaskRecord) (m : TaskManager) → Saved u m (save u m)
save-Saved u m = rw (save_step u m) (saved_by-Saved (upsert u m.store) u m refl)

pub Saved-Touches :
    {u : TaskRecord} {m : TaskManager} {out : Result Exception TaskRecord × TaskManager}
    → Saved u m out
    → IsOpen u.task_id m.store
    → Lives (phase u.task_id m.store) (some u.state)
    → Touches u.task_id m out.1
Saved-Touches {u} {m} (raised e) unfinished life = Touches-refl u.task_id m
Saved-Touches {u} {m} (stored rows done) unfinished life =
    let w = upsert-Rewrites u m.store {after = rows} unfinished life done in
    record {
      valid = w.valid;
      keeps = w.keeps;
      others = w.others;
      lives = w.lives;
      background = refl;
      started = refl;
    }

counted_same :
    {u : TaskRecord} {m : TaskManager} {out : Result Exception TaskRecord × TaskManager}
    → Saved u m out
    → SameTasks out.1 (continue out (λ t n. (ok t, count_completed t n))).1
counted_same (raised e) = record { store = refl; background = refl; started = refl }
counted_same (stored rows done) =
    unfold count_completed in record { store = refl; background = refl; started = refl }

saved_as_step : (u : TaskRecord) (m : TaskManager) → SameTasks (save u m).1 (saved_as (ok u) m).1
saved_as_step u m = unfold saved_as in counted_same (save-Saved u m)

pub transition-task_id :
    (now : String) (t : TaskRecord) (target : TaskState) (error : Option Text)
    (result : Option Json) {u : TaskRecord}
    → transition now t target error result ≡ ok u
    → u ≡ moved now t target error result
unfolding transition
transition-task_id now t target error result e = ground arith

transition_allowed :
    (now : String) (t : TaskRecord) (target : TaskState) (error : Option Text)
    (result : Option Json) {u : TaskRecord}
    → transition now t target error result ≡ ok u
    → mem_state target (allowed_transitions t.state) ≡ true
unfolding transition
transition_allowed now t target error result e = ground arith

-- Saving a version of a task whose row is open touches that task only.
pub save-Touches :
    (u : TaskRecord) (id : String) (m : TaskManager)
    → u.task_id ≡ id
    → IsOpen id m.store
    → Lives (phase id m.store) (some u.state)
    → Touches id m (save u m).1
save-Touches u id m own unfinished life =
    subst (λ i. Touches i m (save u m).1) own
      (Saved-Touches (save-Saved u m) (subst (λ i. IsOpen i m.store) (sym own) unfinished)
        (subst (λ i. Lives (phase i m.store) (some u.state)) (sym own) life))

-- What an accepted transition of a task makes of it.
pub record IsNext (id : String) (rows : Table) (u : TaskRecord) : Type 0 where
  pub own : u.task_id ≡ id
  pub life : Lives (phase id rows) (some u.state)

-- A transition of a task whose state the row's state leads to.
pub transition-later :
    (now : String) (t : TaskRecord) (target : TaskState) (error : Option Text)
    (result : Option Json) (id : String) (rows : Table) {u : TaskRecord}
    → IsNext id rows t
    → transition now t target error result ≡ ok u
    → IsNext id rows u
transition-later now t target error result id rows {u} held e =
    let made : u ≡ moved now t target error result =
      transition-task_id now t target error result e in
    subst (IsNext id rows) (sym made) (
      unfold moved in
      record {
        own = held.own;
        life = onward held.life (move (transition_allowed now t target error result e));
      })

saved_as-Touches :
    (r : Result Exception TaskRecord) (id : String) (m : TaskManager)
    → ((u : TaskRecord) → r ≡ ok u → IsNext id m.store u)
    → IsOpen id m.store
    → Touches id m (saved_as r m).1
saved_as-Touches (err e) id m next unfinished = unfold saved_as in Touches-refl id m
saved_as-Touches (ok u) id m next unfinished =
    let v = next u refl in
    Touches-SameTasks (save-Touches u id m v.own unfinished v.life) (saved_as_step u m)

-- Settling the open row of a task touches that task only.
pub settle-Touches :
    (now : String) (target : TaskState) (error : Option Text) (result : Option Json)
    (latest : TaskRecord) (id : String) (m : TaskManager)
    → latest.task_id ≡ id
    → phase id m.store ≡ some latest.state
    → IsOpen id m.store
    → Touches id m (settle now target error result latest m).1
unfolding settle
settle-Touches now target error result latest id m own at unfinished =
    saved_as-Touches (transition now latest target error result) id m
      (λ u e.
        transition-later now latest target error result id m.store
          (record { own = own; life = Lives-same at }) e)
      unfinished
