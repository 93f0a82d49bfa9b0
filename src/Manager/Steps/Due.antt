-- ===== src/Manager/Steps/Due.antt =====
-- manager.py, `start`: the tasks that get a coroutine are the rows that are due.
use ai_worker_bridge_mcp.Base.{
  ℕ, String, ◌≡◌, ◌∙◌, refl, sym, ap, subst, Bool, true, false, ◌&&◌, Option, none, some, List, [],
  ◌∷◌, Bool-cases, Option-cases, inl, inr, eq_iff, arith, if◌then◌else◌, false≢true,
}
use ai_worker_bridge_mcp.Base.Exec.{Result}
use ai_worker_bridge_mcp.Exceptions.{Exception}
use ai_worker_bridge_mcp.Config.{RecoveryConfig}
use ai_worker_bridge_mcp.TaskState.{
  TaskState, TaskRecord, is_terminal, mem_state, recovering, pending, running, retrying, completed,
  failed, cancelled, timed_out,
}
use ai_worker_bridge_mcp.Store.{Table, get, recoverable_states}
use ai_worker_bridge_mcp.Store.Unique.{IsValid}
use ai_worker_bridge_mcp.Store.Selection.{is_listed, AreRows}
use ai_worker_bridge_mcp.Store.Recovering.{Recovered, mark_recovering-Recovered}
use ai_worker_bridge_mcp.Manager.{TaskManager}
use ai_worker_bridge_mcp.Manager.Background.{Run, lookup_run}
use ai_worker_bridge_mcp.Manager.Calls.{start}
use mathlib.Core.Option.{some-injective}
use text.Mathlib.Text.{◌==◌ as str_eq}
use ai_worker_bridge_mcp.Manager.Recovery.{is_due, fresh_run, with_run, wants, lookup-schedule_each}
use ai_worker_bridge_mcp.Manager.Steps.Schedules.{schedule_each-Scheduled}
use ai_worker_bridge_mcp.Manager.Steps.Restarts.{marked_started, marked_store, start_step}

-- The row of a task, if there is one, is due.
abbrev pub row_is_due : RecoveryConfig → Option TaskRecord → Bool
row_is_due recovery none = false
row_is_due recovery (some t) = is_due recovery t

wanted_row :
    (recovery : RecoveryConfig) (ts : List TaskRecord) (after : Table) (j : String)
    → AreRows ts after
    → wants recovery ts j ≡ true
    → row_is_due recovery (get j after) ≡ true
wanted_row recovery [] after j a h = absurd (false≢true h)
wanted_row recovery (t ∷ ts) after j (e, a) h =
    elim (Bool-cases (str_eq t.task_id j && is_due recovery t)) [
      | inl k ↦
          let same : t.task_id ≡ j = (eq_iff t.task_id j).0 (ground arith) in
          let found : get j after ≡ some t = subst (λ i. get i after ≡ some t) same e in
          rw found (ground arith)
      | inr k ↦ wanted_row recovery ts after j a (ground arith)
    ]

listed_wanted :
    (recovery : RecoveryConfig) (ts : List TaskRecord) (after : Table) (j : String) (u : TaskRecord)
    → AreRows ts after
    → get j after ≡ some u
    → is_due recovery u ≡ true
    → is_listed ts j ≡ true
    → wants recovery ts j ≡ true
listed_wanted recovery [] after j u a e d h = absurd (false≢true h)
listed_wanted recovery (t ∷ ts) after j u (f, a) e d h = elim (Bool-cases (str_eq t.task_id j)) [
  | inl k ↦
      let found : get j after ≡ some t =
        subst (λ i. get i after ≡ some t) ((eq_iff t.task_id j).0 k) f in
      let same : u ≡ t = some-injective u t (sym e ∙ found) in
      let due : is_due recovery t ≡ true = ap (is_due recovery) (sym same) ∙ d in ground arith
  | inr k ↦
      let rest : wants recovery ts j ≡ true =
        listed_wanted recovery ts after j u a e d (ground arith) in
      ground arith
]

over_or_recoverable :
    (s : TaskState) → mem_state s recoverable_states ≡ false → is_terminal s ≡ true
over_or_recoverable completed h = refl
over_or_recoverable failed h = refl
over_or_recoverable cancelled h = refl
over_or_recoverable timed_out h = refl
over_or_recoverable pending h = absurd (cc)
over_or_recoverable running h = absurd (cc)
over_or_recoverable recovering h = absurd (cc)
over_or_recoverable retrying h = absurd (cc)

due_open :
    (recovery : RecoveryConfig) (u : TaskRecord)
    → is_due recovery u ≡ true
    → is_terminal u.state ≡ false
unfolding is_due
due_open recovery u d = ground arith

module _ {rows : Table} {out : Result Exception (Table × List TaskRecord)} (r : Recovered rows out)
    (recovery : RecoveryConfig) (j : String) where
  due_listed :
      (u : TaskRecord)
      → get j r.after ≡ some u
      → is_due recovery u ≡ true
      → is_listed r.updated j ≡ true
  due_listed u e d = elim (Option-cases (get j rows)) [
    | inl absent ↦ absurd (cc (r.absent j absent, e))
    | inr (t, there) ↦ elim (Bool-cases (mem_state t.state recoverable_states)) [
      | inl h ↦ r.complete j t there h
      | inr h ↦
          let same : t ≡ u = some-injective t u (sym (r.finished j t there h) ∙ e) in
          let over : is_terminal u.state ≡ true =
            ap (λ (x : TaskRecord). is_terminal x.state) (sym same)
            ∙ over_or_recoverable t.state h in
          absurd (false≢true (sym (due_open recovery u d) ∙ over))
    ]
  ]

  -- The list that `mark_recovering` returns has the rows that are due, and the others are not.
  pub wants-row : wants recovery r.updated j ≡ row_is_due recovery (get j r.after)
  wants-row = elim (Bool-cases (wants recovery r.updated j)) [
    | inl h ↦ h ∙ sym (wanted_row recovery r.updated r.after j r.listed h)
    | inr h ↦
        h
        ∙ sym (elim (Option-cases (get j r.after)) [
          | inl e ↦ rw e refl
          | inr (u, e) ↦ elim (Bool-cases (is_due recovery u)) [
            | inl d ↦ absurd (
                false≢true (
                  sym h
                  ∙ listed_wanted recovery r.updated r.after j u r.listed e d (due_listed u e d)))
            | inr d ↦ rw e d
          ]
        ])
  ]

-- A new coroutine for a row that is due.
abbrev pub if_due : RecoveryConfig → String → Option TaskRecord → Option Run
if_due recovery j o = if row_is_due recovery o then some (fresh_run j) else none

with_run-none :
    (j : String) (b : Bool) → with_run j b none ≡ (if b then some (fresh_run j) else none)
with_run-none j true = refl
with_run-none j false = refl

from_idle :
    (j : String) (after : Table) (ts : List TaskRecord) (m : TaskManager)
    → m.background ≡ []
    → with_run j
        (wants (marked_started after m).recovery ts j)
        (lookup_run j (marked_started after m).background)
      ≡ (if wants m.recovery ts j then some (fresh_run j) else none)
unfolding marked_started
from_idle j after ts m idle = rw idle (unfold lookup_run in with_run-none j (wants m.recovery ts j))

-- After the start of a manager that is not started, has no coroutine and whose keys are unique, a task
-- has a coroutine exactly if it has a row whose state is not terminal, and which is not Recovering or
-- may be replayed by the recovery policy; the coroutine has not begun and was not cancelled.
pub start-Schedules :
    (now : ℕ → String) (m : TaskManager) (j : String)
    → m.started ≡ false
    → m.background ≡ []
    → IsValid m.store
    → lookup_run j (start now m).1.background ≡ if_due m.recovery j (get j (start now m).1.store)
start-Schedules now m j off idle valid =
    let r = mark_recovering-Recovered now m.store valid in
    let e = start_step now m off r.done in
    let s = schedule_each-Scheduled r.updated (marked_started r.after m) in
    rw e (
      lookup-schedule_each r.updated j (marked_started r.after m)
      ∙ from_idle j r.after r.updated m idle
      ∙ ap (λ b. if b then some (fresh_run j) else none) (wants-row r m.recovery j)
      ∙ ap (if_due m.recovery j) (sym (ap (get j) (s.store ∙ marked_store r.after m))))
