-- ===== src/Manager/Recovery.antt =====
-- manager.py, `start`: which tasks get a coroutine, by the recovery policy.
use ai_worker_bridge_mcp.Base.{
  String, ◌≡◌, ◌∙◌, refl, sym, ap, subst, Bool, true, false, not, ◌&&◌, ◌||◌, Option, none, some,
  List, [], ◌∷◌, any, Bool-cases, Option-cases, inl, inr, eq_iff, arith, if◌then◌else◌,
}
use ai_worker_bridge_mcp.Config.{RecoveryConfig}
use ai_worker_bridge_mcp.TaskState.{TaskRecord, is_terminal, state_eq, recovering}
use ai_worker_bridge_mcp.Manager.{TaskManager, emit}
use ai_worker_bridge_mcp.Manager.Background.{created, Run, lookup_run, lookup-put}
use ai_worker_bridge_mcp.Manager.Calls.{schedule, schedule_each, recovery_allows_replay}
use ai_worker_bridge_mcp.Manager.Admission.{schedule_known, schedule_new}
use text.Mathlib.Text.{◌==◌ as str_eq}

-- The policy lets the task run again: it is not over, and if it was interrupted it may be replayed.
unfoldable pub is_due : RecoveryConfig → TaskRecord → Bool
unfolding recovery_allows_replay
is_due recovery t =
    not (is_terminal t.state)
    && (not (state_eq t.state recovering) || recovery_allows_replay recovery t)

abbrev pub fresh_run : String → Run
fresh_run id = record { task_id = id; stage = created; cancelling = false }

-- The coroutine that is there, or a new one where it is asked for.
abbrev pub with_run : String → Bool → Option Run → Option Run
with_run id wanted (some run) = some run
with_run id true none = some (fresh_run id)
with_run id false none = none

with_run-twice :
    (id : String) (a b : Bool) (o : Option Run)
    → with_run id b (with_run id a o) ≡ with_run id (a || b) o
with_run-twice id a b (some run) = refl
with_run-twice id true b none = refl
with_run-twice id false b none = refl

with_run-false : (id : String) (o : Option Run) → with_run id false o ≡ o
with_run-false id none = refl
with_run-false id (some run) = refl

wanted_new :
    (id j : String) (b : Bool) (o : Option Run)
    → (b ≡ true → (id ≡ j) × (o ≡ none))
    → (if b then some (fresh_run id) else o) ≡ with_run j b o
wanted_new id j false o h = sym (with_run-false j o)
wanted_new id j true o h =
    let (same, absent) = h refl in rw absent (ap (λ i. some (fresh_run i)) same)

wanted_known :
    (j : String) (b : Bool) (o : Option Run) {r : Run}
    → (b ≡ true → o ≡ some r)
    → o ≡ with_run j b o
wanted_known j false o h = sym (with_run-false j o)
wanted_known j true o h = rw (h refl) refl

lookup-schedule :
    (id j : String) (m : TaskManager)
    → lookup_run j (schedule id m).background ≡ with_run j (str_eq id j) (lookup_run j m.background)
lookup-schedule id j m = elim (Option-cases (lookup_run id m.background)) [
  | inl e ↦ rw (schedule_new id m e) (
      lookup-put (fresh_run id) j m.background
      ∙ wanted_new id j (str_eq id j) (lookup_run j m.background) (λ b. (same b, at b e)))
  | inr (r, e) ↦
      rw (schedule_known id m e)
        (wanted_known j (str_eq id j) (lookup_run j m.background) {r = r} (λ b. at b e))
]
  where
    same : str_eq id j ≡ true → id ≡ j
    same b = (eq_iff id j).0 b

    at :
        str_eq id j ≡ true
        → {o : Option Run} → lookup_run id m.background ≡ o
        → lookup_run j m.background ≡ o
    at b {o} e = subst (λ i. lookup_run i m.background ≡ o) (same b) e

-- What the loop of `start` does with one task.
visited : TaskRecord → TaskManager → TaskManager
unfolding schedule_each
visited t m = schedule_each (t ∷ []) m

recovery-schedule : (id : String) (m : TaskManager) → (schedule id m).recovery ≡ m.recovery
recovery-schedule id m = elim (Option-cases (lookup_run id m.background)) [
  | inl e ↦ rw (schedule_new id m e) refl
  | inr (r, e) ↦ rw (schedule_known id m e) refl
]

-- A task that is not due leaves the coroutines alone; one that is due is scheduled.
data Visit (t : TaskRecord) (m n : TaskManager) : Type 0 where
  passed :
      is_due m.recovery t ≡ false
      → n.background ≡ m.background
      → n.recovery ≡ m.recovery
      → Visit t m n
  taken : is_due m.recovery t ≡ true → n ≡ schedule t.task_id m → Visit t m n

visited-Visit : (t : TaskRecord) (m : TaskManager) → Visit t m (visited t m)
visited-Visit t m = elim (Bool-cases (is_terminal t.state)) [
  | inl over ↦
      let n : visited t m ≡ m = unfold visited schedule_each in rw over refl in
      passed (unfold is_due in ground arith) (ap (λ (k : TaskManager). k.background) n)
        (ap (λ (k : TaskManager). k.recovery) n)
  | inr unfinished ↦
      elim (Bool-cases (state_eq t.state recovering && not (recovery_allows_replay m.recovery t))) [
        | inl held ↦
            let n : visited t m
                ≡ emit "task_recovery_deferred" "manual_required" (some t.worker_id)
                    (some t.task_id) m =
              unfold visited schedule_each in rw unfinished (rw held refl) in
            passed (unfold is_due in ground arith)
              (ap (λ (k : TaskManager). k.background) n ∙ unfold emit in refl)
              (ap (λ (k : TaskManager). k.recovery) n ∙ unfold emit in refl)
        | inr free ↦
            taken (unfold is_due in ground arith)
              (unfold visited schedule_each in rw unfinished (rw free refl))
      ]
]

lookup-Visit :
    (t : TaskRecord) (j : String) {m n : TaskManager}
    → Visit t m n
    → lookup_run j n.background
      ≡ with_run j (str_eq t.task_id j && is_due m.recovery t) (lookup_run j m.background)
lookup-Visit t j {m} {n} (passed late same kept) =
    let none_wanted : (str_eq t.task_id j && is_due m.recovery t) ≡ false = ground arith in
    ap (lookup_run j) same ∙ (rw none_wanted (sym (with_run-false j (lookup_run j m.background))))
lookup-Visit t j {m} {n} (taken due e) =
    let wanted : (str_eq t.task_id j && is_due m.recovery t) ≡ str_eq t.task_id j = ground arith in
    rw e (rw wanted (lookup-schedule t.task_id j m))

recovery-Visit : (t : TaskRecord) {m n : TaskManager} → Visit t m n → n.recovery ≡ m.recovery
recovery-Visit t (passed late same kept) = kept
recovery-Visit t {m} (taken due e) = rw e (recovery-schedule t.task_id m)

-- Some task of the list has the id and is due.
abbrev pub wants : RecoveryConfig → List TaskRecord → String → Bool
wants recovery ts j = any (λ t. str_eq t.task_id j && is_due recovery t) ts

pub lookup-schedule_each :
    (ts : List TaskRecord) (j : String) (m : TaskManager)
    → lookup_run j (schedule_each ts m).background
      ≡ with_run j (wants m.recovery ts j) (lookup_run j m.background)
lookup-schedule_each [] j m =
    unfold schedule_each in sym (with_run-false j (lookup_run j m.background))
lookup-schedule_each (t ∷ ts) j m =
    let v = visited-Visit t m in
    each_step t ts m
    ∙ lookup-schedule_each ts j (visited t m)
    ∙ (rw (recovery-Visit t v) (ap (with_run j (wants m.recovery ts j)) (lookup-Visit t j v)))
    ∙ with_run-twice j (str_eq t.task_id j && is_due m.recovery t) (wants m.recovery ts j)
        (lookup_run j m.background)
  where
    each_step :
        (t : TaskRecord) (ts : List TaskRecord) (m : TaskManager)
        → lookup_run j (schedule_each (t ∷ ts) m).background
          ≡ lookup_run j (schedule_each ts (visited t m)).background
    each_step t ts m = unfold visited schedule_each in refl
