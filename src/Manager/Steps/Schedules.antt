-- ===== src/Manager/Steps/Schedules.antt =====
-- manager.py, `_schedule` and the loop of `start`: coroutines are added, and none that sleeps.
use ai_worker_bridge_mcp.Base.{
  String, ◌≡◌, ◌∙◌, refl, sym, ap, subst, Bool, true, false, not, ◌&&◌, Option, some, List, [], ◌∷◌,
  inl, inr, Bool-cases, Option-cases, arith, if◌then◌else◌,
}
use ai_worker_bridge_mcp.TaskState.{TaskRecord, is_terminal, state_eq, recovering}
use ai_worker_bridge_mcp.Manager.{TaskManager, emit}
use ai_worker_bridge_mcp.Manager.Background.{created, sleeping, lookup_run, put_run, lookup-put}
use ai_worker_bridge_mcp.Manager.Calls.{schedule, schedule_each, recovery_allows_replay}
use ai_worker_bridge_mcp.Manager.Admission.{schedule_known, schedule_new}
use ai_worker_bridge_mcp.Manager.Touches.{SameTasks}
use ai_worker_bridge_mcp.Manager.Steps.{Waits, Waits-others}
use text.Mathlib.Text.{◌==◌ as str_eq}

pub record Scheduled (m n : TaskManager) : Type 0 where
  pub store : n.store ≡ m.store
  pub started : n.started ≡ m.started
  pub waits :
      (id : String) (task : TaskRecord) → Waits id (sleeping task) n → Waits id (sleeping task) m

pub Scheduled-refl : (m : TaskManager) → Scheduled m m
Scheduled-refl m = record { store = refl; started = refl; waits = λ id task w. w }

Scheduled-trans : {a b c : TaskManager} → Scheduled a b → Scheduled b c → Scheduled a c
Scheduled-trans f g = record {
  store = g.store ∙ f.store;
  started = g.started ∙ f.started;
  waits = λ id task w. f.waits id task (g.waits id task w);
}

pub SameTasks-Scheduled : {m n : TaskManager} → SameTasks m n → Scheduled m n
SameTasks-Scheduled s = record {
  store = s.store;
  started = s.started;
  waits = λ id task w. Waits-others (ap (lookup_run id) s.background) w;
}

added : String → TaskManager → TaskManager
added id m = record m {
  background = put_run (record { task_id = id; stage = created; cancelling = false }) m.background;
}

lookup-added :
    (id j : String) (m : TaskManager)
    → lookup_run j (added id m).background ≡ (
        if str_eq id j
        then some (record { task_id = id; stage = created; cancelling = false })
        else lookup_run j m.background)
unfolding added
lookup-added id j m =
    lookup-put (record { task_id = id; stage = created; cancelling = false }) j m.background

added-Waits :
    (id j : String) (m : TaskManager) {task : TaskRecord}
    → Waits j (sleeping task) (added id m)
    → Waits j (sleeping task) m
added-Waits id j m w = elim (Bool-cases (str_eq id j)) [
  | inl e ↦ absurd (ground (arith, lookup-added id j m, w.found, w.at))
  | inr e ↦ Waits-others (lookup-added id j m ∙ (rw e refl)) w
]

pub schedule-Scheduled : (id : String) (m : TaskManager) → Scheduled m (schedule id m)
schedule-Scheduled id m = elim (Option-cases (lookup_run id m.background)) [
  | inl e ↦ subst (Scheduled m) (sym (schedule_new id m e)) (
      unfold added in
      record { store = refl; started = refl; waits = λ j task w. added-Waits id j m w })
  | inr (r, e) ↦ subst (Scheduled m) (sym (schedule_known id m e)) (Scheduled-refl m)
]

emit-Scheduled :
    (event outcome : String) (worker task : Option String) (m : TaskManager)
    → Scheduled m (emit event outcome worker task m)
emit-Scheduled event outcome worker task m =
    SameTasks-Scheduled (unfold emit in record { store = refl; background = refl; started = refl })

if_Scheduled :
    (b : Bool) {m x y : TaskManager}
    → Scheduled m x
    → Scheduled m y
    → Scheduled m (if b then x else y)
if_Scheduled true f g = f
if_Scheduled false f g = g

pub schedule_each-Scheduled :
    (tasks : List TaskRecord) (m : TaskManager) → Scheduled m (schedule_each tasks m)
unfolding schedule_each
schedule_each-Scheduled [] m = Scheduled-refl m
schedule_each-Scheduled (t ∷ ts) m =
    Scheduled-trans
      (if_Scheduled (is_terminal t.state) (Scheduled-refl m) (
        if_Scheduled (state_eq t.state recovering && not (recovery_allows_replay m.recovery t))
          (emit-Scheduled "task_recovery_deferred" "manual_required" (some t.worker_id)
            (some t.task_id) m)
          (schedule-Scheduled t.task_id m)))
      (schedule_each-Scheduled ts _)
