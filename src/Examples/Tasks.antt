-- ===== src/Examples/Tasks.antt =====
-- The theorems of TaskState on concrete tasks.
use ai_worker_bridge_mcp.Base.{◌≡◌, refl, none, false≢true}
use ai_worker_bridge_mcp.Base.Exec.{ok}
use ai_worker_bridge_mcp.TaskState.{running, transition, moved}
use ai_worker_bridge_mcp.TaskState.Transitions.{IsStamped, transition-IsStamped}
use ai_worker_bridge_mcp.Examples.Data.{waiting}

waiting-IsStamped : IsStamped waiting
waiting-IsStamped = record { completed_iff = refl; started_if = λ e. absurd (false≢true e) }

dispatches : transition "t1" waiting running none none ≡ ok (moved "t1" waiting running none none)
unfolding transition
dispatches = refl

transition-IsStamped_example : IsStamped (moved "t1" waiting running none none)
transition-IsStamped_example =
    transition-IsStamped "t1" waiting running none none waiting-IsStamped dispatches
