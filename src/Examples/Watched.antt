-- ===== src/Examples/Watched.antt =====
-- The theorems of the watchdog on concrete files and answers.
use ai_worker_bridge_mcp.Base.{
  ℕ, zero, suc, ◌+◌, ◌≤◌, ◌<◌, ◌≡◌, refl, none, some, [], ◌∷◌, true, arith,
}
use ai_worker_bridge_mcp.Base.Text.{Text, codes}
use ai_worker_bridge_mcp.Base.Exec.{Result, ok}
use ai_worker_bridge_mcp.Json.{Fields, str, obj, field, end}
use ai_worker_bridge_mcp.Watchdog.{millis, nan, pos, WatchdogConfig, WatchdogError}
use ai_worker_bridge_mcp.Watchdog.Settings.{Outside, load_config, parse_env_file}
use ai_worker_bridge_mcp.Watchdog.Polling.{
  Poll, Reader, body, is_named, terminal_names, state_text, wait_for_task, check_task,
}
use ai_worker_bridge_mcp.Watchdog.Waiting.{span, wait_for_task_ends}
use ai_worker_bridge_mcp.Watchdog.Endings.{GoesOn, wait_for_task_final, wait_for_task_endless}
use ai_worker_bridge_mcp.Watchdog.Validated.{IsAccepted, load_config-IsAccepted}

-- No variable is set, and a text that is a number reads 5 seconds.
abbrev outside : Outside
outside = record { environ = λ name. none; float_of = λ text. some (millis 5000) }

abbrev env_file : Text
env_file = codes "# bridge\nAI_BRIDGE_MCP_HOST = 'bridge/'\r\nAI_BRIDGE_PORT=8080\nnonsense\n"

file_values :
    parse_env_file (some env_file)
    ≡ (codes "AI_BRIDGE_MCP_HOST", codes "bridge/") ∷ (codes "AI_BRIDGE_PORT", codes "8080") ∷ []
unfolding parse_env_file
file_values = refl

abbrev config : WatchdogConfig
config = record {
  base_url = codes "http://bridge:8080";
  api_key = [];
  poll_interval = millis 2000;
  timeout_seconds = millis 1800000;
  request_timeout = millis 15000;
  max_transient_errors = pos 5;
}

loaded : load_config outside (some env_file) ≡ ok config
unfolding load_config
loaded = refl

load_config-IsAccepted_example : IsAccepted config
load_config-IsAccepted_example = load_config-IsAccepted outside (some env_file) loaded

-- Every body reads as a task that is running, but the one that says it is done.
abbrev fields : Text → Fields
fields state = field (codes "state") (str state) end

abbrev reader : Reader
reader = record { loads = λ text. some (obj (fields text)); str_value = λ v. [] }

abbrev running_poll : ℕ → Poll
running_poll i = record { response = body (codes "Running"); took = 10; overslept = 1 }

abbrev quick : WatchdogConfig
quick = record config { timeout_seconds = millis 3000 }

wait_for_task_ends_example :
    (rounds : ℕ) × (3000 ≤ span 2000 rounds)
    × (span 2000 rounds < 3000 + 2000)
    × (out : Result WatchdogError Fields) × (wait_for_task reader quick running_poll
          (suc rounds)
          100
        ≡ some out)
wait_for_task_ends_example =
    wait_for_task_ends reader quick 2000 3000 running_poll 100 refl refl (omega arith)

abbrev done_poll : ℕ → Poll
done_poll zero = record { response = body (codes "Completed"); took = 10; overslept = 1 }
done_poll (suc i) = running_poll i

waited : wait_for_task reader quick done_poll 2 100 ≡ some (ok (fields (codes "Completed")))
unfolding wait_for_task
waited = refl

wait_for_task_final_example :
    is_named (state_text reader (fields (codes "Completed"))) terminal_names ≡ true
wait_for_task_final_example =
    wait_for_task_final reader quick done_poll 2 100 (fields (codes "Completed")) waited

running-GoesOn : (i : ℕ) → GoesOn reader (running_poll i)
unfolding check_task state_text is_named
running-GoesOn i = record {
  fields = fields (codes "Running");
  answer = refl;
  open_state = refl;
  present = refl;
}

wait_for_task_endless_example :
    wait_for_task reader (record config { timeout_seconds = nan }) running_poll 7 100 ≡ none
wait_for_task_endless_example =
    wait_for_task_endless reader (record config { timeout_seconds = nan }) running_poll 7 100 refl
      running-GoesOn
