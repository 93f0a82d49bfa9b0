-- ===== src/Watchdog/Polling.antt =====
-- ai_watchdog/watchdog.py, `check_task`, `wait_for_task` and `main`. The answers of the bridge, and how
-- long each takes, are given; the clock goes on by what passes, and a sleep takes at least as long
-- as it was asked to.
use ai_worker_bridge_mcp.Base.{
  ℕ, zero, suc, ◌+◌, ◌-◌, Bool, true, false, ◌&&◌, Option, none, some, List, [], ◌∷◌, leb, ltb,
  is_nil, if◌then◌else◌,
}
use ai_worker_bridge_mcp.Base.Text.{Text, codes, text_eq, or_text}
use ai_worker_bridge_mcp.Base.Exec.{Result, ok, err, ◌>>=◌}
use ai_worker_bridge_mcp.Json
use ai_worker_bridge_mcp.Json.{or_json, Json, null, bool, int, neg, str, arr, obj, Fields, truthy}
use ai_worker_bridge_mcp.Watchdog.{
  Float, millis, negative, infinity, nan, ℤ, pos, negsuc, WatchdogConfig, WatchdogError,
  http_status, invalid_json, non_object, missing_state, reported, transient, too_many_transient,
  timed_out, unsleepable,
}
use ai_worker_bridge_mcp.Watchdog.Settings.{Outside, Arguments, load_config, config_with_overrides}

-- What comes back from the request: a body, an HTTP error with its body, or no answer.
pub data Response : Type 0 where
  body : Text → Response
  http_error : ℕ → Text → Response
  unreachable : Text → Response

-- A request: what comes back, the time until the next reading of the clock, and how much longer than
-- asked the sleep after it takes.
pub record Poll : Type 0 where
  pub response : Response
  pub took : ℕ
  pub overslept : ℕ

-- `json.loads` (`none` is a JSONDecodeError), and `str(value)` of a value that is no string.
pub record Reader : Type 0 where
  pub loads : Text → Option Json
  pub str_value : Json → Text

abbrev pub terminal_names : List Text
terminal_names = codes "Completed" ∷ codes "Failed" ∷ codes "Cancelled" ∷ codes "TimedOut" ∷ []

unfoldable pub is_named : Text → List Text → Bool
unfolding text_eq
is_named text [] = false
is_named text (name ∷ names) = if text_eq name text then true else is_named text names

-- `parsed.get("ok") is False`
unfoldable pub is_false : Option Json → Bool
is_false (some (bool false)) = true
is_false _ = false

-- When the deadline is: after no end for an infinite timeout, and not a number for a NaN. A deadline
-- that is in the past is taken to be now.
pub data Deadline : Type 0 where
  at : ℕ → Deadline
  never undefined : Deadline

unfoldable pub deadline_of : ℕ → Float → Deadline
deadline_of now (millis n) = at (now + n)
deadline_of now negative = at now
deadline_of now infinity = never
deadline_of now nan = undefined

-- `time.monotonic() >= deadline`
unfoldable pub expired : ℕ → Deadline → Bool
expired now (at t) = leb t now
expired now never = false
expired now undefined = false

min : ℕ → ℕ → ℕ
min a b = if ltb b a then b else a

-- How long `time.sleep(min(poll_interval, remaining))` is asked to sleep; `none` where it raises.
unfoldable pub pause : Float → ℕ → Option ℕ
unfolding min
pause (millis n) remaining = some (min n remaining)
pause infinity remaining = some remaining
pause negative remaining = none
pause nan remaining = none

unfoldable pub endless_pause : Float → Option ℕ
endless_pause (millis n) = some n
endless_pause _ = none

-- `sleep_until_next_poll`
unfoldable pub sleep_for : Float → ℕ → Deadline → Option ℕ
unfolding pause endless_pause
sleep_for interval now (at t) = if ltb now t then pause interval (t - now) else some 0
sleep_for interval now never = endless_pause interval
sleep_for interval now undefined = some 0

-- `transient_errors > config.max_transient_errors`
unfoldable pub exceeds : ℕ → ℤ → Bool
exceeds n (pos limit) = ltb limit n
exceeds n (negsuc k) = true

module _ (reader : Reader) where
  -- `str(value or "")`
  unfoldable pub text_of : Option Json → Text
  unfolding truthy
  text_of none = []
  text_of (some (str s)) = s
  text_of (some v) = if truthy v then reader.str_value v else []

  unfoldable pub checked_fields : Json → Result WatchdogError Fields
  unfolding is_false or_json text_of Json.get
  checked_fields (obj fs) =
      if is_false (Json.get (codes "ok") fs)
      then err (
          reported (
            or_text
              (text_of (or_json (Json.get (codes "error") fs) (Json.get (codes "message") fs)))
              (codes "bridge reported failure")))
      else ok fs
  checked_fields _ = err non_object

  read_body : Option Json → Result WatchdogError Fields
  unfolding checked_fields
  read_body none = err invalid_json
  read_body (some v) = checked_fields v

  -- `check_task`, on what comes back from the request
  unfoldable pub check_task : Response → Result WatchdogError Fields
  unfolding read_body
  check_task (body text) = read_body (reader.loads text)
  check_task (http_error code text) =
      if leb 500 code && leb code 599 then err (transient text) else err (http_status code text)
  check_task (unreachable text) = err (transient text)

  -- `str(result.get("state") or "")`
  unfoldable pub state_text : Fields → Text
  unfolding text_of Json.get
  state_text fs = text_of (Json.get (codes "state") fs)

  -- How the wait goes on: it ends, or it is back at the top of the loop.
  pub data Turn : Type 0 where
    ends : Result WatchdogError Fields → Turn
    again : ℕ → ℕ → Text → Turn

  -- The top of the loop after a sleep, with the number of transient errors and the last state.
  unfoldable pub after_sleep : Option ℕ → ℕ → ℕ → ℕ → Text → Turn
  after_sleep none now overslept errors last = ends (err unsleepable)
  after_sleep (some n) now overslept errors last = again (now + n + overslept) errors last

  -- The `except TransientHTTPError` branch, and what follows an answer.
  unfoldable pub on_reply :
      WatchdogConfig → Deadline → Poll → ℕ → ℕ → Text → Result WatchdogError Fields → Turn
  unfolding exceeds sleep_for state_text is_named after_sleep
  on_reply config deadline poll now errors last (err (transient text)) =
      if exceeds (errors + 1) config.max_transient_errors
      then ends (err (too_many_transient text))
      else after_sleep (sleep_for config.poll_interval now deadline) now poll.overslept (errors + 1)
          last
  on_reply config deadline poll now errors last (err e) = ends (err e)
  on_reply config deadline poll now errors last (ok fs) =
      if is_named (state_text fs) terminal_names
      then ends (ok fs)
      else if is_nil (state_text fs)
      then ends (err missing_state)
      else after_sleep (sleep_for config.poll_interval now deadline) now poll.overslept 0
          (state_text fs)

  -- One round of the loop of `wait_for_task`.
  unfoldable pub turn : WatchdogConfig → Deadline → Poll → ℕ → ℕ → Text → Turn
  unfolding expired check_task on_reply
  turn config deadline poll now errors last =
      if expired now deadline
      then ends (err (timed_out last))
      else on_reply config deadline poll (now + poll.took) errors last (check_task poll.response)

  -- `return`, `raise` or the next round.
  unfoldable pub resume :
      Turn
      → (ℕ → ℕ → Text → Option (Result WatchdogError Fields))
      → Option (Result WatchdogError Fields)
  resume (ends out) loop = some out
  resume (again later more state) loop = loop later more state

  -- The loop, for at most the given number of rounds; a poll's number is how many follow it.
  unfoldable pub wait_loop :
      WatchdogConfig
      → Deadline
      → (ℕ → Poll)
      → ℕ
      → ℕ
      → ℕ
      → Text
      → Option (Result WatchdogError Fields)
  unfolding turn resume
  wait_loop config deadline polls zero now errors last = none
  wait_loop config deadline polls (suc rounds) now errors last =
      resume (turn config deadline (polls rounds) now errors last)
        (λ later more state. wait_loop config deadline polls rounds later more state)

  unfoldable pub wait_for_task :
      WatchdogConfig → (ℕ → Poll) → ℕ → ℕ → Option (Result WatchdogError Fields)
  unfolding wait_loop deadline_of
  wait_for_task config polls rounds now =
      wait_loop config (deadline_of now config.timeout_seconds) polls rounds now 0 (codes "unknown")

  -- The exit status of `main`; an error that is no `WatchdogError` ends it with 1 too.
  unfoldable pub exit_status : Result WatchdogError Fields → ℕ
  exit_status (ok fs) = 0
  exit_status (err e) = 1

  waited : Result WatchdogError WatchdogConfig → (ℕ → Poll) → ℕ → ℕ → Option ℕ
  unfolding exit_status wait_for_task
  waited (err e) polls rounds now = some 1
  waited (ok config) polls rounds now = elim (wait_for_task config polls rounds now) [
    | none ↦ none
    | some out ↦ some (exit_status out)
  ]

  unfoldable pub main : Outside → Option Text → Arguments → (ℕ → Poll) → ℕ → ℕ → Option ℕ
  unfolding waited load_config config_with_overrides
  main outside env_file args polls rounds now =
      waited (load_config outside env_file >>= (λ config. ok (config_with_overrides config args)))
        polls rounds now
