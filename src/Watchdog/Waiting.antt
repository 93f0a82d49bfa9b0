-- ===== src/Watchdog/Waiting.antt =====
-- ai_watchdog/watchdog.py, `wait_for_task`: when the wait ends, and with what.
use ai_worker_bridge_mcp.Base.{
  ℕ, zero, suc, ◌+◌, ◌≤◌, ◌<◌, leb, ◌≡◌, ◌∙◌, refl, sym, ap, some, arith, is_nil, Bool-cases, ◌⊎◌,
  inl, inr,
}
use ai_worker_bridge_mcp.Base.Text.{Text, codes}
use ai_worker_bridge_mcp.Base.Exec.{Result, ok, err}
use ai_worker_bridge_mcp.Json.{Fields}
use ai_worker_bridge_mcp.Watchdog.{
  millis, WatchdogConfig, WatchdogError, http_status, transient, timed_out,
}
use ai_worker_bridge_mcp.Watchdog.Polling.{
  Poll, Reader, Deadline, at, deadline_of, expired, sleep_for, pause, exceeds, terminal_names,
  is_named, check_task, state_text, Turn, ends, again, after_sleep, on_reply, turn, resume,
  wait_loop, wait_for_task,
}

-- How far `rounds` sleeps of `interval` reach.
abbrev pub span : ℕ → ℕ → ℕ
span interval zero = 0
span interval (suc rounds) = interval + span interval rounds

-- How many intervals make up the timeout, rounded up.
intervals :
    (interval timeout : ℕ)
    → 0 < interval
    → (rounds : ℕ) × (timeout ≤ span interval rounds) × (span interval rounds < timeout + interval)
intervals interval zero positive = (0, omega arith, omega arith)
intervals interval (suc timeout) positive =
    let (rounds, enough, few) = intervals interval timeout positive in
    elim (Bool-cases (leb (suc timeout) (span interval rounds))) [
      | inl h ↦ (rounds, ground (arith, h), omega arith)
      | inr h ↦
          let less : span interval rounds < suc timeout = ground (arith, h) in
          (suc rounds, omega arith, omega arith)
    ]

module _ (reader : Reader) where
  -- A turn that goes on has slept to the deadline or for the whole interval.
  after_sleep_advances :
      (interval now d overslept errors : ℕ) (last : Text) {later more : ℕ} {state : Text} (r : ℕ)
      → after_sleep reader (sleep_for (millis interval) now (at d)) now overslept errors last
        ≡ again later more state
      → d ≤ now + (interval + r)
      → d ≤ later + r
  unfolding after_sleep sleep_for pause
  after_sleep_advances interval now d overslept errors last {later} {more} {state} r e h =
      ground arith

  slept_advances :
      (config : WatchdogConfig) (interval now d overslept errors : ℕ) (last : Text) {later more : ℕ}
      {state : Text} (r : ℕ)
      → config.poll_interval ≡ millis interval
      → after_sleep reader (sleep_for config.poll_interval now (at d)) now overslept errors last
        ≡ again later more state
      → d ≤ now + (interval + r)
      → d ≤ later + r
  slept_advances config interval now d overslept errors last r p e h =
      after_sleep_advances interval now d overslept errors last r
        (sym (ap (λ x. after_sleep reader (sleep_for x now (at d)) now overslept errors last) p)
          ∙ e)
        h

  on_reply_advances :
      (config : WatchdogConfig) (interval d : ℕ) (poll : Poll) (now errors : ℕ) (last : Text)
      (reply : Result WatchdogError Fields) {later more : ℕ} {state : Text} (r : ℕ)
      → config.poll_interval ≡ millis interval
      → on_reply reader config (at d) poll now errors last reply ≡ again later more state
      → d ≤ now + (interval + r)
      → d ≤ later + r
  on_reply_advances config interval d poll now errors last (err (transient text)) {later} {more}
        {state} r p e h =
      elim (Bool-cases (exceeds (errors + 1) config.max_transient_errors)) [
        | inl x ↦ absurd (unfold on_reply in ground arith)
        | inr x ↦
            slept_advances config interval now d poll.overslept (errors + 1) last {more = more}
              {state = state} r p (unfold on_reply in ground arith) h
      ]
  on_reply_advances config interval d poll now errors last (err (http_status a b)) r p e h =
      absurd (unfold on_reply in cc)
  on_reply_advances config interval d poll now errors last (err _) r p e h =
      absurd (unfold on_reply in cc)
  on_reply_advances config interval d poll now errors last (ok fs) {later} {more} {state} r p e h =
      elim (Bool-cases (is_named (state_text reader fs) terminal_names)) [
        | inl x ↦ absurd (unfold on_reply in ground arith)
        | inr x ↦ elim (Bool-cases (is_nil (state_text reader fs))) [
          | inl y ↦ absurd (unfold on_reply in ground arith)
          | inr y ↦
              slept_advances config interval now d poll.overslept 0 (state_text reader fs)
                {more = more} {state = state} r p (unfold on_reply in ground arith) h
        ]
      ]

  turn_advances :
      (config : WatchdogConfig) (interval d : ℕ) (poll : Poll) (now errors : ℕ) (last : Text)
      {later more : ℕ} {state : Text} (r : ℕ)
      → config.poll_interval ≡ millis interval
      → turn reader config (at d) poll now errors last ≡ again later more state
      → d ≤ now + (interval + r)
      → d ≤ later + r
  turn_advances config interval d poll now errors last {later} {more} {state} r p e h =
      elim (Bool-cases (expired now (at d))) [
        | inl x ↦ absurd (unfold turn in ground arith)
        | inr x ↦
            on_reply_advances config interval d poll (now + poll.took) errors last
              (check_task reader poll.response) {more = more} {state = state} r p
              (unfold turn in ground arith) (omega arith)
      ]

  pub loop_step :
      (config : WatchdogConfig) (deadline : Deadline) (polls : ℕ → Poll) (rounds now errors : ℕ)
      (last : Text) (later more : ℕ) (state : Text)
      → turn reader config deadline (polls rounds) now errors last ≡ again later more state
      → wait_loop reader config deadline polls (suc rounds) now errors last
        ≡ wait_loop reader config deadline polls rounds later more state
  loop_step config deadline polls rounds now errors last later more state e =
      unfold wait_loop in
      ap (λ t. resume reader t (λ l m s. wait_loop reader config deadline polls rounds l m s)) e
      ∙ unfold resume in refl

  pub loop_end :
      (config : WatchdogConfig) (deadline : Deadline) (polls : ℕ → Poll) (rounds now errors : ℕ)
      (last : Text) (out : Result WatchdogError Fields)
      → turn reader config deadline (polls rounds) now errors last ≡ ends out
      → wait_loop reader config deadline polls (suc rounds) now errors last ≡ some out
  loop_end config deadline polls rounds now errors last out e =
      unfold wait_loop in
      ap (λ t. resume reader t (λ l m s. wait_loop reader config deadline polls rounds l m s)) e
      ∙ unfold resume in refl

  expired_ends :
      (config : WatchdogConfig) (d : ℕ) (poll : Poll) (now errors : ℕ) (last : Text)
      → d ≤ now
      → turn reader config (at d) poll now errors last ≡ ends (err (timed_out last))
  unfolding turn expired
  expired_ends config d poll now errors last h = ground arith

  pub Turn-cases :
      (t : Turn reader)
      → ((out : Result WatchdogError Fields) × (t ≡ ends out))
        ⊎ ((later : ℕ) × (more : ℕ) × (state : Text) × (t ≡ again later more state))
  Turn-cases (ends out) = inl (out, refl)
  Turn-cases (again later more state) = inr (later, more, state, refl)

  wait_loop_ends :
      (config : WatchdogConfig) (interval d : ℕ) (polls : ℕ → Poll) (rounds now errors : ℕ)
      (last : Text)
      → config.poll_interval ≡ millis interval
      → d ≤ now + span interval rounds
      → (out : Result WatchdogError Fields) × (wait_loop reader config
            (at d)
            polls
            (suc rounds)
            now
            errors
            last
          ≡ some out)
  wait_loop_ends config interval d polls zero now errors last p h = (
    err (timed_out last),
    loop_end config (at d) polls zero now errors last (err (timed_out last))
        (expired_ends config d (polls zero) now errors last (omega arith)),
  )
  wait_loop_ends config interval d polls (suc rounds) now errors last p h =
      elim (Turn-cases (turn reader config (at d) (polls (suc rounds)) now errors last)) [
        | inl (out, e) ↦ (out, loop_end config (at d) polls (suc rounds) now errors last out e)
        | inr (later, more, state, e) ↦
            let (out, f) = wait_loop_ends config interval d polls rounds later more state p (
              turn_advances config interval d (polls (suc rounds)) now errors last {more = more}
                {state = state} (span interval rounds) p e h) in
            (out, loop_step config (at d) polls (suc rounds) now errors last later more state e ∙ f)
      ]

  ends_within :
      (config : WatchdogConfig) (interval timeout : ℕ) (polls : ℕ → Poll) (rounds now : ℕ)
      → config.poll_interval ≡ millis interval
      → config.timeout_seconds ≡ millis timeout
      → timeout ≤ span interval rounds
      → (out : Result WatchdogError Fields) × (wait_for_task reader config polls (suc rounds) now
          ≡ some out)
  ends_within config interval timeout polls rounds now p t h =
      let (out, e) =
        wait_loop_ends config interval (now + timeout) polls rounds now 0 (codes "unknown") p
          (omega arith) in
      (out, begun ∙ e)
    where
      begun :
          wait_for_task reader config polls (suc rounds) now
          ≡ wait_loop reader config (at (now + timeout)) polls (suc rounds) now 0 (codes "unknown")
      begun =
          unfold wait_for_task deadline_of in
          ap
            (λ x.
              wait_loop reader config (deadline_of now x) polls (suc rounds) now 0
                (codes "unknown"))
            t

  -- With a poll interval and a timeout that are numbers of milliseconds, the interval not zero, the wait is
  -- over after at most one more round than the timeout has intervals, rounded up, whatever the bridge
  -- answers and however long it takes.
  pub wait_for_task_ends :
      (config : WatchdogConfig) (interval timeout : ℕ) (polls : ℕ → Poll) (now : ℕ)
      → config.poll_interval ≡ millis interval
      → config.timeout_seconds ≡ millis timeout
      → 0 < interval
      → (rounds : ℕ) × (timeout ≤ span interval rounds)
        × (span interval rounds < timeout + interval)
        × (out : Result WatchdogError Fields) × (wait_for_task reader config polls (suc rounds) now
            ≡ some out)
  wait_for_task_ends config interval timeout polls now p t positive =
      let (rounds, enough, few) = intervals interval timeout positive in
      let (out, e) = ends_within config interval timeout polls rounds now p t enough in
      (rounds, enough, few, out, e)
