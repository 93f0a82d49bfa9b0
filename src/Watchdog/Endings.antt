-- ===== src/Watchdog/Endings.antt =====
-- ai_watchdog/watchdog.py, `wait_for_task`: what it returns, and a timeout that never comes.
use ai_worker_bridge_mcp.Base.{
  ℕ, zero, suc, ◌+◌, ◌≡◌, ◌∙◌, refl, sym, ap, subst, true, false, Option, none, some, arith, is_nil,
  Bool-cases, inl, inr,
}
use ai_worker_bridge_mcp.Base.Text.{Text, codes}
use ai_worker_bridge_mcp.Base.Exec.{Result, ok, err}
use ai_worker_bridge_mcp.Json.{Fields}
use ai_worker_bridge_mcp.Watchdog.{nan, WatchdogConfig, WatchdogError, transient, http_status}
use ai_worker_bridge_mcp.Watchdog.Polling.{
  Poll, Reader, Deadline, undefined, deadline_of, expired, sleep_for, exceeds, terminal_names,
  is_named, check_task, state_text, ends, again, after_sleep, on_reply, turn, wait_loop,
  wait_for_task,
}
use ai_worker_bridge_mcp.Watchdog.Waiting.{loop_step, loop_end, Turn-cases}

module _ (reader : Reader) where
  -- A wait that returns has an answer whose state is terminal.
  abbrev IsFinal : Result WatchdogError Fields → Type 0
  IsFinal (ok fs) = is_named (state_text reader fs) terminal_names ≡ true
  IsFinal (err e) = Unit

  after_sleep-IsFinal :
      (o : Option ℕ) (now overslept errors : ℕ) (last : Text) {out : Result WatchdogError Fields}
      → after_sleep reader o now overslept errors last ≡ ends out
      → IsFinal out
  after_sleep-IsFinal none now overslept errors last {out = ok fs} e =
      absurd (unfold after_sleep in cc)
  after_sleep-IsFinal none now overslept errors last {out = err x} e = tt
  after_sleep-IsFinal (some n) now overslept errors last e = absurd (unfold after_sleep in cc)

  on_reply-IsFinal :
      (config : WatchdogConfig) (deadline : Deadline) (poll : Poll) (now errors : ℕ) (last : Text)
      (reply : Result WatchdogError Fields) {out : Result WatchdogError Fields}
      → on_reply reader config deadline poll now errors last reply ≡ ends out
      → IsFinal out
  on_reply-IsFinal config deadline poll now errors last reply {out = err x} e = tt
  on_reply-IsFinal config deadline poll now errors last (err (transient text)) {out = ok fs} e =
      elim (Bool-cases (exceeds (errors + 1) config.max_transient_errors)) [
        | inl x ↦ absurd (unfold on_reply in ground arith)
        | inr x ↦
            after_sleep-IsFinal (sleep_for config.poll_interval now deadline) now poll.overslept
              (errors + 1) last {out = ok fs} (unfold on_reply in ground arith)
      ]
  on_reply-IsFinal config deadline poll now errors last (err (http_status a b)) {out = ok fs} e =
      absurd (unfold on_reply in cc)
  on_reply-IsFinal config deadline poll now errors last (err _) {out = ok fs} e =
      absurd (unfold on_reply in cc)
  on_reply-IsFinal config deadline poll now errors last (ok gs) {out = ok fs} e =
      elim (Bool-cases (is_named (state_text reader gs) terminal_names)) [
        | inl x ↦
            let same : gs ≡ fs = unfold on_reply in ground arith in
            subst (λ hs. is_named (state_text reader hs) terminal_names ≡ true) same x
        | inr x ↦ elim (Bool-cases (is_nil (state_text reader gs))) [
          | inl y ↦ absurd (unfold on_reply in ground arith)
          | inr y ↦
              after_sleep-IsFinal (sleep_for config.poll_interval now deadline) now poll.overslept 0
                (state_text reader gs) {out = ok fs} (unfold on_reply in ground arith)
        ]
      ]

  turn-IsFinal :
      (config : WatchdogConfig) (deadline : Deadline) (poll : Poll) (now errors : ℕ) (last : Text)
      {out : Result WatchdogError Fields}
      → turn reader config deadline poll now errors last ≡ ends out
      → IsFinal out
  turn-IsFinal config deadline poll now errors last {out = err x} e = tt
  turn-IsFinal config deadline poll now errors last {out = ok fs} e =
      elim (Bool-cases (expired now deadline)) [
        | inl x ↦ absurd (unfold turn in ground arith)
        | inr x ↦
            on_reply-IsFinal config deadline poll (now + poll.took) errors last
              (check_task reader poll.response) {out = ok fs} (unfold turn in ground arith)
      ]

  wait_loop-IsFinal :
      (config : WatchdogConfig) (deadline : Deadline) (polls : ℕ → Poll) (rounds now errors : ℕ)
      (last : Text) {out : Result WatchdogError Fields}
      → wait_loop reader config deadline polls rounds now errors last ≡ some out
      → IsFinal out
  wait_loop-IsFinal config deadline polls zero now errors last e = absurd (unfold wait_loop in cc)
  wait_loop-IsFinal config deadline polls (suc rounds) now errors last {out} e =
      elim (Turn-cases reader (turn reader config deadline (polls rounds) now errors last)) [
        | inl (found, t) ↦
            let same : found ≡ out =
              ground
                (arith, loop_end reader config deadline polls rounds now errors last found t, e) in
            subst IsFinal same (turn-IsFinal config deadline (polls rounds) now errors last t)
        | inr (later, more, state, t) ↦
            wait_loop-IsFinal config deadline polls rounds later more state (
              sym (loop_step reader config deadline polls rounds now errors last later more state t)
              ∙ e)
      ]

  -- What `wait_for_task` returns has one of the names of the terminal states for its state.
  pub wait_for_task_final :
      (config : WatchdogConfig) (polls : ℕ → Poll) (rounds now : ℕ) (fs : Fields)
      → wait_for_task reader config polls rounds now ≡ some (ok fs)
      → is_named (state_text reader fs) terminal_names ≡ true
  wait_for_task_final config polls rounds now fs e =
      wait_loop-IsFinal config (deadline_of now config.timeout_seconds) polls rounds now 0
        (codes "unknown") {out = ok fs} (unfold wait_for_task in e)

  -- An answer that the task goes on.
  pub record GoesOn (poll : Poll) : Type 0 where
    pub fields : Fields
    pub answer : check_task reader poll.response ≡ ok fields
    pub open_state : is_named (state_text reader fields) terminal_names ≡ false
    pub present : is_nil (state_text reader fields) ≡ false

  turn-GoesOn :
      (config : WatchdogConfig) (poll : Poll) (now errors : ℕ) (last : Text) (g : GoesOn poll)
      → turn reader config undefined poll now errors last
        ≡ again (now + poll.took + 0 + poll.overslept) 0 (state_text reader g.fields)
  turn-GoesOn config poll now errors last g =
      tested
      ∙ ap (on_reply reader config undefined poll (now + poll.took) errors last) g.answer
      ∙ on
    where
      tested :
          turn reader config undefined poll now errors last
          ≡ on_reply reader config undefined poll
              (now + poll.took)
              errors
              last
              (check_task reader poll.response)
      tested = unfold turn expired in refl

      on :
          on_reply reader config undefined poll (now + poll.took) errors last (ok g.fields)
          ≡ again (now + poll.took + 0 + poll.overslept) 0 (state_text reader g.fields)
      on = unfold on_reply in ground (arith, g.open_state, g.present)

  wait_loop_endless :
      (config : WatchdogConfig) (polls : ℕ → Poll) (rounds now errors : ℕ) (last : Text)
      → ((i : ℕ) → GoesOn (polls i))
      → wait_loop reader config undefined polls rounds now errors last ≡ none
  wait_loop_endless config polls zero now errors last g = unfold wait_loop in refl
  wait_loop_endless config polls (suc rounds) now errors last g =
      loop_step reader config undefined polls rounds now errors last _ _ _
        (turn-GoesOn config (polls rounds) now errors last (g rounds))
      ∙ wait_loop_endless config polls rounds _ _ _ g

  -- With a timeout that is not a number, the wait does not end as long as the bridge answers that the
  -- task goes on, however many rounds there are and however long they take.
  pub wait_for_task_endless :
      (config : WatchdogConfig) (polls : ℕ → Poll) (rounds now : ℕ)
      → config.timeout_seconds ≡ nan
      → ((i : ℕ) → GoesOn (polls i))
      → wait_for_task reader config polls rounds now ≡ none
  wait_for_task_endless config polls rounds now e g =
      begun ∙ wait_loop_endless config polls rounds now 0 (codes "unknown") g
    where
      begun :
          wait_for_task reader config polls rounds now
          ≡ wait_loop reader config undefined polls rounds now 0 (codes "unknown")
      begun =
          unfold wait_for_task deadline_of in
          ap (λ x. wait_loop reader config (deadline_of now x) polls rounds now 0 (codes "unknown"))
            e
