-- ===== src/Registry/Headers.antt =====
-- workers.py, `call`: the headers by which a worker can tell a repeated request.
use ai_worker_bridge_mcp.Base.{
  ℕ, String, ◌≡◌, ◌∙◌, refl, ap, Bool, true, false, Option, none, some, [], ◌∷◌, Bool-cases, inl,
  inr,
}
use ai_worker_bridge_mcp.Base.Text.{Text, codes}
use ai_worker_bridge_mcp.Config.{WorkerConfig, AuthType, no_auth, bearer, basic}
use ai_worker_bridge_mcp.TaskState.{TaskRecord}
use ai_worker_bridge_mcp.Store.{usable_key}
use ai_worker_bridge_mcp.Registry.Request.{
  Outside, task_arguments, RequestHeaders, lookup, is_given, with_token, with_login, with_auth,
  base_headers, with_id, with_number, with_recovery, name_or_empty, headers,
}
use text.Mathlib.Text.{◌==◌ as str_eq}

-- The text of an id, or what the other headers have.
abbrev pub id_text : Option String → Option Text → Option Text
id_text none rest = rest
id_text (some id) rest = some (codes id)

module _ (key : String) where
  lookup-with_id :
      (id : Option String) (hs : RequestHeaders)
      → str_eq key key ≡ true
      → lookup key (with_id key id hs) ≡ id_text (usable_key id) (lookup key hs)
  lookup-with_id none hs same = unfold with_id usable_key in refl
  lookup-with_id (some id) hs same = elim (Bool-cases (str_eq id "")) [
    | inl h ↦ unfold with_id usable_key in rw h refl
    | inr h ↦ unfold with_id usable_key in rw h (unfold lookup in rw same refl)
  ]

  lookup-cons :
      (k : String) (v : Text) (hs : RequestHeaders)
      → str_eq k key ≡ false
      → lookup key ((k, v) ∷ hs) ≡ lookup key hs
  lookup-cons k v hs other = unfold lookup in rw other refl

  with_id_other :
      (k : String) (id : Option String) (hs : RequestHeaders)
      → str_eq k key ≡ false
      → lookup key (with_id k id hs) ≡ lookup key hs
  with_id_other k none hs other = unfold with_id in refl
  with_id_other k (some id) hs other = elim (Bool-cases (str_eq id "")) [
    | inl h ↦ unfold with_id in rw h refl
    | inr h ↦ unfold with_id in rw h (lookup-cons k (codes id) hs other)
  ]

  with_number_other :
      (o : Outside) (n : Option ℕ) (hs : RequestHeaders)
      → str_eq "X-Bridge-Attempt-Number" key ≡ false
      → lookup key (with_number o n hs) ≡ lookup key hs
  unfolding with_number
  with_number_other o none hs other = refl
  with_number_other o (some n) hs other = lookup-cons _ (o.decimal n) hs other

  with_recovery_other :
      (r : Option Bool) (hs : RequestHeaders)
      → str_eq "X-Bridge-Recovery-Attempt" key ≡ false
      → lookup key (with_recovery r hs) ≡ lookup key hs
  unfolding with_recovery
  with_recovery_other none hs other = refl
  with_recovery_other (some r) hs other = lookup-cons _ _ hs other

  module _ (auth : str_eq "Authorization" key ≡ false) where
    with_token_other :
        (token : Option Text) (hs : RequestHeaders)
        → lookup key (with_token token hs) ≡ lookup key hs
    with_token_other token hs = elim (Bool-cases (is_given token)) [
      | inl h ↦ unfold with_token in rw h (lookup-cons _ _ hs auth)
      | inr h ↦ unfold with_token in rw h refl
    ]

    with_login_other :
        (o : Outside) (user password : Option Text) (hs : RequestHeaders)
        → lookup key (with_login o user password hs) ≡ lookup key hs
    with_login_other o user password hs = elim (Bool-cases (is_given user)) [
      | inl h ↦ unfold with_login in rw h (lookup-cons _ _ hs auth)
      | inr h ↦ elim (Bool-cases (is_given password)) [
        | inl k ↦ unfold with_login in rw h (rw k (lookup-cons _ _ hs auth))
        | inr k ↦ unfold with_login in rw h (rw k refl)
      ]
    ]

    with_auth_other :
        (o : Outside) (a : AuthType) (w : WorkerConfig) (hs : RequestHeaders)
        → lookup key (with_auth o a w hs) ≡ lookup key hs
    unfolding with_auth
    with_auth_other o no_auth w hs = refl
    with_auth_other o bearer w hs = with_token_other (o.getenv (name_or_empty w.secret_env)) hs
    with_auth_other o basic w hs =
        with_login_other o (o.getenv (name_or_empty w.username_env))
          (o.getenv (name_or_empty w.password_env)) hs

    base_headers_other :
        (o : Outside) (w : WorkerConfig)
        → str_eq "Content-Type" key ≡ false
        → lookup key (base_headers o w) ≡ none
    base_headers_other o w content =
        unfold base_headers in
        with_auth_other o w.auth_type w (("Content-Type", codes "application/json") ∷ [])
        ∙ lookup-cons _ _ [] content
        ∙ unfold lookup in refl

-- The headers of a call, from the attempt's id on.
module _ (o : Outside) (w : WorkerConfig) (task : TaskRecord) (recovery : Bool) where
  sent : RequestHeaders
  unfolding headers
  sent = headers o w (task_arguments task recovery)

  with_task : RequestHeaders
  with_task = with_id "X-Bridge-Task-Id" (some task.task_id) (base_headers o w)

  with_key : RequestHeaders
  with_key =
      with_id "Idempotency-Key" task.idempotency_key
        (with_id "X-Bridge-Idempotency-Key" task.idempotency_key with_task)

  with_attempt : RequestHeaders
  with_attempt =
      with_id "X-Dispatch-Attempt-ID" task.dispatch_attempt_id
        (with_id "X-Bridge-Dispatch-Attempt-Id" task.dispatch_attempt_id with_key)

  -- The headers after the ids do not bear on the other keys.
  lookup-sent :
      (key : String)
      → str_eq "X-Bridge-Recovery-Attempt" key ≡ false
      → str_eq "X-Bridge-Attempt-Number" key ≡ false
      → lookup key sent ≡ lookup key with_attempt
  unfolding sent headers task_arguments with_attempt with_key with_task
  lookup-sent key r n =
      with_recovery_other key (some recovery) _ r
      ∙ with_number_other key o (some task.attempt_count) _ n

  lookup-with_key :
      (key : String)
      → str_eq "X-Dispatch-Attempt-ID" key ≡ false
      → str_eq "X-Bridge-Dispatch-Attempt-Id" key ≡ false
      → lookup key with_attempt ≡ lookup key with_key
  unfolding with_attempt
  lookup-with_key key a b =
      with_id_other key _ task.dispatch_attempt_id _ a
      ∙ with_id_other key _ task.dispatch_attempt_id _ b

  lookup-with_task :
      (key : String)
      → str_eq "Authorization" key ≡ false
      → str_eq "Content-Type" key ≡ false
      → str_eq "X-Bridge-Task-Id" key ≡ false
      → lookup key with_task ≡ none
  unfolding with_task
  lookup-with_task key a c t =
      with_id_other key _ (some task.task_id) _ t ∙ base_headers_other key a o w c

  lookup-idempotency_key :
      lookup "Idempotency-Key" sent ≡ id_text (usable_key task.idempotency_key) none
  unfolding with_key
  lookup-idempotency_key =
      lookup-sent "Idempotency-Key" refl refl
      ∙ lookup-with_key "Idempotency-Key" refl refl
      ∙ lookup-with_id "Idempotency-Key" task.idempotency_key _ refl
      ∙ ap (id_text (usable_key task.idempotency_key)) (
          with_id_other "Idempotency-Key" _ task.idempotency_key _ refl
          ∙ lookup-with_task "Idempotency-Key" refl refl refl)

  lookup-attempt_id :
      lookup "X-Dispatch-Attempt-ID" sent ≡ id_text (usable_key task.dispatch_attempt_id) none
  unfolding with_attempt with_key
  lookup-attempt_id =
      lookup-sent "X-Dispatch-Attempt-ID" refl refl
      ∙ lookup-with_id "X-Dispatch-Attempt-ID" task.dispatch_attempt_id _ refl
      ∙ ap (id_text (usable_key task.dispatch_attempt_id)) (
          with_id_other "X-Dispatch-Attempt-ID" _ task.dispatch_attempt_id _ refl
          ∙ with_id_other "X-Dispatch-Attempt-ID" _ task.idempotency_key _ refl
          ∙ with_id_other "X-Dispatch-Attempt-ID" _ task.idempotency_key _ refl
          ∙ lookup-with_task "X-Dispatch-Attempt-ID" refl refl refl)

-- The request for a task carries Idempotency-Key with exactly the key by which the store tells a
-- repeated submission, and none where the store has no key; and X-Dispatch-Attempt-ID with the id of
-- the attempt, if it is there and not empty; whatever authentication the worker has.
pub headers-task_arguments :
    (o : Outside) (w : WorkerConfig) (task : TaskRecord) (recovery : Bool)
    → (lookup "Idempotency-Key" (headers o w (task_arguments task recovery))
        ≡ id_text (usable_key task.idempotency_key) none)
      × (lookup "X-Dispatch-Attempt-ID" (headers o w (task_arguments task recovery))
          ≡ id_text (usable_key task.dispatch_attempt_id) none)
unfolding sent
headers-task_arguments o w task recovery =
    (lookup-idempotency_key o w task recovery, lookup-attempt_id o w task recovery)
