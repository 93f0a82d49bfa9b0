-- ===== src/Registry/Request.antt =====
-- workers.py, `call` and `_headers`: the request that a worker gets. The environment, the base64 encoding
-- and `str` of a number are parameters.
use ai_worker_bridge_mcp.Base.{
  ℕ, String, Bool, true, false, Option, none, some, List, [], ◌∷◌, ◌++◌, is_nil, if◌then◌else◌,
}
use ai_worker_bridge_mcp.Base.Text.{Text, codes}
use ai_worker_bridge_mcp.Json.{Json, bool, int, str, arr, obj, cons, nil, Items, Fields, end, field}
use ai_worker_bridge_mcp.Config.{WorkerConfig, AuthType, no_auth, bearer, basic}
use ai_worker_bridge_mcp.TaskState.{TaskRecord}
use text.Mathlib.Text.{◌==◌ as str_eq}

pub record Outside : Type 0 where
  pub getenv : String → Option Text
  pub b64encode : Text → Text
  pub decimal : ℕ → Text

-- The arguments of `call` after the worker's id.
pub record CallArguments : Type 0 where
  pub prompt : Text
  pub working_directory : Option Text
  pub task_id : Option String
  pub idempotency_key : Option String
  pub dispatch_attempt_id : Option String
  pub attempt_number : Option ℕ
  pub recovery_attempt : Option Bool

-- The call of `_run_task`.
unfoldable pub task_arguments : TaskRecord → Bool → CallArguments
task_arguments task recovery_attempt = record {
  prompt = task.prompt;
  working_directory = task.working_directory;
  task_id = some task.task_id;
  idempotency_key = task.idempotency_key;
  dispatch_attempt_id = task.dispatch_attempt_id;
  attempt_number = some task.attempt_count;
  recovery_attempt = some recovery_attempt;
}

-- A dict of headers; a key that is set again hides the older value.
abbrev pub RequestHeaders : Type 0
RequestHeaders = List (String × Text)

unfoldable pub lookup : String → RequestHeaders → Option Text
lookup key [] = none
lookup key ((k, v) ∷ headers) = if str_eq k key then some v else lookup key headers

-- `text or ""` of a name in the environment.
unfoldable pub name_or_empty : Option String → String
name_or_empty none = ""
name_or_empty (some name) = name

-- `f"{value}"`
shown : Option Text → Text
shown none = codes "None"
shown (some text) = text

-- `bool(value)`
unfoldable pub is_given : Option Text → Bool
is_given none = false
is_given (some text) = if is_nil text then false else true

unfoldable pub with_token : Option Text → RequestHeaders → RequestHeaders
unfolding is_given shown
with_token token headers =
    if is_given token then ("Authorization", codes "Bearer " ++ shown token) ∷ headers else headers

unfoldable pub with_login : Outside → Option Text → Option Text → RequestHeaders → RequestHeaders
unfolding is_given shown
with_login o user password headers =
    if is_given user
    then (
      "Authorization",
      codes "Basic " ++ o.b64encode (shown user ++ (codes ":" ++ shown password)),
    )
      ∷ headers
    else if is_given password
    then (
      "Authorization",
      codes "Basic " ++ o.b64encode (shown user ++ (codes ":" ++ shown password)),
    )
      ∷ headers
    else headers

unfoldable pub with_auth : Outside → AuthType → WorkerConfig → RequestHeaders → RequestHeaders
unfolding with_token with_login name_or_empty
with_auth o no_auth w headers = headers
with_auth o bearer w headers = with_token (o.getenv (name_or_empty w.secret_env)) headers
with_auth o basic w headers =
    with_login o (o.getenv (name_or_empty w.username_env)) (o.getenv (name_or_empty w.password_env))
      headers

-- `_headers`
unfoldable pub base_headers : Outside → WorkerConfig → RequestHeaders
unfolding with_auth
base_headers o w = with_auth o w.auth_type w (("Content-Type", codes "application/json") ∷ [])

-- `if value: headers[key] = value`
unfoldable pub with_id : String → Option String → RequestHeaders → RequestHeaders
with_id key none headers = headers
with_id key (some value) headers = if str_eq value "" then headers else (key, codes value) ∷ headers

unfoldable pub with_number : Outside → Option ℕ → RequestHeaders → RequestHeaders
with_number o none headers = headers
with_number o (some n) headers = ("X-Bridge-Attempt-Number", o.decimal n) ∷ headers

unfoldable pub with_recovery : Option Bool → RequestHeaders → RequestHeaders
with_recovery none headers = headers
with_recovery (some recovery) headers =
    ("X-Bridge-Recovery-Attempt", if recovery then codes "true" else codes "false") ∷ headers

unfoldable pub headers : Outside → WorkerConfig → CallArguments → RequestHeaders
unfolding base_headers with_id with_number with_recovery
headers o w args = with_recovery args.recovery_attempt (
    with_number o args.attempt_number (
      with_id "X-Dispatch-Attempt-ID" args.dispatch_attempt_id (
        with_id "X-Bridge-Dispatch-Attempt-Id" args.dispatch_attempt_id (
          with_id "Idempotency-Key" args.idempotency_key (
            with_id "X-Bridge-Idempotency-Key" args.idempotency_key
              (with_id "X-Bridge-Task-Id" args.task_id (base_headers o w)))))))

-- A field of a dict, left out for None.
field_of : {A : Type 0} → (A → Json) → Text → Option A → Fields → Fields
field_of f key none rest = rest
field_of f key (some v) rest = field key (f v) rest

id_json : String → Json
id_json s = str (codes s)

unfoldable pub metadata : CallArguments → Fields
unfolding field_of id_json
metadata args = field_of id_json (codes "bridge_task_id") args.task_id (
    field_of id_json (codes "bridge_idempotency_key") args.idempotency_key (
      field_of id_json (codes "bridge_dispatch_attempt_id") args.dispatch_attempt_id (
        field_of int (codes "bridge_attempt_number") args.attempt_number
          (field_of bool (codes "bridge_recovery_attempt") args.recovery_attempt end))))

chat_message : Text → Text → Json
chat_message role content =
    obj (field (codes "role") (str role) (field (codes "content") (str content) end))

-- `if worker.default_system_prompt`
unfoldable pub messages : Option Text → Text → Items
unfolding chat_message
messages none prompt = cons (chat_message (codes "user") prompt) nil
messages (some system) prompt =
    if is_nil system
    then cons (chat_message (codes "user") prompt) nil
    else cons (chat_message (codes "system") system) (cons (chat_message (codes "user") prompt) nil)

metadata_field : Fields → Fields
metadata_field end = end
metadata_field (field k v rest) = field (codes "metadata") (obj (field k v rest)) end

unfoldable pub payload : WorkerConfig → CallArguments → Json
unfolding messages field_of metadata metadata_field
payload w args = obj (
    field (codes "model") (str w.model_name) (
      field (codes "messages") (arr (messages w.default_system_prompt args.prompt)) (
        field_of str (codes "working_directory") args.working_directory
          (metadata_field (metadata args)))))
