-- ===== src/Server/Offered.antt =====
-- server.py: the tools that `tools/list` offers, against those that `tools/call` handles.
use ai_worker_bridge_mcp.Base.{
  String, ◌≡◌, refl, sym, subst, eq_iff, Bool, true, false, not, ◌&&◌, Option, none, some, List, [],
  ◌∷◌, any, all, All, is_some, Bool-cases, inl, inr, if◌then◌else◌, arith,
}
use ai_worker_bridge_mcp.Base.Text.{Text, codes, text_eq}
use ai_worker_bridge_mcp.Base.Exec.{Result, err}
use ai_worker_bridge_mcp.Exceptions.{Exception, class_name, is_working_directory_error}
use ai_worker_bridge_mcp.Server.{App}
use ai_worker_bridge_mcp.Server.Tools.{
  Draw, ToolArguments, tool_of, mode_of, run_tool, tool_call, check_answer, cancel_answer,
  missing_argument, ToolAnswer, call_answer, denied_answer,
}
use ai_worker_bridge_mcp.Server.Schemas.{ToolSchema, mode_argument, tool_schemas}
use text.Mathlib.Text.{◌==◌ as str_eq}

-- `name in args`
unfoldable pub is_given : ToolArguments → String → Bool
is_given args name =
    if str_eq name "worker_id"
    then is_some args.worker_id
    else if str_eq name "prompt"
    then is_some args.prompt
    else if str_eq name "task_id"
    then is_some args.task_id
    else false

-- Some tool of the name requires an argument that is not given.
abbrev pub lacks : String → ToolArguments → ToolSchema → Bool
lacks name args s = str_eq name s.name && not (all (is_given args) s.required)

-- A KeyError is raised, and nothing is done.
abbrev pub Raises : Result Exception ToolAnswer × App → App → Type 0
Raises out app = (e : Exception) × (out ≡ (err e, app)) × (class_name e ≡ codes "KeyError")

-- The handler of `tools/call` knows exactly the tools that the list offers, and `worker_call` knows exactly
-- the modes that its schema offers.
pub tool_of-tool_schemas :
    (name : String) (mode : Text)
    → (is_some (tool_of name) ≡ any (λ (s : ToolSchema). str_eq name s.name) tool_schemas)
      × (is_some (mode_of mode) ≡ any (text_eq mode) mode_argument.choices)
unfolding tool_of tool_schemas mode_of
tool_of-tool_schemas name mode = (ground arith, ground arith)

module _ (draw : Draw) (args : ToolArguments) (app : App) where
  call-Raises :
      (worker_id : Option String) (prompt : Option Text)
      → (is_some worker_id && is_some prompt) ≡ false
      → Raises (call_answer (tool_call draw worker_id prompt args app.manager) app) app
  unfolding tool_call call_answer denied_answer missing_argument class_name
      is_working_directory_error
  call-Raises none prompt h = (missing_argument (codes "worker_id"), refl, refl)
  call-Raises (some worker_id) none h = (missing_argument (codes "prompt"), refl, refl)
  call-Raises (some worker_id) (some prompt) h = absurd (cc)

  check-Raises :
      (task_id : Option String) → is_some task_id ≡ false → Raises (check_answer task_id app) app
  unfolding check_answer missing_argument class_name
  check-Raises none h = (missing_argument (codes "task_id"), refl, refl)
  check-Raises (some task_id) h = absurd (cc)

  cancel-Raises :
      (task_id : Option String)
      → is_some task_id ≡ false
      → Raises (cancel_answer draw task_id app) app
  unfolding cancel_answer missing_argument class_name
  cancel-Raises none h = (missing_argument (codes "task_id"), refl, refl)
  cancel-Raises (some task_id) h = absurd (cc)

  Claim : String → Type 0
  Claim name =
      any (lacks name args) tool_schemas ≡ true
      → Raises (run_tool draw name (tool_of name) args app) app

  for_name : (given name : String) → str_eq name given ≡ true → Claim given → Claim name
  for_name given name h claim = subst Claim (sym ((eq_iff name given).0 h)) claim

  call-Claim : Claim "worker_call"
  unfolding Claim tool_schemas is_given tool_of run_tool
  call-Claim h = call-Raises args.worker_id args.prompt (ground arith)

  check-Claim : Claim "worker_check"
  unfolding Claim tool_schemas is_given tool_of run_tool
  check-Claim h = check-Raises args.task_id (ground arith)

  list-Claim : Claim "worker_list"
  unfolding Claim tool_schemas is_given tool_of run_tool
  list-Claim h = absurd (cc)

  cancel-Claim : Claim "worker_cancel"
  unfolding Claim tool_schemas is_given tool_of run_tool
  cancel-Claim h = cancel-Raises args.task_id (ground arith)

  reload-Claim : Claim "worker_config_reload"
  unfolding Claim tool_schemas is_given tool_of run_tool
  reload-Claim h = absurd (cc)

  schemas-Claim : All (λ (s : ToolSchema). Claim s.name) tool_schemas
  unfolding tool_schemas
  schemas-Claim = (call-Claim, (check-Claim, (list-Claim, (cancel-Claim, (reload-Claim, tt)))))

  named-Claim :
      (name : String) (schemas : List ToolSchema)
      → All (λ (s : ToolSchema). Claim s.name) schemas
      → any (λ (s : ToolSchema). str_eq name s.name) schemas ≡ true
      → Claim name
  named-Claim name [] claims named = absurd (cc)
  named-Claim name (s ∷ schemas) (claim, claims) named = elim (Bool-cases (str_eq name s.name)) [
    | inl h ↦ for_name s.name name h claim
    | inr h ↦ named-Claim name schemas claims (ground arith)
  ]

any-and :
    {A : Type 0} (p q : A → Bool) (xs : List A) → any (λ x. p x && q x) xs ≡ true → any p xs ≡ true
any-and p q [] h = h
any-and p q (x ∷ xs) h = elim (Bool-cases (p x)) [
  | inl e ↦ rw e refl
  | inr e ↦ rw e (any-and p q xs (rw e at h))
]

-- A tools/call that lacks an argument which the list names as required for its tool raises a KeyError,
-- and nothing is done.
pub run_tool-lacks :
    (draw : Draw) (args : ToolArguments) (app : App) (name : String)
    → any (lacks name args) tool_schemas ≡ true
    → Raises (run_tool draw name (tool_of name) args app) app
unfolding Claim
run_tool-lacks draw args app name h =
    named-Claim draw args app name tool_schemas (schemas-Claim draw args app)
      (any-and (λ (s : ToolSchema). str_eq name s.name)
        (λ (s : ToolSchema). not (all (is_given args) s.required)) tool_schemas h)
      h
