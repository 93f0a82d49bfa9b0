-- ===== src/Server.antt =====
-- server.py: the state that the requests share, the keys, and the scopes. FastAPI reads the headers and
-- the bodies; a body that it refuses does not arrive here.
pub mod Reload
pub mod Tools
pub mod Endpoints
pub mod Keys
pub mod Requests
pub mod Readers
pub mod Answers
pub mod Serving
pub mod Parity
pub mod Schemas
pub mod Pages
pub mod Echo
pub mod Offered
pub mod Startup
pub mod Sessions
use ai_worker_bridge_mcp.Base.{
  ℕ, ◌+◌, String, Bool, true, false, not, ◌&&◌, ◌||◌, Option, none, some, List, [], ◌∷◌, ◌++◌, any,
  all, ltb, is_nil, if◌then◌else◌,
}
use ai_worker_bridge_mcp.Base.Text.{Text, codes, text_eq, starts_with, strip}
use ai_worker_bridge_mcp.Base.Exec.{Result, ok, err}
use ai_worker_bridge_mcp.Exceptions.{Exception}
use ai_worker_bridge_mcp.Config.{Scope, read, submit, cancel, admin, scope_eq, ScopedKeyConfig}
use ai_worker_bridge_mcp.Manager.{TaskManager, emit}

-- `app.state`. The audit log of the app is that of its manager, and a reload's
-- new log goes on with the same list.
pub record App : Type 0 where
  pub manager : TaskManager
  pub scoped_keys : List ScopedKeyConfig
  pub sqlite_path : String

pub record AuthContext : Type 0 where
  pub key_id : String
  pub scopes : List Scope

-- `scope in self.scopes`
unfoldable pub has_scope : Scope → AuthContext → Bool
has_scope scope ctx = any (λ s. scope_eq s scope) ctx.scopes

-- What a request ends with, other than an answer: an HTTPException with its status and detail, that of
-- a saturated bridge with its scope, or an exception that nothing catches (status 500).
pub data Refusal : Type 0 where
  http_error : ℕ → Text → Refusal
  saturated : ℕ → Text → String → Refusal
  crashed : Refusal
  -- The body is not valid (status 422).
  unprocessable : Refusal

pub record Headers : Type 0 where
  pub authorization : Option Text
  pub x_api_key : Option Text

bearer : Text
bearer = codes "Bearer "

drop : Text → Text → Text
drop [] s = s
drop (c ∷ t) [] = []
drop (c ∷ t) (d ∷ s) = drop t s

-- The key that the headers present.
unfoldable pub presented : Headers → Option Text
unfolding starts_with bearer drop strip
presented headers = elim headers.authorization [
  | none ↦ headers.x_api_key
  | some value ↦
      if starts_with value bearer then some (strip (drop bearer value)) else headers.x_api_key
]

-- `secrets.compare_digest(a, b)` on texts; `none` is the TypeError for a text that is not ASCII.
unfoldable pub compare_digest : Text → Text → Option Bool
unfolding text_eq
compare_digest a b =
    if all (λ c. ltb c 128) a && all (λ c. ltb c 128) b then some (text_eq a b) else none

unfoldable pub context : ScopedKeyConfig → AuthContext
context key = record { key_id = key.key_id; scopes = key.scopes }

-- One key of the loop of `authenticate`, and what the rest of the loop gives.
unfoldable pub tried :
    Text
    → ScopedKeyConfig
    → Option Text
    → Result Refusal (Option AuthContext)
    → Result Refusal (Option AuthContext)
unfolding compare_digest context
tried text key none rest = rest
tried text key (some expected) rest =
    if is_nil expected then rest else elim (compare_digest text expected) [
      | none ↦ err crashed
      | some equal ↦ if equal then ok (some (context key)) else rest
    ]

module _ (getenv : String → Option Text) where
  unfoldable pub find_key : Text → List ScopedKeyConfig → Result Refusal (Option AuthContext)
  unfolding tried
  find_key text [] = ok none
  find_key text (key ∷ keys) = tried text key (getenv key.env) (find_key text keys)

-- A request's answer or refusal, and the state that it leaves.
abbrev pub Served : Type 0 → Type 0
Served A = Result Refusal A × App

unfoldable pub emit_app : String → String → App → App
unfolding emit
emit_app event outcome app = record app { manager = emit event outcome none none app.manager }

-- The end of `authenticate`.
unfoldable pub identified : Result Refusal (Option AuthContext) → App → Served AuthContext
unfolding emit_app
identified (err e) app = (err e, app)
identified (ok (some ctx)) app = (ok ctx, app)
identified (ok none) app =
    (err (http_error 401 (codes "invalid API key")), emit_app "auth_failure" "invalid" app)

unfoldable pub checked_key : (String → Option Text) → Option Text → App → Served AuthContext
unfolding find_key identified emit_app
checked_key getenv none app =
    (err (http_error 401 (codes "missing API key")), emit_app "auth_failure" "missing" app)
checked_key getenv (some text) app =
    if is_nil text
    then (err (http_error 401 (codes "missing API key")), emit_app "auth_failure" "missing" app)
    else identified (find_key getenv text app.scoped_keys) app

unfoldable pub authenticate : (String → Option Text) → Headers → App → Served AuthContext
unfolding presented checked_key
authenticate getenv headers app = checked_key getenv (presented headers) app

scope_name : Scope → Text
scope_name read = codes "read"
scope_name submit = codes "submit"
scope_name cancel = codes "cancel"
scope_name admin = codes "admin"

unfoldable pub missing_scope : Scope → Text
unfolding scope_name
missing_scope scope = codes "missing required scope: " ++ scope_name scope

-- `ctx.require(scope)` of an endpoint's dependency.
unfoldable pub require : Scope → Served AuthContext → Served AuthContext
unfolding has_scope missing_scope emit_app
require scope (err e, app) = (err e, app)
require scope (ok ctx, app) =
    if has_scope scope ctx
    then (ok ctx, app)
    else (err (http_error 403 (missing_scope scope)), emit_app "auth_scope_denied" "forbidden" app)

-- `Depends(require_scope(scope))`
unfoldable pub require_scope : (String → Option Text) → Scope → Headers → App → Served AuthContext
unfolding authenticate require
require_scope getenv scope headers app = require scope (authenticate getenv headers app)
