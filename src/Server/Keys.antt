-- ===== src/Server/Keys.antt =====
-- server.py, `authenticate`: a context is that of a configured key whose secret was presented.
use ai_worker_bridge_mcp.Base.{
  String, ◌≡◌, ◌∙◌, refl, sym, ap, true, false, Option, none, some, List, [], ◌∷◌, Any, is_nil,
  arith, Bool-cases, Option-cases, inl, inr, ◌⊎◌,
}
use ai_worker_bridge_mcp.Base.Text.{Text, text_eq_iff}
use ai_worker_bridge_mcp.Base.Exec.{Result, ok, err}
use ai_worker_bridge_mcp.Config.{ScopedKeyConfig}
use ai_worker_bridge_mcp.Server.{
  App, AuthContext, Headers, Refusal, presented, compare_digest, context, tried, find_key,
  identified, checked_key, authenticate,
}

-- The key `key` of the configuration gives the context, and its secret, which is set and not empty, is
-- the text that was presented.
pub record Opens (getenv : String → Option Text) (text : Text) (ctx : AuthContext)
    (key : ScopedKeyConfig) : Type 0 where
  pub secret : getenv key.env ≡ some text
  pub nonempty : is_nil text ≡ false
  pub granted : ctx ≡ context key

compare_digest_equal : (a b : Text) → compare_digest a b ≡ some true → a ≡ b
unfolding compare_digest
compare_digest_equal a b e = ground (arith, text_eq_iff a b)

module _ (getenv : String → Option Text) where
  tried-Opens :
      (text : Text) (key : ScopedKeyConfig) (o : Option Text)
      (rest : Result Refusal (Option AuthContext)) {ctx : AuthContext}
      → getenv key.env ≡ o
      → is_nil text ≡ false
      → tried text key o rest ≡ ok (some ctx)
      → Opens getenv text ctx key ⊎ (rest ≡ ok (some ctx))
  tried-Opens text key none rest g ne e = inr (unfold tried in e)
  tried-Opens text key (some expected) rest {ctx} g ne e = elim (Bool-cases (is_nil expected)) [
    | inl h ↦ inr (unfold tried in ground arith)
    | inr h ↦ elim (Option-cases (compare_digest text expected)) [
      | inl c ↦ absurd (unfold tried in ground arith)
      | inr (equal, c) ↦ elim (Bool-cases equal) [
        | inl t ↦
            let same : text ≡ expected = compare_digest_equal text expected (c ∙ ap some t) in
            inl (record {
              secret = g ∙ ap some (sym same);
              nonempty = ne;
              granted = unfold tried in ground arith;
            })
        | inr f ↦ inr (unfold tried in ground arith)
      ]
    ]
  ]

  find_key-Opens :
      (text : Text) (keys : List ScopedKeyConfig) {ctx : AuthContext}
      → is_nil text ≡ false
      → find_key getenv text keys ≡ ok (some ctx)
      → Any (Opens getenv text ctx) keys
  find_key-Opens text [] ne e = absurd (unfold find_key in cc)
  find_key-Opens text (key ∷ keys) {ctx} ne e =
      let e' : tried text key (getenv key.env) (find_key getenv text keys) ≡ ok (some ctx) =
        unfold find_key in e in
      elim (tried-Opens text key (getenv key.env) (find_key getenv text keys) refl ne e') [
        | inl o ↦ inl o
        | inr r ↦ inr (find_key-Opens text keys ne r)
      ]

  identified-ok :
      (r : Result Refusal (Option AuthContext)) (app : App) {n : App} {ctx : AuthContext}
      → identified r app ≡ (ok ctx, n)
      → (r ≡ ok (some ctx)) × (n ≡ app)
  identified-ok (err x) app e = absurd (unfold identified in ground arith)
  identified-ok (ok none) app e = absurd (unfold identified in ground arith)
  identified-ok (ok (some c)) app e = unfold identified in ground arith

  checked_key-Opens :
      (o : Option Text) (app : App) {n : App} {ctx : AuthContext}
      → checked_key getenv o app ≡ (ok ctx, n)
      → (text : Text) × (o ≡ some text) × Any (Opens getenv text ctx) app.scoped_keys × (n ≡ app)
  checked_key-Opens none app e = absurd (unfold checked_key in ground arith)
  checked_key-Opens (some text) app {n} {ctx} e = elim (Bool-cases (is_nil text)) [
    | inl h ↦ absurd (unfold checked_key in ground arith)
    | inr h ↦
        let e' : identified (find_key getenv text app.scoped_keys) app ≡ (ok ctx, n) =
          unfold checked_key in ground arith in
        let (f, same) = identified-ok (find_key getenv text app.scoped_keys) app e' in
        (text, refl, find_key-Opens text app.scoped_keys h f, same)
  ]

-- A request that `authenticate` accepts presents a text, a key of the configuration has that text,
-- which is not empty, as its secret, the context has that key's id and scopes, and the app is left as
-- it was.
pub authenticate-Opens :
    (getenv : String → Option Text) (headers : Headers) (app : App) {n : App} {ctx : AuthContext}
    → authenticate getenv headers app ≡ (ok ctx, n)
    → (text : Text) × (presented headers ≡ some text)
      × Any (Opens getenv text ctx) app.scoped_keys
      × (n ≡ app)
authenticate-Opens getenv headers app e =
    checked_key-Opens getenv (presented headers) app (unfold authenticate in e)
