-- ===== src/Watchdog/Validated.antt =====
-- ai_watchdog/watchdog.py, `load_config`: what holds of a configuration that is accepted.
use ai_worker_bridge_mcp.Base.{
  ℕ, ◌≡◌, refl, subst, true, false, Option, none, some, [], ◌∷◌, ◌++◌, arith, is_nil, Bool-cases,
  inl, inr, ◌==◌,
}
use ai_worker_bridge_mcp.Base.Text.{Text, codes, contains, starts_with, strip, strip_right}
use ai_worker_bridge_mcp.Base.Exec.{Result, ok, err, ◌>>=◌}
use ai_worker_bridge_mcp.Watchdog.{
  Float, millis, less, ℤ, pos, int_less, WatchdogConfig, WatchdogError,
}
use ai_worker_bridge_mcp.Watchdog.Settings.{
  Outside, Values, accept_float, accept_int, int_of, parse_int, parse_float, schemed, with_port,
  build_base_url, get_setting, settings, located, load_config, parse_env_file, is_digits,
  float_setting,
}

-- The numbers are not below their minimum, and the URL has a scheme.
pub record IsAccepted (config : WatchdogConfig) : Type 0 where
  pub poll_interval : less config.poll_interval 100 ≡ false
  pub timeout : less config.timeout_seconds 100 ≡ false
  pub request_timeout : less config.request_timeout 100 ≡ false
  pub transient_errors : int_less config.max_transient_errors 1 ≡ false
  pub scheme : contains config.base_url (codes "://") ≡ true

>>=-ok :
    {A B : Type 0} (r : Result WatchdogError A) (f : A → Result WatchdogError B) {b : B}
    → (r >>= f) ≡ ok b
    → (a : A) × (r ≡ ok a) × (f a ≡ ok b)
>>=-ok (ok a) f e = (a, refl, e)
>>=-ok (err x) f e = absurd (cc)

ok-injective : {A : Type 0} {a b : A} → ◌≡◌ {A = Result WatchdogError A} (ok a) (ok b) → a ≡ b
ok-injective e = ground arith

starts_with-append : (s t r : Text) → starts_with s t ≡ true → starts_with (s ++ r) t ≡ true
unfolding starts_with
starts_with-append [] [] r h = refl
starts_with-append (a ∷ s) [] r h = refl
starts_with-append [] (b ∷ t) r h = absurd (cc)
starts_with-append (a ∷ s) (b ∷ t) r h = ground (arith, starts_with-append s t r)

contains-append : (s t r : Text) → contains s t ≡ true → contains (s ++ r) t ≡ true
unfolding contains
contains-append [] [] [] h = refl
contains-append [] [] (c ∷ r) h = unfold starts_with in refl
contains-append [] (b ∷ t) r h = absurd (unfold starts_with in cc)
contains-append (a ∷ s) t r h =
    ground (arith, contains-append s t r, starts_with-append (a ∷ s) t r)

accept_float_ok :
    (name : Text) (minimum : ℕ) (o : Option Float) {x : Float}
    → accept_float name minimum o ≡ ok x
    → less x minimum ≡ false
unfolding accept_float
accept_float_ok name minimum none e = absurd (cc)
accept_float_ok name minimum (some y) {x} e = elim (Bool-cases (less y minimum)) [
  | inl h ↦ absurd (ground arith)
  | inr h ↦ let same : y ≡ x = ground arith in subst (λ z. less z minimum ≡ false) same h
]

accept_int_ok :
    (name : Text) (minimum : ℕ) (o : Option ℤ) {x : ℤ}
    → accept_int name minimum o ≡ ok x
    → int_less x minimum ≡ false
unfolding accept_int
accept_int_ok name minimum none e = absurd (cc)
accept_int_ok name minimum (some y) {x} e = elim (Bool-cases (int_less y minimum)) [
  | inl h ↦ absurd (ground arith)
  | inr h ↦ let same : y ≡ x = ground arith in subst (λ z. int_less z minimum ≡ false) same h
]

parse_int_ok :
    (name : Text) (o : Option Text) (default : ℤ) (minimum : ℕ) {x : ℤ}
    → int_less default minimum ≡ false
    → parse_int name o default minimum ≡ ok x
    → int_less x minimum ≡ false
parse_int_ok name none default minimum {x} h e =
    let same : default ≡ x = unfold parse_int in ground arith in
    subst (λ z. int_less z minimum ≡ false) same h
parse_int_ok name (some value) default minimum {x} h e = elim (Bool-cases (is_nil value)) [
  | inl k ↦
      let same : default ≡ x = unfold parse_int in ground arith in
      subst (λ z. int_less z minimum ≡ false) same h
  | inr k ↦
      let e' : accept_int name minimum (int_of value) ≡ ok x = unfold parse_int in ground arith in
      accept_int_ok name minimum (int_of value) e'
]

schemed_lem : (host : Text) → contains (schemed host) (codes "://") ≡ true
schemed_lem host = elim (Bool-cases (contains host (codes "://"))) [
  | inl h ↦ unfold schemed in rw h h
  | inr h ↦ unfold schemed in rw h (unfold contains starts_with in refl)
]

with_port_ok :
    (host : Text) (port : Option Text) {url : Text}
    → contains host (codes "://") ≡ true
    → with_port host port ≡ ok url
    → contains url (codes "://") ≡ true
with_port_ok host none {url} h e =
    let same : host ≡ url = unfold with_port in ground arith in
    subst (λ u. contains u (codes "://") ≡ true) same h
with_port_ok host (some port) {url} h e = elim (Bool-cases (is_nil port)) [
  | inl k ↦
      let same : host ≡ url = unfold with_port in ground arith in
      subst (λ u. contains u (codes "://") ≡ true) same h
  | inr k ↦ elim (Bool-cases (is_digits (strip port))) [
    | inl d ↦
        let same : host ++ (codes ":" ++ strip port) ≡ url = unfold with_port in ground arith in
        subst (λ u. contains u (codes "://") ≡ true) same
          (contains-append host (codes "://") (codes ":" ++ strip port) h)
    | inr d ↦ absurd (unfold with_port in ground arith)
  ]
]

build_base_url_ok :
    (host : Text) (port : Option Text) {url : Text}
    → build_base_url host port ≡ ok url
    → contains url (codes "://") ≡ true
build_base_url_ok host port {url} e =
    elim (Bool-cases (is_nil (strip_right (λ c. c == b'/') (strip host)))) [
      | inl k ↦ absurd (unfold build_base_url in ground arith)
      | inr k ↦
          let bare = strip_right (λ c. c == b'/') (strip host) in
          let e' : with_port (schemed bare) port ≡ ok url = unfold build_base_url in ground arith in
          with_port_ok (schemed bare) port (schemed_lem bare) e'
    ]

module _ (outside : Outside) where
  float_setting_ok :
      (name : Text) (o : Option Text) (default : ℕ) {x : Float}
      → less (millis default) 100 ≡ false
      → parse_float outside name o (millis default) 100 ≡ ok x
      → less x 100 ≡ false
  float_setting_ok name none default {x} h e =
      let same : millis default ≡ x = unfold parse_float in ground arith in
      subst (λ z. less z 100 ≡ false) same h
  float_setting_ok name (some value) default {x} h e = elim (Bool-cases (is_nil value)) [
    | inl k ↦
        let same : millis default ≡ x = unfold parse_float in ground arith in
        subst (λ z. less z 100 ≡ false) same h
    | inr k ↦
        let e' : accept_float name 100 (outside.float_of value) ≡ ok x =
          unfold parse_float in ground arith in
        accept_float_ok name 100 (outside.float_of value) e'
  ]

  settings_ok :
      (values : Values) (base_url : Text) {config : WatchdogConfig}
      → contains base_url (codes "://") ≡ true
      → settings outside values base_url ≡ ok config
      → IsAccepted config
  unfolding settings less int_less
  settings_ok values base_url {config} scheme e =
      let (poll, e1, f1) =
        >>=-ok (float_setting outside (codes "AI_BRIDGE_POLL_INTERVAL") values 2000) _ e in
      let (timeout, e2, f2) =
        >>=-ok (float_setting outside (codes "AI_BRIDGE_TIMEOUT_SECONDS") values 1800000) _ f1 in
      let (request, e3, f3) =
        >>=-ok (float_setting outside (codes "AI_BRIDGE_REQUEST_TIMEOUT") values 15000) _ f2 in
      let (errors, e4, f4) =
        >>=-ok
          (parse_int (codes "AI_BRIDGE_MAX_TRANSIENT_ERRORS")
            (get_setting outside (codes "AI_BRIDGE_MAX_TRANSIENT_ERRORS") values) (pos 5) 1)
          _ f3 in
      subst IsAccepted (ok-injective f4) (record {
        poll_interval = float_setting_ok (codes "AI_BRIDGE_POLL_INTERVAL") _ 2000 refl e1;
        timeout = float_setting_ok (codes "AI_BRIDGE_TIMEOUT_SECONDS") _ 1800000 refl e2;
        request_timeout = float_setting_ok (codes "AI_BRIDGE_REQUEST_TIMEOUT") _ 15000 refl e3;
        transient_errors =
            parse_int_ok (codes "AI_BRIDGE_MAX_TRANSIENT_ERRORS")
              (get_setting outside (codes "AI_BRIDGE_MAX_TRANSIENT_ERRORS") values) (pos 5) 1 refl
              e4;
        scheme = scheme;
      })

  located_ok :
      (values : Values) (o : Option Text) {config : WatchdogConfig}
      → located outside values o ≡ ok config
      → IsAccepted config
  located_ok values none e = absurd (unfold located in cc)
  located_ok values (some host) {config} e = elim (Bool-cases (is_nil host)) [
    | inl h ↦ absurd (unfold located in ground arith)
    | inr h ↦
        let e' : (build_base_url host (get_setting outside (codes "AI_BRIDGE_PORT") values)
              >>= settings outside values)
            ≡ ok config =
          unfold located in ground arith in
        let (url, b, c) =
          >>=-ok (build_base_url host (get_setting outside (codes "AI_BRIDGE_PORT") values))
            (settings outside values) e' in
        settings_ok values url (build_base_url_ok host _ b) c
  ]

  -- A configuration that `load_config` accepts has no interval or timeout below a tenth of a second,
  -- allows at least one transient error, and has a base URL with a scheme.
  pub load_config-IsAccepted :
      (env_file : Option Text) {config : WatchdogConfig}
      → load_config outside env_file ≡ ok config
      → IsAccepted config
  load_config-IsAccepted env_file {config} e =
      let e' : located outside (parse_env_file env_file)
            (get_setting outside (codes "AI_BRIDGE_MCP_HOST") (parse_env_file env_file))
          ≡ ok config =
        unfold load_config in e in
      located_ok (parse_env_file env_file) _ e'
