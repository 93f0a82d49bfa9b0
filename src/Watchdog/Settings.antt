-- ===== src/Watchdog/Settings.antt =====
-- ai_watchdog/watchdog.py: the dotenv file, the environment and the command line. `float(text)` is a
-- parameter, and so are the values of the environment; digits are those of ASCII.
use ai_worker_bridge_mcp.Base.{
  ℕ, ◌+◌, ◌*◌, ◌-◌, Bool, false, ◌&&◌, ◌||◌, Option, none, some, List, [], ◌∷◌, ◌++◌, all, leb,
  ◌==◌, is_nil, if◌then◌else◌,
}
use ai_worker_bridge_mcp.Base.Text.{
  Text, codes, text_eq, starts_with, contains, strip, strip_left, strip_right, push,
}
use ai_worker_bridge_mcp.Base.Exec.{Result, ok, err, ◌>>=◌}
use ai_worker_bridge_mcp.Watchdog.{
  Float, millis, less, ℤ, pos, negsuc, int_less, WatchdogConfig, required, not_a_number, too_small,
  not_numeric, WatchdogError, config_error,
}

-- The line boundaries of `str.splitlines`.
is_boundary : ℕ → Bool
is_boundary c = leb 10 c && leb c 13 || leb 28 c && leb c 30 || c == 133 || c == 8232 || c == 8233

starts_newline : Text → Bool
starts_newline [] = false
starts_newline (c ∷ s) = c == 10

-- `text.splitlines()`: a carriage return and the newline after it are one boundary.
unfoldable pub splitlines : Text → List Text
unfolding is_boundary starts_newline push
splitlines [] = []
splitlines (c ∷ s) =
    let rest = splitlines s in
    if c == 13 && starts_newline s then rest else if is_boundary c then [] ∷ rest else push c rest

-- `text.split(sep, 1)`, `none` where `sep` is missing.
unfoldable pub cut : ℕ → Text → Option (Text × Text)
cut sep [] = none
cut sep (c ∷ s) =
    if c == sep
    then some ([], s)
    else elim (cut sep s) [ none ↦ none | some (key, value) ↦ some (c ∷ key, value) ]

abbrev pub Values : Type 0
Values = List (Text × Text)

unfoldable pub lookup_value : Text → Values → Option Text
unfolding text_eq
lookup_value name [] = none
lookup_value name ((key, value) ∷ rest) =
    if text_eq key name then some value else lookup_value name rest

-- `values[key] = value`
unfoldable pub put_value : Text → Text → Values → Values
unfolding text_eq
put_value key value [] = (key, value) ∷ []
put_value key value ((k, v) ∷ rest) =
    if text_eq k key then (k, value) ∷ rest else (k, v) ∷ put_value key value rest

unfoldable pub strip_quotes : ℕ → Text → Text
unfolding strip_left strip_right
strip_quotes quote s = strip_right (λ c. c == quote) (strip_left (λ c. c == quote) s)

unfoldable pub clean_value : Text → Text
unfolding strip strip_quotes
clean_value value = strip_quotes 39 (strip_quotes 34 (strip value))

-- The key and the value of a line, if the line has both.
parsed_entry : Option (Text × Text) → Option (Text × Text)
unfolding strip clean_value
parsed_entry none = none
parsed_entry (some (key, value)) =
    if is_nil (strip key) then none else some (strip key, clean_value value)

unfoldable pub parse_env_line : Text → Option (Text × Text)
unfolding strip cut parsed_entry starts_with
parse_env_line raw =
    if is_nil (strip raw) || starts_with (strip raw) (codes "#")
    then none
    else parsed_entry (cut b'=' (strip raw))

unfoldable pub stored : Option (Text × Text) → Values → Values
unfolding put_value
stored none values = values
stored (some (key, value)) values = put_value key value values

parse_env_lines : List Text → Values → Values
unfolding parse_env_line stored
parse_env_lines [] values = values
parse_env_lines (raw ∷ lines) values = parse_env_lines lines (stored (parse_env_line raw) values)

-- `parse_env_file`; `none` is a file that does not exist.
unfoldable pub parse_env_file : Option Text → Values
unfolding splitlines parse_env_lines
parse_env_file none = []
parse_env_file (some text) = parse_env_lines (splitlines text) []

is_digit : ℕ → Bool
is_digit c = leb b'0' c && leb c b'9'

unfoldable pub is_digits : Text → Bool
unfolding is_digit
is_digits [] = false
is_digits (c ∷ s) = all is_digit (c ∷ s)

digits_value : ℕ → Text → ℕ
digits_value n [] = n
digits_value n (c ∷ s) = digits_value (n * 10 + (c - b'0')) s

unsigned : Text → Option ℕ
unfolding is_digits digits_value
unsigned s = if is_digits s then some (digits_value 0 s) else none

negated : ℕ → ℤ
negated n = if n == 0 then pos 0 else negsuc (n - 1)

-- `int(text)`: blanks around a sign and digits. Underscores between digits are left out.
signed : Text → Option ℤ
unfolding unsigned negated
signed [] = none
signed (c ∷ s) =
    if c == b'-'
    then elim (unsigned s) [ none ↦ none | some n ↦ some (negated n) ]
    else if c == b'+'
    then elim (unsigned s) [ none ↦ none | some n ↦ some (pos n) ]
    else elim (unsigned (c ∷ s)) [ none ↦ none | some n ↦ some (pos n) ]

unfoldable pub int_of : Text → Option ℤ
unfolding signed strip
int_of text = signed (strip text)

-- A number that was read, if it is not below the minimum.
unfoldable pub accept_float : Text → ℕ → Option Float → Result WatchdogError Float
unfolding less
accept_float name minimum none = err (config_error name not_a_number)
accept_float name minimum (some x) =
    if less x minimum then err (config_error name too_small) else ok x

unfoldable pub accept_int : Text → ℕ → Option ℤ → Result WatchdogError ℤ
unfolding int_less
accept_int name minimum none = err (config_error name not_a_number)
accept_int name minimum (some n) =
    if int_less n minimum then err (config_error name too_small) else ok n

unfoldable pub parse_int : Text → Option Text → ℤ → ℕ → Result WatchdogError ℤ
unfolding accept_int int_of
parse_int name none default minimum = ok default
parse_int name (some value) default minimum =
    if is_nil value then ok default else accept_int name minimum (int_of value)

unfoldable pub schemed : Text → Text
unfolding contains
schemed host = if contains host (codes "://") then host else codes "http://" ++ host

unfoldable pub with_port : Text → Option Text → Result WatchdogError Text
unfolding strip is_digits
with_port host none = ok host
with_port host (some port) =
    if is_nil port
    then ok host
    else if is_digits (strip port)
    then ok (host ++ (codes ":" ++ strip port))
    else err (config_error (codes "AI_BRIDGE_PORT") not_numeric)

unfoldable pub build_base_url : Text → Option Text → Result WatchdogError Text
unfolding strip strip_right schemed with_port
build_base_url host port =
    if is_nil (strip_right (λ c. c == b'/') (strip host))
    then err (config_error (codes "AI_BRIDGE_MCP_HOST") required)
    else with_port (schemed (strip_right (λ c. c == b'/') (strip host))) port

key_or_empty : Option Text → Text
key_or_empty none = []
key_or_empty (some key) = key

-- What the program finds outside: the environment, and `float(text)`.
pub record Outside : Type 0 where
  pub environ : Text → Option Text
  pub float_of : Text → Option Float

module _ (outside : Outside) where
  -- `_get_setting` with no default
  unfoldable pub get_setting : Text → Values → Option Text
  unfolding lookup_value
  get_setting name file_values = elim (outside.environ name) [
    | some value ↦ some value
    | none ↦ lookup_value name file_values
  ]

  unfoldable pub parse_float : Text → Option Text → Float → ℕ → Result WatchdogError Float
  unfolding accept_float
  parse_float name none default minimum = ok default
  parse_float name (some value) default minimum =
      if is_nil value then ok default else accept_float name minimum (outside.float_of value)

  abbrev pub float_setting : Text → Values → ℕ → Result WatchdogError Float
  float_setting name values default =
      parse_float name (get_setting name values) (millis default) 100

  unfoldable pub settings : Values → Text → Result WatchdogError WatchdogConfig
  unfolding get_setting parse_float parse_int key_or_empty
  settings values base_url = do
    poll_interval ← float_setting (codes "AI_BRIDGE_POLL_INTERVAL") values 2000
    timeout ← float_setting (codes "AI_BRIDGE_TIMEOUT_SECONDS") values 1800000
    request_timeout ← float_setting (codes "AI_BRIDGE_REQUEST_TIMEOUT") values 15000
    errors ←
        parse_int (codes "AI_BRIDGE_MAX_TRANSIENT_ERRORS")
          (get_setting (codes "AI_BRIDGE_MAX_TRANSIENT_ERRORS") values) (pos 5) 1
    ok (record {
      base_url = base_url;
      api_key = key_or_empty (get_setting (codes "AI_BRIDGE_READ_KEY") values);
      poll_interval = poll_interval;
      timeout_seconds = timeout;
      request_timeout = request_timeout;
      max_transient_errors = errors;
    })

  unfoldable pub located : Values → Option Text → Result WatchdogError WatchdogConfig
  unfolding settings build_base_url get_setting
  located values none = err (config_error (codes "AI_BRIDGE_MCP_HOST") required)
  located values (some host) =
      if is_nil host
      then err (config_error (codes "AI_BRIDGE_MCP_HOST") required)
      else build_base_url host (get_setting (codes "AI_BRIDGE_PORT") values) >>= settings values

  -- `load_config`
  unfoldable pub load_config : Option Text → Result WatchdogError WatchdogConfig
  unfolding located parse_env_file get_setting
  load_config env_file =
      located (parse_env_file env_file)
        (get_setting (codes "AI_BRIDGE_MCP_HOST") (parse_env_file env_file))

-- The options of the command line that were given.
pub record Arguments : Type 0 where
  pub interval : Option Float
  pub timeout : Option Float
  pub request_timeout : Option Float
  pub max_transient_errors : Option ℤ

abbrev given {ℓ} : {A : Type ℓ} → Option A → A → A
given none old = old
given (some new) old = new

unfoldable pub config_with_overrides : WatchdogConfig → Arguments → WatchdogConfig
config_with_overrides config args = record {
  base_url = config.base_url;
  api_key = config.api_key;
  poll_interval = given args.interval config.poll_interval;
  timeout_seconds = given args.timeout config.timeout_seconds;
  request_timeout = given args.request_timeout config.request_timeout;
  max_transient_errors = given args.max_transient_errors config.max_transient_errors;
}
