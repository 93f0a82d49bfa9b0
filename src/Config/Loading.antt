-- ===== src/Config/Loading.antt =====
-- config.py: the runtime paths, and `load_config` from the path of its file. The environment and
-- `Path(text).expanduser()` are parameters; a file that opens gives the validated fields of its YAML, or
-- the text of another exception.
use ai_worker_bridge_mcp.Base.{String, ◌++◌, Option, none, some, [], ◌∷◌}
use ai_worker_bridge_mcp.Base.Text.{Text, codes}
use ai_worker_bridge_mcp.Base.Exec.{Result, ok, err}
use ai_worker_bridge_mcp.Config.Validators.{AppConfig, checked_config}
use ai_worker_bridge_mcp.Config.Fields.{Urls, RawConfig, filled}

pub record RuntimePaths : Type 0 where
  pub config_path : Text
  pub data_dir : Text
  pub log_dir : Text

-- `os.getenv(name, default)`
unfoldable pub env_or : Option Text → Text → Text
env_or none text = text
env_or (some given) text = given

unfoldable pub runtime_paths : (String → Option Text) → (Text → Text) → RuntimePaths
unfolding env_or
runtime_paths getenv expanduser = record {
  config_path = expanduser (env_or (getenv "AI_BRIDGE_CONFIG") (codes "config.yaml"));
  data_dir = expanduser (env_or (getenv "AI_BRIDGE_DATA_DIR") (codes "./data"));
  log_dir = expanduser (env_or (getenv "AI_BRIDGE_LOG_DIR") (codes "./logs"));
}

-- `Path(path) if path else runtime_paths().config_path`
unfoldable pub resolved_path : Option Text → RuntimePaths → Text
resolved_path none paths = paths.config_path
resolved_path (some []) paths = paths.config_path
resolved_path (some (c ∷ path)) paths = c ∷ path

-- `load_config`, from what opening the file and reading its YAML gives, or raises.
unfoldable pub load_config : Urls → Result Text RawConfig → Result Text AppConfig
unfolding checked_config filled
load_config urls (err text) = err text
load_config urls (ok raw) = checked_config (filled urls raw)

-- What opening and reading the file ends with.
pub data Opened : Type 0 where
  not_found : Opened
  permission_denied : Opened
  other_failure : Text → Opened
  given : RawConfig → Opened

unfoldable pub read_file : Text → Opened → Result Text RawConfig
read_file path not_found = err (
    codes "Configuration file not found: "
    ++ (path
        ++ codes
            ". Create it from config.yaml.example or set AI_BRIDGE_CONFIG to a readable file."))
read_file path permission_denied = err (
    codes "Permission denied reading configuration file: "
    ++ (path
        ++ codes
            ". Ensure the file is readable by the app user, for example chmod 644 config.yaml."))
read_file path (other_failure text) = err text
read_file path (given raw) = ok raw

unfoldable pub load_config_at :
    Urls
    → (String → Option Text)
    → (Text → Text)
    → Option Text
    → (Text → Opened)
    → Result Text AppConfig
unfolding runtime_paths resolved_path read_file load_config
load_config_at urls getenv expanduser path open_file =
    let resolved = resolved_path path (runtime_paths getenv expanduser) in
    load_config urls (read_file resolved (open_file resolved))
