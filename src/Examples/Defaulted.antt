-- ===== src/Examples/Defaulted.antt =====
-- A configuration that gives one worker, by its base URL, and one key.
use ai_worker_bridge_mcp.Base.{
  ℕ, zero, suc, ◌≡◌, refl, true, some, List, [], ◌∷◌, ◌++◌, map, all, if◌then◌else◌, ◌==◌,
}
use ai_worker_bridge_mcp.Base.Text.{Text, codes, strip}
use ai_worker_bridge_mcp.Base.Exec.{ok}
use ai_worker_bridge_mcp.Config.{ScopedKeyConfig, read}
use ai_worker_bridge_mcp.Config.Fields.{Urls}
use ai_worker_bridge_mcp.Config.Loading.{load_config}
use ai_worker_bridge_mcp.Config.Validators.{is_id, worker_ids_unique, key_is_valid}
use ai_worker_bridge_mcp.Config.Defaults.{
  GivenWorker, IsBase, raw_config, plain_worker, plain_config, is_usable, load_config-plain_config,
}

-- The path of a URL, after the two slashes of its scheme.
abbrev pub path_after : ℕ → Text → Text
path_after slashes [] = []
path_after zero (c ∷ s) = if c == 47 then c ∷ s else path_after 0 s
path_after (suc zero) (c ∷ s) = if c == 47 then path_after 0 s else path_after 1 s
path_after (suc (suc n)) (c ∷ s) = if c == 47 then path_after 1 s else path_after (suc (suc n)) s

abbrev pub before_path : ℕ → Text → Text
before_path slashes [] = []
before_path zero (c ∷ s) = if c == 47 then [] else c ∷ before_path 0 s
before_path (suc zero) (c ∷ s) = c ∷ (if c == 47 then before_path 0 s else before_path 1 s)
before_path (suc (suc n)) (c ∷ s) =
    c ∷ (if c == 47 then before_path 1 s else before_path (suc (suc n)) s)

abbrev pub plain_urls : Urls
plain_urls = record {
  urlsplit = λ text. record {
    scheme = [];
    netloc = before_path 2 text;
    path = path_after 2 text;
    query = [];
    fragment = [];
  };
  urlunsplit = λ parts. parts.netloc ++ parts.path;
  http_url = λ text. some text;
}

abbrev bob : GivenWorker
bob = record {
  worker_id = "bob";
  display_name = codes "Bob";
  endpoint_url = codes "http://bob:8642";
  model_name = codes "test-model";
  kept_url = codes "http://bob:8642/v1/chat/completions";
}

bob-IsBase : IsBase plain_urls bob
unfolding strip
bob-IsBase = record { stripped = refl; some_text = refl; no_path = refl; kept = refl }

abbrev keys : List ScopedKeyConfig
keys = record { key_id = "reader"; env = "READER_KEY"; scopes = read ∷ [] } ∷ []

are_usable : all is_usable (bob ∷ []) ≡ true
unfolding is_id
are_usable = refl

are_unique : worker_ids_unique (map plain_worker (bob ∷ [])) ≡ true
unfolding worker_ids_unique
are_unique = refl

are_valid : all key_is_valid keys ≡ true
unfolding key_is_valid
are_valid = refl

load_config-plain_config_example :
    load_config plain_urls (ok (raw_config (bob ∷ []) keys))
    ≡ ok (plain_config (map plain_worker (bob ∷ [])) keys)
load_config-plain_config_example =
    load_config-plain_config plain_urls (bob ∷ []) keys (bob-IsBase, tt) are_usable are_unique
      are_valid refl
