-- ===== src/Config/Loader.antt =====
-- internal/config/loader.go and defaults.go: how the settings are found. viper and strings.TrimSpace
-- are parameters.
use cluster_db.Prelude.{
  ℕ, ◌*◌, Bool, true, false, not, ◌||◌, Option, none, some, Result, ok, err, [], ◌∷◌,
}
use cluster_db.Prelude.{length, ◌==◌, if◌then◌else◌}
use cluster_db.Prelude.Bytes.{Bytes, text, bytes_eq}
use cluster_db.Config.Types.{Settings, ConfigError}
use cluster_db.Config.Validator.{validate}

abbrev second : ℕ
second = 1000000000

-- Defaults
abbrev pub default_settings : Settings
default_settings = record {
  server = record {
    host = text "0.0.0.0";
    port = 8080;
    read_timeout = 15 * second;
    write_timeout = 15 * second;
    idle_timeout = 60 * second;
    shutdown_timeout = 10 * second;
    environment = text "development";
  };
  cluster = record {
    node_id = text "node-1";
    node_address = text "127.0.0.1:9000";
    replication_factor = 3;
    heartbeat_interval = 5 * second;
    failure_timeout = 30 * second;
    discovery_port = 9001;
    gossip_interval = second;
    gossip_fanout = 3;
  };
  storage = record {
    engine = text "memory";
    data_directory = text "./data";
    sync_writes = true;
    max_open_files = 1000;
    value_log_file_size = 1073741824;
    compression = text "snappy";
    wal = record { enabled = false; path = text "./data/clusterdb.wal"; sync_on_write = true };
    checkpoint_enabled = true;
    checkpoint_interval = 60 * second;
    checkpoint_size = 67108864;
    wal_max_segment_size = 16777216;
    wal_max_segments = 4;
    replication_factor = 3;
    write_quorum = 2;
    read_quorum = 2;
  };
  logging = record {
    level = text "info";
    encoding = text "json";
    development = false;
    output_paths = text "stdout" ∷ [];
    error_output_paths = text "stderr" ∷ [];
  };
  metrics = record { enabled = true; port = 9090 };
  authentication = record {
    jwt_secret = text "change-me-in-production-key-32-chars";
    issuer = text "clusterdb";
    expiration = 86400 * second;
  };
  cache = record { enabled = false; host = text "127.0.0.1"; port = 6379; ttl = 300 * second };
  ai = record {
    embedding_model = text "nomic-embed-text";
    ollama_url = text "http://127.0.0.1:11434";
    llm_model = text "llama3.1";
    vector_dimension = 768;
  };
}

-- isSupportedEnvironment
unfoldable pub is_supported_environment : Bytes → Bool
is_supported_environment env =
    bytes_eq env (text "development")
    || bytes_eq env (text "production")
    || bytes_eq env (text "docker")

-- resolveConfigName, of the environment variable APP_ENV.
unfoldable pub resolve_config_name : (Bytes → Bytes) → Bytes → Bytes
unfolding is_supported_environment
resolve_config_name trim_space app_env =
    let env = trim_space app_env in
    let name = if length env == 0 then text "development" else env in
    if not (is_supported_environment name) then text "development" else name

-- The errors of ReadInConfig: of a file that is not there, or any other.
pub data ReadError : Type 0 where
  file_missing unreadable : ReadError

-- viper, with the defaults and the bindings of Load: ReadInConfig and Unmarshal for the name of a
-- file.
pub record Viper : Type 0 where
  pub read_in_config : Bytes → Result ReadError (Unit {0})
  pub unmarshal : Bytes → Option Settings

pub data LoadError : Type 0 where
  config_file_not_found : Bytes → LoadError
  read_failed decode_failed : LoadError
  invalid_settings : ConfigError → LoadError

-- Load
unfoldable pub load_settings : (Bytes → Bytes) → Viper → Bytes → Result LoadError Settings
unfolding resolve_config_name
load_settings trim_space viper app_env =
    let name = resolve_config_name trim_space app_env in
    elim (viper.read_in_config name) [
      | err e ↦ elim e [
        | file_missing ↦ err (config_file_not_found name)
        | unreadable ↦ err read_failed
      ]
      | ok u ↦ elim (viper.unmarshal name) [
        | none ↦ err decode_failed
        | some cfg ↦ elim (validate cfg) [ err e ↦ err (invalid_settings e) | ok v ↦ ok cfg ]
      ]
    ]
