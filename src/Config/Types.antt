-- ===== src/Config/Types.antt =====
-- internal/config/config.go and errors.go. An int or a duration below 0 is 0 here: every test of
-- the validator answers the same for both.
use cluster_db.Prelude.{ℕ, Bool, List}
use cluster_db.Prelude.Bytes.{Bytes}

pub record ServerConfig : Type 0 where
  pub host : Bytes
  pub port : ℕ
  pub read_timeout : ℕ
  pub write_timeout : ℕ
  pub idle_timeout : ℕ
  pub shutdown_timeout : ℕ
  pub environment : Bytes

pub record ClusterConfig : Type 0 where
  pub node_id : Bytes
  pub node_address : Bytes
  pub replication_factor : ℕ
  pub heartbeat_interval : ℕ
  pub failure_timeout : ℕ
  pub discovery_port : ℕ
  pub gossip_interval : ℕ
  pub gossip_fanout : ℕ

pub record WalConfig : Type 0 where
  pub enabled : Bool
  pub path : Bytes
  pub sync_on_write : Bool

pub record StorageConfig : Type 0 where
  pub engine : Bytes
  pub data_directory : Bytes
  pub sync_writes : Bool
  pub max_open_files : ℕ
  pub value_log_file_size : ℕ
  pub compression : Bytes
  pub wal : WalConfig
  pub checkpoint_enabled : Bool
  pub checkpoint_interval : ℕ
  pub checkpoint_size : ℕ
  pub wal_max_segment_size : ℕ
  pub wal_max_segments : ℕ
  pub replication_factor : ℕ
  pub write_quorum : ℕ
  pub read_quorum : ℕ

pub record LoggingConfig : Type 0 where
  pub level : Bytes
  pub encoding : Bytes
  pub development : Bool
  pub output_paths : List Bytes
  pub error_output_paths : List Bytes

pub record MetricsConfig : Type 0 where
  pub enabled : Bool
  pub port : ℕ

pub record AuthenticationConfig : Type 0 where
  pub jwt_secret : Bytes
  pub issuer : Bytes
  pub expiration : ℕ

pub record CacheConfig : Type 0 where
  pub enabled : Bool
  pub host : Bytes
  pub port : ℕ
  pub ttl : ℕ

pub record AiConfig : Type 0 where
  pub embedding_model : Bytes
  pub ollama_url : Bytes
  pub llm_model : Bytes
  pub vector_dimension : ℕ

pub record Settings : Type 0 where
  pub server : ServerConfig
  pub cluster : ClusterConfig
  pub storage : StorageConfig
  pub logging : LoggingConfig
  pub metrics : MetricsConfig
  pub authentication : AuthenticationConfig
  pub cache : CacheConfig
  pub ai : AiConfig

-- The sentinels that Validate wraps, and its three errors without one.
pub data ConfigError : Type 0 where
  invalid_port invalid_timeout invalid_replication_factor invalid_jwt_secret : ConfigError
  invalid_node_id invalid_data_directory invalid_logging_level : ConfigError
  invalid_storage_engine invalid_wal_path : ConfigError
  invalid_write_quorum invalid_read_quorum invalid_quorum : ConfigError
