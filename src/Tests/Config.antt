-- ===== src/Tests/Config.antt =====
-- The validator at one configuration.
use cluster_db.Prelude.{ℕ, ◌≡◌, ◌↔◌, refl, true, false, [], ok, err}
use cluster_db.Prelude.Bytes.{text, bytes_eq}
use cluster_db.Prelude.Split.{split}
use cluster_db.Config.Types.{Settings, invalid_quorum}
use cluster_db.Config.Paths.{is_blank, to_lower, kept, cleans_to_root}
use cluster_db.Config.Validator.{
  validate, validate_port, validate_timeout, validate_replication_factor, validate_jwt_secret,
  validate_node_id, validate_data_directory, is_level, validate_logging_level,
  validate_storage_engine, validate_quorum_config, effective_factor, effective_quorum, validate_wal,
}
use cluster_db.Config.Validator.Sound.{IsUsable, validate-IsUsable}

-- Three replicas, with a write quorum of 2 and the given read quorum.
abbrev settings : ℕ → Settings
settings read = record {
  server = record {
    host = text "h";
    port = 8080;
    read_timeout = 5;
    write_timeout = 5;
    idle_timeout = 5;
    shutdown_timeout = 5;
    environment = text "test";
  };
  cluster = record {
    node_id = text "a";
    node_address = text "h:1";
    replication_factor = 3;
    heartbeat_interval = 1;
    failure_timeout = 3;
    discovery_port = 7946;
    gossip_interval = 1;
    gossip_fanout = 2;
  };
  storage = record {
    engine = text "Memory";
    data_directory = text "./data/../db";
    sync_writes = true;
    max_open_files = 1;
    value_log_file_size = 1;
    compression = text "none";
    wal = record { enabled = true; path = text "w"; sync_on_write = true };
    checkpoint_enabled = false;
    checkpoint_interval = 0;
    checkpoint_size = 0;
    wal_max_segment_size = 0;
    wal_max_segments = 0;
    replication_factor = 0;
    write_quorum = 2;
    read_quorum = read;
  };
  logging = record {
    level = text "INFO";
    encoding = text "json";
    development = false;
    output_paths = [];
    error_output_paths = [];
  };
  metrics = record { enabled = true; port = 9090 };
  authentication = record {
    jwt_secret = text "0123456789abcdef0123456789abcdef";
    issuer = text "i";
    expiration = 1;
  };
  cache = record { enabled = false; host = text "h"; port = 6379; ttl = 1 };
  ai = record { embedding_model = []; ollama_url = []; llm_model = []; vector_dimension = 0 };
}

validate-IsUsable_example : (validate (settings 0) ≡ ok tt) ↔ IsUsable (settings 0)
validate-IsUsable_example = validate-IsUsable (settings 0)

majority_accepted : (validate (settings 0) ≡ ok tt) × (validate (settings 1) ≡ err invalid_quorum)
unfolding validate validate_port validate_timeout validate_replication_factor validate_jwt_secret
    validate_node_id validate_data_directory is_level validate_logging_level validate_storage_engine
    validate_quorum_config effective_factor effective_quorum validate_wal is_blank to_lower kept
    cleans_to_root split bytes_eq
majority_accepted = (refl, refl)
