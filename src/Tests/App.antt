-- ===== src/Tests/App.antt =====
-- A node of the default settings.
use cluster_db.Prelude.{◌≡◌, refl, true, false, some, ok, []}
use cluster_db.Prelude.Bytes.{text, bytes_eq}
use cluster_db.Prelude.Split.{split}
use cluster_db.Config.Paths.{is_blank, to_lower, kept, cleans_to_root}
use cluster_db.Config.Validator.{
  validate, validate_port, validate_timeout, validate_replication_factor, validate_jwt_secret,
  validate_node_id, validate_data_directory, is_level, validate_logging_level,
  validate_storage_engine, validate_quorum_config, effective_factor, effective_quorum, validate_wal,
}
use cluster_db.Config.Loader.{
  Viper, default_settings, load_settings, resolve_config_name, is_supported_environment,
}
use cluster_db.Os.Disk.{Disk}
use cluster_db.Memory.Engine.{new_engine as new_memory}
use cluster_db.Storage.Manager.{new_storage, build, engine_config}
use cluster_db.Cluster.Manager.Exchange.{set_gossip_engine}
use cluster_db.App.{Application, cluster_of, engine_of, application_of, new_application}
use cluster_db.App.Ready.{IsReady, new_application-IsReady}
use cluster_db.Tests.Stable.{stable}

-- A viper that finds every file, without any setting in it.
abbrev no_settings : Viper
no_settings = record { read_in_config = λ name. ok tt; unmarshal = λ name. some default_settings }

abbrev blank_disk : Disk
blank_disk = record { files = []; calls = 0; readings = 0 }

abbrev default_node : Application
default_node = record {
  settings = default_settings;
  storage = record {
    engine = new_memory (engine_config default_settings.storage) blank_disk;
    is_open = false;
  };
  cluster =
      set_gossip_engine (some (engine_of default_settings)) (cluster_of stable default_settings);
  engine = engine_of default_settings;
  hints = [];
}

node_made :
    new_application (λ s. s) no_settings (text "docker") true stable blank_disk ≡ ok default_node
unfolding new_application application_of new_storage build load_settings resolve_config_name
    is_supported_environment validate validate_port validate_timeout validate_replication_factor
    validate_jwt_secret validate_node_id validate_data_directory is_level validate_logging_level
    validate_storage_engine validate_quorum_config effective_factor effective_quorum validate_wal
    is_blank to_lower kept cleans_to_root split bytes_eq
node_made = refl

new_application-IsReady_example : IsReady stable default_node
new_application-IsReady_example =
    new_application-IsReady (λ s. s) no_settings (text "docker") true stable blank_disk default_node
      node_made
