-- ===== src/Config/Validator.antt =====
-- internal/config/validator.go.
pub mod Sound
use cluster_db.Prelude.{ℕ, ◌+◌, ◌^◌, ◌/◌, Bool, true, false, not, ◌&&◌, ◌||◌}
use cluster_db.Prelude.{[], ◌∷◌, length, leb, ltb, ◌==◌, if◌then◌else◌, Result, ok, err}
use cluster_db.Prelude.Bytes.{Bytes, text, bytes_eq}
use cluster_db.Config.Types.{
  Settings, StorageConfig, ConfigError, invalid_port, invalid_timeout, invalid_replication_factor,
  invalid_jwt_secret, invalid_node_id, invalid_data_directory, invalid_logging_level,
  invalid_storage_engine, invalid_wal_path, invalid_write_quorum, invalid_read_quorum,
  invalid_quorum,
}
use cluster_db.Config.Paths.{is_blank, to_lower, cleans_to_root}

abbrev pub Check : Type 0
Check = Result ConfigError (Unit {0})

-- `if err := a; err != nil { return err }`, and then `b`.
infixr 5 ◌and_then◌
abbrev pub ◌and_then◌ : Check → Check → Check
ok u and_then b = b
err e and_then b = err e

unfoldable pub validate_port : ℕ → Check
validate_port port = if ltb port 1 || ltb 65535 port then err invalid_port else ok tt

unfoldable pub validate_timeout : ℕ → Check
validate_timeout value = if value == 0 then err invalid_timeout else ok tt

unfoldable pub validate_replication_factor : ℕ → Check
validate_replication_factor value =
    if ltb value 1 || ltb 9 value then err invalid_replication_factor else ok tt

unfoldable pub validate_jwt_secret : Bytes → Check
validate_jwt_secret secret =
    if is_blank secret || ltb (length secret) 32 then err invalid_jwt_secret else ok tt

unfoldable pub validate_node_id : Bytes → Check
validate_node_id id = if is_blank id then err invalid_node_id else ok tt

unfoldable pub validate_data_directory : Bytes → Check
validate_data_directory path =
    if is_blank path
    then err invalid_data_directory
    else if cleans_to_root path
    then err invalid_data_directory
    else ok tt

-- The keys of the map of validateLoggingLevel.
unfoldable pub is_level : Bytes → Bool
is_level s =
    bytes_eq s (text "debug")
    || bytes_eq s (text "info")
    || bytes_eq s (text "warn")
    || bytes_eq s (text "error")

unfoldable pub validate_logging_level : Bytes → Check
validate_logging_level level =
    if not (is_level (to_lower level)) then err invalid_logging_level else ok tt

unfoldable pub validate_storage_engine : Bytes → Check
validate_storage_engine engine =
    if not (bytes_eq (to_lower engine) (text "memory")) then err invalid_storage_engine else ok tt

-- `r + w` is an int: from 2 ^ 63 on it is negative, and so not above the factor.
unfoldable pub validate_quorum_config : ℕ → ℕ → ℕ → Check
validate_quorum_config rf w r =
    if ltb rf 1
    then err invalid_replication_factor
    else if ltb w 1 || ltb rf w
    then err invalid_write_quorum
    else if ltb r 1 || ltb rf r
    then err invalid_read_quorum
    else if leb (2 ^ 63) (r + w) || leb (r + w) rf
    then err invalid_quorum
    else ok tt

-- The three numbers that Validate fills in for 0.
unfoldable pub effective_factor : Settings → ℕ
effective_factor cfg =
    if cfg.storage.replication_factor == 0
    then cfg.cluster.replication_factor
    else cfg.storage.replication_factor

unfoldable pub effective_quorum : ℕ → ℕ → ℕ
effective_quorum rf q = if q == 0 then rf / 2 + 1 else q

unfoldable pub validate_wal : StorageConfig → Check
validate_wal cfg = if cfg.wal.enabled && is_blank cfg.wal.path then err invalid_wal_path else ok tt

-- Validate
unfoldable pub validate : Settings → Check
validate cfg =
    let rf = effective_factor cfg in
    validate_port cfg.server.port
    and_then validate_port cfg.cluster.discovery_port
    and_then validate_port cfg.metrics.port
    and_then validate_port cfg.cache.port
    and_then validate_timeout cfg.server.read_timeout
    and_then validate_timeout cfg.server.write_timeout
    and_then validate_timeout cfg.server.idle_timeout
    and_then validate_timeout cfg.server.shutdown_timeout
    and_then validate_timeout cfg.cluster.heartbeat_interval
    and_then validate_timeout cfg.cluster.failure_timeout
    and_then validate_replication_factor cfg.cluster.replication_factor
    and_then validate_jwt_secret cfg.authentication.jwt_secret
    and_then validate_node_id cfg.cluster.node_id
    and_then validate_data_directory cfg.storage.data_directory
    and_then validate_storage_engine cfg.storage.engine
    and_then validate_wal cfg.storage
    and_then validate_logging_level cfg.logging.level
    and_then validate_quorum_config rf (effective_quorum rf cfg.storage.write_quorum)
        (effective_quorum rf cfg.storage.read_quorum)
