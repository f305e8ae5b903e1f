-- ===== src/App.antt =====
-- internal/app: how the parts of a node are made from its settings, started and stopped.
pub mod Ready
use cluster_db.Prelude.{
  ℕ, ◌+◌, ◌/◌, Bool, true, false, not, some, Result, ok, err, [], ◌==◌, if◌then◌else◌,
}
use cluster_db.Prelude.Bytes.{Bytes}
use cluster_db.Config.Types.{Settings}
use cluster_db.Config.Loader.{Viper, LoadError, load_settings}
use cluster_db.Os.Disk.{Os, Disk}
use cluster_db.HashRing.Ring.{Sorter}
use cluster_db.Storage.Manager.{
  StorageManager, ManagerError, new_storage, open_storage, close_storage,
}
use cluster_db.Cluster.Membership.{new_membership}
use cluster_db.Cluster.Manager.{Manager, new_manager, start_manager, stop_manager}
use cluster_db.Cluster.Manager.Exchange.{set_gossip_engine}
use cluster_db.Cluster.Gossip.Rounds.{GossipEngine, new_engine, start_engine, stop_engine}
use cluster_db.Cluster.Handoff.{Hints}

-- Application, with the gossip engine and the hints that its parts share.
pub record Application : Type 0 where
  pub settings : Settings
  pub storage : StorageManager
  pub cluster : Manager
  pub engine : GossipEngine
  pub hints : Hints

-- The errors of New.
pub data StartError : Type 0 where
  configuration_failed : LoadError → StartError
  logger_failed : StartError
  storage_failed : ManagerError → StartError

-- A quorum of the settings, or a majority of the factor for one that is not positive.
abbrev pub quorum_or : ℕ → ℕ → ℕ
quorum_or rf q = if q == 0 then rf / 2 + 1 else q

-- The cluster manager of New.
unfoldable pub cluster_of : Sorter → Settings → Manager
cluster_of s cfg =
    let rf =
      if cfg.storage.replication_factor == 0
      then cfg.cluster.replication_factor
      else cfg.storage.replication_factor in
    record (new_manager s new_membership cfg.cluster.heartbeat_interval cfg.cluster.failure_timeout
      cfg.cluster.node_id cfg.cluster.node_address) {
        replication_factor = rf;
        write_quorum = quorum_or rf cfg.storage.write_quorum;
        read_quorum = quorum_or rf cfg.storage.read_quorum;
      }

-- The gossip engine of New.
unfoldable pub engine_of : Settings → GossipEngine
engine_of cfg =
    new_engine cfg.cluster.node_id cfg.cluster.node_address cfg.cluster.gossip_interval
      cfg.cluster.gossip_fanout cfg.cluster.failure_timeout

-- New, behind Load and the logger.
unfoldable pub application_of : Sorter → Settings → Disk → Result StartError Application
unfolding cluster_of engine_of
application_of s cfg d = elim (new_storage cfg.storage d) [
  | err e ↦ err (storage_failed e)
  | ok m ↦ ok (record {
    settings = cfg;
    storage = m;
    cluster = set_gossip_engine (some (engine_of cfg)) (cluster_of s cfg);
    engine = engine_of cfg;
    hints = [];
  })
]

-- New; `logs` says whether the logger could be made.
unfoldable pub new_application :
    (Bytes → Bytes) → Viper → Bytes → Bool → Sorter → Disk → Result StartError Application
unfolding application_of
new_application trim_space viper app_env logs s d = elim (load_settings trim_space viper app_env) [
  | err e ↦ err (configuration_failed e)
  | ok cfg ↦ if not logs then err logger_failed else application_of s cfg d
]

-- Run up to its wait for a signal. The HTTP server, which runs beside it, has no counterpart.
unfoldable pub start_application :
    Os → Sorter → Application → Result ManagerError (Unit {0}) × Application
start_application os s a =
    let r = open_storage os a.storage in
    elim r.0 [
      | err e ↦ (err e, record a { storage = r.1 })
      | ok u ↦ (
        ok tt,
        record a {
          storage = r.1;
          cluster = start_manager s a.cluster;
          engine = if a.cluster.started then a.engine else start_engine a.engine;
        },
      )
    ]

-- Shutdown; `drained` says whether the HTTP server shut down. An error of the store is only logged.
unfoldable pub shutdown_application : Os → Sorter → Bool → Application → Bool × Application
shutdown_application os s drained a = if not drained then (false, a) else (
  true,
  record a {
    storage = (close_storage os a.storage).1;
    cluster = stop_manager s a.cluster;
    engine = if a.cluster.started then stop_engine a.engine else a.engine;
  },
)
