-- ===== src/App/Ready.antt =====
-- What New promises of the node that it makes.
use cluster_db.Prelude.{
  ℕ, zero, suc, ◌<◌, ◌≡◌, refl, arith, true, Bool, Result-cases, inl, inr, ◌⊎◌, false, [],
}
use cluster_db.Prelude.{ok, some, Bool-cases, ◌==◌}
use cluster_db.Prelude.Bytes.{Bytes}
use cluster_db.Config.Types.{Settings, StorageConfig}
use cluster_db.Config.Loader.{Viper, load_settings}
use cluster_db.Config.Validator.{validate}
use cluster_db.Config.Validator.Sound.{IsUsable, IsQuorum, or_majority, validate-IsUsable}
use cluster_db.Os.Disk.{Disk}
use cluster_db.HashRing.Ring.{Sorter}
use cluster_db.Storage.Manager.{StorageManager, build, new_storage}
use cluster_db.Cluster.Manager.Exchange.{set_gossip_engine}
use cluster_db.Cluster.Manager.History.{IsSynced, history-IsSynced}
use cluster_db.Cluster.Gossip.Rounds.{new_engine}
use cluster_db.App.{Application, cluster_of, engine_of, application_of, new_application, quorum_or}

-- A node that can start: its quorums fit its factor and overlap, its ring is that of its members,
-- and its gossip engine has an interval, peers to talk to and a timeout.
pub record IsReady (s : Sorter) (a : Application) : Type 0 where
  pub quorums : IsQuorum a.cluster.replication_factor a.cluster.write_quorum a.cluster.read_quorum
  pub synced : IsSynced s a.cluster
  pub gossip : a.cluster.gossip ≡ true
  pub interval : 0 < a.engine.interval
  pub fanout : 0 < a.engine.fanout
  pub timeout : 0 < a.engine.failure_timeout
  pub closed : a.storage.is_open ≡ false

load_settings-IsUsable :
    (trim_space : Bytes → Bytes) (viper : Viper) (app_env : Bytes) (cfg : Settings)
    → load_settings trim_space viper app_env ≡ ok cfg
    → IsUsable cfg
unfolding load_settings
load_settings-IsUsable trim_space viper app_env cfg h =
    let v : validate cfg ≡ ok tt = ground (arith, h) in (validate-IsUsable cfg).0 v

quorum_or_lem : (rf q : ℕ) → quorum_or rf q ≡ or_majority rf q
quorum_or_lem rf zero = refl
quorum_or_lem rf (suc q) = ground arith

quorums_of :
    (s : Sorter) (cfg : Settings) (n : ℕ)
    → (cluster_of s cfg).replication_factor ≡ n
    → IsQuorum n (or_majority n cfg.storage.write_quorum) (or_majority n cfg.storage.read_quorum)
    → IsQuorum
        (cluster_of s cfg).replication_factor
        (cluster_of s cfg).write_quorum
        (cluster_of s cfg).read_quorum
unfolding cluster_of
quorums_of s cfg n e q =
    let rf = (cluster_of s cfg).replication_factor in
    rw (quorum_or_lem rf cfg.storage.write_quorum, quorum_or_lem rf cfg.storage.read_quorum)
      (rw e q)

factor_of :
    (s : Sorter) (cfg : Settings)
    → ((cfg.storage.replication_factor ≡ 0)
        × ((cluster_of s cfg).replication_factor ≡ cfg.cluster.replication_factor))
      ⊎ ((0 < cfg.storage.replication_factor)
          × ((cluster_of s cfg).replication_factor ≡ cfg.storage.replication_factor))
unfolding cluster_of
factor_of s cfg = elim (Bool-cases (cfg.storage.replication_factor == 0)) [
  | inl z ↦ inl (ground (arith, z), ground (arith, z))
  | inr p ↦ inr (ground (arith, p), ground (arith, p))
]

cluster_of-IsSynced : (s : Sorter) (cfg : Settings) → IsSynced s (cluster_of s cfg)
unfolding cluster_of
cluster_of-IsSynced s cfg =
    let i =
      history-IsSynced s [] cfg.cluster.heartbeat_interval cfg.cluster.failure_timeout
        cfg.cluster.node_id cfg.cluster.node_address in
    record { hook = i.hook; keyed = i.keyed; ring = i.ring }

engine_timed :
    (cfg : Settings)
    → (0 < (engine_of cfg).interval)
      × (0 < (engine_of cfg).fanout)
      × (0 < (engine_of cfg).failure_timeout)
unfolding engine_of new_engine
engine_timed cfg = (ground arith, ground arith, ground arith)

unopened :
    (cfg : StorageConfig) (d : Disk) (m : StorageManager)
    → new_storage cfg d ≡ ok m
    → m.is_open ≡ false
unfolding new_storage build
unopened cfg d m h = ground (arith, h)

-- What application_of makes.
made :
    (s : Sorter) (cfg : Settings) (d : Disk) (a : Application)
    → application_of s cfg d ≡ ok a
    → (a.cluster ≡ set_gossip_engine (some (engine_of cfg)) (cluster_of s cfg))
      × (a.engine ≡ engine_of cfg)
      × (a.storage.is_open ≡ false)
unfolding application_of
made s cfg d a h = elim (Result-cases (new_storage cfg.storage d)) [
  | inl (m, q) ↦
      let o = unopened cfg.storage d m q in
      (ground (arith, h, q), ground (arith, h, q), ground (arith, h, q, o))
  | inr (e, q) ↦ absurd (ground (arith, h, q))
]

application_of-IsReady :
    (s : Sorter) (cfg : Settings) (d : Disk) (a : Application)
    → IsUsable cfg
    → application_of s cfg d ≡ ok a
    → IsReady s a
unfolding set_gossip_engine
application_of-IsReady s cfg d a u h =
    let (c, e, o) = made s cfg d a h in
    let i = cluster_of-IsSynced s cfg in
    let t = engine_timed cfg in
    record {
      quorums = rw c (
          quorums_of s cfg _ refl
            (u.quorums (cluster_of s cfg).replication_factor (factor_of s cfg)));
      synced = rw c (record { hook = i.hook; keyed = i.keyed; ring = i.ring });
      gossip = rw c refl;
      interval = rw e t.0;
      fanout = rw e t.1;
      timeout = rw e t.2;
      closed = o;
    }

-- A node that New makes of a configuration that Load accepted has quorums between one and its
-- replication factor that overlap, members keyed by their ids and a ring that is theirs, a gossip
-- engine with a positive interval, fanout and timeout, and a store that is not open yet.
pub new_application-IsReady :
    (trim_space : Bytes → Bytes) (viper : Viper) (app_env : Bytes) (logs : Bool) (s : Sorter)
    (d : Disk) (a : Application)
    → new_application trim_space viper app_env logs s d ≡ ok a
    → IsReady s a
unfolding new_application
new_application-IsReady trim_space viper app_env logs s d a h =
    elim (Result-cases (load_settings trim_space viper app_env)) [
      | inr (e, q) ↦ absurd (ground (arith, h, q))
      | inl (cfg, q) ↦
          let made_of : application_of s cfg d ≡ ok a = ground (arith, h, q) in
          application_of-IsReady s cfg d a (load_settings-IsUsable trim_space viper app_env cfg q)
            made_of
    ]
