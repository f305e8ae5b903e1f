-- ===== src/Config/Validator/Sound.antt =====
-- Which settings Validate accepts.
use cluster_db.Prelude.{
  ℕ, zero, suc, ◌+◌, ◌^◌, ◌/◌, ◌≤◌, ◌<◌, ◌≡◌, ◌↔◌, ◌⊎◌, inl, inr, refl, arith, true, false,
}
use cluster_db.Prelude.{length, ok, err}
use cluster_db.Prelude.Bytes.{Bytes, text, bytes_eq_iff}
use cluster_db.Config.Types.{Settings, StorageConfig}
use cluster_db.Config.Paths.{is_blank, to_lower, cleans_to_root}
use cluster_db.Config.Validator.{
  Check, ◌and_then◌, validate_port, validate_timeout, validate_replication_factor,
  validate_jwt_secret, validate_node_id, validate_data_directory, is_level, validate_logging_level,
  validate_storage_engine, validate_quorum_config, effective_factor, effective_quorum, validate_wal,
  validate,
}

-- A number or, for 0, a majority of the factor.
abbrev pub or_majority : ℕ → ℕ → ℕ
or_majority factor zero = factor / 2 + 1
or_majority factor (suc q) = suc q

abbrev pub IsPort : ℕ → Type 0
IsPort p = (1 ≤ p) × (p ≤ 65535)

-- The conditions on the quorums of a replication factor; their sum is an int.
abbrev pub IsQuorum : ℕ → ℕ → ℕ → Type 0
IsQuorum factor w r =
    (1 ≤ factor)
    × (1 ≤ w)
    × (w ≤ factor)
    × (1 ≤ r)
    × (r ≤ factor)
    × (factor < r + w)
    × (r + w < 2 ^ 63)

abbrev pub IsSeverity : Bytes → Type 0
IsSeverity s = (s ≡ text "debug") ⊎ ((s ≡ text "info") ⊎ ((s ≡ text "warn") ⊎ (s ≡ text "error")))

pub record IsUsable (cfg : Settings) : Type 0 where
  pub server_port : IsPort cfg.server.port
  pub discovery_port : IsPort cfg.cluster.discovery_port
  pub metrics_port : IsPort cfg.metrics.port
  pub cache_port : IsPort cfg.cache.port
  pub read_timeout : 0 < cfg.server.read_timeout
  pub write_timeout : 0 < cfg.server.write_timeout
  pub idle_timeout : 0 < cfg.server.idle_timeout
  pub shutdown_timeout : 0 < cfg.server.shutdown_timeout
  pub heartbeat : 0 < cfg.cluster.heartbeat_interval
  pub failure : 0 < cfg.cluster.failure_timeout
  pub factor : (1 ≤ cfg.cluster.replication_factor) × (cfg.cluster.replication_factor ≤ 9)
  pub secret :
      (is_blank cfg.authentication.jwt_secret ≡ false) × (32 ≤ length cfg.authentication.jwt_secret)
  pub node_id : is_blank cfg.cluster.node_id ≡ false
  pub directory :
      (is_blank cfg.storage.data_directory ≡ false)
      × (cleans_to_root cfg.storage.data_directory ≡ false)
  pub engine : to_lower cfg.storage.engine ≡ text "memory"
  pub wal : cfg.storage.wal.enabled ≡ true → is_blank cfg.storage.wal.path ≡ false
  pub level : IsSeverity (to_lower cfg.logging.level)
  pub quorums :
      (n : ℕ)
      → ((cfg.storage.replication_factor ≡ 0) × (n ≡ cfg.cluster.replication_factor))
        ⊎ ((0 < cfg.storage.replication_factor) × (n ≡ cfg.storage.replication_factor))
      → IsQuorum n (or_majority n cfg.storage.write_quorum) (or_majority n cfg.storage.read_quorum)

and_then-ok : (a b : Check) → (a and_then b ≡ ok tt) ↔ ((a ≡ ok tt) × (b ≡ ok tt))
and_then-ok (ok u) b = (λ e. (refl, e), λ e. e.1)
and_then-ok (err x) b = (λ e. absurd (cc e), λ e. absurd (cc e.0))

port : (p : ℕ) → (validate_port p ≡ ok tt) ↔ IsPort p
unfolding validate_port
port p = (λ e. (ground arith, ground arith), λ h. ground arith)

timeout : (t : ℕ) → (validate_timeout t ≡ ok tt) ↔ (0 < t)
unfolding validate_timeout
timeout t = (λ e. ground arith, λ h. ground arith)

factor_ok : (n : ℕ) → (validate_replication_factor n ≡ ok tt) ↔ ((1 ≤ n) × (n ≤ 9))
unfolding validate_replication_factor
factor_ok n = (λ e. (ground arith, ground arith), λ h. ground arith)

secret_ok : (s : Bytes) → (validate_jwt_secret s ≡ ok tt) ↔ ((is_blank s ≡ false) × (32 ≤ length s))
unfolding validate_jwt_secret
secret_ok s = (λ e. (ground arith, ground arith), λ h. ground arith)

node_id_ok : (s : Bytes) → (validate_node_id s ≡ ok tt) ↔ (is_blank s ≡ false)
unfolding validate_node_id
node_id_ok s = (λ e. ground arith, λ h. ground arith)

directory_ok :
    (s : Bytes)
    → (validate_data_directory s ≡ ok tt) ↔ ((is_blank s ≡ false) × (cleans_to_root s ≡ false))
unfolding validate_data_directory
directory_ok s = (λ e. (ground arith, ground arith), λ h. ground arith)

engine_ok : (s : Bytes) → (validate_storage_engine s ≡ ok tt) ↔ (to_lower s ≡ text "memory")
unfolding validate_storage_engine
engine_ok s =
    let same = bytes_eq_iff (to_lower s) (text "memory") in
    (λ e. same.0 (ground arith), λ h. rw (same.1 h) refl)

wal_ok :
    (c : StorageConfig)
    → (validate_wal c ≡ ok tt) ↔ (c.wal.enabled ≡ true → is_blank c.wal.path ≡ false)
unfolding validate_wal
wal_ok c = (λ e on. ground arith, λ h. ground (arith, h))

is_level-IsSeverity : (s : Bytes) → (is_level s ≡ true) ↔ IsSeverity s
unfolding is_level
is_level-IsSeverity s =
    let d = bytes_eq_iff s (text "debug") in
    let i = bytes_eq_iff s (text "info") in
    let w = bytes_eq_iff s (text "warn") in
    let e = bytes_eq_iff s (text "error") in
    (
      λ q. ground (arith, q, d.0, i.0, w.0, e.0),
      λ h. elim h [
        | inl x ↦ ground (arith, d.1 x)
        | inr (inl x) ↦ ground (arith, i.1 x)
        | inr (inr (inl x)) ↦ ground (arith, w.1 x)
        | inr (inr (inr x)) ↦ ground (arith, e.1 x)
      ],
    )

level_ok : (s : Bytes) → (validate_logging_level s ≡ ok tt) ↔ IsSeverity (to_lower s)
unfolding validate_logging_level
level_ok s =
    let known = is_level-IsSeverity (to_lower s) in
    (λ e. known.0 (ground arith), λ h. ground (arith, known.1 h))

validate_quorum_config_ok : (n w r : ℕ) → (validate_quorum_config n w r ≡ ok tt) ↔ IsQuorum n w r
unfolding validate_quorum_config
validate_quorum_config_ok n w r = (λ e. ground arith, λ h. ground arith)

or_majority-effective : (n q : ℕ) → effective_quorum n q ≡ or_majority n q
unfolding effective_quorum
or_majority-effective n zero = refl
or_majority-effective n (suc q) = ground arith

quorums_ok :
    (cfg : Settings)
    → (validate_quorum_config
          (effective_factor cfg)
          (effective_quorum (effective_factor cfg) cfg.storage.write_quorum)
          (effective_quorum (effective_factor cfg) cfg.storage.read_quorum)
        ≡ ok tt)
      ↔ IsQuorum
          (effective_factor cfg)
          (or_majority (effective_factor cfg) cfg.storage.write_quorum)
          (or_majority (effective_factor cfg) cfg.storage.read_quorum)
quorums_ok cfg =
    rw
      (
        or_majority-effective (effective_factor cfg) cfg.storage.write_quorum,
        or_majority-effective (effective_factor cfg) cfg.storage.read_quorum,
      )
      (validate_quorum_config_ok (effective_factor cfg) _ _)

module _ (cfg : Settings) where
  -- The factor that the quorums are about.
  factor_cases :
      (n : ℕ)
      → ((cfg.storage.replication_factor ≡ 0) × (n ≡ cfg.cluster.replication_factor))
        ⊎ ((0 < cfg.storage.replication_factor) × (n ≡ cfg.storage.replication_factor))
      → effective_factor cfg ≡ n
  unfolding effective_factor
  factor_cases n (inl h) = ground arith
  factor_cases n (inr h) = ground arith

  factor_is :
      ((cfg.storage.replication_factor ≡ 0)
        × (effective_factor cfg ≡ cfg.cluster.replication_factor))
      ⊎ ((0 < cfg.storage.replication_factor)
          × (effective_factor cfg ≡ cfg.storage.replication_factor))
  unfolding effective_factor
  factor_is = ground arith

  -- The chain of Validate, as the conjunction of its checks.
  checks : (a b : Check) → a and_then b ≡ ok tt → (a ≡ ok tt) × (b ≡ ok tt)
  checks a b = (and_then-ok a b).0

  IsUsable-validate : validate cfg ≡ ok tt → IsUsable cfg
  unfolding validate
  IsUsable-validate e =
      let (p1, e1) = checks _ _ e in
      let (p2, e2) = checks _ _ e1 in
      let (p3, e3) = checks _ _ e2 in
      let (p4, e4) = checks _ _ e3 in
      let (t1, e5) = checks _ _ e4 in
      let (t2, e6) = checks _ _ e5 in
      let (t3, e7) = checks _ _ e6 in
      let (t4, e8) = checks _ _ e7 in
      let (t5, e9) = checks _ _ e8 in
      let (t6, f1) = checks _ _ e9 in
      let (rf, f2) = checks _ _ f1 in
      let (js, f3) = checks _ _ f2 in
      let (id, f4) = checks _ _ f3 in
      let (dd, f5) = checks _ _ f4 in
      let (en, f6) = checks _ _ f5 in
      let (wl, f7) = checks _ _ f6 in
      let (lv, q) = checks _ _ f7 in
      record {
        server_port = (port _).0 p1;
        discovery_port = (port _).0 p2;
        metrics_port = (port _).0 p3;
        cache_port = (port _).0 p4;
        read_timeout = (timeout _).0 t1;
        write_timeout = (timeout _).0 t2;
        idle_timeout = (timeout _).0 t3;
        shutdown_timeout = (timeout _).0 t4;
        heartbeat = (timeout _).0 t5;
        failure = (timeout _).0 t6;
        factor = (factor_ok _).0 rf;
        secret = (secret_ok _).0 js;
        node_id = (node_id_ok _).0 id;
        directory = (directory_ok _).0 dd;
        engine = (engine_ok _).0 en;
        wal = (wal_ok cfg.storage).0 wl;
        level = (level_ok _).0 lv;
        quorums = λ n h. rw (factor_cases n h) at ((quorums_ok cfg).0 q);
      }

  pass : (a b : Check) → a ≡ ok tt → b ≡ ok tt → a and_then b ≡ ok tt
  pass a b p q = (and_then-ok a b).1 (p, q)

  validate_usable : IsUsable cfg → validate cfg ≡ ok tt
  unfolding validate
  validate_usable u = pass _ _ ((port _).1 u.server_port) (
      pass _ _ ((port _).1 u.discovery_port) (
        pass _ _ ((port _).1 u.metrics_port) (
          pass _ _ ((port _).1 u.cache_port) (
            pass _ _ ((timeout _).1 u.read_timeout) (
              pass _ _ ((timeout _).1 u.write_timeout) (
                pass _ _ ((timeout _).1 u.idle_timeout) (
                  pass _ _ ((timeout _).1 u.shutdown_timeout) (
                    pass _ _ ((timeout _).1 u.heartbeat)
                      (pass _ _ ((timeout _).1 u.failure) rest)))))))))
    where
      rest :
          validate_replication_factor cfg.cluster.replication_factor
            and_then validate_jwt_secret cfg.authentication.jwt_secret
            and_then validate_node_id cfg.cluster.node_id
            and_then validate_data_directory cfg.storage.data_directory
            and_then validate_storage_engine cfg.storage.engine
            and_then validate_wal cfg.storage
            and_then validate_logging_level cfg.logging.level
            and_then validate_quorum_config
                (effective_factor cfg)
                (effective_quorum (effective_factor cfg) cfg.storage.write_quorum)
                (effective_quorum (effective_factor cfg) cfg.storage.read_quorum)
          ≡ ok tt
      rest = pass _ _ ((factor_ok _).1 u.factor) (
          pass _ _ ((secret_ok _).1 u.secret) (
            pass _ _ ((node_id_ok _).1 u.node_id) (
              pass _ _ ((directory_ok _).1 u.directory) (
                pass _ _ ((engine_ok _).1 u.engine) (
                  pass _ _ ((wal_ok cfg.storage).1 u.wal) (
                    pass _ _ ((level_ok _).1 u.level)
                      ((quorums_ok cfg).1 (u.quorums (effective_factor cfg) factor_is))))))))

-- Validate accepts exactly the settings whose ports lie in 1 .. 65535, whose timeouts are positive,
-- whose cluster factor lies in 1 .. 9, whose secret, node id and data directory are not blank, the
-- secret of 32 bytes at least and the directory neither "." nor "/", whose engine and logging level
-- are known in any case of letters, whose log has a path when it is on, and whose quorums, a
-- majority where they are 0, lie in 1 .. factor and add up to more than the factor and to an int.
pub validate-IsUsable : (cfg : Settings) → (validate cfg ≡ ok tt) ↔ IsUsable cfg
validate-IsUsable cfg = (IsUsable-validate cfg, validate_usable cfg)
