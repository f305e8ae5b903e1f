-- ===== src/Server/Kv/Read.antt =====
-- handleGet, its failover and its read repair, and handleHead.
use cluster_db.Prelude.{ℕ, ◌+◌, Bool, false, not, ◌||◌, Option, none, some, Result, ok, err}
use cluster_db.Prelude.{List, [], ◌∷◌, ◌++◌, length, ltb, ◌==◌, if◌then◌else◌}
use cluster_db.Prelude.Bytes.{Bytes, text, bytes_eq}
use cluster_db.Prelude.Table.{Table, lookup, insert}
use cluster_db.Storage.Manager.{store_get}
use cluster_db.Os.Disk.{Os}
use cluster_db.HashRing.Ring.{Sorter}
use cluster_db.Cluster.Membership.{Node, is_alive}
use cluster_db.Cluster.Manager.{Manager, status_text, is_local_node}
use cluster_db.Server.Messages.{ReplicaGetResponse}
use cluster_db.Server.Node.{bytes_of}
use cluster_db.Server.Reply.{
  Reply, answered, refused, RpcError, of_manager, write_storage_error, write_gateway_error,
  map_remote_error,
}
use cluster_db.Server.Kv.State.{
  Peers, KvHandler, no_cluster, no_owners, owned_by, find_owners, find_local, is_here, get_route,
}
use cluster_db.Server.Kv.Write.{unavailable}

-- replicaReadResult; the result that the client got has no address.
pub record ReadResult : Type 0 where
  pub address : Bytes
  pub value : Bytes

-- counts[s]++, with the keys in the order of their first result.
unfoldable pub tally : List ReadResult → Table ℕ → Table ℕ
tally [] counts = counts
tally (r ∷ rs) counts =
    tally rs (insert r.value (elim (lookup r.value counts) [ none ↦ 1 | some n ↦ n + 1 ]) counts)

-- The loop of majorityValue over the keys.
unfoldable pub most : Table ℕ → Bytes → ℕ → Bytes
most [] majority best = majority
most ((k, n) ∷ counts) majority best =
    if ltb best n then most counts k n else most counts majority best

-- majorityValue
unfoldable pub majority_value : List ReadResult → Bytes
majority_value rs = most (tally rs []) [] 0

-- The repair that a read starts in the background.
pub record Repair : Type 0 where
  pub key : Bytes
  pub owners : List Node
  pub first : Bytes

-- Whether one of the owners is this node.
unfoldable pub owns_here : Option Manager → Node → List Node → Bool
unfolding is_here
owns_here c here [] = false
owns_here c here (o ∷ os) =
    elim c [ none ↦ false | some m ↦ is_local_node o.id m ] || is_here here o || owns_here c here os

module _ {W : Type 0} (p : Peers W) where
  -- One round of replicaReadWithFailover: the value, or the error that is kept.
  unfoldable pub read_one : Bytes → Node → W → Result Bytes Bytes × W
  read_one key n w =
      if not (is_alive n.status)
      then (
        err (
            text "node "
            ++ (n.id ++ (text " is not alive (status: " ++ (status_text n.status ++ text ")")))),
        w,
      )
      else let r = p.replica_get n.address (record { key = key }) w in
        (
          elim r.0 [
            | err e ↦ err (text "node " ++ (n.id ++ (text ": " ++ e.message)))
            | ok a ↦
                if not (length a.error == 0)
                then err (text "node " ++ (n.id ++ (text ": " ++ a.error)))
                else if not a.found
                then err (text "node " ++ (n.id ++ text ": key not found"))
                else ok a.value
          ],
          r.1,
        )

  unfoldable pub read_from : Bytes → List Node → Bytes → W → Result Bytes Bytes × W
  read_from key [] last w = (err last, w)
  read_from key (n ∷ ns) last w =
      let r = read_one key n w in elim r.0 [ ok v ↦ (ok v, r.1) | err e ↦ read_from key ns e r.1 ]

  -- replicaReadWithFailover
  unfoldable pub read_with_failover : Bytes → List Node → W → Result Bytes Bytes × W
  unfolding read_from
  read_with_failover key owners w = read_from key owners (text "key not found on any replica") w

  abbrev kept_answer : Bytes → Result RpcError ReplicaGetResponse → Option ReadResult
  kept_answer address (err e) = none
  kept_answer address (ok a) =
      if not (length a.error == 0) || not a.found
      then none
      else some (record { address = address; value = a.value })

  -- One round of the first loop of asyncReadRepair: the result that it keeps.
  unfoldable pub poll_one : Bytes → Node → W → Option ReadResult × W
  poll_one key n w =
      let r = p.replica_get n.address (record { key = key }) w in
      if not (is_alive n.status) then (none, w) else (kept_answer n.address r.0, r.1)

  unfoldable pub poll : Bytes → List Node → W → List ReadResult × W
  poll key [] w = ([], w)
  poll key (n ∷ ns) w =
      let r = poll_one key n w in
      let rest = poll key ns r.1 in (elim r.0 [ none ↦ rest.0 | some x ↦ x ∷ rest.0 ], rest.1)

  -- The second loop of asyncReadRepair.
  unfoldable pub repair_stale : Bytes → Bytes → List ReadResult → W → W
  repair_stale key canonical [] w = w
  repair_stale key canonical (r ∷ rs) w = repair_stale key canonical rs (
      if length r.address == 0 || bytes_eq r.value canonical
      then w
      else (p.replica_put r.address (record { key = key; value = some canonical; version = 0 })
          w).1)

  -- asyncReadRepair; the canonical value is never nil.
  unfoldable pub read_repair : Repair → W → W
  unfolding repair_stale
  read_repair q w =
      let polled = poll q.key q.owners w in
      let results : List ReadResult = record { address = []; value = q.first } ∷ polled.0 in
      if ltb (length results) 2
      then polled.1
      else repair_stale q.key (majority_value results) results polled.1

  -- handleHeadRemote
  unfoldable pub head_remote : Node → Bytes → KvHandler W → Reply × KvHandler W
  head_remote n key k =
      let r = p.kv_get n.address (record { key = key }) k.peers in
      (
        elim r.0 [
          | err e ↦ write_gateway_error e
          | ok a ↦
              if length a.error == 0
              then answered 200 []
              else write_storage_error (map_remote_error a.error)
        ],
        record k { peers = r.1 },
      )

  module _ (os : Os) where
    -- readLocal
    unfoldable pub read_local : Bytes → KvHandler W → Reply × KvHandler W
    read_local key k =
        let r = store_get os key k.store in
        (
          elim r.0 [
            | err e ↦ write_storage_error (of_manager e)
            | ok rec ↦ answered 200 (bytes_of rec.value)
          ],
          record k { store = r.1 },
        )

    -- handleGet, with the repair that it leaves to run.
    unfoldable pub handle_get : Sorter → Bytes → KvHandler W → Reply × Option Repair × KvHandler W
    unfolding read_local owns_here
    handle_get s key k =
        let f = find_owners s key k in
        elim f.0 [
          | no_cluster ↦ let r = read_local key f.1 in (r.0, none, r.1)
          | no_owners ↦
              (refused 503 (text "no owner node found on consistent hash ring"), none, f.1)
          | owned_by primary replicas ↦
              let h = find_local s f.1 in
              let mine = read_local key h.1 in
              let r = read_with_failover key (primary ∷ replicas) h.1.peers in
              let k1 : KvHandler W = record h.1 { peers = r.1 } in
              if owns_here h.1.cluster h.0 (primary ∷ replicas)
              then (mine.0, none, mine.1)
              else elim r.0 [
                | err e ↦ (refused 503 (text "all replicas failed: " ++ e), none, k1)
                | ok v ↦ (
                  answered 200 v,
                  some (record { key = key; owners = primary ∷ replicas; first = v }),
                  k1,
                )
              ]
        ]

    -- handleHead
    unfoldable pub handle_head : Sorter → Bytes → KvHandler W → Reply × KvHandler W
    unfolding head_remote
    handle_head s key k =
        let f = get_route s key k in
        elim f.0 [
          | none ↦ (refused 503 (text "no owner node found on consistent hash ring"), f.1)
          | some (o, here) ↦
              if here
              then (let r = store_get os key f.1.store in
                  (
                    elim r.0 [
                      | err e ↦ write_storage_error (of_manager e)
                      | ok rec ↦ answered 200 []
                    ],
                    record f.1 { store = r.1 },
                  ))
              else if not (is_alive o.status)
              then (refused 503 (unavailable (text "owner") o), f.1)
              else head_remote o key f.1
        ]
