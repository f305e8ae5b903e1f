-- ===== src/Tests/Kv.antt =====
-- The handlers of keys at a node of a cluster of two.
use cluster_db.Prelude.{
  ◌*◌, ◌<◌, length, ◌==◌, ◌≡◌, ap, ◌∙◌, arith, ◌⊎◌, refl, true, false, List, [], ◌∷◌, All, none,
  some, ok, err,
}
use cluster_db.Prelude.{if◌then◌else◌, ◌>>=◌}
use cluster_db.Prelude.Bytes.{Bytes, text, bytes_eq, bytes_eq_refl}
use cluster_db.Prelude.Table.{lookup, insert}
use cluster_db.Storage.Manager.{
  StorageManager, check_manager, delegate, store_put, store_get, store_delete,
}
use cluster_db.Memory.Engine.{Config, on_disk, check_open, validate_key}
use cluster_db.Memory.Lifecycle.{append_wal, maybe_checkpoint}
use cluster_db.Memory.Ops.{commit, put, get, delete, put_record}
use cluster_db.Os.Disk.{now}
use cluster_db.Wal.Crc.{crc32}
use cluster_db.HashRing.Ring.{
  new_ring, replica_owners, start_index, owners_loop, virtual_entries, virtual_key,
  add_node as ring_add,
}
use cluster_db.HashRing.Search.{search}
use cluster_db.Cluster.Membership.{Node, new_membership}
use cluster_db.Cluster.Manager.{
  Manager, joined, owners, owners_at, nodes_at, sync_hash_ring, ring_of, ring_from, ring_step,
  list_nodes, local_node,
}
use cluster_db.Cluster.Handoff.{hints_of}
use cluster_db.Server.Reply.{
  Reply, answered, refused, write_storage_error, sentinel_of, map_remote_error,
}
use cluster_db.Server.Kv.State.{Peers, KvHandler, replication_factor, is_here}
use cluster_db.Server.Kv.Write.{handle_put, handle_delete, put_local, delete_local, put_call}
use cluster_db.Server.Kv.Read.{
  ReadResult, handle_get, read_one, read_from, read_with_failover, tally, most, majority_value,
}
use cluster_db.Server.Kv.Failover.{IsFirst, IsSilent, read_with_failover-IsFirst}
use cluster_db.Server.Kv.Majority.{votes, majority_value-votes}
use cluster_db.Server.Kv.Path.{unslashed, extract_key_lem}
use cluster_db.Server.Kv.Serve.{extract_key}
use cluster_db.Server.Kv.RoundTrip.{
  IsPrimary, member, put_is_local, delete_is_local, handle_get-handle_put, handle_get-handle_delete,
  handle_put_covers,
}
use cluster_db.Server.Kv.Covered.{hinted}
use cluster_db.HashRing.Ring.{contains}
use cluster_db.Tests.Stable.{stable, arrange, place}
use cluster_db.Tests.Memory.{steady}

abbrev pub node_a : Node
node_a = joined (text "a") (text "h:1") 5

abbrev pub node_b : Node
node_b = joined (text "b") (text "h:2") 5

abbrev pub two : Manager
two = record {
  membership = record new_membership {
    nodes = (text "a", node_a) ∷ (text "b", node_b) ∷ [];
    local_node_id = text "a";
  };
  heartbeat_tick = 1;
  failure_timeout = 3;
  local_node_id = text "a";
  local_address = text "h:1";
  started = true;
  replication_factor = 2;
  write_quorum = 0;
  read_quorum = 0;
  hash_ring = new_ring 100;
  gossip = false;
}

two_owners :
    (owners stable (text "x") (replication_factor (some two)) two).0 ≡ some (node_a ∷ node_b ∷ [])
unfolding owners owners_at nodes_at sync_hash_ring ring_of ring_from ring_step list_nodes
    new_membership new_ring ring_add replica_owners owners_loop start_index search virtual_entries
    virtual_key crc32 lookup bytes_eq arrange place replication_factor
two_owners = refl

two_local : is_here (local_node stable two).0 node_a ≡ true
unfolding is_here local_node sync_hash_ring bytes_eq lookup
two_local = refl

-- Peers that take every write; the state is the addresses that have the value, and a read finds it
-- there.
abbrev willing : Peers (List Bytes)
willing = record {
  kv_get = λ a q w. (ok (record { value = text "1"; found = contains a w; error = [] }), w);
  kv_put = λ a q w. (ok (record { success = true; error = [] }), a ∷ w);
  kv_delete = λ a q w. (ok (record { success = true; error = [] }), []);
  replica_put = λ a q w. (ok (record { success = true; version = 1; error = [] }), a ∷ w);
  replica_delete = λ a q w. (ok (record { success = true; version = 2; error = [] }), []);
  replica_get = λ a q w. (
    ok (record {
      found = contains a w;
      value = text "1";
      version = 1;
      delete_marker = false;
      error = [];
    }),
    w,
  );
  now = λ w. 7;
}

abbrev pub volatile : Config
volatile = record {
  wal_enabled = false;
  wal_path = [];
  sync_on_write = false;
  checkpoint_enabled = false;
  checkpoint_interval = 0;
  checkpoint_size = 0;
  wal_max_segment_size = 0;
  wal_max_segments = 0;
}

abbrev pub opened : StorageManager
opened = record {
  engine = record {
    store = [];
    cfg = volatile;
    wal = none;
    is_open = true;
    created_at = 0;
    checkpoint_count = 0;
    replay_duration = 0;
    last_checkpoint = 0;
    maintenance = false;
    checkpoint = none;
    disk = record { files = []; calls = 0; readings = 0 };
  };
  is_open = true;
}

pub two-IsPrimary : IsPrimary stable (text "x") node_a (node_b ∷ []) two
two-IsPrimary = (two_owners, two_local)

abbrev at_a : KvHandler (List Bytes)
at_a = member opened two [] []

put_answer :
    (put_local willing steady
      (text "x")
      (text "1")
      (node_b ∷ [])
      (member opened (sync_hash_ring stable two) [] [])).0
    ≡ answered 201 []
unfolding put_local store_put store_get check_manager delegate put get commit validate_key
    check_open on_disk now append_wal maybe_checkpoint ◌>>=◌ insert lookup bytes_eq put_record
put_answer = refl

put_created :
    (handle_put willing steady stable (text "x") (some (text "1")) at_a).0 ≡ answered 201 []
put_created =
    ap (λ (r : Reply × KvHandler (List Bytes)). r.0)
      (put_is_local willing steady stable (text "x") node_a (node_b ∷ []) opened two [] []
        two-IsPrimary (text "1"))
    ∙ put_answer

handle_get-handle_put_example :
    (handle_get willing steady stable
      (text "x")
      (handle_put willing steady stable (text "x") (some (text "1")) at_a).1).0
    ≡ answered 200 (text "1")
handle_get-handle_put_example =
    handle_get-handle_put willing steady stable (text "x") node_a (node_b ∷ []) opened two [] []
      two-IsPrimary (text "1") put_created

delete_answer :
    (delete_local willing steady
      (text "x")
      (node_b ∷ [])
      (member opened (sync_hash_ring stable two) [] [])).0
    ≡ answered 204 []
unfolding delete_local store_delete check_manager delegate delete commit validate_key check_open
    on_disk now append_wal maybe_checkpoint ◌>>=◌ insert lookup bytes_eq
delete_answer = refl

handle_get-handle_delete_example :
    (handle_get willing steady stable
      (text "x")
      (handle_delete willing steady stable (text "x") at_a).1).0
    ≡ refused 404 (text "key not found")
handle_get-handle_delete_example =
    handle_get-handle_delete willing steady stable (text "x") node_a (node_b ∷ []) opened two [] []
      two-IsPrimary
      (ap (λ (r : Reply × KvHandler (List Bytes)). r.0)
          (delete_is_local willing steady stable (text "x") node_a (node_b ∷ []) opened two [] []
            two-IsPrimary)
        ∙ delete_answer)

abbrev Written : Bytes → List Bytes → Type 0
Written a w = contains a w ≡ true

b_is_covered :
    All
      (λ (n : Node).
        Written n.address
          (handle_put willing steady stable (text "x") (some (text "1")) at_a).1.peers
        ⊎ (hinted (text "put") (text "x") (text "1") (
              hints_of n.id
                (handle_put willing steady stable (text "x") (some (text "1")) at_a).1.hints)
            ≡ true))
      (node_b ∷ [])
unfolding put_call contains
b_is_covered =
    handle_put_covers willing steady stable (text "x") node_a (node_b ∷ []) opened two [] []
      two-IsPrimary Written (text "1") (λ a v e. ground (arith, bytes_eq_refl a))
      (λ a b v e. ground (arith, e)) put_created

read_with_failover-IsFirst_example :
    ((v : Bytes)
      → (read_with_failover willing (text "x") (node_a ∷ node_b ∷ []) (text "h:2" ∷ [])).0 ≡ ok v
      → IsFirst willing (text "x") (node_a ∷ node_b ∷ []) (text "h:2" ∷ []) v)
    × ((e : Bytes)
        → (read_with_failover willing (text "x") (node_a ∷ node_b ∷ []) (text "h:2" ∷ [])).0 ≡ err e
        → IsSilent willing (text "x") (node_a ∷ node_b ∷ []) (text "h:2" ∷ []))
read_with_failover-IsFirst_example =
    read_with_failover-IsFirst willing (text "x") (node_a ∷ node_b ∷ []) (text "h:2" ∷ [])

second_answers :
    (read_with_failover willing (text "x") (node_a ∷ node_b ∷ []) (text "h:2" ∷ [])).0
    ≡ ok (text "1")
unfolding read_with_failover read_from read_one contains bytes_eq
second_answers = refl

abbrev three_results : List ReadResult
three_results =
    record { address = []; value = text "old" }
    ∷ record { address = text "h:1"; value = text "new" }
    ∷ record { address = text "h:2"; value = text "new" }
    ∷ []

three_more : length three_results < 2 * votes (text "new") three_results
unfolding votes bytes_eq
three_more = omega arith

majority_value-votes_example : majority_value three_results ≡ text "new"
majority_value-votes_example = majority_value-votes three_results (text "new") three_more

-- The value that the client was given counts twice, once for the client and once for its replica, so
-- the value of one replica wins over that of two.
stale_wins :
    majority_value (
      record { address = []; value = text "old" }
      ∷ record { address = text "h:1"; value = text "old" }
      ∷ record { address = text "h:2"; value = text "new" }
      ∷ record { address = text "h:3"; value = text "new" }
      ∷ [])
    ≡ text "old"
unfolding majority_value tally most lookup insert bytes_eq
stale_wins = refl

slashed_key :
    extract_key (text "/v1/kv/a/b/")
    ≡ (if length (unslashed (text "a/b/")) == 0 then none else some (unslashed (text "a/b/")))
slashed_key = extract_key_lem (text "a/b/")

-- A missing key of another node is answered with 500: the text of its error is not the one that
-- mapRemoteError looks for.
remote_missing :
    write_storage_error (map_remote_error (text "storage manager: get: storage: key not found"))
    ≡ refused 500 (text "storage error")
unfolding write_storage_error sentinel_of map_remote_error bytes_eq
remote_missing = refl
