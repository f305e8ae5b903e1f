-- ===== src/Tests/Boot.antt =====
-- The RPC of nodes, and the replication of a PUT between two of them.
use cluster_db.Prelude.{
  ◌≡◌, ◌⊎◌, refl, ap, ◌∙◌, ◌++◌, Bool, true, false, none, some, Result, ok, err, [], ◌∷◌, All,
  length, take, drop, ◌==◌, if◌then◌else◌, ◌>>=◌,
}
use cluster_db.Prelude.Bytes.{Bytes, text, bytes_eq}
use cluster_db.Prelude.Table.{lookup, insert}
use cluster_db.Storage.Types.{Error}
use cluster_db.Storage.Manager.{check_manager, delegate, store_put, store_get}
use cluster_db.Memory.Engine.{on_disk, check_open, validate_key}
use cluster_db.Memory.Lifecycle.{append_wal, maybe_checkpoint}
use cluster_db.Memory.Ops.{commit, put, get, put_record}
use cluster_db.Os.Disk.{now}
use cluster_db.Cluster.Manager.{sync_hash_ring}
use cluster_db.Cluster.Handoff.{hints_of}
use cluster_db.Server.Messages.{ReplicaPutRequest, ReplicaPutResponse}
use cluster_db.Server.Reply.{Reply, answered}
use cluster_db.Server.Kv.State.{KvHandler, Peers}
use cluster_db.Cluster.Membership.{Node}
use cluster_db.Server.Kv.Write.{handle_put, put_local}
use cluster_db.Server.Kv.Covered.{hinted}
use cluster_db.Server.Kv.RoundTrip.{member, put_is_local}
use cluster_db.Server.Rpc.Http.{HttpRequest, HttpResponse, Codec, Json, Transfers}
use cluster_db.Server.Rpc.Endpoint.{RpcServer}
use cluster_db.Server.Rpc.Listener.{serve_rpc, replica_put_endpoint}
use cluster_db.Server.Rpc.Client.{Net}
use cluster_db.Server.Rpc.Delivery.{
  rpc_replica_put, endpoint_of, callback_of, call_of, path_of, outcome, received, IsLinked,
  call-outcome,
}
use cluster_db.Server.Boot.{NodeState, node_server}
use cluster_db.Server.Boot.World.{World, Wires, delivered}
use cluster_db.Server.Boot.Replicas.{node_peers, Readable, replicas-Readable}
use cluster_db.Tests.Stable.{stable}
use cluster_db.Tests.Memory.{steady}
use cluster_db.Tests.Kv.{opened, two, node_a, node_b, two-IsPrimary}

abbrev no_detail : Error → Bytes
no_detail e = []

-- A codec of a type that no message of the tests has.
abbrev unused : {A : Type 0} → Codec A
unused = record { encode = λ a. err []; decode = λ b. err [] }

abbrev put_codec : Codec ReplicaPutRequest
put_codec = record { encode = encode; decode = decode }
  where
    encode : ReplicaPutRequest → Result Bytes Bytes
    encode r = elim r.value [ none ↦ err [] | some v ↦ ok (r.version ∷ length r.key ∷ r.key ++ v) ]

    decode : Bytes → Result Bytes ReplicaPutRequest
    decode (version ∷ n ∷ s) =
        ok (record { key = take n s; value = some (drop n s); version = version })
    decode _ = err []

abbrev said_codec : Codec ReplicaPutResponse
said_codec = record {
  encode = λ r. ok ((if r.success then 1 else 0) ∷ r.version ∷ r.error);
  decode = decode;
}
  where
    decode : Bytes → Result Bytes ReplicaPutResponse
    decode (s ∷ version ∷ e) = ok (record { success = s == 1; version = version; error = e })
    decode _ = err []

abbrev plain : Json
plain = record {
  replica_put_request = put_codec;
  replica_put_response = said_codec;
  heartbeat_request = unused;
  heartbeat_response = unused;
  join_request = unused;
  join_response = unused;
  leave_request = unused;
  leave_response = unused;
  append_request = unused;
  append_response = unused;
  kv_get_request = unused;
  kv_get_response = unused;
  kv_put_request = unused;
  kv_put_response = unused;
  kv_delete_request = unused;
  kv_delete_response = unused;
  replica_delete_request = unused;
  replica_delete_response = unused;
  replica_get_request = unused;
  replica_get_response = unused;
  gossip_request = unused;
  gossip_response = unused;
}

abbrev the_put : ReplicaPutRequest
the_put = record { key = text "x"; value = some (text "1"); version = 0 }

put-Transfers : Transfers put_codec the_put
put-Transfers = (_, refl, refl)

said-Transfers : (r : ReplicaPutResponse) → Transfers said_codec r
said-Transfers r = (
  _,
  refl,
  ap (λ b. ok (record { success = b; version = r.version; error = r.error })) (told r.success),
)
  where
    told : (b : Bool) → ((if b then 1 else 0) == 1) ≡ b
    told true = refl
    told false = refl

abbrev node_b_state : NodeState
node_b_state = record { store = some opened; cluster = two; clock = 5; replays = [] }

abbrev server : RpcServer NodeState
server = node_server no_detail steady stable true

abbrev not_found : HttpRequest → HttpResponse
not_found r = record { status = 404; body = [] }

abbrev direct : Net NodeState
direct = record {
  create = λ a path. none;
  exchange = λ a r w. let x = serve_rpc plain not_found server r w in (ok x.0, x.1);
  status_line = λ status. [];
}

direct-IsLinked : IsLinked plain direct not_found server (text "h:2")
direct-IsLinked = record { creates = λ path. refl; exchanges = λ r w. refl }

call-outcome_example : call_of plain direct (text "h:2") rpc_replica_put the_put node_b_state ≡ (
  received direct
      (text "h:2")
      (path_of rpc_replica_put)
      (outcome
        (endpoint_of plain rpc_replica_put)
        (callback_of server rpc_replica_put)
        the_put
        node_b_state).0,
  (outcome
      (endpoint_of plain rpc_replica_put)
      (callback_of server rpc_replica_put)
      the_put
      node_b_state).1,
)
unfolding node_server replica_put_endpoint
call-outcome_example =
    call-outcome plain rpc_replica_put direct not_found server (text "h:2") the_put node_b_state
      direct-IsLinked put-Transfers (said-Transfers _)

-- A network that delivers everything.
abbrev sound : Wires
sound = record {
  fate = λ a r w. delivered;
  lost = record { canceled = false; deadline = false; message = text "lost" };
  parse = λ a. none;
  reason = λ status. [];
  other = not_found;
}

abbrev here : KvHandler World
here = member opened two [] ((text "h:2", node_b_state) ∷ [])

abbrev peers_of_a : Peers World
peers_of_a = node_peers plain sound no_detail steady stable true (λ w. 7)

put_stored :
    (put_local peers_of_a steady
      (text "x")
      (text "1")
      (node_b ∷ [])
      (member opened (sync_hash_ring stable two) [] ((text "h:2", node_b_state) ∷ []))).0
    ≡ answered 201 []
unfolding put_local store_put store_get check_manager delegate put get commit validate_key
    check_open on_disk now append_wal maybe_checkpoint ◌>>=◌ insert lookup bytes_eq put_record
put_stored = refl

put_created :
    (handle_put peers_of_a steady stable (text "x") (some (text "1")) here).0 ≡ answered 201 []
put_created =
    ap (λ (r : Reply × KvHandler World). r.0)
      (put_is_local peers_of_a steady stable (text "x") node_a (node_b ∷ []) opened two [] _
        two-IsPrimary (text "1"))
    ∙ put_stored

replicas-Readable_example :
    All
      (λ (n : Node).
        Readable plain sound no_detail steady stable true
          (λ w. 7)
          (text "x")
          (text "1")
          n.address
          (handle_put peers_of_a steady stable (text "x") (some (text "1")) here).1.peers
        ⊎ (hinted (text "put") (text "x") (text "1") (
              hints_of n.id
                (handle_put peers_of_a steady stable (text "x") (some (text "1")) here).1.hints)
            ≡ true))
      (node_b ∷ [])
replicas-Readable_example =
    replicas-Readable plain sound no_detail steady stable true (λ w. 7) (text "x") node_a
      (node_b ∷ []) opened two [] ((text "h:2", node_b_state) ∷ []) (text "1") two-IsPrimary
      put-Transfers (λ n. said-Transfers _) put_created
