-- ===== src/Server/Boot/Replicas.antt =====
-- What a PUT that the primary acknowledged leaves in the stores of the nodes of a cluster.
use cluster_db.Prelude.{
  ◌≡◌, ◌⊎◌, inl, inr, refl, sym, ap, ◌∙◌, arith, Bool, true, some, length, ◌==◌, Bool-cases, ok,
  List, [], ◌∷◌, All,
}
use mathlib.Core.Path.{subst}
use cluster_db.Prelude.Bytes.{Bytes, text, bytes_eq, bytes_eq_iff, bytes_eq_refl}
use cluster_db.Prelude.Table.{lookup, insert, lookup-insert}
use cluster_db.Storage.Time.{Time}
use cluster_db.Storage.Types.{Error, Record}
use cluster_db.Storage.Manager.{StorageManager, store_put, store_get}
use cluster_db.Os.Disk.{Os}
use cluster_db.HashRing.Ring.{Sorter}
use cluster_db.Cluster.Membership.{Node}
use cluster_db.Cluster.Manager.{Manager}
use cluster_db.Cluster.Handoff.{Hints, hints_of}
use cluster_db.Server.Messages.{ReplicaPutRequest}
use cluster_db.Server.Reply.{answered}
use cluster_db.Server.Kv.State.{Peers}
use cluster_db.Server.Kv.Write.{put_call, handle_put}
use cluster_db.Server.Kv.Covered.{hinted}
use cluster_db.Server.Kv.RoundTrip.{IsPrimary, member, handle_put_covers}
use cluster_db.Server.Rpc.Http.{Json, Transfers}
use cluster_db.Server.Rpc.Client.{rpc_peers}
use cluster_db.Server.Rpc.Delivery.{read_written}
use cluster_db.Server.Boot.{NodeState, node_server}
use cluster_db.Server.Boot.Served.{
  HasValue, store_put-HasValue, store_put-HasValue_new, store_get-HasValue, rec_of, served_store,
  served_acked,
}
use cluster_db.Server.Boot.World.{World, Wires, net_of, put_answer, put_after, replica_put-Outcome}

module _ (j : Json) (wires : Wires) (detail : Error → Bytes) (os : Os) (s : Sorter)
    (clustered : Bool) (clock : World → Time) where
  -- The client of the primary, over the network of the nodes.
  abbrev pub node_peers : Peers World
  node_peers = rpc_peers j (net_of j wires (node_server detail os s clustered)) clock

  -- The node at the address has the value in its store.
  record Stores (key value a : Bytes) (w : World) : Type 0 where
    node : NodeState
    there : lookup a w ≡ some node
    store : StorageManager
    stored : node.store ≡ some store
    valued : HasValue key value store

  -- The replication of one PUT, whose request and answers JSON transfers.
  module _ (key body : Bytes) where
    abbrev pub the_put : ReplicaPutRequest
    the_put = record { key = key; value = some body; version = 0 }

    abbrev pub the_call : Bytes → World → Bool × World
    the_call = put_call node_peers key body

    after_store :
        (n : NodeState) (m : StorageManager)
        → n.store ≡ some m
        → (put_after detail os the_put n).store ≡ some (store_put os (rec_of detail os the_put) m).1
    after_store n m e = rw e (served_store detail os the_put m)

    after_same :
        (n : NodeState) (m : StorageManager)
        → n.store ≡ some m
        → HasValue key body m
        → (m1 : StorageManager) × ((put_after detail os the_put n).store ≡ some m1)
          × HasValue key body m1
    after_same n m e h = (
      (store_put os (rec_of detail os the_put) m).1,
      after_store n m e,
      store_put-HasValue os m (rec_of detail os the_put) body refl h,
    )

    inserted :
        (a : Bytes) (n : NodeState) (w : World) (m : StorageManager)
        → n.store ≡ some m
        → HasValue key body m
        → Stores key body a (insert a n w)
    inserted a n w m e h = record {
      node = n;
      there = lookup-insert a a n w ∙ rw (bytes_eq_refl a) refl;
      store = m;
      stored = e;
      valued = h;
    }

    -- A node that has the value keeps it when another node, or the node itself, is put to.
    put_keeps :
        (a b : Bytes) (n : NodeState) (w : World)
        → lookup a w ≡ some n
        → Stores key body b w
        → Stores key body b (insert a (put_after detail os the_put n) w)
    put_keeps a b n w l t = elim (Bool-cases (bytes_eq a b)) [
      | inr ne ↦ record {
        node = t.node;
        there = lookup-insert a b (put_after detail os the_put n) w ∙ rw ne t.there;
        store = t.store;
        stored = t.stored;
        valued = t.valued;
      }
      | inl q ↦
          let same : a ≡ b = (bytes_eq_iff a b).0 q in
          let one : n ≡ t.node = cc (sym l ∙ ap (λ (x : Bytes). lookup x w) same ∙ t.there) in
          let (m1, e1, h1) =
            after_same n t.store (ap (λ (x : NodeState). x.store) one ∙ t.stored) t.valued in
          subst (λ x. Stores key body x (insert a (put_after detail os the_put n) w)) same
            (inserted a (put_after detail os the_put n) w m1 e1 h1)
    ]

    module _ (transfers : Transfers j.replica_put_request the_put)
        (answers : (n : NodeState)
          → Transfers j.replica_put_response (put_answer detail os the_put n)) where
      kept : (a b : Bytes) (w : World) → Stores key body b w → Stores key body b (the_call a w).1
      unfolding put_call
      kept a b w t =
          elim (replica_put-Outcome j wires detail os s clustered the_put transfers a w) [
            | inl (x, e) ↦ rw e t
            | inr (n, l, inl (x, e)) ↦ rw e (put_keeps a b n w l t)
            | inr (n, l, inr e) ↦ rw e (put_keeps a b n w l t)
          ]

      acked : (a : Bytes) (w : World) → (the_call a w).0 ≡ true → Stores key body a (the_call a w).1
      unfolding put_call
      acked a w h = elim (replica_put-Outcome j wires detail os s clustered the_put transfers a w) [
        | inl (x, e) ↦ absurd (ground (arith, h, e))
        | inr (n, l, inl (x, e)) ↦ absurd (ground (arith, h, e))
        | inr (n, l, inr e) ↦
            let read =
              read_written (net_of j wires (node_server detail os s clustered)) a
                (text "/cluster/replica/put") j.replica_put_response 200
                (put_answer detail os the_put n) (answers n) in
            let quiet : (length (put_answer detail os the_put n).error == 0) ≡ true =
              ground (arith, h, e, read) in
            let (m, o, p) = served_acked detail os the_put n.store quiet in
            rw e (
              inserted a (put_after detail os the_put n) w
                (store_put os (rec_of detail os the_put) m).1 (after_store n m o)
                (store_put-HasValue_new os m (rec_of detail os the_put) body refl p))
      ]

  -- The node at an address answers a read of the key with the value.
  abbrev pub Readable : Bytes → Bytes → Bytes → World → Type 0
  Readable key body a w =
      (n : NodeState) × (lookup a w ≡ some n)
      × ((m : StorageManager) × (n.store ≡ some m)
          × ((r : Record) × ((store_get os key m).0 ≡ ok r) × (r.value ≡ some body)))

  Readable-Stores : (key body a : Bytes) (w : World) → Stores key body a w → Readable key body a w
  Readable-Stores key body a w t =
      (t.node, t.there, (t.store, t.stored, store_get-HasValue os t.store key body t.valued))

  All-weaken :
      {P Q : Bytes → Type 0} (R : Node → Type 0) (ns : List Node)
      → ((a : Bytes) → P a → Q a)
      → All (λ (n : Node). P n.address ⊎ R n) ns
      → All (λ (n : Node). Q n.address ⊎ R n) ns
  All-weaken R [] f h = tt
  All-weaken R (n ∷ ns) f (inl p, hs) = (inl (f n.address p), All-weaken R ns f hs)
  All-weaken R (n ∷ ns) f (inr r, hs) = (inr r, All-weaken R ns f hs)

  -- In a cluster of nodes that run the RPC server, over a network that loses requests and answers as
  -- it likes: after a PUT that the primary answered with 201, the store of every replica has the
  -- value, or a hint with the key and the value is kept for it. JSON transfers the request of the
  -- replication and the answers of the nodes to it.
  pub replicas-Readable :
      (key : Bytes) (primary : Node) (replicas : List Node) (m : StorageManager) (c : Manager)
      (h : Hints) (w : World) (body : Bytes)
      → IsPrimary s key primary replicas c
      → Transfers j.replica_put_request (record { key = key; value = some body; version = 0 })
      → ((n : NodeState)
          → Transfers j.replica_put_response
              (put_answer detail os (record { key = key; value = some body; version = 0 }) n))
      → (handle_put node_peers os s key (some body) (member m c h w)).0 ≡ answered 201 []
      → All
          (λ (n : Node).
            Readable key body n.address
              (handle_put node_peers os s key (some body) (member m c h w)).1.peers
            ⊎ (hinted (text "put") key body (
                  hints_of n.id
                    (handle_put node_peers os s key (some body) (member m c h w)).1.hints)
                ≡ true))
          replicas
  replicas-Readable key primary replicas m c h w body i transfers answers e =
      All-weaken _ replicas (λ a t. Readable-Stores key body a _ t)
        (handle_put_covers node_peers os s key primary replicas m c h w i (Stores key body) body
          (acked key body transfers answers) (kept key body transfers answers) e)
