-- ===== src/Server/Kv/RoundTrip.antt =====
-- A write that the primary acknowledges is read back, and none of its replicas is forgotten.
use cluster_db.Prelude.{◌≡◌, ◌⊎◌, refl, sym, ap, ◌∙◌, arith, Bool, true, some, ok, err}
use cluster_db.Prelude.{List, [], ◌∷◌, All}
use mathlib.Core.Path.{subst}
use cluster_db.Prelude.Bytes.{Bytes, text}
use cluster_db.Storage.Types.{Record, key_not_found}
use cluster_db.Storage.Manager.{StorageManager, wrapped, store_put, store_get, store_delete}
use cluster_db.Storage.Manager.Laws.{store_get-store_put, store_get-store_delete, store_get_same}
use cluster_db.Os.Disk.{Os}
use cluster_db.HashRing.Ring.{Sorter}
use cluster_db.Cluster.Membership.{Node}
use cluster_db.Cluster.Manager.{Manager, owners, local_node, sync_hash_ring}
use cluster_db.Cluster.Handoff.{Hints, hints_of}
use cluster_db.Server.Node.{plain_record}
use cluster_db.Server.Reply.{Reply, answered, refused, write_storage_error, sentinel_of}
use cluster_db.Server.Kv.State.{
  Peers, KvHandler, owned_by, find_owners, find_local, replication_factor, is_here, keep_hint,
}
use cluster_db.Server.Kv.Write.{
  put_call, delete_call, replicate_one, replicate, put_local, delete_local, handle_put,
  handle_delete,
}
use cluster_db.Server.Kv.Read.{read_local, owns_here, handle_get}
use cluster_db.Server.Kv.Covered.{hinted, replicate-Covered}

module _ {W : Type 0} (p : Peers W) where
  module _ (call : Bytes → W → Bool × W) (operation key value : Bytes) where
    one_store :
        (n : Node) (k : KvHandler W)
        → ((replicate_one p call operation key value n k).store ≡ k.store)
          × ((replicate_one p call operation key value n k).cluster ≡ k.cluster)
    unfolding replicate_one keep_hint
    one_store n k = ground arith

    -- The loop over the replicas leaves the local store and the cluster alone.
    replicate_store :
        (ns : List Node) (k : KvHandler W)
        → ((replicate p call operation key value ns k).store ≡ k.store)
          × ((replicate p call operation key value ns k).cluster ≡ k.cluster)
    unfolding replicate
    replicate_store [] k = (refl, refl)
    replicate_store (n ∷ ns) k =
        let (s, c) = replicate_store ns (replicate_one p call operation key value n k) in
        let (s1, c1) = one_store n k in (s ∙ s1, c ∙ c1)

  module _ (os : Os) (key : Bytes) (replicas : List Node) (k : KvHandler W) where
    -- A 201 of the primary: the store has the value and every replica was served in turn.
    put_local_created :
        (body : Bytes)
        → (put_local p os key body replicas k).0 ≡ answered 201 []
        → ((store_put os (plain_record key (some body) 0) k.store).0 ≡ ok tt)
          × ((put_local p os key body replicas k).1
              ≡ replicate p
                  (put_call p key body)
                  (text "put")
                  key
                  body
                  replicas
                  (record k { store = (store_put os (plain_record key (some body) 0) k.store).1 }))
    unfolding put_local
    put_local_created body e = (
      ground arith,
      ground
          (arith, store_get_same os (store_put os (plain_record key (some body) 0) k.store).1 key),
    )

    delete_local_done :
        (delete_local p os key replicas k).0 ≡ answered 204 []
        → ((store_delete os key k.store).0 ≡ ok tt)
          × ((delete_local p os key replicas k).1
              ≡ replicate p
                  (delete_call p key)
                  (text "delete")
                  key
                  []
                  replicas
                  (record k { store = (store_delete os key k.store).1 }))
    unfolding delete_local write_storage_error
    delete_local_done e = (ground arith, ground arith)

-- A handler whose node is in a cluster.
abbrev pub member : {W : Type 0} → StorageManager → Manager → Hints → W → KvHandler W
member m c h w = record { store = m; cluster = some c; hints = h; peers = w }

-- The node is the primary of the key, before the replicas.
abbrev pub IsPrimary : Sorter → Bytes → Node → List Node → Manager → Type 0
IsPrimary s key primary replicas c =
    ((owners s key (replication_factor (some c)) c).0 ≡ some (primary ∷ replicas))
    × (is_here (local_node s c).0 primary ≡ true)

module _ {W : Type 0} (p : Peers W) (os : Os) (s : Sorter) (key : Bytes) (primary : Node)
    (replicas : List Node) where
  module _ (m : StorageManager) (c : Manager) (h : Hints) (w : W)
      (primary_here : IsPrimary s key primary replicas c) where
    found_owners :
        find_owners s key (member m c h w)
        ≡ (owned_by primary replicas, member m (sync_hash_ring s c) h w)
    unfolding find_owners owners
    found_owners = ground (arith, primary_here.0)

    found_local :
        find_local s (member m (sync_hash_ring s c) h w)
        ≡ ((local_node s c).0, member m (sync_hash_ring s c) h w)
    unfolding find_local local_node sync_hash_ring
    found_local = refl

    pub put_is_local :
        (body : Bytes)
        → handle_put p os s key (some body) (member m c h w)
          ≡ put_local p os key body replicas (member m (sync_hash_ring s c) h w)
    unfolding handle_put
    put_is_local body = ground (arith, found_owners, found_local, primary_here.1)

    pub delete_is_local :
        handle_delete p os s key (member m c h w)
        ≡ delete_local p os key replicas (member m (sync_hash_ring s c) h w)
    unfolding handle_delete
    delete_is_local = ground (arith, found_owners, found_local, primary_here.1)

    get_is_local :
        (handle_get p os s key (member m c h w)).0
        ≡ (read_local p os key (member m (sync_hash_ring s c) h w)).0
    unfolding handle_get owns_here
    get_is_local = ground (arith, found_owners, found_local, primary_here.1)

  as_member :
      (k : KvHandler W) (m : StorageManager) (c : Manager)
      → k.store ≡ m
      → k.cluster ≡ some c
      → k ≡ member m c k.hints k.peers
  as_member k m c a b = rw (sym a, sym b) refl

  sync_hash_ring-IsPrimary :
      (c : Manager)
      → IsPrimary s key primary replicas c
      → IsPrimary s key primary replicas (sync_hash_ring s c)
  unfolding owners local_node sync_hash_ring replication_factor
  sync_hash_ring-IsPrimary c i = i

  -- What a read answers where the store has been written and nothing else that it looks at.
  read_back :
      (k : KvHandler W) (m : StorageManager) (c : Manager)
      → IsPrimary s key primary replicas c
      → k.store ≡ m
      → k.cluster ≡ some (sync_hash_ring s c)
      → (handle_get p os s key k).0
        ≡ (read_local p os key (member m (sync_hash_ring s c) k.hints k.peers)).0
  unfolding sync_hash_ring
  read_back k m c i a b =
      ap (λ (x : KvHandler W). (handle_get p os s key x).0) (as_member k m (sync_hash_ring s c) a b)
      ∙ get_is_local m (sync_hash_ring s c) k.hints k.peers (sync_hash_ring-IsPrimary c i)

  read_found :
      (k : KvHandler W) (r : Record) (v : Bytes)
      → (store_get os key k.store).0 ≡ ok r
      → r.value ≡ some v
      → (read_local p os key k).0 ≡ answered 200 v
  unfolding read_local
  read_found k r v e q = ground (arith, e, q)

  read_missing :
      (k : KvHandler W) (prefix : Bytes)
      → (store_get os key k.store).0 ≡ err (wrapped prefix key_not_found)
      → (read_local p os key k).0 ≡ refused 404 (text "key not found")
  unfolding read_local write_storage_error sentinel_of
  read_missing k prefix e = ground (arith, e)

  module _ (m : StorageManager) (c : Manager) (h : Hints) (w : W)
      (primary_here : IsPrimary s key primary replicas c) where
    abbrev here : KvHandler W
    here = member m (sync_hash_ring s c) h w

    -- The rest of a PUT or a DELETE once the local store is written.
    abbrev written :
        (call : Bytes → W → Bool × W) (operation value : Bytes) → StorageManager → KvHandler W
    written call operation value m1 =
        replicate p call operation key value replicas (record here { store = m1 })

    read_after :
        (call : Bytes → W → Bool × W) (operation value : Bytes) (m1 : StorageManager)
        (k : KvHandler W)
        → k ≡ written call operation value m1
        → (handle_get p os s key k).0
          ≡ (read_local p os key (member m1 (sync_hash_ring s c) k.hints k.peers)).0
    read_after call operation value m1 k q =
        let (a, b) =
          replicate_store p call operation key value replicas (record here { store = m1 }) in
        read_back k m1 c primary_here (ap (λ (x : KvHandler W). x.store) q ∙ a)
          (ap (λ (x : KvHandler W). x.cluster) q ∙ b)

    created :
        (body : Bytes)
        → (handle_put p os s key (some body) (member m c h w)).0 ≡ answered 201 []
        → ((store_put os (plain_record key (some body) 0) m).0 ≡ ok tt)
          × ((handle_put p os s key (some body) (member m c h w)).1
              ≡ written
                  (put_call p key body)
                  (text "put")
                  body
                  (store_put os (plain_record key (some body) 0) m).1)
    created body e =
        let q = put_is_local m c h w primary_here body in
        let (a, b) =
          put_local_created p os key replicas here body
            (sym (ap (λ (x : Reply × KvHandler W). x.0) q) ∙ e) in
        (a, ap (λ (x : Reply × KvHandler W). x.1) q ∙ b)

    deleted :
        (handle_delete p os s key (member m c h w)).0 ≡ answered 204 []
        → ((store_delete os key m).0 ≡ ok tt)
          × ((handle_delete p os s key (member m c h w)).1
              ≡ written (delete_call p key) (text "delete") [] (store_delete os key m).1)
    deleted e =
        let q = delete_is_local m c h w primary_here in
        let (a, b) =
          delete_local_done p os key replicas here
            (sym (ap (λ (x : Reply × KvHandler W). x.0) q) ∙ e) in
        (a, ap (λ (x : Reply × KvHandler W). x.1) q ∙ b)

    -- A GET at the primary after a PUT that it answered with 201 is answered with 200 and the body.
    pub handle_get-handle_put :
        (body : Bytes)
        → (handle_put p os s key (some body) (member m c h w)).0 ≡ answered 201 []
        → (handle_get p os s key (handle_put p os s key (some body) (member m c h w)).1).0
          ≡ answered 200 body
    handle_get-handle_put body e =
        let (a, q) = created body e in
        let (v, r, sv, rv, found) = store_get-store_put os m (plain_record key (some body) 0) a in
        read_after (put_call p key body) (text "put") body _ _ q
        ∙ read_found _ r body found (rv ∙ sym sv)

    -- A GET at the primary after a DELETE that it answered with 204 is answered with 404.
    pub handle_get-handle_delete :
        (handle_delete p os s key (member m c h w)).0 ≡ answered 204 []
        → (handle_get p os s key (handle_delete p os s key (member m c h w)).1).0
          ≡ refused 404 (text "key not found")
    handle_get-handle_delete e =
        let (a, q) = deleted e in
        read_after (delete_call p key) (text "delete") [] _ _ q
        ∙ read_missing _ (text "storage manager: get: ") (store_get-store_delete os m key a)

    -- After a PUT that the primary answered with 201, every replica has the value or a hint with
    -- the key and the value is kept for it: where `Stored a` says of the peers that the one at
    -- the address `a` has the value, an acknowledged ReplicaPut brings it about, and no ReplicaPut
    -- of this value undoes it.
    pub handle_put_covers :
        (Stored : Bytes → W → Type 0) (body : Bytes)
        → ((a : Bytes) (v : W)
            → (put_call p key body a v).0 ≡ true
            → Stored a (put_call p key body a v).1)
        → ((a b : Bytes) (v : W) → Stored b v → Stored b (put_call p key body a v).1)
        → (handle_put p os s key (some body) (member m c h w)).0 ≡ answered 201 []
        → All
            (λ (n : Node).
              Stored n.address (handle_put p os s key (some body) (member m c h w)).1.peers
              ⊎ (hinted
                    (text "put")
                    key
                    body
                    (hints_of n.id (handle_put p os s key (some body) (member m c h w)).1.hints)
                  ≡ true))
            replicas
    handle_put_covers Stored body acked kept e =
        let (a, q) = created body e in
        subst
          (λ k.
            All
              (λ (n : Node).
                Stored n.address k.peers
                ⊎ (hinted (text "put") key body (hints_of n.id k.hints) ≡ true))
              replicas)
          (sym q)
          (replicate-Covered p (put_call p key body) (text "put") key body Stored acked kept
            replicas _)
