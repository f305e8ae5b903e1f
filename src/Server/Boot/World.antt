-- ===== src/Server/Boot/World.antt =====
-- The nodes of a cluster, each at its address with the RPC server of internal/server/bootstrap.go,
-- and a network that loses requests and responses between them.
use cluster_db.Prelude.{
  ℕ, ◌≡◌, ◌⊎◌, inl, inr, refl, ap, ◌∙◌, ◌++◌, arith, Bool, Option, none, some, Option-cases, ok,
  err, Result,
}
use cluster_db.Prelude.Bytes.{Bytes, text}
use cluster_db.Prelude.Table.{Table, lookup, insert}
use cluster_db.Storage.Types.{Error}
use cluster_db.Os.Disk.{Os}
use cluster_db.HashRing.Ring.{Sorter}
use cluster_db.Server.Messages.{ReplicaPutRequest, ReplicaPutResponse}
use cluster_db.Server.Node.{serve_replica_put}
use cluster_db.Server.Reply.{RpcError}
use cluster_db.Server.Rpc.Http.{HttpRequest, HttpResponse, Codec, Json, Transfers, write_json}
use cluster_db.Server.Rpc.Endpoint.{RpcServer}
use cluster_db.Server.Rpc.Listener.{serve_rpc, replica_put_endpoint}
use cluster_db.Server.Rpc.Client.{Net, do_json, failure, call_replica_put, read_response}
use cluster_db.Server.Rpc.Delivery.{rpc_replica_put, served, exchanged}
use cluster_db.Server.Boot.{NodeState, node_server}

abbrev pub World : Type 0
World = Table NodeState

-- What becomes of one exchange.
pub data Fate : Type 0 where
  delivered request_lost response_lost : Fate

-- A network over the nodes: the fate of each exchange, the error of one that fails, the error of
-- NewRequest for an address, and the texts of the statuses. `other` answers unknown paths.
pub record Wires : Type 0 where
  pub fate : Bytes → HttpRequest → World → Fate
  pub lost : RpcError
  pub parse : Bytes → Option Bytes
  pub reason : ℕ → Bytes
  pub other : HttpRequest → HttpResponse

abbrev pub meet :
    RpcError
    → Fate
    → Bytes
    → HttpResponse × NodeState
    → World
    → Result RpcError HttpResponse × World
meet lost delivered a x w = (ok x.0, insert a x.1 w)
meet lost request_lost a x w = (err lost, w)
meet lost response_lost a x w = (err lost, insert a x.1 w)

module _ (j : Json) (wires : Wires) (server : RpcServer NodeState) where
  abbrev pub net_of : Net World
  net_of = record {
    create = λ a path. wires.parse a;
    exchange = λ a r w. elim (lookup a w) [
      | none ↦ (err wires.lost, w)
      | some n ↦ meet wires.lost (wires.fate a r w) a (serve_rpc j wires.other server r n) w
    ];
    status_line = wires.reason;
  }

module _ (detail : Error → Bytes) (os : Os) (req : ReplicaPutRequest) where
  -- What a node answers to a ReplicaPut, and the node afterwards.
  abbrev pub put_answer : NodeState → ReplicaPutResponse
  put_answer n = (serve_replica_put detail os req n.store).0

  abbrev pub put_after : NodeState → NodeState
  put_after n = record n { store = (serve_replica_put detail os req n.store).1 }

lost_call :
    {W Req Resp : Type 0} (net : Net W) (a : Codec Req) (c : Codec Resp) (address path : Bytes)
    (req : Req) (w v : W) (b : Bytes) (x : RpcError)
    → a.encode req ≡ ok b
    → net.create address path ≡ none
    → net.exchange address (record { method = text "POST"; path = path; body = b }) w ≡ (err x, v)
    → (y : RpcError) × (do_json net a c address path req w ≡ (err y, v))
unfolding do_json
lost_call net a c address path req w v b x e n q = (
  record x { message = text "rpc client: request " ++ address ++ path ++ text ": " ++ x.message },
  ground (arith, e, n, q),
)

unparsed_call :
    {W Req Resp : Type 0} (net : Net W) (a : Codec Req) (c : Codec Resp) (address path : Bytes)
    (req : Req) (w : W) (b m : Bytes)
    → a.encode req ≡ ok b
    → net.create address path ≡ some m
    → (y : RpcError) × (do_json net a c address path req w ≡ (err y, w))
unfolding do_json
unparsed_call net a c address path req w b m e n =
    (failure (text "rpc client: create request: " ++ m), ground (arith, e, n))

module _ (j : Json) (wires : Wires) (detail : Error → Bytes) (os : Os) (s : Sorter)
    (clustered : Bool) (req : ReplicaPutRequest)
    (transfers : Transfers j.replica_put_request req) where
  abbrev net : Net World
  net = net_of j wires (node_server detail os s clustered)

  -- How a ReplicaPut over the network can go: an error that left the nodes alone, an error though
  -- the node was written, or what the client read of the answer of the node.
  abbrev Outcome : Bytes → World → Result RpcError ReplicaPutResponse × World → Type 0
  Outcome a w r =
      ((x : RpcError) × (r ≡ (err x, w)))
      ⊎ ((n : NodeState) × (lookup a w ≡ some n)
          × (((x : RpcError) × (r ≡ (err x, insert a (put_after detail os req n) w)))
              ⊎ (r ≡ (
                read_response net j.replica_put_response a (text "/cluster/replica/put")
                    (write_json j.replica_put_response 200 (put_answer detail os req n)),
                insert a (put_after detail os req n) w,
              ))))

  node_serves :
      (n : NodeState) (body : Bytes)
      → j.replica_put_request.decode body ≡ ok req
      → serve_rpc j wires.other
          (node_server detail os s clustered)
          (record { method = text "POST"; path = text "/cluster/replica/put"; body = body })
          n
        ≡ (
          write_json j.replica_put_response 200 (put_answer detail os req n),
          put_after detail os req n,
        )
  unfolding node_server replica_put_endpoint
  node_serves n body d =
      served j rpc_replica_put wires.other (node_server detail os s clustered) req body n d

  abbrev posted : Bytes → HttpRequest
  posted body = record { method = text "POST"; path = text "/cluster/replica/put"; body = body }

  found_exchange :
      (a b : Bytes) (w : World) (n : NodeState)
      → lookup a w ≡ some n
      → net.exchange a (posted b) w
        ≡ meet wires.lost
            (wires.fate a (posted b) w)
            a
            (serve_rpc j wires.other (node_server detail os s clustered) (posted b) n)
            w
  found_exchange a b w n l = ground (arith, l)

  missing_exchange :
      (a b : Bytes) (w : World)
      → lookup a w ≡ none
      → net.exchange a (posted b) w ≡ (err wires.lost, w)
  missing_exchange a b w l = ground (arith, l)

  exchange_at :
      (f : Fate) (a b : Bytes) (w : World) (n : NodeState)
      → lookup a w ≡ some n
      → wires.fate a (posted b) w ≡ f
      → j.replica_put_request.decode b ≡ ok req
      → net.exchange a (posted b) w
        ≡ meet wires.lost f a
            (
              write_json j.replica_put_response 200 (put_answer detail os req n),
              put_after detail os req n,
            )
            w
  exchange_at f a b w n l q d =
      found_exchange a b w n l
      ∙ ap
          (λ (g : Fate).
            meet wires.lost g a
              (serve_rpc j wires.other (node_server detail os s clustered) (posted b) n) w)
          q
      ∙ ap (λ (x : HttpResponse × NodeState). meet wires.lost f a x w) (node_serves n b d)

  found-Outcome :
      (f : Fate) (a b : Bytes) (w : World) (n : NodeState)
      → j.replica_put_request.encode req ≡ ok b
      → j.replica_put_request.decode b ≡ ok req
      → wires.parse a ≡ none
      → lookup a w ≡ some n
      → wires.fate a (posted b) w ≡ f
      → Outcome a w (call_replica_put j net a req w)
  unfolding call_replica_put
  found-Outcome delivered a b w n e d c l q = inr (
    n,
    l,
    inr (
        exchanged net j.replica_put_request j.replica_put_response a _ req w b _ e c
          (exchange_at delivered a b w n l q d)),
  )
  found-Outcome request_lost a b w n e d c l q = inl (
      lost_call net j.replica_put_request j.replica_put_response a _ req w w b wires.lost e c
        (exchange_at request_lost a b w n l q d))
  found-Outcome response_lost a b w n e d c l q = inr (
    n,
    l,
    inl (
        lost_call net j.replica_put_request j.replica_put_response a _ req w _ b wires.lost e c
          (exchange_at response_lost a b w n l q d)),
  )

  pub replica_put-Outcome : (a : Bytes) (w : World) → Outcome a w (call_replica_put j net a req w)
  unfolding call_replica_put
  replica_put-Outcome a w =
      let (b, e, d) = transfers in
      elim (Option-cases (wires.parse a)) [
        | inr (m, c) ↦
            inl (unparsed_call net j.replica_put_request j.replica_put_response a _ req w b m e c)
        | inl c ↦ elim (Option-cases (lookup a w)) [
          | inl l ↦ inl (
              lost_call net j.replica_put_request j.replica_put_response a _ req w w b wires.lost e
                c (missing_exchange a b w l))
          | inr (n, l) ↦ found-Outcome (wires.fate a (posted b) w) a b w n e d c l refl
        ]
      ]
