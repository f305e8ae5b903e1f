-- ===== src/Server/Rpc/Delivery.antt =====
-- What a call of a peer returns where the network connects the client with the server.
use cluster_db.Prelude.{
  ℕ, ◌≡◌, refl, ap, ◌∙◌, arith, Option, none, some, ltb, leb, if◌then◌else◌, Result, ok, err, ◌||◌,
}
use cluster_db.Prelude.Bytes.{Bytes, text, bytes_eq}
use cluster_db.Server.Messages.{
  JoinRequest, JoinResponse, LeaveRequest, LeaveResponse, HeartbeatRequest, HeartbeatResponse,
  AppendEntriesRequest, AppendEntriesResponse, KvGetRequest, KvGetResponse, KvPutRequest,
  KvPutResponse, KvDeleteRequest, KvDeleteResponse, ReplicaPutRequest, ReplicaPutResponse,
  ReplicaDeleteRequest, ReplicaDeleteResponse, ReplicaGetRequest, ReplicaGetResponse, GossipRequest,
  GossipResponse,
}
use cluster_db.Server.Reply.{RpcError}
use cluster_db.Server.Rpc.Http.{HttpRequest, HttpResponse, Codec, Json, Transfers, write_json}
use cluster_db.Server.Rpc.Endpoint.{Callback, RpcServer, Endpoint, call_back, handle}
use cluster_db.Server.Rpc.Listener.{
  join_endpoint, leave_endpoint, heartbeat_endpoint, append_endpoint, kv_get_endpoint,
  kv_put_endpoint, kv_delete_endpoint, replica_put_endpoint, replica_delete_endpoint,
  replica_get_endpoint, gossip_endpoint, serve_join, serve_leave, serve_heartbeat, handle_append,
  handle_kv_get, handle_kv_put, handle_kv_delete, handle_replica_put, handle_replica_delete,
  handle_replica_get, handle_gossip, serve_rpc,
}
use cluster_db.Server.Rpc.Client.{
  Net, unexpected_status, read_response, do_json, call_join, call_leave, send_heartbeat,
  append_entries, call_kv_get, call_kv_put, call_kv_delete, call_replica_put, call_replica_delete,
  call_replica_get, send_gossip,
}

-- The calls, each with its messages, its path, its endpoint and its callback.
pub data Method : Type 0 where
  rpc_join rpc_leave rpc_heartbeat rpc_append rpc_kv_get rpc_kv_put rpc_kv_delete rpc_replica_put
        rpc_replica_delete rpc_replica_get rpc_gossip :
      Method

abbrev pub RequestOf : Method → Type 0
RequestOf rpc_join = JoinRequest
RequestOf rpc_leave = LeaveRequest
RequestOf rpc_heartbeat = HeartbeatRequest
RequestOf rpc_append = AppendEntriesRequest
RequestOf rpc_kv_get = KvGetRequest
RequestOf rpc_kv_put = KvPutRequest
RequestOf rpc_kv_delete = KvDeleteRequest
RequestOf rpc_replica_put = ReplicaPutRequest
RequestOf rpc_replica_delete = ReplicaDeleteRequest
RequestOf rpc_replica_get = ReplicaGetRequest
RequestOf rpc_gossip = GossipRequest

abbrev pub ResponseOf : Method → Type 0
ResponseOf rpc_join = JoinResponse
ResponseOf rpc_leave = LeaveResponse
ResponseOf rpc_heartbeat = HeartbeatResponse
ResponseOf rpc_append = AppendEntriesResponse
ResponseOf rpc_kv_get = KvGetResponse
ResponseOf rpc_kv_put = KvPutResponse
ResponseOf rpc_kv_delete = KvDeleteResponse
ResponseOf rpc_replica_put = ReplicaPutResponse
ResponseOf rpc_replica_delete = ReplicaDeleteResponse
ResponseOf rpc_replica_get = ReplicaGetResponse
ResponseOf rpc_gossip = GossipResponse

abbrev pub path_of : Method → Bytes
path_of rpc_join = text "/cluster/join"
path_of rpc_leave = text "/cluster/leave"
path_of rpc_heartbeat = text "/cluster/heartbeat"
path_of rpc_append = text "/cluster/append"
path_of rpc_kv_get = text "/cluster/kv/get"
path_of rpc_kv_put = text "/cluster/kv/put"
path_of rpc_kv_delete = text "/cluster/kv/delete"
path_of rpc_replica_put = text "/cluster/replica/put"
path_of rpc_replica_delete = text "/cluster/replica/delete"
path_of rpc_replica_get = text "/cluster/replica/get"
path_of rpc_gossip = text "/cluster/gossip"

abbrev pub endpoint_of : Json → (m : Method) → Endpoint (RequestOf m) (ResponseOf m)
endpoint_of j rpc_join = join_endpoint j
endpoint_of j rpc_leave = leave_endpoint j
endpoint_of j rpc_heartbeat = heartbeat_endpoint j
endpoint_of j rpc_append = append_endpoint j
endpoint_of j rpc_kv_get = kv_get_endpoint j
endpoint_of j rpc_kv_put = kv_put_endpoint j
endpoint_of j rpc_kv_delete = kv_delete_endpoint j
endpoint_of j rpc_replica_put = replica_put_endpoint j
endpoint_of j rpc_replica_delete = replica_delete_endpoint j
endpoint_of j rpc_replica_get = replica_get_endpoint j
endpoint_of j rpc_gossip = gossip_endpoint j

module _ {W : Type 0} where
  abbrev pub callback_of :
      RpcServer W → (m : Method) → Option (Callback W (RequestOf m) (ResponseOf m))
  callback_of s rpc_join = s.join_handler
  callback_of s rpc_leave = s.leave_handler
  callback_of s rpc_heartbeat = s.heartbeat_handler
  callback_of s rpc_append = s.append_handler
  callback_of s rpc_kv_get = s.kv_get_handler
  callback_of s rpc_kv_put = s.kv_put_handler
  callback_of s rpc_kv_delete = s.kv_delete_handler
  callback_of s rpc_replica_put = s.replica_put_handler
  callback_of s rpc_replica_delete = s.replica_delete_handler
  callback_of s rpc_replica_get = s.replica_get_handler
  callback_of s rpc_gossip = s.gossip_handler

  abbrev pub call_of :
      Json → Net W → Bytes → (m : Method) → RequestOf m → W → Result RpcError (ResponseOf m) × W
  call_of j net address rpc_join = call_join j net address
  call_of j net address rpc_leave = call_leave j net address
  call_of j net address rpc_heartbeat = send_heartbeat j net address
  call_of j net address rpc_append = append_entries j net address
  call_of j net address rpc_kv_get = call_kv_get j net address
  call_of j net address rpc_kv_put = call_kv_put j net address
  call_of j net address rpc_kv_delete = call_kv_delete j net address
  call_of j net address rpc_replica_put = call_replica_put j net address
  call_of j net address rpc_replica_delete = call_replica_delete j net address
  call_of j net address rpc_replica_get = call_replica_get j net address
  call_of j net address rpc_gossip = send_gossip j net address

-- What a request of the right method means to an endpoint: a status and a message, and the state.
abbrev pub outcome :
    {W Req Resp : Type 0}
    → Endpoint Req Resp
    → Option (Callback W Req Resp)
    → Req
    → W
    → (ℕ × Resp) × W
outcome e h req w = elim (e.validate req) [
  | some m ↦ ((400, e.refusal m), w)
  | none ↦ elim h [
    | none ↦ (e.absent, w)
    | some f ↦
        (elim (f req w).0 [ err m ↦ (e.failure, e.refusal m) | ok resp ↦ (200, resp) ], (f req w).1)
  ]
]

-- The network creates requests for the address, and brings them to the server and its responses back.
pub record IsLinked {W : Type 0} (j : Json) (net : Net W) (other : HttpRequest → HttpResponse)
    (s : RpcServer W) (address : Bytes) : Type 0 where
  pub creates : (path : Bytes) → net.create address path ≡ none
  pub exchanges :
      (r : HttpRequest) (w : W)
      → net.exchange address r w ≡ (ok (serve_rpc j other s r w).0, (serve_rpc j other s r w).1)

module _ {W Req Resp : Type 0} (e : Endpoint Req Resp) (req : Req) (w : W) where
  handled :
      (h : Option (Callback W Req Resp)) (path body : Bytes)
      → e.request_codec.decode body ≡ ok req
      → handle e h (record { method = text "POST"; path = path; body = body }) w ≡ (
        write_json e.response_codec (outcome e h req w).0.0 (outcome e h req w).0.1,
        (outcome e h req w).1,
      )
  unfolding handle call_back bytes_eq
  handled none path body d = ground (arith, d)
  handled (some f) path body d = ground (arith, d)

module _ {W Resp : Type 0} (net : Net W) (address path : Bytes) where
  -- What the client makes of a status and a message.
  abbrev pub received : ℕ × Resp → Result RpcError Resp
  received (status, resp) =
      if ltb status 200 || leb 400 status
      then err (unexpected_status net address path status)
      else ok resp

  pub read_written :
      (c : Codec Resp) (status : ℕ) (resp : Resp)
      → Transfers c resp
      → read_response net c address path (write_json c status resp) ≡ received (status, resp)
  unfolding read_response write_json
  read_written c status resp (b, e, d) = rw (e, d) refl

pub exchanged :
    {W Req Resp : Type 0} (net : Net W) (a : Codec Req) (c : Codec Resp) (address path : Bytes)
    (req : Req) (w : W) (b : Bytes) (r : HttpResponse × W)
    → a.encode req ≡ ok b
    → net.create address path ≡ none
    → net.exchange address (record { method = text "POST"; path = path; body = b }) w
      ≡ (ok r.0, r.1)
    → do_json net a c address path req w ≡ (read_response net c address path r.0, r.1)
unfolding do_json
exchanged net a c address path req w b r e n x = ground (arith, e, n, x)

module _ {W : Type 0} (j : Json) where
  called :
      (m : Method) (net : Net W) (address : Bytes)
      → call_of j net address m
        ≡ do_json net
            (endpoint_of j m).request_codec
            (endpoint_of j m).response_codec
            address
            (path_of m)
  unfolding call_join call_leave send_heartbeat append_entries call_kv_get call_kv_put
      call_kv_delete call_replica_put call_replica_delete call_replica_get send_gossip join_endpoint
      leave_endpoint heartbeat_endpoint append_endpoint kv_get_endpoint kv_put_endpoint
      kv_delete_endpoint replica_put_endpoint replica_delete_endpoint replica_get_endpoint
      gossip_endpoint
  called rpc_join net address = refl
  called rpc_leave net address = refl
  called rpc_heartbeat net address = refl
  called rpc_append net address = refl
  called rpc_kv_get net address = refl
  called rpc_kv_put net address = refl
  called rpc_kv_delete net address = refl
  called rpc_replica_put net address = refl
  called rpc_replica_delete net address = refl
  called rpc_replica_get net address = refl
  called rpc_gossip net address = refl

  routed :
      (m : Method) (other : HttpRequest → HttpResponse) (s : RpcServer W) (body : Bytes) (w : W)
      → serve_rpc j other s (record { method = text "POST"; path = path_of m; body = body }) w
        ≡ handle
            (endpoint_of j m)
            (callback_of s m)
            (record { method = text "POST"; path = path_of m; body = body })
            w
  unfolding serve_rpc bytes_eq serve_join serve_leave serve_heartbeat handle_append handle_kv_get
      handle_kv_put handle_kv_delete handle_replica_put handle_replica_delete handle_replica_get
      handle_gossip
  routed rpc_join other s body w = refl
  routed rpc_leave other s body w = refl
  routed rpc_heartbeat other s body w = refl
  routed rpc_append other s body w = refl
  routed rpc_kv_get other s body w = refl
  routed rpc_kv_put other s body w = refl
  routed rpc_kv_delete other s body w = refl
  routed rpc_replica_put other s body w = refl
  routed rpc_replica_delete other s body w = refl
  routed rpc_replica_get other s body w = refl
  routed rpc_gossip other s body w = refl

  pub served :
      (m : Method) (other : HttpRequest → HttpResponse) (s : RpcServer W) (req : RequestOf m)
      (body : Bytes) (w : W)
      → (endpoint_of j m).request_codec.decode body ≡ ok req
      → serve_rpc j other s (record { method = text "POST"; path = path_of m; body = body }) w ≡ (
        write_json
            (endpoint_of j m).response_codec
            (outcome (endpoint_of j m) (callback_of s m) req w).0.0
            (outcome (endpoint_of j m) (callback_of s m) req w).0.1,
        (outcome (endpoint_of j m) (callback_of s m) req w).1,
      )
  served m other s req body w d =
      routed m other s body w ∙ handled (endpoint_of j m) req w (callback_of s m) (path_of m) body d

  -- A call of a peer over a network that connects it returns what the endpoint makes of the request:
  -- the message of its callback, of a missing callback or of a refusal, as an error where its status
  -- is not one of success; and it leaves the state that the callback leaves. The request and the
  -- message are ones that JSON transfers.
  pub call-outcome :
      (m : Method) (net : Net W) (other : HttpRequest → HttpResponse) (s : RpcServer W)
      (address : Bytes) (req : RequestOf m) (w : W)
      → IsLinked j net other s address
      → Transfers (endpoint_of j m).request_codec req
      → Transfers
          (endpoint_of j m).response_codec
          (outcome (endpoint_of j m) (callback_of s m) req w).0.1
      → call_of j net address m req w ≡ (
        received net address (path_of m) (outcome (endpoint_of j m) (callback_of s m) req w).0,
        (outcome (endpoint_of j m) (callback_of s m) req w).1,
      )
  call-outcome m net other s address req w l (b, e, d) t =
      let p : Endpoint (RequestOf m) (ResponseOf m) = endpoint_of j m in
      let h : Option (Callback W (RequestOf m) (ResponseOf m)) = callback_of s m in
      ap (λ (f : RequestOf m → W → Result RpcError (ResponseOf m) × W). f req w)
        (called m net address)
      ∙ exchanged net p.request_codec p.response_codec address (path_of m) req w b _ e
          (l.creates (path_of m))
          (l.exchanges _ w
            ∙ ap (λ (x : HttpResponse × W). (ok x.0, x.1)) (served m other s req b w d))
      ∙ ap (λ (x : Result RpcError (ResponseOf m)). (x, (outcome p h req w).1))
          (read_written net address (path_of m) p.response_codec (outcome p h req w).0.0
            (outcome p h req w).0.1 t)
