-- ===== src/Server/Rpc/Listener.antt =====
-- internal/cluster/rpc/server.go: the handler of each path, and the multiplexer over them.
use cluster_db.Prelude.{true, false, none, [], if◌then◌else◌}
use cluster_db.Prelude.Bytes.{text, bytes_eq}
use cluster_db.Server.Messages.{
  HeartbeatRequest, HeartbeatResponse, JoinRequest, JoinResponse, LeaveRequest, LeaveResponse,
  AppendEntriesRequest, AppendEntriesResponse, KvGetRequest, KvGetResponse, KvPutRequest,
  KvPutResponse, KvDeleteRequest, KvDeleteResponse, ReplicaPutRequest, ReplicaPutResponse,
  ReplicaDeleteRequest, ReplicaDeleteResponse, ReplicaGetRequest, ReplicaGetResponse, GossipRequest,
  GossipResponse,
}
use cluster_db.Server.Rpc.Http.{HttpRequest, HttpResponse, Json}
use cluster_db.Server.Rpc.Endpoint.{
  RpcServer, Endpoint, handle, validate_heartbeat, validate_join, validate_leave, validate_append,
  validate_replica_get,
}

module _ (j : Json) where
  unfoldable pub join_endpoint : Endpoint JoinRequest JoinResponse
  unfolding validate_join
  join_endpoint = record {
    request_codec = j.join_request;
    response_codec = j.join_response;
    refusal = λ m. record { accepted = false; message = m; members = [] };
    validate = validate_join;
    absent = (200, record { accepted = true; message = text "ok"; members = [] });
    failure = 400;
  }

  unfoldable pub leave_endpoint : Endpoint LeaveRequest LeaveResponse
  unfolding validate_leave
  leave_endpoint = record {
    request_codec = j.leave_request;
    response_codec = j.leave_response;
    refusal = λ m. record { accepted = false; message = m };
    validate = validate_leave;
    absent = (200, record { accepted = true; message = text "ok" });
    failure = 400;
  }

  unfoldable pub heartbeat_endpoint : Endpoint HeartbeatRequest HeartbeatResponse
  unfolding validate_heartbeat
  heartbeat_endpoint = record {
    request_codec = j.heartbeat_request;
    response_codec = j.heartbeat_response;
    refusal = λ m. record { accepted = false; message = m };
    validate = validate_heartbeat;
    absent = (200, record { accepted = true; message = text "ok" });
    failure = 400;
  }

  unfoldable pub append_endpoint : Endpoint AppendEntriesRequest AppendEntriesResponse
  unfolding validate_append
  append_endpoint = record {
    request_codec = j.append_request;
    response_codec = j.append_response;
    refusal = λ m. record { accepted = false; message = m };
    validate = validate_append;
    absent = (200, record { accepted = true; message = text "ok" });
    failure = 400;
  }

  unfoldable pub kv_get_endpoint : Endpoint KvGetRequest KvGetResponse
  kv_get_endpoint = record {
    request_codec = j.kv_get_request;
    response_codec = j.kv_get_response;
    refusal = λ m. record { value = []; found = false; error = m };
    validate = λ req. none;
    absent = (501, record { value = []; found = false; error = text "handler not implemented" });
    failure = 500;
  }

  unfoldable pub kv_put_endpoint : Endpoint KvPutRequest KvPutResponse
  kv_put_endpoint = record {
    request_codec = j.kv_put_request;
    response_codec = j.kv_put_response;
    refusal = λ m. record { success = false; error = m };
    validate = λ req. none;
    absent = (501, record { success = false; error = text "handler not implemented" });
    failure = 500;
  }

  unfoldable pub kv_delete_endpoint : Endpoint KvDeleteRequest KvDeleteResponse
  kv_delete_endpoint = record {
    request_codec = j.kv_delete_request;
    response_codec = j.kv_delete_response;
    refusal = λ m. record { success = false; error = m };
    validate = λ req. none;
    absent = (501, record { success = false; error = text "handler not implemented" });
    failure = 500;
  }

  unfoldable pub replica_put_endpoint : Endpoint ReplicaPutRequest ReplicaPutResponse
  replica_put_endpoint = record {
    request_codec = j.replica_put_request;
    response_codec = j.replica_put_response;
    refusal = λ m. record { success = false; version = 0; error = m };
    validate = λ req. none;
    absent = (501, record { success = false; version = 0; error = text "handler not implemented" });
    failure = 500;
  }

  unfoldable pub replica_delete_endpoint : Endpoint ReplicaDeleteRequest ReplicaDeleteResponse
  replica_delete_endpoint = record {
    request_codec = j.replica_delete_request;
    response_codec = j.replica_delete_response;
    refusal = λ m. record { success = false; version = 0; error = m };
    validate = λ req. none;
    absent = (501, record { success = false; version = 0; error = text "handler not implemented" });
    failure = 500;
  }

  unfoldable pub replica_get_endpoint : Endpoint ReplicaGetRequest ReplicaGetResponse
  unfolding validate_replica_get
  replica_get_endpoint = record {
    request_codec = j.replica_get_request;
    response_codec = j.replica_get_response;
    refusal =
        λ m. record { found = false; value = []; version = 0; delete_marker = false; error = m };
    validate = validate_replica_get;
    absent = (
      501,
      record {
        found = false;
        value = [];
        version = 0;
        delete_marker = false;
        error = text "handler not implemented";
      },
    );
    failure = 500;
  }

  unfoldable pub gossip_endpoint : Endpoint GossipRequest GossipResponse
  gossip_endpoint = record {
    request_codec = j.gossip_request;
    response_codec = j.gossip_response;
    refusal = λ m. record { accepted = false; message = m; nodes = [] };
    validate = λ req. none;
    absent = (200, record { accepted = true; message = text "ok"; nodes = [] });
    failure = 400;
  }

  module _ {W : Type 0} where
    unfoldable pub serve_join : RpcServer W → HttpRequest → W → HttpResponse × W
    unfolding handle join_endpoint
    serve_join s = handle join_endpoint s.join_handler

    unfoldable pub serve_leave : RpcServer W → HttpRequest → W → HttpResponse × W
    unfolding handle leave_endpoint
    serve_leave s = handle leave_endpoint s.leave_handler

    unfoldable pub serve_heartbeat : RpcServer W → HttpRequest → W → HttpResponse × W
    unfolding handle heartbeat_endpoint
    serve_heartbeat s = handle heartbeat_endpoint s.heartbeat_handler

    unfoldable pub handle_append : RpcServer W → HttpRequest → W → HttpResponse × W
    unfolding handle append_endpoint
    handle_append s = handle append_endpoint s.append_handler

    unfoldable pub handle_kv_get : RpcServer W → HttpRequest → W → HttpResponse × W
    unfolding handle kv_get_endpoint
    handle_kv_get s = handle kv_get_endpoint s.kv_get_handler

    unfoldable pub handle_kv_put : RpcServer W → HttpRequest → W → HttpResponse × W
    unfolding handle kv_put_endpoint
    handle_kv_put s = handle kv_put_endpoint s.kv_put_handler

    unfoldable pub handle_kv_delete : RpcServer W → HttpRequest → W → HttpResponse × W
    unfolding handle kv_delete_endpoint
    handle_kv_delete s = handle kv_delete_endpoint s.kv_delete_handler

    unfoldable pub handle_replica_put : RpcServer W → HttpRequest → W → HttpResponse × W
    unfolding handle replica_put_endpoint
    handle_replica_put s = handle replica_put_endpoint s.replica_put_handler

    unfoldable pub handle_replica_delete : RpcServer W → HttpRequest → W → HttpResponse × W
    unfolding handle replica_delete_endpoint
    handle_replica_delete s = handle replica_delete_endpoint s.replica_delete_handler

    unfoldable pub handle_replica_get : RpcServer W → HttpRequest → W → HttpResponse × W
    unfolding handle replica_get_endpoint
    handle_replica_get s = handle replica_get_endpoint s.replica_get_handler

    unfoldable pub handle_gossip : RpcServer W → HttpRequest → W → HttpResponse × W
    unfolding handle gossip_endpoint
    handle_gossip s = handle gossip_endpoint s.gossip_handler

    -- Handler; `other` is the multiplexer's own answer to a path that is not registered.
    unfoldable pub serve_rpc :
        (HttpRequest → HttpResponse) → RpcServer W → HttpRequest → W → HttpResponse × W
    serve_rpc other s r w =
        if bytes_eq r.path (text "/cluster/join")
        then serve_join s r w
        else if bytes_eq r.path (text "/cluster/leave")
        then serve_leave s r w
        else if bytes_eq r.path (text "/cluster/heartbeat")
        then serve_heartbeat s r w
        else if bytes_eq r.path (text "/cluster/append")
        then handle_append s r w
        else if bytes_eq r.path (text "/cluster/kv/get")
        then handle_kv_get s r w
        else if bytes_eq r.path (text "/cluster/kv/put")
        then handle_kv_put s r w
        else if bytes_eq r.path (text "/cluster/kv/delete")
        then handle_kv_delete s r w
        else if bytes_eq r.path (text "/cluster/replica/put")
        then handle_replica_put s r w
        else if bytes_eq r.path (text "/cluster/replica/delete")
        then handle_replica_delete s r w
        else if bytes_eq r.path (text "/cluster/replica/get")
        then handle_replica_get s r w
        else if bytes_eq r.path (text "/cluster/gossip")
        then handle_gossip s r w
        else (other r, w)
