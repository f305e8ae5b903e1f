-- ===== src/Server/Documents/Handler.antt =====
-- internal/server/handlers/document.go: the handlers, over the document service, the cluster manager
-- and the nodes that own other documents.
use cluster_db.Prelude.{ℕ, Bool, true, false, not, ◌++◌, Option, none, some, ok, err}
use cluster_db.Prelude.{List, [], length, ◌==◌, if◌then◌else◌}
use cluster_db.Prelude.Bytes.{Bytes, text, bytes_eq}
use cluster_db.Prelude.Table.{Table, lookup}
use cluster_db.Os.Disk.{Os}
use cluster_db.HashRing.Ring.{Sorter}
use cluster_db.Cluster.Membership.{Node, empty_node, is_alive}
use cluster_db.Cluster.Manager.{Manager, is_local_node}
use cluster_db.Document.Index.{Values}
use cluster_db.Document.Sharding.{shard_owner}
use cluster_db.Document.Service.{
  Json, Service, ServiceError, invalid_json, slice_panic, is_missing, validate_document, with_id,
  create_with_id, get_document, delete_document, document_exists,
}
use cluster_db.Document.Service.Query.{Kinds, Aggregate, aggregate_documents, find_documents}
use cluster_db.Server.Kv.Write.{unavailable}
use cluster_db.Server.Documents.Request.{
  DocumentRequest, query_value, collection, document, parse_document_path, is_json_content_type,
  is_supported_aggregate, parse_count,
}

-- What a handler answers: a status with an error object, 201 with an id, 200 with a document, with
-- documents or with an aggregate, 204, or a panic.
pub data DocumentReply (vs : Values) (k : Kinds vs) : Type 0 where
  rejected : ℕ → Bytes → DocumentReply vs k
  created_with : Bytes → DocumentReply vs k
  found_one : Table vs.Value → DocumentReply vs k
  found_many : List (Table vs.Value) → DocumentReply vs k
  aggregated : Aggregate vs k → DocumentReply vs k
  no_content : DocumentReply vs k
  crashed : DocumentReply vs k

-- What the handlers use of other packages: strings.TrimSpace, url.PathEscape, NewID, and a request to
-- a node over the state `W` of the others, whose path is escaped. The handler copies the response.
pub record Outside (vs : Values) (k : Kinds vs) (W : Type 0) : Type 0 where
  pub trim_space : Bytes → Bytes
  pub path_escape : Bytes → Bytes
  pub new_id : W → Bytes
  pub send : Bytes → DocumentRequest → W → Option (DocumentReply vs k) × W

-- DocumentHandler, with the nodes that it reaches.
pub record DocumentHandler (W : Type 0) : Type 0 where
  pub service : Option Service
  pub cluster : Option Manager
  pub peers : W

-- documentRoute: the owner and whether it is the local node, or no owner.
unfoldable pub document_route :
    Sorter → Option Manager → Bytes → Option (Node × Bool) × Option Manager
document_route s none id = (some (empty_node, true), none)
document_route s (some m) id =
    let r = shard_owner s (some m) id in
    (
      elim r.0 [
        | none ↦ none
        | some n ↦ some (n, elim r.1 [ none ↦ false | some c ↦ is_local_node n.id c ])
      ],
      r.1,
    )

abbrev no_owner_text : Bytes
no_owner_text = text "no owner node found on consistent hash ring"

module _ (vs : Values) (js : Json vs) (k : Kinds vs) where
  -- writeDocumentValidationError
  unfoldable pub write_validation_error : ServiceError → DocumentReply vs k
  write_validation_error invalid_json = rejected 400 (text "invalid json")
  write_validation_error _ = rejected 400 (text "invalid document")

  -- writeDocumentStorageError; the store gives no error of a context. A panic goes through.
  unfoldable pub write_document_error : ServiceError → DocumentReply vs k
  write_document_error slice_panic = crashed
  write_document_error e =
      if is_missing e
      then rejected 404 (text "document not found")
      else rejected 500 (text "storage error")

  module _ {W : Type 0} (out : Outside vs k W) where
    -- forwardDocumentRequest
    unfoldable pub forward_document :
        Node → DocumentRequest → DocumentHandler W → DocumentReply vs k × DocumentHandler W
    forward_document n r h =
        if not (is_alive n.status)
        then (rejected 503 (unavailable (text "owner") n), h)
        else let a = out.send n.address r h.peers in
          (
            elim a.0 [
              | none ↦ rejected 502 (text "document forwarding failed")
              | some reply ↦ reply
            ],
            record h { peers = a.1 },
          )

    -- A request without a query that is sent on.
    abbrev pub onward : Bytes → Bytes → Bytes → Bytes → DocumentRequest
    onward method path body id = record {
      method = method;
      path = path;
      content_type = text "application/json";
      document_id = id;
      body = some body;
      query = [];
    }

    abbrev pub document_path : Bytes → Bytes
    document_path id = text "/v1/documents/" ++ out.path_escape id

    module _ (os : Os) (s : Sorter) where
      -- CreateWithID and its answer.
      unfoldable pub create_here :
          Bytes
          → Table vs.Value
          → Service
          → DocumentHandler W
          → DocumentReply vs k × DocumentHandler W
      create_here id doc v h =
          let r = create_with_id vs js os id doc v in
          (
            elim r.0 [ err e ↦ write_document_error e | ok u ↦ created_with id ],
            record h { service = some r.1 },
          )

      -- handleCreate for a document of this handler's own id.
      unfoldable pub create_routed :
          Bytes
          → Table vs.Value
          → Service
          → DocumentHandler W
          → DocumentReply vs k × DocumentHandler W
      unfolding create_here forward_document
      create_routed id doc v h =
          let r = document_route s h.cluster id in
          let h1 : DocumentHandler W = record h { cluster = r.1 } in
          elim r.0 [
            | none ↦ (rejected 503 no_owner_text, h1)
            | some (n, here) ↦ elim (js.marshal (with_id vs js id doc)) [
              | none ↦ (rejected 400 (text "invalid document"), h1)
              | some b ↦
                  if not here
                  then forward_document n (onward (text "POST") (text "/v1/documents") b id) h1
                  else create_here id doc v h1
            ]
          ]

      -- handleCreate
      unfoldable pub handle_create :
          DocumentRequest → Service → DocumentHandler W → DocumentReply vs k × DocumentHandler W
      unfolding create_routed create_here
      handle_create q v h =
          if not (is_json_content_type out.trim_space q.content_type)
          then (rejected 400 (text "content type must be application/json"), h)
          else elim q.body [
            | none ↦ (rejected 400 (text "invalid request body"), h)
            | some b ↦ elim (validate_document vs js b) [
              | err e ↦ (write_validation_error e, h)
              | ok doc ↦
                  if not (length q.document_id == 0)
                  then create_here q.document_id doc v h
                  else create_routed (out.new_id h.peers) doc v h
            ]
          ]

      -- Get and its answer.
      unfoldable pub get_here :
          Bytes → Service → DocumentHandler W → DocumentReply vs k × DocumentHandler W
      get_here id v h =
          let g = get_document vs js os id v in
          (
            elim g.0 [ err e ↦ write_document_error e | ok doc ↦ found_one doc ],
            record h { service = some g.1 },
          )

      -- handleGet of a document.
      unfoldable pub handle_get_document :
          Bytes → Service → DocumentHandler W → DocumentReply vs k × DocumentHandler W
      unfolding get_here forward_document
      handle_get_document id v h =
          let r = document_route s h.cluster id in
          let h1 : DocumentHandler W = record h { cluster = r.1 } in
          elim r.0 [
            | none ↦ (rejected 503 no_owner_text, h1)
            | some (n, here) ↦
                if not here
                then forward_document n (onward (text "GET") (document_path id) [] []) h1
                else get_here id v h1
          ]

      -- Exists, Delete and their answer.
      unfoldable pub delete_here :
          Bytes → Service → DocumentHandler W → DocumentReply vs k × DocumentHandler W
      delete_here id v h =
          let x = document_exists vs js os id v in
          elim x.0 [
            | err e ↦ (write_document_error e, record h { service = some x.1 })
            | ok exists ↦
                let d = delete_document vs js os id x.1 in
                if not exists
                then (rejected 404 (text "document not found"), record h { service = some x.1 })
                else (
                  elim d.0 [ err e ↦ write_document_error e | ok u ↦ no_content ],
                  record h { service = some d.1 },
                )
          ]

      -- handleDelete of a document.
      unfoldable pub handle_delete_document :
          Bytes → Service → DocumentHandler W → DocumentReply vs k × DocumentHandler W
      unfolding delete_here forward_document
      handle_delete_document id v h =
          let r = document_route s h.cluster id in
          let h1 : DocumentHandler W = record h { cluster = r.1 } in
          elim r.0 [
            | none ↦ (rejected 503 no_owner_text, h1)
            | some (n, here) ↦
                if not here
                then forward_document n (onward (text "DELETE") (document_path id) [] []) h1
                else delete_here id v h1
          ]

      -- FindByField and its answer: the documents, or their aggregate.
      unfoldable pub find_here :
          DocumentRequest
          → Option Bytes
          → Option ℕ
          → ℕ
          → Service
          → DocumentHandler W
          → DocumentReply vs k × DocumentHandler W
      find_here q aggregate limit offset v h =
          let r =
            find_documents vs js k os (query_value (text "field") q) (query_value (text "value") q)
              limit offset (query_value (text "sort") q) v in
          (
            elim r.0 [
              | err e ↦ write_document_error e
              | ok docs ↦ elim aggregate [
                | none ↦ found_many docs
                | some a ↦ elim (aggregate_documents vs k docs a) [
                  | err e ↦ write_document_error e
                  | ok result ↦ aggregated result
                ]
              ]
            ],
            record h { service = some r.1 },
          )

      -- A parameter that is a count; `missing` where it is absent, `none` where it is invalid.
      abbrev pub count_of : {A : Type 0} → (ℕ → A) → A → Option Bytes → Option A
      count_of given missing none = some missing
      count_of given missing (some raw) = elim (parse_count raw) [
        | none ↦ none
        | some n ↦ some (given n)
      ]

      -- The end of handleFind, where the parameters `field` and `value` are there.
      unfoldable pub find_paged :
          DocumentRequest → Service → DocumentHandler W → DocumentReply vs k × DocumentHandler W
      unfolding find_here
      find_paged q v h = elim (lookup (text "aggregate") q.query) [
        | some a ↦
            if not (is_supported_aggregate a)
            then (rejected 400 (text "invalid aggregate parameter"), h)
            else find_here q (some a) none 0 v h
        | none ↦ elim (count_of some none (lookup (text "limit") q.query)) [
          | none ↦ (rejected 400 (text "invalid limit parameter"), h)
          | some limit ↦ elim (count_of (λ n. n) 0 (lookup (text "offset") q.query)) [
            | none ↦ (rejected 400 (text "invalid offset parameter"), h)
            | some offset ↦ find_here q none limit offset v h
          ]
        ]
      ]

      -- handleFind
      unfoldable pub handle_find :
          DocumentRequest → Service → DocumentHandler W → DocumentReply vs k × DocumentHandler W
      unfolding find_paged
      handle_find q v h = elim (lookup (text "field") q.query) [
        | some f ↦ elim (lookup (text "value") q.query) [
          | none ↦ (rejected 400 (text "missing value parameter"), h)
          | some x ↦ find_paged q v h
        ]
        | none ↦ elim (lookup (text "value") q.query) [
          | some x ↦ (rejected 400 (text "missing field parameter"), h)
          | none ↦ (rejected 405 (text "method not allowed"), h)
        ]
      ]

      -- ServeHTTP
      unfoldable pub serve_documents :
          DocumentRequest → DocumentHandler W → DocumentReply vs k × DocumentHandler W
      unfolding handle_find handle_create handle_get_document handle_delete_document
      serve_documents q h = elim h.service [
        | none ↦ (rejected 500 (text "document service unavailable"), h)
        | some v ↦ elim (parse_document_path q.path) [
          | none ↦ (rejected 404 (text "not found"), h)
          | some target ↦ elim target [
            | collection ↦
                if bytes_eq q.method (text "GET")
                then handle_find q v h
                else if not (bytes_eq q.method (text "POST"))
                then (rejected 405 (text "method not allowed"), h)
                else handle_create q v h
            | document id ↦
                if bytes_eq q.method (text "GET")
                then handle_get_document id v h
                else if bytes_eq q.method (text "DELETE")
                then handle_delete_document id v h
                else (rejected 405 (text "method not allowed"), h)
          ]
        ]
      ]
