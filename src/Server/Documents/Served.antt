-- ===== src/Server/Documents/Served.antt =====
-- A document that one request creates or deletes, as the next request finds it.
use cluster_db.Prelude.{
  ◌≡◌, refl, sym, ap, ◌∙◌, arith, true, false, Option, none, some, Option-cases, Result-cases, inl,
  inr,
}
use cluster_db.Prelude.{Result, ok, err, length, ◌==◌, if◌then◌else◌, Bool-cases}
use cluster_db.Prelude.Bytes.{Bytes, text, bytes_eq}
use cluster_db.Prelude.Table.{Table}
use cluster_db.Os.Disk.{Os}
use cluster_db.HashRing.Ring.{Sorter}
use cluster_db.Cluster.Membership.{Node}
use cluster_db.Cluster.Manager.{Manager, owner, sync_hash_ring}
use cluster_db.Document.Index.{Values}
use cluster_db.Document.Sharding.{shard_owner}
use cluster_db.Document.Service.{
  Json, Service, ServiceError, of_store, invalid_json, empty_document, marshal_failed,
  invalid_aggregate, slice_panic, is_missing, validate_document, with_id, create_with_id,
  get_document,
}
use cluster_db.Document.Service.Stored.{IsReadBack, HasId, get_document-create_with_id}
use cluster_db.Document.Service.Query.{Kinds}
use cluster_db.Server.Documents.Request.{
  DocumentRequest, collection, document, parse_document_path, is_json_content_type,
}
use cluster_db.Server.Documents.Handler.{
  DocumentReply, rejected, created_with, found_one, Outside, DocumentHandler, document_route,
  write_document_error, create_here, create_routed, handle_create, get_here, handle_get_document,
  serve_documents,
}

-- The node owns the document.
abbrev pub IsShardHere : Sorter → Option Manager → Bytes → Type 0
IsShardHere s c id = (n : Node) × ((document_route s c id).0 ≡ some (n, true))

document_route-again :
    (s : Sorter) (c : Option Manager) (id : Bytes)
    → (document_route s (document_route s c id).1 id).0 ≡ (document_route s c id).0
unfolding document_route shard_owner owner sync_hash_ring
document_route-again s none id = refl
document_route-again s (some m) id = refl

module _ (vs : Values) (js : Json vs) (k : Kinds vs) where
  not_created :
      (e : ServiceError) (id : Bytes) (A : Type 0)
      → write_document_error vs js k e ≡ created_with id
      → A
  unfolding write_document_error is_missing
  not_created (of_store m) id A h = absurd (ground (arith, h))
  not_created invalid_json id A h = absurd (ground (arith, h))
  not_created empty_document id A h = absurd (ground (arith, h))
  not_created marshal_failed id A h = absurd (ground (arith, h))
  not_created invalid_aggregate id A h = absurd (ground (arith, h))
  not_created slice_panic id A h = absurd (ground (arith, h))

  module _ {W : Type 0} (out : Outside vs k W) (os : Os) (s : Sorter) (id : Bytes)
      (doc : Table vs.Value) (v : Service) where
    -- A 201 of the service's own store.
    created_here :
        (h : DocumentHandler W)
        → (create_here vs js k out os s id doc v h).0 ≡ created_with id
        → ((create_with_id vs js os id doc v).0 ≡ ok tt)
          × ((create_here vs js k out os s id doc v h).1
              ≡ record h { service = some (create_with_id vs js os id doc v).1 })
    unfolding create_here
    created_here h e = elim (Result-cases (create_with_id vs js os id doc v).0) [
      | inl (u, q) ↦ (q, refl)
      | inr (x, q) ↦
          not_created x id _ (sym (ap (λ (r : Result ServiceError (Unit {0})). answer_of r) q) ∙ e)
    ]
      where
        answer_of : Result ServiceError (Unit {0}) → DocumentReply vs k
        answer_of r = elim r [ err e ↦ write_document_error vs js k e | ok u ↦ created_with id ]

    -- The state behind an acknowledged creation.
    abbrev IsCreated : DocumentHandler W → Type 0
    IsCreated h =
        ((create_with_id vs js os id doc v).0 ≡ ok tt)
        × (h.service ≡ some (create_with_id vs js os id doc v).1)
        × IsShardHere s h.cluster id

    here-IsCreated :
        (h : DocumentHandler W)
        → IsShardHere s h.cluster id
        → (create_here vs js k out os s id doc v h).0 ≡ created_with id
        → IsCreated (create_here vs js k out os s id doc v h).1
    here-IsCreated h i e =
        let (c, q) = created_here h e in (c, ap (λ (x : DocumentHandler W). x.service) q, rw q i)

    routed_here :
        (h : DocumentHandler W) (n : Node) (b : Bytes)
        → (document_route s h.cluster id).0 ≡ some (n, true)
        → js.marshal (with_id vs js id doc) ≡ some b
        → create_routed vs js k out os s id doc v h
          ≡ create_here vs js k out os s id doc v
              (record h { cluster = (document_route s h.cluster id).1 })
    unfolding create_routed
    routed_here h n b i q = ground (arith, i, q)

    unmarshalled :
        (h : DocumentHandler W) (n : Node)
        → (document_route s h.cluster id).0 ≡ some (n, true)
        → js.marshal (with_id vs js id doc) ≡ none
        → (create_routed vs js k out os s id doc v h).0 ≡ rejected 400 (text "invalid document")
    unfolding create_routed
    unmarshalled h n i q = ground (arith, i, q)

    routed-IsCreated :
        (h : DocumentHandler W)
        → IsShardHere s h.cluster id
        → (create_routed vs js k out os s id doc v h).0 ≡ created_with id
        → IsCreated (create_routed vs js k out os s id doc v h).1
    routed-IsCreated h (n, i) e = elim (Option-cases (js.marshal (with_id vs js id doc))) [
      | inl q ↦ absurd (cc (sym (unmarshalled h n i q) ∙ e))
      | inr (b, q) ↦
          let r = routed_here h n b i q in
          let again = document_route-again s h.cluster id ∙ i in
          rw r (
            here-IsCreated (record h { cluster = (document_route s h.cluster id).1 }) (n, again)
              (sym (ap (λ (x : DocumentReply vs k × DocumentHandler W). x.0) r) ∙ e))
    ]

    -- A GET of a document that the service has.
    get_served :
        (h : DocumentHandler W) (r : DocumentRequest) (d : Table vs.Value)
        → h.service ≡ some v
        → IsShardHere s h.cluster id
        → r.method ≡ text "GET"
        → parse_document_path r.path ≡ some (document id)
        → (get_document vs js os id v).0 ≡ ok d
        → (serve_documents vs js k out os s r h).0 ≡ found_one d
    unfolding serve_documents handle_get_document get_here bytes_eq
    get_served h r d a (n, i) m p g = ground (arith, a, i, m, p, g)

module _ (vs : Values) (js : Json vs) (k : Kinds vs) {W : Type 0} (out : Outside vs k W) (os : Os)
    (s : Sorter) where
  -- The id that a POST gives its document: the one that another node chose, or a new one.
  abbrev pub posted_id : DocumentRequest → W → Bytes
  posted_id q w = if length q.document_id == 0 then out.new_id w else q.document_id

  module _ (v : Service) (c : Option Manager) (w : W) (q : DocumentRequest) (b : Bytes)
      (doc : Table vs.Value) (m : q.method ≡ text "POST")
      (p : parse_document_path q.path ≡ some collection) (body : q.body ≡ some b)
      (valid : validate_document vs js b ≡ ok doc) where
    abbrev before : DocumentHandler W
    before = record { service = some v; cluster = c; peers = w }

    abbrev answer : DocumentReply vs k × DocumentHandler W
    answer = serve_documents vs js k out os s q before

    not_json :
        is_json_content_type out.trim_space q.content_type ≡ false
        → answer.0 ≡ rejected 400 (text "content type must be application/json")
    unfolding serve_documents handle_create bytes_eq
    not_json t = ground (arith, m, p, t)

    with_own_id :
        is_json_content_type out.trim_space q.content_type ≡ true
        → (length q.document_id == 0) ≡ true
        → answer ≡ create_routed vs js k out os s (out.new_id w) doc v before
    unfolding serve_documents handle_create bytes_eq
    with_own_id t l = ground (arith, m, p, t, body, valid, l)

    with_given_id :
        is_json_content_type out.trim_space q.content_type ≡ true
        → (length q.document_id == 0) ≡ false
        → answer ≡ create_here vs js k out os s q.document_id doc v before
    unfolding serve_documents handle_create bytes_eq
    with_given_id t l = ground (arith, m, p, t, body, valid, l)

    post-IsCreated :
        (id : Bytes)
        → id ≡ posted_id q w
        → IsShardHere s c id
        → answer.0 ≡ created_with id
        → IsCreated vs js k out os s id doc v answer.1
    post-IsCreated id same i e =
        elim (Bool-cases (is_json_content_type out.trim_space q.content_type)) [
          | inr t ↦ absurd (cc (sym (not_json t) ∙ e))
          | inl t ↦ elim (Bool-cases (length q.document_id == 0)) [
            | inl l ↦
                let own : id ≡ out.new_id w = same ∙ rw l refl in
                let r =
                  with_own_id t l
                  ∙ ap (λ x. create_routed vs js k out os s x doc v before) (sym own) in
                rw r (
                  routed-IsCreated vs js k out os s id doc v before i
                    (sym (ap (λ (x : DocumentReply vs k × DocumentHandler W). x.0) r) ∙ e))
            | inr l ↦
                let own : id ≡ q.document_id = same ∙ rw l refl in
                let r =
                  with_given_id t l
                  ∙ ap (λ x. create_here vs js k out os s x doc v before) (sym own) in
                rw r (
                  here-IsCreated vs js k out os s id doc v before i
                    (sym (ap (λ (x : DocumentReply vs k × DocumentHandler W). x.0) r) ∙ e))
          ]
        ]

    -- After a POST at a node that owns the document's id, the one that another node chose or a new
    -- one, and that it answered with 201, a GET of the document is answered with 200 and a document
    -- that has its id in the field `_id` and all other fields of the posted one. Unmarshal of what
    -- Marshal writes for the stored document has its fields.
    pub found_one-created_with :
        (id : Bytes) (r : DocumentRequest)
        → id ≡ posted_id q w
        → IsShardHere s c id
        → IsReadBack vs js (with_id vs js id doc)
        → r.method ≡ text "GET"
        → parse_document_path r.path ≡ some (document id)
        → answer.0 ≡ created_with id
        → (d : Table vs.Value) × HasId vs js id doc d
          × ((serve_documents vs js k out os s r answer.1).0 ≡ found_one d)
    found_one-created_with id r same i reads g path e =
        let (created, service, here) = post-IsCreated id same i e in
        let (d, fields, found) = get_document-create_with_id vs js os id v doc reads created in
        (
          d,
          fields,
          get_served vs js k out os s id doc (create_with_id vs js os id doc v).1 answer.1 r d
              service here g path found,
        )
