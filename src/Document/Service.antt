-- ===== src/Document/Service.antt =====
-- internal/document/service/service.go: documents over the storage manager, and their indexes.
pub mod Query
pub mod Pages
pub mod Order
pub mod Sorted
pub mod Stored
use cluster_db.Prelude.{ℕ, ◌+◌, Bool, true, false, Option, none, some, Result, ok, err}
use cluster_db.Prelude.{List, [], ◌∷◌, length, ltb, ◌==◌, if◌then◌else◌}
use cluster_db.Prelude.Bytes.{Bytes, text}
use cluster_db.Prelude.Table.{Table, insert}
use cluster_db.Storage.Types.{Error, key_not_found}
use cluster_db.Storage.Manager.{
  StorageManager, ManagerError, wrapped, store_put, store_get, store_delete,
}
use cluster_db.Os.Disk.{Os}
use cluster_db.Server.Node.{plain_record, bytes_of}
use cluster_db.Document.Index.{
  Values, Indexes, index_document, remove_document, update_document, lookup_ids,
}

-- The values of documents with their JSON form: encoding/json, where Marshal and Unmarshal of an
-- object may fail, and the value of a string.
pub record Json (vs : Values) : Type 0 where
  pub string_value : Bytes → vs.Value
  pub marshal : Table vs.Value → Option Bytes
  pub unmarshal : Bytes → Option (Table vs.Value)

-- The errors of the service: of the storage manager, of internal/document, of json.Marshal, of an
-- aggregate that is not one; and the panic of a slice expression, which is no error of the source.
pub data ServiceError : Type 0 where
  of_store : ManagerError → ServiceError
  invalid_json empty_document marshal_failed invalid_aggregate : ServiceError
  slice_panic : ServiceError

-- `errors.Is(err, storage.ErrKeyNotFound)`
unfoldable pub is_missing : ServiceError → Bool
is_missing (of_store (wrapped prefix key_not_found)) = true
is_missing _ = false

-- Service; the documents of the source are maps.
pub record Service : Type 0 where
  pub manager : StorageManager
  pub indexes : Indexes

-- New
unfoldable pub new_service : StorageManager → Service
new_service m = record { manager = m; indexes = [] }

module _ (vs : Values) (js : Json vs) where
  -- Validate of internal/document.
  unfoldable pub validate_document : Bytes → Result ServiceError (Table vs.Value)
  validate_document b = if length b == 0 then err empty_document else elim (js.unmarshal b) [
    | none ↦ err invalid_json
    | some doc ↦ if length doc == 0 then err empty_document else ok doc
  ]

  -- The copy of a document that has its id.
  unfoldable pub with_id : Bytes → Table vs.Value → Table vs.Value
  with_id id doc = insert (text "_id") (js.string_value id) doc

  module _ (os : Os) where
    -- CreateWithID
    unfoldable pub create_with_id :
        Bytes → Table vs.Value → Service → Result ServiceError (Unit {0}) × Service
    create_with_id id doc s =
        let stored = with_id id doc in
        elim (js.marshal stored) [
          | none ↦ (err marshal_failed, s)
          | some b ↦
              let w = store_put os (plain_record id (some b) 0) s.manager in
              elim w.0 [
                | err e ↦ (err (of_store e), record s { manager = w.1 })
                | ok u ↦ (
                  ok tt,
                  record s { manager = w.1; indexes = index_document vs id stored s.indexes },
                )
              ]
        ]

    -- Create, with the id that NewID gives.
    unfoldable pub create_document :
        Bytes → Table vs.Value → Service → Result ServiceError Bytes × Service
    unfolding create_with_id
    create_document id doc s =
        let r = create_with_id id doc s in (elim r.0 [ err e ↦ err e | ok u ↦ ok id ], r.1)

    -- Get
    unfoldable pub get_document : Bytes → Service → Result ServiceError (Table vs.Value) × Service
    get_document id s =
        let r = store_get os id s.manager in
        (
          elim r.0 [
            | err e ↦ err (of_store e)
            | ok rec ↦ elim (js.unmarshal (bytes_of rec.value)) [
              | none ↦ err invalid_json
              | some doc ↦ ok doc
            ]
          ],
          record s { manager = r.1 },
        )

    -- Delete
    unfoldable pub delete_document : Bytes → Service → Result ServiceError (Unit {0}) × Service
    delete_document id s =
        let g = get_document id s in
        elim g.0 [
          | err e ↦ (err e, g.1)
          | ok doc ↦
              let removed = remove_document vs id doc g.1.indexes in
              let w = store_delete os id g.1.manager in
              elim w.0 [
                | err e ↦ (
                  err (of_store e),
                  record g.1 { manager = w.1; indexes = index_document vs id doc removed },
                )
                | ok u ↦ (ok tt, record g.1 { manager = w.1; indexes = removed })
              ]
        ]

    -- Update behind its Get.
    unfoldable pub replace_document :
        Bytes → Table vs.Value → Table vs.Value → Service → Result ServiceError (Unit {0}) × Service
    replace_document id old doc s = elim (js.marshal (with_id id doc)) [
      | none ↦ (err marshal_failed, s)
      | some b ↦ elim (validate_document b) [
        | err e ↦ (err e, s)
        | ok validated ↦
            let w = store_put os (plain_record id (some b) 0) s.manager in
            elim w.0 [
              | err e ↦ (err (of_store e), record s { manager = w.1 })
              | ok u ↦ (
                ok tt,
                record s { manager = w.1; indexes = update_document vs id old validated s.indexes },
              )
            ]
      ]
    ]

    -- Update
    unfoldable pub update_service :
        Bytes → Table vs.Value → Service → Result ServiceError (Unit {0}) × Service
    update_service id doc s =
        let g = get_document id s in
        elim g.0 [ err e ↦ (err e, g.1) | ok old ↦ replace_document id old doc g.1 ]

    -- Exists
    unfoldable pub document_exists : Bytes → Service → Result ServiceError Bool × Service
    document_exists id s =
        let r = store_get os id s.manager in
        (
          elim r.0 [
            | err e ↦ if is_missing (of_store e) then ok false else err (of_store e)
            | ok rec ↦ ok true
          ],
          record s { manager = r.1 },
        )

    -- The test that ends the loop of FindByField behind a result.
    abbrev is_full : Option ℕ → ℕ → Bool
    is_full none taken = false
    is_full (some limit) taken = taken == limit

    -- The loop of FindByField, behind `matched` documents and `taken` results; a limit below 0 is
    -- `none`, and an offset below 0 is 0.
    unfoldable pub find_from :
        Option ℕ
        → ℕ
        → List Bytes
        → ℕ
        → ℕ
        → Service
        → Result ServiceError (List (Table vs.Value)) × Service
    find_from limit offset [] matched taken s = (ok [], s)
    find_from limit offset (id ∷ ids) matched taken s =
        let g = get_document id s in
        elim g.0 [
          | err e ↦ elim (is_missing e) [
            | true ↦ find_from limit offset ids matched taken g.1
            | false ↦ (err e, g.1)
          ]
          | ok doc ↦ elim (ltb matched offset) [
            | true ↦ find_from limit offset ids (matched + 1) taken g.1
            | false ↦ elim (is_full limit 0) [
              | true ↦ (ok [], g.1)
              | false ↦ elim (is_full limit (taken + 1)) [
                | true ↦ (ok (doc ∷ []), g.1)
                | false ↦
                    let r = find_from limit offset ids (matched + 1) (taken + 1) g.1 in
                    (elim r.0 [ err e ↦ err e | ok docs ↦ ok (doc ∷ docs) ], r.1)
              ]
            ]
          ]
        ]

    -- FindByField without a sort field, of a value that is printed.
    unfoldable pub find_by_field :
        Bytes
        → Bytes
        → Option ℕ
        → ℕ
        → Service
        → Result ServiceError (List (Table vs.Value)) × Service
    unfolding find_from
    find_by_field field value limit offset s =
        find_from limit offset (lookup_ids field value s.indexes) 0 0 s

    -- FindOneByField
    unfoldable pub find_one :
        Bytes → Bytes → Service → Result ServiceError (Option (Table vs.Value)) × Service
    unfolding find_by_field
    find_one field value s =
        let r = find_by_field field value none 0 s in
        (elim r.0 [ err e ↦ err e | ok [] ↦ ok none | ok (doc ∷ docs) ↦ ok (some doc) ], r.1)
