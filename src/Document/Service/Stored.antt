-- ===== src/Document/Service/Stored.antt =====
-- What becomes of a document that was stored.
use cluster_db.Prelude.{
  ◌≡◌, ◌≢◌, sym, ap, ◌∙◌, arith, some, ok, err, Option-cases, inl, inr, if◌then◌else◌,
}
use cluster_db.Prelude.Bytes.{Bytes, text, bytes_eq, bytes_eq_iff}
use cluster_db.Prelude.Table.{Table, lookup, lookup-insert}
use cluster_db.Storage.Types.{key_not_found, Record}
use cluster_db.Storage.Manager.{StorageManager, wrapped, store_put, store_get, store_delete}
use cluster_db.Storage.Manager.Laws.{store_get-store_put, store_get-store_delete, store_get_same}
use cluster_db.Os.Disk.{Os}
use cluster_db.Server.Node.{plain_record}
use cluster_db.Document.Index.{Values}
use cluster_db.Document.Service.{
  Json, Service, of_store, with_id, create_with_id, get_document, delete_document,
}

module _ (vs : Values) (js : Json vs) where
  -- Two documents with the same fields, in whatever order.
  abbrev pub SameFields : Table vs.Value → Table vs.Value → Type 0
  SameFields d e = (k : Bytes) → lookup k d ≡ lookup k e

  -- Unmarshal of what Marshal writes for the document has its fields.
  abbrev pub IsReadBack : Table vs.Value → Type 0
  IsReadBack d =
      (b : Bytes)
      → js.marshal d ≡ some b
      → (e : Table vs.Value) × (js.unmarshal b ≡ some e) × SameFields e d

  -- The fields of a document and, in place of any `_id`, its id.
  abbrev pub HasId : Bytes → Table vs.Value → Table vs.Value → Type 0
  HasId id doc d =
      (lookup (text "_id") d ≡ some (js.string_value id))
      × ((k : Bytes) → k ≢ text "_id" → lookup k d ≡ lookup k doc)

  with_id-HasId :
      (id : Bytes) (doc d : Table vs.Value) → SameFields d (with_id vs js id doc) → HasId id doc d
  unfolding with_id
  with_id-HasId id doc d same =
      let at : (k : Bytes)
          → lookup k (with_id vs js id doc)
            ≡ (if bytes_eq (text "_id") k then some (js.string_value id) else lookup k doc) =
        λ k. lookup-insert (text "_id") k (js.string_value id) doc in
      (
        ground (arith, same (text "_id"), at (text "_id"), bytes_eq_iff (text "_id") (text "_id")),
        λ k other. ground (arith, same k, at k, other, bytes_eq_iff (text "_id") k),
      )

module _ (vs : Values) (js : Json vs) (os : Os) (id : Bytes) (s : Service) where
  created :
      (doc : Table vs.Value)
      → (create_with_id vs js os id doc s).0 ≡ ok tt
      → (b : Bytes) × (js.marshal (with_id vs js id doc) ≡ some b)
        × ((store_put os (plain_record id (some b) 0) s.manager).0 ≡ ok tt)
        × ((create_with_id vs js os id doc s).1.manager
            ≡ (store_put os (plain_record id (some b) 0) s.manager).1)
  unfolding create_with_id
  created doc e = elim (Option-cases (js.marshal (with_id vs js id doc))) [
    | inl q ↦ absurd (ground (arith, e, q))
    | inr (b, q) ↦ (b, q, ground (arith, e, q), ground (arith, e, q))
  ]

  get_stored :
      (t : Service) (rec : Record) (b : Bytes) (doc : Table vs.Value)
      → (store_get os id t.manager).0 ≡ ok rec
      → rec.value ≡ some b
      → js.unmarshal b ≡ some doc
      → (get_document vs js os id t).0 ≡ ok doc
  unfolding get_document
  get_stored t rec b doc e v u = ground (arith, e, v, u)

  -- Get after a CreateWithID that returned gives the fields of the document, whatever their order,
  -- and its id in the field `_id`. Unmarshal of what Marshal writes for the stored document has
  -- its fields.
  pub get_document-create_with_id :
      (doc : Table vs.Value)
      → IsReadBack vs js (with_id vs js id doc)
      → (create_with_id vs js os id doc s).0 ≡ ok tt
      → (d : Table vs.Value) × HasId vs js id doc d
        × ((get_document vs js os id (create_with_id vs js os id doc s).1).0 ≡ ok d)
  get_document-create_with_id doc reads e =
      let (b, q, p, m) = created doc e in
      let (v, rec, sv, rv, found) =
        store_get-store_put os s.manager (plain_record id (some b) 0) p in
      let (d, u, same) = reads b q in
      (
        d,
        with_id-HasId vs js id doc d same,
        get_stored _ rec b d (ap (λ (x : StorageManager). (store_get os id x).0) m ∙ found)
            (rv ∙ sym sv) u,
      )

  deleted :
      (delete_document vs js os id s).0 ≡ ok tt
      → ((store_delete os id s.manager).0 ≡ ok tt)
        × ((delete_document vs js os id s).1.manager ≡ (store_delete os id s.manager).1)
  unfolding delete_document get_document
  deleted e = (
    ground (arith, e, store_get_same os s.manager id),
    ground (arith, e, store_get_same os s.manager id),
  )

  get_missing :
      (t : Service) (prefix : Bytes)
      → (store_get os id t.manager).0 ≡ err (wrapped prefix key_not_found)
      → (get_document vs js os id t).0 ≡ err (of_store (wrapped prefix key_not_found))
  unfolding get_document
  get_missing t prefix e = ground (arith, e)

  -- Get after a Delete that returned reports that the key is not found.
  pub get_document-delete_document :
      (delete_document vs js os id s).0 ≡ ok tt
      → (get_document vs js os id (delete_document vs js os id s).1).0
        ≡ err (of_store (wrapped (text "storage manager: get: ") key_not_found))
  get_document-delete_document e =
      let (p, m) = deleted e in
      get_missing _ (text "storage manager: get: ") (
        ap (λ (x : StorageManager). (store_get os id x).0) m
        ∙ store_get-store_delete os s.manager id p)
