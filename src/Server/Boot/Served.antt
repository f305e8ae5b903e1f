-- ===== src/Server/Boot/Served.antt =====
-- What a ReplicaPut does to the store of a node.
use cluster_db.Prelude.{
  ◌≡◌, refl, sym, ◌∙◌, arith, true, false, Option, none, some, length, ◌==◌, inl, inr, Result-cases,
  ok, err, ◌>>=◌,
}
use cluster_db.Prelude.Bytes.{Bytes, text}
use cluster_db.Storage.Types.{Error, Record}
use cluster_db.Storage.Manager.{
  StorageManager, ManagerError, manager_not_open, manager_already_open, unknown_engine, wrapped,
  check_manager, delegate, store_put, store_get, store_get_raw,
}
use cluster_db.Storage.Manager.Laws.{store_put-put, store_get_found}
use cluster_db.Os.Disk.{Os}
use cluster_db.Memory.Engine.{validate_key, check_open}
use cluster_db.Memory.Ops.{put, get_raw}
use cluster_db.Memory.Kept.{Holds, put-Holds, put-Holds_new, get-Holds}
use cluster_db.Server.Messages.{ReplicaPutRequest}
use cluster_db.Server.Node.{plain_record, error_text, serve_replica_put}

-- The manager and its engine are open, and the engine has the value of the key.
pub record HasValue (key value : Bytes) (m : StorageManager) : Type 0 where
  is_open : m.is_open ≡ true
  named : (length key == 0) ≡ false
  holds : Holds key value m.engine

module _ (os : Os) (m : StorageManager) where
  store_put_open :
      (rec : Record)
      → m.is_open ≡ true
      → (store_put os rec m).1 ≡ record m { engine = (put os rec m.engine).1 }
  unfolding store_put check_manager delegate ◌>>=◌
  store_put_open rec o = ground (arith, o)

  store_get_raw_same : (key : Bytes) → (store_get_raw os key m).1 ≡ m
  unfolding store_get_raw check_manager delegate get_raw validate_key check_open ◌>>=◌
  store_get_raw_same key = ground arith

  -- Another Put of the value, returning or failing, leaves the value.
  pub store_put-HasValue :
      (rec : Record) (value : Bytes)
      → rec.value ≡ some value
      → HasValue rec.key value m
      → HasValue rec.key value (store_put os rec m).1
  store_put-HasValue rec value v h = rw (store_put_open rec h.is_open) (record {
    is_open = h.is_open;
    named = h.named;
    holds = put-Holds os rec value m.engine v h.holds;
  })

  pub store_put-HasValue_new :
      (rec : Record) (value : Bytes)
      → rec.value ≡ some value
      → (store_put os rec m).0 ≡ ok tt
      → HasValue rec.key value (store_put os rec m).1
  store_put-HasValue_new rec value v e =
      let (o, p, q) = store_put-put os m rec e in
      let (u, w, k, h) = put-Holds_new os rec m.engine p in
      let same : u ≡ value = cc (sym w ∙ v) in
      rw q (record { is_open = o; named = k; holds = rw (sym same) h })

  pub store_get-HasValue :
      (key value : Bytes)
      → HasValue key value m
      → (r : Record) × ((store_get os key m).0 ≡ ok r) × (r.value ≡ some value)
  store_get-HasValue key value h = (
    h.holds.held,
    store_get_found os m key h.holds.held h.is_open
        (get-Holds os key value m.engine h.named h.holds),
    h.holds.valued,
  )

  put_prefix :
      (rec : Record) (prefix : Bytes) (x : Error)
      → (store_put os rec m).0 ≡ err (wrapped prefix x)
      → prefix ≡ text "storage manager: put: "
  unfolding store_put check_manager delegate ◌>>=◌
  put_prefix rec prefix x h = ground (arith, h)

  failed_text :
      (detail : Error → Bytes) (rec : Record) (e : ManagerError)
      → (store_put os rec m).0 ≡ err e
      → (length (error_text detail e) == 0) ≡ false
  unfolding error_text
  failed_text detail rec manager_not_open h = refl
  failed_text detail rec manager_already_open h = refl
  failed_text detail rec unknown_engine h = refl
  failed_text detail rec (wrapped prefix x) h = rw (put_prefix rec prefix x h) (ground arith)

module _ (detail : Error → Bytes) (os : Os) (req : ReplicaPutRequest) where
  abbrev pub rec_of : Record
  rec_of = plain_record req.key req.value req.version

  pub served_store :
      (m : StorageManager)
      → (serve_replica_put detail os req (some m)).1 ≡ some (store_put os rec_of m).1
  unfolding serve_replica_put
  served_store m = ground (arith, store_get_raw_same os (store_put os rec_of m).1 req.key)

  -- An answer without an error text is that of a node whose Put returned.
  pub served_acked :
      (o : Option StorageManager)
      → (length (serve_replica_put detail os req o).0.error == 0) ≡ true
      → (m : StorageManager) × (o ≡ some m) × ((store_put os rec_of m).0 ≡ ok tt)
  unfolding serve_replica_put
  served_acked none h = absurd (ground (arith, h))
  served_acked (some m) h = elim (Result-cases (store_put os rec_of m).0) [
    | inl (u, e) ↦ (m, refl, e)
    | inr (x, e) ↦ absurd (ground (arith, h, e, failed_text os m detail rec_of x e))
  ]
