-- ===== src/Storage/Manager/Laws.antt =====
-- What the storage manager promises over its engine.
use cluster_db.Prelude.{◌≡◌, refl, ap, ◌∙◌, arith, true, some}
use cluster_db.Prelude.{Result, ok, err, ◌>>=◌}
use cluster_db.Prelude.Bytes.{Bytes, text}
use cluster_db.Storage.Types.{Error, Record, key_not_found}
use cluster_db.Os.Disk.{Os}
use cluster_db.Memory.Engine.{M, validate_key, check_open}
use cluster_db.Memory.Ops.{put, get, delete}
use cluster_db.Memory.Laws.{get-put, get-delete}
use cluster_db.Storage.Manager.{
  StorageManager, ManagerError, wrapped, check_manager, delegate, store_put, store_get,
  store_delete,
}

module _ {A : Type 0} (prefix : Bytes) (call : M A) (m : StorageManager) where
  delegate_runs : (a : A) → (call m.engine).0 ≡ ok a → (delegate prefix call m).0 ≡ ok a
  unfolding delegate
  delegate_runs a e = rw e refl

  delegate_fails :
      (x : Error) → (call m.engine).0 ≡ err x → (delegate prefix call m).0 ≡ err (wrapped prefix x)
  unfolding delegate
  delegate_fails x e = rw e refl

module _ (os : Os) (m : StorageManager) where
  -- A Put that returns ran on an open manager, and was a Put of the engine that returned.
  pub store_put-put :
      (rec : Record)
      → (store_put os rec m).0 ≡ ok tt
      → (m.is_open ≡ true)
        × ((put os rec m.engine).0 ≡ ok tt)
        × ((store_put os rec m).1 ≡ record m { engine = (put os rec m.engine).1 })
  unfolding store_put check_manager delegate ◌>>=◌
  store_put-put rec e = (ground arith, ground arith, ground arith)

  pub store_delete-delete :
      (key : Bytes)
      → (store_delete os key m).0 ≡ ok tt
      → (m.is_open ≡ true)
        × ((delete os key m.engine).0 ≡ ok tt)
        × ((store_delete os key m).1 ≡ record m { engine = (delete os key m.engine).1 })
  unfolding store_delete check_manager delegate ◌>>=◌
  store_delete-delete key e = (ground arith, ground arith, ground arith)

  -- Get changes nothing.
  pub store_get_same : (key : Bytes) → (store_get os key m).1 ≡ m
  unfolding store_get check_manager delegate get validate_key check_open ◌>>=◌
  store_get_same key = ground arith

  store_get_open :
      (key : Bytes)
      → m.is_open ≡ true
      → store_get os key m ≡ delegate (text "storage manager: get: ") (get os key) m
  unfolding store_get check_manager ◌>>=◌
  store_get_open key o = ground arith

  pub store_get_found :
      (key : Bytes) (r : Record)
      → m.is_open ≡ true
      → (get os key m.engine).0 ≡ ok r
      → (store_get os key m).0 ≡ ok r
  store_get_found key r o e =
      ap (λ (x : Result ManagerError Record × StorageManager). x.0) (store_get_open key o)
      ∙ delegate_runs (text "storage manager: get: ") (get os key) m r e

  pub store_get_missing :
      (key : Bytes) (x : Error)
      → m.is_open ≡ true
      → (get os key m.engine).0 ≡ err x
      → (store_get os key m).0 ≡ err (wrapped (text "storage manager: get: ") x)
  store_get_missing key x o e =
      ap (λ (y : Result ManagerError Record × StorageManager). y.0) (store_get_open key o)
      ∙ delegate_fails (text "storage manager: get: ") (get os key) m x e

module _ (os : Os) (m : StorageManager) where
  -- After a Put that returns, Get finds a record with the value.
  pub store_get-store_put :
      (rec : Record)
      → (store_put os rec m).0 ≡ ok tt
      → (value : Bytes) × (r : Record) × (rec.value ≡ some value)
        × (r.value ≡ some value)
        × ((store_get os rec.key (store_put os rec m).1).0 ≡ ok r)
  store_get-store_put rec e =
      let (o, p, q) = store_put-put os m rec e in
      let (value, v, found) = get-put os rec m.engine p in
      (
        value,
        _,
        v,
        refl,
        ap (λ (x : StorageManager). (store_get os rec.key x).0) q
            ∙ store_get_found os (record m { engine = (put os rec m.engine).1 }) rec.key _ o found,
      )

  -- After a Delete that returns, Get reports a missing key.
  pub store_get-store_delete :
      (key : Bytes)
      → (store_delete os key m).0 ≡ ok tt
      → (store_get os key (store_delete os key m).1).0
        ≡ err (wrapped (text "storage manager: get: ") key_not_found)
  store_get-store_delete key e =
      let (o, p, q) = store_delete-delete os m key e in
      let (missing, raw) = get-delete os key m.engine p in
      rw q (store_get_missing os _ key key_not_found o missing)
