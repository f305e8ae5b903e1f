-- ===== src/Server/Kv/Serve.antt =====
-- ServeHTTP of the KVHandler, and the key in the path.
use cluster_db.Prelude.{not, ◌||◌, Option, none, some}
use cluster_db.Prelude.{List, ◌∷◌, length, ◌==◌, if◌then◌else◌}
use cluster_db.Prelude.Bytes.{Bytes, text, bytes_eq}
use cluster_db.Prelude.Split.{split, join, trim}
use cluster_db.Os.Disk.{Os}
use cluster_db.HashRing.Ring.{Sorter}
use cluster_db.Server.Reply.{Reply, refused}
use cluster_db.Server.Kv.State.{Peers, KvHandler}
use cluster_db.Server.Kv.Write.{handle_put, handle_delete}
use cluster_db.Server.Kv.Read.{Repair, handle_get, handle_head}

-- A request, with the body that ReadAll gives or none.
pub record Request : Type 0 where
  pub method : Bytes
  pub path : Bytes
  pub body : Option Bytes

-- The tests of extractKey on the parts of the path.
unfoldable pub key_of_parts : List Bytes → Option Bytes
key_of_parts (a ∷ b ∷ c ∷ rest) =
    let key = join b'/' (c ∷ rest) in
    if not (bytes_eq a (text "v1")) || not (bytes_eq b (text "kv"))
    then none
    else if length key == 0
    then none
    else some key
key_of_parts _ = none

-- extractKey
unfoldable pub extract_key : Bytes → Option Bytes
unfolding key_of_parts
extract_key path = key_of_parts (split b'/' (trim b'/' path))

module _ {W : Type 0} (p : Peers W) (os : Os) (s : Sorter) where
  abbrev beside : Reply × KvHandler W → Reply × Option Repair × KvHandler W
  beside (r, k) = (r, none, k)

  -- ServeHTTP of a handler that has a storage manager.
  unfoldable pub serve : Request → KvHandler W → Reply × Option Repair × KvHandler W
  serve r k = elim (extract_key r.path) [
    | none ↦ (refused 400 (text "invalid key"), none, k)
    | some key ↦
        if bytes_eq r.method (text "PUT")
        then beside (handle_put p os s key r.body k)
        else if bytes_eq r.method (text "GET")
        then handle_get p os s key k
        else if bytes_eq r.method (text "DELETE")
        then beside (handle_delete p os s key k)
        else if bytes_eq r.method (text "HEAD")
        then beside (handle_head p os s key k)
        else (refused 405 (text "method not allowed"), none, k)
  ]
