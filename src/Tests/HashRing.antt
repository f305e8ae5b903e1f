-- ===== src/Tests/HashRing.antt =====
-- The ring with a stable sort, and its theorems at small rings.
use cluster_db.Prelude.{◌≡◌, refl, some, none, [], ◌∷◌, length}
use cluster_db.Prelude.{◌==◌, if◌then◌else◌}
use cluster_db.Prelude.Bytes.{text, bytes_eq}
use cluster_db.Wal.Crc.{crc32}
use cluster_db.HashRing.Search.{search}
use cluster_db.HashRing.Ring.{
  HashRing, new_ring, get_node, replica_owners, start_index, owners_loop, virtual_entries,
  virtual_key, add_node, remove_node,
}
use cluster_db.HashRing.Invariant.{IsValid, added, removed, apply_all, history-IsValid}
use cluster_db.HashRing.Lookup.{successor, get_node-successor, get_node-remove_node}
use cluster_db.Tests.Stable.{stable, arrange, place}
use cluster_db.HashRing.Owners.{IsChoice, walk, replica_owners-IsChoice}

abbrev two_nodes : HashRing
two_nodes = apply_all stable (added (text "a") ∷ added (text "b") ∷ []) (new_ring 2)

history-IsValid_example :
    IsValid (
      apply_all stable (added (text "a") ∷ added (text "b") ∷ removed (text "a") ∷ []) (new_ring 2))
history-IsValid_example =
    history-IsValid stable 2 (added (text "a") ∷ added (text "b") ∷ removed (text "a") ∷ [])

two_nodes-IsValid : IsValid two_nodes
two_nodes-IsValid = history-IsValid stable 2 (added (text "a") ∷ added (text "b") ∷ [])

get_node-successor_example :
    get_node (text "x") two_nodes
    ≡ (if length (text "x") == 0 then none else successor (crc32 (text "x")) two_nodes.ring)
get_node-successor_example = get_node-successor (text "x") two_nodes two_nodes-IsValid

x_at_b : get_node (text "x") two_nodes ≡ some (text "b")
unfolding get_node start_index search add_node new_ring virtual_entries virtual_key crc32 arrange
    place bytes_eq
x_at_b = refl

get_node-remove_node_example :
    get_node (text "x") (remove_node (text "a") two_nodes) ≡ some (text "b")
get_node-remove_node_example =
    get_node-remove_node (text "x") (text "b") (text "a") two_nodes two_nodes-IsValid x_at_b
      (unfold bytes_eq in refl)

x_owners : replica_owners (text "x") 2 two_nodes ≡ some (text "b" ∷ text "a" ∷ [])
unfolding replica_owners owners_loop start_index search add_node new_ring virtual_entries
    virtual_key crc32 arrange place bytes_eq
x_owners = refl

replica_owners-IsChoice_example :
    IsChoice
      (walk two_nodes.ring
        (start_index two_nodes.ring (crc32 (text "x")))
        0
        (length two_nodes.ring))
      []
      (text "b" ∷ text "a" ∷ [])
      2
replica_owners-IsChoice_example =
    replica_owners-IsChoice (text "x") 2 two_nodes (text "b" ∷ text "a" ∷ []) x_owners
