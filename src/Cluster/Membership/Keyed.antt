-- ===== src/Cluster/Membership/Keyed.antt =====
-- Every operation keeps the members keyed by their ids.
use cluster_db.Prelude.{◌≡◌, refl, sym, ◌∙◌, arith, Bool, true, false, none, some}
use cluster_db.Prelude.{[], ◌∷◌, Option-cases, inl, inr, if◌then◌else◌}
use cluster_db.Prelude.Bytes.{Bytes, bytes_eq, bytes_eq_iff}
use cluster_db.Prelude.Table.{Table, lookup, insert, remove, lookup-insert, lookup-remove}
use cluster_db.Storage.Time.{Time}
use cluster_db.Cluster.Membership.{
  Node, Membership, best_from, clear_leaders, elect_leader, settle, notify_change, add_node,
  remove_node, update_node, update_heartbeat,
}
use cluster_db.Cluster.Membership.Election.{
  IsKeyed, lookup-clear_leaders, lookup-IsKeyed, elect_none, elect_some,
}

IsKeyed-if :
    (b : Bool) (x y : Table Node)
    → (b ≡ true → IsKeyed x)
    → (b ≡ false → IsKeyed y)
    → IsKeyed (if b then x else y)
IsKeyed-if true x y p q = p refl
IsKeyed-if false x y p q = q refl

pub IsKeyed-insert :
    (k : Bytes) (n : Node) (m : Table Node) → n.id ≡ k → IsKeyed m → IsKeyed (insert k n m)
unfolding insert lookup
IsKeyed-insert k n [] e h = (e, refl, tt)
IsKeyed-insert k n ((j, w) ∷ m) e h =
    IsKeyed-if (bytes_eq j k) ((j, n) ∷ m) ((j, w) ∷ insert k n m)
      (λ b. (e ∙ sym ((bytes_eq_iff j k).0 b), h.1, h.2))
      (λ b. (
        h.0,
        ground (arith, lookup-insert k j n m, h.1, bytes_eq_iff j k, bytes_eq_iff k j),
        IsKeyed-insert k n m e h.2,
      ))

pub IsKeyed-remove : (k : Bytes) (m : Table Node) → IsKeyed m → IsKeyed (remove k m)
unfolding remove
IsKeyed-remove k [] h = h
IsKeyed-remove k ((j, w) ∷ m) h =
    IsKeyed-if (bytes_eq j k) (remove k m) ((j, w) ∷ remove k m) (λ b. IsKeyed-remove k m h.2)
      (λ b. (h.0, ground (arith, lookup-remove k j m, h.1), IsKeyed-remove k m h.2))

IsKeyed-clear_leaders : (m : Table Node) → IsKeyed m → IsKeyed (clear_leaders m)
unfolding clear_leaders
IsKeyed-clear_leaders [] h = h
IsKeyed-clear_leaders ((j, w) ∷ m) h =
    (h.0, rw (lookup-clear_leaders j m, h.1) refl, IsKeyed-clear_leaders m h.2)

pub IsKeyed-elect_leader : (m : Membership) → IsKeyed m.nodes → IsKeyed (elect_leader m).1.nodes
IsKeyed-elect_leader m h = elim (Option-cases (best_from m.local_node_id m.nodes none)) [
  | inl e ↦ rw (elect_none m e) (IsKeyed-clear_leaders m.nodes h)
  | inr (b, e) ↦ rw (elect_some m b e) (
      IsKeyed-insert b.id (record b { is_leader = true }) (clear_leaders m.nodes) refl
        (IsKeyed-clear_leaders m.nodes h))
]

notify_change-nodes : (m : Membership) → (notify_change m).nodes ≡ m.nodes
unfolding notify_change
notify_change-nodes m = ground arith

IsKeyed-settle : (m : Membership) → IsKeyed m.nodes → IsKeyed (settle m).nodes
unfolding settle
IsKeyed-settle m h = rw (notify_change-nodes (elect_leader m).1) (IsKeyed-elect_leader m h)

pub IsKeyed-add_node : (n : Node) (m : Membership) → IsKeyed m.nodes → IsKeyed (add_node n m).nodes
unfolding add_node
IsKeyed-add_node n m h = IsKeyed-settle _ (IsKeyed-insert n.id n m.nodes refl h)

pub IsKeyed-remove_node :
    (id : Bytes) (m : Membership) → IsKeyed m.nodes → IsKeyed (remove_node id m).nodes
unfolding remove_node
IsKeyed-remove_node id m h = IsKeyed-settle _ (IsKeyed-remove id m.nodes h)

module _ (id : Bytes) (f : Node → Node) (m : Membership) where
  pub update_missing : lookup id m.nodes ≡ none → (update_node id f m).1 ≡ m
  unfolding update_node
  update_missing e = ground arith

  pub update_found :
      (n : Node)
      → lookup id m.nodes ≡ some n
      → (update_node id f m).1 ≡ settle (record m { nodes = insert id (f n) m.nodes })
  unfolding update_node
  update_found n e = ground arith

  pub IsKeyed-update_node :
      ((n : Node) → (f n).id ≡ n.id) → IsKeyed m.nodes → IsKeyed (update_node id f m).1.nodes
  IsKeyed-update_node same h = elim (Option-cases (lookup id m.nodes)) [
    | inl e ↦ rw (update_missing e) h
    | inr (n, e) ↦ rw (update_found n e) (
        IsKeyed-settle _
          (IsKeyed-insert id (f n) m.nodes (same n ∙ lookup-IsKeyed id n m.nodes h e) h))
  ]

pub IsKeyed-update_heartbeat :
    (id : Bytes) (ts : Time) (m : Membership)
    → IsKeyed m.nodes
    → IsKeyed (update_heartbeat id ts m).1.nodes
unfolding update_heartbeat
IsKeyed-update_heartbeat id ts m = IsKeyed-update_node id _ m (λ n. refl)
