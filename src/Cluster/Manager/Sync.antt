-- ===== src/Cluster/Manager/Sync.antt =====
-- The ring that the manager builds is that of the live members.
use cluster_db.Prelude.{◌≡◌, refl, ◌∙◌, arith, Bool, false, not, ◌&&◌, ◌||◌}
use cluster_db.Prelude.{List, [], ◌∷◌, length, ◌==◌, Bool-cases, inl, inr}
use cluster_db.Prelude.Bytes.{Bytes, bytes_eq, bytes_eq_iff}
use cluster_db.HashRing.Ring.{HashRing, Sorter, contains, new_ring, add_node as ring_add}
use cluster_db.HashRing.Invariant.{IsValid, add_node-IsValid, history-IsValid}
use cluster_db.Cluster.Membership.{Node, Membership, is_alive}
use cluster_db.Cluster.Manager.{ring_step, ring_from, ring_of, list_nodes}

-- A node that can own keys.
abbrev pub is_serving : Node → Bool
is_serving n = not (length n.id == 0) && is_alive n.status

-- Whether a serving node of the list has the id.
unfoldable pub serves : Bytes → List Node → Bool
serves k [] = false
serves k (n ∷ ns) = is_serving n && bytes_eq n.id k || serves k ns

module _ (s : Sorter) where
  contains-add_node :
      (k id : Bytes) (r : HashRing)
      → contains k (ring_add s id r).nodes
        ≡ (not (length id == 0) && bytes_eq id k || contains k r.nodes)
  unfolding ring_add contains
  contains-add_node k id r = ground (arith, bytes_eq_iff id k)

  contains-ring_step :
      (k : Bytes) (n : Node) (r : HashRing)
      → contains k (ring_step s n r).nodes ≡ (is_serving n && bytes_eq n.id k || contains k r.nodes)
  unfolding ring_step
  contains-ring_step k n r = ground (arith, contains-add_node k n.id r)

  contains-ring_from :
      (k : Bytes) (ns : List Node) (r : HashRing)
      → contains k (ring_from s ns r).nodes ≡ (serves k ns || contains k r.nodes)
  unfolding ring_from serves
  contains-ring_from k [] r = refl
  contains-ring_from k (n ∷ ns) r =
      ground (arith, contains-ring_from k ns (ring_step s n r), contains-ring_step k n r)

  ring_step-IsValid : (n : Node) (r : HashRing) → IsValid r → IsValid (ring_step s n r)
  unfolding ring_step
  ring_step-IsValid n r v = elim (Bool-cases (length n.id == 0 || not (is_alive n.status))) [
    | inl skip ↦ rw skip v
    | inr take ↦ rw take (add_node-IsValid s n.id r v)
  ]

  ring_from-IsValid : (ns : List Node) (r : HashRing) → IsValid r → IsValid (ring_from s ns r)
  unfolding ring_from
  ring_from-IsValid [] r v = v
  ring_from-IsValid (n ∷ ns) r v = ring_from-IsValid ns (ring_step s n r) (ring_step-IsValid n r v)

  ring_step-replicas : (n : Node) (r : HashRing) → (ring_step s n r).replicas ≡ r.replicas
  unfolding ring_step ring_add
  ring_step-replicas n r = ground arith

  ring_from-replicas : (ns : List Node) (r : HashRing) → (ring_from s ns r).replicas ≡ r.replicas
  unfolding ring_from
  ring_from-replicas [] r = refl
  ring_from-replicas (n ∷ ns) r = ring_from-replicas ns (ring_step s n r) ∙ ring_step-replicas n r

  pub ring_of-IsValid : (m : Membership) → IsValid (ring_of s m)
  unfolding ring_of
  ring_of-IsValid m =
      ring_from-IsValid (list_nodes m.nodes) (new_ring 100) (history-IsValid s 100 [])

  pub contains-ring_of :
      (k : Bytes) (m : Membership) → contains k (ring_of s m).nodes ≡ serves k (list_nodes m.nodes)
  unfolding ring_of new_ring contains
  contains-ring_of k m = contains-ring_from k (list_nodes m.nodes) (new_ring 100) ∙ ground arith

  pub ring_of-replicas : (m : Membership) → (ring_of s m).replicas ≡ 100
  unfolding ring_of new_ring
  ring_of-replicas m = ring_from-replicas (list_nodes m.nodes) (new_ring 100)
