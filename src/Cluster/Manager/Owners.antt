-- ===== src/Cluster/Manager/Owners.antt =====
-- Whom the manager names as the owners of a key.
use cluster_db.Prelude.{ℕ, zero, suc, ◌+◌, ◌-◌, ◌%◌, ◌≤◌, ◌<◌, ◌≡◌, refl, sym, ap, ◌∙◌, arith}
use cluster_db.Prelude.{true, ◌&&◌, Option, none, some}
use cluster_db.Prelude.{List, [], ◌∷◌, length, leb, All, get_elem?, ◌==◌}
use native.Mathlib.Decide.{dec_lt}
use native.Mathlib.Nat.{mod-lt, mod-eq_of_lt, add-mod_right}
use mathlib.Core.Path.{subst}
use cluster_db.Prelude.{Bool-cases, inl, inr}
use cluster_db.Prelude.Bytes.{Bytes, bytes_eq, bytes_eq_iff, bytes_eq_refl}
use cluster_db.Prelude.Table.{Table, lookup}
use cluster_db.Wal.Crc.{crc32}
use cluster_db.HashRing.Ring.{
  Entry, HashRing, Sorter, contains, count, start_index, key_or_zero, node_or_empty, replica_owners,
}
use cluster_db.HashRing.Invariant.{IsValid, is_of}
use cluster_db.HashRing.Search.{search-le}
use cluster_db.HashRing.Lookup.{get_elem?-lt}
use cluster_db.HashRing.Owners.{IsDistinct, IsChoice, walk, replica_owners-IsChoice}
use cluster_db.Cluster.Membership.{Node}
use cluster_db.Cluster.Membership.Election.{IsKeyed}
use cluster_db.Cluster.Manager.{
  Manager, list_nodes, ring_of, sync_hash_ring, nodes_at, owners_at, owners,
}
use cluster_db.Cluster.Manager.Sync.{
  is_serving, serves, ring_of-IsValid, contains-ring_of, ring_of-replicas,
}

abbrev pub ids_of : List Node → List Bytes
ids_of [] = []
ids_of (n ∷ ns) = n.id ∷ ids_of ns

-- An entry of the ring counts for its node.
count-get_elem? :
    (ring : List Entry) (i : ℕ) (x : Entry)
    → get_elem? ring i ≡ some x
    → 1 ≤ count (is_of x.node) ring
unfolding count
count-get_elem? [] i x e = absurd (cc e)
count-get_elem? (y ∷ ring) zero x e = ground (arith, e, bytes_eq_refl x.node)
count-get_elem? (y ∷ ring) (suc i) x e = omega (arith, count-get_elem? ring i x e)

count_witness :
    (ring : List Entry) (a : Bytes)
    → 1 ≤ count (is_of a) ring
    → (i : ℕ) × (i < length ring) × (node_or_empty (get_elem? ring i) ≡ a)
unfolding count
count_witness [] a h = absurd (omega arith)
count_witness (y ∷ ring) a h = elim (Bool-cases (bytes_eq y.node a)) [
  | inl e ↦ (0, omega arith, (bytes_eq_iff y.node a).0 e)
  | inr e ↦
      let rest : 1 ≤ count (is_of a) ring = ground (arith, e) in
      let (i, l, q) = count_witness ring a rest in (suc i, omega (arith, l), q)
]

-- A walk of `n` steps meets what stands at each of its steps.
contains-walk :
    (ring : List Entry) (start i n t : ℕ)
    → i ≤ t
    → t < i + n
    → contains (node_or_empty (get_elem? ring ((start + t) % length ring))) (walk ring start i n)
      ≡ true
unfolding contains
contains-walk ring start i zero t h l = absurd (omega arith)
contains-walk ring start i (suc n) t h l = elim (Bool-cases (i == t)) [
  | inl e ↦
      ground (arith, bytes_eq_refl (node_or_empty (get_elem? ring ((start + t) % length ring))))
  | inr e ↦ ground (arith, contains-walk ring start (i + 1) n t)
]

-- Every index is met within one round.
offset : (start i len : ℕ) → start < len → i < len → (t : ℕ) × (t < len) × ((start + t) % len ≡ i)
offset start i len s l = elim (dec_lt i start) [
  | no ahead ↦ (
    i - start,
    omega (arith, ahead),
    let e : start + (i - start) ≡ i = omega (arith, ahead) in rw e (mod-eq_of_lt l),
  )
  | yes behind ↦ (
    i + len - start,
    omega (arith, behind),
    let e : start + (i + len - start) ≡ i + len = omega (arith, behind) in
        rw e (add-mod_right i len ∙ mod-eq_of_lt l),
  )
]

module _ (r : HashRing) (v : IsValid r) where
  contains_entry :
      (i : ℕ) → i < length r.ring → contains (node_or_empty (get_elem? r.ring i)) r.nodes ≡ true
  contains_entry i l =
      let (x, e) = get_elem?-lt r.ring i l in
      rw e (ground (arith, v.shares x.node, count-get_elem? r.ring i x e))

  walk_sound :
      (start i n : ℕ) (a : Bytes)
      → 0 < length r.ring
      → contains a (walk r.ring start i n) ≡ true
      → contains a r.nodes ≡ true
  unfolding contains
  walk_sound start i zero a l h = absurd (cc h)
  walk_sound start i (suc n) a l h = ground (
    arith,
    walk_sound start (i + 1) n a l,
    contains_entry ((start + i) % length r.ring) (mod-lt (start + i) l),
    bytes_eq_iff (node_or_empty (get_elem? r.ring ((start + i) % length r.ring))) a,
  )

  walk_complete :
      (start : ℕ) (a : Bytes)
      → start < length r.ring
      → 0 < r.replicas
      → contains a r.nodes ≡ true
      → contains a (walk r.ring start 0 (length r.ring)) ≡ true
  walk_complete start a s l h =
      let (i, li, q) = count_witness r.ring a (ground (arith, v.shares a)) in
      let (t, lt, e) = offset start i (length r.ring) s li in
      subst (λ b. contains b (walk r.ring start 0 (length r.ring)) ≡ true)
        (ap (λ (k : ℕ). node_or_empty (get_elem? r.ring k)) e ∙ q)
        (contains-walk r.ring start 0 (length r.ring) t (omega arith) (omega (arith, lt)))

start_index-lt : (ring : List Entry) (h : ℕ) → 0 < length ring → start_index ring h < length ring
unfolding start_index
start_index-lt ring h l =
    ground (arith, search-le (length ring) (λ i. leb h (key_or_zero (get_elem? ring i))))

-- What the members say of an id that serves.
served :
    (k : Bytes) (t : Table Node)
    → IsKeyed t
    → serves k (list_nodes t) ≡ true
    → (n : Node) × (lookup k t ≡ some n) × (n.id ≡ k) × (is_serving n ≡ true)
unfolding serves list_nodes lookup
served k [] h e = absurd (cc e)
served k ((j, n) ∷ t) h e = elim (Bool-cases (is_serving n && bytes_eq n.id k)) [
  | inl here ↦ (
    n,
    ground (arith, h.0, bytes_eq_iff j k, bytes_eq_iff n.id k),
    ground (arith, bytes_eq_iff n.id k),
    ground arith,
  )
  | inr later ↦
      let (x, q, i, v) = served k t h.2 (ground arith) in
      (x, ground (arith, h.1, bytes_eq_iff j k), i, v)
]

serving :
    (k : Bytes) (n : Node) (t : Table Node)
    → lookup k t ≡ some n
    → n.id ≡ k
    → is_serving n ≡ true
    → serves k (list_nodes t) ≡ true
unfolding serves list_nodes lookup
serving k n [] e q s = absurd (cc e)
serving k n ((j, x) ∷ t) e q s =
    ground (arith, serving k n t, bytes_eq_iff n.id k, bytes_eq_iff j k)

-- A member that the ring may name.
abbrev Found : Table Node → Bytes → Type 0
Found t k = (n : Node) × (lookup k t ≡ some n) × (n.id ≡ k) × (is_serving n ≡ true)

-- What stands under its own id and serves.
abbrev pub IsMember : Table Node → Node → Type 0
IsMember t n = (lookup n.id t ≡ some n) × (is_serving n ≡ true)

nodes_at-cons :
    (t : Table Node) (k : Bytes) (ids : List Bytes) (n : Node)
    → lookup k t ≡ some n
    → nodes_at t (k ∷ ids) ≡ n ∷ nodes_at t ids
unfolding nodes_at
nodes_at-cons t k ids n e = ground (arith, e)

ids_of-nodes_at :
    (t : Table Node) (ids : List Bytes) → All (Found t) ids → ids_of (nodes_at t ids) ≡ ids
unfolding nodes_at
ids_of-nodes_at t [] h = refl
ids_of-nodes_at t (k ∷ ids) h =
    let (n, e, q, s) = h.0 in
    ap ids_of (nodes_at-cons t k ids n e) ∙ rw (q, ids_of-nodes_at t ids h.1) refl

nodes_at-IsMember :
    (t : Table Node) (ids : List Bytes) → All (Found t) ids → All (IsMember t) (nodes_at t ids)
unfolding nodes_at
nodes_at-IsMember t [] h = tt
nodes_at-IsMember t (k ∷ ids) h =
    let (n, e, q, s) = h.0 in
    rw (nodes_at-cons t k ids n e)
      ((ap (λ (i : Bytes). lookup i t) q ∙ e, s), nodes_at-IsMember t ids h.1)

All-contains :
    {P : Bytes → Type 0} (ids : List Bytes)
    → ((k : Bytes) → contains k ids ≡ true → P k)
    → All P ids
unfolding contains
All-contains [] f = tt
All-contains (k ∷ ids) f =
    (f k (ground (arith, bytes_eq_refl k)), All-contains ids (λ j c. f j (ground (arith, c))))

owners_at_found :
    (t : Table Node) (o : Option (List Bytes)) (ns : List Node)
    → owners_at t o ≡ some ns
    → (ids : List Bytes) × (o ≡ some ids) × (nodes_at t ids ≡ ns)
unfolding owners_at
owners_at_found t none ns e = absurd (cc e)
owners_at_found t (some ids) ns e = (ids, refl, ground arith)

-- What Owners promises, over the members and the replication factor.
pub record IsOwners (t : Table Node) (factor : ℕ) (result : List Node) : Type 0 where
  pub members : All (IsMember t) result
  pub distinct : IsDistinct (ids_of result)
  pub bounded : length (ids_of result) ≤ factor
  pub complete :
      (n : Node)
      → length (ids_of result) < factor
      → IsMember t n
      → contains n.id (ids_of result) ≡ true

module _ (s : Sorter) (key : Bytes) (factor : ℕ) (m : Manager) where
  abbrev ring : HashRing
  ring = ring_of s m.membership

  owners_ids :
      (ns : List Node)
      → (owners s key factor m).0 ≡ some ns
      → (ids : List Bytes) × (replica_owners key factor ring ≡ some ids)
        × (nodes_at m.membership.nodes ids ≡ ns)
  unfolding owners sync_hash_ring
  owners_ids ns e = owners_at_found m.membership.nodes (replica_owners key factor ring) ns e

  ring_pos : (ids : List Bytes) → replica_owners key factor ring ≡ some ids → 0 < length ring.ring
  unfolding replica_owners
  ring_pos ids e = ground arith

  module _ (keyed : IsKeyed m.membership.nodes) (ids : List Bytes)
      (q : replica_owners key factor ring ≡ some ids) where
    abbrev start : ℕ
    start = start_index ring.ring (crc32 key)

    choice : IsChoice (walk ring.ring start 0 (length ring.ring)) [] ids factor
    choice = replica_owners-IsChoice key factor ring ids q

    found : (k : Bytes) → contains k ids ≡ true → Found m.membership.nodes k
    unfolding contains
    found k c = served k m.membership.nodes keyed (
        sym (contains-ring_of s k m.membership)
        ∙ walk_sound ring (ring_of-IsValid s m.membership) start 0 (length ring.ring) k
            (ring_pos ids q) (choice.sound k c))

    ids_members : All (Found m.membership.nodes) ids
    ids_members = All-contains ids found

    covers :
        (n : Node) → length ids < factor → IsMember m.membership.nodes n → contains n.id ids ≡ true
    unfolding contains
    covers n l i = choice.complete n.id l (
        walk_complete ring (ring_of-IsValid s m.membership) start n.id
          (start_index-lt ring.ring (crc32 key) (ring_pos ids q))
          (omega (arith, ring_of-replicas s m.membership))
          (contains-ring_of s n.id m.membership ∙ serving n.id n m.membership.nodes i.0 refl i.1))

    nodes_at-IsOwners : IsOwners m.membership.nodes factor (nodes_at m.membership.nodes ids)
    nodes_at-IsOwners =
        let same : ids_of (nodes_at m.membership.nodes ids) ≡ ids =
          ids_of-nodes_at m.membership.nodes ids ids_members in
        record {
          members = nodes_at-IsMember m.membership.nodes ids ids_members;
          distinct = rw same choice.distinct;
          bounded = rw same choice.bounded;
          complete = λ n l i. rw same (covers n (rw same at l) i);
        }

  -- Owners, on whichever ring the manager has and however stale: every node that it names is a live
  -- member, their ids differ, they are no more than the replication factor, and where they are
  -- fewer every live member is among them. The members are keyed by their ids.
  pub owners-IsOwners :
      (ns : List Node)
      → IsKeyed m.membership.nodes
      → (owners s key factor m).0 ≡ some ns
      → IsOwners m.membership.nodes factor ns
  owners-IsOwners ns keyed e =
      let (ids, q, r) = owners_ids ns e in rw r at (nodes_at-IsOwners keyed ids q)
