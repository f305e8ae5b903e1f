-- ===== src/Cluster/Manager/Announces.antt =====
-- Every change of the membership that makes a difference calls the hook.
use cluster_db.Prelude.{ℕ, ◌+◌, ◌<◌, ◌≡◌, ◌⊎◌, inl, inr, refl, sym, arith, Bool, true, false}
use cluster_db.Prelude.{
  List, [], ◌∷◌, length, not, ◌&&◌, ◌||◌, Option, ltb, ◌==◌, Option-cases, if◌then◌else◌, Result,
  Result-cases,
}
use cluster_db.Prelude.Bytes.{Bytes, bytes_eq}
use cluster_db.Prelude.Table.{Table, lookup}
use cluster_db.Storage.Time.{Time}
use cluster_db.Cluster.Membership.{
  Node, Membership, suspect, dead, elect_leader, settle, add_node, remove_node, update_node,
  update_heartbeat, mark_suspect, mark_dead, notify_change, is_alive, is_dead, is_suspect,
  twice_past,
}
use cluster_db.Cluster.Membership.Election.{IsKeyed}
use cluster_db.Cluster.Membership.Keyed.{
  IsKeyed-add_node, IsKeyed-remove_node, IsKeyed-update_heartbeat, IsKeyed-update_node,
  update_missing, update_found,
}
use cluster_db.Cluster.Manager.{list_nodes}
use cluster_db.Cluster.Gossip.{
  NodeState, merge_one, merge_membership, merge_node_states, to_node, evaluate_one, evaluate_from,
  evaluate_failure_detector,
}
use cluster_db.Cluster.Gossip.Rounds.{
  GossipEngine, Round, merge_infos, to_node_states, handle_inbound_gossip, exchange_one,
  exchange_all, gossip_cycle, select_random_peers, local_state_snapshot, tick,
}
use cluster_db.Server.Messages.{GossipNodeInfo, GossipRequest, GossipResponse}
use cluster_db.Server.Reply.{RpcError}

-- What the hook needs of a change: it is announced whenever something is different.
pub record Announces (a b : Membership) : Type 0 where
  pub hook : b.hook ≡ true
  pub keyed : IsKeyed b.nodes
  pub announced : (b ≡ a) ⊎ (a.notified < b.notified)

pub elect_leader-hook :
    (m : Membership)
    → ((elect_leader m).1.hook ≡ m.hook) × ((elect_leader m).1.notified ≡ m.notified)
unfolding elect_leader
elect_leader-hook m = (ground arith, ground arith)

settle_announces :
    (m : Membership) → m.hook ≡ true → ((settle m).hook ≡ true) × (m.notified < (settle m).notified)
unfolding settle notify_change
settle_announces m h = ground (arith, elect_leader-hook m)

pub add_node-Announces :
    (n : Node) (m : Membership) → m.hook ≡ true → IsKeyed m.nodes → Announces m (add_node n m)
unfolding add_node
add_node-Announces n m h k =
    let s = settle_announces _ h in
    record { hook = s.0; keyed = IsKeyed-add_node n m k; announced = inr s.1 }

pub remove_node-Announces :
    (id : Bytes) (m : Membership) → m.hook ≡ true → IsKeyed m.nodes → Announces m (remove_node id m)
unfolding remove_node
remove_node-Announces id m h k =
    let s = settle_announces _ h in
    record { hook = s.0; keyed = IsKeyed-remove_node id m k; announced = inr s.1 }

update_announces :
    (id : Bytes) (f : Node → Node) (m : Membership)
    → m.hook ≡ true
    → ((update_node id f m).1.hook ≡ true)
      × (((update_node id f m).1 ≡ m) ⊎ (m.notified < (update_node id f m).1.notified))
update_announces id f m h = elim (Option-cases (lookup id m.nodes)) [
  | inl e ↦ (rw (update_missing id f m e) h, inl (update_missing id f m e))
  | inr (n, e) ↦
      let s = settle_announces _ h in
      (rw (update_found id f m n e) s.0, inr (rw (update_found id f m n e) s.1))
]

pub update_heartbeat-Announces :
    (id : Bytes) (ts : Time) (m : Membership)
    → m.hook ≡ true
    → IsKeyed m.nodes
    → Announces m (update_heartbeat id ts m).1
unfolding update_heartbeat
update_heartbeat-Announces id ts m h k =
    let a = update_announces id _ m h in
    record { hook = a.0; keyed = IsKeyed-update_heartbeat id ts m k; announced = a.1 }

-- A membership that the hook may be told of: the manager's.
abbrev pub IsHooked : Membership → Type 0
IsHooked m = (m.hook ≡ true) × IsKeyed m.nodes

Announces-refl : (m : Membership) → IsHooked m → Announces m m
Announces-refl m (h, k) = record { hook = h; keyed = k; announced = inl refl }

Announces-trans : (a b c : Membership) → Announces a b → Announces b c → Announces a c
Announces-trans a b c p q = record {
  hook = q.hook;
  keyed = q.keyed;
  announced = elim p.announced [
    | inl e ↦ rw (sym e) q.announced
    | inr l ↦ elim q.announced [ inl e ↦ inr (rw e l) | inr l2 ↦ inr (omega (arith, l, l2)) ]
  ];
}

Announces-if :
    (c : Bool) (a x y : Membership)
    → Announces a x
    → Announces a y
    → Announces a (if c then x else y)
Announces-if true a x y p q = p
Announces-if false a x y p q = q

Announces-then :
    {A : Type 0} (c : Bool) (m : Membership) (of : A → Membership) (x y : A)
    → Announces m (of x)
    → Announces m (of y)
    → Announces m (of (if c then x else y))
Announces-then true m of x y p q = p
Announces-then false m of x y p q = q

mark-Announces :
    (id : Bytes) (m : Membership)
    → IsHooked m
    → Announces m (mark_suspect id m).1 × Announces m (mark_dead id m).1
unfolding mark_suspect mark_dead
mark-Announces id m (h, k) =
    let a = update_announces id (λ n. record n { status = suspect }) m h in
    let b = update_announces id (λ n. record n { status = dead }) m h in
    (
      record { hook = a.0; keyed = IsKeyed-update_node id _ m (λ n. refl) k; announced = a.1 },
      record { hook = b.0; keyed = IsKeyed-update_node id _ m (λ n. refl) k; announced = b.1 },
    )

merge_one-Announces : (r : NodeState) (m : Membership) → IsHooked m → Announces m (merge_one r m).1
unfolding merge_one
merge_one-Announces r m h =
    let after : Option (Bytes × Bytes) × Membership → Membership = λ x. x.1 in
    let same = Announces-refl m h in
    Announces-then (length r.node_id == 0) m after _ _ same
      (elim (Option-cases (lookup r.node_id m.nodes)) [
        | inl e ↦ rw e (add_node-Announces (to_node r) m h.0 h.1)
        | inr (x, e) ↦
            let merged = merge_node_states x (to_node r) in
            rw e (
              Announces-then (not merged.0) m after _ _ same
                (add_node-Announces merged.1 m h.0 h.1))
      ])

merge_membership-Announces :
    (rs : List NodeState) (m : Membership) → IsHooked m → Announces m (merge_membership rs m).1
unfolding merge_membership
merge_membership-Announces [] m h = Announces-refl m h
merge_membership-Announces (r ∷ rs) m h =
    let a = merge_one-Announces r m h in
    Announces-trans m _ _ a (merge_membership-Announces rs _ (a.hook, a.keyed))

merge_infos-Announces :
    (is : List GossipNodeInfo) (m : Membership) → IsHooked m → Announces m (merge_infos is m).1
unfolding merge_infos
merge_infos-Announces is m h =
    Announces-then (length is == 0) m (λ (x : List (Bytes × Bytes) × Membership). x.1) _ _
      (Announces-refl m h) (merge_membership-Announces (to_node_states is) m h)

pub handle_inbound_gossip-Announces :
    (req : GossipRequest) (m : Membership)
    → IsHooked m
    → Announces m (handle_inbound_gossip req m).1
unfolding handle_inbound_gossip
handle_inbound_gossip-Announces req m h = merge_infos-Announces req.nodes m h

module _ (ts : Time) (timeout : ℕ) (local : Bytes) where
  evaluate_one-Announces :
      (n : Node) (m : Membership) → IsHooked m → Announces m (evaluate_one ts timeout local n m)
  unfolding evaluate_one
  evaluate_one-Announces n m h =
      let same = Announces-refl m h in
      let marks = mark-Announces n.id m h in
      Announces-if (bytes_eq n.id local || is_dead n.status) m _ _ same (
        Announces-if (is_alive n.status && ltb (n.last_heartbeat + timeout) ts) m _ _ marks.0 (
          Announces-if (is_suspect n.status && twice_past n.last_heartbeat timeout ts) m _ _ marks.1
            same))

  evaluate_from-Announces :
      (ns : Table Node) (m : Membership)
      → IsHooked m
      → Announces m (evaluate_from ts timeout local ns m)
  unfolding evaluate_from
  evaluate_from-Announces [] m h = Announces-refl m h
  evaluate_from-Announces ((k, n) ∷ ns) m h =
      let a = evaluate_one-Announces n m h in
      Announces-trans m _ _ a (evaluate_from-Announces ns _ (a.hook, a.keyed))

module _ {W : Type 0} (send : Bytes → GossipRequest → W → Result RpcError GossipResponse × W)
    (e : GossipEngine) where
  exchange_one-Announces :
      (snapshot : List GossipNodeInfo) (n : Node) (r : Round W)
      → IsHooked r.members
      → Announces r.members (exchange_one send e snapshot n r).members
  unfolding exchange_one
  exchange_one-Announces snapshot n r h =
      let same = Announces-refl r.members h in
      let members : Round W → Membership = λ x. x.members in
      let req : GossipRequest = record {
        sender_id = e.local_node_id;
        sender_addr = e.local_address;
        nodes = snapshot;
      } in
      Announces-then (length n.address == 0) r.members members _ _ same
        (elim (Result-cases (send n.address req r.peers).0) [
          | inl (resp, q) ↦ rw q (
              Announces-then resp.accepted r.members members _ _
                (merge_infos-Announces resp.nodes r.members h) same)
          | inr (x, q) ↦ rw q same
        ])

  exchange_all-Announces :
      (snapshot : List GossipNodeInfo) (ns : List Node) (r : Round W)
      → IsHooked r.members
      → Announces r.members (exchange_all send e snapshot ns r).members
  unfolding exchange_all
  exchange_all-Announces snapshot [] r h = Announces-refl r.members h
  exchange_all-Announces snapshot (n ∷ ns) r h =
      let a = exchange_one-Announces snapshot n r h in
      Announces-trans r.members _ _ a (exchange_all-Announces snapshot ns _ (a.hook, a.keyed))

  pub tick-Announces :
      (perm : ℕ → List ℕ) (ts : Time) (r : Round W)
      → IsHooked r.members
      → Announces r.members (tick send e perm ts r).members
  unfolding tick gossip_cycle evaluate_failure_detector
  tick-Announces perm ts r h =
      let a =
        exchange_all-Announces (local_state_snapshot r.members)
          (select_random_peers perm (list_nodes r.members.nodes) e.fanout e.local_node_id) r h in
      Announces-trans r.members _ _ a (
        evaluate_from-Announces ts e.failure_timeout e.local_node_id
          (gossip_cycle send e perm r).members.nodes _ (a.hook, a.keyed))
