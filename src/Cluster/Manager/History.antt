-- ===== src/Cluster/Manager/History.antt =====
-- What every run of the manager's operations keeps.
use cluster_db.Prelude.{ℕ, ◌≡◌, inl, inr, refl, sym, ap, ◌∙◌, arith, Bool, true, false}
use cluster_db.Prelude.{List, [], ◌∷◌, length, Option, none, some, ◌==◌, not, if◌then◌else◌, Result}
use cluster_db.Prelude.Bytes.{Bytes}
use cluster_db.Storage.Time.{Time}
use cluster_db.HashRing.Ring.{Sorter, new_ring}
use cluster_db.Cluster.Membership.{Node, Membership, new_membership, add_node, remove_node}
use cluster_db.Cluster.Membership.Election.{IsKeyed}
use cluster_db.Cluster.Membership.Keyed.{IsKeyed-elect_leader}
use cluster_db.Cluster.Manager.Announces.{
  Announces, elect_leader-hook, add_node-Announces, remove_node-Announces,
  update_heartbeat-Announces, handle_inbound_gossip-Announces, tick-Announces,
}
use cluster_db.Cluster.Manager.Exchange.{set_gossip_engine, handle_gossip, gossip_tick}
use cluster_db.Cluster.Gossip.Rounds.{GossipEngine, tick}
use cluster_db.Server.Messages.{GossipRequest, GossipResponse}
use cluster_db.Server.Reply.{RpcError}
use cluster_db.Cluster.Manager.{
  Manager, MemberInfo, ring_of, ring_from, list_nodes, sync_hash_ring, on_membership, new_manager,
  elect, start_manager, stop_manager, handle_join, beat, handle_heartbeat, handle_leave,
  add_members, apply_snapshot, join_cluster, leave_cluster, beats_from, send_heartbeats,
  monitor_tick,
}

module _ (s : Sorter) where
  -- The hook is installed, members are keyed by their ids, and the ring is that of the live ones.
  pub record IsSynced (m : Manager) : Type 0 where
    pub hook : m.membership.hook ≡ true
    pub keyed : IsKeyed m.membership.nodes
    pub ring : m.hash_ring ≡ ring_of s m.membership

  IsSynced-sync :
      (m : Manager)
      → m.membership.hook ≡ true
      → IsKeyed m.membership.nodes
      → IsSynced (sync_hash_ring s m)
  unfolding sync_hash_ring
  IsSynced-sync m h k = record { hook = h; keyed = k; ring = refl }

  IsSynced-elect : (m : Manager) → IsSynced m → IsSynced (elect s m)
  unfolding elect
  IsSynced-elect m i =
      IsSynced-sync _ ((elect_leader-hook m.membership).0 ∙ i.hook)
        (IsKeyed-elect_leader m.membership i.keyed)

  IsSynced-resync : (m : Manager) → IsSynced m → IsSynced (sync_hash_ring s m)
  IsSynced-resync m i = IsSynced-sync m i.hook i.keyed

  IsSynced-if :
      (c : Bool) (x y : Manager)
      → (c ≡ true → IsSynced x)
      → IsSynced y
      → IsSynced (if c then x else y)
  IsSynced-if true x y p q = p refl
  IsSynced-if false x y p q = q

  IsSynced-on_membership :
      (f : Membership → Membership) (m : Manager)
      → IsSynced m
      → Announces m.membership (f m.membership)
      → IsSynced (on_membership s f m)
  unfolding on_membership
  IsSynced-on_membership f m i a =
      IsSynced-if ((f m.membership).notified == m.membership.notified) _ _
        (λ e. elim a.announced [
          | inl same ↦ record {
            hook = a.hook;
            keyed = a.keyed;
            ring = i.ring ∙ ap (ring_of s) (sym same);
          }
          | inr up ↦ absurd (ground (arith, e, up))
        ])
        (IsSynced-sync _ a.hook a.keyed)

  IsSynced-add : (n : Node) (m : Manager) → IsSynced m → IsSynced (on_membership s (add_node n) m)
  IsSynced-add n m i =
      IsSynced-on_membership _ m i (add_node-Announces n m.membership i.hook i.keyed)

  IsSynced-drop :
      (id : Bytes) (m : Manager) → IsSynced m → IsSynced (on_membership s (remove_node id) m)
  IsSynced-drop id m i =
      IsSynced-on_membership _ m i (remove_node-Announces id m.membership i.hook i.keyed)

  IsSynced-beat : (id : Bytes) (ts : Time) (m : Manager) → IsSynced m → IsSynced (beat s id ts m).1
  unfolding beat
  IsSynced-beat id ts m i =
      IsSynced-on_membership _ m i (update_heartbeat-Announces id ts m.membership i.hook i.keyed)

  IsSynced-start : (m : Manager) → IsSynced m → IsSynced (start_manager s m)
  unfolding start_manager
  IsSynced-start m i =
      IsSynced-if m.started m _ (λ e. i)
        (IsSynced-elect _ (
          IsSynced-resync _ (
            IsSynced-add _ (record m { started = true })
              (record { hook = i.hook; keyed = i.keyed; ring = i.ring }))))

  IsSynced-stop : (m : Manager) → IsSynced m → IsSynced (stop_manager s m)
  unfolding stop_manager
  IsSynced-stop m i = record { hook = i.hook; keyed = i.keyed; ring = i.ring }

  IsSynced-then :
      {A : Type 0} (c : Bool) (x y : A × Manager)
      → IsSynced x.1
      → IsSynced y.1
      → IsSynced (if c then x else y).1
  IsSynced-then true x y p q = p
  IsSynced-then false x y p q = q

  IsSynced-join :
      (id address : Bytes) (ts : Time) (m : Manager)
      → IsSynced m
      → IsSynced (handle_join s id address ts m).1
  unfolding handle_join
  IsSynced-join id address ts m i =
      IsSynced-then (length id == 0) _ _ i
        (IsSynced-elect _ (IsSynced-resync _ (IsSynced-add _ m i)))

  IsSynced-heartbeat :
      (id address : Bytes) (ts : Time) (m : Manager)
      → IsSynced m
      → IsSynced (handle_heartbeat s id address ts m).1
  unfolding handle_heartbeat
  IsSynced-heartbeat id address ts m i =
      let j = IsSynced-beat id ts m i in
      IsSynced-then (length id == 0) _ _ i
        (IsSynced-resync _ (IsSynced-if _ _ _ (λ e. IsSynced-resync _ j) (IsSynced-add _ _ j)))

  IsSynced-leave : (id : Bytes) (m : Manager) → IsSynced m → IsSynced (handle_leave s id m).1
  unfolding handle_leave
  IsSynced-leave id m i =
      IsSynced-then (length id == 0) _ _ i
        (IsSynced-elect _ (IsSynced-resync _ (IsSynced-drop id m i)))

  IsSynced-add_members :
      (ts : Time) (is : List MemberInfo) (m : Manager)
      → IsSynced m
      → IsSynced (add_members s ts is m)
  unfolding add_members
  IsSynced-add_members ts [] m i = i
  IsSynced-add_members ts (x ∷ xs) m i =
      IsSynced-add_members ts xs _
        (IsSynced-if (length x.id == 0) _ _ (λ e. i) (IsSynced-add _ m i))

  IsSynced-snapshot :
      (ts : Time) (is : List MemberInfo) (m : Manager)
      → IsSynced m
      → IsSynced (apply_snapshot s ts is m)
  unfolding apply_snapshot
  IsSynced-snapshot ts is m i = IsSynced-resync _ (IsSynced-add_members ts is m i)

  IsSynced-join_cluster :
      (address : Bytes) (answer : Option (Bool × List MemberInfo)) (ts : Time) (m : Manager)
      → IsSynced m
      → IsSynced (join_cluster s address answer ts m).1
  unfolding join_cluster
  IsSynced-join_cluster address none ts m i = i
  IsSynced-join_cluster address (some (accepted, members)) ts m i =
      IsSynced-then (length address == 0) _ _ i (
        IsSynced-then (not accepted) _ _ i (
          IsSynced-elect _
            (IsSynced-resync _ (IsSynced-snapshot ts members _ (IsSynced-add _ m i)))))

  IsSynced-leave_cluster : (m : Manager) → IsSynced m → IsSynced (leave_cluster s m)
  unfolding leave_cluster
  IsSynced-leave_cluster m i =
      IsSynced-stop _ (IsSynced-elect _ (IsSynced-resync _ (IsSynced-drop m.local_node_id m i)))

  IsSynced-beats :
      (reached : Bytes → Bool) (ts : Time) (ns : List Node) (m : Manager)
      → IsSynced m
      → IsSynced (beats_from s reached ts ns m)
  unfolding beats_from
  IsSynced-beats reached ts [] m i = i
  IsSynced-beats reached ts (n ∷ ns) m i = IsSynced-beats reached ts ns _ (
      IsSynced-if _ _ _ (λ e. i)
        (IsSynced-if (reached n.address) _ _ (λ e. IsSynced-beat n.id ts m i) i))

  IsSynced-tick :
      (reached : Bytes → Bool) (ts : Time) (m : Manager)
      → IsSynced m
      → IsSynced (monitor_tick s reached ts m)
  unfolding monitor_tick send_heartbeats
  IsSynced-tick reached ts m i =
      let m1 = (beat s m.local_node_id ts m).1 in
      let j : IsSynced m1 = IsSynced-beat m.local_node_id ts m i in
      IsSynced-elect _ (
        IsSynced-if (m1.heartbeat_tick == 0) m1 _ (λ e. j)
          (IsSynced-beats reached ts (list_nodes m1.membership.nodes) m1 j))

  IsSynced-gossip :
      (req : GossipRequest) (m : Manager) → IsSynced m → IsSynced (handle_gossip s req m).1
  unfolding handle_gossip
  IsSynced-gossip req m i =
      IsSynced-then m.gossip _ _
        (IsSynced-on_membership _ m i
          (handle_inbound_gossip-Announces req m.membership (i.hook, i.keyed)))
        i

  -- How an exchange of gossip with peers goes: any function of an address and a request.
  abbrev pub Answers : Type 0
  Answers = Bytes → GossipRequest → Result RpcError GossipResponse

  abbrev sends :
      Answers → Bytes → GossipRequest → Unit {0} → Result RpcError GossipResponse × Unit {0}
  sends answers address req u = (answers address req, u)

  IsSynced-gossip_tick :
      (answers : Answers) (e : GossipEngine) (perm : ℕ → List ℕ) (ts : Time) (m : Manager)
      → IsSynced m
      → IsSynced (gossip_tick s (sends answers) e perm ts tt m)
  unfolding gossip_tick
  IsSynced-gossip_tick answers e perm ts m i =
      IsSynced-on_membership _ m i (tick-Announces (sends answers) e perm ts _ (i.hook, i.keyed))

  IsSynced-set :
      (e : Option GossipEngine) (m : Manager) → IsSynced m → IsSynced (set_gossip_engine e m)
  unfolding set_gossip_engine
  IsSynced-set none m i = record { hook = i.hook; keyed = i.keyed; ring = i.ring }
  IsSynced-set (some e) m i = record { hook = i.hook; keyed = i.keyed; ring = i.ring }

  -- What can happen to a manager: its own calls, the handlers, and the ticks of its loop
  -- and of the gossip engine's.
  pub data Event : Type 0 where
    started stopped left : Event
    join_handled : Bytes → Bytes → Time → Event
    heartbeat_handled : Bytes → Bytes → Time → Event
    leave_handled : Bytes → Event
    cluster_joined : Bytes → Option (Bool × List MemberInfo) → Time → Event
    ticked : (Bytes → Bool) → Time → Event
    gossip_set : Option GossipEngine → Event
    gossip_handled : GossipRequest → Event
    gossip_ticked : Answers → GossipEngine → (ℕ → List ℕ) → Time → Event

  abbrev pub happen : Event → Manager → Manager
  happen started m = start_manager s m
  happen stopped m = stop_manager s m
  happen left m = leave_cluster s m
  happen (join_handled id address ts) m = (handle_join s id address ts m).1
  happen (heartbeat_handled id address ts) m = (handle_heartbeat s id address ts m).1
  happen (leave_handled id) m = (handle_leave s id m).1
  happen (cluster_joined address answer ts) m = (join_cluster s address answer ts m).1
  happen (ticked reached ts) m = monitor_tick s reached ts m
  happen (gossip_set e) m = set_gossip_engine e m
  happen (gossip_handled req) m = (handle_gossip s req m).1
  happen (gossip_ticked answers e perm ts) m = gossip_tick s (sends answers) e perm ts tt m

  abbrev pub run : List Event → Manager → Manager
  run [] m = m
  run (e ∷ es) m = run es (happen e m)

  IsSynced-happen : (e : Event) (m : Manager) → IsSynced m → IsSynced (happen e m)
  IsSynced-happen started m i = IsSynced-start m i
  IsSynced-happen stopped m i = IsSynced-stop m i
  IsSynced-happen left m i = IsSynced-leave_cluster m i
  IsSynced-happen (join_handled id address ts) m i = IsSynced-join id address ts m i
  IsSynced-happen (heartbeat_handled id address ts) m i = IsSynced-heartbeat id address ts m i
  IsSynced-happen (leave_handled id) m i = IsSynced-leave id m i
  IsSynced-happen (cluster_joined address answer ts) m i =
      IsSynced-join_cluster address answer ts m i
  IsSynced-happen (ticked reached ts) m i = IsSynced-tick reached ts m i
  IsSynced-happen (gossip_set e) m i = IsSynced-set e m i
  IsSynced-happen (gossip_handled req) m i = IsSynced-gossip req m i
  IsSynced-happen (gossip_ticked answers e perm ts) m i = IsSynced-gossip_tick answers e perm ts m i

  IsSynced-run : (es : List Event) (m : Manager) → IsSynced m → IsSynced (run es m)
  IsSynced-run [] m i = i
  IsSynced-run (e ∷ es) m i = IsSynced-run es (happen e m) (IsSynced-happen e m i)

  -- A manager made over a new membership has after any calls of Start, Stop, LeaveCluster,
  -- JoinCluster, SetGossipEngine and the handlers of joins, heartbeats, leaves and gossip, and any
  -- ticks of its loop and of a gossip engine over its membership, whatever the peers answer, its
  -- members keyed by their ids, its hook installed, and a ring that is the one built from the live
  -- members.
  pub history-IsSynced :
      (es : List Event) (tick timeout : ℕ) (id address : Bytes)
      → IsSynced (run es (new_manager s new_membership tick timeout id address))
  unfolding new_manager new_membership ring_of list_nodes ring_from new_ring
  history-IsSynced es tick timeout id address =
      IsSynced-run es _ (record { hook = refl; keyed = tt; ring = refl })
