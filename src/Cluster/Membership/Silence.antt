-- ===== src/Cluster/Membership/Silence.antt =====
-- What the failure detector makes of members that are silent, and of those that are not.
use cluster_db.Prelude.{ℕ, ◌+◌, ◌*◌, ◌<◌, ◌≡◌, ◌≢◌, inl, inr, refl, ap, ◌∙◌, arith, false, ◌||◌}
use cluster_db.Prelude.{Option, none, some, Bool-cases}
use cluster_db.Prelude.Bytes.{Bytes, bytes_eq}
use cluster_db.Prelude.Table.{lookup, keys}
use cluster_db.Storage.Time.{Time}
use cluster_db.HashRing.Ring.{contains}
use cluster_db.Cluster.Membership.{
  Status, alive, suspect, dead, unknown, Node, Membership, detect_failures,
}
use cluster_db.Cluster.Membership.Election.{IsKeyed}
use cluster_db.Cluster.Membership.Detector.{
  unflagged, verdict, judged, Looped, detect_from-Looped, contains-keys, keys-IsDistinct,
}

module _ (ts : Time) (timeout : ℕ) (m : Membership) (h : IsKeyed m.nodes) where
  looped : Looped ts timeout (keys m.nodes) m (detect_failures ts timeout m)
  unfolding detect_failures
  looped = detect_from-Looped ts timeout (keys m.nodes) m (keys-IsDistinct m.nodes h) h

  detect_failures-IsKeyed : IsKeyed (detect_failures ts timeout m).nodes
  detect_failures-IsKeyed = looped.keyed

  -- A pass of the failure detector, seen without the leaders' flags, makes of each member but the
  -- local node what the verdict on its status and its last heartbeat says, once: an alive one
  -- becomes suspect after the timeout, a suspect one dead after twice the timeout, and all else of
  -- every member stays. The members are keyed by their ids.
  pub detect_failures-judged :
      (k : Bytes)
      → unflagged (lookup k (detect_failures ts timeout m).nodes)
        ≡ judged m.local_node_id ts timeout k (unflagged (lookup k m.nodes))
  detect_failures-judged k = elim (Bool-cases (contains k (keys m.nodes))) [
    | inl e ↦ ground (arith, looped.members k, e)
    | inr e ↦ ground (arith, looped.members k, e, contains-keys k m.nodes e)
  ]

dead_in_two :
    (t1 t2 : Time) (timeout : ℕ) (last : Time) (st : Status)
    → last + timeout < t1
    → last + 2 * timeout < t2
    → st ≢ unknown
    → verdict t2 timeout last (verdict t1 timeout last st) ≡ dead
dead_in_two t1 t2 timeout last alive a b k = ground arith
dead_in_two t1 t2 timeout last suspect a b k = ground arith
dead_in_two t1 t2 timeout last dead a b k = refl
dead_in_two t1 t2 timeout last unknown a b k = absurd (k refl)

-- The status of a member, if there is one.
abbrev pub status_at : Bytes → Membership → Option Status
status_at k m = elim (lookup k m.nodes) [ none ↦ none | some n ↦ some n.status ]

status_of_view :
    (o : Option Node) (n : Node)
    → unflagged o ≡ some n
    → (elim o [ none ↦ none | some x ↦ some x.status ]) ≡ some n.status
status_of_view none n e = absurd (cc e)
status_of_view (some x) n e = ground arith

module _ (m : Membership) (h : IsKeyed m.nodes) (k : Bytes) (n : Node) (timeout : ℕ) where
  viewed :
      (ts : Time)
      → lookup k m.nodes ≡ some n
      → (bytes_eq k m.local_node_id || bytes_eq n.id m.local_node_id) ≡ false
      → unflagged (lookup k (detect_failures ts timeout m).nodes)
        ≡ some
            (record n { is_leader = false; status = verdict ts timeout n.last_heartbeat n.status })
  viewed ts e away = detect_failures-judged ts timeout m h k ∙ ground (arith, e, away)

  viewed_twice :
      (t1 t2 : Time)
      → lookup k m.nodes ≡ some n
      → (bytes_eq k m.local_node_id || bytes_eq n.id m.local_node_id) ≡ false
      → unflagged (lookup k (detect_failures t2 timeout (detect_failures t1 timeout m)).nodes)
        ≡ some (record n {
          is_leader = false;
          status =
              verdict t2 timeout n.last_heartbeat (verdict t1 timeout n.last_heartbeat n.status);
        })
  viewed_twice t1 t2 e away =
      let first = looped t1 timeout m h in
      detect_failures-judged t2 timeout (detect_failures t1 timeout m) first.keyed k
      ∙ ap (judged (detect_failures t1 timeout m).local_node_id t2 timeout k) (viewed t1 e away)
      ∙ ground (arith, first.local, away)

  -- A member that is not the local node and is not heard of any more is dead after two passes of
  -- the failure detector, the first later than the timeout after its last heartbeat and the second
  -- later than twice the timeout. Its status is one of the three that the source names, and the
  -- members are keyed by their ids.
  pub detect_failures_dead :
      (t1 t2 : Time)
      → lookup k m.nodes ≡ some n
      → (bytes_eq k m.local_node_id || bytes_eq n.id m.local_node_id) ≡ false
      → n.status ≢ unknown
      → n.last_heartbeat + timeout < t1
      → n.last_heartbeat + 2 * timeout < t2
      → status_at k (detect_failures t2 timeout (detect_failures t1 timeout m)) ≡ some dead
  detect_failures_dead t1 t2 e away known a b =
      status_of_view _ _ (viewed_twice t1 t2 e away)
      ∙ ap some (dead_in_two t1 t2 timeout n.last_heartbeat n.status a b known)
