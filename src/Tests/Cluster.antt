-- ===== src/Tests/Cluster.antt =====
-- Consistency levels and elections at concrete inputs.
use cluster_db.Prelude.{
  ℕ, ◌+◌, ◌≤◌, ◌<◌, ◌≡◌, refl, true, false, some, none, List, [], ◌∷◌, length, ◌==◌, ◌||◌, arith,
}
use cluster_db.Prelude.Bytes.{Bytes, text, bytes_eq, bytes_lt, has_prefix}
use cluster_db.Prelude.Table.{lookup, insert}
use cluster_db.Cluster.Gossip.{
  less, compare_versions, parse_version_num, compare_parsed, compare_numbers, compare_strings,
  merge_node_states,
}
use cluster_db.Cluster.Gossip.Merge.{
  opposite, IsMerged, merge_node_states-twice, merge_node_states-IsMerged,
  compare_versions-opposite,
}
use cluster_db.Cluster.Handoff.{
  Hint, Hints, Transport, hints_of, store_hint, remove_at, remove_hint, deliver, store_all,
  replay_from, replay_hints, pending_hints,
}
use cluster_db.Cluster.Handoff.Replay.{Leaves, replay_hints-Leaves}
use cluster_db.Cluster.Consistency.{
  one, quorum, all, required_acks, replicas, required_acks_bounds, required_acks_overlap,
}
use cluster_db.Cluster.Membership.{
  Node, Membership, Status, alive, suspect, dead, is_alive, detect_failures, best_from,
  elect_leader,
}
use cluster_db.Cluster.Membership.Detector.{unflagged, judged}
use cluster_db.Cluster.Membership.Silence.{status_at, detect_failures-judged, detect_failures_dead}
use cluster_db.Cluster.Membership.Election.{
  IsKeyed, flagged, elect_leader-flagged, best_from-IsLeast,
}

three_bounds :
    (1 ≤ required_acks quorum 3)
    × (required_acks quorum 3 ≤ replicas 3)
    × (required_acks one 3 ≤ required_acks quorum 3)
    × (required_acks quorum 3 ≤ required_acks all 3)
three_bounds = required_acks_bounds quorum 3

required_acks_overlap_example :
    (replicas 3 < required_acks quorum 3 + required_acks quorum 3)
    × (replicas 3 < required_acks all 3 + required_acks one 3)
    × (replicas 3 < required_acks one 3 + required_acks quorum 3 → 3 ≤ 2)
    × (3 ≤ 2 → replicas 3 < required_acks one 3 + required_acks quorum 3)
required_acks_overlap_example = required_acks_overlap one 3

abbrev node : Bytes → Status → Node
node id s = record {
  id = id;
  address = text "h";
  status = s;
  last_heartbeat = 10;
  is_leader = false;
  version = [];
}

abbrev members : Membership
members = record {
  nodes =
      (text "c", node (text "c") alive)
      ∷ (text "a", node (text "a") suspect)
      ∷ (text "b", node (text "b") alive)
      ∷ [];
  local_node_id = text "c";
  heartbeat_interval = 1;
  failure_timeout = 3;
  detector = false;
  hook = false;
  notified = 0;
}

members-IsKeyed : IsKeyed members.nodes
unfolding lookup bytes_eq
members-IsKeyed = (refl, refl, (refl, refl, (refl, refl, tt)))

elect_leader-flagged_example :
    lookup (text "b") (elect_leader members).1.nodes
    ≡ flagged (best_from (text "c") members.nodes none) (lookup (text "b") members.nodes)
elect_leader-flagged_example = elect_leader-flagged members (text "b") members-IsKeyed

-- No node is the local one.
abbrev unnamed : Membership
unnamed = record members { local_node_id = [] }

unnamed_free : lookup [] unnamed.nodes ≡ none
unfolding lookup bytes_eq
unnamed_free = refl

best_from-IsLeast_example :
    ((b : Node)
      → best_from [] unnamed.nodes none ≡ some b
      → (lookup b.id unnamed.nodes ≡ some b)
        × (is_alive b.status ≡ true)
        × ((k : Bytes) (n : Node)
            → lookup k unnamed.nodes ≡ some n
            → is_alive n.status ≡ true
            → bytes_lt n.id b.id ≡ false))
    × (best_from [] unnamed.nodes none ≡ none
        → (k : Bytes) (n : Node) → lookup k unnamed.nodes ≡ some n
        → is_alive n.status ≡ false)
best_from-IsLeast_example = best_from-IsLeast unnamed members-IsKeyed unnamed_free

detect_failures-judged_example :
    unflagged (lookup (text "b") (detect_failures 14 3 members).nodes)
    ≡ judged (text "c") 14 3 (text "b") (unflagged (lookup (text "b") members.nodes))
detect_failures-judged_example = detect_failures-judged 14 3 members members-IsKeyed (text "b")

b_here : lookup (text "b") members.nodes ≡ some (node (text "b") alive)
unfolding lookup bytes_eq
b_here = refl

b_away :
    (bytes_eq (text "b") members.local_node_id || bytes_eq (text "b") members.local_node_id) ≡ false
unfolding bytes_eq
b_away = refl

detect_failures_dead_example :
    status_at (text "b") (detect_failures 17 3 (detect_failures 14 3 members)) ≡ some dead
detect_failures_dead_example =
    detect_failures_dead members members-IsKeyed (text "b") (node (text "b") alive) 3 14 17 b_here
      b_away (λ e. cc e) (omega arith) (omega arith)

-- Only the first call of the other side has no error.
abbrev once : Transport ℕ
once = record { put = λ a k v w. (w == 0, w + 1); del = λ a k w. (w == 0, w + 1) }

abbrev hint : Bytes → Hint
hint key = record {
  target_node = text "n";
  operation = text "put";
  key = key;
  value = [];
  timestamp = 0;
}

abbrev two_hints : Hints
two_hints = (text "n", hint (text "a") ∷ hint (text "b") ∷ []) ∷ []

abbrev late_hints : ℕ → List Hint
late_hints n = hint (text "c") ∷ []

replay_hints-Leaves_example :
    Leaves once
      (text "n")
      (text "addr")
      (length (pending_hints (text "n") two_hints))
      (pending_hints (text "n") two_hints)
      []
      late_hints
      0
      two_hints
      (replay_hints once (text "n") (text "addr") late_hints 0 two_hints)
replay_hints-Leaves_example =
    replay_hints-Leaves once (text "n") (text "addr") late_hints 0 two_hints

replayed_keys :
    hints_of (text "n") (replay_hints once (text "n") (text "addr") late_hints 0 two_hints).1
    ≡ hint (text "a") ∷ hint (text "c") ∷ hint (text "c") ∷ []
unfolding replay_hints pending_hints replay_from deliver store_all store_hint remove_hint remove_at
    hints_of lookup insert bytes_eq
replayed_keys = refl

-- The order of versions is no order: 2 < 10 < 1a < 2, for a text is compared as a text.
versions_cycle :
    (compare_versions (text "2") (text "10") ≡ less)
    × (compare_versions (text "10") (text "1a") ≡ less)
    × (compare_versions (text "1a") (text "2") ≡ less)
unfolding compare_versions parse_version_num compare_parsed compare_numbers compare_strings bytes_eq
    bytes_lt has_prefix
versions_cycle = (refl, refl, refl)

abbrev seen : ℕ → Bytes → Status → Node
seen ts version s = record {
  id = text "n";
  address = [];
  status = s;
  last_heartbeat = ts;
  is_leader = false;
  version = version;
}

merge_node_states-twice_example :
    merge_node_states
      (merge_node_states (seen 3 (text "v1") suspect) (seen 5 (text "cluster/1") alive)).1
      (seen 5 (text "cluster/1") alive)
    ≡ (false, (merge_node_states (seen 3 (text "v1") suspect) (seen 5 (text "cluster/1") alive)).1)
merge_node_states-twice_example =
    merge_node_states-twice (seen 3 (text "v1") suspect) (seen 5 (text "cluster/1") alive)

merge_node_states-IsMerged_example :
    IsMerged
      (seen 3 (text "v1") suspect)
      (merge_node_states (seen 3 (text "v1") suspect) (seen 5 (text "cluster/1") alive))
merge_node_states-IsMerged_example =
    merge_node_states-IsMerged (seen 3 (text "v1") suspect) (seen 5 (text "cluster/1") alive)

compare_versions-opposite_example :
    compare_versions (text "v2") (text "cluster/v10")
    ≡ opposite (compare_versions (text "cluster/v10") (text "v2"))
compare_versions-opposite_example = compare_versions-opposite (text "v2") (text "cluster/v10")
