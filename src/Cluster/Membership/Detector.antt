-- ===== src/Cluster/Membership/Detector.antt =====
-- One pass of the failure detector, and what becomes of a member that is not heard of.
use cluster_db.Prelude.{
  ℕ, ◌+◌, ◌*◌, ◌-◌, ◌^◌, ◌≡◌, ◌⊎◌, inl, inr, refl, sym, ap, ◌∙◌, arith, false, ◌||◌,
}
use cluster_db.Prelude.{
  List, [], ◌∷◌, Option, none, some, Bool-cases, Option-cases, ltb, if◌then◌else◌,
}
use mathlib.Core.Path.{subst}
use cluster_db.Prelude.Bytes.{Bytes, bytes_eq, bytes_eq_iff}
use cluster_db.Prelude.Table.{Table, lookup, insert, keys, lookup-insert}
use cluster_db.Storage.Time.{Time}
use cluster_db.HashRing.Ring.{contains}
use cluster_db.HashRing.Owners.{IsDistinct}
use cluster_db.Cluster.Membership.{
  Status, alive, suspect, dead, unknown, Node, Membership, best_from, elect_leader, detect_one,
  detect_from, twice_past,
}
use cluster_db.Cluster.Membership.Election.{IsKeyed, lookup-IsKeyed, flagged, elect_leader-flagged}
use cluster_db.Cluster.Membership.Keyed.{IsKeyed-insert, IsKeyed-elect_leader}

-- A member without the leader's flag, which elections change.
abbrev pub unflagged : Option Node → Option Node
unflagged none = none
unflagged (some n) = some (record n { is_leader = false })

-- What a pass at the instant `ts` makes of a status. Twice a timeout of 2 ^ 63 nanoseconds or more
-- wraps to the negative duration 2 * timeout - 2 ^ 64.
abbrev pub verdict : Time → ℕ → Time → Status → Status
verdict ts timeout last alive = if ltb (last + timeout) ts then suspect else alive
verdict ts timeout last suspect =
    if ltb (2 * timeout) (2 ^ 63)
    then if ltb (last + 2 * timeout) ts then dead else suspect
    else if ltb last (ts + (2 ^ 64 - 2 * timeout))
    then dead
    else suspect
verdict ts timeout last dead = dead
verdict ts timeout last unknown = unknown

-- What a pass makes of the member under the key `k`; the local node is left alone.
abbrev pub judged : Bytes → Time → ℕ → Bytes → Option Node → Option Node
judged local ts timeout k none = none
judged local ts timeout k (some n) =
    if bytes_eq k local || bytes_eq n.id local
    then some n
    else some (record n { status = verdict ts timeout n.last_heartbeat n.status })

flags_only : (best o : Option Node) → unflagged (flagged best o) ≡ unflagged o
flags_only best none = refl
flags_only none (some n) = refl
flags_only (some b) (some n) = refl

elect_unflagged :
    (m : Membership) (k : Bytes)
    → IsKeyed m.nodes
    → unflagged (lookup k (elect_leader m).1.nodes) ≡ unflagged (lookup k m.nodes)
elect_unflagged m k h =
    ap unflagged (elect_leader-flagged m k h)
    ∙ flags_only (best_from m.local_node_id m.nodes none) (lookup k m.nodes)

elect_local : (m : Membership) → (elect_leader m).1.local_node_id ≡ m.local_node_id
unfolding elect_leader
elect_local m = ground arith

module _ (ts : Time) (timeout : ℕ) where
  -- The member that a round of the loop puts in place of another, and whether it elects then.
  abbrev next_status : Node → Status
  next_status n = verdict ts timeout n.last_heartbeat n.status

  replaced : Bytes → Node → Membership → Membership
  replaced id n m = record m { nodes = insert id (record n { status = next_status n }) m.nodes }

  -- A round leaves the members alone, replaces one, or elects after that.
  abbrev Round : Bytes → Membership → Type 0
  Round id m =
      ((detect_one ts timeout id m ≡ m)
        × (judged m.local_node_id ts timeout id (lookup id m.nodes) ≡ lookup id m.nodes))
      ⊎ ((n : Node) × (lookup id m.nodes ≡ some n)
          × ((bytes_eq id m.local_node_id || bytes_eq n.id m.local_node_id) ≡ false)
          × ((detect_one ts timeout id m ≡ replaced id n m)
              ⊎ (detect_one ts timeout id m ≡ (elect_leader (replaced id n m)).1)))

  module _ (id : Bytes) (m : Membership) (n : Node) (e : lookup id m.nodes ≡ some n)
      (away : (bytes_eq id m.local_node_id || bytes_eq n.id m.local_node_id) ≡ false) where
    same_status :
        next_status n ≡ n.status
        → judged m.local_node_id ts timeout id (lookup id m.nodes) ≡ lookup id m.nodes
    same_status q = ground (arith, e, away, q)

    away-Round : (st : Status) → n.status ≡ st → Round id m
    unfolding detect_one replaced
    away-Round alive q = elim (Bool-cases (ltb (n.last_heartbeat + timeout) ts)) [
      | inl l ↦ inr (n, e, away, inl (ground (arith, e, away, q, l)))
      | inr l ↦ inl (ground (arith, e, away, q, l), same_status (ground (arith, q, l)))
    ]
    away-Round suspect q = elim (Bool-cases (twice_past n.last_heartbeat timeout ts)) [
      | inl l ↦ inr (n, e, away, inr (ground (arith, e, away, q, l)))
      | inr l ↦ inl (ground (arith, e, away, q, l), same_status (ground (arith, q, l)))
    ]
    away-Round dead q = inl (ground (arith, e, away, q), same_status (ground (arith, q)))
    away-Round unknown q = inl (ground (arith, e, away, q), same_status (ground (arith, q)))

  detect_one-Round : (id : Bytes) (m : Membership) → Round id m
  unfolding detect_one
  detect_one-Round id m = elim (Option-cases (lookup id m.nodes)) [
    | inl e ↦ inl (ground (arith, e), ground (arith, e))
    | inr (n, e) ↦
        elim (Bool-cases (bytes_eq id m.local_node_id || bytes_eq n.id m.local_node_id)) [
          | inl here ↦ inl (ground (arith, e, here), ground (arith, e, here))
          | inr away ↦ away-Round id m n e away n.status refl
        ]
  ]

  judged-unflagged :
      (local k : Bytes) (o : Option Node)
      → judged local ts timeout k (unflagged o) ≡ unflagged (judged local ts timeout k o)
  judged-unflagged local k none = refl
  judged-unflagged local k (some n) = ground arith

  -- What one round does, seen without the flags.
  record Did (id : Bytes) (m after : Membership) : Type 0 where
    keyed : IsKeyed after.nodes
    local : after.local_node_id ≡ m.local_node_id
    members :
        (k : Bytes)
        → unflagged (lookup k after.nodes) ≡ (
            if bytes_eq id k
            then judged m.local_node_id ts timeout k (unflagged (lookup k m.nodes))
            else unflagged (lookup k m.nodes))

  nothing-Did :
      (id : Bytes) (m : Membership)
      → IsKeyed m.nodes
      → judged m.local_node_id ts timeout id (lookup id m.nodes) ≡ lookup id m.nodes
      → Did id m m
  nothing-Did id m h q = record {
    keyed = h;
    local = refl;
    members = λ k. elim (Bool-cases (bytes_eq id k)) [
      | inl e ↦ rw e (
          sym (
            judged-unflagged m.local_node_id k (lookup k m.nodes)
            ∙ ap unflagged (
                subst
                  (λ j. judged m.local_node_id ts timeout j (lookup j m.nodes) ≡ lookup j m.nodes)
                  ((bytes_eq_iff id k).0 e) q)))
      | inr e ↦ rw e refl
    ];
  }

  replaced-Did :
      (id : Bytes) (m : Membership) (n : Node)
      → IsKeyed m.nodes
      → lookup id m.nodes ≡ some n
      → (bytes_eq id m.local_node_id || bytes_eq n.id m.local_node_id) ≡ false
      → Did id m (replaced id n m)
  unfolding replaced
  replaced-Did id m n h e away = record {
    keyed =
        IsKeyed-insert id (record n { status = next_status n }) m.nodes
          (lookup-IsKeyed id n m.nodes h e) h;
    local = refl;
    members = λ k. ground (
      arith,
      lookup-insert id k (record n { status = next_status n }) m.nodes,
      bytes_eq_iff id k,
      e,
      away,
    );
  }

  elected-Did :
      (id : Bytes) (m after : Membership) → Did id m after → Did id m (elect_leader after).1
  elected-Did id m after d = record {
    keyed = IsKeyed-elect_leader after d.keyed;
    local = elect_local after ∙ d.local;
    members = λ k. elect_unflagged after k d.keyed ∙ d.members k;
  }

  detect_one-Did :
      (id : Bytes) (m : Membership) → IsKeyed m.nodes → Did id m (detect_one ts timeout id m)
  detect_one-Did id m h = elim (detect_one-Round id m) [
    | inl (e, q) ↦ subst (Did id m) (sym e) (nothing-Did id m h q)
    | inr (n, e, away, r) ↦ elim r [
      | inl q ↦ subst (Did id m) (sym q) (replaced-Did id m n h e away)
      | inr q ↦ subst (Did id m) (sym q) (elected-Did id m _ (replaced-Did id m n h e away))
    ]
  ]

  -- What the loop does over different keys, seen without the flags.
  pub record Looped (ids : List Bytes) (m after : Membership) : Type 0 where
    pub keyed : IsKeyed after.nodes
    pub local : after.local_node_id ≡ m.local_node_id
    pub members :
        (k : Bytes)
        → unflagged (lookup k after.nodes) ≡ (
            if contains k ids
            then judged m.local_node_id ts timeout k (unflagged (lookup k m.nodes))
            else unflagged (lookup k m.nodes))

  one_then :
      (id : Bytes) (ids : List Bytes) (m m1 after : Membership)
      → contains id ids ≡ false
      → Did id m m1
      → Looped ids m1 after
      → Looped (id ∷ ids) m after
  unfolding contains
  one_then id ids m m1 after fresh d l = record {
    keyed = l.keyed;
    local = l.local ∙ d.local;
    members = λ k. ground (arith, l.members k, d.members k, d.local, fresh, bytes_eq_iff id k);
  }

  pub detect_from-Looped :
      (ids : List Bytes) (m : Membership)
      → IsDistinct ids
      → IsKeyed m.nodes
      → Looped ids m (detect_from ts timeout ids m)
  unfolding detect_from contains
  detect_from-Looped [] m i h = record { keyed = h; local = refl; members = λ k. refl }
  detect_from-Looped (id ∷ ids) m i h =
      let d = detect_one-Did id m h in
      one_then id ids m _ _ i.0 d (detect_from-Looped ids (detect_one ts timeout id m) i.1 d.keyed)

-- The keys of members are different.
pub contains-keys : (k : Bytes) (t : Table Node) → contains k (keys t) ≡ false → lookup k t ≡ none
unfolding contains keys lookup
contains-keys k [] h = refl
contains-keys k ((j, n) ∷ t) h = ground (arith, contains-keys k t)

missing-keys : (k : Bytes) (t : Table Node) → lookup k t ≡ none → contains k (keys t) ≡ false
unfolding contains keys lookup
missing-keys k [] h = refl
missing-keys k ((j, n) ∷ t) h = ground (arith, missing-keys k t)

pub keys-IsDistinct : (t : Table Node) → IsKeyed t → IsDistinct (keys t)
unfolding keys
keys-IsDistinct [] h = tt
keys-IsDistinct ((j, n) ∷ t) h = (missing-keys j t h.1, keys-IsDistinct t h.2)
