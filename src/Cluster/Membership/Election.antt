-- ===== src/Cluster/Membership/Election.antt =====
-- Whom an election elects, and what it leaves alone.
use cluster_db.Prelude.{◌≡◌, refl, sym, ap, ◌∙◌, arith, Bool, true, false, not, ◌&&◌, ◌⊎◌, inl, inr}
use cluster_db.Prelude.{[], ◌∷◌, Option, none, some, Option-cases, if◌then◌else◌}
use cluster_db.Prelude.Bytes.{
  Bytes, bytes_eq, bytes_lt, bytes_eq_iff, bytes_lt_trans, bytes_le_trans, bytes_lt_irrefl,
}
use cluster_db.Prelude.Table.{Table, lookup, insert, lookup-insert}
use cluster_db.Cluster.Membership.{
  Node, Membership, is_alive, better, best_from, clear_leaders, elect_leader,
}

-- Each node stands under its own id, and once: what a Go map keyed by id holds.
abbrev pub IsKeyed : Table Node → Type 0
IsKeyed [] = Unit
IsKeyed ((k, n) ∷ m) = (n.id ≡ k) × (lookup k m ≡ none) × IsKeyed m

-- Whom an election may choose.
abbrev pub is_candidate : Bytes → Node → Bool
is_candidate local n = is_alive n.status && not (bytes_eq n.id local)

-- What an election makes of a node, given whom it chose.
abbrev pub flagged : Option Node → Option Node → Option Node
flagged best none = none
flagged none (some n) = some (record n { is_leader = false })
flagged (some b) (some n) = some (record n { is_leader = bytes_eq b.id n.id })

better_cases :
    (local : Bytes) (n : Node) (best : Option Node) (b : Node)
    → better local n best ≡ some b
    → (best ≡ some b) ⊎ ((n ≡ b) × (is_candidate local n ≡ true))
unfolding better
better_cases local n best b e = ground arith

lookup_keyed :
    (k : Bytes) (n b : Node) (m : Table Node)
    → lookup k m ≡ none
    → lookup b.id m ≡ some b
    → lookup b.id ((k, n) ∷ m) ≡ some b
unfolding lookup
lookup_keyed k n b m p q = ground (arith, bytes_eq_iff k b.id)

lookup_head : (k j : Bytes) (n : Node) (m : Table Node) → j ≡ k → lookup j ((k, n) ∷ m) ≡ some n
unfolding lookup
lookup_head k j n m e = ground (arith, bytes_eq_iff k j)

best_from-found :
    (local : Bytes) (m : Table Node) (best : Option Node) (b : Node)
    → IsKeyed m
    → best_from local m best ≡ some b
    → (best ≡ some b) ⊎ ((lookup b.id m ≡ some b) × (is_candidate local b ≡ true))
unfolding best_from
best_from-found local [] best b h e = inl e
best_from-found local ((k, n) ∷ m) best b h e = elim (best_from-found local m _ b h.2 e) [
  | inr (q, c) ↦ inr (lookup_keyed k n b m h.1 q, c)
  | inl q ↦ elim (better_cases local n best b q) [
    | inl p ↦ inl p
    | inr (p, c) ↦ inr (
      lookup_head k b.id n m (ap (λ (x : Node). x.id) (sym p) ∙ h.0) ∙ ap some p,
      ap (λ (x : Node). is_candidate local x) (sym p) ∙ c,
    )
  ]
]

-- `b` is not above the node, or there was none.
abbrev NotAbove : Option Node → Node → Type 0
NotAbove none b = Unit
NotAbove (some c) b = bytes_lt c.id b.id ≡ false

better-NotAbove :
    (local : Bytes) (n b : Node) (best : Option Node)
    → NotAbove (better local n best) b
    → NotAbove best b × (is_candidate local n ≡ true → bytes_lt n.id b.id ≡ false)
unfolding better
better-NotAbove local n b none h = ground arith
better-NotAbove local n b (some c) h = ground (
  arith,
  bytes_lt_trans n.id c.id b.id,
  bytes_le_trans b.id n.id c.id,
  bytes_le_trans b.id c.id n.id,
  bytes_lt_trans c.id n.id b.id,
)

best_from-NotAbove :
    (local : Bytes) (m : Table Node) (best : Option Node) (b : Node)
    → best_from local m best ≡ some b
    → NotAbove best b
      × ((k : Bytes) (n : Node)
          → lookup k m ≡ some n
          → is_candidate local n ≡ true
          → bytes_lt n.id b.id ≡ false)
unfolding best_from lookup
best_from-NotAbove local [] none b e = (tt, λ k n p c. cc)
best_from-NotAbove local [] (some c) b e = (ground (arith, bytes_lt_irrefl c.id), λ k n p c. cc)
best_from-NotAbove local ((j, x) ∷ m) best b e =
    let rest : (NotAbove (better local x best) b
        × ((k : Bytes) (n : Node)
            → lookup k m ≡ some n
            → is_candidate local n ≡ true
            → bytes_lt n.id b.id ≡ false)) =
      best_from-NotAbove local m (better local x best) b e in
    let head : (NotAbove best b × (is_candidate local x ≡ true → bytes_lt x.id b.id ≡ false)) =
      better-NotAbove local x b best rest.0 in
    (head.0, λ k n p c. ground (arith, head.1, rest.1 k n))

better-none :
    (local : Bytes) (n : Node) (best : Option Node)
    → better local n best ≡ none
    → (best ≡ none) × (is_candidate local n ≡ false)
unfolding better
better-none local n best e = ground arith

best_from-none :
    (local : Bytes) (m : Table Node) (best : Option Node)
    → best_from local m best ≡ none
    → (best ≡ none) × ((k : Bytes) (n : Node) → lookup k m ≡ some n → is_candidate local n ≡ false)
unfolding best_from lookup
best_from-none local [] best e = (e, λ k n p. cc)
best_from-none local ((j, x) ∷ m) best e =
    let rest : ((better local x best ≡ none)
        × ((k : Bytes) (n : Node) → lookup k m ≡ some n → is_candidate local n ≡ false)) =
      best_from-none local m (better local x best) e in
    let head : ((best ≡ none) × (is_candidate local x ≡ false)) = better-none local x best rest.0 in
    (head.0, λ k n p. ground (arith, head.1, rest.1 k n))

pub lookup-clear_leaders :
    (k : Bytes) (m : Table Node) → lookup k (clear_leaders m) ≡ flagged none (lookup k m)
unfolding lookup clear_leaders
lookup-clear_leaders k [] = refl
lookup-clear_leaders k ((j, n) ∷ m) = ground (arith, lookup-clear_leaders k m)

pub lookup-IsKeyed :
    (k : Bytes) (n : Node) (m : Table Node) → IsKeyed m → lookup k m ≡ some n → n.id ≡ k
unfolding lookup
lookup-IsKeyed k n [] h e = cc
lookup-IsKeyed k n ((j, x) ∷ m) h e =
    ground (arith, h.0, bytes_eq_iff j k, lookup-IsKeyed k n m h.2)

elected_at :
    (k : Bytes) (b : Node) (o : Option Node)
    → ((n : Node) → o ≡ some n → n.id ≡ k)
    → (bytes_eq b.id k ≡ true → o ≡ some b)
    → (if bytes_eq b.id k then some (record b { is_leader = true }) else flagged none o)
      ≡ flagged (some b) o
elected_at k b none keyed at = ground arith
elected_at k b (some n) keyed at = ground (arith, keyed n refl)

chosen_lookup :
    (b : Node) (m : Membership)
    → IsKeyed m.nodes
    → best_from m.local_node_id m.nodes none ≡ some b
    → (lookup b.id m.nodes ≡ some b) × (is_candidate m.local_node_id b ≡ true)
chosen_lookup b m h e = elim (best_from-found m.local_node_id m.nodes none b h e) [
  | inl p ↦ absurd (cc)
  | inr q ↦ q
]

chosen_at :
    (b : Node) (k : Bytes) (m : Membership)
    → IsKeyed m.nodes
    → best_from m.local_node_id m.nodes none ≡ some b
    → bytes_eq b.id k ≡ true
    → lookup k m.nodes ≡ some b
chosen_at b k m h e t = ground (arith, bytes_eq_iff b.id k, (chosen_lookup b m h e).0)

pub elect_none :
    (m : Membership)
    → best_from m.local_node_id m.nodes none ≡ none
    → (elect_leader m).1.nodes ≡ clear_leaders m.nodes
unfolding elect_leader
elect_none m e = ground arith

pub elect_some :
    (m : Membership) (b : Node)
    → best_from m.local_node_id m.nodes none ≡ some b
    → (elect_leader m).1.nodes ≡ insert b.id (record b { is_leader = true }) (clear_leaders m.nodes)
unfolding elect_leader
elect_some m b e = ground arith

-- Over nodes that are keyed by their ids, an election keeps every node as it is but for its leader's
-- flag, and sets that flag on the chosen node alone; where it chose none it clears every flag.
pub elect_leader-flagged :
    (m : Membership) (k : Bytes)
    → IsKeyed m.nodes
    → lookup k (elect_leader m).1.nodes
      ≡ flagged (best_from m.local_node_id m.nodes none) (lookup k m.nodes)
elect_leader-flagged m k h = elim (Option-cases (best_from m.local_node_id m.nodes none)) [
  | inl e ↦ rw (e, elect_none m e) (lookup-clear_leaders k m.nodes)
  | inr (b, e) ↦
      rw (e, elect_some m b e)
        (lookup-insert b.id k (record b { is_leader = true }) (clear_leaders m.nodes)
          ∙ rw lookup-clear_leaders (
              elected_at k b (lookup k m.nodes) (λ n p. lookup-IsKeyed k n m.nodes h p)
                (chosen_at b k m h e)))
]

away_from_local :
    (m : Membership) (k : Bytes) (n : Node)
    → IsKeyed m.nodes
    → lookup m.local_node_id m.nodes ≡ none
    → lookup k m.nodes ≡ some n
    → is_candidate m.local_node_id n ≡ is_alive n.status
away_from_local m k n h free e =
    let own : n.id ≡ k = lookup-IsKeyed k n m.nodes h e in
    ground (arith, own, free, e, bytes_eq_iff n.id m.local_node_id)

-- Where the local node's id is that of no member, as it is while SetLocalNodeID is not called, the
-- chosen node is one of the members, alive, and no other alive member has a smaller id, in whatever
-- order the members are visited. An election that chooses none leaves no alive member. The members
-- are keyed by their ids.
pub best_from-IsLeast :
    (m : Membership)
    → IsKeyed m.nodes
    → lookup m.local_node_id m.nodes ≡ none
    → ((b : Node)
        → best_from m.local_node_id m.nodes none ≡ some b
        → (lookup b.id m.nodes ≡ some b)
          × (is_alive b.status ≡ true)
          × ((k : Bytes) (n : Node)
              → lookup k m.nodes ≡ some n
              → is_alive n.status ≡ true
              → bytes_lt n.id b.id ≡ false))
      × (best_from m.local_node_id m.nodes none ≡ none
          → (k : Bytes) (n : Node) → lookup k m.nodes ≡ some n
          → is_alive n.status ≡ false)
best_from-IsLeast m h free = (
  λ b e.
      let (at, c) = chosen_lookup b m h e in
      (
        at,
        sym (away_from_local m b.id b h free at) ∙ c,
        λ k n p a.
            (best_from-NotAbove m.local_node_id m.nodes none b e).1 k n p
              (away_from_local m k n h free p ∙ a),
      ),
  λ e k n p.
      sym (away_from_local m k n h free p)
      ∙ (best_from-none m.local_node_id m.nodes none e).1 k n p,
)
