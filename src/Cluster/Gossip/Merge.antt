-- ===== src/Cluster/Gossip/Merge.antt =====
-- MergeNodeStates is idempotent, reports exactly what it changes, and never goes back in time.
use cluster_db.Prelude.{
  ℕ, ◌≤◌, ◌≡◌, ◌≢◌, refl, arith, Bool, true, false, Option, none, some, [], ◌∷◌, length, ◌==◌,
}
use cluster_db.Prelude.Bytes.{Bytes, bytes_eq_refl, bytes_eq_iff, bytes_lt_irrefl, bytes_lt_trans}
use cluster_db.Cluster.Membership.{Node}
use cluster_db.Cluster.Gossip.{
  Comparison, less, equal, greater, compare_numbers, compare_strings, compare_versions,
  compare_parsed, merge_by, parse_version_num, merge_equal, merge_node_states,
}

-- The opposite answer.
abbrev pub opposite : Comparison → Comparison
opposite less = greater
opposite equal = equal
opposite greater = less

compare_versions_refl : (v : Bytes) → compare_versions v v ≡ equal
unfolding compare_versions
compare_versions_refl v = rw (bytes_eq_refl v) refl

merge_equal-same : (n : Node) → merge_equal n n ≡ (false, n)
unfolding merge_equal
merge_equal-same n = ground (arith, bytes_eq_refl n.address)

compare_strings-opposite : (a b : Bytes) → compare_strings a b ≡ opposite (compare_strings b a)
unfolding compare_strings
compare_strings-opposite a b = ground (arith, bytes_lt_trans a b a, bytes_lt_irrefl a)

compare_numbers-opposite : (a b : ℕ) → compare_numbers a b ≡ opposite (compare_numbers b a)
unfolding compare_numbers
compare_numbers-opposite a b = ground arith

compare_parsed-opposite :
    (p q : Option ℕ) (a b : Bytes) → compare_parsed p q a b ≡ opposite (compare_parsed q p b a)
unfolding compare_parsed
compare_parsed-opposite (some n) (some m) a b = compare_numbers-opposite n m
compare_parsed-opposite (some n) none a b = compare_strings-opposite a b
compare_parsed-opposite none (some m) a b = compare_strings-opposite a b
compare_parsed-opposite none none a b = compare_strings-opposite a b

both_empty : (v w : Bytes) → (length v == 0) ≡ true → (length w == 0) ≡ true → v ≡ w
both_empty [] [] p q = refl
both_empty [] (y ∷ w) p q = absurd (ground arith)
both_empty (x ∷ v) w p q = absurd (ground arith)

-- Swapping the versions turns the answer of CompareVersions round.
pub compare_versions-opposite :
    (v w : Bytes) → compare_versions v w ≡ opposite (compare_versions w v)
unfolding compare_versions
compare_versions-opposite v w = ground (
  arith,
  bytes_eq_iff v w,
  bytes_eq_iff w v,
  both_empty v w,
  compare_parsed-opposite (parse_version_num v) (parse_version_num w) v w,
)

merge_equal-version : (e r : Node) → (merge_equal e r).1.version ≡ e.version
unfolding merge_equal
merge_equal-version e r = refl

merge_equal-twice : (e r : Node) → merge_equal (merge_equal e r).1 r ≡ (false, (merge_equal e r).1)
unfolding merge_equal
merge_equal-twice e r = ground (arith, bytes_eq_refl r.address)

merge_by-twice :
    (c : Comparison) (e r : Node)
    → compare_versions r.version e.version ≡ c
    → merge_node_states (merge_by c e r).1 r ≡ (false, (merge_by c e r).1)
unfolding merge_by merge_node_states compare_versions merge_equal
merge_by-twice greater e r h =
    rw (compare_versions_refl r.version) (unfold merge_by in merge_equal-same r)
merge_by-twice less e r h = rw h refl
merge_by-twice equal e r h = rw h (merge_equal-twice e r)

-- MergeNodeStates of the same remote state a second time changes nothing and says so.
pub merge_node_states-twice :
    (e r : Node)
    → merge_node_states (merge_node_states e r).1 r ≡ (false, (merge_node_states e r).1)
merge_node_states-twice e r =
    unfold merge_node_states in merge_by-twice (compare_versions r.version e.version) e r refl

-- What a merge promises of the state that it keeps: its version is not behind the existing one, its
-- heartbeat is not before the existing one where the versions are level, and it is the existing state
-- unless a change is reported.
pub record IsMerged (e : Node) (result : Bool × Node) : Type 0 where
  pub not_behind : compare_versions result.1.version e.version ≢ less
  pub not_before :
      compare_versions result.1.version e.version ≡ equal
      → e.last_heartbeat ≤ result.1.last_heartbeat
  pub reported : result.0 ≡ false → result.1 ≡ e

merge_equal-last_heartbeat : (e r : Node) → e.last_heartbeat ≤ (merge_equal e r).1.last_heartbeat
unfolding merge_equal
merge_equal-last_heartbeat e r = ground arith

merge_equal-reported : (e r : Node) → (merge_equal e r).0 ≡ false → (merge_equal e r).1 ≡ e
unfolding merge_equal
merge_equal-reported e r h = ground arith

less_ne_equal : {c : Comparison} → c ≡ equal → c ≢ less
less_ne_equal p q = cc

merge_by-IsMerged :
    (c : Comparison) (e r : Node)
    → compare_versions r.version e.version ≡ c
    → IsMerged e (merge_by c e r)
unfolding merge_by merge_equal
merge_by-IsMerged greater e r h = record {
  not_behind = λ p. cc;
  not_before = λ p. absurd cc;
  reported = λ p. absurd cc;
}
merge_by-IsMerged less e r h = record {
  not_behind = less_ne_equal (compare_versions_refl e.version);
  not_before = λ p. omega arith;
  reported = λ p. refl;
}
merge_by-IsMerged equal e r h = record {
  not_behind = less_ne_equal (compare_versions_refl e.version);
  not_before = λ p. merge_equal-last_heartbeat e r;
  reported = merge_equal-reported e r;
}

-- MergeNodeStates never keeps a state whose version is behind the existing one, nor at a level
-- version an earlier heartbeat, and where it reports no change the state is the existing one.
pub merge_node_states-IsMerged : (e r : Node) → IsMerged e (merge_node_states e r)
unfolding merge_node_states
merge_node_states-IsMerged e r = merge_by-IsMerged (compare_versions r.version e.version) e r refl
