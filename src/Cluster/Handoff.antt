-- ===== src/Cluster/Handoff.antt =====
-- internal/cluster/handoff/manager.go: the hints for replicas that could not be reached.
pub mod Replay
use cluster_db.Prelude.{ℕ, zero, suc, ◌+◌, Bool, true, false, Option, none, some}
use cluster_db.Prelude.{List, [], ◌∷◌, ◌++◌, length, get_elem?, leb, ◌==◌, if◌then◌else◌}
use cluster_db.Prelude.Bytes.{Bytes, text, bytes_eq}
use cluster_db.Prelude.Table.{Table, lookup, insert, remove}
use cluster_db.Storage.Time.{Time}

pub record Hint : Type 0 where
  pub target_node : Bytes
  pub operation : Bytes
  pub key : Bytes
  pub value : Bytes
  pub timestamp : Time

-- The map of a Manager.
abbrev pub Hints : Type 0
Hints = Table (List Hint)

-- NewManager
abbrev pub new_manager : Hints
new_manager = []

-- m.hints[id]: nil for a missing key.
unfoldable pub hints_of : Bytes → Hints → List Hint
hints_of id m = elim (lookup id m) [ none ↦ [] | some hs ↦ hs ]

-- StoreHint, at the instant that the clock reads.
unfoldable pub store_hint : Bytes → Bytes → Bytes → Bytes → Time → Hints → Hints
store_hint target operation key value ts m =
    insert target
      (hints_of target m
        ++ record {
          target_node = target;
          operation = operation;
          key = key;
          value = value;
          timestamp = ts;
        }
          ∷ [])
      m

-- PendingHints: a copy, which later changes of the manager leave alone.
unfoldable pub pending_hints : Bytes → Hints → List Hint
pending_hints id m = hints_of id m

-- append(hints[:index], hints[index+1:]...)
unfoldable pub remove_at : ℕ → List Hint → List Hint
remove_at index [] = []
remove_at zero (h ∷ hs) = hs
remove_at (suc index) (h ∷ hs) = h ∷ remove_at index hs

-- RemoveHint; an index below 0 is refused too, and no caller has one.
unfoldable pub remove_hint : Bytes → ℕ → Hints → Hints
unfolding hints_of remove_at
remove_hint id index m =
    let hs = hints_of id m in
    let rest = remove_at index hs in
    if leb (length hs) index
    then m
    else if length rest == 0
    then remove id (insert id rest m)
    else insert id rest m

-- The functions that ReplayHints is given, over the state `W` of what they talk to: whether the call
-- had no error.
pub record Transport (W : Type 0) : Type 0 where
  pub put : Bytes → Bytes → Bytes → W → Bool × W
  pub del : Bytes → Bytes → W → Bool × W

module _ {W : Type 0} (t : Transport W) (id address : Bytes) where
  -- The switch: an operation of another name is no error.
  unfoldable pub deliver : Hint → W → Bool × W
  deliver h w =
      if bytes_eq h.operation (text "put")
      then t.put address h.key h.value w
      else if bytes_eq h.operation (text "delete")
      then t.del address h.key w
      else (true, w)

  -- The hints that other goroutines store for the node while the lock is free.
  unfoldable pub store_all : List Hint → Hints → Hints
  store_all [] m = m
  store_all (h ∷ hs) m = store_all hs (store_hint id h.operation h.key h.value h.timestamp m)

  -- The loop of ReplayHints over the copy `hints`, from index `n - 1` down. `meanwhile i` are the
  -- hints that others store during the call of round `i`.
  unfoldable pub replay_from : (ℕ → List Hint) → ℕ → List Hint → W → Hints → W × Hints
  unfolding deliver
  replay_from meanwhile zero hints w m = (w, m)
  replay_from meanwhile (suc i) hints w m = elim (get_elem? hints i) [
    | none ↦ (w, m)
    | some h ↦
        let (fine, w') = deliver h w in
        let m' = store_all (meanwhile i) m in
        replay_from meanwhile i hints w' (if fine then remove_hint id i m' else m')
  ]

  -- ReplayHints
  unfoldable pub replay_hints : (ℕ → List Hint) → W → Hints → W × Hints
  unfolding store_all replay_from pending_hints
  replay_hints meanwhile w m =
      let hints = pending_hints id m in replay_from meanwhile (length hints) hints w m
