-- ===== src/Cluster/Gossip/Replays.antt =====
-- internal/cluster/gossip/gossip.go: the replay of the hints for a node that is heard of again.
use cluster_db.Prelude.{
  ℕ, Bool, true, false, some, List, length, ◌==◌, if◌then◌else◌, Result, ok, err,
}
use cluster_db.Prelude.Bytes.{Bytes}
use cluster_db.Cluster.Handoff.{Hint, Hints, Transport, replay_hints}
use cluster_db.Server.Reply.{RpcError}
use cluster_db.Server.Kv.State.{Peers}

module _ {W : Type 0} (p : Peers W) where
  abbrev unfailing : {A : Type 0} → Result RpcError A → Bool
  unfailing (ok a) = true
  unfailing (err e) = false

  -- The functions that replayHintsForNode gives to ReplayHints: the error text of an answer is not
  -- looked at.
  unfoldable pub hint_transport : Transport W
  hint_transport = record {
    put = λ address key value w.
        let r = p.replica_put address (record { key = key; value = some value; version = 0 }) w in
        (unfailing r.0, r.1);
    del = λ address key w.
        let r = p.replica_delete address (record { key = key; version = 0 }) w in
        (unfailing r.0, r.1);
  }

  -- replayHintsForNode of an engine with a hint manager and a client; `meanwhile` are the hints that
  -- others store between the steps of its goroutine.
  unfoldable pub replay_hints_for_node : Bytes → Bytes → (ℕ → List Hint) → W → Hints → W × Hints
  unfolding hint_transport replay_hints
  replay_hints_for_node id address meanwhile w m =
      if length address == 0 then (w, m) else replay_hints hint_transport id address meanwhile w m
