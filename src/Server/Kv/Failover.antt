-- ===== src/Server/Kv/Failover.antt =====
-- Which replica a read is answered by.
use cluster_db.Prelude.{
  ◌≡◌, inl, inr, Result-cases, refl, sym, ap, arith, Option, none, some, ok, err,
}
use cluster_db.Prelude.{Result, List, [], ◌∷◌, ◌++◌, length, ◌==◌, if◌then◌else◌}
use mathlib.Core.Path.{subst}
use cluster_db.Prelude.Bytes.{Bytes, text}
use cluster_db.Cluster.Membership.{Node, is_alive}
use cluster_db.Server.Messages.{ReplicaGetResponse}
use cluster_db.Server.Reply.{RpcError}
use cluster_db.Server.Kv.State.{Peers}
use cluster_db.Server.Kv.Read.{read_one, read_from, read_with_failover}

abbrev value_in : Result RpcError ReplicaGetResponse → Option Bytes
value_in (err e) = none
value_in (ok a) = if length a.error == 0 then if a.found then some a.value else none else none

module _ {W : Type 0} (p : Peers W) (key : Bytes) where
  -- The value that a node gives: it is alive, and its answer has no error and is a found one.
  abbrev pub given : Node → W → Option Bytes
  given n w =
      if is_alive n.status
      then value_in (p.replica_get n.address (record { key = key }) w).0
      else none

  -- The peers once a node has been asked, and once all of them have.
  abbrev pub asked : Node → W → W
  asked n w = if is_alive n.status then (p.replica_get n.address (record { key = key }) w).1 else w

  abbrev pub all_asked : List Node → W → W
  all_asked [] w = w
  all_asked (n ∷ ns) w = all_asked ns (asked n w)

  -- None of the nodes, asked in order, gives a value.
  abbrev pub IsSilent : List Node → W → Type 0
  IsSilent [] w = Unit {0}
  IsSilent (n ∷ ns) w = (given n w ≡ none) × IsSilent ns (asked n w)

  -- The value comes from the first node that gives one.
  pub record IsFirst (owners : List Node) (w : W) (v : Bytes) : Type 0 where
    pub before : List Node
    pub giver : Node
    pub behind : List Node
    pub split : owners ≡ before ++ giver ∷ behind
    pub silent : IsSilent before w
    pub gives : given giver (all_asked before w) ≡ some v

  one : (n : Node) (w : W) → (read_one p key n w).1 ≡ asked n w
  unfolding read_one
  one n w = ground arith

  one_given : (n : Node) (w : W) (v : Bytes) → (read_one p key n w).0 ≡ ok v → given n w ≡ some v
  unfolding read_one
  one_given n w v e = ground arith

  one_silent : (n : Node) (w : W) (e : Bytes) → (read_one p key n w).0 ≡ err e → given n w ≡ none
  unfolding read_one
  one_silent n w x e = ground arith

  -- What an outcome of the loop over the owners says.
  abbrev Tells : List Node → W → Result Bytes Bytes → Type 0
  Tells owners w (ok v) = IsFirst owners w v
  Tells owners w (err e) = IsSilent owners w

  one_more :
      (n : Node) (ns : List Node) (w : W) (r : Result Bytes Bytes)
      → given n w ≡ none
      → Tells ns (asked n w) r
      → Tells (n ∷ ns) w r
  one_more n ns w (ok v) g f = record {
    before = n ∷ f.before;
    giver = f.giver;
    behind = f.behind;
    split = ap (λ (x : List Node). n ∷ x) f.split;
    silent = (g, f.silent);
    gives = f.gives;
  }
  one_more n ns w (err e) g q = (g, q)

  read_from-Tells :
      (owners : List Node) (last : Bytes) (w : W) → Tells owners w (read_from p key owners last w).0
  unfolding read_from
  read_from-Tells [] last w = tt
  read_from-Tells (n ∷ ns) last w = elim (Result-cases (read_one p key n w).0) [
    | inl (v, e) ↦ subst (Tells (n ∷ ns) w) (sym (ended v e)) (record {
      before = [];
      giver = n;
      behind = ns;
      split = refl;
      silent = tt;
      gives = one_given n w v e;
    })
    | inr (x, e) ↦
        subst (Tells (n ∷ ns) w) (sym (gone_on x e))
          (one_more n ns w _ (one_silent n w x e) (read_from-Tells ns x (asked n w)))
  ]
    where
      ended :
          (v : Bytes) → (read_one p key n w).0 ≡ ok v → (read_from p key (n ∷ ns) last w).0 ≡ ok v
      ended v e = ground (arith, e)

      gone_on :
          (x : Bytes)
          → (read_one p key n w).0 ≡ err x
          → (read_from p key (n ∷ ns) last w).0 ≡ (read_from p key ns x (asked n w)).0
      gone_on x e = ground (arith, e, one n w)

  -- A read by failover that gives a value gives that of the first owner that is alive and answers
  -- with a found value and no error, the owners before it having been asked in order; one that
  -- fails has asked them all, and none of them gave a value.
  pub read_with_failover-IsFirst :
      (owners : List Node) (w : W)
      → ((v : Bytes) → (read_with_failover p key owners w).0 ≡ ok v → IsFirst owners w v)
        × ((e : Bytes) → (read_with_failover p key owners w).0 ≡ err e → IsSilent owners w)
  unfolding read_with_failover
  read_with_failover-IsFirst owners w =
      let t = read_from-Tells owners (text "key not found on any replica") w in
      (λ v e. subst (Tells owners w) e t, λ x e. subst (Tells owners w) e t)
