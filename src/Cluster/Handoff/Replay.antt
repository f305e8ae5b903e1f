-- ===== src/Cluster/Handoff/Replay.antt =====
-- ReplayHints keeps exactly the hints whose delivery failed, whatever is stored meanwhile.
use cluster_db.Prelude.{ℕ, zero, suc, ◌≤◌, ◌<◌, ◌≡◌, refl, sym, ap, ◌∙◌, arith, Bool, true, false}
use cluster_db.Prelude.{List, [], ◌∷◌, ◌++◌, length, take, length-take, get_elem?, some, none}
use cluster_db.Prelude.{Bool-cases, inl, inr, ◌==◌, if◌then◌else◌}
use cluster_db.Prelude.Bytes.{Bytes, bytes_eq, bytes_eq_refl, bytes_eq_iff}
use cluster_db.Prelude.Table.{insert, lookup-insert, lookup-remove}
use cluster_db.Cluster.Handoff.{
  Hint, Hints, Transport, hints_of, store_hint, remove_at, remove_hint, deliver, store_all,
  replay_from, replay_hints, pending_hints,
}
use mathlib.Core.List.{append_assoc, append-nil}

-- As StoreHint records them for a node.
abbrev pub stored : Bytes → List Hint → List Hint
stored id [] = []
stored id (h ∷ hs) = record h { target_node = id } ∷ stored id hs

hints_of-insert :
    (id j : Bytes) (hs : List Hint) (m : Hints)
    → hints_of j (insert id hs m) ≡ (if bytes_eq id j then hs else hints_of j m)
unfolding hints_of
hints_of-insert id j hs m = ground (arith, lookup-insert id j hs m)

hints_of-store_all :
    {W : Type 0} (t : Transport W) (id address : Bytes) (hs : List Hint) (m : Hints)
    → hints_of id (store_all t id address hs m) ≡ hints_of id m ++ stored id hs
unfolding store_all store_hint
hints_of-store_all t id address [] m = sym (append-nil (hints_of id m))
hints_of-store_all t id address (h ∷ hs) m =
    hints_of-store_all t id address hs _
    ∙ rw
        (
          hints_of-insert id id (hints_of id m ++ record h { target_node = id } ∷ []) m,
          bytes_eq_refl id,
        )
        (append_assoc (hints_of id m) (record h { target_node = id } ∷ []) (stored id hs))

hints_of-store_all_ne :
    {W : Type 0} (t : Transport W) (id address j : Bytes) (hs : List Hint) (m : Hints)
    → bytes_eq id j ≡ false
    → hints_of j (store_all t id address hs m) ≡ hints_of j m
unfolding store_all store_hint
hints_of-store_all_ne t id address j [] m d = refl
hints_of-store_all_ne t id address j (h ∷ hs) m d =
    hints_of-store_all_ne t id address j hs _ d
    ∙ rw (hints_of-insert id j (hints_of id m ++ record h { target_node = id } ∷ []) m, d) refl

remove_at-past : (i : ℕ) (hs : List Hint) → length hs ≤ i → remove_at i hs ≡ hs
unfolding remove_at
remove_at-past i [] h = refl
remove_at-past zero (x ∷ hs) h = absurd (omega arith)
remove_at-past (suc i) (x ∷ hs) h =
    ap (λ (l : List Hint). x ∷ l) (remove_at-past i hs (omega arith))

remove_at-append :
    (i : ℕ) (xs : List Hint) (h : Hint) (ys : List Hint)
    → length xs ≡ i
    → remove_at i (xs ++ h ∷ ys) ≡ xs ++ ys
unfolding remove_at
remove_at-append zero [] h ys e = refl
remove_at-append (suc i) [] h ys e = absurd (omega arith)
remove_at-append zero (x ∷ xs) h ys e = absurd (omega arith)
remove_at-append (suc i) (x ∷ xs) h ys e =
    ap (λ (l : List Hint). x ∷ l) (remove_at-append i xs h ys (omega arith))

empty_list : (hs : List Hint) → (length hs == 0) ≡ true → hs ≡ []
empty_list [] e = refl
empty_list (x ∷ hs) e = absurd (ground arith)

hints_of-remove_hint :
    (id j : Bytes) (i : ℕ) (m : Hints)
    → hints_of j (remove_hint id i m)
      ≡ (if bytes_eq id j then remove_at i (hints_of id m) else hints_of j m)
unfolding remove_hint hints_of
hints_of-remove_hint id j i m =
    let rest : List Hint = remove_at i (hints_of id m) in
    ground (
      arith,
      remove_at-past i (hints_of id m),
      empty_list rest,
      lookup-remove id j (insert id rest m),
      lookup-insert id j rest m,
      bytes_eq_iff id j,
    )

take-get_elem? :
    (i : ℕ) (hs : List Hint) {h : Hint}
    → get_elem? hs i ≡ some h
    → take (suc i) hs ≡ take i hs ++ h ∷ []
take-get_elem? i [] e = absurd (cc e)
take-get_elem? zero (x ∷ hs) e = ap (λ o. elim o [ none ↦ [] | some y ↦ y ∷ [] ]) e
take-get_elem? (suc i) (x ∷ hs) e = ap (λ (l : List Hint). x ∷ l) (take-get_elem? i hs e)

take_all : (n : ℕ) (hs : List Hint) → n ≡ length hs → take n hs ≡ hs
take_all zero [] h = refl
take_all zero (x ∷ hs) h = absurd (omega arith)
take_all (suc n) [] h = refl
take_all (suc n) (x ∷ hs) h = ap (λ (l : List Hint). x ∷ l) (take_all n hs (omega arith))

get_elem?-lt : (hs : List Hint) (i : ℕ) → i < length hs → (h : Hint) × (get_elem? hs i ≡ some h)
get_elem?-lt [] i l = absurd (omega arith)
get_elem?-lt (x ∷ hs) zero l = (x, refl)
get_elem?-lt (x ∷ hs) (suc i) l = get_elem?-lt hs i (omega arith)

kept-append :
    (b : Bool) (x : Hint) (ks l : List Hint)
    → (if b then ks ++ l else x ∷ (ks ++ l)) ≡ (if b then ks else x ∷ ks) ++ l
kept-append true x ks l = refl
kept-append false x ks l = refl

regroup : (a b c d e : List Hint) → a ++ ((b ++ (c ++ d)) ++ e) ≡ (a ++ b) ++ (c ++ (d ++ e))
regroup a b c d e =
    ap (λ (l : List Hint). a ++ l)
      (append_assoc b (c ++ d) e ∙ ap (λ (l : List Hint). b ++ l) (append_assoc c d e))
    ∙ sym (append_assoc a b (c ++ (d ++ e)))

module _ {W : Type 0} (t : Transport W) (id address : Bytes) where
  -- Of hints that are delivered from the newest to the oldest, those that fail, in their order, and
  -- the state of the other side behind them.
  abbrev pub undelivered : List Hint → W → List Hint × W
  undelivered [] w = ([], w)
  undelivered (h ∷ hs) w =
      let (ks, w') = undelivered hs w in
      let (fine, w'') = deliver t id address h w' in (if fine then ks else h ∷ ks, w'')

  -- What was stored during rounds n - 1, ..., 0, in that order.
  abbrev pub arrivals : (ℕ → List Hint) → ℕ → List Hint
  arrivals meanwhile zero = []
  arrivals meanwhile (suc i) = stored id (meanwhile i) ++ arrivals meanwhile i

  -- The hint alone, if it was not delivered.
  abbrev if_failed : Bool → Hint → List Hint
  if_failed fine h = if fine then [] else h ∷ []

  undelivered-snoc :
      (hs : List Hint) (h : Hint) (w : W)
      → undelivered (hs ++ h ∷ []) w ≡ (
        (undelivered hs (deliver t id address h w).1).0 ++ if_failed (deliver t id address h w).0 h,
        (undelivered hs (deliver t id address h w).1).1,
      )
  undelivered-snoc [] h w = refl
  undelivered-snoc (x ∷ hs) h w = rw (undelivered-snoc hs h w) (
      ap
        (λ (l : List Hint).
          (l, (deliver t id address x (undelivered hs (deliver t id address h w).1).1).1))
        (kept-append (deliver t id address x (undelivered hs (deliver t id address h w).1).1).0 x
          (undelivered hs (deliver t id address h w).1).0
          (if_failed (deliver t id address h w).0 h)))

  -- What a replay leaves: the hints of the node and of the others, and the other side.
  pub record Leaves (n : ℕ) (front rest : List Hint) (meanwhile : ℕ → List Hint) (w : W) (m : Hints)
      (result : W × Hints) : Type 0 where
    pub pending : hints_of id result.1 ≡ (undelivered front w).0 ++ (rest ++ arrivals meanwhile n)
    pub world : result.0 ≡ (undelivered front w).1
    pub others : (j : Bytes) → bytes_eq id j ≡ false → hints_of j result.1 ≡ hints_of j m

  module _ (meanwhile : ℕ → List Hint) (i : ℕ) (w : W) (m : Hints) (h : Hint) where
    -- The manager behind round i.
    abbrev behind : Hints
    behind =
        if (deliver t id address h w).0
        then remove_hint id i (store_all t id address (meanwhile i) m)
        else store_all t id address (meanwhile i) m

    replay_from-suc :
        (hints : List Hint)
        → get_elem? hints i ≡ some h
        → replay_from t id address meanwhile (suc i) hints w m
          ≡ replay_from t id address meanwhile i hints (deliver t id address h w).1 behind
    unfolding replay_from
    replay_from-suc hints e = ground (arith, e)

    hints_of-behind :
        (front rest : List Hint)
        → length front ≡ i
        → hints_of id m ≡ front ++ h ∷ rest
        → hints_of id behind
          ≡ front ++ (if_failed (deliver t id address h w).0 h ++ (rest ++ stored id (meanwhile i)))
    hints_of-behind front rest l e =
        let after : hints_of id (store_all t id address (meanwhile i) m)
            ≡ front ++ h ∷ (rest ++ stored id (meanwhile i)) =
          hints_of-store_all t id address (meanwhile i) m
          ∙ rw e (append_assoc front (h ∷ rest) (stored id (meanwhile i))) in
        elim (Bool-cases (deliver t id address h w).0) [
          | inl f ↦ rw f (
              hints_of-remove_hint id id i (store_all t id address (meanwhile i) m)
              ∙ rw (bytes_eq_refl id, after)
                  (remove_at-append i front h (rest ++ stored id (meanwhile i)) l))
          | inr f ↦ rw f after
        ]

    hints_of-behind_ne : (j : Bytes) → bytes_eq id j ≡ false → hints_of j behind ≡ hints_of j m
    hints_of-behind_ne j d = ground (
      arith,
      hints_of-remove_hint id j i (store_all t id address (meanwhile i) m),
      hints_of-store_all_ne t id address j (meanwhile i) m d,
    )

  replay_from-Leaves :
      (meanwhile : ℕ → List Hint) (n : ℕ) (hints rest : List Hint) (w : W) (m : Hints)
      → n ≤ length hints
      → hints_of id m ≡ take n hints ++ rest
      → Leaves n (take n hints) rest meanwhile w m (replay_from t id address meanwhile n hints w m)
  replay_from-Leaves meanwhile zero hints rest w m l e =
      unfold replay_from in
      record { pending = e ∙ sym (append-nil rest); world = refl; others = λ j d. refl }
  replay_from-Leaves meanwhile (suc i) hints rest w m l e =
      let (h, at) = get_elem?-lt hints i (omega arith) in
      let fine : Bool = (deliver t id address h w).0 in
      let more : List Hint = if_failed fine h ++ (rest ++ stored id (meanwhile i)) in
      let size : length (take i hints) ≡ i = omega (arith, length-take i hints) in
      let split : hints_of id m ≡ take i hints ++ h ∷ rest =
        e ∙ rw (take-get_elem? i hints at) (append_assoc (take i hints) (h ∷ []) rest) in
      let k : Leaves i (take i hints) more meanwhile (deliver t id address h w).1
          (behind meanwhile i w m h)
          (replay_from t id address meanwhile i hints (deliver t id address h w).1
            (behind meanwhile i w m h)) =
        replay_from-Leaves meanwhile i hints more (deliver t id address h w).1
          (behind meanwhile i w m h) (omega arith)
          (hints_of-behind meanwhile i w m h (take i hints) rest size split) in
      rw (replay_from-suc meanwhile i w m h hints at, take-get_elem? i hints at)
        (record {
          pending =
              k.pending
              ∙ rw (undelivered-snoc (take i hints) h w) (
                  regroup (undelivered (take i hints) (deliver t id address h w).1).0
                    (if_failed fine h) rest (stored id (meanwhile i)) (arrivals meanwhile i));
          world = k.world ∙ rw (undelivered-snoc (take i hints) h w) refl;
          others = λ j d. k.others j d ∙ hints_of-behind_ne meanwhile i w m h j d;
        })

  -- ReplayHints delivers the pending hints of the node once each, from the newest to the oldest. What
  -- is pending then is exactly the hints whose delivery failed, in their order, and behind them what
  -- other goroutines stored for the node meanwhile; the hints of other nodes are untouched.
  pub replay_hints-Leaves :
      (meanwhile : ℕ → List Hint) (w : W) (m : Hints)
      → Leaves
          (length (pending_hints id m))
          (pending_hints id m)
          []
          meanwhile
          w
          m
          (replay_hints t id address meanwhile w m)
  unfolding replay_hints pending_hints
  replay_hints-Leaves meanwhile w m =
      let hints : List Hint = hints_of id m in
      let all : take (length hints) hints ≡ hints = take_all (length hints) hints refl in
      rw all at (
        replay_from-Leaves meanwhile (length hints) hints [] w m (omega arith)
          (sym (append-nil hints) ∙ ap (λ (l : List Hint). l ++ []) (sym all)))
