-- ===== src/Server/Kv/Covered.antt =====
-- Every replica of a write has it, or a hint for it is kept.
use cluster_db.Prelude.{
  ◌≡◌, ◌⊎◌, inl, inr, refl, ap, ◌∙◌, arith, Bool, true, false, not, ◌&&◌, ◌||◌,
}
use cluster_db.Prelude.{Bool-cases, if◌then◌else◌}
use cluster_db.Prelude.{List, [], ◌∷◌, ◌++◌, All}
use cluster_db.Prelude.Bytes.{Bytes, bytes_eq, bytes_eq_iff, bytes_eq_refl}
use cluster_db.Prelude.Table.{lookup-insert}
use cluster_db.Storage.Time.{Time}
use cluster_db.Cluster.Membership.{Node, is_alive}
use cluster_db.Cluster.Handoff.{Hint, Hints, hints_of, store_hint}
use cluster_db.Server.Kv.State.{Peers, KvHandler, keep_hint}
use cluster_db.Server.Kv.Write.{replicate_one, replicate}

-- A hint for the operation, the key and the value is among the hints.
abbrev pub is_hint : Bytes → Bytes → Bytes → Hint → Bool
is_hint operation key value h =
    bytes_eq h.operation operation && bytes_eq h.key key && bytes_eq h.value value

unfoldable pub hinted : Bytes → Bytes → Bytes → List Hint → Bool
hinted operation key value [] = false
hinted operation key value (h ∷ hs) = is_hint operation key value h || hinted operation key value hs

hinted-append :
    (o k v : Bytes) (xs ys : List Hint)
    → hinted o k v (xs ++ ys) ≡ (hinted o k v xs || hinted o k v ys)
unfolding hinted
hinted-append o k v [] ys = refl
hinted-append o k v (x ∷ xs) ys = ground (arith, hinted-append o k v xs ys)

hints_of-store_hint :
    (id target o k v : Bytes) (ts : Time) (m : Hints)
    → hints_of id (store_hint target o k v ts m) ≡ (
        if bytes_eq target id
        then hints_of target m
          ++ record { target_node = target; operation = o; key = k; value = v; timestamp = ts } ∷ []
        else hints_of id m)
unfolding hints_of store_hint
hints_of-store_hint id target o k v ts m = ground (
  arith,
  lookup-insert target id
      (hints_of target m
        ++ record { target_node = target; operation = o; key = k; value = v; timestamp = ts } ∷ [])
      m,
)

stored_hint :
    (id o k v : Bytes) (ts : Time) (m : Hints)
    → hinted o k v (hints_of id (store_hint id o k v ts m)) ≡ true
unfolding hinted
stored_hint id o k v ts m =
    let h : Hint = record { target_node = id; operation = o; key = k; value = v; timestamp = ts } in
    ap (hinted o k v) (hints_of-store_hint id id o k v ts m ∙ rw (bytes_eq_refl id) refl)
    ∙ hinted-append o k v (hints_of id m) (h ∷ [])
    ∙ last h (hinted o k v (hints_of id m))
  where
    last : (h : Hint) (b : Bool) → (b || hinted h.operation h.key h.value (h ∷ [])) ≡ true
    last h b = ground (arith, bytes_eq_refl h.operation, bytes_eq_refl h.key, bytes_eq_refl h.value)

kept_hint :
    (id target o k v : Bytes) (ts : Time) (m : Hints)
    → hinted o k v (hints_of id m) ≡ true
    → hinted o k v (hints_of id (store_hint target o k v ts m)) ≡ true
kept_hint id target o k v ts m h = elim (Bool-cases (bytes_eq target id)) [
  | inl e ↦
      let same : target ≡ id = (bytes_eq_iff target id).0 e in
      ap (λ (t : Bytes). hinted o k v (hints_of id (store_hint t o k v ts m))) same
      ∙ stored_hint id o k v ts m
  | inr e ↦ ap (hinted o k v) (hints_of-store_hint id target o k v ts m ∙ rw e refl) ∙ h
]

module _ {W : Type 0} (p : Peers W) (call : Bytes → W → Bool × W) (operation key value : Bytes)
    (Stored : Bytes → W → Type 0)
    (acked : (a : Bytes) (w : W) → (call a w).0 ≡ true → Stored a (call a w).1)
    (kept : (a b : Bytes) (w : W) → Stored b w → Stored b (call a w).1) where
  -- The replica has the write, or a hint for it is kept.
  abbrev Covered : KvHandler W → Node → Type 0
  Covered k n =
      Stored n.address k.peers ⊎ (hinted operation key value (hints_of n.id k.hints) ≡ true)

  hint_keeps :
      (n m : Node) (k : KvHandler W) → Covered k m → Covered (keep_hint p operation key value n k) m
  unfolding keep_hint
  hint_keeps n m k (inl s) = inl s
  hint_keeps n m k (inr h) = inr (kept_hint m.id n.id operation key value (p.now k.peers) k.hints h)

  hint_covers : (n : Node) (k : KvHandler W) → Covered (keep_hint p operation key value n k) n
  unfolding keep_hint
  hint_covers n k = inr (stored_hint n.id operation key value (p.now k.peers) k.hints)

  called : Node → KvHandler W → KvHandler W
  called n k = record k { peers = (call n.address k.peers).1 }

  call_keeps : (n m : Node) (k : KvHandler W) → Covered k m → Covered (called n k) m
  unfolding called
  call_keeps n m k (inl s) = inl (kept n.address m.address k.peers s)
  call_keeps n m k (inr h) = inr h

  Covered-if :
      (b : Bool) (x y : KvHandler W) (m : Node)
      → (b ≡ true → Covered x m)
      → (b ≡ false → Covered y m)
      → Covered (if b then x else y) m
  Covered-if true x y m p q = p refl
  Covered-if false x y m p q = q refl

  one_covers :
      (n : Node) (k : KvHandler W) → Covered (replicate_one p call operation key value n k) n
  unfolding replicate_one called
  one_covers n k =
      Covered-if (not (is_alive n.status)) _ _ n (λ e. hint_covers n k)
        (λ e.
          Covered-if (call n.address k.peers).0 _ _ n (λ a. inl (acked n.address k.peers a))
            (λ a. hint_covers n (called n k)))

  one_keeps :
      (n m : Node) (k : KvHandler W)
      → Covered k m
      → Covered (replicate_one p call operation key value n k) m
  unfolding replicate_one called
  one_keeps n m k c =
      Covered-if (not (is_alive n.status)) _ _ m (λ e. hint_keeps n m k c)
        (λ e.
          Covered-if (call n.address k.peers).0 _ _ m (λ a. call_keeps n m k c)
            (λ a. hint_keeps n m (called n k) (call_keeps n m k c)))

  all_keeps :
      (ns : List Node) (m : Node) (k : KvHandler W)
      → Covered k m
      → Covered (replicate p call operation key value ns k) m
  unfolding replicate
  all_keeps [] m k c = c
  all_keeps (n ∷ ns) m k c = all_keeps ns m _ (one_keeps n m k c)

  pub replicate-Covered :
      (ns : List Node) (k : KvHandler W)
      → All
          (λ (n : Node).
            Stored n.address (replicate p call operation key value ns k).peers
            ⊎ (hinted operation key value
                  (hints_of n.id (replicate p call operation key value ns k).hints)
                ≡ true))
          ns
  unfolding replicate
  replicate-Covered [] k = tt
  replicate-Covered (n ∷ ns) k = (
    all_keeps ns n _ (one_covers n k),
    replicate-Covered ns (replicate_one p call operation key value n k),
  )
