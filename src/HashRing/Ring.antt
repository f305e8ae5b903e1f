-- ===== src/HashRing/Ring.antt =====
-- The ring's state and its operations.
use cluster_db.Prelude.{ℕ, zero, suc, ◌+◌, ◌/◌, ◌%◌, ◌^◌, ◌≤◌, ◌≡◌, Bool, false, not, ◌&&◌, ◌||◌}
use cluster_db.Prelude.{List, [], ◌∷◌, ◌++◌, length, get_elem?, select, All, Option, none, some}
use cluster_db.Prelude.{ltb, leb, ◌==◌, if◌then◌else◌}
use cluster_db.Prelude.Bytes.{Bytes, text, bytes_eq}
use cluster_db.Memory.Scan.{sort_strings}
use cluster_db.Wal.Crc.{crc32}
use cluster_db.HashRing.Search.{search}

-- `entry`
pub record Entry : Type 0 where
  pub key : ℕ
  pub node : Bytes

-- `nodes` is the key set of the map `nodes`.
pub record HashRing : Type 0 where
  pub ring : List Entry
  pub replicas : ℕ
  pub nodes : List Bytes

unfoldable pub contains : Bytes → List Bytes → Bool
contains a [] = false
contains a (b ∷ bs) = bytes_eq b a || contains a bs

abbrev pub IsSorted : List Entry → Type 0
IsSorted [] = Unit
IsSorted (x ∷ xs) = All (λ (y : Entry). x.key ≤ y.key) xs × IsSorted xs

unfoldable pub count : (Entry → Bool) → List Entry → ℕ
count p [] = 0
count p (x ∷ xs) = (if p x then 1 else 0) + count p xs

-- sort.Slice by the key: it orders the entries and keeps each of them, and is free in the order of
-- equal keys.
pub record Sorter : Type 0 where
  pub sort : List Entry → List Entry
  pub sort-IsSorted : (xs : List Entry) → IsSorted (sort xs)
  pub count-sort : (p : Entry → Bool) (xs : List Entry) → count p (sort xs) ≡ count p xs

-- string(rune(r)): the UTF-8 bytes, of U+FFFD for what is no code point.
unfoldable pub utf8 : ℕ → Bytes
utf8 r =
    if ltb r 0x80
    then r ∷ []
    else if ltb r 0x800
    then (0xC0 + r / 64) ∷ (0x80 + r % 64) ∷ []
    else if ltb 0x10FFFF r || (leb 0xD800 r && leb r 0xDFFF)
    then 0xEF ∷ 0xBF ∷ 0xBD ∷ []
    else if ltb r 0x10000
    then (0xE0 + r / 4096) ∷ (0x80 + r / 64 % 64) ∷ (0x80 + r % 64) ∷ []
    else (0xF0 + r / 262144) ∷ (0x80 + r / 4096 % 64) ∷ (0x80 + r / 64 % 64) ∷ (0x80 + r % 64) ∷ []

-- virtualKey; the rune is an int32, and a negative one is no code point.
unfoldable pub virtual_key : Bytes → ℕ → ℕ
unfolding utf8
virtual_key node replica = crc32 (node ++ (text "#" ++ utf8 ((48 + replica) % 2 ^ 32)))

-- New
unfoldable pub new_ring : ℕ → HashRing
new_ring replicas = record {
  ring = [];
  replicas = if replicas == 0 then 100 else replicas;
  nodes = [];
}

-- The entries of replicas i, i + 1, ..., `n` of them.
unfoldable pub virtual_entries : Bytes → ℕ → ℕ → List Entry
virtual_entries node i zero = []
virtual_entries node i (suc n) =
    record { key = virtual_key node i; node = node } ∷ virtual_entries node (i + 1) n

module _ (sorter : Sorter) where
  -- AddNode
  unfoldable pub add_node : Bytes → HashRing → HashRing
  unfolding contains
  add_node node r = if length node == 0 then r else if contains node r.nodes then r else record r {
    ring = sorter.sort (r.ring ++ virtual_entries node 0 r.replicas);
    nodes = node ∷ r.nodes;
  }

-- RemoveNode
unfoldable pub remove_node : Bytes → HashRing → HashRing
unfolding contains
remove_node node r =
    if length node == 0 then r else if not (contains node r.nodes) then r else record r {
      ring = select (λ x. not (bytes_eq x.node node)) r.ring;
      nodes = select (λ n. not (bytes_eq n node)) r.nodes;
    }

abbrev pub key_or_zero : Option Entry → ℕ
key_or_zero none = 0
key_or_zero (some x) = x.key

-- The index of GetNode and ReplicaOwners: the first entry at or behind the hash, or 0.
unfoldable pub start_index : List Entry → ℕ → ℕ
start_index ring hashed =
    let idx = search (length ring) (λ i. leb hashed (key_or_zero (get_elem? ring i))) in
    if idx == length ring then 0 else idx

abbrev pub node_of : Option Entry → Option Bytes
node_of none = none
node_of (some x) = some x.node

-- GetNode; `none` is the false of the source.
unfoldable pub get_node : Bytes → HashRing → Option Bytes
get_node key r =
    if length key == 0 || length r.ring == 0
    then none
    else node_of (get_elem? r.ring (start_index r.ring (crc32 key)))

abbrev pub node_or_empty : Option Entry → Bytes
node_or_empty none = []
node_or_empty (some x) = x.node

-- The loop of ReplicaOwners: `seen` holds the owners, and the break is the test on their number.
unfoldable pub owners_loop : ℕ → List Entry → ℕ → ℕ → ℕ → List Bytes → List Bytes
owners_loop zero ring start i factor owners = owners
owners_loop (suc n) ring start i factor owners =
    let node = node_or_empty (get_elem? ring ((start + i) % length ring)) in
    let more = owners ++ node ∷ [] in
    let skipped = owners_loop n ring start (i + 1) factor owners in
    let added = owners_loop n ring start (i + 1) factor more in
    if contains node owners then skipped else if length more == factor then more else added

-- ReplicaOwners
unfoldable pub replica_owners : Bytes → ℕ → HashRing → Option (List Bytes)
replica_owners key factor r =
    if length key == 0 || factor == 0 || length r.ring == 0
    then none
    else some (owners_loop (length r.ring) r.ring (start_index r.ring (crc32 key)) 0 factor [])

-- Nodes and Count
unfoldable pub node_list : HashRing → List Bytes
node_list r = sort_strings r.nodes

unfoldable pub node_count : HashRing → ℕ
node_count r = length r.nodes
