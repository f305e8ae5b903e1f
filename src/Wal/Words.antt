-- ===== src/Wal/Words.antt =====
-- encoding/binary's little-endian integers, as the log's records use them.
use cluster_db.Prelude.{ℕ, zero, suc, ◌+◌, ◌*◌, ◌/◌, ◌%◌, ◌^◌, ◌<◌, ◌≡◌, refl, arith}
use cluster_db.Prelude.{[], ◌∷◌, ◌++◌, length}
use cluster_db.Prelude.Bytes.{Bytes}

abbrev pub byte_at : Bytes → ℕ → ℕ
byte_at [] i = 0
byte_at (x ∷ xs) zero = x
byte_at (x ∷ xs) (suc i) = byte_at xs i

-- binary.LittleEndian.PutUint32(b, uint32(n))
unfoldable pub le32 : ℕ → Bytes
le32 n = n % 256 ∷ n / 256 % 256 ∷ n / 65536 % 256 ∷ n / 16777216 % 256 ∷ []

-- binary.LittleEndian.PutUint64(b, n)
unfoldable pub le64 : ℕ → Bytes
unfolding le32
le64 n = le32 (n % 2 ^ 32) ++ le32 (n / 2 ^ 32)

-- binary.LittleEndian.Uint32(b)
unfoldable pub uint32 : Bytes → ℕ
uint32 b = byte_at b 0 + 256 * byte_at b 1 + 65536 * byte_at b 2 + 16777216 * byte_at b 3

-- binary.LittleEndian.Uint64(b)
unfoldable pub uint64 : Bytes → ℕ
uint64 b =
    byte_at b 0
    + 2 ^ 8 * byte_at b 1
    + 2 ^ 16 * byte_at b 2
    + 2 ^ 24 * byte_at b 3
    + 2 ^ 32 * byte_at b 4
    + 2 ^ 40 * byte_at b 5
    + 2 ^ 48 * byte_at b 6
    + 2 ^ 56 * byte_at b 7

pub uint32-le32 : (n : ℕ) (rest : Bytes) → n < 2 ^ 32 → uint32 (le32 n ++ rest) ≡ n
unfolding uint32 le32
uint32-le32 n rest h = omega arith

pub uint64-le64 : (n : ℕ) (rest : Bytes) → n < 2 ^ 64 → uint64 (le64 n ++ rest) ≡ n
unfolding uint64 le64
uint64-le64 n rest h = omega arith

pub length-le32 : (n : ℕ) → length (le32 n) ≡ 4
unfolding le32
length-le32 n = refl
