-- ===== src/Wal/Crc.antt =====
-- hash/crc32.ChecksumIEEE, one bit at a time.
use cluster_db.Prelude.{ℕ, zero, suc, ◌/◌, ◌%◌, ◌^◌, ◌<◌, ◌≡◌, refl, arith, bit_xor, [], ◌∷◌}
use cluster_db.Prelude.{◌==◌, if◌then◌else◌}
use cluster_db.Prelude.Bytes.{Bytes, text}

-- One bit of the reflected polynomial division.
crc_bit : ℕ → ℕ
crc_bit c = if c % 2 == 1 then bit_xor (c / 2) 0xEDB88320 else c / 2

crc_bits : ℕ → ℕ → ℕ
unfolding crc_bit
crc_bits zero c = c
crc_bits (suc n) c = crc_bits n (crc_bit c)

crc_update : ℕ → Bytes → ℕ
unfolding crc_bits
crc_update c [] = c
crc_update c (b ∷ bs) = crc_update (crc_bits 8 (bit_xor c b)) bs

-- crc32.ChecksumIEEE
unfoldable pub crc32 : Bytes → ℕ
unfolding crc_update
crc32 bs = bit_xor (crc_update 0xffffffff bs) 0xffffffff % 2 ^ 32

pub crc32-lt : (bs : Bytes) → crc32 bs < 2 ^ 32
unfolding crc32
crc32-lt bs = omega arith

-- The check value of CRC-32/ISO-HDLC.
crc32_check : crc32 (text "123456789") ≡ 0xCBF43926
unfolding crc32
crc32_check = refl
