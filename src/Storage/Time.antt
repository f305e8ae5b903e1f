-- ===== src/Storage/Time.antt =====
-- The instants of Go's `time` package that the storage layer uses. An instant is the number of
-- nanoseconds since the zero `time.Time` (January 1 of year 1, UTC), so the zero value is 0.
use cluster_db.Prelude.{ℕ, ◌+◌, ◌-◌, ◌*◌, ◌%◌, ◌^◌, ◌≤◌, ◌<◌, ◌≡◌, arith}
use cluster_db.Prelude.{ltb, if◌then◌else◌}

abbrev pub Time : Type 0
Time = ℕ

-- The Unix epoch: 62135596800 seconds after the zero instant.
abbrev pub epoch : Time
epoch = 62135596800000000000

-- `uint64(t.UnixNano())`: the two's complement pattern of the nanoseconds since the epoch.
unfoldable pub unix_nano_bits : Time → ℕ
unix_nano_bits t = (t + 4 * 2 ^ 64 - epoch) % 2 ^ 64

-- `time.Unix(0, int64(bits))`.
unfoldable pub of_unix_nano_bits : ℕ → Time
of_unix_nano_bits bits = if ltb bits (2 ^ 63) then epoch + bits else epoch + bits - 2 ^ 64

-- The instants that `UnixNano` represents: years 1678 to 2262.
pub record IsRepresentable (t : Time) : Type 0 where
  pub not_before : epoch ≤ t + 2 ^ 63
  pub before : t < epoch + 2 ^ 63

pub of_unix_nano_bits-unix_nano_bits :
    (t : Time) → IsRepresentable t → of_unix_nano_bits (unix_nano_bits t) ≡ t
unfolding of_unix_nano_bits unix_nano_bits
of_unix_nano_bits-unix_nano_bits t h = ground arith

pub unix_nano_bits-lt : (t : Time) → unix_nano_bits t < 2 ^ 64
unfolding unix_nano_bits
unix_nano_bits-lt t = omega arith
