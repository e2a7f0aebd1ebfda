-- ===== src/Guest/Words.antt =====
-- The lengths that the guest passes by address: 32-bit words in little-endian order.
use wasmtime_mysql.Prelude.{ℕ, ◌^◌, ◌≤◌, ◌<◌, ◌≡◌, ap, arith, ℤ, ok, length}
use wasmtime_mysql.Guest.{Export, read_u32, write_u32, from_le_bytes, to_le_bytes, usize_max}
use wasmtime_mysql.Guest.Frame.{contents, read_guest-write_guest}

from_le_bytes-to_le_bytes : (v : ℕ) → v < 2 ^ 32 → from_le_bytes (to_le_bytes 4 v) ≡ v
from_le_bytes-to_le_bytes v h = omega arith

-- A word of 32 bits that was written is read back.
pub read_u32-write_u32 :
    (e e' : Export) (ptr : ℤ) (value : ℕ)
    → length (contents e) ≤ usize_max
    → value < 2 ^ 32
    → write_u32 e ptr value ≡ ok e'
    → read_u32 e' ptr ≡ ok value
read_u32-write_u32 e e' ptr value f b h =
    unfold read_u32 in
    rw (read_guest-write_guest e e' ptr (to_le_bytes 4 value) f (unfold write_u32 in h))
      (ap ok (from_le_bytes-to_le_bytes value b))
