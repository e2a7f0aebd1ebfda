-- ===== src/Winsock/Timeouts.antt =====
-- src/host_sockets_windows.rs: a timeout is 16 bytes of seconds and microseconds for the guest, and a
-- 32-bit number of milliseconds for WinSock. The 64-bit arithmetic is that of `i64`, at its limits too.
use wasmtime_mysql.Prelude.{
  ℕ, suc, ◌+◌, ◌-◌, ◌*◌, ◌/◌, ◌%◌, ◌^◌, min, if◌then◌else◌, leb, ltb, ◌||◌, ℤ, pos, negsuc, neg,
  length, take, drop, ◌++◌,
}
use wasmtime_mysql.Guest.{Bytes, from_le_bytes, to_le_bytes}

abbrev pub int64 : ℕ → ℤ
int64 w = if ltb w (2 ^ 63) then pos w else negsuc (2 ^ 64 - 1 - w)

-- A number brought into the range of `i64`.
abbrev pub saturate : ℤ → ℤ
saturate (pos n) = pos (min n (2 ^ 63 - 1))
saturate (negsuc n) = negsuc (min n (2 ^ 63 - 1))

abbrev pub add : ℤ → ℤ → ℤ
add (pos a) (pos b) = pos (a + b)
add (pos a) (negsuc b) = if leb (suc b) a then pos (a - suc b) else negsuc (b - a)
add (negsuc a) (pos b) = if leb (suc a) b then pos (b - suc a) else negsuc (a - b)
add (negsuc a) (negsuc b) = negsuc (suc (a + b))

abbrev pub times : ℤ → ℕ → ℤ
times (pos a) k = pos (a * k)
times (negsuc a) k = neg (pos (suc a * k))

abbrev pub saturating_add : ℤ → ℤ → ℤ
saturating_add a b = saturate (add a b)

abbrev pub saturating_mul : ℤ → ℕ → ℤ
saturating_mul a k = saturate (times a k)

-- Division by a positive number towards minus infinity.
abbrev pub div_euclid : ℤ → ℕ → ℤ
div_euclid (pos a) k = pos (a / k)
div_euclid (negsuc a) k = negsuc (a / k)

-- `clamp(0, u32::MAX) as u32`
abbrev pub clamp_u32 : ℤ → ℕ
clamp_u32 (pos n) = min n (2 ^ 32 - 1)
clamp_u32 (negsuc n) = 0

abbrev pub millis_of : ℤ → ℤ → ℕ
millis_of seconds micros = clamp_u32 (
    saturating_add (saturating_mul seconds 1000)
      (div_euclid (saturating_add micros (pos 999)) 1000))

unfoldable pub guest_timeout_to_windows : Bytes → Bytes
guest_timeout_to_windows guest =
    if ltb (length guest) 16
    then guest
    else to_le_bytes 4 (
        millis_of (int64 (from_le_bytes (take 8 guest)))
          (int64 (from_le_bytes (take 8 (drop 8 guest)))))

unfoldable pub windows_timeout_to_guest : Bytes → ℕ → Bytes
windows_timeout_to_guest windows requested_len =
    if ltb requested_len 16 || ltb (length windows) 4
    then windows
    else (let millis = from_le_bytes (take 4 windows) in
        to_le_bytes 8 (millis / 1000) ++ to_le_bytes 8 (millis % 1000 * 1000))
