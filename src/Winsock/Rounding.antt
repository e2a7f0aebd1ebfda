-- ===== src/Winsock/Rounding.antt =====
-- Timeouts: how they are rounded, and what comes back.
use wasmtime_mysql.Prelude.{
  ℕ, zero, suc, ◌+◌, ◌*◌, ◌/◌, ◌%◌, ◌^◌, ◌≤◌, ◌<◌, ◌≡◌, refl, ap, ◌∙◌, arith, false, pos, length,
  length-append, take, drop, ◌++◌, take-append, drop-append, ltb,
}
use wasmtime_mysql.Guest.{Bytes, from_le_bytes, to_le_bytes}
use wasmtime_mysql.Winsock.Timeouts.{
  int64, millis_of, guest_timeout_to_windows, windows_timeout_to_guest,
}

pub length-to_le_bytes : (k n : ℕ) → length (to_le_bytes k n) ≡ k
length-to_le_bytes zero n = refl
length-to_le_bytes (suc k) n = ap suc (length-to_le_bytes k (n / 256))

pub from_le_bytes-to_le_bytes : (k n : ℕ) → n < 256 ^ k → from_le_bytes (to_le_bytes k n) ≡ n
from_le_bytes-to_le_bytes zero n h = omega arith
from_le_bytes-to_le_bytes (suc k) n h =
    let high : n / 256 < 256 ^ k = omega arith in
    omega (arith, from_le_bytes-to_le_bytes k (n / 256) high)

-- The bytes of a timeout of the guest's.
abbrev pub timeval : ℕ → ℕ → Bytes
timeval seconds micros = to_le_bytes 8 seconds ++ to_le_bytes 8 micros

millis_of_lem :
    (seconds micros : ℕ)
    → seconds * 1000 + (micros + 999) / 1000 < 2 ^ 32
    → micros < 2 ^ 62
    → millis_of (pos seconds) (pos micros) ≡ seconds * 1000 + (micros + 999) / 1000
millis_of_lem s u h k = ground arith

take-timeval : (s u : ℕ) → take 8 (timeval s u) ≡ to_le_bytes 8 s
take-timeval s u = take-append (to_le_bytes 8 s) (to_le_bytes 8 u) 8 (length-to_le_bytes 8 s)

drop-timeval : (s u : ℕ) → drop 8 (timeval s u) ≡ to_le_bytes 8 u
drop-timeval s u = drop-append (to_le_bytes 8 s) (to_le_bytes 8 u) 8 (length-to_le_bytes 8 s)

length-timeval : (s u : ℕ) → length (timeval s u) ≡ 16
length-timeval s u =
    length-append (to_le_bytes 8 s) (to_le_bytes 8 u)
    ∙ omega (arith, length-to_le_bytes 8 s, length-to_le_bytes 8 u)

int64_small : (n : ℕ) → n < 2 ^ 63 → int64 n ≡ pos n
int64_small n h = ground arith

guest_timeout_to_windows_of :
    (guest : Bytes) (a b : ℕ)
    → 16 ≤ length guest
    → from_le_bytes (take 8 guest) ≡ a
    → from_le_bytes (take 8 (drop 8 guest)) ≡ b
    → guest_timeout_to_windows guest ≡ to_le_bytes 4 (millis_of (int64 a) (int64 b))
unfolding guest_timeout_to_windows
guest_timeout_to_windows_of guest a b h ea eb =
    let long : ltb (length guest) 16 ≡ false = ground arith in
    rw (guest_timeout_to_windows, long, ea, eb) refl

guest_timeout_to_windows-timeval :
    (s u : ℕ)
    → s < 2 ^ 63
    → u < 2 ^ 62
    → guest_timeout_to_windows (timeval s u) ≡ to_le_bytes 4 (millis_of (pos s) (pos u))
guest_timeout_to_windows-timeval s u h k =
    guest_timeout_to_windows_of (timeval s u) s u (omega (arith, length-timeval s u))
      (ap from_le_bytes (take-timeval s u) ∙ from_le_bytes-to_le_bytes 8 s (omega arith))
      (ap (λ b. from_le_bytes (take 8 b)) (drop-timeval s u)
        ∙ from_le_bytes-to_le_bytes 8 u (omega arith))
    ∙ ap (to_le_bytes 4) (
        ap (λ a. millis_of a (int64 u)) (int64_small s h)
        ∙ ap (millis_of (pos s)) (int64_small u (omega arith)))

windows_timeout_to_guest-millis :
    (ms n : ℕ)
    → ms < 2 ^ 32
    → 16 ≤ n
    → windows_timeout_to_guest (to_le_bytes 4 ms) n ≡ timeval (ms / 1000) (ms % 1000 * 1000)
unfolding windows_timeout_to_guest
windows_timeout_to_guest-millis ms n h k =
    ground (arith, from_le_bytes-to_le_bytes 4 ms (omega arith), length-to_le_bytes 4 ms)

-- A timeout of the guest's that is set and asked for again comes back as one that is at least as long
-- and less than a millisecond longer, for microseconds below a million and up to 2^32 - 1 milliseconds.
pub timeout_lem :
    (s u n : ℕ)
    → u < 1_000_000
    → s * 1000 + (u + 999) / 1000 < 2 ^ 32
    → 16 ≤ n
    → (s' : ℕ) × (u' : ℕ) × (windows_timeout_to_guest (guest_timeout_to_windows (timeval s u)) n
        ≡ timeval s' u')
      × (u' < 1_000_000)
      × (s * 1_000_000 + u ≤ s' * 1_000_000 + u')
      × (s' * 1_000_000 + u' < s * 1_000_000 + u + 1000)
timeout_lem s u n h k r =
    let ms = s * 1000 + (u + 999) / 1000 in
    (
      ms / 1000,
      ms % 1000 * 1000,
      ap (λ b. windows_timeout_to_guest b n)
            (guest_timeout_to_windows-timeval s u (omega arith) (omega arith)
              ∙ ap (to_le_bytes 4) (millis_of_lem s u k (omega arith)))
          ∙ windows_timeout_to_guest-millis ms n k r,
      omega arith,
      omega arith,
      omega arith,
    )
