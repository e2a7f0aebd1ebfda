-- ===== src/Guest/Bounds.antt =====
-- Which accesses the range check lets through.
use wasmtime_mysql.Prelude.{ℕ, ◌+◌, ◌≤◌, ◌≡◌, ◌⊎◌, arith, ℤ, pos, negsuc, ok, err}
use wasmtime_mysql.Errno.{efault, einval}
use wasmtime_mysql.Guest.{checked_range, Range, max_io_len, usize_max}

-- A negative pointer is answered EFAULT, before the length is looked at.
abbrev pub Accepts : ℤ → ℤ → ℕ → Type 0
Accepts (pos p) (pos n) m = (n ≤ max_io_len) × (p + n ≤ m)
Accepts (pos p) (negsuc n) m = ⊥
Accepts (negsuc p) len m = ⊥

abbrev pub RangeOf : ℤ → ℤ → Range → Type 0
RangeOf (pos p) (pos n) r = (r.start ≡ p) × (r.end ≡ p + n)
RangeOf (pos p) (negsuc n) r = ⊥
RangeOf (negsuc p) len r = ⊥

-- The check accepts exactly the ranges of at most MAX_IO_LEN bytes that lie inside the memory, and
-- returns the range that was asked for; it refuses all others with EFAULT or EINVAL.
pub checked_range_lem :
    (ptr len : ℤ) (memory_len : ℕ)
    → memory_len ≤ usize_max
    → ((r : Range)
        → checked_range ptr len memory_len ≡ ok r
        → Accepts ptr len memory_len × RangeOf ptr len r)
      × (Accepts ptr len memory_len → (r : Range) × (checked_range ptr len memory_len ≡ ok r))
      × ((e : ℤ) → checked_range ptr len memory_len ≡ err e → (e ≡ efault) ⊎ (e ≡ einval))
unfolding checked_range
checked_range_lem (pos p) (pos n) m fits = (
  λ r h. (ground arith, ground arith),
  λ a. (record { start = p; end = p + n }, ground arith),
  λ e h. ground arith,
)
checked_range_lem (pos p) (negsuc n) m fits = (λ r h. cc, λ a. absurd a, λ e h. ground arith)
checked_range_lem (negsuc p) len m fits = (λ r h. cc, λ a. absurd a, λ e h. ground arith)
