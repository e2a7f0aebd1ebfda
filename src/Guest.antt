-- ===== src/Guest.antt =====
-- The guest's linear memory as the host calls see it: src/host_files.rs and, with the same text,
-- src/host_sockets.rs. A memory is the list of its bytes. `usize` has 64 bits.
pub mod Utf8
pub mod Bounds
pub mod Frame
pub mod Words
pub mod Strings
use wasmtime_mysql.Prelude.{
  ℕ, zero, suc, ◌+◌, ◌-◌, ◌*◌, ◌/◌, ◌%◌, ◌^◌, min, Bool, List, [], ◌∷◌, ◌++◌,
}
use wasmtime_mysql.Prelude.{leb, ltb, ◌==◌, if◌then◌else◌, length, take, drop, Option, none, some}
use wasmtime_mysql.Prelude.{ℤ, pos, negsuc, i32_max, Result, ok, err, ◌>>=◌, ok_or}
use wasmtime_mysql.Errno.{efault, einval, enametoolong}
use Utf8.{from_utf8}

abbrev pub Bytes : Type 0
Bytes = List ℕ

-- What `caller.get_export("memory")` gives: nothing, a memory of this instance, a memory that all
-- threads share, or an export of another kind.
pub data Export : Type 0 where
  missing : Export
  memory : Bytes → Export
  shared_memory : Bytes → Export
  other : Export

abbrev pub usize_max : ℕ
usize_max = 2 ^ 64 - 1

abbrev pub max_io_len : ℕ
max_io_len = 16 * 1024 * 1024

abbrev pub max_path_len : ℕ
max_path_len = 16 * 1024

-- `usize::try_from(value).map_err(|_| error)`
abbrev pub try_usize : ℤ → ℤ → Result ℕ
try_usize (pos n) error = ok n
try_usize (negsuc n) error = err error

-- `i32::try_from(value).map_err(|_| error)`
abbrev pub try_i32 : ℕ → ℤ → Result ℤ
try_i32 n error = if leb n i32_max then ok (pos n) else err error

unfoldable pub checked_len : ℤ → Result ℕ
checked_len len = do len ← try_usize len einval; if leb len max_io_len then ok len else err einval

abbrev pub checked_add : ℕ → ℕ → Option ℕ
checked_add a b = if leb (a + b) usize_max then some (a + b) else none

-- `Range<usize>`
pub record Range : Type 0 where
  pub start : ℕ
  pub end : ℕ

unfoldable pub checked_range : ℤ → ℤ → ℕ → Result Range
unfolding checked_len
checked_range ptr len memory_len = do
  ptr ← try_usize ptr efault
  len ← checked_len len
  end ← ok_or (checked_add ptr len) efault
  if ltb memory_len end then err efault else ok (record { start = ptr; end = end })

-- `data[range]` and `data[range].copy_from_slice(bytes)`
abbrev pub slice : Range → Bytes → Bytes
slice r d = take (r.end - r.start) (drop r.start d)

abbrev pub splice : Range → Bytes → Bytes → Bytes
splice r bytes d = take r.start d ++ (bytes ++ drop r.end d)

-- The loop over the cells of a shared memory.
abbrev pub read_cells : ℕ → ℕ → Bytes → Bytes
read_cells zero zero d = []
read_cells zero (suc n) [] = []
read_cells zero (suc n) (b ∷ d) = b ∷ read_cells zero n d
read_cells (suc i) n [] = []
read_cells (suc i) n (b ∷ d) = read_cells i n d

abbrev pub write_cells : ℕ → Bytes → Bytes → Bytes
write_cells zero bytes [] = []
write_cells zero [] (c ∷ d) = c ∷ d
write_cells zero (b ∷ bytes) (c ∷ d) = b ∷ write_cells zero bytes d
write_cells (suc i) bytes [] = []
write_cells (suc i) bytes (c ∷ d) = c ∷ write_cells i bytes d

unfoldable pub read_guest : Export → ℤ → ℤ → Result Bytes
unfolding checked_range
read_guest missing ptr len = err efault
read_guest (memory d) ptr len = do range ← checked_range ptr len (length d); ok (slice range d)
read_guest (shared_memory d) ptr len = do
  range ← checked_range ptr len (length d)
  ok (read_cells range.start (range.end - range.start) d)
read_guest other ptr len = err efault

unfoldable pub write_guest : Export → ℤ → Bytes → Result Export
unfolding checked_range
write_guest missing ptr bytes = err efault
write_guest (memory d) ptr bytes = do
  len ← try_i32 (length bytes) einval
  range ← checked_range ptr len (length d)
  ok (memory (splice range bytes d))
write_guest (shared_memory d) ptr bytes = do
  len ← try_i32 (length bytes) einval
  range ← checked_range ptr len (length d)
  ok (shared_memory (write_cells range.start bytes d))
write_guest other ptr bytes = err efault

-- `u32::from_le_bytes` and `to_le_bytes`; the conversion of a vector of another length panics, and
-- `read_guest` gives four bytes.
abbrev pub from_le_bytes : Bytes → ℕ
from_le_bytes [] = 0
from_le_bytes (b ∷ bs) = b + 256 * from_le_bytes bs

abbrev pub to_le_bytes : ℕ → ℕ → Bytes
to_le_bytes zero n = []
to_le_bytes (suc k) n = (n % 256) ∷ to_le_bytes k (n / 256)

unfoldable pub read_u32 : Export → ℤ → Result ℕ
unfolding read_guest
read_u32 e ptr = do bytes ← read_guest e ptr (pos 4); ok (from_le_bytes bytes)

unfoldable pub write_u32 : Export → ℤ → ℕ → Result Export
unfolding write_guest
write_u32 e ptr value = write_guest e ptr (to_le_bytes 4 value)

-- `data[start..max_end].iter().position(|byte| *byte == 0)`
abbrev pub position_of_zero : Bytes → Option ℕ
position_of_zero [] = none
position_of_zero (b ∷ d) =
    if b == 0 then some 0 else (elim (position_of_zero d) [ none ↦ none | some i ↦ some (suc i) ])

-- The loop over the cells up to the first zero, with the bytes met so far.
pub collect_cells : Bytes → Bytes → Result Bytes
unfolding from_utf8
collect_cells [] bytes = err enametoolong
collect_cells (b ∷ d) bytes =
    let rest = collect_cells d (bytes ++ (b ∷ [])) in
    if b == 0 then ok_or (from_utf8 bytes) einval else rest

abbrev pub saturating_add : ℕ → ℕ → ℕ
saturating_add a b = min (a + b) usize_max

-- `data[start..max_end]`
abbrev pub window : ℕ → Bytes → Bytes
window start d = take (min (saturating_add start max_path_len) (length d) - start) (drop start d)

unfoldable pub read_cstr : Export → ℤ → Result Bytes
unfolding from_utf8 collect_cells
read_cstr missing ptr = try_usize ptr efault >>= λ _. err efault
read_cstr (memory d) ptr = do
  start ← try_usize ptr efault
  if leb (length d) start then err efault else (do
    end ← ok_or (position_of_zero (window start d)) enametoolong
    ok_or (from_utf8 (take end (drop start d))) einval)
read_cstr (shared_memory d) ptr = do
  start ← try_usize ptr efault
  if leb (length d) start then err efault else collect_cells (window start d) []
read_cstr other ptr = try_usize ptr efault >>= λ _. err efault
