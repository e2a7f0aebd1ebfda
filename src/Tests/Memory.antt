-- ===== src/Tests/Memory.antt =====
-- Runs on a small memory, and on the error numbers.
use wasmtime_mysql.Prelude.{ℕ, ◌≡◌, ◌⊎◌, refl, [], ◌∷◌, arith, true, ℤ, pos, ok, err}
use wasmtime_mysql.Errno.{efault, einval}
use wasmtime_mysql.Errno.Table.{errno_table, is_consistent}
use wasmtime_mysql.Guest.{Export, memory, Range, checked_range, write_guest, write_u32, read_cstr}
use wasmtime_mysql.Guest.Bounds.{checked_range_lem, Accepts, RangeOf}
use wasmtime_mysql.Guest.Frame.{contents, share, Written, write_guest-Written}
use wasmtime_mysql.Guest.Strings.{TextAt, read_cstr-share, read_cstr-TextAt}
use wasmtime_mysql.Tests.Machine.{linux}

abbrev before : Export
before = memory (1 ∷ 2 ∷ 3 ∷ 4 ∷ 5 ∷ 6 ∷ [])

abbrev after : Export
after = memory (1 ∷ 8 ∷ 9 ∷ 4 ∷ 5 ∷ 6 ∷ [])

wrote : write_guest before (pos 1) (8 ∷ 9 ∷ []) ≡ ok after
unfolding write_guest checked_range
wrote = refl

refused : write_guest before (pos 5) (8 ∷ 9 ∷ []) ≡ err efault
unfolding write_guest checked_range
refused = refl

write_guest-Written_example :
    (p : ℕ) × (pos 1 ≡ pos p) × Written p (8 ∷ 9 ∷ []) (contents before) (contents after)
write_guest-Written_example = write_guest-Written before after (pos 1) (8 ∷ 9 ∷ []) wrote

abbrev word_after : Export
word_after = memory (1 ∷ 0x78 ∷ 0x56 ∷ 0x34 ∷ 0x12 ∷ 6 ∷ [])

word_wrote : write_u32 before (pos 1) 0x12345678 ≡ ok word_after
unfolding write_u32 write_guest checked_range
word_wrote = refl

checked_range_lem_example :
    ((r : Range)
      → checked_range (pos 2) (pos 3) 6 ≡ ok r
      → Accepts (pos 2) (pos 3) 6 × RangeOf (pos 2) (pos 3) r)
    × (Accepts (pos 2) (pos 3) 6 → (r : Range) × (checked_range (pos 2) (pos 3) 6 ≡ ok r))
    × ((e : ℤ) → checked_range (pos 2) (pos 3) 6 ≡ err e → (e ≡ efault) ⊎ (e ≡ einval))
checked_range_lem_example = checked_range_lem (pos 2) (pos 3) 6 (omega arith)

abbrev text : Export
text = memory (1 ∷ 0x61 ∷ 0x62 ∷ 0 ∷ 5 ∷ [])

read_cstr-share_example : read_cstr (share text) (pos 1) ≡ read_cstr text (pos 1)
read_cstr-share_example = read_cstr-share text (pos 1) (omega arith)

read_cstr-TextAt_example :
    (read_cstr text (pos 1) ≡ ok (0x61 ∷ 0x62 ∷ []) → TextAt text (pos 1) (0x61 ∷ 0x62 ∷ []))
    × (TextAt text (pos 1) (0x61 ∷ 0x62 ∷ []) → read_cstr text (pos 1) ≡ ok (0x61 ∷ 0x62 ∷ []))
read_cstr-TextAt_example = read_cstr-TextAt text (pos 1) (0x61 ∷ 0x62 ∷ []) (omega arith)

text_read : read_cstr text (pos 1) ≡ ok (0x61 ∷ 0x62 ∷ [])
unfolding read_cstr
text_read = refl

linux-is_consistent : is_consistent (errno_table linux) ≡ true
unfolding is_consistent
linux-is_consistent = refl
