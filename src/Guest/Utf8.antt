-- ===== src/Guest/Utf8.antt =====
-- `std::str::from_utf8`: a byte string is text if it is well-formed UTF-8. Text is kept as its bytes.
use wasmtime_mysql.Prelude.{
  ℕ, Bool, true, false, ◌&&◌, List, [], ◌∷◌, Option, none, some, ◌≡◌, refl, ap, Bool-cases, inl,
  inr,
}
use wasmtime_mysql.Prelude.{leb, ltb, if◌then◌else◌}

abbrev within : ℕ → ℕ → ℕ → Bool
within lo hi b = leb lo b && leb b hi

-- How many continuation bytes a lead byte asks for, and the range of the first of them.
pub data Lead : Type 0 where
  ascii invalid : Lead
  more : ℕ → ℕ → ℕ → Lead

lead : ℕ → Lead
lead b =
    if ltb b 0x80
    then ascii
    else if within 0xc2 0xdf b
    then more 1 0x80 0xbf
    else if within 0xe0 0xe0 b
    then more 2 0xa0 0xbf
    else if within 0xed 0xed b
    then more 2 0x80 0x9f
    else if within 0xe1 0xef b
    then more 2 0x80 0xbf
    else if within 0xf0 0xf0 b
    then more 3 0x90 0xbf
    else if within 0xf4 0xf4 b
    then more 3 0x80 0x8f
    else if within 0xf1 0xf3 b
    then more 3 0x80 0xbf
    else invalid

-- `pending` continuation bytes are due, the next of them between `lo` and `hi`.
is_utf8_from : ℕ → ℕ → ℕ → List ℕ → Bool
unfolding lead
is_utf8_from ℕ.zero lo hi [] = true
is_utf8_from (ℕ.suc n) lo hi [] = false
is_utf8_from ℕ.zero lo hi (b ∷ bs) = elim (lead b) [
  | ascii ↦ is_utf8_from ℕ.zero lo hi bs
  | invalid ↦ false
  | more n l h ↦ is_utf8_from n l h bs
]
is_utf8_from (ℕ.suc n) lo hi (b ∷ bs) = within lo hi b && is_utf8_from n 0x80 0xbf bs

unfoldable pub from_utf8 : List ℕ → Option (List ℕ)
unfolding is_utf8_from
from_utf8 bytes = if is_utf8_from 0 0 0 bytes then some bytes else none

ascii_e_acute_euro :
    from_utf8 (0x68 ∷ 0xc3 ∷ 0xa9 ∷ 0xe2 ∷ 0x82 ∷ 0xac ∷ [])
    ≡ some (0x68 ∷ 0xc3 ∷ 0xa9 ∷ 0xe2 ∷ 0x82 ∷ 0xac ∷ [])
unfolding from_utf8
ascii_e_acute_euro = refl

-- A text is its own bytes.
pub from_utf8-eq_some : (bytes s : List ℕ) → from_utf8 bytes ≡ some s → bytes ≡ s
unfolding from_utf8
from_utf8-eq_some bytes s h = elim (Bool-cases (is_utf8_from 0 0 0 bytes)) [
  | inl valid ↦ cc (ap (λ (b : Bool). if b then some bytes else none) valid)
  | inr invalid_bytes ↦ cc (ap (λ (b : Bool). if b then some bytes else none) invalid_bytes)
]
