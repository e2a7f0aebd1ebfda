-- ===== src/Locks/Name.antt =====
-- The names of the locks: what the hexadecimal digits say, and where the text ends.
use wasmtime_mysql.Prelude.{
  ℕ, zero, suc, ◌+◌, ◌-◌, ◌*◌, ◌/◌, ◌%◌, ◌^◌, ◌<◌, ◌≡◌, refl, ap, ◌∙◌, arith, List, [], ◌∷◌, ◌++◌,
  ltb, if◌then◌else◌, length, take, drop, length-append, take-append, drop-append, bit_xor,
}
use wasmtime_mysql.Locks.{hash_units, hex_digit, hex, name_prefix, windows_lock_name}

-- The number that hexadecimal digits stand for, behind one that was read already.
unfoldable pub unhex : ℕ → List ℕ → ℕ
unhex v [] = v
unhex v (c ∷ cs) = unhex (v * 16 + (if ltb c 58 then c - 48 else c - 87)) cs

unhex-append : (v : ℕ) (xs ys : List ℕ) → unhex v (xs ++ ys) ≡ unhex (unhex v xs) ys
unfolding unhex
unhex-append v [] ys = refl
unhex-append v (c ∷ xs) ys = unhex-append (v * 16 + (if ltb c 58 then c - 48 else c - 87)) xs ys

unhex-hex : (n v : ℕ) → v < 16 ^ n → unhex 0 (hex n v) ≡ v
unfolding unhex hex
unhex-hex zero v h = omega arith
unhex-hex (suc n) v h =
    unhex-append 0 (hex n (v / 16)) (hex_digit (v % 16) ∷ [])
    ∙ ap (λ u. unhex u (hex_digit (v % 16) ∷ [])) (unhex-hex n (v / 16) (omega arith))
    ∙ ground arith

length-hex : (n v : ℕ) → length (hex n v) ≡ n
unfolding hex
length-hex zero v = refl
length-hex (suc n) v =
    length-append (hex n (v / 16)) (hex_digit (v % 16) ∷ []) ∙ omega (arith, length-hex n (v / 16))

hash_units-bound : (hash : ℕ) (units : List ℕ) → hash < 2 ^ 64 → hash_units hash units < 2 ^ 64
unfolding hash_units
hash_units-bound hash [] h = h
hash_units-bound hash (u ∷ units) h =
    hash_units-bound (bit_xor hash u * 0x0000_0100_0000_01b3 % 2 ^ 64) units (omega arith)

-- A lock's name is the prefix, sixteen hexadecimal digits and the terminating 0, and the digits tell the
-- whole 64-bit hash of the path.
pub windows_lock_name_lem :
    (units : List ℕ)
    → (length (windows_lock_name units) ≡ 43)
      × (take 26 (windows_lock_name units) ≡ name_prefix)
      × (drop 42 (windows_lock_name units) ≡ 0 ∷ [])
      × (unhex 0 (take 16 (drop 26 (windows_lock_name units)))
          ≡ hash_units 0xcbf2_9ce4_8422_2325 units)
unfolding windows_lock_name
windows_lock_name_lem units =
    let hash = hash_units 0xcbf2_9ce4_8422_2325 units in
    let size = length-hex 16 hash in
    let small = hash_units-bound 0xcbf2_9ce4_8422_2325 units (omega arith) in
    (
      omega (arith, length-append (hex 16 hash) (0 ∷ []), size),
      refl,
      drop-append (hex 16 hash) (0 ∷ []) 16 (omega arith),
      ap (unhex 0) (take-append (hex 16 hash) (0 ∷ []) 16 (omega arith))
          ∙ unhex-hex 16 hash (omega arith),
    )
