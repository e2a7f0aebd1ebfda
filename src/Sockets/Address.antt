-- ===== src/Sockets/Address.antt =====
-- The conversion of socket addresses: the family stands in their first two bytes.
use wasmtime_mysql.Prelude.{
  ℕ, ◌≤◌, ◌<◌, ◌^◌, ◌≡◌, refl, [], ◌∷◌, arith, ℤ, pos, negsuc, length, take, drop, All, ◌%◌, ◌/◌,
  ◌*◌, ◌+◌,
}
use wasmtime_mysql.Guest.{Bytes, from_le_bytes, to_le_bytes}
use wasmtime_mysql.Sockets.{write_sockaddr_family}

-- An address keeps its length.
pub write_sockaddr_family-length :
    (addr : Bytes) (family : ℤ) → length (write_sockaddr_family addr family) ≡ length addr
unfolding write_sockaddr_family
write_sockaddr_family-length addr (negsuc n) = refl
write_sockaddr_family-length [] (pos n) = ground arith
write_sockaddr_family-length (a ∷ []) (pos n) = ground arith
write_sockaddr_family-length (a ∷ b ∷ addr) (pos n) = ground arith

-- An address of two bytes or more keeps its length and what stands behind the family, and its family
-- becomes the given one, if that has 16 bits.
pub write_sockaddr_family_lem :
    (addr : Bytes) (family : ℕ)
    → 2 ≤ length addr
    → family < 2 ^ 16
    → let out = write_sockaddr_family addr (pos family) in
      (length out ≡ length addr)
      × (from_le_bytes (take 2 out) ≡ family)
      × (drop 2 out ≡ drop 2 addr)
unfolding write_sockaddr_family
write_sockaddr_family_lem [] family h b = absurd (omega arith)
write_sockaddr_family_lem (x ∷ []) family h b = absurd (omega arith)
write_sockaddr_family_lem (x ∷ y ∷ addr) family h b =
    (write_sockaddr_family-length (x ∷ y ∷ addr) (pos family), ground arith, ground arith)

two_bytes : (x y : ℕ) → x < 256 → y < 256 → to_le_bytes 2 (from_le_bytes (x ∷ y ∷ [])) ≡ x ∷ y ∷ []
two_bytes x y h k =
    let a : (x + 256 * (y + 256 * 0)) % 256 ≡ x = omega arith in
    let b : (x + 256 * (y + 256 * 0)) / 256 % 256 ≡ y = omega arith in rw (a, b)

-- An address of the guest's that was converted for the host and back is the address that it was,
-- whichever family the host has for it.
pub write_sockaddr_family-write_sockaddr_family :
    (addr : Bytes) (guest_domain : ℕ) (host_domain : ℤ)
    → All (λ b. b < 256) addr
    → 2 ≤ length addr
    → from_le_bytes (take 2 addr) ≡ guest_domain
    → write_sockaddr_family (write_sockaddr_family addr host_domain) (pos guest_domain) ≡ addr
unfolding write_sockaddr_family
write_sockaddr_family-write_sockaddr_family [] g host all h e = absurd (omega arith)
write_sockaddr_family-write_sockaddr_family (x ∷ []) g host all h e = absurd (omega arith)
write_sockaddr_family-write_sockaddr_family (x ∷ y ∷ addr) g (negsuc n) (p, (q, r)) h e =
    ground (arith, two_bytes x y p q)
write_sockaddr_family-write_sockaddr_family (x ∷ y ∷ addr) g (pos n) (p, (q, r)) h e =
    ground (arith, two_bytes x y p q)
