-- ===== src/Guest/Frame.antt =====
-- Reads and writes of guest memory against the memory as a list of bytes.
use wasmtime_mysql.Prelude.{
  ℕ, zero, suc, ◌+◌, ◌-◌, ◌≤◌, ◌<◌, ◌≡◌, refl, ap, ◌∙◌, [], ◌∷◌, ◌++◌, arith,
}
use wasmtime_mysql.Prelude.{length, take, drop, get_elem?, length-append, length-take, length-drop}
use wasmtime_mysql.Prelude.{
  take-append, drop-append, get_elem?-append_left, get_elem?-append_right, get_elem?-take,
  get_elem?-drop,
}
use wasmtime_mysql.Prelude.{ℤ, pos, negsuc, Result, ok, err}
use wasmtime_mysql.Guest.{
  Export, missing, memory, shared_memory, other, Bytes, read_cells, write_cells, read_guest,
  write_guest, max_io_len, usize_max,
}

read_cells-slice : (i n : ℕ) (d : Bytes) → read_cells i n d ≡ take n (drop i d)
read_cells-slice zero zero d = refl
read_cells-slice zero (suc n) [] = refl
read_cells-slice zero (suc n) (b ∷ d) = ap (◌∷◌ b) (read_cells-slice zero n d)
read_cells-slice (suc i) zero [] = refl
read_cells-slice (suc i) (suc n) [] = refl
read_cells-slice (suc i) n (b ∷ d) = read_cells-slice i n d

write_cells-splice :
    (i : ℕ) (bytes d : Bytes) (k : ℕ)
    → k ≡ i + length bytes
    → k ≤ length d
    → write_cells i bytes d ≡ take i d ++ (bytes ++ drop k d)
write_cells-splice zero [] [] zero e h = refl
write_cells-splice zero [] [] (suc k) e h = absurd (omega arith)
write_cells-splice zero [] (c ∷ d) zero e h = refl
write_cells-splice zero [] (c ∷ d) (suc k) e h = absurd (omega arith)
write_cells-splice zero (b ∷ bytes) [] k e h = absurd (omega arith)
write_cells-splice zero (b ∷ bytes) (c ∷ d) zero e h = absurd (omega arith)
write_cells-splice zero (b ∷ bytes) (c ∷ d) (suc k) e h =
    ap (◌∷◌ b) (write_cells-splice zero bytes d k (omega arith) (omega arith))
write_cells-splice (suc i) bytes [] k e h = absurd (omega arith)
write_cells-splice (suc i) bytes (c ∷ d) zero e h = absurd (omega arith)
write_cells-splice (suc i) bytes (c ∷ d) (suc k) e h =
    ap (◌∷◌ c) (write_cells-splice i bytes d k (omega arith) (omega arith))

-- The bytes that the host calls see.
abbrev pub contents : Export → Bytes
contents missing = []
contents (memory d) = d
contents (shared_memory d) = d
contents other = []

-- The same memory, shared.
abbrev pub share : Export → Export
share missing = missing
share (memory d) = shared_memory d
share (shared_memory d) = shared_memory d
share other = other

abbrev pub share_result : Result Export → Result Export
share_result (ok e) = ok (share e)
share_result (err n) = err n

-- The loop over shared cells reads what the slice reads.
pub read_guest-share :
    (e : Export) (ptr len : ℤ) → read_guest (share e) ptr len ≡ read_guest e ptr len
unfolding read_guest
read_guest-share missing ptr len = refl
read_guest-share (memory d) ptr len = simp read_cells-slice
read_guest-share (shared_memory d) ptr len = refl
read_guest-share other ptr len = refl

-- Where a write went, and what it left.
abbrev pub Spliced : Export → ℤ → Bytes → Export → Type 0
Spliced e (negsuc n) bytes e' = ⊥
Spliced e (pos p) bytes e' =
    (p + length bytes ≤ length (contents e))
    × (length bytes ≤ max_io_len)
    × (contents e' ≡ take p (contents e) ++ (bytes ++ drop (p + length bytes) (contents e)))

abbrev pub IsMapped : Export → Type 0
IsMapped missing = ⊥
IsMapped (memory d) = Unit {0}
IsMapped (shared_memory d) = Unit {0}
IsMapped other = ⊥

write_guest-Spliced :
    (e e' : Export) (ptr : ℤ) (bytes : Bytes)
    → write_guest e ptr bytes ≡ ok e'
    → Spliced e ptr bytes e'
unfolding write_guest
write_guest-Spliced missing e' (pos p) bytes h = cc
write_guest-Spliced missing e' (negsuc p) bytes h = cc
write_guest-Spliced (memory d) e' (pos p) bytes h = (ground arith, ground arith, ground arith)
write_guest-Spliced (memory d) e' (negsuc p) bytes h = ground arith
write_guest-Spliced (shared_memory d) e' (pos p) bytes h = (
  ground arith,
  ground arith,
  ground (arith, write_cells-splice p bytes d (p + length bytes) refl),
)
write_guest-Spliced (shared_memory d) e' (negsuc p) bytes h = ground arith
write_guest-Spliced other e' (pos p) bytes h = cc
write_guest-Spliced other e' (negsuc p) bytes h = cc

-- Bytes `bytes` stand in `d'` from `p` on, and everything else is as in `d`.
pub record Written (p : ℕ) (bytes d d' : Bytes) : Type 0 where
  pub inside : p + length bytes ≤ length d
  pub same_length : length d' ≡ length d
  pub new_bytes : (i : ℕ) → i < length bytes → get_elem? d' (p + i) ≡ get_elem? bytes i
  pub below : (i : ℕ) → i < p → get_elem? d' i ≡ get_elem? d i
  pub above : (i : ℕ) → p + length bytes ≤ i → get_elem? d' i ≡ get_elem? d i

module _ (p : ℕ) (bytes d : Bytes) (h : p + length bytes ≤ length d) where
  abbrev patched : Bytes
  patched = take p d ++ (bytes ++ drop (p + length bytes) d)

  head_length : length (take p d) ≡ p
  head_length = omega (arith, length-take p d)

  patched-length : length patched ≡ length d
  patched-length = omega (
    arith,
    length-append (take p d) (bytes ++ drop (p + length bytes) d),
    length-append bytes (drop (p + length bytes) d),
    length-drop (p + length bytes) d,
    head_length,
  )

  patched_new : (i : ℕ) → i < length bytes → get_elem? patched (p + i) ≡ get_elem? bytes i
  patched_new i k =
      get_elem?-append_right (take p d) (bytes ++ drop (p + length bytes) d) (p + i)
        (omega (arith, head_length))
      ∙ (ap (get_elem? (bytes ++ drop (p + length bytes) d)) (omega (arith, head_length))
          ∙ get_elem?-append_left bytes (drop (p + length bytes) d) i k)

  patched_below : (i : ℕ) → i < p → get_elem? patched i ≡ get_elem? d i
  patched_below i k =
      get_elem?-append_left (take p d) (bytes ++ drop (p + length bytes) d) i
        (omega (arith, head_length))
      ∙ get_elem?-take p d i k

  patched_above : (i : ℕ) → p + length bytes ≤ i → get_elem? patched i ≡ get_elem? d i
  patched_above i k =
      get_elem?-append_right (take p d) (bytes ++ drop (p + length bytes) d) i
        (omega (arith, head_length))
      ∙ (get_elem?-append_right bytes (drop (p + length bytes) d) (i - length (take p d))
            (omega (arith, head_length))
          ∙ (get_elem?-drop (p + length bytes) d (i - length (take p d) - length bytes)
              ∙ ap (get_elem? d) (omega (arith, head_length))))

  patched-Written : Written p bytes d patched
  patched-Written = record {
    inside = h;
    same_length = patched-length;
    new_bytes = patched_new;
    below = patched_below;
    above = patched_above;
  }

-- A write that succeeds changes exactly the bytes that it was given, at the address that it was
-- given, and neither the length nor any other byte of the memory.
pub write_guest-Written :
    (e e' : Export) (ptr : ℤ) (bytes : Bytes)
    → write_guest e ptr bytes ≡ ok e'
    → (p : ℕ) × (ptr ≡ pos p) × Written p bytes (contents e) (contents e')
write_guest-Written e e' (pos p) bytes h =
    let s = write_guest-Spliced e e' (pos p) bytes h in
    (p, refl, rw s.2 (patched-Written p bytes (contents e) s.0))
write_guest-Written e e' (negsuc p) bytes h = absurd (write_guest-Spliced e e' (negsuc p) bytes h)

write_guest-share_lem :
    (e : Export) (ptr : ℤ) (bytes : Bytes)
    → write_guest (share e) ptr bytes ≡ share_result (write_guest e ptr bytes)
unfolding write_guest
write_guest-share_lem missing ptr bytes = refl
write_guest-share_lem (memory d) (pos p) bytes =
    ground (arith, write_cells-splice p bytes d (p + length bytes) refl)
write_guest-share_lem (memory d) (negsuc p) bytes = ground arith
write_guest-share_lem (shared_memory d) (pos p) bytes = ground arith
write_guest-share_lem (shared_memory d) (negsuc p) bytes = ground arith
write_guest-share_lem other ptr bytes = refl

read_guest-slice :
    (e : Export) (p n : ℕ)
    → IsMapped e
    → length (contents e) ≤ usize_max
    → n ≤ max_io_len
    → p + n ≤ length (contents e)
    → read_guest e (pos p) (pos n) ≡ ok (take n (drop p (contents e)))
unfolding read_guest
read_guest-slice missing p n m f a b = absurd m
read_guest-slice (memory d) p n m f a b = ground arith
read_guest-slice (shared_memory d) p n m f a b = ground (arith, read_cells-slice p (p + n - p) d)
read_guest-slice other p n m f a b = absurd m

pub IsMapped-write :
    (e e' : Export) (ptr : ℤ) (bytes : Bytes) → write_guest e ptr bytes ≡ ok e' → IsMapped e'
unfolding write_guest
IsMapped-write missing e' ptr bytes h = cc
IsMapped-write (memory d) e' (pos p) bytes h = ground arith
IsMapped-write (memory d) e' (negsuc p) bytes h = ground arith
IsMapped-write (shared_memory d) e' (pos p) bytes h = ground arith
IsMapped-write (shared_memory d) e' (negsuc p) bytes h = ground arith
IsMapped-write other e' ptr bytes h = cc

take-spliced :
    (p : ℕ) (bytes d : Bytes)
    → p + length bytes ≤ length d
    → take (length bytes) (drop p (take p d ++ (bytes ++ drop (p + length bytes) d))) ≡ bytes
take-spliced p bytes d h =
    ap (take (length bytes)) (drop-append (take p d) _ p (omega (arith, length-take p d)))
    ∙ take-append bytes (drop (p + length bytes) d) (length bytes) refl

-- What was written is read back, from a memory of at most `usize::MAX` bytes.
pub read_guest-write_guest :
    (e e' : Export) (ptr : ℤ) (bytes : Bytes)
    → length (contents e) ≤ usize_max
    → write_guest e ptr bytes ≡ ok e'
    → read_guest e' ptr (pos (length bytes)) ≡ ok bytes
read_guest-write_guest e e' (pos p) bytes f h =
    let s = write_guest-Spliced e e' (pos p) bytes h in
    let w : length (contents e') ≡ length (contents e) =
      rw s.2 (patched-length p bytes (contents e) s.0) in
    read_guest-slice e' p (length bytes) (IsMapped-write e e' (pos p) bytes h) (omega arith) s.1
      (omega arith)
    ∙ ap ok (rw s.2 (take-spliced p bytes (contents e) s.0))
read_guest-write_guest e e' (negsuc p) bytes f h =
    absurd (write_guest-Spliced e e' (negsuc p) bytes h)
