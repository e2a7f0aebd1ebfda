-- ===== src/Guest/Strings.antt =====
-- The zero-terminated texts that the guest passes by address.
use wasmtime_mysql.Prelude.{
  ℕ, zero, suc, ◌-◌, ◌≤◌, ◌<◌, ◌≡◌, refl, sym, ap, ◌∙◌, [], ◌∷◌, ◌++◌, arith, min,
}
use wasmtime_mysql.Prelude.{
  false, ◌==◌, leb, Option, none, some, length, take, drop, All, length-take, length-drop,
  length-append, take-append,
}
use wasmtime_mysql.Prelude.{
  ℤ, pos, negsuc, Result, ok, err, ◌>>=◌, ok_or, Option-cases, Bool-cases, le→leb, inl, inr,
}
use mathlib.Core.List.{append_assoc, append-nil}
use native.Mathlib.Decide.{dec_lt}
use wasmtime_mysql.Errno.{efault, einval, enametoolong}
use wasmtime_mysql.Guest.{
  Export, missing, memory, shared_memory, other, Bytes, read_cstr, collect_cells, position_of_zero,
  saturating_add, max_path_len, usize_max,
}
use wasmtime_mysql.Guest.Frame.{contents, share}
use wasmtime_mysql.Guest.Utf8.{from_utf8, from_utf8-eq_some}

abbrev NoZero : Bytes → Type 0
NoZero = All (λ b. (b == 0) ≡ false)

position-append : (s rest : Bytes) → NoZero s → position_of_zero (s ++ (0 ∷ rest)) ≡ some (length s)
position-append [] rest z = refl
position-append (b ∷ s) rest (z, zs) = rw (z, position-append s rest zs)

position-split :
    (x : Bytes) (i : ℕ)
    → position_of_zero x ≡ some i
    → (x ≡ take i x ++ (0 ∷ drop (suc i) x)) × NoZero (take i x) × (i < length x)
position-split [] i h = cc
position-split (b ∷ x) zero h = (ground arith, tt, omega arith)
position-split (b ∷ x) (suc i) h = ground (arith, position-split x i)

position-take :
    (k : ℕ) (x : Bytes) (i : ℕ)
    → position_of_zero x ≡ some i
    → i < k
    → position_of_zero (take k x) ≡ some i
position-take zero x i h l = elim l [ ]
position-take (suc k) [] i h l = h
position-take (suc k) (b ∷ x) zero h l = ground arith
position-take (suc k) (b ∷ x) (suc i) h l = ground (arith, position-take k x i)

position-of_take :
    (k : ℕ) (x : Bytes) (i : ℕ)
    → position_of_zero (take k x) ≡ some i
    → (position_of_zero x ≡ some i) × (i < k)
position-of_take zero x i h = cc
position-of_take (suc k) [] i h = cc
position-of_take (suc k) (b ∷ x) zero h = ground arith
position-of_take (suc k) (b ∷ x) (suc i) h = ground (arith, position-of_take k x i)

take-take : (i k : ℕ) (x : Bytes) → i ≤ k → take i (take k x) ≡ take i x
take-take zero k x h = refl
take-take (suc i) zero x h = absurd (omega arith)
take-take (suc i) (suc k) [] h = refl
take-take (suc i) (suc k) (b ∷ x) h = ap (◌∷◌ b) (take-take i k x (omega arith))

append_cons :
    (acc : Bytes) (b : ℕ) (d : Bytes) (i : ℕ)
    → (acc ++ (b ∷ [])) ++ take i d ≡ acc ++ take (suc i) (b ∷ d)
append_cons acc b d i = append_assoc acc (b ∷ []) (take i d)

next_byte :
    (b : ℕ) (d acc : Bytes) (o : Option ℕ)
    → (ok_or o enametoolong >>= λ i. ok_or (from_utf8 ((acc ++ (b ∷ [])) ++ take i d)) einval) ≡ (
        ok_or (elim o [ none ↦ none | some i ↦ some (suc i) ]) enametoolong >>= λ i.
        ok_or (from_utf8 (acc ++ take i (b ∷ d))) einval)
next_byte b d acc none = refl
next_byte b d acc (some i) = rw (append_cons acc b d i)

collect_cells-position :
    (d acc : Bytes)
    → collect_cells d acc ≡ (
        ok_or (position_of_zero d) enametoolong >>= λ i. ok_or (from_utf8 (acc ++ take i d)) einval)
unfolding collect_cells
collect_cells-position [] acc = refl
collect_cells-position (b ∷ d) acc = elim (Bool-cases (b == 0)) [
  | inl zero_byte ↦ rw (zero_byte, append-nil acc)
  | inr other_byte ↦
      rw other_byte
        (collect_cells-position d (acc ++ (b ∷ [])) ∙ next_byte b d acc (position_of_zero d))
]

-- Where the bytes from an address on begin with a text of at most MAX_PATH_LEN - 1 bytes, a zero
-- byte and any rest.
abbrev pub TextAt : Export → ℤ → Bytes → Type 0
TextAt e (negsuc p) s = ⊥
TextAt e (pos p) s =
    (rest : Bytes) × (drop p (contents e) ≡ s ++ (0 ∷ rest))
    × NoZero s
    × (length s < max_path_len)
    × (from_utf8 s ≡ some s)

take-min : (m : ℕ) (x : Bytes) → take (min m (length x)) x ≡ take m x
take-min zero x = let e : min 0 (length x) ≡ 0 = omega arith in rw e
take-min (suc m) [] = let e : min (suc m) 0 ≡ 0 = omega arith in rw e
take-min (suc m) (b ∷ x) =
    let e : min (suc m) (length (b ∷ x)) ≡ suc (min m (length x)) = omega arith in
    rw e (ap (◌∷◌ b) (take-min m x))

window_lem :
    (m p : ℕ) (d : Bytes)
    → length d ≤ usize_max
    → p < length d
    → take (min (saturating_add p m) (length d) - p) (drop p d) ≡ take m (drop p d)
window_lem m p d f h =
    let e : min (saturating_add p m) (length d) - p ≡ min m (length (drop p d)) =
      omega (arith, length-drop p d) in
    rw e (take-min m (drop p d))

-- What `read_cstr` does behind its address checks, for a limit `m`.
find_text : ℕ → Bytes → Result Bytes
find_text m x =
    ok_or (position_of_zero (take m x)) enametoolong >>= λ i. ok_or (from_utf8 (take i x)) einval

collect_cells-find_text : (m : ℕ) (x : Bytes) → collect_cells (take m x) [] ≡ find_text m x
unfolding find_text
collect_cells-find_text m x =
    collect_cells-position (take m x) [] ∙ (elim (Option-cases (position_of_zero (take m x))) [
      | inl e ↦ rw e
      | inr (i, e) ↦ let l = position-of_take m x i e in rw (e, take-take i m x (omega arith))
    ])

leb-false : (n p : ℕ) → p < n → leb n p ≡ false
leb-false n p h = ground arith

read_cstr-find_text :
    (e : Export) (p : ℕ)
    → length (contents e) ≤ usize_max
    → p < length (contents e)
    → read_cstr e (pos p) ≡ find_text max_path_len (drop p (contents e))
unfolding read_cstr
read_cstr-find_text missing p f h = elim h [ ]
read_cstr-find_text (memory d) p f h =
    rw (leb-false (length d) p h, window_lem max_path_len p d f h) (unfold find_text in refl)
read_cstr-find_text (shared_memory d) p f h =
    rw (leb-false (length d) p h, window_lem max_path_len p d f h)
      (collect_cells-find_text max_path_len (drop p d))
read_cstr-find_text other p f h = elim h [ ]

read_cstr-outside :
    (e : Export) (p : ℕ) → length (contents e) ≤ p → read_cstr e (pos p) ≡ err efault
unfolding read_cstr
read_cstr-outside missing p h = refl
read_cstr-outside (memory d) p h = rw (le→leb (length d) p h)
read_cstr-outside (shared_memory d) p h = rw (le→leb (length d) p h)
read_cstr-outside other p h = refl

-- The loop over shared cells reads the text that the search in a plain memory finds.
pub read_cstr-share :
    (e : Export) (ptr : ℤ)
    → length (contents e) ≤ usize_max
    → read_cstr (share e) ptr ≡ read_cstr e ptr
read_cstr-share missing ptr f = refl
read_cstr-share (memory d) (pos p) f = elim (dec_lt p (length d)) [
  | yes h ↦ read_cstr-find_text (shared_memory d) p f h ∙ sym (read_cstr-find_text (memory d) p f h)
  | no h ↦
      read_cstr-outside (shared_memory d) p (omega arith)
      ∙ sym (read_cstr-outside (memory d) p (omega arith))
]
read_cstr-share (memory d) (negsuc p) f = unfold read_cstr in refl
read_cstr-share (shared_memory d) ptr f = refl
read_cstr-share other ptr f = refl

ok_or-eq_ok : (o : Option Bytes) {s : Bytes} (n : ℤ) → ok_or o n ≡ ok s → o ≡ some s
ok_or-eq_ok none n h = cc
ok_or-eq_ok (some t) n h = cc

-- The text that `x` begins with, in fewer than `m` bytes, before a zero byte.
abbrev Cut : ℕ → Bytes → Bytes → Type 0
Cut m x s =
    (rest : Bytes) × (x ≡ s ++ (0 ∷ rest)) × NoZero s × (length s < m) × (from_utf8 s ≡ some s)

found-Cut :
    (m i : ℕ) (x s t : Bytes)
    → position_of_zero x ≡ some i
    → i < m
    → t ≡ take i x
    → from_utf8 t ≡ some s
    → Cut m x s
found-Cut m i x s t e l cut text =
    let same = sym (from_utf8-eq_some t s text) ∙ cut in
    let (split, nz, inside) = position-split x i e in
    rw same (drop (suc i) x, split, nz, omega (arith, length-take i x), cc)

find_text-Cut : (m : ℕ) (x s : Bytes) → find_text m x ≡ ok s → Cut m x s
unfolding find_text
find_text-Cut m x s h = elim (Option-cases (position_of_zero (take m x))) [
  | inl e ↦ absurd (cc (rw e at h))
  | inr (i, e) ↦
      let (e', l) = position-of_take m x i e in
      found-Cut m i x s (take i x) e' l refl (ok_or-eq_ok _ _ (rw e at h))
]

Cut-find_text : (m : ℕ) (x s : Bytes) → Cut m x s → find_text m x ≡ ok s
unfolding find_text
Cut-find_text m x s (rest, split, nz, short, text) =
    let e = position-take m x (length s) (rw split (position-append s rest nz)) short in
    rw (e, split, take-append s (0 ∷ rest) (length s) refl, text)

read_cstr-negative : (e : Export) (p : ℕ) → read_cstr e (negsuc p) ≡ err efault
unfolding read_cstr
read_cstr-negative missing p = refl
read_cstr-negative (memory d) p = refl
read_cstr-negative (shared_memory d) p = refl
read_cstr-negative other p = refl

-- `read_cstr` returns a text exactly if that text stands at the address: at most MAX_PATH_LEN - 1
-- bytes of well-formed UTF-8 without a zero byte, and a zero byte behind them.
pub read_cstr-TextAt :
    (e : Export) (ptr : ℤ) (s : Bytes)
    → length (contents e) ≤ usize_max
    → (read_cstr e ptr ≡ ok s → TextAt e ptr s) × (TextAt e ptr s → read_cstr e ptr ≡ ok s)
read_cstr-TextAt e (negsuc p) s f = (λ h. absurd (cc (read_cstr-negative e p)), λ t. absurd t)
read_cstr-TextAt e (pos p) s f = elim (dec_lt p (length (contents e))) [
  | yes h ↦ (
    λ r. find_text-Cut max_path_len _ s (sym (read_cstr-find_text e p f h) ∙ r),
    λ t. read_cstr-find_text e p f h ∙ Cut-find_text max_path_len _ s t,
  )
  | no h ↦ (
    λ r. cc (read_cstr-outside e p (omega arith)),
    λ t.
        absurd
          (omega (arith, ap length t.1, length-append s (0 ∷ t.0), length-drop p (contents e))),
  )
]
