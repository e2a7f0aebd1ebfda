-- ===== src/Paths/Covers.antt =====
-- When a preopen's guest path covers a normalized path, and what is left of the path behind it.
use wasmtime_mysql.Prelude.{
  ℕ, ◌≡◌, refl, subst, ap, ◌∙◌, ◌≢◌, true, false, ◌&&◌, not, [], ◌∷◌, ◌++◌, arith, Bool-cases, inl,
  inr, none, some, length, get_elem?, ◌==◌,
}
use wasmtime_mysql.Guest.{Bytes}
use wasmtime_mysql.Paths.Text.{
  slash, dot, eq_text, eq_text_refl, eq_text→eq, starts_with, starts_with→append, byte_is,
  get_elem?-drop-suc,
}
use wasmtime_mysql.Paths.{absolute, strip_slash, suffix_for}

-- A guest path "." covers the relative paths, "/" covers all paths, and any guest path covers itself and
-- what lies behind it and a slash.
pub data Covers (guest n : Bytes) : Bytes → Type 0 where
  relative : guest ≡ dot → absolute n ≡ false → Covers guest n n
  root : (rest : Bytes) → guest ≡ slash ∷ [] → n ≡ slash ∷ rest → Covers guest n rest
  root_relative : guest ≡ slash ∷ [] → absolute n ≡ false → Covers guest n n
  whole : n ≡ guest → Covers guest n []
  below : (rest : Bytes) → n ≡ guest ++ (slash ∷ rest) → Covers guest n rest

some_inj : {a b : Bytes} → some a ≡ some b → a ≡ b
some_inj e = cc

starts_with-append : (s t : Bytes) → starts_with (s ++ t) s ≡ true
starts_with-append [] t = refl
starts_with-append (a ∷ s) t = ground (arith, starts_with-append s t)

byte_is-append : (s t : Bytes) (b : ℕ) → byte_is (get_elem? (s ++ (b ∷ t)) (length s)) b ≡ true
byte_is-append [] t b = ground arith
byte_is-append (a ∷ s) t b = byte_is-append s t b

strip_slash-Covers : (guest n : Bytes) → guest ≡ slash ∷ [] → Covers guest n (strip_slash n)
strip_slash-Covers guest [] e = root_relative e refl
strip_slash-Covers guest (b ∷ n) e = elim (Bool-cases (b == slash)) [
  | inl h ↦ rw h (root n e (ground arith))
  | inr h ↦ rw h (root_relative e (ground arith))
]

-- The test finds a suffix only where the guest path covers the path.
pub suffix_for-Covers : (guest n s : Bytes) → suffix_for guest n ≡ some s → Covers guest n s
unfolding suffix_for
suffix_for-Covers guest n s e = elim (Bool-cases (eq_text guest dot && not (absolute n))) [
  | inl a ↦
      let same : n ≡ s = ground arith in
      subst (Covers guest n) same (relative (eq_text→eq guest dot (ground arith)) (ground arith))
  | inr a ↦ elim (Bool-cases (eq_text guest (slash ∷ []))) [
    | inl b ↦
        subst (Covers guest n) (some_inj (rw (a, b) at e))
          (strip_slash-Covers guest n (eq_text→eq guest (slash ∷ []) b))
    | inr b ↦ elim (Bool-cases (eq_text n guest)) [
      | inl c ↦ subst (Covers guest n) (some_inj (rw (a, b, c) at e)) (whole (eq_text→eq n guest c))
      | inr c ↦
          elim (Bool-cases (starts_with n guest && byte_is (get_elem? n (length guest)) slash)) [
            | inr d ↦ absurd (ground arith)
            | inl d ↦
                let front = starts_with→append n guest (ground arith) in
                let back = get_elem?-drop-suc n (length guest) slash (ground arith) in
                subst (Covers guest n) (some_inj (rw (a, b, c, d) at e))
                  (below _ (front ∙ ap (λ x. guest ++ x) back))
          ]
    ]
  ]
]

-- And it finds one wherever the guest path covers the path.
pub Covers-suffix_for : (guest n s : Bytes) → Covers guest n s → suffix_for guest n ≢ none
unfolding suffix_for
Covers-suffix_for guest n s (relative e a) h =
    let same : eq_text guest dot ≡ true = rw e refl in ground arith
Covers-suffix_for guest n s (root rest e f) h =
    let same : eq_text guest (slash ∷ []) ≡ true = rw e refl in ground arith
Covers-suffix_for guest n s (root_relative e a) h =
    let same : eq_text guest (slash ∷ []) ≡ true = rw e refl in ground arith
Covers-suffix_for guest n s (whole e) h =
    let same : eq_text n guest ≡ true = rw e (eq_text_refl guest) in ground arith
Covers-suffix_for guest n s (below rest e) h =
    let front : starts_with n guest ≡ true = rw e (starts_with-append guest (slash ∷ rest)) in
    let back : byte_is (get_elem? n (length guest)) slash ≡ true =
      rw e (byte_is-append guest rest slash) in
    ground arith
