-- ===== src/Paths/Split.antt =====
-- Cutting a text at its slashes, and joining the parts.
use wasmtime_mysql.Prelude.{
  ℕ, false, ◌≡◌, refl, ◌∙◌, List, [], ◌∷◌, ◌++◌, All, Bool-cases, inl, inr, ◌==◌,
}
use wasmtime_mysql.Paths.Text.{slash, split, join, onto_first, is_empty}

-- A text without a slash.
abbrev pub NoSlash : List ℕ → Type 0
NoSlash = All (λ b. (b == slash) ≡ false)

onto_first-append :
    (b : ℕ) (ps qs : List (List ℕ))
    → is_empty ps ≡ false
    → onto_first b (ps ++ qs) ≡ onto_first b ps ++ qs
onto_first-append b [] qs h = cc
onto_first-append b (p ∷ ps) qs h = refl

pub split_nonempty : (s : List ℕ) → is_empty (split s) ≡ false
split_nonempty [] = refl
split_nonempty (b ∷ s) = elim (Bool-cases (b == slash)) [
  | inl e ↦ rw e
  | inr e ↦ rw e (onto_first_nonempty (split s))
]
  where
    onto_first_nonempty : (ps : List (List ℕ)) → is_empty (onto_first b ps) ≡ false
    onto_first_nonempty [] = refl
    onto_first_nonempty (p ∷ ps) = refl

pub split-append : (s t : List ℕ) → split (s ++ (slash ∷ t)) ≡ split s ++ split t
split-append [] t = refl
split-append (b ∷ s) t = elim (Bool-cases (b == slash)) [
  | inl e ↦ rw (e, split-append s t)
  | inr e ↦ rw (e, split-append s t) (onto_first-append b (split s) (split t) (split_nonempty s))
]

split-NoSlash : (p : List ℕ) → NoSlash p → split p ≡ p ∷ []
split-NoSlash [] h = refl
split-NoSlash (b ∷ p) (h, hs) = rw (h, split-NoSlash p hs)

pub split-join :
    (p : List ℕ) (ps : List (List ℕ)) → All NoSlash (p ∷ ps) → split (join (p ∷ ps)) ≡ p ∷ ps
split-join p [] (h, _) = split-NoSlash p h
split-join p (q ∷ ps) (h, hs) =
    split-append p (join (q ∷ ps)) ∙ rw (split-NoSlash p h, split-join q ps hs)

onto_first-All :
    (b : ℕ) (ps : List (List ℕ))
    → (b == slash) ≡ false
    → All NoSlash ps
    → All NoSlash (onto_first b ps)
onto_first-All b [] h hs = ((h, tt), tt)
onto_first-All b (p ∷ ps) h (hp, hs) = ((h, hp), hs)

pub split-All-NoSlash : (s : List ℕ) → All NoSlash (split s)
split-All-NoSlash [] = (tt, tt)
split-All-NoSlash (b ∷ s) = elim (Bool-cases (b == slash)) [
  | inl e ↦ rw e (tt, split-All-NoSlash s)
  | inr e ↦ rw e (onto_first-All b (split s) e (split-All-NoSlash s))
]
