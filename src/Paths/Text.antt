-- ===== src/Paths/Text.antt =====
-- The operations of `str` that the path code uses, over bytes.
use wasmtime_mysql.Prelude.{
  ℕ, zero, suc, ◌≡◌, refl, arith, length, drop, get_elem?, Bool, true, false, ◌&&◌, List, [], ◌∷◌,
  ◌++◌, ◌==◌, if◌then◌else◌, Option, none, some,
}

abbrev pub slash : ℕ
slash = b'/'

abbrev pub dot : List ℕ
dot = b'.' ∷ []

abbrev pub dot_dot : List ℕ
dot_dot = b'.' ∷ b'.' ∷ []

abbrev pub eq_text : List ℕ → List ℕ → Bool
eq_text [] [] = true
eq_text [] (b ∷ t) = false
eq_text (a ∷ s) [] = false
eq_text (a ∷ s) (b ∷ t) = a == b && eq_text s t

abbrev pub is_empty {ℓ} : {A : Type ℓ} → List A → Bool
is_empty [] = true
is_empty (x ∷ xs) = false

abbrev pub starts_with : List ℕ → List ℕ → Bool
starts_with s [] = true
starts_with [] (b ∷ t) = false
starts_with (a ∷ s) (b ∷ t) = a == b && starts_with s t

-- `option == Some(&b)`
abbrev pub byte_is : Option ℕ → ℕ → Bool
byte_is none b = false
byte_is (some a) b = a == b

abbrev pub onto_first : ℕ → List (List ℕ) → List (List ℕ)
onto_first b [] = (b ∷ []) ∷ []
onto_first b (p ∷ ps) = (b ∷ p) ∷ ps

-- `path.split('/')`: one part more than there are slashes.
abbrev pub split : List ℕ → List (List ℕ)
split [] = [] ∷ []
split (b ∷ s) = let rest = split s in if b == slash then [] ∷ rest else onto_first b rest

-- `parts.join("/")`
abbrev pub join : List (List ℕ) → List ℕ
join [] = []
join (p ∷ []) = p
join (p ∷ q ∷ ps) = p ++ (slash ∷ join (q ∷ ps))

pub eq_text_refl : (s : List ℕ) → eq_text s s ≡ true
eq_text_refl [] = refl
eq_text_refl (a ∷ s) = ground (arith, eq_text_refl s)

pub eq_text→eq : (s t : List ℕ) → eq_text s t ≡ true → s ≡ t
eq_text→eq [] [] h = refl
eq_text→eq [] (b ∷ t) h = cc
eq_text→eq (a ∷ s) [] h = cc
eq_text→eq (a ∷ s) (b ∷ t) h = ground (arith, eq_text→eq s t)

-- A prefix that the test finds is one.
pub starts_with→append : (s t : List ℕ) → starts_with s t ≡ true → s ≡ t ++ drop (length t) s
starts_with→append s [] h = refl
starts_with→append [] (b ∷ t) h = cc
starts_with→append (a ∷ s) (b ∷ t) h = ground (arith, starts_with→append s t)

pub get_elem?-drop-suc :
    (s : List ℕ) (n b : ℕ) → byte_is (get_elem? s n) b ≡ true → drop n s ≡ b ∷ drop (suc n) s
get_elem?-drop-suc [] n b h = cc
get_elem?-drop-suc (a ∷ s) zero b h = ground arith
get_elem?-drop-suc (a ∷ s) (suc n) b h = get_elem?-drop-suc s n b h
