-- ===== src/Runtime/Names.antt =====
-- The names that a linker knows, and lists under names.
use wasmtime_mysql.Prelude.{
  ◌≡◌, ◌⊎◌, inl, inr, refl, arith, true, false, List, [], ◌∷◌, ◌++◌, Option, none, some,
}
use wasmtime_mysql.Paths.Text.{eq_text_refl, eq_text→eq}
use wasmtime_mysql.Runtime.Memories.{Key, eq_key, MemoryExtern, Embedding}

-- The documented behaviour of `Linker::define`: what is defined is found, and the other names stay.
pub record KeepsNames (engine : Embedding) : Type 0 where
  pub named : engine.Linker → Key → Option (MemoryExtern engine.Shared engine.Plain)
  pub defined :
      (l l' : engine.Linker) (k : Key) (x : MemoryExtern engine.Shared engine.Plain)
      → engine.define l k x ≡ some l'
      → named l' k ≡ some x
  pub kept :
      (l l' : engine.Linker) (k j : Key) (x : MemoryExtern engine.Shared engine.Plain)
      → engine.define l k x ≡ some l'
      → eq_key k j ≡ false
      → named l' j ≡ named l j

pub eq_key_refl : (k : Key) → eq_key k k ≡ true
eq_key_refl (m, n) = rw (eq_text_refl m, eq_text_refl n) refl

pub eq_key→eq : (k j : Key) → eq_key k j ≡ true → k ≡ j
eq_key→eq (m, n) (m', n') h =
    let a : m ≡ m' = eq_text→eq m m' (ground arith) in
    let b : n ≡ n' = eq_text→eq n n' (ground arith) in cc

pub some_ne_none {ℓ} : {A : Type ℓ} {o : Option A} {a : A} → o ≡ some a → o ≡ none → ⊥
some_ne_none a b = cc

abbrev pub Has : {A : Type 0} → Key → A → List (Key × A) → Type 0
Has k m [] = ⊥
Has k m ((j, n) ∷ l) = ((k ≡ j) × (m ≡ n)) ⊎ Has k m l

pub Has-append :
    {A : Type 0} (k : Key) (m : A) (l r : List (Key × A)) → Has k m l → Has k m (l ++ r)
Has-append k m [] r h = absurd h
Has-append k m ((j, n) ∷ l) r (inl e) = inl e
Has-append k m ((j, n) ∷ l) r (inr h) = inr (Has-append k m l r h)

pub Has-append_self :
    {A : Type 0} (k : Key) (m : A) (l : List (Key × A)) → Has k m (l ++ ((k, m) ∷ []))
Has-append_self k m [] = inl (refl, refl)
Has-append_self k m ((j, n) ∷ l) = inr (Has-append_self k m l)

pub Has-append_cases :
    {A : Type 0} (k j : Key) (m n : A) (l : List (Key × A))
    → Has k m (l ++ ((j, n) ∷ []))
    → Has k m l ⊎ ((k ≡ j) × (m ≡ n))
Has-append_cases k j m n [] (inl e) = inr e
Has-append_cases k j m n [] (inr h) = absurd h
Has-append_cases k j m n ((i, o) ∷ l) (inl e) = inl (inl e)
Has-append_cases k j m n ((i, o) ∷ l) (inr h) = elim (Has-append_cases k j m n l h) [
  | inl a ↦ inl (inr a)
  | inr b ↦ inr b
]
