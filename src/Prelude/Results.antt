-- ===== src/Prelude/Results.antt =====
-- Errors as values. `Result A` is `std::result::Result<A, i32>`, whose error is a guest errno.
-- A host call runs in `Run S`: it changes a state `S` and yields a value, leaves early by `return`
-- with the number that the guest receives, or panics.
use mathlib.Core.Path.{◌≡◌, refl}
use mathlib.Core.Logic.{◌⊎◌, inl, inr}
use mathlib.Core.Option.{Option, none, some}
use wasmtime_mysql.Prelude.Int.{ℤ, neg}

pub data Result {ℓ} (A : Type ℓ) : Type ℓ where
  ok : A → Result A
  err : ℤ → Result A

-- The `?` operator.
infixl 5 ◌>>=◌
abbrev pub ◌>>=◌ {ℓ κ} : {A : Type ℓ} {B : Type κ} → Result A → (A → Result B) → Result B
ok a >>= f = f a
err e >>= f = err e

-- A chain that succeeds has succeeded step by step.
pub bind_ok {ℓ κ} :
    {A : Type ℓ} {B : Type κ} (r : Result A) (f : A → Result B) {b : B}
    → (r >>= f) ≡ ok b
    → (a : A) × (r ≡ ok a) × (f a ≡ ok b)
bind_ok (ok a) f e = (a, refl, e)
bind_ok (err n) f e = cc

-- One that fails has failed in its first step or behind it.
pub bind_err {ℓ κ} :
    {A : Type ℓ} {B : Type κ} (r : Result A) (f : A → Result B) {n : ℤ}
    → (r >>= f) ≡ err n
    → (r ≡ err n) ⊎ ((a : A) × (r ≡ ok a) × (f a ≡ err n))
bind_err (ok a) f e = inr (a, refl, e)
bind_err (err n) f e = inl (cc)

pub Result-cases {ℓ} :
    {A : Type ℓ} (r : Result A) → ((a : A) × (r ≡ ok a)) ⊎ ((n : ℤ) × (r ≡ err n))
Result-cases (ok a) = inl (a, refl)
Result-cases (err n) = inr (n, refl)

abbrev pub ok_or {ℓ} : {A : Type ℓ} → Option A → ℤ → Result A
ok_or none e = err e
ok_or (some a) e = ok a

-- `fn neg_errno(errno: i32) -> i32 { -errno }`
abbrev pub neg_errno : ℤ → ℤ
neg_errno e = neg e

pub data Outcome {ℓ} (A : Type ℓ) : Type ℓ where
  done : A → Outcome A
  leave : ℤ → Outcome A
  panic : Outcome A
