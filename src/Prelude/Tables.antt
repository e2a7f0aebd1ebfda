-- ===== src/Prelude/Tables.antt =====
-- `HashMap<i32, V>` as an association list: the order of the entries is never observed but by
-- `drain`, whose order is unspecified.
use mathlib.Core.Path.{◌≡◌}
use mathlib.Core.Option.{Option, none, some}
use mathlib.Core.List.{List, [], ◌∷◌}
use native.Mathlib.Omega.{arith}
use wasmtime_mysql.Prelude.Tests.{if◌then◌else◌}
use wasmtime_mysql.Prelude.Int.{ℤ, ◌==ℤ◌, ==ℤ_iff}

abbrev pub Dict {ℓ} : Type ℓ → Type ℓ
Dict V = List (ℤ × V)

module _ {ℓ} {V : Type ℓ} where
  unfoldable pub lookup : ℤ → Dict V → Option V
  lookup k [] = none
  lookup k ((j, v) ∷ d) = if j ==ℤ k then some v else lookup k d

  unfoldable pub remove : ℤ → Dict V → Dict V
  remove k [] = []
  remove k ((j, v) ∷ d) = let rest = remove k d in if j ==ℤ k then rest else (j, v) ∷ rest

  -- An earlier entry of the key is dropped.
  unfoldable pub insert : ℤ → V → Dict V → Dict V
  insert k v d = (k, v) ∷ remove k d

  pub lookup-remove :
      (k j : ℤ) (d : Dict V) → lookup j (remove k d) ≡ (if k ==ℤ j then none else lookup j d)
  unfolding lookup remove
  lookup-remove k j [] = ground arith
  lookup-remove k j ((i, v) ∷ d) =
      ground (arith, ==ℤ_iff k j, ==ℤ_iff i k, ==ℤ_iff i j, lookup-remove k j d)

  pub lookup-insert :
      (k j : ℤ) (v : V) (d : Dict V)
      → lookup j (insert k v d) ≡ (if k ==ℤ j then some v else lookup j d)
  unfolding lookup insert
  lookup-insert k j v d = ground (arith, lookup-remove k j d)
