-- ===== src/Descriptors.antt =====
-- The descriptors of src/host_files.rs and src/host_sockets.rs: a table from guest descriptors and the
-- number that the next entry gets, which stops at `i32::MAX`.
use wasmtime_mysql.Prelude.{
  ℕ, ◌≤◌, ◌<◌, ◌≡◌, ◌≢◌, refl, ◌∙◌, ◌⊎◌, [], arith, Option, none, some, Option-cases, inl, inr, ℤ,
  pos, negsuc, ==ℤ_iff, saturating_suc, i32_max, Dict, lookup, insert, remove, lookup-insert,
  lookup-remove,
}

-- Every descriptor was given out: it lies between the base and `next`, and below `next` as long as that
-- has not reached `i32::MAX`.
pub record IsIssued {V : Type 0} (base next : ℕ) (d : Dict V) : Type 0 where
  pub from_base : base ≤ next
  pub limit : next ≤ i32_max
  pub no_negative : (n : ℕ) → lookup (negsuc n) d ≡ none
  pub issued :
      (k : ℕ) → lookup (pos k) d ≢ none → (base ≤ k) × (k ≤ next) × ((k < next) ⊎ (next ≡ i32_max))

module _ {V : Type 0} (base next : ℕ) (d : Dict V) where
  issued_next :
      (v : V)
      → IsIssued base next d
      → (k : ℕ) → lookup (pos k) (insert (pos next) v d) ≢ none
      → (base ≤ k)
        × (k ≤ saturating_suc next)
        × ((k < saturating_suc next) ⊎ (saturating_suc next ≡ i32_max))
  issued_next v i k h =
      ground (arith, lookup-insert (pos next) (pos k) v d, i.issued k, i.from_base, i.limit)

  pub insert-IsIssued :
      (v : V) → IsIssued base next d → IsIssued base (saturating_suc next) (insert (pos next) v d)
  insert-IsIssued v i = record {
    from_base = ground (arith, i.from_base);
    limit = ground (arith, i.limit);
    no_negative = λ n. lookup-insert (pos next) (negsuc n) v d ∙ i.no_negative n;
    issued = issued_next v i;
  }

  pub remove-IsIssued : (fd : ℤ) → IsIssued base next d → IsIssued base next (remove fd d)
  remove-IsIssued fd i = record {
    from_base = i.from_base;
    limit = i.limit;
    no_negative = λ n. ground (arith, lookup-remove fd (negsuc n) d, i.no_negative n);
    issued = λ k h. i.issued k (λ e. h (ground (arith, lookup-remove fd (pos k) d)));
  }

  -- An entry that is replaced.
  pub replace-IsIssued :
      (fd : ℤ) (old new : V)
      → lookup fd d ≡ some old
      → IsIssued base next d
      → IsIssued base next (insert fd new d)
  replace-IsIssued fd old new found i = record {
    from_base = i.from_base;
    limit = i.limit;
    no_negative = λ n.
        ground (arith, lookup-insert fd (negsuc n) new d, i.no_negative n, ==ℤ_iff fd (negsuc n));
    issued = λ k h.
        i.issued k (λ e. h (ground (arith, lookup-insert fd (pos k) new d, ==ℤ_iff fd (pos k))));
  }

  some_ne_none : {o : Option V} {v : V} → o ≡ some v → o ≡ none → ⊥
  some_ne_none a b = cc

  -- Below `i32::MAX` the next descriptor is free.
  pub next-IsFree : IsIssued base next d → next < i32_max → lookup (pos next) d ≡ none
  next-IsFree i below = elim (Option-cases (lookup (pos next) d)) [
    | inl e ↦ e
    | inr (v, e) ↦ let h = i.issued next (λ n. some_ne_none e n) in absurd (omega arith)
  ]

pub empty-IsIssued : {V : Type 0} (base : ℕ) → base ≤ i32_max → IsIssued {V = V} base base []
unfolding lookup
empty-IsIssued base h = record {
  from_base = omega arith;
  limit = h;
  no_negative = λ _. refl;
  issued = λ k n. absurd (n refl);
}
