-- ===== src/Sockets/Threads/Holders.antt =====
-- Who is to close a descriptor of the host: the entry of the table that has it, or the thread that is
-- between the host and the table with it.
use wasmtime_mysql.Prelude.{
  ==_refl, ℕ, ◌≡◌, ◌≢◌, ◌⊎◌, subst, inl, inr, refl, sym, ◌∙◌, ap, arith, Bool, true, false, Option,
  none, some, if◌then◌else◌, ◌==◌, ◌==ℤ◌, ==_iff, ==ℤ_iff, ℤ, Bool-cases,
}

pub data Holder : Type 0 where
  entry : ℤ → Holder
  thread : ℕ → Holder

abbrev pub is_same : Holder → Holder → Bool
is_same (entry a) (entry b) = a ==ℤ b
is_same (thread i) (thread j) = i == j
is_same (entry a) (thread j) = false
is_same (thread i) (entry b) = false

pub is_same→≡ : (h k : Holder) → is_same h k ≡ true → h ≡ k
is_same→≡ (entry a) (entry b) e = ap entry ((==ℤ_iff a b).0 e)
is_same→≡ (thread i) (thread j) e = ap thread ((==_iff i j).0 e)
is_same→≡ (entry a) (thread j) e = absurd (ground arith)
is_same→≡ (thread i) (entry b) e = absurd (ground arith)

pub is_same_refl : (h : Holder) → is_same h h ≡ true
is_same_refl (entry a) = (==ℤ_iff a a).1 refl
is_same_refl (thread i) = ==_refl i

abbrev pub Held : Type 0
Held = Holder → Option ℤ

abbrev pub set : Holder → Option ℤ → Held → Held
set h o held k = if is_same h k then o else held k

dropped_here : {h k : Holder} {raw : ℤ} (held : Held) → h ≡ k → set h none held k ≢ some raw
dropped_here {h = h} held same e = ground (arith, is_same_refl h)

pub kept : (h k : Holder) (held : Held) (raw : ℤ) → set h none held k ≡ some raw → held k ≡ some raw
kept h k held raw e = ground arith

set-cases :
    (h k : Holder) (raw : ℤ) (held : Held) (r : ℤ)
    → set h (some raw) held k ≡ some r
    → ((h ≡ k) × (raw ≡ r)) ⊎ (held k ≡ some r)
set-cases h k raw held r e = elim (Bool-cases (is_same h k)) [
  | inl b ↦ inl (is_same→≡ h k b, ground arith)
  | inr b ↦ inr (ground arith)
]

pub true_ne_false : {b : Bool} → b ≡ true → b ≡ false → ⊥
true_ne_false h k = ground arith

-- What is held is open, and held once.
pub record IsOwned (is_open : ℤ → Bool) (held : Held) : Type 0 where
  pub opened : (h : Holder) (raw : ℤ) → held h ≡ some raw → is_open raw ≡ true
  pub once : (h k : Holder) (raw : ℤ) → held h ≡ some raw → held k ≡ some raw → h ≡ k

module _ {is_open : ℤ → Bool} {held : Held} (owned : IsOwned is_open held) where
  pub same-IsOwned : {held' : Held} → ((h : Holder) → held' h ≡ held h) → IsOwned is_open held'
  same-IsOwned same = record {
    opened = λ h raw e. owned.opened h raw (sym (same h) ∙ e);
    once = λ h k raw e f. owned.once h k raw (sym (same h) ∙ e) (sym (same k) ∙ f);
  }

  -- The host may open more.
  pub host-IsOwned :
      {is_open' : ℤ → Bool}
      → ((raw : ℤ) → is_open raw ≡ true → is_open' raw ≡ true)
      → IsOwned is_open' held
  host-IsOwned stay = record {
    opened = λ h raw e. stay raw (owned.opened h raw e);
    once = owned.once;
  }

  module _ (h : Holder) where
    pub drop-IsOwned : IsOwned is_open (set h none held)
    drop-IsOwned = record {
      opened = λ k raw e. owned.opened k raw (kept h k held raw e);
      once = λ k l raw e f. owned.once k l raw (kept h k held raw e) (kept h l held raw f);
    }

    -- Nothing else holds what was dropped.
    pub dropped : (raw : ℤ) → held h ≡ some raw → (k : Holder) → set h none held k ≢ some raw
    dropped raw e k f = dropped_here held (owned.once h k raw e (kept h k held raw f)) f

    -- What nothing holds.
    pub take-IsOwned :
        (raw : ℤ)
        → is_open raw ≡ true
        → ((k : Holder) → held k ≢ some raw)
        → IsOwned is_open (set h (some raw) held)
    take-IsOwned raw ready free = record {
      opened = λ k r e. elim (set-cases h k raw held r e) [
        | inl (same, is) ↦ subst (λ r. is_open r ≡ true) is ready
        | inr f ↦ owned.opened k r f
      ];
      once = λ k l r e f. elim (set-cases h k raw held r e) [
        | inl (same, is) ↦ elim (set-cases h l raw held r f) [
          | inl (same', is') ↦ sym same ∙ same'
          | inr f' ↦ absurd (free l (f' ∙ ap some (sym is)))
        ]
        | inr e' ↦ elim (set-cases h l raw held r f) [
          | inl (same', is') ↦ absurd (free k (e' ∙ ap some (sym is')))
          | inr f' ↦ owned.once k l r e' f'
        ]
      ];
    }

    -- A descriptor that was held is closed.
    pub close-IsOwned :
        {is_open' : ℤ → Bool} (raw : ℤ)
        → held h ≡ some raw
        → ((r : ℤ) → raw ≢ r → is_open r ≡ true → is_open' r ≡ true)
        → IsOwned is_open' (set h none held)
    close-IsOwned raw e stay = record {
      opened = λ k r f.
          stay r (λ is. dropped raw e k (f ∙ ap some (sym is))) (drop-IsOwned.opened k r f);
      once = drop-IsOwned.once;
    }

-- A descriptor that the host has made is taken.
pub make-IsOwned :
    {is_open is_open' : ℤ → Bool} {held : Held} (h : Holder) (raw : ℤ)
    → IsOwned is_open held
    → is_open raw ≡ false
    → is_open' raw ≡ true
    → ((r : ℤ) → is_open r ≡ true → is_open' r ≡ true)
    → IsOwned is_open' (set h (some raw) held)
make-IsOwned h raw owned fresh ready stay =
    take-IsOwned (host-IsOwned owned stay) h raw ready
      λ k e. true_ne_false (owned.opened k raw e) fresh
