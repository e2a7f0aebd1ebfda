-- ===== src/Sockets/Threads/Complete.antt =====
-- No descriptor is lost: whatever is open is held by somebody.
use wasmtime_mysql.Prelude.{
  ◌≡◌, ◌≢◌, inl, inr, refl, sym, ◌∙◌, ap, arith, Bool, true, false, Option, none, some, ◌==ℤ◌,
  ==ℤ_iff, ℤ, Bool-cases,
}
use wasmtime_mysql.Sockets.Threads.Holders.{
  Holder, Held, set, is_same, is_same→≡, is_same_refl, kept, true_ne_false,
}

abbrev pub AllHeld : (ℤ → Bool) → Held → Type 0
AllHeld is_open held = (raw : ℤ) → is_open raw ≡ true → (h : Holder) × (held h ≡ some raw)

set_here : (h : Holder) (o : Option ℤ) (held : Held) → set h o held h ≡ o
set_here h o held = rw (is_same_refl h) refl

set_elsewhere :
    (h k : Holder) (o : Option ℤ) (held : Held) (raw : ℤ)
    → held h ≢ some raw
    → held k ≡ some raw
    → set h o held k ≡ some raw
set_elsewhere h k o held raw free e = elim (Bool-cases (is_same h k)) [
  | inl b ↦ absurd (free (ap held (is_same→≡ h k b) ∙ e))
  | inr b ↦ rw (b) e
]

pub none_ne_some : {raw : ℤ} → none ≢ some raw
none_ne_some e = cc

pub some_injective : {a b : ℤ} → some a ≡ some b → a ≡ b
some_injective e = cc

differ : (raw r : ℤ) → (raw ==ℤ r) ≡ false → raw ≢ r
differ raw r b e = true_ne_false ((==ℤ_iff raw r).1 e) b

module _ {is_open : ℤ → Bool} {held : Held} (all : AllHeld is_open held) where
  pub same-AllHeld : {held' : Held} → ((h : Holder) → held' h ≡ held h) → AllHeld is_open held'
  same-AllHeld same raw e = let (h, f) = all raw e in (h, same h ∙ f)

  pub host-AllHeld :
      {is_open' : ℤ → Bool}
      → ((raw : ℤ) → is_open' raw ≡ true → is_open raw ≡ true)
      → AllHeld is_open' held
  host-AllHeld stay raw e = all raw (stay raw e)

  pub drop-AllHeld : (h : Holder) → held h ≡ none → AllHeld is_open (set h none held)
  drop-AllHeld h free raw e =
      let (k, f) = all raw e in
      (k, set_elsewhere h k none held raw (λ g. none_ne_some (sym free ∙ g)) f)

  pub make-AllHeld :
      {is_open' : ℤ → Bool} (h : Holder) (raw : ℤ)
      → held h ≡ none
      → ((r : ℤ) → raw ≢ r → is_open' r ≡ true → is_open r ≡ true)
      → AllHeld is_open' (set h (some raw) held)
  make-AllHeld h raw free stay r e = elim (Bool-cases (raw ==ℤ r)) [
    | inl b ↦ (h, set_here h (some raw) held ∙ ap some ((==ℤ_iff raw r).0 b))
    | inr b ↦
        let (k, f) = all r (stay r (differ raw r b) e) in
        (k, set_elsewhere h k (some raw) held r (λ g. none_ne_some (sym free ∙ g)) f)
  ]

  module _ (from : Holder) (raw : ℤ) (has : held from ≡ some raw) where
    left : (k : Holder) (r : ℤ) → raw ≢ r → held k ≡ some r → set from none held k ≡ some r
    left k r other f =
        set_elsewhere from k none held r (λ g. other (some_injective (sym has ∙ g))) f

    pub close-AllHeld :
        {is_open' : ℤ → Bool}
        → is_open' raw ≡ false
        → ((r : ℤ) → raw ≢ r → is_open' r ≡ true → is_open r ≡ true)
        → AllHeld is_open' (set from none held)
    close-AllHeld closed stay r e = elim (Bool-cases (raw ==ℤ r)) [
      | inl b ↦ absurd (ground (arith, ==ℤ_iff raw r))
      | inr b ↦ let (k, f) = all r (stay r (differ raw r b) e) in (k, left k r (differ raw r b) f)
    ]

    pub move-AllHeld :
        (to : Holder) → held to ≡ none → AllHeld is_open (set to (some raw) (set from none held))
    move-AllHeld to free r e = elim (Bool-cases (raw ==ℤ r)) [
      | inl b ↦ (to, set_here to (some raw) (set from none held) ∙ ap some ((==ℤ_iff raw r).0 b))
      | inr b ↦
          let (k, f) = all r e in
          (
            k,
            set_elsewhere to k (some raw) (set from none held) r
                (λ g. none_ne_some (sym free ∙ kept from to held r g))
                (left k r (differ raw r b) f),
          )
    ]
