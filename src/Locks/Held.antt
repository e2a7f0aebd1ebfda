-- ===== src/Locks/Held.antt =====
-- The invariant of the locks: the processes' locks are the named objects of the machine.
use wasmtime_mysql.Prelude.{
  ℕ, ◌≡◌, ◌≢◌, ◌⊎◌, inl, inr, refl, sym, ap, subst, ◌∙◌, arith, Bool, true, false, ◌&&◌, List, [],
  ◌∷◌, Option, none, some, if◌then◌else◌, ◌==◌, ==_iff, ℤ, Bool-cases,
}
use wasmtime_mysql.Paths.{PathBuf}
use wasmtime_mysql.Locks.Host.{Windows, NamesObjects}
use wasmtime_mysql.Locks.{LockedFiles, new, lock_name, drop_files, drop_locks, drop_table}
use wasmtime_mysql.Locks.Objects.{
  drop_locks_keeps, drop_locks_shrinks, drop_locks_closes, HasLock, open_file-Untouched,
  close-Untouched, sync_parent-Untouched, Locking, held, refused, entered, lock_exclusive-Locking,
  drop_files-SameObjects,
}
use wasmtime_mysql.Locks.Untouched.{access-Untouched}
use wasmtime_mysql.Locks.System.{
  System, IsNew, after, Step, opens, closes, takes_lock, accesses, syncs, ends,
}

module _ {World File : Type 0} (code_units : PathBuf → List ℕ) (host : ℕ → Windows World File)
    (law : NamesObjects host) where
  open law use {objects}

  -- The locks of the processes and the named objects of the machine: a lock has its object, an object
  -- has a lock, and no two handles stand for objects of one name.
  pub record IsHeld (tables : ℕ → LockedFiles File) (w : World) : Type 0 where
    pub has_object :
        (i h : ℕ) (p : PathBuf)
        → HasLock p h (tables i).locks
        → objects w i h ≡ some (lock_name code_units p)
    pub has_lock :
        (i h : ℕ) (n : List ℕ)
        → objects w i h ≡ some n
        → (p : PathBuf) × HasLock p h (tables i).locks
    pub one_handle :
        (i j h k : ℕ) (n : List ℕ)
        → objects w i h ≡ some n
        → objects w j k ≡ some n
        → (i ≡ j) × (h ≡ k)

  -- The table of a process behind a step of one.
  pub at_cases :
      (s : System World File) (i j : ℕ) (t : LockedFiles File) (w : World)
      → ((i ≡ j) × ((after code_units host s i (t, w)).tables j ≡ t))
        ⊎ (((i == j) ≡ false) × ((after code_units host s i (t, w)).tables j ≡ s.tables j))
  at_cases s i j t w = elim (Bool-cases (i == j)) [
    | inl e ↦ inl ((==_iff i j).0 e, rw e refl)
    | inr e ↦ inr (e, rw e refl)
  ]

  same_locks :
      (s : System World File) (i j : ℕ) (t : LockedFiles File) (w : World)
      → t.locks ≡ (s.tables i).locks
      → ((after code_units host s i (t, w)).tables j).locks ≡ (s.tables j).locks
  same_locks s i j t w kept = elim (at_cases s i j t w) [
    | inl (e, a) ↦ ap (λ u. u.locks) a ∙ kept ∙ ap (λ k. (s.tables k).locks) e
    | inr (e, a) ↦ ap (λ u. u.locks) a
  ]

  -- A call that leaves the locks and the objects alone.
  same-IsHeld :
      (s : System World File) (i : ℕ) (t : LockedFiles File) (w : World)
      → t.locks ≡ (s.tables i).locks
      → ((j k : ℕ) → objects w j k ≡ objects s.world j k)
      → IsHeld s.tables s.world
      → IsHeld (after code_units host s i (t, w)).tables w
  same-IsHeld s i t w kept same inv = record {
    has_object = λ j h p m.
        same j h ∙ inv.has_object j h p (subst (HasLock p h) (same_locks s i j t w kept) m);
    has_lock = λ j h n e.
        let (p, m) = inv.has_lock j h n (sym (same j h) ∙ e) in
        (p, subst (HasLock p h) (sym (same_locks s i j t w kept)) m);
    one_handle =
        λ j j' h k n e e'. inv.one_handle j j' h k n (sym (same j h) ∙ e) (sym (same j' k) ∙ e');
  }

  true_ne_false : {b : Bool} → b ≡ true → b ≡ false → ⊥
  true_ne_false h k = ground arith

  pub some_ne_none {ℓ} : {A : Type ℓ} {o : Option A} {a : A} → o ≡ some a → o ≡ none → ⊥
  some_ne_none e n = cc

  module _ (s : System World File) (i : ℕ) (p : PathBuf) (h : ℕ) (w : World)
      (unused : (j k : ℕ) → objects s.world j k ≢ some (lock_name code_units p))
      (free : objects s.world i h ≡ none)
      (made : (j k : ℕ)
        → objects w j k
          ≡ (if (i == j) && (h == k) then some (lock_name code_units p) else objects s.world j k))
      (inv : IsHeld s.tables s.world) where
    abbrev entered_table : LockedFiles File
    entered_table = record (s.tables i) { locks = (p, h) ∷ (s.tables i).locks }

    object_cases :
        (j k : ℕ) (n : List ℕ)
        → objects w j k ≡ some n
        → ((i ≡ j) × (h ≡ k) × (some n ≡ some (lock_name code_units p)))
          ⊎ (objects s.world j k ≡ some n)
    object_cases j k n e = ground (arith, made j k, ==_iff i j, ==_iff h k)

    old_object : (j k : ℕ) (n : List ℕ) → objects s.world j k ≡ some n → objects w j k ≡ some n
    old_object j k n e = elim (Bool-cases ((i == j) && (h == k))) [
      | inr c ↦ made j k ∙ rw c e
      | inl c ↦
          let (a, b) : (i ≡ j) × (h ≡ k) = ground (arith, ==_iff i j, ==_iff h k) in
          absurd (
            some_ne_none e
              (ap (λ a. objects s.world a k) (sym a) ∙ ap (objects s.world i) (sym b) ∙ free))
    ]

    entered_object :
        (j k : ℕ) (q : PathBuf)
        → HasLock q k ((after code_units host s i (entered_table, w)).tables j).locks
        → objects w j k ≡ some (lock_name code_units q)
    entered_object j k q m = elim (at_cases s i j entered_table w) [
      | inr (ne, a) ↦
          old_object j k (lock_name code_units q)
            (inv.has_object j k q (subst (λ u. HasLock q k u.locks) a m))
      | inl (ij, a) ↦ entered_here j k q ij (subst (λ u. HasLock q k u.locks) a m)
    ]
      where
        entered_here :
            (j k : ℕ) (q : PathBuf)
            → i ≡ j
            → HasLock q k entered_table.locks
            → objects w j k ≡ some (lock_name code_units q)
        entered_here j k q ij (inl (e, same)) =
            made j k ∙ rw ((==_iff i j).1 ij, (==_iff h k).1 (sym same), e) refl
        entered_here j k q ij (inr m) =
            old_object j k (lock_name code_units q)
              (inv.has_object j k q (subst (λ a. HasLock q k (s.tables a).locks) ij m))

    entered_lock :
        (j k : ℕ) (n : List ℕ)
        → objects w j k ≡ some n
        → (q : PathBuf) × HasLock q k
            ((after code_units host s i (entered_table, w)).tables j).locks
    entered_lock j k n e = elim (at_cases s i j entered_table w) [
      | inl (ij, a) ↦ elim (object_cases j k n e) [
        | inl (x, hk, z) ↦ (p, subst (λ u. HasLock p k u.locks) (sym a) (inl (refl, sym hk)))
        | inr o ↦
            let (q, m) = inv.has_lock j k n o in
            (
              q,
              subst (λ u. HasLock q k u.locks) (sym a)
                  (inr (subst (λ b. HasLock q k (s.tables b).locks) (sym ij) m)),
            )
      ]
      | inr (ne, a) ↦ elim (object_cases j k n e) [
        | inl (x, hk, z) ↦ absurd (true_ne_false ((==_iff i j).1 x) ne)
        | inr o ↦
            let (q, m) = inv.has_lock j k n o in (q, subst (λ u. HasLock q k u.locks) (sym a) m)
      ]
    ]

    entered_once :
        (j j' k k' : ℕ) (n : List ℕ)
        → objects w j k ≡ some n
        → objects w j' k' ≡ some n
        → (j ≡ j') × (k ≡ k')
    entered_once j j' k k' n e e' = elim (object_cases j k n e) [
      | inl (a, b, z) ↦ elim (object_cases j' k' n e') [
        | inl (a', b', z') ↦ (sym a ∙ a', sym b ∙ b')
        | inr o' ↦ absurd (unused j' k' (o' ∙ z))
      ]
      | inr o ↦ elim (object_cases j' k' n e') [
        | inl (a', b', z') ↦ absurd (unused j k (o ∙ z'))
        | inr o' ↦ inv.one_handle j j' k k' n o o'
      ]
    ]

    entered-IsHeld : IsHeld (after code_units host s i (entered_table, w)).tables w
    entered-IsHeld = record {
      has_object = entered_object;
      has_lock = entered_lock;
      one_handle = entered_once;
    }

  pub new_locks : {t : LockedFiles File} → IsNew t → t.locks ≡ []
  unfolding new
  new_locks (no_default, given, cwd, e) = ground arith

  pub dropped-IsHeld :
      (s : System World File) (i : ℕ) (t : LockedFiles File)
      → IsNew t
      → IsHeld s.tables s.world
      → let w = drop_table code_units (host i) (s.tables i, s.world) in
        IsHeld (after code_units host s i (t, w)).tables w
  dropped-IsHeld s i t fresh inv =
      let locks = (s.tables i).locks in
      let w1 = drop_files code_units (host i) (s.tables i).files s.world in
      let w = drop_locks code_units (host i) locks w1 in
      let same = drop_files-SameObjects code_units host law i (s.tables i).files s.world in
      let before : (j k : ℕ) (n : List ℕ) → objects w j k ≡ some n → objects s.world j k ≡ some n =
        λ j k n e. sym (same j k) ∙ drop_locks_shrinks code_units host law i locks w1 j k n e in
      record {
        has_object = λ j k p m. elim (at_cases s i j t w) [
          | inl (ij, a) ↦
              absurd (subst (HasLock p k) (new_locks fresh) (subst (λ u. HasLock p k u.locks) a m))
          | inr (ne, a) ↦
              drop_locks_keeps code_units host law i locks w1 j k ne
              ∙ same j k
              ∙ inv.has_object j k p (subst (λ u. HasLock p k u.locks) a m)
        ];
        has_lock = λ j k n e.
            let (p, m) = inv.has_lock j k n (before j k n e) in
            elim (at_cases s i j t w) [
              | inl (ij, a) ↦ absurd (
                  some_ne_none (ap (λ b. objects w b k) ij ∙ e) (
                    drop_locks_closes code_units host law i locks w1 p k
                      (subst (λ b. HasLock p k (s.tables b).locks) (sym ij) m)))
              | inr (ne, a) ↦ (p, subst (λ u. HasLock p k u.locks) (sym a) m)
            ];
        one_handle =
            λ j j' k k' n e e'. inv.one_handle j j' k k' n (before j k n e) (before j' k' n e');
      }

  pub Step-IsHeld :
      (s s' : System World File)
      → Step code_units host s s'
      → IsHeld s.tables s.world
      → IsHeld s'.tables s'.world
  Step-IsHeld s s' (opens i path flags) inv =
      let (kept, same) =
        open_file-Untouched code_units host law i path flags (s.tables i) s.world in
      same-IsHeld s i _ _ kept same inv
  Step-IsHeld s s' (closes i fd) inv =
      let (kept, same) = close-Untouched code_units host law i fd (s.tables i) s.world in
      same-IsHeld s i _ _ kept same inv
  Step-IsHeld s s' (accesses i a) inv =
      let (kept, same) = access-Untouched code_units host law i a (s.tables i) s.world in
      same-IsHeld s i _ _ kept same inv
  Step-IsHeld s s' (syncs i path) inv =
      let (kept, same) = sync_parent-Untouched code_units host law i path (s.tables i) s.world in
      same-IsHeld s i _ _ kept same inv
  Step-IsHeld s s' (ends i t fresh) inv = dropped-IsHeld s i t fresh inv
  Step-IsHeld s s' (takes_lock i fd) inv =
      locked (lock_exclusive-Locking code_units host law i fd (s.tables i) s.world)
    where
      locked :
          {out : ℤ × (LockedFiles File × World)}
          → Locking code_units host law i (s.tables i) s.world out
          → IsHeld (after code_units host s i out.1).tables out.1.1
      locked (held fd p c e) =
          subst (λ o. IsHeld (after code_units host s i o.1).tables o.1.1) (sym e)
            (same-IsHeld s i (s.tables i) s.world refl (λ j k. refl) inv)
      locked (refused e w' errno z same) =
          subst (λ o. IsHeld (after code_units host s i o.1).tables o.1.1) (sym z)
            (same-IsHeld s i (s.tables i) w' refl same inv)
      locked (entered p h w' e unused free made) =
          subst (λ o. IsHeld (after code_units host s i o.1).tables o.1.1) (sym e)
            (entered-IsHeld s i p h w' unused free made inv)

  pub empty-IsHeld :
      (s : System World File)
      → ((i : ℕ) → IsNew (s.tables i))
      → ((j k : ℕ) → objects s.world j k ≡ none)
      → IsHeld s.tables s.world
  empty-IsHeld s fresh unused = record {
    has_object = λ i h p m. absurd (subst (HasLock p h) (new_locks (fresh i)) m);
    has_lock = λ i h n e. absurd (some_ne_none e (unused i h));
    one_handle = λ i j h k n e e'. absurd (some_ne_none e (unused i h));
  }
