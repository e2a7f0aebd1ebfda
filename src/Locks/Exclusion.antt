-- ===== src/Locks/Exclusion.antt =====
-- A lock is held by one process at a time, until that process ends, and can be taken then.
use wasmtime_mysql.Prelude.{
  ℕ, ◌≡◌, ◌≢◌, inl, inr, refl, sym, ap, subst, ◌∙◌, arith, false, List, none, some, lookup, ◌==◌,
  ==_iff, pos,
}
use wasmtime_mysql.Paths.{PathBuf}
use wasmtime_mysql.Locks.Host.{Windows, NamesObjects}
use wasmtime_mysql.Locks.{LockedFiles, lock_name, lock_exclusive, drop_table, contains_lock}
use wasmtime_mysql.Locks.Objects.{HasLock}
use wasmtime_mysql.Locks.System.{System, IsNew, Reach, start, later}
use wasmtime_mysql.Locks.Held.{
  IsHeld, Step-IsHeld, empty-IsHeld, at_cases, dropped-IsHeld, new_locks,
}

module _ {World File : Type 0} (code_units : PathBuf → List ℕ) (host : ℕ → Windows World File)
    (law : NamesObjects host) where
  open law use {objects}

  Reach-IsHeld :
      (s s' : System World File)
      → ((i : ℕ) → IsNew (s.tables i))
      → ((j k : ℕ) → objects s.world j k ≡ none)
      → Reach code_units host s s'
      → IsHeld code_units host law s'.tables s'.world
  Reach-IsHeld s s' fresh unused start = empty-IsHeld code_units host law s fresh unused
  Reach-IsHeld s s' fresh unused (later r step) =
      Step-IsHeld code_units host law _ s' step (Reach-IsHeld s _ fresh unused r)

  module _ (s s' : System World File) (fresh : (i : ℕ) → IsNew (s.tables i))
      (unused : (j k : ℕ) → objects s.world j k ≡ none) (reached : Reach code_units host s s') where
    -- In a Windows session whose processes start with new tables and without named objects, after any
    -- file calls and any ends of processes of the session: a path is locked by one process at most, and by it once. So are two paths
    -- with one lock name.
    pub locks_exclusive :
        (i j h k : ℕ) (p q : PathBuf)
        → HasLock p h (s'.tables i).locks
        → HasLock q k (s'.tables j).locks
        → lock_name code_units p ≡ lock_name code_units q
        → (i ≡ j) × (h ≡ k)
    locks_exclusive i j h k p q m m' same =
        let inv = Reach-IsHeld s s' fresh unused reached in
        inv.one_handle i j h k (lock_name code_units p) (inv.has_object i h p m)
          (inv.has_object j k q m' ∙ ap some (sym same))

    no_object :
        (i h : ℕ) (p : PathBuf) (t : LockedFiles File)
        → IsNew t
        → HasLock p h (s'.tables i).locks
        → (a k : ℕ)
        → objects (drop_table code_units (host i) (s'.tables i, s'.world)) a k
          ≢ some (lock_name code_units p)
    no_object i h p t new m a k there =
        let w = drop_table code_units (host i) (s'.tables i, s'.world) in
        let inv = Reach-IsHeld s s' fresh unused reached in
        let inv' = dropped-IsHeld code_units host law s' i t new inv in
        let (q, m') = inv'.has_lock a k (lock_name code_units p) there in
        elim (at_cases code_units host law s' i a t w) [
          | inl (e, z) ↦ absurd (
              subst (HasLock q k) (new_locks code_units host law new)
                (subst (λ u. HasLock q k u.locks) z m'))
          | inr (ne, z) ↦
              let there' =
                inv.has_object a k q (subst (λ u. HasLock q k u.locks) z m')
                ∙ sym (inv'.has_object a k q m')
                ∙ there in
              let (e, x) =
                inv.one_handle i a h k (lock_name code_units p) (inv.has_object i h p m) there' in
              absurd (ground (arith, ==_iff i a))
        ]

    -- Of two processes of a Windows session with a path open, the one holds its lock and ends: then `lock_exclusive` of the
    -- other one is answered 0 and its table has the lock, if the system makes the object at all.
    pub lock_after_end :
        (i j h fd : ℕ) (p : PathBuf) (file : File) (t : LockedFiles File)
        → IsNew t
        → HasLock p h (s'.tables i).locks
        → (i == j) ≡ false
        → lookup (pos fd) (s'.tables j).files ≡ some file
        → lookup (pos fd) (s'.tables j).lock_paths ≡ some p
        → contains_lock p (s'.tables j).locks ≡ false
        → let w = drop_table code_units (host i) (s'.tables i, s'.world) in
          (((host j).create_file_mapping (lock_name code_units p) w).0 == 0) ≡ false
          → let out = lock_exclusive code_units (host j) (pos fd) (s'.tables j, w) in
            (out.0 ≡ pos 0) × (k : ℕ) × HasLock p k out.1.0.locks
    unfolding lock_exclusive
    lock_after_end i j h fd p file t new m apart opened path free made =
        let w = drop_table code_units (host i) (s'.tables i, s'.world) in
        let unreported =
          law.unreported j (lock_name code_units p) w made (no_object i h p t new m) in
        rw (lock_exclusive, path, free, opened, made, unreported) (refl, _, inl (refl, refl))
