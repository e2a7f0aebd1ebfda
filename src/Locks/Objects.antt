-- ===== src/Locks/Objects.antt =====
-- What the calls of one process do to the named objects of the machine and to the process's own locks.
use wasmtime_mysql.Prelude.{
  ==_refl, ℕ, ◌≡◌, ◌≢◌, ◌⊎◌, inl, inr, refl, ◌∙◌, arith, Bool, true, false, ◌&&◌, List, [], ◌∷◌,
  Option, none, some, lookup, if◌then◌else◌, ◌==◌, ◌==ℤ◌, ==_iff, ℤ, pos, neg_errno, has_bits, Dict,
  Bool-cases, Option-cases, Result-cases,
}
use wasmtime_mysql.Errno.{eagain, ebadf}
use wasmtime_mysql.Errno.Range.{IsErrno, from_windows_error-IsErrno}
use wasmtime_mysql.Guest.{Bytes}
use wasmtime_mysql.Files.{wasi_o_directory, open_options}
use wasmtime_mysql.Paths.{PathBuf, resolve, resolve_parent}
use wasmtime_mysql.Files.Host.{IoResult, io_ok, io_err}
use wasmtime_mysql.Locks.Host.{Windows, NamesObjects}
use wasmtime_mysql.Locks.{
  drop_locks, LockedFiles, State, enter, open_file, close, taken, lock_name, lock_exclusive,
  contains_lock, drop_files, drop_some, sync_directory, sync_parent, windows_io_errno,
}

-- The handle is that of a lock of the path.
abbrev pub HasLock : PathBuf → ℕ → List (PathBuf × ℕ) → Type 0
HasLock p h [] = ⊥
HasLock p h ((q, k) ∷ locks) = ((p ≡ q) × (h ≡ k)) ⊎ HasLock p h locks

windows_io_errno-IsErrno : (e : Option ℤ) → IsErrno (windows_io_errno e)
unfolding windows_io_errno
windows_io_errno-IsErrno none = omega arith
windows_io_errno-IsErrno (some code) = from_windows_error-IsErrno code

true_ne_false : {b : Bool} → b ≡ true → b ≡ false → ⊥
true_ne_false h k = ground arith

module _ {World File : Type 0} (code_units : PathBuf → List ℕ) (host : ℕ → Windows World File)
    (law : NamesObjects host) (i : ℕ) where
  open law use {objects}

  abbrev pub SameObjects : World → World → Type 0
  SameObjects w w' = (j k : ℕ) → objects w' j k ≡ objects w j k

  pub drop_files-SameObjects :
      (files : Dict File) (w : World) → SameObjects w (drop_files code_units (host i) files w)
  unfolding drop_files
  drop_files-SameObjects [] w j k = refl
  drop_files-SameObjects ((fd, file) ∷ files) w j k =
      drop_files-SameObjects files ((host i).drop_file file w) j k ∙ law.dropped i file w j k

  -- A file call leaves the locks and the objects alone.
  abbrev pub Untouched : State code_units (host i) → State code_units (host i) → Type 0
  Untouched (t, w) (t', w') = (t'.locks ≡ t.locks) × SameObjects w w'

  drop_some-SameObjects :
      (o : Option File) (w : World) → SameObjects w (drop_some code_units (host i) o w)
  drop_some-SameObjects none w j k = refl
  drop_some-SameObjects (some file) w j k = law.dropped i file w j k

  enter-Untouched :
      (p : PathBuf) (t : LockedFiles File) (w w' : World) (r : IoResult File)
      → SameObjects w w'
      → Untouched (t, w) (enter code_units (host i) p t (r, w')).1
  enter-Untouched p t w w' (io_err e) same = (refl, same)
  enter-Untouched p t w w' (io_ok file) same =
      (refl, λ j k. drop_some-SameObjects (lookup (pos t.next_fd) t.files) w' j k ∙ same j k)

  pub open_file-Untouched :
      (path : Bytes) (flags : ℤ) (t : LockedFiles File) (w : World)
      → Untouched (t, w) (open_file code_units (host i) path flags (t, w)).1
  unfolding open_file
  open_file-Untouched path flags t w = elim (Result-cases (resolve t.preopens path)) [
    | inr (e, r) ↦ rw (r, open_file) (refl, λ j k. refl)
    | inl (p, r) ↦ elim (Bool-cases (has_bits flags wasi_o_directory)) [
      | inl b ↦ rw (r, b, open_file) (refl, λ j k. refl)
      | inr b ↦
          let opened = (host i).open_path (open_options flags) p w in
          rw (r, b, open_file)
            (enter-Untouched p t w opened.1 opened.0 (law.opened i (open_options flags) p w))
    ]
  ]

  pub close-Untouched :
      (fd : ℤ) (t : LockedFiles File) (w : World)
      → Untouched (t, w) (close code_units (host i) fd (t, w)).1
  unfolding close
  close-Untouched fd t w = elim (Option-cases (lookup fd t.files)) [
    | inl e ↦ rw (e, close) (refl, λ j k. refl)
    | inr (file, e) ↦ rw (e, close) (refl, λ j k. law.dropped i file w j k)
  ]

  sync_directory-SameObjects :
      (p : PathBuf) (w : World) → SameObjects w (sync_directory code_units (host i) p w).1
  sync_directory-SameObjects p w j k =
      let made = (host i).create_file p w in
      ground (
        arith,
        law.directory_opened i p w j k,
        law.directory_handle i p w,
        law.flushed_file i made.0 made.1 j k,
        law.closed i made.0 ((host i).flush_file_buffers made.0 made.1).1 j k,
        ==_iff i j,
        ==_iff made.0 k,
      )

  pub sync_parent-Untouched :
      (path : Bytes) (t : LockedFiles File) (w : World)
      → Untouched (t, w) (sync_parent code_units (host i) path (t, w)).1
  unfolding sync_parent
  sync_parent-Untouched path t w = elim (Result-cases (resolve_parent t.preopens path)) [
    | inr (e, r) ↦ rw (r, sync_parent) (refl, λ j k. refl)
    | inl (p, r) ↦ rw (r, sync_parent) (refl, sync_directory-SameObjects p w)
  ]

  -- What `lock_exclusive` may do: nothing but to close what it made, or to enter the lock of an object
  -- that it made and that no other handle stands for.
  pub data Locking (t : LockedFiles File) (w : World) (out : ℤ × State code_units (host i))
      : Type 0 where
    held :
        (fd : ℤ) (p : PathBuf)
        → contains_lock p t.locks ≡ true
        → out ≡ (pos 0, (t, w))
        → Locking t w out
    refused :
        (e : ℤ) (w' : World)
        → IsErrno e
        → out ≡ (neg_errno e, (t, w'))
        → SameObjects w w'
        → Locking t w out
    entered :
        (p : PathBuf) (h : ℕ) (w' : World)
        → out ≡ (pos 0, (record t { locks = (p, h) ∷ t.locks }, w'))
        → ((j k : ℕ) → objects w j k ≢ some (lock_name code_units p))
        → objects w i h ≡ none
        → ((j k : ℕ)
            → objects w' j k
              ≡ (if (i == j) && (h == k) then some (lock_name code_units p) else objects w j k))
        → Locking t w out

  made-Locking :
      (p : PathBuf) (t : LockedFiles File) (w : World)
      → Locking t w
          (taken code_units (host i) p t ((host i).create_file_mapping (lock_name code_units p) w))
  made-Locking p t w =
      let n = lock_name code_units p in
      let made = (host i).create_file_mapping n w in
      elim (Bool-cases (made.0 == 0)) [
        | inl z ↦
            refused (windows_io_errno (some ((host i).get_last_error made.1))) made.1
              (windows_io_errno-IsErrno (some ((host i).get_last_error made.1))) (rw z refl)
              (law.refused i n w z)
        | inr z ↦
            elim (Bool-cases ((host i).get_last_error made.1 ==ℤ (host i).error_already_exists)) [
              | inl e ↦
                  refused eagain ((host i).close_handle made.0 made.1) (omega arith)
                    (rw (z, e) refl)
                    (λ j k. ground (
                      arith,
                      law.closed i made.0 made.1 j k,
                      law.created i n w z j k,
                      law.fresh i n w z,
                      ==_iff i j,
                      ==_iff made.0 k,
                    ))
              | inr e ↦
                  entered p made.0 made.1 (rw (z, e) refl)
                    (λ j k found. absurd (true_ne_false (law.reported i n w z j k found) e))
                    (law.fresh i n w z) (law.created i n w z)
            ]
      ]

  -- All that `lock_exclusive` does.
  pub lock_exclusive-Locking :
      (fd : ℤ) (t : LockedFiles File) (w : World)
      → Locking t w (lock_exclusive code_units (host i) fd (t, w))
  unfolding lock_exclusive
  lock_exclusive-Locking fd t w = elim (Option-cases (lookup fd t.lock_paths)) [
    | inl e ↦ refused ebadf w (omega arith) (rw (e, lock_exclusive) refl) (λ j k. refl)
    | inr (p, e) ↦ elim (Bool-cases (contains_lock p t.locks)) [
      | inl c ↦ held fd p c (rw (e, c, lock_exclusive) refl)
      | inr c ↦ elim (Option-cases (lookup fd t.files)) [
        | inl n ↦ refused ebadf w (omega arith) (rw (e, c, n, lock_exclusive) refl) (λ j k. refl)
        | inr (file, n) ↦ rw (e, c, n, lock_exclusive) (made-Locking p t w)
      ]
    ]
  ]

  pub drop_locks_keeps :
      (locks : List (PathBuf × ℕ)) (w : World) (j k : ℕ)
      → (i == j) ≡ false
      → objects (drop_locks code_units (host i) locks w) j k ≡ objects w j k
  unfolding drop_locks
  drop_locks_keeps [] w j k ne = refl
  drop_locks_keeps ((p, h) ∷ locks) w j k ne =
      drop_locks_keeps locks ((host i).close_handle h w) j k ne ∙ law.closed i h w j k ∙ rw ne refl

  pub drop_locks_shrinks :
      (locks : List (PathBuf × ℕ)) (w : World) (j k : ℕ) (n : List ℕ)
      → objects (drop_locks code_units (host i) locks w) j k ≡ some n
      → objects w j k ≡ some n
  unfolding drop_locks
  drop_locks_shrinks [] w j k n e = e
  drop_locks_shrinks ((p, h) ∷ locks) w j k n e =
      let below = drop_locks_shrinks locks ((host i).close_handle h w) j k n e in
      ground (arith, law.closed i h w j k)

  pub drop_locks_closes :
      (locks : List (PathBuf × ℕ)) (w : World) (p : PathBuf) (k : ℕ)
      → HasLock p k locks
      → objects (drop_locks code_units (host i) locks w) i k ≡ none
  unfolding drop_locks
  drop_locks_closes [] w p k m = absurd m
  drop_locks_closes ((q, h) ∷ locks) w p k (inr m) =
      drop_locks_closes locks ((host i).close_handle h w) p k m
  drop_locks_closes ((q, h) ∷ locks) w p k (inl (e, same)) =
      let w1 = (host i).close_handle h w in
      elim (Option-cases (objects (drop_locks code_units (host i) locks w1) i k)) [
        | inl z ↦ z
        | inr (n, z) ↦
            let there = drop_locks_shrinks locks w1 i k n z in
            absurd (ground (arith, law.closed i h w i k, ==_refl i, ==_iff h k))
      ]
