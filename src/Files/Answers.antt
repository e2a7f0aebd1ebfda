-- ===== src/Files/Answers.antt =====
-- The numbers that the file calls return: a count, a position, a descriptor or 0, or the negation of
-- a guest errno.
use wasmtime_mysql.Prelude.{
  ℕ, List, [], ◌≤◌, ◌^◌, ◌≡◌, inl, inr, Bool, true, false, arith, Option, none, some, ℤ, pos,
  negsuc, neg_errno, suc, zero, lookup, Option-cases, err, Bool-cases, Result-cases, ltb, leb,
  i32_max, ◌==ℤ◌, if◌then◌else◌,
}
use wasmtime_mysql.Errno.{HostErrno, ebadf}
use wasmtime_mysql.Errno.Range.{IsErrno}
use wasmtime_mysql.Guest.{Bytes}
use wasmtime_mysql.Paths.{resolve_parent, PreopenMapping}
use wasmtime_mysql.Paths.Confined.{resolve_parent-error}
use wasmtime_mysql.Files.{
  HostFiles, pread, pwrite, seek, truncate, sync, sync_parent, sync_opened, lock_exclusive,
  with_file, answer_of, failed, count_i32, position_i64, io_errno, seek_from, seek_file,
}
use wasmtime_mysql.Files.Host.{FileSystem, IoResult, io_ok, io_err, SeekFrom}
use wasmtime_mysql.Files.Table.{open_cases, close_cases, io_errno-IsErrno}
use wasmtime_mysql.Files.History.{
  Call, opens, closes, preads, pwrites, seeks, truncates, syncs, syncs_parent, locks, perform,
}

-- A number from 0 up, or -1 to -76.
abbrev pub IsAnswer : ℤ → Type 0
IsAnswer (pos n) = Unit {0}
IsAnswer (negsuc n) = suc n ≤ 76

neg_errno-IsAnswer : (e : ℤ) → IsErrno e → IsAnswer (neg_errno e)
neg_errno-IsAnswer (pos zero) h = tt
neg_errno-IsAnswer (pos (suc n)) h = h.1
neg_errno-IsAnswer (negsuc n) h = tt

count_i32-IsAnswer : (n : ℕ) → IsAnswer (count_i32 n)
count_i32-IsAnswer n = elim (Bool-cases (leb n i32_max)) [
  | inl e ↦ rw e tt
  | inr e ↦ rw e (omega arith)
]

module _ (libc : HostErrno) (fs : FileSystem) where
  open fs use {World, File}

  failed-IsAnswer : (e : Option ℤ) → IsAnswer (failed libc fs e)
  failed-IsAnswer e = neg_errno-IsAnswer (io_errno libc e) (io_errno-IsErrno libc e)

  position-IsAnswer : (n : ℕ) → IsAnswer (position_i64 libc fs n)
  position-IsAnswer n = elim (Bool-cases (ltb n (2 ^ 63))) [
    | inl e ↦ rw e tt
    | inr e ↦ rw e (omega arith)
  ]

  answer_of-IsAnswer :
      {A : Type 0} (good : A → ℤ)
      → ((a : A) → IsAnswer (good a))
      → (r : IoResult A) → IsAnswer (answer_of libc fs good (λ e. e) r)
  answer_of-IsAnswer good h (io_ok a) = h a
  answer_of-IsAnswer good h (io_err e) = failed-IsAnswer e

  with_file-elim {ℓ κ} :
      {R : Type ℓ} (P : R → Type κ) (fd : ℤ) (answer : ℤ → R) (call : File → World → R × World)
      (t : HostFiles File) (w : World)
      → P (answer (neg_errno ebadf))
      → ((file : File) → P (call file w).0)
      → P (with_file libc fs fd answer call (t, w)).0
  unfolding with_file
  with_file-elim P fd answer call t w z h = elim (Option-cases (lookup fd t.files)) [
    | inl e ↦ rw (e, with_file) z
    | inr (file, e) ↦ rw (e, with_file) (h file)
  ]

  seek_file-IsAnswer :
      (o : Option SeekFrom) (file : File) (w : World) → IsAnswer (seek_file libc fs o file w).0
  seek_file-IsAnswer none file w = omega arith
  seek_file-IsAnswer (some target) file w =
      answer_of-IsAnswer (position_i64 libc fs) position-IsAnswer (fs.seek file target w).0

  read-IsAnswer :
      (r : IoResult (ℕ × Bytes))
      → IsAnswer
          (answer_of libc fs {R = ℤ × Bytes}
            (λ (n, bytes). (count_i32 n, bytes))
            (λ e. (e, []))
            r).0
  read-IsAnswer (io_ok (n, bytes)) = count_i32-IsAnswer n
  read-IsAnswer (io_err e) = failed-IsAnswer e

  sync_opened-IsAnswer :
      (t : HostFiles File) (q : IoResult File × World) → IsAnswer (sync_opened libc fs t q).0
  sync_opened-IsAnswer t (io_err e, w) = failed-IsAnswer e
  sync_opened-IsAnswer t (io_ok directory, w) =
      answer_of-IsAnswer (λ _. pos 0) (λ _. tt) (fs.sync_all directory w).0

  parent_error-IsAnswer :
      (preopens : List PreopenMapping) (path : Bytes) (e : ℤ)
      → resolve_parent preopens path ≡ err e
      → IsAnswer (neg_errno e)
  parent_error-IsAnswer preopens path e r = elim (resolve_parent-error preopens path e r) [
    | inl same ↦ rw same (omega arith)
    | inr (inl same) ↦ rw same (omega arith)
    | inr (inr same) ↦ rw same (omega arith)
  ]

  sync_parent-IsAnswer :
      (path : Bytes) (t : HostFiles File) (w : World) → IsAnswer (sync_parent libc fs path (t, w)).0
  unfolding sync_parent
  sync_parent-IsAnswer path t w = elim (Result-cases (resolve_parent t.preopens path)) [
    | inr (e, r) ↦ rw (r, sync_parent) (parent_error-IsAnswer t.preopens path e r)
    | inl (d, r) ↦ rw (r, sync_parent) (sync_opened-IsAnswer t (fs.open_directory d w))
  ]

  lock-IsAnswer : (b : Bool) (e : Option ℤ) → IsAnswer (if b then pos 0 else failed libc fs e)
  lock-IsAnswer true e = tt
  lock-IsAnswer false e = failed-IsAnswer e

  -- Every call answers a number from 0 up or the negation of a guest errno.
  pub perform-IsAnswer :
      (c : Call) (t : HostFiles File) (w : World) → IsAnswer (perform libc fs c (t, w)).0
  unfolding perform pread pwrite seek truncate sync lock_exclusive
  perform-IsAnswer (opens path flags) t w =
      open_cases libc fs (λ r. IsAnswer r.0) path flags t w (λ e _ h. neg_errno-IsAnswer e h)
        (λ _ _ _ _ _. tt)
  perform-IsAnswer (closes fd) t w =
      close_cases libc fs (λ r. IsAnswer r.0) fd t w (λ _. omega arith) (λ _ _ _. tt)
  perform-IsAnswer (preads fd len offset) t w =
      with_file-elim (λ (r : ℤ × Bytes). IsAnswer r.0) fd _ _ t w (omega arith)
        (λ file. read-IsAnswer (fs.read_at file len offset w).0)
  perform-IsAnswer (pwrites fd buf offset) t w =
      with_file-elim IsAnswer fd _ _ t w (omega arith)
        (λ file. answer_of-IsAnswer count_i32 count_i32-IsAnswer (fs.write_at file buf offset w).0)
  perform-IsAnswer (seeks fd offset whence) t w =
      with_file-elim IsAnswer fd _ _ t w (omega arith)
        (λ file. seek_file-IsAnswer (seek_from libc fs offset whence) file w)
  perform-IsAnswer (truncates fd size) t w =
      with_file-elim IsAnswer fd _ _ t w (omega arith)
        (λ file. answer_of-IsAnswer (λ _. pos 0) (λ _. tt) (fs.set_len file size w).0)
  perform-IsAnswer (syncs fd data_only) t w =
      with_file-elim IsAnswer fd _ _ t w (omega arith) (λ file.
        answer_of-IsAnswer (λ _. pos 0) (λ _. tt)
          (if data_only then fs.sync_data file w else fs.sync_all file w).0)
  perform-IsAnswer (syncs_parent path) t w = sync_parent-IsAnswer path t w
  perform-IsAnswer (locks fd) t w =
      with_file-elim IsAnswer fd _ _ t w (omega arith)
        (λ file. lock-IsAnswer ((fs.set_write_lock file w).0 ==ℤ pos 0) _)
