-- ===== src/Files/Table.antt =====
-- The table of open files: which descriptors it holds, over any history of calls.
use wasmtime_mysql.Prelude.{◌≡◌, refl, inl, inr, List, arith, Option, none, some}
use wasmtime_mysql.Prelude.{
  ℤ, pos, saturating_suc, neg_errno, lookup, insert, remove, Bool-cases, Option-cases, ok, err,
  has_bits, Result-cases,
}
use wasmtime_mysql.Descriptors.{IsIssued, insert-IsIssued, remove-IsIssued}
use wasmtime_mysql.Errno.Range.{IsErrno, from_host_errno-IsErrno}
use wasmtime_mysql.Paths.Confined.{resolve-errors}
use wasmtime_mysql.Errno.{HostErrno, ebadf, eisdir}
use wasmtime_mysql.Guest.{Bytes}
use wasmtime_mysql.Paths.{resolve, PathBuf, PreopenMapping}
use wasmtime_mysql.Files.{
  HostFiles, guest_fd_base, State, open_file, open_options, close, enter, io_errno,
  wasi_o_directory,
}
use wasmtime_mysql.Files.Host.{FileSystem, IoResult, io_ok, io_err}

abbrev pub IsValid : {File : Type 0} → HostFiles File → Type 0
IsValid t = IsIssued guest_fd_base t.next_fd t.files

module _ {File : Type 0} where
  abbrev pub with_next : HostFiles File → File → HostFiles File
  with_next t file = record t {
    next_fd = saturating_suc t.next_fd;
    files = insert (pos t.next_fd) file t.files;
  }

  abbrev pub without : HostFiles File → ℤ → HostFiles File
  without t fd = record t { files = remove fd t.files }

  pub with_next-IsValid :
      (t : HostFiles File) (file : File) → IsValid t → IsValid (with_next t file)
  with_next-IsValid t file v = insert-IsIssued guest_fd_base t.next_fd t.files file v

  pub without-IsValid : (t : HostFiles File) (fd : ℤ) → IsValid t → IsValid (without t fd)
  without-IsValid t fd v = remove-IsIssued guest_fd_base t.next_fd t.files fd v

pub resolve-IsErrno :
    (preopens : List PreopenMapping) (path : Bytes) (e : ℤ)
    → resolve preopens path ≡ err e
    → IsErrno e
resolve-IsErrno preopens path e r = elim (resolve-errors preopens path e r) [
  | inl (same, _) ↦ rw same (omega arith)
  | inr same ↦ rw same (omega arith)
]

pub io_errno-IsErrno : (libc : HostErrno) (e : Option ℤ) → IsErrno (io_errno libc e)
unfolding io_errno
io_errno-IsErrno libc none = omega arith
io_errno-IsErrno libc (some code) = from_host_errno-IsErrno libc code

module _ (libc : HostErrno) (fs : FileSystem) where
  open fs use {World, File}

  -- The outcomes of `open`: a refusal that leaves the table alone, or a new entry for a file that
  -- the file system opened at the path's host path.
  pub open_cases {ℓ} :
      (P : ℤ × State libc fs → Type ℓ) (path : Bytes) (flags : ℤ) (t : HostFiles File) (w : World)
      → ((e : ℤ) (w' : World) → IsErrno e → P (neg_errno e, (t, w')))
      → ((file : File) (w' : World) (h : PathBuf)
          → resolve t.preopens path ≡ ok h
          → (fs.open_path (open_options flags) h w).0 ≡ io_ok file
          → P (pos t.next_fd, (with_next t file, w')))
      → P (open_file libc fs path flags (t, w))
  unfolding open_file
  open_cases P path flags t w refused opened = elim (Result-cases (resolve t.preopens path)) [
    | inr (e, r) ↦ rw (r, open_file) (refused e w (resolve-IsErrno t.preopens path e r))
    | inl (h, r) ↦ elim (Bool-cases (has_bits flags wasi_o_directory)) [
      | inl dir ↦ rw (r, open_file, dir) (refused eisdir w (omega arith))
      | inr plain ↦
          rw (r, open_file, plain)
            (entered (fs.open_path (open_options flags) h w) (λ file w' e. opened file w' h r e))
    ]
  ]
    where
      entered :
          (q : IoResult File × World)
          → ((file : File) (w' : World)
              → q.0 ≡ io_ok file
              → P (pos t.next_fd, (with_next t file, w')))
          → P (enter libc fs t q)
      entered (io_err e, w') k = refused (io_errno libc e) w' (io_errno-IsErrno libc e)
      entered (io_ok file, w') k = k file _ refl

  pub close_cases {ℓ} :
      (P : ℤ × State libc fs → Type ℓ) (fd : ℤ) (t : HostFiles File) (w : World)
      → (lookup fd t.files ≡ none → P (neg_errno ebadf, (t, w)))
      → ((file : File) (w' : World) → lookup fd t.files ≡ some file → P (pos 0, (without t fd, w')))
      → P (close libc fs fd (t, w))
  unfolding close
  close_cases P fd t w missing found = elim (Option-cases (lookup fd t.files)) [
    | inl e ↦ rw (e, close) (missing e)
    | inr (file, e) ↦ rw (e, close) (found file _ e)
  ]
