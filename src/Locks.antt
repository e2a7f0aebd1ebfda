-- ===== src/Locks.antt =====
-- src/host_files.rs on Windows: opening and closing files, the locks, and the sync of a directory. A lock
-- is a named object of the system, held until the table of files is dropped.
pub mod Host
pub mod Access
pub mod Objects
pub mod Untouched
pub mod System
pub mod Held
pub mod Exclusion
pub mod Name
use wasmtime_mysql.Prelude.{
  ℕ, zero, suc, ◌+◌, ◌*◌, ◌/◌, ◌%◌, ◌^◌, bit_xor, Bool, true, false, ◌&&◌, ◌||◌, List, [], ◌∷◌,
  ◌++◌, map, Option, none, some, ltb, if◌then◌else◌, ◌==ℤ◌, ◌==◌, ℤ, pos, has_bits, saturating_suc,
  neg_errno, Result, ok, err, ◌>>=◌, Dict, lookup, insert, remove,
}
use wasmtime_mysql.Errno.{from_windows_error, eio, eisdir, ebadf, eagain}
use wasmtime_mysql.Guest.{Bytes}
use wasmtime_mysql.Paths.{
  PathBuf, PreopenMapping, path_starts_with, resolve, resolve_parent, sort_preopens,
}
use wasmtime_mysql.Files.{
  guest_fd_base, wasi_o_directory, open_options, CliPreopen, given_preopens, default_preopens,
}
use wasmtime_mysql.Files.Host.{IoResult, io_ok, io_err}
use Host.{Windows}

-- `HostFilesInner` of the Windows build; a lock is its `handle`.
pub record LockedFiles (File : Type 0) : Type 0 where
  pub next_fd : ℕ
  pub files : Dict File
  pub lock_paths : Dict PathBuf
  pub locks : List (PathBuf × ℕ)
  pub preopens : List PreopenMapping

unfoldable pub new :
    {File : Type 0} → Bool → List CliPreopen → Result PathBuf → Result (LockedFiles File)
new no_default given cwd = do
  first ← default_preopens no_default cwd
  rest ← given_preopens given
  ok (record {
    next_fd = guest_fd_base;
    files = [];
    lock_paths = [];
    locks = [];
    preopens = sort_preopens (first ++ rest);
  })

abbrev pub eq_path : PathBuf → PathBuf → Bool
eq_path p q = path_starts_with p q && path_starts_with q p

-- `contains_key`
abbrev pub contains_lock : PathBuf → List (PathBuf × ℕ) → Bool
contains_lock p [] = false
contains_lock p ((q, h) ∷ locks) = eq_path q p || contains_lock p locks

unfoldable pub windows_io_errno : Option ℤ → ℤ
windows_io_errno none = eio
windows_io_errno (some code) = from_windows_error code

-- `hash ^= unit`, and the product of 64 bits with the prime.
unfoldable pub hash_units : ℕ → List ℕ → ℕ
hash_units hash [] = hash
hash_units hash (u ∷ units) = hash_units (bit_xor hash u * 0x0000_0100_0000_01b3 % 2 ^ 64) units

abbrev pub hex_digit : ℕ → ℕ
hex_digit d = if ltb d 10 then b'0' + d else 87 + d

-- So many hexadecimal digits of a number.
unfoldable pub hex : ℕ → ℕ → List ℕ
hex zero v = []
hex (suc n) v = hex n (v / 16) ++ (hex_digit (v % 16) ∷ [])

-- `Local\wasmtime-mysql-file-`
abbrev pub name_prefix : List ℕ
name_prefix =
    b'L' ∷ b'o' ∷ b'c' ∷ b'a' ∷ b'l' ∷ 92 ∷ b'w' ∷ b'a' ∷ b's' ∷ b'm' ∷ b't' ∷ b'i' ∷ b'm' ∷ b'e'
    ∷ b'-' ∷ b'm' ∷ b'y' ∷ b's' ∷ b'q' ∷ b'l' ∷ b'-' ∷ b'f' ∷ b'i' ∷ b'l' ∷ b'e' ∷ b'-' ∷ []

-- Of the UTF-16 code units of the path in upper case.
unfoldable pub windows_lock_name : List ℕ → List ℕ
windows_lock_name units = name_prefix ++ hex 16 (hash_units 0xcbf2_9ce4_8422_2325 units) ++ (0 ∷ [])

abbrev pub lock_name : (PathBuf → List ℕ) → PathBuf → List ℕ
lock_name code_units p = windows_lock_name (code_units p)

-- `code_units` is `to_string_lossy().to_uppercase().encode_utf16()` of a path.
module _ {World File : Type 0} (code_units : PathBuf → List ℕ) (os : Windows World File) where
  abbrev pub State : Type 0
  State = LockedFiles File × World

  abbrev pub failed : Option ℤ → ℤ
  failed e = neg_errno (windows_io_errno e)

  abbrev pub drop_some : Option File → World → World
  drop_some none w = w
  drop_some (some file) w = os.drop_file file w

  abbrev pub or_path : Option PathBuf → PathBuf → PathBuf
  or_path none p = p
  or_path (some canonical) p = canonical

  -- The end of `open`.
  abbrev pub enter : PathBuf → LockedFiles File → IoResult File × World → ℤ × State
  enter host_path t (io_err e, w) = (failed e, (t, w))
  enter host_path t (io_ok file, w) =
      let lock_path = or_path (os.canonicalize host_path w) host_path in
      (
        pos t.next_fd,
        (
          record t {
            next_fd = saturating_suc t.next_fd;
            files = insert (pos t.next_fd) file t.files;
            lock_paths = insert (pos t.next_fd) lock_path t.lock_paths;
          },
          drop_some (lookup (pos t.next_fd) t.files) w,
        ),
      )

  unfoldable pub open_file : Bytes → ℤ → State → ℤ × State
  open_file guest_path flags (t, w) = elim (resolve t.preopens guest_path) [
    | err e ↦ (neg_errno e, (t, w))
    | ok host_path ↦
        if has_bits flags wasi_o_directory
        then (neg_errno eisdir, (t, w))
        else enter host_path t (os.open_path (open_options flags) host_path w)
  ]

  unfoldable pub close : ℤ → State → ℤ × State
  close fd (t, w) = elim (lookup fd t.files) [
    | none ↦ (neg_errno ebadf, (t, w))
    | some file ↦ (
      pos 0,
      (
        record t { files = remove fd t.files; lock_paths = remove fd t.lock_paths },
        os.drop_file file w,
      ),
    )
  ]

  -- Behind `CreateFileMappingW`.
  abbrev pub taken : PathBuf → LockedFiles File → ℕ × World → ℤ × State
  taken lock_path t (handle, w) =
      if handle == 0
      then (failed (some (os.get_last_error w)), (t, w))
      else if os.get_last_error w ==ℤ os.error_already_exists
      then (neg_errno eagain, (t, os.close_handle handle w))
      else (pos 0, (record t { locks = (lock_path, handle) ∷ t.locks }, w))

  unfoldable pub lock_exclusive : ℤ → State → ℤ × State
  lock_exclusive fd (t, w) = elim (lookup fd t.lock_paths) [
    | none ↦ (neg_errno ebadf, (t, w))
    | some lock_path ↦
        if contains_lock lock_path t.locks then (pos 0, (t, w)) else elim (lookup fd t.files) [
          | none ↦ (neg_errno ebadf, (t, w))
          | some file ↦
              taken lock_path t (os.create_file_mapping (lock_name code_units lock_path) w)
        ]
  ]

  -- The drop of the table, which closes the files and then the handles of the locks.
  unfoldable pub drop_files : Dict File → World → World
  drop_files [] w = w
  drop_files ((fd, file) ∷ files) w = drop_files files (os.drop_file file w)

  unfoldable pub drop_locks : List (PathBuf × ℕ) → World → World
  drop_locks [] w = w
  drop_locks ((p, handle) ∷ locks) w = drop_locks locks (os.close_handle handle w)

  abbrev pub drop_table : State → World
  drop_table (t, w) = drop_locks t.locks (drop_files t.files w)

  -- Behind `CreateFileW`; the error is asked for before the handle is closed.
  abbrev pub flushed : ℕ × World → IoResult (Unit {0}) × World
  flushed (handle, w) =
      if handle == os.invalid_handle_value
      then (io_err (some (os.get_last_error w)), w)
      else (let (rc, w') = os.flush_file_buffers handle w in
          (
            if rc ==ℤ pos 0 then io_err (some (os.get_last_error w')) else io_ok tt,
            os.close_handle handle w',
          ))

  abbrev pub sync_directory : PathBuf → World → IoResult (Unit {0}) × World
  sync_directory path w = flushed (os.create_file path w)

  abbrev pub sync_answer : IoResult (Unit {0}) → ℤ
  sync_answer (io_ok u) = pos 0
  sync_answer (io_err e) = failed e

  unfoldable pub sync_parent : Bytes → State → ℤ × State
  sync_parent guest_path (t, w) = elim (resolve_parent t.preopens guest_path) [
    | err e ↦ (neg_errno e, (t, w))
    | ok directory ↦ let (r, w') = sync_directory directory w in (sync_answer r, (t, w'))
  ]
