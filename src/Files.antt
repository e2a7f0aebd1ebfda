-- ===== src/Files.antt =====
-- src/host_files.rs on Unix: the table of open files and the operations on it. The file system is a
-- parameter: a state and the calls of `std::fs` and `fcntl` that the source makes.
pub mod Host
pub mod Calls
pub mod Table
pub mod History
pub mod Descriptors
pub mod Answers
pub mod Transfer
use wasmtime_mysql.Prelude.{
  ℕ, ◌+◌, ◌*◌, ◌^◌, Bool, true, false, not, ◌&&◌, ◌||◌, List, [], ◌∷◌, ◌++◌, Option, none, some,
}
use wasmtime_mysql.Prelude.{
  leb, ltb, if◌then◌else◌, ◌==ℤ◌, ℤ, pos, negsuc, has_bits, saturating_suc, i32_max, neg_errno,
}
use wasmtime_mysql.Prelude.{Result, ok, err, ◌>>=◌, Dict, lookup, insert, remove}
use wasmtime_mysql.Errno.{HostErrno, from_host_errno, eio, eisdir, ebadf, eoverflow, einval}
use wasmtime_mysql.Guest.{Bytes, Export}
use wasmtime_mysql.Paths.Text.{dot}
use wasmtime_mysql.Paths.{
  PathBuf, PreopenMapping, normalize_guest_path, resolve, resolve_parent, sort_preopens,
}
use Host.{FileSystem, OpenOptions, SeekFrom, start, current, end, IoResult, io_ok, io_err}

abbrev pub guest_fd_base : ℕ
guest_fd_base = 20000

abbrev pub wasi_o_append : ℕ
wasi_o_append = 0x0001

abbrev pub wasi_o_creat : ℕ
wasi_o_creat = 0x1000

abbrev pub wasi_o_directory : ℕ
wasi_o_directory = 0x2000

abbrev pub wasi_o_excl : ℕ
wasi_o_excl = 0x4000

abbrev pub wasi_o_trunc : ℕ
wasi_o_trunc = 0x8000

abbrev pub wasi_o_rdonly : ℕ
wasi_o_rdonly = 0x0400_0000

abbrev pub wasi_o_wronly : ℕ
wasi_o_wronly = 0x1000_0000

-- `HostFilesInner`, over the type of open files.
pub record HostFiles (File : Type 0) : Type 0 where
  pub next_fd : ℕ
  pub files : Dict File
  pub preopens : List PreopenMapping

-- The parts of `Cli` that `HostFiles::new` reads.
pub record CliPreopen : Type 0 where
  pub host : PathBuf
  pub guest : Bytes

unfoldable pub given_preopens : List CliPreopen → Result (List PreopenMapping)
given_preopens [] = ok []
given_preopens (p ∷ ps) = do
  guest ← normalize_guest_path p.guest
  rest ← given_preopens ps
  ok (record { guest = guest; host = p.host } ∷ rest)

abbrev or_dot : Result Bytes → Bytes
or_dot (ok s) = s
or_dot (err e) = dot

unfoldable pub default_preopens : Bool → Result PathBuf → Result (List PreopenMapping)
default_preopens true cwd = ok []
default_preopens false cwd = do
  host ← cwd
  ok (record { guest = or_dot (normalize_guest_path dot); host = host } ∷ [])

-- `HostFiles::new`, given `no_default_preopen`, the preopens and the current directory.
unfoldable pub new :
    {File : Type 0} → Bool → List CliPreopen → Result PathBuf → Result (HostFiles File)
unfolding given_preopens default_preopens
new no_default given cwd = do
  first ← default_preopens no_default cwd
  rest ← given_preopens given
  ok (record { next_fd = guest_fd_base; files = []; preopens = sort_preopens (first ++ rest) })

unfoldable pub io_errno : HostErrno → Option ℤ → ℤ
io_errno libc none = eio
io_errno libc (some code) = from_host_errno libc code

-- The flags that `open` sets in its `OpenOptions`.
unfoldable pub open_options : ℤ → OpenOptions
open_options flags =
    let write = has_bits flags wasi_o_wronly in
    let create = has_bits flags wasi_o_creat in
    let excl = has_bits flags wasi_o_excl in
    record {
      read = has_bits flags wasi_o_rdonly || not write;
      write = write;
      append = has_bits flags wasi_o_append;
      create = create && not excl;
      create_new = create && excl;
      truncate = has_bits flags wasi_o_trunc;
    }

-- `i32::try_from(n).unwrap_or_else(|_| neg_errno(errno::EOVERFLOW))`
abbrev pub count_i32 : ℕ → ℤ
count_i32 n = if leb n i32_max then pos n else neg_errno eoverflow

module _ (libc : HostErrno) (fs : FileSystem) where
  open fs use {World, File}

  abbrev pub State : Type 0
  State = HostFiles File × World

  abbrev pub failed : Option ℤ → ℤ
  failed e = neg_errno (io_errno libc e)

  -- The end of `open`: the table's next descriptor goes to the file.
  abbrev pub enter : HostFiles File → IoResult File × World → ℤ × State
  enter t (io_err e, w) = (failed e, (t, w))
  enter t (io_ok file, w) = (
    pos t.next_fd,
    (
      record t { next_fd = saturating_suc t.next_fd; files = insert (pos t.next_fd) file t.files },
      fs.drop_replaced (lookup (pos t.next_fd) t.files) w,
    ),
  )

  unfoldable pub open_file : Bytes → ℤ → State → ℤ × State
  open_file guest_path flags (t, w) = elim (resolve t.preopens guest_path) [
    | err e ↦ (neg_errno e, (t, w))
    | ok host_path ↦
        if has_bits flags wasi_o_directory
        then (neg_errno eisdir, (t, w))
        else enter t (fs.open_path (open_options flags) host_path w)
  ]

  unfoldable pub close : ℤ → State → ℤ × State
  close fd (t, w) = elim (lookup fd t.files) [
    | none ↦ (neg_errno ebadf, (t, w))
    | some file ↦ (pos 0, (record t { files = remove fd t.files }, fs.drop_replaced (some file) w))
  ]

  -- A call on the file of a descriptor, and EBADF where there is none.
  unfoldable pub with_file {ℓ} :
      {R : Type ℓ} → ℤ → (ℤ → R) → (File → World → R × World) → State → R × State
  with_file fd answer call (t, w) = elim (lookup fd t.files) [
    | none ↦ (answer (neg_errno ebadf), (t, w))
    | some file ↦ let (r, w') = call file w in (r, (t, w'))
  ]

  abbrev pub answer_of {ℓ κ} : {A : Type ℓ} {R : Type κ} → (A → R) → (ℤ → R) → IoResult A → R
  answer_of good bad (io_ok a) = good a
  answer_of good bad (io_err e) = bad (failed e)

  -- The buffer of `pread` is a slice of the caller's: its bytes are returned beside the answer.
  unfoldable pub pread : ℤ → ℕ → ℕ → State → (ℤ × Bytes) × State
  pread fd len offset =
      with_file fd (λ e. (e, []))
        λ file w.
          let (r, w') = fs.read_at file len offset w in
          (answer_of (λ (n, bytes). (count_i32 n, bytes)) (λ e. (e, [])) r, w')

  unfoldable pub pwrite : ℤ → Bytes → ℕ → State → ℤ × State
  pwrite fd buf offset =
      with_file fd (λ e. e)
        λ file w.
          let (r, w') = fs.write_at file buf offset w in (answer_of count_i32 (λ e. e) r, w')

  -- `i64::try_from(pos)`
  abbrev pub position_i64 : ℕ → ℤ
  position_i64 n = if ltb n (2 ^ 63) then pos n else neg_errno eoverflow

  -- `libc::SEEK_SET`, `SEEK_CUR` and `SEEK_END` are 0, 1 and 2.
  abbrev pub seek_from : ℤ → ℤ → Option SeekFrom
  seek_from offset whence =
      if whence ==ℤ fs.seek_set
      then (elim offset [ pos n ↦ some (start n) | negsuc n ↦ none ])
      else if whence ==ℤ fs.seek_cur
      then some (current offset)
      else if whence ==ℤ fs.seek_end
      then some (end offset)
      else none

  -- Another `whence`, or a negative start, is answered EINVAL.
  abbrev pub seek_file : Option SeekFrom → File → World → ℤ × World
  seek_file none file w = (neg_errno einval, w)
  seek_file (some target) file w =
      let (r, w') = fs.seek file target w in (answer_of position_i64 (λ e. e) r, w')

  unfoldable pub seek : ℤ → ℤ → ℤ → State → ℤ × State
  seek fd offset whence = with_file fd (λ e. e) (seek_file (seek_from offset whence))

  unfoldable pub truncate : ℤ → ℕ → State → ℤ × State
  truncate fd size =
      with_file fd (λ e. e)
        λ file w. let (r, w') = fs.set_len file size w in (answer_of (λ _. pos 0) (λ e. e) r, w')

  unfoldable pub sync : ℤ → Bool → State → ℤ × State
  sync fd data_only =
      with_file fd (λ e. e)
        λ file w.
          let (r, w') = if data_only then fs.sync_data file w else fs.sync_all file w in
          (answer_of (λ _. pos 0) (λ e. e) r, w')

  -- `File::open(parent).and_then(|directory| directory.sync_all())`: the directory is closed again.
  abbrev pub sync_opened : HostFiles File → IoResult File × World → ℤ × State
  sync_opened t (io_err e, w) = (failed e, (t, w))
  sync_opened t (io_ok directory, w) =
      let (s, w') = fs.sync_all directory w in
      (answer_of (λ _. pos 0) (λ e. e) s, (t, fs.drop_replaced (some directory) w'))

  unfoldable pub sync_parent : Bytes → State → ℤ × State
  sync_parent guest_path (t, w) = elim (resolve_parent t.preopens guest_path) [
    | err e ↦ (neg_errno e, (t, w))
    | ok directory ↦ sync_opened t (fs.open_directory directory w)
  ]

  unfoldable pub lock_exclusive : ℤ → State → ℤ × State
  lock_exclusive fd =
      with_file fd (λ e. e)
        λ file w.
          let (rc, w') = fs.set_write_lock file w in
          (if rc ==ℤ pos 0 then pos 0 else failed (fs.last_error w'), w')
