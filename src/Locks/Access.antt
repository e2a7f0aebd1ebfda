-- ===== src/Locks/Access.antt =====
-- src/host_files.rs on Windows: the calls on an open file, which leave the table alone.
use wasmtime_mysql.Prelude.{
  ℕ, ◌^◌, Bool, List, [], Option, none, some, ltb, if◌then◌else◌, ◌==ℤ◌, ℤ, pos, negsuc, neg_errno,
  lookup,
}
use wasmtime_mysql.Errno.{ebadf, einval, eoverflow}
use wasmtime_mysql.Guest.{Bytes}
use wasmtime_mysql.Paths.{PathBuf}
use wasmtime_mysql.Files.{count_i32}
use wasmtime_mysql.Files.Host.{SeekFrom, start, current, end, IoResult, io_ok, io_err}
use wasmtime_mysql.Locks.Host.{Windows}
use wasmtime_mysql.Locks.{State, failed}

module _ {World File : Type 0} (code_units : PathBuf → List ℕ) (os : Windows World File) where
  -- `let Some(file) = inner.files.get(&fd) else { return neg_errno(errno::EBADF) }`
  unfoldable pub with_file {ℓ} :
      {R : Type ℓ}
      → ℤ
      → (ℤ → R)
      → (File → World → R × World)
      → State code_units os
      → R × State code_units os
  with_file fd answer call (t, w) = elim (lookup fd t.files) [
    | none ↦ (answer (neg_errno ebadf), (t, w))
    | some file ↦ let (r, w') = call file w in (r, (t, w'))
  ]

  abbrev pub answer_of {ℓ κ} : {A : Type ℓ} {R : Type κ} → (A → R) → (ℤ → R) → IoResult A → R
  answer_of good bad (io_ok a) = good a
  answer_of good bad (io_err e) = bad (failed code_units os e)

  -- The bytes of the buffer are returned beside the answer.
  unfoldable pub pread : ℤ → ℕ → ℕ → State code_units os → (ℤ × Bytes) × State code_units os
  pread fd len offset =
      with_file fd (λ e. (e, []))
        λ file w.
          let (r, w') = os.seek_read file len offset w in
          (answer_of (λ (n, bytes). (count_i32 n, bytes)) (λ e. (e, [])) r, w')

  unfoldable pub pwrite : ℤ → Bytes → ℕ → State code_units os → ℤ × State code_units os
  pwrite fd buf offset =
      with_file fd (λ e. e)
        λ file w.
          let (r, w') = os.seek_write file buf offset w in (answer_of count_i32 (λ e. e) r, w')

  abbrev pub position_i64 : ℕ → ℤ
  position_i64 n = if ltb n (2 ^ 63) then pos n else neg_errno eoverflow

  abbrev pub seek_from : ℤ → ℤ → Option SeekFrom
  seek_from offset whence =
      if whence ==ℤ os.seek_set
      then (elim offset [ pos n ↦ some (start n) | negsuc n ↦ none ])
      else if whence ==ℤ os.seek_cur
      then some (current offset)
      else if whence ==ℤ os.seek_end
      then some (end offset)
      else none

  abbrev pub seek_file : Option SeekFrom → File → World → ℤ × World
  seek_file none file w = (neg_errno einval, w)
  seek_file (some target) file w =
      let (r, w') = os.seek file target w in (answer_of position_i64 (λ e. e) r, w')

  unfoldable pub seek : ℤ → ℤ → ℤ → State code_units os → ℤ × State code_units os
  seek fd offset whence = with_file fd (λ e. e) (seek_file (seek_from offset whence))

  unfoldable pub truncate : ℤ → ℕ → State code_units os → ℤ × State code_units os
  truncate fd size =
      with_file fd (λ e. e)
        λ file w. let (r, w') = os.set_len file size w in (answer_of (λ _. pos 0) (λ e. e) r, w')

  unfoldable pub sync : ℤ → Bool → State code_units os → ℤ × State code_units os
  sync fd data_only =
      with_file fd (λ e. e)
        λ file w.
          let (r, w') = if data_only then os.sync_data file w else os.sync_all file w in
          (answer_of (λ _. pos 0) (λ e. e) r, w')

-- The calls on an open file, with their arguments.
pub data Access : Type 0 where
  reads : ℤ → ℕ → ℕ → Access
  writes : ℤ → Bytes → ℕ → Access
  seeks : ℤ → ℤ → ℤ → Access
  truncates : ℤ → ℕ → Access
  flushes : ℤ → Bool → Access

module _ {World File : Type 0} (code_units : PathBuf → List ℕ) (os : Windows World File) where
  unfoldable pub access : Access → State code_units os → ℤ × State code_units os
  access (reads fd len offset) s =
      let ((answer, bytes), s') = pread code_units os fd len offset s in (answer, s')
  access (writes fd buf offset) s = pwrite code_units os fd buf offset s
  access (seeks fd offset whence) s = seek code_units os fd offset whence s
  access (truncates fd size) s = truncate code_units os fd size s
  access (flushes fd data_only) s = sync code_units os fd data_only s
