-- ===== src/Locks/Untouched.antt =====
-- The calls on an open file leave the locks and the named objects alone.
use wasmtime_mysql.Prelude.{
  ℕ, refl, true, false, List, Option, none, some, lookup, ℤ, inl, inr, Option-cases,
}
use wasmtime_mysql.Paths.{PathBuf}
use wasmtime_mysql.Files.Host.{SeekFrom}
use wasmtime_mysql.Locks.{LockedFiles}
use wasmtime_mysql.Locks.Host.{Windows, NamesObjects}
use wasmtime_mysql.Locks.Access.{
  Access, reads, writes, seeks, truncates, flushes, access, pread, pwrite, seek, seek_file,
  seek_from, truncate, sync, with_file,
}
use wasmtime_mysql.Locks.Objects.{SameObjects, Untouched}

module _ {World File : Type 0} (code_units : PathBuf → List ℕ) (host : ℕ → Windows World File)
    (law : NamesObjects host) (i : ℕ) where
  with_file-Untouched {ℓ} :
      {R : Type ℓ} (fd : ℤ) (answer : ℤ → R) (call : File → World → R × World)
      (t : LockedFiles File) (w : World)
      → ((file : File) → SameObjects code_units host law i w (call file w).1)
      → Untouched code_units host law i
          (t, w)
          (with_file code_units (host i) fd answer call (t, w)).1
  unfolding with_file
  with_file-Untouched fd answer call t w same = elim (Option-cases (lookup fd t.files)) [
    | inl e ↦ rw (e, with_file) (refl, λ j k. refl)
    | inr (file, e) ↦ rw (e, with_file) (refl, same file)
  ]

  seek_file-SameObjects :
      (o : Option SeekFrom) (file : File) (w : World)
      → SameObjects code_units host law i w (seek_file code_units (host i) o file w).1
  seek_file-SameObjects none file w j k = refl
  seek_file-SameObjects (some target) file w j k = law.sought i file target w j k

  pub access-Untouched :
      (a : Access) (t : LockedFiles File) (w : World)
      → Untouched code_units host law i (t, w) (access code_units (host i) a (t, w)).1
  unfolding access pread pwrite seek truncate sync
  access-Untouched (reads fd len offset) t w =
      with_file-Untouched fd _ _ t w λ file. law.read i file len offset w
  access-Untouched (writes fd buf offset) t w =
      with_file-Untouched fd _ _ t w λ file. law.written i file buf offset w
  access-Untouched (seeks fd offset whence) t w =
      with_file-Untouched fd _ _ t w
        λ file. seek_file-SameObjects (seek_from code_units (host i) offset whence) file w
  access-Untouched (truncates fd size) t w =
      with_file-Untouched fd _ _ t w λ file. law.resized i file size w
  access-Untouched (flushes fd true) t w =
      with_file-Untouched fd _ _ t w λ file. law.synced_data i file w
  access-Untouched (flushes fd false) t w =
      with_file-Untouched fd _ _ t w λ file. law.synced_all i file w
