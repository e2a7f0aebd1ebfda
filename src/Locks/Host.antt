-- ===== src/Locks/Host.antt =====
-- What the Windows build of src/host_files.rs uses of the system for its files and locks, as one process
-- sees it: a `World` is the state that the processes of one session share.
use wasmtime_mysql.Prelude.{
  ℕ, ◌≡◌, ◌≢◌, ◌==◌, ◌==ℤ◌, ◌&&◌, true, false, List, Option, none, some, ℤ, if◌then◌else◌,
}
use wasmtime_mysql.Guest.{Bytes}
use wasmtime_mysql.Paths.{PathBuf}
use wasmtime_mysql.Files.Host.{OpenOptions, SeekFrom, IoResult}

pub record Windows (World File : Type 0) : Type 0 where
  pub open_path : OpenOptions → PathBuf → World → IoResult File × World
  pub drop_file : File → World → World
  -- `FileExt::seek_read` of at most so many bytes at an offset: how many were read, and the buffer.
  pub seek_read : File → ℕ → ℕ → World → IoResult (ℕ × Bytes) × World
  pub seek_write : File → Bytes → ℕ → World → IoResult ℕ × World
  pub seek : File → SeekFrom → World → IoResult ℕ × World
  pub set_len : File → ℕ → World → IoResult (Unit {0}) × World
  pub sync_data : File → World → IoResult (Unit {0}) × World
  pub sync_all : File → World → IoResult (Unit {0}) × World
  -- `std::fs::canonicalize`; nothing where it fails.
  pub canonicalize : PathBuf → World → Option PathBuf
  -- `CreateFileMappingW(INVALID_HANDLE_VALUE, null, PAGE_READWRITE, 0, 1, name)`; null is 0.
  pub create_file_mapping : List ℕ → World → ℕ × World
  pub close_handle : ℕ → World → World
  pub get_last_error : World → ℤ
  -- `CreateFileW` of a directory, as `sync_directory` calls it.
  pub create_file : PathBuf → World → ℕ × World
  pub flush_file_buffers : ℕ → World → ℤ × World
  pub error_already_exists : ℤ
  pub invalid_handle_value : ℕ
  -- `libc::SEEK_SET`, `SEEK_CUR`, `SEEK_END`
  pub seek_set : ℤ
  pub seek_cur : ℤ
  pub seek_end : ℤ

-- The documented behaviour of named objects, for the processes of one Windows session, since the names of
-- the locks begin with "Local\": `objects w i h` is the name of the object that the handle `h` of the process `i` stands for. A name is given to one object, which
-- lives as long as a handle to it; making it again gives another handle and reports that it exists.
pub record NamesObjects {World File : Type 0} (host : ℕ → Windows World File) : Type 0 where
  pub objects : World → ℕ → ℕ → Option (List ℕ)
  pub refused :
      (i : ℕ) (n : List ℕ) (w : World)
      → (((host i).create_file_mapping n w).0 == 0) ≡ true
      → (j k : ℕ) → objects ((host i).create_file_mapping n w).1 j k ≡ objects w j k
  pub fresh :
      (i : ℕ) (n : List ℕ) (w : World)
      → (((host i).create_file_mapping n w).0 == 0) ≡ false
      → objects w i ((host i).create_file_mapping n w).0 ≡ none
  pub created :
      (i : ℕ) (n : List ℕ) (w : World)
      → (((host i).create_file_mapping n w).0 == 0) ≡ false
      → (j k : ℕ)
      → objects ((host i).create_file_mapping n w).1 j k ≡ (
          if (i == j) && (((host i).create_file_mapping n w).0 == k) then some n else objects w j k)
  pub reported :
      (i : ℕ) (n : List ℕ) (w : World)
      → (((host i).create_file_mapping n w).0 == 0) ≡ false
      → (j k : ℕ) → objects w j k ≡ some n
      → ((host i).get_last_error ((host i).create_file_mapping n w).1
          ==ℤ (host i).error_already_exists)
        ≡ true
  pub unreported :
      (i : ℕ) (n : List ℕ) (w : World)
      → (((host i).create_file_mapping n w).0 == 0) ≡ false
      → ((j k : ℕ) → objects w j k ≢ some n)
      → ((host i).get_last_error ((host i).create_file_mapping n w).1
          ==ℤ (host i).error_already_exists)
        ≡ false
  pub closed :
      (i h : ℕ) (w : World) (j k : ℕ)
      → objects ((host i).close_handle h w) j k
        ≡ (if (i == j) && (h == k) then none else objects w j k)
  pub opened :
      (i : ℕ) (options : OpenOptions) (p : PathBuf) (w : World) (j k : ℕ)
      → objects ((host i).open_path options p w).1 j k ≡ objects w j k
  pub dropped :
      (i : ℕ) (file : File) (w : World) (j k : ℕ)
      → objects ((host i).drop_file file w) j k ≡ objects w j k
  -- Calls on an open file leave the named objects alone.
  pub read :
      (i : ℕ) (file : File) (len offset : ℕ) (w : World) (j k : ℕ)
      → objects ((host i).seek_read file len offset w).1 j k ≡ objects w j k
  pub written :
      (i : ℕ) (file : File) (buf : Bytes) (offset : ℕ) (w : World) (j k : ℕ)
      → objects ((host i).seek_write file buf offset w).1 j k ≡ objects w j k
  pub sought :
      (i : ℕ) (file : File) (target : SeekFrom) (w : World) (j k : ℕ)
      → objects ((host i).seek file target w).1 j k ≡ objects w j k
  pub resized :
      (i : ℕ) (file : File) (size : ℕ) (w : World) (j k : ℕ)
      → objects ((host i).set_len file size w).1 j k ≡ objects w j k
  pub synced_data :
      (i : ℕ) (file : File) (w : World) (j k : ℕ)
      → objects ((host i).sync_data file w).1 j k ≡ objects w j k
  pub synced_all :
      (i : ℕ) (file : File) (w : World) (j k : ℕ)
      → objects ((host i).sync_all file w).1 j k ≡ objects w j k
  -- The handle of a directory is not that of a named object.
  pub directory_opened :
      (i : ℕ) (p : PathBuf) (w : World) (j k : ℕ)
      → objects ((host i).create_file p w).1 j k ≡ objects w j k
  pub directory_handle :
      (i : ℕ) (p : PathBuf) (w : World)
      → (((host i).create_file p w).0 == (host i).invalid_handle_value) ≡ false
      → objects w i ((host i).create_file p w).0 ≡ none
  pub flushed_file :
      (i h : ℕ) (w : World) (j k : ℕ)
      → objects ((host i).flush_file_buffers h w).1 j k ≡ objects w j k
