-- ===== src/Files/Host.antt =====
-- What the host calls use of the operating system's files: `std::fs` and `fcntl(F_SETLK)`.
use wasmtime_mysql.Prelude.{ℕ, ◌≤◌, ◌≡◌, Bool, Option, length, ℤ}
use wasmtime_mysql.Guest.{Bytes}
use wasmtime_mysql.Paths.{PathBuf}

-- `std::fs::OpenOptions`
pub record OpenOptions : Type 0 where
  pub read : Bool
  pub write : Bool
  pub append : Bool
  pub create : Bool
  pub create_new : Bool
  pub truncate : Bool

-- `std::io::SeekFrom`
pub data SeekFrom : Type 0 where
  start : ℕ → SeekFrom
  current : ℤ → SeekFrom
  end : ℤ → SeekFrom

-- `std::io::Result`: an error is seen by its `raw_os_error`.
pub data IoResult {ℓ} (A : Type ℓ) : Type ℓ where
  io_ok : A → IoResult A
  io_err : Option ℤ → IoResult A

pub record FileSystem : Type 1 where
  pub World : Type 0
  pub File : Type 0
  pub open_path : OpenOptions → PathBuf → World → IoResult File × World
  pub open_directory : PathBuf → World → IoResult File × World
  -- Dropping a `File`, if there is one, closes it.
  pub drop_replaced : Option File → World → World
  -- A read of at most so many bytes at an offset: how many were read, and the buffer.
  pub read_at : File → ℕ → ℕ → World → IoResult (ℕ × Bytes) × World
  pub write_at : File → Bytes → ℕ → World → IoResult ℕ × World
  pub seek : File → SeekFrom → World → IoResult ℕ × World
  pub set_len : File → ℕ → World → IoResult (Unit {0}) × World
  pub sync_data : File → World → IoResult (Unit {0}) × World
  pub sync_all : File → World → IoResult (Unit {0}) × World
  -- `fcntl(fd, F_SETLK, F_WRLCK over the whole file)`
  pub set_write_lock : File → World → ℤ × World
  pub last_error : World → Option ℤ
  -- `libc::SEEK_SET`, `SEEK_CUR`, `SEEK_END`
  pub seek_set : ℤ
  pub seek_cur : ℤ
  pub seek_end : ℤ

-- A read leaves the buffer as long as it was, and reports no more bytes than the buffer has.
pub record ReadsWithin (fs : FileSystem) : Type 0 where
  pub buffer :
      (file : fs.File) (len offset : ℕ) (w : fs.World) (n : ℕ) (bytes : Bytes)
      → (fs.read_at file len offset w).0 ≡ io_ok (n, bytes)
      → (length bytes ≡ len) × (n ≤ len)
