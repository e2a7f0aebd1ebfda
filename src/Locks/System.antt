-- ===== src/Locks/System.antt =====
-- Processes of one Windows session, each with a table of files of the Windows build. A step is a call of one
-- of them, or the end of one, which drops its table and leaves room for a new process.
use wasmtime_mysql.Prelude.{ℕ, Bool, ◌==◌, ◌≡◌, List, if◌then◌else◌, ℤ, Result, ok}
use wasmtime_mysql.Guest.{Bytes}
use wasmtime_mysql.Paths.{PathBuf}
use wasmtime_mysql.Files.{CliPreopen}
use wasmtime_mysql.Locks.Host.{Windows}
use wasmtime_mysql.Locks.Access.{Access, access}
use wasmtime_mysql.Locks.{
  LockedFiles, new, State, open_file, close, lock_exclusive, sync_parent, drop_table,
}

pub record System (World File : Type 0) : Type 0 where
  pub tables : ℕ → LockedFiles File
  pub world : World

abbrev pub IsNew : {File : Type 0} → LockedFiles File → Type 0
IsNew t =
    (no_default : Bool) × (given : List CliPreopen) × (cwd : Result PathBuf) × (new no_default given
        cwd
      ≡ ok t)

module _ {World File : Type 0} (code_units : PathBuf → List ℕ) (host : ℕ → Windows World File) where
  abbrev pub now : System World File → ℕ → State code_units (host 0)
  now s i = (s.tables i, s.world)

  abbrev pub after : System World File → ℕ → LockedFiles File × World → System World File
  after s i (t, w) = record { tables = λ j. if i == j then t else s.tables j; world = w }

  pub data Step (s : System World File) : System World File → Type 0 where
    opens :
        (i : ℕ) (path : Bytes) (flags : ℤ)
        → Step s (after s i (open_file code_units (host i) path flags (now s i)).1)
    closes : (i : ℕ) (fd : ℤ) → Step s (after s i (close code_units (host i) fd (now s i)).1)
    takes_lock :
        (i : ℕ) (fd : ℤ) → Step s (after s i (lock_exclusive code_units (host i) fd (now s i)).1)
    accesses : (i : ℕ) (a : Access) → Step s (after s i (access code_units (host i) a (now s i)).1)
    syncs :
        (i : ℕ) (path : Bytes)
        → Step s (after s i (sync_parent code_units (host i) path (now s i)).1)
    ends :
        (i : ℕ) (t : LockedFiles File)
        → IsNew t
        → Step s (after s i (t, drop_table code_units (host i) (now s i)))

  -- The states reached from one, by any number of steps.
  pub data Reach (s : System World File) : System World File → Type 0 where
    start : Reach s s
    later : {s' s'' : System World File} → Reach s s' → Step s' s'' → Reach s s''
