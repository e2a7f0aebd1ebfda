-- ===== src/Tests/Locking.antt =====
-- Two processes on one machine, which both open the file "a"; the first one locks it.
use wasmtime_mysql.Prelude.{
  ℕ, ◌≡◌, refl, inl, false, List, [], ◌∷◌, some, pos, ok, lookup, insert, remove,
}
use wasmtime_mysql.Paths.{
  PathBuf, part_kind, root_dir, normal, normalize_guest_path, resolve, resolve_in, suffix_for,
  join_suffix, walk, sort_preopens,
}
use wasmtime_mysql.Files.{given_preopens, default_preopens}
use wasmtime_mysql.Locks.{
  LockedFiles, new, open_file, lock_exclusive, drop_files, drop_locks, drop_table,
}
use wasmtime_mysql.Locks.Objects.{HasLock}
use wasmtime_mysql.Locks.System.{System, IsNew, now, after, Reach, start, later, opens, takes_lock}
use wasmtime_mysql.Locks.Exclusion.{locks_exclusive, lock_after_end}
use wasmtime_mysql.Tests.Objects.{Objects, machine, machine-NamesObjects, no_entries}

-- The code units of a path, without its separators.
abbrev units_of : PathBuf → List ℕ
units_of [] = []
units_of (normal s ∷ p) = s
units_of (_ ∷ p) = units_of p

abbrev table : LockedFiles ℕ
table = record {
  next_fd = 20000;
  files = [];
  lock_paths = [];
  locks = [];
  preopens = record { guest = b'.' ∷ []; host = root_dir ∷ [] } ∷ [];
}

table-IsNew : IsNew table
unfolding new given_preopens default_preopens normalize_guest_path sort_preopens part_kind
table-IsNew = (false, [], ok (root_dir ∷ []), refl)

abbrev idle : System Objects ℕ
idle = record { tables = λ i. table; world = record { entries = []; existed = false } }

abbrev name : List ℕ
name = b'a' ∷ []

abbrev path : PathBuf
path = root_dir ∷ normal name ∷ []

abbrev one_open : System Objects ℕ
one_open =
    after units_of machine idle 0
      (open_file units_of (machine 0) name (pos 0) (now units_of machine idle 0)).1

abbrev both_open : System Objects ℕ
both_open =
    after units_of machine one_open 1
      (open_file units_of (machine 1) name (pos 0) (now units_of machine one_open 1)).1

abbrev locked : System Objects ℕ
locked =
    after units_of machine both_open 0
      (lock_exclusive units_of (machine 0) (pos 20000) (now units_of machine both_open 0)).1

reached : Reach units_of machine idle locked
reached =
    later (later (later start (opens 0 name (pos 0))) (opens 1 name (pos 0)))
      (takes_lock 0 (pos 20000))

has_lock : HasLock path 1 (locked.tables 0).locks
unfolding open_file lock_exclusive resolve resolve_in suffix_for join_suffix normalize_guest_path
    walk insert lookup remove part_kind
has_lock = inl (refl, refl)

locks_exclusive_example : ◌≡◌ {A = ℕ} 0 0 × ◌≡◌ {A = ℕ} 1 1
locks_exclusive_example =
    locks_exclusive units_of machine machine-NamesObjects idle locked (λ i. table-IsNew) no_entries
      reached 0 0 1 1 path path has_lock has_lock refl

opened : lookup (pos 20000) (locked.tables 1).files ≡ some 3
unfolding open_file lock_exclusive resolve resolve_in suffix_for join_suffix normalize_guest_path
    walk insert lookup remove part_kind
opened = refl

lock_path : lookup (pos 20000) (locked.tables 1).lock_paths ≡ some path
unfolding open_file lock_exclusive resolve resolve_in suffix_for join_suffix normalize_guest_path
    walk insert lookup remove part_kind
lock_path = refl

abbrev world_after : Objects
world_after = drop_table units_of (machine 0) (locked.tables 0, locked.world)

lock_after_end_example :
    let out = lock_exclusive units_of (machine 1) (pos 20000) (locked.tables 1, world_after) in
    (out.0 ≡ pos 0) × (k : ℕ) × HasLock path k out.1.0.locks
unfolding open_file resolve part_kind drop_locks lock_exclusive lookup insert drop_files remove
lock_after_end_example =
    lock_after_end units_of machine machine-NamesObjects idle locked (λ i. table-IsNew) no_entries
      reached 0 1 1 20000 path 3 table table-IsNew has_lock refl opened lock_path refl refl
