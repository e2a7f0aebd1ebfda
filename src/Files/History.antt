-- ===== src/Files/History.antt =====
-- Sequences of calls on the file table, from the table that `HostFiles::new` makes.
use wasmtime_mysql.Prelude.{
  ℕ, ◌≡◌, sym, subst, inl, inr, Bool, List, [], ◌∷◌, ◌++◌, arith, ℤ, lookup, Option-cases, Result,
  ok, bind_ok,
}
use wasmtime_mysql.Errno.{HostErrno}
use wasmtime_mysql.Guest.{Bytes}
use wasmtime_mysql.Paths.{PathBuf, PreopenMapping, sort_preopens}
use wasmtime_mysql.Files.{
  HostFiles, guest_fd_base, CliPreopen, new, State, open_file, close, pread, pwrite, seek, truncate,
  sync, sync_parent, lock_exclusive, with_file, given_preopens, default_preopens,
}
use wasmtime_mysql.Descriptors.{empty-IsIssued}
use wasmtime_mysql.Files.Host.{FileSystem}
use wasmtime_mysql.Files.Table.{
  IsValid, with_next-IsValid, without-IsValid, open_cases, close_cases,
}

pub data Call : Type 0 where
  opens : Bytes → ℤ → Call
  closes : ℤ → Call
  preads : ℤ → ℕ → ℕ → Call
  pwrites : ℤ → Bytes → ℕ → Call
  seeks : ℤ → ℤ → ℤ → Call
  truncates : ℤ → ℕ → Call
  syncs : ℤ → Bool → Call
  syncs_parent : Bytes → Call
  locks : ℤ → Call

module _ (libc : HostErrno) (fs : FileSystem) where
  open fs use {World, File}

  -- The number that the guest receives, and the state behind the call.
  unfoldable pub perform : Call → State libc fs → ℤ × State libc fs
  perform (opens path flags) s = open_file libc fs path flags s
  perform (closes fd) s = close libc fs fd s
  perform (preads fd len offset) s = let ((rc, buf), s') = pread libc fs fd len offset s in (rc, s')
  perform (pwrites fd buf offset) s = pwrite libc fs fd buf offset s
  perform (seeks fd offset whence) s = seek libc fs fd offset whence s
  perform (truncates fd size) s = truncate libc fs fd size s
  perform (syncs fd data_only) s = sync libc fs fd data_only s
  perform (syncs_parent path) s = sync_parent libc fs path s
  perform (locks fd) s = lock_exclusive libc fs fd s

  unfoldable pub run : List Call → State libc fs → State libc fs
  unfolding perform
  run [] s = s
  run (c ∷ cs) s = run cs (perform c s).1

  with_file-table {ℓ} :
      {R : Type ℓ} (fd : ℤ) (answer : ℤ → R) (call : File → World → R × World) (t : HostFiles File)
      (w : World)
      → (with_file libc fs fd answer call (t, w)).1.0 ≡ t
  unfolding with_file
  with_file-table fd answer call t w = elim (Option-cases (lookup fd t.files)) [
    | inl e ↦ rw (e, with_file)
    | inr (file, e) ↦ rw (e, with_file)
  ]

  sync_parent-table :
      (path : Bytes) (t : HostFiles File) (w : World) → (sync_parent libc fs path (t, w)).1.0 ≡ t
  unfolding sync_parent
  sync_parent-table path t w = ground arith

  perform-IsValid :
      (c : Call) (t : HostFiles File) (w : World) → IsValid t → IsValid (perform c (t, w)).1.0
  unfolding perform pread pwrite seek truncate sync lock_exclusive
  perform-IsValid (opens path flags) t w v =
      open_cases libc fs (λ r. IsValid r.1.0) path flags t w (λ _ _ _. v)
        (λ file _ _ _ _. with_next-IsValid t file v)
  perform-IsValid (closes fd) t w v =
      close_cases libc fs (λ r. IsValid r.1.0) fd t w (λ _. v) (λ _ _ _. without-IsValid t fd v)
  perform-IsValid (preads fd len offset) t w v = subst IsValid (sym (with_file-table fd _ _ t w)) v
  perform-IsValid (pwrites fd buf offset) t w v = subst IsValid (sym (with_file-table fd _ _ t w)) v
  perform-IsValid (seeks fd offset whence) t w v =
      subst IsValid (sym (with_file-table fd _ _ t w)) v
  perform-IsValid (truncates fd size) t w v = subst IsValid (sym (with_file-table fd _ _ t w)) v
  perform-IsValid (syncs fd data_only) t w v = subst IsValid (sym (with_file-table fd _ _ t w)) v
  perform-IsValid (syncs_parent path) t w v = subst IsValid (sym (sync_parent-table path t w)) v
  perform-IsValid (locks fd) t w v = subst IsValid (sym (with_file-table fd _ _ t w)) v

  run-IsValid :
      (cs : List Call) (t : HostFiles File) (w : World) → IsValid t → IsValid (run cs (t, w)).0
  unfolding run
  run-IsValid [] t w v = v
  run-IsValid (c ∷ cs) t w v =
      run-IsValid cs (perform c (t, w)).1.0 (perform c (t, w)).1.1 (perform-IsValid c t w v)

  first_table-IsValid :
      (ps : List PreopenMapping)
      → IsValid {File = File} (record { next_fd = guest_fd_base; files = []; preopens = ps })
  unfolding lookup
  first_table-IsValid ps = empty-IsIssued guest_fd_base (omega arith)

  new-IsValid :
      (no_default : Bool) (given : List CliPreopen) (cwd : Result PathBuf) (t : HostFiles File)
      → new no_default given cwd ≡ ok t
      → IsValid t
  unfolding new
  new-IsValid no_default given cwd t h =
      let (first, _, r) = bind_ok (default_preopens no_default cwd) _ h in
      let (rest, _, e) = bind_ok (given_preopens given) _ r in
      let same : record {
        next_fd = guest_fd_base;
        files = [];
        preopens = sort_preopens (first ++ rest);
      }
          ≡ t =
        cc e in
      subst (λ (u : HostFiles File). IsValid u) same
        (first_table-IsValid (sort_preopens (first ++ rest)))

  -- From the table that the runner starts with, any sequence of calls, whatever the file system
  -- answers, leaves only descriptors that were given out: at least 20000 and below `next_fd` until
  -- that reaches `i32::MAX`.
  pub run_files-IsValid :
      (no_default : Bool) (given : List CliPreopen) (cwd : Result PathBuf) (t : HostFiles File)
      (cs : List Call) (w : World)
      → new no_default given cwd ≡ ok t
      → IsValid (run cs (t, w)).0
  run_files-IsValid no_default given cwd t cs w h =
      run-IsValid cs t w (new-IsValid no_default given cwd t h)
