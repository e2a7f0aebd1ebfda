-- ===== src/Files/Descriptors.antt =====
-- What `open` and `close` do to a descriptor, and to the other descriptors.
use wasmtime_mysql.Prelude.{
  ◌<◌, ◌≡◌, ◌≢◌, refl, ◌⊎◌, inl, inr, Bool, true, false, arith, Option, none, some, ℤ, pos,
  neg_errno, is_negative, ==ℤ_iff, ==ℤ_refl, lookup, lookup-insert, lookup-remove, ok, i32_max,
}
use wasmtime_mysql.Errno.{HostErrno, ebadf}
use wasmtime_mysql.Errno.Range.{neg_errno_negative}
use wasmtime_mysql.Guest.{Bytes}
use wasmtime_mysql.Paths.{PathBuf, resolve}
use wasmtime_mysql.Paths.Confined.{Confined, resolve-Confined}
use wasmtime_mysql.Descriptors.{next-IsFree}
use wasmtime_mysql.Files.{guest_fd_base, HostFiles, State, open_file, open_options, close}
use wasmtime_mysql.Files.Host.{FileSystem, io_ok}
use wasmtime_mysql.Files.Table.{IsValid, open_cases, close_cases}

module _ (libc : HostErrno) (fs : FileSystem) where
  open fs use {World, File}

  -- What a successful `open` leaves: a descriptor that was free below `i32::MAX`, a file that was
  -- opened inside a preopened directory, and every other descriptor as it was.
  pub record Opened (path : Bytes) (flags : ℤ) (t : HostFiles File) (w : World)
      (r : ℤ × State libc fs) : Type 0 where
    pub fresh : t.next_fd < i32_max → lookup r.0 t.files ≡ none
    pub file : File
    pub host_path : PathBuf
    pub entry : lookup r.0 (r.1.0).files ≡ some file
    pub inside : Confined t.preopens host_path
    pub at_path : resolve t.preopens path ≡ ok host_path
    pub by_host : (fs.open_path (open_options flags) host_path w).0 ≡ io_ok file
    pub others : (k : ℤ) → k ≢ r.0 → lookup k (r.1.0).files ≡ lookup k t.files

  some_ne_none : {o : Option File} {f : File} → o ≡ some f → o ≡ none → ⊥
  some_ne_none a b = cc

  not_both : (b : Bool) → b ≡ true → b ≡ false → ⊥
  not_both b p q = cc

  -- From a valid table, an `open` that is not answered by an error answers with a descriptor, which was
  -- free if `next_fd` was below `i32::MAX`, and now stands for a file that the host opened at the host
  -- path of the guest's path, inside a preopened directory; the other descriptors are as they were.
  pub open_file-Opened :
      (path : Bytes) (flags : ℤ) (t : HostFiles File) (w : World)
      → IsValid t
      → is_negative (open_file libc fs path flags (t, w)).0 ≡ false
      → Opened path flags t w (open_file libc fs path flags (t, w))
  open_file-Opened path flags t w v =
      open_cases libc fs (λ r. is_negative r.0 ≡ false → Opened path flags t w r) path flags t w
        (λ e w' n h. absurd (not_both _ (neg_errno_negative e n) h))
        (λ f w' p at opened h. record {
          fresh = next-IsFree guest_fd_base t.next_fd t.files v;
          file = f;
          host_path = p;
          entry = ground (arith, lookup-insert (pos t.next_fd) (pos t.next_fd) f t.files);
          inside = resolve-Confined t.preopens path p at;
          at_path = at;
          by_host = opened;
          others = λ k ne.
              ground (arith, lookup-insert (pos t.next_fd) k f t.files, ==ℤ_iff (pos t.next_fd) k);
        })

  -- After a `close` the descriptor is not open, and the others are as they were; the answer is 0 if
  -- it was open, and EBADF, with nothing changed, if it was not.
  pub close_lem :
      (fd : ℤ) (t : HostFiles File) (w : World)
      → let (answer, (t', w')) = close libc fs fd (t, w) in
        (lookup fd t'.files ≡ none)
        × ((k : ℤ) → k ≢ fd → lookup k t'.files ≡ lookup k t.files)
        × ((lookup fd t.files ≡ none) × (answer ≡ neg_errno ebadf) × (t' ≡ t) × (w' ≡ w)
            ⊎ (lookup fd t.files ≢ none) × (answer ≡ pos 0))
  close_lem fd t w =
      close_cases libc fs
        (λ r.
          (lookup fd (r.1.0).files ≡ none)
          × ((k : ℤ) → k ≢ fd → lookup k (r.1.0).files ≡ lookup k t.files)
          × ((lookup fd t.files ≡ none) × (r.0 ≡ neg_errno ebadf) × (r.1.0 ≡ t) × (r.1.1 ≡ w)
              ⊎ (lookup fd t.files ≢ none) × (r.0 ≡ pos 0)))
        fd t w (λ missing. (missing, λ k _. refl, inl (missing, refl, refl, refl)))
        (λ file w' found. (
          ground (arith, lookup-remove fd fd t.files, ==ℤ_refl fd),
          λ k ne. ground (arith, lookup-remove fd k t.files, ==ℤ_iff fd k),
          inr (λ n. some_ne_none found n, refl),
        ))
