-- ===== src/Files/Calls.antt =====
-- src/host_files.rs, `add_to_linker`: the imports that the guest calls. Each call is
-- one step of the state: the memory, the table and the file system.
use wasmtime_mysql.Prelude.{ℕ, ◌-◌, ◌^◌, not, if◌then◌else◌, leb, ◌==◌, ◌==ℤ◌}
use wasmtime_mysql.Prelude.{ℤ, pos, negsuc, neg_errno, ok, err, Outcome, done, panic, length, take}
use wasmtime_mysql.Errno.{HostErrno, einval}
use wasmtime_mysql.Guest.{Bytes, Export, read_guest, write_guest, read_cstr, checked_len, try_usize}
use wasmtime_mysql.Files.{
  State, open_file, close, pread, pwrite, seek, truncate, sync, sync_parent, lock_exclusive,
}
use wasmtime_mysql.Files.Host.{FileSystem}

-- `offset as u64` for an `i64`.
abbrev pub as_u64 : ℤ → ℕ
as_u64 (pos n) = n
as_u64 (negsuc n) = 2 ^ 64 - 1 - n

module _ (libc : HostErrno) (fs : FileSystem) where
  open fs use {World, File}

  abbrev pub Caller : Type 0
  Caller = Export × State libc fs

  -- A method of `caller.data().files`.
  abbrev on_files : (State libc fs → ℤ × State libc fs) → Caller → ℤ × Caller
  on_files method (mem, s) = let (answer, s') = method s in (answer, (mem, s'))

  unfoldable pub call_open : ℤ → ℤ → ℤ → Caller → ℤ × Caller
  call_open path_ptr flags mode (mem, s) = elim (read_cstr mem path_ptr) [
    | err e ↦ (neg_errno e, (mem, s))
    | ok path ↦ on_files (open_file libc fs path flags) (mem, s)
  ]

  unfoldable pub call_close : ℤ → Caller → ℤ × Caller
  call_close fd = on_files (close libc fs fd)

  -- The positive answers of `pread`: `buf[..rc]` panics behind the end of the buffer.
  abbrev pub deliver : ℤ → Bytes → ℤ → Export → Outcome (ℤ × Export)
  deliver (negsuc n) buf buf_ptr mem = done (negsuc n, mem)
  deliver (pos n) buf buf_ptr mem =
      if n == 0
      then done (pos n, mem)
      else if leb n (length buf)
      then (elim (write_guest mem buf_ptr (take n buf)) [
        | ok mem' ↦ done (pos n, mem')
        | err e ↦ done (neg_errno e, mem)
      ])
      else panic

  unfoldable pub call_pread : ℤ → ℤ → ℤ → ℤ → Caller → Outcome (ℤ × Export) × State libc fs
  call_pread fd buf_ptr len offset (mem, s) = elim (checked_len len) [
    | err e ↦ (done (neg_errno e, mem), s)
    | ok n ↦
        let ((rc, buf), s') = pread libc fs fd n (as_u64 offset) s in
        (deliver rc buf buf_ptr mem, s')
  ]

  unfoldable pub call_pwrite : ℤ → ℤ → ℤ → ℤ → Caller → ℤ × Caller
  call_pwrite fd buf_ptr len offset (mem, s) = elim (read_guest mem buf_ptr len) [
    | err e ↦ (neg_errno e, (mem, s))
    | ok buf ↦ on_files (pwrite libc fs fd buf (as_u64 offset)) (mem, s)
  ]

  unfoldable pub call_seek : ℤ → ℤ → ℤ → Caller → ℤ × Caller
  call_seek fd offset whence = on_files (seek libc fs fd offset whence)

  unfoldable pub call_truncate : ℤ → ℤ → Caller → ℤ × Caller
  call_truncate fd size (mem, s) = elim (try_usize size einval) [
    | err e ↦ (neg_errno e, (mem, s))
    | ok n ↦ on_files (truncate libc fs fd n) (mem, s)
  ]

  unfoldable pub call_sync : ℤ → ℤ → Caller → ℤ × Caller
  call_sync fd data_only = on_files (sync libc fs fd (not (data_only ==ℤ pos 0)))

  unfoldable pub call_sync_parent : ℤ → Caller → ℤ × Caller
  call_sync_parent path_ptr (mem, s) = elim (read_cstr mem path_ptr) [
    | err e ↦ (neg_errno e, (mem, s))
    | ok path ↦ on_files (sync_parent libc fs path) (mem, s)
  ]

  unfoldable pub call_lock_exclusive : ℤ → Caller → ℤ × Caller
  call_lock_exclusive fd = on_files (lock_exclusive libc fs fd)
