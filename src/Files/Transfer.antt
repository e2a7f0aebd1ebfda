-- ===== src/Files/Transfer.antt =====
-- What a positional read puts into the guest's memory.
use wasmtime_mysql.Prelude.{
  ℕ, zero, suc, ◌≤◌, ◌<◌, ◌≡◌, refl, err, Option, inl, inr, true, false, [], arith, none, some, ℤ,
  pos, negsuc, neg_errno, lookup, Option-cases, ok, Outcome, done, Result-cases, leb, ◌==◌, i32_max,
  length, take, le→leb,
}
use wasmtime_mysql.Errno.{HostErrno, ebadf}
use wasmtime_mysql.Guest.{Bytes, Export, write_guest, checked_len, max_io_len}
use wasmtime_mysql.Guest.Frame.{contents, Written, write_guest-Written}
use wasmtime_mysql.Files.{State, pread, with_file, answer_of, count_i32, io_errno}
use wasmtime_mysql.Files.Table.{io_errno-IsErrno}
use wasmtime_mysql.Errno.Range.{IsErrno}
use wasmtime_mysql.Files.Host.{FileSystem, IoResult, io_ok, io_err, ReadsWithin}
use wasmtime_mysql.Files.Calls.{deliver, call_pread, as_u64}

checked_small : (len : ℤ) {n : ℕ} → checked_len len ≡ ok n → n ≤ max_io_len
unfolding checked_len
checked_small (pos m) e = ground arith
checked_small (negsuc m) e = absurd cc

module _ (libc : HostErrno) (fs : FileSystem) where
  open fs use {World, File}

  -- Why a call fails, with the error: the length is refused, the descriptor is not open, the file
  -- system fails, or the bytes that it read cannot be written at the pointer.
  pub data ReadFailure (fd buf_ptr len offset : ℤ) (mem : Export) (s : State libc fs)
      : ℤ → Type 0 where
    bad_length : (e : ℤ) → checked_len len ≡ err e → ReadFailure fd buf_ptr len offset mem s e
    not_open :
        (n : ℕ)
        → checked_len len ≡ ok n
        → lookup fd (s.0).files ≡ none
        → ReadFailure fd buf_ptr len offset mem s ebadf
    failed_read :
        (file : File) (n : ℕ) (x : Option ℤ)
        → checked_len len ≡ ok n
        → lookup fd (s.0).files ≡ some file
        → (fs.read_at file n (as_u64 offset) s.1).0 ≡ io_err x
        → ReadFailure fd buf_ptr len offset mem s (io_errno libc x)
    bad_pointer :
        (file : File) (n count : ℕ) (buf : Bytes) (e : ℤ)
        → checked_len len ≡ ok n
        → lookup fd (s.0).files ≡ some file
        → (fs.read_at file n (as_u64 offset) s.1).0 ≡ io_ok (count, buf)
        → 0 < count
        → write_guest mem buf_ptr (take count buf) ≡ err e
        → ReadFailure fd buf_ptr len offset mem s e

  -- How the call went: it failed, the file ends at the offset, or the file system read `count` bytes
  -- of the descriptor's file at the offset, and these stand in the memory from the pointer on.
  pub data Delivery (fd buf_ptr len offset : ℤ) (mem : Export) (s : State libc fs)
      : ℤ → Export → Type 0 where
    refused :
        (e : ℤ)
        → ReadFailure fd buf_ptr len offset mem s e
        → Delivery fd buf_ptr len offset mem s (neg_errno e) mem
    end_of_file :
        (file : File) (n : ℕ) (buf : Bytes)
        → checked_len len ≡ ok n
        → lookup fd (s.0).files ≡ some file
        → (fs.read_at file n (as_u64 offset) s.1).0 ≡ io_ok (0, buf)
        → Delivery fd buf_ptr len offset mem s (pos 0) mem
    bytes :
        (file : File) (n count p : ℕ) (buf : Bytes) (mem' : Export)
        → checked_len len ≡ ok n
        → lookup fd (s.0).files ≡ some file
        → (fs.read_at file n (as_u64 offset) s.1).0 ≡ io_ok (count, buf)
        → 0 < count
        → count ≤ n
        → buf_ptr ≡ pos p
        → Written p (take count buf) (contents mem) (contents mem')
        → Delivery fd buf_ptr len offset mem s (pos count) mem'

  negative_shape : (e : ℤ) → IsErrno e → (n : ℕ) × (neg_errno e ≡ negsuc n)
  negative_shape (pos zero) h = absurd (omega arith)
  negative_shape (pos (suc n)) h = (n, refl)
  negative_shape (negsuc n) h = absurd h

  abbrev answer_read : IoResult (ℕ × Bytes) → ℤ × Bytes
  answer_read = answer_of libc fs (λ (n, buf). (count_i32 n, buf)) (λ e. (e, []))

  pread-none :
      (fd : ℤ) (len offset : ℕ) (s : State libc fs)
      → lookup fd (s.0).files ≡ none
      → (pread libc fs fd len offset s).0 ≡ (neg_errno ebadf, [])
  unfolding pread with_file
  pread-none fd len offset s e = rw (e, with_file)

  pread-some :
      (fd : ℤ) (len offset : ℕ) (s : State libc fs) (file : File)
      → lookup fd (s.0).files ≡ some file
      → (pread libc fs fd len offset s).0 ≡ answer_read (fs.read_at file len offset s.1).0
  unfolding pread with_file
  pread-some fd len offset s file e = rw (e, with_file)

  deliver-negative :
      (buf : Bytes) (e buf_ptr : ℤ) (mem : Export)
      → IsErrno e
      → deliver libc fs (neg_errno e) buf buf_ptr mem ≡ done (neg_errno e, mem)
  deliver-negative buf e buf_ptr mem h = let (n, shape) = negative_shape e h in rw shape refl

  module _ (law : ReadsWithin fs) (fd buf_ptr len offset : ℤ) (mem : Export)
      (s : State libc fs) where
    abbrev Ends : Outcome (ℤ × Export) → Type 0
    Ends out =
        (answer : ℤ) × (mem' : Export) × (out ≡ done (answer, mem'))
        × Delivery fd buf_ptr len offset mem s answer mem'

    module _ (file : File) (n : ℕ) (fits : checked_len len ≡ ok n)
        (at : lookup fd (s.0).files ≡ some file) where
      deliver_count :
          (count : ℕ) (buf : Bytes)
          → (fs.read_at file n (as_u64 offset) s.1).0 ≡ io_ok (count, buf)
          → Ends (deliver libc fs (pos count) buf buf_ptr mem)
      deliver_count zero buf e = (pos 0, mem, refl, end_of_file file n buf fits at e)
      deliver_count (suc m) buf e =
          let (full, within) = law.buffer file n (as_u64 offset) s.1 (suc m) buf e in
          let enough : leb (suc m) (length buf) ≡ true =
            le→leb (suc m) (length buf) (omega arith) in
          let nonzero : (suc m == 0) ≡ false = ground arith in
          elim (Result-cases (write_guest mem buf_ptr (take (suc m) buf))) [
            | inl (mem', wrote) ↦
                let (p, at_ptr, written) =
                  write_guest-Written mem mem' buf_ptr (take (suc m) buf) wrote in
                (
                  pos (suc m),
                  mem',
                  rw (nonzero, enough, wrote) refl,
                  bytes file n (suc m) p buf mem' fits at e (omega arith) within at_ptr written,
                )
            | inr (e', unwritten) ↦ (
              neg_errno e',
              mem,
              rw (nonzero, enough, unwritten) refl,
              refused e' (bad_pointer file n (suc m) buf e' fits at e (omega arith) unwritten),
            )
          ]

      deliver-Ends :
          (r : IoResult (ℕ × Bytes))
          → (fs.read_at file n (as_u64 offset) s.1).0 ≡ r
          → Ends (deliver libc fs (answer_read r).0 (answer_read r).1 buf_ptr mem)
      deliver-Ends (io_err x) e = (
        neg_errno (io_errno libc x),
        mem,
        deliver-negative [] (io_errno libc x) buf_ptr mem (io_errno-IsErrno libc x),
        refused _ (failed_read file n x fits at e),
      )
      deliver-Ends (io_ok (count, buf)) e =
          let (full, within) = law.buffer file n (as_u64 offset) s.1 count buf e in
          let small : leb count i32_max ≡ true = ground (arith, checked_small len fits) in
          rw small (deliver_count count buf e)

    call_pread_known :
        (n : ℕ)
        → checked_len len ≡ ok n
        → Ends (call_pread libc fs fd buf_ptr len offset (mem, s)).0
    unfolding call_pread
    call_pread_known n c = elim (Option-cases (lookup fd (s.0).files)) [
      | inl e ↦
          rw (c, call_pread, pread-none fd n (as_u64 offset) s e)
            (neg_errno ebadf, mem, refl, refused ebadf (not_open n c e))
      | inr (file, e) ↦
          rw (c, call_pread, pread-some fd n (as_u64 offset) s file e)
            (deliver-Ends file n c e _ refl)
    ]

    -- A positional read always answers: it does not panic where the file system keeps its buffer's
    -- length. Either it answers an error, for a reason that is named, with the memory as it was; or it
    -- answers 0 at the end of the file, with the memory as it was; or the bytes that the file system
    -- read, as many as the answer says and at most as many as were asked for, stand at the guest's
    -- pointer and all other bytes are as they were.
    pub call_pread-Delivery : Ends (call_pread libc fs fd buf_ptr len offset (mem, s)).0
    unfolding call_pread
    call_pread-Delivery = elim (Result-cases (checked_len len)) [
      | inl (n, c) ↦ call_pread_known n c
      | inr (e, c) ↦ rw (c, call_pread) (neg_errno e, mem, refl, refused e (bad_length e c))
    ]
