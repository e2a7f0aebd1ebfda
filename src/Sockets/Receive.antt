-- ===== src/Sockets/Receive.antt =====
-- What `recv` puts into the guest's memory.
use wasmtime_mysql.Prelude.{
  ℕ, ◌≤◌, le→leb, ◌≡◌, refl, none, ok, err, inl, inr, arith, some, Option-cases, leb, length, take,
  neg_errno, ap, sym, true,
}
use wasmtime_mysql.Prelude.{ℤ, pos, negsuc, lookup, Outcome, done, Result-cases}
use wasmtime_mysql.Errno.{HostErrno, ebadf}
use wasmtime_mysql.Guest.{Bytes, Export, write_guest, checked_len}
use wasmtime_mysql.Guest.Frame.{contents, Written, write_guest-Written}
use wasmtime_mysql.Sockets.{HostSocket, HostSockets, neg_last_errno}
use wasmtime_mysql.Sockets.Host.{Net, ReceivesWithin}
use wasmtime_mysql.Sockets.Calls.{Caller, call_recv, received}

module _ (libc : HostErrno) (net : Net) where
  open net use {World}

  -- Why a call fails, with the answer: the descriptor is not open, the length is refused, the host
  -- fails, or the bytes that it received cannot be written at the pointer.
  pub data RecvFailure (fd buf_ptr len flags : ℤ) (mem : Export) (t : HostSockets) (w : World)
      : ℤ → Type 0 where
    not_open :
        lookup fd t.sockets ≡ none → RecvFailure fd buf_ptr len flags mem t w (neg_errno ebadf)
    bad_length :
        (s : HostSocket) (e : ℤ)
        → lookup fd t.sockets ≡ some s
        → checked_len len ≡ err e
        → RecvFailure fd buf_ptr len flags mem t w (neg_errno e)
    failed_recv :
        (s : HostSocket) (n k : ℕ) (buf : Bytes) (w1 : World)
        → lookup fd t.sockets ≡ some s
        → checked_len len ≡ ok n
        → net.recv s.raw_fd n flags w ≡ ((negsuc k, buf), w1)
        → RecvFailure fd buf_ptr len flags mem t w (neg_last_errno libc net w1)
    bad_pointer :
        (s : HostSocket) (n count : ℕ) (buf : Bytes) (w1 : World) (e : ℤ)
        → lookup fd t.sockets ≡ some s
        → checked_len len ≡ ok n
        → net.recv s.raw_fd n flags w ≡ ((pos count, buf), w1)
        → write_guest mem buf_ptr (take count buf) ≡ err e
        → RecvFailure fd buf_ptr len flags mem t w (neg_errno e)

  -- How the call went: it failed and the memory is as it was, or as many bytes as the answer says, which
  -- the host received on the descriptor's socket, stand at the guest's pointer.
  pub data Delivery (fd buf_ptr len flags : ℤ) (mem : Export) (t : HostSockets) (w : World)
      : ℤ → Export → Type 0 where
    refused :
        (answer : ℤ)
        → RecvFailure fd buf_ptr len flags mem t w answer
        → Delivery fd buf_ptr len flags mem t w answer mem
    bytes :
        (s : HostSocket) (n count p : ℕ) (buf : Bytes) (w1 : World) (mem' : Export)
        → lookup fd t.sockets ≡ some s
        → checked_len len ≡ ok n
        → net.recv s.raw_fd n flags w ≡ ((pos count, buf), w1)
        → count ≤ n
        → buf_ptr ≡ pos p
        → Written p (take count buf) (contents mem) (contents mem')
        → Delivery fd buf_ptr len flags mem t w (pos count) mem'

  module _ (law : ReceivesWithin net) (fd buf_ptr len flags : ℤ) (mem : Export) (t : HostSockets)
      (w : World) where
    abbrev pub Ends : Outcome (ℤ × Caller libc net) → Type 0
    Ends out =
        (answer : ℤ) × (mem' : Export) × (w' : World) × (out ≡ done (answer, (mem', (t, w'))))
        × Delivery fd buf_ptr len flags mem t w answer mem'

    module _ (s : HostSocket) (n : ℕ) (at : lookup fd t.sockets ≡ some s)
        (fits : checked_len len ≡ ok n) where
      received-Ends :
          (r : ℤ × Bytes) (w1 : World)
          → net.recv s.raw_fd n flags w ≡ (r, w1)
          → Ends (received libc net buf_ptr r (mem, (t, w1)))
      received-Ends (negsuc k, buf) w1 e = (
        neg_last_errno libc net w1,
        mem,
        w1,
        refl,
        refused _ (failed_recv s n k buf w1 at fits e),
      )
      received-Ends (pos count, buf) w1 e =
          let same : (net.recv s.raw_fd n flags w).0 ≡ (pos count, buf) = rw e refl in
          let (full, within) =
            law.received s.raw_fd n flags w count (ap (λ (x : ℤ × Bytes). x.0) same) in
          let room : leb count (length buf) ≡ true =
            le→leb count (length buf) (rw (sym (ap (λ (x : ℤ × Bytes). x.1) same)) (omega arith)) in
          elim (Result-cases (write_guest mem buf_ptr (take count buf))) [
            | inr (e', r) ↦ (
              neg_errno e',
              mem,
              w1,
              rw (room, r) refl,
              refused _ (bad_pointer s n count buf w1 e' at fits e r),
            )
            | inl (mem1, r) ↦
                let (p, at_ptr, written) =
                  write_guest-Written mem mem1 buf_ptr (take count buf) r in
                (
                  pos count,
                  mem1,
                  w1,
                  rw (room, r) refl,
                  bytes s n count p buf w1 mem1 at fits e within at_ptr written,
                )
          ]

    -- A `recv` always answers: it does not panic where the host reports no more bytes than it was
    -- given room for. It leaves the table alone. Either it answers an error, for a reason that is
    -- named, with the memory as it was; or the bytes that the host received, as many as the answer
    -- says and at most as many as were asked for, stand at the guest's pointer and all other bytes are
    -- as they were.
    pub call_recv-Delivery : Ends (call_recv libc net fd buf_ptr len flags (mem, (t, w)))
    unfolding call_recv
    call_recv-Delivery = elim (Option-cases (lookup fd t.sockets)) [
      | inl e ↦ (neg_errno ebadf, mem, w, ground arith, refused _ (not_open e))
      | inr (s, e) ↦ elim (Result-cases (checked_len len)) [
        | inr (n, r) ↦ (neg_errno n, mem, w, ground arith, refused _ (bad_length s n e r))
        | inl (n, r) ↦ rw (e, r) (received-Ends s n e r _ _ refl)
      ]
    ]
