-- ===== src/Sockets/Calls.antt =====
-- src/host_sockets.rs, `add_to_linker`: the imports that the guest calls. A call changes the guest's
-- memory, the table of sockets and the state of the host.
use wasmtime_mysql.Prelude.{
  ℕ, zero, suc, ◌+◌, ◌*◌, ◌/◌, ◌^◌, ◌%◌, Bool, not, ◌&&◌, List, [], ◌∷◌, ◌++◌, if◌then◌else◌, leb,
  ◌==ℤ◌,
}
use wasmtime_mysql.Prelude.{
  ℤ, pos, negsuc, word32, int32, neg_errno, is_negative, Result, ok, err, ◌>>=◌, Outcome, done,
  panic, length, take, drop,
}
use wasmtime_mysql.Errno.{HostErrno, from_host_errno, enetdown}
use wasmtime_mysql.Guest.{
  Bytes, Export, read_guest, write_guest, read_u32, write_u32, checked_len, from_le_bytes,
  to_le_bytes,
}
use wasmtime_mysql.Sockets.{
  HostSocket, HostSockets, insert_socket, get, remove_socket, checked_poll_count,
  write_sockaddr_family, is_guest_socket_level, wasi_so_error, neg_last_errno, cvt_i32, cvt_ssize,
  normalize_socket_type, normalize_socket_domain, normalize_socket_level,
  configure_socket_type_flags, socket_fcntl,
}
use wasmtime_mysql.Sockets.Host.{Net, PollFd, Filled}

-- `match result { Ok(a) => a, Err(errno) => return .. }` with what follows it.
abbrev pub or_return {ℓ κ} : {A : Type ℓ} {R : Type κ} → Result A → (ℤ → R) → (A → R) → R
or_return (ok a) leaves follows = follows a
or_return (err e) leaves follows = leaves e

-- `&bytes[..n]` with what follows it.
abbrev pub cut {ℓ} : {R : Type ℓ} → Bytes → ℕ → (Bytes → Outcome R) → Outcome R
cut bytes n follows = if leb n (length bytes) then follows (take n bytes) else panic

-- `bytes.chunks_exact(8)`, as many as there are.
abbrev pub chunks : ℕ → Bytes → List Bytes
chunks zero bytes = []
chunks (suc n) bytes = take 8 bytes ∷ chunks n (drop 8 bytes)

-- `fds_ptr + (index as i32 * 8) + 6`, which wraps without overflow checks.
unfoldable pub revents_ptr : ℤ → ℕ → ℤ
revents_ptr fds_ptr index = int32 ((word32 fds_ptr + (index * 8 + 6)) % 2 ^ 32)

pub data NameKind : Type 0 where
  local : NameKind
  peer : NameKind

-- The error that `getsockopt(SO_ERROR)` reports, in the guest's numbers.
abbrev pub guest_so_error : HostErrno → Bytes → Bytes
guest_so_error libc optval =
    to_le_bytes 4 (word32 (from_host_errno libc (int32 (from_le_bytes (take 4 optval)))))
    ++ drop 4 optval

abbrev poll_raw_fd : HostSockets → ℤ → Result ℤ
poll_raw_fd t (negsuc n) = ok (negsuc n)
poll_raw_fd t (pos n) = get t (pos n) >>= λ socket. ok socket.raw_fd

abbrev pub poll_entry : HostSockets → Bytes → Result PollFd
poll_entry t chunk = do
  raw_fd ← poll_raw_fd t (int32 (from_le_bytes (take 4 chunk)))
  ok (record { fd = raw_fd; events = from_le_bytes (take 2 (drop 4 chunk)); revents = 0 })

unfoldable pub poll_entries : HostSockets → List Bytes → Result (List PollFd)
poll_entries t [] = ok []
poll_entries t (c ∷ cs) = do entry ← poll_entry t c; rest ← poll_entries t cs; ok (entry ∷ rest)

-- The loop that writes the answers back; what it wrote before a failure stays written.
unfoldable pub write_revents : ℤ → ℕ → List PollFd → Export → Result (Unit {0}) × Export
write_revents fds_ptr index [] mem = (ok tt, mem)
write_revents fds_ptr index (p ∷ ps) mem =
    elim (write_guest mem (revents_ptr fds_ptr index) (to_le_bytes 2 p.revents)) [
      | err e ↦ (err e, mem)
      | ok mem' ↦ write_revents fds_ptr (suc index) ps mem'
    ]

module _ (libc : HostErrno) (net : Net) where
  open net use {World}

  abbrev pub Caller : Type 0
  Caller = Export × (HostSockets × World)

  -- A call that only asks the host: the table and the memory stay.
  abbrev pub refuse : Caller → ℤ → ℤ × Caller
  refuse c e = (neg_errno e, c)

  abbrev pub stop : Caller → ℤ → Outcome (ℤ × Caller)
  stop c e = done (neg_errno e, c)

  abbrev pub answered : Export → HostSockets → (ℤ × World → ℤ) → ℤ × World → ℤ × Caller
  answered mem t convert (rc, w) = (convert (rc, w), (mem, (t, w)))

  -- Behind `libc::socket`.
  abbrev pub configured : Export → HostSockets → HostSocket → Result (Unit {0}) × World → ℤ × Caller
  configured mem t socket (err e, w) = (neg_errno e, (mem, (t, (net.close socket.raw_fd w).1)))
  configured mem t socket (ok u, w) = let (fd, t') = insert_socket socket t in (fd, (mem, (t', w)))

  unfoldable pub call_socket : Bool → ℤ → ℤ → ℤ → Caller → ℤ × Caller
  call_socket network_allowed domain ty protocol (mem, (t, w)) =
      if not network_allowed
      then (neg_errno enetdown, (mem, (t, w)))
      else or_return (normalize_socket_type libc net ty) (refuse (mem, (t, w))) λ socket_type.
        let host_domain = normalize_socket_domain libc net domain in
        let (raw_fd, w1) = net.socket host_domain socket_type.ty protocol w in
        if is_negative raw_fd
        then (neg_last_errno libc net w1, (mem, (t, w1)))
        else configured mem t
            (record { raw_fd = raw_fd; guest_domain = domain; host_domain = host_domain })
            (configure_socket_type_flags libc net raw_fd socket_type w1)

  unfoldable pub call_bind : ℤ → ℤ → ℤ → Caller → ℤ × Caller
  call_bind fd addr_ptr addr_len (mem, (t, w)) =
      or_return (get t fd) (refuse (mem, (t, w))) λ socket.
        or_return (read_guest mem addr_ptr addr_len) (refuse (mem, (t, w))) λ addr.
          answered mem t (cvt_i32 libc net)
            (net.bind socket.raw_fd (write_sockaddr_family addr socket.host_domain) w)

  unfoldable pub call_listen : ℤ → ℤ → Caller → ℤ × Caller
  call_listen fd backlog (mem, (t, w)) =
      or_return (get t fd) (refuse (mem, (t, w)))
        λ socket. answered mem t (cvt_i32 libc net) (net.listen socket.raw_fd backlog w)

  unfoldable pub call_connect : ℤ → ℤ → ℤ → Caller → ℤ × Caller
  call_connect fd addr_ptr addr_len (mem, (t, w)) =
      or_return (get t fd) (refuse (mem, (t, w))) λ socket.
        or_return (read_guest mem addr_ptr addr_len) (refuse (mem, (t, w))) λ addr.
          answered mem t (cvt_i32 libc net)
            (net.connect socket.raw_fd (write_sockaddr_family addr socket.host_domain) w)

  -- The end of `accept`, of a connection that the host accepted.
  abbrev pub accepted_as : HostSocket → ℤ → ℤ → ℤ → Filled → Caller → Outcome (ℤ × Caller)
  accepted_as socket addr_ptr addr_len_ptr raw_fd filled (mem, (t, w)) =
      cut (write_sockaddr_family filled.buffer socket.guest_domain) filled.reported λ addr.
        or_return (write_guest mem addr_ptr addr) (stop (mem, (t, (net.close raw_fd w).1))) λ mem1.
          or_return (write_u32 mem1 addr_len_ptr filled.reported)
            (stop (mem1, (t, (net.close raw_fd w).1)))
            λ mem2.
              let (guest_fd, t') = insert_socket (record socket { raw_fd = raw_fd }) t in
              done (guest_fd, (mem2, (t', w)))

  unfoldable pub call_accept : ℤ → ℤ → ℤ → Caller → Outcome (ℤ × Caller)
  call_accept fd addr_ptr addr_len_ptr (mem, (t, w)) =
      or_return (get t fd) (stop (mem, (t, w))) λ socket.
        or_return (read_u32 mem addr_len_ptr) (stop (mem, (t, w))) λ addr_len.
          let ((accepted, filled), w1) = net.accept socket.raw_fd addr_len w in
          if is_negative accepted
          then done (neg_last_errno libc net w1, (mem, (t, w1)))
          else accepted_as socket addr_ptr addr_len_ptr accepted filled (mem, (t, w1))

  -- A buffer and its length handed to the guest, and then `answer`.
  abbrev pub hand_out : ℤ → ℤ → ℤ → Bytes → ℕ → Caller → Outcome (ℤ × Caller)
  hand_out answer ptr len_ptr buffer reported (mem, s) = cut buffer reported λ bytes.
      or_return (write_guest mem ptr bytes) (stop (mem, s)) λ mem1.
        or_return (write_u32 mem1 len_ptr reported) (stop (mem1, s))
          λ mem2. done (answer, (mem2, s))

  abbrev pub name_of : NameKind → ℤ → ℕ → World → (ℤ × Filled) × World
  name_of local = net.getsockname
  name_of peer = net.getpeername

  unfoldable pub sock_name : ℤ → ℤ → ℤ → NameKind → Caller → Outcome (ℤ × Caller)
  sock_name fd addr_ptr addr_len_ptr kind (mem, (t, w)) =
      or_return (get t fd) (stop (mem, (t, w))) λ socket.
        or_return (read_u32 mem addr_len_ptr) (stop (mem, (t, w))) λ addr_len.
          let ((rc, filled), w1) = name_of kind socket.raw_fd addr_len w in
          if is_negative rc
          then done (neg_last_errno libc net w1, (mem, (t, w1)))
          else hand_out (pos 0) addr_ptr addr_len_ptr
              (write_sockaddr_family filled.buffer socket.guest_domain) filled.reported
              (mem, (t, w1))

  unfoldable pub call_getsockname : ℤ → ℤ → ℤ → Caller → Outcome (ℤ × Caller)
  unfolding sock_name
  call_getsockname fd addr_ptr addr_len_ptr = sock_name fd addr_ptr addr_len_ptr local

  unfoldable pub call_getpeername : ℤ → ℤ → ℤ → Caller → Outcome (ℤ × Caller)
  unfolding sock_name
  call_getpeername fd addr_ptr addr_len_ptr = sock_name fd addr_ptr addr_len_ptr peer

  unfoldable pub call_setsockopt : ℤ → ℤ → ℤ → ℤ → ℤ → Caller → ℤ × Caller
  call_setsockopt fd level optname optval_ptr optlen (mem, (t, w)) =
      or_return (get t fd) (refuse (mem, (t, w))) λ socket.
        or_return (read_guest mem optval_ptr optlen) (refuse (mem, (t, w))) λ optval.
          answered mem t (cvt_i32 libc net)
            (net.setsockopt socket.raw_fd (normalize_socket_level libc net level) optname optval w)

  -- `optval[..4]` of a buffer that is shorter panics.
  unfoldable pub call_getsockopt : ℤ → ℤ → ℤ → ℤ → ℤ → Caller → Outcome (ℤ × Caller)
  call_getsockopt fd level optname optval_ptr optlen_ptr (mem, (t, w)) =
      or_return (get t fd) (stop (mem, (t, w))) λ socket.
        or_return (read_u32 mem optlen_ptr) (stop (mem, (t, w))) λ optlen.
          let ((rc, filled), w1) =
            net.getsockopt socket.raw_fd (normalize_socket_level libc net level) optname optlen w in
          if is_negative rc
          then done (neg_last_errno libc net w1, (mem, (t, w1)))
          else if is_guest_socket_level level
              && (optname ==ℤ wasi_so_error)
              && leb 4 filled.reported
          then cut filled.buffer 4 (λ _.
            hand_out (pos 0) optval_ptr optlen_ptr (guest_so_error libc filled.buffer)
              filled.reported (mem, (t, w1)))
          else hand_out (pos 0) optval_ptr optlen_ptr filled.buffer filled.reported (mem, (t, w1))

  unfoldable pub call_send : ℤ → ℤ → ℤ → ℤ → Caller → ℤ × Caller
  call_send fd buf_ptr len flags (mem, (t, w)) =
      or_return (get t fd) (refuse (mem, (t, w))) λ socket.
        or_return (read_guest mem buf_ptr len) (refuse (mem, (t, w)))
          λ buf. answered mem t (cvt_ssize libc net) (net.send socket.raw_fd buf flags w)

  -- Behind `libc::recv`.
  abbrev pub received : ℤ → ℤ × Bytes → Caller → Outcome (ℤ × Caller)
  received buf_ptr (negsuc n, buf) (mem, (t, w)) = done (neg_last_errno libc net w, (mem, (t, w)))
  received buf_ptr (pos n, buf) (mem, s) = cut buf n λ bytes.
      or_return (write_guest mem buf_ptr bytes) (stop (mem, s)) λ mem1. done (pos n, (mem1, s))

  unfoldable pub call_recv : ℤ → ℤ → ℤ → ℤ → Caller → Outcome (ℤ × Caller)
  call_recv fd buf_ptr len flags (mem, (t, w)) = or_return (get t fd) (stop (mem, (t, w))) λ socket.
      or_return (checked_len len) (stop (mem, (t, w)))
        λ n. let (r, w1) = net.recv socket.raw_fd n flags w in received buf_ptr r (mem, (t, w1))

  unfoldable pub call_sendto : ℤ → ℤ → ℤ → ℤ → ℤ → ℤ → Caller → ℤ × Caller
  call_sendto fd buf_ptr len flags addr_ptr addr_len (mem, (t, w)) =
      or_return (get t fd) (refuse (mem, (t, w))) λ socket.
        or_return (read_guest mem buf_ptr len) (refuse (mem, (t, w))) λ buf.
          or_return (read_guest mem addr_ptr addr_len) (refuse (mem, (t, w))) λ addr.
            answered mem t (cvt_ssize libc net)
              (net.sendto socket.raw_fd buf flags (write_sockaddr_family addr socket.host_domain) w)

  -- Behind `libc::recvfrom`: the data first, then the address and its length.
  abbrev pub received_from :
      HostSocket → ℤ → ℤ → ℤ → ℤ × Bytes × Filled → Caller → Outcome (ℤ × Caller)
  received_from socket buf_ptr addr_ptr addr_len_ptr (negsuc n, buf, filled) (mem, (t, w)) =
      done (neg_last_errno libc net w, (mem, (t, w)))
  received_from socket buf_ptr addr_ptr addr_len_ptr (pos n, buf, filled) (mem, s) =
      cut buf n λ bytes. or_return (write_guest mem buf_ptr bytes) (stop (mem, s)) λ mem1.
        hand_out (pos n) addr_ptr addr_len_ptr
          (write_sockaddr_family filled.buffer socket.guest_domain) filled.reported (mem1, s)

  unfoldable pub call_recvfrom : ℤ → ℤ → ℤ → ℤ → ℤ → ℤ → Caller → Outcome (ℤ × Caller)
  call_recvfrom fd buf_ptr len flags addr_ptr addr_len_ptr (mem, (t, w)) =
      or_return (get t fd) (stop (mem, (t, w))) λ socket.
        or_return (checked_len len) (stop (mem, (t, w))) λ n.
          or_return (read_u32 mem addr_len_ptr) (stop (mem, (t, w))) λ addr_len.
            let (r, w1) = net.recvfrom socket.raw_fd n flags addr_len w in
            received_from socket buf_ptr addr_ptr addr_len_ptr r (mem, (t, w1))

  unfoldable pub call_shutdown : ℤ → ℤ → Caller → ℤ × Caller
  call_shutdown fd how (mem, (t, w)) =
      or_return (get t fd) (refuse (mem, (t, w)))
        λ socket. answered mem t (cvt_i32 libc net) (net.shutdown socket.raw_fd how w)

  unfoldable pub call_close : ℤ → Caller → ℤ × Caller
  call_close fd (mem, (t, w)) =
      or_return (remove_socket t fd) (refuse (mem, (t, w)))
        λ (socket, t'). answered mem t' (cvt_i32 libc net) (net.close socket.raw_fd w)

  unfoldable pub call_fcntl : ℤ → ℤ → ℤ → Caller → ℤ × Caller
  call_fcntl fd cmd arg (mem, (t, w)) = or_return (get t fd) (refuse (mem, (t, w))) λ socket.
      let (answer, w1) = socket_fcntl libc net socket.raw_fd cmd arg w in (answer, (mem, (t, w1)))

  -- Behind `libc::poll`.
  abbrev pub written_back : ℤ → HostSockets × World → Result (Unit {0}) × Export → ℤ × Caller
  written_back rc s (ok u, mem) = (rc, (mem, s))
  written_back rc s (err e, mem) = (neg_errno e, (mem, s))

  unfoldable pub call_poll : ℤ → ℤ → ℤ → Caller → ℤ × Caller
  call_poll fds_ptr nfds timeout (mem, (t, w)) =
      or_return (checked_poll_count nfds) (refuse (mem, (t, w))) λ count.
        or_return (read_guest mem fds_ptr (pos (count * 8))) (refuse (mem, (t, w))) λ bytes.
          or_return (poll_entries t (chunks (length bytes / 8) bytes)) (refuse (mem, (t, w)))
            λ host_fds.
              let ((rc, polled), w1) = net.poll host_fds timeout w in
              if is_negative rc
              then (neg_last_errno libc net w1, (mem, (t, w1)))
              else written_back rc (t, w1) (write_revents fds_ptr 0 polled mem)
