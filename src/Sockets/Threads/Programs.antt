-- ===== src/Sockets/Threads/Programs.antt =====
-- The imports of src/host_sockets.rs as programs of parts: each access of the table, of the guest's memory
-- and of the host is one.
use wasmtime_mysql.Prelude.{
  ℕ, suc, ◌*◌, ◌/◌, Bool, not, ◌&&◌, List, [], ◌∷◌, if◌then◌else◌, leb, ◌==ℤ◌, ℤ, pos, negsuc,
  word32, int32, has_bits, neg_errno, is_negative, Result, ok, err, length, take, drop,
}
use wasmtime_mysql.Errno.{HostErrno, enetdown, einval}
use wasmtime_mysql.Guest.{
  Bytes, Export, read_guest, write_guest, read_u32, write_u32, from_le_bytes, to_le_bytes,
}
use wasmtime_mysql.Sockets.{
  HostSocket, NormalizedSocketType, checked_poll_count, write_sockaddr_family,
  is_guest_socket_level, wasi_so_error, last_errno, neg_last_errno, cvt_i32, cvt_ssize,
  normalize_socket_type, normalize_socket_domain, normalize_socket_level, or_i32, and_not_i32,
  wasi_f_getfl, wasi_f_setfl, wasi_o_nonblock,
}
use wasmtime_mysql.Sockets.Host.{Net, PollFd, Filled}
use wasmtime_mysql.Sockets.Calls.{or_return, chunks, revents_ptr, NameKind, guest_so_error, name_of}
use wasmtime_mysql.Sockets.Threads.{
  Program, returns, panics, gets, enters, takes, opens, closes, calls, touches,
}

abbrev pub cut_program : {W : Type 0} → Bytes → ℕ → (Bytes → Program W) → Program W
cut_program bytes n follows = if leb n (length bytes) then follows (take n bytes) else panics

-- `return neg_errno(errno)`
abbrev pub fails : {W : Type 0} → ℤ → Program W
fails e = returns (neg_errno e)

-- A read of the guest's memory.
abbrev pub reads {ℓ} : {W : Type 0} {A : Type ℓ} → (Export → Result A) → (A → Program W) → Program W
reads read follows = touches (λ m. m) λ m. or_return (read m) fails follows

abbrev pub written : Result Export → Export → Export
written (ok mem') mem = mem'
written (err e) mem = mem

-- A write, which leaves the memory alone where it fails.
abbrev pub writes :
    {W : Type 0} → (Export → Result Export) → (ℤ → Program W) → Program W → Program W
writes write bad good = touches (λ m. written (write m) m) λ m. or_return (write m) bad (λ _. good)

-- A call of the host, and what follows of its return value and of the state behind it, whose last error
-- is that of the thread.
abbrev pub asks {ℓ} : {W : Type 0} {A : Type ℓ} → (W → A × W) → (A → W → Program W) → Program W
asks call follows = calls (λ w. (call w).1) λ w. follows (call w).0 (call w).1

module _ (libc : HostErrno) (net : Net) where
  open net use {World}

  abbrev pub answers_i32 : (World → ℤ × World) → Program World
  answers_i32 call = asks call λ rc w. returns (cvt_i32 libc net (rc, w))

  abbrev pub answers_ssize : (World → ℤ × World) → Program World
  answers_ssize call = asks call λ rc w. returns (cvt_ssize libc net (rc, w))

  abbrev pub with_socket : ℤ → (HostSocket → Program World) → Program World
  with_socket fd follows = gets fd λ r. or_return r fails follows

  abbrev pub set_flag_program : ℤ → ℤ → ℤ → ℤ → (ℤ → Program World) → Program World → Program World
  set_flag_program raw_fd getter setter flag bad good =
      asks (net.fcntl raw_fd getter (pos 0)) λ flags w.
        if is_negative flags
        then bad (last_errno libc net w)
        else asks (net.fcntl raw_fd setter (or_i32 flags flag))
            λ rc w'. if is_negative rc then bad (last_errno libc net w') else good

  abbrev pub configure_program :
      ℤ → NormalizedSocketType → (ℤ → Program World) → Program World → Program World
  configure_program raw_fd socket_type bad good =
      let second =
        if socket_type.nonblocking
        then set_flag_program raw_fd net.f_getfl net.f_setfl net.o_nonblock bad good
        else good in
      if socket_type.close_on_exec
      then set_flag_program raw_fd net.f_getfd net.f_setfd net.fd_cloexec bad second
      else second

  -- An error on the way of a descriptor into the table closes it.
  abbrev pub closes_failing : ℤ → ℤ → Program World
  closes_failing raw_fd e = closes raw_fd λ _. fails e

  abbrev pub socket_program : Bool → ℤ → ℤ → ℤ → Program World
  socket_program network_allowed domain ty protocol =
      if not network_allowed
      then fails enetdown
      else or_return (normalize_socket_type libc net ty) fails λ socket_type.
        let host_domain = normalize_socket_domain libc net domain in
        let made = net.socket host_domain socket_type.ty protocol in
        opens (λ w. (made w).0) (λ w. (made w).1)
          λ w.
            if is_negative (made w).0
            then returns (neg_last_errno libc net (made w).1)
            else configure_program (made w).0 socket_type (closes_failing (made w).0) (
                enters
                  (record { raw_fd = (made w).0; guest_domain = domain; host_domain = host_domain })
                  returns)

  abbrev pub accepted_program : HostSocket → ℤ → ℤ → ℤ → Filled → Program World
  accepted_program socket addr_ptr addr_len_ptr raw_fd filled =
      cut_program (write_sockaddr_family filled.buffer socket.guest_domain) filled.reported λ addr.
        writes (λ m. write_guest m addr_ptr addr) (closes_failing raw_fd)
          (writes (λ m. write_u32 m addr_len_ptr filled.reported) (closes_failing raw_fd)
            (enters (record socket { raw_fd = raw_fd }) returns))

  abbrev pub accept_program : ℤ → ℤ → ℤ → Program World
  accept_program fd addr_ptr addr_len_ptr = with_socket fd λ socket.
      reads (λ m. read_u32 m addr_len_ptr)
        λ addr_len.
          let took = net.accept socket.raw_fd addr_len in
          opens (λ w. ((took w).0).0) (λ w. (took w).1)
            λ w.
              if is_negative ((took w).0).0
              then returns (neg_last_errno libc net (took w).1)
              else accepted_program socket addr_ptr addr_len_ptr ((took w).0).0 ((took w).0).1

  abbrev pub hand_out_program : ℤ → ℤ → ℤ → Bytes → ℕ → Program World
  hand_out_program answer ptr len_ptr buffer reported = cut_program buffer reported λ bytes.
      writes (λ m. write_guest m ptr bytes) fails
        (writes (λ m. write_u32 m len_ptr reported) fails (returns answer))

  abbrev pub sock_name_program : ℤ → ℤ → ℤ → NameKind → Program World
  sock_name_program fd addr_ptr addr_len_ptr kind = with_socket fd λ socket.
      reads (λ m. read_u32 m addr_len_ptr)
        λ addr_len. asks (name_of libc net kind socket.raw_fd addr_len) λ (rc, filled) w.
          if is_negative rc
          then returns (neg_last_errno libc net w)
          else hand_out_program (pos 0) addr_ptr addr_len_ptr
              (write_sockaddr_family filled.buffer socket.guest_domain) filled.reported

  abbrev pub getsockopt_program : ℤ → ℤ → ℤ → ℤ → ℤ → Program World
  getsockopt_program fd level optname optval_ptr optlen_ptr = with_socket fd λ socket.
      reads (λ m. read_u32 m optlen_ptr)
        λ optlen.
          asks (net.getsockopt socket.raw_fd (normalize_socket_level libc net level) optname optlen)
            λ (rc, filled) w.
              if is_negative rc
              then returns (neg_last_errno libc net w)
              else if is_guest_socket_level level
                  && (optname ==ℤ wasi_so_error)
                  && leb 4 filled.reported
              then cut_program filled.buffer 4 (λ _.
                hand_out_program (pos 0) optval_ptr optlen_ptr (guest_so_error libc filled.buffer)
                  filled.reported)
              else hand_out_program (pos 0) optval_ptr optlen_ptr filled.buffer filled.reported

  abbrev pub received_program : ℤ → ℤ × Bytes → World → Program World
  received_program buf_ptr (negsuc n, buf) w = returns (neg_last_errno libc net w)
  received_program buf_ptr (pos n, buf) w =
      cut_program buf n λ bytes. writes (λ m. write_guest m buf_ptr bytes) fails (returns (pos n))

  abbrev pub received_from_program :
      HostSocket → ℤ → ℤ → ℤ → ℤ × Bytes × Filled → World → Program World
  received_from_program socket buf_ptr addr_ptr addr_len_ptr (negsuc n, buf, filled) w =
      returns (neg_last_errno libc net w)
  received_from_program socket buf_ptr addr_ptr addr_len_ptr (pos n, buf, filled) w =
      cut_program buf n λ bytes.
        writes (λ m. write_guest m buf_ptr bytes) fails
          (hand_out_program (pos n) addr_ptr addr_len_ptr
            (write_sockaddr_family filled.buffer socket.guest_domain) filled.reported)

  abbrev pub fcntl_program : ℤ → ℤ → ℤ → Program World
  fcntl_program raw_fd cmd arg =
      if cmd ==ℤ wasi_f_getfl
      then asks (net.fcntl raw_fd net.f_getfl (pos 0)) (λ flags w. returns (
          if is_negative flags
          then neg_last_errno libc net w
          else if has_bits flags (word32 net.o_nonblock)
          then wasi_o_nonblock
          else pos 0))
      else if cmd ==ℤ wasi_f_setfl
      then asks (net.fcntl raw_fd net.f_getfl (pos 0)) (λ flags w.
        if is_negative flags
        then returns (neg_last_errno libc net w)
        else answers_i32 (
            net.fcntl raw_fd net.f_setfl (
              if has_bits arg (word32 wasi_o_nonblock)
              then or_i32 flags net.o_nonblock
              else and_not_i32 flags net.o_nonblock)))
      else fails einval

  abbrev pub poll_raw_fd_program : ℤ → (ℤ → Program World) → Program World
  poll_raw_fd_program (negsuc n) follows = follows (negsuc n)
  poll_raw_fd_program (pos n) follows = with_socket (pos n) λ socket. follows socket.raw_fd

  abbrev pub poll_get : Bytes → (PollFd → Program World) → Program World
  poll_get chunk follows = poll_raw_fd_program (int32 (from_le_bytes (take 4 chunk))) λ raw_fd.
      follows (record { fd = raw_fd; events = from_le_bytes (take 2 (drop 4 chunk)); revents = 0 })

  -- A `get` for each entry.
  abbrev pub poll_gets : List Bytes → (List PollFd → Program World) → Program World
  poll_gets [] follows = follows []
  poll_gets (c ∷ cs) follows = poll_get c λ entry. poll_gets cs λ rest. follows (entry ∷ rest)

  abbrev pub write_revents_program : ℤ → ℕ → List PollFd → Program World → Program World
  write_revents_program fds_ptr index [] good = good
  write_revents_program fds_ptr index (p ∷ ps) good =
      writes (λ m. write_guest m (revents_ptr fds_ptr index) (to_le_bytes 2 p.revents)) fails
        (write_revents_program fds_ptr (suc index) ps good)

  abbrev pub poll_program : ℤ → ℤ → ℤ → Program World
  poll_program fds_ptr nfds timeout = or_return (checked_poll_count nfds) fails λ count.
      reads (λ m. read_guest m fds_ptr (pos (count * 8)))
        λ bytes. poll_gets (chunks (length bytes / 8) bytes) λ host_fds.
          asks (net.poll host_fds timeout) λ (rc, polled) w.
            if is_negative rc
            then returns (neg_last_errno libc net w)
            else write_revents_program fds_ptr 0 polled (returns rc)

  -- An import that reads a buffer of the guest's and asks the host.
  abbrev pub buffer_program : ℤ → ℤ → ℤ → (HostSocket → Bytes → Program World) → Program World
  buffer_program fd ptr len follows =
      with_socket fd λ socket. reads (λ m. read_guest m ptr len) (follows socket)

  abbrev pub close_program : ℤ → Program World
  close_program fd = takes fd λ r.
      or_return r fails
        λ socket. closes socket.raw_fd λ w. returns (cvt_i32 libc net (net.close socket.raw_fd w))
