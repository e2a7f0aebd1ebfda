-- ===== src/Winsock/Calls.antt =====
-- src/host_sockets_windows.rs, `add_to_linker`: the imports that the guest calls. A call changes the
-- guest's memory, the table of sockets and the state of the host; `socket` also the start of WinSock.
use wasmtime_mysql.Prelude.{
  ℕ, suc, ◌*◌, ◌/◌, Bool, true, false, not, ◌&&◌, List, [], ◌∷◌, map, if◌then◌else◌, ltb, ◌==◌,
  ◌==ℤ◌, ℤ, pos, negsuc, word32, int32, neg_errno, Result, ok, err, ◌>>=◌, Outcome, done, leave,
  panic, length, take, drop,
}
use wasmtime_mysql.Errno.{enetdown, eio, einval}
use wasmtime_mysql.Guest.{
  Bytes, Export, read_guest, write_guest, read_u32, write_u32, checked_len, from_le_bytes,
  to_le_bytes,
}
use wasmtime_mysql.Sockets.{
  insert_socket, get, remove_socket, checked_poll_count, write_sockaddr_family,
  is_guest_socket_level, and_i32,
}
use wasmtime_mysql.Sockets.Calls.{or_return, cut, chunks, revents_ptr, NameKind, local, peer}
use wasmtime_mysql.Winsock.{
  WinSocket, WinSockets, set_status_flags, guest_o_nonblock, guest_f_getfl, guest_f_setfl,
  guest_so_error, normalize_message_flags, is_guest_timeout, checked_sockaddr_len, socket_errno,
  normalize_socket_type, normalize_socket_domain, normalize_socket_option,
  guest_poll_events_to_windows, windows_poll_events_to_guest, neg_last_socket_errno, cvt_socket_i32,
  Started, ensure_winsock,
}
use wasmtime_mysql.Winsock.Host.{WinSock, WsaErrno, WsaPollFd, Filled}
use wasmtime_mysql.Winsock.Timeouts.{guest_timeout_to_windows, windows_timeout_to_guest}

-- `addr_len < 0 || addr_len as usize > addr.len()`, and the length where that does not hold.
abbrev pub reported_len : Filled → Result ℕ
reported_len f = elim f.reported [
  | pos n ↦ if ltb (length f.buffer) n then err eio else ok n
  | negsuc n ↦ err eio
]

-- `&buf[..rc as usize]` of an `i32`: a negative number becomes an index behind every buffer.
abbrev pub cut_i32 {ℓ} : {R : Type ℓ} → Bytes → ℤ → (Bytes → Outcome R) → Outcome R
cut_i32 bytes (pos n) follows = cut bytes n follows
cut_i32 bytes (negsuc n) follows = panic

-- An entry of the guest's, and whether it is ignored.
abbrev pub poll_entry : WinSock → WinSockets → Bytes → Result (Bool × WsaPollFd)
poll_entry ws t chunk = elim (int32 (from_le_bytes (take 4 chunk))) [
  | negsuc n ↦ ok (true, record { fd = ws.invalid_socket; events = 0; revents = 0 })
  | pos fd ↦ do
    socket ← get t (pos fd)
    ok (
      false,
      record {
        fd = socket.raw_socket;
        events = guest_poll_events_to_windows ws (from_le_bytes (take 2 (drop 4 chunk)));
        revents = 0;
      },
    )
]

unfoldable pub poll_entries : WinSock → WinSockets → List Bytes → Result (List (Bool × WsaPollFd))
poll_entries ws t [] = ok []
poll_entries ws t (c ∷ cs) = do
  entry ← poll_entry ws t c
  rest ← poll_entries ws t cs
  ok (entry ∷ rest)

abbrev pub guest_revents : WinSock → Bool → ℕ → ℕ
guest_revents ws ignored revents = if ignored then 0 else windows_poll_events_to_guest ws revents

-- The loop that writes the answers back; a missing `ignored[index]` panics.
unfoldable pub write_revents :
    WinSock → ℤ → ℕ → List Bool → List WsaPollFd → Export → Outcome (Result (Unit {0}) × Export)
write_revents ws fds_ptr index ignored [] mem = done (ok tt, mem)
write_revents ws fds_ptr index [] (p ∷ ps) mem = panic
write_revents ws fds_ptr index (b ∷ bs) (p ∷ ps) mem =
    elim (write_guest mem (revents_ptr fds_ptr index)
      (to_le_bytes 2 (guest_revents ws b p.revents))) [
        | err e ↦ done (err e, mem)
        | ok mem' ↦ write_revents ws fds_ptr (suc index) bs ps mem'
      ]

-- What `getsockopt` makes of the bytes of an option; the slice `result[..4]` has four bytes.
abbrev pub guest_option : WsaErrno → ℤ → ℤ → ℕ → Bytes → Bytes
guest_option wsa level optname requested_len result =
    if is_guest_timeout level optname
    then windows_timeout_to_guest result requested_len
    else if is_guest_socket_level level && (optname ==ℤ guest_so_error) && (length result == 4)
    then to_le_bytes 4 (word32 (socket_errno wsa (int32 (from_le_bytes result))))
    else result

abbrev pub truncated : ℕ → Bytes → Bytes
truncated n bytes = if ltb n (length bytes) then take n bytes else bytes

module _ (wsa : WsaErrno) (ws : WinSock) where
  open ws use {World}

  abbrev pub Caller : Type 0
  Caller = Export × (WinSockets × World)

  abbrev pub refuse : Caller → ℤ → ℤ × Caller
  refuse c e = (neg_errno e, c)

  abbrev pub stop : Caller → ℤ → Outcome (ℤ × Caller)
  stop c e = done (neg_errno e, c)

  abbrev pub answered : Export → WinSockets → ℤ × World → ℤ × Caller
  answered mem t (rc, w) = (cvt_socket_i32 wsa ws (rc, w), (mem, (t, w)))

  -- Behind `ws::socket`: the last error is asked for after the socket is closed.
  abbrev pub made : WinSocket → Bool → Caller → ℤ × Caller
  made socket nonblocking (mem, (t, w)) =
      let (rc, w1) = ws.set_nonblocking socket.raw_socket 1 w in
      let closed = (ws.closesocket socket.raw_socket w1).1 in
      if nonblocking
      then (if rc ==ℤ ws.socket_error
          then (neg_last_socket_errno wsa ws closed, (mem, (t, closed)))
          else (let (fd, t') =
                insert_socket (record socket { status_flags = guest_o_nonblock }) t in
              (fd, (mem, (t', w1)))))
      else (let (fd, t') = insert_socket socket t in (fd, (mem, (t', w))))

  unfoldable pub call_socket :
      Bool → ℤ → ℤ → ℤ → Started wsa ws × Caller → ℤ × (Started wsa ws × Caller)
  call_socket network_allowed domain ty protocol (started, (mem, (t, w))) =
      if not network_allowed
      then (neg_errno enetdown, (started, (mem, (t, w))))
      else (let (r, (started', w1)) = ensure_winsock wsa ws (started, w) in
          or_return r (λ e. (neg_errno e, (started', (mem, (t, w1)))))
            λ _.
              or_return (normalize_socket_type ws ty)
                (λ e. (neg_errno e, (started', (mem, (t, w1)))))
                λ socket_type.
                  let host_domain = normalize_socket_domain ws domain in
                  let (raw_socket, w2) = ws.socket host_domain socket_type.ty protocol w1 in
                  if raw_socket == ws.invalid_socket
                  then (neg_last_socket_errno wsa ws w2, (started', (mem, (t, w2))))
                  else (let (answer, c) =
                        made
                          (record {
                            raw_socket = raw_socket;
                            guest_domain = domain;
                            host_domain = host_domain;
                            status_flags = pos 0;
                          })
                          socket_type.nonblocking (mem, (t, w2)) in
                      (answer, (started', c))))

  unfoldable pub call_bind : ℤ → ℤ → ℤ → Caller → ℤ × Caller
  call_bind fd addr_ptr addr_len (mem, (t, w)) =
      or_return (get t fd) (refuse (mem, (t, w))) λ socket.
        or_return (read_guest mem addr_ptr addr_len) (refuse (mem, (t, w))) λ addr.
          answered mem t
            (ws.bind socket.raw_socket (write_sockaddr_family addr socket.host_domain) w)

  unfoldable pub call_listen : ℤ → ℤ → Caller → ℤ × Caller
  call_listen fd backlog (mem, (t, w)) =
      or_return (get t fd) (refuse (mem, (t, w)))
        λ socket. answered mem t (ws.listen socket.raw_socket backlog w)

  unfoldable pub call_connect : ℤ → ℤ → ℤ → Caller → ℤ × Caller
  call_connect fd addr_ptr addr_len (mem, (t, w)) =
      or_return (get t fd) (refuse (mem, (t, w))) λ socket.
        or_return (read_guest mem addr_ptr addr_len) (refuse (mem, (t, w))) λ addr.
          answered mem t
            (ws.connect socket.raw_socket (write_sockaddr_family addr socket.host_domain) w)

  -- The end of `accept`, of a connection that the host accepted.
  abbrev pub accepted_as : WinSocket → ℤ → ℤ → ℕ → Filled → Caller → Outcome (ℤ × Caller)
  accepted_as socket addr_ptr addr_len_ptr raw_socket filled (mem, (t, w)) =
      or_return (reported_len filled) (stop (mem, (t, (ws.closesocket raw_socket w).1))) λ addr_len.
        cut (write_sockaddr_family filled.buffer socket.guest_domain) addr_len λ addr.
          or_return (write_guest mem addr_ptr addr)
            (stop (mem, (t, (ws.closesocket raw_socket w).1)))
            λ mem1.
              or_return (write_u32 mem1 addr_len_ptr addr_len)
                (stop (mem1, (t, (ws.closesocket raw_socket w).1)))
                λ mem2.
                  let (guest_fd, t') =
                    insert_socket (record socket { raw_socket = raw_socket }) t in
                  done (guest_fd, (mem2, (t', w)))

  unfoldable pub call_accept : ℤ → ℤ → ℤ → Caller → Outcome (ℤ × Caller)
  call_accept fd addr_ptr addr_len_ptr (mem, (t, w)) =
      or_return (get t fd) (stop (mem, (t, w))) λ socket.
        or_return (read_u32 mem addr_len_ptr >>= checked_sockaddr_len) (stop (mem, (t, w)))
          λ requested_len.
            let ((accepted, filled), w1) = ws.accept socket.raw_socket requested_len w in
            if accepted == ws.invalid_socket
            then done (neg_last_socket_errno wsa ws w1, (mem, (t, w1)))
            else accepted_as socket addr_ptr addr_len_ptr accepted filled (mem, (t, w1))

  -- A buffer and its length handed to the guest, and then `answer`.
  abbrev pub hand_out : ℤ → ℤ → ℤ → Bytes → ℕ → Caller → Outcome (ℤ × Caller)
  hand_out answer ptr len_ptr buffer reported (mem, s) = cut buffer reported λ bytes.
      or_return (write_guest mem ptr bytes) (stop (mem, s)) λ mem1.
        or_return (write_u32 mem1 len_ptr reported) (stop (mem1, s))
          λ mem2. done (answer, (mem2, s))

  abbrev pub name_of : NameKind → ℕ → ℕ → World → (ℤ × Filled) × World
  name_of local = ws.getsockname
  name_of peer = ws.getpeername

  unfoldable pub socket_name : ℤ → ℤ → ℤ → NameKind → Caller → Outcome (ℤ × Caller)
  socket_name fd addr_ptr addr_len_ptr kind (mem, (t, w)) =
      or_return (get t fd) (stop (mem, (t, w))) λ socket.
        or_return (read_u32 mem addr_len_ptr >>= checked_sockaddr_len) (stop (mem, (t, w)))
          λ requested_len.
            let ((rc, filled), w1) = name_of kind socket.raw_socket requested_len w in
            if rc ==ℤ ws.socket_error
            then done (neg_last_socket_errno wsa ws w1, (mem, (t, w1)))
            else or_return (reported_len filled) (stop (mem, (t, w1))) λ addr_len.
              hand_out (pos 0) addr_ptr addr_len_ptr
                (write_sockaddr_family filled.buffer socket.guest_domain) addr_len (mem, (t, w1))

  unfoldable pub call_setsockopt : ℤ → ℤ → ℤ → ℤ → ℤ → Caller → ℤ × Caller
  call_setsockopt fd level optname optval_ptr optlen (mem, (t, w)) =
      or_return (get t fd) (refuse (mem, (t, w))) λ socket.
        or_return (read_guest mem optval_ptr optlen) (refuse (mem, (t, w))) λ optval.
          let (host_level, host_optname) = normalize_socket_option ws level optname in
          answered mem t (
            ws.setsockopt socket.raw_socket host_level host_optname
              (if is_guest_timeout level optname then guest_timeout_to_windows optval else optval)
              w)

  -- Behind a successful `ws::getsockopt`: the bytes of the option, and their number.
  abbrev pub option_out : ℤ → ℤ → ℤ → ℤ → ℕ → Filled → Caller → Outcome (ℤ × Caller)
  option_out level optname optval_ptr optlen_ptr requested_len filled (mem, s) =
      or_return (reported_len filled) (stop (mem, s)) λ optlen. cut filled.buffer optlen λ bytes.
        let result = truncated requested_len (guest_option wsa level optname requested_len bytes) in
        or_return (write_guest mem optval_ptr result) (stop (mem, s)) λ mem1.
          or_return (write_u32 mem1 optlen_ptr (length result)) (stop (mem1, s))
            λ mem2. done (pos 0, (mem2, s))

  unfoldable pub call_getsockopt : ℤ → ℤ → ℤ → ℤ → ℤ → Caller → Outcome (ℤ × Caller)
  call_getsockopt fd level optname optval_ptr optlen_ptr (mem, (t, w)) =
      or_return (get t fd) (stop (mem, (t, w))) λ socket.
        or_return (read_u32 mem optlen_ptr >>= checked_sockaddr_len) (stop (mem, (t, w)))
          λ requested_len.
            let (host_level, host_optname) = normalize_socket_option ws level optname in
            let ((rc, filled), w1) =
              ws.getsockopt socket.raw_socket host_level host_optname
                (if is_guest_timeout level optname then 4 else requested_len) w in
            if rc ==ℤ ws.socket_error
            then done (neg_last_socket_errno wsa ws w1, (mem, (t, w1)))
            else option_out level optname optval_ptr optlen_ptr requested_len filled (mem, (t, w1))

  unfoldable pub call_send : ℤ → ℤ → ℤ → ℤ → Caller → ℤ × Caller
  call_send fd buf_ptr len flags (mem, (t, w)) =
      or_return (get t fd) (refuse (mem, (t, w))) λ socket.
        or_return (read_guest mem buf_ptr len) (refuse (mem, (t, w)))
          λ buf. answered mem t (ws.send socket.raw_socket buf (normalize_message_flags flags) w)

  unfoldable pub call_recv : ℤ → ℤ → ℤ → ℤ → Caller → Outcome (ℤ × Caller)
  call_recv fd buf_ptr len flags (mem, (t, w)) = or_return (get t fd) (stop (mem, (t, w))) λ socket.
      or_return (checked_len len) (stop (mem, (t, w))) λ n.
        let ((rc, buf), w1) = ws.recv socket.raw_socket n (normalize_message_flags flags) w in
        if rc ==ℤ ws.socket_error
        then done (neg_last_socket_errno wsa ws w1, (mem, (t, w1)))
        else cut_i32 buf rc λ bytes.
          or_return (write_guest mem buf_ptr bytes) (stop (mem, (t, w1)))
            λ mem1. done (rc, (mem1, (t, w1)))

  unfoldable pub call_sendto : ℤ → ℤ → ℤ → ℤ → ℤ → ℤ → Caller → ℤ × Caller
  call_sendto fd buf_ptr len flags addr_ptr addr_len (mem, (t, w)) =
      or_return (get t fd) (refuse (mem, (t, w))) λ socket.
        or_return (read_guest mem buf_ptr len) (refuse (mem, (t, w))) λ buf.
          or_return (read_guest mem addr_ptr addr_len) (refuse (mem, (t, w))) λ addr.
            answered mem t (
              ws.sendto socket.raw_socket buf (normalize_message_flags flags)
                (write_sockaddr_family addr socket.host_domain) w)

  unfoldable pub call_recvfrom : ℤ → ℤ → ℤ → ℤ → ℤ → ℤ → Caller → Outcome (ℤ × Caller)
  call_recvfrom fd buf_ptr len flags addr_ptr addr_len_ptr (mem, (t, w)) =
      or_return (get t fd) (stop (mem, (t, w))) λ socket.
        or_return (checked_len len) (stop (mem, (t, w))) λ n.
          or_return (read_u32 mem addr_len_ptr >>= checked_sockaddr_len) (stop (mem, (t, w)))
            λ requested_len.
              let ((rc, buf, filled), w1) =
                ws.recvfrom socket.raw_socket n (normalize_message_flags flags) requested_len w in
              if rc ==ℤ ws.socket_error
              then done (neg_last_socket_errno wsa ws w1, (mem, (t, w1)))
              else or_return (reported_len filled) (stop (mem, (t, w1))) λ addr_len.
                cut_i32 buf rc λ bytes.
                  or_return (write_guest mem buf_ptr bytes) (stop (mem, (t, w1))) λ mem1.
                    hand_out rc addr_ptr addr_len_ptr
                      (write_sockaddr_family filled.buffer socket.guest_domain) addr_len
                      (mem1, (t, w1))

  unfoldable pub call_shutdown : ℤ → ℤ → Caller → ℤ × Caller
  call_shutdown fd how (mem, (t, w)) =
      or_return (get t fd) (refuse (mem, (t, w)))
        λ socket. answered mem t (ws.shutdown socket.raw_socket how w)

  unfoldable pub call_close : ℤ → Caller → ℤ × Caller
  call_close fd (mem, (t, w)) =
      or_return (remove_socket t fd) (refuse (mem, (t, w)))
        λ (socket, t'). answered mem t' (ws.closesocket socket.raw_socket w)

  unfoldable pub call_fcntl : ℤ → ℤ → ℤ → Caller → ℤ × Caller
  call_fcntl fd cmd arg (mem, (t, w)) = or_return (get t fd) (refuse (mem, (t, w))) λ socket.
      if cmd ==ℤ guest_f_getfl
      then (socket.status_flags, (mem, (t, w)))
      else if cmd ==ℤ guest_f_setfl
      then (let status_flags = and_i32 arg guest_o_nonblock in
          let (rc, w1) =
            ws.set_nonblocking socket.raw_socket (if status_flags ==ℤ pos 0 then 0 else 1) w in
          if rc ==ℤ ws.socket_error
          then (neg_last_socket_errno wsa ws w1, (mem, (t, w1)))
          else or_return (set_status_flags fd status_flags t) (refuse (mem, (t, w1)))
              λ t'. (pos 0, (mem, (t', w1))))
      else (neg_errno einval, (mem, (t, w)))

  -- Behind `WSAPoll`.
  abbrev pub written_back :
      ℤ → WinSockets × World → Outcome (Result (Unit {0}) × Export) → Outcome (ℤ × Caller)
  written_back rc s (done (ok u, mem)) = done (rc, (mem, s))
  written_back rc s (done (err e, mem)) = done (neg_errno e, (mem, s))
  written_back rc s (leave n) = leave n
  written_back rc s panic = panic

  unfoldable pub call_poll : ℤ → ℤ → ℤ → Caller → Outcome (ℤ × Caller)
  call_poll fds_ptr nfds timeout (mem, (t, w)) =
      or_return (checked_poll_count nfds) (stop (mem, (t, w))) λ count.
        or_return (read_guest mem fds_ptr (pos (count * 8))) (stop (mem, (t, w))) λ bytes.
          or_return (poll_entries ws t (chunks (length bytes / 8) bytes)) (stop (mem, (t, w)))
            λ entries.
              let ((rc, polled), w1) =
                ws.poll (map (λ (e : Bool × WsaPollFd). e.1) entries) timeout w in
              if rc ==ℤ ws.socket_error
              then done (neg_last_socket_errno wsa ws w1, (mem, (t, w1)))
              else written_back rc (t, w1)
                  (write_revents ws fds_ptr 0 (map (λ (e : Bool × WsaPollFd). e.0) entries) polled
                    mem)
