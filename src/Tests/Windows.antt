-- ===== src/Tests/Windows.antt =====
-- Runs of the Windows build's socket calls, on a WinSock where every call succeeds and whose state is
-- the list of the sockets that were closed.
use wasmtime_mysql.Prelude.{
  ℕ, ◌<◌, ◌+◌, ◌-◌, ◌*◌, ◌^◌, ◌≡◌, ◌≤◌, ◌==ℤ◌, refl, true, false, List, [], ◌∷◌, map, arith, none,
  some, ℤ, pos, negsuc, insert, remove, ok, lookup, done, ◌>>=◌, length, replicate,
  length-replicate,
}
use wasmtime_mysql.Guest.{Export, memory, read_u32}
use wasmtime_mysql.Sockets.{new, insert_socket, remove_socket, and_i32}
use wasmtime_mysql.Sockets.History.{Call, socket, close, recv}
use wasmtime_mysql.Winsock.{
  WinSocket, WinSockets, checked_sockaddr_len, guest_o_nonblock, guest_f_setfl, guest_f_getfl,
  normalize_socket_type, ensure_winsock,
}
use wasmtime_mysql.Winsock.Host.{WinSock, WsaErrno, WsaPollFd, Filled, PollsInPlace}
use wasmtime_mysql.Winsock.Timeouts.{guest_timeout_to_windows, windows_timeout_to_guest}
use wasmtime_mysql.Winsock.Calls.{call_accept, call_fcntl, call_socket, call_close}
use wasmtime_mysql.Winsock.Table.{with_flags}
use wasmtime_mysql.Winsock.History.{Machine, perform, table_after}
use wasmtime_mysql.Winsock.Changes.{Change, perform_winsock-Change}
use wasmtime_mysql.Winsock.Runs.{run}
use wasmtime_mysql.Winsock.Total.{answers, ReceivesWithin, perform_winsock-answers}
use wasmtime_mysql.Winsock.Kept.{Kept, call_accept_winsock-Kept}
use wasmtime_mysql.Winsock.Flags.{call_fcntl-call_fcntl}
use wasmtime_mysql.Winsock.Rounding.{timeval, timeout_lem}
use wasmtime_mysql.Winsock.Events.{HasHeaderEvents}

abbrev wsa : WsaErrno
wsa = record {
  wsaeintr = pos 10004;
  wsaebadf = pos 10009;
  wsaeacces = pos 10013;
  wsaefault = pos 10014;
  wsaeinval = pos 10022;
  wsaemfile = pos 10024;
  wsaewouldblock = pos 10035;
  wsaeinprogress = pos 10036;
  wsaealready = pos 10037;
  wsaenotsock = pos 10038;
  wsaedestaddrreq = pos 10039;
  wsaemsgsize = pos 10040;
  wsaeprototype = pos 10041;
  wsaenoprotoopt = pos 10042;
  wsaeprotonosupport = pos 10043;
  wsaesocktnosupport = pos 10044;
  wsaeopnotsupp = pos 10045;
  wsaepfnosupport = pos 10046;
  wsaeafnosupport = pos 10047;
  wsaeaddrinuse = pos 10048;
  wsaeaddrnotavail = pos 10049;
  wsaenetdown = pos 10050;
  wsaenetunreach = pos 10051;
  wsaenetreset = pos 10052;
  wsaeconnaborted = pos 10053;
  wsaeconnreset = pos 10054;
  wsaenobufs = pos 10055;
  wsaeisconn = pos 10056;
  wsaenotconn = pos 10057;
  wsaeshutdown = pos 10058;
  wsaetimedout = pos 10060;
  wsaeconnrefused = pos 10061;
  wsaehostdown = pos 10064;
  wsaehostunreach = pos 10065;
}

abbrev ready : WsaPollFd → WsaPollFd
ready p = record p { revents = p.events }

abbrev filled : ℕ → Filled
filled n = record { buffer = replicate n 9; reported = pos n }

abbrev winsock : WinSock
winsock = record {
  World = List ℕ;
  startup = λ w. (pos 0, w);
  socket = λ domain ty protocol w. (7, w);
  closesocket = λ s w. (pos 0, s ∷ w);
  set_nonblocking = λ s enabled w. (pos 0, w);
  bind = λ s addr w. (pos 0, w);
  connect = λ s addr w. (pos 0, w);
  listen = λ s backlog w. (pos 0, w);
  shutdown = λ s how w. (pos 0, w);
  accept = λ s len w. ((7, filled len), w);
  getsockname = λ s len w. ((pos 0, filled len), w);
  getpeername = λ s len w. ((pos 0, filled len), w);
  getsockopt = λ s level opt len w. ((pos 0, filled len), w);
  setsockopt = λ s level opt val w. (pos 0, w);
  send = λ s buf flags w. (pos (length buf), w);
  sendto = λ s buf flags addr w. (pos (length buf), w);
  recv = λ s len flags w. ((pos len, replicate len 9), w);
  recvfrom = λ s len flags addr_len w. ((pos len, replicate len 9, filled addr_len), w);
  poll = λ fds timeout w. ((pos (length fds), map ready fds), w);
  last_error = λ w. pos 10013;
  invalid_socket = 2 ^ 64 - 1;
  socket_error = negsuc 0;
  af_inet = pos 2;
  af_inet6 = pos 23;
  sock_stream = pos 1;
  sock_dgram = pos 2;
  sol_socket = pos 0xFFFF;
  so_reuseaddr = pos 4;
  so_error = pos 0x1007;
  so_keepalive = pos 8;
  so_rcvtimeo = pos 0x1006;
  so_sndtimeo = pos 0x1005;
  ip_tos = pos 3;
  ipv6_v6only = pos 27;
  pollin = 0x300;
  pollpri = 0x400;
  pollout = 0x10;
  pollerr = 0x1;
  pollhup = 0x2;
  pollnval = 0x4;
}

ready-length : (fds : List WsaPollFd) → length (map ready fds) ≡ length fds
ready-length [] = refl
ready-length (p ∷ fds) = omega (arith, ready-length fds)

winsock-PollsInPlace : PollsInPlace winsock
winsock-PollsInPlace = record { same_count = λ fds timeout w. ready-length fds }

whole_buffer : (n : ℕ) → (k : ℕ) × (pos n ≡ pos k) × (k ≤ length {A = ℕ} (replicate n 9))
whole_buffer n = (n, refl, ground (arith, length-replicate {A = ℕ} n 9))

winsock-ReceivesWithin : ReceivesWithin wsa winsock
winsock-ReceivesWithin = record {
  recv_within = λ s n flags w e. whole_buffer n;
  recvfrom_within = λ s n flags m w e. whole_buffer n;
}

winsock-HasHeaderEvents : HasHeaderEvents winsock
winsock-HasHeaderEvents = record {
  pollin_bits = refl;
  pollpri_bits = refl;
  pollout_bits = refl;
  pollerr_bits = refl;
  pollhup_bits = refl;
  pollnval_bits = refl;
}

abbrev listener : WinSocket
listener = record {
  raw_socket = 5;
  guest_domain = pos 1;
  host_domain = pos 2;
  status_flags = pos 0;
}

abbrev table : WinSockets
table = record { next_fd = 10001; sockets = (pos 10000, listener) ∷ [] }

-- A word at 4 that gives room for four bytes.
abbrev guest_memory : Export
guest_memory = memory (0 ∷ 0 ∷ 0 ∷ 0 ∷ 4 ∷ 0 ∷ 0 ∷ 0 ∷ [])

abbrev nothing_closed : List ℕ
nothing_closed = []

abbrev machine : Machine wsa winsock true
machine = (none, (guest_memory, (table, nothing_closed)))

found : lookup (pos 10000) table.sockets ≡ some listener
unfolding lookup
found = refl

room : (read_u32 guest_memory (pos 4) >>= checked_sockaddr_len) ≡ ok 4
unfolding read_u32 checked_sockaddr_len
room = refl

perform_winsock-Change_example :
    Change
      (close (pos 10000))
      table
      (table_after wsa winsock true table (perform wsa winsock true (close (pos 10000)) machine))
perform_winsock-Change_example =
    perform_winsock-Change wsa winsock true (close (pos 10000)) none guest_memory table
      nothing_closed

perform_winsock-answers_example :
    answers (perform wsa winsock true (recv (pos 10000) (pos 0) (pos 3) (pos 0)) machine) ≡ true
perform_winsock-answers_example =
    perform_winsock-answers wsa winsock true (recv (pos 10000) (pos 0) (pos 3) (pos 0)) machine
      winsock-ReceivesWithin winsock-PollsInPlace

call_accept_winsock-Kept_example :
    Kept wsa winsock
      (record listener { raw_socket = 7 })
      table
      nothing_closed
      (call_accept wsa winsock (pos 10000) (pos 0) (pos 4) (guest_memory, (table, nothing_closed)))
call_accept_winsock-Kept_example =
    call_accept_winsock-Kept wsa winsock (pos 10000) (pos 0) (pos 4) guest_memory table
      nothing_closed listener 4 7 (filled 4) nothing_closed found room refl refl

-- O_NONBLOCK is 4; the bit 1 of the guest's flags is dropped.
call_fcntl-call_fcntl_example :
    let t' = with_flags table (pos 10000) listener (and_i32 (pos 5) guest_o_nonblock) in
    (call_fcntl wsa winsock
        (pos 10000)
        guest_f_setfl
        (pos 5)
        (guest_memory, (table, nothing_closed))
      ≡ (pos 0, (guest_memory, (t', nothing_closed))))
    × (call_fcntl wsa winsock (pos 10000) guest_f_getfl (pos 0) (guest_memory, (t', nothing_closed))
        ≡ (and_i32 (pos 5) guest_o_nonblock, (guest_memory, (t', nothing_closed))))
    × ((k : ℤ) → (pos 10000 ==ℤ k) ≡ false → lookup k t'.sockets ≡ lookup k table.sockets)
call_fcntl-call_fcntl_example =
    call_fcntl-call_fcntl wsa winsock (pos 10000) (pos 5) table nothing_closed (pos 0) (pos 0)
      guest_memory guest_memory nothing_closed nothing_closed listener found refl refl

-- Two seconds and one microsecond.
timeout_lem_example :
    (s' : ℕ) × (u' : ℕ) × (windows_timeout_to_guest (guest_timeout_to_windows (timeval 2 1)) 16
      ≡ timeval s' u')
    × (u' < 1_000_000)
    × (2 * 1_000_000 + 1 ≤ s' * 1_000_000 + u')
    × (s' * 1_000_000 + u' < 2 * 1_000_000 + 1 + 1000)
timeout_lem_example = timeout_lem 2 1 16 (omega arith) (omega arith) (omega arith)

abbrev script : List Call
script = socket (pos 1) (pos 6) (pos 0) ∷ close (pos 10000) ∷ []

ran :
    run wsa winsock true script (none, (guest_memory, (new, nothing_closed)))
    ≡ done (some (ok tt), (guest_memory, (record { next_fd = 10001; sockets = [] }, 7 ∷ [])))
unfolding run new call_socket call_close normalize_socket_type ensure_winsock insert_socket insert
    remove lookup remove_socket
ran = refl
