-- ===== src/Tests/Crowd.antt =====
-- A network whose state is how many sockets were made and which of these are open: a new socket gets the
-- next number.
use wasmtime_mysql.Prelude.{
  ℕ, suc, ◌≡◌, ◌≢◌, refl, Bool, true, false, ◌&&◌, map, arith, some, if◌then◌else◌, ltb, ◌==◌,
  ◌==ℤ◌, ==_iff, ℤ, pos, negsuc, length, replicate,
}
use wasmtime_mysql.Sockets.Host.{Net}
use wasmtime_mysql.Sockets.Threads.Linear.{Makes, KeepsSockets}
use wasmtime_mysql.Tests.Machine.{filled, ready}

abbrev pub Sockets : Type 0
Sockets = ℕ × (ℕ → Bool)

abbrev pub is_live : Sockets → ℤ → Bool
is_live (made, live) (pos k) = ltb k made && live k
is_live (made, live) (negsuc k) = false

abbrev pub make_socket : Sockets → ℤ × Sockets
make_socket (made, live) = (pos made, (suc made, λ k. if made == k then true else live k))

abbrev pub close_socket : ℤ → Sockets → ℤ × Sockets
close_socket (negsuc k) w = (negsuc 0, w)
close_socket (pos k) (made, live) = (pos 0, (made, λ j. if k == j then false else live j))

abbrev pub crowd : Net
crowd = record {
  World = Sockets;
  socket = λ domain ty protocol w. make_socket w;
  bind = λ fd addr w. (pos 0, w);
  connect = λ fd addr w. (pos 0, w);
  listen = λ fd backlog w. (pos 0, w);
  shutdown = λ fd how w. (pos 0, w);
  close = close_socket;
  fcntl = λ fd cmd arg w. (pos 0, w);
  accept = λ fd len w. let (raw, w') = make_socket w in ((raw, filled len), w');
  getsockname = λ fd len w. ((pos 0, filled len), w);
  getpeername = λ fd len w. ((pos 0, filled len), w);
  getsockopt = λ fd level opt len w. ((pos 0, filled len), w);
  setsockopt = λ fd level opt val w. (pos 0, w);
  send = λ fd buf flags w. (pos (length buf), w);
  sendto = λ fd buf flags addr w. (pos (length buf), w);
  recv = λ fd len flags w. ((pos len, replicate len 9), w);
  recvfrom = λ fd len flags addr_len w. ((pos len, replicate len 9, filled addr_len), w);
  poll = λ fds timeout w. ((pos (length fds), map ready fds), w);
  last_error = λ w. some (pos 13);
  af_inet = pos 2;
  af_inet6 = pos 10;
  sock_stream = pos 1;
  sock_dgram = pos 2;
  sock_cloexec = pos 0x80000;
  sock_nonblock = pos 0x800;
  sol_socket = pos 1;
  f_getfd = pos 1;
  f_setfd = pos 2;
  f_getfl = pos 3;
  f_setfl = pos 4;
  fd_cloexec = pos 1;
  o_nonblock = pos 0x800;
}

other_live : (w : Sockets) (r : ℤ) → pos w.0 ≢ r → is_live (make_socket w).1 r ≡ is_live w r
other_live w (negsuc k) n = refl
other_live w (pos k) n = ground (arith, ==_iff w.0 k)

pub make_socket-Makes : (w : Sockets) → Makes is_live (make_socket w).0 w (make_socket w).1
make_socket-Makes w =
    ((λ e. absurd (ground arith)), λ e. (ground arith, ground arith, other_live w))

pub close_socket-live :
    (fd : ℤ) (w : Sockets) (r : ℤ)
    → is_live (close_socket fd w).1 r ≡ (if fd ==ℤ r then false else is_live w r)
close_socket-live (negsuc k) w (pos j) = refl
close_socket-live (negsuc k) w (negsuc j) = ground arith
close_socket-live (pos k) w (negsuc j) = refl
close_socket-live (pos k) w (pos j) = ground arith

abbrev pub crowd_law : KeepsSockets crowd
crowd_law = record {
  is_open = is_live;
  socket_made = λ domain ty protocol w. make_socket-Makes w;
  accepted = λ fd n w. make_socket-Makes w;
  closed = close_socket-live;
  bound = λ fd addr w r. refl;
  connected = λ fd addr w r. refl;
  listened = λ fd backlog w r. refl;
  shut = λ fd how w r. refl;
  controlled = λ fd cmd arg w r. refl;
  named = λ fd n w r. refl;
  peered = λ fd n w r. refl;
  option_read = λ fd level opt n w r. refl;
  option_set = λ fd level opt val w r. refl;
  sent = λ fd buf flags w r. refl;
  sent_to = λ fd buf flags addr w r. refl;
  received = λ fd n flags w r. refl;
  received_with = λ fd n flags m w r. refl;
  polled = λ fds timeout w r. refl;
}
