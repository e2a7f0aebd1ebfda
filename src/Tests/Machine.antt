-- ===== src/Tests/Machine.antt =====
-- A host to run on: the error numbers of Linux, a file system of one endless file, and a network
-- whose state is the list of the descriptors that were closed.
use wasmtime_mysql.Prelude.{
  ℕ, ◌≤◌, ◌≡◌, refl, List, [], ◌∷◌, map, arith, some, ℤ, pos, length, replicate, length-replicate,
}
use wasmtime_mysql.Errno.{HostErrno}
use wasmtime_mysql.Guest.{Bytes}
use wasmtime_mysql.Files.Host.{FileSystem, ReadsWithin, IoResult, io_ok, io_err}
use wasmtime_mysql.Sockets.Host.{Net, PollFd, PollsInPlace, ReceivesWithin, Filled}

abbrev pub linux : HostErrno
linux = record {
  e2big = pos 7;
  eacces = pos 13;
  eaddrinuse = pos 98;
  eaddrnotavail = pos 99;
  eafnosupport = pos 97;
  eagain = pos 11;
  ewouldblock = pos 11;
  ealready = pos 114;
  ebadf = pos 9;
  ebusy = pos 16;
  econnaborted = pos 103;
  econnrefused = pos 111;
  econnreset = pos 104;
  edestaddrreq = pos 89;
  eexist = pos 17;
  efault = pos 14;
  efbig = pos 27;
  ehostunreach = pos 113;
  einprogress = pos 115;
  eintr = pos 4;
  einval = pos 22;
  eisconn = pos 106;
  eisdir = pos 21;
  eloop = pos 40;
  emfile = pos 24;
  emsgsize = pos 90;
  enametoolong = pos 36;
  enetdown = pos 100;
  enetreset = pos 102;
  enetunreach = pos 101;
  enfile = pos 23;
  enobufs = pos 105;
  enodev = pos 19;
  enoent = pos 2;
  enomem = pos 12;
  enoprotoopt = pos 92;
  enospc = pos 28;
  enosys = pos 38;
  enotconn = pos 107;
  enotdir = pos 20;
  enotempty = pos 39;
  enotsock = pos 88;
  eopnotsupp = pos 95;
  enotsup = pos 95;
  eoverflow = pos 75;
  eperm = pos 1;
  epipe = pos 32;
  eprotonosupport = pos 93;
  eprototype = pos 91;
  erange = pos 34;
  erofs = pos 30;
  espipe = pos 29;
  etimedout = pos 110;
}

-- Every open gives the handle 3; every read fills its buffer with sevens; the last error is EACCES.
abbrev pub disk : FileSystem
disk = record {
  World = ℕ;
  File = ℕ;
  open_path = λ options path w. (io_ok 3, w);
  open_directory = λ path w. (io_err (some (pos 2)), w);
  drop_replaced = λ file w. w;
  read_at = λ file len offset w. (io_ok (len, replicate len 7), w);
  write_at = λ file buf offset w. (io_ok (length buf), w);
  seek = λ file target w. (io_ok 5, w);
  set_len = λ file size w. (io_ok tt, w);
  sync_data = λ file w. (io_ok tt, w);
  sync_all = λ file w. (io_ok tt, w);
  set_write_lock = λ file w. (pos 0, w);
  last_error = λ w. some (pos 13);
  seek_set = pos 0;
  seek_cur = pos 1;
  seek_end = pos 2;
}

read_all :
    (len n : ℕ) (bytes : Bytes)
    → ◌≡◌ {A = IoResult (ℕ × Bytes)} (io_ok (len, replicate len 7)) (io_ok (n, bytes))
    → (length bytes ≡ len) × (n ≤ len)
read_all len n bytes e = ground (arith, length-replicate {A = ℕ} len 7)

pub disk-ReadsWithin : ReadsWithin disk
disk-ReadsWithin = record { buffer = λ file len offset w n bytes e. read_all len n bytes e }

abbrev pub ready : PollFd → PollFd
ready p = record p { revents = p.events }

abbrev pub filled : ℕ → Filled
filled n = record { buffer = replicate n 9; reported = n }

-- Sockets get the descriptor 7, and every call succeeds with a full buffer.
abbrev pub network : Net
network = record {
  World = List ℤ;
  socket = λ domain ty protocol w. (pos 7, w);
  bind = λ fd addr w. (pos 0, w);
  connect = λ fd addr w. (pos 0, w);
  listen = λ fd backlog w. (pos 0, w);
  shutdown = λ fd how w. (pos 0, w);
  close = λ fd w. (pos 0, fd ∷ w);
  fcntl = λ fd cmd arg w. (pos 0, w);
  accept = λ fd len w. ((pos 7, filled len), w);
  getsockname = λ fd len w. ((pos 0, filled len), w);
  getpeername = λ fd len w. ((pos 0, filled len), w);
  getsockopt = λ fd level opt len w. ((pos 0, filled len), w);
  setsockopt = λ fd level opt val w. (pos 0, w);
  send = λ fd buf flags w. (pos (length buf), w);
  sendto = λ fd buf flags addr w. (pos (length buf), w);
  recv = λ fd len flags w. ((pos len, replicate len 9), w);
  recvfrom = λ fd len flags addr_len w. ((pos len, replicate len 9, filled addr_len), w);
  poll = λ fds timeout w. ((pos (length fds), map ready fds), w);
  last_error = λ w. some (pos 13);
  af_inet = pos 2;
  af_inet6 = pos 10;
  sock_stream = pos 1;
  sock_dgram = pos 2;
  sock_cloexec = pos 0x80000;
  sock_nonblock = pos 0x800;
  sol_socket = pos 1;
  f_getfd = pos 1;
  f_setfd = pos 2;
  f_getfl = pos 3;
  f_setfl = pos 4;
  fd_cloexec = pos 1;
  o_nonblock = pos 0x800;
}

ready-length : (fds : List PollFd) → length (map ready fds) ≡ length fds
ready-length [] = refl
ready-length (p ∷ fds) = omega (arith, ready-length fds)

pub network-PollsInPlace : PollsInPlace network
network-PollsInPlace = record { same_count = λ fds timeout w. ready-length fds }

receive_all : (len n : ℕ) → pos len ≡ pos n → (length {A = ℕ} (replicate len 9) ≡ len) × (n ≤ len)
receive_all len n e = ground (arith, length-replicate {A = ℕ} len 9)

pub network-ReceivesWithin : ReceivesWithin network
network-ReceivesWithin = record { received = λ fd len flags w n e. receive_all len n e }
