-- ===== src/Sockets/Host.antt =====
-- What the socket calls use of the C library on Linux: the functions of `libc`, each with its return
-- value, and the constants that the source names. A return value below 0 is an error, whose code
-- `last_error` tells (`std::io::Error::last_os_error().raw_os_error()`).
use wasmtime_mysql.Prelude.{ℕ, ◌≤◌, ◌≡◌, List, Option, length, ℤ, pos}
use wasmtime_mysql.Guest.{Bytes}

-- `libc::pollfd`; the two sets of events are given by their 16 bits.
pub record PollFd : Type 0 where
  pub fd : ℤ
  pub events : ℕ
  pub revents : ℕ

-- What a call that fills a buffer leaves: the buffer, and the length that it reports.
pub record Filled : Type 0 where
  pub buffer : Bytes
  pub reported : ℕ

pub record Net : Type 1 where
  pub World : Type 0
  pub socket : ℤ → ℤ → ℤ → World → ℤ × World
  pub bind : ℤ → Bytes → World → ℤ × World
  pub connect : ℤ → Bytes → World → ℤ × World
  pub listen : ℤ → ℤ → World → ℤ × World
  pub shutdown : ℤ → ℤ → World → ℤ × World
  pub close : ℤ → World → ℤ × World
  pub fcntl : ℤ → ℤ → ℤ → World → ℤ × World
  -- These take the length of a zeroed buffer.
  pub accept : ℤ → ℕ → World → (ℤ × Filled) × World
  pub getsockname : ℤ → ℕ → World → (ℤ × Filled) × World
  pub getpeername : ℤ → ℕ → World → (ℤ × Filled) × World
  pub getsockopt : ℤ → ℤ → ℤ → ℕ → World → (ℤ × Filled) × World
  pub setsockopt : ℤ → ℤ → ℤ → Bytes → World → ℤ × World
  pub send : ℤ → Bytes → ℤ → World → ℤ × World
  pub sendto : ℤ → Bytes → ℤ → Bytes → World → ℤ × World
  -- The buffer of the data, and for `recvfrom` that of the address.
  pub recv : ℤ → ℕ → ℤ → World → (ℤ × Bytes) × World
  pub recvfrom : ℤ → ℕ → ℤ → ℕ → World → (ℤ × Bytes × Filled) × World
  pub poll : List PollFd → ℤ → World → (ℤ × List PollFd) × World
  pub last_error : World → Option ℤ
  pub af_inet : ℤ
  pub af_inet6 : ℤ
  pub sock_stream : ℤ
  pub sock_dgram : ℤ
  pub sock_cloexec : ℤ
  pub sock_nonblock : ℤ
  pub sol_socket : ℤ
  pub f_getfd : ℤ
  pub f_setfd : ℤ
  pub f_getfl : ℤ
  pub f_setfl : ℤ
  pub fd_cloexec : ℤ
  pub o_nonblock : ℤ

-- `poll` fills in the entries that it is given.
pub record PollsInPlace (net : Net) : Type 0 where
  pub same_count :
      (fds : List PollFd) (timeout : ℤ) (w : net.World)
      → length ((net.poll fds timeout w).0).1 ≡ length fds

-- `recv` leaves the buffer as long as it was, and reports no more bytes than the buffer has.
pub record ReceivesWithin (net : Net) : Type 0 where
  pub received :
      (fd : ℤ) (len : ℕ) (flags : ℤ) (w : net.World) (n : ℕ)
      → ((net.recv fd len flags w).0).0 ≡ pos n
      → (length ((net.recv fd len flags w).0).1 ≡ len) × (n ≤ len)
