-- ===== src/Winsock/Host.antt =====
-- What the socket calls use of WinSock on Windows: its functions, each with its return value, and the
-- constants that the source names. `last_error` is `WSAGetLastError`.
use wasmtime_mysql.Prelude.{ℕ, ◌≡◌, List, length, ℤ}
use wasmtime_mysql.Guest.{Bytes}

-- `WSAPOLLFD`; the two sets of events are given by their 16 bits.
pub record WsaPollFd : Type 0 where
  pub fd : ℕ
  pub events : ℕ
  pub revents : ℕ

-- What a call that fills a buffer leaves: the buffer, and the `i32` that it reports as its length.
pub record Filled : Type 0 where
  pub buffer : Bytes
  pub reported : ℤ

-- The error codes that `socket_errno` names.
pub record WsaErrno : Type 0 where
  pub wsaeintr : ℤ
  pub wsaebadf : ℤ
  pub wsaeacces : ℤ
  pub wsaefault : ℤ
  pub wsaeinval : ℤ
  pub wsaemfile : ℤ
  pub wsaewouldblock : ℤ
  pub wsaeinprogress : ℤ
  pub wsaealready : ℤ
  pub wsaenotsock : ℤ
  pub wsaedestaddrreq : ℤ
  pub wsaemsgsize : ℤ
  pub wsaeprototype : ℤ
  pub wsaenoprotoopt : ℤ
  pub wsaeprotonosupport : ℤ
  pub wsaesocktnosupport : ℤ
  pub wsaeopnotsupp : ℤ
  pub wsaepfnosupport : ℤ
  pub wsaeafnosupport : ℤ
  pub wsaeaddrinuse : ℤ
  pub wsaeaddrnotavail : ℤ
  pub wsaenetdown : ℤ
  pub wsaenetunreach : ℤ
  pub wsaenetreset : ℤ
  pub wsaeconnaborted : ℤ
  pub wsaeconnreset : ℤ
  pub wsaenobufs : ℤ
  pub wsaeisconn : ℤ
  pub wsaenotconn : ℤ
  pub wsaeshutdown : ℤ
  pub wsaetimedout : ℤ
  pub wsaeconnrefused : ℤ
  pub wsaehostdown : ℤ
  pub wsaehostunreach : ℤ

pub record WinSock : Type 1 where
  pub World : Type 0
  -- `WSAStartup(0x0202, ..)`
  pub startup : World → ℤ × World
  pub socket : ℤ → ℤ → ℤ → World → ℕ × World
  pub closesocket : ℕ → World → ℤ × World
  -- `ioctlsocket(socket, FIONBIO, enabled)`
  pub set_nonblocking : ℕ → ℕ → World → ℤ × World
  pub bind : ℕ → Bytes → World → ℤ × World
  pub connect : ℕ → Bytes → World → ℤ × World
  pub listen : ℕ → ℤ → World → ℤ × World
  pub shutdown : ℕ → ℤ → World → ℤ × World
  -- These take the length of a zeroed buffer.
  pub accept : ℕ → ℕ → World → (ℕ × Filled) × World
  pub getsockname : ℕ → ℕ → World → (ℤ × Filled) × World
  pub getpeername : ℕ → ℕ → World → (ℤ × Filled) × World
  pub getsockopt : ℕ → ℤ → ℤ → ℕ → World → (ℤ × Filled) × World
  pub setsockopt : ℕ → ℤ → ℤ → Bytes → World → ℤ × World
  pub send : ℕ → Bytes → ℤ → World → ℤ × World
  pub sendto : ℕ → Bytes → ℤ → Bytes → World → ℤ × World
  -- The buffer of the data, and for `recvfrom` that of the address.
  pub recv : ℕ → ℕ → ℤ → World → (ℤ × Bytes) × World
  pub recvfrom : ℕ → ℕ → ℤ → ℕ → World → (ℤ × Bytes × Filled) × World
  pub poll : List WsaPollFd → ℤ → World → (ℤ × List WsaPollFd) × World
  pub last_error : World → ℤ
  pub invalid_socket : ℕ
  pub socket_error : ℤ
  pub af_inet : ℤ
  pub af_inet6 : ℤ
  pub sock_stream : ℤ
  pub sock_dgram : ℤ
  pub sol_socket : ℤ
  pub so_reuseaddr : ℤ
  pub so_error : ℤ
  pub so_keepalive : ℤ
  pub so_rcvtimeo : ℤ
  pub so_sndtimeo : ℤ
  pub ip_tos : ℤ
  pub ipv6_v6only : ℤ
  pub pollin : ℕ
  pub pollpri : ℕ
  pub pollout : ℕ
  pub pollerr : ℕ
  pub pollhup : ℕ
  pub pollnval : ℕ

-- `WSAPoll` fills in the entries that it is given.
pub record PollsInPlace (ws : WinSock) : Type 0 where
  pub same_count :
      (fds : List WsaPollFd) (timeout : ℤ) (w : ws.World)
      → length ((ws.poll fds timeout w).0).1 ≡ length fds
