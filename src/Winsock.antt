-- ===== src/Winsock.antt =====
-- src/host_sockets_windows.rs: the sockets of the Windows build. This file has the state and the
-- conversions between the guest's constants and WinSock's; the table is the one of src/host_sockets.rs.
pub mod Host
pub mod Timeouts
pub mod Calls
pub mod Table
pub mod Changes
pub mod History
pub mod Runs
pub mod Total
pub mod Kept
pub mod Flags
pub mod Rounding
pub mod Events
use wasmtime_mysql.Prelude.{
  ℕ, ◌+◌, ◌-◌, ◌^◌, Bool, true, false, not, ◌&&◌, ◌||◌, Option, none, some, leb, ltb, if◌then◌else◌,
  ◌==ℤ◌, ◌==◌, ℤ, pos, negsuc, has_bits, neg_errno, word32, int32, bit_and, bit_or, Result, ok, err,
  ◌>>=◌, ok_or, insert, lookup,
}
use wasmtime_mysql.Errno.{
  eacces, eaddrinuse, eaddrnotavail, eafnosupport, eagain, ealready, ebadf, econnaborted,
  econnrefused, econnreset, edestaddrreq, efault, ehostunreach, einprogress, eintr, einval, eio,
  eisconn, emfile, emsgsize, enetdown, enetreset, enetunreach, enobufs, enoprotoopt, enotconn,
  enotsock, enotsup, eprotonosupport, eprototype, etimedout,
}
use wasmtime_mysql.Guest.{Bytes, checked_len, try_i32}
use wasmtime_mysql.Sockets.{HostSocketsInner, and_i32, and_not_i32, is_guest_socket_level}
use Host.{WinSock, WsaErrno}

abbrev pub wasi_alt_af_inet : ℤ
wasi_alt_af_inet = pos 1

abbrev pub wasi_alt_sock_dgram : ℤ
wasi_alt_sock_dgram = pos 5

abbrev pub wasi_alt_sock_stream : ℤ
wasi_alt_sock_stream = pos 6

abbrev pub wasi_alt_sock_cloexec : ℕ
wasi_alt_sock_cloexec = 0x2000

abbrev pub wasi_alt_sock_nonblock : ℕ
wasi_alt_sock_nonblock = 0x4000

abbrev pub guest_af_inet : ℤ
guest_af_inet = pos 2

abbrev pub guest_af_inet6 : ℤ
guest_af_inet6 = pos 10

abbrev pub guest_f_getfl : ℤ
guest_f_getfl = pos 3

abbrev pub guest_f_setfl : ℤ
guest_f_setfl = pos 4

abbrev pub guest_o_nonblock : ℤ
guest_o_nonblock = pos 4

abbrev pub guest_pollin : ℕ
guest_pollin = 0x0001

abbrev pub guest_pollpri : ℕ
guest_pollpri = 0x0002

abbrev pub guest_pollout : ℕ
guest_pollout = 0x0004

abbrev pub guest_pollerr : ℕ
guest_pollerr = 0x0008

abbrev pub guest_pollhup : ℕ
guest_pollhup = 0x0010

abbrev pub guest_pollnval : ℕ
guest_pollnval = 0x0020

abbrev pub guest_so_reuseaddr : ℤ
guest_so_reuseaddr = pos 2

abbrev pub guest_so_error : ℤ
guest_so_error = pos 4

abbrev pub guest_so_keepalive : ℤ
guest_so_keepalive = pos 9

abbrev pub guest_so_rcvtimeo : ℤ
guest_so_rcvtimeo = pos 20

abbrev pub guest_so_sndtimeo : ℤ
guest_so_sndtimeo = pos 21

abbrev pub guest_ip_tos : ℤ
guest_ip_tos = pos 1

abbrev pub guest_ipv6_v6only : ℤ
guest_ipv6_v6only = pos 26

pub record WinSocket : Type 0 where
  pub raw_socket : ℕ
  pub guest_domain : ℤ
  pub host_domain : ℤ
  pub status_flags : ℤ

abbrev pub WinSockets : Type 0
WinSockets = HostSocketsInner WinSocket

-- `HostSockets::set_status_flags`
unfoldable pub set_status_flags : ℤ → ℤ → WinSockets → Result WinSockets
set_status_flags guest_fd status_flags t = elim (lookup guest_fd t.sockets) [
  | none ↦ err ebadf
  | some socket ↦ ok (record t {
    sockets = insert guest_fd (record socket { status_flags = status_flags }) t.sockets;
  })
]

-- `NormalizedSocketType`
pub record SocketType : Type 0 where
  pub ty : ℤ
  pub nonblocking : Bool

-- MSG_PEEK is the only flag that is passed on.
unfoldable pub normalize_message_flags : ℤ → ℤ
normalize_message_flags flags = and_i32 flags (pos 0x0002)

unfoldable pub is_guest_timeout : ℤ → ℤ → Bool
unfolding is_guest_socket_level
is_guest_timeout level optname =
    is_guest_socket_level level
    && ((optname ==ℤ guest_so_rcvtimeo) || (optname ==ℤ guest_so_sndtimeo))

unfoldable pub checked_sockaddr_len : ℕ → Result ℕ
unfolding checked_len
checked_sockaddr_len value = do value ← try_i32 value einval; checked_len value

-- `events & mask != 0` of 16 bits, and `normalized |= bit` where a test holds.
abbrev pub has_event : ℕ → ℕ → Bool
has_event events mask = not (bit_and events mask == 0)

abbrev pub set_if : Bool → ℕ → ℕ → ℕ
set_if test bit normalized = if test then bit_or normalized bit else normalized

unfoldable pub socket_errno : WsaErrno → ℤ → ℤ
socket_errno wsa code =
    if code ==ℤ pos 0
    then pos 0
    else if code ==ℤ wsa.wsaeintr
    then eintr
    else if code ==ℤ wsa.wsaebadf
    then ebadf
    else if code ==ℤ wsa.wsaeacces
    then eacces
    else if code ==ℤ wsa.wsaefault
    then efault
    else if code ==ℤ wsa.wsaeinval
    then einval
    else if code ==ℤ wsa.wsaemfile
    then emfile
    else if code ==ℤ wsa.wsaewouldblock
    then eagain
    else if code ==ℤ wsa.wsaeinprogress
    then einprogress
    else if code ==ℤ wsa.wsaealready
    then ealready
    else if code ==ℤ wsa.wsaenotsock
    then enotsock
    else if code ==ℤ wsa.wsaedestaddrreq
    then edestaddrreq
    else if code ==ℤ wsa.wsaemsgsize
    then emsgsize
    else if code ==ℤ wsa.wsaeprototype
    then eprototype
    else if code ==ℤ wsa.wsaenoprotoopt
    then enoprotoopt
    else if code ==ℤ wsa.wsaeprotonosupport
    then eprotonosupport
    else if code ==ℤ wsa.wsaesocktnosupport
    then enotsup
    else if code ==ℤ wsa.wsaeopnotsupp
    then enotsup
    else if code ==ℤ wsa.wsaepfnosupport
    then eafnosupport
    else if code ==ℤ wsa.wsaeafnosupport
    then eafnosupport
    else if code ==ℤ wsa.wsaeaddrinuse
    then eaddrinuse
    else if code ==ℤ wsa.wsaeaddrnotavail
    then eaddrnotavail
    else if code ==ℤ wsa.wsaenetdown
    then enetdown
    else if code ==ℤ wsa.wsaenetunreach
    then enetunreach
    else if code ==ℤ wsa.wsaenetreset
    then enetreset
    else if code ==ℤ wsa.wsaeconnaborted
    then econnaborted
    else if code ==ℤ wsa.wsaeconnreset
    then econnreset
    else if code ==ℤ wsa.wsaenobufs
    then enobufs
    else if code ==ℤ wsa.wsaeisconn
    then eisconn
    else if code ==ℤ wsa.wsaenotconn
    then enotconn
    else if code ==ℤ wsa.wsaeshutdown
    then enotconn
    else if code ==ℤ wsa.wsaetimedout
    then etimedout
    else if code ==ℤ wsa.wsaeconnrefused
    then econnrefused
    else if code ==ℤ wsa.wsaehostdown
    then ehostunreach
    else if code ==ℤ wsa.wsaehostunreach
    then ehostunreach
    else eio

module _ (ws : WinSock) where
  unfoldable pub normalize_socket_type : ℤ → Result SocketType
  normalize_socket_type ty =
      let flag_mask =
        bit_or (bit_or (bit_or 0x0000_0800 0x0008_0000) wasi_alt_sock_cloexec)
          wasi_alt_sock_nonblock in
      let base = and_not_i32 ty (pos flag_mask) in
      let flags = and_i32 ty (pos flag_mask) in
      let nonblocking = has_bits flags (bit_or 0x0000_0800 wasi_alt_sock_nonblock) in
      if (base ==ℤ ws.sock_stream) || (base ==ℤ wasi_alt_sock_stream)
      then ok (record { ty = ws.sock_stream; nonblocking = nonblocking })
      else if (base ==ℤ ws.sock_dgram) || (base ==ℤ wasi_alt_sock_dgram)
      then ok (record { ty = ws.sock_dgram; nonblocking = nonblocking })
      else err enotsup

  unfoldable pub normalize_socket_domain : ℤ → ℤ
  normalize_socket_domain domain =
      if (domain ==ℤ wasi_alt_af_inet) || (domain ==ℤ guest_af_inet)
      then ws.af_inet
      else if (domain ==ℤ guest_af_inet6) || (domain ==ℤ pos 23)
      then ws.af_inet6
      else domain

  abbrev pub socket_optname : ℤ → ℤ
  socket_optname optname =
      if optname ==ℤ guest_so_reuseaddr
      then ws.so_reuseaddr
      else if optname ==ℤ guest_so_error
      then ws.so_error
      else if optname ==ℤ guest_so_keepalive
      then ws.so_keepalive
      else if optname ==ℤ guest_so_rcvtimeo
      then ws.so_rcvtimeo
      else if optname ==ℤ guest_so_sndtimeo
      then ws.so_sndtimeo
      else optname

  unfoldable pub normalize_socket_option : ℤ → ℤ → ℤ × ℤ
  unfolding is_guest_socket_level
  normalize_socket_option level optname =
      if is_guest_socket_level level
      then (ws.sol_socket, socket_optname optname)
      else if level ==ℤ pos 0
      then (pos 0, if optname ==ℤ guest_ip_tos then ws.ip_tos else optname)
      else if level ==ℤ pos 41
      then (pos 41, if optname ==ℤ guest_ipv6_v6only then ws.ipv6_v6only else optname)
      else (level, optname)

  unfoldable pub guest_poll_events_to_windows : ℕ → ℕ
  guest_poll_events_to_windows events = set_if (has_event events guest_pollout) ws.pollout (
      set_if (has_event events guest_pollpri) ws.pollpri
        (set_if (has_event events guest_pollin) ws.pollin 0))

  unfoldable pub windows_poll_events_to_guest : ℕ → ℕ
  windows_poll_events_to_guest events = set_if (has_event events ws.pollnval) guest_pollnval (
      set_if (has_event events ws.pollhup) guest_pollhup (
        set_if (has_event events ws.pollerr) guest_pollerr (
          set_if (has_event events ws.pollout) guest_pollout (
            set_if (has_event events ws.pollpri) guest_pollpri
              (set_if (has_event events ws.pollin) guest_pollin 0)))))

module _ (wsa : WsaErrno) (ws : WinSock) where
  open ws use {World}

  abbrev pub neg_last_socket_errno : World → ℤ
  neg_last_socket_errno w = neg_errno (socket_errno wsa (ws.last_error w))

  abbrev pub cvt_socket_i32 : ℤ × World → ℤ
  cvt_socket_i32 (rc, w) = if rc ==ℤ ws.socket_error then neg_last_socket_errno w else rc

  -- `WINSOCK`, what the first call of `WSAStartup` gave.
  abbrev pub Started : Type 0
  Started = Option (Result (Unit {0}))

  -- `get_or_init`
  abbrev pub startup_result : ℤ → Result (Unit {0})
  startup_result rc = if rc ==ℤ pos 0 then ok tt else err (socket_errno wsa rc)

  unfoldable pub ensure_winsock : Started × World → Result (Unit {0}) × (Started × World)
  ensure_winsock (some r, w) = (r, (some r, w))
  ensure_winsock (none, w) =
      let (rc, w1) = ws.startup w in (startup_result rc, (some (startup_result rc), w1))
