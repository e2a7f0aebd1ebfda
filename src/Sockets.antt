-- ===== src/Sockets.antt =====
-- src/host_sockets.rs on Linux: the table of sockets and the conversions between the guest's
-- constants and addresses and the host's. The host's C library is a parameter.
pub mod Host
pub mod Calls
pub mod Table
pub mod Changes
pub mod History
pub mod Accept
pub mod Poll
pub mod Receive
pub mod Threads
pub mod Address
pub mod Offline
use wasmtime_mysql.Prelude.{
  ℕ, ◌+◌, ◌*◌, ◌-◌, ◌^◌, ◌%◌, Bool, true, false, not, ◌&&◌, ◌||◌, List, [], ◌∷◌, ◌++◌, Option, none,
  some,
}
use wasmtime_mysql.Prelude.{
  leb, ltb, if◌then◌else◌, ◌==ℤ◌, ℤ, pos, negsuc, has_bits, saturating_suc, i32_max, neg_errno,
  is_negative, word32, int32, bit_and, bit_or,
}
use wasmtime_mysql.Prelude.{
  Result, ok, err, ◌>>=◌, ok_or, Dict, lookup, insert, remove, length, drop,
}
use wasmtime_mysql.Errno.{HostErrno, from_host_errno, eio, ebadf, einval, eoverflow, eopnotsupp}
use wasmtime_mysql.Guest.{Bytes, to_le_bytes, try_usize}
use Host.{Net}

abbrev pub guest_fd_base : ℕ
guest_fd_base = 10000

abbrev pub max_poll_fds : ℕ
max_poll_fds = 16384

abbrev pub wasi_alt_af_inet : ℤ
wasi_alt_af_inet = pos 1

abbrev pub wasi_alt_sock_dgram : ℤ
wasi_alt_sock_dgram = pos 5

abbrev pub wasi_alt_sock_stream : ℤ
wasi_alt_sock_stream = pos 6

abbrev pub wasi_alt_sock_cloexec : ℤ
wasi_alt_sock_cloexec = pos 0x2000

abbrev pub wasi_alt_sock_nonblock : ℤ
wasi_alt_sock_nonblock = pos 0x4000

abbrev pub wasi_sol_socket : ℤ
wasi_sol_socket = pos 0x7fff_ffff

abbrev pub wasi_f_getfl : ℤ
wasi_f_getfl = pos 3

abbrev pub wasi_f_setfl : ℤ
wasi_f_setfl = pos 4

abbrev pub wasi_o_nonblock : ℤ
wasi_o_nonblock = pos 0x0004

abbrev pub wasi_so_error : ℤ
wasi_so_error = pos 4

pub record HostSocket : Type 0 where
  pub raw_fd : ℤ
  pub guest_domain : ℤ
  pub host_domain : ℤ

-- `HostSocketsInner`, over the type of sockets, which differs between the systems.
pub record HostSocketsInner (Socket : Type 0) : Type 0 where
  pub next_fd : ℕ
  pub sockets : Dict Socket

abbrev pub HostSockets : Type 0
HostSockets = HostSocketsInner HostSocket

unfoldable pub new : {Socket : Type 0} → HostSocketsInner Socket
new = record { next_fd = guest_fd_base; sockets = [] }

-- `HostSockets::insert`: the guest's descriptor and the table.
unfoldable pub insert_socket :
    {Socket : Type 0} → Socket → HostSocketsInner Socket → ℤ × HostSocketsInner Socket
insert_socket socket t = (
  pos t.next_fd,
  record { next_fd = saturating_suc t.next_fd; sockets = insert (pos t.next_fd) socket t.sockets },
)

-- `HostSockets::get` and `remove`
abbrev pub get : {Socket : Type 0} → HostSocketsInner Socket → ℤ → Result Socket
get t guest_fd = ok_or (lookup guest_fd t.sockets) ebadf

unfoldable pub remove_socket :
    {Socket : Type 0} → HostSocketsInner Socket → ℤ → Result (Socket × HostSocketsInner Socket)
remove_socket t guest_fd = do
  socket ← ok_or (lookup guest_fd t.sockets) ebadf
  ok (socket, record t { sockets = remove guest_fd t.sockets })

unfoldable pub checked_poll_count : ℤ → Result ℕ
checked_poll_count nfds = do
  nfds ← try_usize nfds einval
  if leb nfds max_poll_fds then ok nfds else err einval

-- `a & b`, `a | b` and `a & !b` of two `i32`.
abbrev pub and_i32 : ℤ → ℤ → ℤ
and_i32 a b = int32 (bit_and (word32 a) (word32 b))

abbrev pub or_i32 : ℤ → ℤ → ℤ
or_i32 a b = int32 (bit_or (word32 a) (word32 b))

abbrev pub and_not_i32 : ℤ → ℤ → ℤ
and_not_i32 a b = int32 (bit_and (word32 a) (2 ^ 32 - 1 - word32 b))

-- The host's order of bytes is little-endian; `u16::try_from(family)` fails outside 16 bits.
unfoldable pub write_sockaddr_family : Bytes → ℤ → Bytes
write_sockaddr_family addr (negsuc n) = addr
write_sockaddr_family addr (pos n) =
    if ltb (length addr) 2
    then addr
    else if ltb n (2 ^ 16)
    then to_le_bytes 2 n ++ drop 2 addr
    else addr

unfoldable pub is_guest_socket_level : ℤ → Bool
is_guest_socket_level level = (level ==ℤ pos 1) || (level ==ℤ wasi_sol_socket)

pub record NormalizedSocketType : Type 0 where
  pub ty : ℤ
  pub close_on_exec : Bool
  pub nonblocking : Bool

module _ (libc : HostErrno) (net : Net) where
  open net use {World}

  unfoldable pub last_errno : World → ℤ
  last_errno w = elim (net.last_error w) [ some code ↦ from_host_errno libc code | none ↦ eio ]

  abbrev pub neg_last_errno : World → ℤ
  neg_last_errno w = neg_errno (last_errno w)

  -- `cvt_i32` of a call's return value, in the state behind the call.
  abbrev pub cvt_i32 : ℤ × World → ℤ
  cvt_i32 (rc, w) = if is_negative rc then neg_last_errno w else rc

  abbrev pub cvt_ssize : ℤ × World → ℤ
  cvt_ssize (negsuc n, w) = neg_last_errno w
  cvt_ssize (pos n, w) = if leb n i32_max then pos n else neg_errno eoverflow

  unfoldable pub host_socket_flag_mask : ℤ
  host_socket_flag_mask = or_i32 net.sock_cloexec net.sock_nonblock

  abbrev pub flag_mask : ℤ
  flag_mask = or_i32 (or_i32 host_socket_flag_mask wasi_alt_sock_cloexec) wasi_alt_sock_nonblock

  abbrev pub typed : ℤ → ℤ → NormalizedSocketType
  typed ty flags = record {
    ty = ty;
    close_on_exec =
        has_bits flags (word32 net.sock_cloexec) || has_bits flags (word32 wasi_alt_sock_cloexec);
    nonblocking =
        has_bits flags (word32 net.sock_nonblock) || has_bits flags (word32 wasi_alt_sock_nonblock);
  }

  unfoldable pub normalize_socket_type : ℤ → Result NormalizedSocketType
  unfolding host_socket_flag_mask
  normalize_socket_type ty =
      let base = and_not_i32 ty flag_mask in
      let flags = and_i32 ty flag_mask in
      if (base ==ℤ net.sock_stream) || (base ==ℤ wasi_alt_sock_stream)
      then ok (typed net.sock_stream flags)
      else if (base ==ℤ net.sock_dgram) || (base ==ℤ wasi_alt_sock_dgram)
      then ok (typed net.sock_dgram flags)
      else err eopnotsupp

  unfoldable pub normalize_socket_domain : ℤ → ℤ
  normalize_socket_domain domain =
      if domain ==ℤ wasi_alt_af_inet
      then net.af_inet
      else if domain ==ℤ net.af_inet
      then net.af_inet
      else if domain ==ℤ net.af_inet6
      then net.af_inet6
      else domain

  unfoldable pub normalize_socket_level : ℤ → ℤ
  unfolding is_guest_socket_level
  normalize_socket_level level = if is_guest_socket_level level then net.sol_socket else level

  -- One flag set through `fcntl`: read the flags, then write them with the flag.
  abbrev pub set_flag : ℤ → ℤ → ℤ → ℤ → World → Result (Unit {0}) × World
  set_flag raw_fd getter setter flag w =
      let (flags, w1) = net.fcntl raw_fd getter (pos 0) w in
      if is_negative flags
      then (err (last_errno w1), w1)
      else (let (rc, w2) = net.fcntl raw_fd setter (or_i32 flags flag) w1 in
          if is_negative rc then (err (last_errno w2), w2) else (ok tt, w2))

  abbrev and_then :
      Result (Unit {0}) × World → (World → Result (Unit {0}) × World) → Result (Unit {0}) × World
  and_then (err e, w) next = (err e, w)
  and_then (ok u, w) next = next w

  unfoldable pub configure_socket_type_flags :
      ℤ → NormalizedSocketType → World → Result (Unit {0}) × World
  configure_socket_type_flags raw_fd socket_type w =
      and_then
        (if socket_type.close_on_exec
          then set_flag raw_fd net.f_getfd net.f_setfd net.fd_cloexec w
          else (ok tt, w))
        λ w1.
          if socket_type.nonblocking
          then set_flag raw_fd net.f_getfl net.f_setfl net.o_nonblock w1
          else (ok tt, w1)

  unfoldable pub socket_fcntl : ℤ → ℤ → ℤ → World → ℤ × World
  socket_fcntl raw_fd cmd arg w =
      let (flags, w1) = net.fcntl raw_fd net.f_getfl (pos 0) w in
      if cmd ==ℤ wasi_f_getfl
      then (if is_negative flags
          then (neg_last_errno w1, w1)
          else (if has_bits flags (word32 net.o_nonblock) then wasi_o_nonblock else pos 0, w1))
      else if cmd ==ℤ wasi_f_setfl
      then (if is_negative flags
          then (neg_last_errno w1, w1)
          else (let changed =
                if has_bits arg (word32 wasi_o_nonblock)
                then or_i32 flags net.o_nonblock
                else and_not_i32 flags net.o_nonblock in
              let (rc, w2) = net.fcntl raw_fd net.f_setfl changed w1 in (cvt_i32 (rc, w2), w2)))
      else (neg_errno einval, w)

  -- `Drop`: every socket of the table is closed.
  unfoldable pub drop_sockets : Dict HostSocket → World → World
  drop_sockets [] w = w
  drop_sockets ((guest_fd, socket) ∷ d) w = drop_sockets d (net.close socket.raw_fd w).1
