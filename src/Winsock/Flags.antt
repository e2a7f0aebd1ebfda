-- ===== src/Winsock/Flags.antt =====
-- The status flags that the Windows build keeps itself.
use wasmtime_mysql.Prelude.{
  ◌≡◌, refl, false, arith, some, ℤ, pos, lookup, lookup-insert, ok, ==ℤ_refl, ◌==ℤ◌, if◌then◌else◌,
}
use wasmtime_mysql.Guest.{Export}
use wasmtime_mysql.Sockets.{and_i32}
use wasmtime_mysql.Winsock.{
  WinSocket, WinSockets, set_status_flags, guest_o_nonblock, guest_f_getfl, guest_f_setfl,
}
use wasmtime_mysql.Winsock.Host.{WinSock, WsaErrno}
use wasmtime_mysql.Winsock.Calls.{call_fcntl}
use wasmtime_mysql.Winsock.Table.{with_flags}

set_status_flags_found :
    (fd flags : ℤ) (t : WinSockets) (socket : WinSocket)
    → lookup fd t.sockets ≡ some socket
    → set_status_flags fd flags t ≡ ok (with_flags t fd socket flags)
unfolding set_status_flags
set_status_flags_found fd flags t socket found = ground arith

module _ (wsa : WsaErrno) (ws : WinSock) (fd arg : ℤ) (t : WinSockets) (w : ws.World) where
  -- Where WinSock sets the mode, `fcntl(F_SETFL)` on an open socket is answered 0, and a later
  -- `fcntl(F_GETFL)` on it answers the O_NONBLOCK bit of the flags that were set and no other bit; the
  -- other descriptors are as they were.
  pub call_fcntl-call_fcntl :
      (unused rc : ℤ) (mem mem' : Export) (w1 w' : ws.World) (socket : WinSocket)
      → lookup fd t.sockets ≡ some socket
      → ws.set_nonblocking socket.raw_socket
          (if and_i32 arg guest_o_nonblock ==ℤ pos 0 then 0 else 1)
          w
        ≡ (rc, w1)
      → (rc ==ℤ ws.socket_error) ≡ false
      → let t' = with_flags t fd socket (and_i32 arg guest_o_nonblock) in
        (call_fcntl wsa ws fd guest_f_setfl arg (mem, (t, w)) ≡ (pos 0, (mem, (t', w1))))
        × (call_fcntl wsa ws fd guest_f_getfl unused (mem', (t', w'))
            ≡ (and_i32 arg guest_o_nonblock, (mem', (t', w'))))
        × ((k : ℤ) → (fd ==ℤ k) ≡ false → lookup k t'.sockets ≡ lookup k t.sockets)
  unfolding call_fcntl
  call_fcntl-call_fcntl unused rc mem mem' w1 w' socket found asked fine =
      let flags = and_i32 arg guest_o_nonblock in
      (
        rw (found, asked, fine, set_status_flags_found fd flags t socket found) refl,
        ground (
          arith,
          lookup-insert fd fd (record socket { status_flags = flags }) t.sockets,
          ==ℤ_refl fd,
        ),
        λ k ne.
            ground (arith, lookup-insert fd k (record socket { status_flags = flags }) t.sockets),
      )
