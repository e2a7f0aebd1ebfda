-- ===== src/Sockets/Threads/Sequential.antt =====
-- Each import of src/host_sockets.rs, whose parts come one behind the other, does what it does as one
-- step.
use wasmtime_mysql.Prelude.{
  ◌*◌, ◌/◌, ◌≡◌, refl, ◌∙◌, Bool, arith, ℤ, pos, negsuc, is_negative, Result, ok, err, Outcome,
  done, length,
}
use wasmtime_mysql.Errno.{HostErrno}
use wasmtime_mysql.Guest.{Bytes, Export, read_guest, checked_len, read_u32}
use wasmtime_mysql.Sockets.{HostSocket, HostSockets, get, checked_poll_count}
use wasmtime_mysql.Sockets.Host.{Net, Filled}
use wasmtime_mysql.Sockets.Calls.{
  or_return, written_back, chunks, local, peer, received, received_from, call_bind, call_listen,
  call_connect, call_getsockname, call_getpeername, call_setsockopt, call_send, call_recv,
  call_sendto, call_recvfrom, call_shutdown, call_poll,
}
use wasmtime_mysql.Sockets.History.{
  Call, socket, bind, listen, accept, connect, getsockname, getpeername, setsockopt, getsockopt,
  send, recv, sendto, recvfrom, shutdown, close, fcntl, poll, perform,
}
use wasmtime_mysql.Sockets.Threads.{returns, run_alone}
use wasmtime_mysql.Sockets.Threads.Programs.{received_program, received_from_program, poll_program}
use wasmtime_mysql.Sockets.Threads.Imports.{program}
use wasmtime_mysql.Sockets.Threads.Alone.{
  socket_alone, accept_alone, sock_name_alone, getsockopt_alone, close_alone, fcntl_alone,
  poll_gets_alone, write_revents_alone, behind_writes, or_return_alone, or_return_alone',
  if_negative_alone,
}

module _ (libc : HostErrno) (net : Net) where
  open net use {World}

  module _ (mem : Export) (t : HostSockets) (w : World) where
    received_alone :
        (buf_ptr : ℤ) (r : ℤ × Bytes)
        → run_alone libc net (received_program libc net buf_ptr r w) (mem, (t, w))
          ≡ received libc net buf_ptr r (mem, (t, w))
    unfolding run_alone
    received_alone buf_ptr (negsuc n, buf) = refl
    received_alone buf_ptr (pos n, buf) = ground arith

    received_from_alone :
        (s : HostSocket) (buf_ptr addr_ptr addr_len_ptr : ℤ) (r : ℤ × Bytes × Filled)
        → run_alone libc net
            (received_from_program libc net s buf_ptr addr_ptr addr_len_ptr r w)
            (mem, (t, w))
          ≡ received_from libc net s buf_ptr addr_ptr addr_len_ptr r (mem, (t, w))
    unfolding run_alone
    received_from_alone s buf_ptr addr_ptr addr_len_ptr (negsuc n, buf, filled) = refl
    received_from_alone s buf_ptr addr_ptr addr_len_ptr (pos n, buf, filled) = ground arith

  done-or_return {ℓ κ} :
      {A : Type ℓ} {R : Type κ} (r : Result A) (leaves : ℤ → R) {follows : A → Outcome R}
      {out : A → R}
      → ((a : A) → follows a ≡ done (out a))
      → or_return r (λ e. done (leaves e)) follows ≡ done (or_return r leaves out)
  done-or_return (ok a) leaves each = each a
  done-or_return (err e) leaves each = refl

  written_back_alone :
      (rc : ℤ) (s : HostSockets × World) (r : Result (Unit {0}) × Export)
      → behind_writes libc net (returns rc) s r ≡ done (written_back libc net rc s r)
  unfolding run_alone
  written_back_alone rc s (ok u, mem) = refl
  written_back_alone rc s (err e, mem) = refl

  poll_alone :
      (ptr nfds timeout : ℤ) (mem : Export) (t : HostSockets) (w : World)
      → run_alone libc net (poll_program libc net ptr nfds timeout) (mem, (t, w))
        ≡ done (call_poll libc net ptr nfds timeout (mem, (t, w)))
  unfolding run_alone call_poll
  poll_alone ptr nfds timeout mem t w =
      or_return_alone' libc net (mem, (t, w)) (checked_poll_count nfds) _ _
        λ count.
          or_return_alone' libc net (mem, (t, w)) (read_guest mem ptr (pos (count * 8))) _ _
            λ bytes.
              poll_gets_alone libc net (chunks (length bytes / 8) bytes) _ mem t w
              ∙ done-or_return _ _ λ host_fds.
                let ((rc, polled), w') = net.poll host_fds timeout w in
                if_negative_alone libc net (mem, (t, w')) (is_negative rc) _ _ _
                  (write_revents_alone libc net ptr 0 polled (returns rc) mem (t, w')
                    ∙ written_back_alone rc (t, w') _)

  module _ (network_allowed : Bool) where
    -- A call whose parts come one behind the other, with no other thread between them, answers and leaves
    -- the memory, the table and the host as the call does in one step, panics included.
    pub run_alone-program :
        (k : Call) (mem : Export) (t : HostSockets) (w : World)
        → run_alone libc net (program libc net network_allowed k) (mem, (t, w))
          ≡ perform libc net network_allowed k (mem, (t, w))
    unfolding run_alone program perform
    run_alone-program (socket domain ty protocol) mem t w =
        socket_alone libc net domain ty protocol mem t w network_allowed
    run_alone-program (bind fd ptr len) mem t w = unfold call_bind in ground arith
    run_alone-program (listen fd backlog) mem t w = unfold call_listen in ground arith
    run_alone-program (accept fd ptr len_ptr) mem t w = accept_alone libc net fd ptr len_ptr mem t w
    run_alone-program (connect fd ptr len) mem t w = unfold call_connect in ground arith
    run_alone-program (getsockname fd ptr len_ptr) mem t w =
        unfold call_getsockname in sock_name_alone libc net fd ptr len_ptr mem t w local
    run_alone-program (getpeername fd ptr len_ptr) mem t w =
        unfold call_getpeername in sock_name_alone libc net fd ptr len_ptr mem t w peer
    run_alone-program (setsockopt fd level opt ptr len) mem t w =
        unfold call_setsockopt in ground arith
    run_alone-program (getsockopt fd level opt ptr len_ptr) mem t w =
        getsockopt_alone libc net fd level opt mem t w ptr len_ptr
    run_alone-program (send fd ptr len flags) mem t w = unfold call_send in ground arith
    run_alone-program (recv fd ptr len flags) mem t w =
        unfold call_recv in
        or_return_alone libc net (mem, (t, w)) (get t fd) _ _
          λ s.
            or_return_alone libc net (mem, (t, w)) (checked_len len) _ _
              λ n. let (r, w') = net.recv s.raw_fd n flags w in received_alone mem t w' ptr r
    run_alone-program (sendto fd ptr len flags addr addr_len) mem t w =
        unfold call_sendto in ground arith
    run_alone-program (recvfrom fd ptr len flags addr len_ptr) mem t w =
        unfold call_recvfrom in
        or_return_alone libc net (mem, (t, w)) (get t fd) _ _
          λ s.
            or_return_alone libc net (mem, (t, w)) (checked_len len) _ _
              λ n.
                or_return_alone libc net (mem, (t, w)) (read_u32 mem len_ptr) _ _
                  λ addr_len.
                    let (r, w') = net.recvfrom s.raw_fd n flags addr_len w in
                    received_from_alone mem t w' s ptr addr len_ptr r
    run_alone-program (shutdown fd how) mem t w = unfold call_shutdown in ground arith
    run_alone-program (close fd) mem t w = close_alone libc net fd mem t w
    run_alone-program (fcntl fd cmd arg) mem t w = fcntl_alone libc net fd cmd arg mem t w
    run_alone-program (poll ptr nfds timeout) mem t w = poll_alone ptr nfds timeout mem t w
