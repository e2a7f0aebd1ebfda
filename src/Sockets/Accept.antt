-- ===== src/Sockets/Accept.antt =====
-- The sockets that the host opens for the guest: `socket` and `accept` either enter them into the
-- table or close them again.
use wasmtime_mysql.Prelude.{ℕ, ◌≤◌, ◌<◌, ◌≡◌, refl, true, panic, length, neg_errno}
use wasmtime_mysql.Prelude.{ℤ, pos, Result, ok, err, Outcome, done}
use wasmtime_mysql.Errno.{HostErrno}
use wasmtime_mysql.Guest.{Export}
use wasmtime_mysql.Sockets.{
  HostSocket, HostSockets, insert_socket, NormalizedSocketType, normalize_socket_type,
  normalize_socket_domain, configure_socket_type_flags,
}
use wasmtime_mysql.Sockets.Host.{Net, Filled}
use wasmtime_mysql.Sockets.Calls.{Caller, call_socket, configured}

module _ (libc : HostErrno) (net : Net) where
  open net use {World}

  -- Of a connection that the host accepted: the new table has it, or the table is as it was and the
  -- connection is closed.
  pub data Kept (s : HostSocket) (t : HostSockets) (w : World) (out : Outcome (ℤ × Caller libc net))
      : Type 0 where
    closed :
        (error : ℤ) (mem' : Export)
        → out ≡ done (neg_errno error, (mem', (t, (net.close s.raw_fd w).1)))
        → Kept s t w out
    entered :
        (mem' : Export)
        → out ≡ done ((insert_socket s t).0, (mem', ((insert_socket s t).1, w)))
        → Kept s t w out

  -- Where the host reports a longer address than it has written, the slice of the address panics.
  pub data Accepted (s : HostSocket) (t : HostSockets) (w : World) (filled : Filled)
      (out : Outcome (ℤ × Caller libc net)) : Type 0 where
    kept : filled.reported ≤ length filled.buffer → Kept s t w out → Accepted s t w filled out
    lost : length filled.buffer < filled.reported → out ≡ panic → Accepted s t w filled out

  configured-Kept :
      (mem : Export) (t : HostSockets) (s : HostSocket) (r : Result (Unit {0}) × World)
      → (w2 : World) × Kept s t w2 (done (configured libc net mem t s r))
  configured-Kept mem t s (err e, w2) = (w2, closed e mem refl)
  configured-Kept mem t s (ok u, w2) = (w2, entered mem refl)

  -- A socket that the host makes is not lost either: `socket` enters it into the table, with the
  -- domain that the guest named and the host's, or closes it, where its flags cannot be set, and
  -- answers with an error.
  pub call_socket-Kept :
      (domain ty protocol : ℤ) (mem : Export) (t : HostSockets) (w : World)
      (kind : NormalizedSocketType) (raw_fd : ℕ) (w1 : World)
      → normalize_socket_type libc net ty ≡ ok kind
      → net.socket (normalize_socket_domain libc net domain) kind.ty protocol w ≡ (pos raw_fd, w1)
      → let s : HostSocket = record {
        raw_fd = pos raw_fd;
        guest_domain = domain;
        host_domain = normalize_socket_domain libc net domain;
      } in
        (w2 : World) × Kept s t w2
          (done (call_socket libc net true domain ty protocol (mem, (t, w))))
  unfolding call_socket
  call_socket-Kept domain ty protocol mem t w kind raw_fd w1 known made =
      rw (known, made)
        (configured-Kept mem t _ (configure_socket_type_flags libc net (pos raw_fd) kind w1))
