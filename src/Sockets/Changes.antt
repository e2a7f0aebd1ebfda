-- ===== src/Sockets/Changes.antt =====
-- What each socket call does to the table.
use wasmtime_mysql.Prelude.{
  ◌≡◌, ◌⊎◌, refl, inl, inr, Bool, arith, none, some, ℤ, lookup, Result-cases, Option-cases,
}
use wasmtime_mysql.Errno.{HostErrno}
use wasmtime_mysql.Guest.{Export, read_u32}
use wasmtime_mysql.Sockets.{
  HostSocket, HostSockets, insert_socket, remove_socket, normalize_socket_type,
  normalize_socket_domain,
}
use wasmtime_mysql.Sockets.Host.{Net}
use wasmtime_mysql.Sockets.Calls.{
  local, peer, call_socket, call_listen, call_accept, call_connect, call_getsockname,
  call_getpeername, call_setsockopt, call_send, call_shutdown, call_close, call_fcntl,
}
use wasmtime_mysql.Sockets.Table.{without}
use wasmtime_mysql.Sockets.History.{
  Call, socket, bind, listen, accept, connect, getsockname, getpeername, setsockopt, getsockopt,
  send, recv, sendto, recvfrom, shutdown, close, fcntl, poll, perform, table_after, recv-table,
  sock_name-table, recvfrom-table, getsockopt-table, bind-table, sendto-table, poll-table,
}

-- The table `t'` behind each call on the table `t`.
unfoldable pub Change : Call → HostSockets → HostSockets → Type 0
Change (socket domain ty protocol) t t' =
    (t' ≡ t) ⊎ ((s : HostSocket) × (s.guest_domain ≡ domain) × (t' ≡ (insert_socket s t).1))
Change (accept fd ptr len_ptr) t t' =
    (t' ≡ t)
    ⊎ ((s : HostSocket) × (raw_fd : ℤ) × (lookup fd t.sockets ≡ some s)
        × (t' ≡ (insert_socket (record s { raw_fd = raw_fd }) t).1))
Change (close fd) t t' =
    ((lookup fd t.sockets ≡ none) × (t' ≡ t))
    ⊎ ((s : HostSocket) × (lookup fd t.sockets ≡ some s) × (t' ≡ without t fd))
Change (bind fd ptr len) t t' = t' ≡ t
Change (listen fd backlog) t t' = t' ≡ t
Change (connect fd ptr len) t t' = t' ≡ t
Change (getsockname fd ptr len_ptr) t t' = t' ≡ t
Change (getpeername fd ptr len_ptr) t t' = t' ≡ t
Change (setsockopt fd level opt ptr len) t t' = t' ≡ t
Change (getsockopt fd level opt ptr len_ptr) t t' = t' ≡ t
Change (send fd ptr len flags) t t' = t' ≡ t
Change (recv fd ptr len flags) t t' = t' ≡ t
Change (sendto fd ptr len flags addr addr_len) t t' = t' ≡ t
Change (recvfrom fd ptr len flags addr len_ptr) t t' = t' ≡ t
Change (shutdown fd how) t t' = t' ≡ t
Change (fcntl fd cmd arg) t t' = t' ≡ t
Change (poll ptr nfds timeout) t t' = t' ≡ t

module _ (libc : HostErrno) (net : Net) (network_allowed : Bool) where
  open net use {World}

  from_accept :
      (t t' : HostSockets) (fd ptr len_ptr raw_fd : ℤ) (s : HostSocket)
      → lookup fd t.sockets ≡ some s
      → (t' ≡ t) ⊎ (t' ≡ (insert_socket (record s { raw_fd = raw_fd }) t).1)
      → Change (accept fd ptr len_ptr) t t'
  unfolding Change
  from_accept t t' fd ptr len_ptr raw_fd s found (inl e) = inl e
  from_accept t t' fd ptr len_ptr raw_fd s found (inr e) = inr (s, raw_fd, found, e)

  from_socket :
      (t t' : HostSockets) (domain ty protocol : ℤ) (s : HostSocket)
      → s.guest_domain ≡ domain
      → (t' ≡ t) ⊎ (t' ≡ (insert_socket s t).1)
      → Change (socket domain ty protocol) t t'
  unfolding Change
  from_socket t t' domain ty protocol s same (inl e) = inl e
  from_socket t t' domain ty protocol s same (inr e) = inr (s, same, e)

  accept-Change :
      (fd ptr len_ptr : ℤ) (mem : Export) (t : HostSockets) (w : World)
      → Change (accept fd ptr len_ptr) t (
          table_after libc net network_allowed t
            (call_accept libc net fd ptr len_ptr (mem, (t, w))))
  unfolding call_accept Change
  accept-Change fd ptr len_ptr mem t w = elim (Option-cases (lookup fd t.sockets)) [
    | inl e ↦ inl (ground arith)
    | inr (s, e) ↦ elim (Result-cases (read_u32 mem len_ptr)) [
      | inr (n, r) ↦ inl (ground arith)
      | inl (n, r) ↦ from_accept t _ fd ptr len_ptr (net.accept s.raw_fd n w).0.0 s e (ground arith)
    ]
  ]

  socket-Change :
      (domain ty protocol : ℤ) (mem : Export) (t : HostSockets) (w : World)
      → Change
          (socket domain ty protocol)
          t
          (call_socket libc net network_allowed domain ty protocol (mem, (t, w))).1.1.0
  unfolding call_socket Change
  socket-Change domain ty protocol mem t w =
      elim (Result-cases (normalize_socket_type libc net ty)) [
        | inr (n, r) ↦ inl (ground arith)
        | inl (k, r) ↦
            let host_domain = normalize_socket_domain libc net domain in
            from_socket t _ domain ty protocol
              (record {
                raw_fd = (net.socket host_domain k.ty protocol w).0;
                guest_domain = domain;
                host_domain = host_domain;
              })
              refl (ground arith)
      ]

  close-Change :
      (fd : ℤ) (mem : Export) (t : HostSockets) (w : World)
      → Change (close fd) t (call_close libc net fd (mem, (t, w))).1.1.0
  unfolding call_close remove_socket Change
  close-Change fd mem t w = elim (Option-cases (lookup fd t.sockets)) [
    | inl e ↦ inl (e, ground arith)
    | inr (s, e) ↦ inr (s, e, ground arith)
  ]

  -- Whatever the host answers: `socket` leaves the table as it was or enters one socket, with the domain
  -- that the guest named, at the next descriptor; `accept` leaves it as it was or enters one socket at
  -- the next descriptor, with the domains of the socket that it accepts on; `close` takes out the socket
  -- of its own descriptor and no other, where that is open; and every other call leaves the table as it
  -- was. A call that panics counts as leaving it.
  pub perform-Change :
      (k : Call) (mem : Export) (t : HostSockets) (w : World)
      → Change k t (
          table_after libc net network_allowed t (perform libc net network_allowed k (mem, (t, w))))
  unfolding perform Change
  perform-Change (socket domain ty protocol) mem t w = socket-Change domain ty protocol mem t w
  perform-Change (accept fd ptr len_ptr) mem t w = accept-Change fd ptr len_ptr mem t w
  perform-Change (close fd) mem t w = close-Change fd mem t w
  perform-Change (bind fd ptr len) mem t w = bind-table libc net network_allowed fd ptr len mem t w
  perform-Change (listen fd backlog) mem t w = unfold call_listen in ground arith
  perform-Change (connect fd ptr len) mem t w = unfold call_connect in ground arith
  perform-Change (getsockname fd ptr len_ptr) mem t w =
      unfold call_getsockname in
      sock_name-table libc net network_allowed fd ptr len_ptr local mem t w
  perform-Change (getpeername fd ptr len_ptr) mem t w =
      unfold call_getpeername in
      sock_name-table libc net network_allowed fd ptr len_ptr peer mem t w
  perform-Change (setsockopt fd level opt ptr len) mem t w = unfold call_setsockopt in ground arith
  perform-Change (getsockopt fd level opt ptr len_ptr) mem t w =
      getsockopt-table libc net network_allowed fd level opt ptr len_ptr mem t w
  perform-Change (send fd ptr len flags) mem t w = unfold call_send in ground arith
  perform-Change (recv fd ptr len flags) mem t w =
      recv-table libc net network_allowed fd ptr len flags mem t w
  perform-Change (sendto fd ptr len flags addr addr_len) mem t w =
      sendto-table libc net network_allowed fd ptr len flags addr addr_len mem t w
  perform-Change (recvfrom fd ptr len flags addr len_ptr) mem t w =
      recvfrom-table libc net network_allowed fd ptr len flags addr len_ptr mem t w
  perform-Change (shutdown fd how) mem t w = unfold call_shutdown in ground arith
  perform-Change (fcntl fd cmd arg) mem t w = unfold call_fcntl in ground arith
  perform-Change (poll ptr nfds timeout) mem t w =
      poll-table libc net network_allowed ptr nfds timeout mem t w
