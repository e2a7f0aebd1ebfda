-- ===== src/Winsock/Changes.antt =====
-- What each socket call of the Windows build does to the table.
use wasmtime_mysql.Prelude.{
  ℕ, ◌≡◌, ◌⊎◌, refl, sym, subst, inl, inr, Bool, true, arith, none, some, ℤ, pos, ◌==ℤ◌, lookup, ok,
  ◌>>=◌, Outcome, done, Result-cases, Option-cases,
}
use wasmtime_mysql.Guest.{Export, read_u32}
use wasmtime_mysql.Sockets.{insert_socket, remove_socket, and_i32}
use wasmtime_mysql.Sockets.Calls.{local, peer}
use wasmtime_mysql.Sockets.History.{
  Call, socket, bind, listen, accept, connect, getsockname, getpeername, setsockopt, getsockopt,
  send, recv, sendto, recvfrom, shutdown, close, fcntl, poll,
}
use wasmtime_mysql.Winsock.{
  WinSocket, WinSockets, set_status_flags, checked_sockaddr_len, normalize_socket_type,
  normalize_socket_domain, Started, ensure_winsock, guest_o_nonblock, guest_f_setfl,
}
use wasmtime_mysql.Winsock.Host.{WinSock, WsaErrno}
use wasmtime_mysql.Winsock.Calls.{
  Caller, call_socket, call_bind, call_listen, call_accept, call_connect, socket_name,
  call_setsockopt, call_getsockopt, call_send, call_recv, call_sendto, call_recvfrom, call_shutdown,
  call_close, call_fcntl, call_poll,
}
use wasmtime_mysql.Winsock.Table.{without, with_flags}
use wasmtime_mysql.Winsock.History.{
  after_start, left, table_after, table_after-start, perform, recv-table, socket_name-table,
  recvfrom-table, getsockopt-table, poll-table,
}

-- The table `t'` behind each call on the table `t`.
unfoldable pub Change : Call → WinSockets → WinSockets → Type 0
Change (socket domain ty protocol) t t' =
    (t' ≡ t) ⊎ ((s : WinSocket) × (s.guest_domain ≡ domain) × (t' ≡ (insert_socket s t).1))
Change (accept fd ptr len_ptr) t t' =
    (t' ≡ t)
    ⊎ ((s : WinSocket) × (raw_socket : ℕ) × (lookup fd t.sockets ≡ some s)
        × (t' ≡ (insert_socket (record s { raw_socket = raw_socket }) t).1))
Change (close fd) t t' =
    ((lookup fd t.sockets ≡ none) × (t' ≡ t))
    ⊎ ((s : WinSocket) × (lookup fd t.sockets ≡ some s) × (t' ≡ without t fd))
Change (fcntl fd cmd arg) t t' =
    (t' ≡ t)
    ⊎ ((s : WinSocket) × ((cmd ==ℤ guest_f_setfl) ≡ true)
        × (lookup fd t.sockets ≡ some s)
        × (t' ≡ with_flags t fd s (and_i32 arg guest_o_nonblock)))
Change (bind fd ptr len) t t' = t' ≡ t
Change (listen fd backlog) t t' = t' ≡ t
Change (connect fd ptr len) t t' = t' ≡ t
Change (getsockname fd ptr len_ptr) t t' = t' ≡ t
Change (getpeername fd ptr len_ptr) t t' = t' ≡ t
Change (setsockopt fd level opt ptr len) t t' = t' ≡ t
Change (getsockopt fd level opt ptr len_ptr) t t' = t' ≡ t
Change (send fd ptr len flags) t t' = t' ≡ t
Change (recv fd ptr len flags) t t' = t' ≡ t
Change (sendto fd ptr len flags addr addr_len) t t' = t' ≡ t
Change (recvfrom fd ptr len flags addr len_ptr) t t' = t' ≡ t
Change (shutdown fd how) t t' = t' ≡ t
Change (poll ptr nfds timeout) t t' = t' ≡ t

module _ (wsa : WsaErrno) (ws : WinSock) (network_allowed : Bool) where
  open ws use {World}

  from_accept :
      (t t' : WinSockets) (fd ptr len_ptr : ℤ) (raw_socket : ℕ) (s : WinSocket)
      → lookup fd t.sockets ≡ some s
      → (t' ≡ t) ⊎ (t' ≡ (insert_socket (record s { raw_socket = raw_socket }) t).1)
      → Change (accept fd ptr len_ptr) t t'
  unfolding Change
  from_accept t t' fd ptr len_ptr raw_socket s found (inl e) = inl e
  from_accept t t' fd ptr len_ptr raw_socket s found (inr e) = inr (s, raw_socket, found, e)

  -- The socket is entered without status flags, or with that of a non-blocking one.
  from_socket :
      (t t' : WinSockets) (domain ty protocol : ℤ) (s : WinSocket)
      → s.guest_domain ≡ domain
      → (t' ≡ t)
        ⊎ (t' ≡ (insert_socket s t).1)
        ⊎ (t' ≡ (insert_socket (record s { status_flags = guest_o_nonblock }) t).1)
      → Change (socket domain ty protocol) t t'
  unfolding Change
  from_socket t t' domain ty protocol s same (inl e) = inl e
  from_socket t t' domain ty protocol s same (inr e) = elim e [
    | inl a ↦ inr (s, same, a)
    | inr b ↦ inr (record s { status_flags = guest_o_nonblock }, same, b)
  ]

  from_fcntl :
      (t t' : WinSockets) (fd cmd arg : ℤ) (s : WinSocket)
      → lookup fd t.sockets ≡ some s
      → (t' ≡ t)
        ⊎ (((cmd ==ℤ guest_f_setfl) ≡ true)
            × (set_status_flags fd (and_i32 arg guest_o_nonblock) t ≡ ok t'))
      → Change (fcntl fd cmd arg) t t'
  unfolding Change set_status_flags
  from_fcntl t t' fd cmd arg s found (inl e) = inl e
  from_fcntl t t' fd cmd arg s found (inr (sets, e)) = inr (s, sets, found, ground arith)

  accept-Change :
      (fd ptr len_ptr : ℤ) (mem : Export) (t : WinSockets) (w : World)
      → Change
          (accept fd ptr len_ptr)
          t
          (left wsa ws network_allowed t (call_accept wsa ws fd ptr len_ptr (mem, (t, w))))
  unfolding call_accept Change
  accept-Change fd ptr len_ptr mem t w = elim (Option-cases (lookup fd t.sockets)) [
    | inl e ↦ inl (ground arith)
    | inr (s, e) ↦ elim (Result-cases (read_u32 mem len_ptr >>= checked_sockaddr_len)) [
      | inr (n, r) ↦ inl (ground arith)
      | inl (n, r) ↦
          from_accept t _ fd ptr len_ptr (ws.accept s.raw_socket n w).0.0 s e (ground arith)
    ]
  ]

  socket-Change :
      (domain ty protocol : ℤ) (started : Started wsa ws) (mem : Export) (t : WinSockets)
      (w : World)
      → Change
          (socket domain ty protocol)
          t
          (call_socket wsa ws network_allowed domain ty protocol (started, (mem, (t, w)))).1.1.1.0
  unfolding call_socket Change
  socket-Change domain ty protocol started mem t w =
      elim (Result-cases (normalize_socket_type ws ty)) [
        | inr (n, r) ↦ inl (ground arith)
        | inl (k, r) ↦
            let host_domain = normalize_socket_domain ws domain in
            let s : WinSocket = record {
              raw_socket =
                  (ws.socket host_domain k.ty protocol (ensure_winsock wsa ws (started, w)).1.1).0;
              guest_domain = domain;
              host_domain = host_domain;
              status_flags = pos 0;
            } in
            from_socket t _ domain ty protocol s refl (ground arith)
      ]

  close-Change :
      (fd : ℤ) (mem : Export) (t : WinSockets) (w : World)
      → Change (close fd) t (call_close wsa ws fd (mem, (t, w))).1.1.0
  unfolding call_close remove_socket Change
  close-Change fd mem t w = elim (Option-cases (lookup fd t.sockets)) [
    | inl e ↦ inl (e, ground arith)
    | inr (s, e) ↦ inr (s, e, ground arith)
  ]

  fcntl-Change :
      (fd cmd arg : ℤ) (mem : Export) (t : WinSockets) (w : World)
      → Change (fcntl fd cmd arg) t (call_fcntl wsa ws fd cmd arg (mem, (t, w))).1.1.0
  unfolding call_fcntl Change
  fcntl-Change fd cmd arg mem t w = elim (Option-cases (lookup fd t.sockets)) [
    | inl e ↦ inl (ground arith)
    | inr (s, e) ↦ from_fcntl t _ fd cmd arg s e (ground arith)
  ]

  lifted :
      (k : Call) (t : WinSockets) (s : Started wsa ws) (out : Outcome (ℤ × Caller wsa ws))
      → Change k t (left wsa ws network_allowed t out)
      → Change k t (table_after wsa ws network_allowed t (after_start wsa ws network_allowed s out))
  lifted k t s out h = subst (Change k t) (sym (table_after-start wsa ws network_allowed t s out)) h

  -- Whatever WinSock answers: `socket` leaves the table as it was or enters one socket, with the domain
  -- that the guest named, at the next descriptor; `accept` leaves it as it was or enters one socket at
  -- the next descriptor, with the domains of the socket that it accepts on; `close` takes out the socket
  -- of its own descriptor and no other, where that is open; `fcntl` leaves it as it was or, for F_SETFL,
  -- sets the status flags of the open socket of its own descriptor to the O_NONBLOCK bit of the argument;
  -- and every other call leaves the table as it was. A call that panics counts as leaving it.
  pub perform_winsock-Change :
      (k : Call) (started : Started wsa ws) (mem : Export) (t : WinSockets) (w : World)
      → Change k t (
          table_after wsa ws network_allowed t
            (perform wsa ws network_allowed k (started, (mem, (t, w)))))
  unfolding perform Change
  perform_winsock-Change (socket domain ty protocol) s mem t w =
      socket-Change domain ty protocol s mem t w
  perform_winsock-Change (accept fd ptr len_ptr) s mem t w =
      lifted (accept fd ptr len_ptr) t s (call_accept wsa ws fd ptr len_ptr (mem, (t, w)))
        (accept-Change fd ptr len_ptr mem t w)
  perform_winsock-Change (close fd) s mem t w =
      lifted (close fd) t s (done (call_close wsa ws fd (mem, (t, w)))) (close-Change fd mem t w)
  perform_winsock-Change (fcntl fd cmd arg) s mem t w =
      lifted (fcntl fd cmd arg) t s (done (call_fcntl wsa ws fd cmd arg (mem, (t, w))))
        (fcntl-Change fd cmd arg mem t w)
  perform_winsock-Change (bind fd ptr len) s mem t w =
      lifted (bind fd ptr len) t s (done (call_bind wsa ws fd ptr len (mem, (t, w))))
        (unfold call_bind in ground arith)
  perform_winsock-Change (listen fd backlog) s mem t w =
      lifted (listen fd backlog) t s (done (call_listen wsa ws fd backlog (mem, (t, w))))
        (unfold call_listen in ground arith)
  perform_winsock-Change (connect fd ptr len) s mem t w =
      lifted (connect fd ptr len) t s (done (call_connect wsa ws fd ptr len (mem, (t, w))))
        (unfold call_connect in ground arith)
  perform_winsock-Change (getsockname fd ptr len_ptr) s mem t w =
      lifted (getsockname fd ptr len_ptr) t s
        (socket_name wsa ws fd ptr len_ptr local (mem, (t, w)))
        (socket_name-table wsa ws network_allowed fd ptr len_ptr local mem t w)
  perform_winsock-Change (getpeername fd ptr len_ptr) s mem t w =
      lifted (getpeername fd ptr len_ptr) t s (socket_name wsa ws fd ptr len_ptr peer (mem, (t, w)))
        (socket_name-table wsa ws network_allowed fd ptr len_ptr peer mem t w)
  perform_winsock-Change (setsockopt fd level opt ptr len) s mem t w =
      lifted (setsockopt fd level opt ptr len) t s
        (done (call_setsockopt wsa ws fd level opt ptr len (mem, (t, w))))
        (unfold call_setsockopt in ground arith)
  perform_winsock-Change (getsockopt fd level opt ptr len_ptr) s mem t w =
      lifted (getsockopt fd level opt ptr len_ptr) t s
        (call_getsockopt wsa ws fd level opt ptr len_ptr (mem, (t, w)))
        (getsockopt-table wsa ws network_allowed fd level opt ptr len_ptr mem t w)
  perform_winsock-Change (send fd ptr len flags) s mem t w =
      lifted (send fd ptr len flags) t s (done (call_send wsa ws fd ptr len flags (mem, (t, w))))
        (unfold call_send in ground arith)
  perform_winsock-Change (recv fd ptr len flags) s mem t w =
      lifted (recv fd ptr len flags) t s (call_recv wsa ws fd ptr len flags (mem, (t, w)))
        (recv-table wsa ws network_allowed fd ptr len flags mem t w)
  perform_winsock-Change (sendto fd ptr len flags addr addr_len) s mem t w =
      lifted (sendto fd ptr len flags addr addr_len) t s
        (done (call_sendto wsa ws fd ptr len flags addr addr_len (mem, (t, w))))
        (unfold call_sendto in ground arith)
  perform_winsock-Change (recvfrom fd ptr len flags addr len_ptr) s mem t w =
      lifted (recvfrom fd ptr len flags addr len_ptr) t s
        (call_recvfrom wsa ws fd ptr len flags addr len_ptr (mem, (t, w)))
        (recvfrom-table wsa ws network_allowed fd ptr len flags addr len_ptr mem t w)
  perform_winsock-Change (shutdown fd how) s mem t w =
      lifted (shutdown fd how) t s (done (call_shutdown wsa ws fd how (mem, (t, w))))
        (unfold call_shutdown in ground arith)
  perform_winsock-Change (poll ptr nfds timeout) s mem t w =
      lifted (poll ptr nfds timeout) t s (call_poll wsa ws ptr nfds timeout (mem, (t, w)))
        (poll-table wsa ws network_allowed ptr nfds timeout mem t w)
