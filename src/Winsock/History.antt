-- ===== src/Winsock/History.antt =====
-- The Windows build's socket calls as one function, and the steps that they take.
use wasmtime_mysql.Prelude.{
  ◌≡◌, ◌⊎◌, refl, sym, subst, inl, inr, Bool, arith, some, ℤ, pos, lookup, ok, ◌>>=◌, Outcome, done,
  leave, panic, Result-cases, Option-cases,
}
use wasmtime_mysql.Guest.{Export, read_u32}
use wasmtime_mysql.Sockets.{insert_socket, remove_socket, and_i32}
use wasmtime_mysql.Sockets.Calls.{NameKind, local, peer}
use wasmtime_mysql.Sockets.History.{
  Call, socket, bind, listen, accept, connect, getsockname, getpeername, setsockopt, getsockopt,
  send, recv, sendto, recvfrom, shutdown, close, fcntl, poll,
}
use wasmtime_mysql.Winsock.{
  WinSocket, WinSockets, set_status_flags, checked_sockaddr_len, normalize_socket_type,
  normalize_socket_domain, Started, ensure_winsock, guest_o_nonblock,
}
use wasmtime_mysql.Winsock.Host.{WinSock, WsaErrno}
use wasmtime_mysql.Winsock.Calls.{
  Caller, call_socket, call_bind, call_listen, call_accept, call_connect, socket_name,
  call_setsockopt, call_getsockopt, call_send, call_recv, call_sendto, call_recvfrom, call_shutdown,
  call_close, call_fcntl, call_poll,
}
use wasmtime_mysql.Winsock.Table.{Step, stays, inserts, removes, changes}

module _ (wsa : WsaErrno) (ws : WinSock) (network_allowed : Bool) where
  open ws use {World}

  abbrev pub Machine : Type 0
  Machine = Started wsa ws × Caller wsa ws

  abbrev pub after_start : Started wsa ws → Outcome (ℤ × Caller wsa ws) → Outcome (ℤ × Machine)
  after_start started (done (answer, c)) = done (answer, (started, c))
  after_start started (leave n) = leave n
  after_start started panic = panic

  unfoldable pub perform : Call → Machine → Outcome (ℤ × Machine)
  perform (socket domain ty protocol) m =
      done (call_socket wsa ws network_allowed domain ty protocol m)
  perform (bind fd ptr len) (s, c) = after_start s (done (call_bind wsa ws fd ptr len c))
  perform (listen fd backlog) (s, c) = after_start s (done (call_listen wsa ws fd backlog c))
  perform (accept fd ptr len_ptr) (s, c) = after_start s (call_accept wsa ws fd ptr len_ptr c)
  perform (connect fd ptr len) (s, c) = after_start s (done (call_connect wsa ws fd ptr len c))
  perform (getsockname fd ptr len_ptr) (s, c) =
      after_start s (socket_name wsa ws fd ptr len_ptr local c)
  perform (getpeername fd ptr len_ptr) (s, c) =
      after_start s (socket_name wsa ws fd ptr len_ptr peer c)
  perform (setsockopt fd level opt ptr len) (s, c) =
      after_start s (done (call_setsockopt wsa ws fd level opt ptr len c))
  perform (getsockopt fd level opt ptr len_ptr) (s, c) =
      after_start s (call_getsockopt wsa ws fd level opt ptr len_ptr c)
  perform (send fd ptr len flags) (s, c) =
      after_start s (done (call_send wsa ws fd ptr len flags c))
  perform (recv fd ptr len flags) (s, c) = after_start s (call_recv wsa ws fd ptr len flags c)
  perform (sendto fd ptr len flags addr addr_len) (s, c) =
      after_start s (done (call_sendto wsa ws fd ptr len flags addr addr_len c))
  perform (recvfrom fd ptr len flags addr len_ptr) (s, c) =
      after_start s (call_recvfrom wsa ws fd ptr len flags addr len_ptr c)
  perform (shutdown fd how) (s, c) = after_start s (done (call_shutdown wsa ws fd how c))
  perform (close fd) (s, c) = after_start s (done (call_close wsa ws fd c))
  perform (fcntl fd cmd arg) (s, c) = after_start s (done (call_fcntl wsa ws fd cmd arg c))
  perform (poll ptr nfds timeout) (s, c) = after_start s (call_poll wsa ws ptr nfds timeout c)

  -- The table behind a call; a panic leaves it alone.
  abbrev pub left : WinSockets → Outcome (ℤ × Caller wsa ws) → WinSockets
  left t (done (answer, (mem, (t', w)))) = t'
  left t (leave n) = t
  left t panic = t

  abbrev pub table_after : WinSockets → Outcome (ℤ × Machine) → WinSockets
  table_after t (done (answer, (s, (mem, (t', w))))) = t'
  table_after t (leave n) = t
  table_after t panic = t

  pub table_after-start :
      (t : WinSockets) (s : Started wsa ws) (out : Outcome (ℤ × Caller wsa ws))
      → table_after t (after_start s out) ≡ left t out
  table_after-start t s (done (answer, (mem, (t', w)))) = refl
  table_after-start t s (leave n) = refl
  table_after-start t s panic = refl

  pub recv-table :
      (fd ptr len flags : ℤ) (mem : Export) (t : WinSockets) (w : World)
      → left t (call_recv wsa ws fd ptr len flags (mem, (t, w))) ≡ t
  unfolding call_recv
  recv-table fd ptr len flags mem t w = ground arith

  pub socket_name-table :
      (fd ptr len_ptr : ℤ) (kind : NameKind) (mem : Export) (t : WinSockets) (w : World)
      → left t (socket_name wsa ws fd ptr len_ptr kind (mem, (t, w))) ≡ t
  unfolding socket_name
  socket_name-table fd ptr len_ptr kind mem t w = ground arith

  pub recvfrom-table :
      (fd ptr len flags addr len_ptr : ℤ) (mem : Export) (t : WinSockets) (w : World)
      → left t (call_recvfrom wsa ws fd ptr len flags addr len_ptr (mem, (t, w))) ≡ t
  unfolding call_recvfrom
  recvfrom-table fd ptr len flags addr len_ptr mem t w = ground arith

  pub getsockopt-table :
      (fd level opt ptr len_ptr : ℤ) (mem : Export) (t : WinSockets) (w : World)
      → left t (call_getsockopt wsa ws fd level opt ptr len_ptr (mem, (t, w))) ≡ t
  unfolding call_getsockopt
  getsockopt-table fd level opt ptr len_ptr mem t w = ground arith

  pub poll-table :
      (ptr nfds timeout : ℤ) (mem : Export) (t : WinSockets) (w : World)
      → left t (call_poll wsa ws ptr nfds timeout (mem, (t, w))) ≡ t
  unfolding call_poll
  poll-table ptr nfds timeout mem t w = ground arith

  same : (t t' : WinSockets) → t' ≡ t → Step t t'
  same t t' e = subst (Step t) (sym e) stays

  grown : (t t' : WinSockets) (s : WinSocket) → (t' ≡ t) ⊎ (t' ≡ (insert_socket s t).1) → Step t t'
  grown t t' s (inl e) = same t t' e
  grown t t' s (inr e) = subst (Step t) (sym e) (inserts s)

  accept-Step :
      (fd ptr len_ptr : ℤ) (mem : Export) (t : WinSockets) (w : World)
      → Step t (left t (call_accept wsa ws fd ptr len_ptr (mem, (t, w))))
  unfolding call_accept
  accept-Step fd ptr len_ptr mem t w = elim (Option-cases (lookup fd t.sockets)) [
    | inl e ↦ same t _ (ground arith)
    | inr (s, e) ↦ elim (Result-cases (read_u32 mem len_ptr >>= checked_sockaddr_len)) [
      | inr (n, r) ↦ same t _ (ground arith)
      | inl (n, r) ↦
          grown t _ (record s { raw_socket = (ws.accept s.raw_socket n w).0.0 }) (ground arith)
    ]
  ]

  close-Step :
      (fd : ℤ) (mem : Export) (t : WinSockets) (w : World)
      → Step t (call_close wsa ws fd (mem, (t, w))).1.1.0
  unfolding call_close remove_socket
  close-Step fd mem t w = elim (Option-cases (lookup fd t.sockets)) [
    | inl e ↦ rw (e, remove_socket) stays
    | inr (s, e) ↦ rw (e, remove_socket) (removes fd s e)
  ]

  changed :
      (t t' : WinSockets) (fd flags : ℤ) (s : WinSocket)
      → lookup fd t.sockets ≡ some s
      → (t' ≡ t) ⊎ (set_status_flags fd flags t ≡ ok t')
      → Step t t'
  unfolding set_status_flags
  changed t t' fd flags s found (inl e) = same t t' e
  changed t t' fd flags s found (inr e) = subst (Step t) (ground arith) (changes fd flags s found)

  fcntl-Step :
      (fd cmd arg : ℤ) (mem : Export) (t : WinSockets) (w : World)
      → Step t (call_fcntl wsa ws fd cmd arg (mem, (t, w))).1.1.0
  unfolding call_fcntl
  fcntl-Step fd cmd arg mem t w = elim (Option-cases (lookup fd t.sockets)) [
    | inl e ↦ same t _ (ground arith)
    | inr (s, e) ↦ changed t _ fd (and_i32 arg guest_o_nonblock) s e (ground arith)
  ]

  either :
      (t t' : WinSockets) (s s' : WinSocket)
      → (t' ≡ t) ⊎ (t' ≡ (insert_socket s t).1) ⊎ (t' ≡ (insert_socket s' t).1)
      → Step t t'
  either t t' s s' (inl e) = same t t' e
  either t t' s s' (inr e) = elim e [ inl a ↦ grown t t' s (inr a) | inr b ↦ grown t t' s' (inr b) ]

  socket-Step :
      (domain ty protocol : ℤ) (started : Started wsa ws) (mem : Export) (t : WinSockets)
      (w : World)
      → Step t
          (call_socket wsa ws network_allowed domain ty protocol (started, (mem, (t, w)))).1.1.1.0
  unfolding call_socket
  socket-Step domain ty protocol started mem t w =
      elim (Result-cases (normalize_socket_type ws ty)) [
        | inr (n, r) ↦ same t _ (ground arith)
        | inl (k, r) ↦
            let host_domain = normalize_socket_domain ws domain in
            let s : WinSocket = record {
              raw_socket =
                  (ws.socket host_domain k.ty protocol (ensure_winsock wsa ws (started, w)).1.1).0;
              guest_domain = domain;
              host_domain = host_domain;
              status_flags = pos 0;
            } in
            either t _ s (record s { status_flags = guest_o_nonblock }) (ground arith)
      ]

  lifted :
      (t : WinSockets) (s : Started wsa ws) (out : Outcome (ℤ × Caller wsa ws))
      → Step t (left t out)
      → Step t (table_after t (after_start s out))
  lifted t s out h = subst (Step t) (sym (table_after-start t s out)) h

  -- Whatever WinSock answers, a call takes at most one step of the table.
  pub perform_winsock-Step :
      (k : Call) (started : Started wsa ws) (mem : Export) (t : WinSockets) (w : World)
      → Step t (table_after t (perform k (started, (mem, (t, w)))))
  unfolding perform
  perform_winsock-Step (socket domain ty protocol) s mem t w =
      socket-Step domain ty protocol s mem t w
  perform_winsock-Step (bind fd ptr len) s mem t w =
      lifted t s (done (call_bind wsa ws fd ptr len (mem, (t, w))))
        (same t _ (unfold call_bind in ground arith))
  perform_winsock-Step (listen fd backlog) s mem t w =
      lifted t s (done (call_listen wsa ws fd backlog (mem, (t, w))))
        (same t _ (unfold call_listen in ground arith))
  perform_winsock-Step (accept fd ptr len_ptr) s mem t w =
      lifted t s (call_accept wsa ws fd ptr len_ptr (mem, (t, w)))
        (accept-Step fd ptr len_ptr mem t w)
  perform_winsock-Step (connect fd ptr len) s mem t w =
      lifted t s (done (call_connect wsa ws fd ptr len (mem, (t, w))))
        (same t _ (unfold call_connect in ground arith))
  perform_winsock-Step (getsockname fd ptr len_ptr) s mem t w =
      lifted t s (socket_name wsa ws fd ptr len_ptr local (mem, (t, w)))
        (same t _ (socket_name-table fd ptr len_ptr local mem t w))
  perform_winsock-Step (getpeername fd ptr len_ptr) s mem t w =
      lifted t s (socket_name wsa ws fd ptr len_ptr peer (mem, (t, w)))
        (same t _ (socket_name-table fd ptr len_ptr peer mem t w))
  perform_winsock-Step (setsockopt fd level opt ptr len) s mem t w =
      lifted t s (done (call_setsockopt wsa ws fd level opt ptr len (mem, (t, w))))
        (same t _ (unfold call_setsockopt in ground arith))
  perform_winsock-Step (getsockopt fd level opt ptr len_ptr) s mem t w =
      lifted t s (call_getsockopt wsa ws fd level opt ptr len_ptr (mem, (t, w)))
        (same t _ (getsockopt-table fd level opt ptr len_ptr mem t w))
  perform_winsock-Step (send fd ptr len flags) s mem t w =
      lifted t s (done (call_send wsa ws fd ptr len flags (mem, (t, w))))
        (same t _ (unfold call_send in ground arith))
  perform_winsock-Step (recv fd ptr len flags) s mem t w =
      lifted t s (call_recv wsa ws fd ptr len flags (mem, (t, w)))
        (same t _ (recv-table fd ptr len flags mem t w))
  perform_winsock-Step (sendto fd ptr len flags addr addr_len) s mem t w =
      lifted t s (done (call_sendto wsa ws fd ptr len flags addr addr_len (mem, (t, w))))
        (same t _ (unfold call_sendto in ground arith))
  perform_winsock-Step (recvfrom fd ptr len flags addr len_ptr) s mem t w =
      lifted t s (call_recvfrom wsa ws fd ptr len flags addr len_ptr (mem, (t, w)))
        (same t _ (recvfrom-table fd ptr len flags addr len_ptr mem t w))
  perform_winsock-Step (shutdown fd how) s mem t w =
      lifted t s (done (call_shutdown wsa ws fd how (mem, (t, w))))
        (same t _ (unfold call_shutdown in ground arith))
  perform_winsock-Step (close fd) s mem t w =
      lifted t s (done (call_close wsa ws fd (mem, (t, w)))) (close-Step fd mem t w)
  perform_winsock-Step (fcntl fd cmd arg) s mem t w =
      lifted t s (done (call_fcntl wsa ws fd cmd arg (mem, (t, w)))) (fcntl-Step fd cmd arg mem t w)
  perform_winsock-Step (poll ptr nfds timeout) s mem t w =
      lifted t s (call_poll wsa ws ptr nfds timeout (mem, (t, w)))
        (same t _ (poll-table ptr nfds timeout mem t w))
