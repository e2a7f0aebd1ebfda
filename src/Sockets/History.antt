-- ===== src/Sockets/History.antt =====
-- Sequences of socket calls, from the empty table that `HostSockets::new` makes.
use wasmtime_mysql.Prelude.{
  ℕ, ◌≡◌, ◌⊎◌, sym, subst, inl, inr, Bool, List, [], ◌∷◌, arith, Option, none, some,
}
use wasmtime_mysql.Prelude.{
  ℤ, neg_errno, lookup, Outcome, done, leave, panic, Result-cases, Option-cases,
}
use wasmtime_mysql.Errno.{HostErrno, ebadf}
use wasmtime_mysql.Guest.{Bytes, Export, read_u32}
use wasmtime_mysql.Sockets.{
  HostSocket, HostSockets, new, insert_socket, remove_socket, normalize_socket_type,
  normalize_socket_domain,
}
use wasmtime_mysql.Sockets.Host.{Net}
use wasmtime_mysql.Sockets.Calls.{
  Caller, NameKind, local, peer, call_socket, call_bind, call_listen, call_accept, call_connect,
  sock_name, call_getsockname, call_getpeername, call_setsockopt, call_getsockopt, call_send,
  call_recv, call_sendto, call_recvfrom, call_shutdown, call_close, call_fcntl, call_poll, hand_out,
}
use wasmtime_mysql.Sockets.Table.{IsValid, new-IsValid, Step, stays, inserts, removes, Step-IsValid}

-- The imports, by the source's names, with their arguments.
pub data Call : Type 0 where
  socket : ℤ → ℤ → ℤ → Call
  bind : ℤ → ℤ → ℤ → Call
  listen : ℤ → ℤ → Call
  accept : ℤ → ℤ → ℤ → Call
  connect : ℤ → ℤ → ℤ → Call
  getsockname : ℤ → ℤ → ℤ → Call
  getpeername : ℤ → ℤ → ℤ → Call
  setsockopt : ℤ → ℤ → ℤ → ℤ → ℤ → Call
  getsockopt : ℤ → ℤ → ℤ → ℤ → ℤ → Call
  send : ℤ → ℤ → ℤ → ℤ → Call
  recv : ℤ → ℤ → ℤ → ℤ → Call
  sendto : ℤ → ℤ → ℤ → ℤ → ℤ → ℤ → Call
  recvfrom : ℤ → ℤ → ℤ → ℤ → ℤ → ℤ → Call
  shutdown : ℤ → ℤ → Call
  close : ℤ → Call
  fcntl : ℤ → ℤ → ℤ → Call
  poll : ℤ → ℤ → ℤ → Call

module _ (libc : HostErrno) (net : Net) (network_allowed : Bool) where
  open net use {World}

  unfoldable pub perform : Call → Caller libc net → Outcome (ℤ × Caller libc net)
  perform (socket domain ty protocol) c =
      done (call_socket libc net network_allowed domain ty protocol c)
  perform (bind fd ptr len) c = done (call_bind libc net fd ptr len c)
  perform (listen fd backlog) c = done (call_listen libc net fd backlog c)
  perform (accept fd ptr len_ptr) c = call_accept libc net fd ptr len_ptr c
  perform (connect fd ptr len) c = done (call_connect libc net fd ptr len c)
  perform (getsockname fd ptr len_ptr) c = call_getsockname libc net fd ptr len_ptr c
  perform (getpeername fd ptr len_ptr) c = call_getpeername libc net fd ptr len_ptr c
  perform (setsockopt fd level name ptr len) c =
      done (call_setsockopt libc net fd level name ptr len c)
  perform (getsockopt fd level name ptr len_ptr) c =
      call_getsockopt libc net fd level name ptr len_ptr c
  perform (send fd ptr len flags) c = done (call_send libc net fd ptr len flags c)
  perform (recv fd ptr len flags) c = call_recv libc net fd ptr len flags c
  perform (sendto fd ptr len flags addr addr_len) c =
      done (call_sendto libc net fd ptr len flags addr addr_len c)
  perform (recvfrom fd ptr len flags addr len_ptr) c =
      call_recvfrom libc net fd ptr len flags addr len_ptr c
  perform (shutdown fd how) c = done (call_shutdown libc net fd how c)
  perform (close fd) c = done (call_close libc net fd c)
  perform (fcntl fd cmd arg) c = done (call_fcntl libc net fd cmd arg c)
  perform (poll ptr nfds timeout) c = done (call_poll libc net ptr nfds timeout c)

  -- A panic ends the sequence.
  unfoldable pub run : List Call → Caller libc net → Outcome (Caller libc net)
  unfolding perform
  run [] c = done c
  run (k ∷ ks) c = elim (perform k c) [
    | done (answer, c') ↦ run ks c'
    | leave n ↦ leave n
    | panic ↦ panic
  ]

  -- The table behind a call; a panic leaves it alone.
  abbrev pub table_after : HostSockets → Outcome (ℤ × Caller libc net) → HostSockets
  table_after t (done (answer, (mem, (t', w)))) = t'
  table_after t (leave n) = t
  table_after t panic = t

  hand_out-table :
      (answer ptr len_ptr : ℤ) (buffer : Bytes) (n : ℕ) (mem : Export) (t : HostSockets) (w : World)
      → table_after t (hand_out libc net answer ptr len_ptr buffer n (mem, (t, w))) ≡ t
  hand_out-table answer ptr len_ptr buffer n mem t w = ground arith

  pub recv-table :
      (fd ptr len flags : ℤ) (mem : Export) (t : HostSockets) (w : World)
      → table_after t (call_recv libc net fd ptr len flags (mem, (t, w))) ≡ t
  unfolding call_recv
  recv-table fd ptr len flags mem t w = ground arith

  pub sock_name-table :
      (fd ptr len_ptr : ℤ) (kind : NameKind) (mem : Export) (t : HostSockets) (w : World)
      → table_after t (sock_name libc net fd ptr len_ptr kind (mem, (t, w))) ≡ t
  unfolding sock_name
  sock_name-table fd ptr len_ptr kind mem t w = ground arith

  pub recvfrom-table :
      (fd ptr len flags addr len_ptr : ℤ) (mem : Export) (t : HostSockets) (w : World)
      → table_after t (call_recvfrom libc net fd ptr len flags addr len_ptr (mem, (t, w))) ≡ t
  unfolding call_recvfrom
  recvfrom-table fd ptr len flags addr len_ptr mem t w = ground arith

  pub getsockopt-table :
      (fd level name ptr len_ptr : ℤ) (mem : Export) (t : HostSockets) (w : World)
      → table_after t (call_getsockopt libc net fd level name ptr len_ptr (mem, (t, w))) ≡ t
  unfolding call_getsockopt
  getsockopt-table fd level name ptr len_ptr mem t w = ground arith

  pub bind-table :
      (fd ptr len : ℤ) (mem : Export) (t : HostSockets) (w : World)
      → (call_bind libc net fd ptr len (mem, (t, w))).1.1.0 ≡ t
  unfolding call_bind
  bind-table fd ptr len mem t w = ground arith

  pub sendto-table :
      (fd ptr len flags addr addr_len : ℤ) (mem : Export) (t : HostSockets) (w : World)
      → (call_sendto libc net fd ptr len flags addr addr_len (mem, (t, w))).1.1.0 ≡ t
  unfolding call_sendto
  sendto-table fd ptr len flags addr addr_len mem t w = ground arith

  pub poll-table :
      (ptr nfds timeout : ℤ) (mem : Export) (t : HostSockets) (w : World)
      → (call_poll libc net ptr nfds timeout (mem, (t, w))).1.1.0 ≡ t
  unfolding call_poll
  poll-table ptr nfds timeout mem t w = ground arith

  -- The table behind `accept` and `socket`: as it was, or with one socket more.
  unfoldable Grown : HostSockets → HostSockets → Type 0
  Grown t t' = (t' ≡ t) ⊎ ((s : HostSocket) × (t' ≡ (insert_socket s t).1))

  grown :
      (t t' : HostSockets) (s : HostSocket) → (t' ≡ t) ⊎ (t' ≡ (insert_socket s t).1) → Grown t t'
  unfolding Grown
  grown t t' s (inl e) = inl e
  grown t t' s (inr e) = inr (s, e)

  accept-table :
      (fd ptr len_ptr : ℤ) (mem : Export) (t : HostSockets) (w : World)
      → Grown t (table_after t (call_accept libc net fd ptr len_ptr (mem, (t, w))))
  unfolding call_accept Grown
  accept-table fd ptr len_ptr mem t w = elim (Option-cases (lookup fd t.sockets)) [
    | inl e ↦ inl (ground arith)
    | inr (s, e) ↦ elim (Result-cases (read_u32 mem len_ptr)) [
      | inr (n, r) ↦ inl (ground arith)
      | inl (n, r) ↦ grown t _ (record s { raw_fd = (net.accept s.raw_fd n w).0.0 }) (ground arith)
    ]
  ]

  socket-table :
      (domain ty protocol : ℤ) (mem : Export) (t : HostSockets) (w : World)
      → Grown t (call_socket libc net network_allowed domain ty protocol (mem, (t, w))).1.1.0
  unfolding call_socket Grown
  socket-table domain ty protocol mem t w =
      elim (Result-cases (normalize_socket_type libc net ty)) [
        | inr (n, r) ↦ inl (ground arith)
        | inl (k, r) ↦
            let host_domain = normalize_socket_domain libc net domain in
            grown t _
              (record {
                raw_fd = (net.socket host_domain k.ty protocol w).0;
                guest_domain = domain;
                host_domain = host_domain;
              })
              (ground arith)
      ]

  close-table :
      (fd : ℤ) (mem : Export) (t : HostSockets) (w : World)
      → Step t (call_close libc net fd (mem, (t, w))).1.1.0
  unfolding call_close remove_socket
  close-table fd mem t w = elim (Option-cases (lookup fd t.sockets)) [
    | inl e ↦ rw (e, remove_socket) stays
    | inr (s, e) ↦ rw (e, remove_socket) (removes fd s e)
  ]

  same : (t t' : HostSockets) → t' ≡ t → Step t t'
  same t t' e = subst (Step t) (sym e) stays

  more : (t t' : HostSockets) → Grown t t' → Step t t'
  unfolding Grown
  more t t' (inl e) = same t t' e
  more t t' (inr (s, e)) = subst (Step t) (sym e) (inserts s)

  -- Whatever the host answers, a call takes at most one step of the table.
  pub perform-Step :
      (k : Call) (mem : Export) (t : HostSockets) (w : World)
      → Step t (table_after t (perform k (mem, (t, w))))
  unfolding perform
  perform-Step (socket domain ty protocol) mem t w =
      more t _ (socket-table domain ty protocol mem t w)
  perform-Step (bind fd ptr len) mem t w = same t _ (bind-table fd ptr len mem t w)
  perform-Step (listen fd backlog) mem t w = same t _ (unfold call_listen in ground arith)
  perform-Step (accept fd ptr len_ptr) mem t w = more t _ (accept-table fd ptr len_ptr mem t w)
  perform-Step (connect fd ptr len) mem t w = same t _ (unfold call_connect in ground arith)
  perform-Step (getsockname fd ptr len_ptr) mem t w =
      same t _ (unfold call_getsockname in sock_name-table fd ptr len_ptr local mem t w)
  perform-Step (getpeername fd ptr len_ptr) mem t w =
      same t _ (unfold call_getpeername in sock_name-table fd ptr len_ptr peer mem t w)
  perform-Step (setsockopt fd level opt ptr len) mem t w =
      same t _ (unfold call_setsockopt in ground arith)
  perform-Step (getsockopt fd level opt ptr len_ptr) mem t w =
      same t _ (getsockopt-table fd level opt ptr len_ptr mem t w)
  perform-Step (send fd ptr len flags) mem t w = same t _ (unfold call_send in ground arith)
  perform-Step (recv fd ptr len flags) mem t w = same t _ (recv-table fd ptr len flags mem t w)
  perform-Step (sendto fd ptr len flags addr addr_len) mem t w =
      same t _ (sendto-table fd ptr len flags addr addr_len mem t w)
  perform-Step (recvfrom fd ptr len flags addr len_ptr) mem t w =
      same t _ (recvfrom-table fd ptr len flags addr len_ptr mem t w)
  perform-Step (shutdown fd how) mem t w = same t _ (unfold call_shutdown in ground arith)
  perform-Step (close fd) mem t w = close-table fd mem t w
  perform-Step (fcntl fd cmd arg) mem t w = same t _ (unfold call_fcntl in ground arith)
  perform-Step (poll ptr nfds timeout) mem t w = same t _ (poll-table ptr nfds timeout mem t w)

  abbrev KeepsValid : Outcome (Caller libc net) → Type 0
  KeepsValid (done (mem, (t, w))) = IsValid t
  KeepsValid (leave n) = Unit {0}
  KeepsValid panic = Unit {0}

  run-KeepsValid :
      (ks : List Call) (mem : Export) (t : HostSockets) (w : World)
      → IsValid t
      → KeepsValid (run ks (mem, (t, w)))
  unfolding run
  run-KeepsValid [] mem t w v = v
  run-KeepsValid (k ∷ ks) mem t w v =
      next (run-KeepsValid ks) (perform k (mem, (t, w)))
        (Step-IsValid t _ (perform-Step k mem t w) v)
    where
      next :
          ((mem : Export) (t : HostSockets) (w : World)
            → IsValid t
            → KeepsValid (run ks (mem, (t, w))))
          → (out : Outcome (ℤ × Caller libc net)) → IsValid (table_after t out)
          → KeepsValid
              (elim out [ done (answer, c') ↦ run ks c' | leave n ↦ leave n | panic ↦ panic ])
      next rest (done (answer, (mem', (t', w')))) v' = rest mem' t' w' v'
      next rest (leave n) v' = tt
      next rest panic v' = tt

  -- A sequence of calls from the empty table that does not panic leaves only descriptors that were
  -- given out: at least 10000, and below `next_fd` until that reaches `i32::MAX`.
  pub run_sockets-IsValid :
      (ks : List Call) (mem mem' : Export) (t' : HostSockets) (w w' : World)
      → run ks (mem, (new, w)) ≡ done (mem', (t', w'))
      → IsValid t'
  run_sockets-IsValid ks mem mem' t' w w' e =
      subst KeepsValid e (run-KeepsValid ks mem new w new-IsValid)

  -- The descriptor that a call names.
  abbrev pub fd_of : Call → Option ℤ
  fd_of (socket domain ty protocol) = none
  fd_of (bind fd ptr len) = some fd
  fd_of (listen fd backlog) = some fd
  fd_of (accept fd ptr len_ptr) = some fd
  fd_of (connect fd ptr len) = some fd
  fd_of (getsockname fd ptr len_ptr) = some fd
  fd_of (getpeername fd ptr len_ptr) = some fd
  fd_of (setsockopt fd level opt ptr len) = some fd
  fd_of (getsockopt fd level opt ptr len_ptr) = some fd
  fd_of (send fd ptr len flags) = some fd
  fd_of (recv fd ptr len flags) = some fd
  fd_of (sendto fd ptr len flags addr addr_len) = some fd
  fd_of (recvfrom fd ptr len flags addr len_ptr) = some fd
  fd_of (shutdown fd how) = some fd
  fd_of (close fd) = some fd
  fd_of (fcntl fd cmd arg) = some fd
  fd_of (poll ptr nfds timeout) = none

  -- A call on a descriptor that is not open is answered EBADF, and nothing else happens: no memory is
  -- read or written, the table stays, and the host is not asked.
  pub perform_unknown_socket :
      (k : Call) (fd : ℤ) (mem : Export) (t : HostSockets) (w : World)
      → fd_of k ≡ some fd
      → lookup fd t.sockets ≡ none
      → perform k (mem, (t, w)) ≡ done (neg_errno ebadf, (mem, (t, w)))
  unfolding perform call_bind call_listen call_accept call_connect sock_name call_getsockname
      call_getpeername call_setsockopt call_getsockopt call_send call_recv call_sendto call_recvfrom
      call_shutdown call_close call_fcntl remove_socket
  perform_unknown_socket (socket domain ty protocol) fd mem t w n e = cc
  perform_unknown_socket (bind j ptr len) fd mem t w n e = ground arith
  perform_unknown_socket (listen j backlog) fd mem t w n e = ground arith
  perform_unknown_socket (accept j ptr len_ptr) fd mem t w n e = ground arith
  perform_unknown_socket (connect j ptr len) fd mem t w n e = ground arith
  perform_unknown_socket (getsockname j ptr len_ptr) fd mem t w n e = ground arith
  perform_unknown_socket (getpeername j ptr len_ptr) fd mem t w n e = ground arith
  perform_unknown_socket (setsockopt j level opt ptr len) fd mem t w n e = ground arith
  perform_unknown_socket (getsockopt j level opt ptr len_ptr) fd mem t w n e = ground arith
  perform_unknown_socket (send j ptr len flags) fd mem t w n e = ground arith
  perform_unknown_socket (recv j ptr len flags) fd mem t w n e = ground arith
  perform_unknown_socket (sendto j ptr len flags addr addr_len) fd mem t w n e = ground arith
  perform_unknown_socket (recvfrom j ptr len flags addr len_ptr) fd mem t w n e = ground arith
  perform_unknown_socket (shutdown j how) fd mem t w n e = ground arith
  perform_unknown_socket (close j) fd mem t w n e = ground arith
  perform_unknown_socket (fcntl j cmd arg) fd mem t w n e = ground arith
  perform_unknown_socket (poll ptr nfds timeout) fd mem t w n e = cc
