-- ===== src/Sockets/Offline.antt =====
-- A guest that may not use the network.
use wasmtime_mysql.Prelude.{
  ◌≡◌, refl, sym, ap, subst, false, List, [], ◌∷◌, some, lookup, ℤ, Outcome, done, leave, panic,
}
use wasmtime_mysql.Errno.{HostErrno}
use wasmtime_mysql.Guest.{Export}
use wasmtime_mysql.Sockets.{HostSockets, new}
use wasmtime_mysql.Sockets.Host.{Net}
use wasmtime_mysql.Sockets.Calls.{Caller, call_socket}
use wasmtime_mysql.Sockets.History.{
  Call, perform, run, table_after, socket, poll, bind, listen, accept, connect, getsockname,
  getpeername, setsockopt, getsockopt, send, recv, sendto, recvfrom, shutdown, close, fcntl, fd_of,
  perform_unknown_socket, poll-table,
}

module _ (libc : HostErrno) (net : Net) where
  open net use {World}

  unknown_stays :
      (k : Call) (fd : ℤ) (mem : Export) (w : World)
      → fd_of libc net false k ≡ some fd
      → table_after libc net false new (perform libc net false k (mem, (new, w))) ≡ new
  unknown_stays k fd mem w e =
      ap (table_after libc net false new)
        (perform_unknown_socket libc net false k fd mem new w e (unfold new lookup in refl))

  perform_offline :
      (k : Call) (mem : Export) (w : World)
      → table_after libc net false new (perform libc net false k (mem, (new, w))) ≡ new
  unfolding perform
  perform_offline (socket domain ty protocol) mem w = unfold call_socket in refl
  perform_offline (poll ptr nfds timeout) mem w =
      poll-table libc net false ptr nfds timeout mem new w
  perform_offline (bind fd ptr len) mem w = unknown_stays (bind fd ptr len) fd mem w refl
  perform_offline (listen fd backlog) mem w = unknown_stays (listen fd backlog) fd mem w refl
  perform_offline (accept fd ptr len_ptr) mem w =
      unknown_stays (accept fd ptr len_ptr) fd mem w refl
  perform_offline (connect fd ptr len) mem w = unknown_stays (connect fd ptr len) fd mem w refl
  perform_offline (getsockname fd ptr len_ptr) mem w =
      unknown_stays (getsockname fd ptr len_ptr) fd mem w refl
  perform_offline (getpeername fd ptr len_ptr) mem w =
      unknown_stays (getpeername fd ptr len_ptr) fd mem w refl
  perform_offline (setsockopt fd level opt ptr len) mem w =
      unknown_stays (setsockopt fd level opt ptr len) fd mem w refl
  perform_offline (getsockopt fd level opt ptr len_ptr) mem w =
      unknown_stays (getsockopt fd level opt ptr len_ptr) fd mem w refl
  perform_offline (send fd ptr len flags) mem w =
      unknown_stays (send fd ptr len flags) fd mem w refl
  perform_offline (recv fd ptr len flags) mem w =
      unknown_stays (recv fd ptr len flags) fd mem w refl
  perform_offline (sendto fd ptr len flags addr addr_len) mem w =
      unknown_stays (sendto fd ptr len flags addr addr_len) fd mem w refl
  perform_offline (recvfrom fd ptr len flags addr len_ptr) mem w =
      unknown_stays (recvfrom fd ptr len flags addr len_ptr) fd mem w refl
  perform_offline (shutdown fd how) mem w = unknown_stays (shutdown fd how) fd mem w refl
  perform_offline (close fd) mem w = unknown_stays (close fd) fd mem w refl
  perform_offline (fcntl fd cmd arg) mem w = unknown_stays (fcntl fd cmd arg) fd mem w refl

  abbrev KeepsEmpty : Outcome (Caller libc net) → Type 0
  KeepsEmpty (done (mem, (t, w))) = t ≡ new
  KeepsEmpty (leave n) = Unit {0}
  KeepsEmpty panic = Unit {0}

  run-KeepsEmpty :
      (ks : List Call) (mem : Export) (t : HostSockets) (w : World)
      → t ≡ new
      → KeepsEmpty (run libc net false ks (mem, (t, w)))
  unfolding run
  run-KeepsEmpty [] mem t w e = e
  run-KeepsEmpty (k ∷ ks) mem t w e =
      next (run-KeepsEmpty ks) (perform libc net false k (mem, (t, w))) (
        subst (λ u. table_after libc net false u (perform libc net false k (mem, (u, w))) ≡ new)
          (sym e) (perform_offline k mem w))
    where
      next :
          ((mem : Export) (t : HostSockets) (w : World)
            → t ≡ new
            → KeepsEmpty (run libc net false ks (mem, (t, w))))
          → (out : Outcome (ℤ × Caller libc net)) → table_after libc net false t out ≡ new
          → KeepsEmpty (elim out [
            | done (answer, c') ↦ run libc net false ks c'
            | leave n ↦ leave n
            | panic ↦ panic
          ])
      next rest (done (answer, (mem', (t', w')))) h = rest mem' t' w' h
      next rest (leave n) h = tt
      next rest panic h = tt

  -- A guest without the network never gets a socket: a sequence of calls from the empty table that
  -- does not panic leaves the table empty.
  pub run_offline :
      (ks : List Call) (mem mem' : Export) (t' : HostSockets) (w w' : World)
      → run libc net false ks (mem, (new, w)) ≡ done (mem', (t', w'))
      → t' ≡ new
  run_offline ks mem mem' t' w w' e = subst KeepsEmpty e (run-KeepsEmpty ks mem new w refl)
