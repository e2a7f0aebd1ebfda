-- ===== src/Sockets/Threads/Alone.antt =====
-- A call whose parts come one behind the other, with no other thread between them, does what the call
-- does as one step.
use wasmtime_mysql.Prelude.{
  ℕ, suc, ◌≡◌, ◌∙◌, refl, inl, inr, Bool, true, false, List, [], ◌∷◌, arith, if◌then◌else◌, ℤ,
  neg_errno, is_negative, Result, ok, err, ◌>>=◌, Outcome, done, Result-cases,
}
use wasmtime_mysql.Errno.{HostErrno}
use wasmtime_mysql.Guest.{Bytes, Export, write_guest, to_le_bytes}
use wasmtime_mysql.Sockets.{
  HostSocket, HostSockets, remove_socket, NormalizedSocketType, set_flag,
  configure_socket_type_flags, normalize_socket_type, normalize_socket_domain, socket_fcntl,
}
use wasmtime_mysql.Sockets.Host.{Net, PollFd}
use wasmtime_mysql.Sockets.Calls.{
  Caller, or_return, refuse, stop, revents_ptr, NameKind, call_socket, call_accept, sock_name,
  call_getsockopt, call_close, call_fcntl, poll_entries, poll_entry, write_revents, configured,
}
use wasmtime_mysql.Sockets.History.{socket}
use wasmtime_mysql.Sockets.Threads.{Program, returns, enters, run_alone}
use wasmtime_mysql.Sockets.Threads.Programs.{
  fails, with_socket, accept_program, sock_name_program, getsockopt_program, fcntl_program,
  close_program, closes_failing, written, poll_gets, poll_get, write_revents_program,
  configure_program, set_flag_program,
}
use wasmtime_mysql.Sockets.Threads.Imports.{program}

or_return-bind {ℓ κ μ} :
    {A : Type ℓ} {B : Type κ} {R : Type μ} (r : Result A) (leaves : ℤ → R) (follows : B → R)
    (f : A → B)
    → or_return r leaves (λ a. follows (f a)) ≡ or_return (r >>= λ a. ok (f a)) leaves follows
or_return-bind (ok a) leaves follows f = refl
or_return-bind (err e) leaves follows f = refl

module _ (libc : HostErrno) (net : Net) where
  open net use {World}

  module _ (mem : Export) (t : HostSockets) where
    -- Behind a step of the configuration: what follows an error, and what follows success.
    abbrev behind :
        (ℤ → Program World)
        → Program World
        → Result (Unit {0}) × World
        → Outcome (ℤ × Caller libc net)
    behind bad good (err e, w) = run_alone libc net (bad e) (mem, (t, w))
    behind bad good (ok u, w) = run_alone libc net good (mem, (t, w))

    set_flag_alone :
        (raw_fd getter setter flag : ℤ) (bad : ℤ → Program World) (good : Program World) (w : World)
        → run_alone libc net
            (set_flag_program libc net raw_fd getter setter flag bad good)
            (mem, (t, w))
          ≡ behind bad good (set_flag libc net raw_fd getter setter flag w)
    unfolding run_alone
    set_flag_alone raw_fd getter setter flag bad good w = ground arith

    configure_alone :
        (raw_fd : ℤ) (socket_type : NormalizedSocketType) (bad : ℤ → Program World)
        (good : Program World) (w : World)
        → run_alone libc net (configure_program libc net raw_fd socket_type bad good) (mem, (t, w))
          ≡ behind bad good (configure_socket_type_flags libc net raw_fd socket_type w)
    unfolding configure_socket_type_flags run_alone
    configure_alone raw_fd socket_type bad good w = ground arith

    configured_alone :
        (s : HostSocket) (r : Result (Unit {0}) × World)
        → behind (closes_failing libc net s.raw_fd) (enters s returns) r
          ≡ done (configured libc net mem t s r)
    unfolding run_alone
    configured_alone s (ok u, w) = refl
    configured_alone s (err e, w) = refl

  module _ (c : Caller libc net) where
    -- A refusal behind `or_return`, where a call may panic further on, and where it may not.
    pub or_return_alone {ℓ} :
        {A : Type ℓ} (r : Result A) (follows : A → Program World)
        (out : A → Outcome (ℤ × Caller libc net))
        → ((a : A) → run_alone libc net (follows a) c ≡ out a)
        → run_alone libc net (or_return r fails follows) c ≡ or_return r (stop libc net c) out
    unfolding run_alone
    or_return_alone (ok a) follows out each = each a
    or_return_alone (err e) follows out each = refl

    pub or_return_alone' {ℓ} :
        {A : Type ℓ} (r : Result A) (follows : A → Program World) (out : A → ℤ × Caller libc net)
        → ((a : A) → run_alone libc net (follows a) c ≡ done (out a))
        → run_alone libc net (or_return r fails follows) c
          ≡ done (or_return r (refuse libc net c) out)
    unfolding run_alone
    or_return_alone' (ok a) follows out each = each a
    or_return_alone' (err e) follows out each = refl

    pub if_negative_alone :
        (b : Bool) (n : ℤ) (follows : Program World) (out : ℤ × Caller libc net)
        → run_alone libc net follows c ≡ done out
        → run_alone libc net (if b then returns n else follows) c ≡ done (if b then (n, c) else out)
    unfolding run_alone
    if_negative_alone true n follows out each = refl
    if_negative_alone false n follows out each = each

  module _ (a b c : ℤ) (mem : Export) (t : HostSockets) (w : World) where
    pub socket_alone :
        (network_allowed : Bool)
        → run_alone libc net (program libc net network_allowed (socket a b c)) (mem, (t, w))
          ≡ done (call_socket libc net network_allowed a b c (mem, (t, w)))
    unfolding run_alone program call_socket
    socket_alone false = refl
    socket_alone true =
        or_return_alone' (mem, (t, w)) (normalize_socket_type libc net b) _ _
          λ k.
            let host_domain = normalize_socket_domain libc net a in
            let made = net.socket host_domain k.ty c w in
            if_negative_alone (mem, (t, made.1)) (is_negative made.0) _ _ _
              (let s : HostSocket = record {
                raw_fd = made.0;
                guest_domain = a;
                host_domain = host_domain;
              } in
                configure_alone mem t made.0 k (closes_failing libc net made.0) (enters s returns)
                  made.1
                ∙ configured_alone mem t s _)

  module _ (a b c : ℤ) (mem : Export) (t : HostSockets) (w : World) where
    pub accept_alone :
        run_alone libc net (accept_program libc net a b c) (mem, (t, w))
        ≡ call_accept libc net a b c (mem, (t, w))
    unfolding run_alone call_accept
    accept_alone = ground arith

    pub sock_name_alone :
        (kind : NameKind)
        → run_alone libc net (sock_name_program libc net a b c kind) (mem, (t, w))
          ≡ sock_name libc net a b c kind (mem, (t, w))
    unfolding run_alone sock_name
    sock_name_alone kind = ground arith

    pub getsockopt_alone :
        (d e : ℤ)
        → run_alone libc net (getsockopt_program libc net a b c d e) (mem, (t, w))
          ≡ call_getsockopt libc net a b c d e (mem, (t, w))
    unfolding run_alone call_getsockopt
    getsockopt_alone d e = ground arith

    pub fcntl_alone :
        run_alone libc net
          (with_socket libc net a λ s. fcntl_program libc net s.raw_fd b c)
          (mem, (t, w))
        ≡ done (call_fcntl libc net a b c (mem, (t, w)))
    unfolding run_alone call_fcntl socket_fcntl
    fcntl_alone = ground arith

  pub close_alone :
      (a : ℤ) (mem : Export) (t : HostSockets) (w : World)
      → run_alone libc net (close_program libc net a) (mem, (t, w))
        ≡ done (call_close libc net a (mem, (t, w)))
  unfolding run_alone call_close remove_socket
  close_alone a mem t w = ground arith

  poll_get_alone :
      (chunk : Bytes) (follows : PollFd → Program World) (mem : Export) (t : HostSockets)
      (w : World)
      → run_alone libc net (poll_get libc net chunk follows) (mem, (t, w))
        ≡ or_return
            (poll_entry t chunk)
            (λ e. done (neg_errno e, (mem, (t, w))))
            (λ entry. run_alone libc net (follows entry) (mem, (t, w)))
  unfolding run_alone
  poll_get_alone chunk follows mem t w = ground arith

  pub poll_gets_alone :
      (cs : List Bytes) (follows : List PollFd → Program World) (mem : Export) (t : HostSockets)
      (w : World)
      → run_alone libc net (poll_gets libc net cs follows) (mem, (t, w))
        ≡ or_return
            (poll_entries t cs)
            (λ e. done (neg_errno e, (mem, (t, w))))
            (λ host_fds. run_alone libc net (follows host_fds) (mem, (t, w)))
  unfolding run_alone poll_entries
  poll_gets_alone [] follows mem t w = refl
  poll_gets_alone (c ∷ cs) follows mem t w =
      poll_get_alone c (λ entry. poll_gets libc net cs λ rest. follows (entry ∷ rest)) mem t w
      ∙ (elim (Result-cases (poll_entry t c)) [
        | inr (n, r) ↦ rw (r) refl
        | inl (entry, r) ↦ rw (r) (
            poll_gets_alone cs (λ rest. follows (entry ∷ rest)) mem t w
            ∙ or_return-bind (poll_entries t cs) _ _ (λ rest. entry ∷ rest))
      ])

  abbrev pub behind_writes :
      Program World
      → HostSockets × World
      → Result (Unit {0}) × Export
      → Outcome (ℤ × Caller libc net)
  behind_writes good s (ok u, mem) = run_alone libc net good (mem, s)
  behind_writes good s (err e, mem) = done (neg_errno e, (mem, s))

  pub write_revents_alone :
      (fds_ptr : ℤ) (index : ℕ) (ps : List PollFd) (good : Program World) (mem : Export)
      (s : HostSockets × World)
      → run_alone libc net (write_revents_program libc net fds_ptr index ps good) (mem, s)
        ≡ behind_writes good s (write_revents fds_ptr index ps mem)
  unfolding run_alone write_revents
  write_revents_alone fds_ptr index [] good mem s = refl
  write_revents_alone fds_ptr index (p ∷ ps) good mem s =
      step (λ mem'. write_revents_alone fds_ptr (suc index) ps good mem' s)
        (write_guest mem (revents_ptr fds_ptr index) (to_le_bytes 2 p.revents))
    where
      step :
          ((mem' : Export)
            → run_alone libc net
                (write_revents_program libc net fds_ptr (suc index) ps good)
                (mem', s)
              ≡ behind_writes good s (write_revents fds_ptr (suc index) ps mem'))
          → (r : Result Export)
          → run_alone libc net
              (or_return r fails λ _. write_revents_program libc net fds_ptr (suc index) ps good)
              (written r mem, s)
            ≡ behind_writes good s (elim r [
              | err e ↦ (err e, mem)
              | ok mem' ↦ write_revents fds_ptr (suc index) ps mem'
            ])
      step rest (ok mem') = rest mem'
      step rest (err e) = refl
