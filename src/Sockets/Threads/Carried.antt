-- ===== src/Sockets/Threads/Carried.antt =====
-- Every import of src/host_sockets.rs carries its descriptors to their end, unless it panics.
use wasmtime_mysql.Prelude.{
  ℕ, suc, refl, Bool, true, false, List, [], ◌∷◌, Option, none, some, leb, if◌then◌else◌, ℤ, pos,
  negsuc, int32, is_negative, Result, ok, err, length, take,
}
use wasmtime_mysql.Errno.{HostErrno}
use wasmtime_mysql.Guest.{Bytes, Export, from_le_bytes, read_guest}
use wasmtime_mysql.Sockets.{HostSocket, NormalizedSocketType}
use wasmtime_mysql.Sockets.Host.{Net, PollFd, Filled}
use wasmtime_mysql.Sockets.Calls.{or_return, NameKind, local, peer, name_of}
use wasmtime_mysql.Sockets.History.{
  Call, socket, bind, listen, accept, connect, getsockname, getpeername, setsockopt, getsockopt,
  send, recv, sendto, recvfrom, shutdown, close, fcntl, poll,
}
use wasmtime_mysql.Sockets.Threads.{Program, returns, panics, enters, opens}
use wasmtime_mysql.Sockets.Threads.Programs.{
  cut_program, fails, reads, writes, asks, answers_i32, answers_ssize, with_socket, socket_program,
  accept_program, sock_name_program, getsockopt_program, received_program, received_from_program,
  fcntl_program, poll_program, buffer_program, close_program, hand_out_program, accepted_program,
  poll_gets, poll_get, poll_raw_fd_program, write_revents_program, configure_program,
  set_flag_program, closes_failing,
}
use wasmtime_mysql.Sockets.Threads.Imports.{program}
use wasmtime_mysql.Sockets.Threads.Linear.{Keeps, Makes, KeepsSockets, IsLinear}

module _ (libc : HostErrno) {net : Net} (law : KeepsSockets net) where
  open net use {World}
  open law use {is_open}

  -- The parts of the programs, one by one.
  module _ (carried : Option ℤ) where
    or_return-IsLinear {ℓ} :
        {A : Type ℓ} (r : Result A) (bad : ℤ → Program World) (follows : A → Program World)
        → ((e : ℤ) → IsLinear law carried (bad e))
        → ((a : A) → IsLinear law carried (follows a))
        → IsLinear law carried (or_return r bad follows)
    or_return-IsLinear (ok a) bad follows b f = f a
    or_return-IsLinear (err e) bad follows b f = b e

    if-IsLinear :
        (b : Bool) (p q : Program World)
        → IsLinear law carried p
        → IsLinear law carried q
        → IsLinear law carried (if b then p else q)
    if-IsLinear true p q x y = x
    if-IsLinear false p q x y = y

    cut-IsLinear :
        (bytes : Bytes) (n : ℕ) (follows : Bytes → Program World)
        → ((b : Bytes) → IsLinear law carried (follows b))
        → IsLinear law carried (cut_program bytes n follows)
    unfolding IsLinear
    cut-IsLinear bytes n follows f =
        if-IsLinear (leb n (length bytes)) _ panics (f (take n bytes)) tt

    asks-IsLinear {ℓ} :
        {A : Type ℓ} (call : World → A × World) (follows : A → World → Program World)
        → ((w : World) → Keeps is_open w (call w).1)
        → ((a : A) (w : World) → IsLinear law carried (follows a w))
        → IsLinear law carried (asks call follows)
    unfolding IsLinear
    asks-IsLinear call follows k f w = (k w, f (call w).0 (call w).1)

    writes-IsLinear :
        (write : Export → Result Export) (bad : ℤ → Program World) (good : Program World)
        → ((e : ℤ) → IsLinear law carried (bad e))
        → IsLinear law carried good
        → IsLinear law carried (writes write bad good)
    unfolding IsLinear
    writes-IsLinear write bad good b g m = or_return-IsLinear (write m) bad (λ _. good) b (λ _. g)

  returns-IsLinear : (n : ℤ) → IsLinear law none (returns n)
  unfolding IsLinear
  returns-IsLinear n = refl

  reads-IsLinear {ℓ} :
      {A : Type ℓ} (read : Export → Result A) (follows : A → Program World)
      → ((a : A) → IsLinear law none (follows a))
      → IsLinear law none (reads read follows)
  unfolding IsLinear
  reads-IsLinear read follows f m = or_return-IsLinear none (read m) fails follows (λ e. refl) f

  with_socket-IsLinear :
      (fd : ℤ) (follows : HostSocket → Program World)
      → ((s : HostSocket) → IsLinear law none (follows s))
      → IsLinear law none (with_socket libc net fd follows)
  unfolding IsLinear
  with_socket-IsLinear fd follows f r = or_return-IsLinear none r fails follows (λ e. refl) f

  buffer-IsLinear :
      (fd ptr len : ℤ) (follows : HostSocket → Bytes → Program World)
      → ((s : HostSocket) (b : Bytes) → IsLinear law none (follows s b))
      → IsLinear law none (buffer_program libc net fd ptr len follows)
  buffer-IsLinear fd ptr len follows f =
      with_socket-IsLinear fd _ λ s. reads-IsLinear (λ m. read_guest m ptr len) _ (f s)

  answers_i32-IsLinear :
      (call : World → ℤ × World)
      → ((w : World) → Keeps is_open w (call w).1)
      → IsLinear law none (answers_i32 libc net call)
  answers_i32-IsLinear call k = search (asks-IsLinear, returns-IsLinear)

  answers_ssize-IsLinear :
      (call : World → ℤ × World)
      → ((w : World) → Keeps is_open w (call w).1)
      → IsLinear law none (answers_ssize libc net call)
  answers_ssize-IsLinear call k = search (asks-IsLinear, returns-IsLinear)

  module _ (raw_fd : ℤ) where
    closes_failing-IsLinear :
        (e : ℤ) → IsLinear law (some raw_fd) (closes_failing libc net raw_fd e)
    unfolding IsLinear
    closes_failing-IsLinear e = (refl, λ w. refl)

    set_flag-IsLinear :
        (getter setter flag : ℤ) (good : Program World)
        → IsLinear law (some raw_fd) good
        → IsLinear law (some raw_fd) (
            set_flag_program libc net raw_fd getter setter flag
              (closes_failing libc net raw_fd)
              good)
    set_flag-IsLinear getter setter flag good g =
        search (asks-IsLinear, if-IsLinear, closes_failing-IsLinear, law.controlled)

    configure-IsLinear :
        (socket_type : NormalizedSocketType) (good : Program World)
        → IsLinear law (some raw_fd) good
        → IsLinear law
            (some raw_fd)
            (configure_program libc net raw_fd socket_type (closes_failing libc net raw_fd) good)
    configure-IsLinear socket_type good g = search (if-IsLinear, set_flag-IsLinear)

  ruleset parts = (
    or_return-IsLinear, if-IsLinear, cut-IsLinear, asks-IsLinear, writes-IsLinear, returns-IsLinear,
    reads-IsLinear, with_socket-IsLinear, buffer-IsLinear, answers_i32-IsLinear,
    answers_ssize-IsLinear, closes_failing-IsLinear, configure-IsLinear,
  )

  hand_out-IsLinear :
      (answer ptr len_ptr : ℤ) (buffer : Bytes) (n : ℕ)
      → IsLinear law none (hand_out_program libc net answer ptr len_ptr buffer n)
  hand_out-IsLinear answer ptr len_ptr buffer n = search parts

  name_of-Keeps :
      (kind : NameKind) (fd : ℤ) (n : ℕ) (w : World)
      → Keeps is_open w (name_of libc net kind fd n w).1
  name_of-Keeps local = law.named
  name_of-Keeps peer = law.peered

  sock_name-IsLinear :
      (fd ptr len_ptr : ℤ) (kind : NameKind)
      → IsLinear law none (sock_name_program libc net fd ptr len_ptr kind)
  sock_name-IsLinear fd ptr len_ptr kind = search (parts, hand_out-IsLinear, name_of-Keeps) depth 12

  getsockopt-IsLinear :
      (fd level opt ptr len_ptr : ℤ)
      → IsLinear law none (getsockopt_program libc net fd level opt ptr len_ptr)
  getsockopt-IsLinear fd level opt ptr len_ptr =
      search (parts, hand_out-IsLinear, law.option_read) depth 12

  received-IsLinear :
      (ptr : ℤ) (r : ℤ × Bytes) (w : World) → IsLinear law none (received_program libc net ptr r w)
  received-IsLinear ptr (pos n, buf) w = search parts
  received-IsLinear ptr (negsuc n, buf) w = search parts

  received_from-IsLinear :
      (s : HostSocket) (ptr addr_ptr len_ptr : ℤ) (r : ℤ × Bytes × Filled) (w : World)
      → IsLinear law none (received_from_program libc net s ptr addr_ptr len_ptr r w)
  received_from-IsLinear s ptr addr_ptr len_ptr (pos n, buf, filled) w =
      search (parts, hand_out-IsLinear)
  received_from-IsLinear s ptr addr_ptr len_ptr (negsuc n, buf, filled) w = search parts

  fcntl-IsLinear : (raw_fd cmd arg : ℤ) → IsLinear law none (fcntl_program libc net raw_fd cmd arg)
  fcntl-IsLinear raw_fd cmd arg = search (parts, law.controlled) depth 12

  poll_raw_fd-IsLinear :
      (fd : ℤ) (follows : ℤ → Program World)
      → ((raw_fd : ℤ) → IsLinear law none (follows raw_fd))
      → IsLinear law none (poll_raw_fd_program libc net fd follows)
  poll_raw_fd-IsLinear (pos n) follows f = search (parts, f)
  poll_raw_fd-IsLinear (negsuc n) follows f = f (negsuc n)

  poll_get-IsLinear :
      (chunk : Bytes) (follows : PollFd → Program World)
      → ((entry : PollFd) → IsLinear law none (follows entry))
      → IsLinear law none (poll_get libc net chunk follows)
  poll_get-IsLinear chunk follows f =
      poll_raw_fd-IsLinear (int32 (from_le_bytes (take 4 chunk))) _ λ raw_fd. f _

  poll_gets-IsLinear :
      (cs : List Bytes) (follows : List PollFd → Program World)
      → ((fds : List PollFd) → IsLinear law none (follows fds))
      → IsLinear law none (poll_gets libc net cs follows)
  poll_gets-IsLinear [] follows f = f []
  poll_gets-IsLinear (c ∷ cs) follows f =
      poll_get-IsLinear c _
        λ entry. poll_gets-IsLinear cs (λ rest. follows (entry ∷ rest)) λ rest. f (entry ∷ rest)

  write_revents-IsLinear :
      (ptr : ℤ) (index : ℕ) (ps : List PollFd) (good : Program World)
      → IsLinear law none good
      → IsLinear law none (write_revents_program libc net ptr index ps good)
  write_revents-IsLinear ptr index [] good g = g
  write_revents-IsLinear ptr index (p ∷ ps) good g =
      search (parts, write_revents-IsLinear ptr (suc index) ps good g)

  poll-IsLinear :
      (ptr nfds timeout : ℤ) → IsLinear law none (poll_program libc net ptr nfds timeout)
  poll-IsLinear ptr nfds timeout =
      search (parts, poll_gets-IsLinear, write_revents-IsLinear, law.polled) depth 12

  close-IsLinear : (fd : ℤ) → IsLinear law none (close_program libc net fd)
  unfolding IsLinear
  close-IsLinear fd = (refl, λ s. (refl, λ w. refl), λ e. refl)

  enters-IsLinear : (s : HostSocket) → IsLinear law (some s.raw_fd) (enters s returns)
  unfolding IsLinear
  enters-IsLinear s = (refl, λ fd. refl)

  accepted-IsLinear :
      (s : HostSocket) (ptr len_ptr raw_fd : ℤ) (filled : Filled)
      → IsLinear law (some raw_fd) (accepted_program libc net s ptr len_ptr raw_fd filled)
  accepted-IsLinear s ptr len_ptr raw_fd filled =
      search (parts, enters-IsLinear (record s { raw_fd = raw_fd }))

  opens-IsLinear :
      (raw : World → ℤ) (next : World → World) (bad good : World → Program World)
      → ((w : World) → Makes is_open (raw w) w (next w))
      → ((w : World) → IsLinear law none (bad w))
      → ((w : World) → IsLinear law (some (raw w)) (good w))
      → IsLinear law none (opens raw next λ w. if is_negative (raw w) then bad w else good w)
  unfolding IsLinear
  opens-IsLinear raw next bad good m b g = (refl, λ w. (m w, (λ h. rw h (b w)), (λ h. rw h (g w))))

  accept-IsLinear :
      (fd ptr len_ptr : ℤ) → IsLinear law none (accept_program libc net fd ptr len_ptr)
  accept-IsLinear fd ptr len_ptr =
      search (parts, opens-IsLinear, accepted-IsLinear, law.accepted) depth 12

  socket-IsLinear :
      (network_allowed : Bool) (domain ty protocol : ℤ)
      → IsLinear law none (socket_program libc net network_allowed domain ty protocol)
  socket-IsLinear network_allowed domain ty protocol =
      search (parts, opens-IsLinear, enters-IsLinear, law.socket_made) depth 12

  -- Whatever the memory, the table and the host answer, a call closes or enters each descriptor that it
  -- makes or takes out of the table, once, unless it panics, and it closes and enters no other one.
  pub program-IsLinear :
      (network_allowed : Bool) (k : Call) → IsLinear law none (program libc net network_allowed k)
  unfolding program
  program-IsLinear allowed (socket domain ty protocol) = socket-IsLinear allowed domain ty protocol
  program-IsLinear allowed (bind fd ptr len) = search (parts, law.bound)
  program-IsLinear allowed (listen fd backlog) = search (parts, law.listened)
  program-IsLinear allowed (accept fd ptr len_ptr) = accept-IsLinear fd ptr len_ptr
  program-IsLinear allowed (connect fd ptr len) = search (parts, law.connected)
  program-IsLinear allowed (getsockname fd ptr len_ptr) = sock_name-IsLinear fd ptr len_ptr local
  program-IsLinear allowed (getpeername fd ptr len_ptr) = sock_name-IsLinear fd ptr len_ptr peer
  program-IsLinear allowed (setsockopt fd level opt ptr len) = search (parts, law.option_set)
  program-IsLinear allowed (getsockopt fd level opt ptr len_ptr) =
      getsockopt-IsLinear fd level opt ptr len_ptr
  program-IsLinear allowed (send fd ptr len flags) = search (parts, law.sent)
  program-IsLinear allowed (recv fd ptr len flags) =
      search (parts, received-IsLinear, law.received) depth 12
  program-IsLinear allowed (sendto fd ptr len flags addr addr_len) =
      search (parts, law.sent_to) depth 12
  program-IsLinear allowed (recvfrom fd ptr len flags addr len_ptr) =
      search (parts, received_from-IsLinear, law.received_with) depth 12
  program-IsLinear allowed (shutdown fd how) = search (parts, law.shut)
  program-IsLinear allowed (close fd) = close-IsLinear fd
  program-IsLinear allowed (fcntl fd cmd arg) = search (parts, fcntl-IsLinear)
  program-IsLinear allowed (poll ptr nfds timeout) = poll-IsLinear ptr nfds timeout
