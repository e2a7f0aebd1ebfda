-- ===== src/Winsock/Total.antt =====
-- The calls of the Windows build always answer: their slices stay inside the buffers.
use wasmtime_mysql.Prelude.{
  ℕ, suc, ◌*◌, ◌/◌, ◌≤◌, ◌≡◌, refl, ap, inl, inr, Bool, true, false, List, [], ◌∷◌, map, arith, ℤ,
  pos, lookup, ◌>>=◌, Outcome, done, leave, panic, Result-cases, Option-cases, ◌==ℤ◌, length,
}
use wasmtime_mysql.Guest.{
  Bytes, Export, read_u32, read_guest, write_guest, checked_len, to_le_bytes,
}
use wasmtime_mysql.Sockets.{checked_poll_count}
use wasmtime_mysql.Sockets.Address.{write_sockaddr_family-length}
use wasmtime_mysql.Sockets.Calls.{NameKind, local, peer, chunks, revents_ptr}
use wasmtime_mysql.Sockets.History.{
  Call, socket, bind, listen, accept, connect, getsockname, getpeername, setsockopt, getsockopt,
  send, recv, sendto, recvfrom, shutdown, close, fcntl, poll,
}
use wasmtime_mysql.Winsock.{
  WinSocket, WinSockets, Started, checked_sockaddr_len, normalize_message_flags,
}
use wasmtime_mysql.Winsock.Host.{WinSock, WsaErrno, WsaPollFd, Filled, PollsInPlace}
use wasmtime_mysql.Winsock.Calls.{
  Caller, hand_out, accepted_as, call_accept, socket_name, call_getsockopt, call_recv,
  call_recvfrom, call_poll, write_revents, poll_entries, name_of, guest_revents,
}
use wasmtime_mysql.Winsock.History.{Machine, perform, after_start}

abbrev pub answers {ℓ} : {A : Type ℓ} → Outcome A → Bool
answers (done a) = true
answers (leave n) = false
answers panic = false

length-map {ℓ κ} :
    {A : Type ℓ} {B : Type κ} (f : A → B) (xs : List A) → length (map f xs) ≡ length xs
length-map f [] = refl
length-map f (x ∷ xs) = ap suc (length-map f xs)

module _ (wsa : WsaErrno) (ws : WinSock) where
  open ws use {World}

  -- WinSock's `recv` and `recvfrom` report SOCKET_ERROR or a number within the buffer.
  pub record ReceivesWithin : Type 0 where
    pub recv_within :
        (s : ℕ) (n : ℕ) (flags : ℤ) (w : World)
        → (((ws.recv s n flags w).0).0 ==ℤ ws.socket_error) ≡ false
        → (k : ℕ) × (((ws.recv s n flags w).0).0 ≡ pos k) × (k ≤ length ((ws.recv s n flags w).0).1)
    pub recvfrom_within :
        (s : ℕ) (n : ℕ) (flags : ℤ) (m : ℕ) (w : World)
        → (((ws.recvfrom s n flags m w).0).0 ==ℤ ws.socket_error) ≡ false
        → (k : ℕ) × (((ws.recvfrom s n flags m w).0).0 ≡ pos k)
          × (k ≤ length ((ws.recvfrom s n flags m w).0).1)

  hand_out-answers :
      (answer ptr len_ptr : ℤ) (buffer : Bytes) (n : ℕ) (mem : Export) (s : WinSockets × World)
      → n ≤ length buffer
      → answers (hand_out wsa ws answer ptr len_ptr buffer n (mem, s)) ≡ true
  hand_out-answers answer ptr len_ptr buffer n mem s h = ground arith

  accepted_as-answers :
      (s : WinSocket) (ptr len_ptr : ℤ) (raw : ℕ) (f : Filled) (c : Caller wsa ws)
      → answers (accepted_as wsa ws s ptr len_ptr raw f c) ≡ true
  accepted_as-answers s ptr len_ptr raw f (mem, (t, w)) =
      ground (arith, write_sockaddr_family-length f.buffer s.guest_domain)

  accept-answers :
      (fd ptr len_ptr : ℤ) (c : Caller wsa ws)
      → answers (call_accept wsa ws fd ptr len_ptr c) ≡ true
  unfolding call_accept
  accept-answers fd ptr len_ptr (mem, (t, w)) = elim (Option-cases (lookup fd t.sockets)) [
    | inl e ↦ ground arith
    | inr (s, e) ↦ elim (Result-cases (read_u32 mem len_ptr >>= checked_sockaddr_len)) [
      | inr (n, r) ↦ ground arith
      | inl (n, r) ↦ ground (
        arith,
        write_sockaddr_family-length (ws.accept s.raw_socket n w).0.1.buffer s.guest_domain,
      )
    ]
  ]

  socket_name-answers :
      (fd ptr len_ptr : ℤ) (kind : NameKind) (c : Caller wsa ws)
      → answers (socket_name wsa ws fd ptr len_ptr kind c) ≡ true
  unfolding socket_name
  socket_name-answers fd ptr len_ptr kind (mem, (t, w)) =
      elim (Option-cases (lookup fd t.sockets)) [
        | inl e ↦ ground arith
        | inr (s, e) ↦ elim (Result-cases (read_u32 mem len_ptr >>= checked_sockaddr_len)) [
          | inr (n, r) ↦ ground arith
          | inl (n, r) ↦ ground (
            arith,
            write_sockaddr_family-length (name_of wsa ws kind s.raw_socket n w).0.1.buffer
                s.guest_domain,
          )
        ]
      ]

  getsockopt-answers :
      (fd level opt ptr len_ptr : ℤ) (c : Caller wsa ws)
      → answers (call_getsockopt wsa ws fd level opt ptr len_ptr c) ≡ true
  unfolding call_getsockopt
  getsockopt-answers fd level opt ptr len_ptr (mem, (t, w)) = ground arith

  recv-answers :
      (fd ptr len flags : ℤ) (c : Caller wsa ws)
      → ReceivesWithin
      → answers (call_recv wsa ws fd ptr len flags c) ≡ true
  unfolding call_recv
  recv-answers fd ptr len flags (mem, (t, w)) law = elim (Option-cases (lookup fd t.sockets)) [
    | inl e ↦ ground arith
    | inr (s, e) ↦ elim (Result-cases (checked_len len)) [
      | inr (n, r) ↦ ground arith
      | inl (n, r) ↦
          ground (arith, law.recv_within s.raw_socket n (normalize_message_flags flags) w)
    ]
  ]

  recvfrom-answers :
      (fd ptr len flags addr len_ptr : ℤ) (c : Caller wsa ws)
      → ReceivesWithin
      → answers (call_recvfrom wsa ws fd ptr len flags addr len_ptr c) ≡ true
  unfolding call_recvfrom
  recvfrom-answers fd ptr len flags addr len_ptr (mem, (t, w)) law =
      elim (Option-cases (lookup fd t.sockets)) [
        | inl e ↦ ground arith
        | inr (s, e) ↦ elim (Result-cases (checked_len len)) [
          | inr (n, r) ↦ ground arith
          | inl (n, r) ↦ elim (Result-cases (read_u32 mem len_ptr >>= checked_sockaddr_len)) [
            | inr (m, q) ↦ ground arith
            | inl (m, q) ↦ ground (
              arith,
              law.recvfrom_within s.raw_socket n (normalize_message_flags flags) m w,
              write_sockaddr_family-length
                  (ws.recvfrom s.raw_socket n (normalize_message_flags flags) m w).0.2.buffer
                  s.guest_domain,
            )
          ]
        ]
      ]

  write_revents-answers :
      (ptr : ℤ) (index : ℕ) (bs : List Bool) (ps : List WsaPollFd) (mem : Export)
      → length ps ≤ length bs
      → answers (write_revents ws ptr index bs ps mem) ≡ true
  unfolding write_revents
  write_revents-answers ptr index bs [] mem h = refl
  write_revents-answers ptr index [] (p ∷ ps) mem h = absurd (omega arith)
  write_revents-answers ptr index (b ∷ bs) (p ∷ ps) mem h =
      elim (Result-cases
        (write_guest mem (revents_ptr ptr index) (to_le_bytes 2 (guest_revents ws b p.revents)))) [
          | inr (e, r) ↦ rw (r, write_revents) refl
          | inl (mem1, r) ↦
              rw (r, write_revents) (write_revents-answers ptr (suc index) bs ps mem1 (omega arith))
        ]

  poll-answers :
      (ptr nfds timeout : ℤ) (c : Caller wsa ws)
      → PollsInPlace ws
      → answers (call_poll wsa ws ptr nfds timeout c) ≡ true
  unfolding call_poll
  poll-answers ptr nfds timeout (mem, (t, w)) law = elim (Result-cases (checked_poll_count nfds)) [
    | inr (n, r) ↦ ground arith
    | inl (count, r) ↦ elim (Result-cases (read_guest mem ptr (pos (count * 8)))) [
      | inr (n, q) ↦ ground arith
      | inl (bytes, q) ↦ elim (Result-cases (poll_entries ws t (chunks (length bytes / 8) bytes))) [
        | inr (n, g) ↦ ground arith
        | inl (es, g) ↦ ground (arith, back es bytes)
      ]
    ]
  ]
    where
      back :
          (es : List (Bool × WsaPollFd)) (bytes : Bytes)
          → answers (
              write_revents ws ptr 0
                (map (λ (e : Bool × WsaPollFd). e.0) es)
                ((ws.poll (map (λ (e : Bool × WsaPollFd). e.1) es) timeout w).0).1
                mem)
            ≡ true
      back es bytes = write_revents-answers ptr 0 _ _ mem (
          omega (
            arith,
            law.same_count (map (λ (e : Bool × WsaPollFd). e.1) es) timeout w,
            length-map (λ (e : Bool × WsaPollFd). e.1) es,
            length-map (λ (e : Bool × WsaPollFd). e.0) es,
          ))

  started-answers :
      (s : Started wsa ws) (out : Outcome (ℤ × Caller wsa ws))
      → answers out ≡ true
      → answers (after_start wsa ws false s out) ≡ true
  started-answers s (done a) h = refl
  started-answers s (leave n) h = h
  started-answers s panic h = h

  -- Every call answers, and none panics, if WinSock's `recv` and `recvfrom` report no more bytes than
  -- they were given room for and `WSAPoll` leaves the number of entries. For `accept`, `getsockname`,
  -- `getpeername` and `getsockopt` nothing is asked of WinSock: an address or an option that it reports
  -- to be longer than its buffer is answered EIO.
  pub perform_winsock-answers :
      (network_allowed : Bool) (k : Call) (m : Machine wsa ws network_allowed)
      → ReceivesWithin
      → PollsInPlace ws
      → answers (perform wsa ws network_allowed k m) ≡ true
  unfolding perform
  perform_winsock-answers b (socket domain ty protocol) m law law' = refl
  perform_winsock-answers b (bind fd ptr len) (s, c) law law' = refl
  perform_winsock-answers b (listen fd backlog) (s, c) law law' = refl
  perform_winsock-answers b (accept fd ptr len_ptr) (s, c) law law' =
      started-answers s (call_accept wsa ws fd ptr len_ptr c) (accept-answers fd ptr len_ptr c)
  perform_winsock-answers b (connect fd ptr len) (s, c) law law' = refl
  perform_winsock-answers b (getsockname fd ptr len_ptr) (s, c) law law' =
      started-answers s (socket_name wsa ws fd ptr len_ptr local c)
        (socket_name-answers fd ptr len_ptr local c)
  perform_winsock-answers b (getpeername fd ptr len_ptr) (s, c) law law' =
      started-answers s (socket_name wsa ws fd ptr len_ptr peer c)
        (socket_name-answers fd ptr len_ptr peer c)
  perform_winsock-answers b (setsockopt fd level opt ptr len) (s, c) law law' = refl
  perform_winsock-answers b (getsockopt fd level opt ptr len_ptr) (s, c) law law' =
      started-answers s (call_getsockopt wsa ws fd level opt ptr len_ptr c)
        (getsockopt-answers fd level opt ptr len_ptr c)
  perform_winsock-answers b (send fd ptr len flags) (s, c) law law' = refl
  perform_winsock-answers b (recv fd ptr len flags) (s, c) law law' =
      started-answers s (call_recv wsa ws fd ptr len flags c) (recv-answers fd ptr len flags c law)
  perform_winsock-answers b (sendto fd ptr len flags addr addr_len) (s, c) law law' = refl
  perform_winsock-answers b (recvfrom fd ptr len flags addr len_ptr) (s, c) law law' =
      started-answers s (call_recvfrom wsa ws fd ptr len flags addr len_ptr c)
        (recvfrom-answers fd ptr len flags addr len_ptr c law)
  perform_winsock-answers b (shutdown fd how) (s, c) law law' = refl
  perform_winsock-answers b (close fd) (s, c) law law' = refl
  perform_winsock-answers b (fcntl fd cmd arg) (s, c) law law' = refl
  perform_winsock-answers b (poll ptr nfds timeout) (s, c) law law' =
      started-answers s (call_poll wsa ws ptr nfds timeout c) (poll-answers ptr nfds timeout c law')
