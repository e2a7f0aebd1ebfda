-- ===== src/Winsock/Kept.antt =====
-- The sockets that WinSock opens for the guest are entered into the table or closed again.
use wasmtime_mysql.Prelude.{
  ℕ, ◌≤◌, ◌≡◌, inl, inr, true, false, arith, some, ℤ, lookup, ok, ◌>>=◌, Outcome, done,
  Result-cases, le→leb, leb, length, take, neg_errno, ◌==◌,
}
use wasmtime_mysql.Guest.{Export, read_u32, write_guest, write_u32}
use wasmtime_mysql.Sockets.{insert_socket, write_sockaddr_family}
use wasmtime_mysql.Sockets.Address.{write_sockaddr_family-length}
use wasmtime_mysql.Winsock.{WinSocket, WinSockets, checked_sockaddr_len}
use wasmtime_mysql.Winsock.Host.{WinSock, WsaErrno, Filled}
use wasmtime_mysql.Winsock.Calls.{Caller, call_accept, accepted_as, reported_len}

reported_len-le : (f : Filled) (n : ℕ) → reported_len f ≡ ok n → n ≤ length f.buffer
reported_len-le f n e = ground arith

module _ (wsa : WsaErrno) (ws : WinSock) where
  open ws use {World}

  -- Of a socket that WinSock made: the new table has it, or the table is as it was and the socket is
  -- closed.
  pub data Kept (s : WinSocket) (t : WinSockets) (w : World) (out : Outcome (ℤ × Caller wsa ws))
      : Type 0 where
    closed :
        (answer : ℤ) (mem' : Export)
        → out ≡ done (answer, (mem', (t, (ws.closesocket s.raw_socket w).1)))
        → Kept s t w out
    entered :
        (mem' : Export)
        → out ≡ done ((insert_socket s t).0, (mem', ((insert_socket s t).1, w)))
        → Kept s t w out

  module _ (fd addr_ptr addr_len_ptr : ℤ) (mem : Export) (t : WinSockets) (w : World) where
    accepted_as-Kept :
        (s : WinSocket) (raw : ℕ) (filled : Filled) (w1 : World)
        → Kept
            (record s { raw_socket = raw })
            t
            w1
            (accepted_as wsa ws s addr_ptr addr_len_ptr raw filled (mem, (t, w1)))
    accepted_as-Kept s raw filled w1 = elim (Result-cases (reported_len filled)) [
      | inr (e, r) ↦ closed (neg_errno e) mem (rw r)
      | inl (n, r) ↦
          let addr = write_sockaddr_family filled.buffer s.guest_domain in
          let same = write_sockaddr_family-length filled.buffer s.guest_domain in
          let fits : leb n (length addr) ≡ true =
            le→leb _ _ (rw same (reported_len-le filled n r)) in
          elim (Result-cases (write_guest mem addr_ptr (take n addr))) [
            | inr (e, q) ↦ closed (neg_errno e) mem (rw (r, fits, q))
            | inl (mem1, q) ↦ elim (Result-cases (write_u32 mem1 addr_len_ptr n)) [
              | inr (e, g) ↦ closed (neg_errno e) mem1 (rw (r, fits, q, g))
              | inl (mem2, g) ↦ entered mem2 (rw (r, fits, q, g))
            ]
          ]
    ]

    -- A connection that WinSock accepts for an open socket is not lost, whatever length of an address
    -- it reports: `accept` enters it into the table, with the domains and the flags of the listening
    -- socket, and answers with its descriptor, or it closes the connection and leaves the table as it
    -- was.
    pub call_accept_winsock-Kept :
        (s : WinSocket) (n raw : ℕ) (filled : Filled) (w1 : World)
        → lookup fd t.sockets ≡ some s
        → (read_u32 mem addr_len_ptr >>= checked_sockaddr_len) ≡ ok n
        → ws.accept s.raw_socket n w ≡ ((raw, filled), w1)
        → (raw == ws.invalid_socket) ≡ false
        → Kept
            (record s { raw_socket = raw })
            t
            w1
            (call_accept wsa ws fd addr_ptr addr_len_ptr (mem, (t, w)))
    unfolding call_accept
    call_accept_winsock-Kept s n raw filled w1 found asked took valid =
        rw (found, asked, took, valid) (accepted_as-Kept s raw filled w1)
