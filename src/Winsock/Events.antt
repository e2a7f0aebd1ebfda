-- ===== src/Winsock/Events.antt =====
-- The events of `poll` and the error codes, between the guest's numbers and WinSock's.
use wasmtime_mysql.Prelude.{
  ℕ, ◌≡◌, ◌⊎◌, inl, inr, refl, sym, subst, ◌∙◌, List, [], ◌∷◌, Bool, true, false, arith, Bool-cases,
  ℤ, pos, if◌then◌else◌, ◌==ℤ◌, ==ℤ_iff,
}
use wasmtime_mysql.Errno.{
  eacces, eaddrinuse, eaddrnotavail, eafnosupport, eagain, ealready, ebadf, econnaborted,
  econnrefused, econnreset, edestaddrreq, efault, ehostunreach, einprogress, eintr, einval, eio,
  eisconn, emfile, emsgsize, enetdown, enetreset, enetunreach, enobufs, enoprotoopt, enotconn,
  enotsock, enotsup, eprotonosupport, eprototype, etimedout,
}
use wasmtime_mysql.Errno.Table.{lookup_or}
use wasmtime_mysql.Errno.Range.{IsErrno, lookup_or-IsErrno}
use wasmtime_mysql.Winsock.{
  has_event, set_if, guest_pollin, guest_pollpri, guest_pollout, guest_pollerr, guest_pollhup,
  guest_pollnval, guest_poll_events_to_windows, windows_poll_events_to_guest, socket_errno,
}
use wasmtime_mysql.Winsock.Host.{WinSock, WsaErrno}

-- The numbers of the events in WinSock's header.
pub record HasHeaderEvents (ws : WinSock) : Type 0 where
  pub pollin_bits : ws.pollin ≡ 0x300
  pub pollpri_bits : ws.pollpri ≡ 0x400
  pub pollout_bits : ws.pollout ≡ 0x10
  pub pollerr_bits : ws.pollerr ≡ 0x1
  pub pollhup_bits : ws.pollhup ≡ 0x2
  pub pollnval_bits : ws.pollnval ≡ 0x4

-- The three events that the guest may ask for.
abbrev pub asked : ℕ → ℕ
asked events = set_if (has_event events guest_pollout) guest_pollout (
    set_if (has_event events guest_pollpri) guest_pollpri
      (set_if (has_event events guest_pollin) guest_pollin 0))

-- The three events in WinSock's numbers, given back in the guest's.
events_back :
    (a b c : Bool)
    → let events = set_if c 0x10 (set_if b 0x400 (set_if a 0x300 0)) in
      set_if (has_event events 0x4) guest_pollnval (
        set_if (has_event events 0x2) guest_pollhup (
          set_if (has_event events 0x1) guest_pollerr (
            set_if (has_event events 0x10) guest_pollout (
              set_if
                (has_event events 0x400)
                guest_pollpri
                (set_if (has_event events 0x300) guest_pollin 0)))))
      ≡ set_if c guest_pollout (set_if b guest_pollpri (set_if a guest_pollin 0))
events_back true true true = refl
events_back true true false = refl
events_back true false true = refl
events_back true false false = refl
events_back false true true = refl
events_back false true false = refl
events_back false false true = refl
events_back false false false = refl

-- With the numbers of WinSock's header, the events that a guest asks for are the ones that it gets
-- back if WinSock returns all that it was asked for; other bits are dropped.
pub windows_poll_events_to_guest-guest_poll_events_to_windows :
    (ws : WinSock) (events : ℕ)
    → HasHeaderEvents ws
    → windows_poll_events_to_guest ws (guest_poll_events_to_windows ws events) ≡ asked events
unfolding windows_poll_events_to_guest guest_poll_events_to_windows
windows_poll_events_to_guest-guest_poll_events_to_windows ws events h =
    rw
      (
        h.pollin_bits, h.pollpri_bits, h.pollout_bits, h.pollerr_bits, h.pollhup_bits,
        h.pollnval_bits,
      )
      (events_back (has_event events guest_pollin) (has_event events guest_pollpri)
        (has_event events guest_pollout))

-- The arms of `socket_errno` behind the first.
abbrev wsa_table : WsaErrno → List (ℤ × ℤ)
wsa_table wsa =
    (wsa.wsaeintr, eintr)
    ∷ (wsa.wsaebadf, ebadf)
    ∷ (wsa.wsaeacces, eacces)
    ∷ (wsa.wsaefault, efault)
    ∷ (wsa.wsaeinval, einval)
    ∷ (wsa.wsaemfile, emfile)
    ∷ (wsa.wsaewouldblock, eagain)
    ∷ (wsa.wsaeinprogress, einprogress)
    ∷ (wsa.wsaealready, ealready)
    ∷ (wsa.wsaenotsock, enotsock)
    ∷ (wsa.wsaedestaddrreq, edestaddrreq)
    ∷ (wsa.wsaemsgsize, emsgsize)
    ∷ (wsa.wsaeprototype, eprototype)
    ∷ (wsa.wsaenoprotoopt, enoprotoopt)
    ∷ (wsa.wsaeprotonosupport, eprotonosupport)
    ∷ (wsa.wsaesocktnosupport, enotsup)
    ∷ (wsa.wsaeopnotsupp, enotsup)
    ∷ (wsa.wsaepfnosupport, eafnosupport)
    ∷ (wsa.wsaeafnosupport, eafnosupport)
    ∷ (wsa.wsaeaddrinuse, eaddrinuse)
    ∷ (wsa.wsaeaddrnotavail, eaddrnotavail)
    ∷ (wsa.wsaenetdown, enetdown)
    ∷ (wsa.wsaenetunreach, enetunreach)
    ∷ (wsa.wsaenetreset, enetreset)
    ∷ (wsa.wsaeconnaborted, econnaborted)
    ∷ (wsa.wsaeconnreset, econnreset)
    ∷ (wsa.wsaenobufs, enobufs)
    ∷ (wsa.wsaeisconn, eisconn)
    ∷ (wsa.wsaenotconn, enotconn)
    ∷ (wsa.wsaeshutdown, enotconn)
    ∷ (wsa.wsaetimedout, etimedout)
    ∷ (wsa.wsaeconnrefused, econnrefused)
    ∷ (wsa.wsaehostdown, ehostunreach)
    ∷ (wsa.wsaehostunreach, ehostunreach)
    ∷ []

socket_errno-lookup_or :
    (wsa : WsaErrno) (code : ℤ)
    → socket_errno wsa code ≡ (if code ==ℤ pos 0 then pos 0 else lookup_or eio code (wsa_table wsa))
unfolding socket_errno
socket_errno-lookup_or wsa code = refl

-- A code of WinSock's becomes a guest errno, and only 0 becomes 0.
pub socket_errno-IsErrno :
    (wsa : WsaErrno) (code : ℤ)
    → ((code ≡ pos 0) × (socket_errno wsa code ≡ pos 0)) ⊎ IsErrno (socket_errno wsa code)
socket_errno-IsErrno wsa code = elim (Bool-cases (code ==ℤ pos 0)) [
  | inl z ↦ inl ((==ℤ_iff code (pos 0)).0 z, socket_errno-lookup_or wsa code ∙ rw z refl)
  | inr n ↦ inr (
      subst IsErrno (sym (socket_errno-lookup_or wsa code ∙ rw n refl))
        (lookup_or-IsErrno eio code (wsa_table wsa) (omega arith) (omega arith)))
]
