-- ===== src/Sockets/Threads/Closing.antt =====
-- Calls of src/host_sockets.rs on several threads: a descriptor of the host is closed once, and what the
-- table holds is open.
use wasmtime_mysql.Prelude.{
  ℕ, Bool, true, ◌≡◌, ◌≢◌, sym, ap, ◌∙◌, Option, none, some, ℤ, lookup, ◌<◌, i32_max, inl, inr,
  Option-cases,
}
use wasmtime_mysql.Errno.{HostErrno}
use wasmtime_mysql.Sockets.{HostSocket, HostSockets}
use wasmtime_mysql.Sockets.Host.{Net}
use wasmtime_mysql.Sockets.Threads.{
  Program, returns, panics, gets, enters, takes, opens, closes, calls, touches,
}
use wasmtime_mysql.Sockets.Threads.Holders.{Holder, entry, thread}
use wasmtime_mysql.Sockets.Threads.Linear.{KeepsSockets, IsLinear}
use wasmtime_mysql.Sockets.Threads.System.{System, Reach}
use wasmtime_mysql.Sockets.Threads.Ownership.{held, raw_fd_of}
use wasmtime_mysql.Sockets.Threads.Invariant.{Reach-IsSafe, returned_none}
use wasmtime_mysql.Sockets.Threads.Complete.{none_ne_some, some_injective}

-- The thread's call goes on to close the descriptor, or to enter it into the table.
abbrev pub Ends : {World : Type 0} → ℤ → Program World → Type 0
Ends raw (closes r follows) = r ≡ raw
Ends raw (enters s follows) = s.raw_fd ≡ raw
Ends raw (returns n) = ⊥
Ends raw panics = ⊥
Ends raw (gets fd follows) = ⊥
Ends raw (takes fd follows) = ⊥
Ends raw (opens r next follows) = ⊥
Ends raw (calls next follows) = ⊥
Ends raw (touches change follows) = ⊥

module _ (libc : HostErrno) {net : Net} (law : KeepsSockets net) (network_allowed : Bool) where
  open net use {World}
  open law use {is_open}

  Ends-carried :
      (raw : ℤ) (p : Program World) (o : Option ℤ) → Ends raw p → IsLinear law o p → o ≡ some raw
  unfolding IsLinear
  Ends-carried raw (closes r follows) o e (has, rest) = has ∙ ap some e
  Ends-carried raw (enters s follows) o e (has, rest) = has ∙ ap some e
  Ends-carried raw (returns n) o e l = absurd e
  Ends-carried raw panics o e l = absurd e
  Ends-carried raw (gets fd follows) o e l = absurd e
  Ends-carried raw (takes fd follows) o e l = absurd e
  Ends-carried raw (opens r next follows) o e l = absurd e
  Ends-carried raw (calls next follows) o e l = absurd e
  Ends-carried raw (touches change follows) o e l = absurd e

  thread-injective : {i j : ℕ} → thread i ≡ thread j → i ≡ j
  thread-injective e = cc

  entry-injective : {a b : ℤ} → entry a ≡ entry b → a ≡ b
  entry-injective e = cc

  entry_ne_thread : {a : ℤ} {i : ℕ} → entry a ≢ thread i
  entry_ne_thread e = cc

  entry_with :
      (raw fd : ℤ) (t : HostSockets)
      → raw_fd_of (lookup fd t.sockets) ≡ some raw
      → (fd : ℤ) × (socket : HostSocket) × (lookup fd t.sockets ≡ some socket)
        × (socket.raw_fd ≡ raw)
  entry_with raw fd t h = elim (Option-cases (lookup fd t.sockets)) [
    | inl e ↦ absurd (none_ne_some (ap raw_fd_of (sym e) ∙ h))
    | inr (s, e) ↦ (fd, s, e, some_injective (ap raw_fd_of (sym e) ∙ h))
  ]

  -- Calls begin on any thread, and their parts come in any order. Where the host makes descriptors that
  -- were not in use, a descriptor that a call is to close or to enter next is open, and it is that of no
  -- entry of the table and of no other call: it is not closed twice, nor closed under an entry.
  pub closes_once :
      {s : System World} (i : ℕ) (raw : ℤ)
      → Reach libc law network_allowed s
      → Ends raw (s.threads i)
      → (is_open s.world raw ≡ true)
        × ((fd : ℤ) (socket : HostSocket)
            → lookup fd s.table.sockets ≡ some socket
            → socket.raw_fd ≢ raw)
        × ((j : ℕ) → Ends raw (s.threads j) → i ≡ j)
  closes_once {s = s} i raw r ends =
      let safe = Reach-IsSafe libc law network_allowed r in
      let has = Ends-carried raw (s.threads i) (safe.carried i) ends (safe.linear i) in
      (
        safe.owned.opened (thread i) raw has,
        (λ fd socket e is.
            entry_ne_thread
              (safe.owned.once (entry fd) (thread i) raw (ap raw_fd_of e ∙ ap some is) has)),
        λ j ends'. thread-injective (
            safe.owned.once (thread i) (thread j) raw has
              (Ends-carried raw (s.threads j) (safe.carried j) ends' (safe.linear j))),
      )

  -- In each state that calls on any threads reach, the entries of the table have open sockets, and two
  -- entries never have the same one, where the host makes descriptors that were not in use.
  pub entries_open :
      {s : System World} (a b : ℤ) (socket other : HostSocket)
      → Reach libc law network_allowed s
      → lookup a s.table.sockets ≡ some socket
      → lookup b s.table.sockets ≡ some other
      → (is_open s.world socket.raw_fd ≡ true) × (socket.raw_fd ≡ other.raw_fd → a ≡ b)
  entries_open a b socket other r e f =
      let safe = Reach-IsSafe libc law network_allowed r in
      (
        safe.owned.opened (entry a) socket.raw_fd (ap raw_fd_of e),
        λ same. entry-injective (
            safe.owned.once (entry a) (entry b) socket.raw_fd (ap raw_fd_of e)
              (ap raw_fd_of f ∙ ap some (sym same))),
      )

  entered_by :
      (raw : ℤ) (s : System World) (h : Holder) (carried : ℕ → Option ℤ)
      → held carried s.table h ≡ some raw
      → ((i : ℕ) → carried i ≡ none)
      → (fd : ℤ) × (socket : HostSocket) × (lookup fd s.table.sockets ≡ some socket)
        × (socket.raw_fd ≡ raw)
  entered_by raw s (entry fd) carried f free = entry_with raw fd s.table f
  entered_by raw s (thread i) carried f free = absurd (none_ne_some (sym (free i) ∙ f))

  -- No socket is lost: when every thread has returned from its calls, however they interleaved, each
  -- open socket is that of an entry, as long as the next descriptor is below `i32::MAX`.
  pub open_entered :
      {s : System World} (raw : ℤ)
      → Reach libc law network_allowed s
      → s.table.next_fd < i32_max
      → ((i : ℕ) → (answer : ℤ) × (s.threads i ≡ returns answer))
      → is_open s.world raw ≡ true
      → (fd : ℤ) × (socket : HostSocket) × (lookup fd s.table.sockets ≡ some socket)
        × (socket.raw_fd ≡ raw)
  open_entered {s = s} raw r below idle e =
      let safe = Reach-IsSafe libc law network_allowed r in
      let (h, f) = safe.complete below raw e in
      entered_by raw s h safe.carried f
        (λ i. returned_none libc law network_allowed _ _ (idle i).1 (safe.linear i))
