-- ===== src/Sockets/Threads/Ownership.antt =====
-- Which descriptors of the host the table's entries and the threads' calls have to close, in every state
-- that an interleaving reaches.
use wasmtime_mysql.Prelude.{
  ℕ, pos, true, false, ◌==◌, ==_iff, ==ℤ_iff, ==ℤ_refl, ◌≡◌, ◌≢◌, refl, sym, ap, subst, ◌∙◌, arith,
  inl, inr, Option, none, some, ℤ, Result, ok, err, lookup, is_negative, Bool-cases, Option-cases,
  lookup-insert, lookup-remove,
}
use wasmtime_mysql.Errno.{HostErrno, ebadf}
use wasmtime_mysql.Guest.{Export}
use wasmtime_mysql.Sockets.{HostSocket, HostSockets, insert_socket, remove_socket}
use wasmtime_mysql.Sockets.Host.{Net}
use wasmtime_mysql.Sockets.Table.{without}
use wasmtime_mysql.Sockets.Calls.{Caller}
use wasmtime_mysql.Sockets.Threads.{
  Program, returns, panics, gets, enters, takes, opens, closes, calls, touches, advance, taken_out,
}
use wasmtime_mysql.Sockets.Threads.Holders.{
  Holder, entry, thread, Held, set, true_ne_false, IsOwned, same-IsOwned, host-IsOwned,
  drop-IsOwned, dropped, take-IsOwned, close-IsOwned, make-IsOwned,
}
use wasmtime_mysql.Sockets.Threads.Complete.{
  AllHeld, same-AllHeld, host-AllHeld, drop-AllHeld, make-AllHeld, close-AllHeld, move-AllHeld,
}
use wasmtime_mysql.Sockets.Threads.Linear.{Makes, KeepsSockets, IsLinear}
use wasmtime_mysql.Sockets.Threads.System.{at}

abbrev pub raw_fd_of : Option HostSocket → Option ℤ
raw_fd_of none = none
raw_fd_of (some s) = some s.raw_fd

-- What each thread carries, and the table's entries.
abbrev pub held : (ℕ → Option ℤ) → HostSockets → Held
held carried t (entry fd) = raw_fd_of (lookup fd t.sockets)
held carried t (thread i) = carried i

pub held-at :
    (i : ℕ) (o : Option ℤ) (carried : ℕ → Option ℤ) (t : HostSockets) (h : Holder)
    → held (at i o carried) t h ≡ set (thread i) o (held carried t) h
held-at i o carried t (entry fd) = refl
held-at i o carried t (thread j) = refl

held-entered :
    (i : ℕ) (s : HostSocket) (carried : ℕ → Option ℤ) (t : HostSockets) (h : Holder)
    → held (at i none carried) (insert_socket s t).1 h
      ≡ set (entry (pos t.next_fd)) (some s.raw_fd) (set (thread i) none (held carried t)) h
unfolding insert_socket
held-entered i s carried t (thread j) = refl
held-entered i s carried t (entry fd) = ground (arith, lookup-insert (pos t.next_fd) fd s t.sockets)

held-taken :
    (i : ℕ) (fd : ℤ) (s : HostSocket) (carried : ℕ → Option ℤ) (t : HostSockets) (h : Holder)
    → held (at i (some s.raw_fd) carried) (without t fd) h
      ≡ set (thread i) (some s.raw_fd) (set (entry fd) none (held carried t)) h
held-taken i fd s carried t (thread j) = refl
held-taken i fd s carried t (entry fd') = ground (arith, lookup-remove fd fd' t.sockets)

pub taken_out-none :
    (fd : ℤ) (t : HostSockets) → lookup fd t.sockets ≡ none → taken_out fd t ≡ (err ebadf, t)
unfolding remove_socket
taken_out-none fd t e = rw (e, taken_out) refl

pub taken_out-some :
    (fd : ℤ) (s : HostSocket) (t : HostSockets)
    → lookup fd t.sockets ≡ some s
    → taken_out fd t ≡ (ok s, without t fd)
unfolding remove_socket
taken_out-some fd s t e = rw (e, taken_out) refl

at-same : (i : ℕ) (carried : ℕ → Option ℤ) (j : ℕ) → at i (carried i) carried j ≡ carried j
at-same i carried j = ground (arith, ==_iff i j)

held-same :
    (i : ℕ) (carried : ℕ → Option ℤ) (t : HostSockets) (h : Holder)
    → held (at i (carried i) carried) t h ≡ held carried t h
held-same i carried t (entry fd) = refl
held-same i carried t (thread j) = at-same i carried j

pub at_both :
    {A B : Type 0} (Q : A → B → Type 0) (i : ℕ) (f : ℕ → A) (g : ℕ → B) (a : A) (b : B)
    → ((j : ℕ) → Q (f j) (g j))
    → Q a b
    → (j : ℕ) → Q (at i a f j) (at i b g j)
at_both Q i f g a b each here j = elim (Bool-cases (i == j)) [
  | inl e ↦ rw (e) here
  | inr e ↦ rw (e) (each j)
]

module _ (libc : HostErrno) {net : Net} (law : KeepsSockets net) where
  open net use {World}
  open law use {is_open}

  abbrev pub IsOwnedBy : (ℕ → Option ℤ) → HostSockets → World → Type 0
  IsOwnedBy carried t w = IsOwned (is_open w) (held carried t)

  abbrev pub AllHeldBy : (ℕ → Option ℤ) → HostSockets → World → Type 0
  AllHeldBy carried t w = AllHeld (is_open w) (held carried t)

  -- Behind a part: what the thread carries, and that the rest of its call is linear in that. Nothing is lost
  -- where nothing was lost before and the table's next descriptor is free.
  abbrev pub Next : ℕ → (ℕ → Option ℤ) → Type 0 → Program World × Caller libc net → Type 0
  Next i carried complete (p, (mem, (t, w))) =
      (o : Option ℤ) × IsLinear law o p
      × IsOwnedBy (at i o carried) t w
      × (complete → AllHeldBy (at i o carried) t w)

  closed-open :
      (raw : ℤ) (w : World) (r : ℤ)
      → raw ≢ r
      → is_open w r ≡ true
      → is_open (net.close raw w).1 r ≡ true
  closed-open raw w r other e = ground (arith, law.closed raw w r, ==ℤ_iff raw r)

  open-closed :
      (raw : ℤ) (w : World) (r : ℤ)
      → raw ≢ r
      → is_open (net.close raw w).1 r ≡ true
      → is_open w r ≡ true
  open-closed raw w r other e = ground (arith, law.closed raw w r, ==ℤ_iff raw r)

  closed-now : (raw : ℤ) (w : World) → is_open (net.close raw w).1 raw ≡ false
  closed-now raw w = ground (arith, law.closed raw w raw, ==ℤ_refl raw)

  module _ (i : ℕ) (carried : ℕ → Option ℤ) (mem : Export) (t : HostSockets) (w : World)
      (owned : IsOwnedBy carried t w) where
    abbrev pub IsComplete : Type 0
    IsComplete = (lookup (pos t.next_fd) t.sockets ≡ none) × AllHeldBy carried t w

    kept : IsOwnedBy (at i (carried i) carried) t w
    kept = same-IsOwned owned (held-same i carried t)

    kept_all : IsComplete → AllHeldBy (at i (carried i) carried) t w
    kept_all (free, all) = same-AllHeld all (held-same i carried t)

    takes-Next :
        (fd : ℤ) (follows : Result HostSocket → Program World)
        → carried i ≡ none
        → ((s : HostSocket) → IsLinear law (some s.raw_fd) (follows (ok s)))
        → ((e : ℤ) → IsLinear law none (follows (err e)))
        → Next i carried IsComplete (advance libc net (takes fd follows) (mem, (t, w)))
    unfolding advance
    takes-Next fd follows n l k = elim (Option-cases (lookup fd t.sockets)) [
      | inl e ↦ subst behind (sym (taken_out-none fd t e)) (
        none,
        k ebadf,
        same-IsOwned (drop-IsOwned owned (thread i)) (held-at i none carried t),
        λ (free, all). same-AllHeld (drop-AllHeld all (thread i) n) (held-at i none carried t),
      )
      | inr (s, e) ↦
          let has = ap raw_fd_of e in
          subst behind (sym (taken_out-some fd s t e)) (
            some s.raw_fd,
            l s,
            same-IsOwned
                (take-IsOwned (drop-IsOwned owned (entry fd)) (thread i) s.raw_fd
                  (owned.opened (entry fd) s.raw_fd has) (dropped owned (entry fd) s.raw_fd has))
                (held-taken i fd s carried t),
            λ (free, all).
                same-AllHeld (move-AllHeld all (entry fd) s.raw_fd has (thread i) n)
                  (held-taken i fd s carried t),
          )
    ]
      where
        behind : Result HostSocket × HostSockets → Type 0
        behind (r, t') = Next i carried IsComplete (follows r, (mem, (t', w)))

    opens-Next :
        (raw : ℤ) (next : World) (follows : Program World)
        → carried i ≡ none
        → Makes is_open raw w next
        → (is_negative raw ≡ true → IsLinear law none follows)
        → (is_negative raw ≡ false → IsLinear law (some raw) follows)
        → Next i carried IsComplete (follows, (mem, (t, next)))
    opens-Next raw next follows n m l k = elim (Bool-cases (is_negative raw)) [
      | inl b ↦ (
        none,
        l b,
        same-IsOwned (drop-IsOwned (host-IsOwned owned λ r e. m.0 b r ∙ e) (thread i))
            (held-at i none carried t),
        λ (free, all).
            same-AllHeld (drop-AllHeld (host-AllHeld all λ r e. sym (m.0 b r) ∙ e) (thread i) n)
              (held-at i none carried t),
      )
      | inr b ↦
          let (fresh, ready, stay) = m.1 b in
          (
            some raw,
            k b,
            same-IsOwned
                (make-IsOwned (thread i) raw owned fresh ready (λ r e.
                  stay r
                    (λ same. true_ne_false (subst (λ r. is_open w r ≡ true) (sym same) e) fresh)
                  ∙ e))
                (held-at i (some raw) carried t),
            λ (free, all).
                same-AllHeld (make-AllHeld all (thread i) raw n λ r other e. sym (stay r other) ∙ e)
                  (held-at i (some raw) carried t),
          )
    ]

    pub advance-Next :
        (p : Program World)
        → IsLinear law (carried i) p
        → Next i carried IsComplete (advance libc net p (mem, (t, w)))
    unfolding advance insert_socket IsLinear
    advance-Next (returns n) l = (carried i, l, kept, kept_all)
    advance-Next panics l = (carried i, l, kept, kept_all)
    advance-Next (gets fd follows) l = (carried i, l _, kept, kept_all)
    advance-Next (enters s follows) (has, l) = (
      none,
      l _,
      same-IsOwned
          (take-IsOwned (drop-IsOwned owned (thread i)) (entry (pos t.next_fd)) s.raw_fd
            (owned.opened (thread i) s.raw_fd has) (dropped owned (thread i) s.raw_fd has))
          (held-entered i s carried t),
      λ (free, all).
          same-AllHeld
            (move-AllHeld all (thread i) s.raw_fd has (entry (pos t.next_fd)) (ap raw_fd_of free))
            (held-entered i s carried t),
    )
    advance-Next (takes fd follows) (n, l, k) = takes-Next fd follows n l k
    advance-Next (opens raw next follows) (n, l) =
        let (m, bad, good) = l w in opens-Next (raw w) (next w) (follows w) n m bad good
    advance-Next (closes raw follows) (has, l) = (
      none,
      l w,
      same-IsOwned (close-IsOwned owned (thread i) raw has (closed-open raw w))
          (held-at i none carried t),
      λ (free, all).
          same-AllHeld (close-AllHeld all (thread i) raw has (closed-now raw w) (open-closed raw w))
            (held-at i none carried t),
    )
    advance-Next (calls next follows) l =
        let (keeps, rest) = l w in
        (
          carried i,
          rest,
          host-IsOwned kept (λ r e. keeps r ∙ e),
          λ complete. host-AllHeld (kept_all complete) λ r e. sym (keeps r) ∙ e,
        )
    advance-Next (touches change follows) l = (carried i, l mem, kept, kept_all)
