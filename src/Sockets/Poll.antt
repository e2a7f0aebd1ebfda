-- ===== src/Sockets/Poll.antt =====
-- What `poll` writes back.
use wasmtime_mysql.Prelude.{
  ℕ, zero, suc, ◌+◌, ◌*◌, ◌-◌, ◌%◌, ◌/◌, ◌≤◌, ◌<◌, ◌≡◌, inl, inr, refl, sym, ap, ◌∙◌, List, [], ◌∷◌,
  arith, some, Bool-cases,
}
use wasmtime_mysql.Prelude.{
  ℤ, pos, i32_max, ok, length, drop, length-take, length-drop, bind_ok, get_elem?, leb,
}
use wasmtime_mysql.Errno.{HostErrno}
use wasmtime_mysql.Guest.{
  Bytes, Export, missing, memory, shared_memory, other, splice, write_cells, read_guest,
  write_guest, usize_max, max_io_len, to_le_bytes,
}
use wasmtime_mysql.Guest.Frame.{
  contents, Written, write_guest-Written, IsMapped, IsMapped-write, read_guest-share,
}
use wasmtime_mysql.Sockets.{HostSockets, checked_poll_count}
use wasmtime_mysql.Sockets.Host.{Net, PollFd, PollsInPlace}
use wasmtime_mysql.Sockets.Calls.{
  call_poll, chunks, poll_entries, poll_entry, revents_ptr, write_revents,
}

revents_ptr_lem :
    (p index : ℕ)
    → p + (index * 8 + 6) ≤ i32_max
    → revents_ptr (pos p) index ≡ pos (p + (index * 8 + 6))
unfolding revents_ptr
revents_ptr_lem p index h = ground arith

write_guest_ok :
    (e : Export) (p : ℕ) (bytes : Bytes)
    → IsMapped e
    → length (contents e) ≤ usize_max
    → length bytes ≤ max_io_len
    → p + length bytes ≤ length (contents e)
    → (e' : Export) × (write_guest e (pos p) bytes ≡ ok e')
unfolding write_guest
write_guest_ok missing p bytes m f a b = absurd m
write_guest_ok (memory d) p bytes m f a b =
    (memory (splice (record { start = p; end = p + length bytes }) bytes d), ground arith)
write_guest_ok (shared_memory d) p bytes m f a b =
    (shared_memory (write_cells p bytes d), ground arith)
write_guest_ok other p bytes m f a b = absurd m

read_guest_inside :
    (e : Export) (p n : ℕ) (bytes : Bytes)
    → read_guest e (pos p) (pos n) ≡ ok bytes
    → IsMapped e × (p + n ≤ length (contents e))
unfolding read_guest
read_guest_inside missing p n bytes h = cc
read_guest_inside (memory d) p n bytes h = (tt, ground arith)
read_guest_inside (shared_memory d) p n bytes h = (tt, ground arith)
read_guest_inside other p n bytes h = cc

-- The memory behind the loop: the two bytes at offset 6 of the entries from `index` on are the events
-- that the host returned, and every other byte is as it was.
pub record Answered (p index : ℕ) (ps : List PollFd) (d d' : Bytes) : Type 0 where
  pub same_length : length d' ≡ length d
  pub low :
      (j : ℕ) (q : PollFd)
      → get_elem? ps j ≡ some q
      → get_elem? d' (p + ((index + j) * 8 + 6)) ≡ some (q.revents % 256)
  pub high :
      (j : ℕ) (q : PollFd)
      → get_elem? ps j ≡ some q
      → get_elem? d' (p + ((index + j) * 8 + 7)) ≡ some (q.revents / 256 % 256)
  pub below : (k : ℕ) → k < p + (index * 8 + 6) → get_elem? d' k ≡ get_elem? d k
  pub between : (i r : ℕ) → r < 6 → get_elem? d' (p + (i * 8 + r)) ≡ get_elem? d (p + (i * 8 + r))
  pub above : (k : ℕ) → p + (index + length ps) * 8 ≤ k → get_elem? d' k ≡ get_elem? d k

module _ (p index : ℕ) (q : PollFd) (ps : List PollFd) (d d1 d2 : Bytes) where
  low_step :
      Written (p + (index * 8 + 6)) (to_le_bytes 2 q.revents) d d1
      → Answered p (suc index) ps d1 d2
      → (j : ℕ) (r : PollFd) → get_elem? (q ∷ ps) j ≡ some r
      → get_elem? d2 (p + ((index + j) * 8 + 6)) ≡ some (r.revents % 256)
  low_step w a zero r e =
      let here : p + ((index + 0) * 8 + 6) ≡ p + (index * 8 + 6) + 0 = omega arith in
      let same : q ≡ r = cc e in
      ap (get_elem? d2) here
      ∙ a.below _ (omega arith)
      ∙ w.new_bytes 0 (omega arith)
      ∙ ap (λ (x : PollFd). some (x.revents % 256)) same
  low_step w a (suc j) r e =
      let there : p + ((index + suc j) * 8 + 6) ≡ p + ((suc index + j) * 8 + 6) = omega arith in
      ap (get_elem? d2) there ∙ a.low j r e

  high_step :
      Written (p + (index * 8 + 6)) (to_le_bytes 2 q.revents) d d1
      → Answered p (suc index) ps d1 d2
      → (j : ℕ) (r : PollFd) → get_elem? (q ∷ ps) j ≡ some r
      → get_elem? d2 (p + ((index + j) * 8 + 7)) ≡ some (r.revents / 256 % 256)
  high_step w a zero r e =
      let here : p + ((index + 0) * 8 + 7) ≡ p + (index * 8 + 6) + 1 = omega arith in
      let same : q ≡ r = cc e in
      ap (get_elem? d2) here
      ∙ a.below _ (omega arith)
      ∙ w.new_bytes 1 (omega arith)
      ∙ ap (λ (x : PollFd). some (x.revents / 256 % 256)) same
  high_step w a (suc j) r e =
      let there : p + ((index + suc j) * 8 + 7) ≡ p + ((suc index + j) * 8 + 7) = omega arith in
      ap (get_elem? d2) there ∙ a.high j r e

  between_step :
      Written (p + (index * 8 + 6)) (to_le_bytes 2 q.revents) d d1
      → (i r : ℕ) → r < 6
      → get_elem? d1 (p + (i * 8 + r)) ≡ get_elem? d (p + (i * 8 + r))
  between_step w i r h = elim (Bool-cases (leb i index)) [
    | inl e ↦ w.below (p + (i * 8 + r)) (ground arith)
    | inr e ↦ w.above (p + (i * 8 + r)) (ground arith)
  ]

  Answered-step :
      Written (p + (index * 8 + 6)) (to_le_bytes 2 q.revents) d d1
      → Answered p (suc index) ps d1 d2
      → Answered p index (q ∷ ps) d d2
  Answered-step w a = record {
    same_length = a.same_length ∙ w.same_length;
    low = low_step w a;
    high = high_step w a;
    below = λ k h. a.below k (omega arith) ∙ w.below k (omega arith);
    between = λ i r h. a.between i r h ∙ between_step w i r h;
    above = λ k h. a.above k (omega arith) ∙ w.above k (omega arith);
  }

write_revents_cons :
    (ptr at : ℤ) (index : ℕ) (q : PollFd) (ps : List PollFd) (mem mem1 : Export)
    → revents_ptr ptr index ≡ at
    → write_guest mem at (to_le_bytes 2 q.revents) ≡ ok mem1
    → write_revents ptr index (q ∷ ps) mem ≡ write_revents ptr (suc index) ps mem1
unfolding write_revents
write_revents_cons ptr at index q ps mem mem1 e w = rw (e, w, write_revents) refl

-- The loop succeeds where the entries lie in a memory of less than 2 GiB.
write_revents-Answered :
    (p index : ℕ) (ps : List PollFd) (mem : Export)
    → IsMapped mem
    → length (contents mem) ≤ i32_max
    → p + (index + length ps) * 8 ≤ length (contents mem)
    → (mem' : Export) × (write_revents (pos p) index ps mem ≡ (ok tt, mem'))
      × Answered p index ps (contents mem) (contents mem')
unfolding write_revents
write_revents-Answered p index [] mem m f inside = (
  mem,
  refl,
  record {
    same_length = refl;
    low = λ j r e. cc e;
    high = λ j r e. cc e;
    below = λ k h. refl;
    between = λ i r h. refl;
    above = λ k h. refl;
  },
)
write_revents-Answered p index (q ∷ ps) mem m f inside =
    let (mem1, wrote) =
      write_guest_ok mem (p + (index * 8 + 6)) (to_le_bytes 2 q.revents) m (omega arith)
        (omega arith) (omega arith) in
    let (k, at, written) =
      write_guest-Written mem mem1 (pos (p + (index * 8 + 6))) (to_le_bytes 2 q.revents) wrote in
    let here : p + (index * 8 + 6) ≡ k = cc at in
    let w : Written (p + (index * 8 + 6)) (to_le_bytes 2 q.revents) (contents mem) (contents mem1) =
      rw here written in
    let (mem2, rest, a) =
      write_revents-Answered p (suc index) ps mem1
        (IsMapped-write mem mem1 (pos (p + (index * 8 + 6))) (to_le_bytes 2 q.revents) wrote)
        (omega (arith, w.same_length)) (omega (arith, w.same_length)) in
    (
      mem2,
      write_revents_cons (pos p) _ index q ps mem mem1 (revents_ptr_lem p index (omega arith)) wrote
          ∙ rest,
      Answered-step p index q ps (contents mem) (contents mem1) (contents mem2) w a,
    )

slice_length :
    (p n : ℕ) (d bytes : Bytes)
    → read_guest (memory d) (pos p) (pos n) ≡ ok bytes
    → length bytes ≡ n
unfolding read_guest
slice_length p n d bytes h = ground (arith, length-take (p + n - p) (drop p d), length-drop p d)

read_guest-length :
    (e : Export) (p n : ℕ) (bytes : Bytes)
    → read_guest e (pos p) (pos n) ≡ ok bytes
    → length bytes ≡ n
unfolding read_guest
read_guest-length missing p n bytes h = cc
read_guest-length (memory d) p n bytes h = slice_length p n d bytes h
read_guest-length (shared_memory d) p n bytes h =
    slice_length p n d bytes (sym (read_guest-share (memory d) (pos p) (pos n)) ∙ h)
read_guest-length other p n bytes h = cc

chunks-length : (n : ℕ) (bytes : Bytes) → length (chunks n bytes) ≡ n
chunks-length zero bytes = refl
chunks-length (suc n) bytes = ap suc (chunks-length n (drop 8 bytes))

poll_entries-length :
    (t : HostSockets) (cs : List Bytes) (fds : List PollFd)
    → poll_entries t cs ≡ ok fds
    → length fds ≡ length cs
unfolding poll_entries
poll_entries-length t [] fds h = ground arith
poll_entries-length t (c ∷ cs) fds h =
    let (entry, _, r) = bind_ok (poll_entry t c) _ h in
    let (rest, more, e) = bind_ok (poll_entries t cs) _ r in
    ground (arith, poll_entries-length t cs rest more)

module _ (libc : HostErrno) (net : Net) where
  open net use {World}

  -- In a memory of less than 2 GiB, a `poll` whose entries were read and answered by the host does not
  -- fail any more: it answers what the host did, the two answer bytes of each entry are the events
  -- that the host returned, and every other byte of the memory is as it was.
  pub call_poll-Answered :
      (p : ℕ) (nfds timeout : ℤ) (mem : Export) (t : HostSockets) (w : World) (count rc : ℕ)
      (bytes : Bytes) (fds polled : List PollFd) (w1 : World)
      → checked_poll_count nfds ≡ ok count
      → read_guest mem (pos p) (pos (count * 8)) ≡ ok bytes
      → poll_entries t (chunks (length bytes / 8) bytes) ≡ ok fds
      → net.poll fds timeout w ≡ ((pos rc, polled), w1)
      → length (contents mem) ≤ i32_max
      → PollsInPlace net
      → (mem' : Export) × (call_poll libc net (pos p) nfds timeout (mem, (t, w))
          ≡ (pos rc, (mem', (t, w1))))
        × Answered p 0 polled (contents mem) (contents mem')
        × (length polled ≡ count)
  unfolding call_poll
  call_poll-Answered p nfds timeout mem t w count rc bytes fds polled w1 counted asked known
        answered fits law =
      let (m, inside) = read_guest_inside mem p (count * 8) bytes asked in
      let n : length polled ≡ count =
        ap length (sym (ap (λ (x : (ℤ × List PollFd) × World). x.0.1) answered))
        ∙ law.same_count fds timeout w
        ∙ poll_entries-length t _ fds known
        ∙ chunks-length (length bytes / 8) bytes
        ∙ omega (arith, read_guest-length mem p (count * 8) bytes asked) in
      let (mem', wrote, a) = write_revents-Answered p 0 polled mem m fits (omega arith) in
      (mem', rw (counted, asked, known, answered, wrote) refl, a, n)
