-- ===== src/Sockets/Threads/Invariant.antt =====
-- What holds in every state that an interleaving of the socket calls reaches.
use wasmtime_mysql.Prelude.{
  ℕ, Bool, ◌≡◌, ◌≢◌, refl, sym, subst, ◌∙◌, arith, Option, none, some, ℤ, lookup, ◌<◌, i32_max, inl,
  inr, Option-cases,
}
use wasmtime_mysql.Errno.{HostErrno}
use wasmtime_mysql.Sockets.{HostSockets, new, insert_socket}
use wasmtime_mysql.Guest.{Export}
use wasmtime_mysql.Sockets.Host.{Net}
use wasmtime_mysql.Sockets.Threads.{
  Program, returns, panics, gets, enters, takes, opens, closes, calls, touches, advance,
}
use wasmtime_mysql.Sockets.Threads.Imports.{program}
use wasmtime_mysql.Descriptors.{next-IsFree}
use wasmtime_mysql.Sockets.Table
use wasmtime_mysql.Sockets.Table.{IsValid, new-IsValid, Step-IsValid, stays, inserts, removes}
use wasmtime_mysql.Sockets.Threads.Complete.{same-AllHeld, host-AllHeld, drop-AllHeld}
use wasmtime_mysql.Sockets.Threads.Holders.{
  true_ne_false, Holder, entry, thread, same-IsOwned, host-IsOwned, drop-IsOwned,
}
use wasmtime_mysql.Sockets.Threads.Linear.{KeepsSockets, IsLinear}
use wasmtime_mysql.Sockets.Threads.Carried.{program-IsLinear}
use wasmtime_mysql.Sockets.Threads.System.{
  System, at, Step, begins, goes, others, IsStart, Reach, start, later,
}
use wasmtime_mysql.Sockets.Threads.Ownership.{
  held, held-at, at_both, advance-Next, IsOwnedBy, AllHeldBy, taken_out-none, taken_out-some,
}

-- What a part does to the table.
advance-Step :
    (libc : HostErrno) (net : Net) (p : Program net.World) (mem : Export) (t : HostSockets)
    (w : net.World)
    → Table.Step t (advance libc net p (mem, (t, w))).1.1.0
unfolding advance
advance-Step libc net (returns n) mem t w = stays
advance-Step libc net panics mem t w = stays
advance-Step libc net (gets fd follows) mem t w = stays
advance-Step libc net (enters s follows) mem t w = inserts s
advance-Step libc net (takes fd follows) mem t w = elim (Option-cases (lookup fd t.sockets)) [
  | inl e ↦ subst (λ r. Table.Step t r.1) (sym (taken_out-none fd t e)) stays
  | inr (s, e) ↦ subst (λ r. Table.Step t r.1) (sym (taken_out-some fd s t e)) (removes fd s e)
]
advance-Step libc net (opens raw next follows) mem t w = stays
advance-Step libc net (closes raw follows) mem t w = stays
advance-Step libc net (calls next follows) mem t w = stays
advance-Step libc net (touches change follows) mem t w = stays

Step-next_fd : (t t' : HostSockets) → Table.Step t t' → t'.next_fd < i32_max → t.next_fd < i32_max
unfolding insert_socket
Step-next_fd t t' stays h = h
Step-next_fd t t' (inserts s) h = ground arith
Step-next_fd t t' (removes fd s e) h = h

module _ (libc : HostErrno) {net : Net} (law : KeepsSockets net) (network_allowed : Bool) where
  open net use {World}
  open law use {is_open}

  -- Each thread's call is linear in what the thread carries.
  pub record IsSafe (s : System World) : Type 0 where
    pub carried : ℕ → Option ℤ
    pub linear : (i : ℕ) → IsLinear law (carried i) (s.threads i)
    pub owned : IsOwnedBy libc law carried s.table s.world
    pub valid : IsValid s.table
    pub complete : s.table.next_fd < i32_max → AllHeldBy libc law carried s.table s.world

  pub returned_none :
      (o : Option ℤ) (answer : ℤ) {p : Program World}
      → p ≡ returns answer
      → IsLinear law o p
      → o ≡ none
  unfolding IsLinear
  returned_none o answer e l = subst (IsLinear law o) e l

  Step-IsSafe : (s s' : System World) → Step libc law network_allowed s s' → IsSafe s → IsSafe s'
  Step-IsSafe s s' (begins i answer k e) safe = record {
    carried = at i none safe.carried;
    linear =
        at_both (IsLinear law) i safe.carried s.threads none (program libc net network_allowed k)
          safe.linear (program-IsLinear libc law network_allowed k);
    owned = same-IsOwned (drop-IsOwned safe.owned (thread i)) (held-at i none safe.carried s.table);
    valid = safe.valid;
    complete = λ below.
        same-AllHeld
          (drop-AllHeld (safe.complete below) (thread i)
            (returned_none (safe.carried i) answer e (safe.linear i)))
          (held-at i none safe.carried s.table);
  }
  Step-IsSafe s s' (goes i) safe =
      let (o, rest, owned, complete) =
        advance-Next libc law i safe.carried s.memory s.table s.world safe.owned (s.threads i)
          (safe.linear i) in
      let step = advance-Step libc net (s.threads i) s.memory s.table s.world in
      record {
        carried = at i o safe.carried;
        linear = at_both (IsLinear law) i safe.carried s.threads o _ safe.linear rest;
        owned = owned;
        valid = Step-IsValid s.table _ step safe.valid;
        complete = λ below.
            let below' = Step-next_fd s.table _ step below in
            complete (
              next-IsFree _ s.table.next_fd s.table.sockets safe.valid below',
              safe.complete below',
            );
      }
  Step-IsSafe s s' (others mem w keeps) safe = record {
    carried = safe.carried;
    linear = safe.linear;
    valid = safe.valid;
    complete = λ below. host-AllHeld (safe.complete below) λ raw e. sym (keeps raw) ∙ e;
    owned = host-IsOwned safe.owned λ raw e. keeps raw ∙ e;
  }

  held-new : (h : Holder) (raw : ℤ) → held (λ i. none) new h ≢ some raw
  unfolding new lookup
  held-new (entry fd) raw e = cc
  held-new (thread i) raw e = cc

  IsStart-IsSafe : (s : System World) → IsStart libc law network_allowed s → IsSafe s
  unfolding IsLinear
  IsStart-IsSafe s starts = record {
    carried = λ i. none;
    linear = λ i. subst (IsLinear law none) (sym (starts.idle i).1) refl;
    owned =
        subst (λ t. IsOwnedBy libc law (λ i. none) t s.world) (sym starts.empty)
          (record {
            opened = λ h raw f. absurd (held-new h raw f);
            once = λ h k raw f g. absurd (held-new h raw f);
          });
    valid = subst IsValid (sym starts.empty) new-IsValid;
    complete = λ below raw e. absurd (true_ne_false e (starts.none_open raw));
  }

  pub Reach-IsSafe : {s : System World} → Reach libc law network_allowed s → IsSafe s
  Reach-IsSafe {s = s} (start f) = IsStart-IsSafe s f
  Reach-IsSafe {s = s'} (later {s = s} r e) = Step-IsSafe s s' e (Reach-IsSafe r)
