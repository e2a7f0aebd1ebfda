-- ===== src/Sockets/Threads.antt =====
-- src/host_sockets.rs, the calls in their parts: `add_to_linker` takes the table's lock for each `get`,
-- `insert` and `remove` only, so the parts of calls on several threads may come in any order.
pub mod Programs
pub mod Imports
pub mod Alone
pub mod Sequential
mod Holders
mod Complete
pub mod Ownership
pub mod Invariant
pub mod Closing
pub mod Linear
pub mod Carried
pub mod System
use wasmtime_mysql.Prelude.{ℕ, ℤ, Result, ok, err, Outcome, done, panic, if◌then◌else◌}
use wasmtime_mysql.Guest.{Export}
use wasmtime_mysql.Errno.{HostErrno}
use wasmtime_mysql.Sockets.{HostSocket, HostSockets, get, insert_socket, remove_socket}
use wasmtime_mysql.Sockets.Host.{Net}
use wasmtime_mysql.Sockets.Calls.{Caller}

-- What is left of a call, from its next part on.
pub data Program (World : Type 0) : Type 0 where
  returns : ℤ → Program World
  panics : Program World
  gets : ℤ → (Result HostSocket → Program World) → Program World
  enters : HostSocket → (ℤ → Program World) → Program World
  takes : ℤ → (Result HostSocket → Program World) → Program World
  -- A call of the host that may make a descriptor: what it returns, the state behind it, and what
  -- follows, all of the state before it.
  opens : (World → ℤ) → (World → World) → (World → Program World) → Program World
  closes : ℤ → (World → Program World) → Program World
  calls : (World → World) → (World → Program World) → Program World
  touches : (Export → Export) → (Export → Program World) → Program World

-- `remove` of the table, which stays as it is where there is no such descriptor.
abbrev pub taken_out : ℤ → HostSockets → Result HostSocket × HostSockets
taken_out fd t = elim (remove_socket t fd) [
  | ok (socket, t') ↦ (ok socket, t')
  | err e ↦ (err e, t)
]

module _ (libc : HostErrno) (net : Net) where
  open net use {World}

  -- One part.
  unfoldable pub advance : Program World → Caller libc net → Program World × Caller libc net
  advance (returns n) c = (returns n, c)
  advance panics c = (panics, c)
  advance (gets fd follows) (mem, (t, w)) = (follows (get t fd), (mem, (t, w)))
  advance (enters socket follows) (mem, (t, w)) =
      let (fd, t') = insert_socket socket t in (follows fd, (mem, (t', w)))
  advance (takes fd follows) (mem, (t, w)) =
      let (r, t') = taken_out fd t in (follows r, (mem, (t', w)))
  advance (opens raw next follows) (mem, (t, w)) = (follows w, (mem, (t, next w)))
  advance (closes raw follows) (mem, (t, w)) = (follows w, (mem, (t, (net.close raw w).1)))
  advance (calls next follows) (mem, (t, w)) = (follows w, (mem, (t, next w)))
  advance (touches change follows) (mem, s) = (follows mem, (change mem, s))

  -- All parts one behind the other, with no other thread between them.
  unfoldable pub run_alone : Program World → Caller libc net → Outcome (ℤ × Caller libc net)
  run_alone (returns n) c = done (n, c)
  run_alone panics c = panic
  run_alone (gets fd follows) (mem, (t, w)) = run_alone (follows (get t fd)) (mem, (t, w))
  run_alone (enters socket follows) (mem, (t, w)) =
      run_alone (follows ((insert_socket socket t).0)) (mem, ((insert_socket socket t).1, w))
  run_alone (takes fd follows) (mem, (t, w)) =
      run_alone (follows ((taken_out fd t).0)) (mem, ((taken_out fd t).1, w))
  run_alone (opens raw next follows) (mem, (t, w)) = run_alone (follows w) (mem, (t, next w))
  run_alone (closes raw follows) (mem, (t, w)) =
      run_alone (follows w) (mem, (t, (net.close raw w).1))
  run_alone (calls next follows) (mem, (t, w)) = run_alone (follows w) (mem, (t, next w))
  run_alone (touches change follows) (mem, s) = run_alone (follows mem) (change mem, s)
