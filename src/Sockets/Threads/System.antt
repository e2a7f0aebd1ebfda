-- ===== src/Sockets/Threads/System.antt =====
-- src/main.rs starts a thread for each `thread-spawn` of the guest, and all of them share the sockets, the
-- guest's memory and the host. A step is the beginning of a call, the next part of one, or what other
-- code does to the memory and the host.
use wasmtime_mysql.Prelude.{ℕ, Bool, false, ◌==◌, ◌≡◌, if◌then◌else◌, ℤ}
use wasmtime_mysql.Errno.{HostErrno}
use wasmtime_mysql.Guest.{Export}
use wasmtime_mysql.Sockets.{HostSockets, new}
use wasmtime_mysql.Sockets.Host.{Net}
use wasmtime_mysql.Sockets.Calls.{Caller}
use wasmtime_mysql.Sockets.History.{Call}
use wasmtime_mysql.Sockets.Threads.{Program, returns, advance}
use wasmtime_mysql.Sockets.Threads.Imports.{program}
use wasmtime_mysql.Sockets.Threads.Linear.{Keeps, KeepsSockets}

pub record System (World : Type 0) : Type 0 where
  pub threads : ℕ → Program World
  pub memory : Export
  pub table : HostSockets
  pub world : World

abbrev pub at {ℓ} : {A : Type ℓ} → ℕ → A → (ℕ → A) → ℕ → A
at i a f j = if i == j then a else f j

module _ (libc : HostErrno) {net : Net} (law : KeepsSockets net) (network_allowed : Bool) where
  open net use {World}
  open law use {is_open}

  abbrev pub after : System World → ℕ → Program World × Caller libc net → System World
  after s i (p, (mem, (t, w))) = record {
    threads = at i p s.threads;
    memory = mem;
    table = t;
    world = w;
  }

  pub data Step (s : System World) : System World → Type 0 where
    begins :
        (i : ℕ) (answer : ℤ) (k : Call)
        → s.threads i ≡ returns answer
        → Step s (after s i (program libc net network_allowed k, (s.memory, (s.table, s.world))))
    goes :
        (i : ℕ) → Step s (after s i (advance libc net (s.threads i) (s.memory, (s.table, s.world))))
    -- Other code opens no socket and closes none.
    others :
        (mem : Export) (w : World)
        → Keeps is_open s.world w
        → Step s (record s { memory = mem; world = w })

  -- No call has begun, the table is that of `HostSockets::new`, and no socket is open.
  pub record IsStart (s : System World) : Type 0 where
    pub idle : (i : ℕ) → (answer : ℤ) × (s.threads i ≡ returns answer)
    pub empty : s.table ≡ new
    pub none_open : (raw : ℤ) → is_open s.world raw ≡ false

  -- The states that any interleaving of the calls reaches.
  pub data Reach : System World → Type 0 where
    start : {s : System World} → IsStart s → Reach s
    later : {s s' : System World} → Reach s → Step s s' → Reach s'
