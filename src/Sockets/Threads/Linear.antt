-- ===== src/Sockets/Threads/Linear.antt =====
-- A call of src/host_sockets.rs carries a descriptor of the host from where it makes or takes it to where
-- it closes or enters it, and has no other to close.
use wasmtime_mysql.Prelude.{
  ℕ, List, if◌then◌else◌, ◌==ℤ◌, ◌≡◌, ◌≢◌, Bool, true, false, Option, none, some, ℤ, is_negative,
  Result, ok, err,
}
use wasmtime_mysql.Guest.{Bytes, Export}
use wasmtime_mysql.Sockets.{HostSocket}
use wasmtime_mysql.Sockets.Host.{Net, PollFd}
use wasmtime_mysql.Sockets.Threads.{
  Program, returns, panics, gets, enters, takes, opens, closes, calls, touches,
}

module _ {World : Type 0} where
  -- Which sockets are open on the host, behind a call that makes none and closes none, and behind one
  -- that may make one.
  abbrev pub Keeps : (World → ℤ → Bool) → World → World → Type 0
  Keeps is_open w w' = (raw : ℤ) → is_open w' raw ≡ is_open w raw

  abbrev pub Makes : (World → ℤ → Bool) → ℤ → World → World → Type 0
  Makes is_open raw w w' =
      (is_negative raw ≡ true → Keeps is_open w w')
      × (is_negative raw ≡ false
          → (is_open w raw ≡ false)
            × (is_open w' raw ≡ true)
            × ((r : ℤ) → raw ≢ r → is_open w' r ≡ is_open w r))

-- What the socket calls rely on: `socket` and `accept` answer with a descriptor that was not in use,
-- `close` ends the one it is given, and the other functions leave the open sockets as they are.
pub record KeepsSockets (net : Net) : Type 0 where
  -- Whether a descriptor is that of a socket that was made since the start.
  pub is_open : net.World → ℤ → Bool
  pub socket_made :
      (domain ty protocol : ℤ) (w : net.World)
      → let (raw, w') = net.socket domain ty protocol w in Makes is_open raw w w'
  pub accepted :
      (fd : ℤ) (n : ℕ) (w : net.World)
      → let ((raw, filled), w') = net.accept fd n w in Makes is_open raw w w'
  pub closed :
      (fd : ℤ) (w : net.World) (r : ℤ)
      → is_open (net.close fd w).1 r ≡ (if fd ==ℤ r then false else is_open w r)
  pub bound : (fd : ℤ) (addr : Bytes) (w : net.World) → Keeps is_open w (net.bind fd addr w).1
  pub connected :
      (fd : ℤ) (addr : Bytes) (w : net.World) → Keeps is_open w (net.connect fd addr w).1
  pub listened : (fd backlog : ℤ) (w : net.World) → Keeps is_open w (net.listen fd backlog w).1
  pub shut : (fd how : ℤ) (w : net.World) → Keeps is_open w (net.shutdown fd how w).1
  pub controlled : (fd cmd arg : ℤ) (w : net.World) → Keeps is_open w (net.fcntl fd cmd arg w).1
  pub named : (fd : ℤ) (n : ℕ) (w : net.World) → Keeps is_open w (net.getsockname fd n w).1
  pub peered : (fd : ℤ) (n : ℕ) (w : net.World) → Keeps is_open w (net.getpeername fd n w).1
  pub option_read :
      (fd level name : ℤ) (n : ℕ) (w : net.World)
      → Keeps is_open w (net.getsockopt fd level name n w).1
  pub option_set :
      (fd level name : ℤ) (value : Bytes) (w : net.World)
      → Keeps is_open w (net.setsockopt fd level name value w).1
  pub sent :
      (fd : ℤ) (buf : Bytes) (flags : ℤ) (w : net.World)
      → Keeps is_open w (net.send fd buf flags w).1
  pub sent_to :
      (fd : ℤ) (buf : Bytes) (flags : ℤ) (addr : Bytes) (w : net.World)
      → Keeps is_open w (net.sendto fd buf flags addr w).1
  pub received :
      (fd : ℤ) (n : ℕ) (flags : ℤ) (w : net.World) → Keeps is_open w (net.recv fd n flags w).1
  pub received_with :
      (fd : ℤ) (n : ℕ) (flags : ℤ) (m : ℕ) (w : net.World)
      → Keeps is_open w (net.recvfrom fd n flags m w).1
  pub polled :
      (fds : List PollFd) (timeout : ℤ) (w : net.World) → Keeps is_open w (net.poll fds timeout w).1

module _ {net : Net} (law : KeepsSockets net) where
  open net use {World}
  open law use {is_open}

  -- What is left of a call that carries a descriptor, or none.
  unfoldable pub IsLinear : Option ℤ → Program World → Type 0
  IsLinear carried (returns n) = carried ≡ none
  IsLinear carried panics = Unit {0}
  IsLinear carried (gets fd follows) = (r : Result HostSocket) → IsLinear carried (follows r)
  IsLinear carried (enters socket follows) =
      (carried ≡ some socket.raw_fd) × ((fd : ℤ) → IsLinear none (follows fd))
  IsLinear carried (takes fd follows) =
      (carried ≡ none)
      × ((socket : HostSocket) → IsLinear (some socket.raw_fd) (follows (ok socket)))
      × ((e : ℤ) → IsLinear none (follows (err e)))
  IsLinear carried (opens raw next follows) =
      (carried ≡ none)
      × ((w : World)
          → Makes is_open (raw w) w (next w)
            × (is_negative (raw w) ≡ true → IsLinear none (follows w))
            × (is_negative (raw w) ≡ false → IsLinear (some (raw w)) (follows w)))
  IsLinear carried (closes raw follows) =
      (carried ≡ some raw) × ((w : World) → IsLinear none (follows w))
  IsLinear carried (calls next follows) =
      (w : World) → Keeps is_open w (next w) × IsLinear carried (follows w)
  IsLinear carried (touches change follows) = (m : Export) → IsLinear carried (follows m)
