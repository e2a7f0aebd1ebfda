-- ===== src/Sockets/Table.antt =====
-- The table of sockets: which descriptors it holds, and the steps that change it.
use wasmtime_mysql.Prelude.{◌≡◌, arith, some}
use wasmtime_mysql.Prelude.{ℤ, lookup, remove}
use wasmtime_mysql.Descriptors.{IsIssued, empty-IsIssued, insert-IsIssued, remove-IsIssued}
use wasmtime_mysql.Sockets.{HostSocket, HostSockets, insert_socket, guest_fd_base, new}

abbrev pub IsValid : HostSockets → Type 0
IsValid t = IsIssued guest_fd_base t.next_fd t.sockets

abbrev pub without : HostSockets → ℤ → HostSockets
without t fd = record t { sockets = remove fd t.sockets }

-- What a call does to the table: nothing, a new socket at the next descriptor, or the end of an open
-- socket.
pub data Step (t : HostSockets) : HostSockets → Type 0 where
  stays : Step t t
  inserts : (socket : HostSocket) → Step t ((insert_socket socket t).1)
  removes :
      (fd : ℤ) (socket : HostSocket) → lookup fd t.sockets ≡ some socket → Step t (without t fd)

pub new-IsValid : IsValid new
unfolding new
new-IsValid = empty-IsIssued guest_fd_base (omega arith)

-- A step keeps the table valid.
pub Step-IsValid : (t t' : HostSockets) → Step t t' → IsValid t → IsValid t'
unfolding insert_socket
Step-IsValid t t' stays v = v
Step-IsValid t t' (inserts socket) v = insert-IsIssued guest_fd_base t.next_fd t.sockets socket v
Step-IsValid t t' (removes fd socket found) v =
    remove-IsIssued guest_fd_base t.next_fd t.sockets fd v
