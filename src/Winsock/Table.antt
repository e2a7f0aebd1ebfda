-- ===== src/Winsock/Table.antt =====
-- The table of the Windows build, and the steps that change it.
use wasmtime_mysql.Prelude.{◌≡◌, arith, some, ℤ, insert, remove, lookup}
use wasmtime_mysql.Descriptors.{
  IsIssued, empty-IsIssued, insert-IsIssued, remove-IsIssued, replace-IsIssued,
}
use wasmtime_mysql.Sockets.{insert_socket, guest_fd_base, new}
use wasmtime_mysql.Winsock.{WinSocket, WinSockets}

abbrev pub IsValid : WinSockets → Type 0
IsValid t = IsIssued guest_fd_base t.next_fd t.sockets

abbrev pub without : WinSockets → ℤ → WinSockets
without t fd = record t { sockets = remove fd t.sockets }

abbrev pub with_flags : WinSockets → ℤ → WinSocket → ℤ → WinSockets
with_flags t fd socket flags = record t {
  sockets = insert fd (record socket { status_flags = flags }) t.sockets;
}

-- What a call does to the table: nothing, a new socket at the next descriptor, the end of an open
-- socket, or other status flags of one.
pub data Step (t : WinSockets) : WinSockets → Type 0 where
  stays : Step t t
  inserts : (socket : WinSocket) → Step t ((insert_socket socket t).1)
  removes :
      (fd : ℤ) (socket : WinSocket) → lookup fd t.sockets ≡ some socket → Step t (without t fd)
  changes :
      (fd flags : ℤ) (socket : WinSocket)
      → lookup fd t.sockets ≡ some socket
      → Step t (with_flags t fd socket flags)

pub new-IsValid : IsValid new
unfolding new
new-IsValid = empty-IsIssued guest_fd_base (omega arith)

-- A step keeps the table valid.
pub Step-IsValid : (t t' : WinSockets) → Step t t' → IsValid t → IsValid t'
unfolding insert_socket
Step-IsValid t t' stays v = v
Step-IsValid t t' (inserts socket) v = insert-IsIssued guest_fd_base t.next_fd t.sockets socket v
Step-IsValid t t' (removes fd socket found) v =
    remove-IsIssued guest_fd_base t.next_fd t.sockets fd v
Step-IsValid t t' (changes fd flags socket found) v =
    replace-IsIssued guest_fd_base t.next_fd t.sockets fd socket _ found v
