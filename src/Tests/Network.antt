-- ===== src/Tests/Network.antt =====
-- Runs of the socket calls: a table with one socket, on the network where every call succeeds.
use wasmtime_mysql.Prelude.{
  ◌<◌, ◌≡◌, refl, true, false, List, [], ◌∷◌, arith, none, ℤ, insert, remove, pos, ok, lookup,
  neg_errno, done, length, All, ◌*◌, ◌/◌,
}
use wasmtime_mysql.Errno.{ebadf}
use wasmtime_mysql.Guest.{Bytes, Export, memory, read_guest}
use wasmtime_mysql.Guest.Frame.{contents}
use wasmtime_mysql.Sockets.{
  HostSocket, HostSockets, new, insert_socket, normalize_socket_type, normalize_socket_domain,
  checked_poll_count, configure_socket_type_flags, remove_socket,
}
use wasmtime_mysql.Sockets.Host.{PollFd, Filled}
use wasmtime_mysql.Sockets.Calls.{
  Caller, call_socket, call_recv, call_poll, call_close, poll_entries, chunks,
}
use wasmtime_mysql.Sockets.Table.{IsValid}
use wasmtime_mysql.Sockets.History.{
  Call, socket, bind, close, run, perform, table_after, run_sockets-IsValid, perform_unknown_socket,
}
use wasmtime_mysql.Sockets.Changes.{Change, perform-Change}
use wasmtime_mysql.Sockets.Receive.{Delivery, call_recv-Delivery}
use wasmtime_mysql.Sockets.Poll.{Answered, call_poll-Answered}
use wasmtime_mysql.Sockets.Offline.{run_offline}
use wasmtime_mysql.Tests.Machine.{linux, network, network-PollsInPlace, network-ReceivesWithin}

abbrev listener : HostSocket
listener = record { raw_fd = pos 5; guest_domain = pos 1; host_domain = pos 2 }

abbrev table : HostSockets
table = record { next_fd = 10001; sockets = (pos 10000, listener) ∷ [] }

-- A word at 4 that gives room for four bytes.
abbrev guest_memory : Export
guest_memory = memory (0 ∷ 0 ∷ 0 ∷ 0 ∷ 4 ∷ 0 ∷ 0 ∷ 0 ∷ [])

unknown : lookup (pos 3) table.sockets ≡ none
unfolding lookup
unknown = refl

abbrev nothing_closed : List ℤ
nothing_closed = []

abbrev caller : Caller linux network
caller = (guest_memory, (table, nothing_closed))

abbrev name_filled : Filled
name_filled = record { buffer = 9 ∷ 9 ∷ 9 ∷ 9 ∷ []; reported = 4 }

stream :
    normalize_socket_type linux network (pos 6)
    ≡ ok (record { ty = pos 1; close_on_exec = false; nonblocking = false })
unfolding normalize_socket_type
stream = refl

inet : normalize_socket_domain linux network (pos 1) ≡ pos 2
unfolding normalize_socket_domain
inet = refl

call_recv-Delivery_example :
    (answer : ℤ) × (mem' : Export) × (w' : List ℤ) × (call_recv linux network
        (pos 10000)
        (pos 1)
        (pos 3)
        (pos 0)
        caller
      ≡ done (answer, (mem', (table, w'))))
    × Delivery linux network
        (pos 10000)
        (pos 1)
        (pos 3)
        (pos 0)
        guest_memory
        table
        nothing_closed
        answer
        mem'
call_recv-Delivery_example =
    call_recv-Delivery linux network network-ReceivesWithin (pos 10000) (pos 1) (pos 3) (pos 0)
      guest_memory table nothing_closed

-- One entry: the descriptor 10000 with the event 1.
abbrev poll_bytes : Bytes
poll_bytes = 0x10 ∷ 0x27 ∷ 0 ∷ 0 ∷ 1 ∷ 0 ∷ 0 ∷ 0 ∷ []

abbrev poll_memory : Export
poll_memory = memory poll_bytes

abbrev asked_fds : List PollFd
asked_fds = record { fd = pos 5; events = 1; revents = 0 } ∷ []

abbrev ready_fds : List PollFd
ready_fds = record { fd = pos 5; events = 1; revents = 1 } ∷ []

one_entry : checked_poll_count (pos 1) ≡ ok 1
unfolding checked_poll_count
one_entry = refl

read_entries : read_guest poll_memory (pos 0) (pos (1 * 8)) ≡ ok poll_bytes
unfolding read_guest
read_entries = refl

known_entries : poll_entries table (chunks (length poll_bytes / 8) poll_bytes) ≡ ok asked_fds
unfolding poll_entries lookup
known_entries = refl

call_poll-Answered_example :
    (mem' : Export) × (call_poll linux network
        (pos 0)
        (pos 1)
        (pos 0)
        (poll_memory, (table, nothing_closed))
      ≡ (pos 1, (mem', (table, nothing_closed))))
    × Answered 0 0 ready_fds (contents poll_memory) (contents mem')
    × (length ready_fds ≡ 1)
call_poll-Answered_example =
    call_poll-Answered linux network 0 (pos 1) (pos 0) poll_memory table nothing_closed 1 1
      poll_bytes asked_fds ready_fds nothing_closed one_entry read_entries known_entries refl
      (omega arith) network-PollsInPlace

perform-Change_example :
    Change
      (close (pos 10000))
      table
      (table_after linux network true table (perform linux network true (close (pos 10000)) caller))
perform-Change_example =
    perform-Change linux network true (close (pos 10000)) guest_memory table nothing_closed

perform_unknown_socket_example :
    perform linux network true (bind (pos 3) (pos 0) (pos 4)) caller
    ≡ done (neg_errno ebadf, caller)
perform_unknown_socket_example =
    perform_unknown_socket linux network true (bind (pos 3) (pos 0) (pos 4)) (pos 3) guest_memory
      table nothing_closed refl unknown

abbrev script : List Call
script = socket (pos 1) (pos 6) (pos 0) ∷ close (pos 10000) ∷ []

ran :
    run linux network true script (guest_memory, (new, nothing_closed))
    ≡ done (guest_memory, (record { next_fd = 10001; sockets = [] }, pos 7 ∷ []))
unfolding run new call_socket call_close normalize_socket_type normalize_socket_domain
    configure_socket_type_flags insert_socket insert remove lookup remove_socket
ran = refl

run_sockets-IsValid_example : IsValid (record { next_fd = 10001; sockets = [] })
run_sockets-IsValid_example =
    run_sockets-IsValid linux network true script guest_memory guest_memory
      (record { next_fd = 10001; sockets = [] }) nothing_closed (pos 7 ∷ []) ran

ran_offline :
    run linux network false script (guest_memory, (new, nothing_closed))
    ≡ done (guest_memory, (new, nothing_closed))
unfolding run new call_socket call_close normalize_socket_type normalize_socket_domain
    configure_socket_type_flags insert_socket insert remove lookup remove_socket
ran_offline = refl

run_offline_example : new {Socket = HostSocket} ≡ new
run_offline_example =
    run_offline linux network script guest_memory guest_memory new nothing_closed nothing_closed
      ran_offline

-- A guest's address of family 1, port 80.
abbrev address : Bytes
address = 1 ∷ 0 ∷ 0 ∷ 80 ∷ []

address-All : All (λ b. b < 256) address
address-All = (omega arith, (omega arith, (omega arith, (omega arith, tt))))
