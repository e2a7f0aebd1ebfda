-- ===== src/Lib.antt =====
-- The host side of the wasmtime-mysql runner: the calls by which a MySQL server in WebAssembly reaches
-- the files and the sockets of the machine that it runs on.
--
-- The parts and where they are modelled:
--   * Errno (src/guest_errno.rs): the guest's error numbers as constants, `from_host_errno` over a record
--     of the host's numbers, and `from_windows_error`. Errno/Table has the same translation as a table.
--   * Guest (src/host_files.rs and, with the same text, src/host_sockets.rs): the guest's memory is the
--     list of its bytes, plain or shared between threads; `checked_range`, `read_guest`, `write_guest`,
--     `read_cstr`, `read_u32` and `write_u32` are its accesses. Their loops over shared cells are
--     recursive functions of their own. `usize` has 64 bits.
--   * Paths (src/host_files.rs): `normalize_guest_path`, `resolve` and `resolve_parent` of `HostFiles`,
--     `join_suffix`, and the sort of the preopens; Paths/Covers says which paths a preopen covers. A text
--     is the list of its bytes, a host path the list of its components.
--   * Files (src/host_files.rs): the table of open files (`HostFilesInner`) and the methods of
--     `HostFiles`, each a function from a state, which is the table and the state of the file system, to
--     an answer and a state. Files/Host is the file system, a parameter; Files/Calls has the imports of
--     `add_to_linker`, which go between the guest's memory and the methods.
--   * Sockets (src/host_sockets.rs): the table of sockets (`HostSocketsInner`), the conversions of
--     constants and addresses, and in Sockets/Calls every import of `add_to_linker`. Sockets/Host is the
--     C library's network, a parameter. Sockets/Threads has each import as a program of its parts, and
--     in Sockets/Threads/System the steps of the threads that share the sockets. Sockets/Changes says what
--     each import does to the table.
--   * Descriptors: what the tables of files and sockets share, the descriptors that were given out.
--   * Locks (src/host_files.rs on Windows): opening and closing files, in Locks/Access the calls on open
--     files, `lock_exclusive` with `windows_lock_name`, the drop of the locks and `sync_directory`.
--     Locks/Host is Windows as one process sees it, with the documented behaviour of named objects,
--     whose `Local\` names are those of one Windows session; Locks/System are the processes of one
--     session, as a step relation. The code units of a path in upper case are a parameter.
--   * Winsock (src/host_sockets_windows.rs): the status flags, the conversions of options, events,
--     time-outs and error codes, and in Winsock/Calls every import of `add_to_linker`, over the table of
--     src/host_sockets.rs. Winsock/Host is WinSock, a parameter.
--   * Runtime (src/main.rs): the parsers of "HOST=GUEST" and "KEY=VALUE", the exit code, and the numbers
--     that `spawn_wasi_thread` gives out, where a Boolean says whether the host started the thread.
--     Runtime/Memories has `define_imported_memories` and `define_shared_memories`, Runtime/Wasi the calls
--     of the builder in `build_wasi`, Runtime/Shutdown the flag that signals and the guest set, and
--     Runtime/Start `main`, `run` and `run_wasi_thread`, which put the parts together. What these share
--     by an `Arc` is a numbered cell of the process, and a clone has the cell of the original. The engine
--     is a parameter.
--   * Build (build.rs): which module is embedded, over the environment and the files as a parameter.
--   * Prelude: Booleans on native numbers, lists, signed integers, errors as values, and tables.
--   * Tests: a concrete host, and every result applied to it.
--
-- The parts interact through the numbers and the memory only: a call reads its arguments from the
-- memory, asks its table for a descriptor, asks the host, writes to the memory, and answers a number.
-- A number below 0 is the negation of a guest errno. An early return of the source is an `err`; a slice
-- that can panic is an `Outcome`. A call is one step, and sequences of calls are lists (Files/History,
-- Sockets/History). Several threads share the sockets of src/host_sockets.rs, which holds the table's lock
-- around each access of the table only; in Sockets/Threads each access of the table, of the memory and of
-- the host is a part of its own, and the parts of calls on different threads come in any order. For the
-- calls of the files and those of the Windows build, what other threads do between two accesses of one
-- call is not modelled.
--
-- The host is a parameter: the error numbers (HostErrno), the file system (FileSystem) and the network
-- (Net), and for the Windows build Windows and WinSock. What a result asks of them is a hypothesis of
-- its own: `ReadsWithin` and `ReceivesWithin` (a read leaves the buffer's length and reports no more than
-- it), `PollsInPlace` (poll fills in the entries that it is given), `KeepsSockets` (socket and accept make
-- a descriptor that was not in use, close ends it, and the other calls leave the open sockets alone),
-- `NamesObjects` (in a session a name has one object and making it again is reported),
-- `HasHeaderEvents` (the numbers of WinSock's header), `KeepsNames` (a linker finds what was
-- defined), `RunsInOrder` (a signal runs its actions in order). All loops of the source run over
-- lists, so no fuel is needed.
--
-- The model is that of a host with little-endian order of bytes, built without overflow checks. The next
-- descriptor of a table is an `i32` that stops at its maximum.
--
-- Not modelled: the backslash in the paths of the Windows build; the parser of the command line, which
-- is clap's, and what is printed; the scripts.
pub mod Prelude
pub mod Errno
pub mod Guest
pub mod Descriptors
pub mod Paths
pub mod Files
pub mod Sockets
pub mod Locks
pub mod Winsock
pub mod Runtime
pub mod Build
pub mod Tests
