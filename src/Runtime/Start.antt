-- ===== src/Runtime/Start.antt =====
-- src/main.rs, `main`, `run` and `run_wasi_thread`: how the parts are put together for the main instance
-- and for a thread. What the source shares by an `Arc` is a cell of the process: making one takes the next
-- cell, and a clone has the cell of the original.
use wasmtime_mysql.Prelude.{
  ℕ, Bool, false, not, List, [], ◌∷◌, ◌++◌, Option, none, some, if◌then◌else◌, ℤ, pos, length,
  Result, ok, err,
}
use wasmtime_mysql.Paths.{PathBuf}
use wasmtime_mysql.Files
use wasmtime_mysql.Files.{HostFiles}
use wasmtime_mysql.Sockets
use wasmtime_mysql.Sockets.{HostSockets}
use wasmtime_mysql.Runtime.{exit_code_from_i32}
use wasmtime_mysql.Runtime.Wasi.{Cli, BuilderCall, Directories, build_wasi}
use wasmtime_mysql.Runtime.Shutdown.{SignalHook, install_shutdown_signal_handlers}
use wasmtime_mysql.Runtime.Memories.{
  Key, Embedding, Import, define_imported_memories, define_shared_memories,
}

-- `Result<A>`; of an error it matters whether it is an `I32Exit`, and of which status.
pub data Attempt {ℓ} (A : Type ℓ) : Type ℓ where
  success : A → Attempt A
  failure : Option ℤ → Attempt A

infixl 20 ◌>>=◌
unfoldable pub ◌>>=◌ {ℓ κ} : {A : Type ℓ} {B : Type κ} → Attempt A → (A → Attempt B) → Attempt B
success a >>= f = f a
failure e >>= f = failure e

-- `?` of an error that is no `I32Exit`.
unfoldable pub or_fail {ℓ} : {A : Type ℓ} → Option A → Attempt A
or_fail none = failure none
or_fail (some a) = success a

unfoldable pub of_result {ℓ} : {A : Type ℓ} → Result A → Attempt A
of_result (err e) = failure none
of_result (ok a) = success a

-- The functions that are linked, by the source's names.
pub data HostFunction : Type 0 where
  file_open file_close file_pread file_pwrite file_seek file_truncate file_sync : HostFunction
  file_sync_parent file_lock_exclusive : HostFunction
  socket_socket socket_bind socket_listen socket_accept socket_connect : HostFunction
  socket_getsockname socket_getpeername socket_setsockopt socket_getsockopt : HostFunction
  socket_send socket_recv socket_sendto socket_recvfrom socket_shutdown socket_close : HostFunction
  socket_fcntl socket_poll : HostFunction
  runtime_request_shutdown runtime_shutdown_requested thread_spawn : HostFunction

abbrev pub file_functions : List HostFunction
file_functions =
    file_open ∷ file_close ∷ file_pread ∷ file_pwrite ∷ file_seek ∷ file_truncate ∷ file_sync
    ∷ file_sync_parent ∷ file_lock_exclusive ∷ []

abbrev pub socket_functions : List HostFunction
socket_functions =
    socket_socket ∷ socket_bind ∷ socket_listen ∷ socket_accept ∷ socket_connect
    ∷ socket_getsockname ∷ socket_getpeername ∷ socket_setsockopt ∷ socket_getsockopt ∷ socket_send
    ∷ socket_recv ∷ socket_sendto ∷ socket_recvfrom ∷ socket_shutdown ∷ socket_close ∷ socket_fcntl
    ∷ socket_poll ∷ []

pub record Arc (A : Type 0) : Type 0 where
  pub cell : ℕ

-- The cells, each kind in the order in which they were made: the tables, the flags, and the counters of
-- thread numbers.
pub record Arcs (File : Type 0) : Type 0 where
  pub files : List (HostFiles File)
  pub sockets : List HostSockets
  pub flags : List Bool
  pub numbers : List ℤ

module _ {File : Type 0} where
  abbrev pub no_arcs : Arcs File
  no_arcs = record { files = []; sockets = []; flags = []; numbers = [] }

  abbrev pub new_files : HostFiles File → Arcs File → Arc (HostFiles File) × Arcs File
  new_files table arcs =
      (record { cell = length arcs.files }, record arcs { files = arcs.files ++ (table ∷ []) })

  abbrev pub new_sockets : HostSockets → Arcs File → Arc HostSockets × Arcs File
  new_sockets table arcs = (
    record { cell = length arcs.sockets },
    record arcs { sockets = arcs.sockets ++ (table ∷ []) },
  )

  abbrev pub new_flag : Bool → Arcs File → Arc Bool × Arcs File
  new_flag flag arcs =
      (record { cell = length arcs.flags }, record arcs { flags = arcs.flags ++ (flag ∷ []) })

  abbrev pub new_number : ℤ → Arcs File → Arc ℤ × Arcs File
  new_number n arcs =
      (record { cell = length arcs.numbers }, record arcs { numbers = arcs.numbers ++ (n ∷ []) })

pub record AppState (File : Type 0) : Type 0 where
  pub wasi : List BuilderCall
  pub files : Arc (HostFiles File)
  pub sockets : Arc HostSockets
  pub network_allowed : Bool
  pub shutdown_requested : Arc Bool

-- What the source uses of the engine besides its memories; a call of the guest returns, exits or traps.
pub record Wasmtime (File : Type 0) (memories : Embedding) : Type 1 where
  pub Engine : Type 0
  pub Module : Type 0
  pub Instance : Type 0
  pub new_engine : Option Engine
  pub from_binary : Engine → Option Module
  pub imports : Module → List (Import memories.MemoryType)
  pub new_linker : Engine → memories.Linker
  pub link_wasi : memories.Linker → Option memories.Linker
  pub func_wrap : memories.Linker → HostFunction → Option memories.Linker
  pub define_unknown_imports_as_traps : memories.Linker → Module → Option memories.Linker
  pub new_store : Engine → AppState File → memories.World
  pub instantiate : memories.Linker → Module → memories.World → Attempt Instance × memories.World
  -- `_start` with no argument, `wasi_thread_start` with two; nothing where it is not exported.
  pub start :
      Instance → memories.World → Option (memories.World → Attempt (Unit {0}) × memories.World)
  pub thread_start :
      Instance
      → memories.World
      → Option (ℤ → ℤ → memories.World → Attempt (Unit {0}) × memories.World)

module _ {File : Type 0} {memories : Embedding} (engine_of : Wasmtime File memories)
    (os : Directories) (hook : SignalHook) (cwd : Result PathBuf) where
  open memories use {World, Linker, Shared}
  open engine_of use {Engine, Module}

  pub record RuntimeEnv : Type 0 where
    pub engine : Engine
    pub compiled : Module
    pub cli : Cli
    pub files : Arc (HostFiles File)
    pub sockets : Arc HostSockets
    pub shutdown_requested : Arc Bool
    pub shared : List (Key × Shared)
    pub next_thread_id : Arc ℤ

  unfoldable pub func_wraps : List HostFunction → Linker → Option Linker
  func_wraps [] linker = some linker
  func_wraps (f ∷ fs) linker = elim (engine_of.func_wrap linker f) [
    | none ↦ none
    | some linker' ↦ func_wraps fs linker'
  ]

  abbrev pub with_host_functions : Option Linker → Option Linker
  with_host_functions none = none
  with_host_functions (some linker) =
      func_wraps
        (file_functions
          ++ socket_functions
          ++ (runtime_request_shutdown ∷ runtime_shutdown_requested ∷ []))
        linker

  abbrev pub build_base_linker : Engine → Option Linker
  build_base_linker engine = with_host_functions (engine_of.link_wasi (engine_of.new_linker engine))

  abbrev pub define_wasi_thread_spawn : Linker → Option Linker
  define_wasi_thread_spawn linker = engine_of.func_wrap linker thread_spawn

  -- `run` up to its instance: the runtime, the state of the store, the linker, the store and the cells.
  unfoldable pub prepare : Cli → Attempt (RuntimeEnv × AppState File × Linker × World × Arcs File)
  prepare cli = do
    engine ← or_fail engine_of.new_engine
    compiled ← or_fail (engine_of.from_binary engine)
    wasi ← or_fail (build_wasi os cli)
    table ← of_result (Files.new cli.no_default_preopen cli.preopens cwd)
    let files = new_files table no_arcs
    let sockets = new_sockets Sockets.new files.1
    let shutdown_requested = new_flag false sockets.1
    registrations ← or_fail (install_shutdown_signal_handlers hook)
    linker ← or_fail (build_base_linker engine)
    let state : AppState File = record {
      wasi = wasi;
      files = files.0;
      sockets = sockets.0;
      network_allowed = not cli.no_network;
      shutdown_requested = shutdown_requested.0;
    }
    defined ← or_fail (
        define_imported_memories memories (engine_of.imports compiled) linker
          (engine_of.new_store engine state))
    let next_thread_id = new_number (pos 1) shutdown_requested.1
    let runtime : RuntimeEnv = record {
      engine = engine;
      compiled = compiled;
      cli = cli;
      files = files.0;
      sockets = sockets.0;
      shutdown_requested = shutdown_requested.0;
      shared = defined.memories;
      next_thread_id = next_thread_id.0;
    }
    spawning ← or_fail (define_wasi_thread_spawn defined.linker)
    linked ← or_fail (engine_of.define_unknown_imports_as_traps spawning compiled)
    success (runtime, state, linked, defined.store, next_thread_id.1)

  -- `_start`, once the module has an instance.
  abbrev pub started : Attempt engine_of.Instance × World → Attempt (Unit {0})
  started (failure e, w) = failure e
  started (success instance, w) = do start ← or_fail (engine_of.start instance w); (start w).0

  -- With `--show-embedded-source` only the source's name is printed.
  unfoldable pub run : Bool → Cli → Attempt (Unit {0})
  run show_embedded_source cli =
      if show_embedded_source
      then success tt
      else (prepare cli >>= λ (runtime, state, linker, w, arcs).
          started (engine_of.instantiate linker runtime.compiled w))

  abbrev pub exit_code : Attempt (Unit {0}) → ℕ
  exit_code (success u) = 0
  exit_code (failure none) = 1
  exit_code (failure (some status)) = exit_code_from_i32 status

  abbrev pub main : Bool → Cli → ℕ
  main show_embedded_source cli = exit_code (run show_embedded_source cli)

  -- `run_wasi_thread` up to its instance, where the process has the cells `arcs`.
  unfoldable pub prepare_thread :
      RuntimeEnv → Arcs File → Attempt (AppState File × Linker × World × Arcs File)
  prepare_thread runtime arcs = do
    linker ← or_fail (build_base_linker runtime.engine)
    wasi ← or_fail (build_wasi os runtime.cli)
    let state : AppState File = record {
      wasi = wasi;
      files = runtime.files;
      sockets = runtime.sockets;
      network_allowed = not runtime.cli.no_network;
      shutdown_requested = runtime.shutdown_requested;
    }
    sharing ← or_fail (define_shared_memories memories linker runtime.shared)
    spawning ← or_fail (define_wasi_thread_spawn sharing)
    linked ← or_fail (engine_of.define_unknown_imports_as_traps spawning runtime.compiled)
    success (state, linked, engine_of.new_store runtime.engine state, arcs)

  -- An exit of a thread is its end.
  abbrev pub thread_ended : Attempt (Unit {0}) → Attempt (Unit {0})
  thread_ended (success u) = success u
  thread_ended (failure (some status)) = success tt
  thread_ended (failure none) = failure none

  abbrev pub thread_started : ℤ → ℤ → Attempt engine_of.Instance × World → Attempt (Unit {0})
  thread_started thread_id start_arg (failure e, w) = failure e
  thread_started thread_id start_arg (success instance, w) = do
    start ← or_fail (engine_of.thread_start instance w)
    thread_ended (start thread_id start_arg w).0

  unfoldable pub run_wasi_thread : RuntimeEnv → Arcs File → ℤ → ℤ → Attempt (Unit {0})
  run_wasi_thread runtime arcs thread_id start_arg = do
    (state, linker, w, made) ← prepare_thread runtime arcs
    thread_started thread_id start_arg (engine_of.instantiate linker runtime.compiled w)
