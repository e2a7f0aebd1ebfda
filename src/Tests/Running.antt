-- ===== src/Tests/Running.antt =====
-- A run of the process: an engine whose module imports two memories and whose program returns.
use wasmtime_mysql.Prelude.{ℕ, ◌≡◌, ◌⊎◌, refl, true, false, [], ◌∷◌, some, pos, Result, ok_or}
use wasmtime_mysql.Paths.{PathBuf, normalize_guest_path, walk, part_kind, sort_preopens}
use wasmtime_mysql.Files.{given_preopens, default_preopens}
use wasmtime_mysql.Files
use wasmtime_mysql.Sockets
use wasmtime_mysql.Runtime.Wasi.{build_wasi, preopen_dir}
use wasmtime_mysql.Runtime.Shutdown.{install_shutdown_signal_handlers}
use wasmtime_mysql.Runtime.Memories.{
  shared_memory, define_imported_memories, define_shared_memories, define_imports, define_import,
}
use wasmtime_mysql.Runtime.Start.{
  success, ◌>>=◌, or_fail, of_result, AppState, Arcs, Wasmtime, RuntimeEnv, func_wraps, prepare,
  prepare_thread, run, main, started,
}
use wasmtime_mysql.Runtime.Sharing.{Holds, thread_state}
use wasmtime_mysql.Runtime.Exit.{main_zero, EndsWell}
use wasmtime_mysql.Tests.Engine.{
  engine, env_memory, Names, imports, hook, directories, cli, calls, file_table, main_made,
}

abbrev wasmtime : Wasmtime ℕ engine
wasmtime = record {
  Engine = Unit {0};
  Module = Unit {0};
  Instance = Unit {0};
  new_engine = some tt;
  from_binary = λ e. some tt;
  imports = λ m. imports;
  new_linker = λ e. [];
  link_wasi = λ l. some l;
  func_wrap = λ l f. some l;
  define_unknown_imports_as_traps = λ l m. some l;
  new_store = λ e state. 0;
  instantiate = λ l m w. (success tt, w);
  start = λ i w. some (λ w. (success tt, w));
  thread_start = λ i w. some (λ thread_id start_arg w. (success tt, w));
}

abbrev cwd : Result PathBuf
cwd = ok_or directories.current_dir (pos 44)

abbrev state : AppState ℕ
state = record {
  wasi = calls;
  files = record { cell = 0 };
  sockets = record { cell = 0 };
  network_allowed = false;
  shutdown_requested = record { cell = 0 };
}

abbrev arcs : Arcs ℕ
arcs = record {
  files = file_table ∷ [];
  sockets = Sockets.new ∷ [];
  flags = false ∷ [];
  numbers = pos 1 ∷ [];
}

abbrev runtime : RuntimeEnv wasmtime directories hook cwd
runtime = record {
  engine = tt;
  compiled = tt;
  cli = cli;
  files = record { cell = 0 };
  sockets = record { cell = 0 };
  shutdown_requested = record { cell = 0 };
  shared = main_made.memories;
  next_thread_id = record { cell = 0 };
}

prepared :
    prepare wasmtime directories hook cwd cli ≡ success (runtime, state, main_made.linker, 2, arcs)
unfolding prepare or_fail of_result ◌>>=◌ build_wasi preopen_dir Files.new given_preopens
    default_preopens normalize_guest_path walk part_kind sort_preopens
    install_shutdown_signal_handlers define_imported_memories define_imports define_import
    func_wraps
prepared = refl

abbrev thread_linker : Names
thread_linker = (env_memory, shared_memory 0) ∷ []

-- The cells when the thread starts: a shutdown was requested.
abbrev later : Arcs ℕ
later = record arcs { flags = true ∷ []; numbers = pos 2 ∷ [] }

prepared_thread :
    prepare_thread wasmtime directories hook cwd runtime later
    ≡ success (state, thread_linker, 0, later)
unfolding prepare_thread or_fail ◌>>=◌ build_wasi preopen_dir define_shared_memories func_wraps
prepared_thread = refl

thread_state_example :
    (state ≡ state)
    × (0 ≡ wasmtime.new_store tt state)
    × (later ≡ later)
    × Holds wasmtime directories hook cwd cli state arcs
thread_state_example =
    thread_state wasmtime directories hook cwd cli runtime state state main_made.linker
      thread_linker 2 0 arcs later later prepared prepared_thread

runs : main wasmtime directories hook cwd false cli ≡ 0
unfolding run prepare or_fail of_result ◌>>=◌ build_wasi preopen_dir Files.new given_preopens
    default_preopens normalize_guest_path walk part_kind sort_preopens
    install_shutdown_signal_handlers define_imported_memories define_imports define_import
    func_wraps
runs = refl

main_zero_example :
    (false ≡ true)
    ⊎ ((r : RuntimeEnv wasmtime directories hook cwd) × (s : AppState ℕ) × (l : Names) × (w : ℕ)
        × (a : Arcs ℕ) × (prepare wasmtime directories hook cwd cli ≡ success (r, s, l, w, a))
        × EndsWell wasmtime directories hook cwd
            (started wasmtime directories hook cwd (wasmtime.instantiate l r.compiled w)))
main_zero_example = main_zero wasmtime directories hook cwd false cli runs
