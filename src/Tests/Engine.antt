-- ===== src/Tests/Engine.antt =====
-- An engine to run on: linkers are association lists, and memories are numbered as they are made.
use wasmtime_mysql.Prelude.{
  ℕ, suc, ◌≡◌, refl, subst, Bool, true, false, List, [], ◌∷◌, Option, none, some, if◌then◌else◌,
  pos, ok, ok_or, not,
}
use wasmtime_mysql.Runtime.Memories.{
  Key, eq_key, MemoryExtern, shared_memory, plain_memory, Embedding, Import, Defining,
  define_imported_memories, define_shared_memories, define_imports, define_import,
}
use wasmtime_mysql.Runtime.Names.{KeepsNames, eq_key_refl}
use wasmtime_mysql.Runtime.Shutdown.{
  Registration, conditional_shutdown, sets_flag, running, exited, SignalHook,
  install_shutdown_signal_handlers, terminate, request, interrupt, run_events, actions, RunsInOrder,
  has_interrupt, run_events_lem,
}
use mathlib.Core.List.{Perm}
use wasmtime_mysql.Paths.{root_dir, normal, normalize_guest_path, walk, part_kind, sort_preopens}
use wasmtime_mysql.Files.{HostFiles, new, given_preopens, default_preopens}
use wasmtime_mysql.Runtime.Wasi.{
  Directories, Cli, BuilderCall, inherit_stdio, allow_blocking_current_thread, inherit_env,
  set_args, program, preopened_dir, initial_cwd, build_wasi, preopen_dir,
}
use wasmtime_mysql.Runtime.Grants.{mapped, hosts, grants_network, build_wasi-new}
use wasmtime_mysql.Runtime.Kinds.{
  Finds, first_memory, define_shared_memories-define_imported_memories,
}

abbrev pub Names : Type 0
Names = List (Key × MemoryExtern ℕ ℕ)

abbrev pub named : Names → Key → Option (MemoryExtern ℕ ℕ)
named [] k = none
named ((j, x) ∷ l) k = if eq_key j k then some x else named l k

abbrev pub engine : Embedding
engine = record {
  World = ℕ;
  MemoryType = Bool;
  Shared = ℕ;
  Plain = ℕ;
  Linker = Names;
  is_shared = λ b. b;
  new_shared = λ ty w. (some w, suc w);
  new_memory = λ ty w. (some w, suc w);
  define = λ l k x. some ((k, x) ∷ l);
}

some_inj {ℓ} : {A : Type ℓ} {a b : A} → some a ≡ some b → a ≡ b
some_inj e = cc

engine-KeepsNames : KeepsNames engine
engine-KeepsNames = record {
  named = named;
  defined = λ l l' k x e. subst (λ a. named a k ≡ some x) (some_inj e) (rw (eq_key_refl k) refl);
  kept = λ l l' k j x e n. subst (λ a. named a j ≡ named l j) (some_inj e) (rw n refl);
}

abbrev pub env_memory : Key
env_memory = (b'e' ∷ [], b'm' ∷ [])

abbrev other_memory : Key
other_memory = (b'e' ∷ [], b'n' ∷ [])

-- A shared memory that is imported twice, a function, and a plain memory.
abbrev pub imports : List (Import Bool)
imports =
    record { key = env_memory; memory = some true }
    ∷ record { key = env_memory; memory = none }
    ∷ record { key = env_memory; memory = some true }
    ∷ record { key = other_memory; memory = some false }
    ∷ []

abbrev pub main_made : Defining engine
main_made = record {
  seen = other_memory ∷ env_memory ∷ [];
  memories = (env_memory, 0) ∷ [];
  linker = (other_memory, plain_memory 1) ∷ (env_memory, shared_memory 0) ∷ [];
  store = 2;
}

main_made_lem : define_imported_memories engine imports [] 0 ≡ some main_made
unfolding define_imported_memories define_imports define_import
main_made_lem = refl

again_lem :
    define_shared_memories engine [] main_made.memories ≡ some ((env_memory, shared_memory 0) ∷ [])
unfolding define_shared_memories
again_lem = refl

env_first : first_memory engine engine-KeepsNames imports env_memory ≡ some true
unfolding first_memory
env_first = refl

define_shared_memories-define_imported_memories_example :
    Finds engine engine-KeepsNames true main_made.linker
      ((env_memory, shared_memory 0) ∷ [])
      env_memory
define_shared_memories-define_imported_memories_example =
    define_shared_memories-define_imported_memories engine engine-KeepsNames imports [] []
      ((env_memory, shared_memory 0) ∷ []) 0 main_made main_made_lem again_lem env_memory true
      env_first

abbrev pub hook : SignalHook
hook = record { can_register = λ r. true; dispatch = actions; sigint = pos 2; sigterm = pos 15 }

hook-RunsInOrder : RunsInOrder hook
hook-RunsInOrder = record { in_order = λ rs signal flag. refl; apart = refl }

abbrev handlers : List Registration
handlers = conditional_shutdown (pos 2) (pos 1) ∷ sets_flag (pos 2) ∷ sets_flag (pos 15) ∷ []

installed : install_shutdown_signal_handlers hook ≡ some handlers
unfolding install_shutdown_signal_handlers
installed = refl

run_events_lem_example :
    run_events hook handlers (terminate ∷ request ∷ interrupt ∷ []) (running false)
    ≡ (if has_interrupt (request ∷ interrupt ∷ []) then exited (pos 1) else running true)
run_events_lem_example =
    run_events_lem hook hook-RunsInOrder handlers installed terminate (request ∷ interrupt ∷ [])

abbrev pub directories : Directories
directories = record {
  is_dir = λ p. true;
  current_dir = some (root_dir ∷ []);
  can_preopen = λ host guest. true;
}

-- --no-network, and one directory beside the current one.
abbrev pub cli : Cli
cli = record {
  no_default_preopen = false;
  no_inherit_env = false;
  no_network = true;
  preopens = record { host = root_dir ∷ normal (b'd' ∷ []) ∷ []; guest = b'd' ∷ [] } ∷ [];
  env = [];
  guest_args = [];
}

abbrev pub calls : List BuilderCall
calls =
    inherit_stdio
    ∷ allow_blocking_current_thread true
    ∷ inherit_env
    ∷ set_args (program ∷ [])
    ∷ preopened_dir (root_dir ∷ []) (b'.' ∷ [])
    ∷ initial_cwd (b'.' ∷ [])
    ∷ preopened_dir (root_dir ∷ normal (b'd' ∷ []) ∷ []) (b'd' ∷ [])
    ∷ []

abbrev pub file_table : HostFiles ℕ
file_table = record {
  next_fd = 20000;
  files = [];
  preopens =
      record { guest = b'.' ∷ []; host = root_dir ∷ [] }
      ∷ record { guest = b'd' ∷ []; host = root_dir ∷ normal (b'd' ∷ []) ∷ [] }
      ∷ [];
}

built : build_wasi directories cli ≡ some calls
unfolding build_wasi preopen_dir
built = refl

opened : new false cli.preopens (ok_or directories.current_dir (pos 44)) ≡ ok file_table
unfolding new given_preopens default_preopens normalize_guest_path walk part_kind sort_preopens
opened = refl

build_wasi-new_example :
    Perm (mapped file_table.preopens) (hosts calls) × (grants_network calls ≡ not cli.no_network)
build_wasi-new_example = build_wasi-new directories cli (pos 44) calls file_table built opened
