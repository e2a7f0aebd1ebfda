-- ===== src/Runtime/Sharing.antt =====
-- What the threads of the guest share with its main instance.
use wasmtime_mysql.Prelude.{
  ◌≡◌, refl, sym, ◌∙◌, not, subst, ap, Option, none, some, Result, ok, err, get_elem?, false,
}
use wasmtime_mysql.Paths.{PathBuf}
use wasmtime_mysql.Files
use wasmtime_mysql.Files.{HostFiles}
use wasmtime_mysql.Sockets
use wasmtime_mysql.Runtime.Wasi.{Cli, Directories, build_wasi}
use wasmtime_mysql.Runtime.Shutdown.{SignalHook}
use wasmtime_mysql.Runtime.Memories.{Embedding}
use wasmtime_mysql.Runtime.Start.{
  Attempt, success, ◌>>=◌, or_fail, of_result, Arcs, AppState, Wasmtime, RuntimeEnv, prepare,
  prepare_thread,
}

bind_result {ℓ κ} :
    {A : Type ℓ} {B : Type κ} (m : Result A) (f : A → Attempt B) (b : B)
    → (of_result m >>= f) ≡ success b
    → (a : A) × (m ≡ ok a) × (f a ≡ success b)
unfolding of_result ◌>>=◌
bind_result (ok a) f b e = (a, refl, e)
bind_result (err x) f b e = absurd cc

bind_some {ℓ κ} :
    {A : Type ℓ} {B : Type κ} (m : Option A) (f : A → Attempt B) (b : B)
    → (or_fail m >>= f) ≡ success b
    → (a : A) × (m ≡ some a) × (f a ≡ success b)
unfolding or_fail ◌>>=◌
bind_some (some a) f b e = (a, refl, e)
bind_some none f b e = absurd cc

success_injective {ℓ} : {A : Type ℓ} {a b : A} → success a ≡ success b → a ≡ b
success_injective e = cc

some_injective {ℓ} : {A : Type ℓ} {a b : A} → some a ≡ some b → a ≡ b
some_injective e = cc

same_state :
    {File : Type 0} (a b : AppState File)
    → a.wasi ≡ b.wasi
    → a.files ≡ b.files
    → a.sockets ≡ b.sockets
    → a.network_allowed ≡ b.network_allowed
    → a.shutdown_requested ≡ b.shutdown_requested
    → a ≡ b
same_state a b e f g h k = cc

module _ {File : Type 0} {memories : Embedding} (engine_of : Wasmtime File memories)
    (os : Directories) (hook : SignalHook) (cwd : Result PathBuf) where
  open memories use {World, Linker}

  -- What the runtime keeps for its threads, of the state of the main instance.
  pub record Fits (runtime : RuntimeEnv engine_of os hook cwd) (state : AppState File)
      : Type 0 where
    pub wasi : build_wasi os runtime.cli ≡ some state.wasi
    pub files : runtime.files ≡ state.files
    pub sockets : runtime.sockets ≡ state.sockets
    pub network : not runtime.cli.no_network ≡ state.network_allowed
    pub flag : runtime.shutdown_requested ≡ state.shutdown_requested

  -- The tables and the flag that the process begins with, in their cells.
  pub record Holds (cli : Cli) (state : AppState File) (arcs : Arcs File) : Type 0 where
    pub table : HostFiles File
    pub table_made : Files.new cli.no_default_preopen cli.preopens cwd ≡ ok table
    pub files : get_elem? arcs.files state.files.cell ≡ some table
    pub sockets : get_elem? arcs.sockets state.sockets.cell ≡ some Sockets.new
    pub flag : get_elem? arcs.flags state.shutdown_requested.cell ≡ some false

  prepare-Fits :
      (cli : Cli) (runtime : RuntimeEnv engine_of os hook cwd) (state : AppState File)
      (linker : Linker) (w : World) (arcs : Arcs File)
      → prepare engine_of os hook cwd cli ≡ success (runtime, state, linker, w, arcs)
      → Fits runtime state × Holds cli state arcs
  unfolding prepare
  prepare-Fits cli runtime state linker w arcs e =
      let (engine, e1, r1) = bind_some _ _ _ e in
      let (compiled, e2, r2) = bind_some _ _ _ r1 in
      let (wasi, e3, r3) = bind_some _ _ _ r2 in
      let (table, e4, r4) = bind_result _ _ _ r3 in
      let (registrations, e5, r5) = bind_some _ _ _ r4 in
      let (base, e6, r6) = bind_some _ _ _ r5 in
      let (defined, e7, r7) = bind_some _ _ _ r6 in
      let (spawning, e8, r8) = bind_some _ _ _ r7 in
      let (linked, e9, r9) = bind_some _ _ _ r8 in
      subst
        (λ (p : RuntimeEnv engine_of os hook cwd × AppState File × Linker × World × Arcs File).
          Fits p.0 p.1 × Holds cli p.1 p.4)
        (success_injective r9)
        (
          record { wasi = e3; files = refl; sockets = refl; network = refl; flag = refl },
          record { table = table; table_made = e4; files = refl; sockets = refl; flag = refl },
        )

  -- A thread that gets as far as its instance has the state of the main instance: the same grants of
  -- WASI, the cells of its tables and of its flag, and the network only where that one has it; its store
  -- is made with that state, and no table or flag is made for it. The cells are those that the main
  -- instance's table of files, empty table of sockets and unset flag were put into. The directories are
  -- taken to be the same at both times.
  pub thread_state :
      (cli : Cli) (runtime : RuntimeEnv engine_of os hook cwd) (state state' : AppState File)
      (linker linker' : Linker) (w w' : World) (arcs arcs1 arcs' : Arcs File)
      → prepare engine_of os hook cwd cli ≡ success (runtime, state, linker, w, arcs)
      → prepare_thread engine_of os hook cwd runtime arcs1 ≡ success (state', linker', w', arcs')
      → (state' ≡ state)
        × (w' ≡ engine_of.new_store runtime.engine state)
        × (arcs' ≡ arcs1)
        × Holds cli state' arcs
  unfolding prepare_thread
  thread_state cli runtime state state' linker linker' w w' arcs arcs1 arcs' e f =
      let (fits, holds) = prepare-Fits cli runtime state linker w arcs e in
      let (base, e1, r1) = bind_some _ _ _ f in
      let (wasi, e2, r2) = bind_some _ _ _ r1 in
      let (sharing, e3, r3) = bind_some _ _ _ r2 in
      let (spawning, e4, r4) = bind_some _ _ _ r3 in
      let (linked, e5, r5) = bind_some _ _ _ r4 in
      let same =
        same_state _ state (some_injective (sym e2 ∙ fits.wasi)) fits.files fits.sockets
          fits.network fits.flag in
      subst
        (λ (p : AppState File × Linker × World × Arcs File).
          (p.0 ≡ state)
          × (p.2 ≡ engine_of.new_store runtime.engine state)
          × (p.3 ≡ arcs1)
          × Holds cli p.0 arcs)
        (success_injective r5)
        (
          same,
          ap (engine_of.new_store runtime.engine) same,
          refl,
          subst (λ s. Holds cli s arcs) (sym same) holds,
        )
