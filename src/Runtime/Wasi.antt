-- ===== src/Runtime/Wasi.antt =====
-- src/main.rs, `build_wasi`: what the guest gets of the machine through WASI, as the calls of the
-- builder in their order.
use wasmtime_mysql.Prelude.{
  Bool, true, false, not, List, [], ◌∷◌, ◌++◌, Option, none, some, if◌then◌else◌,
}
use wasmtime_mysql.Guest.{Bytes}
use wasmtime_mysql.Paths.{PathBuf}
use wasmtime_mysql.Paths.Text.{dot}
use wasmtime_mysql.Files.{CliPreopen}

-- The arguments that `run` and `build_wasi` read; `--env` is its key and its value.
pub record Cli : Type 0 where
  pub no_default_preopen : Bool
  pub no_inherit_env : Bool
  pub no_network : Bool
  pub preopens : List CliPreopen
  pub env : List (Bytes × Bytes)
  pub guest_args : List Bytes

pub data BuilderCall : Type 0 where
  inherit_stdio inherit_env inherit_network : BuilderCall
  allow_blocking_current_thread allow_ip_name_lookup allow_tcp allow_udp : Bool → BuilderCall
  set_env : Bytes → Bytes → BuilderCall
  set_args : List Bytes → BuilderCall
  preopened_dir : PathBuf → Bytes → BuilderCall
  initial_cwd : Bytes → BuilderCall

-- `Path::is_dir`, `std::env::current_dir`, and whether `preopened_dir` of the builder succeeds.
pub record Directories : Type 0 where
  pub is_dir : PathBuf → Bool
  pub current_dir : Option PathBuf
  pub can_preopen : PathBuf → Bytes → Bool

-- "mysqld"
abbrev pub program : Bytes
program = b'm' ∷ b'y' ∷ b's' ∷ b'q' ∷ b'l' ∷ b'd' ∷ []

abbrev pub env_calls : List (Bytes × Bytes) → List BuilderCall
env_calls [] = []
env_calls ((key, value) ∷ env) = set_env key value ∷ env_calls env

module _ (os : Directories) where
  unfoldable pub preopen_dir : PathBuf → Bytes → Option (List BuilderCall)
  preopen_dir host guest =
      if not (os.is_dir host)
      then none
      else if os.can_preopen host guest
      then some (preopened_dir host guest ∷ [])
      else none

  abbrev pub append_calls :
      Option (List BuilderCall) → Option (List BuilderCall) → Option (List BuilderCall)
  append_calls none rest = none
  append_calls (some calls) none = none
  append_calls (some calls) (some rest) = some (calls ++ rest)

  abbrev pub default_dir : Bool → Option PathBuf → Option (List BuilderCall)
  default_dir true cwd = some []
  default_dir false none = none
  default_dir false (some cwd) = append_calls (preopen_dir cwd dot) (some (initial_cwd dot ∷ []))

  abbrev pub given_dirs : List CliPreopen → Option (List BuilderCall)
  given_dirs [] = some []
  given_dirs (p ∷ ps) = append_calls (preopen_dir p.host p.guest) (given_dirs ps)

  abbrev pub network_calls : Bool → List BuilderCall
  network_calls true = []
  network_calls false =
      inherit_network ∷ allow_ip_name_lookup true ∷ allow_tcp true ∷ allow_udp true ∷ []

  abbrev pub first_calls : Cli → List BuilderCall
  first_calls cli =
      inherit_stdio
      ∷ allow_blocking_current_thread true
      ∷ ((if cli.no_inherit_env then [] else inherit_env ∷ [])
          ++ env_calls cli.env
          ++ (set_args (program ∷ cli.guest_args) ∷ []))

  unfoldable pub build_wasi : Cli → Option (List BuilderCall)
  build_wasi cli = append_calls (some (first_calls cli)) (
      append_calls (default_dir cli.no_default_preopen os.current_dir)
        (append_calls (given_dirs cli.preopens) (some (network_calls cli.no_network))))
