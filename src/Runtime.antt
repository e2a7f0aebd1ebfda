-- ===== src/Runtime.antt =====
-- src/main.rs: the arguments of `--preopen` and `--env`, the exit code, and the numbers of threads; in the
-- children the imported memories, the shutdown flag, and the WASI context.
pub mod Arguments
pub mod Threads
pub mod Memories
pub mod Names
pub mod Defined
pub mod Kinds
pub mod Shared
pub mod Shutdown
pub mod Wasi
pub mod Grants
pub mod Start
pub mod Sharing
pub mod Exit
use wasmtime_mysql.Prelude.{
  ℕ, ◌+◌, ◌%◌, ◌^◌, Bool, true, List, [], ◌∷◌, Option, none, some, if◌then◌else◌, ltb, ◌==◌, ℤ, pos,
  negsuc, word32, int32, neg_errno,
}
use wasmtime_mysql.Errno.{eagain}
use wasmtime_mysql.Guest.{Bytes}
use wasmtime_mysql.Paths.Text.{is_empty}

-- The byte of '='.
abbrev pub equals : ℕ
equals = 61

abbrev pub before_first : ℕ → Option (Bytes × Bytes) → Option (Bytes × Bytes)
before_first b none = none
before_first b (some (key, rest)) = some (b ∷ key, rest)

-- `value.split_once('=')`
unfoldable pub split_once : Bytes → Option (Bytes × Bytes)
split_once [] = none
split_once (b ∷ s) =
    let later = split_once s in if b == equals then some ([], s) else before_first b later

-- The messages of the two parsers.
pub data Refusal : Type 0 where
  expected_pair first_empty second_empty : Refusal

pub data Parsed : Type 0 where
  parsed : Bytes → Bytes → Parsed
  refused : Refusal → Parsed

-- `Preopen::from_str`; the host path is left as the text that `PathBuf::from` takes.
unfoldable pub preopen_from_str : Bytes → Parsed
preopen_from_str value = elim (split_once value) [
  | none ↦ refused expected_pair
  | some (host, guest) ↦
      if is_empty host
      then refused first_empty
      else if is_empty guest
      then refused second_empty
      else parsed host guest
]

-- `EnvPair::from_str`
unfoldable pub env_from_str : Bytes → Parsed
env_from_str value = elim (split_once value) [
  | none ↦ refused expected_pair
  | some (key, env_value) ↦ if is_empty key then refused first_empty else parsed key env_value
]

-- `ExitCode::SUCCESS` is 0 and `ExitCode::FAILURE` is 1.
unfoldable pub exit_code_from_i32 : ℤ → ℕ
exit_code_from_i32 (negsuc n) = 1
exit_code_from_i32 (pos n) = if n == 0 then 0 else if ltb n 256 then n else 1

-- `fetch_add(1)` wraps.
abbrev pub fetch_add : ℤ → ℤ
fetch_add n = int32 ((word32 n + 1) % 2 ^ 32)

-- `thread_id <= 0`
abbrev pub not_positive : ℤ → Bool
not_positive (pos n) = n == 0
not_positive (negsuc n) = true

-- `spawn_wasi_thread`: the answer and the next number, where `spawned` says whether the host could start the
-- thread.
unfoldable pub spawn_wasi_thread : Bool → ℤ → ℤ × ℤ
spawn_wasi_thread spawned next_thread_id =
    let thread_id = next_thread_id in
    (
      (if not_positive thread_id
          then neg_errno eagain
          else if spawned
          then thread_id
          else neg_errno eagain),
      fetch_add next_thread_id,
    )

-- The answers of a sequence of calls, in the order in which the calls took their numbers.
unfoldable pub spawn_all : List Bool → ℤ → List ℤ
spawn_all [] next = []
spawn_all (b ∷ bs) next =
    let (answer, next') = spawn_wasi_thread b next in answer ∷ spawn_all bs next'
