-- ===== src/Build.antt =====
-- build.rs: which WebAssembly module is embedded, and under which name of its source.
use wasmtime_mysql.Prelude.{
  ◌≡◌, ◌⊎◌, inl, inr, sym, ap, subst, ◌∙◌, drop, Bool, true, [], ◌∷◌, ◌++◌, Option, none, some,
  if◌then◌else◌, Outcome, done, panic, Bool-cases, Option-cases,
}
use wasmtime_mysql.Guest.{Bytes}
use wasmtime_mysql.Paths.Text.{starts_with, starts_with→append}

-- What the build finds: the variables of its environment, and the files; the writing of the output may
-- fail. `parse_wat` is `wat::parse_str`.
pub record Environment : Type 0 where
  pub mysqld_wasm : Option Bytes
  pub dev_fixture : Bool
  pub read : Bytes → Option Bytes
  pub read_fixture : Option Bytes
  pub parse_wat : Bytes → Option Bytes
  pub can_write : Bytes → Bool

-- `b"\0asm"`
abbrev pub magic : Bytes
magic = 0 ∷ b'a' ∷ b's' ∷ b'm' ∷ []

-- `fixtures/dev-command.wat`
abbrev pub fixture_name : Bytes
fixture_name =
    b'f' ∷ b'i' ∷ b'x' ∷ b't' ∷ b'u' ∷ b'r' ∷ b'e' ∷ b's' ∷ b'/' ∷ b'd' ∷ b'e' ∷ b'v' ∷ b'-' ∷ b'c'
    ∷ b'o' ∷ b'm' ∷ b'm' ∷ b'a' ∷ b'n' ∷ b'd' ∷ b'.' ∷ b'w' ∷ b'a' ∷ b't' ∷ []

-- What is embedded: the module and its source.
abbrev pub write_out : Environment → Bytes → Bytes → Outcome (Bytes × Bytes)
write_out env wasm source = if env.can_write wasm then done (wasm, source) else panic

abbrev pub validate_wasm : Bytes → Outcome (Bytes × Bytes) → Outcome (Bytes × Bytes)
validate_wasm wasm follows = if starts_with wasm magic then follows else panic

abbrev pub embed_file : Environment → Bytes → Option Bytes → Outcome (Bytes × Bytes)
embed_file env path none = panic
embed_file env path (some wasm) = validate_wasm wasm (write_out env wasm path)

abbrev pub embed_parsed : Environment → Option Bytes → Outcome (Bytes × Bytes)
embed_parsed env none = panic
embed_parsed env (some wasm) = write_out env wasm fixture_name

abbrev pub embed_fixture : Environment → Option Bytes → Outcome (Bytes × Bytes)
embed_fixture env none = panic
embed_fixture env (some wat) = embed_parsed env (env.parse_wat wat)

abbrev pub embed_for : Environment → Option Bytes → Outcome (Bytes × Bytes)
embed_for env (some path) = embed_file env path (env.read path)
embed_for env none = if env.dev_fixture then embed_fixture env env.read_fixture else panic

unfoldable pub build : Environment → Outcome (Bytes × Bytes)
build env = embed_for env env.mysqld_wasm

-- The module that the server is started from: the file that MYSQLD_WASM names, byte for byte, with the
-- first bytes of a WebAssembly module.
abbrev pub FromFile : Environment → Bytes → Bytes → Type 0
FromFile env wasm source =
    (env.mysqld_wasm ≡ some source) × (env.read source ≡ some wasm) × (wasm ≡ magic ++ drop 4 wasm)

abbrev pub FromFixture : Environment → Bytes → Bytes → Type 0
FromFixture env wasm source =
    (env.mysqld_wasm ≡ none)
    × (env.dev_fixture ≡ true)
    × (source ≡ fixture_name)
    × ((wat : Bytes) × (env.read_fixture ≡ some wat) × (env.parse_wat wat ≡ some wasm))

panics : {a : Bytes × Bytes} → panic ≡ done a → ⊥
panics e = cc

done_injective : {a b : Bytes × Bytes} → done a ≡ done b → a ≡ b
done_injective e = cc

written :
    (env : Environment) (bytes name wasm source : Bytes)
    → write_out env bytes name ≡ done (wasm, source)
    → (bytes ≡ wasm) × (name ≡ source)
written env bytes name wasm source e = elim (Bool-cases (env.can_write bytes)) [
  | inr c ↦ absurd (panics (rw c at e))
  | inl c ↦ let same = done_injective (rw c at e) in (ap (λ p. p.0) same, ap (λ p. p.1) same)
]

validated :
    (env : Environment) (bytes path wasm source : Bytes)
    → embed_file env path (some bytes) ≡ done (wasm, source)
    → (starts_with bytes magic ≡ true) × ((bytes ≡ wasm) × (path ≡ source))
validated env bytes path wasm source e = elim (Bool-cases (starts_with bytes magic)) [
  | inr b ↦ absurd (panics (rw b at e))
  | inl b ↦ (b, written env bytes path wasm source (rw b at e))
]

from_file :
    (env : Environment) (path wasm source : Bytes)
    → env.mysqld_wasm ≡ some path
    → embed_file env path (env.read path) ≡ done (wasm, source)
    → FromFile env wasm source
from_file env path wasm source m e = elim (Option-cases (env.read path)) [
  | inl r ↦ absurd (panics (rw r at e))
  | inr (bytes, r) ↦
      let (starts, (same, named)) = validated env bytes path wasm source (rw r at e) in
      (
        m ∙ ap some named,
        ap env.read (sym named) ∙ r ∙ ap some same,
        subst (λ b. b ≡ magic ++ drop 4 b) same (starts_with→append bytes magic starts),
      )
]

from_fixture :
    (env : Environment) (wasm source : Bytes)
    → env.mysqld_wasm ≡ none
    → embed_for env none ≡ done (wasm, source)
    → FromFixture env wasm source
from_fixture env wasm source m e = elim (Bool-cases env.dev_fixture) [
  | inr d ↦ absurd (panics (rw d at e))
  | inl d ↦ elim (Option-cases env.read_fixture) [
    | inl f ↦ absurd (panics (rw (d, f) at e))
    | inr (wat, f) ↦ elim (Option-cases (env.parse_wat wat)) [
      | inl p ↦ absurd (panics (rw (d, f, p) at e))
      | inr (bytes, p) ↦
          let (same, named) = written env bytes fixture_name wasm source (rw (d, f, p) at e) in
          (m, d, sym named, (wat, f, p ∙ ap some same))
    ]
  ]
]

-- A build that ends embeds either the file that MYSQLD_WASM names, byte for byte, which begins with the
-- four bytes of a WebAssembly module; or, where that is not set and the feature dev-fixture is, what
-- fixtures/dev-command.wat is parsed to. The name that the program prints is that of this source.
pub build_lem :
    (env : Environment) (wasm source : Bytes)
    → build env ≡ done (wasm, source)
    → FromFile env wasm source ⊎ FromFixture env wasm source
unfolding build
build_lem env wasm source e = elim (Option-cases env.mysqld_wasm) [
  | inl m ↦ inr (from_fixture env wasm source m (rw m at e))
  | inr (path, m) ↦ inl (from_file env path wasm source m (rw m at e))
]
