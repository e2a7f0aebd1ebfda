-- ===== src/Tests/Building.antt =====
-- A build with MYSQLD_WASM set to "m", a module of five bytes.
use wasmtime_mysql.Prelude.{◌≡◌, ◌⊎◌, refl, false, [], ◌∷◌, none, some, true, done}
use wasmtime_mysql.Guest.{Bytes}
use wasmtime_mysql.Build.{Environment, build, FromFile, FromFixture, build_lem}

abbrev path : Bytes
path = b'm' ∷ []

abbrev wasm : Bytes
wasm = 0 ∷ b'a' ∷ b's' ∷ b'm' ∷ 1 ∷ []

abbrev environment : Environment
environment = record {
  mysqld_wasm = some path;
  dev_fixture = false;
  read = λ p. some wasm;
  read_fixture = none;
  parse_wat = λ wat. none;
  can_write = λ bytes. true;
}

built : build environment ≡ done (wasm, path)
unfolding build
built = refl

build_lem_example : FromFile environment wasm path ⊎ FromFixture environment wasm path
build_lem_example = build_lem environment wasm path built
