-- ===== src/Tests/Start.antt =====
-- Runs of the parsers of the command line, of the exit code and of the thread numbers.
use wasmtime_mysql.Prelude.{◌≡◌, refl, true, false, [], ◌∷◌, pos, some, get_elem?, arith, ◌+◌}
use wasmtime_mysql.Guest.{Bytes}
use wasmtime_mysql.Runtime.{spawn_all, spawn_wasi_thread}
use wasmtime_mysql.Runtime.Threads.{answer_for, spawn_all_lem}

-- "A=B="
abbrev text : Bytes
text = 65 ∷ 61 ∷ 66 ∷ 61 ∷ []

abbrev first : Bytes
first = 65 ∷ []

abbrev rest : Bytes
rest = 66 ∷ 61 ∷ []

second : get_elem? (spawn_all (false ∷ true ∷ []) (pos 1)) 1 ≡ some (pos 2)
unfolding spawn_all spawn_wasi_thread
second = refl

spawn_all_lem_example :
    get_elem? (spawn_all (false ∷ true ∷ []) (pos 1)) 1 ≡ some (answer_for true (1 + 1))
spawn_all_lem_example = spawn_all_lem (false ∷ true ∷ []) 1 true (omega arith) refl
