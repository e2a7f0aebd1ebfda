-- ===== src/Tests/Open.antt =====
-- Runs of the file calls: a table with one open file, on the endless disk.
use wasmtime_mysql.Prelude.{
  ℕ, ◌≡◌, refl, List, [], ◌∷◌, false, none, ℤ, pos, ok, lookup, is_negative, done,
}
use wasmtime_mysql.Guest.{Export, memory}
use wasmtime_mysql.Paths.{root_dir, resolve, part_kind, sort_preopens, normalize_guest_path}
use wasmtime_mysql.Files.{HostFiles, State, new, open_file, open_options}
use wasmtime_mysql.Files.Calls.{call_pread}
use wasmtime_mysql.Files.Table.{IsValid}
use wasmtime_mysql.Files.History.{Call, opens, closes, preads, perform, run, run_files-IsValid}
use wasmtime_mysql.Files.Descriptors.{Opened, open_file-Opened}
use wasmtime_mysql.Files.Answers.{IsAnswer, perform-IsAnswer}
use wasmtime_mysql.Files.Transfer.{Delivery, call_pread-Delivery}
use wasmtime_mysql.Tests.Machine.{linux, disk, disk-ReadsWithin}

-- The table that `new` makes in the host's root directory, and the one behind an `open`.
abbrev first_table : HostFiles ℕ
first_table = record {
  next_fd = 20000;
  files = [];
  preopens = record { guest = 0x2e ∷ []; host = root_dir ∷ [] } ∷ [];
}

abbrev opened_table : HostFiles ℕ
opened_table = record first_table { next_fd = 20001; files = (pos 20000, 3) ∷ [] }

abbrev first_state : State linux disk
first_state = (first_table, 0)

abbrev opened_state : State linux disk
opened_state = (opened_table, 0)

-- "a"
abbrev path_a : List ℕ
path_a = 0x61 ∷ []

is_new : new false [] (ok (root_dir ∷ [])) ≡ ok first_table
unfolding new sort_preopens normalize_guest_path part_kind
is_new = refl

abbrev script : List Call
script = opens path_a (pos 0x400_0000) ∷ preads (pos 20000) 4 0 ∷ closes (pos 20000) ∷ []

run_files-IsValid_example : IsValid (run linux disk script first_state).0
run_files-IsValid_example =
    run_files-IsValid linux disk false [] (ok (root_dir ∷ [])) first_table script 0 is_new

first_table-IsValid : IsValid first_table
unfolding run
first_table-IsValid =
    run_files-IsValid linux disk false [] (ok (root_dir ∷ [])) first_table [] 0 is_new

opens_well : is_negative (open_file linux disk path_a (pos 0x400_0000) first_state).0 ≡ false
unfolding open_file resolve part_kind open_options
opens_well = refl

open_file-Opened_example :
    Opened linux disk path_a
      (pos 0x400_0000)
      first_table
      0
      (open_file linux disk path_a (pos 0x400_0000) first_state)
open_file-Opened_example =
    open_file-Opened linux disk path_a (pos 0x400_0000) first_table 0 first_table-IsValid opens_well

closed_yet : lookup (pos 20000) first_table.files ≡ none
unfolding lookup
closed_yet = refl

perform-IsAnswer_example : IsAnswer (perform linux disk (preads (pos 20000) 4 0) opened_state).0
perform-IsAnswer_example = perform-IsAnswer linux disk (preads (pos 20000) 4 0) opened_table 0

abbrev guest_memory : Export
guest_memory = memory (1 ∷ 2 ∷ 3 ∷ 4 ∷ 5 ∷ 6 ∷ [])

call_pread-Delivery_example :
    (answer : ℤ) × (mem' : Export) × ((call_pread linux disk
        (pos 20000)
        (pos 1)
        (pos 4)
        (pos 0)
        (guest_memory, opened_state)).0
      ≡ done (answer, mem'))
    × Delivery linux disk (pos 20000) (pos 1) (pos 4) (pos 0) guest_memory opened_state answer mem'
call_pread-Delivery_example =
    call_pread-Delivery linux disk disk-ReadsWithin (pos 20000) (pos 1) (pos 4) (pos 0) guest_memory
      opened_state
