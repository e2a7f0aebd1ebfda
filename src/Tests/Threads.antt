-- ===== src/Tests/Threads.antt =====
-- Two threads that share the sockets: the first one makes a socket, which the second one closes.
use wasmtime_mysql.Prelude.{
  ◌≡◌, ◌≢◌, refl, ℕ, inl, inr, ◌==◌, Bool-cases, arith, true, false, [], some, ℤ, pos, negsuc,
  lookup, insert, remove,
}
use wasmtime_mysql.Guest.{memory}
use wasmtime_mysql.Sockets.{
  HostSocket, new, insert_socket, remove_socket, normalize_socket_type, normalize_socket_domain,
}
use wasmtime_mysql.Sockets.History.{Call, socket, close}
use wasmtime_mysql.Sockets.Threads.{returns, advance}
use wasmtime_mysql.Sockets.Threads.Imports.{program}
use wasmtime_mysql.Sockets.Threads.System.{
  System, IsStart, Reach, start, later, begins, goes, after,
}
use wasmtime_mysql.Sockets.Threads.Closing.{closes_once, entries_open, open_entered, Ends}
use wasmtime_mysql.Tests.Machine.{linux}
use wasmtime_mysql.Tests.Crowd.{Sockets, is_live, crowd, crowd_law}

abbrev Threads : Type 0
Threads = System Sockets

abbrev idle : Threads
idle = record {
  threads = λ i. returns (pos 0);
  memory = memory [];
  table = new;
  world = (0, λ k. false);
}

abbrev begun : Threads → ℕ → Call → Threads
begun s i k =
    after linux crowd_law true s i (program linux crowd true k, (s.memory, (s.table, s.world)))

abbrev gone : Threads → ℕ → Threads
gone s i =
    after linux crowd_law true s i
      (advance linux crowd (s.threads i) (s.memory, (s.table, s.world)))

abbrev entered : Threads
entered = gone (gone (begun idle 0 (socket (pos 1) (pos 6) (pos 0))) 0) 0

abbrev closing : Threads
closing = gone (begun entered 1 (close (pos 10000))) 1

idle-none_open : (raw : ℤ) → is_live idle.world raw ≡ false
idle-none_open (pos k) = ground arith
idle-none_open (negsuc k) = refl

idle-IsStart : IsStart linux crowd_law true idle
idle-IsStart = record { idle = λ i. (pos 0, refl); empty = refl; none_open = idle-none_open }

entered-Reach : Reach linux crowd_law true entered
unfolding program advance normalize_socket_type
entered-Reach =
    later
      (later (later (start idle-IsStart) (begins 0 (pos 0) (socket (pos 1) (pos 6) (pos 0)) refl))
        (goes 0))
      (goes 0)

closing-Reach : Reach linux crowd_law true closing
closing-Reach = later (later entered-Reach (begins 1 (pos 0) (close (pos 10000)) refl)) (goes 1)

closes_once_example :
    (is_live closing.world (pos 0) ≡ true)
    × ((fd : ℤ) (s : HostSocket) → lookup fd closing.table.sockets ≡ some s → s.raw_fd ≢ pos 0)
    × ((j : ℕ) → Ends (pos 0) (closing.threads j) → 1 ≡ j)
unfolding program advance remove_socket lookup remove normalize_socket_type insert_socket insert new
closes_once_example = closes_once linux crowd_law true {s = closing} 1 (pos 0) closing-Reach refl

abbrev made_first : HostSocket
made_first = record { raw_fd = pos 0; guest_domain = pos 1; host_domain = pos 2 }

entries_open_example :
    (is_live entered.world (pos 0) ≡ true) × (pos 0 ≡ pos 0 → pos 10000 ≡ pos 10000)
unfolding program advance remove_socket lookup remove normalize_socket_type insert_socket insert new
    normalize_socket_domain
entries_open_example =
    entries_open linux crowd_law true {s = entered} (pos 10000) (pos 10000) made_first made_first
      entered-Reach refl refl

entered_idle : (i : ℕ) → (answer : ℤ) × (entered.threads i ≡ returns answer)
unfolding program advance normalize_socket_type insert_socket new
entered_idle i = elim (Bool-cases (0 == i)) [
  | inl b ↦ rw (b) (pos 10000, refl)
  | inr b ↦ rw (b) (pos 0, refl)
]

open_entered_example :
    (fd : ℤ) × (s : HostSocket) × (lookup fd entered.table.sockets ≡ some s) × (s.raw_fd ≡ pos 0)
unfolding program advance normalize_socket_type insert_socket new
open_entered_example =
    open_entered linux crowd_law true {s = entered} (pos 0) entered-Reach (omega arith) entered_idle
      refl
