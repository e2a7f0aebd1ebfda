-- ===== src/Winsock/Runs.antt =====
-- Sequences of the Windows build's socket calls, from the empty table.
use wasmtime_mysql.Prelude.{◌≡◌, subst, Bool, List, [], ◌∷◌, ℤ, Outcome, done, leave, panic}
use wasmtime_mysql.Guest.{Export}
use wasmtime_mysql.Sockets.{new}
use wasmtime_mysql.Sockets.History.{Call}
use wasmtime_mysql.Winsock.{WinSockets, Started}
use wasmtime_mysql.Winsock.Host.{WinSock, WsaErrno}
use wasmtime_mysql.Winsock.Table.{IsValid, new-IsValid, Step-IsValid}
use wasmtime_mysql.Winsock.History.{Machine, perform, table_after, perform_winsock-Step}

module _ (wsa : WsaErrno) (ws : WinSock) (network_allowed : Bool) where
  open ws use {World}

  -- A panic ends the sequence.
  unfoldable pub run :
      List Call → Machine wsa ws network_allowed → Outcome (Machine wsa ws network_allowed)
  unfolding perform
  run [] m = done m
  run (k ∷ ks) m = elim (perform wsa ws network_allowed k m) [
    | done (answer, m') ↦ run ks m'
    | leave n ↦ leave n
    | panic ↦ panic
  ]

  abbrev KeepsValid : Outcome (Machine wsa ws network_allowed) → Type 0
  KeepsValid (done (s, (mem, (t, w)))) = IsValid t
  KeepsValid (leave n) = Unit {0}
  KeepsValid panic = Unit {0}

  run-KeepsValid :
      (ks : List Call) (s : Started wsa ws) (mem : Export) (t : WinSockets) (w : World)
      → IsValid t
      → KeepsValid (run ks (s, (mem, (t, w))))
  unfolding run
  run-KeepsValid [] s mem t w v = v
  run-KeepsValid (k ∷ ks) s mem t w v =
      next (run-KeepsValid ks) (perform wsa ws network_allowed k (s, (mem, (t, w))))
        (Step-IsValid t _ (perform_winsock-Step wsa ws network_allowed k s mem t w) v)
    where
      next :
          ((s : Started wsa ws) (mem : Export) (t : WinSockets) (w : World)
            → IsValid t
            → KeepsValid (run ks (s, (mem, (t, w)))))
          → (out : Outcome (ℤ × Machine wsa ws network_allowed))
          → IsValid (table_after wsa ws network_allowed t out)
          → KeepsValid
              (elim out [ done (answer, m') ↦ run ks m' | leave n ↦ leave n | panic ↦ panic ])
      next rest (done (answer, (s', (mem', (t', w'))))) v' = rest s' mem' t' w' v'
      next rest (leave n) v' = tt
      next rest panic v' = tt

  -- A sequence of calls from the empty table that does not panic leaves only descriptors that were
  -- given out: at least 10000, and below `next_fd` until that reaches `i32::MAX`.
  pub run_winsock-IsValid :
      (ks : List Call) (s s' : Started wsa ws) (mem mem' : Export) (t' : WinSockets) (w w' : World)
      → run ks (s, (mem, (new, w))) ≡ done (s', (mem', (t', w')))
      → IsValid t'
  run_winsock-IsValid ks s s' mem mem' t' w w' e =
      subst KeepsValid e (run-KeepsValid ks s mem new w new-IsValid)
