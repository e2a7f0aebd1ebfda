-- ===== src/Runtime/Shutdown.antt =====
-- src/main.rs: the flag that asks the server to shut down. The guest sets it by `request_shutdown` and
-- reads it by `shutdown_requested`; SIGINT and SIGTERM set it, and a second SIGINT ends the process.
use wasmtime_mysql.Prelude.{
  ◌≡◌, refl, ◌∙◌, arith, Bool, true, false, ◌&&◌, ◌||◌, List, [], ◌∷◌, Option, none, some,
  if◌then◌else◌, ℤ, pos, ◌==ℤ◌, ==ℤ_refl,
}

-- `signal_hook::flag::register_conditional_shutdown` and `register`, on the one flag.
pub data Registration : Type 0 where
  conditional_shutdown : ℤ → ℤ → Registration
  sets_flag : ℤ → Registration

pub data Process : Type 0 where
  running : Bool → Process
  exited : ℤ → Process

-- `signal_hook`: a registration may fail, and a signal runs the actions that are registered.
pub record SignalHook : Type 0 where
  pub can_register : Registration → Bool
  pub dispatch : List Registration → ℤ → Bool → Process
  pub sigint : ℤ
  pub sigterm : ℤ

abbrev pub registered :
    SignalHook → Registration → Option (List Registration) → Option (List Registration)
registered hook r none = none
registered hook r (some rs) = if hook.can_register r then some (r ∷ rs) else none

-- The registrations in their order; nothing where one of them fails.
unfoldable pub install_shutdown_signal_handlers : SignalHook → Option (List Registration)
install_shutdown_signal_handlers hook =
    registered hook (conditional_shutdown hook.sigint (pos 1))
      (registered hook (sets_flag hook.sigint) (registered hook (sets_flag hook.sigterm) (some [])))

abbrev pub request_shutdown : Bool → Bool
request_shutdown flag = true

abbrev pub shutdown_requested : Bool → ℤ
shutdown_requested flag = if flag then pos 1 else pos 0

-- What can happen to the flag.
pub data Event : Type 0 where
  interrupt terminate request : Event

abbrev pub happens : SignalHook → List Registration → Event → Process → Process
happens hook rs e (exited status) = exited status
happens hook rs interrupt (running flag) = hook.dispatch rs hook.sigint flag
happens hook rs terminate (running flag) = hook.dispatch rs hook.sigterm flag
happens hook rs request (running flag) = running (request_shutdown flag)

unfoldable pub run_events : SignalHook → List Registration → List Event → Process → Process
run_events hook rs [] p = p
run_events hook rs (e ∷ es) p = run_events hook rs es (happens hook rs e p)

-- The documented order: the actions of a signal run one behind the other, as they were registered; a
-- conditional shutdown ends the process if the flag is set.
abbrev pub actions : List Registration → ℤ → Bool → Process
actions [] signal flag = running flag
actions (conditional_shutdown s status ∷ rs) signal flag =
    if (s ==ℤ signal) && flag then exited status else actions rs signal flag
actions (sets_flag s ∷ rs) signal flag = actions rs signal ((s ==ℤ signal) || flag)

pub record RunsInOrder (hook : SignalHook) : Type 0 where
  pub in_order :
      (rs : List Registration) (signal : ℤ) (flag : Bool)
      → hook.dispatch rs signal flag ≡ actions rs signal flag
  pub apart : (hook.sigint ==ℤ hook.sigterm) ≡ false

abbrev pub has_interrupt : List Event → Bool
has_interrupt [] = false
has_interrupt (interrupt ∷ es) = true
has_interrupt (terminate ∷ es) = has_interrupt es
has_interrupt (request ∷ es) = has_interrupt es

module _ (hook : SignalHook) (law : RunsInOrder hook) (rs : List Registration)
    (installed : install_shutdown_signal_handlers hook ≡ some rs) where
  installed_lem :
      rs
      ≡ conditional_shutdown hook.sigint (pos 1)
        ∷ sets_flag hook.sigint
        ∷ sets_flag hook.sigterm
        ∷ []
  unfolding install_shutdown_signal_handlers
  installed_lem = ground arith

  interrupt_first : hook.dispatch rs hook.sigint false ≡ running true
  interrupt_first =
      law.in_order rs hook.sigint false
      ∙ rw installed_lem (ground (arith, ==ℤ_refl hook.sigint, law.apart))

  interrupt_again : hook.dispatch rs hook.sigint true ≡ exited (pos 1)
  interrupt_again =
      law.in_order rs hook.sigint true ∙ rw installed_lem (ground (arith, ==ℤ_refl hook.sigint))

  terminated : (flag : Bool) → hook.dispatch rs hook.sigterm flag ≡ running true
  terminated flag =
      law.in_order rs hook.sigterm flag
      ∙ rw installed_lem (ground (arith, ==ℤ_refl hook.sigterm, law.apart))

  run_exited : (es : List Event) (n : ℤ) → run_events hook rs es (exited n) ≡ exited n
  unfolding run_events
  run_exited [] n = refl
  run_exited (e ∷ es) n = run_exited es n

  run_requested :
      (es : List Event)
      → run_events hook rs es (running true)
        ≡ (if has_interrupt es then exited (pos 1) else running true)
  unfolding run_events
  run_requested [] = refl
  run_requested (interrupt ∷ es) = rw interrupt_again (run_exited es (pos 1))
  run_requested (terminate ∷ es) = rw (terminated true) (run_requested es)
  run_requested (request ∷ es) = run_requested es

  -- Where all three handlers are installed and signal_hook runs them in order: the first SIGINT, SIGTERM or
  -- `request_shutdown` sets the flag and leaves the process running, the flag stays set, and the process
  -- ends with the status 1 exactly if a SIGINT comes behind that first event.
  pub run_events_lem :
      (e : Event) (es : List Event)
      → run_events hook rs (e ∷ es) (running false)
        ≡ (if has_interrupt es then exited (pos 1) else running true)
  unfolding run_events
  run_events_lem interrupt es = rw interrupt_first (run_requested es)
  run_events_lem terminate es = rw (terminated false) (run_requested es)
  run_events_lem request es = run_requested es
