-- ===== src/Runtime/Exit.antt =====
-- The exit code of the process.
use wasmtime_mysql.Prelude.{
  ◌≡◌, ◌≢◌, ◌⊎◌, subst, ok, err, inl, inr, refl, arith, Bool, true, false, Option, none, some,
  Result, ℤ, pos, negsuc,
}
use wasmtime_mysql.Paths.{PathBuf}
use wasmtime_mysql.Runtime.{exit_code_from_i32}
use wasmtime_mysql.Runtime.Wasi.{Cli, Directories}
use wasmtime_mysql.Runtime.Shutdown.{SignalHook}
use wasmtime_mysql.Runtime.Memories.{Embedding}
use wasmtime_mysql.Runtime.Start.{
  Attempt, success, failure, ◌>>=◌, or_fail, of_result, AppState, Arcs, Wasmtime, RuntimeEnv,
  prepare, started, run, exit_code, main,
}

exit_zero : (status : ℤ) → exit_code_from_i32 status ≡ 0 → status ≡ pos 0
unfolding exit_code_from_i32
exit_zero (pos n) e = ground arith
exit_zero (negsuc n) e = absurd (ground arith)

Attempt-cases {ℓ} :
    {A : Type ℓ} (r : Attempt A) → ((a : A) × (r ≡ success a)) ⊎ ((e : Option ℤ) × (r ≡ failure e))
Attempt-cases (success a) = inl (a, refl)
Attempt-cases (failure e) = inr (e, refl)

-- The error, if any, is no exit.
unfoldable IsPlain {ℓ} : {A : Type ℓ} → Attempt A → Type 0
IsPlain (success a) = Unit {0}
IsPlain (failure e) = e ≡ none

success-IsPlain {ℓ} : {A : Type ℓ} (a : A) → IsPlain (success a)
unfolding IsPlain
success-IsPlain a = tt

or_fail-IsPlain {ℓ κ} :
    {A : Type ℓ} {B : Type κ} (m : Option A) (f : A → Attempt B)
    → ((a : A) → IsPlain (f a))
    → IsPlain (or_fail m >>= f)
unfolding IsPlain or_fail ◌>>=◌
or_fail-IsPlain none f each = refl
or_fail-IsPlain (some a) f each = each a

of_result-IsPlain {ℓ κ} :
    {A : Type ℓ} {B : Type κ} (m : Result A) (f : A → Attempt B)
    → ((a : A) → IsPlain (f a))
    → IsPlain (of_result m >>= f)
unfolding IsPlain of_result ◌>>=◌
of_result-IsPlain (err e) f each = refl
of_result-IsPlain (ok a) f each = each a

plain_exit {ℓ} : {A : Type ℓ} {m : Attempt A} {e : Option ℤ} → IsPlain m → m ≡ failure e → e ≡ none
unfolding IsPlain
plain_exit plain f = subst IsPlain f plain

module _ {File : Type 0} {memories : Embedding} (engine_of : Wasmtime File memories)
    (os : Directories) (hook : SignalHook) (cwd : Result PathBuf) where
  open memories use {World, Linker}

  -- The server's program has returned, or has exited with 0.
  abbrev pub EndsWell : Attempt (Unit {0}) → Type 0
  EndsWell out = (out ≡ success tt) ⊎ (out ≡ failure (some (pos 0)))

  ends_well : (out : Attempt (Unit {0})) → exit_code engine_of os hook cwd out ≡ 0 → EndsWell out
  ends_well (success u) e = inl refl
  ends_well (failure none) e = absurd (ground arith)
  ends_well (failure (some status)) e = inr (rw (exit_zero status e) refl)

  prepare-IsPlain : (cli : Cli) → IsPlain (prepare engine_of os hook cwd cli)
  unfolding prepare
  prepare-IsPlain cli = search (or_fail-IsPlain, of_result-IsPlain, success-IsPlain) depth 12

  not_zero : (x : Option ℤ) → x ≡ none → exit_code engine_of os hook cwd (failure x) ≢ 0
  not_zero none n e = ground arith
  not_zero (some status) n e = cc

  -- The process reports success, exit code 0, only where it was asked for the source's name, or where
  -- everything was prepared and the server's program returned or exited with 0: no failure on the way is
  -- reported as success.
  pub main_zero :
      (show_embedded_source : Bool) (cli : Cli)
      → main engine_of os hook cwd show_embedded_source cli ≡ 0
      → (show_embedded_source ≡ true)
        ⊎ ((runtime : RuntimeEnv engine_of os hook cwd) × (state : AppState File)
            × (linker : Linker) × (w : World) × (arcs : Arcs File) × (prepare engine_of os hook cwd
                  cli
                ≡ success (runtime, state, linker, w, arcs))
            × EndsWell
                (started engine_of os hook cwd (engine_of.instantiate linker runtime.compiled w)))
  unfolding run ◌>>=◌
  main_zero true cli e = inl refl
  main_zero false cli e = elim (Attempt-cases (prepare engine_of os hook cwd cli)) [
    | inl ((runtime, state, linker, w, arcs), p) ↦
        inr (runtime, state, linker, w, arcs, p, ends_well _ (rw (p) at e))
    | inr (x, p) ↦ absurd (not_zero x (plain_exit (prepare-IsPlain cli) p) (rw (p) at e))
  ]
