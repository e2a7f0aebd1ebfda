-- ===== src/Runtime/Arguments.antt =====
-- What the parsers of "KEY=VALUE" and "HOST=GUEST" accept, and the exit code.
use wasmtime_mysql.Prelude.{
  ℕ, ◌≤◌, ◌≡◌, ◌↔◌, refl, ap, ◌∙◌, [], ◌∷◌, ◌++◌, arith, some, ℤ, pos, negsuc, All, false, ◌==◌,
}
use wasmtime_mysql.Guest.{Bytes}
use wasmtime_mysql.Paths.Text.{is_empty}
use wasmtime_mysql.Runtime.{
  equals, split_once, parsed, env_from_str, preopen_from_str, exit_code_from_i32,
}

split_once-append :
    (key rest : Bytes)
    → All (λ b. (b == equals) ≡ false) key
    → split_once (key ++ (equals ∷ rest)) ≡ some (key, rest)
unfolding split_once
split_once-append [] rest h = refl
split_once-append (b ∷ key) rest (h, hs) = rw (h, split_once-append key rest hs) refl

split_once-later :
    (b : ℕ) (s : Bytes) (c : ℕ) (key rest : Bytes)
    → split_once (b ∷ s) ≡ some (c ∷ key, rest)
    → (split_once s ≡ some (key, rest)) × (b ≡ c) × ((b == equals) ≡ false)
unfolding split_once
split_once-later b s c key rest e = ground arith

split_once-some :
    (s key rest : Bytes)
    → split_once s ≡ some (key, rest)
    → (s ≡ key ++ (equals ∷ rest)) × All (λ b. (b == equals) ≡ false) key
unfolding split_once
split_once-some [] key rest e = cc e
split_once-some (b ∷ s) [] rest e = (ground arith, tt)
split_once-some (b ∷ s) (c ∷ key) rest e =
    let (later, same, other) = split_once-later b s c key rest e in
    let (text, all) = split_once-some s key rest later in
    (rw (same, text) refl, (cc (same, other), all))

env_from_str-split :
    (text key value : Bytes)
    → env_from_str text ≡ parsed key value
    → (split_once text ≡ some (key, value)) × (is_empty key ≡ false)
unfolding env_from_str
env_from_str-split text key value e = ground arith

env_from_str-join :
    (text key value : Bytes)
    → split_once text ≡ some (key, value)
    → is_empty key ≡ false
    → env_from_str text ≡ parsed key value
unfolding env_from_str
env_from_str-join text key value e full = ground arith

-- `EnvPair::from_str` accepts exactly the texts KEY=VALUE with a key that is not empty and holds no
-- '=', and gives back both parts; the value may be empty or hold '='.
pub env_from_str_lem :
    (text key value : Bytes)
    → (env_from_str text ≡ parsed key value) ↔ (
        (text ≡ key ++ (equals ∷ value))
        × (is_empty key ≡ false)
        × All (λ b. (b == equals) ≡ false) key)
unfolding env_from_str
env_from_str_lem text key value = (
  λ e.
      let (at, full) = env_from_str-split text key value e in
      let (same, all) = split_once-some text key value at in (same, full, all),
  λ (same, full, all).
      env_from_str-join text key value (ap split_once same ∙ split_once-append key value all) full,
)

preopen_from_str-split :
    (text host guest : Bytes)
    → preopen_from_str text ≡ parsed host guest
    → (split_once text ≡ some (host, guest)) × (is_empty host ≡ false) × (is_empty guest ≡ false)
unfolding preopen_from_str
preopen_from_str-split text host guest e = ground arith

preopen_from_str-join :
    (text host guest : Bytes)
    → split_once text ≡ some (host, guest)
    → is_empty host ≡ false
    → is_empty guest ≡ false
    → preopen_from_str text ≡ parsed host guest
unfolding preopen_from_str
preopen_from_str-join text host guest e full named = ground arith

-- `Preopen::from_str` accepts exactly the texts HOST=GUEST with two parts that are not empty, the first
-- without '=', and gives back both.
pub preopen_from_str_lem :
    (text host guest : Bytes)
    → (preopen_from_str text ≡ parsed host guest) ↔ (
        (text ≡ host ++ (equals ∷ guest))
        × (is_empty host ≡ false)
        × (is_empty guest ≡ false)
        × All (λ b. (b == equals) ≡ false) host)
unfolding preopen_from_str
preopen_from_str_lem text host guest = (
  λ e.
      let (at, full, named) = preopen_from_str-split text host guest e in
      let (same, all) = split_once-some text host guest at in (same, full, named, all),
  λ (same, full, named, all).
      preopen_from_str-join text host guest (ap split_once same ∙ split_once-append host guest all)
        full named,
)

-- The process succeeds exactly if the guest's status is 0, and its code has eight bits.
pub exit_code_from_i32_lem :
    (status : ℤ)
    → ((exit_code_from_i32 status ≡ 0) ↔ (status ≡ pos 0)) × (exit_code_from_i32 status ≤ 255)
unfolding exit_code_from_i32
exit_code_from_i32_lem (pos n) = ground arith
exit_code_from_i32_lem (negsuc n) = ground arith
