-- ===== src/Runtime/Threads.antt =====
-- The numbers that threads get.
use wasmtime_mysql.Prelude.{
  ℕ, zero, suc, ◌+◌, ◌^◌, ◌<◌, ◌≡◌, Bool, true, false, ltb, if◌then◌else◌, List, [], ◌∷◌, arith,
  some, ℤ, pos, int32, neg_errno, get_elem?,
}
use wasmtime_mysql.Errno.{eagain}
use wasmtime_mysql.Runtime.{spawn_wasi_thread, spawn_all, fetch_add}

fetch_add-int32 : (n : ℕ) → n + 1 < 2 ^ 32 → fetch_add (int32 n) ≡ int32 (n + 1)
fetch_add-int32 n h = ground arith

-- The answer to the call that takes the number n: the number where the thread could be started and the
-- number is an `i32`, and -EAGAIN in all other cases.
abbrev pub answer_for : Bool → ℕ → ℤ
answer_for true n = if ltb n (2 ^ 31) then pos n else neg_errno eagain
answer_for false n = neg_errno eagain

answer_of_number :
    (b : Bool) (n : ℕ) → 0 < n → n < 2 ^ 32 → (spawn_wasi_thread b (int32 n)).0 ≡ answer_for b n
unfolding spawn_wasi_thread
answer_of_number true n h k = ground arith
answer_of_number false n h k = ground arith

spawn_all_from :
    (bs : List Bool) (n k : ℕ) (b : Bool)
    → 0 < n
    → n + k < 2 ^ 32
    → get_elem? bs k ≡ some b
    → get_elem? (spawn_all bs (int32 n)) k ≡ some (answer_for b (n + k))
unfolding spawn_all spawn_wasi_thread
spawn_all_from [] n k b h m e = cc e
spawn_all_from (b ∷ bs) n zero c h m e = ground (arith, answer_of_number b n h)
spawn_all_from (b ∷ bs) n (suc k) c h m e =
    let later = spawn_all_from bs (n + 1) k c (omega arith) (omega arith) e in
    let next : fetch_add (int32 n) ≡ int32 (n + 1) = fetch_add-int32 n (omega arith) in
    rw next (ground (arith, later))

-- The calls take the numbers 1, 2, 3, ...: of the first 2^32 - 1 calls, the one at position k, from 0,
-- is answered with k + 1 where its thread could be started and k + 1 is below 2^31, and with -EAGAIN
-- where it could not, or where the counter has gone beyond `i32::MAX`.
pub spawn_all_lem :
    (bs : List Bool) (k : ℕ) (b : Bool)
    → k + 1 < 2 ^ 32
    → get_elem? bs k ≡ some b
    → get_elem? (spawn_all bs (pos 1)) k ≡ some (answer_for b (k + 1))
spawn_all_lem bs k b h e =
    let all = spawn_all_from bs 1 k b (omega arith) (omega arith) e in ground (arith, all)
