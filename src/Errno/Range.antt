-- ===== src/Errno/Range.antt =====
-- The guest numbers that the translations give: all are errno numbers of the WASI enumeration, none
-- is 0, so their negations are negative and no error can be taken for a result.
use wasmtime_mysql.Prelude.{◌≤◌, ◌≡◌, List, [], ◌∷◌, arith, ℤ, pos, negsuc, ◌==ℤ◌}
use wasmtime_mysql.Prelude.{
  All, if◌then◌else◌, true, false, Bool, subst, sym, neg_errno, is_negative,
}
use wasmtime_mysql.Errno.{HostErrno, eio, from_host_errno, from_windows_error}
use wasmtime_mysql.Errno.Table.{lookup_or, errno_table, from_host_errno-lookup_or}

-- The numbers of the WASI Preview 1 enumeration but 0, which is success.
abbrev pub IsErrno : ℤ → Type 0
IsErrno (pos n) = (1 ≤ n) × (n ≤ 76)
IsErrno (negsuc n) = ⊥

IsErrno-if : (b : Bool) (x y : ℤ) → IsErrno x → IsErrno y → IsErrno (if b then x else y)
IsErrno-if true x y p q = p
IsErrno-if false x y p q = q

pub lookup_or-IsErrno :
    (d k : ℤ) (t : List (ℤ × ℤ))
    → IsErrno d
    → All (λ (_, g). IsErrno g) t
    → IsErrno (lookup_or d k t)
lookup_or-IsErrno d k [] p ps = p
lookup_or-IsErrno d k ((h, g) ∷ t) p (q, qs) =
    IsErrno-if (k ==ℤ h) g (lookup_or d k t) q (lookup_or-IsErrno d k t p qs)

-- Every host error becomes an errno of the guest's, whatever the host's numbers are.
pub from_host_errno-IsErrno : (libc : HostErrno) (code : ℤ) → IsErrno (from_host_errno libc code)
from_host_errno-IsErrno libc code =
    subst IsErrno (sym (from_host_errno-lookup_or libc code))
      (lookup_or-IsErrno eio code (errno_table libc) (omega arith) (omega arith))

-- Every Windows error becomes an errno of the guest's.
pub from_windows_error-IsErrno : (code : ℤ) → IsErrno (from_windows_error code)
unfolding from_windows_error
from_windows_error-IsErrno code = ground arith

pub neg_errno_negative : (e : ℤ) → IsErrno e → is_negative (neg_errno e) ≡ true
neg_errno_negative e h = ground arith
