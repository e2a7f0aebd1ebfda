-- ===== src/Errno/Table.antt =====
-- The translation of host errno numbers as a table, and what it does for each number.
use wasmtime_mysql.Prelude.{◌≡◌, refl, Bool, true, false, ◌∙◌, ◌&&◌, ◌||◌, List, [], ◌∷◌, arith}
use wasmtime_mysql.Prelude.{ℤ, ◌==ℤ◌, ==ℤ_iff, ==ℤ_refl, if◌then◌else◌, All, All-map}
use wasmtime_mysql.Errno.{
  HostErrno, from_host_errno, e2big, eacces, eaddrinuse, eaddrnotavail, eafnosupport, eagain,
  ealready, ebadf, ebusy, econnaborted, econnrefused, econnreset, edestaddrreq, eexist, efault,
  efbig, ehostunreach, einprogress, eintr, einval, eio, eisconn, eisdir, eloop, emfile, emsgsize,
  enametoolong, enetdown, enetreset, enetunreach, enfile, enobufs, enodev, enoent, enomem,
  enoprotoopt, enospc, enosys, enotconn, enotdir, enotempty, enotsock, enotsup, eoverflow, eperm,
  epipe, eprotonosupport, eprototype, erange, erofs, espipe, etimedout,
}

-- The first entry of a key, or a default.
abbrev pub lookup_or : ℤ → ℤ → List (ℤ × ℤ) → ℤ
lookup_or d k [] = d
lookup_or d k ((h, g) ∷ t) = if k ==ℤ h then g else lookup_or d k t

abbrev agrees_with : ℤ → ℤ → List (ℤ × ℤ) → Bool
agrees_with h g [] = true
agrees_with h g ((k, e) ∷ t) = (if h ==ℤ k then g ==ℤ e else true) && agrees_with h g t

-- Entries of the same key have the same value.
unfoldable pub is_consistent : List (ℤ × ℤ) → Bool
is_consistent [] = true
is_consistent ((h, g) ∷ t) = agrees_with h g t && is_consistent t

-- Each host number beside the guest number of the same name.
abbrev pub errno_table : HostErrno → List (ℤ × ℤ)
errno_table libc =
    (libc.e2big, e2big)
    ∷ (libc.eacces, eacces)
    ∷ (libc.eaddrinuse, eaddrinuse)
    ∷ (libc.eaddrnotavail, eaddrnotavail)
    ∷ (libc.eafnosupport, eafnosupport)
    ∷ (libc.eagain, eagain)
    ∷ (libc.ewouldblock, eagain)
    ∷ (libc.ealready, ealready)
    ∷ (libc.ebadf, ebadf)
    ∷ (libc.ebusy, ebusy)
    ∷ (libc.econnaborted, econnaborted)
    ∷ (libc.econnrefused, econnrefused)
    ∷ (libc.econnreset, econnreset)
    ∷ (libc.edestaddrreq, edestaddrreq)
    ∷ (libc.eexist, eexist)
    ∷ (libc.efault, efault)
    ∷ (libc.efbig, efbig)
    ∷ (libc.ehostunreach, ehostunreach)
    ∷ (libc.einprogress, einprogress)
    ∷ (libc.eintr, eintr)
    ∷ (libc.einval, einval)
    ∷ (libc.eisconn, eisconn)
    ∷ (libc.eisdir, eisdir)
    ∷ (libc.eloop, eloop)
    ∷ (libc.emfile, emfile)
    ∷ (libc.emsgsize, emsgsize)
    ∷ (libc.enametoolong, enametoolong)
    ∷ (libc.enetdown, enetdown)
    ∷ (libc.enetreset, enetreset)
    ∷ (libc.enetunreach, enetunreach)
    ∷ (libc.enfile, enfile)
    ∷ (libc.enobufs, enobufs)
    ∷ (libc.enodev, enodev)
    ∷ (libc.enoent, enoent)
    ∷ (libc.enomem, enomem)
    ∷ (libc.enoprotoopt, enoprotoopt)
    ∷ (libc.enospc, enospc)
    ∷ (libc.enosys, enosys)
    ∷ (libc.enotconn, enotconn)
    ∷ (libc.enotdir, enotdir)
    ∷ (libc.enotempty, enotempty)
    ∷ (libc.enotsock, enotsock)
    ∷ (libc.eopnotsupp, enotsup)
    ∷ (libc.enotsup, enotsup)
    ∷ (libc.eoverflow, eoverflow)
    ∷ (libc.eperm, eperm)
    ∷ (libc.epipe, epipe)
    ∷ (libc.eprotonosupport, eprotonosupport)
    ∷ (libc.eprototype, eprototype)
    ∷ (libc.erange, erange)
    ∷ (libc.erofs, erofs)
    ∷ (libc.espipe, espipe)
    ∷ (libc.etimedout, etimedout)
    ∷ []

if_or {ℓ} :
    {A : Type ℓ} (a b : Bool) (x y : A)
    → (if a || b then x else y) ≡ (if a then x else if b then x else y)
if_or a b x y = ground arith

pub from_host_errno-lookup_or :
    (libc : HostErrno) (code : ℤ)
    → from_host_errno libc code ≡ lookup_or eio code (errno_table libc)
unfolding from_host_errno
from_host_errno-lookup_or libc code = simp if_or

abbrev Hits : (List (ℤ × ℤ)) → ℤ × ℤ → Type 0
Hits t (h, g) = lookup_or eio h t ≡ g

-- An entry further down is found through entries that agree with it.
lookup_or-agrees :
    (h g k e : ℤ) (t : List (ℤ × ℤ))
    → (if h ==ℤ k then g ==ℤ e else true) ≡ true
    → lookup_or eio k t ≡ e
    → lookup_or eio k ((h, g) ∷ t) ≡ e
lookup_or-agrees h g k e t a b = ground (arith, ==ℤ_iff h k, ==ℤ_iff k h, ==ℤ_iff g e)

All-Hits-cons :
    (h g : ℤ) (t us : List (ℤ × ℤ))
    → agrees_with h g us ≡ true
    → All (Hits t) us
    → All (Hits ((h, g) ∷ t)) us
All-Hits-cons h g t [] a b = tt
All-Hits-cons h g t ((k, e) ∷ us) a (b, bs) =
    (lookup_or-agrees h g k e t (ground arith) b, All-Hits-cons h g t us (ground arith) bs)

is_consistent-Hits : (t : List (ℤ × ℤ)) → is_consistent t ≡ true → All (Hits t) t
unfolding is_consistent
is_consistent-Hits [] c = tt
is_consistent-Hits ((h, g) ∷ t) c =
    (rw (==ℤ_refl h), All-Hits-cons h g t t (ground arith) (is_consistent-Hits t (ground arith)))

lookup_or-miss :
    (k : ℤ) (t : List (ℤ × ℤ)) → All (λ (h, _). (k ==ℤ h) ≡ false) t → lookup_or eio k t ≡ eio
lookup_or-miss k [] m = refl
lookup_or-miss k ((h, g) ∷ t) (m, ms) = rw (m) (lookup_or-miss k t ms)

-- Each host number that `libc` names becomes the guest number of the same name, if no two names of
-- one host number have different guest numbers; every number that no entry names becomes EIO.
pub from_host_errno-errno_table :
    (libc : HostErrno)
    → is_consistent (errno_table libc) ≡ true
    → All (λ (h, g). from_host_errno libc h ≡ g) (errno_table libc)
      × ((code : ℤ)
          → All (λ (h, _). (code ==ℤ h) ≡ false) (errno_table libc)
          → from_host_errno libc code ≡ eio)
from_host_errno-errno_table libc c = (
  All-map (Hits (errno_table libc)) (λ (h, g). from_host_errno libc h ≡ g) (errno_table libc)
      (λ e p. from_host_errno-lookup_or libc e.0 ∙ p) (is_consistent-Hits (errno_table libc) c),
  λ code miss. from_host_errno-lookup_or libc code ∙ lookup_or-miss code (errno_table libc) miss,
)
