-- ===== src/Errno.antt =====
-- src/guest_errno.rs: the errno numbers of the guest, and the translations of host errors to them.
-- The numbers of the host are `libc`'s, which differ by platform: a value of `HostErrno`.
pub mod Table
pub mod Range
use wasmtime_mysql.Prelude.{ℕ, Bool, ◌||◌, if◌then◌else◌, ◌==◌}
use wasmtime_mysql.Prelude.{ℤ, pos, negsuc, ◌==ℤ◌}

abbrev pub e2big : ℤ
e2big = pos 1

abbrev pub eacces : ℤ
eacces = pos 2

abbrev pub eaddrinuse : ℤ
eaddrinuse = pos 3

abbrev pub eaddrnotavail : ℤ
eaddrnotavail = pos 4

abbrev pub eafnosupport : ℤ
eafnosupport = pos 5

abbrev pub eagain : ℤ
eagain = pos 6

abbrev pub ealready : ℤ
ealready = pos 7

abbrev pub ebadf : ℤ
ebadf = pos 8

abbrev pub ebusy : ℤ
ebusy = pos 10

abbrev pub econnaborted : ℤ
econnaborted = pos 13

abbrev pub econnrefused : ℤ
econnrefused = pos 14

abbrev pub econnreset : ℤ
econnreset = pos 15

abbrev pub edestaddrreq : ℤ
edestaddrreq = pos 17

abbrev pub eexist : ℤ
eexist = pos 20

abbrev pub efault : ℤ
efault = pos 21

abbrev pub efbig : ℤ
efbig = pos 22

abbrev pub ehostunreach : ℤ
ehostunreach = pos 23

abbrev pub einprogress : ℤ
einprogress = pos 26

abbrev pub eintr : ℤ
eintr = pos 27

abbrev pub einval : ℤ
einval = pos 28

abbrev pub eio : ℤ
eio = pos 29

abbrev pub eisconn : ℤ
eisconn = pos 30

abbrev pub eisdir : ℤ
eisdir = pos 31

abbrev pub eloop : ℤ
eloop = pos 32

abbrev pub emfile : ℤ
emfile = pos 33

abbrev pub emsgsize : ℤ
emsgsize = pos 35

abbrev pub enametoolong : ℤ
enametoolong = pos 37

abbrev pub enetdown : ℤ
enetdown = pos 38

abbrev pub enetreset : ℤ
enetreset = pos 39

abbrev pub enetunreach : ℤ
enetunreach = pos 40

abbrev pub enfile : ℤ
enfile = pos 41

abbrev pub enobufs : ℤ
enobufs = pos 42

abbrev pub enodev : ℤ
enodev = pos 43

abbrev pub enoent : ℤ
enoent = pos 44

abbrev pub enomem : ℤ
enomem = pos 48

abbrev pub enoprotoopt : ℤ
enoprotoopt = pos 50

abbrev pub enospc : ℤ
enospc = pos 51

abbrev pub enosys : ℤ
enosys = pos 52

abbrev pub enotconn : ℤ
enotconn = pos 53

abbrev pub enotdir : ℤ
enotdir = pos 54

abbrev pub enotempty : ℤ
enotempty = pos 55

abbrev pub enotsock : ℤ
enotsock = pos 57

abbrev pub enotsup : ℤ
enotsup = pos 58

abbrev pub eopnotsupp : ℤ
eopnotsupp = enotsup

abbrev pub eoverflow : ℤ
eoverflow = pos 61

abbrev pub eperm : ℤ
eperm = pos 63

abbrev pub epipe : ℤ
epipe = pos 64

abbrev pub eprotonosupport : ℤ
eprotonosupport = pos 66

abbrev pub eprototype : ℤ
eprototype = pos 67

abbrev pub erange : ℤ
erange = pos 68

abbrev pub erofs : ℤ
erofs = pos 69

abbrev pub espipe : ℤ
espipe = pos 70

abbrev pub etimedout : ℤ
etimedout = pos 73

abbrev pub enotcapable : ℤ
enotcapable = pos 76

-- `libc::E2BIG` and the others.
pub record HostErrno : Type 0 where
  pub e2big : ℤ
  pub eacces : ℤ
  pub eaddrinuse : ℤ
  pub eaddrnotavail : ℤ
  pub eafnosupport : ℤ
  pub eagain : ℤ
  pub ewouldblock : ℤ
  pub ealready : ℤ
  pub ebadf : ℤ
  pub ebusy : ℤ
  pub econnaborted : ℤ
  pub econnrefused : ℤ
  pub econnreset : ℤ
  pub edestaddrreq : ℤ
  pub eexist : ℤ
  pub efault : ℤ
  pub efbig : ℤ
  pub ehostunreach : ℤ
  pub einprogress : ℤ
  pub eintr : ℤ
  pub einval : ℤ
  pub eisconn : ℤ
  pub eisdir : ℤ
  pub eloop : ℤ
  pub emfile : ℤ
  pub emsgsize : ℤ
  pub enametoolong : ℤ
  pub enetdown : ℤ
  pub enetreset : ℤ
  pub enetunreach : ℤ
  pub enfile : ℤ
  pub enobufs : ℤ
  pub enodev : ℤ
  pub enoent : ℤ
  pub enomem : ℤ
  pub enoprotoopt : ℤ
  pub enospc : ℤ
  pub enosys : ℤ
  pub enotconn : ℤ
  pub enotdir : ℤ
  pub enotempty : ℤ
  pub enotsock : ℤ
  pub eopnotsupp : ℤ
  pub enotsup : ℤ
  pub eoverflow : ℤ
  pub eperm : ℤ
  pub epipe : ℤ
  pub eprotonosupport : ℤ
  pub eprototype : ℤ
  pub erange : ℤ
  pub erofs : ℤ
  pub espipe : ℤ
  pub etimedout : ℤ

unfoldable pub from_host_errno : HostErrno → ℤ → ℤ
from_host_errno libc code =
    if code ==ℤ libc.e2big
    then e2big
    else if code ==ℤ libc.eacces
    then eacces
    else if code ==ℤ libc.eaddrinuse
    then eaddrinuse
    else if code ==ℤ libc.eaddrnotavail
    then eaddrnotavail
    else if code ==ℤ libc.eafnosupport
    then eafnosupport
    else if code ==ℤ libc.eagain || code ==ℤ libc.ewouldblock
    then eagain
    else if code ==ℤ libc.ealready
    then ealready
    else if code ==ℤ libc.ebadf
    then ebadf
    else if code ==ℤ libc.ebusy
    then ebusy
    else if code ==ℤ libc.econnaborted
    then econnaborted
    else if code ==ℤ libc.econnrefused
    then econnrefused
    else if code ==ℤ libc.econnreset
    then econnreset
    else if code ==ℤ libc.edestaddrreq
    then edestaddrreq
    else if code ==ℤ libc.eexist
    then eexist
    else if code ==ℤ libc.efault
    then efault
    else if code ==ℤ libc.efbig
    then efbig
    else if code ==ℤ libc.ehostunreach
    then ehostunreach
    else if code ==ℤ libc.einprogress
    then einprogress
    else if code ==ℤ libc.eintr
    then eintr
    else if code ==ℤ libc.einval
    then einval
    else if code ==ℤ libc.eisconn
    then eisconn
    else if code ==ℤ libc.eisdir
    then eisdir
    else if code ==ℤ libc.eloop
    then eloop
    else if code ==ℤ libc.emfile
    then emfile
    else if code ==ℤ libc.emsgsize
    then emsgsize
    else if code ==ℤ libc.enametoolong
    then enametoolong
    else if code ==ℤ libc.enetdown
    then enetdown
    else if code ==ℤ libc.enetreset
    then enetreset
    else if code ==ℤ libc.enetunreach
    then enetunreach
    else if code ==ℤ libc.enfile
    then enfile
    else if code ==ℤ libc.enobufs
    then enobufs
    else if code ==ℤ libc.enodev
    then enodev
    else if code ==ℤ libc.enoent
    then enoent
    else if code ==ℤ libc.enomem
    then enomem
    else if code ==ℤ libc.enoprotoopt
    then enoprotoopt
    else if code ==ℤ libc.enospc
    then enospc
    else if code ==ℤ libc.enosys
    then enosys
    else if code ==ℤ libc.enotconn
    then enotconn
    else if code ==ℤ libc.enotdir
    then enotdir
    else if code ==ℤ libc.enotempty
    then enotempty
    else if code ==ℤ libc.enotsock
    then enotsock
    else if code ==ℤ libc.eopnotsupp || code ==ℤ libc.enotsup
    then enotsup
    else if code ==ℤ libc.eoverflow
    then eoverflow
    else if code ==ℤ libc.eperm
    then eperm
    else if code ==ℤ libc.epipe
    then epipe
    else if code ==ℤ libc.eprotonosupport
    then eprotonosupport
    else if code ==ℤ libc.eprototype
    then eprototype
    else if code ==ℤ libc.erange
    then erange
    else if code ==ℤ libc.erofs
    then erofs
    else if code ==ℤ libc.espipe
    then espipe
    else if code ==ℤ libc.etimedout
    then etimedout
    else eio

-- `cfg(windows)`: the codes of `GetLastError`.
unfoldable pub from_windows_error : ℤ → ℤ
from_windows_error code =
    if code ==ℤ pos 2 || code ==ℤ pos 3
    then enoent
    else if code ==ℤ pos 5
    then eacces
    else if code ==ℤ pos 6
    then ebadf
    else if code ==ℤ pos 8 || code ==ℤ pos 14
    then enomem
    else if code ==ℤ pos 19
    then erofs
    else if code ==ℤ pos 32
    then ebusy
    else if code ==ℤ pos 33
    then eagain
    else if code ==ℤ pos 80 || code ==ℤ pos 183
    then eexist
    else if code ==ℤ pos 87
    then einval
    else if code ==ℤ pos 112
    then enospc
    else if code ==ℤ pos 145
    then enotempty
    else if code ==ℤ pos 267
    then enotdir
    else if code ==ℤ pos 995
    then eintr
    else eio
