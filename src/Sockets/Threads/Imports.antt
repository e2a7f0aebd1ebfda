-- ===== src/Sockets/Threads/Imports.antt =====
-- Each import of src/host_sockets.rs as a program.
use wasmtime_mysql.Prelude.{Bool}
use wasmtime_mysql.Errno.{HostErrno}
use wasmtime_mysql.Guest.{read_guest, checked_len}
use wasmtime_mysql.Sockets.{write_sockaddr_family, normalize_socket_level}
use wasmtime_mysql.Sockets.Host.{Net}
use wasmtime_mysql.Sockets.Calls.{or_return, local, peer}
use wasmtime_mysql.Guest.{read_u32}
use wasmtime_mysql.Sockets.History.{
  Call, socket, bind, listen, accept, connect, getsockname, getpeername, setsockopt, getsockopt,
  send, recv, sendto, recvfrom, shutdown, close, fcntl, poll,
}
use wasmtime_mysql.Sockets.Threads.{Program}
use wasmtime_mysql.Sockets.Threads.Programs.{
  fails, reads, asks, answers_i32, answers_ssize, with_socket, socket_program, accept_program,
  sock_name_program, getsockopt_program, received_program, received_from_program, fcntl_program,
  poll_program, buffer_program, close_program,
}

module _ (libc : HostErrno) (net : Net) (network_allowed : Bool) where
  open net use {World}

  unfoldable pub program : Call → Program World
  program (socket domain ty protocol) = socket_program libc net network_allowed domain ty protocol
  program (bind fd ptr len) =
      buffer_program libc net fd ptr len λ s addr.
        answers_i32 libc net (net.bind s.raw_fd (write_sockaddr_family addr s.host_domain))
  program (listen fd backlog) =
      with_socket libc net fd λ s. answers_i32 libc net (net.listen s.raw_fd backlog)
  program (accept fd ptr len_ptr) = accept_program libc net fd ptr len_ptr
  program (connect fd ptr len) = buffer_program libc net fd ptr len λ s addr.
      answers_i32 libc net (net.connect s.raw_fd (write_sockaddr_family addr s.host_domain))
  program (getsockname fd ptr len_ptr) = sock_name_program libc net fd ptr len_ptr local
  program (getpeername fd ptr len_ptr) = sock_name_program libc net fd ptr len_ptr peer
  program (setsockopt fd level name ptr len) = buffer_program libc net fd ptr len λ s optval.
      answers_i32 libc net
        (net.setsockopt s.raw_fd (normalize_socket_level libc net level) name optval)
  program (getsockopt fd level name ptr len_ptr) =
      getsockopt_program libc net fd level name ptr len_ptr
  program (send fd ptr len flags) =
      buffer_program libc net fd ptr len
        λ s buf. answers_ssize libc net (net.send s.raw_fd buf flags)
  program (recv fd ptr len flags) = with_socket libc net fd λ s.
      or_return (checked_len len) fails
        λ n. asks (net.recv s.raw_fd n flags) (received_program libc net ptr)
  program (sendto fd ptr len flags addr_ptr addr_len) = buffer_program libc net fd ptr len λ s buf.
      reads (λ m. read_guest m addr_ptr addr_len)
        λ addr.
          answers_ssize libc net
            (net.sendto s.raw_fd buf flags (write_sockaddr_family addr s.host_domain))
  program (recvfrom fd ptr len flags addr_ptr len_ptr) = with_socket libc net fd λ s.
      or_return (checked_len len) fails λ n.
        reads (λ m. read_u32 m len_ptr)
          λ addr_len.
            asks (net.recvfrom s.raw_fd n flags addr_len)
              (received_from_program libc net s ptr addr_ptr len_ptr)
  program (shutdown fd how) =
      with_socket libc net fd λ s. answers_i32 libc net (net.shutdown s.raw_fd how)
  program (close fd) = close_program libc net fd
  program (fcntl fd cmd arg) = with_socket libc net fd λ s. fcntl_program libc net s.raw_fd cmd arg
  program (poll ptr nfds timeout) = poll_program libc net ptr nfds timeout
