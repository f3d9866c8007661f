-- ===== src/TcpConnection.antt =====
-- include/tcp_connection.h, class TcpConnection: the options of the stored descriptor. The results of
-- setsockopt and getsockopt are arguments, as functions of the descriptor.
pub mod Options
mod Tests
use tcp_test.Common.{
  Bool, true, false, Option, none, some, if◌then◌else◌, ℤ, pos, negsuc, minus_one, is_negative,
  is_zero,
}

pub record TcpConnection : Type 0 where
  pub sock_fd : ℤ
  pub running : Bool

abbrev pub new_connection : TcpConnection
new_connection = record { sock_fd = minus_one; running = false }

-- The destructor: the descriptor that it closes, if any.
unfoldable pub destroy : TcpConnection → Option ℤ
destroy c = if c.running then (if is_negative c.sock_fd then none else some c.sock_fd) else none

unfoldable pub set_sock_opt : (ℤ → ℤ) → TcpConnection → Bool
set_sock_opt setsockopt c = if is_negative c.sock_fd then false else is_zero (setsockopt c.sock_fd)

-- The value, where the call succeeds.
unfoldable pub get_sock_opt : (ℤ → ℤ × ℤ) → TcpConnection → Option ℤ
get_sock_opt getsockopt c =
    let (result, value) = getsockopt c.sock_fd in
    if is_negative c.sock_fd then none else if is_zero result then some value else none

-- The options of the two buffers; a size is an `int`.
pub data BufferOption : Type 0 where
  send_buffer receive_buffer : BufferOption

unfoldable pub set_send_buffer_size : (ℤ → BufferOption → ℤ → ℤ) → TcpConnection → ℤ → Bool
set_send_buffer_size setsockopt c size = set_sock_opt (λ fd. setsockopt fd send_buffer size) c

unfoldable pub set_receive_buffer_size : (ℤ → BufferOption → ℤ → ℤ) → TcpConnection → ℤ → Bool
set_receive_buffer_size setsockopt c size = set_sock_opt (λ fd. setsockopt fd receive_buffer size) c

abbrev pub or_minus_one : Option ℤ → ℤ
or_minus_one none = minus_one
or_minus_one (some size) = size

unfoldable pub get_send_buffer_size : (ℤ → BufferOption → ℤ × ℤ) → TcpConnection → ℤ
get_send_buffer_size getsockopt c = or_minus_one (get_sock_opt (λ fd. getsockopt fd send_buffer) c)

unfoldable pub get_receive_buffer_size : (ℤ → BufferOption → ℤ × ℤ) → TcpConnection → ℤ
get_receive_buffer_size getsockopt c =
    or_minus_one (get_sock_opt (λ fd. getsockopt fd receive_buffer) c)
