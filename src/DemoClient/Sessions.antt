-- ===== src/DemoClient/Sessions.antt =====
-- client.cpp, connect and main of class Client: the set-up of the socket, the checksum flag, and the
-- messages of a thread.
use tcp_test.Common.{
  ℕ, zero, suc, ◌+◌, Bool, true, false, not, List, [], ◌∷◌, ◌++◌, if◌then◌else◌, ℤ, is_negative,
}
use tcp_test.Common.Text.{Text, same_text}
use tcp_test.Common.Decimal.{to_string}
use tcp_test.TcpClient.{Call, opens, spawns}
use tcp_test.DemoClient.{Client, send_message}

-- `connect`, with what socket, setsockopt, inet_pton (is it positive?) and `::connect` return.
unfoldable pub connect : ℤ → ℤ → Bool → ℤ → Bool × List Call
connect sock_fd option_set address connected =
    if is_negative sock_fd
    then (false, [])
    else if is_negative option_set
    then (false, opens sock_fd ∷ [])
    else if not address
    then (false, opens sock_fd ∷ [])
    else if is_negative connected
    then (false, opens sock_fd ∷ [])
    else (true, opens sock_fd ∷ spawns ∷ spawns ∷ [])

-- "--checksum"
unfoldable pub checksum_flag : Text
checksum_flag = 45 ∷ 45 ∷ 99 ∷ 104 ∷ 101 ∷ 99 ∷ 107 ∷ 115 ∷ 117 ∷ 109 ∷ []

-- The loop over the arguments.
unfoldable pub enables_checksum : Bool → List Text → Bool
enables_checksum enabled [] = enabled
enables_checksum enabled (argument ∷ arguments) =
    enables_checksum (if same_text argument checksum_flag then true else enabled) arguments

-- "来自Stream " and " 的消息 #", as UTF-8
unfoldable pub from_stream : Text
from_stream = 230 ∷ 157 ∷ 165 ∷ 232 ∷ 135 ∷ 170 ∷ 83 ∷ 116 ∷ 114 ∷ 101 ∷ 97 ∷ 109 ∷ 32 ∷ []

unfoldable pub message_number : Text
message_number = 32 ∷ 231 ∷ 154 ∷ 132 ∷ 230 ∷ 182 ∷ 136 ∷ 230 ∷ 129 ∷ 175 ∷ 32 ∷ 35 ∷ []

unfoldable pub message_text : ℕ → ℕ → Text
message_text stream_id j = from_stream ++ (to_string stream_id ++ (message_number ++ to_string j))

-- The loop of a thread, from the counter `j` on.
unfoldable pub send_messages : ℕ → ℕ → ℕ → ℕ → Client → Client
send_messages uninitialised stream_id zero j c = c
send_messages uninitialised stream_id (suc rounds) j c =
    send_messages uninitialised stream_id rounds (j + 1)
      (send_message uninitialised c (message_text stream_id j) stream_id)

-- The body of the thread `i`.
unfoldable pub thread_body : ℕ → ℕ → Client → Client
thread_body uninitialised i c = send_messages uninitialised (i + 1) 5 0 c
