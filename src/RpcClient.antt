-- ===== src/RpcClient.antt =====
-- src/rpc_client.cpp, class RpcClient: every thread sends one message and prints the response. A printed
-- line is its contents.
pub mod Answered
pub mod Threads
mod Tests
use tcp_test.Common.{
  ℕ, zero, suc, ◌+◌, ◌%◌, ◌^◌, Bool, true, false, Option, none, some, List, [], ◌∷◌, ◌++◌,
  if◌then◌else◌, ℤ,
}
use tcp_test.Common.Text.{Text}
use tcp_test.Common.Decimal.{to_string}
use tcp_test.Frame.{Frame}
use tcp_test.TcpClient.{
  TcpClient, SendResult, Call, connect, answered, unanswered, pending, send_and_wait_response,
}

-- "来自线程 ", " Stream " and " 的消息 #", as UTF-8
unfoldable pub from_thread : Text
from_thread = 230 ∷ 157 ∷ 165 ∷ 232 ∷ 135 ∷ 170 ∷ 231 ∷ 186 ∷ 191 ∷ 231 ∷ 168 ∷ 139 ∷ 32 ∷ []

unfoldable pub of_stream_text : Text
of_stream_text = 32 ∷ 83 ∷ 116 ∷ 114 ∷ 101 ∷ 97 ∷ 109 ∷ 32 ∷ []

unfoldable pub message_number : Text
message_number = 32 ∷ 231 ∷ 154 ∷ 132 ∷ 230 ∷ 182 ∷ 136 ∷ 230 ∷ 129 ∷ 175 ∷ 32 ∷ 35 ∷ []

unfoldable pub test_message : ℕ → ℕ → Text
test_message thread_id stream_id =
    from_thread
    ++ (to_string thread_id
        ++ (of_stream_text ++ (to_string stream_id ++ (message_number ++ to_string 1))))

-- A line that a thread prints: the response, or that there was none.
pub data Printed : Type 0 where
  got_response : ℕ → Text → Printed
  no_response : ℕ → Printed

-- `sendTestMessages`; its loop has one round, with the thread's id for the stream's. `none` where the
-- request does not return.
unfoldable pub send_test_messages :
    Bool
    → ℕ
    → TcpClient
    → ℕ
    → List SendResult
    → List Frame
    → List Frame
    → Option (Printed × TcpClient)
send_test_messages enabled uninitialised c thread_id results during late =
    let (stream_id, end) =
      send_and_wait_response enabled uninitialised c (test_message thread_id thread_id) results
        during late in
    elim end [
      | answered text c' ↦ some (got_response thread_id text, c')
      | unanswered c' ↦ some (no_response thread_id, c')
      | pending ↦ none
    ]

-- The ids of the threads, from the counter `i` on.
unfoldable pub thread_ids : ℕ → ℕ → List ℕ
thread_ids zero i = []
thread_ids (suc rounds) i = (i + 1) ∷ thread_ids rounds (i + 1)

-- `startMultiThreadTest`: the threads that it starts, and the client.
unfoldable pub start_multi_thread_test :
    TcpClient → ℤ → Bool → ℤ → ℕ → List ℕ × TcpClient × List Call
start_multi_thread_test c descriptor address connected num_threads =
    let (success, c', calls) = connect c descriptor address connected in
    if success then (thread_ids num_threads 0, c', calls) else ([], c', calls)
