-- ===== src/RpcClient/Threads/Tests.antt =====
-- Two threads: the second registers first, and the first has its answer while the second waits.
use tcp_test.Common.{◌+◌, ◌≡◌, ◌⊎◌, refl, true, false, [], ◌∷◌, ◌++◌, arith, pos}
use tcp_test.Common.OrdMap.{find, assign, erase}
use tcp_test.TcpClient
use tcp_test.RpcClient.{test_message, from_thread, of_stream_text, message_number}
use tcp_test.Common.Decimal.{to_string, digits}
use tcp_test.Frame.{serialize, put_word, calculate_checksum}
use tcp_test.TcpClient.{
  write, write_loop, connect, get_next_stream_id, register, deliver, request_frame,
}
use tcp_test.Handler.{create_frame}
use tcp_test.RpcServer.{greeting}
use tcp_test.RpcServer.Answers.{answer}
use tcp_test.RpcClient.{got_response, no_response}
use tcp_test.RpcClient.Threads.{
  waiting, done, Session, message_of, takes, registers, sends, serves, delivers, returns, Reach,
  start, next,
}
use tcp_test.RpcClient.Threads.Isolation.{Prints, threads-own, waiting-Prints}

both_wait :
    (s : Session) × Reach 2 false 9 8 s
    × (s.torn ≡ false)
    × (s.phases 0 ≡ waiting 0 1)
    × (s.phases 1 ≡ waiting 1 0)
unfolding connect get_next_stream_id register write write_loop serialize put_word request_frame
    calculate_checksum test_message from_thread to_string digits of_stream_text message_number
both_wait = (
  _,
  next
      (next
        (next
          (next
            (next (next (start (pos 3) true (pos 0) refl refl) (takes 0 (omega arith) refl refl))
              (takes 1 (omega arith) refl refl))
            (registers 1 1 refl refl))
          (registers 0 0 refl refl))
        (sends 0 0 1 (TcpClient.sends 200 ∷ []) _ refl refl refl))
      (sends 1 1 0 (TcpClient.sends 200 ∷ []) _ refl refl refl),
  refl,
  refl,
  refl,
)

waiting-Prints_example : Prints 2 false 9 8 1 both_wait.0
waiting-Prints_example =
    waiting-Prints 2 false 9 8 1 1 0 (omega arith) both_wait.1 both_wait.2 both_wait.4

one_printed :
    (s : Session) × Reach 2 false 9 8 s
    × (s.torn ≡ false)
    × (s.phases 0 ≡ done (got_response 1 (greeting ++ message_of 0)))
    × (s.phases 1 ≡ waiting 1 0)
unfolding both_wait deliver find assign erase answer create_frame request_frame get_next_stream_id
    register connect
one_printed = (
  _,
  next
      (next (next both_wait.1 (serves (request_frame 9 0 (message_of 0)) _ refl refl))
        (delivers (answer 8 (request_frame 9 0 (message_of 0))) [] _ refl refl refl))
      (returns 0 0 1 (greeting ++ message_of 0) refl refl refl),
  refl,
  refl,
  refl,
)

threads-own_example :
    (got_response 1 (greeting ++ message_of 0) ≡ no_response (0 + 1))
    ⊎ (got_response 1 (greeting ++ message_of 0) ≡ got_response (0 + 1) (greeting ++ message_of 0))
threads-own_example =
    threads-own 2 false 9 8 0 (got_response 1 (greeting ++ message_of 0)) (omega arith)
      one_printed.1 one_printed.2 one_printed.3
